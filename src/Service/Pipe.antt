-- ===== src/Service/Pipe.antt =====
-- The frames of src/modules/service/protocol.rs and the session of src/modules/service/pipe.rs. What the
-- client sends is a list of bytes that ends; the JSON of the messages and `dispatch` are parameters.
pub mod Framing
mod Examples
use Prim.Native.Nat.{bit_or, bit_xor}
use shield_ghita.Prelude.{
  ℕ, zero, suc, ◌+◌, ◌-◌, ◌*◌, ◌/◌, ◌%◌, ◌^◌, ◌≤◌, ◌<◌, ◌≡◌, refl, sym, ap, ◌∙◌, ◌↔◌, ◌⊎◌, ◌≢◌, inl,
  inr, Bool, true, false, not, ◌&&◌, ◌||◌, Option, none, some, List, [], ◌∷◌, ◌++◌, map, arith,
  Bytes, Key, ◌==◌, nat_eq, bytes_eq, pair_eq, ltb, leb, if◌then◌else◌, Bool-cases, Option-cases,
  is_empty, any, all, max, min, length, take, drop, get_elem?, contains, set_insert, set_remove,
  retain, IsIn, any-intro, any-elim, contains-IsIn, IsIn-contains, IsIn-retain, retain-IsIn,
  contains-set_insert, contains-set_remove, nat_beq_iff, bytes_beq_iff, ==_refl, ||-eq-true,
  &&-eq-true, get, insert, remove, get-insert, get-remove, length-insert-le, length-remove-le,
  length-retain-le, length-append, length-take, length-drop, tests, take-append_length,
  drop-append_length, insert_by_rank, sort_by_rank, remove_all, length-insert_by_rank,
  insert_by_rank-IsIn, length-sort_by_rank, sort_by_rank-IsIn, length-remove-lt,
  length-remove_all-le, remove_some, remove_all-IsIn, remove_all-IsUnique, not_ltb→le, not_leb→lt,
  ltb→lt, le→leb, IsUnique, insert-IsIn, remove-IsIn, get-IsIn, IsIn-get, insert-IsUnique,
  remove-IsUnique, retain-IsUnique, map-IsIn, IsIn-map,
}
use shield_ghita.Dns.DiskStore.{from_le, to_le}

abbrev pub max_frame_bytes : ℕ
max_frame_bytes = 262144

unfoldable pub encode_frame : Bytes → Option Bytes
encode_frame payload =
    if ltb max_frame_bytes (length payload)
    then none
    else some (to_le 4 (length payload) ++ payload)

unfoldable pub decode_frame_prefix : Bytes → Option ℕ
decode_frame_prefix prefix =
    let len = from_le prefix in if len == 0 || ltb max_frame_bytes len then none else some len

-- What `read_frame` finds: the end, an error, or a payload and what is left.
pub data Frame : Type 0 where
  closed broken : Frame
  frame : Bytes → Bytes → Frame

abbrev pub read_payload : Bytes → Option ℕ → Frame
read_payload input none = broken
read_payload input (some len) =
    if ltb (length input) len then broken else frame (take len input) (drop len input)

unfoldable pub read_frame : Bytes → Frame
read_frame input =
    if ltb (length input) 4
    then closed
    else read_payload (drop 4 input) (decode_frame_prefix (take 4 input))

abbrev pub diff_bytes : ℕ → Bytes → Bytes → ℕ
diff_bytes diff [] b = diff
diff_bytes diff (x ∷ a) [] = diff
diff_bytes diff (x ∷ a) (y ∷ b) = diff_bytes (bit_or diff (bit_xor x y)) a b

unfoldable pub constant_time_eq : Bytes → Bytes → Bool
constant_time_eq a b = if not (length a == length b) then false else diff_bytes 0 a b == 0

-- The messages, as JSON reads and writes them.
pub record Messages (Request Response : Type 0) : Type 0 where
  pub parse : Bytes → Option Request
  -- The token of a `Hello`.
  pub hello_token : Request → Option Bytes
  pub print : Response → Bytes
  pub ok : Response
  pub auth_error : Response
  pub bad_request : Response

module _ {State Request Response : Type 0} (m : Messages Request Response)
    (dispatch : State → Request → State × Response) where
  abbrev pub is_token : Bytes → Option Bytes → Bool
  is_token token none = false
  is_token token (some candidate) = constant_time_eq candidate token

  abbrev pub is_hello : Bytes → Option Request → Bool
  is_hello token none = false
  is_hello token (some request) = is_token token (m.hello_token request)

  abbrev pub answer : State → Option Request → State × Response
  answer s none = (s, m.bad_request)
  answer s (some request) = dispatch s request

  -- After a frame that is too large the session ends.
  abbrev pub write_then : State → Option Bytes → State × Bytes → State × Bytes
  write_then s none rest = (s, [])
  write_then s (some bytes) rest = (rest.0, bytes ++ rest.1)

  -- The requests of a session, with a number of rounds.
  unfoldable pub serve_requests : ℕ → State → Bytes → State × Bytes
  serve_requests zero s input = (s, [])
  serve_requests (suc rounds) s input = elim (read_frame input) [
    | closed ↦ (s, [])
    | broken ↦ (s, [])
    | frame payload rest ↦
        let (after, response) = answer s (m.parse payload) in
        write_then after (encode_frame (m.print response)) (serve_requests rounds after rest)
  ]

  abbrev pub greet : Bytes → State → Frame → State × Bytes
  greet token s closed = (s, [])
  greet token s broken = (s, [])
  greet token s (frame first rest) =
      if is_hello token (m.parse first)
      then write_then s (encode_frame (m.print m.ok)) (serve_requests (length rest) s rest)
      else write_then s (encode_frame (m.print m.auth_error)) (s, [])

  -- The state after a session, and what was written.
  unfoldable pub handle_client : Bytes → State → Bytes → State × Bytes
  handle_client token s input = greet token s (read_frame input)
