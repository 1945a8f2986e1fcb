-- ===== src/Service/Pipe/Framing.antt =====
-- The session of src/modules/service/pipe.rs over the payloads of its frames.
use shield_ghita.Prelude.{
  any, is_empty, Option, none, some, Bool-cases, not_ltb→le, inl, inr, ℕ, zero, suc, ◌+◌, ◌^◌, ◌≤◌,
  ◌<◌, ◌≡◌, refl, ap, ◌∙◌, false, List, [], ◌∷◌, ◌++◌, arith, Bytes, ◌==◌, nat_eq, bytes_eq,
  pair_eq, ltb, if◌then◌else◌, length, length-append, take-append_length, drop-append_length,
}
use shield_ghita.Dns.DiskStore.{from_le, to_le}
use shield_ghita.Dns.DiskStore.Build.Layout.{from_le-to_le_4}
use shield_ghita.Service.Pipe.{
  max_frame_bytes, encode_frame, decode_frame_prefix, closed, broken, frame, read_frame, Messages,
  is_hello, answer, write_then, serve_requests, greet, handle_client,
}

-- A payload that a frame can carry.
abbrev pub IsPayload : Bytes → Type 0
IsPayload payload = (0 < length payload) × (length payload ≤ max_frame_bytes)

-- The bytes of the frames.
abbrev pub frames_of : List Bytes → Bytes
frames_of [] = []
frames_of (payload ∷ payloads) = to_le 4 (length payload) ++ (payload ++ frames_of payloads)

-- What is written as a frame is read back, and no more.
pub read_frame-frames_of :
    (payload : Bytes) (payloads : List Bytes)
    → IsPayload payload
    → read_frame (frames_of (payload ∷ payloads)) ≡ frame payload (frames_of payloads)
unfolding read_frame decode_frame_prefix
read_frame-frames_of payload payloads (some_byte, fits) =
    let rest = payload ++ frames_of payloads in
    let len : from_le (to_le 4 (length payload)) ≡ length payload =
      from_le-to_le_4 (length payload) (small (length payload) fits) in
    let long : ltb (suc (suc (suc (suc (length rest))))) 4 ≡ false =
      not_under 4 (suc (suc (suc (suc (length rest))))) (four (length rest)) in
    let nonzero : (length payload == 0) ≡ false = positive (length payload) some_byte in
    let bounded : ltb max_frame_bytes (length payload) ≡ false =
      not_over max_frame_bytes (length payload) fits in
    let whole : ltb (length rest) (length payload) ≡ false =
      not_over (length rest) (length payload) (
        prefix (length payload) (length (frames_of payloads)) _
          (length-append payload (frames_of payloads))) in
    rw
      (
        long,
        len,
        nonzero,
        bounded,
        whole,
        take-append_length payload (frames_of payloads),
        drop-append_length payload (frames_of payloads),
      )
      refl
  where
    small : (n : ℕ) → n ≤ max_frame_bytes → n < 2 ^ 32
    small n h = omega (arith, h)

    four : (n : ℕ) → 4 ≤ suc (suc (suc (suc n)))
    four n = omega arith

    not_under : (a b : ℕ) → a ≤ b → ltb b a ≡ false
    not_under a b h = ground (arith, h)

    not_over : (a b : ℕ) → b ≤ a → ltb a b ≡ false
    not_over a b h = ground (arith, h)

    positive : (n : ℕ) → 0 < n → (n == 0) ≡ false
    positive n h = ground (arith, h)

    prefix : (a b whole : ℕ) → whole ≡ a + b → a ≤ whole
    prefix a b whole e = omega (arith, e)

-- Every payload of the list can be carried.
abbrev pub ArePayloads : List Bytes → Type 0
ArePayloads [] = Unit
ArePayloads (payload ∷ payloads) = IsPayload payload × ArePayloads payloads

abbrev pub append_frames : Option Bytes → Option Bytes → Option Bytes
append_frames none rest = none
append_frames (some first) none = none
append_frames (some first) (some rest) = some (first ++ rest)

-- What a client sends: the frames of its payloads, if each of them fits.
abbrev pub encode_frames : List Bytes → Option Bytes
encode_frames [] = some []
encode_frames (payload ∷ payloads) = append_frames (encode_frame payload) (encode_frames payloads)

encode_frame-fits :
    (payload first : Bytes)
    → encode_frame payload ≡ some first
    → (length payload ≤ max_frame_bytes) × (first ≡ to_le 4 (length payload) ++ payload)
unfolding encode_frame
encode_frame-fits payload first e = elim (Bool-cases (ltb max_frame_bytes (length payload))) [
  | inl over ↦ absurd (never (rw over at e))
  | inr fits ↦ (not_ltb→le _ _ fits, same (rw fits at e))
]
  where
    never : none ≡ some first → ⊥
    never h = cc h

    same :
        some (to_le 4 (length payload) ++ payload) ≡ some first
        → first ≡ to_le 4 (length payload) ++ payload
    same h = cc h

append_frames-some :
    (first rest : Option Bytes) (input : Bytes)
    → append_frames first rest ≡ some input
    → (a : Bytes) × (b : Bytes) × (first ≡ some a) × (rest ≡ some b) × (input ≡ a ++ b)
append_frames-some none rest input e = absurd (cc e)
append_frames-some (some a) none input e = absurd (cc e)
append_frames-some (some a) (some b) input e = (a, b, refl, refl, cc e)

encode_frames-frames_of :
    (payloads : List Bytes) (input : Bytes)
    → encode_frames payloads ≡ some input
    → any is_empty payloads ≡ false
    → ArePayloads payloads × (input ≡ frames_of payloads)
encode_frames-frames_of [] input e h = (tt, cc e)
encode_frames-frames_of ([] ∷ payloads) input e h = absurd (cc h)
encode_frames-frames_of ((b ∷ payload) ∷ payloads) input e h =
    let (first, rest, one, more, whole) =
      append_frames-some (encode_frame (b ∷ payload)) (encode_frames payloads) input e in
    let (fits, bytes) = encode_frame-fits (b ∷ payload) first one in
    let (later, others) = encode_frames-frames_of payloads rest more h in
    (((positive (length payload), fits), later), whole ∙ rw (bytes, others) refl)
  where
    positive : (n : ℕ) → 0 < suc n
    positive n = omega arith

length-frames_of-le : (payloads : List Bytes) → length payloads ≤ length (frames_of payloads)
length-frames_of-le [] = omega arith
length-frames_of-le (payload ∷ payloads) =
    omega (arith, length-append payload (frames_of payloads), length-frames_of-le payloads)

module _ {State Request Response : Type 0} (m : Messages Request Response)
    (dispatch : State → Request → State × Response) where
  -- The session as a run over payloads.
  abbrev pub answer_all : State → List Bytes → State × Bytes
  answer_all s [] = (s, [])
  answer_all s (payload ∷ payloads) =
      let (after, response) = answer m dispatch s (m.parse payload) in
      write_then m dispatch after (encode_frame (m.print response)) (answer_all after payloads)

  abbrev pub session : Bytes → State → List Bytes → State × Bytes
  session token s [] = (s, [])
  session token s (first ∷ payloads) =
      if is_hello m dispatch token (m.parse first)
      then write_then m dispatch s (encode_frame (m.print m.ok)) (answer_all s payloads)
      else write_then m dispatch s (encode_frame (m.print m.auth_error)) (s, [])

  serve_requests-frames_of :
      (rounds : ℕ) (s : State) (payloads : List Bytes)
      → ArePayloads payloads
      → length payloads ≤ rounds
      → serve_requests m dispatch rounds s (frames_of payloads) ≡ answer_all s payloads
  unfolding serve_requests read_frame
  serve_requests-frames_of zero s [] v h = refl
  serve_requests-frames_of (suc rounds) s [] v h = refl
  serve_requests-frames_of zero s (payload ∷ payloads) v h = absurd (omega (arith, h))
  serve_requests-frames_of (suc rounds) s (payload ∷ payloads) (here, later) h =
      let step = answer m dispatch s (m.parse payload) in
      ap
        (λ f. elim f [
          | closed ↦ (s, [])
          | broken ↦ (s, [])
          | frame p rest ↦
              write_then m dispatch (answer m dispatch s (m.parse p)).0
                (encode_frame (m.print (answer m dispatch s (m.parse p)).1))
                (serve_requests m dispatch rounds (answer m dispatch s (m.parse p)).0 rest)
        ])
        (read_frame-frames_of payload payloads here)
      ∙ ap (write_then m dispatch step.0 (encode_frame (m.print step.1)))
          (serve_requests-frames_of rounds step.0 payloads later (omega (arith, h)))

  session-frames_of :
      (token : Bytes) (s : State) (payloads : List Bytes)
      → ArePayloads payloads
      → handle_client m dispatch token s (frames_of payloads) ≡ session token s payloads
  unfolding handle_client read_frame
  session-frames_of token s [] v = refl
  session-frames_of token s (first ∷ payloads) (here, later) =
      ap (greet m dispatch token s) (read_frame-frames_of first payloads here)
      ∙ ap
          (λ served.
            if is_hello m dispatch token (m.parse first)
            then write_then m dispatch s (encode_frame (m.print m.ok)) served
            else write_then m dispatch s (encode_frame (m.print m.auth_error)) (s, []))
          (serve_requests-frames_of (length (frames_of payloads)) s payloads later
            (length-frames_of-le payloads))

  -- On the frames of payloads that are not empty, the session does what the run over the payloads does:
  -- without the token first, the state stays and only the error is written; with it, each request is
  -- answered in its order, and one that is not parsed changes nothing.
  pub handle_client-session :
      (token : Bytes) (s : State) (payloads : List Bytes) (input : Bytes)
      → encode_frames payloads ≡ some input
      → any is_empty payloads ≡ false
      → handle_client m dispatch token s input ≡ session token s payloads
  handle_client-session token s payloads input e h =
      let (fit, same) = encode_frames-frames_of payloads input e h in
      rw same (session-frames_of token s payloads fit)
