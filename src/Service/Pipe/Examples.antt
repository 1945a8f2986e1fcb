-- ===== src/Service/Pipe/Examples.antt =====
-- Tests and examples of the control session, src/modules/service/pipe.rs. A request is its text.
use shield_ghita.Prelude.{
  List, ℕ, ◌+◌, ◌≡◌, refl, true, false, Option, none, some, [], ◌∷◌, Bytes, ◌==◌, nat_eq, bytes_eq,
  pair_eq, if◌then◌else◌,
}
use shield_ghita.Text.{codes}
use shield_ghita.Service.Pipe.{
  encode_frame, decode_frame_prefix, closed, broken, read_frame, constant_time_eq, Messages,
  handle_client,
}
use shield_ghita.Service.Pipe.Framing.{encode_frames, frames_of, session, handle_client-session}

abbrev token_in : Bytes → Option Bytes
token_in [] = none
token_in (b ∷ text) = if b == b'H' then some text else none

abbrev texts : Messages Bytes Bytes
texts = record {
  parse = λ payload. some payload;
  hello_token = token_in;
  print = λ text. text;
  ok = codes "ok";
  auth_error = codes "auth";
  bad_request = codes "bad_request";
}

abbrev count_request : ℕ → Bytes → ℕ × Bytes
count_request n request = (n + 1, request)

tokens_differ : constant_time_eq (codes "abc") (codes "abd") ≡ false
unfolding constant_time_eq
tokens_differ = refl

tokens_agree : constant_time_eq (codes "abc") (codes "abc") ≡ true
unfolding constant_time_eq
tokens_agree = refl

empty_frame : read_frame (0 ∷ 0 ∷ 0 ∷ 0 ∷ 7 ∷ []) ≡ broken
unfolding read_frame decode_frame_prefix
empty_frame = refl

cut_frame : read_frame (2 ∷ 0 ∷ 0 ∷ 0 ∷ 7 ∷ []) ≡ broken
unfolding read_frame decode_frame_prefix
cut_frame = refl

cut_prefix : read_frame (2 ∷ 0 ∷ []) ≡ closed
unfolding read_frame decode_frame_prefix
cut_prefix = refl

abbrev payloads : List Bytes
payloads = codes "Hsecret" ∷ codes "status" ∷ codes "rescan" ∷ []

encoded_payloads : encode_frames payloads ≡ some (frames_of payloads)
unfolding encode_frame
encoded_payloads = refl

handle_client-session_example :
    handle_client texts count_request (codes "secret") 0 (frames_of payloads)
    ≡ session texts count_request (codes "secret") 0 payloads
handle_client-session_example =
    handle_client-session texts count_request (codes "secret") 0 payloads (frames_of payloads)
      encoded_payloads refl

-- Both requests are answered, after the greeting.
two_requests :
    (session texts count_request
      (codes "secret")
      0
      (codes "Hsecret" ∷ codes "status" ∷ codes "rescan" ∷ [])).0
    ≡ 2
unfolding constant_time_eq encode_frame
two_requests = refl

no_token :
    (session texts count_request (codes "secret") 0 (codes "Hwrong" ∷ codes "status" ∷ [])).0 ≡ 0
unfolding constant_time_eq encode_frame
no_token = refl
