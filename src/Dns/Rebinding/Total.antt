-- ===== src/Dns/Rebinding/Total.antt =====
-- The scan of src/modules/dns/mod.rs returns on every response.
use shield_ghita.Prelude.{
  ℕ, zero, suc, ◌+◌, ◌-◌, ◌*◌, ◌<◌, ◌≡◌, refl, Bool, true, false, Option, none, some, arith, Bytes,
  ◌==◌, nat_eq, bytes_eq, pair_eq, ltb, leb, if◌then◌else◌, length, not_ltb→le, not_leb→lt,
}
use shield_ghita.Outcome.{
  Outcome, ret, byte, slice, Returns, Returns-bind, byte-Returns, slice-Returns,
}
use shield_ghita.Dns.Wire.{is_pointer}
use shield_ghita.Dns.Rebinding.{
  is_private_rdata, skip_name, name_rounds, read_u16, skip_questions, scan_answers, scan_from,
  is_private_ip_record,
}

pub Returns-if :
    {A : Type 0} (b : Bool) (x y : Outcome A)
    → (b ≡ true → Returns x)
    → (b ≡ false → Returns y)
    → Returns (if b then x else y)
Returns-if true x y h k = h refl
Returns-if false x y h k = k refl

-- Enough rounds: each moves on by a byte at least.
skip_name-Returns :
    (rounds : ℕ) (resp : Bytes) (pos : ℕ)
    → length resp - pos < rounds
    → Returns (skip_name rounds resp pos)
unfolding skip_name
skip_name-Returns zero resp pos h = absurd (omega (arith, h))
skip_name-Returns (suc rounds) resp pos h =
    Returns-if (leb (length resp) pos) (ret pos) _ (λ over. (pos, refl))
      (λ under.
        Returns-bind (byte resp pos) _ (byte-Returns resp pos (not_leb→lt _ _ under)) (λ len e.
          Returns-if (len == 0) (ret (pos + 1)) _ (λ z. (pos + 1, refl))
            (λ nz.
              Returns-if (is_pointer len) (ret (pos + 2)) _ (λ p. (pos + 2, refl))
                (λ np.
                  skip_name-Returns rounds resp (pos + 1 + len)
                    (omega (arith, h, not_leb→lt _ _ under))))))

pub read_u16-Returns :
    (resp : Bytes) (pos : ℕ) → pos + 1 < length resp → Returns (read_u16 resp pos)
unfolding read_u16
read_u16-Returns resp pos h =
    Returns-bind (byte resp pos) _ (byte-Returns resp pos (omega (arith, h))) (λ high e.
      Returns-bind (byte resp (pos + 1)) _ (byte-Returns resp (pos + 1) h)
        (λ low e'. (high * 256 + low, refl)))

skip_name_enough : (resp : Bytes) (pos : ℕ) → Returns (skip_name (name_rounds resp) resp pos)
skip_name_enough resp pos = skip_name-Returns (name_rounds resp) resp pos (omega arith)

skip_questions-Returns :
    (count : ℕ) (resp : Bytes) (pos : ℕ) → Returns (skip_questions count resp pos)
unfolding skip_questions
skip_questions-Returns zero resp pos = (some pos, refl)
skip_questions-Returns (suc count) resp pos =
    Returns-bind (skip_name (name_rounds resp) resp pos) _ (skip_name_enough resp pos) (λ pos' e.
      Returns-if (ltb (length resp) (pos' + 4)) (ret none) _ (λ short. (none, refl))
        (λ room. skip_questions-Returns count resp (pos' + 4)))

scan_answers-Returns : (count : ℕ) (resp : Bytes) (pos : ℕ) → Returns (scan_answers count resp pos)
unfolding scan_answers
scan_answers-Returns zero resp pos = (false, refl)
scan_answers-Returns (suc count) resp pos =
    Returns-if (leb (length resp) pos) (ret false) _ (λ over. (false, refl))
      (λ under.
        Returns-bind (skip_name (name_rounds resp) resp pos) _ (skip_name_enough resp pos) (λ p e.
          Returns-if (ltb (length resp) (p + 10)) (ret false) _ (λ short. (false, refl))
            (λ room.
              let fixed = not_ltb→le _ _ room in
              Returns-bind (read_u16 resp p) _ (read_u16-Returns resp p (omega (arith, fixed)))
                (λ rtype e1.
                  Returns-bind (read_u16 resp (p + 8)) _
                    (read_u16-Returns resp (p + 8) (omega (arith, fixed)))
                    (λ size e2.
                      Returns-if (ltb (length resp) (p + 10 + size)) (ret false) _
                        (λ cut. (false, refl))
                        (λ whole.
                          Returns-bind (slice resp (p + 10) (p + 10 + size)) _
                            (slice-Returns resp (p + 10) (p + 10 + size) (omega arith)
                              (not_ltb→le _ _ whole))
                            (λ rdata e3.
                              Returns-if (is_private_rdata rtype rdata) (ret true) _
                                (λ y. (true, refl))
                                (λ n. scan_answers-Returns count resp (p + 10 + size)))))))))

scan_from-Returns :
    (count : ℕ) (resp : Bytes) (start : Option ℕ) → Returns (scan_from count resp start)
scan_from-Returns count resp none = (false, refl)
scan_from-Returns count resp (some pos) = scan_answers-Returns count resp pos

-- On every response, however malformed, the scan for private addresses returns: it indexes nothing
-- out of range, and each of its loops over a name ends within one round for each byte.
pub is_private_ip_record-Returns : (resp : Bytes) → Returns (is_private_ip_record resp)
unfolding is_private_ip_record
is_private_ip_record-Returns resp =
    Returns-if (ltb (length resp) 12) (ret false) _ (λ short. (false, refl))
      (λ room.
        let header = not_ltb→le _ _ room in
        Returns-bind (read_u16 resp 6) _ (read_u16-Returns resp 6 (omega (arith, header)))
          (λ ancount e.
            Returns-if (ancount == 0) (ret false) _ (λ z. (false, refl))
              (λ nz.
                Returns-bind (read_u16 resp 4) _ (read_u16-Returns resp 4 (omega (arith, header)))
                  (λ qdcount e1.
                    Returns-bind (skip_questions qdcount resp 12) _
                      (skip_questions-Returns qdcount resp 12)
                      (λ start e2. scan_from-Returns ancount resp start)))))
