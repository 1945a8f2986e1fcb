-- ===== src/Dns/ResponseCache/Ttl.antt =====
-- The time to live that src/modules/dns/mod.rs reads from a response.
use shield_ghita.Prelude.{
  ℕ, zero, suc, ◌+◌, ◌*◌, ◌≤◌, ◌<◌, ◌≡◌, refl, inl, inr, Bool, true, false, not, ◌||◌, Option, none,
  some, arith, Bytes, ◌==◌, nat_eq, bytes_eq, pair_eq, ltb, leb, Option-cases, max, min, length,
  not_ltb→le, not_leb→lt,
}
use shield_ghita.Outcome.{ret, byte, Returns, Returns-bind, byte-Returns}
use shield_ghita.Dns.Wire.{is_pointer}
use shield_ghita.Dns.Rebinding.{read_u16}
use shield_ghita.Dns.Rebinding.Total.{Returns-if, read_u16-Returns}
use shield_ghita.Dns.ResponseCache.{
  skip_ttl_question, skip_ttl_labels, skip_ttl_name, read_u32, min_ttl_from, max_u32, known_ttl,
  ttl_after, extract_min_ttl, ttl_or_ten, cache_ttl_seconds,
}
use Prim.Native.Nat.{bit_and}

skip_ttl_question-Returns :
    (rounds : ℕ) (resp : Bytes) (pos guard : ℕ) → Returns (skip_ttl_question rounds resp pos guard)
unfolding skip_ttl_question
skip_ttl_question-Returns zero resp pos guard =
    Returns-if (leb (length resp) pos) _ _ (λ h. (some (pos, guard), refl)) (λ h. (none, refl))
skip_ttl_question-Returns (suc rounds) resp pos guard =
    Returns-if (leb (length resp) pos) _ _ (λ h. (some (pos, guard), refl))
      (λ h. Returns-bind (byte resp pos) _ (byte-Returns resp pos (not_leb→lt _ _ h)) (λ b e.
        Returns-if (is_pointer b) _ _ (λ p. (some (pos + 2, guard + 1), refl))
          (λ np.
            Returns-if (b == 0) _ _ (λ z. (some (pos + 1, guard + 1), refl))
              (λ nz. skip_ttl_question-Returns rounds resp (pos + 1 + b) (guard + 1)))))

skip_ttl_labels-Returns :
    (rounds : ℕ) (resp : Bytes) (pos : ℕ) → Returns (skip_ttl_labels rounds resp pos)
unfolding skip_ttl_labels
skip_ttl_labels-Returns zero resp pos =
    Returns-if (leb (length resp) pos) _ _ (λ h. (some pos, refl)) (λ h. (none, refl))
skip_ttl_labels-Returns (suc rounds) resp pos =
    Returns-if (leb (length resp) pos) _ _ (λ h. (some pos, refl))
      (λ h. Returns-bind (byte resp pos) _ (byte-Returns resp pos (not_leb→lt _ _ h)) (λ b e.
        Returns-if (is_pointer b) _ _ (λ p. (some (pos + 2), refl))
          (λ np.
            Returns-if (not (bit_and b 0xC0 == 0)) _ _ (λ x. (none, refl))
              (λ nx.
                Returns-if (b == 0) _ _ (λ z. (some (pos + 1), refl))
                  (λ nz. skip_ttl_labels-Returns rounds resp (pos + 1 + b))))))

skip_ttl_name-Returns :
    (resp : Bytes) (pos : ℕ) → pos < length resp → Returns (skip_ttl_name resp pos)
unfolding skip_ttl_name
skip_ttl_name-Returns resp pos h = Returns-bind (byte resp pos) _ (byte-Returns resp pos h) (λ b e.
    Returns-if (is_pointer b) _ _ (λ p. (some (pos + 2), refl))
      (λ np. skip_ttl_labels-Returns 128 resp pos))

read_u32-Returns : (resp : Bytes) (pos : ℕ) → pos + 3 < length resp → Returns (read_u32 resp pos)
unfolding read_u32
read_u32-Returns resp pos h =
    Returns-bind (read_u16 resp pos) _ (read_u16-Returns resp pos (omega (arith, h))) (λ high e.
      Returns-bind (read_u16 resp (pos + 2)) _ (read_u16-Returns resp (pos + 2) (omega (arith, h)))
        (λ low e'. (high * 0x10000 + low, refl)))

min_ttl_from-Returns :
    (count : ℕ) (resp : Bytes) (pos guard least : ℕ)
    → Returns (min_ttl_from count resp pos guard least)
unfolding min_ttl_from
min_ttl_from-Returns zero resp pos guard least = (some least, refl)
min_ttl_from-Returns (suc count) resp pos guard least =
    Returns-if (leb 256 guard || leb (length resp) pos) _ _ (λ h. (some least, refl))
      (λ h.
        Returns-bind (skip_ttl_name resp pos) _
          (skip_ttl_name-Returns resp pos (not_leb→lt _ _ (second (leb 256 guard) h)))
          (λ named e. elim (Option-cases named) [
            | inl n ↦ rw n (none, refl)
            | inr (p, n) ↦ rw n (
                Returns-if (ltb (length resp) (p + 10)) _ _ (λ short. (some least, refl))
                  (λ room.
                    let fixed = not_ltb→le _ _ room in
                    Returns-bind (read_u32 resp (p + 4)) _
                      (read_u32-Returns resp (p + 4) (omega (arith, fixed)))
                      (λ ttl e1.
                        Returns-bind (read_u16 resp (p + 8)) _
                          (read_u16-Returns resp (p + 8) (omega (arith, fixed)))
                          (λ size e2.
                            min_ttl_from-Returns count resp (p + 10 + size) (guard + 1)
                              (min least ttl)))))
          ]))
  where
    second : (a : Bool) {b : Bool} → (a || b) ≡ false → b ≡ false
    second true h = cc
    second false h = h

ttl_after-Returns :
    (count : ℕ) (resp : Bytes) (question : Option (ℕ × ℕ)) → Returns (ttl_after count resp question)
ttl_after-Returns count resp none = (none, refl)
ttl_after-Returns count resp (some (pos, guard)) =
    Returns-bind (min_ttl_from count resp (pos + 4) guard max_u32) _
      (min_ttl_from-Returns count resp (pos + 4) guard max_u32) (λ least e. (known_ttl least, refl))

extract_min_ttl-Returns : (resp : Bytes) → Returns (extract_min_ttl resp)
unfolding extract_min_ttl
extract_min_ttl-Returns resp =
    Returns-if (ltb (length resp) 12) _ _ (λ short. (none, refl))
      (λ room.
        Returns-bind (read_u16 resp 6) _
          (read_u16-Returns resp 6 (omega (arith, not_ltb→le _ _ room)))
          (λ count e.
            Returns-if (count == 0) _ _ (λ z. (none, refl))
              (λ nz.
                Returns-bind (skip_ttl_question 128 resp 12 0) _
                  (skip_ttl_question-Returns 128 resp 12 0)
                  (λ question e1. ttl_after-Returns count resp question))))

-- On every response the TTL for the cache is read without an index out of range, and lies between one
-- and sixty seconds.
pub cache_ttl_seconds_bounds :
    (resp : Bytes) → (ttl : ℕ) × (cache_ttl_seconds resp ≡ ret ttl) × (1 ≤ ttl) × (ttl ≤ 60)
unfolding cache_ttl_seconds
cache_ttl_seconds_bounds resp =
    let (ttl, e) = extract_min_ttl-Returns resp in
    (max 1 (min 60 (ttl_or_ten ttl)), rw e refl, omega arith, omega arith)

-- The TTL for the cache is the least one that is read, ten seconds if none is, held between one and
-- sixty seconds.
pub cache_ttl_seconds-extract_min_ttl :
    (resp : Bytes)
    → (least : Option ℕ) × (extract_min_ttl resp ≡ ret least)
      × (cache_ttl_seconds resp ≡ ret (max 1 (min 60 (ttl_or_ten least))))
unfolding cache_ttl_seconds
cache_ttl_seconds-extract_min_ttl resp =
    let (least, e) = extract_min_ttl-Returns resp in (least, e, rw e refl)
