-- ===== src/Security/Engine/Blocks.antt =====
-- Which sources the temporary blocks of src/modules/security/mod.rs stop, and when.
use shield_ghita.Prelude.{
  ℕ, ◌+◌, ◌≤◌, ◌≡◌, refl, sym, ap, ◌∙◌, inl, inr, Bool, true, false, Option, none, some, List, [],
  ◌∷◌, arith, Bytes, ◌==◌, nat_eq, bytes_eq, pair_eq, ltb, if◌then◌else◌, Bool-cases, length,
  retain, bytes_beq_iff, get, get-insert, IsUnique,
}
use shield_ghita.Security.Engine.{
  SecurityEngine, is_loopback, is_ip_temporarily_blocked, block_ip_temporarily,
}

-- The answer alone.
abbrev pub blocked_at : SecurityEngine → Bytes → ℕ → Bool
blocked_at e ip t = (is_ip_temporarily_blocked e ip t).1

abbrev ends_after : ℕ → Option ℕ → Bool
ends_after t none = false
ends_after t (some expiry) = ltb t expiry

pub blocked_at-get :
    (e : SecurityEngine) (ip : Bytes) (t : ℕ)
    → blocked_at e ip t ≡ ends_after t (get e.blocked_ips ip)
unfolding is_ip_temporarily_blocked
blocked_at-get e ip t = ground arith

-- Dropping the blocks that are over changes no later answer.
live_blocks :
    (blocks : List (Bytes × ℕ)) (now t : ℕ) (ip : Bytes)
    → IsUnique blocks
    → now ≤ t
    → ends_after t (get (retain (λ entry. ltb now entry.1) blocks) ip)
      ≡ ends_after t (get blocks ip)
live_blocks [] now t ip u h = refl
live_blocks ((key, expiry) ∷ blocks) now t ip (new, u) h =
    ground (arith, h, live_blocks blocks now t ip u h, gone, found)
  where
    gone : key ≡ ip → get blocks ip ≡ none
    gone s = ap (λ k. get blocks k) (sym s) ∙ new

    found : (key == ip) ≡ true → key ≡ ip
    found s = (bytes_beq_iff key ip).0 s

-- A block of a source that is not loopback stops it until the duration is over, and leaves every
-- other source as it was, from now on.
pub block_ip_temporarily-blocked_at :
    (e : SecurityEngine) (ip other : Bytes) (duration now t : ℕ)
    → IsUnique e.blocked_ips
    → is_loopback ip ≡ false
    → now ≤ t
    → blocked_at (block_ip_temporarily e ip duration now) other t
      ≡ (if ip == other then ltb t (now + duration) else blocked_at e other t)
unfolding block_ip_temporarily
block_ip_temporarily-blocked_at e ip other duration now t u lo h =
    blocked_at-get (block_ip_temporarily e ip duration now) other t
    ∙ rw (lo, blocked_at-get e other t)
        (elim (Bool-cases (ltb 500 (length e.blocked_ips))) [
          | inl many ↦
              rw
                (
                  many,
                  get-insert ip other (now + duration)
                      (retain (λ entry. ltb now entry.1) e.blocked_ips),
                )
                (if-ends _ _ _ _ (live_blocks e.blocked_ips now t other u h))
          | inr few ↦
              rw (few, get-insert ip other (now + duration) e.blocked_ips) (if-ends _ _ _ _ refl)
        ])
  where
    if-ends :
        (b : Bool) (end : ℕ) (o : Option ℕ) (r : Bool)
        → ends_after t o ≡ r
        → ends_after t (if b then some end else o) ≡ (if b then ltb t end else r)
    if-ends true end o r k = refl
    if-ends false end o r k = k
