-- ===== src/Dns/FastCache.antt =====
-- `hash_domain` and `FastDomainCache` of src/modules/dns/disk_store.rs: the FNV-1a hash, and the
-- direct-mapped cache of lookup results behind it.
use Prim.Native.Nat.{bit_xor}
use shield_ghita.Prelude.{
  ℕ, ◌+◌, ◌*◌, ◌%◌, ◌^◌, ◌<◌, ◌≡◌, refl, ap, ◌∙◌, Bool, true, false, ◌&&◌, Option, none, some, [],
  ◌∷◌, arith, Bytes, ◌==◌, nat_eq, bytes_eq, if◌then◌else◌,
}
use shield_ghita.Text.{lower_byte, to_lowercase, lower_byte-lower_byte}

abbrev pub u64_mod : ℕ
u64_mod = 2 ^ 64

abbrev fnv_step : ℕ → ℕ → ℕ
fnv_step h b = bit_xor h (lower_byte b) * 0x100000001b3 % u64_mod

abbrev fnv_from : ℕ → Bytes → ℕ
fnv_from h [] = h
fnv_from h (b ∷ s) = fnv_from (fnv_step h b) s

unfoldable pub hash_domain : Bytes → ℕ
hash_domain domain = fnv_from 0xcbf29ce484222325 domain

-- (stored, blocked, occupied), as in the source; the array is a function of its index.
abbrev pub Entry : Type 0
Entry = ℕ × Bool × Bool

pub record FastDomainCache : Type 0 where
  pub entries : ℕ → Entry

abbrev pub vacant : Entry
vacant = (0, false, false)

abbrev pub FastDomainCache_new : FastDomainCache
FastDomainCache_new = record { entries = λ i. vacant }

-- `hash.wrapping_add(1)`, and `& 4095`.
abbrev pub stored_key : ℕ → ℕ
stored_key hash = (hash + 1) % u64_mod

unfoldable pub slot : ℕ → ℕ
slot hash = stored_key hash % 4096

abbrev entry_for : ℕ → Entry → Option Bool
entry_for h (stored, blocked, occupied) = if occupied && stored == h then some blocked else none

unfoldable pub cache_get : FastDomainCache → ℕ → Option Bool
unfolding slot
cache_get c hash = entry_for (stored_key hash) (c.entries (slot hash))

unfoldable pub cache_insert : FastDomainCache → ℕ → Bool → FastDomainCache
unfolding slot
cache_insert c hash blocked = record {
  entries = λ i. if i == slot hash then (stored_key hash, blocked, true) else c.entries i;
}

unfoldable pub cache_clear : FastDomainCache → FastDomainCache
cache_clear c = FastDomainCache_new

fnv_from-lt : (h : ℕ) (s : Bytes) → h < u64_mod → fnv_from h s < u64_mod
fnv_from-lt h [] lt = lt
fnv_from-lt h (b ∷ s) lt = fnv_from-lt (fnv_step h b) s (omega arith)

-- A hash is a 64-bit word.
pub hash_domain-lt : (d : Bytes) → hash_domain d < u64_mod
unfolding hash_domain
hash_domain-lt d = fnv_from-lt _ d (omega arith)

fnv_from-to_lowercase : (h : ℕ) (s : Bytes) → fnv_from h (to_lowercase s) ≡ fnv_from h s
fnv_from-to_lowercase h [] = refl
fnv_from-to_lowercase h (b ∷ s) =
    ap (λ t. fnv_from (bit_xor h t * 0x100000001b3 % u64_mod) (to_lowercase s))
      (lower_byte-lower_byte b)
    ∙ fnv_from-to_lowercase (fnv_step h b) s

-- The hash does not see the case of letters.
pub hash_domain-to_lowercase : (d : Bytes) → hash_domain (to_lowercase d) ≡ hash_domain d
unfolding hash_domain
hash_domain-to_lowercase d = fnv_from-to_lowercase _ d

-- A lookup after an insertion: the same hash finds the new result, another hash of the slot finds
-- nothing any more, and the other slots are as before.
pub cache_get-insert :
    (c : FastDomainCache) (h k : ℕ) (blocked : Bool)
    → h < u64_mod
    → k < u64_mod
    → cache_get (cache_insert c h blocked) k
      ≡ (if h == k then some blocked else if slot k == slot h then none else cache_get c k)
unfolding cache_get cache_insert
cache_get-insert c h k blocked p q = ground arith

pub cache_get-new : (h : ℕ) → cache_get FastDomainCache_new h ≡ none
unfolding cache_get
cache_get-new h = refl
