-- ===== src/Dns/ResponseCache.antt =====
-- The answer cache of src/modules/dns/mod.rs. An instant is a number of milliseconds, and the instants
-- that a call reads are its arguments.
pub mod Bounds
pub mod Ttl
pub mod Skips
pub mod Least
pub mod Store
use shield_ghita.Prelude.{
  ℕ, zero, suc, ◌+◌, ◌-◌, ◌*◌, ◌/◌, ◌%◌, ◌^◌, ◌≤◌, ◌<◌, ◌≡◌, refl, sym, ap, ◌∙◌, ◌↔◌, ◌⊎◌, ◌≢◌, inl,
  inr, Bool, true, false, not, ◌&&◌, ◌||◌, Option, none, some, List, [], ◌∷◌, ◌++◌, map, arith,
  Bytes, Key, ◌==◌, nat_eq, bytes_eq, pair_eq, ltb, leb, if◌then◌else◌, Bool-cases, Option-cases,
  is_empty, any, all, max, min, length, take, drop, get_elem?, contains, set_insert, set_remove,
  retain, IsIn, any-intro, any-elim, contains-IsIn, IsIn-contains, IsIn-retain, retain-IsIn,
  contains-set_insert, contains-set_remove, nat_beq_iff, bytes_beq_iff, ==_refl, ||-eq-true,
  &&-eq-true, get, insert, remove, get-insert, get-remove, length-insert-le, length-remove-le,
  length-retain-le, length-append, length-take, length-drop, tests, take-append_length,
  drop-append_length, insert_by_rank, sort_by_rank, remove_all, length-insert_by_rank,
  insert_by_rank-IsIn, length-sort_by_rank, sort_by_rank-IsIn, length-remove-lt,
  length-remove_all-le, remove_some, remove_all-IsIn, remove_all-IsUnique, not_ltb→le, not_leb→lt,
  ltb→lt, le→leb, IsUnique, insert-IsIn, remove-IsIn, get-IsIn, IsIn-get, insert-IsUnique,
  remove-IsUnique, retain-IsUnique, map-IsIn, IsIn-map,
}
use Prim.Native.Nat.{bit_and}
use shield_ghita.Text.{to_lowercase}
use shield_ghita.Outcome.{Outcome, ret, panic, out_of_fuel, ◌>>=◌, byte, slice}
use shield_ghita.Dns.Wire.{is_pointer}
use shield_ghita.Dns.Rebinding.{read_u16}

-- The loop over the question's name, from a value of `guard` that allows some more rounds. The result is the
-- position behind the name and the new `guard`.
unfoldable pub skip_ttl_question : ℕ → Bytes → ℕ → ℕ → Outcome (Option (ℕ × ℕ))
skip_ttl_question zero resp pos guard =
    if leb (length resp) pos then ret (some (pos, guard)) else ret none
skip_ttl_question (suc rounds) resp pos guard =
    if leb (length resp) pos then ret (some (pos, guard)) else do
      len_byte ← byte resp pos
      if is_pointer len_byte
          then ret (some (pos + 2, guard + 1))
          else if len_byte == 0
          then ret (some (pos + 1, guard + 1))
          else skip_ttl_question rounds resp (pos + 1 + len_byte) (guard + 1)

-- The loop over an answer's name, where `label_guard` allows some more rounds.
unfoldable pub skip_ttl_labels : ℕ → Bytes → ℕ → Outcome (Option ℕ)
skip_ttl_labels zero resp pos = if leb (length resp) pos then ret (some pos) else ret none
skip_ttl_labels (suc rounds) resp pos = if leb (length resp) pos then ret (some pos) else do
  l ← byte resp pos
  if is_pointer l
      then ret (some (pos + 2))
      else if not (bit_and l 0xC0 == 0)
      then ret none
      else if l == 0
      then ret (some (pos + 1))
      else skip_ttl_labels rounds resp (pos + 1 + l)

unfoldable pub skip_ttl_name : Bytes → ℕ → Outcome (Option ℕ)
skip_ttl_name resp pos = do
  first ← byte resp pos
  if is_pointer first then ret (some (pos + 2)) else skip_ttl_labels 128 resp pos

-- `u32::from_be_bytes`
unfoldable pub read_u32 : Bytes → ℕ → Outcome ℕ
read_u32 resp pos = do
  high ← read_u16 resp pos
  low ← read_u16 resp (pos + 2)
  ret (high * 0x10000 + low)

-- The loop over the answers: how many are left, the position, `guard`, and the least TTL so far.
unfoldable pub min_ttl_from : ℕ → Bytes → ℕ → ℕ → ℕ → Outcome (Option ℕ)
min_ttl_from zero resp pos guard min_ttl = ret (some min_ttl)
min_ttl_from (suc count) resp pos guard min_ttl =
    if leb 256 guard || leb (length resp) pos then ret (some min_ttl) else do
      named ← skip_ttl_name resp pos
      elim named [
        | none ↦ ret none
        | some p ↦ if ltb (length resp) (p + 10) then ret (some min_ttl) else do
          ttl ← read_u32 resp (p + 4)
          rdlength ← read_u16 resp (p + 8)
          min_ttl_from count resp (p + 10 + rdlength) (guard + 1) (min min_ttl ttl)
      ]

abbrev pub max_u32 : ℕ
max_u32 = 0xFFFFFFFF

abbrev pub known_ttl : Option ℕ → Option ℕ
known_ttl none = none
known_ttl (some min_ttl) = if min_ttl == max_u32 then none else some min_ttl

abbrev pub ttl_after : ℕ → Bytes → Option (ℕ × ℕ) → Outcome (Option ℕ)
ttl_after count resp none = ret none
ttl_after count resp (some (pos, guard)) = do
  least ← min_ttl_from count resp (pos + 4) guard max_u32
  ret (known_ttl least)

unfoldable pub extract_min_ttl : Bytes → Outcome (Option ℕ)
extract_min_ttl resp = if ltb (length resp) 12 then ret none else do
  an_count ← read_u16 resp 6
  if an_count == 0
      then ret none
      else do question ← skip_ttl_question 128 resp 12 0; ttl_after an_count resp question

abbrev pub ttl_or_ten : Option ℕ → ℕ
ttl_or_ten none = 10
ttl_or_ten (some ttl) = ttl

unfoldable pub cache_ttl_seconds : Bytes → Outcome ℕ
cache_ttl_seconds resp = do ttl ← extract_min_ttl resp; ret (max 1 (min 60 (ttl_or_ten ttl)))

pub record CachedResponse : Type 0 where
  pub response : Bytes
  pub inserted : ℕ
  pub ttl : ℕ

abbrev pub ResponseCache : Type 0
ResponseCache = List ((Bytes × ℕ) × CachedResponse)

abbrev pub is_live : ℕ → CachedResponse → Bool
is_live now c = ltb (now - c.inserted) (c.ttl * 1000)

abbrev pub set_id : ℕ → ℕ → Bytes → Bytes
set_id a b (_ ∷ _ ∷ resp) = a ∷ b ∷ resp
set_id a b resp = resp

abbrev pub answer_from : Option CachedResponse → Bytes → ℕ → Outcome (Option Bytes)
answer_from none pkt now = ret none
answer_from (some c) pkt now =
    if not (is_live now c && leb 12 (length c.response))
    then ret none
    else do first ← byte pkt 0; second ← byte pkt 1; ret (some (set_id first second c.response))

unfoldable pub cached_response_for : ResponseCache → Bytes → ℕ → Bytes → ℕ → Outcome (Option Bytes)
cached_response_for cache name qtype pkt now =
    answer_from (get cache (to_lowercase name, qtype)) pkt now

abbrev pub stays_live : ℕ → CachedResponse → Bool
stays_live now c = ltb (now - c.inserted) (max c.ttl 1 * 1000)

abbrev pub oldest_entries : ResponseCache → List ((Bytes × ℕ) × ℕ)
oldest_entries cache =
    take (length cache - 5000) (sort_by_rank (map (λ entry. (entry.0, entry.1.inserted)) cache))

-- What a full cache sheds before an insertion: over 5000 entries, those that are over, and then, over
-- 5500, the oldest down to 5000.
unfoldable pub shed_entries : ResponseCache → ℕ → ResponseCache
shed_entries cache now =
    let live = retain (λ entry. stays_live now entry.1) cache in
    if ltb 5000 (length cache)
    then (if ltb 5500 (length live) then remove_all (oldest_entries live) live else live)
    else cache

unfoldable pub store_cache_response : ResponseCache → Bytes → ℕ → Bytes → ℕ → Outcome ResponseCache
store_cache_response cache name qtype resp now = do
  ttl ← cache_ttl_seconds resp
  ret (
      insert (to_lowercase name, qtype) (record { response = resp; inserted = now; ttl = ttl })
        (shed_entries cache now))
