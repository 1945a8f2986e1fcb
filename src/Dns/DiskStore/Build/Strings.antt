-- ===== src/Dns/DiskStore/Build/Strings.antt =====
-- The strings that a build of src/modules/dns/disk_store.rs places, and the items that refer to them.
use shield_ghita.Prelude.{
  ℕ, zero, suc, ◌+◌, ◌^◌, ◌<◌, ◌≡◌, refl, sym, ap, ◌∙◌, inl, inr, Bool, true, ◌&&◌, some, List, [],
  ◌∷◌, ◌++◌, arith, Bytes, nat_eq, bytes_eq, pair_eq, leb, any, length, get_elem?, retain, IsIn,
  &&-eq-true, length-append, take-append_length, drop-append_length, ltb→lt, le→leb,
}
use shield_ghita.Dns.FastCache.{u64_mod, hash_domain, hash_domain-lt}
use shield_ghita.Dns.DiskStore.{get_range}
use shield_ghita.Dns.DiskStore.Search.{any_from}
use shield_ghita.Dns.DiskStore.Build.{concat_map, Placed, place, strings_fit}
use shield_ghita.Dns.DiskStore.Build.Layout.{append_assoc}

-- An item stands for a domain, whose string is in the file behind a base.
pub record IsPlaced (file : Bytes) (base : ℕ) (p : Placed) (domain : Bytes) : Type 0 where
  pub hash : p.hash ≡ hash_domain domain
  pub size : p.size ≡ length domain
  pub string : get_range file (base + p.offset) p.size ≡ some domain

-- The fields of an item fit in their bytes.
pub record HasRoom (p : Placed) : Type 0 where
  pub hash : p.hash < u64_mod
  pub offset : p.offset < 2 ^ 32
  pub size : p.size < 2 ^ 16

get_range_part :
    (front domain tail : Bytes)
    → get_range (front ++ (domain ++ tail)) (length front) (length domain) ≡ some domain
get_range_part front domain tail =
    let whole = length-append front (domain ++ tail) in
    let inside : leb (length front + length domain) (length (front ++ (domain ++ tail))) ≡ true =
      le→leb _ _ (omega (arith, whole, length-append domain tail)) in
    rw (inside, drop-append_length front (domain ++ tail), take-append_length domain tail) refl

-- A test on the items that agrees with a test on the domains.
pub any-place :
    (file : Bytes) (base : ℕ) (on_item : Placed → Bool) (on_domain : Bytes → Bool)
    → ((p : Placed) (d : Bytes) → IsPlaced file base p d → on_item p ≡ on_domain d)
    → (off : ℕ) (front : Bytes) (ds : List Bytes) → file ≡ front ++ concat_map (λ d. d) ds
    → length front ≡ base + off
    → any on_item (place off ds) ≡ any on_domain ds
any-place file base on_item on_domain agree off front [] whole at = refl
any-place file base on_item on_domain agree off front (d ∷ ds) whole at =
    let here : IsPlaced file base (record { hash = hash_domain d; offset = off; size = length d })
        d =
      record {
        hash = refl;
        size = refl;
        string = rw (whole, sym at) (get_range_part front d (concat_map (λ d. d) ds));
      } in
    let rest =
      any-place file base on_item on_domain agree (off + length d) (front ++ d) ds
        (whole ∙ sym (append_assoc front d (concat_map (λ d. d) ds)))
        (omega (arith, length-append front d, at)) in
    rw (agree _ d here, rest) refl

pub place-HasRoom :
    (off : ℕ) (ds : List Bytes) (p : Placed)
    → strings_fit off ds ≡ true
    → IsIn p (place off ds)
    → HasRoom p
place-HasRoom off [] p fits i = absurd i
place-HasRoom off (d ∷ ds) p fits (inl same) =
    let (here, rest) = &&-eq-true _ _ fits in
    let (near, short) = &&-eq-true _ _ here in
    rw same (record { hash = hash_domain-lt d; offset = ltb→lt _ _ near; size = ltb→lt _ _ short })
place-HasRoom off (d ∷ ds) p fits (inr later) =
    let (here, rest) = &&-eq-true _ _ fits in place-HasRoom (off + length d) ds p rest later

pub length-place : (off : ℕ) (ds : List Bytes) → length (place off ds) ≡ length ds
length-place off [] = refl
length-place off (d ∷ ds) = ap (λ i. suc i) (length-place (off + length d) ds)

module _ {A : Type 0} where
  pub any-retain : (p q : A → Bool) (xs : List A) → any p (retain q xs) ≡ any (λ x. q x && p x) xs
  any-retain p q [] = refl
  any-retain p q (x ∷ xs) = ground (arith, any-retain p q xs)

  pub get_elem?-IsIn : (xs : List A) (i : ℕ) (x : A) → get_elem? xs i ≡ some x → IsIn x xs
  get_elem?-IsIn [] i x e = absurd (cc e)
  get_elem?-IsIn (y ∷ ys) zero x e = inl (cc e)
  get_elem?-IsIn (y ∷ ys) (suc i) x e = inr (get_elem?-IsIn ys i x e)

  pub get_elem?-some : (xs : List A) (i : ℕ) → i < length xs → (x : A) × (get_elem? xs i ≡ some x)
  get_elem?-some [] i h = absurd (omega (arith, h))
  get_elem?-some (x ∷ xs) zero h = (x, refl)
  get_elem?-some (x ∷ xs) (suc i) h = get_elem?-some xs i (omega (arith, h))

  -- A test on the positions that agrees with a test on the items.
  pub any_from-any :
      (on_index : ℕ → Bool) (on_item : A → Bool) (xs : List A) (j : ℕ)
      → ((i : ℕ) (x : A) → get_elem? xs i ≡ some x → on_index (j + i) ≡ on_item x)
      → any_from (length xs) j on_index ≡ any on_item xs
  any_from-any on_index on_item [] j agree = refl
  any_from-any on_index on_item (x ∷ xs) j agree =
      let first : on_index j ≡ on_item x = ap on_index (start j) ∙ agree 0 x refl in
      let rest =
        any_from-any on_index on_item xs (j + 1)
          (λ i y e. ap on_index (next j i) ∙ agree (suc i) y e) in
      rw (first, rest) refl
    where
      start : (j : ℕ) → j ≡ j + 0
      start j = omega arith

      next : (j i : ℕ) → j + 1 + i ≡ j + suc i
      next j i = omega arith
