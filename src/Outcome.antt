-- ===== src/Outcome.antt =====
-- Results of code that indexes slices: a value, the panic of an index out of range, or a loop that
-- used up the rounds that the model gives it. Reads of a packet stand here too.
use native.Mathlib.Nat.{add-zero}
use native.Mathlib.Numerals.{unary_clauses}
use Prim.Native.Nat.add
use shield_ghita.Prelude.{
  ℕ, Bool, true, false, zero, suc, ◌+◌, ◌-◌, ◌≤◌, ◌<◌, ◌≡◌, refl, sym, ap, ◌∙◌, ◌&&◌, none, some,
  [], ◌∷◌, arith, Bytes, nat_eq, bytes_eq, pair_eq, leb, if◌then◌else◌, length, take, drop,
  get_elem?, length-drop,
}

pub data Outcome (A : Type 0) : Type 0 where
  ret : A → Outcome A
  panic : Outcome A
  out_of_fuel : Outcome A

infixl 5 ◌>>=◌
abbrev pub ◌>>=◌ : {A B : Type 0} → Outcome A → (A → Outcome B) → Outcome B
ret a >>= f = f a
panic >>= f = panic
out_of_fuel >>= f = out_of_fuel

-- The code neither panics nor runs out of rounds.
abbrev pub Returns : {A : Type 0} → Outcome A → Type 0
Returns {A} m = (a : A) × (m ≡ ret a)

pub Returns-bind :
    {A B : Type 0} (m : Outcome A) (f : A → Outcome B)
    → Returns m
    → ((a : A) → m ≡ ret a → Returns (f a))
    → Returns (m >>= f)
Returns-bind (ret a) f h k = k a refl
Returns-bind panic f h k = absurd (cc h.1)
Returns-bind out_of_fuel f h k = absurd (cc h.1)

-- The code returns, and what it returns satisfies a predicate.
abbrev pub Ensures : {A : Type 0} → Outcome A → (A → Type 0) → Type 0
Ensures {A} m P = (a : A) × (m ≡ ret a) × P a

pub Ensures-bind :
    {A B : Type 0} (m : Outcome A) (f : A → Outcome B) (P : B → Type 0)
    → Returns m
    → ((a : A) → m ≡ ret a → Ensures (f a) P)
    → Ensures (m >>= f) P
Ensures-bind (ret a) f P h k = k a refl
Ensures-bind panic f P h k = absurd (cc h.1)
Ensures-bind out_of_fuel f P h k = absurd (cc h.1)

pub Ensures-if :
    {A : Type 0} (b : Bool) (x y : Outcome A) (P : A → Type 0)
    → (b ≡ true → Ensures x P)
    → (b ≡ false → Ensures y P)
    → Ensures (if b then x else y) P
Ensures-if true x y P h k = h refl
Ensures-if false x y P h k = k refl

pub Ensures-weaken :
    {A : Type 0} (m : Outcome A) (P Q : A → Type 0)
    → Ensures m P
    → ((a : A) → P a → Q a)
    → Ensures m Q
Ensures-weaken m P Q (a, e, p) h = (a, e, h a p)

-- `pkt[i]`
unfoldable pub byte : Bytes → ℕ → Outcome ℕ
byte pkt i = elim (get_elem? pkt i) [ some b ↦ ret b | none ↦ panic ]

-- `&pkt[a..b]`
unfoldable pub slice : Bytes → ℕ → ℕ → Outcome Bytes
slice pkt a b = if leb a b && leb b (length pkt) then ret (take (b - a) (drop a pkt)) else panic

pub drop-drop : (a b : ℕ) (xs : Bytes) → drop a (drop b xs) ≡ drop (b + a) xs
drop-drop a zero xs = ap (λ n. drop n xs) (omega arith)
drop-drop zero (suc b) [] = rw add-zero refl
drop-drop (suc a) (suc b) [] = simp unary_clauses refl
drop-drop a (suc b) (x ∷ xs) = rw add.suc (drop-drop a b xs)

get_elem?-drop :
    (pkt : Bytes) (pos : ℕ) {b : ℕ} {s : Bytes} → drop pos pkt ≡ b ∷ s → get_elem? pkt pos ≡ some b
get_elem?-drop [] zero e = cc
get_elem?-drop [] (suc pos) e = cc
get_elem?-drop (x ∷ pkt) zero e = cc
get_elem?-drop (x ∷ pkt) (suc pos) e = get_elem?-drop pkt pos e

-- At a position where `b ∷ s` is left, `pkt[pos]` is `b`.
pub byte-drop :
    (pkt : Bytes) (pos : ℕ) {b : ℕ} {s : Bytes} → drop pos pkt ≡ b ∷ s → byte pkt pos ≡ ret b
unfolding byte
byte-drop pkt pos e = rw (get_elem?-drop pkt pos e, byte)

pub drop-lt :
    (pkt : Bytes) (pos : ℕ) {b : ℕ} {s : Bytes}
    → drop pos pkt ≡ b ∷ s
    → length pkt ≡ pos + suc (length s)
drop-lt [] zero e = cc
drop-lt [] (suc pos) e = cc
drop-lt (x ∷ pkt) zero e = omega (arith, ap length e)
drop-lt (x ∷ pkt) (suc pos) e = omega (arith, drop-lt pkt pos e)

-- What is left at a position inside the packet.
pub drop-cons :
    (pkt : Bytes) (pos : ℕ) → pos < length pkt → (b : ℕ) × (s : Bytes) × (drop pos pkt ≡ b ∷ s)
drop-cons [] pos h = absurd (omega arith)
drop-cons (x ∷ pkt) zero h = (x, pkt, refl)
drop-cons (x ∷ pkt) (suc pos) h = drop-cons pkt pos (omega arith)

pub byte-Returns : (pkt : Bytes) (i : ℕ) → i < length pkt → Returns (byte pkt i)
byte-Returns pkt i h = let (b, s, e) = drop-cons pkt i h in (b, byte-drop pkt i e)

pub slice-Returns : (pkt : Bytes) (a b : ℕ) → a ≤ b → b ≤ length pkt → Returns (slice pkt a b)
unfolding slice
slice-Returns pkt a b h k = (take (b - a) (drop a pkt), ground arith)

-- What is left after `k` more bytes.
pub drop-add :
    (pkt : Bytes) (pos k : ℕ) {s : Bytes} → drop pos pkt ≡ s → drop (pos + k) pkt ≡ drop k s
drop-add pkt pos k e = sym (drop-drop k pos pkt) ∙ ap (drop k) e

pub length-drop_add :
    (pkt : Bytes) (pos : ℕ) {s : Bytes}
    → drop pos pkt ≡ s
    → pos ≤ length pkt
    → length pkt ≡ pos + length s
length-drop_add pkt pos e h = omega (arith, ap length e, length-drop pos pkt)

-- A slice that starts where `s` is left.
pub slice-drop :
    (pkt : Bytes) (pos k : ℕ) {s : Bytes}
    → drop pos pkt ≡ s
    → pos ≤ length pkt
    → k ≤ length s
    → slice pkt pos (pos + k) ≡ ret (take k s)
unfolding slice
slice-drop pkt pos k {s} e h le =
    let width : pos + k - pos ≡ k = omega arith in
    ground
      (arith, length-drop_add pkt pos e h, ap (λ n. take n (drop pos pkt)) width, ap (take k) e)
