-- ===== src/Prelude/Keys.antt =====
-- Boolean equality as an interface, for numbers, byte strings and pairs.
use Prim.Native.Nat.{ℕ}
use mathlib.Core.Path.{◌≡◌, refl}
use mathlib.Core.Logic.{◌↔◌}
use mathlib.Core.Bool.{Bool, true, false, ◌&&◌}
use mathlib.Core.List.{List, [], ◌∷◌}
use native.Mathlib.Omega.{arith}
use shield_ghita.Prelude.Tests.{nat_beq, nat_beq_iff}

-- What can be compared: the values of a type that stand in sets and serve as keys of maps.
pub record Key {ℓ} (A : Type ℓ) : Type ℓ where
  pub same : A → A → Bool
  pub same_iff : (x y : A) → (same x y ≡ true) ↔ (x ≡ y)

infix 50 ◌==◌
abbrev pub ◌==◌ {ℓ} : {A : Type ℓ} ⦃key : Key A⦄ → A → A → Bool
◌==◌ ⦃key⦄ x y = key.same x y

instance abbrev pub nat_eq : Key ℕ
nat_eq = record { same = nat_beq; same_iff = nat_beq_iff }

-- A Rust `String` or `&[u8]`: its bytes.
abbrev pub Bytes : Type 0
Bytes = List ℕ

abbrev pub bytes_beq : Bytes → Bytes → Bool
bytes_beq [] [] = true
bytes_beq [] (y ∷ ys) = false
bytes_beq (x ∷ xs) [] = false
bytes_beq (x ∷ xs) (y ∷ ys) = nat_beq x y && bytes_beq xs ys

bytes_beq_sound : (a b : Bytes) → bytes_beq a b ≡ true → a ≡ b
bytes_beq_sound [] [] h = refl
bytes_beq_sound [] (y ∷ ys) h = cc
bytes_beq_sound (x ∷ xs) [] h = cc
bytes_beq_sound (x ∷ xs) (y ∷ ys) h = ground (arith, bytes_beq_sound xs ys, nat_beq_iff x y)

bytes_beq_refl : (a : Bytes) → bytes_beq a a ≡ true
bytes_beq_refl [] = refl
bytes_beq_refl (x ∷ xs) = ground (arith, bytes_beq_refl xs)

pub bytes_beq_iff : (a b : Bytes) → (bytes_beq a b ≡ true) ↔ (a ≡ b)
bytes_beq_iff a b = (bytes_beq_sound a b, λ e. rw e (bytes_beq_refl b))

instance abbrev pub bytes_eq : Key Bytes
bytes_eq = record { same = bytes_beq; same_iff = bytes_beq_iff }

module _ {ℓ κ} {A : Type ℓ} {B : Type κ} ⦃k : Key A⦄ ⦃l : Key B⦄ where
  abbrev pub pair_beq : A × B → A × B → Bool
  pair_beq p q = k.same p.0 q.0 && l.same p.1 q.1

  pub pair_beq_iff : (p q : A × B) → (pair_beq p q ≡ true) ↔ (p ≡ q)
  pair_beq_iff p q = ground (arith, k.same_iff p.0 q.0, l.same_iff p.1 q.1)

  instance abbrev pub pair_eq : Key (A × B)
  pair_eq = record { same = pair_beq; same_iff = pair_beq_iff }

pub ==_refl {ℓ} : {A : Type ℓ} ⦃e : Key A⦄ (a : A) → (a == a) ≡ true
==_refl ⦃e⦄ a = (e.same_iff a a).1 refl
