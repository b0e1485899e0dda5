-- ===== src/Prelude/Keys.antt =====
-- Keys with a decided equality: descriptors are numbers, path names are lists of bytes.
use Prim.Native.Nat.{ℕ}
use mathlib.Core.Path.{◌≡◌, refl}
use mathlib.Core.Logic.{◌↔◌}
use mathlib.Core.Bool.{Bool, true, false, ◌&&◌}
use mathlib.Core.List.{List, [], ◌∷◌}
use native.Mathlib.Omega.{arith}
use sol_project.Prelude.Tests.{eqb}

pub record KeyEq {ℓ} (K : Type ℓ) : Type ℓ where
  pub same : K → K → Bool
  pub same_iff : (x y : K) → (same x y ≡ true) ↔ (x ≡ y)

infix 50 ◌==◌
abbrev pub ◌==◌ {ℓ} : {K : Type ℓ} ⦃key : KeyEq K⦄ (x y : K) → Bool
◌==◌ ⦃key⦄ x y = key.same x y

pub same_refl {ℓ} : {K : Type ℓ} ⦃key : KeyEq K⦄ (x : K) → (x == x) ≡ true
same_refl ⦃key⦄ x = (key.same_iff x x).1 refl

pub nat-same_iff : (a b : ℕ) → (eqb a b ≡ true) ↔ (a ≡ b)
nat-same_iff a b = ground arith

instance abbrev pub nat_eq : KeyEq ℕ
nat_eq = record { same = eqb; same_iff = nat-same_iff }

-- `strcmp(a, b) == 0` on the bytes before the terminating zeros.
unfoldable pub bytes_eq : List ℕ → List ℕ → Bool
bytes_eq [] [] = true
bytes_eq [] (b ∷ bs) = false
bytes_eq (a ∷ as') [] = false
bytes_eq (a ∷ as') (b ∷ bs) = eqb a b && bytes_eq as' bs

bytes_eq→eq : (a b : List ℕ) → bytes_eq a b ≡ true → a ≡ b
unfolding bytes_eq
bytes_eq→eq [] [] h = refl
bytes_eq→eq [] (y ∷ b) h = cc
bytes_eq→eq (x ∷ a) [] h = cc
bytes_eq→eq (x ∷ a) (y ∷ b) h = ground (arith, bytes_eq→eq a b)

bytes_eq_refl : (a : List ℕ) → bytes_eq a a ≡ true
unfolding bytes_eq
bytes_eq_refl [] = refl
bytes_eq_refl (x ∷ a) = ground (arith, bytes_eq_refl a)

pub bytes-same_iff : (a b : List ℕ) → (bytes_eq a b ≡ true) ↔ (a ≡ b)
bytes-same_iff a b = (bytes_eq→eq a b, λ e. rw e (bytes_eq_refl b))

instance abbrev pub bytes_key : KeyEq (List ℕ)
bytes_key = record { same = bytes_eq; same_iff = bytes-same_iff }
