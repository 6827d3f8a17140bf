-- ===== src/Common/Each.antt =====
-- What holds of every element of a list, or of some.
use Prim.Native.Nat.{ℕ, zero, suc}
use mathlib.Core.List.{List, [], ◌∷◌, ◌++◌, map}
use mathlib.Core.Logic.{◌⊎◌, inl, inr}
use jackfield.Common.Lists.{modify}

-- P holds of each element.
abbrev pub All {ℓ κ} : {A : Type ℓ} → (A → Type κ) → List A → Type κ
All P [] = Unit
All P (x ∷ xs) = P x × All P xs

module _ {ℓ κ} {A : Type ℓ} (P : A → Type κ) where
  pub All-append : (xs ys : List A) → All P xs → All P ys → All P (xs ++ ys)
  All-append [] ys h k = k
  All-append (x ∷ xs) ys h k = (h.0, All-append xs ys h.1 k)

module _ {ℓ κ} {A : Type ℓ} {P : A → Type κ} where
  pub All-map : (f : A → A) (xs : List A) → ((x : A) → P x → P (f x)) → All P xs → All P (map f xs)
  All-map f [] k h = tt
  All-map f (x ∷ xs) k h = (k x h.0, All-map f xs k h.1)

  pub All-modify :
      (xs : List A) (i : ℕ) (f : A → A)
      → ((x : A) → P x → P (f x))
      → All P xs
      → All P (modify xs i f)
  All-modify [] i f k h = tt
  All-modify (x ∷ xs) zero f k h = (k x h.0, h.1)
  All-modify (x ∷ xs) (suc i) f k h = (h.0, All-modify xs i f k h.1)

-- P holds of some element.
abbrev pub Some {ℓ} : {A : Type ℓ} → (A → Type 0) → List A → Type 0
Some P [] = ⊥
Some P (x ∷ xs) = P x ⊎ Some P xs

module _ {ℓ} {A : Type ℓ} {P : A → Type 0} where
  pub Some-modify :
      (xs : List A) (i : ℕ) (f : A → A)
      → ((x : A) → P x → P (f x))
      → Some P xs
      → Some P (modify xs i f)
  Some-modify [] i f k h = h
  Some-modify (x ∷ xs) zero f k (inl h) = inl (k x h)
  Some-modify (x ∷ xs) zero f k (inr later) = inr later
  Some-modify (x ∷ xs) (suc i) f k (inl h) = inl h
  Some-modify (x ∷ xs) (suc i) f k (inr later) = inr (Some-modify xs i f k later)

module _ {ℓ} {A : Type ℓ} (P : A → Type 0) where
  pub Some-append : (xs ys : List A) → Some P xs → Some P (xs ++ ys)
  Some-append [] ys h = absurd h
  Some-append (x ∷ xs) ys (inl h) = inl h
  Some-append (x ∷ xs) ys (inr later) = inr (Some-append xs ys later)

  pub Some-weaken : (Q : A → Type 0) (xs : List A) → ((x : A) → P x → Q x) → Some P xs → Some Q xs
  Some-weaken Q [] k h = absurd h
  Some-weaken Q (x ∷ xs) k (inl h) = inl (k x h)
  Some-weaken Q (x ∷ xs) k (inr later) = inr (Some-weaken Q xs k later)
