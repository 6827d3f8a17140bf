-- ===== src/Common/Membership.antt =====
-- Membership with its place, and the tests `any` and `all`.
use mathlib.Core.Path.{◌≡◌, refl, subst, sym}
use mathlib.Core.Logic.{◌↔◌, ◌⊎◌, inl, inr}
use mathlib.Core.Bool.{Bool, true}
use mathlib.Core.List.{List, [], ◌∷◌, ◌++◌, Memᴰ}
use native.Mathlib.Omega.{arith}
use jackfield.Common.Tests.{Bool-cases}
use jackfield.Common.Lists.{any, all}

module _ {ℓ κ} {A : Type ℓ} (f : A → Bool) (P : A → Type κ)
    (dec : (x : A) → (f x ≡ true) ↔ P x) where
  -- `any` of a test that decides P finds a member with P.
  any→mem : (l : List A) → any f l ≡ true → (x : A) × Memᴰ x l × P x
  any→mem [] h = absurd (cc)
  any→mem (x ∷ xs) h = elim (Bool-cases (f x)) [
    | inl e ↦ (x, Memᴰ.head refl, (dec x).0 e)
    | inr e ↦ let (y, m, py) = any→mem xs (ground arith) in (y, Memᴰ.tail m, py)
  ]

  mem→any : {x : A} (l : List A) → Memᴰ x l → P x → any f l ≡ true
  mem→any [] m px = elim m [ ]
  mem→any {x} (y ∷ ys) (Memᴰ.head e) px = rw ((dec y).1 (subst P e px))
  mem→any (y ∷ ys) (Memᴰ.tail m) px = ground (arith, mem→any ys m px)

  pub any_iff : (l : List A) → (any f l ≡ true) ↔ ((x : A) × Memᴰ x l × P x)
  any_iff l = (any→mem l, λ (x, m, px). mem→any l m px)

  all→mem : (l : List A) → all f l ≡ true → (x : A) → Memᴰ x l → P x
  all→mem [] h x m = elim m [ ]
  all→mem (y ∷ ys) h x (Memᴰ.head e) = subst P (sym e) ((dec y).0 (ground arith))
  all→mem (y ∷ ys) h x (Memᴰ.tail m) = all→mem ys (ground arith) x m

  mem→all : (l : List A) → ((x : A) → Memᴰ x l → P x) → all f l ≡ true
  mem→all [] h = refl
  mem→all (x ∷ xs) h =
      ground (arith, (dec x).1 (h x (Memᴰ.head refl)), mem→all xs (λ y m. h y (Memᴰ.tail m)))

  pub all_iff : (l : List A) → (all f l ≡ true) ↔ ((x : A) → Memᴰ x l → P x)
  all_iff l = (all→mem l, mem→all l)

pub of_mem-append {ℓ} :
    {A : Type ℓ} (x : A) (xs ys : List A) → Memᴰ x (xs ++ ys) → Memᴰ x xs ⊎ Memᴰ x ys
of_mem-append x [] ys m = inr m
of_mem-append x (y ∷ xs) ys (Memᴰ.head e) = inl (Memᴰ.head e)
of_mem-append x (y ∷ xs) ys (Memᴰ.tail m) = elim (of_mem-append x xs ys m) [
  | inl l ↦ inl (Memᴰ.tail l)
  | inr r ↦ inr r
]

pub mem-append {ℓ} :
    {A : Type ℓ} (x : A) (xs ys : List A) → Memᴰ x xs ⊎ Memᴰ x ys → Memᴰ x (xs ++ ys)
mem-append x [] ys (inl m) = elim m [ ]
mem-append x [] ys (inr m) = m
mem-append x (y ∷ xs) ys (inl (Memᴰ.head e)) = Memᴰ.head e
mem-append x (y ∷ xs) ys (inl (Memᴰ.tail m)) = Memᴰ.tail (mem-append x xs ys (inl m))
mem-append x (y ∷ xs) ys (inr m) = Memᴰ.tail (mem-append x xs ys (inr m))
