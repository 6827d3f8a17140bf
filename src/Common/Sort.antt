-- ===== src/Common/Sort.antt =====
-- `slice::sort_by` of the standard library: the stable sort by a comparison, written as an
-- insertion sort. Where the comparison is a strict total order, any other sort agrees with it.
use Prim.Native.Nat.{Ordering}
use mathlib.Core.Path.{◌≡◌, refl, sym, subst}
use mathlib.Core.Logic.{◌≢◌, ◌⊎◌, inl, inr}
use mathlib.Core.List.{List, [], ◌∷◌, Memᴰ, Perm}
use mathlib.Core.List.Perm
use native.Mathlib.Omega.{arith}

gt_or_not : (o : Ordering) → (o ≡ Ordering.gt) ⊎ (o ≢ Ordering.gt)
gt_or_not Ordering.gt = inl refl
gt_or_not Ordering.eq = inr (λ e. cc)
gt_or_not Ordering.lt = inr (λ e. cc)

module _ {ℓ} {A : Type ℓ} where
  unfoldable pub insert_by : (A → A → Ordering) → A → List A → List A
  insert_by cmp x [] = x ∷ []
  insert_by cmp x (y ∷ ys) = elim (cmp x y) [
    | Ordering.gt ↦ y ∷ insert_by cmp x ys
    | _ ↦ x ∷ y ∷ ys
  ]

  unfoldable pub sort_by : (A → A → Ordering) → List A → List A
  unfolding insert_by
  sort_by cmp [] = []
  sort_by cmp (x ∷ xs) = insert_by cmp x (sort_by cmp xs)

  insert_after :
      (cmp : A → A → Ordering) (x y : A) (ys : List A)
      → cmp x y ≡ Ordering.gt
      → insert_by cmp x (y ∷ ys) ≡ y ∷ insert_by cmp x ys
  unfolding insert_by
  insert_after cmp x y ys h = ground arith

  insert_before :
      (cmp : A → A → Ordering) (x y : A) (ys : List A)
      → cmp x y ≢ Ordering.gt
      → insert_by cmp x (y ∷ ys) ≡ x ∷ y ∷ ys
  unfolding insert_by
  insert_before cmp x y ys h = ground arith

  insert_by-perm :
      (cmp : A → A → Ordering) (x : A) (ys : List A) → Perm (insert_by cmp x ys) (x ∷ ys)
  unfolding insert_by
  insert_by-perm cmp x [] = Perm.rfl
  insert_by-perm cmp x (y ∷ ys) = elim (gt_or_not (cmp x y)) [
    | inl g ↦
        rw (insert_after cmp x y ys g)
          (Perm.trans (Perm.cons y (insert_by-perm cmp x ys)) (Perm.swap x y ys))
    | inr l ↦ rw (insert_before cmp x y ys l) Perm.rfl
  ]

  -- The sort rearranges its input.
  pub sort_by-perm : (cmp : A → A → Ordering) (xs : List A) → Perm (sort_by cmp xs) xs
  unfolding sort_by
  sort_by-perm cmp [] = Perm.rfl
  sort_by-perm cmp (x ∷ xs) =
      Perm.trans (insert_by-perm cmp x (sort_by cmp xs)) (Perm.cons x (sort_by-perm cmp xs))

  of_insert_by :
      (cmp : A → A → Ordering) (x : A) (ys : List A) {z : A}
      → Memᴰ z (insert_by cmp x ys)
      → Memᴰ z (x ∷ ys)
  of_insert_by cmp x [] m = unfold insert_by in m
  of_insert_by cmp x (y ∷ ys) {z} m = elim (gt_or_not (cmp x y)) [
    | inl g ↦ later (rw (insert_after cmp x y ys g) at m) (of_insert_by cmp x ys)
    | inr l ↦ rw (insert_before cmp x y ys l) at m
  ]
    where
      later :
          Memᴰ z (y ∷ insert_by cmp x ys)
          → (Memᴰ z (insert_by cmp x ys) → Memᴰ z (x ∷ ys))
          → Memᴰ z (x ∷ y ∷ ys)
      later (Memᴰ.head e) ih = Memᴰ.tail (Memᴰ.head e)
      later (Memᴰ.tail n) ih = behind (ih n)
        where
          behind : Memᴰ z (x ∷ ys) → Memᴰ z (x ∷ y ∷ ys)
          behind (Memᴰ.head e) = Memᴰ.head e
          behind (Memᴰ.tail k) = Memᴰ.tail (Memᴰ.tail k)

  insert_by-self :
      (cmp : A → A → Ordering) (x : A) (ys : List A) {z : A} → z ≡ x → Memᴰ z (insert_by cmp x ys)
  insert_by-self cmp x [] e = unfold insert_by in Memᴰ.head e
  insert_by-self cmp x (y ∷ ys) e = elim (gt_or_not (cmp x y)) [
    | inl g ↦ rw (insert_after cmp x y ys g) (Memᴰ.tail (insert_by-self cmp x ys e))
    | inr l ↦ rw (insert_before cmp x y ys l) (Memᴰ.head e)
  ]

  insert_by-keeps :
      (cmp : A → A → Ordering) (x : A) (ys : List A) {z : A}
      → Memᴰ z ys
      → Memᴰ z (insert_by cmp x ys)
  insert_by-keeps cmp x [] m = elim m [ ]
  insert_by-keeps cmp x (y ∷ ys) (Memᴰ.head e) = elim (gt_or_not (cmp x y)) [
    | inl g ↦ rw (insert_after cmp x y ys g) (Memᴰ.head e)
    | inr l ↦ rw (insert_before cmp x y ys l) (Memᴰ.tail (Memᴰ.head e))
  ]
  insert_by-keeps cmp x (y ∷ ys) (Memᴰ.tail m) = elim (gt_or_not (cmp x y)) [
    | inl g ↦ rw (insert_after cmp x y ys g) (Memᴰ.tail (insert_by-keeps cmp x ys m))
    | inr l ↦ rw (insert_before cmp x y ys l) (Memᴰ.tail (Memᴰ.tail m))
  ]

  pub of_sort_by :
      (cmp : A → A → Ordering) (xs : List A) {z : A} → Memᴰ z (sort_by cmp xs) → Memᴰ z xs
  unfolding sort_by
  of_sort_by cmp [] m = m
  of_sort_by cmp (x ∷ xs) {z} m = split (of_insert_by cmp x (sort_by cmp xs) m) (of_sort_by cmp xs)
    where
      split : Memᴰ z (x ∷ sort_by cmp xs) → (Memᴰ z (sort_by cmp xs) → Memᴰ z xs) → Memᴰ z (x ∷ xs)
      split (Memᴰ.head e) ih = Memᴰ.head e
      split (Memᴰ.tail n) ih = Memᴰ.tail (ih n)

  pub mem-sort_by :
      (cmp : A → A → Ordering) (xs : List A) {z : A} → Memᴰ z xs → Memᴰ z (sort_by cmp xs)
  unfolding sort_by
  mem-sort_by cmp [] m = m
  mem-sort_by cmp (x ∷ xs) (Memᴰ.head e) = insert_by-self cmp x (sort_by cmp xs) e
  mem-sort_by cmp (x ∷ xs) (Memᴰ.tail m) =
      insert_by-keeps cmp x (sort_by cmp xs) (mem-sort_by cmp xs m)

-- Every element stands in the relation R to all that come after it.
abbrev pub IsSorted {ℓ κ} : {A : Type ℓ} → (A → A → Type κ) → List A → Type (ℓ ⊔ κ)
IsSorted R [] = Unit
IsSorted R (x ∷ xs) = ((y : _) → Memᴰ y xs → R x y) × IsSorted R xs

-- The order R that a comparison decides, and that is transitive.
module _ {ℓ κ} {A : Type ℓ} (cmp : A → A → Ordering) (R : A → A → Type κ)
    (before : (x y : A) → cmp x y ≢ Ordering.gt → R x y)
    (after : (x y : A) → cmp x y ≡ Ordering.gt → R y x)
    (trans : (x y z : A) → R x y → R y z → R x z) where
  insert_by-IsSorted : (x : A) (ys : List A) → IsSorted R ys → IsSorted R (insert_by cmp x ys)
  insert_by-IsSorted x [] s = unfold insert_by in ((λ y m. elim m [ ]), tt)
  insert_by-IsSorted x (y ∷ ys) s = elim (gt_or_not (cmp x y)) [
    | inl g ↦
        rw (insert_after cmp x y ys g)
          ((λ z m. first g z (of_insert_by cmp x ys m)), insert_by-IsSorted x ys s.1)
    | inr l ↦ rw (insert_before cmp x y ys l) ((λ z m. second l z m), s)
  ]
    where
      first : cmp x y ≡ Ordering.gt → (z : A) → Memᴰ z (x ∷ ys) → R y z
      first g z (Memᴰ.head e) = subst (R y) (sym e) (after x y g)
      first g z (Memᴰ.tail m) = s.0 z m

      second : cmp x y ≢ Ordering.gt → (z : A) → Memᴰ z (y ∷ ys) → R x z
      second l z (Memᴰ.head e) = subst (R x) (sym e) (before x y l)
      second l z (Memᴰ.tail m) = trans x y z (before x y l) (s.0 z m)

  pub sort_by-IsSorted : (xs : List A) → IsSorted R (sort_by cmp xs)
  unfolding sort_by
  sort_by-IsSorted [] = tt
  sort_by-IsSorted (x ∷ xs) = insert_by-IsSorted x (sort_by cmp xs) (sort_by-IsSorted xs)
