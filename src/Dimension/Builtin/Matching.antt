-- ===== src/Dimension/Builtin/Matching.antt =====
-- components/router/dimensions/dims.rs: what the built-in dimensions accept, as statements on
-- sets of names, labels and sizes.
use jackfield.Common.{
  ℕ, ◌≤◌, ◌≡◌, refl, sym, subst, ◌↔◌, String, List, Bool, true, false, not, ◌||◌, ltb, Option, none,
  some, Memᴰ, any_iff, all_iff, length, str_eq, eq_iff, arith, if◌then◌else◌,
}
use jackfield.Platform.{Platform}
use jackfield.Message.{Envelope}
use jackfield.Dimension.{Verdict, reject, score, DimState}
use jackfield.Dimension.Builtin.{
  contains, Matcher, matches, LabelMatcher, label_matched, ProducerDim, LabelDim, SizeDim,
  producer_evaluate, label_evaluate, size_evaluate, is_some_and,
}

contains_iff :
    (value : String) (list : List String) → (contains list value ≡ true) ↔ Memᴰ value list
contains_iff value list = (
  λ h. let (x, m, e) = (found.0 h) in subst (λ v. Memᴰ v list) e m,
  λ m. found.1 (value, m, refl),
)
  where
    found : (contains list value ≡ true) ↔ ((x : String) × Memᴰ x list × (x ≡ value))
    found = any_iff (λ s. str_eq s value) (λ s. s ≡ value) (λ s. eq_iff s value) list

not_iff {κ} : {P : Type κ} (b : Bool) → (b ≡ true) ↔ P → (not b ≡ true) ↔ ¬ P
not_iff true d = (λ h p. absurd (cc), λ np. absurd (np (d.0 refl)))
not_iff false d = (λ h p. absurd (cc (d.1 p)), λ np. refl)

-- The names that a producer matcher lets through.
abbrev pub Named : Matcher → String → Type 0
Named (Matcher.any_of names) name = Memᴰ name names
Named (Matcher.none_of names) name = ¬ Memᴰ name names

matches_iff : (m : Matcher) (name : String) → (matches m name ≡ true) ↔ Named m name
unfolding matches
matches_iff (Matcher.any_of names) name = contains_iff name names
matches_iff (Matcher.none_of names) name = not_iff (contains names name) (contains_iff name names)

-- The sets of labels that a label matcher lets through.
abbrev pub Labelled : LabelMatcher → List String → Type 0
Labelled (LabelMatcher.any_of l) labels = (x : String) × Memᴰ x l × Memᴰ x labels
Labelled (LabelMatcher.all_of l) labels = (x : String) → Memᴰ x l → Memᴰ x labels
Labelled (LabelMatcher.none_of l) labels = ¬ ((x : String) × Memᴰ x l × Memᴰ x labels)

label_matched_iff :
    (m : LabelMatcher) (labels : List String) → (label_matched m labels ≡ true) ↔ Labelled m labels
unfolding label_matched
label_matched_iff (LabelMatcher.any_of l) labels =
    any_iff (contains labels) (λ x. Memᴰ x labels) (λ x. contains_iff x labels) l
label_matched_iff (LabelMatcher.all_of l) labels =
    all_iff (contains labels) (λ x. Memᴰ x labels) (λ x. contains_iff x labels) l
label_matched_iff (LabelMatcher.none_of l) labels =
    not_iff _ (any_iff (contains labels) (λ x. Memᴰ x labels) (λ x. contains_iff x labels) l)

abbrev pub AtLeast : Option ℕ → ℕ → Type 0
AtLeast none size = Unit
AtLeast (some m) size = m ≤ size

abbrev pub AtMost : Option ℕ → ℕ → Type 0
AtMost none size = Unit
AtMost (some m) size = size ≤ m

abbrev outside : Option ℕ → Option ℕ → ℕ → Bool
outside min max size = is_some_and (λ m. ltb size m) min || is_some_and (λ m. ltb m size) max

outside_iff :
    (min max : Option ℕ) (size : ℕ)
    → (not (outside min max size) ≡ true) ↔ (AtLeast min size × AtMost max size)
outside_iff none none size = (λ h. (tt, tt), λ f. refl)
outside_iff none (some hi) size = (λ h. (tt, ground arith), λ f. ground arith)
outside_iff (some lo) none size = (λ h. (ground arith, tt), λ f. ground arith)
outside_iff (some lo) (some hi) size = (λ h. ground arith, λ f. ground arith)

if-not {κ} : {A : Type κ} (b : Bool) (x y : A) → (if b then x else y) ≡ (if not b then y else x)
if-not true x y = refl
if-not false x y = refl

-- The verdict of a test that decides P: 1.0 where P holds, a rejection where it does not.
module _ ⦃p : Platform⦄ where
  abbrev pub Decides {κ} : Type κ → Verdict → Type κ
  Decides P v = ((v ≡ score (p.milli 1000)) ↔ P) × ((v ≡ reject) ↔ ¬ P)

  test-Decides {κ} :
      {P : Type κ} (b : Bool)
      → (b ≡ true) ↔ P
      → Decides P (if b then score (p.milli 1000) else reject)
  test-Decides true d =
      ((λ _. d.0 refl, λ _. refl), (λ h. absurd (cc), λ np. absurd (np (d.0 refl))))
  test-Decides false d =
      ((λ h. absurd (cc), λ pf. absurd (cc (d.1 pf))), (λ _ pf. absurd (cc (d.1 pf)), λ _. refl))

  -- A producer dimension scores 1.0 exactly the envelopes whose origin is listed (`any_of`), or
  -- is not listed (`none_of`), and rejects exactly the others.
  producer_evaluate-Decides :
      (dim : ProducerDim) (env : Envelope) (state : DimState)
      → Decides (Named dim.matcher env.origin.as_str) (producer_evaluate dim env state)
  unfolding producer_evaluate
  producer_evaluate-Decides dim env state = test-Decides _ (matches_iff dim.matcher _)

  -- A label dimension scores 1.0 exactly the envelopes that have one of the labels (`any_of`),
  -- all of them (`all_of`) or none (`none_of`), however many match, and rejects the others.
  label_evaluate-Decides :
      (dim : LabelDim) (env : Envelope) (state : DimState)
      → Decides (Labelled dim.matcher env.message.get_labels) (label_evaluate dim env state)
  unfolding label_evaluate
  label_evaluate-Decides dim env state = test-Decides _ (label_matched_iff dim.matcher _)

  -- A size dimension scores 1.0 exactly the payloads within its bounds, both included, and
  -- rejects exactly the others.
  size_evaluate-Decides :
      (dim : SizeDim) (env : Envelope) (state : DimState)
      → let size = length env.message.get_bytes in
        Decides (AtLeast dim.min size × AtMost dim.max size) (size_evaluate dim env state)
  unfolding size_evaluate
  size_evaluate-Decides dim env state =
      let size = length env.message.get_bytes in
      subst (Decides (AtLeast dim.min size × AtMost dim.max size))
        (sym (if-not (outside dim.min dim.max size) reject (score (p.milli 1000))))
        (test-Decides _ (outside_iff dim.min dim.max size))

  -- The built-in filters score 1.0 exactly the envelopes that they are to let through, and reject
  -- exactly the others: a producer filter by whether the origin is listed (`any_of`) or not
  -- (`none_of`); a label filter by whether the message has one of the labels (`any_of`), all of them
  -- (`all_of`) or none (`none_of`), however many match; a size filter by the size of the payload,
  -- both bounds included, either of which may be absent.
  pub filters-Decide :
      (by_producer : ProducerDim) (by_label : LabelDim) (by_size : SizeDim) (env : Envelope)
      (state : DimState)
      → let size = length env.message.get_bytes in
        Decides
          (Named by_producer.matcher env.origin.as_str)
          (producer_evaluate by_producer env state)
        × Decides
            (Labelled by_label.matcher env.message.get_labels)
            (label_evaluate by_label env state)
        × Decides
            (AtLeast by_size.min size × AtMost by_size.max size)
            (size_evaluate by_size env state)
  filters-Decide by_producer by_label by_size env state = (
    producer_evaluate-Decides by_producer env state,
    label_evaluate-Decides by_label env state,
    size_evaluate-Decides by_size env state,
  )
