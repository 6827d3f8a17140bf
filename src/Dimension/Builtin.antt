-- ===== src/Dimension/Builtin.antt =====
-- components/router/dimensions/dims.rs: the built-in dimensions.
pub mod Matching
use jackfield.Common.{
  ℕ, String, List, [], ◌∷◌, Bool, true, false, not, ◌||◌, Option, none, some, any, all, length, ltb,
  str_eq, if◌then◌else◌,
}
use jackfield.Platform.{Platform}
use jackfield.Message.{Envelope}
use jackfield.Dimension.{
  Verdict, reject, score, DimState, DispatchEvent, Dimension, adjust_weight, default_state,
}

-- `contains` of a list of strings
abbrev pub contains : List String → String → Bool
contains list value = any (λ s. str_eq s value) list

pub data Matcher : Type 0 where
  any_of : List String → Matcher
  none_of : List String → Matcher

unfoldable pub matches : Matcher → String → Bool
matches (any_of list) value = contains list value
matches (none_of list) value = not (contains list value)

pub record ProducerDim : Type 0 where
  pub matcher : Matcher

pub data LabelMatcher : Type 0 where
  any_of : List String → LabelMatcher
  all_of : List String → LabelMatcher
  none_of : List String → LabelMatcher

pub record LabelDim : Type 0 where
  pub matcher : LabelMatcher

pub record SizeDim : Type 0 where
  pub min : Option ℕ
  pub max : Option ℕ

-- `ProducerDim::only`, `any_of` and `none_of`
unfoldable pub producer_only : String → ProducerDim
producer_only name = record { matcher = Matcher.any_of (name ∷ []) }

unfoldable pub producer_any_of : List String → ProducerDim
producer_any_of names = record { matcher = Matcher.any_of names }

unfoldable pub producer_none_of : List String → ProducerDim
producer_none_of names = record { matcher = Matcher.none_of names }

-- `LabelDim::any_of`, `all_of` and `none_of`
unfoldable pub label_any_of : List String → LabelDim
label_any_of labels = record { matcher = LabelMatcher.any_of labels }

unfoldable pub label_all_of : List String → LabelDim
label_all_of labels = record { matcher = LabelMatcher.all_of labels }

unfoldable pub label_none_of : List String → LabelDim
label_none_of labels = record { matcher = LabelMatcher.none_of labels }

-- `SizeDim::at_most`, `at_least` and `between`
unfoldable pub size_at_most : ℕ → SizeDim
size_at_most max_bytes = record { min = none; max = some max_bytes }

unfoldable pub size_at_least : ℕ → SizeDim
size_at_least min_bytes = record { min = some min_bytes; max = none }

unfoldable pub size_between : ℕ → ℕ → SizeDim
size_between min max = record { min = some min; max = some max }

-- The test of `LabelDim::evaluate`
unfoldable pub label_matched : LabelMatcher → List String → Bool
label_matched (LabelMatcher.any_of l) labels = any (λ label. contains labels label) l
label_matched (LabelMatcher.all_of l) labels = all (λ label. contains labels label) l
label_matched (LabelMatcher.none_of l) labels = not (any (λ label. contains labels label) l)

-- `option.map(test).unwrap_or(false)`
abbrev pub is_some_and : (ℕ → Bool) → Option ℕ → Bool
is_some_and test none = false
is_some_and test (some m) = test m

module _ ⦃p : Platform⦄ where
  unfoldable pub producer_evaluate : ProducerDim → Envelope → DimState → Verdict
  unfolding matches
  producer_evaluate dim env state =
      if matches dim.matcher env.origin.as_str then score (p.milli 1000) else reject

  unfoldable pub label_evaluate : LabelDim → Envelope → DimState → Verdict
  unfolding label_matched
  label_evaluate dim env state =
      if label_matched dim.matcher env.message.get_labels then score (p.milli 1000) else reject

  unfoldable pub size_evaluate : SizeDim → Envelope → DimState → Verdict
  size_evaluate dim env state =
      let size = length env.message.get_bytes in
      let too_small = is_some_and (λ m. ltb size m) dim.min in
      let too_large = is_some_and (λ m. ltb m size) dim.max in
      if too_small || too_large then reject else score (p.milli 1000)

  -- `impl Dimension for ProducerDim`, and so for the others: `new_state` is the trait's.
  unfoldable pub producer_dimension : ProducerDim → Dimension
  unfolding producer_evaluate adjust_weight default_state
  producer_dimension dim = record {
    evaluate = producer_evaluate dim;
    observe = adjust_weight;
    new_state = default_state;
  }

  unfoldable pub label_dimension : LabelDim → Dimension
  unfolding label_evaluate adjust_weight default_state
  label_dimension dim = record {
    evaluate = label_evaluate dim;
    observe = adjust_weight;
    new_state = default_state;
  }

  unfoldable pub size_dimension : SizeDim → Dimension
  unfolding size_evaluate adjust_weight default_state
  size_dimension dim = record {
    evaluate = size_evaluate dim;
    observe = adjust_weight;
    new_state = default_state;
  }
