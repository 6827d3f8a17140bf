-- ===== src/Network.antt =====
-- components/endpoint/network/connection.rs: what the network endpoints share: the filters that a
-- client writes in JSON, and the consumer that forwards to a channel.
pub mod Filters
pub mod Socket
pub mod Forwarding
pub mod Grpc
pub mod Servers
pub mod Connections
use Prim.Native.String.{◌++◌ as str_append}
use jackfield.Common.{
  ℕ, zero, suc, ◌%◌, ◌^◌, ◌≡◌, List, [], ◌∷◌, map, Bool, true, false, not, String, Option, none,
  some, str_eq, if◌then◌else◌, ltb,
}
use jackfield.Platform.{Platform}
use jackfield.Message.{Message, Envelope, BusableItem, to_item}
use jackfield.Consumer.{Consumer}
use jackfield.Dimension.{Dimension}
use jackfield.Dimension.Builtin.{
  ProducerDim, LabelDim, SizeDim, producer_only, producer_any_of, producer_none_of, label_any_of,
  label_all_of, label_none_of, size_at_most, size_at_least, size_between, producer_dimension,
  label_dimension, size_dimension,
}

-- A `Result` whose error is `Status::invalid_argument` of a text.
pub data Parsed (A : Type 0) : Type 0 where
  parsed : A → Parsed A
  invalid_argument : String → Parsed A

-- The value of the first field with a name.
abbrev pub field : {V : Type 0} → String → List (String × V) → Option V
field key [] = none
field key ((name, v) ∷ fields) = if str_eq name key then some v else field key fields

-- `serde_json::Value`, with some of its constructors and the accessors that the source calls.
pub record Json : Type 1 where
  pub Value : Type 0
  pub string : String → Value
  pub number : ℕ → Value
  pub array : List Value → Value
  pub object : List (String × Value) → Value
  pub get : String → Value → Option Value
  pub as_array : Value → Option (List Value)
  pub as_str : Value → Option String
  pub as_u64 : Value → Option ℕ
  -- `from_str`; the error by its text
  pub from_str : String → Parsed Value
  pub get-object : (key : String) (fs : List (String × Value)) → get key (object fs) ≡ field key fs
  pub as_array-array : (vs : List Value) → as_array (array vs) ≡ some vs
  pub as_str-string : (s : String) → as_str (string s) ≡ some s
  -- A number is a `u64` where it is less than 2^64.
  pub as_u64-number : (n : ℕ) → as_u64 (number n) ≡ (if ltb n (2 ^ 64) then some n else none)

module _ ⦃j : Json⦄ where
  abbrev pub as_strings : List j.Value → List String
  as_strings [] = []
  as_strings (v ∷ vs) = elim (j.as_str v) [ none ↦ as_strings vs | some s ↦ s ∷ as_strings vs ]

  unfoldable pub str_vec : j.Value → List String
  str_vec a = elim (j.as_array a) [ none ↦ [] | some arr ↦ as_strings arr ]

  unfoldable pub parse_label_dim : j.Value → Option LabelDim
  unfolding str_vec label_all_of label_any_of label_none_of
  parse_label_dim v = elim (j.get "all_of" v) [
    | some a ↦ some (label_all_of (str_vec a))
    | none ↦ elim (j.get "any_of" v) [
      | some a ↦ some (label_any_of (str_vec a))
      | none ↦ elim (j.get "none_of" v) [ some a ↦ some (label_none_of (str_vec a)) | none ↦ none ]
    ]
  ]

  -- `.and_then(..)`
  abbrev pub and_then : {A B : Type 0} → Option A → (A → Option B) → Option B
  and_then none f = none
  and_then (some a) f = f a

  unfoldable pub parse_producer_dim : j.Value → Option ProducerDim
  unfolding str_vec producer_only producer_any_of producer_none_of
  parse_producer_dim v = elim (and_then (j.get "only" v) j.as_str) [
    | some s ↦ some (producer_only s)
    | none ↦ elim (j.get "any_of" v) [
      | some a ↦ some (producer_any_of (str_vec a))
      | none ↦ elim (j.get "none_of" v) [
        | some a ↦ some (producer_none_of (str_vec a))
        | none ↦ none
      ]
    ]
  ]

  -- The array of `between`: two numbers, or nothing.
  unfoldable pub parse_between : List j.Value → Option SizeDim
  unfolding size_between
  parse_between (a ∷ b ∷ []) =
      and_then (j.as_u64 a) (λ min. and_then (j.as_u64 b) (λ max. some (size_between min max)))
  parse_between _ = none

  -- `usize` has 64 bits, so `as usize` changes nothing.
  unfoldable pub parse_size_dim : j.Value → Option SizeDim
  unfolding parse_between size_at_most size_at_least
  parse_size_dim v = elim (and_then (j.get "at_most" v) j.as_u64) [
    | some n ↦ some (size_at_most n)
    | none ↦ elim (and_then (j.get "at_least" v) j.as_u64) [
      | some n ↦ some (size_at_least n)
      | none ↦ elim (and_then (j.get "between" v) j.as_array) [
        | some arr ↦ parse_between arr
        | none ↦ none
      ]
    ]
  ]

module _ ⦃p : Platform⦄ ⦃j : Json⦄ where
  -- One `if let Some(x) = v.get(key) { .. dims.push(..) }` and the rest of the function.
  unfoldable pub push_filter :
      {A : Type 0}
      → String
      → (j.Value → Option A)
      → (A → Dimension)
      → String
      → j.Value
      → Parsed (List (Dimension × Bool × p.Float))
      → Parsed (List (Dimension × Bool × p.Float))
  push_filter key parse boxed message v rest = elim (j.get key v) [
    | none ↦ rest
    | some x ↦ elim (parse x) [
      | none ↦ invalid_argument message
      | some d ↦ elim rest [
        | invalid_argument e ↦ invalid_argument e
        | parsed dims ↦ parsed ((boxed d, true, p.milli 1000) ∷ dims)
      ]
    ]
  ]

  unfoldable pub parse_value : j.Value → Parsed (List (Dimension × Bool × p.Float))
  unfolding push_filter parse_label_dim parse_producer_dim parse_size_dim label_dimension
      producer_dimension size_dimension
  parse_value v =
      push_filter "labels" parse_label_dim label_dimension "invalid labels dimension" v (
        push_filter "producer" parse_producer_dim producer_dimension "invalid producer dimension" v
          (push_filter "size" parse_size_dim size_dimension "invalid size dimension" v (parsed [])))

  unfoldable pub parse_dimensions : String → Parsed (List (Dimension × Bool × p.Float))
  unfolding parse_value
  parse_dimensions json = if str_eq json "" then parsed [] else (elim (j.from_str json) [
    | invalid_argument e ↦ invalid_argument (str_append "dimensions_json: " e)
    | parsed v ↦ parse_value v
  ])
