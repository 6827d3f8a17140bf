-- ===== src/Network/Filters.antt =====
-- components/endpoint/network/connection.rs: `parse_dimensions` reads what a client writes in JSON.
use jackfield.Common.{
  ℕ, ◌≡◌, refl, sym, ap, ◌∙◌, List, [], ◌∷◌, ◌++◌, map, Bool, true, false, String, Option, none,
  some, str_eq, ltb, ◌^◌, ◌&&◌, Bool-cases, Option-cases, inl, inr, if◌then◌else◌,
}
use mathlib.Core.List.{append-nil}
use jackfield.Platform.{Platform}
use jackfield.Dimension.{Dimension}
use jackfield.Dimension.Builtin.{
  LabelMatcher, Matcher, SizeDim, label_dimension, producer_dimension, size_dimension,
}
use jackfield.Network.{
  Json, Parsed, parsed, invalid_argument, field, as_strings, str_vec, parse_label_dim,
  parse_producer_dim, parse_between, parse_size_dim, push_filter, parse_value, parse_dimensions,
}

-- What a client may ask for.
pub data Bounds : Type 0 where
  at_most : ℕ → Bounds
  at_least : ℕ → Bounds
  between : ℕ → ℕ → Bounds

pub data Names : Type 0 where
  only : String → Names
  any_of : List String → Names
  none_of : List String → Names

pub record Wanted : Type 0 where
  pub labels : Option LabelMatcher
  pub producer : Option Names
  pub size : Option Bounds

abbrev pub sizes : Bounds → SizeDim
sizes (at_most n) = record { min = none; max = some n }
sizes (at_least n) = record { min = some n; max = none }
sizes (between m n) = record { min = some m; max = some n }

abbrev pub names : Names → Matcher
names (only s) = Matcher.any_of (s ∷ [])
names (Names.any_of l) = Matcher.any_of l
names (Names.none_of l) = Matcher.none_of l

-- Whether the numbers of a bound are a `u64`.
abbrev pub is_u64 : ℕ → Bool
is_u64 n = ltb n (2 ^ 64)

abbrev pub fits : Option Bounds → Bool
fits none = true
fits (some (at_most n)) = is_u64 n
fits (some (at_least n)) = is_u64 n
fits (some (between m n)) = is_u64 m && is_u64 n

module _ ⦃j : Json⦄ where
  abbrev pub strings : List String → j.Value
  strings l = j.array (map j.string l)

  -- and how it is written.
  abbrev pub write_labels : LabelMatcher → j.Value
  write_labels (LabelMatcher.any_of l) = j.object (("any_of", strings l) ∷ [])
  write_labels (LabelMatcher.all_of l) = j.object (("all_of", strings l) ∷ [])
  write_labels (LabelMatcher.none_of l) = j.object (("none_of", strings l) ∷ [])

  abbrev pub write_producer : Names → j.Value
  write_producer (only s) = j.object (("only", j.string s) ∷ [])
  write_producer (Names.any_of l) = j.object (("any_of", strings l) ∷ [])
  write_producer (Names.none_of l) = j.object (("none_of", strings l) ∷ [])

  abbrev pub write_size : Bounds → j.Value
  write_size (at_most n) = j.object (("at_most", j.number n) ∷ [])
  write_size (at_least n) = j.object (("at_least", j.number n) ∷ [])
  write_size (between m n) = j.object (("between", j.array (j.number m ∷ j.number n ∷ [])) ∷ [])

  abbrev pub optional : {A : Type 0} → String → (A → j.Value) → Option A → List (String × j.Value)
  optional key write none = []
  optional key write (some a) = (key, write a) ∷ []

  abbrev pub write : Wanted → j.Value
  write w = j.object (
      optional "labels" write_labels w.labels
      ++ (optional "producer" write_producer w.producer ++ optional "size" write_size w.size))

  as_strings-map : (l : List String) → as_strings (map j.string l) ≡ l
  as_strings-map [] = refl
  as_strings-map (s ∷ l) = rw (j.as_str-string s) (ap (λ k. s ∷ k) (as_strings-map l))

  str_vec-strings : (l : List String) → str_vec (strings l) ≡ l
  unfolding str_vec
  str_vec-strings l = rw (str_vec, j.as_array-array (map j.string l)) (as_strings-map l)

  parse-write_labels :
      (m : LabelMatcher) → parse_label_dim (write_labels m) ≡ some (record { matcher = m })
  unfolding parse_label_dim
  parse-write_labels (LabelMatcher.any_of l) =
      rw (parse_label_dim, j.get-object, j.get-object, str_vec-strings)
  parse-write_labels (LabelMatcher.all_of l) = rw (parse_label_dim, j.get-object, str_vec-strings)
  parse-write_labels (LabelMatcher.none_of l) =
      rw (parse_label_dim, j.get-object, j.get-object, j.get-object, str_vec-strings)

  parse-write_producer :
      (n : Names) → parse_producer_dim (write_producer n) ≡ some (record { matcher = names n })
  unfolding parse_producer_dim
  parse-write_producer (only s) = rw (parse_producer_dim, j.get-object, j.as_str-string)
  parse-write_producer (Names.any_of l) =
      rw (parse_producer_dim, j.get-object, j.get-object, str_vec-strings)
  parse-write_producer (Names.none_of l) =
      rw (parse_producer_dim, j.get-object, j.get-object, j.get-object, str_vec-strings)

  parse-write_size :
      (b : Bounds)
      → parse_size_dim (write_size b) ≡ (if fits (some b) then some (sizes b) else none)
  unfolding parse_size_dim parse_between
  parse-write_size (at_most n) = elim (Bool-cases (is_u64 n)) [
    | inl small ↦ rw (parse_size_dim, j.get-object, j.as_u64-number, small)
    | inr large ↦
        rw (parse_size_dim, j.get-object, j.as_u64-number, large, j.get-object, j.get-object)
  ]
  parse-write_size (at_least n) = elim (Bool-cases (is_u64 n)) [
    | inl small ↦ rw (parse_size_dim, j.get-object, j.get-object, j.as_u64-number, small)
    | inr large ↦
        rw (parse_size_dim, j.get-object, j.get-object, j.as_u64-number, large, j.get-object)
  ]
  parse-write_size (between m n) = elim (Bool-cases (is_u64 m)) [
    | inl low ↦ elim (Bool-cases (is_u64 n)) [
      | inl high ↦ rw (
        parse_size_dim, j.get-object, j.get-object, j.get-object, j.as_array-array, parse_between,
        j.as_u64-number, j.as_u64-number, low, high,
      )
      | inr large ↦ rw (
        parse_size_dim, j.get-object, j.get-object, j.get-object, j.as_array-array, parse_between,
        j.as_u64-number, j.as_u64-number, low, large,
      )
    ]
    | inr large ↦ rw (
      parse_size_dim, j.get-object, j.get-object, j.get-object, j.as_array-array, parse_between,
      j.as_u64-number, large,
    )
  ]

  abbrev written : {A : Type 0} → (A → j.Value) → Option A → Option j.Value
  written write none = none
  written write (some a) = some (write a)

  field-other :
      {A : Type 0} (key name : String) (write : A → j.Value) (o : Option A)
      (rest : List (String × j.Value))
      → str_eq name key ≡ false
      → field key (optional name write o ++ rest) ≡ field key rest
  field-other key name write none rest h = refl
  field-other key name write (some a) rest h = rw h

  field-same :
      {A : Type 0} (key : String) (write : A → j.Value) (o : Option A)
      (rest : List (String × j.Value))
      → str_eq key key ≡ true
      → field key rest ≡ none
      → field key (optional key write o ++ rest) ≡ written write o
  field-same key write none rest h k = k
  field-same key write (some a) rest h k = rw h

  field-last :
      {A : Type 0} (key name : String) (write : A → j.Value) (o : Option A)
      → str_eq name key ≡ false
      → field key (optional name write o) ≡ none
  field-last key name write none h = refl
  field-last key name write (some a) h = rw h

  get-labels : (w : Wanted) → j.get "labels" (write w) ≡ written write_labels w.labels
  get-labels w =
      j.get-object _ _
      ∙ field-same "labels" write_labels w.labels _ refl (
          field-other "labels" "producer" write_producer w.producer _ refl
          ∙ field-last "labels" "size" write_size w.size refl)

  get-producer : (w : Wanted) → j.get "producer" (write w) ≡ written write_producer w.producer
  get-producer w =
      j.get-object _ _
      ∙ field-other "producer" "labels" write_labels w.labels _ refl
      ∙ field-same "producer" write_producer w.producer _ refl
          (field-last "producer" "size" write_size w.size refl)

  get-size : (w : Wanted) → j.get "size" (write w) ≡ written write_size w.size
  get-size w =
      j.get-object _ _
      ∙ field-other "size" "labels" write_labels w.labels _ refl
      ∙ field-other "size" "producer" write_producer w.producer _ refl
      ∙ alone w.size
    where
      alone :
          (o : Option Bounds) → field "size" (optional "size" write_size o) ≡ written write_size o
      alone none = refl
      alone (some b) = refl

module _ ⦃p : Platform⦄ ⦃j : Json⦄ where
  -- A filter as a required dimension of weight 1.0.
  abbrev pub required :
      {A : Type 0} → (A → Dimension) → Option A → List (Dimension × Bool × p.Float)
  required boxed none = []
  required boxed (some a) = (boxed a, true, p.milli 1000) ∷ []

  abbrev pub dims_of : Wanted → List (Dimension × Bool × p.Float)
  unfolding label_dimension producer_dimension size_dimension
  dims_of w =
      required (λ m. label_dimension (record { matcher = m })) w.labels
      ++ (required (λ n. producer_dimension (record { matcher = names n })) w.producer
          ++ required (λ b. size_dimension (sizes b)) w.size)

  push_filter-required :
      {A B : Type 0} (key : String) (parse : j.Value → Option A) (boxed : A → Dimension)
      (message : String) (v : j.Value) (rest : Parsed (List (Dimension × Bool × p.Float)))
      (ds : List (Dimension × Bool × p.Float)) (write : B → j.Value) (read : B → A) (o : Option B)
      → j.get key v ≡ written write o
      → ((b : B) → o ≡ some b → parse (write b) ≡ some (read b))
      → rest ≡ parsed ds
      → push_filter key parse boxed message v rest ≡ parsed (required (λ b. boxed (read b)) o ++ ds)
  unfolding push_filter
  push_filter-required key parse boxed message v rest ds write read none g h k =
      rw (push_filter, g) k
  push_filter-required key parse boxed message v rest ds write read (some b) g h k =
      rw (push_filter, g, h b refl, k)

  push_filter-refused :
      {A B : Type 0} (key : String) (parse : j.Value → Option A) (boxed : A → Dimension)
      (message e : String) (v : j.Value) (rest : Parsed (List (Dimension × Bool × p.Float)))
      (write : B → j.Value) (read : B → A) (o : Option B)
      → j.get key v ≡ written write o
      → ((b : B) → parse (write b) ≡ some (read b))
      → rest ≡ invalid_argument e
      → push_filter key parse boxed message v rest ≡ invalid_argument e
  unfolding push_filter
  push_filter-refused key parse boxed message e v rest write read none g h k = rw (push_filter, g) k
  push_filter-refused key parse boxed message e v rest write read (some b) g h k =
      rw (push_filter, g, h b, k)

  size_filter : Wanted → Parsed (List (Dimension × Bool × p.Float))
  size_filter w =
      push_filter "size" parse_size_dim size_dimension "invalid size dimension" (write w)
        (parsed [])

  size_filter-fits :
      (w : Wanted)
      → fits w.size ≡ true
      → size_filter w ≡ parsed (required (λ b. size_dimension (sizes b)) w.size)
  unfolding size_filter push_filter
  size_filter-fits w h =
      push_filter-required "size" parse_size_dim size_dimension "invalid size dimension" (write w)
        (parsed []) [] write_size sizes w.size (get-size w)
        (λ b e.
          parse-write_size b ∙ ap (λ o. if o then some (sizes b) else none) (ap fits (sym e) ∙ h))
        refl
      ∙ ap parsed (append-nil _)

  size_filter-large :
      (w : Wanted) (b : Bounds)
      → w.size ≡ some b
      → fits (some b) ≡ false
      → size_filter w ≡ invalid_argument "invalid size dimension"
  unfolding size_filter push_filter
  size_filter-large w b e h = rw (push_filter, get-size w, e, parse-write_size b, h)

  parse_value-fits : (w : Wanted) → fits w.size ≡ true → parse_value (write w) ≡ parsed (dims_of w)
  unfolding parse_value size_filter
  parse_value-fits w h =
      push_filter-required "labels" parse_label_dim label_dimension "invalid labels dimension"
        (write w) _ _ write_labels (λ m. record { matcher = m }) w.labels (get-labels w)
        (λ m e. parse-write_labels m)
        (push_filter-required "producer" parse_producer_dim producer_dimension
          "invalid producer dimension" (write w) _ _ write_producer
          (λ n. record { matcher = names n }) w.producer (get-producer w)
          (λ n e. parse-write_producer n) (size_filter-fits w h))

  parse_value-large :
      (w : Wanted)
      → fits w.size ≡ false
      → parse_value (write w) ≡ invalid_argument "invalid size dimension"
  unfolding parse_value size_filter
  parse_value-large w h = elim (Option-cases w.size) [
    | inl free ↦ absurd (cc (ap fits (sym free) ∙ h))
    | inr (b, e) ↦
        push_filter-refused "labels" parse_label_dim label_dimension "invalid labels dimension" _
          (write w) _ write_labels (λ m. record { matcher = m }) w.labels (get-labels w)
          parse-write_labels
          (push_filter-refused "producer" parse_producer_dim producer_dimension
            "invalid producer dimension" _ (write w) _ write_producer
            (λ n. record { matcher = names n }) w.producer (get-producer w) parse-write_producer
            (size_filter-large w b e (ap fits (sym e) ∙ h)))
  ]

  -- A client that writes its filters as a JSON object, under the keys labels, producer and size, gets
  -- exactly these filters, in this order, each as a required dimension of weight 1.0, if the bounds
  -- of its size are less than 2^64; if one is not, it gets an error, whatever else it wrote. The
  -- empty text asks for none.
  pub parse_dimensions-write :
      (text : String) (w : Wanted)
      → str_eq text "" ≡ false
      → j.from_str text ≡ parsed (write w)
      → (parse_dimensions text
          ≡ (if fits w.size then parsed (dims_of w) else invalid_argument "invalid size dimension"))
        × (parse_dimensions "" ≡ parsed [])
  unfolding parse_dimensions
  parse_dimensions-write text w h k = (
    elim (Bool-cases (fits w.size)) [
      | inl small ↦ rw (parse_dimensions, h, k, small) (parse_value-fits w small)
      | inr large ↦ rw (parse_dimensions, h, k, large) (parse_value-large w large)
    ],
    refl,
  )
