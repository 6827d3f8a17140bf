-- ===== src/Tests/Documents.antt =====
-- components/endpoint/network/connection.rs: JSON documents for the tests.
use jackfield.Common.{
  ltb, ◌^◌, ℕ, ◌≡◌, refl, ap, List, [], ◌∷◌, String, Option, none, some, if◌then◌else◌, str_eq,
}
use jackfield.Platform.Sample.{sample}
use jackfield.Network.{Json, parsed, invalid_argument, field}

mutual
  pub data Doc : Type 0 where
    text : String → Doc
    num : ℕ → Doc
    arr : Docs → Doc
    obj : Fields → Doc

  pub data Docs : Type 0 where
    no_docs : Docs
    docs : Doc → Docs → Docs

  pub data Fields : Type 0 where
    no_fields : Fields
    fields : String → Doc → Fields → Fields

abbrev pub docs_of : List Doc → Docs
docs_of [] = no_docs
docs_of (d ∷ ds) = docs d (docs_of ds)

abbrev pub list_of : Docs → List Doc
list_of no_docs = []
list_of (docs d ds) = d ∷ list_of ds

abbrev pub fields_of : List (String × Doc) → Fields
fields_of [] = no_fields
fields_of ((s, d) ∷ fs) = fields s d (fields_of fs)

abbrev pub field_of : String → Fields → Option Doc
field_of key no_fields = none
field_of key (fields name d fs) = if str_eq name key then some d else field_of key fs

abbrev pub get_field : String → Doc → Option Doc
get_field key (obj fs) = field_of key fs
get_field key _ = none

abbrev pub elements : Doc → Option (List Doc)
elements (arr ds) = some (list_of ds)
elements _ = none

abbrev pub content : Doc → Option String
content (text s) = some s
content _ = none

abbrev pub natural : Doc → Option ℕ
natural (num n) = if ltb n (2 ^ 64) then some n else none
natural _ = none

pub list_of-docs_of : (ds : List Doc) → list_of (docs_of ds) ≡ ds
list_of-docs_of [] = refl
list_of-docs_of (d ∷ ds) = ap (λ l. d ∷ l) (list_of-docs_of ds)

pub field_of-fields_of :
    (key : String) (fs : List (String × Doc)) → field_of key (fields_of fs) ≡ field key fs
field_of-fields_of key [] = refl
field_of-fields_of key ((s, d) ∷ fs) =
    ap (λ rest. if str_eq s key then some d else rest) (field_of-fields_of key fs)

-- {"labels": {"all_of": ["hot", "red"]}, "producer": {"only": "b"}, "size": {"between": [1, 64]}}
abbrev pub asked : Doc
asked = obj (
    fields "labels"
      (obj (fields "all_of" (arr (docs (text "hot") (docs (text "red") no_docs))) no_fields))
      (fields "producer" (obj (fields "only" (text "b") no_fields)) (
        fields "size"
          (obj (fields "between" (arr (docs (num 1) (docs (num 64) no_docs))) no_fields))
          no_fields)))

-- {"size": {"at_most": 18446744073709551616}}
abbrev pub huge : Doc
huge = obj (fields "size" (obj (fields "at_most" (num (2 ^ 64)) no_fields)) no_fields)

instance abbrev pub documents : Json
documents = record {
  Value = Doc;
  string = text;
  number = num;
  array = λ ds. arr (docs_of ds);
  object = λ fs. obj (fields_of fs);
  get = get_field;
  as_array = elements;
  as_str = content;
  as_u64 = natural;
  from_str = λ t.
      if str_eq t "asked"
      then parsed asked
      else if str_eq t "huge"
      then parsed huge
      else invalid_argument "no document";
  get-object = field_of-fields_of;
  as_array-array = λ ds. ap some (list_of-docs_of ds);
  as_str-string = λ s. refl;
  as_u64-number = λ n. refl;
}
