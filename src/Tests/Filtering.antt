-- ===== src/Tests/Filtering.antt =====
-- components/endpoint/network/connection.rs: the result on JSON filters at an input.
use jackfield.Common.{◌≡◌, refl, [], ◌∷◌, some}
use jackfield.Platform.Sample.{sample}
use jackfield.Dimension.Builtin.{LabelMatcher}
use jackfield.Network.{parsed, invalid_argument, parse_dimensions}
use jackfield.Tests.Documents.{documents}
use jackfield.Network.Filters.{Wanted, only, between, dims_of, parse_dimensions-write}

abbrev wanted : Wanted
wanted = record {
  labels = some (LabelMatcher.all_of ("hot" ∷ "red" ∷ []));
  producer = some (only "b");
  size = some (between 1 64);
}

parse_dimensions-write_example :
    (parse_dimensions "asked" ≡ parsed (dims_of wanted)) × (parse_dimensions "" ≡ parsed [])
parse_dimensions-write_example = parse_dimensions-write "asked" wanted refl refl

-- A bound that is no `u64` is an error.
huge_test : parse_dimensions "huge" ≡ invalid_argument "invalid size dimension"
unfolding parse_dimensions
huge_test = refl

-- What is no JSON is an error.
no_json_test : parse_dimensions "{" ≡ invalid_argument "dimensions_json: no document"
unfolding parse_dimensions
no_json_test = refl
