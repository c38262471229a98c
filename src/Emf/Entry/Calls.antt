-- ===== src/Emf/Entry/Calls.antt =====
-- The calls that an entry makes on its `EntryWriter`, what `finish` decides, and the `EmfBuilder`.
use metrique.Prelude.{
  ℕ, Bool, true, false, not, ◌&&◌, ◌||◌, Option, none, some, List, [], ◌∷◌, ◌++◌, concat, String,
  if◌then◌else◌,
}
use metrique.Emf.Entry.{
  metric, string, unfound_dimension, Reason, dimensions_after_metric, dimensions_set_twice,
  dimensions_empty, dimensions_without_split, duplicate_field, missing_dimension, ValidationError,
  Validation, LineMap, Dimensions, EntryWriter, lookup, set_kind, invalid, set_line,
  write_timestamp, validate_name, validate_string, dimension_set_key, index_from, is_none,
  validate_metric,
}

-- What a value does with its `ValueWriter`: a string or a list of values, a metric, an error, or
-- nothing.
pub data Value : Type 0 where
  string_value : Value
  measurement : Dimensions → Value
  failure : Reason → Value
  nothing : Value

pub data Call : Type 0 where
  timestamp : ℕ → Call
  value : String → Value → Call
  entry_dimensions : List (List String) → Call
  allow_split_entries : Call
  allow_unroutable_entries : Call

-- The index of a metric's dimensions, 0 for none.
unfoldable pub metric_index : Dimensions → EntryWriter → ℕ × EntryWriter
metric_index dimensions w =
    if w.allow_ignored_dimensions || is_none dimensions
    then (0, w)
    else let (index, keys) = index_from 1 (dimension_set_key dimensions) w.dimension_set_map in
      (index, record w { dimension_set_map = keys })

unfoldable pub check_split : String → Dimensions → EntryWriter → EntryWriter
unfolding invalid
check_split name dimensions w =
    if not (w.allow_ignored_dimensions || is_none dimensions) && not w.allow_split_entries
    then invalid (some name) dimensions_without_split w
    else w

unfoldable pub write_measurement : String → Dimensions → EntryWriter → EntryWriter
unfolding metric_index check_split
write_measurement name dimensions w =
    let (index, w') = metric_index dimensions (check_split name dimensions w) in
    if not w.validations.skip_validate_unique && not w.is_allow_unroutable_entries
    then validate_metric name index w'
    else w'

unfoldable pub write_text : String → EntryWriter → EntryWriter
write_text name w = if not w.validations.skip_validate_unique then validate_string name w else w

unfoldable pub write_value : String → Value → EntryWriter → EntryWriter
unfolding write_text write_measurement invalid
write_value name string_value w = write_text name w
write_value name (measurement dimensions) w = write_measurement name dimensions w
write_value name (failure reason) w = invalid (some name) reason w
write_value name nothing w = w

unfoldable pub add_dimension : String → EntryWriter → EntryWriter
unfolding lookup set_line invalid
add_dimension dim w = elim (lookup dim w.validation_map) [
  | none ↦ set_line dim unfound_dimension w
  | some (metric indexes) ↦
      if not w.validations.skip_validate_unique then invalid (some dim) duplicate_field w else w
  | some string ↦ w
  | some unfound_dimension ↦ w
]

unfoldable pub add_dimensions : List String → EntryWriter → EntryWriter
unfolding add_dimension
add_dimensions [] w = w
add_dimensions (dim ∷ dims) w = add_dimensions dims (add_dimension dim w)

abbrev pub some_keys : List Dimensions → Bool
some_keys [] = false
some_keys (k ∷ keys) = true

unfoldable pub set_dimensions : List (List String) → EntryWriter → EntryWriter
unfolding invalid add_dimensions
set_dimensions dim_sets w =
    if some_keys w.dimension_set_map
    then invalid none dimensions_after_metric w
    else if w.entry_dimensions
    then invalid none dimensions_set_twice w
    else elim dim_sets [
      | [] ↦ invalid none dimensions_empty w
      | dims ∷ more ↦
          let checked =
            if not w.validations.skip_validate_unique
              || not w.validations.skip_validate_dimensions_exist
            then add_dimensions (concat (dims ∷ more)) w
            else w in
          record checked { entry_dimensions = true }
    ]

unfoldable pub call : Call → EntryWriter → EntryWriter
unfolding write_timestamp write_value set_dimensions validate_name
call (timestamp t) w = write_timestamp t w
call (value name v) w =
    let (valid, w') = validate_name name w in if valid then write_value name v w' else w'
call (entry_dimensions dim_sets) w = set_dimensions dim_sets w
call allow_split_entries w = record w { allow_split_entries = true }
call allow_unroutable_entries w = record w { is_allow_unroutable_entries = true }

unfoldable pub calls : List Call → EntryWriter → EntryWriter
unfolding call
calls [] w = w
calls (c ∷ cs) w = calls cs (call c w)

-- In the order of the map, which is that of a hash map in the code.
unfoldable pub missing : LineMap → List ValidationError
missing [] = []
missing ((dim, unfound_dimension) ∷ lines) = (some dim, missing_dimension) ∷ missing lines
missing ((dim, string) ∷ lines) = missing lines
missing ((dim, metric indexes) ∷ lines) = missing lines

abbrev pub build_errors : List ValidationError → Option (List ValidationError)
build_errors [] = none
build_errors (e ∷ es) = some (e ∷ es)

-- The errors that `finish` returns, before it writes anything.
unfoldable pub finish : EntryWriter → Option (List ValidationError)
unfolding missing
finish w = build_errors (
    if not w.validations.skip_validate_dimensions_exist && not w.is_allow_unroutable_entries
    then w.error ++ missing w.validation_map
    else w.error)

-- The settings of the builder that the validations depend on.
pub record EmfBuilder : Type 0 where
  pub default_dimensions : List (List String)
  pub allow_ignored_dimensions : Bool
  pub validation : Validation

-- `debug` is whether the build has debug assertions.
unfoldable pub builder : Bool → List (List String) → EmfBuilder
builder debug dims = record {
  default_dimensions = dims;
  allow_ignored_dimensions = false;
  validation = record {
    skip_validate_unique = not debug;
    skip_validate_dimensions_exist = not debug;
    skip_validate_names = not debug;
  };
}

unfoldable pub allow_dimensions_with_no_data : Bool → EmfBuilder → EmfBuilder
allow_dimensions_with_no_data allow b = record b {
  validation = record b.validation { skip_validate_dimensions_exist = allow };
}

unfoldable pub skip_all_validations : Bool → EmfBuilder → EmfBuilder
skip_all_validations skip b = record b {
  validation = record {
    skip_validate_unique = b.validation.skip_validate_unique || skip;
    skip_validate_dimensions_exist = b.validation.skip_validate_dimensions_exist || skip;
    skip_validate_names = b.validation.skip_validate_names || skip;
  };
}

-- `validation_map_base` of `build`: the default dimensions, each once.
unfoldable pub base_map : List String → LineMap → LineMap
unfolding lookup set_kind
base_map [] lines = lines
base_map (dim ∷ dims) lines = base_map dims (set_kind dim unfound_dimension lines)

-- The writer with which `format_with_multiplicity` starts.
unfoldable pub start : EmfBuilder → EntryWriter
unfolding base_map
start b = record {
  validation_map =
      if b.validation.skip_validate_dimensions_exist
      then []
      else base_map (concat b.default_dimensions) [];
  dimension_set_map = [];
  allow_ignored_dimensions = b.allow_ignored_dimensions;
  entry_dimensions = false;
  validations = b.validation;
  timestamp = none;
  error = [];
  allow_split_entries = false;
  is_allow_unroutable_entries = false;
}

-- Whether an entry is refused, and why.
unfoldable pub format : EmfBuilder → List Call → Option (List ValidationError)
unfolding start calls finish
format b entry = finish (calls entry (start b))
