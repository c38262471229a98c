-- ===== src/Emf/Entry.antt =====
-- The validations of `EntryWriter` of metrique-writer-format-emf/src/emf.rs, and the settings of
-- `EmfBuilder` that they depend on. The buffers that the same calls write are left out here.
pub mod Calls
pub mod Names
pub mod Missing
pub mod Sought
pub mod Counts
pub mod Measured
pub mod Unique
mod Tests
use Prim.Native.String.{compare}
use text.Mathlib.Text.{is_le, is_lt, ◌==◌ as str_eq}
use metrique.Prelude.{
  ℕ, ◌+◌, ◌≡◌, Bool, true, false, not, ◌&&◌, ◌||◌, Option, none, some, List, [], ◌∷◌, ◌++◌, ◌==◌,
  length, String, if◌then◌else◌,
}

-- The place of a metric's dimensions, 0 for none, is one of the `indexes`.
pub data LineKind : Type 0 where
  metric : List ℕ → LineKind
  string : LineKind
  unfound_dimension : LineKind

-- The texts of the `ValidationError`s. `reported` is one that a value reports of itself.
pub data Reason : Type 0 where
  multiple_timestamps : Reason
  dimensions_after_metric : Reason
  dimensions_set_twice : Reason
  dimensions_empty : Reason
  name_empty : Reason
  name_aws : Reason
  duplicate_field : Reason
  metric_in_dimension : Reason
  dimensions_without_split : Reason
  missing_dimension : Reason
  reported : String → Reason

-- With the field that it is for.
abbrev pub ValidationError : Type 0
ValidationError = Option String × Reason

pub record Validation : Type 0 where
  pub skip_validate_unique : Bool
  pub skip_validate_dimensions_exist : Bool
  pub skip_validate_names : Bool

abbrev pub LineMap : Type 0
LineMap = List (String × LineKind)

abbrev pub Dimensions : Type 0
Dimensions = List (String × String)

-- `dimension_set_map` holds its keys, each at the place that is one less than its index.
pub record EntryWriter : Type 0 where
  pub validation_map : LineMap
  pub dimension_set_map : List Dimensions
  pub allow_ignored_dimensions : Bool
  pub entry_dimensions : Bool
  pub validations : Validation
  pub timestamp : Option ℕ
  pub error : List ValidationError
  pub allow_split_entries : Bool
  pub is_allow_unroutable_entries : Bool

unfoldable pub lookup : String → LineMap → Option LineKind
lookup name [] = none
lookup name ((other, kind) ∷ lines) =
    let rest = lookup name lines in if str_eq other name then some kind else rest

-- The entry for a name, which comes last if it is new.
unfoldable pub set_kind : String → LineKind → LineMap → LineMap
set_kind name kind [] = (name, kind) ∷ []
set_kind name kind ((other, old) ∷ lines) =
    let rest = set_kind name kind lines in
    if str_eq other name then (other, kind) ∷ lines else (other, old) ∷ rest

unfoldable pub invalid : Option String → Reason → EntryWriter → EntryWriter
invalid field reason w = record w { error = w.error ++ (field, reason) ∷ [] }

unfoldable pub set_line : String → LineKind → EntryWriter → EntryWriter
unfolding set_kind
set_line name kind w = record w { validation_map = set_kind name kind w.validation_map }

unfoldable pub write_timestamp : ℕ → EntryWriter → EntryWriter
unfolding invalid
write_timestamp t w =
    let set = record w { timestamp = some t } in
    elim w.timestamp [ none ↦ set | some before ↦ invalid none multiple_timestamps set ]

-- Whether the name may be written.
unfoldable pub validate_name : String → EntryWriter → Bool × EntryWriter
unfolding invalid
validate_name name w =
    if w.validations.skip_validate_names
    then (true, w)
    else if str_eq name ""
    then (false, invalid (some "") name_empty w)
    else if str_eq name "_aws"
    then (false, invalid (some "_aws") name_aws w)
    else (true, w)

unfoldable pub validate_string : String → EntryWriter → EntryWriter
unfolding invalid set_line lookup
validate_string name w = elim (lookup name w.validation_map) [
  | none ↦ set_line name string w
  | some (metric indexes) ↦ invalid (some name) duplicate_field w
  | some string ↦ invalid (some name) duplicate_field w
  | some unfound_dimension ↦ set_line name string w
]

-- `DimensionSetKey`: the pairs in their order.
abbrev pair_le : String × String → String × String → Bool
pair_le (n1, v1) (n2, v2) = is_lt (compare n1 n2) || str_eq n1 n2 && is_le (compare v1 v2)

unfoldable pub insert_pair : String × String → Dimensions → Dimensions
insert_pair p [] = p ∷ []
insert_pair p (q ∷ qs) = let rest = insert_pair p qs in if pair_le p q then p ∷ q ∷ qs else q ∷ rest

unfoldable pub dimension_set_key : Dimensions → Dimensions
unfolding insert_pair
dimension_set_key [] = []
dimension_set_key (p ∷ ps) = insert_pair p (dimension_set_key ps)

unfoldable pub equivalent : Dimensions → Dimensions → Bool
equivalent [] [] = true
equivalent ((n1, v1) ∷ ps) ((n2, v2) ∷ qs) = str_eq n1 n2 && str_eq v1 v2 && equivalent ps qs
equivalent _ _ = false

-- The index of a key, from 1, and the keys with it.
unfoldable pub index_from : ℕ → Dimensions → List Dimensions → ℕ × List Dimensions
unfolding equivalent
index_from i key [] = (i, key ∷ [])
index_from i key (k ∷ keys) =
    let (j, more) = index_from (i + 1) key keys in
    if equivalent key k then (i, k ∷ keys) else (j, k ∷ more)

abbrev pub is_none : Dimensions → Bool
is_none [] = true
is_none (p ∷ ps) = false

abbrev pub holds : ℕ → List ℕ → Bool
holds i [] = false
holds i (j ∷ js) = i == j || holds i js

-- The kind is looked up, or a metric's is entered, and then the index is.
unfoldable pub validate_metric : String → ℕ → EntryWriter → EntryWriter
unfolding invalid set_line lookup
validate_metric name index w = elim (lookup name w.validation_map) [
  | none ↦ set_line name (metric (index ∷ [])) w
  | some (metric indexes) ↦
      if holds index indexes
      then invalid (some name) duplicate_field w
      else set_line name (metric (index ∷ indexes)) w
  | some string ↦ invalid (some name) duplicate_field w
  | some unfound_dimension ↦ invalid (some name) metric_in_dimension w
]
