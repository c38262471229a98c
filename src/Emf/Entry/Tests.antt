-- ===== src/Emf/Entry/Tests.antt =====
-- Entries that are accepted and refused.
use metrique.Prelude.{
  ◌+◌, ◌≤◌, ◌≡◌, refl, true, false, none, some, List, [], ◌∷◌, ◌++◌, total, String,
}
use metrique.Emf.Entry.{
  missing_dimension, duplicate_field, metric_in_dimension, multiple_timestamps, ValidationError,
  lookup, set_kind, set_line, invalid, write_timestamp, validate_name, validate_string,
  validate_metric, index_from, equivalent, dimension_set_key, insert_pair,
}
use metrique.Emf.Entry.Calls.{
  string_value, measurement, Call, timestamp, value, allow_split_entries, builder,
  allow_dimensions_with_no_data, format, start, base_map, calls, call, write_value, write_text,
  write_measurement, metric_index, check_split, finish, missing,
}
use metrique.Emf.Entry.Sought.{text_of}
use metrique.Emf.Entry.Counts.{plain_of}
use metrique.Emf.Entry.Unique.{format_unique}
use metrique.Emf.Entry.Missing.{format-builder, format-none}

abbrev dim_sets : List (List String)
dim_sets = ("Operation" ∷ []) ∷ []

abbrev entry : List Call
entry = timestamp 0 ∷ value "Operation" string_value ∷ value "Time" (measurement []) ∷ []

accepted : format (builder true dim_sets) entry ≡ none
unfolding format builder start base_map set_kind calls call write_timestamp validate_name
    write_value write_text validate_string lookup set_line write_measurement metric_index
    check_split validate_metric finish missing
accepted = refl

refused :
    format (allow_dimensions_with_no_data false (builder false dim_sets)) entry
    ≡ some ((some "Operation", missing_dimension) ∷ [])
unfolding format builder allow_dimensions_with_no_data start base_map set_kind calls call
    write_timestamp validate_name write_value write_text lookup write_measurement metric_index
    check_split finish missing
refused = refl

-- The second writes of a timestamp and of a metric with the same dimensions in another order, and a
-- dimension that a metric stands for.
abbrev faulty : List Call
faulty =
    timestamp 0
    ∷ timestamp 1
    ∷ allow_split_entries
    ∷ value "Time" (measurement (("a", "1") ∷ ("b", "2") ∷ []))
    ∷ value "Time" (measurement [])
    ∷ value "Time" (measurement (("b", "2") ∷ ("a", "1") ∷ []))
    ∷ value "Operation" (measurement [])
    ∷ []

faults :
    format (builder true dim_sets) faulty
    ≡ some (
        (none, multiple_timestamps)
        ∷ (some "Time", duplicate_field)
        ∷ (some "Operation", metric_in_dimension)
        ∷ (some "Operation", missing_dimension)
        ∷ [])
unfolding format builder start base_map set_kind calls call write_timestamp validate_name
    write_value write_text validate_string lookup set_line write_measurement metric_index
    check_split index_from equivalent dimension_set_key insert_pair validate_metric invalid finish
    missing
faults = refl

format-builder_example :
    (errors more : List ValidationError) × (format
        (allow_dimensions_with_no_data false (builder false dim_sets))
        entry
      ≡ some (errors ++ (some "Operation", missing_dimension) ∷ more))
format-builder_example = format-builder "Operation" dim_sets [] [] entry refl (tt, (tt, (tt, tt)))

format-none_example : 1 ≤ total (text_of "Operation") entry
unfolding builder
format-none_example =
    format-none "Operation" (builder true dim_sets) [] [] entry refl refl (tt, (tt, (tt, tt)))
      accepted

format_unique_example : total (λ c. text_of "Time" c + plain_of "Time" c) entry ≤ 1
unfolding builder
format_unique_example =
    format_unique "Time" (builder true dim_sets) entry refl (tt, (tt, (tt, tt))) accepted
