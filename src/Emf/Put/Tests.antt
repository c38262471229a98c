-- ===== src/Emf/Put/Tests.antt =====
-- An entry and its lines, and an instance of the theorem.
use metrique.Prelude.{ℕ, none, some, String, List, [], ◌∷◌, ◌++◌, codes, arith}
use metrique.Emf.Output.{Bytes}
use metrique.Histogram.{unsigned}
use metrique.Emf.Tests.{two_at_a_time, two_at_a_time-IsWrite, digits, counts, counts-IsCounts}
use metrique.Histogram.Numbers.{numbers}
use metrique.Emf.Line.Tests.{plain, plain-IsEncoder, app, held, writer}
use metrique.Emf.Line.Contents.{state_of}
use metrique.Emf.Put.{Put, put_string, put_metric}
use metrique.Emf.Put.Format.{format_with_multiplicity, format_with_multiplicity_lem}
use metrique.Emf.Line.{log_group_and_timestamp_of, dimension_fields}
use metrique.Emf.Line.Lines.{lines}
use metrique.Emf.Line.Order.{arrange, insert_at}
use metrique.Emf.Line.Formats.{Formats}
use metrique.Emf.Put.Grown.{grow_sets}
use metrique.Emf.Put.Filled.{fill, fill_all}
use metrique.Emf.Entry.{
  dimension_set_key, insert_pair, equivalent, lookup, set_kind, set_line, write_timestamp,
  validate_name, validate_string,
}
use metrique.Emf.Entry.Calls.{
  builder, start, base_map, calls, call, write_value, write_text, missing,
}
use metrique.Emf.Entry.Calls as Calls

-- A string, a metric, and two with a dimension of their own, each with another value.
abbrev puts : List (Put numbers)
puts =
    put_string "Operation" "Foo"
    ∷ put_metric "Size" (unsigned 7 ∷ []) none (("Status", "200") ∷ []) none
    ∷ put_metric "Count" (unsigned 2 ∷ []) none (("Status", "404") ∷ []) none
    ∷ put_metric "Time" (unsigned 5 ∷ []) none [] none
    ∷ []

-- A dimension that the entry configures, in every line.
abbrev dim_sets : List (List String)
dim_sets = ("Region" ∷ []) ∷ []

abbrev text : Bytes
text =
    codes "{\"_aws\":{\"CloudWatchMetrics\":["
    ++ codes "{\"Namespace\":\"App\",\"Dimensions\":[[\"Operation\",\"Region\",\"Status\"]],"
    ++ codes "\"Metrics\":[{\"Name\":\"Count\"}]},"
    ++ codes "{\"Namespace\":\"App2\",\"Dimensions\":[[\"Operation\",\"Region\",\"Status\"]],"
    ++ codes "\"Metrics\":[{\"Name\":\"Count\"}]}"
    ++ codes "],\"LogGroupName\":\"Logs\",\"Timestamp\":3},"
    ++ codes "\"Status\":\"404\",\"Count\":2,\"Operation\":\"Foo\"}\n"
    ++ codes "{\"_aws\":{\"CloudWatchMetrics\":["
    ++ codes "{\"Namespace\":\"App\",\"Dimensions\":[[\"Operation\",\"Region\",\"Status\"]],"
    ++ codes "\"Metrics\":[{\"Name\":\"Size\"}]},"
    ++ codes "{\"Namespace\":\"App2\",\"Dimensions\":[[\"Operation\",\"Region\",\"Status\"]],"
    ++ codes "\"Metrics\":[{\"Name\":\"Size\"}]}"
    ++ codes "],\"LogGroupName\":\"Logs\",\"Timestamp\":3},"
    ++ codes "\"Status\":\"200\",\"Size\":7,\"Operation\":\"Foo\"}\n"
    ++ codes "{\"_aws\":{\"CloudWatchMetrics\":["
    ++ codes "{\"Namespace\":\"App\",\"Dimensions\":[[\"Operation\",\"Region\"]],"
    ++ codes "\"Metrics\":[{\"Name\":\"Time\"}]},"
    ++ codes "{\"Namespace\":\"App2\",\"Dimensions\":[[\"Operation\",\"Region\"]],"
    ++ codes "\"Metrics\":[{\"Name\":\"Time\"}]}"
    ++ codes "],\"LogGroupName\":\"Logs\",\"Timestamp\":3},"
    ++ codes "\"Time\":5,\"Operation\":\"Foo\"}\n"

-- The set that came last is walked first.
abbrev last_first : List ℕ
last_first = 1 ∷ []

-- The lines are written over what `held` has left in the buffers.
format_with_multiplicity_lem_example :
    Formats two_at_a_time
      (λ w. w.0)
      (λ w. w.1)
      two_at_a_time-IsWrite
      plain
      none
      (format_with_multiplicity numbers digits plain two_at_a_time 1300 writer
        (some dim_sets)
        puts
        none
        last_first
        8
        (state_of plain plain-IsEncoder app app.default_dimensions held)
        counts
        ([], 2))
      text
      ([], 2)
unfolding arrange insert_at lines log_group_and_timestamp_of dimension_fields Calls.finish missing
    builder start base_map set_kind calls call write_timestamp validate_name write_value write_text
    validate_string lookup set_line fill fill_all grow_sets dimension_set_key insert_pair equivalent
format_with_multiplicity_lem_example =
    format_with_multiplicity_lem numbers digits plain plain-IsEncoder two_at_a_time (λ w. w.0)
      (λ w. w.1) two_at_a_time-IsWrite app writer (some dim_sets) puts none last_first 1300 8
      app.default_dimensions held counts ([], 2) counts-IsCounts (omega arith)
