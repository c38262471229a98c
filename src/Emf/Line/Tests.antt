-- ===== src/Emf/Line/Tests.antt =====
-- What the buffers hold for an entry, and its lines.
use metrique.Prelude.{
  ◌+◌, ◌%◌, ◌≡◌, refl, true, false, some, [], ◌∷◌, ◌++◌, map, concat, String, codes, length-append,
  arith,
}
use metrique.Emf.Output.{Bytes}
use metrique.Emf.Values.{joined}
use metrique.Emf.Entry.{EntryWriter}
use metrique.Emf.Entry.Calls.{string_value, timestamp, value, builder, start, calls}
use metrique.Emf.Line.{Encoder, log_group_and_timestamp_of, dimension_fields}
use metrique.Emf.Line.Text.{IsEncoder}
use metrique.Emf.Line.Contents.{Contents, Setup}
use metrique.Emf.Line.Lines.{lines}

-- Quotes around a string, and the last digit of a number.
abbrev quoted : String → Bytes
quoted s = codes "\"" ++ codes s ++ codes "\""

abbrev pub plain : Encoder
plain = record {
  json = quoted;
  json_array = λ names. codes "[" ++ joined (map quoted names) ++ codes "]";
  join = joined;
  itoa = λ n. (48 + n % 10) ∷ [];
}

pub plain-IsEncoder : IsEncoder plain
plain-IsEncoder = record {
  some_text = λ s. omega (arith, length-append (codes "\"" ++ codes s) (codes "\""));
  array = λ names. refl;
  commas = λ texts. refl;
}

abbrev pub app : Setup
app = record {
  first = "App";
  more = "App2" ∷ [];
  default_dimensions = ("Operation" ∷ []) ∷ [];
  extra_directives = [];
  log_group_name = some "Logs";
}

-- A metric, another one for a dimension of its own, and a set that has no fields.
abbrev pub held : Contents
held = record {
  strings = codes ",\"Operation\":\"Foo\"";
  fields = codes ",\"Time\":5";
  metrics = codes "{\"Name\":\"Time\"}";
  sets =
      ((("Status", "200") ∷ []), codes "{\"Name\":\"Size\"}", codes ",\"Size\":7")
      ∷ ((("Status", "500") ∷ []), [], [])
      ∷ [];
  declared = [];
  left = codes "[]";
}

abbrev text : Bytes
text =
    codes "{\"_aws\":{\"CloudWatchMetrics\":["
    ++ codes "{\"Namespace\":\"App\",\"Dimensions\":[[\"Operation\",\"Status\"]],"
    ++ codes "\"Metrics\":[{\"Name\":\"Size\"}]},"
    ++ codes "{\"Namespace\":\"App2\",\"Dimensions\":[[\"Operation\",\"Status\"]],"
    ++ codes "\"Metrics\":[{\"Name\":\"Size\"}]}"
    ++ codes "],\"LogGroupName\":\"Logs\",\"Timestamp\":3},"
    ++ codes "\"Status\":\"200\",\"Size\":7,\"Operation\":\"Foo\"}\n"
    ++ codes "{\"_aws\":{\"CloudWatchMetrics\":["
    ++ codes
        "{\"Namespace\":\"App\",\"Dimensions\":[[\"Operation\"]],\"Metrics\":[{\"Name\":\"Time\"}]},"
    ++ codes
        "{\"Namespace\":\"App2\",\"Dimensions\":[[\"Operation\"]],\"Metrics\":[{\"Name\":\"Time\"}]}"
    ++ codes "],\"LogGroupName\":\"Logs\",\"Timestamp\":3},"
    ++ codes "\"Time\":5,\"Operation\":\"Foo\"}\n"

sample_of_lines :
    concat (lines plain plain-IsEncoder app app.default_dimensions 3 held false held.sets) ≡ text
unfolding lines log_group_and_timestamp_of dimension_fields
sample_of_lines = refl

abbrev pub writer : EntryWriter
writer =
    calls (timestamp 3 ∷ value "Operation" string_value ∷ [])
      (start (builder true app.default_dimensions))
