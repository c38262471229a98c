-- ===== src/Emf/Line.antt =====
-- The lines of the EMF format of metrique-writer-format-emf/src/emf.rs: the `State` with its
-- buffers, what `EmfBuilder::build` puts into it, and what `finish` adds before it writes.
pub mod Text
pub mod Ended
pub mod Order
pub mod Finish
pub mod Contents
pub mod Lines
pub mod Rounds
pub mod Written
pub mod Formats
pub mod Tests
use metrique.Prelude.{
  ℕ, ◌-◌, Bool, true, false, not, Option, none, some, List, [], ◌∷◌, ◌++◌, ◌==◌, map, length, leb,
  take, drop, String, codes, if◌then◌else◌,
}
use metrique.Emf.Output.{Bytes}
use metrique.Emf.Buf.{
  PrefixedStringBuf, from_prefix, is_empty, clear, push_raw_str, extend_from_within_range,
}
use metrique.Emf.Entry.{Dimensions}

-- `json` and `json_array` stand for serde_json, `join` for that of itertools with a comma, and `itoa`
-- for the crate of this name.
pub record Encoder : Type 0 where
  pub json : String → Bytes
  pub json_array : List String → Bytes
  pub join : List Bytes → Bytes
  pub itoa : ℕ → Bytes

-- Lines of metrics with dimensions of their own. The index into the map is its place there.
pub record MetricsForDimensionSet : Type 0 where
  pub fields_buf : PrefixedStringBuf
  pub metrics_buf : PrefixedStringBuf
  pub after_namespace_index : ℕ

pub record State : Type 0 where
  pub namespaces : List Bytes
  pub each_dimensions_str : List Bytes
  pub log_group_and_timestamp : Bytes
  pub dimension_set_map : List (Dimensions × MetricsForDimensionSet)
  pub string_fields_buf : PrefixedStringBuf
  pub fields_buf : PrefixedStringBuf
  pub metrics_buf : PrefixedStringBuf
  pub dimensions_buf : PrefixedStringBuf
  pub after_namespace_index : ℕ
  pub decl_buf : PrefixedStringBuf

-- The settings of `EmfBuilder` that the lines depend on.
pub record LineBuilder : Type 0 where
  pub namespaces : List String
  pub default_dimensions : List (List String)
  pub extra_directives : Bytes
  pub log_group_name : Option String

abbrev pub dimension_names : Dimensions → List String
dimension_names [] = []
dimension_names ((name, value) ∷ ps) = name ∷ dimension_names ps

module _ (encoder : Encoder) where
  open encoder use {json, json_array, join, itoa}

  unfoldable pub extend_names : Bool → List String → Bytes → Bytes
  extend_names first [] encoded_array = encoded_array
  extend_names first (name ∷ names) encoded_array =
      let separated = if not first then encoded_array ++ codes "," else encoded_array in
      extend_names false names (separated ++ json name)

  unfoldable pub extend_with_strings : List String → Bytes → Bytes
  unfolding extend_names
  extend_with_strings names encoded_array =
      extend_names (length encoded_array == 2) names (take (length encoded_array - 1) encoded_array)
      ++ codes "]"

  unfoldable pub log_group_and_timestamp_of : Option String → Bytes
  log_group_and_timestamp_of none = codes "],\"Timestamp\":"
  log_group_and_timestamp_of (some log_group) =
      codes "],\"LogGroupName\":" ++ json log_group ++ codes ",\"Timestamp\":"

  unfoldable pub push_log_group_and_timestamp : Bytes → ℕ → PrefixedStringBuf → PrefixedStringBuf
  push_log_group_and_timestamp s unix buf = push_raw_str (itoa unix) (push_raw_str s buf)

  -- None when an assertion fails.
  unfoldable pub build : LineBuilder → Option State
  unfolding log_group_and_timestamp_of
  build b = elim b.namespaces [
    | [] ↦ none
    | first_ns ∷ more ↦
        let dimensions_after_ns = codes ",\"Dimensions\":[" in
        let dimensions_prefix =
          codes "{\"_aws\":{\"CloudWatchMetrics\":[{\"Namespace\":"
          ++ json first_ns
          ++ dimensions_after_ns in
        some (record {
          namespaces = map json (first_ns ∷ more);
          each_dimensions_str = map json_array b.default_dimensions;
          log_group_and_timestamp = log_group_and_timestamp_of b.log_group_name;
          dimension_set_map = [];
          string_fields_buf = from_prefix [];
          fields_buf = from_prefix (codes "}");
          metrics_buf = from_prefix (codes "],\"Metrics\":[");
          dimensions_buf = from_prefix dimensions_prefix;
          after_namespace_index = length dimensions_prefix - length dimensions_after_ns;
          decl_buf = from_prefix b.extra_directives;
        })
  ]

  -- What `format_with_multiplicity` clears.
  unfoldable pub reset : State → State
  reset s = record s {
    string_fields_buf = clear s.string_fields_buf;
    fields_buf = clear s.fields_buf;
    metrics_buf = clear s.metrics_buf;
    decl_buf = clear s.decl_buf;
    dimension_set_map = [];
  }

  unfoldable pub dimension_fields : Dimensions → Bytes
  dimension_fields [] = []
  dimension_fields ((name, value) ∷ ps) =
      codes "," ++ json name ++ codes ":" ++ json value ++ dimension_fields ps

  unfoldable pub new_set : Bytes → List Bytes → Dimensions → MetricsForDimensionSet
  unfolding extend_with_strings dimension_fields
  new_set namespace_str each_dimensions_str variable_dimensions =
      let dimensions_str =
        join
          (map (extend_with_strings (dimension_names variable_dimensions)) each_dimensions_str) in
      let opened = codes "{\"_aws\":{\"CloudWatchMetrics\":[{\"Namespace\":" ++ namespace_str in
      record {
        fields_buf = from_prefix (codes "}" ++ dimension_fields variable_dimensions);
        metrics_buf =
            from_prefix
              (opened ++ codes ",\"Dimensions\":[" ++ dimensions_str ++ codes "],\"Metrics\":[");
        after_namespace_index = length opened;
      }

  -- The directives of the namespaces after the first one, with what `push` puts behind each name.
  unfoldable pub push_namespaces :
      (PrefixedStringBuf → Option PrefixedStringBuf)
      → List Bytes
      → PrefixedStringBuf
      → Option PrefixedStringBuf
  push_namespaces push [] buf = some buf
  push_namespaces push (namespace ∷ namespaces) buf =
      elim (push (push_raw_str namespace (push_raw_str (codes ",{\"Namespace\":") buf))) [
        | none ↦ none
        | some buf' ↦ push_namespaces push namespaces buf'
      ]

  -- `namespaces[1..]`, which panics when there is none.
  abbrev pub after_first : List Bytes → Option (List Bytes)
  after_first [] = none
  after_first (first ∷ more) = some more

  -- The `metrics_buf` of a dimension set when its line is written.
  unfoldable pub end_set : State → ℕ → MetricsForDimensionSet → Option MetricsForDimensionSet
  unfolding push_namespaces push_log_group_and_timestamp
  end_set s unix entry =
      let closed = push_raw_str (codes "]}") entry.metrics_buf in
      elim (after_first s.namespaces) [
        | none ↦ none
        | some more ↦
            elim (push_namespaces
              (extend_from_within_range entry.after_namespace_index (length closed.buf)) more
              closed) [
                | none ↦ none
                | some buf ↦ some (record entry {
                  metrics_buf = push_log_group_and_timestamp s.log_group_and_timestamp unix buf;
                })
              ]
      ]

  unfoldable pub push_arrays : Bool → List Bytes → PrefixedStringBuf → PrefixedStringBuf
  push_arrays first [] buf = buf
  push_arrays first (dimension ∷ dimensions) buf =
      let separated = if not first then push_raw_str (codes ",") buf else buf in
      push_arrays false dimensions (push_raw_str dimension separated)

  -- The dimensions and the metrics for another namespace. A slice from outside of a buffer panics.
  unfoldable pub push_dimensions :
      ℕ → PrefixedStringBuf → ℕ → PrefixedStringBuf → Option PrefixedStringBuf
  push_dimensions after_namespace_index dims metrics_len buf =
      if leb after_namespace_index (length dims.buf)
      then extend_from_within_range 0 metrics_len
          (push_raw_str (drop after_namespace_index dims.buf) buf)
      else none

  unfoldable pub end_plain_with :
      State → PrefixedStringBuf → Option (PrefixedStringBuf × PrefixedStringBuf)
  unfolding push_namespaces push_dimensions
  end_plain_with s dims =
      let closed = push_raw_str (codes "]}") s.metrics_buf in
      elim (after_first s.namespaces) [
        | none ↦ none
        | some more ↦
            elim (push_namespaces (push_dimensions s.after_namespace_index dims (length closed.buf))
              more closed) [ none ↦ none | some metrics ↦ some (dims, metrics) ]
      ]

  -- The `dimensions_buf` and the `metrics_buf` when the line without dimensions is written.
  unfoldable pub end_plain : State → List Bytes → Option (PrefixedStringBuf × PrefixedStringBuf)
  unfolding push_arrays end_plain_with
  end_plain s dimensions = end_plain_with s (push_arrays true dimensions (clear s.dimensions_buf))
