-- ===== src/Emf/Line/Contents.antt =====
-- The `State` of metrique-writer-format-emf/src/emf.rs by what has been pushed into its buffers, and
-- the text of its lines.
use metrique.Prelude.{
  ◌-◌, ◌≡◌, refl, ap, Bool, true, false, Option, some, List, [], ◌∷◌, ◌++◌, map, length, String,
  codes, append-nil, arith, length-append, take-append,
}
use metrique.Emf.Output.{Bytes}
use metrique.Emf.Buf.{from_prefix, is_empty, clear, push_raw_str, push_raw_str_nil}
use metrique.Emf.Entry.{Dimensions}
use metrique.Emf.Line.{
  Encoder, MetricsForDimensionSet, State, LineBuilder, log_group_and_timestamp_of, build, reset,
  new_set,
}
use metrique.Emf.Line.Text.{IsEncoder}
use metrique.Emf.Line.Ended.{opening}

-- What stands behind the prefixes: the fields of strings, those of metrics and the declarations, for
-- the line without dimensions and for each set, what follows the extra directives, and what is left in
-- `dimensions_buf`.
pub record Contents : Type 0 where
  pub strings : Bytes
  pub fields : Bytes
  pub metrics : Bytes
  pub sets : List (Dimensions × Bytes × Bytes)
  pub declared : Bytes
  pub left : Bytes

-- What a builder with the namespaces `first` and `more` was told.
pub record Setup : Type 0 where
  pub first : String
  pub more : List String
  pub default_dimensions : List (List String)
  pub extra_directives : Bytes
  pub log_group_name : Option String

abbrev pub builder_of : Setup → LineBuilder
builder_of b = record {
  namespaces = b.first ∷ b.more;
  default_dimensions = b.default_dimensions;
  extra_directives = b.extra_directives;
  log_group_name = b.log_group_name;
}

abbrev pub nothing : Bytes → Contents
nothing left = record {
  strings = [];
  fields = [];
  metrics = [];
  sets = [];
  declared = [];
  left = left;
}

abbrev pub is_nil : Bytes → Bool
is_nil [] = true
is_nil (x ∷ xs) = false

length_minus : (p d : Bytes) → length (p ++ d) - length d ≡ length p
length_minus p d = omega (arith, length-append p d)

pub is_empty-push : (s prefix : Bytes) → is_empty (push_raw_str s (from_prefix prefix)) ≡ is_nil s
unfolding is_empty push_raw_str from_prefix
is_empty-push [] prefix = ground (arith, append-nil prefix, length-append prefix [])
is_empty-push (x ∷ s) prefix = ground (arith, length-append prefix (x ∷ s))

module _ (encoder : Encoder) (encodes : IsEncoder encoder) (b : Setup)
    (each : List (List String)) where
  open encoder use {json, json_array, join, itoa}

  unfoldable pub set_of : Dimensions × Bytes × Bytes → Dimensions × MetricsForDimensionSet
  set_of (key, metrics, fields) =
      let new = new_set encoder (json b.first) (map json_array each) key in
      (
        key,
        record new {
          fields_buf = push_raw_str fields new.fields_buf;
          metrics_buf = push_raw_str metrics new.metrics_buf;
        },
      )

  unfoldable pub state_of : Contents → State
  unfolding set_of
  state_of c = record {
    namespaces = map json (b.first ∷ b.more);
    each_dimensions_str = map json_array b.default_dimensions;
    log_group_and_timestamp = log_group_and_timestamp_of encoder b.log_group_name;
    dimension_set_map = map set_of c.sets;
    string_fields_buf = push_raw_str c.strings (from_prefix []);
    fields_buf = push_raw_str c.fields (from_prefix (codes "}"));
    metrics_buf = push_raw_str c.metrics (from_prefix (codes "],\"Metrics\":["));
    dimensions_buf =
        push_raw_str c.left (from_prefix (opening ++ json b.first ++ codes ",\"Dimensions\":["));
    after_namespace_index = length (opening ++ json b.first);
    decl_buf = push_raw_str c.declared (from_prefix b.extra_directives);
  }

  -- A builder with a namespace builds the state with nothing in its buffers.
  pub build_lem : build encoder (builder_of b) ≡ some (state_of (nothing []))
  unfolding build state_of
  build_lem =
      rw
        (
          length_minus (opening ++ json b.first) (codes ",\"Dimensions\":["),
          push_raw_str_nil (from_prefix []),
          push_raw_str_nil (from_prefix (codes "}")),
          push_raw_str_nil (from_prefix (codes "],\"Metrics\":[")),
          push_raw_str_nil (from_prefix (opening ++ json b.first ++ codes ",\"Dimensions\":[")),
          push_raw_str_nil (from_prefix b.extra_directives),
        )
        refl

  pub clear_prefix :
      (s prefix : Bytes) → clear (push_raw_str s (from_prefix prefix)) ≡ from_prefix prefix
  unfolding clear push_raw_str from_prefix
  clear_prefix s prefix = ap (λ t. record (from_prefix prefix) { buf = t }) (take-append prefix s)

  -- Whatever has been pushed, a reset leaves that state, up to `dimensions_buf`.
  pub reset_lem : (c : Contents) → reset encoder (state_of c) ≡ state_of (nothing c.left)
  unfolding reset state_of
  reset_lem c =
      rw
        (
          clear_prefix c.strings [],
          clear_prefix c.fields (codes "}"),
          clear_prefix c.metrics (codes "],\"Metrics\":["),
          clear_prefix c.declared b.extra_directives,
          push_raw_str_nil (from_prefix []),
          push_raw_str_nil (from_prefix (codes "}")),
          push_raw_str_nil (from_prefix (codes "],\"Metrics\":[")),
          push_raw_str_nil (from_prefix b.extra_directives),
        )
        refl
