-- ===== src/Emf/Line/Lines.antt =====
-- The lines that metrique-writer-format-emf/src/emf.rs writes of what stands in its buffers.
use metrique.Prelude.{
  ℕ, ◌≡◌, refl, sym, ap, ap₂, ◌∙◌, Bool, true, not, ◌||◌, some, List, [], ◌∷◌, ◌++◌, map, length,
  String, codes, concat, append_assoc, append-nil, if◌then◌else◌,
}
use metrique.Emf.Output.{Bytes}
use metrique.Emf.Buf.{PrefixedStringBuf, from_prefix, clear, push_raw_str}
use metrique.Emf.Values.{joined}
use metrique.Emf.Entry.{Dimensions}
use metrique.Emf.Line.{
  Encoder, MetricsForDimensionSet, State, extend_with_strings, log_group_and_timestamp_of,
  dimension_fields, dimension_names, new_set, end_set, end_plain,
}
use metrique.Emf.Line.Text.{IsEncoder, extend_with_strings-array, shared, directives}
use metrique.Emf.Line.Ended.{opening, end_set_lem, end_plain_lem}
use metrique.Emf.Line.Contents.{Contents, Setup, is_nil, set_of}

-- The text before the fields of a set, in the order of `new_set` and `finish`.
regroup_set :
    (a b c d e f g : Bytes) → a ++ b ++ c ++ d ++ e ++ f ++ g ≡ a ++ b ++ (c ++ d ++ e ++ f ++ g)
regroup_set a b c d e f g = simp append_assoc

glue :
    {m f s m' f' s' : Bytes}
    → m ≡ m'
    → f ≡ f'
    → s ≡ s'
    → m ++ (f ++ (s ++ [])) ≡ m' ++ (f' ++ (s' ++ []))
glue p q r = cc

regroup_line :
    (a b c d e f g : Bytes)
    → (a ++ b ++ c) ++ ((d ++ e ++ f) ++ ((g ++ codes "}\n") ++ []))
      ≡ a ++ b ++ c ++ d ++ e ++ f ++ g ++ codes "}\n"
regroup_line a b c d e f g = simp (append_assoc, append-nil)

regroup_plain :
    (a b c d e f g h : Bytes)
    → a ++ b ≡ h
    → a ++ (b ++ ((c ++ d ++ e) ++ ((codes "}" ++ f) ++ ((g ++ codes "}\n") ++ []))))
      ≡ h ++ c ++ d ++ e ++ codes "}" ++ f ++ g ++ codes "}\n"
regroup_plain a b c d e f g h at = simp (append_assoc, append-nil, sym at)

module _ (encoder : Encoder) (encodes : IsEncoder encoder) (b : Setup) (each : List (List String))
    (unix : ℕ) where
  open encoder use {json, json_array, join, itoa}

  -- A timestamp, with the log group before it.
  abbrev pub stamp : Bytes
  stamp = log_group_and_timestamp_of encoder b.log_group_name ++ itoa unix

  -- The line of a set: its dimensions are added to each of the entry's, and are fields of it.
  abbrev pub set_text : Bytes → Dimensions × Bytes × Bytes → Bytes
  set_text strings (key, metrics, fields) =
      directives encoder encodes
        (joined (map (λ names. json_array (names ++ dimension_names key)) each)) metrics
        (b.first ∷ b.more)
      ++ log_group_and_timestamp_of encoder b.log_group_name
      ++ itoa unix
      ++ codes "}"
      ++ dimension_fields encoder key
      ++ fields
      ++ strings
      ++ codes "}\n"

  -- The line without dimensions of its own, which the extra directives are in.
  abbrev pub plain_text : Contents → Bytes
  plain_text c =
      directives encoder encodes (joined (map json_array each)) c.metrics (b.first ∷ b.more)
      ++ (b.extra_directives ++ c.declared)
      ++ log_group_and_timestamp_of encoder b.log_group_name
      ++ itoa unix
      ++ codes "}"
      ++ c.fields
      ++ c.strings
      ++ codes "}\n"

  -- All of them: those of the sets with fields, and the other one if it has fields or none is written.
  unfoldable pub lines : Contents → Bool → List (Dimensions × Bytes × Bytes) → List Bytes
  lines c emitted [] = if not emitted || not (is_nil c.fields) then plain_text c ∷ [] else []
  lines c emitted ((key, metrics, []) ∷ sets) = lines c emitted sets
  lines c emitted ((key, metrics, x ∷ fields) ∷ sets) =
      set_text c.strings (key, metrics, x ∷ fields) ∷ lines c true sets

  set_arrays :
      (key : Dimensions) (each : List (List String))
      → map (extend_with_strings encoder (dimension_names key)) (map json_array each)
        ≡ map (λ names. json_array (names ++ dimension_names key)) each
  set_arrays key [] = refl
  set_arrays key (names ∷ each) =
      ap₂ (λ x xs. x ∷ xs) (extend_with_strings-array encoder encodes names (dimension_names key))
        (set_arrays key each)

  -- A set's buffers, as `finish` completes them.
  pub ended_set_text :
      (c : Contents) (s : State) (key : Dimensions) (metrics fields : Bytes)
      → s.namespaces ≡ map json (b.first ∷ b.more)
      → s.log_group_and_timestamp ≡ log_group_and_timestamp_of encoder b.log_group_name
      → s.string_fields_buf.buf ≡ c.strings ++ codes "}\n"
      → (ended : MetricsForDimensionSet) × (end_set encoder s unix
            (set_of encoder encodes b each (key, metrics, fields)).1
          ≡ some ended)
        × (ended.fields_buf
            ≡ push_raw_str fields (from_prefix (codes "}" ++ dimension_fields encoder key)))
        × (concat (ended.metrics_buf.buf ∷ ended.fields_buf.buf ∷ s.string_fields_buf.buf ∷ [])
            ≡ set_text c.strings (key, metrics, fields))
  unfolding set_of new_set push_raw_str from_prefix
  ended_set_text c s key metrics fields at_names at_group at_strings =
      let arrays : join
            (map (extend_with_strings encoder (dimension_names key)) (map json_array each))
          ≡ joined (map (λ names. json_array (names ++ dimension_names key)) each) =
        encodes.commas
          (map (extend_with_strings encoder (dimension_names key)) (map json_array each))
        ∙ ap joined (set_arrays key each) in
      let (ended, e, fields_at, metrics_at) =
        end_set_lem encoder encodes s b.first b.more unix
          (set_of encoder encodes b each (key, metrics, fields)).1
          (joined (map (λ names. json_array (names ++ dimension_names key)) each)) metrics at_names
          (regroup_set opening (json b.first) (codes ",\"Dimensions\":[")
              (join (map (extend_with_strings encoder (dimension_names key)) (map json_array each)))
              (codes "],\"Metrics\":[") metrics (codes "]}")
            ∙ ap (λ d. opening ++ json b.first ++ shared encoder encodes d metrics) arrays)
          refl in
      (
        ended,
        e,
        fields_at,
        glue
              (metrics_at
                ∙ ap
                    (λ g.
                      directives encoder encodes
                        (joined (map (λ names. json_array (names ++ dimension_names key)) each))
                        metrics (b.first ∷ b.more)
                      ++ g
                      ++ itoa unix)
                    at_group)
              (ap (λ f. f.buf) fields_at) at_strings
            ∙ regroup_line
                (directives encoder encodes
                  (joined (map (λ names. json_array (names ++ dimension_names key)) each)) metrics
                  (b.first ∷ b.more))
                (log_group_and_timestamp_of encoder b.log_group_name) (itoa unix) (codes "}")
                (dimension_fields encoder key) fields c.strings,
      )

  -- The buffers of the line without dimensions of its own, as `finish` completes them.
  pub plain_line :
      (c : Contents) (s : State)
      → s.namespaces ≡ map json (b.first ∷ b.more)
      → (clear s.dimensions_buf).buf ≡ opening ++ json b.first ++ codes ",\"Dimensions\":["
      → s.after_namespace_index ≡ length (opening ++ json b.first)
      → s.metrics_buf.buf ≡ codes "],\"Metrics\":[" ++ c.metrics
      → s.decl_buf.buf
        ≡ (b.extra_directives ++ c.declared)
          ++ log_group_and_timestamp_of encoder b.log_group_name
          ++ itoa unix
      → s.fields_buf.buf ≡ codes "}" ++ c.fields
      → s.string_fields_buf.buf ≡ c.strings ++ codes "}\n"
      → (dims metrics : PrefixedStringBuf) × (end_plain encoder s (map json_array each)
          ≡ some (dims, metrics))
        × (concat (
              dims.buf ∷ metrics.buf ∷ s.decl_buf.buf ∷ s.fields_buf.buf ∷ s.string_fields_buf.buf
              ∷ [])
            ≡ plain_text c)
  plain_line c s at_names at_dims at_index at_metrics at_decl at_fields at_strings =
      let (dims, metrics, e, at) =
        end_plain_lem encoder encodes s b.first b.more (map json_array each) c.metrics at_names
          at_dims at_index at_metrics in
      (
        dims,
        metrics,
        e,
        ap (λ t. dims.buf ++ (metrics.buf ++ t)) (glue at_decl at_fields at_strings)
            ∙ regroup_plain dims.buf metrics.buf (b.extra_directives ++ c.declared)
                (log_group_and_timestamp_of encoder b.log_group_name) (itoa unix) c.fields c.strings
                (directives encoder encodes (joined (map json_array each)) c.metrics
                  (b.first ∷ b.more))
                at,
      )
