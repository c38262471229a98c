-- ===== src/Emf/Line/Ended.antt =====
-- The buffers of metrique-writer-format-emf/src/emf.rs as `finish` completes them.
use metrique.Prelude.{
  ℕ, ◌≡◌, refl, sym, ap, ◌∙◌, true, false, some, List, [], ◌∷◌, ◌++◌, map, length, leb, drop,
  String, codes, append_assoc, append-nil, arith, length-append, drop-append, le→leb,
}
use metrique.Emf.Output.{Bytes}
use metrique.Emf.Buf.{
  PrefixedStringBuf, clear, push_raw_str, extend_from_within_range, push_raw_str_twice,
  push_raw_str_nil,
}
use metrique.Emf.Values.{joined, each_after_comma}
use metrique.Emf.Line.{
  Encoder, MetricsForDimensionSet, State, push_log_group_and_timestamp, end_set, push_arrays,
  push_dimensions, end_plain, end_plain_with,
}
use metrique.Emf.Line.Text.{
  IsEncoder, shared, directive, directives, extend_middle, push_namespaces_lem,
}

-- What a dimension set's line opens with, up to the first namespace.
abbrev pub opening : Bytes
opening = codes "{\"_aws\":{\"CloudWatchMetrics\":[{\"Namespace\":"

push_three :
    (a b c : Bytes) (m : PrefixedStringBuf)
    → push_raw_str c (push_raw_str b (push_raw_str a m)) ≡ push_raw_str (a ++ (b ++ c)) m
push_three a b c m = simp (push_raw_str_twice, append_assoc)

regroup_five : (c d e f g : Bytes) → (c ++ d) ++ (e ++ f ++ g) ≡ c ++ d ++ e ++ f ++ g
regroup_five c d e f g = simp append_assoc

-- The buffers of a line in their order are its text, however it is cut.
regroup :
    (a b c d e f g h : Bytes)
    → (a ++ b ++ (c ++ d)) ++ ((e ++ f ++ g) ++ h) ≡ a ++ b ++ (c ++ d ++ e ++ f ++ g) ++ h
regroup a b c d e f g h = simp append_assoc

module _ (encoder : Encoder) (encodes : IsEncoder encoder) where
  open encoder use {json, json_array, join, itoa}

  end_set_push :
      (s : State) (first : String) (namespaces : List String) (unix : ℕ)
      (entry : MetricsForDimensionSet) (dimensions metrics : Bytes)
      → s.namespaces ≡ map json (first ∷ namespaces)
      → (push_raw_str (codes "]}") entry.metrics_buf).buf
        ≡ opening ++ json first ++ shared encoder encodes dimensions metrics
      → entry.after_namespace_index ≡ length (opening ++ json first)
      → end_set encoder s unix entry
        ≡ some (record entry {
          metrics_buf = push_log_group_and_timestamp encoder s.log_group_and_timestamp unix (
              push_raw_str
                (each_after_comma (map (directive encoder encodes dimensions metrics) namespaces))
                (push_raw_str (codes "]}") entry.metrics_buf));
        })
  unfolding end_set
  end_set_push s first namespaces unix entry dimensions metrics at_names closed at_index =
      let push =
        extend_from_within_range entry.after_namespace_index
          (length (push_raw_str (codes "]}") entry.metrics_buf).buf) in
      let middle = shared encoder encodes dimensions metrics in
      let done =
        push_namespaces_lem encoder encodes push middle (opening ++ json first ++ middle) namespaces
          [] (push_raw_str (codes "]}") entry.metrics_buf)
          (λ more b at.
            extend_middle encoder encodes entry.after_namespace_index
              (length (push_raw_str (codes "]}") entry.metrics_buf).buf) (opening ++ json first)
              middle more b at at_index (ap length closed))
          (closed ∙ sym (append-nil (opening ++ json first ++ middle))) in
      rw (at_names, done, end_set) refl

  -- A set's line up to the fields, when it is given the declarations `metrics`.
  pub end_set_lem :
      (s : State) (first : String) (namespaces : List String) (unix : ℕ)
      (entry : MetricsForDimensionSet) (dimensions metrics : Bytes)
      → s.namespaces ≡ map json (first ∷ namespaces)
      → (push_raw_str (codes "]}") entry.metrics_buf).buf
        ≡ opening ++ json first ++ shared encoder encodes dimensions metrics
      → entry.after_namespace_index ≡ length (opening ++ json first)
      → (ended : MetricsForDimensionSet) × (end_set encoder s unix entry ≡ some ended)
        × (ended.fields_buf ≡ entry.fields_buf)
        × (ended.metrics_buf.buf
            ≡ directives encoder encodes dimensions metrics (first ∷ namespaces)
              ++ s.log_group_and_timestamp
              ++ itoa unix)
  unfolding push_raw_str push_log_group_and_timestamp
  end_set_lem s first namespaces unix entry dimensions metrics at_names closed at_index = (
    _,
    end_set_push s first namespaces unix entry dimensions metrics at_names closed at_index,
    refl,
    ap
        (λ t.
          t
          ++ each_after_comma (map (directive encoder encodes dimensions metrics) namespaces)
          ++ s.log_group_and_timestamp
          ++ itoa unix)
        closed,
  )

  push_arrays-false :
      (arrays : List Bytes) (buf : PrefixedStringBuf)
      → push_arrays encoder false arrays buf ≡ push_raw_str (each_after_comma arrays) buf
  unfolding push_arrays
  push_arrays-false [] buf = sym (push_raw_str_nil buf)
  push_arrays-false (x ∷ xs) buf =
      push_arrays-false xs (push_raw_str x (push_raw_str (codes ",") buf))
      ∙ push_three (codes ",") x (each_after_comma xs) buf

  push_arrays_lem :
      (arrays : List Bytes) (buf : PrefixedStringBuf)
      → push_arrays encoder true arrays buf ≡ push_raw_str (joined arrays) buf
  unfolding push_arrays
  push_arrays_lem [] buf = sym (push_raw_str_nil buf)
  push_arrays_lem (x ∷ xs) buf =
      push_arrays-false xs (push_raw_str x buf) ∙ push_raw_str_twice x (each_after_comma xs) buf

  -- What is pushed for another namespace, after the declarations.
  push_dimensions_lem :
      (index : ℕ) (dims : PrefixedStringBuf) (head tail closed more : Bytes) (b : PrefixedStringBuf)
      → dims.buf ≡ head ++ tail
      → index ≡ length head
      → b.buf ≡ closed ++ more
      → push_dimensions encoder index dims (length closed) b
        ≡ some (push_raw_str (tail ++ closed) b)
  unfolding push_dimensions
  push_dimensions_lem index dims head tail closed more b at_dims at_index at =
      let inside : leb index (length dims.buf) ≡ true =
        le→leb index (length dims.buf)
          (omega (arith, at_index, ap length at_dims, length-append head tail)) in
      let rest : drop index dims.buf ≡ tail =
        ap (λ n. drop n dims.buf) at_index
        ∙ ap (drop (length head)) at_dims
        ∙ drop-append head tail in
      let whole : (push_raw_str tail b).buf ≡ [] ++ closed ++ (more ++ tail) =
        unfold push_raw_str in (ap (λ t. t ++ tail) at ∙ append_assoc closed more tail) in
      rw (inside, rest)
        (extend_middle encoder encodes 0 (length closed) [] closed (more ++ tail)
            (push_raw_str tail b) whole refl refl
          ∙ ap some (push_raw_str_twice tail closed b))

  -- The two buffers of the line without dimensions, up to the timestamp.
  pub end_plain_lem :
      (s : State) (first : String) (namespaces : List String) (arrays : List Bytes)
      (metrics : Bytes)
      → s.namespaces ≡ map json (first ∷ namespaces)
      → (clear s.dimensions_buf).buf ≡ opening ++ json first ++ codes ",\"Dimensions\":["
      → s.after_namespace_index ≡ length (opening ++ json first)
      → s.metrics_buf.buf ≡ codes "],\"Metrics\":[" ++ metrics
      → (dims done : PrefixedStringBuf) × (end_plain encoder s arrays ≡ some (dims, done))
        × (dims.buf ++ done.buf
            ≡ directives encoder encodes (joined arrays) metrics (first ∷ namespaces))
  unfolding end_plain end_plain_with
  end_plain_lem s first namespaces arrays metrics at_names at_dims at_index at_metrics =
      let d = joined arrays in
      let named = codes ",\"Dimensions\":[" in
      let declares = codes "],\"Metrics\":[" in
      let dims = push_raw_str d (clear s.dimensions_buf) in
      let closed = push_raw_str (codes "]}") s.metrics_buf in
      let text = shared encoder encodes d metrics in
      let after = each_after_comma (map (directive encoder encodes d metrics) namespaces) in
      let dims_at : dims.buf ≡ opening ++ json first ++ (named ++ d) =
        unfold push_raw_str in
        (ap (λ t. t ++ d) at_dims ∙ append_assoc (opening ++ json first) named d) in
      let closed_at : closed.buf ≡ declares ++ metrics ++ codes "]}" =
        unfold push_raw_str in (ap (λ t. t ++ codes "]}") at_metrics) in
      let same : (named ++ d) ++ closed.buf ≡ text =
        ap (λ t. (named ++ d) ++ t) closed_at
        ∙ regroup_five named d declares metrics (codes "]}") in
      let done =
        push_namespaces_lem encoder encodes
          (push_dimensions encoder s.after_namespace_index dims (length closed.buf)) text closed.buf
          namespaces [] closed
          (λ more b at.
            push_dimensions_lem s.after_namespace_index dims (opening ++ json first) (named ++ d)
              closed.buf more b dims_at at_index at
            ∙ ap (λ t. some (push_raw_str t b)) same)
          (sym (append-nil closed.buf)) in
      (
        dims,
        push_raw_str after closed,
        ap (end_plain_with encoder s) (push_arrays_lem arrays (clear s.dimensions_buf))
            ∙ rw (at_names, done, end_plain_with) refl,
        unfold push_raw_str in
            (ap (λ t. t ++ (closed.buf ++ after)) dims_at
              ∙ ap (λ t. (opening ++ json first ++ (named ++ d)) ++ (t ++ after)) closed_at
              ∙ regroup opening (json first) named d declares metrics (codes "]}") after),
      )
