-- ===== src/Emf/Line/Text.antt =====
-- The text of the lines that metrique-writer-format-emf/src/emf.rs writes for an entry.
use metrique.Prelude.{
  ℕ, ◌-◌, ◌<◌, ◌≡◌, refl, sym, ap, ◌∙◌, true, false, Option, some, List, [], ◌∷◌, ◌++◌, ◌==◌, map,
  length, leb, take, drop, String, codes, append_assoc, append-nil, map-append, le→leb, arith,
  length-append, take-append, drop-append,
}
use metrique.Emf.Output.{Bytes}
use metrique.Emf.Buf.{
  push_raw_str_twice, push_raw_str_nil, PrefixedStringBuf, push_raw_str, extend_from_within_range,
}
use metrique.Emf.Values.{joined, each_after_comma}
use metrique.Emf.Line.{Encoder, extend_names, extend_with_strings, push_namespaces}

-- What is relied on of serde_json and itertools.
pub record IsEncoder (encoder : Encoder) : Type 0 where
  pub some_text : (s : String) → 0 < length (encoder.json s)
  pub array :
      (names : List String)
      → encoder.json_array names ≡ codes "[" ++ joined (map encoder.json names) ++ codes "]"
  pub commas : (texts : List Bytes) → encoder.join texts ≡ joined texts

take_all_but_last : (p : Bytes) (c : ℕ) → take (length (p ++ c ∷ []) - 1) (p ++ c ∷ []) ≡ p
take_all_but_last p c =
    let e : length (p ++ c ∷ []) - 1 ≡ length p = omega (arith, length-append p (c ∷ [])) in
    ap (λ n. take n (p ++ c ∷ [])) e ∙ take-append p (c ∷ [])

each_after_comma-append :
    (xs ys : List Bytes) → each_after_comma (xs ++ ys) ≡ each_after_comma xs ++ each_after_comma ys
each_after_comma-append [] ys = refl
each_after_comma-append (x ∷ xs) ys =
    ap (λ t. b',' ∷ x ++ t) (each_after_comma-append xs ys)
    ∙ ap (λ t. b',' ∷ t) (sym (append_assoc x (each_after_comma xs) (each_after_comma ys)))

joined-append :
    (x : Bytes) (xs ys : List Bytes)
    → joined (x ∷ xs ++ ys) ≡ joined (x ∷ xs) ++ each_after_comma ys
joined-append x xs ys =
    ap (λ t. x ++ t) (each_after_comma-append xs ys)
    ∙ sym (append_assoc x (each_after_comma xs) (each_after_comma ys))

push_four :
    (a b c d : Bytes) (m : PrefixedStringBuf)
    → push_raw_str d (push_raw_str c (push_raw_str b (push_raw_str a m)))
      ≡ push_raw_str (a ++ (b ++ c ++ d)) m
push_four a b c d m = simp (push_raw_str_twice, append_assoc)

module _ (encoder : Encoder) (encodes : IsEncoder encoder) where
  open encoder use {json, json_array, join, itoa}

  extend_names-false :
      (names : List String) (text : Bytes)
      → extend_names encoder false names text ≡ text ++ each_after_comma (map json names)
  unfolding extend_names
  extend_names-false [] text = sym (append-nil text)
  extend_names-false (name ∷ names) text =
      extend_names-false names (text ++ codes "," ++ json name) ∙ simp append_assoc

  extend_bracketed :
      (open_bracket : Bytes) (names : List String)
      → (length (open_bracket ++ codes "]") == 2) ≡ false
      → extend_with_strings encoder names (open_bracket ++ codes "]")
        ≡ open_bracket ++ each_after_comma (map json names) ++ codes "]"
  unfolding extend_with_strings
  extend_bracketed open_bracket names some_names =
      rw (some_names, take_all_but_last open_bracket b']')
        (ap (λ t. t ++ codes "]") (extend_names-false names open_bracket))

  extend_empty :
      (names : List String)
      → extend_with_strings encoder names (codes "[]")
        ≡ codes "[" ++ joined (map json names) ++ codes "]"
  unfolding extend_with_strings extend_names
  extend_empty [] = refl
  extend_empty (name ∷ names) =
      ap (λ t. t ++ codes "]") (extend_names-false names (codes "[" ++ json name))

  -- An array with names more is the array of all the names.
  pub extend_with_strings-array :
      (before names : List String)
      → extend_with_strings encoder names (json_array before) ≡ json_array (before ++ names)
  extend_with_strings-array [] names =
      ap (extend_with_strings encoder names) (encodes.array [])
      ∙ extend_empty names
      ∙ sym (encodes.array names)
  extend_with_strings-array (x ∷ xs) names =
      let opened = codes "[" ++ joined (map json (x ∷ xs)) in
      let more : (length (opened ++ codes "]") == 2) ≡ false = ground (
        arith,
        length-append (json x ++ each_after_comma (map json xs)) (codes "]"),
        length-append (json x) (each_after_comma (map json xs)),
        encodes.some_text x,
      ) in
      ap (extend_with_strings encoder names) (encodes.array (x ∷ xs))
      ∙ extend_bracketed opened names more
      ∙ sym (
          encodes.array ((x ∷ xs) ++ names)
          ∙ ap (λ t. codes "[" ++ t ++ codes "]")
              (ap joined (map-append json (x ∷ xs) names)
                ∙ joined-append (json x) (map json xs) (map json names)))

  -- What is the same for all namespaces, the text for one, and that for all.
  abbrev pub shared : Bytes → Bytes → Bytes
  shared dimensions metrics =
      codes ",\"Dimensions\":[" ++ dimensions ++ codes "],\"Metrics\":[" ++ metrics ++ codes "]}"

  abbrev pub directive : Bytes → Bytes → String → Bytes
  directive dimensions metrics namespace =
      codes "{\"Namespace\":" ++ json namespace ++ shared dimensions metrics

  abbrev pub directives : Bytes → Bytes → List String → Bytes
  directives dimensions metrics namespaces =
      codes "{\"_aws\":{\"CloudWatchMetrics\":["
      ++ joined (map (directive dimensions metrics) namespaces)

  -- A range in the middle of a text.
  pub extend_middle :
      (start end : ℕ) (before middle after : Bytes) (buf : PrefixedStringBuf)
      → buf.buf ≡ before ++ middle ++ after
      → start ≡ length before
      → end ≡ length (before ++ middle)
      → extend_from_within_range start end buf ≡ some (push_raw_str middle buf)
  unfolding extend_from_within_range push_raw_str
  extend_middle start end before middle after buf whole from to =
      let low : leb start end ≡ true =
        le→leb start end (omega (arith, from, to, length-append before middle)) in
      let high : leb end (length buf.buf) ≡ true =
        le→leb end (length buf.buf)
          (omega (arith, to, ap length whole, length-append (before ++ middle) after)) in
      let count : end - start ≡ length middle =
        omega (arith, from, to, length-append before middle) in
      let found : take (end - start) (drop start buf.buf) ≡ middle =
        ap (λ n. take n (drop start buf.buf)) count
        ∙ ap (λ n. take (length middle) (drop n buf.buf)) from
        ∙ ap (λ t. take (length middle) (drop (length before) t))
            (whole ∙ append_assoc before middle after)
        ∙ ap (take (length middle)) (drop-append before (middle ++ after))
        ∙ take-append middle after in
      rw (low, high) (ap (λ t. some (record buf { buf = buf.buf ++ t })) found)

  abbrev named_namespace : Bytes → PrefixedStringBuf → PrefixedStringBuf
  named_namespace name buf = push_raw_str name (push_raw_str (codes ",{\"Namespace\":") buf)

  pushed_starts :
      (text start more : Bytes) (buf : PrefixedStringBuf)
      → buf.buf ≡ start ++ more
      → (push_raw_str text buf).buf ≡ start ++ (more ++ text)
  unfolding push_raw_str
  pushed_starts text start more buf at = ap (λ t. t ++ text) at ∙ append_assoc start more text

  -- When each push adds the same text, so does the loop.
  pub push_namespaces_lem :
      (push : PrefixedStringBuf → Option PrefixedStringBuf) (text start : Bytes)
      (namespaces : List String) (more : Bytes) (buf : PrefixedStringBuf)
      → ((more : Bytes) (b : PrefixedStringBuf)
          → b.buf ≡ start ++ more
          → push b ≡ some (push_raw_str text b))
      → buf.buf ≡ start ++ more
      → push_namespaces encoder push (map json namespaces) buf
        ≡ some (
            push_raw_str
              (each_after_comma (map (λ n. codes "{\"Namespace\":" ++ json n ++ text) namespaces))
              buf)
  unfolding push_namespaces
  push_namespaces_lem push text start [] more buf pushes at = ap some (sym (push_raw_str_nil buf))
  push_namespaces_lem push text start (n ∷ namespaces) more buf pushes at =
      let opened = codes ",{\"Namespace\":" in
      let named = named_namespace (json n) buf in
      let at_open = pushed_starts opened start more buf at in
      let at_name =
        pushed_starts (json n) start (more ++ opened) (push_raw_str opened buf) at_open in
      let next =
        push_namespaces_lem push text start namespaces (more ++ opened ++ json n ++ text)
          (push_raw_str text named) pushes
          (pushed_starts text start (more ++ opened ++ json n) named at_name) in
      rw (pushes (more ++ opened ++ json n) named at_name) (
        next
        ∙ ap some (
            push_four opened (json n) text
              (each_after_comma (map (λ n. codes "{\"Namespace\":" ++ json n ++ text) namespaces))
              buf))
