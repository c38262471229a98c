-- ===== src/Emf/Elements.antt =====
-- The text of an array, against those of its elements.
use metrique.Prelude.{
  ℕ, ◌≡◌, refl, sym, ap, ◌∙◌, Bool, true, false, Option, none, some, List, [], ◌∷◌, ◌++◌, map,
  length, length-append, ltb, lt→ltb, String, codes, arith, if◌then◌else◌,
}
use metrique.Histogram.{Float, Observation, unsigned, floating, repeated}
use metrique.Emf.Output.{Bytes}
use metrique.Emf.Buf.{
  PrefixedStringBuf, IsValid, push_raw_str, push_raw_str-IsValid, truncate-push_raw_str,
  push_raw_str_twice, push_raw_str_nil,
}
use metrique.Emf.Metric.{Printer, clamp_to_finite, strip_dot_zero, write_float, mean}
use metrique.Emf.Values.{joined, each_after_comma, number_text}
use metrique.Emf.Array.{
  Element, string, metric, nothing, write_elements, write_finite, write_emf_observation,
  write_observations, write_element, write_values,
}

abbrev text_or_empty : Option Bytes → Bytes
text_or_empty none = []
text_or_empty (some text) = text

-- An array closed.
abbrev closed : Option PrefixedStringBuf → Option PrefixedStringBuf
closed none = none
closed (some buf) = some (push_raw_str (codes "]") buf)

push_three :
    (a b c : Bytes) (buf : PrefixedStringBuf)
    → push_raw_str c (push_raw_str b (push_raw_str a buf)) ≡ push_raw_str (a ++ b ++ c) buf
push_three a b c buf = simp push_raw_str_twice

-- The texts that are not empty.
abbrev with_text : Bytes → List Bytes → List Bytes
with_text [] texts = texts
with_text (b ∷ text) texts = (b ∷ text) ∷ texts

abbrev pub not_empty : List Bytes → List Bytes
not_empty [] = []
not_empty (text ∷ texts) = with_text text (not_empty texts)

abbrev separated : Bool → List Bytes → Bytes
separated wrote texts = if wrote then each_after_comma texts else joined texts

abbrev comma : Bool → Bytes
comma wrote = if wrote then codes "," else []

comma-push :
    (wrote : Bool) (buf : PrefixedStringBuf)
    → (if wrote then push_raw_str (codes ",") buf else buf) ≡ push_raw_str (comma wrote) buf
comma-push true buf = refl
comma-push false buf = sym (push_raw_str_nil buf)

separated-cons :
    (wrote : Bool) (text : Bytes) (texts : List Bytes)
    → (comma wrote ++ text) ++ each_after_comma texts ≡ separated wrote (text ∷ texts)
separated-cons true text texts = refl
separated-cons false text texts = refl

not_longer : (buf : PrefixedStringBuf) → ltb (length buf.buf) (length buf.buf) ≡ false
not_longer buf = ground arith

longer :
    (b : ℕ) (rest : Bytes) (buf : PrefixedStringBuf)
    → ltb (length buf.buf) (length (push_raw_str (b ∷ rest) buf).buf) ≡ true
unfolding push_raw_str
longer b rest buf =
    lt→ltb (length buf.buf) (length (buf.buf ++ b ∷ rest))
      (omega (arith, length-append buf.buf (b ∷ rest)))

module _ {A : Type 0} (write : A → PrefixedStringBuf → Option PrefixedStringBuf)
    (text_of : A → Bytes)
    (writes : (x : A) (b : PrefixedStringBuf)
      → IsValid b
      → write x b ≡ some (push_raw_str (text_of x) b)) where
  write_elements-step :
      (wrote : Bool) (x : A) (xs : List A) (buf : PrefixedStringBuf) (text : Bytes)
      → IsValid buf
      → text_of x ≡ text
      → write_elements write wrote (x ∷ xs) buf ≡ elim text [
        | [] ↦ write_elements write wrote xs buf
        | b ∷ rest ↦ write_elements write true xs (push_raw_str (comma wrote ++ b ∷ rest) buf)
      ]
  unfolding write_elements
  write_elements-step wrote x xs buf [] h e =
      let after_sep = push_raw_str (comma wrote) buf in
      let w : write x after_sep ≡ some (push_raw_str [] after_sep) =
        writes x after_sep (push_raw_str-IsValid (comma wrote) buf h)
        ∙ ap (λ t. some (push_raw_str t after_sep)) e in
      rw
        (
          comma-push wrote buf,
          w,
          comma-push wrote buf,
          push_raw_str_nil after_sep,
          not_longer after_sep,
          push_raw_str_nil after_sep,
          truncate-push_raw_str (comma wrote) buf h,
          write_elements,
        )
        refl
  write_elements-step wrote x xs buf (b ∷ rest) h e =
      let after_sep = push_raw_str (comma wrote) buf in
      let w : write x after_sep ≡ some (push_raw_str (b ∷ rest) after_sep) =
        writes x after_sep (push_raw_str-IsValid (comma wrote) buf h)
        ∙ ap (λ t. some (push_raw_str t after_sep)) e in
      rw
        (
          comma-push wrote buf,
          w,
          comma-push wrote buf,
          longer b rest after_sep,
          push_raw_str_twice (comma wrote) (b ∷ rest) buf,
          write_elements,
        )
        refl

  write_elements-rest :
      (wrote : Bool) (xs : List A) (buf : PrefixedStringBuf) (text : Bytes)
      → IsValid buf
      → ((wrote' : Bool) (b : PrefixedStringBuf)
          → IsValid b
          → write_elements write wrote' xs b
            ≡ some (push_raw_str (separated wrote' (not_empty (map text_of xs))) b))
      → elim text [
        | [] ↦ write_elements write wrote xs buf
        | b ∷ rest ↦ write_elements write true xs (push_raw_str (comma wrote ++ b ∷ rest) buf)
      ]
        ≡ some (push_raw_str (separated wrote (with_text text (not_empty (map text_of xs)))) buf)
  write_elements-rest wrote xs buf [] h next = next wrote buf h
  write_elements-rest wrote xs buf (b ∷ rest) h next =
      next true (push_raw_str (comma wrote ++ b ∷ rest) buf)
        (push_raw_str-IsValid (comma wrote ++ b ∷ rest) buf h)
      ∙ ap some (
          push_raw_str_twice (comma wrote ++ b ∷ rest)
            (each_after_comma (not_empty (map text_of xs))) buf)
      ∙ ap (λ t. some (push_raw_str t buf))
          (separated-cons wrote (b ∷ rest) (not_empty (map text_of xs)))

  pub write_elements_lem :
      (wrote : Bool) (xs : List A) (buf : PrefixedStringBuf)
      → IsValid buf
      → write_elements write wrote xs buf
        ≡ some (push_raw_str (separated wrote (not_empty (map text_of xs))) buf)
  unfolding write_elements
  write_elements_lem true [] buf h = ap some (sym (push_raw_str_nil buf))
  write_elements_lem false [] buf h = ap some (sym (push_raw_str_nil buf))
  write_elements_lem wrote (x ∷ xs) buf h =
      write_elements-step wrote x xs buf (text_of x) h refl
      ∙ write_elements-rest wrote xs buf (text_of x) h
          (λ wrote' b hb. write_elements_lem wrote' xs b hb)

module _ (float : Float) (printer : Printer float) where
  -- The texts of an observation and of an element, empty when nothing is written.
  abbrev pub finite_text : float.F → Bytes
  finite_text v = text_or_empty (number_text float printer v)

  abbrev pub observation_text : Observation float → Bytes
  observation_text (unsigned v) = printer.itoa v
  observation_text (floating v) = finite_text v
  observation_text (repeated total occurrences) = finite_text (mean float printer total occurrences)

  abbrev pub element_text : Element float → Bytes
  element_text (string s) = printer.json s
  element_text (metric []) = []
  element_text (metric (first ∷ [])) = observation_text first
  element_text (metric (first ∷ second ∷ distribution)) =
      codes "["
      ++ joined (not_empty (map observation_text (first ∷ second ∷ distribution)))
      ++ codes "]"
  element_text nothing = []

  write_finite_lem :
      (v : float.F) (buf : PrefixedStringBuf)
      → write_finite float printer v buf ≡ push_raw_str (finite_text v) buf
  unfolding write_finite write_float
  write_finite_lem v buf =
      elim (clamp_to_finite float printer v)
        as (λ o.
          elim o [ none ↦ buf | some v ↦ write_float float printer v buf ]
          ≡ push_raw_str
              (text_or_empty
                (elim o [ none ↦ none | some v ↦ some (strip_dot_zero (printer.dtoa v)) ]))
              buf) [ none ↦ sym (push_raw_str_nil buf) | some v ↦ refl ]

  write_emf_observation_lem :
      (obs : Observation float) (buf : PrefixedStringBuf)
      → write_emf_observation float printer obs buf ≡ push_raw_str (observation_text obs) buf
  unfolding write_emf_observation
  write_emf_observation_lem (unsigned v) buf = refl
  write_emf_observation_lem (floating v) buf = write_finite_lem v buf
  write_emf_observation_lem (repeated total occurrences) buf =
      write_finite_lem (mean float printer total occurrences) buf

  write_element_lem :
      (element : Element float) (buf : PrefixedStringBuf)
      → IsValid buf
      → write_element float printer element buf ≡ some (push_raw_str (element_text element) buf)
  unfolding write_element write_observations
  write_element_lem (string s) buf h = refl
  write_element_lem (metric []) buf h = ap some (sym (push_raw_str_nil buf))
  write_element_lem (metric (first ∷ [])) buf h = ap some (write_emf_observation_lem first buf)
  write_element_lem (metric (first ∷ second ∷ distribution)) buf h =
      ap closed (
        write_elements_lem (λ obs b. some (write_emf_observation float printer obs b))
          observation_text (λ obs b hb. ap some (write_emf_observation_lem obs b)) false
          (first ∷ second ∷ distribution) (push_raw_str (codes "[") buf)
          (push_raw_str-IsValid (codes "[") buf h))
      ∙ ap some (
          push_three (codes "[")
            (joined (not_empty (map observation_text (first ∷ second ∷ distribution)))) (codes "]")
            buf)
  write_element_lem nothing buf h = ap some (sym (push_raw_str_nil buf))

  -- A valid buffer being given, no assertion fails, and what is written is the name and, in brackets
  -- and with commas between them, the texts of the elements, in their order, but for those that
  -- write nothing. An element is a string, a number, or, for more observations than one, such a list
  -- of those that are finite once clamped.
  pub write_values_lem :
      (name : String) (elements : List (Element float)) (buf : PrefixedStringBuf)
      → IsValid buf
      → write_values float printer name elements buf
        ≡ some (
            push_raw_str
              (codes ","
                ++ printer.json name
                ++ codes ":"
                ++ codes "["
                ++ joined (not_empty (map element_text elements))
                ++ codes "]")
              buf)
  unfolding write_values
  write_values_lem name elements buf h =
      let named = push_raw_str (codes "[") (
        push_raw_str (codes ":")
          (push_raw_str (printer.json name) (push_raw_str (codes ",") buf))) in
      ap closed (
        write_elements_lem (write_element float printer) element_text write_element_lem false
          elements named
          (push_raw_str-IsValid (codes "[")
            (push_raw_str (codes ":")
              (push_raw_str (printer.json name) (push_raw_str (codes ",") buf)))
            (push_raw_str-IsValid (codes ":")
              (push_raw_str (printer.json name) (push_raw_str (codes ",") buf))
              (push_raw_str-IsValid (printer.json name) (push_raw_str (codes ",") buf)
                (push_raw_str-IsValid (codes ",") buf h)))))
      ∙ ap some (simp push_raw_str_twice)
