-- ===== src/CaseConvert/Delimited.antt =====
-- `delimited` joins words with its delimiter, and keeps every letter and digit.
use metrique.Prelude.{
  ℕ, ◌≡◌, ◌⊎◌, refl, sym, ◌∙◌, Bool, true, false, not, ◌&&◌, ◌||◌, Option, none, some, List, [],
  ◌∷◌, ◌++◌, append_assoc, append-nil, front, Bool-cases, inl, inr, if◌then◌else◌, arith,
}
use metrique.CaseConvert.{
  Unicode, Case, is_empty, is_separator, cased, is_some_lowercase, trim_start, trim_end,
  trim_matches, push_delimited, delimited_from, delimited,
}
use metrique.CaseConvert.Words.{IsWord, Joined, longer, one_more, one_word}

module _ (unicode : Unicode) (case : Case) where
  -- The letters and digits of a name, each in the case.
  abbrev pub letters : List ℕ → List ℕ
  letters [] = []
  letters (c ∷ cs) =
      if is_separator unicode c then letters cs else cased unicode case c ++ letters cs

module _ (unicode : Unicode) (delim : ℕ) (case : Case)
    (mapped : (c : ℕ)
      → unicode.is_alphanumeric c ≡ true
      → IsWord delim (cased unicode case c)) where
  open unicode use {is_alphanumeric, is_lowercase}

  alphanumeric : (c : ℕ) → is_separator unicode c ≡ false → is_alphanumeric c ≡ true
  alphanumeric c h = ground arith

  push_delimited-Joined :
      (pending : Bool) (prev next : Option ℕ) (ls out : List ℕ) (c : ℕ)
      → is_separator unicode c ≡ false
      → Joined delim ls out
      → Joined delim
          (ls ++ cased unicode case c)
          (push_delimited unicode delim case pending prev next out c)
  unfolding push_delimited
  push_delimited-Joined pending prev next ls out c h j =
      let starts =
        not (is_empty out)
        && not (is_lowercase c)
        && (is_some_lowercase unicode prev || is_some_lowercase unicode next) in
      let word = mapped c (alphanumeric c h) in
      elim (pending || starts)
        as (λ b.
          Joined delim (ls ++ cased unicode case c)
            ((if b then out ++ delim ∷ [] else out) ++ cased unicode case c)) [
              | true ↦ one_more delim ls out (cased unicode case c) j word
              | false ↦ longer delim ls out (cased unicode case c) j word
            ]

  delimited_from-Joined :
      (pending : Bool) (prev : Option ℕ) (ls out cs : List ℕ)
      → Joined delim ls out
      → Joined delim
          (ls ++ letters unicode case cs)
          (delimited_from unicode delim case pending prev out cs)
  unfolding delimited_from
  delimited_from-Joined pending prev ls out [] j = rw (append-nil ls) j
  delimited_from-Joined pending prev ls out (c ∷ cs) j =
      elim (Bool-cases (is_separator unicode c)) [
        | inl apart ↦ rw (apart, delimited_from) (delimited_from-Joined true (some c) ls out cs j)
        | inr part ↦
            rw (part, delimited_from)
              (rw (sym (append_assoc ls (cased unicode case c) (letters unicode case cs))) (
                delimited_from-Joined false (some c) (ls ++ cased unicode case c)
                  (push_delimited unicode delim case pending prev (front cs) out c) cs
                  (push_delimited-Joined pending prev (front cs) ls out c part j)))
      ]

  -- Trimming keeps the letters, and leaves no separator in front.
  letters-trim_start :
      (cs : List ℕ) → letters unicode case (trim_start unicode cs) ≡ letters unicode case cs
  unfolding trim_start
  letters-trim_start [] = refl
  letters-trim_start (c ∷ cs) = ground (arith, letters-trim_start cs)

  letters-trim_end :
      (cs : List ℕ) → letters unicode case (trim_end unicode cs) ≡ letters unicode case cs
  unfolding trim_end
  letters-trim_end [] = refl
  letters-trim_end (c ∷ cs) = ground (arith, letters-trim_end cs)

  abbrev Begins : List ℕ → Type 0
  Begins [] = Unit
  Begins (c ∷ cs) = is_separator unicode c ≡ false

  trim_start-Begins : (cs : List ℕ) → Begins (trim_start unicode cs)
  unfolding trim_start
  trim_start-Begins [] = tt
  trim_start-Begins (c ∷ cs) = elim (Bool-cases (is_separator unicode c)) [
    | inl apart ↦ rw apart (trim_start-Begins cs)
    | inr part ↦ rw part part
  ]

  trim_end-Begins : (cs : List ℕ) → Begins cs → Begins (trim_end unicode cs)
  unfolding trim_end
  trim_end-Begins [] h = tt
  trim_end-Begins (c ∷ cs) h = rw h h

  from_start :
      (cs : List ℕ)
      → Begins cs
      → (delimited_from unicode delim case false none [] cs ≡ []) × (letters unicode case cs ≡ [])
        ⊎ Joined delim
            (letters unicode case cs)
            (delimited_from unicode delim case false none [] cs)
  unfolding delimited_from push_delimited
  from_start [] h = inl (refl, refl)
  from_start (c ∷ cs) h =
      rw (h, delimited_from)
        (inr (
          delimited_from-Joined false (some c) (cased unicode case c) (cased unicode case c) cs
            (one_word delim (cased unicode case c) (mapped c (alphanumeric c h)))))

  -- A name in a delimited case is empty, when it has no letter and no digit, or else words with one
  -- delimiter between each two: no word is empty or holds the delimiter, and joined without
  -- delimiters they are the letters and digits of the name, in their order, each put into the case.
  -- The characters that the case maps a letter or digit to are some, and not the delimiter.
  pub delimited_lem :
      (name : List ℕ)
      → (delimited unicode name delim case ≡ []) × (letters unicode case name ≡ [])
        ⊎ Joined delim (letters unicode case name) (delimited unicode name delim case)
  unfolding delimited trim_matches
  delimited_lem name =
      let kept = letters-trim_end (trim_start unicode name) ∙ letters-trim_start name in
      rw (sym kept) (
        from_start (trim_matches unicode name)
          (trim_end-Begins (trim_start unicode name) (trim_start-Begins name)))
