-- ===== src/CaseConvert/Prefix.antt =====
-- `apply_prefix`: a name in a delimited case never ends with its delimiter, so that one is pushed.
use metrique.Prelude.{ℕ, ◌≡◌, refl, ap, ◌∙◌, true, false, List, [], ◌∷◌, ◌++◌, map, inl, inr, arith}
use metrique.CaseConvert.{
  Unicode, Case, to_lower, to_upper, snake, screaming_snake, kebab, screaming_kebab, underscore,
  hyphen, is_empty, ends_with, ending_with, cased, delimited, apply, apply_prefix, ascii_uppercase,
}
use metrique.CaseConvert.Words.{IsWord, Lacks, Joined, delimit}
use metrique.CaseConvert.Delimited.{letters, delimited_lem}

ends_with-append :
    (d : ℕ) (xs ys : List ℕ) → is_empty ys ≡ false → ends_with d (xs ++ ys) ≡ ends_with d ys
unfolding ends_with
ends_with-append d [] ys h = refl
ends_with-append d (x ∷ []) [] h = cc
ends_with-append d (x ∷ []) (y ∷ ys) h = refl
ends_with-append d (x ∷ z ∷ xs) ys h = ends_with-append d (z ∷ xs) ys h

ends_with-Lacks : (d : ℕ) (xs : List ℕ) → Lacks d xs → ends_with d xs ≡ false
unfolding ends_with
ends_with-Lacks d [] h = refl
ends_with-Lacks d (x ∷ []) h = ground (arith, h.0)
ends_with-Lacks d (x ∷ z ∷ xs) h = ends_with-Lacks d (z ∷ xs) h.1

ends_with-map : (xs : List ℕ) → ends_with hyphen (map ascii_uppercase xs) ≡ ends_with hyphen xs
unfolding ends_with ascii_uppercase
ends_with-map [] = refl
ends_with-map (x ∷ []) = ground arith
ends_with-map (x ∷ z ∷ xs) = ends_with-map (z ∷ xs)

ends_with-Joined : (d : ℕ) (ls out : List ℕ) → Joined d ls out → ends_with d out ≡ false
ends_with-Joined d ls out j =
    ap (ends_with d) j.text
    ∙ ends_with-append d (delimit d j.before) j.last j.last_word.0
    ∙ ends_with-Lacks d j.last j.last_word.1

ends_with_self : (d : ℕ) (xs : List ℕ) → ends_with d (xs ++ d ∷ []) ≡ true
unfolding ends_with
ends_with_self d xs = ends_with-append d xs (d ∷ []) refl ∙ ground arith

ending_with_lem : (d : ℕ) (xs : List ℕ) → ends_with d xs ≡ false → ending_with d xs ≡ xs ++ d ∷ []
ending_with_lem d xs h = rw h

module _ (unicode : Unicode)
    (underscored : (case : Case) (c : ℕ)
      → unicode.is_alphanumeric c ≡ true
      → IsWord underscore (cased unicode case c))
    (hyphenated : (case : Case) (c : ℕ)
      → unicode.is_alphanumeric c ≡ true
      → IsWord hyphen (cased unicode case c)) where
  unended :
      (delim : ℕ) (case : Case)
      → ((c : ℕ) → unicode.is_alphanumeric c ≡ true → IsWord delim (cased unicode case c))
      → (name : List ℕ) → ends_with delim (delimited unicode name delim case) ≡ false
  unfolding ends_with
  unended delim case mapped name = elim (delimited_lem unicode delim case mapped name) [
    | inl (nothing, none_left) ↦ ap (ends_with delim) nothing
    | inr j ↦ ends_with-Joined delim (letters unicode case name) _ j
  ]

  -- In a delimited style a prefix is the name in that style and one delimiter more, whatever the
  -- name, where no letter or digit is mapped to nothing, to an underscore or to a hyphen.
  pub apply_prefix_lem :
      (name : List ℕ)
      → (apply_prefix unicode snake name ≡ apply unicode snake name ++ underscore ∷ [])
        × (apply_prefix unicode screaming_snake name
            ≡ apply unicode screaming_snake name ++ underscore ∷ [])
        × (apply_prefix unicode kebab name ≡ apply unicode kebab name ++ hyphen ∷ [])
        × (apply_prefix unicode screaming_kebab name
            ≡ apply unicode screaming_kebab name ++ hyphen ∷ [])
  unfolding apply_prefix apply
  apply_prefix_lem name = (
    ending_with_lem underscore _ (unended underscore to_lower (underscored to_lower) name),
    ending_with_lem underscore _ (unended underscore to_upper (underscored to_upper) name),
    ending_with_lem hyphen _ (unended hyphen to_lower (hyphenated to_lower) name),
    ending_with_lem hyphen _ (
        ends_with-map (delimited unicode name hyphen to_lower)
        ∙ unended hyphen to_lower (hyphenated to_lower) name),
  )
