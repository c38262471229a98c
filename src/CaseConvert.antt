-- ===== src/CaseConvert.antt =====
-- metrique-core/src/case_convert.rs: how the names of metrics are put into a case. Characters are
-- their code points, and the classes and mappings of Unicode a parameter.
pub mod Words
pub mod Delimited
pub mod Prefix
mod Tests
use mathlib.Core.List.{flat_map, filter}
use metrique.Prelude.{
  ℕ, ◌+◌, ◌-◌, ◌≡◌, ◌≢◌, Bool, true, false, not, ◌&&◌, ◌||◌, Option, none, some, List, [], ◌∷◌,
  ◌++◌, map, ◌==◌, leb, if◌then◌else◌, front,
}

abbrev underscore : ℕ
underscore = 95

abbrev hyphen : ℕ
hyphen = 45

-- The methods of `char`.
pub record Unicode : Type 0 where
  pub is_alphanumeric : ℕ → Bool
  pub is_numeric : ℕ → Bool
  pub is_lowercase : ℕ → Bool
  pub is_uppercase : ℕ → Bool
  pub to_lowercase : ℕ → List ℕ
  pub to_uppercase : ℕ → List ℕ

pub data CaseStyle : Type 0 where
  preserve : CaseStyle
  lower : CaseStyle
  upper : CaseStyle
  pascal : CaseStyle
  camel : CaseStyle
  snake : CaseStyle
  screaming_snake : CaseStyle
  kebab : CaseStyle
  screaming_kebab : CaseStyle

pub data Case : Type 0 where
  to_lower : Case
  to_upper : Case

-- `char::to_ascii_lowercase` and `char::to_ascii_uppercase`.
unfoldable pub ascii_lowercase : ℕ → ℕ
ascii_lowercase c = if leb 65 c && leb c 90 then c + 32 else c

unfoldable pub ascii_uppercase : ℕ → ℕ
ascii_uppercase c = if leb 97 c && leb c 122 then c - 32 else c

abbrev pub is_empty : List ℕ → Bool
is_empty [] = true
is_empty (c ∷ cs) = false

-- `str::ends_with` of a character.
unfoldable pub ends_with : ℕ → List ℕ → Bool
ends_with d [] = false
ends_with d (c ∷ cs) = if is_empty cs then c == d else ends_with d cs

-- The name with a delimiter pushed unless it ends with it.
abbrev pub ending_with : ℕ → List ℕ → List ℕ
ending_with delim res = if ends_with delim res then res else res ++ delim ∷ []

module _ (unicode : Unicode) where
  open unicode use {
    is_alphanumeric, is_numeric, is_lowercase, is_uppercase, to_lowercase, to_uppercase,
  }

  abbrev pub is_separator : ℕ → Bool
  is_separator c = not (is_alphanumeric c)

  -- What `push_cased` pushes.
  abbrev pub cased : Case → ℕ → List ℕ
  cased to_lower c = to_lowercase c
  cased to_upper c = to_uppercase c

  -- `str::trim_matches(is_separator)`.
  unfoldable pub trim_start : List ℕ → List ℕ
  trim_start [] = []
  trim_start (c ∷ cs) = if is_separator c then trim_start cs else c ∷ cs

  unfoldable pub trim_end : List ℕ → List ℕ
  trim_end [] = []
  trim_end (c ∷ cs) =
      let rest = trim_end cs in if is_separator c && is_empty rest then [] else c ∷ rest

  unfoldable pub trim_matches : List ℕ → List ℕ
  unfolding trim_start trim_end
  trim_matches cs = trim_end (trim_start cs)

  -- `Option::is_some_and(char::is_lowercase)`.
  abbrev pub is_some_lowercase : Option ℕ → Bool
  is_some_lowercase none = false
  is_some_lowercase (some c) = is_lowercase c

  -- One round of the loop of `delimited` at a letter or digit.
  unfoldable pub push_delimited : ℕ → Case → Bool → Option ℕ → Option ℕ → List ℕ → ℕ → List ℕ
  push_delimited delim case pending_delim prev next out c =
      let neighbor_is_lowercase = is_some_lowercase prev || is_some_lowercase next in
      let starts_word = not (is_empty out) && not (is_lowercase c) && neighbor_is_lowercase in
      (if pending_delim || starts_word then out ++ delim ∷ [] else out) ++ cased case c

  unfoldable pub delimited_from : ℕ → Case → Bool → Option ℕ → List ℕ → List ℕ → List ℕ
  unfolding push_delimited
  delimited_from delim case pending_delim prev out [] = out
  delimited_from delim case pending_delim prev out (c ∷ cs) = elim (is_separator c) [
    | true ↦ delimited_from delim case true (some c) out cs
    | false ↦
        delimited_from delim case false (some c)
          (push_delimited delim case pending_delim prev (front cs) out c) cs
  ]

  unfoldable pub delimited : List ℕ → ℕ → Case → List ℕ
  unfolding trim_matches delimited_from
  delimited name delim case = delimited_from delim case false none [] (trim_matches name)

  -- The loop of `camel_like`.
  unfoldable pub camel_from : Case → Bool → ℕ → List ℕ → List ℕ → List ℕ
  camel_from first_word new_word last_lowered out [] = out
  camel_from first_word new_word last_lowered out (c ∷ cs) = elim (is_separator c) [
    | true ↦ camel_from first_word true last_lowered out cs
    | false ↦ elim (is_numeric c) [
      | true ↦ camel_from first_word true last_lowered (out ++ c ∷ []) cs
      | false ↦ elim (new_word || (is_lowercase last_lowered && is_uppercase c)) [
        | true ↦
            camel_from first_word false last_lowered
              (out ++ cased (if is_empty out then first_word else to_upper) c) cs
        | false ↦ camel_from first_word new_word c (out ++ cased to_lower c) cs
      ]
    ]
  ]

  abbrev is_upper : Case → Bool
  is_upper to_lower = false
  is_upper to_upper = true

  unfoldable pub camel_like : List ℕ → Case → List ℕ
  unfolding trim_matches camel_from
  camel_like name first_word = camel_from first_word (is_upper first_word) 32 [] (trim_matches name)

  unfoldable pub apply : CaseStyle → List ℕ → List ℕ
  unfolding ascii_lowercase ascii_uppercase camel_like delimited
  apply preserve name = name
  apply lower name = map ascii_lowercase name
  apply upper name = map ascii_uppercase name
  apply pascal name = camel_like name to_upper
  apply camel name = camel_like name to_lower
  apply snake name = delimited name underscore to_lower
  apply screaming_snake name = delimited name underscore to_upper
  apply kebab name = delimited name hyphen to_lower
  apply screaming_kebab name = map ascii_uppercase (delimited name hyphen to_lower)

  unfoldable pub apply_prefix : CaseStyle → List ℕ → List ℕ
  unfolding apply ends_with
  apply_prefix snake name = ending_with underscore (apply snake name)
  apply_prefix screaming_snake name = ending_with underscore (apply screaming_snake name)
  apply_prefix kebab name = ending_with hyphen (apply kebab name)
  apply_prefix screaming_kebab name = ending_with hyphen (apply screaming_kebab name)
  apply_prefix preserve name = apply preserve name
  apply_prefix lower name = apply lower name
  apply_prefix upper name = apply upper name
  apply_prefix pascal name = apply pascal name
  apply_prefix camel name = apply camel name

  -- The first character that cannot be inflected.
  unfoldable pub name_contains_uninflectables : List ℕ → Option ℕ
  name_contains_uninflectables [] = none
  name_contains_uninflectables (c ∷ cs) =
      if not (is_alphanumeric c) && not (c == underscore) && not (c == hyphen)
      then some c
      else name_contains_uninflectables cs

unfoldable pub name_ends_with_delimiter : List ℕ → Bool
unfolding ends_with
name_ends_with_delimiter name = ends_with underscore name || ends_with hyphen name
