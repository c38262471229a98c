-- ===== src/CaseConvert/Tests.antt =====
-- Names in ASCII, as the tests of the source have them.
use metrique.Prelude.{
  ℕ, ◌+◌, ◌-◌, ◌≡◌, ◌⊎◌, refl, Bool, true, ◌&&◌, ◌||◌, List, [], ◌∷◌, ◌++◌, leb, if◌then◌else◌,
  arith,
}
use metrique.CaseConvert.{
  Unicode, Case, to_lower, to_upper, pascal, snake, screaming_snake, kebab, screaming_kebab,
  underscore, hyphen, cased, delimited, apply, apply_prefix,
}
use metrique.CaseConvert.Words.{IsWord, Joined}
use metrique.CaseConvert.Delimited.{letters, delimited_lem}
use metrique.CaseConvert.Prefix.{apply_prefix_lem}

abbrev upper_letter : ℕ → Bool
upper_letter c = leb 65 c && leb c 90

abbrev lower_letter : ℕ → Bool
lower_letter c = leb 97 c && leb c 122

abbrev digit : ℕ → Bool
digit c = leb 48 c && leb c 57

abbrev ascii : Unicode
ascii = record {
  is_alphanumeric = λ c. upper_letter c || lower_letter c || digit c;
  is_numeric = digit;
  is_lowercase = lower_letter;
  is_uppercase = upper_letter;
  to_lowercase = λ c. (if upper_letter c then c + 32 else c) ∷ [];
  to_uppercase = λ c. (if lower_letter c then c - 32 else c) ∷ [];
}

-- `FooBARBaz`, ` XMLHttp-` and `status_5xx`.
abbrev foo_bar_baz : List ℕ
foo_bar_baz = b'F' ∷ b'o' ∷ b'o' ∷ b'B' ∷ b'A' ∷ b'R' ∷ b'B' ∷ b'a' ∷ b'z' ∷ []

abbrev xml_http : List ℕ
xml_http = b' ' ∷ b'X' ∷ b'M' ∷ b'L' ∷ b'H' ∷ b't' ∷ b't' ∷ b'p' ∷ b'-' ∷ []

abbrev status_5xx : List ℕ
status_5xx = b's' ∷ b't' ∷ b'_' ∷ b'5' ∷ b'x' ∷ b'x' ∷ []

snake_foo_bar_baz :
    apply ascii snake foo_bar_baz
    ≡ b'f' ∷ b'o' ∷ b'o' ∷ b'_' ∷ b'b' ∷ b'a' ∷ b'r' ∷ b'_' ∷ b'b' ∷ b'a' ∷ b'z' ∷ []
unfolding apply
snake_foo_bar_baz = refl

pascal_foo_bar_baz : apply ascii pascal foo_bar_baz ≡ foo_bar_baz
unfolding apply
pascal_foo_bar_baz = refl

pascal_xml_http : apply ascii pascal xml_http ≡ b'X' ∷ b'm' ∷ b'l' ∷ b'h' ∷ b't' ∷ b't' ∷ b'p' ∷ []
unfolding apply
pascal_xml_http = refl

pascal_status_5xx : apply ascii pascal status_5xx ≡ b'S' ∷ b't' ∷ b'5' ∷ b'X' ∷ b'x' ∷ []
unfolding apply
pascal_status_5xx = refl

underscored :
    (case : Case) (c : ℕ) → ascii.is_alphanumeric c ≡ true → IsWord underscore (cased ascii case c)
underscored to_lower c h = (refl, ground arith)
underscored to_upper c h = (refl, ground arith)

hyphenated :
    (case : Case) (c : ℕ) → ascii.is_alphanumeric c ≡ true → IsWord hyphen (cased ascii case c)
hyphenated to_lower c h = (refl, ground arith)
hyphenated to_upper c h = (refl, ground arith)

delimited_lem_example :
    (delimited ascii xml_http underscore to_lower ≡ []) × (letters ascii to_lower xml_http ≡ [])
    ⊎ Joined underscore
        (letters ascii to_lower xml_http)
        (delimited ascii xml_http underscore to_lower)
delimited_lem_example = delimited_lem ascii underscore to_lower (underscored to_lower) xml_http

apply_prefix_lem_example :
    (apply_prefix ascii snake status_5xx ≡ apply ascii snake status_5xx ++ underscore ∷ [])
    × (apply_prefix ascii screaming_snake status_5xx
        ≡ apply ascii screaming_snake status_5xx ++ underscore ∷ [])
    × (apply_prefix ascii kebab status_5xx ≡ apply ascii kebab status_5xx ++ hyphen ∷ [])
    × (apply_prefix ascii screaming_kebab status_5xx
        ≡ apply ascii screaming_kebab status_5xx ++ hyphen ∷ [])
apply_prefix_lem_example = apply_prefix_lem ascii underscored hyphenated status_5xx
