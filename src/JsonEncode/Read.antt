-- ===== src/JsonEncode/Read.antt =====
-- A reader of JSON strings, of the escapes that `push_json_string` writes and of `\u00` by four hex
-- digits, and what it makes of a string that was pushed.
use metrique.Prelude.{
  ℕ, zero, suc, ◌+◌, ◌*◌, ◌/◌, ◌%◌, ◌-◌, ◌<◌, ◌≡◌, refl, ap, ◌∙◌, Option, none, some, true, false,
  List, [], ◌∷◌, ◌++◌, append_assoc, ◌==◌, ltb, ==_iff, ltb→lt, Bool-cases, inl, inr, arith,
  if◌then◌else◌,
}
use metrique.JsonEncode.{quote, backslash, hex_digit, escape, push_json_string}
use metrique.JsonEncode.Escape.{escaped_byte, escaped, push_json_string-escaped}

-- Within a string, after a backslash, or within the hex digits, some to come.
pub data Reader : Type 0 where
  plain : Reader
  after_backslash : Reader
  digits : ℕ → ℕ → Reader

abbrev pub hex_value : ℕ → Option ℕ
hex_value b =
    if ltb b 48
    then none
    else if ltb b 58
    then some (b - 48)
    else if ltb b 97
    then none
    else if ltb b 103
    then some (b - 87)
    else none

abbrev pub unescape : ℕ → Option ℕ
unescape b =
    if b == 34
    then some 34
    else if b == 92
    then some 92
    else if b == 110
    then some 10
    else if b == 114
    then some 13
    else if b == 116
    then some 9
    else none

-- A byte before what is read, and what is left.
abbrev pub before : ℕ → Option (List ℕ × List ℕ) → Option (List ℕ × List ℕ)
before b none = none
before b (some (bytes, rest)) = some (b ∷ bytes, rest)

unfoldable pub read : Reader → List ℕ → Option (List ℕ × List ℕ)
read reader [] = none
read plain (b ∷ bytes) = elim (b == quote) [
  | true ↦ some ([], bytes)
  | false ↦ elim (b == backslash) [
    | true ↦ read after_backslash bytes
    | false ↦ elim (ltb b 32) [ true ↦ none | false ↦ before b (read plain bytes) ]
  ]
]
read after_backslash (b ∷ bytes) = elim (b == 117) [
  | true ↦ read (digits 3 0) bytes
  | false ↦ elim (unescape b) [ none ↦ none | some c ↦ before c (read plain bytes) ]
]
read (digits zero v) (b ∷ bytes) = elim (hex_value b) [
  | none ↦ none
  | some d ↦ before (v * 16 + d) (read plain bytes)
]
read (digits (suc left) v) (b ∷ bytes) = elim (hex_value b) [
  | none ↦ none
  | some d ↦ read (digits left (v * 16 + d)) bytes
]

-- The string that the bytes start with, and what comes after its quote.
unfoldable pub read_json_string : List ℕ → Option (List ℕ × List ℕ)
unfolding read
read_json_string [] = none
read_json_string (b ∷ bytes) = elim (b == quote) [ true ↦ read plain bytes | false ↦ none ]

hex_value-hex_digit : (d : ℕ) → d < 16 → hex_value (hex_digit d) ≡ some d
unfolding hex_digit
hex_value-hex_digit d h = ground arith

read-unicode :
    (b : ℕ) (rest : List ℕ)
    → b < 32
    → read plain (backslash ∷ 117 ∷ 48 ∷ 48 ∷ hex_digit (b / 16) ∷ hex_digit (b % 16) ∷ rest)
      ≡ before b (read plain rest)
unfolding read
read-unicode b rest h =
    rw
      (hex_value-hex_digit (b / 16) (omega arith), hex_value-hex_digit (b % 16) (omega arith), read)
      (ap (λ n. before n (read plain rest)) (omega arith))

read-plain :
    (b : ℕ) (rest : List ℕ)
    → (b == quote) ≡ false
    → (b == backslash) ≡ false
    → ltb b 32 ≡ false
    → read plain (b ∷ rest) ≡ before b (read plain rest)
unfolding read
read-plain b rest n1 n2 n3 = rw (n1, n2, n3, read) refl

read-escape :
    (b : ℕ) (rest : List ℕ) (o : Option (List ℕ))
    → escape b ≡ o
    → read plain (escaped_byte b ++ rest)
      ≡ read plain (elim o [ none ↦ b ∷ [] | some e ↦ e ] ++ rest)
read-escape b rest o h = ap (λ o. read plain (elim o [ none ↦ b ∷ [] | some e ↦ e ] ++ rest)) h

-- Each byte read again, by the tests of `escape`.
read-escaped_byte :
    (b : ℕ) (rest : List ℕ) → read plain (escaped_byte b ++ rest) ≡ before b (read plain rest)
unfolding read escape
read-escaped_byte b rest = elim (Bool-cases (b == quote)) [
  | inl e ↦ rw ((==_iff b quote).0 e) refl
  | inr n1 ↦ elim (Bool-cases (b == backslash)) [
    | inl e ↦ rw ((==_iff b backslash).0 e) refl
    | inr n2 ↦ elim (Bool-cases (b == 10)) [
      | inl e ↦ rw ((==_iff b 10).0 e) refl
      | inr n3 ↦ elim (Bool-cases (b == 13)) [
        | inl e ↦ rw ((==_iff b 13).0 e) refl
        | inr n4 ↦ elim (Bool-cases (b == 9)) [
          | inl e ↦ rw ((==_iff b 9).0 e) refl
          | inr n5 ↦ elim (Bool-cases (ltb b 32)) [
            | inl lt ↦
                read-escape b rest
                  (some (backslash ∷ 117 ∷ 48 ∷ 48 ∷ hex_digit (b / 16) ∷ hex_digit (b % 16) ∷ []))
                  (ground arith)
                ∙ read-unicode b rest (ltb→lt b 32 lt)
            | inr n6 ↦ read-escape b rest none (ground arith) ∙ read-plain b rest n1 n2 n6
          ]
        ]
      ]
    ]
  ]
]

read-escaped : (s after : List ℕ) → read plain (escaped s ++ quote ∷ after) ≡ some (s, after)
unfolding read
read-escaped [] after = refl
read-escaped (b ∷ s) after =
    ap (read plain) (append_assoc (escaped_byte b) (escaped s) (quote ∷ after))
    ∙ read-escaped_byte b (escaped s ++ quote ∷ after)
    ∙ ap (before b) (read-escaped s after)

-- A string that was pushed, read from where the push began, is that string, whatever its bytes, and
-- what was written after it is left.
pub read_json_string-push_json_string :
    (s after : List ℕ) → read_json_string (push_json_string [] s ++ after) ≡ some (s, after)
unfolding read_json_string
read_json_string-push_json_string s after =
    ap (λ xs. read_json_string (xs ++ after)) (push_json_string-escaped [] s)
    ∙ ap (λ xs. read plain xs) (append_assoc (escaped s) (quote ∷ []) after)
    ∙ read-escaped s after
