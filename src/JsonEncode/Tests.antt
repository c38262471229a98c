-- ===== src/JsonEncode/Tests.antt =====
-- Strings pushed.
use metrique.Prelude.{ℕ, some, ◌≡◌, refl, List, [], ◌∷◌, ◌++◌}
use metrique.JsonEncode.{push_json_string, write_bytes, escape, slice, hex_digit, quote}
use metrique.JsonEncode.Read.{read_json_string, read_json_string-push_json_string}
use metrique.JsonEncode.Escape.{push_json_string-escaped, escaped}

-- `a`, a quote, `b`, a control character and a line feed.
abbrev sample : List ℕ
sample = 97 ∷ 34 ∷ 98 ∷ 27 ∷ 10 ∷ []

sample_pushed :
    push_json_string [] sample
    ≡ 34 ∷ 97 ∷ 92 ∷ 34 ∷ 98 ∷ 92 ∷ 117 ∷ 48 ∷ 48 ∷ 49 ∷ 98 ∷ 92 ∷ 110 ∷ 34 ∷ []
unfolding push_json_string write_bytes escape slice hex_digit
sample_pushed = refl

push_json_string-escaped_example :
    push_json_string [] sample ≡ [] ++ quote ∷ [] ++ escaped sample ++ quote ∷ []
push_json_string-escaped_example = push_json_string-escaped [] sample

read_json_string-push_json_string_example :
    read_json_string (push_json_string [] sample ++ 44 ∷ []) ≡ some (sample, 44 ∷ [])
read_json_string-push_json_string_example = read_json_string-push_json_string sample (44 ∷ [])
