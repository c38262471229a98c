-- ===== src/JsonEncode.antt =====
-- `push_json_string` of metrique-writer-core/src/json_encode.rs, over bytes, into a writer that does
-- not fail, as a `String` does not.
pub mod Escape
pub mod Read
mod Tests
use metrique.Prelude.{
  ℕ, zero, suc, ◌+◌, ◌-◌, ◌/◌, ◌%◌, Option, none, some, List, [], ◌∷◌, ◌++◌, ◌==◌, length, take,
  drop, ltb, if◌then◌else◌,
}

abbrev quote : ℕ
quote = 34

abbrev backslash : ℕ
backslash = 92

-- `{:x}` of a number below 16.
unfoldable pub hex_digit : ℕ → ℕ
hex_digit d = if ltb d 10 then 48 + d else 87 + d

-- What is written for a byte that is escaped.
unfoldable pub escape : ℕ → Option (List ℕ)
unfolding hex_digit
escape b =
    if b == quote
    then some (backslash ∷ quote ∷ [])
    else if b == backslash
    then some (backslash ∷ backslash ∷ [])
    else if b == 10
    then some (backslash ∷ 110 ∷ [])
    else if b == 13
    then some (backslash ∷ 114 ∷ [])
    else if b == 9
    then some (backslash ∷ 116 ∷ [])
    else if ltb b 32
    then some (backslash ∷ 117 ∷ 48 ∷ 48 ∷ hex_digit (b / 16) ∷ hex_digit (b % 16) ∷ [])
    else none

-- `&s[start..end]`, within the bounds of `s`.
unfoldable pub slice : List ℕ → ℕ → ℕ → List ℕ
slice s start end = take (end - start) (drop start s)

-- The loop over the bytes from place `i` on, what is before `start` being written, and the write
-- after it.
unfoldable pub write_bytes : List ℕ → List ℕ → ℕ → ℕ → List ℕ → List ℕ
write_bytes s [] i start buf = buf ++ slice s start (length s)
write_bytes s (b ∷ bytes) i start buf = elim (escape b) [
  | none ↦ write_bytes s bytes (i + 1) start buf
  | some e ↦ write_bytes s bytes (i + 1) (i + 1) (buf ++ slice s start i ++ e)
]

unfoldable pub push_json_string : List ℕ → List ℕ → List ℕ
unfolding write_bytes
push_json_string buf s = write_bytes s s 0 0 (buf ++ quote ∷ []) ++ quote ∷ []
