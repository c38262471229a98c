-- ===== src/JsonEncode/Escape.antt =====
-- `push_json_string` against the escape of each byte.
use metrique.Prelude.{
  ℕ, ◌+◌, ◌-◌, ◌≡◌, refl, sym, ap, ◌∙◌, none, some, List, [], ◌∷◌, ◌++◌, append-nil, append_assoc,
  length, length-append, take, take-append, drop-append, arith,
}
use metrique.JsonEncode.{quote, escape, slice, write_bytes, push_json_string}

-- Each byte, escaped where it has to be.
abbrev pub escaped_byte : ℕ → List ℕ
escaped_byte b = elim (escape b) [ none ↦ b ∷ [] | some e ↦ e ]

abbrev pub escaped : List ℕ → List ℕ
escaped [] = []
escaped (b ∷ bytes) = escaped_byte b ++ escaped bytes

-- What stands between two places of a string that is cut there.
slice-append :
    (before kept after : List ℕ) (i : ℕ)
    → i ≡ length before + length kept
    → slice (before ++ (kept ++ after)) (length before) i ≡ kept
unfolding slice
slice-append before kept after i h =
    ap (take (i - length before)) (drop-append before (kept ++ after))
    ∙ ap (λ n. take n (kept ++ after)) (omega arith)
    ∙ take-append kept after

cut-slice :
    (s before kept after : List ℕ) (start i : ℕ)
    → s ≡ before ++ (kept ++ after)
    → start ≡ length before
    → i ≡ length before + length kept
    → slice s start i ≡ kept
cut-slice s before kept after start i at k h = rw (at, k) (slice-append before kept after i h)

write_bytes-escaped :
    (s before kept bytes buf : List ℕ) (i start : ℕ)
    → s ≡ before ++ (kept ++ bytes)
    → i ≡ length before + length kept
    → start ≡ length before
    → write_bytes s bytes i start buf ≡ buf ++ (kept ++ escaped bytes)
unfolding write_bytes
write_bytes-escaped s before kept [] buf i start at h k =
    let end : length s ≡ length before + length kept =
      omega (arith, ap length at, length-append before (kept ++ []), length-append kept []) in
    ap (λ xs. buf ++ xs)
      (cut-slice s before kept [] start (length s) at k end ∙ sym (append-nil kept))
write_bytes-escaped s before kept (b ∷ bytes) buf i start at h k =
    elim (escape b)
      as (λ o.
        elim o [
          | none ↦ write_bytes s bytes (i + 1) start buf
          | some e ↦ write_bytes s bytes (i + 1) (i + 1) (buf ++ slice s start i ++ e)
        ]
        ≡ buf ++ (kept ++ (elim o [ none ↦ b ∷ [] | some e ↦ e ] ++ escaped bytes))) [
          | none ↦
              write_bytes-escaped s before (kept ++ b ∷ []) bytes buf (i + 1) start
                (at ∙ ap (λ xs. before ++ xs) (sym (append_assoc kept (b ∷ []) bytes)))
                (omega (arith, length-append kept (b ∷ []))) k
              ∙ ap (λ xs. buf ++ xs) (append_assoc kept (b ∷ []) (escaped bytes))
          | some e ↦
              write_bytes-escaped s (before ++ kept ++ b ∷ []) [] bytes
                (buf ++ slice s start i ++ e) (i + 1) (i + 1)
                (at
                  ∙ sym (append_assoc before kept (b ∷ bytes))
                  ∙ sym (append_assoc (before ++ kept) (b ∷ []) bytes))
                (omega (arith, length-append before kept, length-append (before ++ kept) (b ∷ [])))
                (omega (arith, length-append before kept, length-append (before ++ kept) (b ∷ [])))
              ∙ ap (λ xs. buf ++ xs ++ e ++ escaped bytes)
                  (cut-slice s before kept (b ∷ bytes) start i at k h)
              ∙ append_assoc (buf ++ kept) e (escaped bytes)
              ∙ append_assoc buf kept (e ++ escaped bytes)
        ]

-- What is pushed is a quote, each byte of the string in its order, escaped where it has to be, and
-- a quote.
pub push_json_string-escaped :
    (buf s : List ℕ) → push_json_string buf s ≡ buf ++ quote ∷ [] ++ escaped s ++ quote ∷ []
unfolding push_json_string
push_json_string-escaped buf s =
    ap (λ xs. xs ++ quote ∷ [])
      (write_bytes-escaped s [] [] s (buf ++ quote ∷ []) 0 0 refl refl refl)
