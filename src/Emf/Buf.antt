-- ===== src/Emf/Buf.antt =====
-- `PrefixedStringBuf` of metrique-writer-format-emf/src/buf.rs: a buffer that keeps its prefix.
use metrique.Prelude.{
  ℕ, ◌-◌, ◌≤◌, ◌≡◌, sym, ap, ◌∙◌, Bool, Option, none, some, [], ◌++◌, append_assoc, append-nil,
  length, leb, ◌==◌, take, drop, take-append, length-append, take-append_within, le→leb,
  if◌then◌else◌, ◌&&◌, arith,
}
use metrique.Emf.Output.{Bytes}

pub record PrefixedStringBuf : Type 0 where
  pub prefix_len : ℕ
  pub buf : Bytes

-- `from_prefix`, which `new` comes to: a capacity changes no contents.
unfoldable pub from_prefix : Bytes → PrefixedStringBuf
from_prefix buf = record { prefix_len = length buf; buf = buf }

unfoldable pub is_empty : PrefixedStringBuf → Bool
is_empty b = length b.buf == b.prefix_len

-- What `shrink_to` does after it shows nowhere.
unfoldable pub clear : PrefixedStringBuf → PrefixedStringBuf
clear b = record b { buf = take b.prefix_len b.buf }

-- `push`, `push_integer` and `json_string` are this for the text that they append.
unfoldable pub push_raw_str : Bytes → PrefixedStringBuf → PrefixedStringBuf
push_raw_str s b = record b { buf = b.buf ++ s }

-- The range has to lie in the buffer, or else it panics.
unfoldable pub extend_from_within_range : ℕ → ℕ → PrefixedStringBuf → Option PrefixedStringBuf
extend_from_within_range start end b =
    if leb start end && leb end (length b.buf)
    then some (record b { buf = b.buf ++ take (end - start) (drop start b.buf) })
    else none

-- Unless the assertion fails.
unfoldable pub truncate : ℕ → PrefixedStringBuf → Option PrefixedStringBuf
truncate combined_len b =
    if leb b.prefix_len combined_len
    then some (record b { buf = take combined_len b.buf })
    else none

-- That the buffer holds its prefix.
pub record IsValid (b : PrefixedStringBuf) : Type 0 where
  pub kept : b.prefix_len ≤ length b.buf

pub push_raw_str-IsValid :
    (s : Bytes) (b : PrefixedStringBuf) → IsValid b → IsValid (push_raw_str s b)
unfolding push_raw_str
push_raw_str-IsValid s b h = record { kept = omega (arith, h.kept, length-append b.buf s) }

-- What was pushed is taken back.
pub truncate-push_raw_str :
    (s : Bytes) (b : PrefixedStringBuf)
    → IsValid b
    → truncate (length b.buf) (push_raw_str s b) ≡ some b
unfolding truncate push_raw_str
truncate-push_raw_str s b h =
    rw (le→leb b.prefix_len (length b.buf) h.kept)
      (ap (λ xs. some (record b { buf = xs })) (take-append b.buf s))

pub truncate_self : (b : PrefixedStringBuf) → IsValid b → truncate (length b.buf) b ≡ some b
unfolding push_raw_str
truncate_self b h =
    ap (λ xs. truncate (length b.buf) (record b { buf = xs })) (sym (append-nil b.buf))
    ∙ truncate-push_raw_str [] b h

pub push_raw_str_nil : (b : PrefixedStringBuf) → push_raw_str [] b ≡ b
unfolding push_raw_str
push_raw_str_nil b = ap (λ xs. record b { buf = xs }) (append-nil b.buf)

pub push_raw_str_twice :
    (s t : Bytes) (b : PrefixedStringBuf)
    → push_raw_str t (push_raw_str s b) ≡ push_raw_str (s ++ t) b
unfolding push_raw_str
push_raw_str_twice s t b = ap (λ xs. record b { buf = xs }) (append_assoc b.buf s t)

-- Cleared, a valid buffer is its prefix, whatever has been pushed.
pub clear-push_raw_str :
    (s : Bytes) (b : PrefixedStringBuf) → IsValid b → clear (push_raw_str s b) ≡ clear b
unfolding clear push_raw_str
clear-push_raw_str s b h =
    ap (λ xs. record b { buf = xs }) (take-append_within b.prefix_len b.buf s h.kept)
