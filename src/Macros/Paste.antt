-- ===== src/Macros/Paste.antt =====
-- co2_preprocessor/src/macro_defs.rs: text that is joined to what was pushed before. A `String` that
-- grows at its end is a buffer: its bytes, the last one first.
use mathlib.Core.List.{reverse}
use co.Prelude.{
  ℕ, Bool, false, not, ◌&&◌, ◌||◌, [], ◌∷◌, ◌++◌, Bytes, Option, none, some, span, head_is, drop,
  length, ◌==◌, if◌then◌else◌,
}
use co.Prelude.Outcome.{Outcome, ok, panicked, ◌>>=◌}
use co.Utils.Classes.{is_blank, is_ident_start_byte, is_ident_cont_byte}
use co.Utils.Text.{bytes_to_str, is_utf8, strip, space_len_back}

abbrev pub Buffer : Type 0
Buffer = Bytes

-- `String::push_str`.
abbrev pub push_str : Buffer → Bytes → Buffer
push_str buf s = reverse s ++ buf

unfoldable pub would_paste_tokens : ℕ → ℕ → Bool
would_paste_tokens last first =
    (last == b'-' && (first == b'-' || first == b'=' || first == b'>'))
    || (last == b'+' && (first == b'+' || first == b'='))
    || (last == b'<' && (first == b'<' || first == b'=' || first == b':' || first == b'%'))
    || (last == b'>' && (first == b'>' || first == b'='))
    || (last == b'=' && first == b'=')

-- The tests before the leading space.
unfoldable pub needs_space : Buffer → ℕ → Bool
unfolding would_paste_tokens
needs_space [] first = false
needs_space (last ∷ buf) first =
    would_paste_tokens last first || (is_ident_cont_byte last && is_ident_cont_byte first)

-- The trailing space, with the buffer's last byte in front of the next byte of the source.
unfoldable pub push_separator : Buffer → Option ℕ → Buffer
unfolding would_paste_tokens
push_separator (last ∷ buf) (some next) =
    if would_paste_tokens last next then b' ' ∷ last ∷ buf else last ∷ buf
push_separator buf _ = buf

unfoldable pub append_with_paste_guard : Buffer → Bytes → Option ℕ → Buffer
unfolding needs_space push_separator
append_with_paste_guard buf [] next = buf
append_with_paste_guard buf (first ∷ s) next =
    push_separator (push_str (if needs_space buf first then b' ' ∷ buf else buf) (first ∷ s)) next

-- `while result.ends_with(' ') || result.ends_with('\t') { result.pop(); }`.
unfoldable pub pop_blanks : Buffer → Buffer
pop_blanks buf = (span is_blank buf).1

unfoldable pub pop_comma : Buffer → Buffer
pop_comma buf = if head_is (λ c. c == b',') buf then drop 1 buf else buf

-- `result.truncate(result.len() - n)`, which panics inside a character.
unfoldable pub truncate_by : ℕ → Buffer → Outcome Buffer
truncate_by n buf = if is_utf8 (reverse (drop n buf)) then ok (drop n buf) else panicked

abbrev pub blue_paint_marker : ℕ
blue_paint_marker = 1

unfoldable pub strip_blue_paint : Bytes → Bytes
strip_blue_paint [] = []
strip_blue_paint (c ∷ s) =
    let rest = strip_blue_paint s in if c == blue_paint_marker then rest else c ∷ rest

-- The identifier that a trimmed buffer ends in, with what stands in front of it.
unfoldable pub trailing_word : Bytes × Bytes → Outcome (Option Bytes)
trailing_word (word, before) =
    if head_is is_ident_start_byte (reverse word)
    then (if head_is (λ c. c == blue_paint_marker) before
        then ok none
        else (bytes_to_str (reverse word) >>= λ ident. ok (some ident)))
    else ok none

-- `extract_trailing_ident` on a buffer.
unfoldable pub extract_trailing_ident : Buffer → Outcome (Option Bytes)
unfolding trailing_word
extract_trailing_ident buf =
    trailing_word (span is_ident_cont_byte (strip space_len_back (length buf) buf))

-- `std::str::from_utf8(bytes).unwrap_or("")`.
unfoldable pub str_or_empty : Bytes → Bytes
str_or_empty s = if is_utf8 s then s else []

-- Does the text start with `ident`, with no identifier byte behind it?
unfoldable pub starts_ident : Bytes → Bytes → Bool
starts_ident [] s = not (head_is is_ident_cont_byte s)
starts_ident (a ∷ ident) [] = false
starts_ident (a ∷ ident) (c ∷ s) = c == a && starts_ident ident s

-- The search of `contains_standalone_ident` behind a byte that belongs to an identifier or not.
unfoldable pub search_ident : Bytes → Bool → Bytes → Bool
unfolding starts_ident
search_ident ident inside [] = false
search_ident ident inside (c ∷ s) =
    (if inside then false else starts_ident ident (c ∷ s))
    || search_ident ident (is_ident_cont_byte c) s

unfoldable pub contains_standalone_ident : Bytes → Bytes → Bool
unfolding search_ident
contains_standalone_ident s [] = false
contains_standalone_ident s (a ∷ ident) = search_ident (a ∷ ident) false s
