-- ===== src/Pipeline/Guards.antt =====
-- co2_preprocessor/src/includes.rs: `detect_include_guard`, which looks for a header that is wrapped in
-- `#ifndef G`, `#define G` and `#endif`.
use mathlib.Core.List.{reverse}
use co.Prelude.{
  ℕ, suc, ◌-◌, Bool, true, false, not, ◌&&◌, ◌||◌, List, [], ◌∷◌, ◌++◌, Bytes, codes, equal, Option,
  none, some, span, drop, head_is, ◌==◌, if◌then◌else◌,
}
use co.Macros.Lines.Absent.{starts_with, occurs}
use co.Macros.Stringify.{push_char}
use co.Pipeline.Pending.{ident_start, ident_cont}
use co.Pipeline.Pragmas.{strip_prefix, trim_back}
use co.Utils.Classes.{is_alphabetic, is_alphanumeric}
use co.Utils.Text.{trim, trim_start, trim_end}

unfoldable pub extract_identifier : Bytes → Option Bytes
unfolding trim is_alphabetic is_alphanumeric
extract_identifier s = elim (trim s) [
  | [] ↦ some []
  | c ∷ r ↦ if ident_start c then some (c ∷ (span ident_cont r).0) else none
]

abbrev kept : Bytes → Bytes × Bool → Bytes × Bool
kept text p = (text ++ p.0, p.1)

-- The loop of `strip_inline_comments`: what it pushes, and whether the line ends in a comment.
unfoldable pub strip_comments : Bool → Bytes → Bytes × Bool
unfolding push_char
strip_comments inside [] = ([], inside)
strip_comments inside (c ∷ []) = if inside then ([], true) else (push_char c, false)
strip_comments true (c ∷ d ∷ r) = elim (c == b'*' && d == b'/') [
  | true ↦ strip_comments false r
  | false ↦ strip_comments true (d ∷ r)
]
strip_comments false (c ∷ d ∷ r) = elim (c == b'/' && d == b'*') [
  | true ↦ strip_comments true r
  | false ↦
      let more = kept (push_char c) (strip_comments false (d ∷ r)) in
      if c == b'/' && d == b'/' then ([], false) else more
]

unfoldable pub strip_inline_comments : Bytes → Bool → Bytes × Bool
unfolding occurs strip_comments
strip_inline_comments line inside =
    if not (occurs (codes "/*") line) && not (occurs (codes "//") line)
    then (line, inside)
    else strip_comments inside line

-- `str::lines` behind the bytes of a line, the last one first: a carriage return in front of a line
-- feed goes too.
unfoldable pub lines_from : Bytes → Bytes → List Bytes
lines_from [] [] = []
lines_from (b ∷ before) [] = reverse (b ∷ before) ∷ []
lines_from before (c ∷ s) =
    let next =
      reverse (if head_is (λ b. b == b'\r') before then drop 1 before else before)
      ∷ lines_from [] s in
    let on = lines_from (c ∷ before) s in if c == b'\n' then next else on

-- The text behind the first `*/`.
unfoldable pub behind_comment : Bytes → Option Bytes
behind_comment [] = none
behind_comment (c ∷ []) = none
behind_comment (c ∷ d ∷ r) =
    let later = behind_comment (d ∷ r) in if c == b'*' && d == b'/' then some r else later

pub record GuardScan : Type 0 where
  pub guard_macro : Option Bytes
  pub found_ifndef : Bool
  pub found_define : Bool
  pub found_endif : Bool
  pub if_depth : ℕ
  pub has_content_before_guard : Bool
  pub has_content_after_endif : Bool
  pub in_block_comment : Bool

unfoldable pub unseen : GuardScan
unseen = record {
  guard_macro = none;
  found_ifndef = false;
  found_define = false;
  found_endif = false;
  if_depth = 0;
  has_content_before_guard = false;
  has_content_after_endif = false;
  in_block_comment = false;
}

-- What a line does: the search is given up, stops, or goes on.
pub data LineStep : Type 0 where
  refuse : LineStep
  stop : GuardScan → LineStep
  go : GuardScan → LineStep

guard_ifndef : GuardScan → Option Bytes → LineStep
guard_ifndef g none = refuse
guard_ifndef g (some []) = refuse
guard_ifndef g (some (c ∷ name)) =
    go (record g { guard_macro = some (c ∷ name); found_ifndef = true; if_depth = 1 })

guard_define : GuardScan → Option Bytes → Option Bytes → LineStep
guard_define g none guard = refuse
guard_define g (some name) none = go g
guard_define g (some name) (some guard) =
    if equal name guard then go (record g { found_define = true }) else refuse

-- A directive in the guarded text. The depth is one or more there.
guard_body : GuardScan → Bytes → LineStep
unfolding starts_with
guard_body g after_hash =
    if starts_with (codes "if") after_hash
    then go (record g { if_depth = suc g.if_depth })
    else if starts_with (codes "endif") after_hash
    then go
        (record g { if_depth = g.if_depth - 1; found_endif = g.found_endif || g.if_depth - 1 == 0 })
    else if (starts_with (codes "else") after_hash || starts_with (codes "elif") after_hash)
        && g.if_depth == 1
    then refuse
    else go g

rest_of : Bytes → Bytes → Bytes
unfolding strip_prefix
rest_of word s = elim (strip_prefix word s) [ none ↦ [] | some rest ↦ rest ]

unfoldable pub guard_directive : GuardScan → Bytes → LineStep
unfolding starts_with extract_identifier guard_ifndef guard_define guard_body rest_of trim
guard_directive g after_hash =
    if starts_with (codes "ifndef") after_hash && not g.found_ifndef && g.if_depth == 0
    then (if g.has_content_before_guard
        then refuse
        else guard_ifndef g (extract_identifier (trim (rest_of (codes "ifndef") after_hash))))
    else if not g.found_ifndef
    then refuse
    else if not g.found_define && g.if_depth == 1
    then (if starts_with (codes "define") after_hash
        then guard_define g (extract_identifier (trim (rest_of (codes "define") after_hash)))
            g.guard_macro
        else refuse)
    else guard_body g after_hash

-- The directive without a backslash at its end.
unfoldable pub first_physical : Bytes → Bytes
unfolding trim_end
first_physical after_hash =
    if head_is (λ c. c == b'\\') (reverse after_hash)
    then trim_end (trim_back b'\\' after_hash)
    else after_hash

unfoldable pub guard_text : GuardScan → Bytes → LineStep
unfolding guard_directive first_physical trim_start
guard_text g [] = go g
guard_text g (c ∷ s) =
    if g.found_endif
    then stop (record g { has_content_after_endif = true })
    else if c == b'#'
    then guard_directive g (first_physical (trim_start s))
    else go (if g.found_ifndef then g else record g { has_content_before_guard = true })

-- A line outside of a comment.
unfoldable pub guard_visible : GuardScan → Bytes → LineStep
unfolding strip_inline_comments guard_text trim
guard_visible g line =
    let cut = strip_inline_comments line false in
    guard_text (record g { in_block_comment = cut.1 }) (trim cut.0)

unfoldable pub guard_line : GuardScan → Bytes → LineStep
unfolding guard_visible behind_comment
guard_line g line =
    if g.in_block_comment
    then elim (behind_comment line) [ none ↦ go g | some rest ↦ guard_visible g rest ]
    else guard_visible g line

guard_result : GuardScan → Option Bytes
guard_result g =
    if g.found_ifndef && g.found_define && g.found_endif && not g.has_content_after_endif
    then g.guard_macro
    else none

unfoldable pub guard_lines : GuardScan → List Bytes → Option Bytes
unfolding guard_line guard_result
guard_lines g [] = guard_result g
guard_lines g (line ∷ lines) = elim (guard_line g line) [
  | refuse ↦ none
  | stop g' ↦ guard_result g'
  | go g' ↦ guard_lines g' lines
]

unfoldable pub detect_include_guard : Bytes → Option Bytes
unfolding guard_lines lines_from unseen
detect_include_guard source = guard_lines unseen (lines_from [] source)
