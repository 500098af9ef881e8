-- ===== src/Directives/Expand/Words.antt =====
-- `expand_condition_macros` on words: each is replaced by its macro's body.
use co.Prelude.{
  ℕ, zero, suc, ◌-◌, ◌<◌, ◌≡◌, refl, ap, sym, ◌∙◌, Bool, true, false, List, [], ◌∷◌, ◌++◌, map,
  Bytes, codes, equal, none, some, all, span-all, take, length, ◌==◌, arith, and-eq-true, subst,
}
use co.Prelude.Outcome.{ok}
use co.Directives.Expand.{
  last_is, at_defined, expanded_macro, expand_ident, expand_round, expand_from,
  expand_condition_macros,
}
use co.Directives.Expand.Laws.{expand_step}
use co.Directives.Idents.Laws.{AllWords, unwords, word_plain, space_plain, length-unwords}
use co.Directives.Scan.{literal_at}
use co.Directives.Scan.Laws.{first_round_plain}
use co.Macros.Table.{MacroDef, MacroTable, get}
use co.Utils.Ascii.{IsAscii, bytes_to_str-IsAscii}
use co.Utils.Classes.{
  is_digit, is_alphanumeric, is_alphabetic, is_ident_start_byte, is_ident_cont_byte,
  is_ident_start_byte-not_digit, is_ident_cont_byte-start_or_digit,
}

-- A word other than `defined` with a space behind it is not taken for `defined`.
at_defined-word :
    (w s : Bytes)
    → all is_ident_cont_byte w ≡ true
    → equal w (codes "defined") ≡ false
    → at_defined (w ++ b' ' ∷ s) ≡ false
unfolding at_defined equal
at_defined-word [] s k n = refl
at_defined-word (a ∷ []) s k n = ground arith
at_defined-word (a ∷ b ∷ []) s k n = ground arith
at_defined-word (a ∷ b ∷ c ∷ []) s k n = ground arith
at_defined-word (a ∷ b ∷ c ∷ d ∷ []) s k n = ground arith
at_defined-word (a ∷ b ∷ c ∷ d ∷ e ∷ []) s k n = ground arith
at_defined-word (a ∷ b ∷ c ∷ d ∷ e ∷ f ∷ []) s k n = ground arith
at_defined-word (a ∷ b ∷ c ∷ d ∷ e ∷ f ∷ g ∷ []) s k n = ground arith
at_defined-word (a ∷ b ∷ c ∷ d ∷ e ∷ f ∷ g ∷ h ∷ w) s k n = ground arith

start-not_dot : (b : ℕ) → is_ident_start_byte b ≡ true → (b == b'.') ≡ false
unfolding is_ident_start_byte is_alphabetic
start-not_dot b h = ground arith

cont_word :
    (b : ℕ) (w : Bytes)
    → is_ident_start_byte b ≡ true
    → all is_ident_cont_byte w ≡ true
    → all is_ident_cont_byte (b ∷ w) ≡ true
cont_word b w h k = ground (arith, is_ident_cont_byte-start_or_digit b)

abbrev pub NoneDefined : List Bytes → Type 0
NoneDefined [] = Unit {0}
NoneDefined (w ∷ ws) = (equal w (codes "defined") ≡ false) × NoneDefined ws

-- What is to become of an identifier of a condition.
pub data Expands (t : MacroTable) (w out : Bytes) : Type 0 where
  unknown : get t w ≡ none → out ≡ w → Expands t w out
  function_like :
      (mac : MacroDef)
      → get t w ≡ some mac
      → mac.is_function_like ≡ true
      → out ≡ w
      → Expands t w out
  object_like :
      (mac : MacroDef)
      → get t w ≡ some mac
      → mac.is_function_like ≡ false
      → out ≡ mac.body
      → Expands t w out

pub data AllExpand (t : MacroTable) : List Bytes → List Bytes → Type 0 where
  no_words : AllExpand t [] []
  more_words :
      {w out : Bytes} {ws outs : List Bytes}
      → Expands t w out
      → AllExpand t ws outs
      → AllExpand t (w ∷ ws) (out ∷ outs)

module _ (t : MacroTable) where
  abbrev expansion : Bytes → Bytes
  expansion w = expanded_macro (get t w) w

  word_expand :
      (inside : Bool) (b : ℕ) (w s : Bytes)
      → is_ident_start_byte b ≡ true
      → all is_ident_cont_byte (b ∷ w) ≡ true
      → IsAscii (b ∷ w)
      → equal (b ∷ w) (codes "defined") ≡ false
      → expand_round t inside false b (w ++ b' ' ∷ s) ≡ ok (expansion (b ∷ w), b' ' ∷ s)
  unfolding expand_round expand_ident
  word_expand inside b w s h k a n =
      let more = (and-eq-true (is_ident_cont_byte b) (all is_ident_cont_byte w) k).1 in
      rw
        (
          at_defined-word (b ∷ w) s k n,
          is_ident_start_byte-not_digit b h,
          start-not_dot b h,
          h,
          span-all is_ident_cont_byte w (b' ' ∷ s) more (unfold is_ident_cont_byte in refl),
          bytes_to_str-IsAscii (b ∷ w) a,
        )
        (ground arith)

  space_expand :
      (inside glued : Bool) (s : Bytes) → expand_round t inside glued b' ' s ≡ ok (b' ' ∷ [], s)
  unfolding expand_round at_defined equal is_digit is_ident_start_byte
  space_expand inside glued s = ground arith

  -- One round that meets no literal.
  expand_plain :
      (f : ℕ) (inside glued : Bool) (b : ℕ) (r text rest out : Bytes)
      → literal_at (b ∷ r) ≡ none
      → expand_round t inside glued b r ≡ ok (text, rest)
      → expand_from t f
          (last_is is_ident_cont_byte inside (take (length (b ∷ r) - length rest) (b ∷ r)))
          (last_is is_alphanumeric glued text)
          rest
        ≡ ok out
      → expand_from t (suc f) inside glued (b ∷ r) ≡ ok (text ++ out)
  expand_plain f inside glued b r text rest out plain step more =
      expand_step t f inside glued b r
      ∙ rw (first_round_plain (expand_round t inside glued) b r plain) (rw step (rw more))

  -- A word and the space behind it are two rounds.
  two_rounds :
      (f : ℕ) (inside : Bool) (b : ℕ) (w s out : Bytes)
      → is_ident_start_byte b ≡ true
      → all is_ident_cont_byte w ≡ true
      → IsAscii (b ∷ w)
      → equal (b ∷ w) (codes "defined") ≡ false
      → ((next : Bool) → expand_from t f next false s ≡ ok out)
      → expand_from t (suc (suc f)) inside false (b ∷ (w ++ b' ' ∷ s))
        ≡ ok (expansion (b ∷ w) ++ b' ' ∷ out)
  two_rounds f inside b w s out h k a n more =
      let text = expansion (b ∷ w) in
      let line = b ∷ (w ++ b' ' ∷ s) in
      let within =
        last_is is_ident_cont_byte inside (take (length line - length (b' ' ∷ s)) line) in
      let behind =
        last_is is_ident_cont_byte within (take (length (b' ' ∷ s) - length s) (b' ' ∷ s)) in
      expand_plain (suc f) inside false b (w ++ b' ' ∷ s) text (b' ' ∷ s) (b' ' ∷ out)
        (word_plain b w s h k) (word_expand inside b w s h (cont_word b w h k) a n)
        (expand_plain f within (last_is is_alphanumeric false text) b' ' s (b' ' ∷ []) s out
          (space_plain s) (space_expand within (last_is is_alphanumeric false text) s)
          (unfold is_alphanumeric is_alphabetic is_digit in more behind))

  words_expand :
      (f : ℕ) (inside : Bool) (ws : List Bytes)
      → length (unwords ws) < f
      → AllWords ws
      → NoneDefined ws
      → expand_from t f inside false (unwords ws) ≡ ok (unwords (map expansion ws))
  words_expand zero inside ws h k n = absurd (omega arith)
  words_expand (suc f) inside [] h k n = unfold expand_from in refl
  words_expand (suc zero) inside (w ∷ ws) h k n = absurd (omega (arith, length-unwords w ws))
  words_expand (suc (suc f)) inside (w ∷ ws) h (word, k) (other, n) =
      let short = length-unwords w ws in
      let size = ap (length {A = ℕ}) word.split in
      let Expands = λ (v : Bytes).
        expand_from t (suc (suc f)) inside false (v ++ b' ' ∷ unwords ws)
        ≡ ok (expansion v ++ b' ' ∷ unwords (map expansion ws)) in
      subst Expands (sym word.split) (
        two_rounds f inside word.head word.tail (unwords ws) (unwords (map expansion ws))
          word.starts word.continues word.ascii
          (subst (λ (v : Bytes). equal v (codes "defined") ≡ false) word.split other)
          λ next. words_expand f next ws (omega (arith, short, size)) k n)

  Expands-expansion : (w out : Bytes) → Expands t w out → expansion w ≡ out
  unfolding expanded_macro
  Expands-expansion w out (unknown h e) = rw h (sym e)
  Expands-expansion w out (function_like mac h f e) = rw (h, f) (sym e)
  Expands-expansion w out (object_like mac h f e) = rw (h, f) (sym e)

  map-expansion : {ws outs : List Bytes} → AllExpand t ws outs → map expansion ws ≡ outs
  map-expansion no_words = refl
  map-expansion (more_words {w} {out} e es) = rw (Expands-expansion w out e, map-expansion es) refl

  -- On ASCII identifiers other than `defined` with a space behind each, expansion puts the body of
  -- an object-like macro for its name, once and without looking into the body, and leaves the name
  -- of a function-like macro and a name that is no macro's as they are.
  pub expand_condition_macros-unwords :
      (ws outs : List Bytes)
      → AllWords ws
      → NoneDefined ws
      → AllExpand t ws outs
      → expand_condition_macros t (unwords ws) ≡ ok (unwords outs)
  unfolding expand_condition_macros
  expand_condition_macros-unwords ws outs k n es =
      words_expand (suc (length (unwords ws))) false ws (omega arith) k n
      ∙ ap (λ os. ok (unwords os)) (map-expansion es)
