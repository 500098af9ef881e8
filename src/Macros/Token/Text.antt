-- ===== src/Macros/Token/Text.antt =====
-- The tokens of a macro body are its text, cut up.
use co.Prelude.{
  Option-cases, ℕ, zero, suc, ◌<◌, ◌≡◌, refl, ap, ◌∙◌, Bool, true, not, ◌&&◌, [], ◌∷◌, ◌++◌, Bytes,
  take, drop, take-append-drop, length, length-append, ◌==◌, if_both, arith, Option, none, some,
  append_assoc, inl, inr,
}
use co.Prelude.Outcome.{ok, Settles, settled, Settles-bind}
use co.Utils.Ident.{decode_utf8_char, allowed_len, ident_start_len, ident_cont_len}
use co.Utils.Literals.{is_lifetime_start}
use co.Utils.Ucn.{parse_ucn}
use co.Utils.Names.{parse_ucn_pos}
use co.Macros.Token.{
  string_lit, char_lit, quoted, ident_rest, ident_token, next_token, tokenize_from,
  tokenize_macro_body, token_text,
}
use co.Macros.Token.Cuts.{
  tokens_text, tokens_text-nil, tokens_text-cons, TakesFrom, quoted-CutOf, quoted_token-TakesFrom,
  take_pos, plain_token-TakesFrom, decode_pos,
}

module _ (is_xid_start is_xid_continue : ℕ → Bool) where
  allowed_len_pos :
      (start : Bool) (o : Option (ℕ × ℕ))
      → ((ch n : ℕ) → o ≡ some (ch, n) → 0 < n)
      → (m : ℕ) → allowed_len is_xid_start is_xid_continue start o ≡ some m
      → 0 < m
  unfolding allowed_len
  allowed_len_pos start none h m e = cc
  allowed_len_pos start (some (ch, len)) h m e = ground (arith, h ch len refl)

  ident_start_len_pos :
      (s : Bytes) (m : ℕ) → ident_start_len is_xid_start is_xid_continue s ≡ some m → 0 < m
  unfolding ident_start_len
  ident_start_len_pos [] m e = cc
  ident_start_len_pos (b ∷ s) m e = ground (
    arith,
    allowed_len_pos true (parse_ucn (b ∷ s)) (parse_ucn_pos (b ∷ s)) m,
    allowed_len_pos true (decode_utf8_char (b ∷ s)) (decode_pos (b ∷ s)) m,
  )

  ident_rest-append :
      (f : ℕ) (s : Bytes)
      → (ident_rest is_xid_start is_xid_continue f s).0
          ++ (ident_rest is_xid_start is_xid_continue f s).1
        ≡ s
  unfolding ident_rest
  ident_rest-append zero s = refl
  ident_rest-append (suc f) s =
      elim (Option-cases (ident_cont_len is_xid_start is_xid_continue s)) [
        | inl e ↦ rw (e, ident_rest)
        | inr (n, e) ↦
            rw (e, ident_rest)
              (append_assoc (take n s) _ _
                ∙ ap (λ t. take n s ++ t) (ident_rest-append f (drop n s))
                ∙ take-append-drop n s)
      ]

  ident_token-TakesFrom :
      (n b : ℕ) (r : Bytes)
      → 0 < n
      → TakesFrom (b ∷ r) (ident_token is_xid_start is_xid_continue n (b ∷ r))
  unfolding ident_token token_text
  ident_token-TakesFrom n b r h =
      let s = b ∷ r in
      let more = ident_rest is_xid_start is_xid_continue (length s) (drop n s) in
      (
        take n s ++ more.0,
        refl,
        omega (arith, take_pos n b r h, length-append {A = ℕ} (take n s) more.0),
        append_assoc (take n s) more.0 more.1
            ∙ ap (λ t. take n s ++ t) (ident_rest-append (length s) (drop n s))
            ∙ take-append-drop n s,
      )

  next_token-TakesFrom :
      (b : ℕ) (r : Bytes)
      → Settles (TakesFrom (b ∷ r)) (next_token is_xid_start is_xid_continue b r)
  unfolding next_token
  next_token-TakesFrom b r =
      let P = Settles (TakesFrom (b ∷ r)) in
      if_both P (b == b'"')
        (λ _.
          quoted_token-TakesFrom string_lit b r (quoted b r) (λ s. unfold token_text in refl)
            (quoted-CutOf b r))
        λ _.
          if_both P (b == b'\'' && not (is_lifetime_start (b ∷ r)))
            (λ _.
              quoted_token-TakesFrom char_lit b r (quoted b r) (λ s. unfold token_text in refl)
                (quoted-CutOf b r))
            λ _. elim (Option-cases (ident_start_len is_xid_start is_xid_continue (b ∷ r))) [
              | inl e ↦ rw e (settled (plain_token-TakesFrom b r))
              | inr (n, e) ↦
                  rw e (settled (ident_token-TakesFrom n b r (ident_start_len_pos (b ∷ r) n e)))
            ]

  tokenize_from-text :
      (f : ℕ) (s : Bytes)
      → length s < f
      → Settles (λ ts. tokens_text ts ≡ ok s) (tokenize_from is_xid_start is_xid_continue f s)
  unfolding tokenize_from
  tokenize_from-text zero s h = absurd (omega arith)
  tokenize_from-text (suc f) [] h = settled tokens_text-nil
  tokenize_from-text (suc f) (b ∷ r) h =
      Settles-bind (next_token-TakesFrom b r) λ (t, rest) (x, text, len, split).
        Settles-bind
          (tokenize_from-text f rest
            (omega (arith, length-append {A = ℕ} x rest, ap (length {A = ℕ}) split)))
          λ more m. settled (tokens_text-cons t more x rest text m ∙ ap ok split)

  -- Tokenizing a macro body ends, with the panic of a slice or with tokens whose texts, one after
  -- the other, are the body: no byte is lost, added or moved, whatever the identifier tests say.
  pub tokenize_macro_body-text :
      (s : Bytes)
      → Settles (λ ts. tokens_text ts ≡ ok s) (tokenize_macro_body is_xid_start is_xid_continue s)
  unfolding tokenize_macro_body
  tokenize_macro_body-text s = tokenize_from-text (suc (length s)) s (omega arith)
