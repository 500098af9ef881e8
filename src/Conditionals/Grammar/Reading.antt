-- ===== src/Conditionals/Grammar/Reading.antt =====
-- How the parser's levels go through a printed expression with more tokens behind it.
use native.Mathlib.Decide.{ℕ_discrete, dec_lt}
use co.Prelude.{
  ℕ, zero, suc, ◌<◌, ◌≤◌, ◌≡◌, ◌≢◌, refl, sym, ◌∙◌, false, [], ◌∷◌, ◌++◌, length, Option, none,
  arith, ltb, lt→ltb, append_assoc, subst,
}
use co.Prelude.Outcome.{ok}
use co.Conditionals.Operators.{Op, op, lparen, rparen, Tokens, PpVal, Binary}
use co.Conditionals.Parser.{
  Parser, chain, level, skip_rparen, parse_primary, parse_unary, ternary_rest, parse_ternary,
}
use co.Conditionals.Parser.Steps.{chain_go, chain_stop}
use co.Conditionals.Grammar.Levels.{table, stage, table-sym_of, table-colon}
use co.Conditionals.Grammar.{
  Infix, Expr, num, ident, prefix, infix_of, cond, rank, sym_of, meaning, denote, print, cost,
}

-- A level with this table does not go on at the first of these tokens.
abbrev pub Halts : (Op → Option Binary) → Tokens → Type 0
Halts t [] = Unit {0}
Halts t (op o ∷ ts) = t o ≡ none
Halts t (_ ∷ ts) = Unit {0}

abbrev pub Stops : ℕ → Tokens → Type 0
Stops r ts = (k : ℕ) → k < r → Halts (table k) ts

chain_halt :
    (t : Op → Option Binary) (next : Parser) (f : ℕ) (v : PpVal) (ts : Tokens)
    → Halts t ts
    → chain t next (suc f) v ts ≡ ok (v, ts)
chain_halt t next f v [] h = unfold chain in refl
chain_halt t next f v (op o ∷ ts) h = chain_stop t next f v o ts h
chain_halt t next f v (_ ∷ ts) h = unfold chain in refl

module _ (t : Parser) where
  -- Level `k` has read an operand or more, with the value `v`, and stands at `rest`.
  abbrev pub Chains : ℕ → PpVal → Tokens → Tokens → Type 0
  Chains k v rest ts =
      (f : ℕ) × (length rest < f)
      × (level (table k) (stage t k) ts ≡ chain (table k) (stage t k) f v rest)

  stage-suc : (k : ℕ) (ts : Tokens) → stage t (suc k) ts ≡ level (table k) (stage t k) ts
  unfolding stage
  stage-suc k ts = refl

  pub level_operand :
      (k : ℕ) (ts : Tokens) {v : PpVal} {rest : Tokens}
      → stage t k ts ≡ ok (v, rest)
      → Chains k v rest ts
  level_operand k ts {v} {rest} e = (suc (length rest), omega arith, unfold level in rw e)

  pub Chains-halt :
      (k : ℕ) (v : PpVal) (rest ts : Tokens)
      → Chains k v rest ts
      → Halts (table k) rest
      → stage t (suc k) ts ≡ ok (v, rest)
  Chains-halt k v rest ts (zero, h, e) s = absurd (omega arith)
  Chains-halt k v rest ts (suc f, h, e) s =
      stage-suc k ts ∙ e ∙ chain_halt (table k) (stage t k) f v rest s

  -- What a tighter level has read, the looser ones hand through.
  pub stage_climb :
      (j r : ℕ) (v : PpVal) (rest ts : Tokens)
      → j ≤ r
      → stage t j ts ≡ ok (v, rest)
      → Stops r rest
      → stage t r ts ≡ ok (v, rest)
  stage_climb j zero v rest ts h e s =
      let same : j ≡ zero = omega arith in subst (λ k. stage t k ts ≡ ok (v, rest)) same e
  stage_climb j (suc r) v rest ts h e s = elim (dec_lt r j) [
    | yes p ↦ let same : j ≡ suc r = omega arith in subst (λ k. stage t k ts ≡ ok (v, rest)) same e
    | no p ↦
        Chains-halt r v rest ts
          (level_operand r ts
            (stage_climb j r v rest ts (omega arith) e (λ k m. s k (omega arith))))
          (s r (omega arith))
  ]

  -- One more operator of the level and its right operand.
  pub Chains-infix :
      (i : Infix) (va vb : PpVal) (rest tb ts : Tokens)
      → Chains (rank i) va (op (sym_of i) ∷ tb) ts
      → stage t (rank i) tb ≡ ok (vb, rest)
      → length rest ≤ length tb
      → Chains (rank i) (meaning i va vb) rest ts
  Chains-infix i va vb rest tb ts (zero, h, e) eb k = absurd (omega arith)
  Chains-infix i va vb rest tb ts (suc f, h, e) eb k = (
    f,
    omega arith,
    e ∙ chain_go (table (rank i)) (stage t (rank i)) f va (sym_of i) tb (table-sym_of i) ∙ rw eb,
  )

-- What may follow a whole expression: nothing that the parser would go on at.
abbrev pub Ended : Tokens → Type 0
Ended rest = Stops 10 rest × ((t : Parser) (c : PpVal) → ternary_rest t c rest ≡ ok (c, rest))

pub Ended-nil : Ended []
unfolding ternary_rest
Ended-nil = (λ k h. tt, λ t c. refl)

pub Ended-rparen : (ts : Tokens) → Ended (rparen ∷ ts)
unfolding ternary_rest
Ended-rparen ts = (λ k h. tt, λ t c. refl)

pub Ended-colon : (ts : Tokens) → Ended (op Op.colon ∷ ts)
unfolding ternary_rest
Ended-colon ts = (λ k h. table-colon k, λ t c. refl)

-- The least rank at which an expression stands without parentheses.
abbrev pub outer_rank : Expr → ℕ
outer_rank (num n u) = 0
outer_rank (ident name) = 0
outer_rank (prefix p e) = 0
outer_rank (infix_of i a b) = suc (rank i)
outer_rank (cond c a b) = 11

pub ltb-false : (a b : ℕ) → b ≤ a → ltb a b ≡ false
ltb-false a b h = ground arith

pub rank_bound : (i : Infix) → rank i ≤ 9
rank_bound i = ground arith

print_bare : (e : Expr) (r : ℕ) → outer_rank e ≤ r → r ≤ 11 → print e r ≡ print e 11
print_bare (num n u) r h k = refl
print_bare (ident name) r h k = refl
print_bare (prefix p e) r h k = refl
print_bare (infix_of i a b) r h k =
    rw (ltb-false r (suc (rank i)) h, ltb-false 11 (suc (rank i)) (omega arith))
print_bare (cond c a b) r h k = rw (ltb-false r 11 h)

print_paren :
    (e : Expr) (r : ℕ) → r < outer_rank e → print e r ≡ lparen ∷ (print e 11 ++ rparen ∷ [])
print_paren (num n u) r h = absurd (omega arith)
print_paren (ident name) r h = absurd (omega arith)
print_paren (prefix p e) r h = absurd (omega arith)
print_paren (infix_of i a b) r h =
    rw (lt→ltb r (suc (rank i)) h, ltb-false 11 (suc (rank i)) (omega (arith, rank_bound i)))
print_paren (cond c a b) r h = rw (lt→ltb r 11 h)

-- A rank is needed for parentheses or for none, but for the one where the expression just fits.
print_same : (e : Expr) (k : ℕ) → k < 10 → outer_rank e ≢ suc k → print e (suc k) ≡ print e k
print_same e k h p = elim (dec_lt k (outer_rank e)) [
  | yes q ↦ print_paren e (suc k) (omega arith) ∙ sym (print_paren e k q)
  | no q ↦
      print_bare e (suc k) (omega arith) (omega arith)
      ∙ sym (print_bare e k (omega arith) (omega arith))
]

pub record Reads (e : Expr) : Type 0 where
  pub bare :
      (f : ℕ) (rest : Tokens)
      → cost e ≤ suc f
      → outer_rank e ≤ 10
      → Stops (outer_rank e) rest
      → stage (parse_ternary f) (outer_rank e) (print e 11 ++ rest) ≡ ok (denote e, rest)
  pub chains :
      (f k : ℕ) (rest : Tokens)
      → cost e ≤ suc f
      → outer_rank e ≡ suc k
      → k < 10
      → Stops k rest
      → Chains (parse_ternary f) k (denote e) rest (print e 11 ++ rest)
  pub top :
      (f : ℕ) (rest : Tokens)
      → cost e ≤ f
      → Ended rest
      → parse_ternary f (print e 11 ++ rest) ≡ ok (denote e, rest)

module _ {e : Expr} (reads : Reads e) (f : ℕ) (enough : cost e ≤ f) where
  -- In parentheses.
  reads_paren :
      (rest : Tokens)
      → stage (parse_ternary f) 0 ((lparen ∷ (print e 11 ++ rparen ∷ [])) ++ rest)
        ≡ ok (denote e, rest)
  unfolding stage parse_unary parse_primary skip_rparen
  reads_paren rest =
      rw (append_assoc (print e 11) (rparen ∷ []) rest)
        (rw (reads.top f (rparen ∷ rest) enough (Ended-rparen rest)))

  pub reads_at :
      (r : ℕ) (rest : Tokens)
      → r ≤ 10
      → Stops r rest
      → stage (parse_ternary f) r (print e r ++ rest) ≡ ok (denote e, rest)
  reads_at r rest h s = elim (dec_lt r (outer_rank e)) [
    | yes p ↦
        rw (print_paren e r p)
          (stage_climb (parse_ternary f) 0 r (denote e) rest _ (omega arith) (reads_paren rest) s)
    | no p ↦ rw (print_bare e r (omega arith) (omega arith)) (
        stage_climb (parse_ternary f) (outer_rank e) r (denote e) rest _ (omega arith)
          (reads.bare f rest (omega arith) (omega arith) (λ k m. s k (omega arith))) s)
  ]

  pub Chains-at :
      (k : ℕ) (rest : Tokens)
      → k < 10
      → Stops k rest
      → Chains (parse_ternary f) k (denote e) rest (print e (suc k) ++ rest)
  Chains-at k rest h s = elim (ℕ_discrete (outer_rank e) (suc k)) [
    | yes p ↦
        rw (print_bare e (suc k) (omega arith) (omega arith))
          (reads.chains f k rest (omega arith) p h s)
    | no p ↦
        rw (print_same e k h p)
          (level_operand (parse_ternary f) k _ (reads_at k rest (omega arith) s))
  ]
