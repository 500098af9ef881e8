-- ===== src/Conditionals/Grammar/RoundTrip.antt =====
-- The parser reads back every printed expression, with the meaning that the grammar gives it.
use co.Prelude.{
  Bool, true, false, Bytes, ltb, ℕ, zero, suc, ◌+◌, ◌<◌, ◌≤◌, ◌≡◌, refl, ◌∙◌, [], ◌∷◌, ◌++◌, length,
  arith, append_assoc, append-nil, length-append, subst,
}
use co.Prelude.Outcome.{ok, ◌>>=◌}
use co.Conditionals.Operators.{Op, ExprToken, op, rparen, Tokens}
use co.Conditionals.Parser.{
  skip_colon, parse_primary, parse_unary, ternary_rest, parse_ternary, parse_tokens,
}
use co.Conditionals.Parser.Steps.{parse_unary_go}
use co.Conditionals.Grammar.Levels.{stage, table-other, table-question, unary_op-prefix_sym}
use co.Conditionals.Grammar.Reading.{
  Ended-nil, Ended-nil, Stops, Chains, Chains-halt, Chains-infix, stage_climb, Ended, Ended-colon,
  outer_rank, ltb-false, rank_bound, Reads, reads_at, Chains-at,
}
use co.Conditionals.Grammar.{
  Infix, Prefix, Expr, num, ident, prefix, infix_of, cond, rank, sym_of, prefix_sym, denote, print,
  print_tokens, cost, parenthesised,
}

parse_ternary-stage :
    (f : ℕ) (ts : Tokens)
    → parse_ternary (suc f) ts
      ≡ (stage (parse_ternary f) 10 ts >>= λ (c, rest). ternary_rest (parse_ternary f) c rest)
unfolding parse_ternary stage
parse_ternary-stage f ts = refl

cost_pos : (e : Expr) → 0 < cost e
cost_pos (num n u) = omega arith
cost_pos (ident name) = omega arith
cost_pos (prefix p e) = omega arith
cost_pos (infix_of i a b) = omega arith
cost_pos (cond c a b) = omega arith

-- An expression that is no conditional, read by its own level, is read by the whole parser.
top_of_bare :
    (e : Expr)
    → outer_rank e ≤ 10
    → ((f : ℕ) (rest : Tokens)
        → cost e ≤ suc f
        → Stops (outer_rank e) rest
        → stage (parse_ternary f) (outer_rank e) (print e 11 ++ rest) ≡ ok (denote e, rest))
    → (f : ℕ) (rest : Tokens) → cost e ≤ f
    → Ended rest
    → parse_ternary f (print e 11 ++ rest) ≡ ok (denote e, rest)
top_of_bare e h read zero rest enough ended = absurd (omega (arith, cost_pos e))
top_of_bare e h read (suc f) rest enough (stops, no_question) =
    parse_ternary-stage f (print e 11 ++ rest)
    ∙ rw
        (stage_climb (parse_ternary f) (outer_rank e) 10 (denote e) rest (print e 11 ++ rest) h
          (read f rest enough (λ k m. stops k (omega arith))) stops)
        (no_question (parse_ternary f) (denote e))

-- An expression that the operand parser reads.
Reads-operand :
    (e : Expr)
    → outer_rank e ≡ 0
    → ((f : ℕ) (rest : Tokens)
        → cost e ≤ suc f
        → stage (parse_ternary f) (outer_rank e) (print e 11 ++ rest) ≡ ok (denote e, rest))
    → Reads e
Reads-operand e h read = record {
  bare = λ f rest enough k s. read f rest enough;
  chains = λ f k rest enough r m s. absurd (omega arith);
  top = top_of_bare e (omega arith) (λ f rest enough s. read f rest enough);
}

Reads-num : (n : ℕ) (u : Bool) → Reads (num n u)
unfolding stage parse_unary parse_primary
Reads-num n u = Reads-operand (num n u) refl (λ f rest enough. refl)

Reads-ident : (name : Bytes) → Reads (ident name)
unfolding stage parse_unary parse_primary
Reads-ident name = Reads-operand (ident name) refl (λ f rest enough. refl)

Reads-prefix : (p : Prefix) {e : Expr} → Reads e → Reads (prefix p e)
unfolding stage
Reads-prefix p {e} reads = Reads-operand (prefix p e) refl λ f rest enough.
    parse_unary_go (parse_ternary f) (prefix_sym p) (print e 0 ++ rest) (unary_op-prefix_sym p)
    ∙ rw (reads_at reads f (omega arith) 0 rest (omega arith) (λ k m. absurd (omega arith)))

module _ (i : Infix) {a b : Expr} (reads_a : Reads a) (reads_b : Reads b) where
  infix-Chains :
      (f : ℕ) (rest : Tokens)
      → cost a + cost b ≤ f
      → Stops (rank i) rest
      → Chains
          (parse_ternary f)
          (rank i)
          (denote (infix_of i a b))
          rest
          (print (infix_of i a b) 11 ++ rest)
  infix-Chains f rest enough s =
      let k = rank i in
      let right = print b k ++ rest in
      rw
        (
          ltb-false 11 (suc k) (omega (arith, rank_bound i)),
          append_assoc (print a (suc k)) (op (sym_of i) ∷ print b k) rest,
        )
        (Chains-infix (parse_ternary f) i (denote a) (denote b) rest right _
          (Chains-at reads_a f (omega arith) k (op (sym_of i) ∷ right) (omega (arith, rank_bound i))
            (λ j m. table-other i j (omega arith)))
          (reads_at reads_b f (omega arith) k rest (omega (arith, rank_bound i)) s)
          (omega (arith, length-append {A = ExprToken} (print b k) rest)))

  infix_bare :
      (f : ℕ) (rest : Tokens)
      → cost (infix_of i a b) ≤ suc f
      → Stops (suc (rank i)) rest
      → stage (parse_ternary f) (suc (rank i)) (print (infix_of i a b) 11 ++ rest)
        ≡ ok (denote (infix_of i a b), rest)
  infix_bare f rest enough s =
      Chains-halt (parse_ternary f) (rank i) _ rest _
        (infix-Chains f rest (omega arith) (λ k m. s k (omega arith))) (s (rank i) (omega arith))

  Reads-infix_of : Reads (infix_of i a b)
  Reads-infix_of = record {
    bare = λ f rest enough k s. infix_bare f rest enough s;
    chains = λ f k rest enough r m s.
        let same : rank i ≡ k = omega arith in
        subst
          (λ j.
            Chains (parse_ternary f) j (denote (infix_of i a b)) rest
              (print (infix_of i a b) 11 ++ rest))
          same (infix-Chains f rest (omega arith) (λ j n. s j (omega arith)));
    top = top_of_bare (infix_of i a b) (omega (arith, rank_bound i)) infix_bare;
  }

module _ {c a b : Expr} (reads_c : Reads c) (reads_a : Reads a) (reads_b : Reads b) where
  cond_top :
      (f : ℕ) (rest : Tokens)
      → cost (cond c a b) ≤ f
      → Ended rest
      → parse_ternary f (print (cond c a b) 11 ++ rest) ≡ ok (denote (cond c a b), rest)
  unfolding ternary_rest skip_colon
  cond_top zero rest enough ended = absurd (omega arith)
  cond_top (suc f) rest enough ended =
      let after_a = op Op.colon ∷ (print b 11 ++ rest) in
      let after_c = op Op.question ∷ (print a 11 ++ after_a) in
      parse_ternary-stage f (print (cond c a b) 11 ++ rest)
      ∙ rw
          (
            append_assoc (print c 10) (op Op.question ∷ (print a 11 ++ op Op.colon ∷ print b 11))
                rest,
            append_assoc (print a 11) (op Op.colon ∷ print b 11) rest,
          )
          (rw (reads_at reads_c f (omega arith) 10 after_c (omega arith) (λ k m. table-question k))
            (rw (reads_a.top f after_a (omega arith) (Ended-colon (print b 11 ++ rest)))
              (rw (reads_b.top f rest (omega arith) ended))))

  Reads-cond : Reads (cond c a b)
  Reads-cond = record {
    bare = λ f rest enough h s. absurd (omega arith);
    chains = λ f k rest enough r m s. absurd (omega arith);
    top = cond_top;
  }

Reads-all : (e : Expr) → Reads e
Reads-all (num n u) = Reads-num n u
Reads-all (ident name) = Reads-ident name
Reads-all (prefix p e) = Reads-prefix p (Reads-all e)
Reads-all (infix_of i a b) = Reads-infix_of i (Reads-all a) (Reads-all b)
Reads-all (cond c a b) = Reads-cond (Reads-all c) (Reads-all a) (Reads-all b)

length-parenthesised : (w : Bool) (ts : Tokens) → length ts ≤ length (parenthesised w ts)
length-parenthesised true ts = omega (arith, length-append {A = ExprToken} ts (rparen ∷ []))
length-parenthesised false ts = omega arith

-- The tokens of an expression are fuel enough for it.
cost-le-length : (e : Expr) (r : ℕ) → cost e ≤ length (print e r)
cost-le-length (num n u) r = omega arith
cost-le-length (ident name) r = omega arith
cost-le-length (prefix p e) r = omega (arith, cost-le-length e 0)
cost-le-length (infix_of i a b) r =
    let left = print a (suc (rank i)) in
    let right = op (sym_of i) ∷ print b (rank i) in
    omega (
      arith,
      cost-le-length a (suc (rank i)),
      cost-le-length b (rank i),
      length-append {A = ExprToken} left right,
      length-parenthesised (ltb r (suc (rank i))) (left ++ right),
    )
cost-le-length (cond c a b) r =
    let else_part = op Op.colon ∷ print b 11 in
    let then_part = op Op.question ∷ (print a 11 ++ else_part) in
    omega (
      arith,
      cost-le-length c 10,
      cost-le-length a 11,
      cost-le-length b 11,
      length-append {A = ExprToken} (print a 11) else_part,
      length-append {A = ExprToken} (print c 10) then_part,
      length-parenthesised (ltb r 11) (print c 10 ++ then_part),
    )

-- The parser reads the tokens of every expression of C's grammar to their end and computes the
-- value that the grammar gives the expression: precedence, left associativity of the infix
-- operators, right associativity of `?:`, and each operator's meaning are those of `denote`, also
-- where only the parentheses that C needs are written.
pub parse_tokens-print : (e : Expr) → parse_tokens (print_tokens e) ≡ ok (denote e, [])
unfolding parse_tokens
parse_tokens-print e =
    let fuel = suc (length (print e 11)) in
    let enough : cost e ≤ fuel = omega (arith, cost-le-length e 11) in
    rw append-nil at ((Reads-all e).top fuel [] enough Ended-nil)
