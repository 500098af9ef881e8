-- ===== src/Macros/Body/Laws.antt =====
-- The tokens behind and inside a part of a macro body.
use co.Prelude.{ℕ, zero, suc, ◌<◌, ◌≤◌, [], ◌∷◌, Option, none, some, length, arith}
use co.Macros.Body.{
  Tokens, skip_whitespace, find_matching_paren, push_inside, parenthesised, va_opt_content,
}
use co.Macros.Token.{MacroBodyToken, lparen, rparen}

pub length-skip_whitespace : (ts : Tokens) → length (skip_whitespace ts) ≤ length ts
unfolding skip_whitespace
length-skip_whitespace [] = omega arith
length-skip_whitespace (t ∷ ts) = ground (arith, length-skip_whitespace ts)

-- Both parts are shorter than `n` tokens, if there are any.
abbrev pub IsInside : ℕ → Option (Tokens × Tokens) → Type 0
IsInside n none = Unit {0}
IsInside n (some (inside, after)) = (length inside < n) × (length after < n)

push_inside-IsInside :
    (n : ℕ) (t : MacroBodyToken) (o : Option (Tokens × Tokens))
    → IsInside n o
    → IsInside (suc n) (push_inside t o)
push_inside-IsInside n t none h = tt
push_inside-IsInside n t (some (inside, after)) h = omega arith

find_matching_paren-IsInside :
    (d : ℕ) (ts : Tokens) → IsInside (length ts) (find_matching_paren d ts)
unfolding find_matching_paren
find_matching_paren-IsInside d [] = tt
find_matching_paren-IsInside d (lparen ∷ ts) =
    push_inside-IsInside (length ts) lparen (find_matching_paren (suc d) ts)
      (find_matching_paren-IsInside (suc d) ts)
find_matching_paren-IsInside zero (rparen ∷ ts) = (omega arith, omega arith)
find_matching_paren-IsInside (suc d) (rparen ∷ ts) =
    push_inside-IsInside (length ts) rparen (find_matching_paren d ts)
      (find_matching_paren-IsInside d ts)
find_matching_paren-IsInside d (t ∷ ts) =
    push_inside-IsInside (length ts) t (find_matching_paren d ts)
      (find_matching_paren-IsInside d ts)

IsInside-weaken : (m n : ℕ) (o : Option (Tokens × Tokens)) → m ≤ n → IsInside m o → IsInside n o
IsInside-weaken m n none k h = tt
IsInside-weaken m n (some (inside, after)) k h = omega arith

parenthesised-IsInside : (ts : Tokens) → IsInside (length ts) (parenthesised ts)
unfolding parenthesised
parenthesised-IsInside [] = tt
parenthesised-IsInside (lparen ∷ ts) =
    IsInside-weaken (length ts) (suc (length ts)) (find_matching_paren 0 ts) (omega arith)
      (find_matching_paren-IsInside 0 ts)
parenthesised-IsInside (t ∷ ts) = tt

pub va_opt_content-IsInside : (ts : Tokens) → IsInside (length ts) (va_opt_content ts)
unfolding va_opt_content
va_opt_content-IsInside ts =
    IsInside-weaken (length (skip_whitespace ts)) (length ts) (parenthesised (skip_whitespace ts))
      (length-skip_whitespace ts) (parenthesised-IsInside (skip_whitespace ts))
