-- ===== src/Arith/Operands.antt =====
-- What the ends of the grammar do of a printed expression (crates/expander/src/arith.rs `parse_comma` to
-- `parse_ternary`, and `parse_power` to `parse_primary`).
use cherubsh.Base.{ℕ, suc, ◌+◌, Bool, true, false, ◌==◌, ◌≡◌, refl, ap, Text, none}
use cherubsh.Arith.{ok, done}
use cherubsh.Arith.Lexer.{Lexer, num, lparen, rparen, token, advance, advance_from}
use cherubsh.Arith.Eval.{Variables, Eval, when_active}
use cherubsh.Arith.Words.{wrapping_neg, word_not, of_bool}
use cherubsh.Arith.Operators.{enter_operand}
use cherubsh.Arith.Printed.{UnOp, keep, negate, invert, deny, un_token, un_value}
use cherubsh.Arith.Levels.{when_active_twice}
use cherubsh.Arith.Unary.{
  is_star_star, primary_at, parse_postfix, parse_unary, power_at, parse_power, prefix_op, sign_of,
}
use cherubsh.Arith.Grammar.{
  is_question, is_comma, assigns, parse_logor, parse_ternary, assign_at, parse_assign, comma_loop,
  comma_level,
}

when_active_of :
    (f : ℕ → ℕ) (active : Bool) (v : ℕ)
    → when_active active (f (when_active active v)) ≡ when_active active (f v)
when_active_of f true v = refl
when_active_of f false v = refl

module _ {C : Type 0} (vars : Variables C) (k : ℕ) (comma : Bool → Eval C ℕ) where
  pub constant_read :
      (active : Bool) (src : Text) (p v q : ℕ) (lex' : Lexer) (c : C)
      → advance_from src q ≡ ok lex'
      → parse_unary vars (suc k) comma active (token src p (num v) q) c
        ≡ done (when_active active v, lex') c
  unfolding parse_unary parse_postfix primary_at advance
  constant_read active src p v q lex' c e = rw e refl

  pub parens_read :
      (active : Bool) (src : Text) (p q v z : ℕ) (lex₁ lex' : Lexer) (c : C)
      → advance_from src q ≡ ok lex₁
      → comma active lex₁ c ≡ done (when_active active v, token src z rparen (z + 1)) c
      → advance_from src (z + 1) ≡ ok lex'
      → parse_unary vars (suc k) comma active (token src p lparen q) c
        ≡ done (when_active active v, lex') c
  unfolding parse_unary parse_postfix primary_at advance
  parens_read active src p q v z lex₁ lex' c e₁ h e₂ =
      rw e₁ (rw h (rw e₂ (ap (λ w. done (w, lex') c) (when_active_twice active v))))

  pub sign_read :
      (op : UnOp) (active : Bool) (src : Text) (p v : ℕ) (lex₁ lex' : Lexer) (c : C)
      → enter_operand (token src p (un_token op) (p + 1)) ≡ ok lex₁
      → parse_unary vars k comma active lex₁ c ≡ done (when_active active v, lex') c
      → parse_unary vars (suc k) comma active (token src p (un_token op) (p + 1)) c
        ≡ done (when_active active (un_value op v), lex') c
  unfolding parse_unary prefix_op sign_of un_value
  sign_read keep active src p v lex₁ lex' c e h = rw e h
  sign_read negate active src p v lex₁ lex' c e h =
      rw e (rw h (ap (λ w. done (w, lex') c) (when_active_of wrapping_neg active v)))
  sign_read invert active src p v lex₁ lex' c e h =
      rw e (rw h (ap (λ w. done (w, lex') c) (when_active_of word_not active v)))
  sign_read deny active src p v lex₁ lex' c e h =
      rw e (rw h (ap (λ w. done (w, lex') c) (when_active_of (λ w. of_bool (w == 0)) active v)))

  pub power_passes :
      (active : Bool) (v : ℕ) (lex lex' : Lexer) (c : C)
      → parse_unary vars (suc k) comma active lex c ≡ done (when_active active v, lex') c
      → is_star_star lex'.cur ≡ false
      → parse_power vars (suc k) comma active lex c ≡ done (when_active active v, lex') c
  unfolding parse_power power_at
  power_passes active v lex lex' c h e =
      rw h (rw e (ap (λ w. done (w, lex') c) (when_active_twice active v)))

  ternary_passes :
      (active : Bool) (v : ℕ) (lex lex' : Lexer) (c : C)
      → parse_logor vars (suc k) comma active lex c ≡ done (when_active active v, lex') c
      → is_question lex'.cur ≡ false
      → parse_ternary vars (suc k) comma active lex c ≡ done (when_active active v, lex') c
  unfolding parse_ternary
  ternary_passes active v lex lex' c h e =
      rw h (rw e (ap (λ w. done (w, lex') c) (when_active_twice active v)))

  assign_passes :
      (active : Bool) (v : ℕ) (lex lex' : Lexer) (c : C)
      → parse_ternary vars (suc k) comma active lex c ≡ done (when_active active v, lex') c
      → assigns lex lex.cur ≡ ok none
      → parse_assign vars (suc k) comma active lex c ≡ done (when_active active v, lex') c
  unfolding parse_assign assign_at
  assign_passes active v lex lex' c h e =
      rw e (rw h (ap (λ w. done (w, lex') c) (when_active_twice active v)))

  -- An expression without assignment, condition or comma is what the level of `||` reads.
  pub comma_passes :
      (active : Bool) (v : ℕ) (lex lex' : Lexer) (c : C)
      → parse_logor vars (suc k) comma active lex c ≡ done (when_active active v, lex') c
      → assigns lex lex.cur ≡ ok none
      → is_question lex'.cur ≡ false
      → is_comma lex'.cur ≡ false
      → comma_level vars (suc k) comma active lex c ≡ done (when_active active v, lex') c
  unfolding comma_level comma_loop
  comma_passes active v lex lex' c h e₁ e₂ e₃ =
      rw (assign_passes active v lex lex' c (ternary_passes active v lex lex' c h e₂) e₁)
        (rw e₃ (ap (λ w. done (w, lex') c) (when_active_twice active v)))
