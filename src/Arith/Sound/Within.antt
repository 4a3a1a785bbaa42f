-- ===== src/Arith/Sound/Within.antt =====
-- How far a lexer is from the end of its text (crates/expander/src/arith.rs `Lexer`).
use cherubsh.Base.{
  ℕ, zero, suc, ◌-◌, ◌≤◌, ◌<◌, true, false, ◌≡◌, refl, Text, length, arith, ap, ◌∙◌,
}
use cherubsh.Arith.{Gives, Gives-weaken}
use cherubsh.Arith.Errors.{Static}
use cherubsh.Arith.Lexer.{
  Lexer, is_eof, advance, Lexer_new, consume_first_char_of_double_operator, advance_from,
}
use cherubsh.Arith.Lexing.{IsLexer, From, advance_from-From, is_double}

-- a lexer of `src` with fewer than `m` characters from its token on
pub record At (src : Text) (m : ℕ) (lex : Lexer) : Type 0 where
  pub same_src : lex.src ≡ src
  pub lexer : IsLexer lex
  pub left : length src - lex.tok_start < m

pub At-weaken : (src : Text) (m n : ℕ) (lex : Lexer) → m ≤ n → At src m lex → At src n lex
At-weaken src m n lex h a = record {
  same_src = a.same_src;
  lexer = a.lexer;
  left = omega (arith, a.left);
}

pub At-zero : (src : Text) (lex : Lexer) → At src zero lex → ⊥
At-zero src lex a = absurd (omega (arith, a.left))

From-At :
    (src src' : Text) (i m : ℕ) (lex : Lexer)
    → src' ≡ src
    → length src - i < m
    → From src' i lex
    → At src m lex
From-At src src' i m lex e h f = record {
  same_src = f.same_src ∙ e;
  lexer = f.lexer;
  left = omega (arith, f.behind);
}

-- The next token of a lexer that is not at the end is further on.
pub advance-At :
    (src : Text) (m : ℕ) (lex : Lexer)
    → is_eof lex.cur ≡ false
    → At src (suc m) lex
    → Gives (At src m) Static ⊥ (advance lex)
unfolding advance
advance-At src m lex h a =
    Gives-weaken (From lex.src lex.i) (At src m) Static ⊥ (advance_from lex.src lex.i)
      (advance_from-From lex.src lex.i)
      λ lex' f.
        let size : length lex.src ≡ length src = ap length a.same_src in
        From-At src lex.src lex.i m lex' a.same_src
          (omega (arith, a.left, a.lexer.at_end, a.lexer.takes h, a.lexer.inside h, size)) f

pub advance-At_any :
    (src : Text) (m : ℕ) (lex : Lexer) → At src m lex → Gives (At src m) Static ⊥ (advance lex)
unfolding advance
advance-At_any src m lex a =
    Gives-weaken (From lex.src lex.i) (At src m) Static ⊥ (advance_from lex.src lex.i)
      (advance_from-From lex.src lex.i)
      λ lex' f.
        From-At src lex.src lex.i m lex' a.same_src
          (omega (arith, a.left, a.lexer.at_end, a.lexer.in_order)) f

-- The second sign of `++` or `--` is further on than the first.
pub consume-At :
    (src : Text) (m : ℕ) (lex : Lexer)
    → is_double lex.cur ≡ true
    → is_eof lex.cur ≡ false
    → At src (suc m) lex
    → Gives (At src m) Static ⊥ (consume_first_char_of_double_operator lex)
unfolding consume_first_char_of_double_operator
consume-At src m lex d h a =
    Gives-weaken (From lex.src (lex.tok_end - 1)) (At src m) Static ⊥
      (advance_from lex.src (lex.tok_end - 1)) (advance_from-From lex.src (lex.tok_end - 1))
      λ lex' f.
        let size : length lex.src ≡ length src = ap length a.same_src in
        From-At src lex.src (lex.tok_end - 1) m lex' a.same_src
          (omega (arith, a.left, a.lexer.takes_two d, a.lexer.inside h, size)) f

pub Lexer_new-At : (src : Text) → Gives (At src (suc (length src))) Static ⊥ (Lexer_new src)
unfolding Lexer_new
Lexer_new-At src =
    Gives-weaken (From src 0) (At src (suc (length src))) Static ⊥ (advance_from src 0)
      (advance_from-From src 0)
      λ lex f. From-At src src 0 (suc (length src)) lex refl (omega arith) f
