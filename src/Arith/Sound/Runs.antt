-- ===== src/Arith/Sound/Runs.antt =====
-- What the grammar does on a text (crates/expander/src/arith.rs `parse_comma`).
use cherubsh.Base.{ℕ, suc, ◌<◌, false, ◌≡◌, refl, Text, length, arith}
use cherubsh.Arith.{Outcome, done, fails, out_of_fuel, Post}
use cherubsh.Arith.Errors.{Static}
use cherubsh.Arith.Lexer.{Lexer}
use cherubsh.Arith.Lexing.{IsLexer}
use cherubsh.Arith.Eval.{Variables}
use cherubsh.Arith.Grammar.{parse_comma}
use cherubsh.Arith.Sound.{Frame, Sound, Keeping}
use cherubsh.Arith.Sound.Within.{At}
use cherubsh.Arith.Sound.Prefix.{Kept}
use cherubsh.Arith.Sound.Whole.{parse_comma-Reads}

pub start-At : (lex : Lexer) → IsLexer lex → At lex.src (suc (length lex.src)) lex
start-At lex h = record { same_src = refl; lexer = h; left = omega arith }

-- the frame that asks for nothing but fuel, if for that
abbrev pub free : {C : Type 0} → Text → Type 0 → Frame C
free src F = record {
  src = src;
  Keeps = λ c₀ c. Unit;
  keeps_refl = λ c. tt;
  keeps_trans = λ a b c h k. tt;
  Exhausted = F;
}

free-Keeping : {C A : Type 0} (src : Text) (f : C → Outcome C A) → Keeping (free src (Unit {0})) f
free-Keeping {C} {A} src f c = any (f c)
  where
    any : (r : Outcome C A) → Post (λ a c'. Unit {0}) (λ e c'. Unit {0}) (Unit {0}) r
    any (done a c') = tt
    any (fails e c') = tt
    any out_of_fuel = tt

pub free-Kept : {C : Type 0} (src : Text) (vars : Variables C) → Kept (free src (Unit {0})) vars
free-Kept src vars = record {
  resolves = λ name. free-Keeping src (vars.resolve name);
  loads = λ lvalue. free-Keeping src (vars.load lvalue);
  stores = λ lvalue v. free-Keeping src (vars.store lvalue v);
  loads_ident = λ name. free-Keeping src (vars.load_ident name);
}

skips_lem :
    {C : Type 0} (r : Outcome C (ℕ × Lexer)) (src : Text) (m : ℕ) (c : C)
    → Sound (free src (Unit {0})) false c m (λ v. v ≡ 0) r
    → Post (λ (v, lex') c'. (v ≡ 0) × (c' ≡ c)) (λ e c'. Static e × (c' ≡ c)) ⊥ r
skips_lem (done (v, lex') c') src m c h = (h.2, h.1)
skips_lem (fails e c') src m c h = (h.1, h.0)
skips_lem out_of_fuel src m c h = h

-- A part of an expression that is not evaluated, with fuel above the length of the text, has the value
-- 0 or fails, changes nothing of the context, and does not run out of fuel, whatever the operations on
-- variables do. It fails by an error of the syntax (of a constant, a token, an operand or a target), or
-- by the division by zero that a skipped `/=` or `%=` reports: not by a negative exponent, the depth
-- of nesting, an unbound or readonly variable, a subscript or a refused assignment.
pub parse_comma-skips :
    {C : Type 0} (vars : Variables C) (n : ℕ) (lex : Lexer) (c : C)
    → IsLexer lex
    → length lex.src < n
    → Post
        (λ (v, lex') c'. (v ≡ 0) × (c' ≡ c))
        (λ e c'. Static e × (c' ≡ c))
        ⊥
        (parse_comma vars n false lex c)
parse_comma-skips vars n lex c h fuel =
    skips_lem (parse_comma vars n false lex c) lex.src (suc (length lex.src)) c (
      parse_comma-Reads (free lex.src (Unit {0})) vars (free-Kept lex.src vars) n
        (suc (length lex.src)) false lex c (omega arith) (start-At lex h))
