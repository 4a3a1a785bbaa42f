-- ===== src/Arith/Values.antt =====
-- Variables in arithmetic (crates/expander/src/arith.rs `resolve_lvalue`, `load_lvalue_value`,
-- `store_lvalue_value`, `load_ident_value`, `eval_array_index`, `parse_value_recursive`). The environment
-- and the expansion of a subscript are parameters. A subscript or a value is itself an expression:
-- `low` is what evaluates it, with one unit of fuel less.
pub mod Run
pub mod Nesting
pub mod Keeps
pub mod Restores
pub mod Resolves
pub mod Evals
use cherubsh.Base.{
  ℕ, zero, suc, ◌+◌, ◌-◌, Bool, true, false, ◌&&◌, ◌||◌, not, leb, ltb, ◌==◌, if◌then◌else◌, Text,
  [], ◌∷◌, ◌++◌, drop, length, all, Option, none, some, contains, starts_with, trim_text, codes,
  drop_while, is_whitespace, text_eq,
}
use cherubsh.Arith.{
  ArithError, Outcome, done, fails, out_of_fuel, next, lift, syntax_in_expression, recursion_level,
  unbound_variable, readonly_variable, invalid_subscript, refused_assignment,
  invalid_subscript_operator,
}
use cherubsh.Arith.Lexer.{
  Lexer, Lexer_new, is_eof, is_ident_start, is_ident_char, is_ascii_alphabetic,
}
use cherubsh.Arith.Eval.{Variables, LValue, scalar, indexed, assoc}
use cherubsh.Arith.Grammar.{parse_comma}
use cherubsh.Arith.Names.{
  array_ref_parts, is_array_ref, unescape_assoc_subscript, strip_arith_subscript_double_quotes,
  word_to_string, parse_integer, parse_plain_value,
}

pub data VarKind : Type 0 where
  unset_kind scalar_kind indexed_kind assoc_kind nameref_kind : VarKind

-- `AssignError`: the assignment is refused, read-only or for another reason
pub data AssignError : Type 0 where
  read_only : Text → AssignError
  bad_subscript : Text → AssignError
  other_refusal : Text → AssignError

pub data Assigned (S : Type 0) : Type 0 where
  assigned : S → Assigned S
  refused : AssignError → S → Assigned S

-- the operations of the trait `Environment` that arithmetic calls; a read may move a generator
pub record Environment (S : Type 0) : Type 0 where
  pub is_nameref : Text → S → Bool
  pub resolve_nameref : Text → S → Option Text
  pub kind : Text → S → VarKind
  pub get : Text → S → Option Text × S
  pub get_array_indexed : Text → ℕ → S → Option Text × S
  pub get_array_assoc : Text → Text → S → Option Text × S
  pub is_readonly : Text → S → Bool
  pub set_array_indexed : Text → ℕ → Text → S → S
  pub set_array_assoc : Text → Text → Text → S → S
  pub assign : Text → Text → S → Assigned S
  pub assoc_expand_once : S → Bool

-- the fields of `ExpCtx` that arithmetic uses, and the depth of `ValueRecursionGuard`
pub record Context (S : Type 0) : Type 0 where
  pub env : S
  pub arith_expand_subscripts : Bool
  pub arith_depth : ℕ
  pub eval_unbound_error : Bool
  pub value_depth : ℕ

abbrev pub max_arith_nesting : ℕ
max_arith_nesting = 64

-- the evaluators of nested texts
pub record Nested (C : Type 0) : Type 0 where
  pub vars : Variables C
  pub value : Text → ℕ → C → Outcome C ℕ

abbrev pub set_env : {S : Type 0} → Context S → S → Context S
set_env c env = record {
  env = env;
  arith_expand_subscripts = c.arith_expand_subscripts;
  arith_depth = c.arith_depth;
  eval_unbound_error = c.eval_unbound_error;
  value_depth = c.value_depth;
}

abbrev pub set_expand : {S : Type 0} → Bool → Context S → Context S
set_expand expand c = record {
  env = c.env;
  arith_expand_subscripts = expand;
  arith_depth = c.arith_depth;
  eval_unbound_error = c.eval_unbound_error;
  value_depth = c.value_depth;
}

abbrev pub set_depth : {S : Type 0} → ℕ → Context S → Context S
set_depth depth c = record {
  env = c.env;
  arith_expand_subscripts = c.arith_expand_subscripts;
  arith_depth = depth;
  eval_unbound_error = c.eval_unbound_error;
  value_depth = c.value_depth;
}

abbrev pub set_value_depth : {S : Type 0} → ℕ → Context S → Context S
set_value_depth depth c = record {
  env = c.env;
  arith_expand_subscripts = c.arith_expand_subscripts;
  arith_depth = c.arith_depth;
  eval_unbound_error = c.eval_unbound_error;
  value_depth = depth;
}

-- what is done on the way out, after a value and after an error
abbrev pub finally {ℓ} : {C : Type 0} {A : Type ℓ} → (C → C) → Outcome C A → Outcome C A
finally f (done a c) = done a (f c)
finally f (fails e c) = fails e (f c)
finally f out_of_fuel = out_of_fuel

-- `run` with subscripts expanded or not, and the setting put back
abbrev pub with_expand {ℓ} :
    {S : Type 0} {A : Type ℓ}
    → Bool
    → (Context S → Outcome (Context S) A)
    → Context S
    → Outcome (Context S) A
with_expand expand run c =
    finally (set_expand c.arith_expand_subscripts) (run (set_expand expand c))

abbrev pub blank : Text → Bool
blank s = length (trim_text s) == 0

abbrev pub from_option : Bool → Option Text → Bool
from_option b none = b
from_option b (some s) = blank s

-- the text from the first `\]` on
unfoldable pub escaped_bracket : Text → Option Text
escaped_bracket [] = none
escaped_bracket (c ∷ s) =
    let later = escaped_bracket s in
    if starts_with (c ∷ s) (b'\\' ∷ b']' ∷ []) then some (c ∷ s) else later

abbrev pub is_name_like : Text → Bool
is_name_like [] = false
is_name_like (c ∷ s) =
    is_ident_start c && all (λ d. is_ident_char d || d == b'[' || d == b']') (c ∷ s)

module _ {C : Type 0} where
  -- a text as an expression, with the lexer behind it
  unfoldable pub eval_text : Nested C → Text → C → Outcome C (ℕ × Lexer)
  unfolding Lexer_new parse_comma
  eval_text low text c =
      next (lift (Lexer_new text) c)
        λ lex c'. parse_comma low.vars (suc (suc (length text))) true lex c'

  -- the value of a whole text
  unfoldable pub all_read : ℕ × Lexer → C → Outcome C ℕ
  all_read (v, lex) c =
      if is_eof lex.cur then done v c else fails (syntax_in_expression lex.src lex.tok_start) c
