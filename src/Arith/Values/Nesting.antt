-- ===== src/Arith/Values/Nesting.antt =====
-- Values that are expressions, and the entry points (crates/expander/src/arith.rs
-- `parse_value_recursive`, `eval_inner`, `eval`, `eval_preexpanded`, `prefix_postfix_lvalue_error`).
use cherubsh.Base.{
  ℕ, zero, suc, ◌-◌, Bool, true, false, ◌&&◌, ◌||◌, leb, ltb, if◌then◌else◌, Text, length, Option,
  none, some, trim_text, codes, starts_with, drop_while, is_whitespace, text_eq, drop, take,
}
use cherubsh.Arith.{
  ArithError, Outcome, done, fails, out_of_fuel, next, recursion, requires_lvalue,
  syntax_in_expression, recursion_level, assignment_to_non_variable,
}
use cherubsh.Arith.Lexer.{Lexer, Tok, plus_plus, minus_minus, is_eof}
use cherubsh.Arith.Eval.{Variables}
use cherubsh.Arith.Grammar.{assignment_opcode}
use cherubsh.Arith.Names.{
  is_array_ref, parse_integer, parse_plain_value, is_arith_identifier, ends_with,
}
use cherubsh.Arith.Values.{
  Environment, Context, max_arith_nesting, Nested, set_env, set_depth, set_value_depth, finally,
  with_expand, blank, is_name_like, eval_text,
}
use cherubsh.Arith.Values.Run.{
  finish_loaded_value, resolve_lvalue, load_lvalue_value, store_lvalue_value, load_ident_value,
}

abbrev pub trim_start : Text → Text
trim_start s = drop_while is_whitespace s

abbrev pub nowhere : {C A : Type 0} → C → Outcome C A
nowhere c = out_of_fuel

-- the error for `--x++` and `++x--`
unfoldable pub prefix_postfix_lvalue_error : Text → Option ArithError
prefix_postfix_lvalue_error expr =
    let trimmed = trim_text expr in
    let crossed =
      starts_with trimmed (codes "--") && ends_with trimmed (codes "++")
      || starts_with trimmed (codes "++") && ends_with trimmed (codes "--") in
    if crossed && is_arith_identifier (take (length trimmed - 2 - 2) (drop 2 trimmed))
    then some (requires_lvalue trimmed)
    else none

abbrev pub is_inc_dec : Tok → Bool
is_inc_dec plus_plus = true
is_inc_dec minus_minus = true
is_inc_dec _ = false

abbrev pub is_assignment : Tok → Bool
is_assignment tok = elim (assignment_opcode tok) [ none ↦ false | some _ ↦ true ]

-- what is wrong where the expression does not end
unfoldable pub trailing_error : Text → Lexer → ArithError
trailing_error expr lex =
    if is_inc_dec lex.cur
      && (starts_with (trim_start expr) (codes "--") || starts_with (trim_start expr) (codes "++"))
    then requires_lvalue expr
    else if is_assignment lex.cur
    then assignment_to_non_variable lex.src lex.tok_start
    else syntax_in_expression lex.src lex.tok_start

unfoldable pub whole : {C : Type 0} → Text → ℕ × Lexer → C → Outcome C ℕ
unfolding trailing_error
whole expr (v, lex) c = if is_eof lex.cur then done v c else fails (trailing_error expr lex) c

module _ {S : Type 0} (environment : Environment S)
    (expand : Text → Context S → Outcome (Context S) Text) where
  unfoldable pub named_value :
      Nested (Context S) → Text → ℕ → Context S → Option Text × S → Outcome (Context S) ℕ
  unfolding finish_loaded_value
  named_value low s depth c (none, env) = done 0 (set_env c env)
  named_value low s depth c (some v, env) =
      if text_eq (trim_text v) (trim_text s)
      then fails (recursion_level (trim_text s)) (set_env c env)
      else if text_eq v s
      then done 0 (set_env c env)
      else finish_loaded_value environment expand low v (suc depth) (parse_plain_value v)
          (set_env c env)

  unfoldable pub expression_value : Nested (Context S) → Text → Context S → Outcome (Context S) ℕ
  unfolding eval_text
  expression_value low s c = next (eval_text low (trim_start s) c) λ (v, lex) c'. done v c'

  unfoldable pub value_at :
      Nested (Context S) → Text → ℕ → Option ℕ → Context S → Outcome (Context S) ℕ
  unfolding named_value expression_value load_lvalue_value resolve_lvalue
  value_at low s depth (some n) c = done n c
  value_at low s depth none c =
      if is_array_ref (trim_text s)
      then next (resolve_lvalue environment expand low (trim_text s) c)
          (λ lvalue c'. load_lvalue_value environment expand low lvalue c')
      else if is_name_like (trim_text s)
      then named_value low s depth c (environment.get (trim_text s) c.env)
      else with_expand true (expression_value low s) c

  unfoldable pub parse_value_recursive :
      Nested (Context S) → Text → ℕ → Context S → Outcome (Context S) ℕ
  unfolding value_at
  parse_value_recursive low s depth c =
      if ltb max_arith_nesting depth || leb max_arith_nesting c.value_depth
      then fails (recursion_level (trim_text s)) c
      else finally (λ c'. set_value_depth (c'.value_depth - 1) c')
          (value_at low s depth (parse_integer (trim_text s))
            (set_value_depth (suc c.value_depth) c))

  -- the operations on variables where nested texts are evaluated by `low`
  abbrev pub variables : Nested (Context S) → Variables (Context S)
  variables low = record {
    resolve = resolve_lvalue environment expand low;
    load = load_lvalue_value environment expand low;
    store = store_lvalue_value environment expand;
    load_ident = load_ident_value environment expand low;
  }

  abbrev pub exhausted : Nested (Context S)
  exhausted = record {
    vars = record {
      resolve = λ name c. nowhere c;
      load = λ lvalue c. nowhere c;
      store = λ lvalue v c. nowhere c;
      load_ident = λ name c. nowhere c;
    };
    value = λ s depth c. nowhere c;
  }

  -- `n` levels of texts inside texts
  unfoldable pub nested : ℕ → Nested (Context S)
  nested zero = exhausted
  nested (suc n) = record { vars = variables (nested n); value = parse_value_recursive (nested n) }

  unfoldable pub eval_checked : ℕ → Text → Option ArithError → Context S → Outcome (Context S) ℕ
  unfolding eval_text nested whole
  eval_checked n expr (some e) c = fails e c
  eval_checked n expr none c =
      if ltb max_arith_nesting (suc c.arith_depth)
      then fails recursion c
      else finally (λ c'. set_depth (c'.arith_depth - 1) c')
          (next (eval_text (nested n) expr (set_depth (suc c.arith_depth) c)) (whole expr))

  -- `eval_inner`, which is `eval`
  unfoldable pub eval : ℕ → Text → Context S → Outcome (Context S) ℕ
  unfolding eval_checked prefix_postfix_lvalue_error
  eval n expr c =
      if blank expr then done 0 c else eval_checked n expr (prefix_postfix_lvalue_error expr) c

  unfoldable pub eval_preexpanded : ℕ → Text → Context S → Outcome (Context S) ℕ
  unfolding eval
  eval_preexpanded n expr c = with_expand false (eval n expr) c
