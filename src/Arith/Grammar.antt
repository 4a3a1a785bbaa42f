-- ===== src/Arith/Grammar.antt =====
-- The levels of the grammar above `||`, and the grammar as a whole (crates/expander/src/arith.rs
-- `parse_comma`, `parse_assign`, `assigned_value`, `parse_ternary`). Each function takes its own fuel,
-- and the expression in parentheses or between `?` and `:` is read with one unit less.
use cherubsh.Base.{
  ℕ, zero, suc, Bool, true, false, ◌&&◌, not, ◌==◌, if◌then◌else◌, Text, Option, none, some,
}
use cherubsh.Arith.{
  Res, ok, err, and_then, division_by_zero, zero_division, expression_expected, colon_expected,
}
use cherubsh.Arith.Words.{
  wrapping_add, wrapping_sub, wrapping_mul, wrapping_div, wrapping_rem, wrapping_shl, wrapping_shr,
  word_and, word_or, word_xor, pow_i64,
}
use cherubsh.Arith.Lexer.{
  Lexer, Tok, ident, eq, plus_eq, minus_eq, star_eq, slash_eq, percent_eq, star_star_eq, amp_eq,
  pipe_eq, caret_eq, shl_eq, shr_eq, question, colon, comma, advance, is_eof,
}
use cherubsh.Arith.Operators.{
  binary_level, logor_op, logand_op, bitor_op, bitxor_op, bitand_op, equality_op, relate_op,
  shift_op, add_op, mul_op,
}
use cherubsh.Arith.Unary.{parse_power}
use cherubsh.Arith.Eval.{
  Variables, Eval, ◌>>=◌, ◌>>◌, pure, stop, look, fail_if, step, access, get_lexer, when_active,
}

-- `assignment_opcode`, with a constructor for each number
pub data Opcode : Type 0 where
  set add sub mul div rem pow and or xor shift_left shift_right : Opcode

abbrev pub assignment_opcode : Tok → Option Opcode
assignment_opcode eq = some set
assignment_opcode plus_eq = some add
assignment_opcode minus_eq = some sub
assignment_opcode star_eq = some mul
assignment_opcode slash_eq = some div
assignment_opcode percent_eq = some rem
assignment_opcode star_star_eq = some pow
assignment_opcode amp_eq = some and
assignment_opcode pipe_eq = some or
assignment_opcode caret_eq = some xor
assignment_opcode shl_eq = some shift_left
assignment_opcode shr_eq = some shift_right
assignment_opcode _ = none

abbrev pub divides : Opcode → Bool
divides div = true
divides rem = true
divides _ = false

abbrev pub is_set : Opcode → Bool
is_set set = true
is_set _ = false

unfoldable pub assigned_value : Opcode → ℕ → ℕ → Res ℕ
assigned_value set lhs rhs = ok rhs
assigned_value add lhs rhs = ok (wrapping_add lhs rhs)
assigned_value sub lhs rhs = ok (wrapping_sub lhs rhs)
assigned_value mul lhs rhs = ok (wrapping_mul lhs rhs)
assigned_value div lhs rhs = if rhs == 0 then err (zero_division) else ok (wrapping_div lhs rhs)
assigned_value rem lhs rhs = if rhs == 0 then err (zero_division) else ok (wrapping_rem lhs rhs)
assigned_value pow lhs rhs = ok (pow_i64 lhs rhs)
assigned_value and lhs rhs = ok (word_and lhs rhs)
assigned_value or lhs rhs = ok (word_or lhs rhs)
assigned_value xor lhs rhs = ok (word_xor lhs rhs)
assigned_value shift_left lhs rhs = ok (wrapping_shl lhs rhs)
assigned_value shift_right lhs rhs = ok (wrapping_shr lhs rhs)

abbrev pub is_question : Tok → Bool
is_question question = true
is_question _ = false

abbrev pub is_colon : Tok → Bool
is_colon colon = true
is_colon _ = false

abbrev pub is_comma : Tok → Bool
is_comma comma = true
is_comma _ = false

abbrev pub named_opcode : Text → Option Opcode → Option (Text × Opcode)
named_opcode name none = none
named_opcode name (some op) = some (name, op)

-- the operator behind a name, if it assigns
unfoldable pub assigns : Lexer → Tok → Res (Option (Text × Opcode))
assigns lex (ident name) =
    and_then (advance lex) λ lookahead. ok (named_opcode name (assignment_opcode lookahead.cur))
assigns lex _ = ok none

unfoldable pub check_divisor : Bool → Opcode → ℕ → ℕ → Lexer → Res (Unit {0})
check_divisor active op rhs rhs_start lex =
    if active && divides op && rhs == 0 then err (division_by_zero lex.src rhs_start) else ok tt

module _ {C : Type 0} (vars : Variables C) where
  -- from `||` down to the operands
  unfoldable pub parse_logor : ℕ → (Bool → Eval C ℕ) → Bool → Eval C ℕ
  unfolding binary_level
  parse_logor n paren =
      binary_level logor_op
        (binary_level logand_op
          (binary_level bitor_op
            (binary_level bitxor_op
              (binary_level bitand_op
                (binary_level equality_op
                  (binary_level relate_op
                    (binary_level shift_op
                      (binary_level add_op (binary_level mul_op (parse_power vars n paren) n) n) n)
                    n)
                  n)
                n)
              n)
            n)
          n)
        n

  unfoldable pub else_branch : (Bool → Eval C ℕ) → Bool → ℕ → ℕ → Eval C ℕ
  else_branch again active cond t = do
    f ← again (active && cond == 0)
    pure (when_active active (if cond == 0 then f else t))

  unfoldable pub then_branch : (Bool → Eval C ℕ) → (Bool → Eval C ℕ) → Bool → ℕ → Eval C ℕ
  unfolding else_branch
  then_branch paren again active cond = do
    step
    start ← get_lexer
    fail_if (is_colon start.cur) (expression_expected start.src start.tok_start)
    t ← paren (active && not (cond == 0))
    at_colon ← get_lexer
    fail_if (not (is_colon at_colon.cur)) (colon_expected at_colon.src start.tok_start)
    step
    rhs ← get_lexer
    fail_if (is_eof rhs.cur) (expression_expected rhs.src at_colon.tok_start)
    else_branch again active cond t

  unfoldable pub parse_ternary : ℕ → (Bool → Eval C ℕ) → Bool → Eval C ℕ
  unfolding parse_logor then_branch
  parse_ternary zero paren active = stop
  parse_ternary (suc n) paren active = do
    cond ← parse_logor (suc n) paren active
    lex ← get_lexer
    if is_question lex.cur
        then then_branch paren (λ active'. parse_ternary n paren active') active cond
        else pure (when_active active cond)

  -- `=` does not read the name, and resolves it after the right side is evaluated.
  unfoldable pub assign_set : Eval C ℕ → Text → Eval C ℕ
  assign_set again name = do
    rhs ← again
    lvalue ← access (vars.resolve name)
    access (vars.store lvalue rhs)
    pure rhs

  unfoldable pub assign_op : Eval C ℕ → Text → Opcode → Eval C ℕ
  unfolding check_divisor
  assign_op again name op = do
    lvalue ← access (vars.resolve name)
    lhs ← access (vars.load lvalue)
    start ← get_lexer
    rhs ← again
    look (check_divisor true op rhs start.tok_start)
    v ← look λ lex. assigned_value op lhs rhs
    access (vars.store lvalue v)
    pure v

  unfoldable pub assign_inactive : Eval C ℕ → Opcode → Eval C ℕ
  unfolding check_divisor
  assign_inactive again op = do
    start ← get_lexer
    rhs ← again
    look (check_divisor false op rhs start.tok_start)
    v ← look λ lex. assigned_value op 0 rhs
    pure 0

  unfoldable pub assign_value : (Bool → Eval C ℕ) → Bool → Text → Opcode → Eval C ℕ
  unfolding assign_set assign_op assign_inactive
  assign_value again true name op =
      if is_set op then assign_set (again true) name else assign_op (again true) name op
  assign_value again false name op = assign_inactive (again false) op

  unfoldable pub assign_at :
      (Bool → Eval C ℕ) → (Bool → Eval C ℕ) → Bool → Option (Text × Opcode) → Eval C ℕ
  unfolding assign_value
  assign_at ternary again active none = do v ← ternary active; pure (when_active active v)
  assign_at ternary again active (some (name, op)) = do
    step
    step
    assign_value again active name op

  unfoldable pub parse_assign : ℕ → (Bool → Eval C ℕ) → Bool → Eval C ℕ
  unfolding assign_at parse_ternary assigns
  parse_assign zero paren active = stop
  parse_assign (suc n) paren active = do
    target ← look λ lex. assigns lex lex.cur
    assign_at (parse_ternary (suc n) paren) (λ active'. parse_assign n paren active') active target

  unfoldable pub comma_loop : ℕ → (Bool → Eval C ℕ) → Bool → ℕ → Eval C ℕ
  comma_loop zero assign active v = stop
  comma_loop (suc n) assign active v = do
    lex ← get_lexer
    if is_comma lex.cur then (do step; w ← assign active; comma_loop n assign active w) else pure v

  unfoldable pub comma_level : ℕ → (Bool → Eval C ℕ) → Bool → Eval C ℕ
  unfolding comma_loop parse_assign
  comma_level n paren active = do
    first ← parse_assign n paren active
    v ← comma_loop n (parse_assign n paren) active first
    pure (when_active active v)

  unfoldable pub parse_comma : ℕ → Bool → Eval C ℕ
  unfolding comma_level
  parse_comma zero active = stop
  parse_comma (suc n) active = comma_level (suc n) (λ active'. parse_comma n active') active
