-- ===== src/Arith/Operators.antt =====
-- The levels of the grammar that are loops over operators of one precedence, from `||` to `*`
-- (crates/expander/src/arith.rs `parse_logor` to `parse_mul`).
use cherubsh.Base.{
  ℕ, zero, suc, Bool, true, false, ◌&&◌, ◌||◌, not, ◌==◌, if◌then◌else◌, Text, length, Option, none,
  some, starts_with, codes, drop_while, is_whitespace,
}
use cherubsh.Arith.{Res, ok, err, and_then, division_by_zero, requires_lvalue}
use cherubsh.Arith.Words.{
  wrapping_add, wrapping_sub, wrapping_mul, wrapping_div, wrapping_rem, wrapping_shl, wrapping_shr,
  word_and, word_or, word_xor, word_lt, word_le, of_bool,
}
use cherubsh.Arith.Lexer.{
  Lexer, Tok, plus, minus, star, slash, percent, amp_amp, pipe_pipe, amp, pipe, caret, eq_eq,
  bang_eq, less, le, greater, ge, shl, shr, plus_plus, minus_minus, advance,
  consume_first_char_of_double_operator, arith_rhs_expected,
}
use cherubsh.Arith.Eval.{Eval, ◌>>=◌, ◌>>◌, pure, stop, go, look, get_lexer, at_cursor, when_active}

-- One arm of a loop: how the lexer gets to the right operand, for which left operand that is
-- evaluated, and the value, given the source and the place of the right operand.
pub record Operator : Type 0 where
  pub enter : Lexer → Res Lexer
  pub rhs_active : ℕ → Bool
  pub value : Text → ℕ → ℕ → ℕ → Res ℕ

abbrev pub always : ℕ → Bool
always v = true

abbrev pub total : (ℕ → ℕ → ℕ) → Text → ℕ → ℕ → ℕ → Res ℕ
total f src place v r = ok (f v r)

abbrev pub simple : (ℕ → ℕ → ℕ) → Operator
simple f = record { enter = advance; rhs_active = always; value = total f }

-- `+` and its like need a right operand.
unfoldable pub enter_operand : Lexer → Res Lexer
enter_operand lex =
    and_then (advance lex) λ lex'. and_then (arith_rhs_expected lex' lex.tok_start) λ _. ok lex'

-- `+=` to the end of an expression that starts with `--`
unfoldable pub enter_plus_plus : Lexer → Res Lexer
enter_plus_plus lex =
    if lex.tok_end == length lex.src && starts_with (drop_while is_whitespace lex.src) (codes "--")
    then err (requires_lvalue lex.src)
    else consume_first_char_of_double_operator lex

unfoldable pub nonzero : (ℕ → ℕ → ℕ) → Text → ℕ → ℕ → ℕ → Res ℕ
nonzero f src place v r = if r == 0 then err (division_by_zero src place) else ok (f v r)

abbrev pub logor_op : Tok → Option Operator
logor_op pipe_pipe = some record {
  enter = advance;
  rhs_active = (λ v. v == 0);
  value = total (λ v r. of_bool (not (v == 0) || not (r == 0)));
}
logor_op _ = none

abbrev pub logand_op : Tok → Option Operator
logand_op amp_amp = some record {
  enter = advance;
  rhs_active = (λ v. not (v == 0));
  value = total (λ v r. of_bool (not (v == 0) && not (r == 0)));
}
logand_op _ = none

abbrev pub bitor_op : Tok → Option Operator
bitor_op pipe = some (simple word_or)
bitor_op _ = none

abbrev pub bitxor_op : Tok → Option Operator
bitxor_op caret = some (simple word_xor)
bitxor_op _ = none

abbrev pub bitand_op : Tok → Option Operator
bitand_op amp = some (simple word_and)
bitand_op _ = none

abbrev pub equality_op : Tok → Option Operator
equality_op eq_eq = some (simple λ v r. of_bool (v == r))
equality_op bang_eq = some (simple λ v r. of_bool (not (v == r)))
equality_op _ = none

abbrev pub relate_op : Tok → Option Operator
relate_op less = some (simple λ v r. of_bool (word_lt v r))
relate_op le = some (simple λ v r. of_bool (word_le v r))
relate_op greater = some (simple λ v r. of_bool (word_lt r v))
relate_op ge = some (simple λ v r. of_bool (word_le r v))
relate_op _ = none

abbrev pub shift_op : Tok → Option Operator
shift_op shl = some (simple wrapping_shl)
shift_op shr = some (simple wrapping_shr)
shift_op _ = none

abbrev pub add_op : Tok → Option Operator
add_op plus = some record { enter = enter_operand; rhs_active = always; value = total wrapping_add }
add_op plus_plus =
    some record { enter = enter_plus_plus; rhs_active = always; value = total wrapping_add }
add_op minus =
    some record { enter = enter_operand; rhs_active = always; value = total wrapping_sub }
add_op minus_minus = some record {
  enter = consume_first_char_of_double_operator;
  rhs_active = always;
  value = total wrapping_sub;
}
add_op _ = none

abbrev pub mul_op : Tok → Option Operator
mul_op star = some record { enter = enter_operand; rhs_active = always; value = total wrapping_mul }
mul_op slash =
    some record { enter = enter_operand; rhs_active = always; value = nonzero wrapping_div }
mul_op percent =
    some record { enter = enter_operand; rhs_active = always; value = nonzero wrapping_rem }
mul_op _ = none

-- The value is computed only where the evaluation is active.
unfoldable pub combine : Operator → Bool → Text → ℕ → ℕ → ℕ → Res ℕ
combine op true src place v r = op.value src place v r
combine op false src place v r = ok v

module _ {C : Type 0} where
  unfoldable pub binary_arm :
      (Bool → Eval C ℕ) → (ℕ → Eval C ℕ) → Bool → ℕ → Option Operator → Eval C ℕ
  unfolding combine
  binary_arm lower again active v none = pure v
  binary_arm lower again active v (some op) = do
    go op.enter
    rhs ← get_lexer
    r ← lower (active && op.rhs_active v)
    v' ← look λ lex. combine op active lex.src rhs.tok_start v r
    again v'

  -- the loop of a level: `ops` are its arms, `lower` is the level below it
  unfoldable pub binary_loop : (Tok → Option Operator) → (Bool → Eval C ℕ) → ℕ → Bool → ℕ → Eval C ℕ
  unfolding binary_arm
  binary_loop ops lower zero active v = stop
  binary_loop ops lower (suc n) active v =
      at_cursor λ tok. binary_arm lower (λ v'. binary_loop ops lower n active v') active v (ops tok)

  unfoldable pub binary_level : (Tok → Option Operator) → (Bool → Eval C ℕ) → ℕ → Bool → Eval C ℕ
  unfolding binary_loop
  binary_level ops lower n active = do
    first ← lower active
    v ← binary_loop ops lower n active first
    pure (when_active active v)
