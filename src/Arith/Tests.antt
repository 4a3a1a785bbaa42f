-- ===== src/Arith/Tests.antt =====
-- Runs of the evaluator of arithmetic over a small environment, and instances of its theorems.
use cherubsh.Base.{
  ℕ, ◌^◌, ◌-◌, true, false, if◌then◌else◌, ◌≡◌, refl, String, Text, List, [], ◌∷◌, Option, none,
  some, codes, text_eq, trim_text, to_string,
}
use cherubsh.Arith.{Outcome, done, fails, zero_division}
use cherubsh.Arith.Values.{Environment, Context, scalar_kind, assigned}
use cherubsh.Arith.Words.{pow_i64, wrapping_shl, wrapping_shr, wrapping_div}
use cherubsh.Arith.Number.{parse_number}
use cherubsh.Arith.Lexer.{advance, arith_rhs_expected, consume_first_char_of_double_operator}
use cherubsh.Arith.Operators.{enter_operand}
use cherubsh.Arith.Unary.{parse_power}
use cherubsh.Arith.Names.{parse_plain_value}
use cherubsh.Arith.Values.Run.{
  resolve_lvalue, store_lvalue_value, load_lvalue_value, load_ident_value,
}
use cherubsh.Arith.Grammar.{assigned_value}
use cherubsh.Arith.Values.Nesting.{eval, parse_value_recursive}

-- an environment of scalars
abbrev pub Scalars : Type 0
Scalars = List (Text × Text)

abbrev pub find_scalar : Text → Scalars → Option Text
find_scalar name [] = none
find_scalar name ((n, v) ∷ rest) = if text_eq n name then some v else find_scalar name rest

abbrev pub scalars : Environment Scalars
scalars = record {
  is_nameref = λ name s. false;
  resolve_nameref = λ name s. none;
  kind = λ name s. scalar_kind;
  get = λ name s. (find_scalar name s, s);
  get_array_indexed = λ name index s. (none, s);
  get_array_assoc = λ name key s. (none, s);
  is_readonly = λ name s. false;
  set_array_indexed = λ name index value s. s;
  set_array_assoc = λ name key value s. s;
  assign = λ name value s. assigned ((name, value) ∷ s);
  assoc_expand_once = λ s. false;
}

abbrev pub unexpanded : Text → Context Scalars → Outcome (Context Scalars) Text
unexpanded text c = done text c

abbrev pub context : Scalars → Context Scalars
context s = record {
  env = s;
  arith_expand_subscripts = true;
  arith_depth = 0;
  eval_unbound_error = false;
  value_depth = 0;
}

abbrev run : String → Scalars → Outcome (Context Scalars) ℕ
run expr s = eval scalars unexpanded 4 (codes expr) (context s)

precedence : run "1 + 2 * 3 ** 2 - -4" [] ≡ done 23 (context [])
unfolding eval trim_text advance parse_number parse_power resolve_lvalue store_lvalue_value
    load_lvalue_value load_ident_value parse_plain_value to_string enter_operand arith_rhs_expected
    pow_i64 consume_first_char_of_double_operator wrapping_shl wrapping_div parse_value_recursive
    assigned_value
precedence = refl

assignment :
    run "x = 5, x++ + ++x" []
    ≡ done 12
        (context ((codes "x", codes "7") ∷ (codes "x", codes "6") ∷ (codes "x", codes "5") ∷ []))
unfolding eval trim_text advance parse_number parse_power resolve_lvalue store_lvalue_value
    load_lvalue_value load_ident_value parse_plain_value to_string enter_operand arith_rhs_expected
    pow_i64 consume_first_char_of_double_operator wrapping_shl wrapping_div parse_value_recursive
    assigned_value
assignment = refl

through_values :
    run "y + 1" ((codes "y", codes "x") ∷ (codes "x", codes "2 * 3") ∷ [])
    ≡ done 7 (context ((codes "y", codes "x") ∷ (codes "x", codes "2 * 3") ∷ []))
unfolding eval trim_text advance parse_number parse_power resolve_lvalue store_lvalue_value
    load_lvalue_value load_ident_value parse_plain_value to_string enter_operand arith_rhs_expected
    pow_i64 consume_first_char_of_double_operator wrapping_shl wrapping_div parse_value_recursive
    assigned_value
through_values = refl

skipped : run "0 && (x = 1 / 0)" [] ≡ done 0 (context [])
unfolding eval trim_text advance parse_number parse_power resolve_lvalue store_lvalue_value
    load_lvalue_value load_ident_value parse_plain_value to_string enter_operand arith_rhs_expected
    pow_i64 consume_first_char_of_double_operator wrapping_shl wrapping_div parse_value_recursive
    assigned_value
skipped = refl

skipped_division : run "0 && (x /= 2)" [] ≡ fails zero_division (context [])
unfolding eval trim_text advance parse_number parse_power resolve_lvalue store_lvalue_value
    load_lvalue_value load_ident_value parse_plain_value to_string enter_operand arith_rhs_expected
    pow_i64 consume_first_char_of_double_operator wrapping_shl wrapping_div parse_value_recursive
    assigned_value
skipped_division = refl

trailing_value :
    run "x" ((codes "x", codes "1 2") ∷ []) ≡ done 1 (context ((codes "x", codes "1 2") ∷ []))
unfolding eval trim_text advance parse_number parse_power resolve_lvalue store_lvalue_value
    load_lvalue_value load_ident_value parse_plain_value to_string enter_operand arith_rhs_expected
    pow_i64 consume_first_char_of_double_operator wrapping_shl wrapping_div parse_value_recursive
    assigned_value
trailing_value = refl

ternary : run "1 ? 0x10 : 010 << 2" [] ≡ done 16 (context [])
unfolding eval trim_text advance parse_number parse_power resolve_lvalue store_lvalue_value
    load_lvalue_value load_ident_value parse_plain_value to_string enter_operand arith_rhs_expected
    pow_i64 consume_first_char_of_double_operator wrapping_shl wrapping_div parse_value_recursive
    assigned_value
ternary = refl

smallest_by_minus_one : wrapping_div (2 ^ 63) (2 ^ 64 - 1) ≡ 2 ^ 63
unfolding wrapping_div
smallest_by_minus_one = refl

three_to_the_fifth : pow_i64 3 5 ≡ 243
unfolding pow_i64
three_to_the_fifth = refl

arithmetic_shift : wrapping_shr (2 ^ 64 - 8) 1 ≡ 2 ^ 64 - 4
unfolding wrapping_shr
arithmetic_shift = refl
