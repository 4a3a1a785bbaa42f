-- ===== src/Arith/Examples.antt =====
-- Instances of the theorems about arithmetic.
use cherubsh.Base.{to_string, ℕ, ◌%◌, ◌^◌, false, if◌then◌else◌, ◌≡◌, refl, Text, [], codes, arith}
use cherubsh.Arith.{done, Post, ok}
use cherubsh.Arith.Words.{is_neg, pow_i64, power}
use cherubsh.Arith.Products.{pow_i64-power}
use cherubsh.Arith.Errors.{Static}
use cherubsh.Arith.Lexer.{Lexer, token, ident, slash_eq, advance}
use cherubsh.Arith.Lexing.{IsLexer}
use cherubsh.Arith.Eval.{Variables, scalar}
use cherubsh.Arith.Grammar.{parse_comma, parse_assign, div}
use cherubsh.Arith.Sound.Runs.{parse_comma-skips}
use cherubsh.Arith.Sound.Skipped.{skipped_division-fails}
use cherubsh.Arith.Values.Nesting.{eval}
use cherubsh.Arith.Values.Keeps.{KeepsContext}
use cherubsh.Arith.Values.Evals.{eval-restores}
use cherubsh.Arith.Printed.{
  Expr, const, unary, invert, binary, times, less_than, plus_op, minus_op, equal, both, print,
  denote,
}
use cherubsh.Arith.Refines.{eval-print}
use cherubsh.Arith.Tests.{scalars, unexpanded, context}

-- one variable, the context itself
abbrev cell : Variables ℕ
cell = record {
  resolve = λ name c. done (scalar name) c;
  load = λ lvalue c. done c c;
  store = λ lvalue v c. done tt v;
  load_ident = λ name c. done c c;
}

abbrev division : Text
division = codes "x /= 2"

abbrev at_name : Lexer
at_name = token division 0 (ident (codes "x")) 1

at_name-IsLexer : IsLexer at_name
at_name-IsLexer = record {
  at_end = refl;
  in_order = omega arith;
  takes = λ h. omega arith;
  inside = λ h. omega arith;
  takes_two = λ h. cc;
}

parse_comma-skips_example :
    Post
      (λ (v, lex') c'. (v ≡ 0) × (c' ≡ 5))
      (λ e c'. Static e × (c' ≡ 5))
      ⊥
      (parse_comma cell 9 false at_name 5)
parse_comma-skips_example = parse_comma-skips cell 9 at_name 5 at_name-IsLexer (omega arith)

advance_example : advance at_name ≡ ok (token division 2 slash_eq 4)
unfolding advance
advance_example = refl

skipped_division-fails_example :
    Post
      (λ v c'. ⊥)
      (λ e c'. Static e × (c' ≡ 5))
      ⊥
      (parse_assign cell 10 (λ active. parse_comma cell 9 active) false at_name 5)
skipped_division-fails_example =
    skipped_division-fails cell 9 at_name (token division 2 slash_eq 4) (codes "x") div 5
      at_name-IsLexer (omega arith) refl advance_example refl refl

eval-restores_example :
    KeepsContext (context []) (eval scalars unexpanded 3 (codes "1 + x ** 2") (context []))
eval-restores_example =
    eval-restores scalars unexpanded
      (λ text c. record {
        same_expand = refl;
        same_depth = refl;
        same_unbound = refl;
        same_value_depth = refl;
      })
      3 (codes "1 + x ** 2") (context [])

-- 1 + 6 * (~ (1 < 2)) == 4 - (2 - 1) && 7
abbrev mixed : Expr
mixed =
    binary both
      (binary equal
        (binary plus_op (const 1)
          (binary times (const 6) (unary invert (binary less_than (const 1) (const 2)))))
        (binary minus_op (const 4) (binary minus_op (const 2) (const 1))))
      (const 7)

mixed_text : print mixed ≡ codes "1 + 6 * (~ (1 < 2)) == 4 - (2 - 1) && 7"
unfolding print to_string
mixed_text = refl

eval-print_example :
    eval scalars unexpanded 0 (print mixed) (context []) ≡ done (denote mixed) (context [])
eval-print_example = eval-print scalars unexpanded 0 mixed (context []) (omega arith)

pow_i64-power_example : pow_i64 3 5 ≡ (if is_neg 5 then 0 else power 3 5 % 2 ^ 64)
pow_i64-power_example = pow_i64-power 3 5
