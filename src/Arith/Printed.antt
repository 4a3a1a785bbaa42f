-- ===== src/Arith/Printed.antt =====
-- Expressions as they are printed, with the parentheses that the precedence of the operators asks for,
-- and what they mean.
use cherubsh.Base.{
  ℕ, suc, ◌%◌, ◌^◌, max, Bool, true, false, leb, ◌&&◌, ◌||◌, not, ◌==◌, ◌≡◌, refl, ap, Text, [],
  ◌∷◌, ◌++◌, codes, to_string, some, arith,
}
use cherubsh.Arith.{ok}
use cherubsh.Arith.Words.{
  wrapping_neg, word_not, wrapping_add, wrapping_sub, wrapping_mul, wrapping_shl, wrapping_shr,
  word_and, word_or, word_xor, word_lt, word_le, of_bool,
}
use cherubsh.Arith.Lexer.{
  Lexer, Tok, plus, minus, star, shl, shr, less, le, greater, ge, eq_eq, bang_eq, amp, caret, pipe,
  amp_amp, pipe_pipe, tilde, bang, advance,
}
use cherubsh.Arith.Eval.{when_active}
use cherubsh.Arith.Operators.{Operator, always, total, simple, enter_operand}
use cherubsh.Arith.Levels.{table, no_operator}

pub data BinOp : Type 0 where
  times plus_op minus_op shift_left shift_right : BinOp
  less_than at_most greater_than at_least equal unequal : BinOp
  bit_and bit_xor bit_or both either : BinOp

pub data UnOp : Type 0 where
  keep negate invert deny : UnOp

pub data Expr : Type 0 where
  const : ℕ → Expr
  unary : UnOp → Expr → Expr
  binary : BinOp → Expr → Expr → Expr

abbrev pub op_text : BinOp → Text
op_text times = codes "*"
op_text plus_op = codes "+"
op_text minus_op = codes "-"
op_text shift_left = codes "<<"
op_text shift_right = codes ">>"
op_text less_than = codes "<"
op_text at_most = codes "<="
op_text greater_than = codes ">"
op_text at_least = codes ">="
op_text equal = codes "=="
op_text unequal = codes "!="
op_text bit_and = codes "&"
op_text bit_xor = codes "^"
op_text bit_or = codes "|"
op_text both = codes "&&"
op_text either = codes "||"

abbrev pub op_token : BinOp → Tok
op_token times = star
op_token plus_op = plus
op_token minus_op = minus
op_token shift_left = shl
op_token shift_right = shr
op_token less_than = less
op_token at_most = le
op_token greater_than = greater
op_token at_least = ge
op_token equal = eq_eq
op_token unequal = bang_eq
op_token bit_and = amp
op_token bit_xor = caret
op_token bit_or = pipe
op_token both = amp_amp
op_token either = pipe_pipe

abbrev pub un_text : UnOp → Text
un_text keep = codes "+"
un_text negate = codes "-"
un_text invert = codes "~"
un_text deny = codes "!"

abbrev pub un_token : UnOp → Tok
un_token keep = plus
un_token negate = minus
un_token invert = tilde
un_token deny = bang

unfoldable pub un_value : UnOp → ℕ → ℕ
un_value keep v = v
un_value negate v = wrapping_neg v
un_value invert v = word_not v
un_value deny v = of_bool (v == 0)

-- the value of an operation on words
unfoldable pub op_value : BinOp → ℕ → ℕ → ℕ
op_value times v r = wrapping_mul v r
op_value plus_op v r = wrapping_add v r
op_value minus_op v r = wrapping_sub v r
op_value shift_left v r = wrapping_shl v r
op_value shift_right v r = wrapping_shr v r
op_value less_than v r = of_bool (word_lt v r)
op_value at_most v r = of_bool (word_le v r)
op_value greater_than v r = of_bool (word_lt r v)
op_value at_least v r = of_bool (word_le r v)
op_value equal v r = of_bool (v == r)
op_value unequal v r = of_bool (not (v == r))
op_value bit_and v r = word_and v r
op_value bit_xor v r = word_xor v r
op_value bit_or v r = word_or v r
op_value both v r = of_bool (not (v == 0) && not (r == 0))
op_value either v r = of_bool (not (v == 0) || not (r == 0))

unfoldable pub denote : Expr → ℕ
unfolding op_value un_value
denote (const n) = n % 2 ^ 64
denote (unary op a) = un_value op (denote a)
denote (binary op a b) = op_value op (denote a) (denote b)

-- The precedence of the operators, from the tightest on; an operand of an operation has a lower level.
abbrev pub op_level : BinOp → ℕ
op_level times = 0
op_level plus_op = 1
op_level minus_op = 1
op_level shift_left = 2
op_level shift_right = 2
op_level less_than = 3
op_level at_most = 3
op_level greater_than = 3
op_level at_least = 3
op_level equal = 4
op_level unequal = 4
op_level bit_and = 5
op_level bit_xor = 6
op_level bit_or = 7
op_level both = 8
op_level either = 9

-- a text in parentheses where they are needed, in front of `rest`
abbrev pub enclose : Bool → (Text → Text) → Text → Text
enclose true body rest = b'(' ∷ body (b')' ∷ rest)
enclose false body rest = body rest

-- An expression where the levels below `i` are read, in front of `rest`: an operation has parentheses
-- only where its operator is of the level `i` or above. A sign and its operand always have them.
unfoldable pub print_at : ℕ → Expr → Text → Text
print_at i (const n) rest = to_string n ++ rest
print_at i (unary op a) rest = b'(' ∷ un_text op ++ 32 ∷ print_at 0 a (b')' ∷ rest)
print_at i (binary op a b) rest =
    enclose (leb i (op_level op))
      (λ r. print_at (op_level op) a (32 ∷ op_text op ++ 32 ∷ print_at (op_level op) b r)) rest

unfoldable pub print : Expr → Text
unfolding print_at
print e = print_at 10 e []

-- the depth of operations, which the depth of parentheses does not exceed
abbrev pub depth : Expr → ℕ
depth (const n) = 0
depth (unary op a) = suc (depth a)
depth (binary op a b) = suc (max (depth a) (depth b))

-- what the proof needs of the arm of an operator
pub record ArmOf (op : BinOp) (arm : Operator) : Type 0 where
  pub found : table (op_level op) (op_token op) ≡ some arm
  pub enters :
      (lex lex' : Lexer)
      → advance lex ≡ ok lex'
      → enter_operand lex ≡ ok lex'
      → arm.enter lex ≡ ok lex'
  pub value :
      (src : Text) (place v r : ℕ)
      → arm.value src place v (when_active (arm.rhs_active v) r) ≡ ok (op_value op v r)
  pub below : no_operator 0 (op_level op) (op_token op) ≡ true

simple_arm :
    (op : BinOp) (f : ℕ → ℕ → ℕ)
    → table (op_level op) (op_token op) ≡ some (simple f)
    → ((v r : ℕ) → f v r ≡ op_value op v r)
    → no_operator 0 (op_level op) (op_token op) ≡ true
    → ArmOf op (simple f)
simple_arm op f e h below = record {
  found = e;
  enters = λ lex lex' a o. a;
  value = λ src place v r. ap ok (h v r);
  below = below;
}

operand_arm :
    (op : BinOp) (f : ℕ → ℕ → ℕ)
    → table (op_level op) (op_token op)
      ≡ some record { enter = enter_operand; rhs_active = always; value = total f }
    → ((v r : ℕ) → f v r ≡ op_value op v r)
    → no_operator 0 (op_level op) (op_token op) ≡ true
    → ArmOf op record { enter = enter_operand; rhs_active = always; value = total f }
operand_arm op f e h below = record {
  found = e;
  enters = λ lex lex' a o. o;
  value = λ src place v r. ap ok (h v r);
  below = below;
}

pub arm_of : (op : BinOp) → (arm : Operator) × ArmOf op arm
unfolding op_value
arm_of times = (_, operand_arm times wrapping_mul refl (λ v r. refl) refl)
arm_of plus_op = (_, operand_arm plus_op wrapping_add refl (λ v r. refl) refl)
arm_of minus_op = (_, operand_arm minus_op wrapping_sub refl (λ v r. refl) refl)
arm_of shift_left = (_, simple_arm shift_left wrapping_shl refl (λ v r. refl) refl)
arm_of shift_right = (_, simple_arm shift_right wrapping_shr refl (λ v r. refl) refl)
arm_of less_than = (_, simple_arm less_than (λ v r. of_bool (word_lt v r)) refl (λ v r. refl) refl)
arm_of at_most = (_, simple_arm at_most (λ v r. of_bool (word_le v r)) refl (λ v r. refl) refl)
arm_of greater_than =
    (_, simple_arm greater_than (λ v r. of_bool (word_lt r v)) refl (λ v r. refl) refl)
arm_of at_least = (_, simple_arm at_least (λ v r. of_bool (word_le r v)) refl (λ v r. refl) refl)
arm_of equal = (_, simple_arm equal (λ v r. of_bool (v == r)) refl (λ v r. refl) refl)
arm_of unequal = (_, simple_arm unequal (λ v r. of_bool (not (v == r))) refl (λ v r. refl) refl)
arm_of bit_and = (_, simple_arm bit_and word_and refl (λ v r. refl) refl)
arm_of bit_xor = (_, simple_arm bit_xor word_xor refl (λ v r. refl) refl)
arm_of bit_or = (_, simple_arm bit_or word_or refl (λ v r. refl) refl)
arm_of both = (
  _,
  record {
    found = refl;
    enters = λ lex lex' a o. a;
    value = λ src place v r. ap ok (ground arith);
    below = refl;
  },
)
arm_of either = (
  _,
  record {
    found = refl;
    enters = λ lex lex' a o. a;
    value = λ src place v r. ap ok (ground arith);
    below = refl;
  },
)
