-- ===== src/Arith/Unary.antt =====
-- The levels of the grammar below `*` (crates/expander/src/arith.rs `parse_power`, `parse_unary`,
-- `apply_pre`, `parse_postfix`, `parse_primary`).
use cherubsh.Base.{
  ℕ, zero, suc, ◌+◌, ◌-◌, ◌^◌, Bool, true, false, ◌&&◌, not, ◌==◌, if◌then◌else◌, Text, drop,
  length, Option, none, some, starts_with, min, [], ◌∷◌,
}
use cherubsh.Arith.{
  Res, ok, err, no_fuel, and_then, exponent_negative, requires_identifier, operand_expected,
  missing_rparen,
}
use cherubsh.Arith.Words.{wrapping_add, wrapping_neg, word_not, is_neg, pow_i64, of_bool}
use cherubsh.Arith.Lexer.{
  Lexer, Tok, num, ident, plus, minus, star_star, lparen, rparen, bang, tilde, plus_plus,
  minus_minus, advance, consume_first_char_of_double_operator,
}
use cherubsh.Arith.Operators.{enter_operand}
use cherubsh.Arith.Eval.{
  Variables, Eval, ◌>>=◌, ◌>>◌, pure, raise, stop, move, go, look, skip, fail_if, step, access,
  get_lexer, at_cursor, when_active,
}

-- One step of `prefix_inc_dec_target_name`: a name, or another sign that stands directly behind the
-- one before it.
abbrev pub Target : Type 0
Target = Option Text

abbrev pub same_sign_token : Bool → Tok → Bool
same_sign_token true plus = true
same_sign_token true plus_plus = true
same_sign_token false minus = true
same_sign_token false minus_minus = true
same_sign_token _ _ = false

unfoldable pub target_step :
    (Lexer → Res (Target × Lexer)) → ℕ → Bool → Lexer → Tok → Res (Target × Lexer)
target_step again prev_end increment lex (ident name) = ok (some name, lex)
target_step again prev_end increment lex tok =
    if same_sign_token increment tok && lex.tok_start == prev_end
    then and_then (advance lex) again
    else ok (none, lex)

-- The sign is a Boolean: `true` for `++`.
unfoldable pub prefix_inc_dec_target_name : ℕ → ℕ → Bool → Lexer → Res (Target × Lexer)
unfolding target_step
prefix_inc_dec_target_name zero prev_end increment lex = no_fuel
prefix_inc_dec_target_name (suc n) prev_end increment lex =
    target_step (λ lex'. prefix_inc_dec_target_name n lex.tok_end increment lex') prev_end increment
      lex lex.cur

abbrev pub is_target : Target → Bool
is_target none = false
is_target (some _) = true

unfoldable pub prefix_inc_dec_has_target : ℕ → Bool → Lexer → Res Bool
unfolding prefix_inc_dec_target_name
prefix_inc_dec_has_target n increment lex = and_then (advance lex) λ lookahead.
    and_then (prefix_inc_dec_target_name n lex.tok_end increment lookahead)
      λ (target, _). ok (is_target target)

abbrev pub delta : Bool → ℕ
delta true = 1
delta false = 2 ^ 64 - 1

abbrev pub is_star_star : Tok → Bool
is_star_star star_star = true
is_star_star _ = false

abbrev pub is_rparen : Tok → Bool
is_rparen rparen = true
is_rparen _ = false

-- where the message of a negative exponent starts
unfoldable pub exponent_place : Text → ℕ → ℕ
exponent_place src exp_start =
    if starts_with (drop exp_start src) (b'-' ∷ []) then exp_start + 1 else exp_start

unfoldable pub raised : Bool → ℕ → ℕ → ℕ → Lexer → Res ℕ
unfolding exponent_place
raised false base exp exp_start lex = ok 0
raised true base exp exp_start lex =
    if is_neg exp
    then err (exponent_negative lex.src (exponent_place lex.src exp_start))
    else ok (pow_i64 base exp)

module _ {C : Type 0} (vars : Variables C) where
  -- A name is resolved, read and written only where the evaluation is active.
  unfoldable pub add_to : Bool → Text → ℕ → Eval C ℕ
  add_to true name d = do
    lvalue ← access (vars.resolve name)
    cur ← access (vars.load lvalue)
    access (vars.store lvalue (wrapping_add cur d))
    pure (wrapping_add cur d)
  add_to false name d = pure 0

  unfoldable pub apply_target : Bool → Bool → Target → Eval C ℕ
  unfolding add_to
  apply_target increment active (some name) = do step; add_to active name (delta increment)
  apply_target increment active none = raise requires_identifier

  unfoldable pub apply_pre : ℕ → Bool → Bool → ℕ → Eval C ℕ
  unfolding apply_target
  apply_pre n increment active prefix_end = do
    target ← move (prefix_inc_dec_target_name n prefix_end increment)
    apply_target increment active target

  -- the value in front of `++` or `--`, and where it is from
  unfoldable pub postfix_ops : (ℕ → Eval C (Unit {0})) → ℕ → Tok → Eval C ℕ
  postfix_ops write cur plus_plus = do step; write (wrapping_add cur 1); pure cur
  postfix_ops write cur minus_minus = do step; write (wrapping_add cur (2 ^ 64 - 1)); pure cur
  postfix_ops write cur _ = pure cur

  unfoldable pub postfix_name : Bool → Text → Eval C ℕ
  unfolding postfix_ops
  postfix_name true name = do
    lvalue ← access (vars.resolve name)
    cur ← access (vars.load lvalue)
    step
    lex ← get_lexer
    postfix_ops (λ v. access (vars.store lvalue v)) cur lex.cur
  postfix_name false name = do step; lex ← get_lexer; postfix_ops (λ v. skip) 0 lex.cur

  unfoldable pub ident_value : Bool → Text → Eval C ℕ
  ident_value true name = access (vars.load_ident name)
  ident_value false name = pure 0

  unfoldable pub primary_at : (Bool → Eval C ℕ) → Bool → Tok → Eval C ℕ
  unfolding ident_value
  primary_at comma active (num n) = do step; pure (when_active active n)
  primary_at comma active (ident name) = do step; ident_value active name
  primary_at comma active lparen = do
    step
    v ← comma active
    lex ← get_lexer
    fail_if (not (is_rparen lex.cur)) (missing_rparen lex.src lex.tok_start)
    step
    pure (when_active active v)
  primary_at comma active _ = do lex ← get_lexer; raise (operand_expected lex.src lex.tok_start)

  unfoldable pub postfix_at : (Bool → Eval C ℕ) → Bool → Tok → Eval C ℕ
  unfolding postfix_name primary_at
  postfix_at comma active (ident name) = postfix_name active name
  postfix_at comma active tok = primary_at comma active tok

  unfoldable pub parse_postfix : (Bool → Eval C ℕ) → Bool → Eval C ℕ
  unfolding postfix_at
  parse_postfix comma active = at_cursor (postfix_at comma active)

  unfoldable pub prefixed : ℕ → Bool → Bool → Eval C ℕ → Bool → Eval C ℕ
  unfolding apply_pre
  prefixed n increment active signed true = do
    lex ← get_lexer
    step
    apply_pre n increment active lex.tok_end
  prefixed n increment active signed false = do go consume_first_char_of_double_operator; signed

  -- an operator in front of the operand that `again` reads
  unfoldable pub sign_of : (ℕ → ℕ) → Bool → Eval C ℕ → Eval C ℕ
  sign_of f active again = do v ← again; pure (when_active active (f v))

  unfoldable pub prefix_op : (ℕ → ℕ) → Bool → Eval C ℕ → Eval C ℕ
  unfolding sign_of
  prefix_op f active again = do go enter_operand; sign_of f active again

  -- the arms of `parse_unary`, with `again` for its call of itself
  unfoldable pub unary_at : ℕ → (Bool → Eval C ℕ) → Eval C ℕ → Bool → Tok → Eval C ℕ
  unfolding prefix_op prefixed sign_of parse_postfix prefix_inc_dec_has_target
  unary_at n comma again active plus = do go enter_operand; again
  unary_at n comma again active minus = prefix_op wrapping_neg active again
  unary_at n comma again active bang = prefix_op (λ v. of_bool (v == 0)) active again
  unary_at n comma again active tilde = prefix_op word_not active again
  unary_at n comma again active plus_plus = do
    target ← look (prefix_inc_dec_has_target n true)
    prefixed n true active again target
  unary_at n comma again active minus_minus = do
    target ← look (prefix_inc_dec_has_target n false)
    prefixed n false active (sign_of wrapping_neg active again) target
  unary_at n comma again active tok = parse_postfix comma active

  unfoldable pub parse_unary : ℕ → (Bool → Eval C ℕ) → Bool → Eval C ℕ
  unfolding unary_at
  parse_unary zero comma active = stop
  parse_unary (suc n) comma active =
      at_cursor (unary_at n comma (parse_unary n comma active) active)

  unfoldable pub power_at : Eval C ℕ → Bool → ℕ → Lexer → Eval C ℕ
  unfolding raised
  power_at again active base lex =
      if is_star_star lex.cur
      then (do step; exp ← again; look (raised active base exp (min lex.tok_end (length lex.src))))
      else pure (when_active active base)

  unfoldable pub parse_power : ℕ → (Bool → Eval C ℕ) → Bool → Eval C ℕ
  unfolding power_at parse_unary
  parse_power zero comma active = stop
  parse_power (suc n) comma active = do
    base ← parse_unary (suc n) comma active
    lex ← get_lexer
    power_at (parse_power n comma active) active base lex
