-- ===== src/Arith/Levels.antt =====
-- The levels of the grammar by number, from `*` to `||`, and what a level does of an operator
-- (crates/expander/src/arith.rs `parse_logor` to `parse_mul`).
use cherubsh.Base.{
  ℕ, zero, suc, ◌+◌, ◌-◌, ◌≤◌, ◌<◌, ◌==◌, Bool-cases, inl, inr, subst, ◌∙◌, Bool, true, false, ◌&&◌,
  ◌≡◌, refl, ap, Text, Option, none, some, arith,
}
use cherubsh.Arith.{ok, done}
use cherubsh.Arith.Lexer.{Lexer, Tok, rparen}
use cherubsh.Arith.Eval.{Variables, Eval, when_active}
use cherubsh.Arith.Operators.{
  Operator, logor_op, logand_op, bitor_op, bitxor_op, bitand_op, equality_op, relate_op, shift_op,
  add_op, mul_op, combine, binary_arm, binary_loop, binary_level,
}
use cherubsh.Arith.Unary.{parse_power}
use cherubsh.Arith.Grammar.{parse_logor}

abbrev pub table : ℕ → Tok → Option Operator
table zero = mul_op
table (suc zero) = add_op
table (suc (suc zero)) = shift_op
table (suc (suc (suc zero))) = relate_op
table (suc (suc (suc (suc zero)))) = equality_op
table (suc (suc (suc (suc (suc zero))))) = bitand_op
table (suc (suc (suc (suc (suc (suc zero)))))) = bitxor_op
table (suc (suc (suc (suc (suc (suc (suc zero))))))) = bitor_op
table (suc (suc (suc (suc (suc (suc (suc (suc zero)))))))) = logand_op
table (suc (suc (suc (suc (suc (suc (suc (suc (suc i))))))))) = logor_op

pub when_active_twice :
    (active : Bool) (v : ℕ) → when_active active (when_active active v) ≡ when_active active v
when_active_twice true v = refl
when_active_twice false v = refl

module _ {C : Type 0} (ops : Tok → Option Operator) (lower : Bool → Eval C ℕ) where
  loop_none :
      (k : ℕ) (active : Bool) (v : ℕ) (lex : Lexer) (c : C)
      → ops lex.cur ≡ none
      → binary_loop ops lower (suc k) active v lex c ≡ done (v, lex) c
  unfolding binary_loop binary_arm
  loop_none k active v lex c e = rw e refl

  -- A level hands on what the level below it has read where no operator of its own follows.
  pub level_passes :
      (k : ℕ) (active : Bool) (v : ℕ) (lex lex' : Lexer) (c : C)
      → lower active lex c ≡ done (when_active active v, lex') c
      → ops lex'.cur ≡ none
      → binary_level ops lower (suc k) active lex c ≡ done (when_active active v, lex') c
  unfolding binary_level
  level_passes k active v lex lex' c h e = rw h (
      rw (loop_none k active (when_active active v) lex' c e)
        (ap (λ w. done (w, lex') c) (when_active_twice active v)))

  combine_lem :
      (op : Operator) (active : Bool) (src : Text) (place v r w : ℕ)
      → op.value src place v (when_active (op.rhs_active v) r) ≡ ok w
      → combine op active src place
          (when_active active v)
          (when_active (active && op.rhs_active (when_active active v)) r)
        ≡ ok (when_active active w)
  unfolding combine
  combine_lem op true src place v r w h = h
  combine_lem op false src place v r w h = refl

  loop_takes :
      (k : ℕ) (active : Bool) (v r w : ℕ) (op : Operator) (lex₁ lex₂ lex₃ : Lexer) (c : C)
      → ops lex₁.cur ≡ some op
      → op.enter lex₁ ≡ ok lex₂
      → ((active' : Bool) → lower active' lex₂ c ≡ done (when_active active' r, lex₃) c)
      → ops lex₃.cur ≡ none
      → op.value lex₃.src lex₂.tok_start v (when_active (op.rhs_active v) r) ≡ ok w
      → binary_loop ops lower (suc (suc k)) active (when_active active v) lex₁ c
        ≡ done (when_active active w, lex₃) c
  unfolding binary_loop binary_arm
  loop_takes k active v r w op lex₁ lex₂ lex₃ c e₁ e₂ h e₃ value =
      let a = active && op.rhs_active (when_active active v) in
      rw e₁ (
        rw e₂ (
          rw (h a) (
            rw (combine_lem op active lex₃.src lex₂.tok_start v r w value)
              (loop_none k active (when_active active w) lex₃ c e₃))))

  -- A level reads one operator of its own, with operands that the level below it reads.
  pub level_takes :
      (k : ℕ) (active : Bool) (v r w : ℕ) (op : Operator) (lex lex₁ lex₂ lex₃ : Lexer) (c : C)
      → lower active lex c ≡ done (when_active active v, lex₁) c
      → ops lex₁.cur ≡ some op
      → op.enter lex₁ ≡ ok lex₂
      → ((active' : Bool) → lower active' lex₂ c ≡ done (when_active active' r, lex₃) c)
      → ops lex₃.cur ≡ none
      → op.value lex₃.src lex₂.tok_start v (when_active (op.rhs_active v) r) ≡ ok w
      → binary_level ops lower (suc (suc k)) active lex c ≡ done (when_active active w, lex₃) c
  unfolding binary_level
  level_takes k active v r w op lex lex₁ lex₂ lex₃ c h₁ e₁ e₂ h₂ e₃ value = rw h₁ (
      rw (loop_takes k active v r w op lex₁ lex₂ lex₃ c e₁ e₂ h₂ e₃ value)
        (ap (λ x. done (x, lex₃) c) (when_active_twice active w)))

module _ {C : Type 0} (vars : Variables C) (n : ℕ) (paren : Bool → Eval C ℕ) where
  abbrev pub level : ℕ → Bool → Eval C ℕ
  level zero = parse_power vars n paren
  level (suc i) = binary_level (table i) (level i) n

  pub parse_logor-level : parse_logor vars n paren ≡ level 10
  unfolding parse_logor
  parse_logor-level = refl

abbrev pub is_none : Option Operator → Bool
is_none none = true
is_none (some op) = false

-- `d` levels from the level `i` on have no operator that is the token
abbrev pub no_operator : ℕ → ℕ → Tok → Bool
no_operator i zero tok = true
no_operator i (suc d) tok = is_none (table i tok) && no_operator (suc i) d tok

pub is_none_lem : (o : Option Operator) → is_none o ≡ true → o ≡ none
is_none_lem none h = refl
is_none_lem (some op) h = cc

and_first : (a b : Bool) → (a && b) ≡ true → a ≡ true
and_first a b h = ground arith

and_second : (a b : Bool) → (a && b) ≡ true → b ≡ true
and_second a b h = ground arith

abbrev pub above : ℕ → ℕ → ℕ
above zero i = i
above (suc d) i = above d (suc i)

pub above_add : (d i : ℕ) → above d i ≡ d + i
above_add zero i = omega arith
above_add (suc d) i = above_add d (suc i) ∙ omega arith

-- No level has `)` for an operator.
pub rparen_lem : (i : ℕ) → is_none (table i rparen) ≡ true
rparen_lem zero = refl
rparen_lem (suc zero) = refl
rparen_lem (suc (suc zero)) = refl
rparen_lem (suc (suc (suc zero))) = refl
rparen_lem (suc (suc (suc (suc zero)))) = refl
rparen_lem (suc (suc (suc (suc (suc zero))))) = refl
rparen_lem (suc (suc (suc (suc (suc (suc zero)))))) = refl
rparen_lem (suc (suc (suc (suc (suc (suc (suc zero))))))) = refl
rparen_lem (suc (suc (suc (suc (suc (suc (suc (suc zero)))))))) = refl
rparen_lem (suc (suc (suc (suc (suc (suc (suc (suc (suc i))))))))) = refl

-- no level below `i` has an operator that is the token
abbrev pub Quiet : ℕ → Tok → Type 0
Quiet i tok = (j : ℕ) → j < i → is_none (table j tok) ≡ true

quiet_from :
    (i d : ℕ) (tok : Tok)
    → no_operator i d tok ≡ true
    → (j : ℕ) → i ≤ j
    → j < i + d
    → is_none (table j tok) ≡ true
quiet_from i zero tok h j l m = absurd (omega arith)
quiet_from i (suc d) tok h j l m = elim (Bool-cases (j == i)) [
  | inl e ↦
      let same : i ≡ j = ground arith in
      subst (λ k. is_none (table k tok) ≡ true) same (and_first (is_none (table i tok)) _ h)
  | inr e ↦
      quiet_from (suc i) d tok (and_second (is_none (table i tok)) _ h) j (ground arith)
        (omega arith)
]

pub quiet_lem : (d : ℕ) (tok : Tok) → no_operator 0 d tok ≡ true → Quiet d tok
quiet_lem d tok h j l = quiet_from 0 d tok h j (omega arith) (omega arith)

pub Quiet-rparen : (i : ℕ) → Quiet i rparen
Quiet-rparen i j l = rparen_lem j

no_operator_lem : (i d : ℕ) (tok : Tok) → Quiet (i + d) tok → no_operator i d tok ≡ true
no_operator_lem i zero tok q = refl
no_operator_lem i (suc d) tok q =
    rw (q i (omega arith)) (no_operator_lem (suc i) d tok λ j l. q j (omega arith))

module _ {C : Type 0} (vars : Variables C) (k : ℕ) (paren : Bool → Eval C ℕ) where
  pub levels_pass :
      (d i : ℕ) (active : Bool) (v : ℕ) (lex lex' : Lexer) (c : C)
      → level vars (suc k) paren i active lex c ≡ done (when_active active v, lex') c
      → no_operator i d lex'.cur ≡ true
      → level vars (suc k) paren (above d i) active lex c ≡ done (when_active active v, lex') c
  levels_pass zero i active v lex lex' c h e = h
  levels_pass (suc d) i active v lex lex' c h e =
      levels_pass d (suc i) active v lex lex' c
        (level_passes (table i) (level vars (suc k) paren i) k active v lex lex' c h
          (is_none_lem (table i lex'.cur) (and_first (is_none (table i lex'.cur)) _ e)))
        (and_second (is_none (table i lex'.cur)) _ e)

  -- What a level reads, the levels from it up to `j` hand on.
  pub level_up :
      (i j : ℕ) (active : Bool) (v : ℕ) (lex lex' : Lexer) (c : C)
      → i ≤ j
      → level vars (suc k) paren i active lex c ≡ done (when_active active v, lex') c
      → Quiet j lex'.cur
      → level vars (suc k) paren j active lex c ≡ done (when_active active v, lex') c
  level_up i j active v lex lex' c l h q =
      let room : i + (j - i) ≡ j = omega arith in
      let to_top : above (j - i) i ≡ j = above_add (j - i) i ∙ omega arith in
      subst (λ n. level vars (suc k) paren n active lex c ≡ done (when_active active v, lex') c)
        to_top
        (levels_pass (j - i) i active v lex lex' c h
          (no_operator_lem i (j - i) lex'.cur (rw room q)))
