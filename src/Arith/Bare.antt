-- ===== src/Arith/Bare.antt =====
-- What a level of the grammar reads of a printed operation (crates/expander/src/arith.rs).
use cherubsh.Base.{
  ℕ, suc, ◌+◌, ◌<◌, ◌≤◌, Bool, true, false, ◌≡◌, refl, leb, Text, [], ◌∷◌, ◌++◌, drop, drop_past,
  length, none, arith,
}
use cherubsh.Arith.{ok, done}
use cherubsh.Arith.Lexer.{Lexer, lparen, rparen, token, advance, advance_from, arith_rhs_expected}
use cherubsh.Arith.Eval.{Variables, when_active}
use cherubsh.Arith.Operators.{enter_operand}
use cherubsh.Arith.Unary.{is_star_star, parse_unary}
use cherubsh.Arith.Grammar.{assigns, parse_comma}
use cherubsh.Arith.Levels.{
  table, level, is_none_lem, Quiet, quiet_lem, Quiet-rparen, level_takes, level_up,
}
use cherubsh.Arith.Printed.{
  BinOp, times, UnOp, keep, un_text, un_token, un_value, Expr, const, unary, binary, op_text,
  op_token, op_value, op_level, denote, print_at, arm_of,
}
use cherubsh.Arith.Tokens.{
  close_token, ends_number, first_token, first_enclosed, first_reads_later, op_reads,
}
use cherubsh.Arith.Operands.{sign_read, power_passes}
use cherubsh.Arith.Ends.{past, drop_operator, drop_blank, drop_sign, drop_print}

pub op_level-le : (op : BinOp) → op_level op ≤ 9
op_level-le times = omega arith
op_level-le _ = omega arith

pub op_not_power : (op : BinOp) → is_star_star (op_token op) ≡ false
op_not_power times = refl
op_not_power _ = refl

first_cases :
    (P : Lexer → Type 0) (src : Text) (parens : Bool) (first : ℕ → Lexer) (p : ℕ)
    → P (token src p lparen (p + 1))
    → P (first p)
    → P (first_enclosed parens src first p)
first_cases P src true first p h k = h
first_cases P src false first p h k = k

pub no_assignment :
    (src : Text) (i : ℕ) (e : Expr) (p : ℕ)
    → assigns (first_token src i e p) (first_token src i e p).cur ≡ ok none
unfolding assigns
no_assignment src i (const n) p = refl
no_assignment src i (unary op a) p = refl
no_assignment src i (binary op a b) p =
    first_cases (λ lex. assigns lex lex.cur ≡ ok none) src (leb i (op_level op)) _ p refl
      (no_assignment src (op_level op) a p)

pub sign_no_assignment : (op : UnOp) (lex : Lexer) → assigns lex (un_token op) ≡ ok none
unfolding assigns
sign_no_assignment keep lex = refl
sign_no_assignment _ lex = refl

-- The first token of an expression may follow an operator.
entered :
    (src : Text) (i : ℕ) (e : Expr) (p : ℕ) (lex : Lexer)
    → advance lex ≡ ok (first_token src i e p)
    → enter_operand lex ≡ ok (first_token src i e p)
unfolding enter_operand arith_rhs_expected
entered src i (const n) p lex h = rw h refl
entered src i (unary op a) p lex h = rw h refl
entered src i (binary op a b) p lex h =
    first_cases (λ l. advance lex ≡ ok l → enter_operand lex ≡ ok l) src (leb i (op_level op)) _ p
      (λ f. rw f refl) (entered src (op_level op) a p lex) h

module _ {C : Type 0} (vars : Variables C) (src : Text) where
  -- printed for the level 0, an expression is an operand
  abbrev pub ReadsOperand : Expr → ℕ → Type 0
  ReadsOperand e n =
      (k : ℕ) (active : Bool) (p : ℕ) (rest : Text) (lex' : Lexer) (c : C)
      → drop p src ≡ print_at 0 e rest
      → ends_number rest ≡ true
      → advance_from src (past 0 e p) ≡ ok lex'
      → parse_unary vars (suc k) (λ a. parse_comma vars n a) active (first_token src 0 e p) c
        ≡ done (when_active active (denote e), lex') c

  -- printed for the level `i`, it is what that level reads, where none of its operators follows
  abbrev pub ReadsLevel : Expr → ℕ → Type 0
  ReadsLevel e n =
      (i : ℕ) (active : Bool) (p : ℕ) (rest : Text) (lex' : Lexer) (c : C)
      → drop p src ≡ print_at i e rest
      → ends_number rest ≡ true
      → advance_from src (past i e p) ≡ ok lex'
      → Quiet i lex'.cur
      → is_star_star lex'.cur ≡ false
      → level vars (suc n) (λ a. parse_comma vars n a) i active (first_token src i e p) c
        ≡ done (when_active active (denote e), lex') c

  pub operand_level :
      (n i : ℕ) (active : Bool) (v : ℕ) (lex lex' : Lexer) (c : C)
      → parse_unary vars (suc n) (λ a. parse_comma vars n a) active lex c
        ≡ done (when_active active v, lex') c
      → Quiet i lex'.cur
      → is_star_star lex'.cur ≡ false
      → level vars (suc n) (λ a. parse_comma vars n a) i active lex c
        ≡ done (when_active active v, lex') c
  operand_level n i active v lex lex' c h q e =
      level_up vars n (λ a. parse_comma vars n a) 0 i active v lex lex' c (omega arith)
        (power_passes vars n (λ a. parse_comma vars n a) active v lex lex' c h e) q

  -- an operation without parentheses, at a level above its operator
  pub operation_read :
      (n : ℕ) (op : BinOp) (a b : Expr)
      → ReadsLevel a (suc n)
      → ReadsLevel b (suc n)
      → (i : ℕ) (active : Bool) (p : ℕ) (rest : Text) (lex₃ : Lexer) (c : C) → op_level op < i
      → drop p src
        ≡ print_at (op_level op) a (32 ∷ op_text op ++ 32 ∷ print_at (op_level op) b rest)
      → ends_number rest ≡ true
      → advance_from src
          (past (op_level op) b (past (op_level op) a p + 1 + length (op_text op) + 1))
        ≡ ok lex₃
      → Quiet i lex₃.cur
      → is_star_star lex₃.cur ≡ false
      → level vars
          (suc (suc n))
          (λ x. parse_comma vars (suc n) x)
          i
          active
          (first_token src (op_level op) a p)
          c
        ≡ done (when_active active (op_value op (denote a) (denote b)), lex₃) c
  operation_read n op a b ra rb i active p rest lex₃ c l h f t₃ quiet not_power =
      let paren = λ (x : Bool). parse_comma vars (suc n) x in
      let L = op_level op in
      let q = past L a p in
      let o = q + 1 + length (op_text op) in
      let lex₀ : Lexer = first_token src L a p in
      let lex₁ : Lexer = token src (q + 1) (op_token op) o in
      let lex₂ : Lexer = first_token src L b (o + 1) in
      let h₂ = drop_print src L a p _ h in
      let t₁ : advance_from src q ≡ ok lex₁ = op_reads op src q _ h₂ in
      let h₃ = drop_operator src op q _ h₂ in
      let t₂ : advance_from src o ≡ ok lex₂ = first_reads_later src L b o rest h₃ f in
      let h₄ = drop_past (32 ∷ []) _ o src h₃ in
      let w = op_value op (denote a) (denote b) in
      let (arm, good) = arm_of op in
      let left =
        ra L active p _ lex₁ c h refl t₁ (quiet_lem L (op_token op) good.below) (op_not_power op) in
      let right = λ (act : Bool).
        rb L act (o + 1) rest lex₃ c h₄ f t₃ (λ j m. quiet j (omega arith)) not_power in
      let taken =
        level_takes (table L) (level vars (suc (suc n)) paren L) n active (denote a) (denote b) w
          arm lex₀ lex₁ lex₂ lex₃ c left good.found
          (good.enters lex₁ lex₂ (unfold advance in t₂)
            (entered src L b (o + 1) lex₁ (unfold advance in t₂)))
          right (is_none_lem (table L lex₃.cur) (quiet L l))
          (good.value lex₃.src lex₂.tok_start (denote a) (denote b)) in
      level_up vars (suc n) paren (suc L) i active w lex₀ lex₃ c (omega arith) taken quiet

  -- a sign and its operand between parentheses, at the level of `||`
  pub sign_operation_read :
      (n : ℕ) (op : UnOp) (a : Expr)
      → ReadsOperand a (suc n)
      → (active : Bool) (p : ℕ) (rest : Text) (c : C)
      → drop p src ≡ un_text op ++ 32 ∷ print_at 0 a (b')' ∷ rest)
      → level vars
          (suc (suc n))
          (λ x. parse_comma vars (suc n) x)
          10
          active
          (token src p (un_token op) (p + 1))
          c
        ≡ done
            (
              when_active active (un_value op (denote a)),
              token src (past 0 a (p + 1 + 1)) rparen (past 0 a (p + 1 + 1) + 1),
            )
            c
  sign_operation_read n op a ra active p rest c h =
      let paren = λ (x : Bool). parse_comma vars (suc n) x in
      let z = past 0 a (p + 1 + 1) in
      let lex₀ : Lexer = token src p (un_token op) (p + 1) in
      let lex₁ : Lexer = first_token src 0 a (p + 1 + 1) in
      let lex₂ : Lexer = token src z rparen (z + 1) in
      let w = un_value op (denote a) in
      let t₁ : advance_from src (p + 1) ≡ ok lex₁ =
        first_reads_later src 0 a (p + 1) (b')' ∷ rest) (drop_blank src op p _ h) refl in
      let h₁ = drop_sign src op p _ h in
      let t₂ : advance_from src z ≡ ok lex₂ =
        close_token src z rest (drop_print src 0 a (p + 1 + 1) _ h₁) in
      let operand = ra n active (p + 1 + 1) (b')' ∷ rest) lex₂ c h₁ refl t₂ in
      operand_level (suc n) 10 active w lex₀ lex₂ c
        (sign_read vars (suc n) paren op active src p (denote a) lex₁ lex₂ c
          (entered src 0 a (p + 1 + 1) lex₀ (unfold advance in t₁)) operand)
        (Quiet-rparen 10) refl
