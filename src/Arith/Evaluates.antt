-- ===== src/Arith/Evaluates.antt =====
-- A printed expression is evaluated to its meaning (crates/expander/src/arith.rs).
use cherubsh.Base.{
  ℕ, zero, suc, ◌+◌, ◌%◌, ◌^◌, ◌<◌, Bool, true, false, ◌≡◌, refl, ap, leb, ◌∙◌, Text, [], ◌∷◌, ◌++◌,
  drop, drop_past, length, to_string, none, arith,
}
use cherubsh.Arith.{ok, done}
use cherubsh.Arith.Lexer.{Lexer, lparen, rparen, token, advance_from}
use cherubsh.Arith.Eval.{Variables, Eval, when_active}
use cherubsh.Arith.Unary.{is_star_star, parse_unary}
use cherubsh.Arith.Grammar.{is_question, is_comma, assigns, parse_comma}
use cherubsh.Arith.Levels.{level, Quiet, Quiet-rparen, parse_logor-level}
use cherubsh.Arith.Printed.{
  BinOp, UnOp, un_text, un_token, un_value, Expr, const, unary, binary, op_text, op_value, op_level,
  enclose, denote, print_at, depth,
}
use cherubsh.Arith.Tokens.{
  close_token, ends_number, first_token, first_enclosed, first_reads, sign_reads,
}
use cherubsh.Arith.Operands.{constant_read, parens_read, comma_passes}
use cherubsh.Arith.Ends.{past, past_enclosed, drop_operator, drop_print}
use cherubsh.Arith.Bare.{
  op_level-le, no_assignment, sign_no_assignment, ReadsOperand, ReadsLevel, operand_level,
  operation_read, sign_operation_read,
}

module _ {C : Type 0} (vars : Variables C) (src : Text) where
  pub comma_read :
      (n : ℕ) (active : Bool) (v : ℕ) (lex lex' : Lexer) (c : C)
      → level vars (suc (suc n)) (λ a. parse_comma vars (suc n) a) 10 active lex c
        ≡ done (when_active active v, lex') c
      → assigns lex lex.cur ≡ ok none
      → is_question lex'.cur ≡ false
      → is_comma lex'.cur ≡ false
      → parse_comma vars (suc (suc n)) active lex c ≡ done (when_active active v, lex') c
  unfolding parse_comma
  comma_read n active v lex lex' c h e₁ e₂ e₃ =
      let paren = λ (a : Bool). parse_comma vars (suc n) a in
      comma_passes vars (suc n) paren active v lex lex' c
        (ap (λ (f : Bool → Eval C ℕ). f active lex c) (parse_logor-level vars (suc (suc n)) paren)
          ∙ h)
        e₁ e₂ e₃

  -- an operation between its parentheses
  parens_operation :
      (n : ℕ) (op : BinOp) (a b : Expr)
      → ReadsLevel vars src a (suc n)
      → ReadsLevel vars src b (suc n)
      → (k : ℕ) (active : Bool) (p : ℕ) (rest : Text) (lex' : Lexer) (c : C)
      → drop p src
        ≡ b'('
          ∷ print_at
              (op_level op)
              a
              (32 ∷ op_text op ++ 32 ∷ print_at (op_level op) b (b')' ∷ rest))
      → advance_from src
          (past (op_level op) b (past (op_level op) a (p + 1) + 1 + length (op_text op) + 1) + 1)
        ≡ ok lex'
      → parse_unary vars
          (suc k)
          (λ x. parse_comma vars (suc (suc n)) x)
          active
          (token src p lparen (p + 1))
          c
        ≡ done (when_active active (op_value op (denote a) (denote b)), lex') c
  parens_operation n op a b ra rb k active p rest lex' c h t =
      let L = op_level op in
      let o = past L a (p + 1) + 1 + length (op_text op) in
      let z = past L b (o + 1) in
      let w = op_value op (denote a) (denote b) in
      let lex₀ : Lexer = first_token src L a (p + 1) in
      let h₁ = drop_past (b'(' ∷ []) _ p src h in
      let h₂ = drop_print src L a (p + 1) _ h₁ in
      let h₃ = drop_past (32 ∷ []) _ o src (drop_operator src op (past L a (p + 1)) _ h₂) in
      let closed : advance_from src z ≡ ok (token src z rparen (z + 1)) =
        close_token src z rest (drop_print src L b (o + 1) _ h₃) in
      parens_read vars k (λ x. parse_comma vars (suc (suc n)) x) active src p (p + 1) w z lex₀ lex'
        c (first_reads src L a (p + 1) _ h₁ refl)
        (comma_read n active w lex₀ (token src z rparen (z + 1)) c
          (operation_read vars src n op a b ra rb 10 active (p + 1) (b')' ∷ rest) _ c
            (omega (arith, op_level-le op)) h₁ refl closed (Quiet-rparen 10) refl)
          (no_assignment src L a (p + 1)) refl refl)
        t

  -- a sign and its operand between their parentheses
  parens_sign :
      (n : ℕ) (op : UnOp) (a : Expr)
      → ReadsOperand vars src a (suc n)
      → (k : ℕ) (active : Bool) (p : ℕ) (rest : Text) (lex' : Lexer) (c : C)
      → drop p src ≡ b'(' ∷ un_text op ++ 32 ∷ print_at 0 a (b')' ∷ rest)
      → advance_from src (past 0 a (p + 1 + 1 + 1) + 1) ≡ ok lex'
      → parse_unary vars
          (suc k)
          (λ x. parse_comma vars (suc (suc n)) x)
          active
          (token src p lparen (p + 1))
          c
        ≡ done (when_active active (un_value op (denote a)), lex') c
  parens_sign n op a ra k active p rest lex' c h t =
      let w = un_value op (denote a) in
      let z = past 0 a (p + 1 + 1 + 1) in
      let h₁ = drop_past (b'(' ∷ []) _ p src h in
      let first = token src (p + 1) (un_token op) (p + 1 + 1) in
      parens_read vars k (λ x. parse_comma vars (suc (suc n)) x) active src p (p + 1) w z first lex'
        c (sign_reads op src (p + 1) _ h₁)
        (comma_read n active w first (token src z rparen (z + 1)) c
          (sign_operation_read vars src n op a ra active (p + 1) rest c h₁)
          (sign_no_assignment op first) refl refl)
        t

  abbrev inside : BinOp → Expr → Expr → Text → Text
  inside op a b r = print_at (op_level op) a (32 ∷ op_text op ++ 32 ∷ print_at (op_level op) b r)

  abbrev past_inside : BinOp → Expr → Expr → ℕ → ℕ
  past_inside op a b q = past (op_level op) b (past (op_level op) a q + 1 + length (op_text op) + 1)

  enclosed_operand :
      (n : ℕ) (op : BinOp) (a b : Expr)
      → ReadsLevel vars src a (suc n)
      → ReadsLevel vars src b (suc n)
      → (k : ℕ) (active : Bool) (p : ℕ) (rest : Text) (lex' : Lexer) (c : C) (g : Bool)
      → leb 0 (op_level op) ≡ g
      → drop p src ≡ enclose g (inside op a b) rest
      → advance_from src (past_enclosed g (past_inside op a b) p) ≡ ok lex'
      → parse_unary vars
          (suc k)
          (λ x. parse_comma vars (suc (suc n)) x)
          active
          (first_enclosed g src (first_token src (op_level op) a) p)
          c
        ≡ done (when_active active (op_value op (denote a) (denote b)), lex') c
  enclosed_operand n op a b ra rb k active p rest lex' c true s h t =
      parens_operation n op a b ra rb k active p rest lex' c h t
  enclosed_operand n op a b ra rb k active p rest lex' c false s h t = absurd (ground arith)

  -- at a level above its operator, an operation is read bare, and otherwise in its parentheses
  enclosed_read :
      (n : ℕ) (op : BinOp) (a b : Expr)
      → ReadsLevel vars src a (suc n)
      → ReadsLevel vars src b (suc n)
      → ReadsLevel vars src a (suc (suc n))
      → ReadsLevel vars src b (suc (suc n))
      → (i : ℕ) (active : Bool) (p : ℕ) (rest : Text) (lex' : Lexer) (c : C) (g : Bool)
      → leb i (op_level op) ≡ g
      → drop p src ≡ enclose g (inside op a b) rest
      → ends_number rest ≡ true
      → advance_from src (past_enclosed g (past_inside op a b) p) ≡ ok lex'
      → Quiet i lex'.cur
      → is_star_star lex'.cur ≡ false
      → level vars
          (suc (suc (suc n)))
          (λ x. parse_comma vars (suc (suc n)) x)
          i
          active
          (first_enclosed g src (first_token src (op_level op) a) p)
          c
        ≡ done (when_active active (op_value op (denote a) (denote b)), lex') c
  enclosed_read n op a b ra rb sa sb i active p rest lex' c true s h f t q e =
      operand_level vars src (suc (suc n)) i active _ _ lex' c
        (parens_operation n op a b ra rb (suc (suc n)) active p rest lex' c h t) q e
  enclosed_read n op a b ra rb sa sb i active p rest lex' c false s h f t q e =
      operation_read vars src (suc n) op a b sa sb i active p rest lex' c (ground arith) h f t q e

  -- A printed expression in front of a blank, of `)` or of the end is read at its level.
  pub expression_read :
      (e : Expr) (n : ℕ) → depth e < n → ReadsOperand vars src e n × ReadsLevel vars src e n
  unfolding denote print_at
  expression_read (const v) n d =
      let operand : ReadsOperand vars src (const v) n = λ k active p rest lex' c h f t.
        constant_read vars k (λ a. parse_comma vars n a) active src p (v % 2 ^ 64)
          (p + length (to_string v)) lex' c t in
      (
        operand,
        λ i active p rest lex' c h f t q e.
            operand_level vars src n i active _ _ lex' c (operand n active p rest lex' c h f t) q e,
      )
  expression_read (unary op a) zero d = absurd (omega arith)
  expression_read (unary op a) (suc zero) d = absurd (omega arith)
  expression_read (unary op a) (suc (suc n)) d =
      let ra = (expression_read a (suc n) (omega arith)).0 in
      let operand : ReadsOperand vars src (unary op a) (suc (suc n)) =
        λ k active p rest lex' c h f t. parens_sign n op a ra k active p rest lex' c h t in
      (
        operand,
        λ i active p rest lex' c h f t q e.
            operand_level vars src (suc (suc n)) i active _ _ lex' c
              (operand (suc (suc n)) active p rest lex' c h f t) q e,
      )
  expression_read (binary op a b) zero d = absurd (omega arith)
  expression_read (binary op a b) (suc zero) d = absurd (omega arith)
  expression_read (binary op a b) (suc (suc n)) d =
      let L = op_level op in
      let ra = (expression_read a (suc n) (omega arith)).1 in
      let rb = (expression_read b (suc n) (omega arith)).1 in
      let sa = (expression_read a (suc (suc n)) (omega arith)).1 in
      let sb = (expression_read b (suc (suc n)) (omega arith)).1 in
      (
        λ k active p rest lex' c h f t.
            enclosed_operand n op a b ra rb k active p rest lex' c (leb 0 L) refl h t,
        λ i active p rest lex' c h f t q e.
            enclosed_read n op a b ra rb sa sb i active p rest lex' c (leb i L) refl h f t q e,
      )
