-- ===== src/Arith/Eval.antt =====
-- What the functions of the grammar share (crates/expander/src/arith.rs): they change the lexer and a
-- context, and they use variables by the operations of `Variables`.
use cherubsh.Base.{ℕ, Bool, true, false, if◌then◌else◌, Text}
use cherubsh.Arith.{ArithError, Res, Outcome, done, fails, out_of_fuel, next, lift}
use cherubsh.Arith.Lexer.{Lexer, Tok, advance}

pub data LValue : Type 0 where
  scalar : Text → LValue
  indexed : Text → ℕ → LValue
  assoc : Text → Text → LValue

-- `resolve_lvalue`, `load_lvalue_value`, `store_lvalue_value` and `load_ident_value`, in a context `C`
pub record Variables (C : Type 0) : Type 0 where
  pub resolve : Text → C → Outcome C LValue
  pub load : LValue → C → Outcome C ℕ
  pub store : LValue → ℕ → C → Outcome C (Unit {0})
  pub load_ident : Text → C → Outcome C ℕ

abbrev pub Eval {ℓ} : Type 0 → Type ℓ → Type ℓ
Eval C A = Lexer → C → Outcome C (A × Lexer)

abbrev pub pure {ℓ} : {C : Type 0} {A : Type ℓ} → A → Eval C A
pure a lex c = done (a, lex) c

abbrev pub raise {ℓ} : {C : Type 0} {A : Type ℓ} → ArithError → Eval C A
raise e lex c = fails e c

abbrev pub stop {ℓ} : {C : Type 0} {A : Type ℓ} → Eval C A
stop lex c = out_of_fuel

module _ {ℓ κ} {C : Type 0} {A : Type ℓ} {B : Type κ} where
  infixl 1 ◌>>=◌ ◌>>◌
  abbrev pub ◌>>=◌ : Eval C A → (A → Eval C B) → Eval C B
  (m >>= k) lex c = next (m lex c) λ (a, lex') c'. k a lex' c'

  abbrev pub ◌>>◌ : Eval C A → Eval C B → Eval C B
  m >> k = m >>= λ _. k

abbrev pub get_lexer : {C : Type 0} → Eval C Lexer
get_lexer lex c = done (lex, lex) c

abbrev pub at_cursor {ℓ} : {C : Type 0} {A : Type ℓ} → (Tok → Eval C A) → Eval C A
at_cursor f lex c = f lex.cur lex c

-- code that only moves the lexer
abbrev pub move {ℓ} : {C : Type 0} {A : Type ℓ} → (Lexer → Res (A × Lexer)) → Eval C A
move f lex c = lift (f lex) c

-- code that only reads the lexer
abbrev pub look {ℓ} : {C : Type 0} {A : Type ℓ} → (Lexer → Res A) → Eval C A
look f lex c = next (lift (f lex) c) λ a c'. done (a, lex) c'

abbrev pub go : {C : Type 0} → (Lexer → Res Lexer) → Eval C (Unit {0})
go f lex c = next (lift (f lex) c) λ lex' c'. done (tt, lex') c'

abbrev pub step : {C : Type 0} → Eval C (Unit {0})
step = go advance

abbrev pub skip : {C : Type 0} → Eval C (Unit {0})
skip lex c = done (tt, lex) c

abbrev pub fail_if : {C : Type 0} → Bool → ArithError → Eval C (Unit {0})
fail_if true e lex c = fails e c
fail_if false e lex c = done (tt, lex) c

abbrev pub access {ℓ} : {C : Type 0} {A : Type ℓ} → (C → Outcome C A) → Eval C A
access f lex c = next (f c) λ a c'. done (a, lex) c'

abbrev pub when_active : Bool → ℕ → ℕ
when_active active v = if active then v else 0
