-- ===== src/Arith.antt =====
-- The evaluator of arithmetic (crates/expander/src/arith.rs): what its parts share. An expression is a
-- list of code points, since every byte that the code tests for is ASCII. An error has the source and
-- the place that its message is made from; the message is not made.
pub mod Words
pub mod Products
pub mod Number
pub mod Constants
pub mod Lexer
pub mod Eval
pub mod Operators
pub mod Unary
pub mod Grammar
pub mod Names
pub mod Values
pub mod Errors
pub mod Lexing
pub mod Sound
pub mod Tests
pub mod Examples
pub mod Levels
pub mod Printed
pub mod Tokens
pub mod Operands
pub mod Ends
pub mod Bare
pub mod Evaluates
pub mod Refines
use cherubsh.Base.{ℕ, Text, Bool, true, false, if◌then◌else◌, ◌≡◌, refl}

-- `ExpandError`, with a constructor for each message
pub data ArithError : Type 0 where
  operand_expected : Text → ℕ → ArithError
  expression_expected : Text → ℕ → ArithError
  colon_expected : Text → ℕ → ArithError
  syntax_in_expression : Text → ℕ → ArithError
  invalid_operator : Text → ℕ → ArithError
  assignment_to_non_variable : Text → ℕ → ArithError
  invalid_base : Text → ArithError
  invalid_number : Text → ArithError
  invalid_constant : Text → ArithError
  too_great_for_base : Text → ArithError
  bad_digits : Text → ArithError
  missing_rparen : Text → ℕ → ArithError
  requires_lvalue : Text → ArithError
  requires_identifier : ArithError
  division_by_zero : Text → ℕ → ArithError
  zero_division : ArithError
  exponent_negative : Text → ℕ → ArithError
  recursion : ArithError
  recursion_level : Text → ArithError
  unbound_variable : Text → ArithError
  readonly_variable : Text → ArithError
  invalid_subscript : Text → ArithError
  refused_assignment : Text → ArithError
  invalid_subscript_operator : Text → ArithError

-- a result of code that only reads
pub data Res {ℓ} (A : Type ℓ) : Type ℓ where
  ok : A → Res A
  err : ArithError → Res A
  no_fuel : Res A

-- a result of code that changes a context: an error leaves what was changed before it
pub data Outcome {ℓ} (C : Type 0) (A : Type ℓ) : Type ℓ where
  done : A → C → Outcome C A
  fails : ArithError → C → Outcome C A
  out_of_fuel : Outcome C A

-- the `?` operator
abbrev pub and_then {ℓ κ} : {A : Type ℓ} {B : Type κ} → Res A → (A → Res B) → Res B
and_then (ok a) k = k a
and_then (err e) k = err e
and_then no_fuel k = no_fuel

abbrev pub next {ℓ κ} :
    {C : Type 0} {A : Type ℓ} {B : Type κ} → Outcome C A → (A → C → Outcome C B) → Outcome C B
next (done a c) k = k a c
next (fails e c) k = fails e c
next out_of_fuel k = out_of_fuel

abbrev pub lift {ℓ} : {C : Type 0} {A : Type ℓ} → Res A → C → Outcome C A
lift (ok a) c = done a c
lift (err e) c = fails e c
lift no_fuel c = out_of_fuel

-- `Q` holds of a value, `E` of an error, and `F` where the fuel runs out.
abbrev pub Gives {ℓ} : {A : Type ℓ} → (A → Type 0) → (ArithError → Type 0) → Type 0 → Res A → Type 0
Gives Q E F (ok a) = Q a
Gives Q E F (err e) = E e
Gives Q E F no_fuel = F

abbrev pub Post {ℓ} :
    {C : Type 0} {A : Type ℓ}
    → (A → C → Type 0)
    → (ArithError → C → Type 0)
    → Type 0
    → Outcome C A
    → Type 0
Post Q E F (done a c) = Q a c
Post Q E F (fails e c) = E e c
Post Q E F out_of_fuel = F

module _ {ℓ κ} {A : Type ℓ} {B : Type κ} where
  pub Gives-and_then :
      (Q : A → Type 0) (R : B → Type 0) (E : ArithError → Type 0) (F : Type 0) (r : Res A)
      (k : A → Res B)
      → Gives Q E F r
      → ((a : A) → Q a → Gives R E F (k a))
      → Gives R E F (and_then r k)
  Gives-and_then Q R E F (ok a) k h rule = rule a h
  Gives-and_then Q R E F (err e) k h rule = h
  Gives-and_then Q R E F no_fuel k h rule = h

module _ {ℓ κ} {C : Type 0} {A : Type ℓ} {B : Type κ} where
  pub Post-next :
      (Q : A → C → Type 0) (R : B → C → Type 0) (E G : ArithError → C → Type 0) (F : Type 0)
      (r : Outcome C A) (k : A → C → Outcome C B)
      → Post Q E F r
      → ((e : ArithError) (c : C) → E e c → G e c)
      → ((a : A) (c : C) → Q a c → Post R G F (k a c))
      → Post R G F (next r k)
  Post-next Q R E G F (done a c) k h weaken rule = rule a c h
  Post-next Q R E G F (fails e c) k h weaken rule = weaken e c h
  Post-next Q R E G F out_of_fuel k h weaken rule = h

module _ {ℓ} {A : Type ℓ} where
  pub Gives-if :
      (Q : A → Type 0) (E : ArithError → Type 0) (F : Type 0) (b : Bool) (x y : Res A)
      → (b ≡ true → Gives Q E F x)
      → (b ≡ false → Gives Q E F y)
      → Gives Q E F (if b then x else y)
  Gives-if Q E F true x y h₁ h₂ = h₁ refl
  Gives-if Q E F false x y h₁ h₂ = h₂ refl

module _ {ℓ} {C : Type 0} {A : Type ℓ} where
  pub Post-if :
      (Q : A → C → Type 0) (E : ArithError → C → Type 0) (F : Type 0) (b : Bool) (x y : Outcome C A)
      → (b ≡ true → Post Q E F x)
      → (b ≡ false → Post Q E F y)
      → Post Q E F (if b then x else y)
  Post-if Q E F true x y h₁ h₂ = h₁ refl
  Post-if Q E F false x y h₁ h₂ = h₂ refl

module _ {ℓ} {A : Type ℓ} where
  pub Gives-weaken :
      (Q R : A → Type 0) (E : ArithError → Type 0) (F : Type 0) (r : Res A)
      → Gives Q E F r
      → ((a : A) → Q a → R a)
      → Gives R E F r
  Gives-weaken Q R E F (ok a) h w = w a h
  Gives-weaken Q R E F (err e) h w = h
  Gives-weaken Q R E F no_fuel h w = h
