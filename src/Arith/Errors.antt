-- ===== src/Arith/Errors.antt =====
-- The errors that can be seen without evaluating (crates/expander/src/arith.rs).
use cherubsh.Base.{
  ℕ, ◌^◌, Bool, true, false, ◌≡◌, refl, Text, [], ◌∷◌, Option, none, some, ℤ, pos, negsuc,
  parse_signed, arith, drop,
}
use cherubsh.Arith.{
  ArithError, division_by_zero, zero_division, exponent_negative, recursion, recursion_level,
  unbound_variable, readonly_variable, invalid_subscript, refused_assignment,
  invalid_subscript_operator, Gives, Gives-and_then,
}
use cherubsh.Arith.Number.{
  check_digit, based_loop, based_digit, to_digit, some_digit, radix_loop, parse_radix_wrapping,
  check_base, based_number, after_hash, before_hash, plain_number, number_at, parse_number,
}

-- The errors that a part which is not evaluated can report: those of the syntax (of a constant, a token,
-- an operand or a target), and the division by zero of a `/=` or `%=`, which `parse_assign` reports
-- there too. The others are not among them.
abbrev pub is_static : ArithError → Bool
is_static (division_by_zero src place) = false
is_static (exponent_negative src place) = false
is_static recursion = false
is_static (recursion_level token) = false
is_static (unbound_variable name) = false
is_static (readonly_variable name) = false
is_static (invalid_subscript name) = false
is_static (refused_assignment text) = false
is_static (invalid_subscript_operator rest) = false
is_static zero_division = true
is_static _ = true

abbrev pub Static : ArithError → Type 0
Static e = is_static e ≡ true

abbrev pub Any {ℓ} : {A : Type ℓ} → A → Type 0
Any a = Unit {0}

check_digit-Gives : (s : Text) (base : ℕ) (d : Option ℕ) → Gives Any Static ⊥ (check_digit s base d)
unfolding check_digit
check_digit-Gives s base none = refl
check_digit-Gives s base (some d) = ground arith

based_loop-Gives :
    (s : Text) (base : ℕ) (digits : Text) (value : ℕ)
    → Gives Any Static ⊥ (based_loop s base value digits)
unfolding based_loop
based_loop-Gives s base [] value = tt
based_loop-Gives s base (ch ∷ digits) value =
    Gives-and_then Any Any Static ⊥ (check_digit s base (based_digit base ch)) _
      (check_digit-Gives s base (based_digit base ch)) λ d h. based_loop-Gives s base digits _

some_digit-Gives : (raw : Text) (d : Option ℕ) → Gives Any Static ⊥ (some_digit raw d)
unfolding some_digit
some_digit-Gives raw none = refl
some_digit-Gives raw (some d) = tt

radix_loop-Gives :
    (raw : Text) (radix : ℕ) (digits : Text) (value : ℕ)
    → Gives Any Static ⊥ (radix_loop raw radix value digits)
unfolding radix_loop
radix_loop-Gives raw radix [] value = tt
radix_loop-Gives raw radix (ch ∷ digits) value =
    Gives-and_then Any Any Static ⊥ (some_digit raw (to_digit radix ch)) _
      (some_digit-Gives raw (to_digit radix ch)) λ d h. radix_loop-Gives raw radix digits _

parse_radix-Gives :
    (digits : Text) (radix : ℕ) (raw : Text)
    → Gives Any Static ⊥ (parse_radix_wrapping digits radix raw)
unfolding parse_radix_wrapping
parse_radix-Gives [] radix raw = refl
parse_radix-Gives (ch ∷ digits) radix raw = radix_loop-Gives raw radix (ch ∷ digits) 0

check_base-Gives : (s : Text) (base : Option ℤ) → Gives Any Static ⊥ (check_base s base)
unfolding check_base
check_base-Gives s none = refl
check_base-Gives s (some (negsuc n)) = refl
check_base-Gives s (some (pos base)) = ground arith

based_number-Gives :
    (s : Text) (base : ℕ) (digits : Text) → Gives Any Static ⊥ (based_number s base digits)
unfolding based_number
based_number-Gives s base [] = refl
based_number-Gives s base (ch ∷ digits) = based_loop-Gives s base (ch ∷ digits) 0

plain_number-Gives : (s : Text) → Gives Any Static ⊥ (plain_number s)
unfolding plain_number
plain_number-Gives s = ground (
  arith,
  parse_radix-Gives (drop 2 s) 16 s,
  parse_radix-Gives (drop 1 s) 8 s,
  parse_radix-Gives s 10 s,
)

number_at-Gives : (s : Text) (digits : Option Text) → Gives Any Static ⊥ (number_at s digits)
unfolding number_at
number_at-Gives s none = plain_number-Gives s
number_at-Gives s (some digits) =
    Gives-and_then Any Any Static ⊥ (check_base s (parse_signed (2 ^ 63) (before_hash s))) _
      (check_base-Gives s (parse_signed (2 ^ 63) (before_hash s)))
      λ base h. based_number-Gives s base digits

-- A constant is read or refused with an error of the text.
pub parse_number-Gives : (s : Text) → Gives Any Static ⊥ (parse_number s)
unfolding parse_number
parse_number-Gives s = number_at-Gives s (after_hash s)
