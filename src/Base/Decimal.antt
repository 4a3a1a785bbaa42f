-- ===== src/Base/Decimal.antt =====
-- Decimal numbers as Rust prints them and parses them.
use Prim.Native.Nat.{ℕ, zero, suc, ◌+◌, ◌-◌, ◌*◌, ◌/◌, ◌%◌, ◌≤◌, ◌<◌}
use mathlib.Core.Path.{◌≡◌, refl, ap, ◌∙◌}
use mathlib.Core.Bool.{Bool, true, false, ◌&&◌}
use mathlib.Core.Logic.{inl, inr}
use mathlib.Core.List.{[], ◌∷◌}
use mathlib.Core.Option.{Option, none, some}
use native.Mathlib.Omega.{arith}
use cherubsh.Base.Tests.{leb, ltb, ◌==◌, if◌then◌else◌, Bool-cases, le→leb}
use cherubsh.Base.Lists.{all}
use cherubsh.Base.Strings.{Text}
use cherubsh.Base.Int.{ℤ, pos, negsuc}

abbrev pub is_ascii_digit : ℕ → Bool
is_ascii_digit c = leb b'0' c && leb c b'9'

-- the digits after those that make `value`
unfoldable pub digits_after : ℕ → Text → Option ℕ
digits_after value [] = some value
digits_after value (c ∷ cs) =
    let rest = digits_after (value * 10 + (c - b'0')) cs in if is_ascii_digit c then rest else none

-- one digit or more
unfoldable pub parse_digits : Text → Option ℕ
unfolding digits_after
parse_digits [] = none
parse_digits (c ∷ cs) = digits_after 0 (c ∷ cs)

unfoldable pub at_most : ℕ → Option ℕ → Option ℕ
at_most bound none = none
at_most bound (some n) = if leb n bound then some n else none

-- `s.parse::<uN>()`: a `+` may stand in front, and a value above the bound is an error.
unfoldable pub parse_unsigned : ℕ → Text → Option ℕ
unfolding parse_digits at_most
parse_unsigned bound [] = none
parse_unsigned bound (c ∷ cs) =
    at_most bound (if c == b'+' then parse_digits cs else parse_digits (c ∷ cs))

negate : Option ℕ → Option ℤ
negate none = none
negate (some zero) = some (pos 0)
negate (some (suc n)) = some (negsuc n)

positive : Option ℕ → Option ℤ
positive none = none
positive (some n) = some (pos n)

-- `s.parse::<iN>()` for the bound 2 ^ (N - 1)
unfoldable pub parse_signed : ℕ → Text → Option ℤ
unfolding parse_digits at_most negate positive
parse_signed bound [] = none
parse_signed bound (c ∷ cs) =
    if c == b'-'
    then negate (at_most bound (parse_digits cs))
    else if c == b'+'
    then positive (at_most (bound - 1) (parse_digits cs))
    else positive (at_most (bound - 1) (parse_digits (c ∷ cs)))

-- The digits of `n` in front of `rest`; fuel above `n` is more than it has digits.
unfoldable pub digits_before : ℕ → ℕ → Text → Text
digits_before zero n rest = rest
digits_before (suc fuel) n rest =
    let one = (b'0' + n % 10) ∷ rest in
    let more = digits_before fuel (n / 10) one in if ltb n 10 then one else more

-- `n.to_string()`
unfoldable pub to_string : ℕ → Text
unfolding digits_before
to_string n = digits_before (suc n) n []

digits_after_digit :
    (v d : ℕ) (rest : Text)
    → d < 10
    → digits_after v ((b'0' + d) ∷ rest) ≡ digits_after (v * 10 + d) rest
unfolding digits_after
digits_after_digit v d rest h =
    let digit : is_ascii_digit (b'0' + d) ≡ true = ground arith in
    let e : v * 10 + (b'0' + d - b'0') ≡ v * 10 + d = omega arith in rw (digit, e)

digits_after-before :
    (fuel n : ℕ) (rest : Text)
    → n < fuel
    → digits_after 0 (digits_before fuel n rest) ≡ digits_after n rest
unfolding digits_before
digits_after-before zero n rest h = absurd (omega arith)
digits_after-before (suc fuel) n rest h = elim (Bool-cases (ltb n 10)) [
  | inl small ↦
      let e : 0 * 10 + n % 10 ≡ n = ground arith in
      rw small (digits_after_digit 0 (n % 10) rest (omega arith) ∙ ap (λ v. digits_after v rest) e)
  | inr large ↦
      let e : n / 10 * 10 + n % 10 ≡ n = omega arith in
      rw large (
        digits_after-before fuel (n / 10) ((b'0' + n % 10) ∷ rest) (ground arith)
        ∙ digits_after_digit (n / 10) (n % 10) rest (omega arith)
        ∙ ap (λ v. digits_after v rest) e)
]

-- The first character is a digit.
digits_before_head :
    (fuel n : ℕ) (rest : Text)
    → n < fuel
    → (c : ℕ) × (cs : Text) × (digits_before fuel n rest ≡ c ∷ cs) × (is_ascii_digit c ≡ true)
unfolding digits_before
digits_before_head zero n rest h = absurd (omega arith)
digits_before_head (suc fuel) n rest h = elim (Bool-cases (ltb n 10)) [
  | inl small ↦ (b'0' + n % 10, rest, rw small, ground arith)
  | inr large ↦
      let (c, cs, e, d) =
        digits_before_head fuel (n / 10) ((b'0' + n % 10) ∷ rest) (ground arith) in
      (c, cs, rw large e, d)
]

digits_before_digits :
    (fuel n : ℕ) (rest : Text)
    → all is_ascii_digit rest ≡ true
    → all is_ascii_digit (digits_before fuel n rest) ≡ true
unfolding digits_before
digits_before_digits zero n rest h = h
digits_before_digits (suc fuel) n rest h =
    let digit : is_ascii_digit (b'0' + n % 10) ≡ true = ground arith in
    let more : all is_ascii_digit ((b'0' + n % 10) ∷ rest) ≡ true = rw (digit, h) refl in
    elim (Bool-cases (ltb n 10)) [
      | inl small ↦ rw small more
      | inr large ↦ rw large (digits_before_digits fuel (n / 10) ((b'0' + n % 10) ∷ rest) more)
    ]

pub to_string_digits : (n : ℕ) → all is_ascii_digit (to_string n) ≡ true
unfolding to_string
to_string_digits n = digits_before_digits (suc n) n [] refl

pub to_string_head :
    (n : ℕ) → (c : ℕ) × (cs : Text) × (to_string n ≡ c ∷ cs) × (is_ascii_digit c ≡ true)
unfolding to_string
to_string_head n = digits_before_head (suc n) n [] (omega arith)

pub parse_digits-to_string : (n : ℕ) → parse_digits (to_string n) ≡ some n
unfolding parse_digits
parse_digits-to_string n = let (c, cs, e, _) = to_string_head n in rw e (rw e at value)
  where
    value : digits_after 0 (to_string n) ≡ some n
    value = unfold digits_after to_string in digits_after-before (suc n) n [] (omega arith)

-- What Rust prints of a number in range it parses back.
pub parse_unsigned-to_string :
    (bound n : ℕ) → n ≤ bound → parse_unsigned bound (to_string n) ≡ some n
unfolding parse_unsigned
parse_unsigned-to_string bound n h =
    let (c, cs, e, d) = to_string_head n in
    let no_plus : (c == b'+') ≡ false = ground arith in
    let value : parse_digits (c ∷ cs) ≡ some n = rw e at (parse_digits-to_string n) in
    rw (e, no_plus, value, le→leb n bound h)
