-- ===== src/Arith/Constants.antt =====
-- Decimal constants are read as the words they stand for (crates/expander/src/arith.rs `parse_number`).
use cherubsh.Base.{
  ℕ, zero, suc, ◌+◌, ◌-◌, ◌*◌, ◌/◌, ◌%◌, ◌^◌, ◌<◌, true, false, ltb, ◌==◌, Bool-cases, inl, inr,
  ◌≡◌, ◌≢◌, refl, sym, ap, ◌∙◌, arith, Text, [], ◌∷◌, none, all, is_ascii_digit, digits_before,
  to_string, to_string_digits,
}
use cherubsh.Arith.{ok}
use cherubsh.Arith.Number.{
  to_digit, some_digit, radix_loop, parse_radix_wrapping, after_hash, plain_number, number_at,
  parse_number,
}

digit_lem :
    (raw : Text) (v d : ℕ) (rest : Text)
    → d < 10
    → radix_loop raw 10 (v % 2 ^ 64) ((b'0' + d) ∷ rest)
      ≡ radix_loop raw 10 ((v * 10 + d) % 2 ^ 64) rest
unfolding radix_loop to_digit some_digit
digit_lem raw v d rest h =
    let digit : is_ascii_digit (b'0' + d) ≡ true = ground arith in
    let value : b'0' + d - b'0' ≡ d = omega arith in
    let small : ltb d 10 ≡ true = ground arith in
    let e : (v % 2 ^ 64 * 10 % 2 ^ 64 + d) % 2 ^ 64 ≡ (v * 10 + d) % 2 ^ 64 = omega arith in
    rw (digit, value, small) (ap (λ t. radix_loop raw 10 t rest) e)

radix_loop-digits_before :
    (raw : Text) (fuel n : ℕ) (rest : Text)
    → n < fuel
    → radix_loop raw 10 0 (digits_before fuel n rest) ≡ radix_loop raw 10 (n % 2 ^ 64) rest
unfolding digits_before
radix_loop-digits_before raw zero n rest h = absurd (omega arith)
radix_loop-digits_before raw (suc fuel) n rest h = elim (Bool-cases (ltb n 10)) [
  | inl small ↦
      let e : (0 * 10 + n % 10) % 2 ^ 64 ≡ n % 2 ^ 64 = ground arith in
      rw small (digit_lem raw 0 (n % 10) rest (omega arith) ∙ ap (λ v. radix_loop raw 10 v rest) e)
  | inr large ↦
      let e : (n / 10 * 10 + n % 10) % 2 ^ 64 ≡ n % 2 ^ 64 = omega arith in
      rw large (
        radix_loop-digits_before raw fuel (n / 10) ((b'0' + n % 10) ∷ rest) (ground arith)
        ∙ digit_lem raw (n / 10) (n % 10) rest (omega arith)
        ∙ ap (λ v. radix_loop raw 10 v rest) e)
]

-- A number that is not 0 does not begin with the digit 0.
digits_before_first :
    (fuel n : ℕ) (rest : Text)
    → n < fuel
    → n ≢ 0
    → (c : ℕ) × (cs : Text) × (digits_before fuel n rest ≡ c ∷ cs) × (c ≢ b'0')
unfolding digits_before
digits_before_first zero n rest h z = absurd (omega arith)
digits_before_first (suc fuel) n rest h z = elim (Bool-cases (ltb n 10)) [
  | inl small ↦ (b'0' + n % 10, rest, rw small refl, ground arith)
  | inr large ↦
      let (c, cs, e, d) =
        digits_before_first fuel (n / 10) ((b'0' + n % 10) ∷ rest) (ground arith) (ground arith) in
      (c, cs, rw large e, d)
]

after_hash-digits : (s : Text) → all is_ascii_digit s ≡ true → after_hash s ≡ none
after_hash-digits [] h = refl
after_hash-digits (c ∷ s) h =
    let no_hash : (c == b'#') ≡ false = ground arith in
    rw no_hash (after_hash-digits s (ground arith))

plain_first :
    (c : ℕ) (cs : Text) → c ≢ b'0' → plain_number (c ∷ cs) ≡ radix_loop (c ∷ cs) 10 0 (c ∷ cs)
unfolding plain_number parse_radix_wrapping
plain_first c cs h = let other : (c == b'0') ≡ false = ground arith in ground (arith, other)

radix-to_string : (n : ℕ) → radix_loop (to_string n) 10 0 (to_string n) ≡ ok (n % 2 ^ 64)
unfolding to_string radix_loop
radix-to_string n = radix_loop-digits_before (to_string n) (suc n) n [] (omega arith)

to_string_first : (k : ℕ) → (c : ℕ) × (cs : Text) × (to_string (suc k) ≡ c ∷ cs) × (c ≢ b'0')
unfolding to_string
to_string_first k = digits_before_first (suc (suc k)) (suc k) [] (omega arith) (omega arith)

plain-to_string : (n : ℕ) → plain_number (to_string n) ≡ ok (n % 2 ^ 64)
plain-to_string zero =
    unfold plain_number parse_radix_wrapping radix_loop to_digit some_digit to_string in refl
plain-to_string (suc k) =
    let (c, cs, e, z) = to_string_first k in
    ap plain_number e
    ∙ plain_first c cs z
    ∙ ap (λ s. radix_loop s 10 0 s) (sym e)
    ∙ radix-to_string (suc k)

-- A decimal constant is read as the number that it prints, modulo 2 ^ 64.
pub parse_number-to_string : (n : ℕ) → parse_number (to_string n) ≡ ok (n % 2 ^ 64)
unfolding parse_number number_at
parse_number-to_string n =
    rw (after_hash-digits (to_string n) (to_string_digits n)) (plain-to_string n)
