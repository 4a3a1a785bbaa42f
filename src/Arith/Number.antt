-- ===== src/Arith/Number.antt =====
-- Integer constants (crates/expander/src/arith.rs `parse_number`, `parse_radix_wrapping`).
use cherubsh.Base.{
  ℕ, ◌+◌, ◌-◌, ◌*◌, ◌%◌, ◌^◌, Bool, ◌&&◌, ◌||◌, not, leb, ltb, ◌==◌, if◌then◌else◌, Text, [], ◌∷◌,
  drop, length, all, take_while, Option, none, some, starts_with, ℤ, pos, negsuc, is_ascii_digit,
  parse_signed,
}
use cherubsh.Arith.{
  invalid_base, invalid_number, invalid_constant, too_great_for_base, bad_digits, Res, ok, err,
  and_then,
}

-- the value of a digit behind `base#`
unfoldable pub based_digit : ℕ → ℕ → Option ℕ
based_digit base ch =
    if is_ascii_digit ch
    then some (ch - b'0')
    else if leb b'a' ch && leb ch b'z'
    then some (ch - b'a' + 10)
    else if leb b'A' ch && leb ch b'Z'
    then some (if leb base 36 then ch - b'A' + 10 else ch - b'A' + 36)
    else if ch == b'@'
    then some 62
    else if ch == b'_'
    then some 63
    else none

unfoldable pub check_digit : Text → ℕ → Option ℕ → Res ℕ
check_digit s base none = err (invalid_number s)
check_digit s base (some d) = if leb base d then err (too_great_for_base s) else ok d

unfoldable pub based_loop : Text → ℕ → ℕ → Text → Res ℕ
unfolding check_digit based_digit
based_loop s base value [] = ok value
based_loop s base value (ch ∷ digits) =
    and_then (check_digit s base (based_digit base ch))
      λ d. based_loop s base ((value * base % 2 ^ 64 + d) % 2 ^ 64) digits

-- `char::to_digit`
unfoldable pub to_digit : ℕ → ℕ → Option ℕ
to_digit radix ch =
    let digit =
      if is_ascii_digit ch
      then ch - b'0'
      else if leb b'a' ch && leb ch b'z'
      then ch - b'a' + 10
      else if leb b'A' ch && leb ch b'Z'
      then ch - b'A' + 10
      else radix in
    if ltb digit radix then some digit else none

unfoldable pub some_digit : Text → Option ℕ → Res ℕ
some_digit raw none = err (bad_digits raw)
some_digit raw (some d) = ok d

unfoldable pub radix_loop : Text → ℕ → ℕ → Text → Res ℕ
unfolding to_digit some_digit
radix_loop raw radix value [] = ok value
radix_loop raw radix value (ch ∷ digits) =
    and_then (some_digit raw (to_digit radix ch))
      λ d. radix_loop raw radix ((value * radix % 2 ^ 64 + d) % 2 ^ 64) digits

unfoldable pub parse_radix_wrapping : Text → ℕ → Text → Res ℕ
unfolding radix_loop
parse_radix_wrapping [] radix raw = err (bad_digits raw)
parse_radix_wrapping (ch ∷ digits) radix raw = radix_loop raw radix 0 (ch ∷ digits)

unfoldable pub check_base : Text → Option ℤ → Res ℕ
check_base s none = err (invalid_base s)
check_base s (some (negsuc n)) = err (invalid_base s)
check_base s (some (pos base)) =
    if base == 0
    then err (invalid_number s)
    else if leb 2 base && leb base 64
    then ok base
    else err (invalid_base s)

unfoldable pub based_number : Text → ℕ → Text → Res ℕ
unfolding based_loop
based_number s base [] = err (invalid_constant s)
based_number s base (ch ∷ digits) = based_loop s base 0 (ch ∷ digits)

-- what follows the first `#`
abbrev pub after_hash : Text → Option Text
after_hash [] = none
after_hash (c ∷ s) = if c == b'#' then some s else after_hash s

abbrev pub before_hash : Text → Text
before_hash s = take_while (λ c. not (c == b'#')) s

abbrev pub is_octal : Text → Bool
is_octal s = ltb 1 (length s) && starts_with s (b'0' ∷ []) && all is_ascii_digit (drop 1 s)

unfoldable pub plain_number : Text → Res ℕ
unfolding parse_radix_wrapping
plain_number s =
    if starts_with s (b'0' ∷ b'x' ∷ []) || starts_with s (b'0' ∷ b'X' ∷ [])
    then parse_radix_wrapping (drop 2 s) 16 s
    else if is_octal s
    then parse_radix_wrapping (drop 1 s) 8 s
    else parse_radix_wrapping s 10 s

unfoldable pub number_at : Text → Option Text → Res ℕ
unfolding plain_number based_number check_base parse_signed
number_at s none = plain_number s
number_at s (some digits) =
    and_then (check_base s (parse_signed (2 ^ 63) (before_hash s)))
      λ base. based_number s base digits

unfoldable pub parse_number : Text → Res ℕ
unfolding number_at
parse_number s = number_at s (after_hash s)
