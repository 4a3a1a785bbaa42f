-- ===== src/Arith/Words.antt =====
-- The i64 operations of the evaluator (crates/expander/src/arith.rs). A word is its bit pattern, a
-- number below 2 ^ 64.
use Prim.Native.Nat.{bit_and, bit_or, bit_xor}
use cherubsh.Base.{
  ℕ, zero, suc, ◌+◌, ◌-◌, ◌*◌, ◌/◌, ◌%◌, ◌^◌, Bool, true, false, not, leb, ltb, ◌==◌, if◌then◌else◌,
}

abbrev pub wrapping_add : ℕ → ℕ → ℕ
wrapping_add a b = (a + b) % 2 ^ 64

abbrev pub wrapping_sub : ℕ → ℕ → ℕ
wrapping_sub a b = (a + 2 ^ 64 - b) % 2 ^ 64

abbrev pub wrapping_mul : ℕ → ℕ → ℕ
wrapping_mul a b = a * b % 2 ^ 64

abbrev pub wrapping_neg : ℕ → ℕ
wrapping_neg a = (2 ^ 64 - a) % 2 ^ 64

abbrev pub is_neg : ℕ → Bool
is_neg a = leb (2 ^ 63) a

abbrev pub magnitude : ℕ → ℕ
magnitude a = if is_neg a then 2 ^ 64 - a else a

abbrev pub same_sign : Bool → Bool → Bool
same_sign true b = b
same_sign false b = not b

-- towards zero; the least word divided by -1 is itself
unfoldable pub wrapping_div : ℕ → ℕ → ℕ
wrapping_div a b =
    if same_sign (is_neg a) (is_neg b)
    then magnitude a / magnitude b
    else wrapping_neg (magnitude a / magnitude b)

-- with the sign of the dividend
unfoldable pub wrapping_rem : ℕ → ℕ → ℕ
wrapping_rem a b =
    if is_neg a then wrapping_neg (magnitude a % magnitude b) else magnitude a % magnitude b

-- `(rhs as u32) & 63`
abbrev pub shift_count : ℕ → ℕ
shift_count b = b % 64

unfoldable pub wrapping_shl : ℕ → ℕ → ℕ
wrapping_shl a b = a * 2 ^ shift_count b % 2 ^ 64

-- The sign fills the places that become free.
unfoldable pub wrapping_shr : ℕ → ℕ → ℕ
wrapping_shr a b =
    if is_neg a
    then a / 2 ^ shift_count b + (2 ^ 64 - 2 ^ (64 - shift_count b))
    else a / 2 ^ shift_count b

abbrev pub word_not : ℕ → ℕ
word_not a = 2 ^ 64 - 1 - a

abbrev pub word_and : ℕ → ℕ → ℕ
word_and a b = bit_and a b

abbrev pub word_or : ℕ → ℕ → ℕ
word_or a b = bit_or a b

abbrev pub word_xor : ℕ → ℕ → ℕ
word_xor a b = bit_xor a b

-- the signed order, by the patterns with the sign bit turned
abbrev pub biased : ℕ → ℕ
biased a = (a + 2 ^ 63) % 2 ^ 64

abbrev pub word_lt : ℕ → ℕ → Bool
word_lt a b = ltb (biased a) (biased b)

abbrev pub word_le : ℕ → ℕ → Bool
word_le a b = leb (biased a) (biased b)

abbrev pub of_bool : Bool → ℕ
of_bool true = 1
of_bool false = 0

-- the loop of `pow_i64`
unfoldable pub pow_loop : ℕ → ℕ → ℕ → ℕ → ℕ
pow_loop zero exp base result = result
pow_loop (suc fuel) exp base result =
    let result' = if exp % 2 == 1 then wrapping_mul result base else result in
    let exp' = exp / 2 in
    let base' = if ltb 0 exp' then wrapping_mul base base else base in
    let more = pow_loop fuel exp' base' result' in if ltb 0 exp then more else result

-- An exponent has 64 bits.
unfoldable pub pow_i64 : ℕ → ℕ → ℕ
unfolding pow_loop
pow_i64 b e = if is_neg e then 0 else pow_loop 64 e b 1

-- What `pow_i64` is for: the product of `n` factors.
unfoldable pub power : ℕ → ℕ → ℕ
power b zero = 1
power b (suc n) = b * power b n
