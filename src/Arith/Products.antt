-- ===== src/Arith/Products.antt =====
-- The powers of the evaluator (crates/expander/src/arith.rs `pow_i64`).
use native.Mathlib.Nat.{div-add-mod', add-mul-mod_self_right, mul_comm}
use cherubsh.Base.{
  ℕ, zero, suc, ◌+◌, ◌*◌, ◌/◌, ◌%◌, ◌^◌, ◌<◌, ltb, ◌==◌, Bool-cases, inl, inr, if◌then◌else◌, ◌≡◌,
  refl, sym, ap, ◌∙◌, arith,
}
use cherubsh.Arith.Words.{wrapping_mul, is_neg, pow_loop, pow_i64, power}

pub mod_mul : (a b w : ℕ) → a % w * b % w ≡ a * b % w
mod_mul a b w =
    let e : a * b ≡ a % w * b + a / w * b * w =
      omega (arith, ap (λ (t : ℕ). t * b) (div-add-mod' a w)) in
    sym (add-mul-mod_self_right (a % w * b) (a / w * b) w) ∙ ap (λ t. t % w) (sym e)

two_pow_suc : (n : ℕ) → 2 ^ suc n ≡ 2 * 2 ^ n
two_pow_suc n = omega arith

power_mod : (b n w : ℕ) → power (b % w) n % w ≡ power b n % w
unfolding power
power_mod b zero w = refl
power_mod b (suc n) w =
    mod_mul b (power (b % w) n) w
    ∙ ap (λ t. t % w) (mul_comm b (power (b % w) n))
    ∙ sym (mod_mul (power (b % w) n) b w)
    ∙ ap (λ t. t * b % w) (power_mod b n w)
    ∙ mod_mul (power b n) b w
    ∙ ap (λ t. t % w) (mul_comm (power b n) b)

power_square : (b n : ℕ) → power (b * b) n ≡ power b (n + n)
unfolding power
power_square b zero = refl
power_square b (suc n) =
    let twice : suc (suc (n + n)) ≡ suc n + suc n = omega arith in
    let factors : b * b * power b (n + n) ≡ b * (b * power b (n + n)) = omega arith in
    ap (λ t. b * b * t) (power_square b n) ∙ factors ∙ ap (power b) twice

power_even : (b n : ℕ) → n % 2 ≡ 0 → power b n ≡ power (b * b) (n / 2)
power_even b n h =
    let e : n ≡ n / 2 + n / 2 = omega arith in ap (power b) e ∙ sym (power_square b (n / 2))

power_odd : (b n : ℕ) → n % 2 ≡ 1 → power b n ≡ b * power (b * b) (n / 2)
unfolding power
power_odd b n h =
    let e : n ≡ suc (n / 2 + n / 2) = omega arith in
    ap (power b) e ∙ ap (λ t. b * t) (sym (power_square b (n / 2)))

-- one round of `pow_loop`
abbrev next_result : ℕ → ℕ → ℕ → ℕ
next_result exp base result = if exp % 2 == 1 then wrapping_mul result base else result

round_lem :
    (exp base result : ℕ)
    → next_result exp base result * power (base * base) (exp / 2) % 2 ^ 64
      ≡ result * power base exp % 2 ^ 64
round_lem exp base result = elim (Bool-cases (exp % 2 == 1)) [
  | inl odd ↦ rw odd (
      mod_mul (result * base) (power (base * base) (exp / 2)) (2 ^ 64)
      ∙ ap (λ t. t % 2 ^ 64)
          (omega (arith, ap (λ (t : ℕ). result * t) (power_odd base exp (ground arith)))))
  | inr even ↦ rw even (ap (λ t. result * t % 2 ^ 64) (sym (power_even base exp (ground arith))))
]

mod_right : (a b w : ℕ) → a * (b % w) % w ≡ a * b % w
mod_right a b w =
    ap (λ t. t % w) (mul_comm a (b % w)) ∙ mod_mul b a w ∙ ap (λ t. t % w) (mul_comm b a)

-- the square may be reduced
reduced_lem :
    (exp base result : ℕ)
    → result * power (wrapping_mul base base) exp % 2 ^ 64
      ≡ result * power (base * base) exp % 2 ^ 64
reduced_lem exp base result =
    sym (mod_right result (power (base * base % 2 ^ 64) exp) (2 ^ 64))
    ∙ ap (λ t. result * t % 2 ^ 64) (power_mod (base * base) exp (2 ^ 64))
    ∙ mod_right result (power (base * base) exp) (2 ^ 64)

finished :
    (base exp result : ℕ) → exp ≡ 0 → result < 2 ^ 64 → result ≡ result * power base exp % 2 ^ 64
unfolding power
finished base exp result e k = rw e (omega arith)

no_factor : (base exp : ℕ) → exp ≡ 0 → power base exp ≡ 1
unfolding power
no_factor base exp e = ap (power base) e

next_result-lt : (exp base result : ℕ) → result < 2 ^ 64 → next_result exp base result < 2 ^ 64
next_result-lt exp base result k = elim (Bool-cases (exp % 2 == 1)) [
  | inl odd ↦ rw odd (omega arith)
  | inr even ↦ rw even k
]

-- After the last round the base is not squared.
squared :
    (exp base result : ℕ)
    → result * power (if ltb 0 exp then wrapping_mul base base else base) exp % 2 ^ 64
      ≡ result * power (base * base) exp % 2 ^ 64
squared exp base result = elim (Bool-cases (ltb 0 exp)) [
  | inl more ↦ rw more (reduced_lem exp base result)
  | inr last ↦
      let e : exp ≡ 0 = ground arith in
      rw last
        (ap (λ t. result * t % 2 ^ 64) (no_factor base exp e ∙ sym (no_factor (base * base) exp e)))
]

pow_loop-power :
    (fuel exp base result : ℕ)
    → exp < 2 ^ fuel
    → result < 2 ^ 64
    → pow_loop fuel exp base result ≡ result * power base exp % 2 ^ 64
unfolding pow_loop
pow_loop-power zero exp base result h k =
    let e : exp ≡ 0 = omega arith in finished base exp result e k
pow_loop-power (suc fuel) exp base result h k = elim (Bool-cases (ltb 0 exp)) [
  | inl more ↦
      let half : exp / 2 < 2 ^ fuel = omega (arith, two_pow_suc fuel) in
      rw more (
        pow_loop-power fuel (exp / 2) (if ltb 0 (exp / 2) then wrapping_mul base base else base)
          (next_result exp base result) half (next_result-lt exp base result k)
        ∙ squared (exp / 2) base (next_result exp base result)
        ∙ round_lem exp base result)
  | inr last ↦ rw last (finished base exp result (ground arith) k)
]

-- `pow_i64` is the product of as many factors as the exponent says, modulo 2 ^ 64, where the exponent
-- is not negative, and 0 where it is negative.
pub pow_i64-power : (b e : ℕ) → pow_i64 b e ≡ (if is_neg e then 0 else power b e % 2 ^ 64)
unfolding pow_i64
pow_i64-power b e = elim (Bool-cases (is_neg e)) [
  | inl n ↦ rw n refl
  | inr n ↦
      let one : 1 * power b e ≡ power b e = omega arith in
      rw n (pow_loop-power 64 e b 1 (ground arith) (omega arith) ∙ ap (λ t. t % 2 ^ 64) one)
]
