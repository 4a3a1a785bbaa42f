-- ===== src/Signals/Names.antt =====
-- Trap names and trap kinds (crates/common/src/signals.rs).
use cherubsh.Base.{
  ◌≡◌, refl, ℕ, zero, suc, ◌≤◌, ◌<◌, Bool, true, false, ◌&&◌, ◌||◌, Option, none, some, ◌==◌,
  Bool-cases, inl, inr, pos, negsuc, arith, parse_signed, to_string,
}
use cherubsh.Signals.{
  TrapKind, numeric, exit_trap, err_trap, debug_trap, return_trap, nsig, numbered, parse_stripped,
  parse, as_str,
}

-- the kinds that the shell keeps traps for
abbrev pub IsKind : TrapKind → Type 0
IsKind (numeric (pos n)) = (1 ≤ n) × (n < nsig)
IsKind (numeric (negsuc n)) = ⊥
IsKind exit_trap = Unit
IsKind err_trap = Unit
IsKind debug_trap = Unit
IsKind return_trap = Unit

-- every number below passes
all_below : ℕ → (ℕ → Bool) → Bool
all_below zero p = true
all_below (suc n) p = p n && all_below n p

below-all_below : (n i : ℕ) (p : ℕ → Bool) → all_below n p ≡ true → i < n → p i ≡ true
unfolding all_below
below-all_below zero i p h l = absurd (omega arith)
below-all_below (suc n) i p h l = elim (Bool-cases (i == n)) [
  | inl e ↦ let z : i ≡ n = ground arith in rw z (ground arith)
  | inr e ↦ below-all_below n i p (ground arith) (ground arith)
]

is_number : ℕ → Option TrapKind → Bool
is_number n (some (numeric (pos m))) = m == n
is_number n _ = false

is_number_lem : (n : ℕ) (o : Option TrapKind) → is_number n o ≡ true → o ≡ some (numeric (pos n))
unfolding is_number
is_number_lem n (some (numeric (pos m))) h = let z : m ≡ n = ground arith in rw z refl
is_number_lem n none h = absurd cc
is_number_lem n (some (numeric (negsuc m))) h = absurd cc
is_number_lem n (some exit_trap) h = absurd cc
is_number_lem n (some err_trap) h = absurd cc
is_number_lem n (some debug_trap) h = absurd cc
is_number_lem n (some return_trap) h = absurd cc

numbers_checked : all_below nsig (λ n. n == 0 || is_number n (parse (to_string n))) ≡ true
unfolding all_below is_number parse parse_stripped parse_signed to_string numbered
numbers_checked = refl

-- What is printed of a kind that the shell keeps traps for, it reads back as that kind.
pub parse-as_str : (k : TrapKind) → IsKind k → parse (as_str k) ≡ some k
unfolding parse as_str parse_stripped
parse-as_str (numeric (pos n)) (l, u) =
    let checked =
      below-all_below nsig n (λ m. m == 0 || is_number m (parse (to_string m))) numbers_checked u in
    is_number_lem n (parse (to_string n)) (ground arith)
parse-as_str (numeric (negsuc n)) h = elim h [ ]
parse-as_str exit_trap h = refl
parse-as_str err_trap h = refl
parse-as_str debug_trap h = refl
parse-as_str return_trap h = refl
