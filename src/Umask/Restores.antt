-- ===== src/Umask/Restores.antt =====
-- The builtin `umask` reads what it prints, and a failure changes nothing
-- (crates/builtins/src/umask.rs `run`).
use cherubsh.Base.{
  ◌≡◌, refl, ap, ◌∙◌, ◌^◌, ℕ, ◌+◌, ◌*◌, ◌-◌, ◌/◌, ◌%◌, ◌<◌, ◌⊎◌, Bool, true, false, ◌&&◌, Option,
  none, some, List, [], ◌∷◌, Text, codes, leb, ltb, Bool-cases, inl, inr, all, is_ascii_digit,
  arith,
}
use cherubsh.Umask.{
  Perm, Mode, character, operator, Outcome, ok, err, format_symbolic, apply_symbolic,
}
use cherubsh.Umask.RoundTrip.{apply_symbolic-format_symbolic}
use cherubsh.Umask.Run.{
  octal_after, from_octal, perm_digit, perm_of, mode_of, format_octal, Scan, operands,
  invalid_option, scan, Answer, printed, changed, set_symbolic, set_mode, run_scanned, run, Message,
  bad_option, usage,
}

perm_digit-lt : (p : Perm) → perm_digit p < 8
perm_digit-lt p = ground arith

perm_of-perm_digit : (p : Perm) → perm_of (perm_digit p) ≡ p
perm_of-perm_digit p = bits p.r p.w p.x
  where
    bits :
        (a b c : Bool)
        → perm_of (perm_digit (record { r = a; w = b; x = c })) ≡ record { r = a; w = b; x = c }
    bits true true true = refl
    bits true true false = refl
    bits true false true = refl
    bits true false false = refl
    bits false true true = refl
    bits false true false = refl
    bits false false true = refl
    bits false false false = refl

octal_digit :
    (acc d : ℕ) (s : Text)
    → d < 8
    → acc < 0o777
    → octal_after acc ((b'0' + d) ∷ s) ≡ octal_after (acc * 8 + d) s
unfolding octal_after
octal_digit acc d s h k =
    let value : acc * 8 + (b'0' + d - b'0') ≡ acc * 8 + d = omega arith in
    let good : (leb b'0' (b'0' + d) && leb (b'0' + d) b'7' && ltb (acc * 8 + d) (2 ^ 32)) ≡ true =
      ground arith in
    rw value (rw good refl)

digits_read :
    (a b c : ℕ)
    → a < 8
    → b < 8
    → c < 8
    → from_octal (b'0' ∷ (b'0' + a) ∷ (b'0' + b) ∷ (b'0' + c) ∷ []) ≡ some (a * 64 + b * 8 + c)
unfolding from_octal
digits_read a b c h k l =
    octal_digit 0 0 ((b'0' + a) ∷ (b'0' + b) ∷ (b'0' + c) ∷ []) (omega arith) (omega arith)
    ∙ octal_digit 0 a ((b'0' + b) ∷ (b'0' + c) ∷ []) h (omega arith)
    ∙ octal_digit (0 * 8 + a) b ((b'0' + c) ∷ []) k (omega arith)
    ∙ octal_digit ((0 * 8 + a) * 8 + b) c [] l (omega arith)
    ∙ unfold octal_after in ap some (omega arith)

mode_of_digits :
    (a b c : ℕ)
    → a < 8
    → b < 8
    → c < 8
    → mode_of (a * 64 + b * 8 + c) ≡ record { u = perm_of a; g = perm_of b; o = perm_of c }
mode_of_digits a b c h k l =
    let e₁ : (a * 64 + b * 8 + c) / 64 % 8 ≡ a = omega arith in
    let e₂ : (a * 64 + b * 8 + c) / 8 % 8 ≡ b = omega arith in
    let e₃ : (a * 64 + b * 8 + c) % 8 ≡ c = omega arith in rw (e₁, e₂, e₃) refl

octal_set :
    (m current : Mode) → set_mode (format_octal m) current (from_octal (format_octal m)) ≡ changed m
octal_set m current =
    let a = perm_digit m.u in
    let b = perm_digit m.g in
    let c = perm_digit m.o in
    let h = perm_digit-lt m.u in
    let k = perm_digit-lt m.g in
    let l = perm_digit-lt m.o in
    let small : ltb 0o777 (a * 64 + b * 8 + c) ≡ false = ground arith in
    ap (set_mode (format_octal m) current) (digits_read a b c h k l)
    ∙ rw small (
        ap changed (
          mode_of_digits a b c h k l
          ∙ rw (perm_of-perm_digit m.u, perm_of-perm_digit m.g, perm_of-perm_digit m.o) refl))

-- with the flag -S or without
abbrev pub form : Bool → List Text
form true = codes "-S" ∷ []
form false = []

-- What the builtin prints of a mask, in the symbolic or the octal form, is one line, and given as its
-- operand that line sets the same mask, whatever the mask is at the time; printing changes nothing.
pub run_restores :
    (symbolic : Bool) (m current : Mode)
    → (text : Text) × (run (form symbolic) m ≡ printed text m)
      × (run (text ∷ []) current ≡ changed m)
unfolding run scan run_scanned
run_restores true m current =
    (format_symbolic m, refl, ap (set_symbolic current) (apply_symbolic-format_symbolic m current))
run_restores false m current = (format_octal m, refl, octal_set m current)

-- an option is refused with a diagnostic and the usage line, an operand with a diagnostic
abbrev pub Refusal : ℕ → List Message → Type 0
Refusal status (bad_option ch ∷ messages) = (status ≡ 2) × (messages ≡ usage ∷ [])
Refusal status (usage ∷ messages) = ⊥
Refusal status (message ∷ messages) = (status ≡ 1) × (messages ≡ [])
Refusal status [] = ⊥

-- either all went well, or nothing was done
abbrev pub Ends : Mode → Answer → Type 0
Ends m a =
    (a.status ≡ 0 × a.messages ≡ []) ⊎ (a.mask ≡ m × a.output ≡ [] × Refusal a.status a.messages)

set_symbolic-Ends : (m : Mode) (r : Outcome) → Ends m (set_symbolic m r)
set_symbolic-Ends m (ok new_mask) = inl (refl, refl)
set_symbolic-Ends m (err (character ch)) = inr (refl, refl, (refl, refl))
set_symbolic-Ends m (err (operator ch)) = inr (refl, refl, (refl, refl))

set_mode-Ends : (arg : Text) (m : Mode) (number : Option ℕ) → Ends m (set_mode arg m number)
set_mode-Ends arg m (some n) = elim (Bool-cases (ltb 0o777 n)) [
  | inl e ↦ rw e (inr (refl, refl, (refl, refl)))
  | inr e ↦ rw e (inl (refl, refl))
]
set_mode-Ends arg m none = elim (Bool-cases (all is_ascii_digit arg)) [
  | inl e ↦ rw e (inr (refl, refl, (refl, refl)))
  | inr e ↦ rw e (set_symbolic-Ends m (apply_symbolic arg m))
]

run_scanned-Ends : (s : Scan) (m : Mode) → Ends m (run_scanned s m)
unfolding run_scanned
run_scanned-Ends (invalid_option ch) m = inr (refl, refl, (refl, refl))
run_scanned-Ends (operands f []) m = inl (refl, refl)
run_scanned-Ends (operands f (arg ∷ args)) m = set_mode-Ends arg m (from_octal arg)

-- A run of the builtin with any arguments ends in one of three ways: with the status 0 and without a
-- message; with the status 2, the diagnostic of a bad option and the usage line; or with the status 1
-- and one other diagnostic. In the last two cases there is no output and the mask is as it was.
pub run-Ends : (args : List Text) (m : Mode) → Ends m (run args m)
unfolding run
run-Ends args m = run_scanned-Ends (scan (record { symbolic = false; print_form = false }) args) m
