-- ===== src/Arith/Sound/Binary.antt =====
-- The loops over operators keep what the grammar keeps (crates/expander/src/arith.rs `parse_logor` to
-- `parse_mul`).
use cherubsh.Base.{
  ℕ, zero, suc, ◌≤◌, Bool, true, false, ◌&&◌, ◌==◌, ◌≡◌, refl, Text, Option, none, some, length,
  starts_with, drop_while, is_whitespace, codes, arith,
}
use cherubsh.Arith.{Res, Gives, Gives-and_then, Gives-if}
use cherubsh.Arith.Words.{wrapping_div, wrapping_rem}
use cherubsh.Arith.Errors.{Static, Any}
use cherubsh.Arith.Lexer.{
  Lexer, Tok, plus, minus, star, slash, percent, amp_amp, pipe_pipe, amp, pipe, caret, eq_eq,
  bang_eq, less, le, greater, ge, shl, shr, plus_plus, minus_minus, is_eof, advance,
  consume_first_char_of_double_operator, arith_rhs_expected,
}
use cherubsh.Arith.Lexing.{is_double}
use cherubsh.Arith.Eval.{Eval, go, when_active}
use cherubsh.Arith.Operators.{
  Operator, total, simple, enter_operand, enter_plus_plus, nonzero, logor_op, logand_op, bitor_op,
  bitxor_op, bitand_op, equality_op, relate_op, shift_op, add_op, mul_op, combine, binary_arm,
  binary_loop, binary_level,
}
use cherubsh.Arith.Sound.{
  Frame, Idle, Blames, Moves-refl, Sound, Reads, Sound-next, Sound-go, Sound-look, Sound-weaken,
  Sound-call,
}
use cherubsh.Arith.Sound.Within.{At, At-zero, advance-At, consume-At}

-- An arm reads its operator, and its value is computed or refused.
pub record Arm (tok : Tok) (op : Operator) : Type 0 where
  pub enters :
      (src : Text) (m : ℕ) (lex : Lexer)
      → lex.cur ≡ tok
      → At src (suc m) lex
      → Gives (At src m) Static ⊥ (op.enter lex)
  pub values : (src : Text) (place v r : ℕ) → Gives Any (Blames true) ⊥ (op.value src place v r)

abbrev pub ArmOrNone : Tok → Option Operator → Type 0
ArmOrNone tok none = Unit {0}
ArmOrNone tok (some op) = Arm tok op

pub enter_operand-At :
    (src : Text) (m : ℕ) (lex : Lexer)
    → is_eof lex.cur ≡ false
    → At src (suc m) lex
    → Gives (At src m) Static ⊥ (enter_operand lex)
unfolding enter_operand arith_rhs_expected
enter_operand-At src m lex h a =
    Gives-and_then (At src m) (At src m) Static ⊥ (advance lex) _ (advance-At src m lex h a)
      λ lex' a'.
        Gives-and_then Any (At src m) Static ⊥ (arith_rhs_expected lex' lex.tok_start) _
          (Gives-if Any Static ⊥ (is_eof lex'.cur) _ _ (λ e. refl) (λ e. tt)) λ u k. a'

abbrev ReadsOperator : Tok → (Lexer → Res Lexer) → Type 0
ReadsOperator tok enter =
    (src : Text) (m : ℕ) (lex : Lexer)
    → lex.cur ≡ tok
    → At src (suc m) lex
    → Gives (At src m) Static ⊥ (enter lex)

by_advance : (tok : Tok) → is_eof tok ≡ false → ReadsOperator tok advance
by_advance tok h src m lex e a = advance-At src m lex (cc) a

by_operand : (tok : Tok) → is_eof tok ≡ false → ReadsOperator tok enter_operand
by_operand tok h src m lex e a = enter_operand-At src m lex (cc) a

by_consume :
    (tok : Tok)
    → is_double tok ≡ true
    → is_eof tok ≡ false
    → ReadsOperator tok consume_first_char_of_double_operator
by_consume tok d h src m lex e a = consume-At src m lex (cc) (cc) a

by_plus_plus : ReadsOperator plus_plus enter_plus_plus
unfolding enter_plus_plus
by_plus_plus src m lex e a =
    Gives-if (At src m) Static ⊥
      (lex.tok_end == length lex.src && starts_with (drop_while is_whitespace lex.src) (codes "--"))
      _ _ (λ h. refl) λ h. by_consume plus_plus refl refl src m lex e a

total_values :
    (f : ℕ → ℕ → ℕ) (src : Text) (place v r : ℕ) → Gives Any (Blames true) ⊥ (total f src place v r)
total_values f src place v r = tt

nonzero_values :
    (f : ℕ → ℕ → ℕ) (src : Text) (place v r : ℕ)
    → Gives Any (Blames true) ⊥ (nonzero f src place v r)
unfolding nonzero
nonzero_values f src place v r = Gives-if Any (Blames true) ⊥ (r == 0) _ _ (λ h. tt) λ h. tt

simple-Arm : (tok : Tok) (f : ℕ → ℕ → ℕ) → is_eof tok ≡ false → Arm tok (simple f)
simple-Arm tok f h = record { enters = by_advance tok h; values = total_values f }

abbrev pub Arms : (Tok → Option Operator) → Type 0
Arms ops = (tok : Tok) → ArmOrNone tok (ops tok)

pub logor-Arms : Arms logor_op
logor-Arms pipe_pipe = record { enters = by_advance pipe_pipe refl; values = λ src place v r. tt }
logor-Arms _ = tt

pub logand-Arms : Arms logand_op
logand-Arms amp_amp = record { enters = by_advance amp_amp refl; values = λ src place v r. tt }
logand-Arms _ = tt

pub bitor-Arms : Arms bitor_op
bitor-Arms pipe = simple-Arm pipe _ refl
bitor-Arms _ = tt

pub bitxor-Arms : Arms bitxor_op
bitxor-Arms caret = simple-Arm caret _ refl
bitxor-Arms _ = tt

pub bitand-Arms : Arms bitand_op
bitand-Arms amp = simple-Arm amp _ refl
bitand-Arms _ = tt

pub equality-Arms : Arms equality_op
equality-Arms eq_eq = simple-Arm eq_eq _ refl
equality-Arms bang_eq = simple-Arm bang_eq _ refl
equality-Arms _ = tt

pub relate-Arms : Arms relate_op
relate-Arms less = simple-Arm less _ refl
relate-Arms le = simple-Arm le _ refl
relate-Arms greater = simple-Arm greater _ refl
relate-Arms ge = simple-Arm ge _ refl
relate-Arms _ = tt

pub shift-Arms : Arms shift_op
shift-Arms shl = simple-Arm shl _ refl
shift-Arms shr = simple-Arm shr _ refl
shift-Arms _ = tt

pub add-Arms : Arms add_op
add-Arms plus = record { enters = by_operand plus refl; values = λ src place v r. tt }
add-Arms plus_plus = record { enters = by_plus_plus; values = λ src place v r. tt }
add-Arms minus = record { enters = by_operand minus refl; values = λ src place v r. tt }
add-Arms minus_minus = record {
  enters = by_consume minus_minus refl refl;
  values = λ src place v r. tt;
}
add-Arms _ = tt

pub mul-Arms : Arms mul_op
mul-Arms star = record { enters = by_operand star refl; values = λ src place v r. tt }
mul-Arms slash = record { enters = by_operand slash refl; values = nonzero_values wrapping_div }
mul-Arms percent = record { enters = by_operand percent refl; values = nonzero_values wrapping_rem }
mul-Arms _ = tt

combine-Gives :
    (tok : Tok) (op : Operator) (active : Bool) (src : Text) (place v r : ℕ)
    → Arm tok op
    → Idle active v
    → Gives (Idle active) (Blames active) ⊥ (combine op active src place v r)
unfolding combine
combine-Gives tok op true src place v r arm h = arm.values src place v r
combine-Gives tok op false src place v r arm h = h

pub and_left : (a b : Bool) → (a && b) ≡ true → a ≡ true
and_left a b h = ground arith

pub Idle-when_active : (active : Bool) (v : ℕ) → Idle active (when_active active v)
Idle-when_active true v = tt
Idle-when_active false v = refl

module _ {C : Type 0} (fr : Frame C) (lower : Bool → Eval C ℕ) (n : ℕ)
    (reads : Reads fr n lower) where
  arm-Sound :
      (m : ℕ) (active : Bool) (v : ℕ) (again : ℕ → Eval C ℕ) (lex : Lexer) (c : C)
      (o : Option Operator)
      → m ≤ n
      → ((w : ℕ) (lex' : Lexer) (c' : C)
          → Idle active w
          → At fr.src m lex'
          → Sound fr active c' m (Idle active) (again w lex' c'))
      → ArmOrNone lex.cur o
      → Idle active v
      → At fr.src (suc m) lex
      → Sound fr active c (suc m) (Idle active) (binary_arm lower again active v o lex c)
  unfolding binary_arm
  arm-Sound m active v again lex c none h loop arm idle at = (at, Moves-refl fr active c, idle)
  arm-Sound m active v again lex c (some op) h loop arm idle at =
      Sound-next fr active c m (suc m) Any (Idle active) (go op.enter lex c) _
        (Sound-go fr active c c m (op.enter lex) (arm.enters fr.src m lex refl at)
          (Moves-refl fr active c))
        λ u lex₁ c₁ at₁ moves₁ q₁.
          Sound-call fr active (active && op.rhs_active v) c c₁ m (suc m)
            (Idle (active && op.rhs_active v)) (Idle active)
            (lower (active && op.rhs_active v) lex₁ c₁) _ (and_left active (op.rhs_active v)) moves₁
            (reads m (active && op.rhs_active v) lex₁ c₁ h at₁)
            λ r lex₂ c₂ at₂ moves₂ q₂.
              Sound-next fr active c m (suc m) (Idle active) (Idle active) _ again
                (Sound-look fr active c c₂ m (Idle active)
                  (combine op active lex₂.src lex₁.tok_start v r) lex₂
                  (combine-Gives lex.cur op active lex₂.src lex₁.tok_start v r arm idle) moves₂ at₂)
                λ w lex₃ c₃ at₃ moves₃ q₃.
                  Sound-weaken fr active active c c₃ m (suc m) (Idle active) (Idle active)
                    (again w lex₃ c₃) (λ e. e) (omega arith) moves₃ (λ r q. q)
                    (loop w lex₃ c₃ q₃ at₃)

  module _ (ops : Tok → Option Operator) (arms : Arms ops) where
    loop-Sound :
        (k m : ℕ) (active : Bool) (v : ℕ) (lex : Lexer) (c : C)
        → m ≤ k
        → k ≤ suc n
        → Idle active v
        → At fr.src m lex
        → Sound fr active c m (Idle active) (binary_loop ops lower k active v lex c)
    unfolding binary_loop
    loop-Sound zero zero active v lex c h₁ h₂ idle at = absurd (At-zero fr.src lex at)
    loop-Sound zero (suc m) active v lex c h₁ h₂ idle at = absurd (omega arith)
    loop-Sound (suc k) zero active v lex c h₁ h₂ idle at = absurd (At-zero fr.src lex at)
    loop-Sound (suc k) (suc m) active v lex c h₁ h₂ idle at =
        arm-Sound m active v (λ v'. binary_loop ops lower k active v') lex c (ops lex.cur)
          (omega arith)
          (λ w lex' c' q at'. loop-Sound k m active w lex' c' (omega arith) (omega arith) q at')
          (arms lex.cur) idle at

    pub level-Sound : Reads fr n (binary_level ops lower n)
    unfolding binary_level
    level-Sound m active lex c h at =
        Sound-next fr active c m m (Idle active) (Idle active) (lower active lex c) _
          (reads m active lex c h at)
          λ v lex₁ c₁ at₁ moves₁ q₁.
            Sound-call fr active active c c₁ m m (Idle active) (Idle active)
              (binary_loop ops lower n active v lex₁ c₁) _ (λ e. e) moves₁
              (loop-Sound n m active v lex₁ c₁ h (omega arith) q₁ at₁)
              λ w lex₂ c₂ at₂ moves₂ q₂. (at₂, moves₂, Idle-when_active active w)
