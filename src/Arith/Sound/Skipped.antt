-- ===== src/Arith/Sound/Skipped.antt =====
-- Assignments by `/=` and `%=` where nothing is evaluated (crates/expander/src/arith.rs
-- `parse_assign`, `assigned_value`).
use cherubsh.Base.{ℕ, suc, ◌<◌, Bool, true, false, ◌≡◌, refl, ap, ◌∙◌, Text, length, some, arith}
use cherubsh.Arith.{ok, Outcome, done, fails, out_of_fuel, Gives, Post, next}
use cherubsh.Arith.Errors.{Static, Any}
use cherubsh.Arith.Lexer.{Lexer, ident, is_eof, advance}
use cherubsh.Arith.Lexing.{IsLexer}
use cherubsh.Arith.Eval.{Eval, Variables, look, step}
use cherubsh.Arith.Grammar.{
  Opcode, set, div, rem, divides, assignment_opcode, assigned_value, named_opcode, assigns,
  check_divisor, assign_inactive, assign_value, assign_at, parse_assign, parse_ternary, parse_comma,
}
use cherubsh.Arith.Sound.{Frame, Idle, Sound, Reads, Sound-next, Sound-look, Sound-call}
use cherubsh.Arith.Sound.Within.{At, At-weaken}
use cherubsh.Arith.Sound.Prefix.{step-Sound}
use cherubsh.Arith.Sound.Signs.{first_step}
use cherubsh.Arith.Sound.Assigns.{check_divisor-Gives, parse_assign-Reads}
use cherubsh.Arith.Sound.Whole.{parse_comma-Reads}
use cherubsh.Arith.Sound.Runs.{free, free-Kept, start-At}

abbrev NoValue : ℕ → Type 0
NoValue v = ⊥

by_zero :
    (op : Opcode) (lhs rhs : ℕ)
    → divides op ≡ true
    → rhs ≡ 0
    → Gives NoValue Static ⊥ (assigned_value op lhs rhs)
unfolding assigned_value
by_zero set lhs rhs d z = cc
by_zero div lhs rhs d z = rw z refl
by_zero rem lhs rhs d z = rw z refl
by_zero _ lhs rhs d z = cc

module _ {C : Type 0} (vars : Variables C) (n : ℕ) (src : Text) where
  abbrev fr : Frame C
  fr = free src (Unit {0})

  abbrev paren : Bool → Eval C ℕ
  paren active = parse_comma vars n active

  inactive-Sound :
      (m : ℕ) (again : Eval C ℕ) (op : Opcode) (lex : Lexer) (c₀ c : C)
      → divides op ≡ true
      → ((l : Lexer) (c' : C) → At src m l → Sound fr false c' m (Idle false) (again l c'))
      → c ≡ c₀
      → At src m lex
      → Sound fr false c₀ m NoValue (assign_inactive vars again op lex c)
  unfolding assign_inactive
  inactive-Sound m again op lex c₀ c d loop moves at =
      Sound-call fr false false c₀ c m m (Idle false) NoValue (again lex c) _ (λ k. k) moves
        (loop lex c at)
        λ rhs lex₁ c₁ at₁ moves₁ q₁.
          Sound-next fr false c₀ m m Any NoValue
            (look (check_divisor false op rhs lex.tok_start) lex₁ c₁)
            (λ u l c. next (look (λ l'. assigned_value op 0 rhs) l c) λ (v, l₂) c₂. done (0, l₂) c₂)
            (Sound-look fr false c₀ c₁ m Any (check_divisor false op rhs lex.tok_start lex₁) lex₁
              (check_divisor-Gives false op rhs lex.tok_start lex₁) moves₁ at₁)
            λ u lex₂ c₂ at₂ moves₂ q₂.
              Sound-next fr false c₀ m m NoValue NoValue
                (look (λ l. assigned_value op 0 rhs) lex₂ c₂) (λ v l c. done (0, l) c)
                (Sound-look fr false c₀ c₂ m NoValue (assigned_value op 0 rhs) lex₂
                  (by_zero op 0 rhs d q₁) moves₂ at₂)
                λ v lex₃ c₃ at₃ moves₃ q₃. absurd q₃

  seen_name-Sound :
      (m : ℕ) (ternary again : Bool → Eval C ℕ) (name : Text) (op : Opcode) (lex : Lexer) (c : C)
      → divides op ≡ true
      → Reads fr m again
      → At src m lex
      → is_eof lex.cur ≡ false
      → Sound fr false c m NoValue (assign_at vars ternary again false (some (name, op)) lex c)
  unfolding assign_at assign_value
  seen_name-Sound m ternary again name op lex c d loop at on =
      Sound-call fr false false c c m m Any NoValue (step lex c) _ (λ k. k) refl
        (first_step fr vars (free-Kept src vars) m again loop false m lex c on
          (At-weaken src m (suc m) lex (omega arith) at))
        λ u lex₁ c₁ at₁ moves₁ q₁.
          Sound-next fr false c m m Any NoValue (step lex₁ c₁) _
            (step-Sound fr vars (free-Kept src vars) false m lex₁ c c₁ moves₁ at₁)
            λ u₂ lex₂ c₂ at₂ moves₂ q₂.
              inactive-Sound m (again false) op lex₂ c c₂ d
                (λ l c' at'. loop m false l c' (omega arith) at') moves₂ at₂

  seen :
      (lex lookahead : Lexer) (name : Text) (op : Opcode)
      → advance lex ≡ ok lookahead
      → assignment_opcode lookahead.cur ≡ some op
      → assigns lex (ident name) ≡ ok (some (name, op))
  unfolding assigns
  seen lex lookahead name op e f = rw e (ap (λ o. ok (named_opcode name o)) f)

skipped_lem :
    {C : Type 0} (r : Outcome C (ℕ × Lexer)) (src : Text) (m : ℕ) (c : C)
    → Sound (free src (Unit {0})) false c m NoValue r
    → Post (λ v c'. ⊥) (λ e c'. Static e × (c' ≡ c)) ⊥ r
skipped_lem (done v c') src m c h = h.2
skipped_lem (fails e c') src m c h = (h.1, h.0)
skipped_lem out_of_fuel src m c h = h

-- An assignment by `/=` or `%=` in a part that is not evaluated always fails, whatever its right side
-- is: it has no value, although nothing is divided there.
pub skipped_division-fails :
    {C : Type 0} (vars : Variables C) (n : ℕ) (lex lookahead : Lexer) (name : Text) (op : Opcode)
    (c : C)
    → IsLexer lex
    → length lex.src < n
    → lex.cur ≡ ident name
    → advance lex ≡ ok lookahead
    → assignment_opcode lookahead.cur ≡ some op
    → divides op ≡ true
    → Post
        (λ v c'. ⊥)
        (λ e c'. Static e × (c' ≡ c))
        ⊥
        (parse_assign vars (suc n) (λ active. parse_comma vars n active) false lex c)
unfolding parse_assign
skipped_division-fails vars n lex lookahead name op c valid fuel at_name e f d =
    let m = suc (length lex.src) in
    let fr' = free lex.src (Unit {0}) in
    let kept = free-Kept lex.src vars in
    let reads = parse_comma-Reads fr' vars kept n in
    let s : assigns lex lex.cur ≡ ok (some (name, op)) =
      ap (assigns lex) at_name ∙ seen vars n lex.src lex lookahead name op e f in
    rw s (
      skipped_lem _ lex.src m c (
        seen_name-Sound vars n lex.src m
          (parse_ternary vars (suc n) (λ active. parse_comma vars n active))
          (λ active'. parse_assign vars n (λ active. parse_comma vars n active) active') name op lex
          c d
          (λ m' active' lex' c' h at'.
            parse_assign-Reads fr' vars kept n (λ active. parse_comma vars n active)
              (λ m₂ a₂ l₂ c₂ h₂ at₂. reads m₂ a₂ l₂ c₂ h₂ at₂) n (omega arith) m' active' lex' c'
              (omega arith) at')
          (start-At lex valid) (ap is_eof at_name)))
