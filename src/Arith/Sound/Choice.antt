-- ===== src/Arith/Sound/Choice.antt =====
-- Conditional expressions keep what the grammar keeps (crates/expander/src/arith.rs `parse_ternary`).
use cherubsh.Base.{
  ℕ, zero, suc, ◌≤◌, Bool, true, false, ◌&&◌, not, ◌==◌, Bool-cases, inl, inr, ◌≡◌, refl, arith,
}
use cherubsh.Arith.{next, expression_expected, colon_expected}
use cherubsh.Arith.Errors.{Any}
use cherubsh.Arith.Lexer.{Lexer, Tok, eof, is_eof}
use cherubsh.Arith.Eval.{Eval, Variables, step, fail_if}
use cherubsh.Arith.Grammar.{
  is_question, is_colon, parse_logor, else_branch, then_branch, parse_ternary,
}
use cherubsh.Arith.Sound.{Frame, Idle, Moves, Sound, Reads, Sound-next, Sound-call}
use cherubsh.Arith.Sound.Within.{At, At-zero, At-weaken}
use cherubsh.Arith.Sound.Binary.{Idle-when_active, and_left}
use cherubsh.Arith.Sound.Prefix.{Kept, step-Sound}
use cherubsh.Arith.Sound.Signs.{fail_if-Sound, first_step}
use cherubsh.Arith.Sound.Powers.{parse_logor-Reads}

question-not_eof : (tok : Tok) → is_question tok ≡ true → is_eof tok ≡ false
question-not_eof eof h = cc
question-not_eof _ h = refl

module _ {C : Type 0} (fr : Frame C) (vars : Variables C) (kept : Kept fr vars) (n : ℕ)
    (paren : Bool → Eval C ℕ) (reads : Reads fr n paren) where
  fewer : (k : ℕ) → k ≤ n → Reads fr k paren
  fewer k h m active lex c h' at = reads m active lex c (omega arith) at

  else_branch-Sound :
      (m : ℕ) (again : Bool → Eval C ℕ) (active : Bool) (cond t : ℕ) (lex : Lexer) (c₀ c : C)
      → Reads fr m again
      → Moves fr active c₀ c
      → At fr.src m lex
      → Sound fr active c₀ (suc m) (Idle active) (else_branch vars again active cond t lex c)
  unfolding else_branch
  else_branch-Sound m again active cond t lex c₀ c loop moves at =
      Sound-call fr active (active && cond == 0) c₀ c m (suc m) (Idle (active && cond == 0))
        (Idle active) (again (active && cond == 0) lex c) _ (and_left active (cond == 0)) moves
        (loop m (active && cond == 0) lex c (omega arith) at)
        λ f lex₁ c₁ at₁ moves₁ q₁.
          (At-weaken fr.src m (suc m) lex₁ (omega arith) at₁, moves₁, Idle-when_active active _)

  -- the part of a conditional from `:` on
  colon-Sound :
      (m : ℕ) (again : Bool → Eval C ℕ) (active : Bool) (cond t place : ℕ) (lex : Lexer) (c₀ c : C)
      → Reads fr m again
      → Moves fr active c₀ c
      → At fr.src m lex
      → Sound fr active c₀ (suc m) (Idle active) (
          next (step lex c) λ (u, rhs) c₁.
            next
              (fail_if (is_eof rhs.cur) (expression_expected rhs.src place) rhs c₁)
              λ (u₂, lex₂) c₂. else_branch vars again active cond t lex₂ c₂)
  colon-Sound m again active cond t place lex c₀ c loop moves at =
      Sound-next fr active c₀ m (suc m) Any (Idle active) (step lex c) _
        (step-Sound fr vars kept active m lex c₀ c moves at)
        λ u lex₁ c₁ at₁ moves₁ q₁.
          Sound-next fr active c₀ m (suc m) (λ (v : Unit {0}). is_eof lex₁.cur ≡ false)
            (Idle active) (fail_if (is_eof lex₁.cur) (expression_expected lex₁.src place) lex₁ c₁)
            (λ v. else_branch vars again active cond t)
            (fail_if-Sound fr vars kept n paren reads active (is_eof lex₁.cur)
              (expression_expected lex₁.src place) m lex₁ c₀ c₁ refl moves₁ at₁)
            λ v lex₂ c₂ at₂ moves₂ q₂.
              else_branch-Sound m again active cond t lex₂ c₀ c₂ loop moves₂ at₂

  then_branch-Sound :
      (m : ℕ) (again : Bool → Eval C ℕ) (active : Bool) (cond : ℕ) (lex : Lexer) (c₀ c : C)
      → m ≤ n
      → Reads fr m again
      → is_eof lex.cur ≡ false
      → Moves fr active c₀ c
      → At fr.src (suc m) lex
      → Sound fr active c₀ (suc m) (Idle active) (then_branch vars paren again active cond lex c)
  unfolding then_branch
  then_branch-Sound m again active cond lex c₀ c h loop on moves at =
      Sound-call fr active active c₀ c m (suc m) Any (Idle active) (step lex c) _ (λ k. k) moves
        (first_step fr vars kept n paren reads active m lex c on at)
        λ u lex₁ c₁ at₁ moves₁ q₁.
          Sound-next fr active c₀ m (suc m) (λ (v : Unit {0}). is_colon lex₁.cur ≡ false)
            (Idle active)
            (fail_if (is_colon lex₁.cur) (expression_expected lex₁.src lex₁.tok_start) lex₁ c₁) _
            (fail_if-Sound fr vars kept n paren reads active (is_colon lex₁.cur)
              (expression_expected lex₁.src lex₁.tok_start) m lex₁ c₀ c₁ refl moves₁ at₁)
            λ v lex₂ c₂ at₂ moves₂ q₂.
              Sound-call fr active (active && not (cond == 0)) c₀ c₂ m (suc m)
                (Idle (active && not (cond == 0))) (Idle active)
                (paren (active && not (cond == 0)) lex₂ c₂) _ (and_left active (not (cond == 0)))
                moves₂ (reads m (active && not (cond == 0)) lex₂ c₂ h at₂)
                λ t lex₃ c₃ at₃ moves₃ q₃.
                  Sound-next fr active c₀ m (suc m)
                    (λ (w : Unit {0}). not (is_colon lex₃.cur) ≡ false) (Idle active)
                    (fail_if (not (is_colon lex₃.cur)) (colon_expected lex₃.src lex₁.tok_start) lex₃
                      c₃)
                    _
                    (fail_if-Sound fr vars kept n paren reads active (not (is_colon lex₃.cur))
                      (colon_expected lex₃.src lex₁.tok_start) m lex₃ c₀ c₃ refl moves₃ at₃)
                    λ w lex₄ c₄ at₄ moves₄ q₄.
                      colon-Sound m again active cond t lex₃.tok_start lex₄ c₀ c₄ loop moves₄ at₄

  pub parse_ternary-Reads : (k : ℕ) → k ≤ suc n → Reads fr k (parse_ternary vars k paren)
  unfolding parse_ternary
  parse_ternary-Reads k h zero active lex c h' at = absurd (At-zero fr.src lex at)
  parse_ternary-Reads zero h (suc m) active lex c h' at = absurd (omega arith)
  parse_ternary-Reads (suc k) h (suc m) active lex c h' at =
      Sound-next fr active c (suc m) (suc m) (Idle active) (Idle active)
        (parse_logor vars (suc k) paren active lex c) _
        (parse_logor-Reads fr vars kept n paren reads (suc k) h (suc m) active lex c h' at)
        λ cond lex₁ c₁ at₁ moves₁ q₁. elim (Bool-cases (is_question lex₁.cur)) [
          | inl e ↦ rw e (
              then_branch-Sound m (λ active'. parse_ternary vars k paren active') active cond lex₁ c
                c₁ (omega arith)
                (λ m' active' lex' c' h'' at'.
                  parse_ternary-Reads k (omega arith) m' active' lex' c' (omega arith) at')
                (question-not_eof lex₁.cur e) moves₁ at₁)
          | inr e ↦ rw e (at₁, moves₁, Idle-when_active active cond)
        ]
