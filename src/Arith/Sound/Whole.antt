-- ===== src/Arith/Sound/Whole.antt =====
-- The whole grammar keeps what it is to keep (crates/expander/src/arith.rs `parse_comma`).
use cherubsh.Base.{ℕ, zero, suc, ◌≤◌, Bool, true, false, Bool-cases, inl, inr, ◌≡◌, refl, arith}
use cherubsh.Arith.Errors.{Any}
use cherubsh.Arith.Lexer.{Lexer, Tok, eof, is_eof}
use cherubsh.Arith.Eval.{Eval, Variables, step}
use cherubsh.Arith.Grammar.{is_comma, parse_assign, comma_loop, comma_level, parse_comma}
use cherubsh.Arith.Sound.{
  Frame, Idle, Moves-refl, Sound, Reads, Sound-next, Sound-weaken, Sound-call,
}
use cherubsh.Arith.Sound.Within.{At, At-zero}
use cherubsh.Arith.Sound.Binary.{Idle-when_active}
use cherubsh.Arith.Sound.Prefix.{Kept}
use cherubsh.Arith.Sound.Signs.{first_step}
use cherubsh.Arith.Sound.Assigns.{parse_assign-Reads}

comma-not_eof : (tok : Tok) → is_comma tok ≡ true → is_eof tok ≡ false
comma-not_eof eof h = cc
comma-not_eof _ h = refl

module _ {C : Type 0} (fr : Frame C) (vars : Variables C) (kept : Kept fr vars) where
  module _ (n : ℕ) (paren : Bool → Eval C ℕ) (reads : Reads fr n paren) where
    comma_loop-Sound :
        (k m : ℕ) (assign : Bool → Eval C ℕ) (active : Bool) (v : ℕ) (lex : Lexer) (c : C)
        → m ≤ k
        → k ≤ suc n
        → Reads fr k assign
        → Idle active v
        → At fr.src m lex
        → Sound fr active c m (Idle active) (comma_loop vars k assign active v lex c)
    unfolding comma_loop
    comma_loop-Sound k zero assign active v lex c h₁ h₂ level idle at =
        absurd (At-zero fr.src lex at)
    comma_loop-Sound zero (suc m) assign active v lex c h₁ h₂ level idle at = absurd (omega arith)
    comma_loop-Sound (suc k) (suc m) assign active v lex c h₁ h₂ level idle at =
        elim (Bool-cases (is_comma lex.cur)) [
          | inl e ↦ rw e (
              Sound-next fr active c m (suc m) Any (Idle active) (step lex c) _
                (first_step fr vars kept n paren reads active m lex c (comma-not_eof lex.cur e) at)
                λ u lex₁ c₁ at₁ moves₁ q₁.
                  Sound-call fr active active c c₁ m (suc m) (Idle active) (Idle active)
                    (assign active lex₁ c₁) _ (λ k. k) moves₁
                    (level m active lex₁ c₁ (omega arith) at₁)
                    λ w lex₂ c₂ at₂ moves₂ q₂.
                      Sound-weaken fr active active c c₂ m (suc m) (Idle active) (Idle active) _
                        (λ k. k) (omega arith) moves₂ (λ v q. q)
                        (comma_loop-Sound k m assign active w lex₂ c₂ (omega arith) (omega arith)
                          (λ m' active' lex' c' h at'. level m' active' lex' c' (omega arith) at')
                          q₂ at₂))
          | inr e ↦ rw e (at, Moves-refl fr active c, idle)
        ]

    comma_level-Reads : Reads fr (suc n) (comma_level vars (suc n) paren)
    unfolding comma_level
    comma_level-Reads m active lex c h at =
        Sound-next fr active c m m (Idle active) (Idle active)
          (parse_assign vars (suc n) paren active lex c) _
          (parse_assign-Reads fr vars kept n paren reads (suc n) (omega arith) m active lex c h at)
          λ v lex₁ c₁ at₁ moves₁ q₁.
            Sound-call fr active active c c₁ m m (Idle active) (Idle active)
              (comma_loop vars (suc n) (parse_assign vars (suc n) paren) active v lex₁ c₁) _
              (λ k. k) moves₁
              (comma_loop-Sound (suc n) m (parse_assign vars (suc n) paren) active v lex₁ c₁ h
                (omega arith) (parse_assign-Reads fr vars kept n paren reads (suc n) (omega arith))
                q₁ at₁)
              λ w lex₂ c₂ at₂ moves₂ q₂. (at₂, moves₂, Idle-when_active active w)

  pub parse_comma-Reads : (n : ℕ) → Reads fr n (parse_comma vars n)
  unfolding parse_comma
  parse_comma-Reads n zero active lex c h at = absurd (At-zero fr.src lex at)
  parse_comma-Reads zero (suc m) active lex c h at = absurd (omega arith)
  parse_comma-Reads (suc n) (suc m) active lex c h at =
      comma_level-Reads n (λ active'. parse_comma vars n active')
        (λ m' active' lex' c' h' at'. parse_comma-Reads n m' active' lex' c' h' at') (suc m) active
        lex c h at
