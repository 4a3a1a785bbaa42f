-- ===== src/Arith/Sound/Powers.antt =====
-- Signs and powers with their fuel keep what the grammar keeps, and so do all levels down from `||`
-- (crates/expander/src/arith.rs `parse_logor` to `parse_unary`).
use cherubsh.Base.{
  ℕ, zero, suc, ◌≤◌, Bool, true, false, Bool-cases, inl, inr, ◌≡◌, refl, min, length, arith,
}
use cherubsh.Arith.{Gives, Gives-if}
use cherubsh.Arith.Words.{is_neg}
use cherubsh.Arith.Errors.{Any}
use cherubsh.Arith.Lexer.{Lexer, Tok, eof, is_eof}
use cherubsh.Arith.Eval.{Eval, Variables, step}
use cherubsh.Arith.Unary.{is_star_star, parse_unary, raised, power_at, parse_power}
use cherubsh.Arith.Operators.{
  logor_op, logand_op, bitor_op, bitxor_op, bitand_op, equality_op, relate_op, shift_op, add_op,
  mul_op,
}
use cherubsh.Arith.Grammar.{parse_logor}
use cherubsh.Arith.Sound.{
  Frame, Idle, Blames, Moves, Sound, Reads, Sound-next, Sound-look, Sound-call,
}
use cherubsh.Arith.Sound.Within.{At, At-zero, At-weaken}
use cherubsh.Arith.Sound.Binary.{
  Idle-when_active, level-Sound, logor-Arms, logand-Arms, bitor-Arms, bitxor-Arms, bitand-Arms,
  equality-Arms, relate-Arms, shift-Arms, add-Arms, mul-Arms,
}
use cherubsh.Arith.Sound.Prefix.{Kept}
use cherubsh.Arith.Sound.Signs.{unary-Sound, first_step}

star_star-not_eof : (tok : Tok) → is_star_star tok ≡ true → is_eof tok ≡ false
star_star-not_eof eof h = cc
star_star-not_eof _ h = refl

raised-Gives :
    (active : Bool) (base exp place : ℕ) (lex : Lexer)
    → Gives (Idle active) (Blames active) ⊥ (raised active base exp place lex)
unfolding raised
raised-Gives false base exp place lex = refl
raised-Gives true base exp place lex =
    Gives-if (Idle true) (Blames true) ⊥ (is_neg exp) _ _ (λ h. tt) λ h. tt

module _ {C : Type 0} (fr : Frame C) (vars : Variables C) (kept : Kept fr vars) (n : ℕ)
    (comma : Bool → Eval C ℕ) (reads : Reads fr n comma) where
  fewer : (k : ℕ) → k ≤ n → Reads fr k comma
  fewer k h m active lex c h' at = reads m active lex c (omega arith) at

  parse_unary-Reads : (k : ℕ) → k ≤ suc n → Reads fr k (parse_unary vars k comma)
  unfolding parse_unary
  parse_unary-Reads k h zero active lex c h' at = absurd (At-zero fr.src lex at)
  parse_unary-Reads zero h (suc m) active lex c h' at = absurd (omega arith)
  parse_unary-Reads (suc k) h (suc m) active lex c h' at =
      unary-Sound fr vars kept k comma (fewer k (omega arith)) m (parse_unary vars k comma active)
        active lex.cur lex c refl (omega arith)
        (λ lex' c' at'. parse_unary-Reads k (omega arith) m active lex' c' (omega arith) at') at

  power_at-Sound :
      (m : ℕ) (again : Eval C ℕ) (active : Bool) (base : ℕ) (lex : Lexer) (c₀ c : C)
      → ((lex' : Lexer) (c' : C)
          → At fr.src m lex'
          → Sound fr active c' m (Idle active) (again lex' c'))
      → Moves fr active c₀ c
      → At fr.src (suc m) lex
      → Sound fr active c₀ (suc m) (Idle active) (power_at vars again active base lex lex c)
  unfolding power_at
  power_at-Sound m again active base lex c₀ c loop moves at =
      elim (Bool-cases (is_star_star lex.cur)) [
        | inl e ↦ rw e (
            Sound-call fr active active c₀ c m (suc m) Any (Idle active) (step lex c) _ (λ k. k)
              moves
              (first_step fr vars kept n comma reads active m lex c (star_star-not_eof lex.cur e)
                at)
              λ u lex₁ c₁ at₁ moves₁ q₁.
                Sound-call fr active active c₀ c₁ m (suc m) (Idle active) (Idle active)
                  (again lex₁ c₁) _ (λ k. k) moves₁ (loop lex₁ c₁ at₁)
                  λ exp lex₂ c₂ at₂ moves₂ q₂.
                    Sound-look fr active c₀ c₂ (suc m) (Idle active)
                      (raised active base exp (min lex.tok_end (length lex.src)) lex₂) lex₂
                      (raised-Gives active base exp (min lex.tok_end (length lex.src)) lex₂) moves₂
                      (At-weaken fr.src m (suc m) lex₂ (omega arith) at₂))
        | inr e ↦ rw e (at, moves, Idle-when_active active base)
      ]

  parse_power-Reads : (k : ℕ) → k ≤ suc n → Reads fr k (parse_power vars k comma)
  unfolding parse_power
  parse_power-Reads k h zero active lex c h' at = absurd (At-zero fr.src lex at)
  parse_power-Reads zero h (suc m) active lex c h' at = absurd (omega arith)
  parse_power-Reads (suc k) h (suc m) active lex c h' at =
      Sound-next fr active c (suc m) (suc m) (Idle active) (Idle active)
        (parse_unary vars (suc k) comma active lex c) _
        (parse_unary-Reads (suc k) h (suc m) active lex c h' at)
        λ base lex₁ c₁ at₁ moves₁ q₁.
          power_at-Sound m (parse_power vars k comma active) active base lex₁ c c₁
            (λ lex' c' at'. parse_power-Reads k (omega arith) m active lex' c' (omega arith) at')
            moves₁ at₁

  pub parse_logor-Reads : (k : ℕ) → k ≤ suc n → Reads fr k (parse_logor vars k comma)
  unfolding parse_logor
  parse_logor-Reads k h =
      level-Sound fr _ k
        (level-Sound fr _ k
          (level-Sound fr _ k
            (level-Sound fr _ k
              (level-Sound fr _ k
                (level-Sound fr _ k
                  (level-Sound fr _ k
                    (level-Sound fr _ k
                      (level-Sound fr _ k
                        (level-Sound fr (parse_power vars k comma) k (parse_power-Reads k h) mul_op
                          mul-Arms)
                        add_op add-Arms)
                      shift_op shift-Arms)
                    relate_op relate-Arms)
                  equality_op equality-Arms)
                bitand_op bitand-Arms)
              bitxor_op bitxor-Arms)
            bitor_op bitor-Arms)
          logand_op logand-Arms)
        logor_op logor-Arms
