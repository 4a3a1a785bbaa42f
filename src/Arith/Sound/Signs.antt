-- ===== src/Arith/Sound/Signs.antt =====
-- The operands, the signs in front of them and the powers keep what the grammar keeps
-- (crates/expander/src/arith.rs `parse_power`, `parse_unary`, `parse_postfix`, `parse_primary`).
use cherubsh.Base.{ℕ, suc, ◌≤◌, Bool, true, false, not, ◌==◌, ◌≡◌, refl, Text, arith, ap}
use cherubsh.Arith.{
  ArithError, Res, ok, err, no_fuel, Gives, next, missing_rparen, operand_expected,
}
use cherubsh.Arith.Words.{wrapping_neg, word_not, of_bool}
use cherubsh.Arith.Errors.{Static, Any}
use cherubsh.Arith.Lexer.{
  Lexer, Tok, num, ident, plus, minus, lparen, bang, tilde, plus_plus, minus_minus, is_eof,
  consume_first_char_of_double_operator,
}
use cherubsh.Arith.Lexing.{is_double}
use cherubsh.Arith.Eval.{Eval, Variables, go, look, step, fail_if}
use cherubsh.Arith.Operators.{enter_operand}
use cherubsh.Arith.Unary.{
  prefix_inc_dec_has_target, is_rparen, ident_value, primary_at, postfix_at, prefixed, sign_of,
  prefix_op, unary_at,
}
use cherubsh.Arith.Sound.{
  blame-Static, Frame, Idle, Moves, Moves-refl, Sound, Reads, Sound-next, Sound-go, Sound-access,
  Sound-weaken, Sound-call,
}
use cherubsh.Arith.Sound.Within.{At, At-weaken, advance-At, consume-At}
use cherubsh.Arith.Sound.Binary.{enter_operand-At, Idle-when_active}
use cherubsh.Arith.Sound.Prefix.{
  Kept, has_target-Gives, step-Sound, apply_pre-Sound, postfix_name-Sound,
}

module _ {C : Type 0} (fr : Frame C) (vars : Variables C) (kept : Kept fr vars) (n : ℕ)
    (comma : Bool → Eval C ℕ) (reads : Reads fr n comma) where
  pub fail_if-Sound :
      (active b : Bool) (e : ArithError) (m : ℕ) (lex : Lexer) (c₀ c : C)
      → Static e
      → Moves fr active c₀ c
      → At fr.src m lex
      → Sound fr active c₀ m (λ (u : Unit {0}). b ≡ false) (fail_if b e lex c)
  fail_if-Sound true true e m lex c₀ c static moves at = (moves, tt)
  fail_if-Sound false true e m lex c₀ c static moves at = (moves, static)
  fail_if-Sound active false e m lex c₀ c static moves at = (at, moves, refl)

  load_ident-Sound :
      (active : Bool) (name : Text) (m : ℕ) (lex : Lexer) (c₀ c : C)
      → Moves fr active c₀ c
      → At fr.src m lex
      → Sound fr active c₀ m (Idle active) (ident_value vars active name lex c)
  unfolding ident_value
  load_ident-Sound true name m lex c₀ c moves at =
      Sound-access fr c₀ c m lex (vars.load_ident name) (kept.loads_ident name) moves at
  load_ident-Sound false name m lex c₀ c moves at = (at, moves, refl)

  pub first_step :
      (active : Bool) (m : ℕ) (lex : Lexer) (c : C)
      → is_eof lex.cur ≡ false
      → At fr.src (suc m) lex
      → Sound fr active c m (Any {A = Unit {0}}) (step lex c)
  first_step active m lex c on at =
      Sound-go fr active c c m _ (advance-At fr.src m lex on at) (Moves-refl fr active c)

  primary-Sound :
      (active : Bool) (tok : Tok) (m : ℕ) (lex : Lexer) (c : C)
      → lex.cur ≡ tok
      → m ≤ n
      → At fr.src (suc m) lex
      → Sound fr active c (suc m) (Idle active) (primary_at vars comma active tok lex c)
  unfolding primary_at
  primary-Sound active (num v) m lex c e h at =
      Sound-next fr active c m (suc m) Any (Idle active) (step lex c) _
        (first_step active m lex c (ap is_eof e) at)
        λ u lex₁ c₁ at₁ moves₁ q₁.
          (At-weaken fr.src m (suc m) lex₁ (omega arith) at₁, moves₁, Idle-when_active active v)
  primary-Sound active (ident name) m lex c e h at =
      Sound-next fr active c m (suc m) Any (Idle active) (step lex c) _
        (first_step active m lex c (ap is_eof e) at)
        λ u lex₁ c₁ at₁ moves₁ q₁.
          load_ident-Sound active name (suc m) lex₁ c c₁ moves₁
            (At-weaken fr.src m (suc m) lex₁ (omega arith) at₁)
  primary-Sound active lparen m lex c e h at =
      Sound-next fr active c m (suc m) Any (Idle active) (step lex c) _
        (first_step active m lex c (ap is_eof e) at)
        λ u lex₁ c₁ at₁ moves₁ q₁.
          Sound-call fr active active c c₁ m (suc m) (Idle active) (Idle active)
            (comma active lex₁ c₁) _ (λ k. k) moves₁ (reads m active lex₁ c₁ h at₁)
            λ v lex₂ c₂ at₂ moves₂ q₂.
              Sound-next fr active c m (suc m) (λ (u : Unit {0}). not (is_rparen lex₂.cur) ≡ false)
                (Idle active)
                (fail_if (not (is_rparen lex₂.cur)) (missing_rparen lex₂.src lex₂.tok_start) lex₂
                  c₂)
                _
                (fail_if-Sound active (not (is_rparen lex₂.cur))
                  (missing_rparen lex₂.src lex₂.tok_start) m lex₂ c c₂ refl moves₂ at₂)
                λ u₃ lex₃ c₃ at₃ moves₃ q₃.
                  Sound-next fr active c m (suc m) Any (Idle active) (step lex₃ c₃) _
                    (step-Sound fr vars kept active m lex₃ c c₃ moves₃ at₃)
                    λ u₄ lex₄ c₄ at₄ moves₄ q₄. (
                      At-weaken fr.src m (suc m) lex₄ (omega arith) at₄,
                      moves₄,
                      Idle-when_active active v,
                    )
  primary-Sound active _ m lex c e h at =
      (Moves-refl fr active c, blame-Static active (operand_expected lex.src lex.tok_start) refl)

  postfix-Sound :
      (active : Bool) (tok : Tok) (m : ℕ) (lex : Lexer) (c : C)
      → lex.cur ≡ tok
      → m ≤ n
      → At fr.src (suc m) lex
      → Sound fr active c (suc m) (Idle active) (postfix_at vars comma active tok lex c)
  unfolding postfix_at
  postfix-Sound active (ident name) m lex c e h at =
      postfix_name-Sound fr vars kept active name (suc m) lex c at
  postfix-Sound active tok m lex c e h at = primary-Sound active tok m lex c e h at

  abbrev pub AgainReads : ℕ → Bool → Eval C ℕ → Type 0
  AgainReads m active again =
      (lex : Lexer) (c : C) → At fr.src m lex → Sound fr active c m (Idle active) (again lex c)

  sign_of-Sound :
      (f : ℕ → ℕ) (m : ℕ) (active : Bool) (again : Eval C ℕ)
      → AgainReads m active again
      → AgainReads m active (sign_of vars f active again)
  unfolding sign_of
  sign_of-Sound f m active again loop lex c at =
      Sound-next fr active c m m (Idle active) (Idle active) (again lex c) _ (loop lex c at)
        λ v lex₁ c₁ at₁ moves₁ q₁. (at₁, moves₁, Idle-when_active active (f v))

  -- an operand behind what `enter` reads
  entered-Sound :
      (m : ℕ) (active : Bool) (again : Eval C ℕ) (lex : Lexer) (c : C) (enter : Lexer → Res Lexer)
      → AgainReads m active again
      → Gives (At fr.src m) Static ⊥ (enter lex)
      → Sound fr active c (suc m) (Idle active) (next (go enter lex c) λ (u, l) c'. again l c')
  entered-Sound m active again lex c enter loop h =
      Sound-next fr active c m (suc m) Any (Idle active) (go enter lex c) (λ u. again)
        (Sound-go fr active c c m (enter lex) h (Moves-refl fr active c))
        λ u lex₁ c₁ at₁ moves₁ q₁.
          Sound-weaken fr active active c c₁ m (suc m) (Idle active) (Idle active) (again lex₁ c₁)
            (λ k. k) (omega arith) moves₁ (λ v q. q) (loop lex₁ c₁ at₁)

  prefixed-Sound :
      (increment active target : Bool) (signed : Eval C ℕ) (m : ℕ) (lex : Lexer) (c : C)
      → m ≤ n
      → is_double lex.cur ≡ true
      → is_eof lex.cur ≡ false
      → AgainReads m active signed
      → At fr.src (suc m) lex
      → Sound fr active c
          (suc m)
          (Idle active)
          (prefixed vars n increment active signed target lex c)
  unfolding prefixed
  prefixed-Sound increment active true signed m lex c h d on loop at =
      Sound-next fr active c m (suc m) Any (Idle active) (step lex c) _
        (first_step active m lex c on at)
        λ u lex₁ c₁ at₁ moves₁ q₁.
          Sound-weaken fr active active c c₁ m (suc m) (Idle active) (Idle active) _ (λ k. k)
            (omega arith) moves₁ (λ v q. q)
            (apply_pre-Sound fr vars kept n increment active lex.tok_end m lex₁ c₁ c₁ h
              (Moves-refl fr active c₁) at₁)
  prefixed-Sound increment active false signed m lex c h d on loop at =
      entered-Sound m active signed lex c consume_first_char_of_double_operator loop
        (consume-At fr.src m lex d on at)

  inc_dec-Sound :
      (increment active : Bool) (signed : Eval C ℕ) (m : ℕ) (lex : Lexer) (c : C)
      → m ≤ n
      → is_double lex.cur ≡ true
      → is_eof lex.cur ≡ false
      → AgainReads m active signed
      → At fr.src (suc m) lex
      → Sound fr active c (suc m) (Idle active) (
          next
            (look (prefix_inc_dec_has_target n increment) lex c)
            λ (target, l) c'. prefixed vars n increment active signed target l c')
  inc_dec-Sound increment active signed m lex c h d on loop at =
      looked (prefix_inc_dec_has_target n increment lex)
        (has_target-Gives fr.src n m increment lex h on at)
    where
      looked :
          (r : Res Bool)
          → Gives Any Static ⊥ r
          → Sound fr active c (suc m) (Idle active) (
              next
                (look (λ l. r) lex c)
                λ (target, l) c'. prefixed vars n increment active signed target l c')
      looked (ok target) g = prefixed-Sound increment active target signed m lex c h d on loop at
      looked (err e) g = (Moves-refl fr active c, blame-Static active e g)
      looked no_fuel g = absurd g

  pub unary-Sound :
      (m : ℕ) (again : Eval C ℕ) (active : Bool) (tok : Tok) (lex : Lexer) (c : C)
      → lex.cur ≡ tok
      → m ≤ n
      → AgainReads m active again
      → At fr.src (suc m) lex
      → Sound fr active c (suc m) (Idle active) (unary_at vars n comma again active tok lex c)
  unfolding unary_at prefix_op
  unary-Sound m again active plus lex c e h loop at =
      entered-Sound m active again lex c enter_operand loop
        (enter_operand-At fr.src m lex (ap is_eof e) at)
  unary-Sound m again active minus lex c e h loop at =
      entered-Sound m active (sign_of vars wrapping_neg active again) lex c enter_operand
        (sign_of-Sound wrapping_neg m active again loop)
        (enter_operand-At fr.src m lex (ap is_eof e) at)
  unary-Sound m again active bang lex c e h loop at =
      entered-Sound m active (sign_of vars (λ v. of_bool (v == 0)) active again) lex c enter_operand
        (sign_of-Sound (λ v. of_bool (v == 0)) m active again loop)
        (enter_operand-At fr.src m lex (ap is_eof e) at)
  unary-Sound m again active tilde lex c e h loop at =
      entered-Sound m active (sign_of vars word_not active again) lex c enter_operand
        (sign_of-Sound word_not m active again loop)
        (enter_operand-At fr.src m lex (ap is_eof e) at)
  unary-Sound m again active plus_plus lex c e h loop at =
      inc_dec-Sound true active again m lex c h (ap is_double e) (ap is_eof e) loop at
  unary-Sound m again active minus_minus lex c e h loop at =
      inc_dec-Sound false active (sign_of vars wrapping_neg active again) m lex c h (ap is_double e)
        (ap is_eof e) (sign_of-Sound wrapping_neg m active again loop) at
  unary-Sound m again active tok lex c e h loop at = postfix-Sound active lex.cur m lex c refl h at
