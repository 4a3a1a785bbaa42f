-- ===== src/Arith/Sound/Prefix.antt =====
-- The levels below `*` keep what the grammar keeps (crates/expander/src/arith.rs `parse_power` to
-- `parse_primary`).
use cherubsh.Base.{
  ℕ, zero, suc, ◌≤◌, ◌^◌, ◌-◌, ap, ◌∙◌, Bool, true, false, ◌&&◌, ◌==◌, ◌≡◌, refl, Text, none, some,
  arith,
}
use cherubsh.Arith.{Res, Gives, Gives-and_then, Gives-if, Gives-weaken}
use cherubsh.Arith.Words.{wrapping_add}
use cherubsh.Arith.Errors.{Static, Any}
use cherubsh.Arith.Lexer.{Lexer, Tok, ident, plus_plus, minus_minus, eof, is_eof, advance}
use cherubsh.Arith.Eval.{Eval, Variables, LValue, move, access, skip, step}
use cherubsh.Arith.Unary.{
  Target, same_sign_token, target_step, prefix_inc_dec_target_name, prefix_inc_dec_has_target,
  delta, add_to, apply_target, apply_pre, postfix_ops, postfix_name,
}
use cherubsh.Arith.Sound.{
  Frame, Idle, Moves, Sound, Keeping, Sound-next, Sound-go, Sound-move, Sound-access,
}
use cherubsh.Arith.Sound.Within.{At, At-zero, At-weaken, advance-At, advance-At_any}

-- The operations on variables move the context as the frame says.
pub record Kept {C : Type 0} (fr : Frame C) (vars : Variables C) : Type 0 where
  pub resolves : (name : Text) → Keeping fr (vars.resolve name)
  pub loads : (lvalue : LValue) → Keeping fr (vars.load lvalue)
  pub stores : (lvalue : LValue) (v : ℕ) → Keeping fr (vars.store lvalue v)
  pub loads_ident : (name : Text) → Keeping fr (vars.load_ident name)

same_sign-not_eof :
    (increment : Bool) (tok : Tok) → same_sign_token increment tok ≡ true → is_eof tok ≡ false
same_sign-not_eof true eof h = cc
same_sign-not_eof false eof h = cc
same_sign-not_eof increment _ h = refl

and_left : (a b : Bool) → (a && b) ≡ true → a ≡ true
and_left a b h = ground arith

abbrev TargetAt : Text → ℕ → Target × Lexer → Type 0
TargetAt src m (target, lex) = At src m lex × Unit {0}

target_step-Gives :
    (src : Text) (m : ℕ) (again : Lexer → Res (Target × Lexer)) (prev_end : ℕ) (increment : Bool)
    (lex : Lexer) (tok : Tok)
    → lex.cur ≡ tok
    → At src (suc m) lex
    → ((lex' : Lexer) → At src m lex' → Gives (TargetAt src (suc m)) Static ⊥ (again lex'))
    → Gives (TargetAt src (suc m)) Static ⊥ (target_step again prev_end increment lex tok)
unfolding target_step
target_step-Gives src m again prev_end increment lex (ident name) e at loop = (at, tt)
target_step-Gives src m again prev_end increment lex tok e at loop =
    Gives-if (TargetAt src (suc m)) Static ⊥
      (same_sign_token increment tok && lex.tok_start == prev_end) _ _
      (λ h.
        let signed : same_sign_token increment tok ≡ true =
          and_left (same_sign_token increment tok) (lex.tok_start == prev_end) h in
        let on : is_eof lex.cur ≡ false = ap is_eof e ∙ same_sign-not_eof increment tok signed in
        Gives-and_then (At src m) (TargetAt src (suc m)) Static ⊥ (advance lex) again
          (advance-At src m lex on at) loop)
      λ h. (at, tt)

target_name-Gives :
    (src : Text) (k m prev_end : ℕ) (increment : Bool) (lex : Lexer)
    → m ≤ k
    → At src m lex
    → Gives (TargetAt src m) Static ⊥ (prefix_inc_dec_target_name k prev_end increment lex)
unfolding prefix_inc_dec_target_name
target_name-Gives src zero zero prev_end increment lex h at = absurd (At-zero src lex at)
target_name-Gives src zero (suc m) prev_end increment lex h at = absurd (omega arith)
target_name-Gives src (suc k) zero prev_end increment lex h at = absurd (At-zero src lex at)
target_name-Gives src (suc k) (suc m) prev_end increment lex h at =
    target_step-Gives src m (λ lex'. prefix_inc_dec_target_name k lex.tok_end increment lex')
      prev_end increment lex lex.cur refl at
      λ lex' at'.
        Gives-weaken (TargetAt src m) (TargetAt src (suc m)) Static ⊥
          (prefix_inc_dec_target_name k lex.tok_end increment lex')
          (target_name-Gives src k m lex.tok_end increment lex' (omega arith) at')
          λ (target, lex'') r. (At-weaken src m (suc m) lex'' (omega arith) r.0, tt)

pub has_target-Gives :
    (src : Text) (n m : ℕ) (increment : Bool) (lex : Lexer)
    → m ≤ n
    → is_eof lex.cur ≡ false
    → At src (suc m) lex
    → Gives Any Static ⊥ (prefix_inc_dec_has_target n increment lex)
unfolding prefix_inc_dec_has_target
has_target-Gives src n m increment lex h on at =
    Gives-and_then (At src m) Any Static ⊥ (advance lex) _ (advance-At src m lex on at) λ lex' at'.
      Gives-and_then (TargetAt src m) Any Static ⊥
        (prefix_inc_dec_target_name n lex.tok_end increment lex') _
        (target_name-Gives src n m lex.tok_end increment lex' h at') λ r q. tt

module _ {C : Type 0} (fr : Frame C) (vars : Variables C) (kept : Kept fr vars) where
  add_to-Sound :
      (active : Bool) (name : Text) (d m : ℕ) (lex : Lexer) (c₀ c : C)
      → Moves fr active c₀ c
      → At fr.src m lex
      → Sound fr active c₀ m (Idle active) (add_to vars active name d lex c)
  unfolding add_to
  add_to-Sound false name d m lex c₀ c moves at = (at, moves, refl)
  add_to-Sound true name d m lex c₀ c moves at =
      Sound-next fr true c₀ m m Any Any (access (vars.resolve name) lex c) _
        (Sound-access fr c₀ c m lex (vars.resolve name) (kept.resolves name) moves at)
        λ lvalue lex₁ c₁ at₁ moves₁ q₁.
          Sound-next fr true c₀ m m Any Any (access (vars.load lvalue) lex₁ c₁) _
            (Sound-access fr c₀ c₁ m lex₁ (vars.load lvalue) (kept.loads lvalue) moves₁ at₁)
            λ cur lex₂ c₂ at₂ moves₂ q₂.
              Sound-next fr true c₀ m m Any Any
                (access (vars.store lvalue (wrapping_add cur d)) lex₂ c₂) _
                (Sound-access fr c₀ c₂ m lex₂ (vars.store lvalue (wrapping_add cur d))
                  (kept.stores lvalue (wrapping_add cur d)) moves₂ at₂)
                λ u lex₃ c₃ at₃ moves₃ q₃. (at₃, moves₃, tt)

  pub step-Sound :
      (active : Bool) (m : ℕ) (lex : Lexer) (c₀ c : C)
      → Moves fr active c₀ c
      → At fr.src m lex
      → Sound fr active c₀ m (Any {A = Unit {0}}) (step lex c)
  step-Sound active m lex c₀ c moves at =
      Sound-go fr active c₀ c m (advance lex) (advance-At_any fr.src m lex at) moves

  apply_target-Sound :
      (increment active : Bool) (target : Target) (m : ℕ) (lex : Lexer) (c₀ c : C)
      → Moves fr active c₀ c
      → At fr.src m lex
      → Sound fr active c₀ m (Idle active) (apply_target vars increment active target lex c)
  unfolding apply_target
  apply_target-Sound increment true none m lex c₀ c moves at = (moves, tt)
  apply_target-Sound increment false none m lex c₀ c moves at = (moves, refl)
  apply_target-Sound increment active (some name) m lex c₀ c moves at =
      Sound-next fr active c₀ m m Any (Idle active) (step lex c) _
        (step-Sound active m lex c₀ c moves at)
        λ u lex₁ c₁ at₁ moves₁ q₁.
          add_to-Sound active name (delta increment) m lex₁ c₀ c₁ moves₁ at₁

  pub apply_pre-Sound :
      (n : ℕ) (increment active : Bool) (prefix_end m : ℕ) (lex : Lexer) (c₀ c : C)
      → m ≤ n
      → Moves fr active c₀ c
      → At fr.src m lex
      → Sound fr active c₀ m (Idle active) (apply_pre vars n increment active prefix_end lex c)
  unfolding apply_pre
  apply_pre-Sound n increment active prefix_end m lex c₀ c h moves at =
      Sound-next fr active c₀ m m Any (Idle active)
        (move (prefix_inc_dec_target_name n prefix_end increment) lex c) _
        (Sound-move fr active c₀ c m Any (prefix_inc_dec_target_name n prefix_end increment lex)
          (target_name-Gives fr.src n m prefix_end increment lex h at) moves)
        λ target lex₁ c₁ at₁ moves₁ q₁.
          apply_target-Sound increment active target m lex₁ c₀ c₁ moves₁ at₁

  postfix_ops-Sound :
      (active : Bool) (write : ℕ → Eval C (Unit {0})) (cur : ℕ) (tok : Tok) (m : ℕ) (lex : Lexer)
      (c₀ c : C)
      → ((v : ℕ) (lex' : Lexer) (c' : C)
          → Moves fr active c₀ c'
          → At fr.src m lex'
          → Sound fr active c₀ m (Any {A = Unit {0}}) (write v lex' c'))
      → Idle active cur
      → Moves fr active c₀ c
      → At fr.src m lex
      → Sound fr active c₀ m (Idle active) (postfix_ops vars write cur tok lex c)
  unfolding postfix_ops
  postfix_ops-Sound active write cur plus_plus m lex c₀ c writes idle moves at =
      Sound-next fr active c₀ m m Any (Idle active) (step lex c) _
        (step-Sound active m lex c₀ c moves at)
        λ u lex₁ c₁ at₁ moves₁ q₁.
          Sound-next fr active c₀ m m Any (Idle active) (write (wrapping_add cur 1) lex₁ c₁) _
            (writes (wrapping_add cur 1) lex₁ c₁ moves₁ at₁)
            λ u₂ lex₂ c₂ at₂ moves₂ q₂. (at₂, moves₂, idle)
  postfix_ops-Sound active write cur minus_minus m lex c₀ c writes idle moves at =
      Sound-next fr active c₀ m m Any (Idle active) (step lex c) _
        (step-Sound active m lex c₀ c moves at)
        λ u lex₁ c₁ at₁ moves₁ q₁.
          Sound-next fr active c₀ m m Any (Idle active)
            (write (wrapping_add cur (2 ^ 64 - 1)) lex₁ c₁) _
            (writes (wrapping_add cur (2 ^ 64 - 1)) lex₁ c₁ moves₁ at₁)
            λ u₂ lex₂ c₂ at₂ moves₂ q₂. (at₂, moves₂, idle)
  postfix_ops-Sound active write cur tok m lex c₀ c writes idle moves at = (at, moves, idle)

  pub postfix_name-Sound :
      (active : Bool) (name : Text) (m : ℕ) (lex : Lexer) (c : C)
      → At fr.src m lex
      → Sound fr active c m (Idle active) (postfix_name vars active name lex c)
  unfolding postfix_name
  postfix_name-Sound true name m lex c at =
      Sound-next fr true c m m Any Any (access (vars.resolve name) lex c) _
        (Sound-access fr c c m lex (vars.resolve name) (kept.resolves name) (fr.keeps_refl c) at)
        λ lvalue lex₁ c₁ at₁ moves₁ q₁.
          Sound-next fr true c m m Any Any (access (vars.load lvalue) lex₁ c₁) _
            (Sound-access fr c c₁ m lex₁ (vars.load lvalue) (kept.loads lvalue) moves₁ at₁)
            λ cur lex₂ c₂ at₂ moves₂ q₂.
              Sound-next fr true c m m Any Any (step lex₂ c₂) _
                (step-Sound true m lex₂ c c₂ moves₂ at₂)
                λ u lex₃ c₃ at₃ moves₃ q₃.
                  postfix_ops-Sound true (λ v. access (vars.store lvalue v)) cur lex₃.cur m lex₃ c
                    c₃
                    (λ v lex' c' moves' at'.
                      Sound-access fr c c' m lex' (vars.store lvalue v) (kept.stores lvalue v)
                        moves' at')
                    tt moves₃ at₃
  postfix_name-Sound false name m lex c at =
      Sound-next fr false c m m Any (Idle false) (step lex c) _ (step-Sound false m lex c c refl at)
        λ u lex₁ c₁ at₁ moves₁ q₁.
          postfix_ops-Sound false (λ v. skip) 0 lex₁.cur m lex₁ c c₁
            (λ v lex' c' moves' at'. (at', moves', tt)) refl moves₁ at₁
