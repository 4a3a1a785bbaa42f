-- ===== src/Arith/Sound/Assigns.antt =====
-- What an assignment keeps (crates/expander/src/arith.rs `parse_assign`).
use cherubsh.Base.{
  ℕ, zero, suc, ◌≤◌, Bool, true, false, ◌&&◌, ◌==◌, Bool-cases, inl, inr, ◌≡◌, refl, Text, Option,
  none, some, arith, ap,
}
use cherubsh.Arith.{Res, ok, err, no_fuel, Gives, Gives-if, Gives-and_then, next}
use cherubsh.Arith.Errors.{Static, Any}
use cherubsh.Arith.Lexer.{Lexer, Tok, ident, is_eof, advance}
use cherubsh.Arith.Eval.{Eval, Variables, look, step, access}
use cherubsh.Arith.Grammar.{
  Opcode, div, rem, assignment_opcode, divides, is_set, assigned_value, named_opcode, assigns,
  check_divisor, parse_ternary, assign_set, assign_op, assign_inactive, assign_value, assign_at,
  parse_assign,
}
use cherubsh.Arith.Sound.{
  blame-Static, Frame, Idle, Blames, Moves, Moves-refl, Sound, Reads, Sound-next, Sound-look,
  Sound-access, Sound-weaken, Sound-call,
}
use cherubsh.Arith.Sound.Within.{At, At-zero, advance-At_any}
use cherubsh.Arith.Sound.Binary.{Idle-when_active}
use cherubsh.Arith.Sound.Prefix.{Kept, step-Sound}
use cherubsh.Arith.Sound.Signs.{first_step}
use cherubsh.Arith.Sound.Choice.{parse_ternary-Reads}

-- where an assignment is seen, the lexer is at a name
abbrev AtName : Lexer → Option (Text × Opcode) → Type 0
AtName lex none = Unit {0}
AtName lex (some target) = is_eof lex.cur ≡ false

opcode-AtName :
    (lex : Lexer) (name : Text) (o : Option Opcode)
    → lex.cur ≡ ident name
    → AtName lex (named_opcode name o)
opcode-AtName lex name none e = tt
opcode-AtName lex name (some op) e = ap is_eof e

assigns-Gives :
    (src : Text) (m : ℕ) (lex : Lexer) (tok : Tok)
    → lex.cur ≡ tok
    → At src m lex
    → Gives (AtName lex) Static ⊥ (assigns lex tok)
unfolding assigns
assigns-Gives src m lex (ident name) e at =
    Gives-and_then (At src m) (AtName lex) Static ⊥ (advance lex) _ (advance-At_any src m lex at)
      λ lookahead at'. opcode-AtName lex name (assignment_opcode lookahead.cur) e
assigns-Gives src m lex _ e at = tt

pub check_divisor-Gives :
    (active : Bool) (op : Opcode) (rhs place : ℕ) (lex : Lexer)
    → Gives Any (Blames active) ⊥ (check_divisor active op rhs place lex)
unfolding check_divisor
check_divisor-Gives true op rhs place lex =
    Gives-if Any (Blames true) ⊥ (true && divides op && rhs == 0) _ _ (λ h. tt) λ h. tt
check_divisor-Gives false op rhs place lex = tt

assigned_value-Gives : (op : Opcode) (lhs rhs : ℕ) → Gives Any Static ⊥ (assigned_value op lhs rhs)
unfolding assigned_value
assigned_value-Gives div lhs rhs = Gives-if Any Static ⊥ (rhs == 0) _ _ (λ h. refl) λ h. tt
assigned_value-Gives rem lhs rhs = Gives-if Any Static ⊥ (rhs == 0) _ _ (λ h. refl) λ h. tt
assigned_value-Gives _ lhs rhs = tt

blame-assigned : (active : Bool) (r : Res ℕ) → Gives Any Static ⊥ r → Gives Any (Blames active) ⊥ r
blame-assigned active (ok v) h = tt
blame-assigned active (err e) h = blame-Static active e h
blame-assigned active no_fuel h = h

module _ {C : Type 0} (fr : Frame C) (vars : Variables C) (kept : Kept fr vars) where
  abbrev LoopReads : ℕ → Bool → Eval C ℕ → Type 0
  LoopReads m active again =
      (lex : Lexer) (c : C) → At fr.src m lex → Sound fr active c m (Idle active) (again lex c)

  assign_set-Sound :
      (m : ℕ) (again : Eval C ℕ) (name : Text) (lex : Lexer) (c₀ c : C)
      → LoopReads m true again
      → fr.Keeps c₀ c
      → At fr.src m lex
      → Sound fr true c₀ m (Idle true) (assign_set vars again name lex c)
  unfolding assign_set
  assign_set-Sound m again name lex c₀ c loop moves at =
      Sound-call fr true true c₀ c m m (Idle true) (Idle true) (again lex c) _ (λ k. k) moves
        (loop lex c at)
        λ rhs lex₁ c₁ at₁ moves₁ q₁.
          Sound-next fr true c₀ m m Any (Idle true) (access (vars.resolve name) lex₁ c₁) _
            (Sound-access fr c₀ c₁ m lex₁ (vars.resolve name) (kept.resolves name) moves₁ at₁)
            λ lvalue lex₂ c₂ at₂ moves₂ q₂.
              Sound-next fr true c₀ m m Any (Idle true) (access (vars.store lvalue rhs) lex₂ c₂) _
                (Sound-access fr c₀ c₂ m lex₂ (vars.store lvalue rhs) (kept.stores lvalue rhs)
                  moves₂ at₂)
                λ u lex₃ c₃ at₃ moves₃ q₃. (at₃, moves₃, tt)

  checked-Sound :
      (active : Bool) (m : ℕ) (op : Opcode) (lhs rhs place : ℕ) (k : ℕ → Eval C ℕ) (lex : Lexer)
      (c₀ c : C)
      → ((v : ℕ) (lex' : Lexer) (c' : C)
          → Moves fr active c₀ c'
          → At fr.src m lex'
          → Sound fr active c₀ m (Idle active) (k v lex' c'))
      → Moves fr active c₀ c
      → At fr.src m lex
      → Sound fr active c₀ m (Idle active) (
          next
            (look (check_divisor active op rhs place) lex c)
            λ (u, l) c₁. next (look (λ l'. assigned_value op lhs rhs) l c₁) λ (v, l₂) c₂. k v l₂ c₂)
  checked-Sound active m op lhs rhs place k lex c₀ c go_on moves at =
      Sound-next fr active c₀ m m Any (Idle active) (look (check_divisor active op rhs place) lex c)
        _
        (Sound-look fr active c₀ c m Any (check_divisor active op rhs place lex) lex
          (check_divisor-Gives active op rhs place lex) moves at)
        λ u lex₁ c₁ at₁ moves₁ q₁.
          Sound-next fr active c₀ m m Any (Idle active)
            (look (λ l'. assigned_value op lhs rhs) lex₁ c₁) k
            (Sound-look fr active c₀ c₁ m Any (assigned_value op lhs rhs) lex₁
              (blame-assigned active (assigned_value op lhs rhs) (assigned_value-Gives op lhs rhs))
              moves₁ at₁)
            λ v lex₂ c₂ at₂ moves₂ q₂. go_on v lex₂ c₂ moves₂ at₂

  assign_op-Sound :
      (m : ℕ) (again : Eval C ℕ) (name : Text) (op : Opcode) (lex : Lexer) (c₀ c : C)
      → LoopReads m true again
      → fr.Keeps c₀ c
      → At fr.src m lex
      → Sound fr true c₀ m (Idle true) (assign_op vars again name op lex c)
  unfolding assign_op
  assign_op-Sound m again name op lex c₀ c loop moves at =
      Sound-next fr true c₀ m m Any (Idle true) (access (vars.resolve name) lex c) _
        (Sound-access fr c₀ c m lex (vars.resolve name) (kept.resolves name) moves at)
        λ lvalue lex₁ c₁ at₁ moves₁ q₁.
          Sound-next fr true c₀ m m Any (Idle true) (access (vars.load lvalue) lex₁ c₁) _
            (Sound-access fr c₀ c₁ m lex₁ (vars.load lvalue) (kept.loads lvalue) moves₁ at₁)
            λ lhs lex₂ c₂ at₂ moves₂ q₂.
              Sound-call fr true true c₀ c₂ m m (Idle true) (Idle true) (again lex₂ c₂) _ (λ k. k)
                moves₂ (loop lex₂ c₂ at₂)
                λ rhs lex₃ c₃ at₃ moves₃ q₃.
                  checked-Sound true m op lhs rhs lex₂.tok_start _ lex₃ c₀ c₃
                    (λ v lex₄ c₄ moves₄ at₄.
                      Sound-next fr true c₀ m m Any (Idle true)
                        (access (vars.store lvalue v) lex₄ c₄) _
                        (Sound-access fr c₀ c₄ m lex₄ (vars.store lvalue v) (kept.stores lvalue v)
                          moves₄ at₄)
                        λ u lex₅ c₅ at₅ moves₅ q₅. (at₅, moves₅, tt))
                    moves₃ at₃

  assign_inactive-Sound :
      (m : ℕ) (again : Eval C ℕ) (op : Opcode) (lex : Lexer) (c₀ c : C)
      → LoopReads m false again
      → c ≡ c₀
      → At fr.src m lex
      → Sound fr false c₀ m (Idle false) (assign_inactive vars again op lex c)
  unfolding assign_inactive
  assign_inactive-Sound m again op lex c₀ c loop moves at =
      Sound-call fr false false c₀ c m m (Idle false) (Idle false) (again lex c) _ (λ k. k) moves
        (loop lex c at)
        λ rhs lex₁ c₁ at₁ moves₁ q₁.
          checked-Sound false m op 0 rhs lex.tok_start _ lex₁ c₀ c₁
            (λ v lex₂ c₂ moves₂ at₂. (at₂, moves₂, refl)) moves₁ at₁

  assign_value-Sound :
      (m : ℕ) (again : Bool → Eval C ℕ) (active : Bool) (name : Text) (op : Opcode) (lex : Lexer)
      (c₀ c : C)
      → Reads fr m again
      → Moves fr active c₀ c
      → At fr.src m lex
      → Sound fr active c₀ m (Idle active) (assign_value vars again active name op lex c)
  unfolding assign_value
  assign_value-Sound m again true name op lex c₀ c loop moves at = elim (Bool-cases (is_set op)) [
    | inl e ↦ rw e (
        assign_set-Sound m (again true) name lex c₀ c
          (λ lex' c' at'. loop m true lex' c' (omega arith) at') moves at)
    | inr e ↦ rw e (
        assign_op-Sound m (again true) name op lex c₀ c
          (λ lex' c' at'. loop m true lex' c' (omega arith) at') moves at)
  ]
  assign_value-Sound m again false name op lex c₀ c loop moves at =
      assign_inactive-Sound m (again false) op lex c₀ c
        (λ lex' c' at'. loop m false lex' c' (omega arith) at') moves at

  module _ (n : ℕ) (paren : Bool → Eval C ℕ) (reads : Reads fr n paren) where
    assign_at-Sound :
        (m : ℕ) (ternary again : Bool → Eval C ℕ) (active : Bool) (target : Option (Text × Opcode))
        (lex : Lexer) (c₀ c : C)
        → Reads fr (suc m) ternary
        → Reads fr m again
        → AtName lex target
        → Moves fr active c₀ c
        → At fr.src (suc m) lex
        → Sound fr active c₀
            (suc m)
            (Idle active)
            (assign_at vars ternary again active target lex c)
    unfolding assign_at
    assign_at-Sound m ternary again active none lex c₀ c level loop name moves at =
        Sound-call fr active active c₀ c (suc m) (suc m) (Idle active) (Idle active)
          (ternary active lex c) _ (λ k. k) moves (level (suc m) active lex c (omega arith) at)
          λ v lex₁ c₁ at₁ moves₁ q₁. (at₁, moves₁, Idle-when_active active v)
    assign_at-Sound m ternary again active (some (name, op)) lex c₀ c level loop on moves at =
        Sound-call fr active active c₀ c m (suc m) Any (Idle active) (step lex c) _ (λ k. k) moves
          (first_step fr vars kept n paren reads active m lex c on at)
          λ u lex₁ c₁ at₁ moves₁ q₁.
            Sound-next fr active c₀ m (suc m) Any (Idle active) (step lex₁ c₁) _
              (step-Sound fr vars kept active m lex₁ c₀ c₁ moves₁ at₁)
              λ u₂ lex₂ c₂ at₂ moves₂ q₂.
                Sound-weaken fr active active c₀ c₂ m (suc m) (Idle active) (Idle active) _ (λ k. k)
                  (omega arith) moves₂ (λ v q. q)
                  (assign_value-Sound m again active name op lex₂ c₂ c₂ loop
                    (Moves-refl fr active c₂) at₂)

    pub parse_assign-Reads : (k : ℕ) → k ≤ suc n → Reads fr k (parse_assign vars k paren)
    unfolding parse_assign
    parse_assign-Reads k h zero active lex c h' at = absurd (At-zero fr.src lex at)
    parse_assign-Reads zero h (suc m) active lex c h' at = absurd (omega arith)
    parse_assign-Reads (suc k) h (suc m) active lex c h' at =
        looked (assigns lex lex.cur) (assigns-Gives fr.src (suc m) lex lex.cur refl at)
          (λ m' active' lex' c' h'' at'.
            parse_assign-Reads k (omega arith) m' active' lex' c' (omega arith) at')
      where
        looked :
            (r : Res (Option (Text × Opcode)))
            → Gives (AtName lex) Static ⊥ r
            → Reads fr m (λ active'. parse_assign vars k paren active')
            → Sound fr active c (suc m) (Idle active) (
                next (look (λ l. r) lex c) λ (target, l) c'.
                  assign_at vars
                    (parse_ternary vars (suc k) paren)
                    (λ active'. parse_assign vars k paren active')
                    active
                    target
                    l
                    c')
        looked (ok target) g loop =
            assign_at-Sound m (parse_ternary vars (suc k) paren)
              (λ active'. parse_assign vars k paren active') active target lex c c
              (λ m' active' lex' c' h'' at'.
                parse_ternary-Reads fr vars kept n paren reads (suc k) h m' active' lex' c'
                  (omega arith) at')
              loop g (Moves-refl fr active c) at
        looked (err e) g loop = (Moves-refl fr active c, blame-Static active e g)
        looked no_fuel g loop = absurd g
