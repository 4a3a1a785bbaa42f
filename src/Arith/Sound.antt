-- ===== src/Arith/Sound.antt =====
-- What every function of the grammar keeps (crates/expander/src/arith.rs), and the rules that prove it
-- of a sequence: an active evaluation moves the context by a given relation, an inactive one leaves it
-- alone, has the value 0 and fails by errors of the text only, and both stay within the text.
pub mod Within
pub mod Binary
pub mod Prefix
pub mod Signs
pub mod Powers
pub mod Choice
pub mod Assigns
pub mod Whole
pub mod Runs
pub mod Skipped
use cherubsh.Base.{
  ℕ, zero, suc, ◌+◌, ◌-◌, ◌≤◌, ◌<◌, Bool, true, false, ◌&&◌, if◌then◌else◌, ◌≡◌, refl, Text, length,
  arith, ap, sym, subst, ◌∙◌,
}
use cherubsh.Arith.{
  ArithError, Res, ok, err, no_fuel, Outcome, done, fails, out_of_fuel, next, lift, Gives, Post,
  Gives-weaken,
}
use cherubsh.Arith.Errors.{Static, Any}
use cherubsh.Arith.Lexer.{
  Lexer, Tok, is_eof, advance, Lexer_new, consume_first_char_of_double_operator, advance_from,
}
use cherubsh.Arith.Lexing.{IsLexer, From, advance_from-From, is_double}
use cherubsh.Arith.Eval.{Eval, Variables, LValue, go, access, look, move}
use cherubsh.Arith.Sound.Within.{At, At-weaken}

-- The text, how an active evaluation moves the context, and what holds where the fuel runs out.
pub record Frame (C : Type 0) : Type 1 where
  pub src : Text
  pub Keeps : C → C → Type 0
  pub keeps_refl : (c : C) → Keeps c c
  pub keeps_trans : (a b c : C) → Keeps a b → Keeps b c → Keeps a c
  pub Exhausted : Type 0

-- the value of an inactive evaluation
abbrev pub Idle : Bool → ℕ → Type 0
Idle true v = Unit {0}
Idle false v = v ≡ 0

abbrev pub Blames : Bool → ArithError → Type 0
Blames true e = Unit {0}
Blames false e = Static e

pub blame-Static : (active : Bool) (e : ArithError) → Static e → Blames active e
blame-Static true e h = tt
blame-Static false e h = h

Blames-sub :
    (active active' : Bool) (e : ArithError)
    → (active' ≡ true → active ≡ true)
    → Blames active' e
    → Blames active e
Blames-sub true active' e sub h = tt
Blames-sub false true e sub h = let e : false ≡ true = sub refl in cc
Blames-sub false false e sub h = h

module _ {C : Type 0} (fr : Frame C) where
  abbrev pub Moves : Bool → C → C → Type 0
  Moves true c₀ c = fr.Keeps c₀ c
  Moves false c₀ c = c ≡ c₀

  abbrev pub Out : Bool → Type 0
  Out true = fr.Exhausted
  Out false = ⊥

  -- a result of an evaluation that began in the context `c₀`
  abbrev pub Sound {ℓ} : {A : Type ℓ} → Bool → C → ℕ → (A → Type 0) → Outcome C (A × Lexer) → Type 0
  Sound active c₀ m Q r =
      Post (λ (a, lex) c. At fr.src m lex × Moves active c₀ c × Q a)
        (λ e c. Moves active c₀ c × Blames active e) (Out active) r

  -- a function of the grammar, with fuel for `n` characters
  abbrev pub Reads : ℕ → (Bool → Eval C ℕ) → Type 0
  Reads n p =
      (m : ℕ) (active : Bool) (lex : Lexer) (c : C)
      → m ≤ n
      → At fr.src m lex
      → Sound active c m (Idle active) (p active lex c)

  -- the operations on variables
  abbrev pub Keeping {ℓ} : {A : Type ℓ} → (C → Outcome C A) → Type 0
  Keeping f = (c : C) → Post (λ a c'. fr.Keeps c c') (λ e c'. fr.Keeps c c') fr.Exhausted (f c)

  pub Moves-refl : (active : Bool) (c : C) → Moves active c c
  Moves-refl true c = fr.keeps_refl c
  Moves-refl false c = refl

  Out-sub : (active active' : Bool) → (active' ≡ true → active ≡ true) → Out active' → Out active
  Out-sub true true sub h = h
  Out-sub true false sub h = absurd h
  Out-sub false true sub h = let e : false ≡ true = sub refl in cc
  Out-sub false false sub h = h

  Moves-trans :
      (active active' : Bool) (c₀ c c' : C)
      → (active' ≡ true → active ≡ true)
      → Moves active c₀ c
      → Moves active' c c'
      → Moves active c₀ c'
  Moves-trans true true c₀ c c' sub k h = fr.keeps_trans c₀ c c' k h
  Moves-trans true false c₀ c c' sub k h = subst (λ x. fr.Keeps c₀ x) (sym h) k
  Moves-trans false true c₀ c c' sub k h = let e : false ≡ true = sub refl in cc
  Moves-trans false false c₀ c c' sub k h = h ∙ k

  module _ {ℓ κ} {A : Type ℓ} {B : Type κ} where
    pub Sound-next :
        (active : Bool) (c₀ : C) (m m' : ℕ) (Q : A → Type 0) (R : B → Type 0)
        (r : Outcome C (A × Lexer)) (k : A → Eval C B)
        → Sound active c₀ m Q r
        → ((a : A) (lex : Lexer) (c : C)
            → At fr.src m lex
            → Moves active c₀ c
            → Q a
            → Sound active c₀ m' R (k a lex c))
        → Sound active c₀ m' R (next r λ (a, lex) c. k a lex c)
    Sound-next active c₀ m m' Q R (done (a, lex) c) k h rule = rule a lex c h.0 h.1 h.2
    Sound-next active c₀ m m' Q R (fails e c) k h rule = h
    Sound-next active c₀ m m' Q R out_of_fuel k h rule = h

  pub Sound-go :
      (active : Bool) (c₀ c : C) (m : ℕ) (r : Res Lexer)
      → Gives (At fr.src m) Static ⊥ r
      → Moves active c₀ c
      → Sound active c₀ m (Any {A = Unit {0}}) (next (lift r c) λ lex c'. done (tt, lex) c')
  Sound-go true c₀ c m (ok lex) h k = (h, k, tt)
  Sound-go false c₀ c m (ok lex) h k = (h, k, tt)
  Sound-go true c₀ c m (err e) h k = (k, tt)
  Sound-go false c₀ c m (err e) h k = (k, h)
  Sound-go active c₀ c m no_fuel h k = absurd h

  module _ {ℓ} {A : Type ℓ} where
    pub Sound-move :
        (active : Bool) (c₀ c : C) (m : ℕ) (Q : A → Type 0) (r : Res (A × Lexer))
        → Gives (λ (a, lex). At fr.src m lex × Q a) Static ⊥ r
        → Moves active c₀ c
        → Sound active c₀ m Q (lift r c)
    Sound-move true c₀ c m Q (ok (a, lex)) h k = (h.0, k, h.1)
    Sound-move false c₀ c m Q (ok (a, lex)) h k = (h.0, k, h.1)
    Sound-move true c₀ c m Q (err e) h k = (k, tt)
    Sound-move false c₀ c m Q (err e) h k = (k, h)
    Sound-move active c₀ c m Q no_fuel h k = absurd h

    pub Sound-look :
        (active : Bool) (c₀ c : C) (m : ℕ) (Q : A → Type 0) (r : Res A) (lex : Lexer)
        → Gives Q (Blames active) ⊥ r
        → Moves active c₀ c
        → At fr.src m lex
        → Sound active c₀ m Q (next (lift r c) λ a c'. done (a, lex) c')
    Sound-look active c₀ c m Q (ok a) lex h k at = (at, k, h)
    Sound-look active c₀ c m Q (err e) lex h k at = (k, h)
    Sound-look active c₀ c m Q no_fuel lex h k at = absurd h

    pub Sound-access :
        (c₀ c : C) (m : ℕ) (lex : Lexer) (f : C → Outcome C A)
        → Keeping f
        → fr.Keeps c₀ c
        → At fr.src m lex
        → Sound true c₀ m Any (access f lex c)
    Sound-access c₀ c m lex f h k at = go_on (f c) (h c)
      where
        go_on :
            (r : Outcome C A)
            → Post (λ a c'. fr.Keeps c c') (λ e c'. fr.Keeps c c') fr.Exhausted r
            → Sound true c₀ m Any (next r λ a c'. done (a, lex) c')
        go_on (done a c') p = (at, fr.keeps_trans c₀ c c' k p, tt)
        go_on (fails e c') p = (fr.keeps_trans c₀ c c' k p, tt)
        go_on out_of_fuel p = p

    -- the postcondition, the bound and the start may all be weakened
    pub Sound-weaken :
        (active active' : Bool) (c₀ c : C) (m m' : ℕ) (Q R : A → Type 0) (r : Outcome C (A × Lexer))
        → (active' ≡ true → active ≡ true)
        → m ≤ m'
        → Moves active c₀ c
        → ((a : A) → Q a → R a)
        → Sound active' c m Q r
        → Sound active c₀ m' R r
    Sound-weaken active active' c₀ c m m' Q R (done (a, lex) c') sub h k w s =
        (At-weaken fr.src m m' lex h s.0, Moves-trans active active' c₀ c c' sub k s.1, w a s.2)
    Sound-weaken active active' c₀ c m m' Q R (fails e c') sub h k w s =
        (Moves-trans active active' c₀ c c' sub k s.0, Blames-sub active active' e sub s.1)
    Sound-weaken active active' c₀ c m m' Q R out_of_fuel sub h k w s = Out-sub active active' sub s

  -- a call that begins in the context `c`, and what follows it
  module _ {ℓ κ} {A : Type ℓ} {B : Type κ} where
    pub Sound-call :
        (active active' : Bool) (c₀ c : C) (m m' : ℕ) (Q : A → Type 0) (R : B → Type 0)
        (r : Outcome C (A × Lexer)) (k : A → Eval C B)
        → (active' ≡ true → active ≡ true)
        → Moves active c₀ c
        → Sound active' c m Q r
        → ((a : A) (lex : Lexer) (c' : C)
            → At fr.src m lex
            → Moves active c₀ c'
            → Q a
            → Sound active c₀ m' R (k a lex c'))
        → Sound active c₀ m' R (next r λ (a, lex) c'. k a lex c')
    Sound-call active active' c₀ c m m' Q R r k sub moves s rule =
        Sound-next active c₀ m m' Q R r k
          (Sound-weaken active active' c₀ c m m Q Q r sub (omega arith) moves (λ a q. q) s) rule
