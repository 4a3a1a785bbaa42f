-- ===== src/Arith/Refines.antt =====
-- The evaluator gives every printed expression its meaning (crates/expander/src/arith.rs `eval_inner`).
use mathlib.Core.List.{reverse-cons, reverse-append}
use cherubsh.Base.{
  ℕ, suc, ◌+◌, ◌-◌, ◌<◌, ◌≤◌, Bool, true, false, ltb, leb, ◌==◌, Bool-cases, inl, inr, ◌≡◌, refl,
  ap, ◌∙◌, Text, [], ◌∷◌, ◌++◌, length, length-append, reverse, drop_while, is_whitespace,
  trim_text, to_string, none, arith,
}
use cherubsh.Arith.{ok, Outcome, done}
use cherubsh.Arith.Lexer.{Lexer, eof, token, advance_from, Lexer_new}
use cherubsh.Arith.Values.{
  Nested, Environment, Context, max_arith_nesting, set_depth, blank, eval_text,
}
use cherubsh.Arith.Values.Nesting.{nested, prefix_postfix_lvalue_error, whole, eval_checked, eval}
use cherubsh.Arith.Levels.{quiet_lem}
use cherubsh.Arith.Printed.{
  Expr, const, unary, binary, un_text, op_text, denote, print_at, print, depth, op_level, enclose,
}
use cherubsh.Arith.Tokens.{end_token, first_token, first_reads, print-Begins}
use cherubsh.Arith.Ends.{past, drop_print}
use cherubsh.Arith.Bare.{no_assignment}
use cherubsh.Arith.Evaluates.{expression_read, comma_read}

length-enclose :
    (g : Bool) (body : Text → Text) (d : ℕ) (rest : Text)
    → ((r : Text) → d + length r ≤ length (body r))
    → d + length rest ≤ length (enclose g body rest)
length-enclose true body d rest h = omega (arith, h (b')' ∷ rest))
length-enclose false body d rest h = h rest

depth-le : (i : ℕ) (e : Expr) (rest : Text) → depth e + length rest ≤ length (print_at i e rest)
unfolding print_at
depth-le i (const n) rest = omega (arith, length-append {0} (to_string n) rest)
depth-le i (unary op a) rest =
    let inner = print_at 0 a (b')' ∷ rest) in
    omega (arith, depth-le 0 a (b')' ∷ rest), length-append {0} (un_text op) (32 ∷ inner))
depth-le i (binary op a b) rest =
    length-enclose (leb i (op_level op)) _ (depth (binary op a b)) rest λ r.
      let L = op_level op in
      let inner = print_at L b r in
      omega (
        arith,
        depth-le L a (32 ∷ op_text op ++ 32 ∷ inner),
        depth-le L b r,
        length-append {0} (op_text op) (32 ∷ inner),
      )

module _ {C : Type 0} (low : Nested C) (e : Expr) (c : C) where
  -- the lexer at the end of the printed text
  abbrev at_end : Lexer
  at_end = token (print e) (past 10 e 0) eof (past 10 e 0)

  text_read : eval_text low (print e) c ≡ done (denote e, at_end) c
  unfolding eval_text print Lexer_new
  text_read =
      let n = length (print e) in
      let first : advance_from (print e) 0 ≡ ok (first_token (print e) 10 e 0) =
        first_reads (print e) 10 e 0 [] refl refl in
      let d : depth e < suc n = omega (arith, depth-le 10 e []) in
      let ends : advance_from (print e) (past 10 e 0) ≡ ok at_end =
        end_token (print e) (past 10 e 0) (drop_print (print e) 10 e 0 [] refl) in
      rw first (
        comma_read low.vars (print e) n true (denote e) (first_token (print e) 10 e 0) at_end c
          ((expression_read low.vars (print e) e (suc n) d).1 10 true 0 [] at_end c refl refl ends
            (quiet_lem 10 eof refl) refl)
          (no_assignment (print e) 10 e 0) refl refl)

drop_while-last :
    (s : Text) (c : ℕ)
    → is_whitespace c ≡ false
    → (r : Text) × (drop_while is_whitespace (s ++ c ∷ []) ≡ r ++ c ∷ [])
drop_while-last [] c h = ([], rw h refl)
drop_while-last (x ∷ s) c h = elim (Bool-cases (is_whitespace x)) [
  | inl e ↦ let (r, k) = drop_while-last s c h in (r, rw e k)
  | inr e ↦ (x ∷ s, rw e refl)
]

trim_text-head :
    (c : ℕ) (s : Text) → is_whitespace c ≡ false → (r : Text) × (trim_text (c ∷ s) ≡ c ∷ r)
unfolding trim_text
trim_text-head c s h =
    let (r, e) = drop_while-last (reverse s) c h in
    let kept : drop_while is_whitespace (c ∷ s) ≡ c ∷ s = rw h refl in
    (
      reverse r,
      ap (λ t. reverse (drop_while is_whitespace (reverse t))) kept
          ∙ ap (λ t. reverse (drop_while is_whitespace t)) (reverse-cons c s)
          ∙ ap reverse e
          ∙ reverse-append r (c ∷ []),
    )

no_prefix_error :
    (s : Text) (c : ℕ) (r : Text)
    → trim_text s ≡ c ∷ r
    → (c == b'+') ≡ false
    → (c == b'-') ≡ false
    → prefix_postfix_lvalue_error s ≡ none
unfolding prefix_postfix_lvalue_error
no_prefix_error s c r e plus minus = rw e (rw (plus, minus) refl)

not_blank_lem : (s : Text) (c : ℕ) (r : Text) → trim_text s ≡ c ∷ r → blank s ≡ false
not_blank_lem s c r e = rw e (ground arith)

module _ {S : Type 0} (environment : Environment S)
    (expand : Text → Context S → Outcome (Context S) Text) where
  -- An expression of constants, the signs + - ~ ! and the binary operators * + - << >> < <= > >= == != &
  -- ^ | && ||, however deep, printed with the parentheses that precedence asks for, evaluates to what it
  -- means in the arithmetic of words, and leaves the context as it was, where the nesting depth allows one
  -- evaluation more. An operand whose operator binds more tightly than that of its operation has no
  -- parentheses, any other operation has them, as a sign with its operand has. This holds for every
  -- environment, expansion and number of levels.
  pub eval-print :
      (n : ℕ) (e : Expr) (c : Context S)
      → c.arith_depth < max_arith_nesting
      → eval environment expand n (print e) c ≡ done (denote e) c
  unfolding eval eval_checked whole print
  eval-print n e c h =
      let b = print-Begins 10 e [] in
      let (r, t) = trim_text-head b.head b.rest b.not_blank in
      let trimmed : trim_text (print e) ≡ b.head ∷ r = ap trim_text b.shape ∙ t in
      let shallow : ltb max_arith_nesting (suc c.arith_depth) ≡ false = ground arith in
      let back : set_depth (suc c.arith_depth - 1) c ≡ c = ap (λ d. set_depth d c) (omega arith) in
      rw (not_blank_lem (print e) b.head r trimmed) (
        rw (no_prefix_error (print e) b.head r trimmed b.not_plus b.not_minus) (
          rw shallow (
            rw (text_read (nested environment expand n) e (set_depth (suc c.arith_depth) c))
              (ap (done (denote e)) back))))
