-- ===== src/Arith/Tokens.antt =====
-- The tokens of a printed expression (crates/expander/src/arith.rs `Lexer::advance`).
use cherubsh.Base.{
  ℕ, suc, ◌+◌, ◌%◌, ◌^◌, Bool, true, false, ◌||◌, ◌==◌, ◌≡◌, refl, sym, ap, ◌∙◌, leb, is_whitespace,
  Text, [], ◌∷◌, ◌++◌, drop, take, length, all, is_ascii_digit, to_string, to_string_digits,
  to_string_head, take-length_append, drop_past, arith,
}
use cherubsh.Arith.{ok}
use cherubsh.Arith.Constants.{parse_number-to_string}
use cherubsh.Arith.Lexer.{
  Lexer, num, lparen, rparen, eof, is_ascii_whitespace, is_number_char, count_while, skip_ws,
  find_operator, operator_token, token, lex_number, token_at, advance_from,
}
use cherubsh.Arith.Printed.{
  BinOp, times, UnOp, keep, negate, invert, deny, un_text, un_token, Expr, const, unary, binary,
  op_text, op_token, op_level, enclose, print_at,
}

at_token :
    (src : Text) (p c : ℕ) (s : Text)
    → drop p src ≡ c ∷ s
    → is_ascii_whitespace c ≡ false
    → advance_from src p ≡ token_at src p (c ∷ s)
unfolding advance_from skip_ws count_while
at_token src p c s e h =
    let none_skipped : count_while is_ascii_whitespace (drop p src) ≡ 0 = rw e (rw h refl) in
    let here : p + count_while is_ascii_whitespace (drop p src) ≡ p = omega (arith, none_skipped) in
    ap (λ q. token_at src q (drop q src)) here ∙ ap (token_at src p) e

after_space :
    (src : Text) (p c : ℕ) (s : Text)
    → drop p src ≡ 32 ∷ c ∷ s
    → is_ascii_whitespace c ≡ false
    → advance_from src p ≡ token_at src (p + 1) (c ∷ s)
unfolding advance_from skip_ws count_while
after_space src p c s e h =
    let skipped : count_while is_ascii_whitespace (drop p src) ≡ 1 = rw e (rw h refl) in
    let here : p + count_while is_ascii_whitespace (drop p src) ≡ p + 1 = omega (arith, skipped) in
    ap (λ q. token_at src q (drop q src)) here
    ∙ ap (token_at src (p + 1)) (drop_past (32 ∷ []) (c ∷ s) p src e)

pub open_token :
    (src : Text) (p : ℕ) (s : Text)
    → drop p src ≡ b'(' ∷ s
    → advance_from src p ≡ ok (token src p lparen (p + 1))
open_token src p s e = at_token src p b'(' s e refl ∙ opened
  where
    opened : token_at src p (b'(' ∷ s) ≡ ok (token src p lparen (p + 1))
    opened = unfold token_at find_operator operator_token in refl

pub close_token :
    (src : Text) (p : ℕ) (s : Text)
    → drop p src ≡ b')' ∷ s
    → advance_from src p ≡ ok (token src p rparen (p + 1))
close_token src p s e = at_token src p b')' s e refl ∙ closed
  where
    closed : token_at src p (b')' ∷ s) ≡ ok (token src p rparen (p + 1))
    closed = unfold token_at find_operator operator_token in refl

pub end_token : (src : Text) (p : ℕ) → drop p src ≡ [] → advance_from src p ≡ ok (token src p eof p)
unfolding advance_from skip_ws count_while token_at
end_token src p e =
    let none_skipped : count_while is_ascii_whitespace (drop p src) ≡ 0 = rw e refl in
    let here : p + count_while is_ascii_whitespace (drop p src) ≡ p = omega (arith, none_skipped) in
    ap (λ q. token_at src q (drop q src)) here ∙ ap (token_at src p) e

-- The token of an operator is read between blanks.
op_read :
    (op : BinOp) (src : Text) (p : ℕ) (rest : Text)
    → drop p src ≡ 32 ∷ op_text op ++ 32 ∷ rest
    → advance_from src p ≡ token_at src (p + 1) (op_text op ++ 32 ∷ rest)
op_read times src p rest e = after_space src p _ _ e refl
op_read _ src p rest e = after_space src p _ _ e refl

op_at :
    (op : BinOp) (src : Text) (q : ℕ) (rest : Text)
    → token_at src q (op_text op ++ 32 ∷ rest)
      ≡ ok (token src q (op_token op) (q + length (op_text op)))
unfolding token_at find_operator operator_token
op_at times src q rest = refl
op_at _ src q rest = refl

-- what may stand behind an expression: nothing, a blank, or `)`
abbrev pub ends_number : Text → Bool
ends_number [] = true
ends_number (c ∷ s) = c == 32 || c == b')'

count_while-append :
    (s rest : Text)
    → all is_ascii_digit s ≡ true
    → ends_number rest ≡ true
    → count_while is_number_char (s ++ rest) ≡ length s
unfolding count_while
count_while-append [] [] h f = refl
count_while-append [] (c ∷ rest) h f =
    let stops : is_number_char c ≡ false = ground arith in rw stops refl
count_while-append (c ∷ s) rest h f =
    let goes : is_number_char c ≡ true = ground arith in
    rw goes (ap suc (count_while-append s rest (ground arith) f))

number_read :
    (src : Text) (p n : ℕ) (rest : Text)
    → drop p src ≡ to_string n ++ rest
    → ends_number rest ≡ true
    → lex_number src p ≡ ok (num (n % 2 ^ 64), p + length (to_string n))
unfolding lex_number
number_read src p n rest e f =
    let s = to_string n in
    let count : count_while is_number_char (drop p src) ≡ length s =
      ap (count_while is_number_char) e ∙ count_while-append s rest (to_string_digits n) f in
    let digits : take (length s) (drop p src) ≡ s =
      ap (take (length s)) e ∙ take-length_append s rest in
    rw count (rw digits (rw (parse_number-to_string n) refl))

digits_at :
    (src : Text) (p n c : ℕ) (s : Text)
    → is_ascii_digit c ≡ true
    → lex_number src p ≡ ok (num (n % 2 ^ 64), p + length (to_string n))
    → token_at src p (c ∷ s) ≡ ok (token src p (num (n % 2 ^ 64)) (p + length (to_string n)))
unfolding token_at
digits_at src p n c s d e = rw d (rw e refl)

pub number_token :
    (src : Text) (p n : ℕ) (rest : Text)
    → drop p src ≡ to_string n ++ rest
    → ends_number rest ≡ true
    → advance_from src p ≡ ok (token src p (num (n % 2 ^ 64)) (p + length (to_string n)))
number_token src p n rest e f =
    let (c, cs, h, d) = to_string_head n in
    let here : drop p src ≡ c ∷ (cs ++ rest) = e ∙ ap (λ s. s ++ rest) h in
    let not_blank : is_ascii_whitespace c ≡ false = ground arith in
    at_token src p c (cs ++ rest) here not_blank
    ∙ digits_at src p n c (cs ++ rest) d (number_read src p n rest e f)

pub op_reads :
    (op : BinOp) (src : Text) (p : ℕ) (rest : Text)
    → drop p src ≡ 32 ∷ op_text op ++ 32 ∷ rest
    → advance_from src p ≡ ok (token src (p + 1) (op_token op) (p + 1 + length (op_text op)))
op_reads op src p rest e = op_read op src p rest e ∙ op_at op src (p + 1) rest

-- the first token of a printed expression at `p`
abbrev pub first_enclosed : Bool → Text → (ℕ → Lexer) → ℕ → Lexer
first_enclosed true src first p = token src p lparen (p + 1)
first_enclosed false src first p = first p

abbrev pub first_token : Text → ℕ → Expr → ℕ → Lexer
first_token src i (const n) p = token src p (num (n % 2 ^ 64)) (p + length (to_string n))
first_token src i (unary op a) p = token src p lparen (p + 1)
first_token src i (binary op a b) p =
    first_enclosed (leb i (op_level op)) src (λ q. first_token src (op_level op) a q) p

enclosed_reads :
    (src : Text) (parens : Bool) (body : Text → Text) (first : ℕ → Lexer) (p : ℕ) (rest : Text)
    → drop p src ≡ enclose parens body rest
    → (drop p src ≡ body rest → advance_from src p ≡ ok (first p))
    → advance_from src p ≡ ok (first_enclosed parens src first p)
enclosed_reads src true body first p rest e h = open_token src p _ e
enclosed_reads src false body first p rest e h = h e

pub first_reads :
    (src : Text) (i : ℕ) (e : Expr) (p : ℕ) (rest : Text)
    → drop p src ≡ print_at i e rest
    → ends_number rest ≡ true
    → advance_from src p ≡ ok (first_token src i e p)
unfolding print_at
first_reads src i (const n) p rest e f = number_token src p n rest e f
first_reads src i (unary op a) p rest e f = open_token src p _ e
first_reads src i (binary op a b) p rest e f =
    enclosed_reads src (leb i (op_level op)) _ _ p rest e
      λ h. first_reads src (op_level op) a p _ h refl

blank_passed :
    (src : Text) (p c : ℕ) (s : Text)
    → drop p src ≡ 32 ∷ c ∷ s
    → is_ascii_whitespace c ≡ false
    → advance_from src p ≡ advance_from src (p + 1)
blank_passed src p c s e h =
    after_space src p c s e h
    ∙ sym (at_token src (p + 1) c s (drop_past (32 ∷ []) (c ∷ s) p src e) h)

-- a text that begins with a character that is neither blank nor a sign
pub record Begins (s : Text) : Type 0 where
  pub head : ℕ
  pub rest : Text
  pub shape : s ≡ head ∷ rest
  pub not_blank : is_whitespace head ≡ false
  pub not_plus : (head == b'+') ≡ false
  pub not_minus : (head == b'-') ≡ false

paren-Begins : (s : Text) → Begins (b'(' ∷ s)
paren-Begins s = record {
  head = b'(';
  rest = s;
  shape = refl;
  not_blank = refl;
  not_plus = refl;
  not_minus = refl;
}

enclosed-Begins :
    (parens : Bool) (body : Text → Text) (rest : Text)
    → Begins (body rest)
    → Begins (enclose parens body rest)
enclosed-Begins true body rest h = paren-Begins _
enclosed-Begins false body rest h = h

pub print-Begins : (i : ℕ) (e : Expr) (rest : Text) → Begins (print_at i e rest)
unfolding print_at
print-Begins i (const n) rest =
    let (c, cs, h, d) = to_string_head n in
    record {
      head = c;
      rest = cs ++ rest;
      shape = ap (λ s. s ++ rest) h;
      not_blank = ground arith;
      not_plus = ground arith;
      not_minus = ground arith;
    }
print-Begins i (unary op a) rest = paren-Begins _
print-Begins i (binary op a b) rest =
    enclosed-Begins (leb i (op_level op)) _ rest (print-Begins (op_level op) a _)

-- the same, behind a blank
pub first_reads_later :
    (src : Text) (i : ℕ) (e : Expr) (p : ℕ) (rest : Text)
    → drop p src ≡ 32 ∷ print_at i e rest
    → ends_number rest ≡ true
    → advance_from src p ≡ ok (first_token src i e (p + 1))
first_reads_later src i e p rest h f =
    let b = print-Begins i e rest in
    let here : drop p src ≡ 32 ∷ b.head ∷ b.rest = h ∙ ap (λ s. 32 ∷ s) b.shape in
    let not_ascii : is_ascii_whitespace b.head ≡ false = ground (arith, b.not_blank) in
    blank_passed src p b.head b.rest here not_ascii
    ∙ first_reads src i e (p + 1) rest (drop_past (32 ∷ []) (print_at i e rest) p src h) f

-- The token of a sign is read in front of a blank.
sign_at :
    (op : UnOp) (src : Text) (p : ℕ) (rest : Text)
    → token_at src p (un_text op ++ 32 ∷ rest) ≡ ok (token src p (un_token op) (p + 1))
unfolding token_at find_operator operator_token
sign_at keep src p rest = refl
sign_at _ src p rest = refl

pub sign_reads :
    (op : UnOp) (src : Text) (p : ℕ) (rest : Text)
    → drop p src ≡ un_text op ++ 32 ∷ rest
    → advance_from src p ≡ ok (token src p (un_token op) (p + 1))
sign_reads keep src p rest e = at_token src p _ _ e refl ∙ sign_at keep src p rest
sign_reads negate src p rest e = at_token src p _ _ e refl ∙ sign_at negate src p rest
sign_reads invert src p rest e = at_token src p _ _ e refl ∙ sign_at invert src p rest
sign_reads deny src p rest e = at_token src p _ _ e refl ∙ sign_at deny src p rest
