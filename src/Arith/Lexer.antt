-- ===== src/Arith/Lexer.antt =====
-- The lexer of arithmetic (crates/expander/src/arith.rs `Tok`, `Lexer`).
use cherubsh.Base.{
  ℕ, zero, suc, ◌+◌, ◌-◌, Bool, true, false, ◌&&◌, ◌||◌, leb, ltb, ◌==◌, if◌then◌else◌, Text, List,
  [], ◌∷◌, drop, take, length, Option, none, some, starts_with, is_ascii_digit, codes,
}
use cherubsh.Arith.{Res, ok, err, and_then, invalid_operator, operand_expected}
use cherubsh.Arith.Number.{parse_number}

pub data Tok : Type 0 where
  num : ℕ → Tok
  ident : Text → Tok
  plus minus star slash percent star_star : Tok
  eq plus_eq minus_eq star_eq slash_eq percent_eq star_star_eq : Tok
  amp_eq pipe_eq caret_eq shl_eq shr_eq : Tok
  lparen rparen bang tilde amp_amp pipe_pipe amp pipe caret : Tok
  eq_eq bang_eq less le greater ge shl shr question colon comma : Tok
  plus_plus minus_minus eof : Tok

pub record Lexer : Type 0 where
  pub src : Text
  pub i : ℕ
  pub cur : Tok
  pub tok_start : ℕ
  pub tok_end : ℕ

abbrev pub is_ascii_whitespace : ℕ → Bool
is_ascii_whitespace c = c == 32 || c == 9 || c == 10 || c == 12 || c == 13

abbrev pub is_ascii_alphabetic : ℕ → Bool
is_ascii_alphabetic c = leb b'a' c && leb c b'z' || leb b'A' c && leb c b'Z'

abbrev pub is_ascii_alphanumeric : ℕ → Bool
is_ascii_alphanumeric c = is_ascii_digit c || is_ascii_alphabetic c

abbrev pub is_ident_start : ℕ → Bool
is_ident_start c = c == b'_' || is_ascii_alphabetic c

abbrev pub is_ident_char : ℕ → Bool
is_ident_char c = c == b'_' || is_ascii_alphanumeric c

abbrev pub is_number_char : ℕ → Bool
is_number_char c = is_ascii_alphanumeric c || c == b'#' || c == b'@' || c == b'_'

-- how far a loop `while p(src[i])` goes
unfoldable pub count_while : (ℕ → Bool) → Text → ℕ
count_while p [] = 0
count_while p (c ∷ s) = let rest = count_while p s in if p c then suc rest else 0

unfoldable pub skip_ws : Text → ℕ → ℕ
unfolding count_while
skip_ws src i = i + count_while is_ascii_whitespace (drop i src)

-- One character of a subscript: the depth behind it, where it is `suc d` before it, and whether the
-- next one is escaped.
unfoldable pub after_char : ℕ → Bool → ℕ → Text → ℕ × Bool
after_char d true c rest = (suc d, false)
after_char d false c rest =
    if c == b'\\' && ltb 0 (length rest)
    then (suc d, true)
    else if d == 0 && (c == b'[' || c == b']') && starts_with rest (b']' ∷ [])
    then (suc d, false)
    else if c == b'['
    then (suc (suc d), false)
    else if c == b']'
    then (d, false)
    else (suc d, false)

-- how far the loop over a subscript goes
unfoldable pub subscript_count : ℕ × Bool → Text → ℕ
unfolding after_char
subscript_count (zero, escaped) s = 0
subscript_count (suc d, escaped) [] = 0
subscript_count (suc d, escaped) (c ∷ s) = suc (subscript_count (after_char d escaped c s) s)

-- what an identifier takes of the text, its subscript included
unfoldable pub ident_count : Text → ℕ
unfolding count_while subscript_count
ident_count s =
    let n = count_while is_ident_char s in
    if starts_with (drop n s) (b'[' ∷ [])
    then n + 1 + subscript_count (1, false) (drop (n + 1) s)
    else n

-- the operators, in the order in which the code tests for them
abbrev pub operators : List (Text × Tok)
operators =
    (codes "**=", star_star_eq)
    ∷ (codes "<<=", shl_eq)
    ∷ (codes ">>=", shr_eq)
    ∷ (codes "**", star_star)
    ∷ (codes "<<", shl)
    ∷ (codes ">>", shr)
    ∷ (codes "<=", le)
    ∷ (codes ">=", ge)
    ∷ (codes "==", eq_eq)
    ∷ (codes "!=", bang_eq)
    ∷ (codes "&&", amp_amp)
    ∷ (codes "||", pipe_pipe)
    ∷ (codes "+=", plus_eq)
    ∷ (codes "-=", minus_eq)
    ∷ (codes "*=", star_eq)
    ∷ (codes "/=", slash_eq)
    ∷ (codes "%=", percent_eq)
    ∷ (codes "&=", amp_eq)
    ∷ (codes "|=", pipe_eq)
    ∷ (codes "^=", caret_eq)
    ∷ (codes "++", plus_plus)
    ∷ (codes "--", minus_minus)
    ∷ (codes "+", plus)
    ∷ (codes "-", minus)
    ∷ (codes "*", star)
    ∷ (codes "/", slash)
    ∷ (codes "%", percent)
    ∷ (codes "(", lparen)
    ∷ (codes ")", rparen)
    ∷ (codes "!", bang)
    ∷ (codes "~", tilde)
    ∷ (codes "<", less)
    ∷ (codes ">", greater)
    ∷ (codes "=", eq)
    ∷ (codes "&", amp)
    ∷ (codes "|", pipe)
    ∷ (codes "^", caret)
    ∷ (codes "?", question)
    ∷ (codes ":", colon)
    ∷ (codes ",", comma)
    ∷ []

unfoldable pub find_operator : List (Text × Tok) → Text → Option (Text × Tok)
find_operator [] s = none
find_operator ((text, tok) ∷ table) s =
    let later = find_operator table s in if starts_with s text then some (text, tok) else later

-- the lexer behind a token that starts at `start`
abbrev pub token : Text → ℕ → Tok → ℕ → Lexer
token src start tok end = record { src = src; i = end; cur = tok; tok_start = start; tok_end = end }

unfoldable pub operator_token : Text → ℕ → ℕ → Option (Text × Tok) → Res Lexer
operator_token src start b (some (text, tok)) = ok (token src start tok (start + length text))
operator_token src start b none =
    if b == b'[' || b == b']' || b == b'\\'
    then err (invalid_operator src start)
    else err (operand_expected src start)

unfoldable pub lex_number : Text → ℕ → Res (Tok × ℕ)
unfolding count_while
lex_number src start =
    let n = count_while is_number_char (drop start src) in
    and_then (parse_number (take n (drop start src))) λ v. ok (num v, start + n)

-- the token at `start`, given what is left of the text there
unfoldable pub token_at : Text → ℕ → Text → Res Lexer
unfolding lex_number ident_count find_operator operator_token
token_at src start [] = ok (token src start eof start)
token_at src start (b ∷ s) =
    if is_ascii_digit b
    then and_then (lex_number src start) (λ (tok, end). ok (token src start tok end))
    else if is_ident_start b
    then ok
        (token src start (ident (take (ident_count (b ∷ s)) (b ∷ s))) (start + ident_count (b ∷ s)))
    else operator_token src start b (find_operator operators (b ∷ s))

unfoldable pub advance_from : Text → ℕ → Res Lexer
unfolding skip_ws token_at
advance_from src i = let start = skip_ws src i in token_at src start (drop start src)

unfoldable pub advance : Lexer → Res Lexer
unfolding advance_from
advance lex = advance_from lex.src lex.i

unfoldable pub Lexer_new : Text → Res Lexer
unfolding advance_from
Lexer_new src = advance_from src 0

unfoldable pub consume_first_char_of_double_operator : Lexer → Res Lexer
unfolding advance_from
consume_first_char_of_double_operator lex = advance_from lex.src (lex.tok_end - 1)

abbrev pub is_eof : Tok → Bool
is_eof eof = true
is_eof _ = false

unfoldable pub arith_rhs_expected : Lexer → ℕ → Res (Unit {0})
arith_rhs_expected lex op_start =
    if is_eof lex.cur then err (operand_expected lex.src op_start) else ok tt
