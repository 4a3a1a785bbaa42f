-- ===== src/Arith/Lexing.antt =====
-- What a token takes of the text (crates/expander/src/arith.rs `Lexer::advance`).
use cherubsh.Base.{
  ℕ, zero, suc, ◌+◌, ◌≤◌, ◌<◌, Bool, true, false, ◌&&◌, not, ltb, ◌==◌, if◌then◌else◌, ◌≡◌, refl,
  Text, List, [], ◌∷◌, drop, take, length, all, length-drop, Option, none, some, starts_with,
  is_ascii_digit, Bool-cases, inl, inr, arith, ap, subst,
}
use cherubsh.Arith.{Gives, Gives-and_then, Gives-if, Gives-weaken}
use cherubsh.Arith.Number.{parse_number}
use cherubsh.Arith.Errors.{Static, Any, parse_number-Gives}
use cherubsh.Arith.Lexer.{
  Tok, Lexer, ident, plus_plus, minus_minus, is_ascii_whitespace, is_ident_start, is_ident_char,
  is_number_char, count_while, skip_ws, after_char, subscript_count, ident_count, operators,
  find_operator, token, operator_token, lex_number, token_at, advance_from, is_eof,
}

abbrev pub is_double : Tok → Bool
is_double plus_plus = true
is_double minus_minus = true
is_double _ = false

-- a lexer that stands behind a token of its text
pub record IsLexer (lex : Lexer) : Type 0 where
  pub at_end : lex.i ≡ lex.tok_end
  pub in_order : lex.tok_start ≤ lex.tok_end
  pub takes : is_eof lex.cur ≡ false → lex.tok_start < lex.tok_end
  pub inside : is_eof lex.cur ≡ false → lex.tok_end ≤ length lex.src
  pub takes_two : is_double lex.cur ≡ true → suc lex.tok_start < lex.tok_end

count_while-le : (p : ℕ → Bool) (s : Text) → count_while p s ≤ length s
unfolding count_while
count_while-le p [] = omega arith
count_while-le p (c ∷ s) = ground (arith, count_while-le p s)

count_while-pos : (p : ℕ → Bool) (c : ℕ) (s : Text) → p c ≡ true → 0 < count_while p (c ∷ s)
unfolding count_while
count_while-pos p c s h = ground arith

subscript_count-le : (st : ℕ × Bool) (s : Text) → subscript_count st s ≤ length s
unfolding subscript_count
subscript_count-le (zero, escaped) s = omega arith
subscript_count-le (suc d, escaped) [] = omega arith
subscript_count-le (suc d, escaped) (c ∷ s) =
    omega (arith, subscript_count-le (after_char d escaped c s) s)

starts_with-le : (s t : Text) → starts_with s t ≡ true → length t ≤ length s
starts_with-le s [] h = omega arith
starts_with-le [] (p ∷ t) h = cc
starts_with-le (c ∷ s) (p ∷ t) h = ground (arith, starts_with-le s t)

ident_count-le : (s : Text) → ident_count s ≤ length s
unfolding ident_count
ident_count-le s =
    let n = count_while is_ident_char s in
    elim (Bool-cases (starts_with (drop n s) (b'[' ∷ []))) [
      | inl e ↦ rw e (
          omega (
            arith,
            starts_with-le (drop n s) (b'[' ∷ []) e,
            subscript_count-le (1, false) (drop (n + 1) s),
            length-drop n s,
            length-drop (n + 1) s,
          ))
      | inr e ↦ rw e (count_while-le is_ident_char s)
    ]

ident_count-pos : (c : ℕ) (s : Text) → is_ident_start c ≡ true → 0 < ident_count (c ∷ s)
unfolding ident_count
ident_count-pos c s h =
    let start : is_ident_char c ≡ true = ground arith in
    ground (arith, count_while-pos is_ident_char c s start)

abbrev good_operator : Text × Tok → Bool
good_operator (text, tok) =
    ltb 0 (length text) && not (is_eof tok) && (if is_double tok then length text == 2 else true)

-- what an operator that is found takes
record Takes (s : Text) (entry : Text × Tok) : Type 0 where
  something : 0 < length entry.0
  no_more : length entry.0 ≤ length s
  not_eof : is_eof entry.1 ≡ false
  two : is_double entry.1 ≡ true → 1 < length entry.0

good-Takes :
    (s text : Text) (tok : Tok)
    → good_operator (text, tok) ≡ true
    → length text ≤ length s
    → Takes s (text, tok)
good-Takes s text tok good fits = record {
  something = ground arith;
  no_more = fits;
  not_eof = ground arith;
  two = λ d. ground arith;
}

find_operator-Takes :
    (table : List (Text × Tok)) (s : Text) (entry : Text × Tok)
    → all good_operator table ≡ true
    → find_operator table s ≡ some entry
    → Takes s entry
unfolding find_operator
find_operator-Takes [] s entry good h = cc
find_operator-Takes ((t, k) ∷ table) s entry good h = elim (Bool-cases (starts_with s t)) [
  | inl e ↦
      let found : ◌≡◌ {A = Text × Tok} (t, k) entry = ground (arith, e, h) in
      subst (λ x. Takes s x) found (good-Takes s t k (ground arith) (starts_with-le s t e))
  | inr e ↦ find_operator-Takes table s entry (ground arith) (ground arith)
]

-- what a token that is read at `i` or behind it leaves
pub record From (src : Text) (i : ℕ) (lex : Lexer) : Type 0 where
  pub same_src : lex.src ≡ src
  pub lexer : IsLexer lex
  pub behind : i ≤ lex.tok_start

token-From :
    (src : Text) (start : ℕ) (tok : Tok) (end : ℕ)
    → start < end
    → end ≤ length src
    → (is_double tok ≡ true → suc start < end)
    → From src start (token src start tok end)
token-From src start tok end h₁ h₂ h₃ = record {
  same_src = refl;
  lexer = record {
    at_end = refl;
    in_order = omega arith;
    takes = λ h. h₁;
    inside = λ h. h₂;
    takes_two = h₃;
  };
  behind = omega arith;
}

operator_token-From :
    (src : Text) (start b : ℕ) (s : Text) (entry : Option (Text × Tok))
    → drop start src ≡ b ∷ s
    → find_operator operators (b ∷ s) ≡ entry
    → Gives (From src start) Static ⊥ (operator_token src start b entry)
unfolding operator_token
operator_token-From src start b s none e h = ground arith
operator_token-From src start b s (some (text, tok)) e h =
    let takes = find_operator-Takes operators (b ∷ s) (text, tok) refl h in
    let size = length-drop start src in
    let size' : length (drop start src) ≡ length (b ∷ s) = ap length e in
    token-From src start tok (start + length text) (omega (arith, takes.something))
      (omega (arith, takes.no_more, size, size', takes.something)) λ d. omega (arith, takes.two d)

lex_number-Gives :
    (src : Text) (start b : ℕ) (s : Text)
    → drop start src ≡ b ∷ s
    → is_ascii_digit b ≡ true
    → Gives
        (λ (tok, end). (start < end) × (end ≤ length src) × (is_double tok ≡ false))
        Static
        ⊥
        (lex_number src start)
unfolding lex_number
lex_number-Gives src start b s e h =
    let n = count_while is_number_char (drop start src) in
    let starts : is_number_char b ≡ true = ground arith in
    let some_digits : 0 < n = rw e (count_while-pos is_number_char b s starts) in
    let size = length-drop start src in
    let fits : n ≤ length (drop start src) = count_while-le is_number_char (drop start src) in
    Gives-and_then Any
      (λ (r : Tok × ℕ). (start < r.1) × (r.1 ≤ length src) × (is_double r.0 ≡ false)) Static ⊥
      (parse_number (take n (drop start src))) _ (parse_number-Gives (take n (drop start src)))
      λ v u. (omega arith, omega arith, refl)

token_at-From :
    (src : Text) (start : ℕ) (s : Text)
    → drop start src ≡ s
    → Gives (From src start) Static ⊥ (token_at src start s)
unfolding token_at
token_at-From src start [] e = record {
  same_src = refl;
  lexer = record {
    at_end = refl;
    in_order = omega arith;
    takes = λ h. absurd (cc);
    inside = λ h. absurd (cc);
    takes_two = λ h. absurd (cc);
  };
  behind = omega arith;
}
token_at-From src start (b ∷ s) e =
    let n = ident_count (b ∷ s) in
    let size = length-drop start src in
    let size' : length (drop start src) ≡ length (b ∷ s) = ap length e in
    Gives-if (From src start) Static ⊥ (is_ascii_digit b) _ _
      (λ d.
        Gives-and_then
          (λ (r : Tok × ℕ). (start < r.1) × (r.1 ≤ length src) × (is_double r.0 ≡ false))
          (From src start) Static ⊥ (lex_number src start) _ (lex_number-Gives src start b s e d)
          λ (tok, end) h. token-From src start tok end h.0 h.1 (λ k. absurd (cc)))
      λ d.
        Gives-if (From src start) Static ⊥ (is_ident_start b) _ _
          (λ i.
            token-From src start (ident (take n (b ∷ s))) (start + n)
              (omega (arith, ident_count-pos b s i))
              (omega (arith, size, size', ident_count-le (b ∷ s), ident_count-pos b s i))
              (λ k. absurd (cc)))
          λ i. operator_token-From src start b s (find_operator operators (b ∷ s)) e refl

From-weaken : (src : Text) (i j : ℕ) (lex : Lexer) → i ≤ j → From src j lex → From src i lex
From-weaken src i j lex h f = record {
  same_src = f.same_src;
  lexer = f.lexer;
  behind = omega (arith, f.behind);
}

pub advance_from-From : (src : Text) (i : ℕ) → Gives (From src i) Static ⊥ (advance_from src i)
unfolding advance_from skip_ws
advance_from-From src i =
    let start = i + count_while is_ascii_whitespace (drop i src) in
    Gives-weaken (From src start) (From src i) Static ⊥ (token_at src start (drop start src))
      (token_at-From src start (drop start src) refl)
      λ lex h. From-weaken src i start lex (omega arith) h
