-- ===== src/Split/Steps.antt =====
-- How far a turn of word splitting gets (crates/expander/src/split.rs).
use cherubsh.Base.{
  ◌≡◌, refl, ℕ, zero, suc, ◌+◌, ◌≤◌, ◌<◌, true, ◌&&◌, ◌||◌, Option, none, some, List, [], ◌∷◌, Text,
  starts_with, length, drop, get_elem?, leb, ◌==◌, Bool-cases, inl, inr, arith, length-drop,
  get_elem?-some-lt,
}
use cherubsh.Split.{
  IfsState, Place, is_ifs, is_ifs_ws, is_ifs_nonws, raw_literal, raw_literal_at, separator_at,
  plain_ifs_at, byte_ifs_at, or_plain, ifs_at, unquoted_ifs_at, ws_next, skip_ws, skip_nonws,
  past_delimiter, ctlesc, ctlnul, ctlraw, is_inside_valid_utf8_char,
}

-- What is found ends after the place, inside the text.
abbrev pub Ahead : Text → ℕ → Place → Type 0
Ahead bytes i none = Unit
Ahead bytes i (some (b, next)) = (i < next) × (next ≤ length bytes)

raw_literal-Ahead :
    (bytes : Text) (i : ℕ) (a b c : Option ℕ)
    → get_elem? bytes (i + 2) ≡ c
    → Ahead bytes i (raw_literal i a b c)
unfolding raw_literal
raw_literal-Ahead bytes i (some a) (some b) (some c) e =
    elim (Bool-cases (a == ctlesc && b == ctlraw)) [
      | inl h ↦ rw h (omega arith, omega (arith, get_elem?-some-lt {0} bytes (i + 2) e))
      | inr h ↦ rw h tt
    ]
raw_literal-Ahead bytes i (some a) (some b) none e = tt
raw_literal-Ahead bytes i (some a) none c e = tt
raw_literal-Ahead bytes i none b c e = tt

pub raw_literal_at-Ahead : (bytes : Text) (i : ℕ) → Ahead bytes i (raw_literal_at bytes i)
unfolding raw_literal_at
raw_literal_at-Ahead bytes i = raw_literal-Ahead bytes i _ _ _ refl

starts_with-length : (s t : Text) → starts_with s t ≡ true → length t ≤ length s
starts_with-length s [] h = omega arith
starts_with-length [] (d ∷ t) h = absurd cc
starts_with-length (c ∷ s) (d ∷ t) h = omega (arith, starts_with-length s t (ground arith))

separator_at-Ahead :
    (bytes : Text) (i : ℕ) (seps : List Text) → Ahead bytes i (separator_at bytes i seps)
unfolding separator_at
separator_at-Ahead bytes i [] = tt
separator_at-Ahead bytes i ([] ∷ seps) = tt
separator_at-Ahead bytes i ((c ∷ sep) ∷ seps) =
    elim (Bool-cases (starts_with (drop i bytes) (c ∷ sep))) [
      | inl h ↦
          let room = starts_with-length (drop i bytes) (c ∷ sep) h in
          let left = length-drop {0} i bytes in rw h (omega arith, omega arith)
      | inr h ↦ rw h (separator_at-Ahead bytes i seps)
    ]

plain_ifs_at-Ahead :
    (bytes : Text) (i : ℕ) (ifs : IfsState) (b : ℕ)
    → i < length bytes
    → Ahead bytes i (plain_ifs_at bytes i ifs b)
unfolding plain_ifs_at
plain_ifs_at-Ahead bytes i ifs b l =
    elim (Bool-cases (leb 0x80 b && is_inside_valid_utf8_char bytes i)) [
      | inl h ↦ rw h tt
      | inr h ↦ elim (Bool-cases (is_ifs b ifs)) [
        | inl k ↦ rw (h, k) (omega arith, omega arith)
        | inr k ↦ rw (h, k) tt
      ]
    ]

or_plain-Ahead :
    (bytes : Text) (i : ℕ) (p q : Place)
    → Ahead bytes i p
    → Ahead bytes i q
    → Ahead bytes i (or_plain p q)
or_plain-Ahead bytes i none q h k = k
or_plain-Ahead bytes i (some found) q h k = h

byte_ifs_at-Ahead :
    (bytes : Text) (i : ℕ) (ifs : IfsState) (byte : Option ℕ)
    → get_elem? bytes i ≡ byte
    → Ahead bytes i (byte_ifs_at bytes i ifs byte)
unfolding byte_ifs_at
byte_ifs_at-Ahead bytes i ifs none e = tt
byte_ifs_at-Ahead bytes i ifs (some b) e = elim (Bool-cases (b == ctlesc || b == ctlnul)) [
  | inl h ↦ rw h tt
  | inr h ↦ rw h (
      or_plain-Ahead bytes i _ _ (separator_at-Ahead bytes i ifs.utf8_separators)
        (plain_ifs_at-Ahead bytes i ifs b (get_elem?-some-lt {0} bytes i e)))
]

ifs_at-Ahead :
    (bytes : Text) (i : ℕ) (ifs : IfsState) (p : Place)
    → Ahead bytes i p
    → Ahead bytes i (ifs_at bytes i ifs p)
unfolding ifs_at
ifs_at-Ahead bytes i ifs (some (literal, next)) h = elim (Bool-cases (is_ifs literal ifs)) [
  | inl k ↦ rw k h
  | inr k ↦ rw k tt
]
ifs_at-Ahead bytes i ifs none h = byte_ifs_at-Ahead bytes i ifs (get_elem? bytes i) refl

pub unquoted_ifs_at-Ahead :
    (bytes : Text) (i : ℕ) (ifs : IfsState) → Ahead bytes i (unquoted_ifs_at bytes i ifs)
unfolding unquoted_ifs_at
unquoted_ifs_at-Ahead bytes i ifs =
    ifs_at-Ahead bytes i ifs (raw_literal_at bytes i) (raw_literal_at-Ahead bytes i)

-- The place does not go back, nor out of the text.
abbrev pub Onward : Text → ℕ → ℕ → Type 0
Onward bytes i j = (i ≤ j) × (j ≤ length bytes)

pub ws_next-Onward :
    (bytes : Text) (i : ℕ) (ifs : IfsState) (p : Place)
    → i ≤ length bytes
    → Ahead bytes i p
    → Onward bytes i (ws_next bytes i ifs p)
ws_next-Onward bytes i ifs none l h = (omega arith, l)
ws_next-Onward bytes i ifs (some (delim, next)) l h = elim (Bool-cases (is_ifs_ws delim ifs)) [
  | inl k ↦ rw k (omega arith, omega arith)
  | inr k ↦ rw k (omega arith, l)
]

pub skip_ws-Onward :
    (fuel : ℕ) (bytes : Text) (i : ℕ) (ifs : IfsState)
    → i ≤ length bytes
    → Onward bytes i (skip_ws fuel bytes i ifs)
unfolding skip_ws
skip_ws-Onward zero bytes i ifs l = (omega arith, l)
skip_ws-Onward (suc fuel) bytes i ifs l =
    let j = ws_next bytes i ifs (unquoted_ifs_at bytes i ifs) in
    let here =
      ws_next-Onward bytes i ifs (unquoted_ifs_at bytes i ifs) l
        (unquoted_ifs_at-Ahead bytes i ifs) in
    let later = skip_ws-Onward fuel bytes j ifs here.1 in (omega arith, later.1)

skip_nonws-Onward :
    (bytes : Text) (i : ℕ) (ifs : IfsState) (p : Place)
    → i ≤ length bytes
    → Ahead bytes i p
    → Onward bytes i (skip_nonws bytes i ifs p)
unfolding skip_nonws
skip_nonws-Onward bytes i ifs none l h = (omega arith, l)
skip_nonws-Onward bytes i ifs (some (delim, next)) l h =
    elim (Bool-cases (is_ifs_nonws delim ifs)) [
      | inl k ↦
          let later = skip_ws-Onward (length bytes) bytes next ifs h.1 in
          rw k (omega arith, later.1)
      | inr k ↦ rw k (omega arith, l)
    ]

pub past_delimiter-Onward :
    (bytes : Text) (delim next : ℕ) (ifs : IfsState)
    → next ≤ length bytes
    → Onward bytes next (past_delimiter bytes delim next ifs)
unfolding past_delimiter
past_delimiter-Onward bytes delim next ifs l =
    let i = skip_ws (length bytes) bytes next ifs in
    let first = skip_ws-Onward (length bytes) bytes next ifs l in
    let second =
      skip_nonws-Onward bytes i ifs (unquoted_ifs_at bytes i ifs) first.1
        (unquoted_ifs_at-Ahead bytes i ifs) in
    elim (Bool-cases (is_ifs_ws delim ifs)) [
      | inl k ↦ rw k (omega arith, second.1)
      | inr k ↦ rw k first
    ]
