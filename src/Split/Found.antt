-- ===== src/Split/Found.antt =====
-- What splitting finds at the place of a piece (crates/expander/src/split.rs `unquoted_ifs_at`).
use cherubsh.Base.{
  ◌≡◌, refl, ap, ◌∙◌, ℕ, zero, suc, ◌+◌, ◌<◌, Bool, true, false, ◌&&◌, ◌||◌, Option, none, some, [],
  ◌∷◌, ◌++◌, Text, length, drop, get_elem?, leb, ◌==◌, if◌then◌else◌, Bool-cases, inl, inr, arith,
}
use cherubsh.Split.{
  IfsState, Place, raw_literal, raw_literal_at, separator_at, plain_ifs_at, byte_ifs_at, ifs_at,
  unquoted_ifs_at, ctlesc, ctlnul, ctlraw, is_inside_valid_utf8_char,
}
use cherubsh.Split.Buffer.{is_ctl}
use cherubsh.Split.Pieces.{Piece, literal, quoted, quoted_null, param_null, IsPiece, code_of}

-- An IFS of ASCII bytes. A null one has no bytes.
pub record IsAscii (ifs : IfsState) : Type 0 where
  pub single : ifs.utf8_separators ≡ []
  pub ascii : (b : ℕ) → ifs.cmap b ≡ true → b < 0x80
  pub no_bytes : ifs.is_null ≡ true → (b : ℕ) → ifs.cmap b ≡ false
  pub white : (b : ℕ) → ifs.whitespace b ≡ true → ifs.cmap b ≡ true

get_elem?-drop : (i k : ℕ) (s : Text) → get_elem? s (i + k) ≡ get_elem? (drop i s) k
get_elem?-drop zero k s = ap (get_elem? s) (omega arith)
get_elem?-drop (suc i) k [] = refl
get_elem?-drop (suc i) k (c ∷ s) =
    let e : suc i + k ≡ suc (i + k) = omega arith in ap (get_elem? (c ∷ s)) e ∙ get_elem?-drop i k s

pub at_rest :
    (i k : ℕ) (bytes rest : Text) → drop i bytes ≡ rest → get_elem? bytes (i + k) ≡ get_elem? rest k
at_rest i k bytes rest e = get_elem?-drop i k bytes ∙ ap (λ s. get_elem? s k) e

pub at_first :
    (i : ℕ) (bytes rest : Text) → drop i bytes ≡ rest → get_elem? bytes i ≡ get_elem? rest 0
at_first i bytes rest e = ap (get_elem? bytes) (omega arith) ∙ at_rest i 0 bytes rest e

raw_literal-none :
    (i a : ℕ) (b c : Option ℕ) → (a == ctlesc) ≡ false → raw_literal i (some a) b c ≡ none
unfolding raw_literal
raw_literal-none i a none c h = refl
raw_literal-none i a (some b) none h = refl
raw_literal-none i a (some b) (some c) h = rw h refl

raw_literal_escaped :
    (i a b : ℕ) (c : Option ℕ) → (b == ctlraw) ≡ false → raw_literal i (some a) (some b) c ≡ none
unfolding raw_literal
raw_literal_escaped i a b none h = refl
raw_literal_escaped i a b (some c) h =
    let no : (a == ctlesc && b == ctlraw) ≡ false = ground arith in rw no refl

pub raw_at :
    (i : ℕ) (bytes rest : Text)
    → drop i bytes ≡ rest
    → raw_literal_at bytes i
      ≡ raw_literal i (get_elem? rest 0) (get_elem? rest 1) (get_elem? rest 2)
unfolding raw_literal_at
raw_at i bytes rest e =
    rw (at_first i bytes rest e)
      (rw (at_rest i 1 bytes rest e) (rw (at_rest i 2 bytes rest e) refl))

-- The raw literal at a piece: only a control byte that is not quoted is one.
unfoldable pub raw_of : ℕ → Piece → Place
raw_of i (literal b) = if is_ctl b then some (b, i + 3) else none
raw_of i _ = none

pub code_of_ctl : (b : ℕ) → is_ctl b ≡ true → code_of (literal b) ≡ ctlesc ∷ ctlraw ∷ b ∷ []
code_of_ctl b c = rw c refl

pub code_of_plain : (b : ℕ) → is_ctl b ≡ false → code_of (literal b) ≡ b ∷ []
code_of_plain b c = rw c refl

pub raw_of_lem :
    (i : ℕ) (bytes : Text) (p : Piece) (s : Text)
    → IsPiece p
    → drop i bytes ≡ code_of p ++ s
    → raw_literal_at bytes i ≡ raw_of i p
unfolding raw_of
raw_of_lem i bytes (literal b) s h e = elim (Bool-cases (is_ctl b)) [
  | inl c ↦
      let e' : drop i bytes ≡ ctlesc ∷ ctlraw ∷ b ∷ s = e ∙ ap (λ t. t ++ s) (code_of_ctl b c) in
      rw c (raw_at i bytes _ e' ∙ unfold raw_literal in refl)
  | inr c ↦
      let e' : drop i bytes ≡ b ∷ s = e ∙ ap (λ t. t ++ s) (code_of_plain b c) in
      let no : (b == ctlesc) ≡ false = ground arith in
      rw c (raw_at i bytes _ e' ∙ raw_literal-none i b _ _ no)
]
raw_of_lem i bytes (quoted b) s h e =
    raw_at i bytes _ e ∙ raw_literal_escaped i ctlesc b (get_elem? s 0) (ground arith)
raw_of_lem i bytes quoted_null s h e = raw_at i bytes _ e ∙ raw_literal-none i ctlnul _ _ refl
raw_of_lem i bytes param_null s h e = raw_at i bytes _ e ∙ raw_literal-none i ctlnul _ _ refl

-- the delimiter at a piece, with the place behind it
abbrev pub found : IfsState → ℕ → Piece → Place
found ifs i (literal b) = if ifs.cmap b then some (b, i + length (code_of (literal b))) else none
found ifs i _ = none

either_way : (t : Bool) (p : Place) → (if t then p else p) ≡ p
either_way true p = refl
either_way false p = refl

plain_ifs_at-ascii :
    (bytes : Text) (i : ℕ) (ifs : IfsState) (b : ℕ)
    → IsAscii ifs
    → plain_ifs_at bytes i ifs b ≡ (if ifs.cmap b then some (b, i + 1) else none)
unfolding plain_ifs_at
plain_ifs_at-ascii bytes i ifs b v = elim (Bool-cases (ifs.cmap b)) [
  | inl c ↦ let small : leb 0x80 b ≡ false = ground (arith, v.ascii b c) in rw small refl
  | inr c ↦ rw c (either_way (leb 0x80 b && is_inside_valid_utf8_char bytes i) none)
]

byte_ifs_at-ascii :
    (bytes : Text) (i : ℕ) (ifs : IfsState) (b : ℕ)
    → IsAscii ifs
    → is_ctl b ≡ false
    → byte_ifs_at bytes i ifs (some b) ≡ (if ifs.cmap b then some (b, i + 1) else none)
unfolding byte_ifs_at
byte_ifs_at-ascii bytes i ifs b v h =
    let no : (b == ctlesc || b == ctlnul) ≡ false = ground arith in
    rw no (rw v.single (unfold separator_at in plain_ifs_at-ascii bytes i ifs b v))

found_byte :
    (bytes : Text) (i : ℕ) (ifs : IfsState) (b : ℕ) (s : Text)
    → IsAscii ifs
    → is_ctl b ≡ false
    → drop i bytes ≡ b ∷ s
    → ifs_at bytes i ifs none ≡ (if ifs.cmap b then some (b, i + 1) else none)
unfolding ifs_at
found_byte bytes i ifs b s v c e =
    rw (at_first i bytes (b ∷ s) e) (byte_ifs_at-ascii bytes i ifs b v c)

escaped_byte :
    (bytes : Text) (i : ℕ) (ifs : IfsState) (b : ℕ) (s : Text)
    → (b == ctlesc || b == ctlnul) ≡ true
    → drop i bytes ≡ b ∷ s
    → ifs_at bytes i ifs none ≡ none
unfolding ifs_at byte_ifs_at
escaped_byte bytes i ifs b s h e = rw (at_first i bytes (b ∷ s) e) (rw h refl)

pub found_lem :
    (bytes : Text) (i : ℕ) (ifs : IfsState) (p : Piece) (s : Text)
    → IsAscii ifs
    → IsPiece p
    → drop i bytes ≡ code_of p ++ s
    → unquoted_ifs_at bytes i ifs ≡ found ifs i p
unfolding unquoted_ifs_at raw_of
found_lem bytes i ifs (literal b) s v h e =
    let raw = raw_of_lem i bytes (literal b) s h e in
    elim (Bool-cases (is_ctl b)) [
      | inl c ↦ rw raw (unfold ifs_at in rw c refl)
      | inr c ↦
          let e' : drop i bytes ≡ b ∷ s = e ∙ ap (λ t. t ++ s) (code_of_plain b c) in
          rw raw (rw c (found_byte bytes i ifs b s v c e'))
    ]
found_lem bytes i ifs (quoted b) s v h e =
    rw (raw_of_lem i bytes (quoted b) s h e) (escaped_byte bytes i ifs ctlesc _ refl e)
found_lem bytes i ifs quoted_null s v h e =
    rw (raw_of_lem i bytes quoted_null s h e) (escaped_byte bytes i ifs ctlnul _ refl e)
found_lem bytes i ifs param_null s v h e =
    rw (raw_of_lem i bytes param_null s h e) (escaped_byte bytes i ifs ctlnul _ refl e)

pub found_end :
    (bytes : Text) (i : ℕ) (ifs : IfsState) → drop i bytes ≡ [] → unquoted_ifs_at bytes i ifs ≡ none
unfolding unquoted_ifs_at
found_end bytes i ifs e =
    let raw : raw_literal_at bytes i ≡ none = raw_at i bytes [] e ∙ unfold raw_literal in refl in
    rw raw (unfold ifs_at byte_ifs_at in rw (at_first i bytes [] e) refl)
