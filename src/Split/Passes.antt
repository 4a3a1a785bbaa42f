-- ===== src/Split/Passes.antt =====
-- The loops over white space and delimiters pass the pieces that they should
-- (crates/expander/src/split.rs `split`).
use cherubsh.Base.{
  ◌≡◌, refl, ap, ◌∙◌, ◌⊎◌, ℕ, zero, suc, ◌+◌, ◌≤◌, ◌<◌, Bool, true, false, none, some, List, [],
  ◌∷◌, Text, length, length-append, length-drop, drop, drop_past, Bool-cases, inl, inr, arith,
}
use cherubsh.Split.{IfsState, unquoted_ifs_at, ws_next, skip_ws, skip_nonws, past_delimiter}
use cherubsh.Split.Buffer.{is_ctl}
use cherubsh.Split.Ends.{skip_ws_still}
use cherubsh.Split.Pieces.{
  Piece, literal, quoted, quoted_null, param_null, IsPiece, IsPieces, code_of, encode, Kind, blank,
  separator, plain, kind,
}
use cherubsh.Split.Found.{IsAscii, found, found_lem, found_end}
use cherubsh.Split.Gaps.{blank_or, separator_or, drop_blank, drop_separator, past}

-- a delimiter: the byte that is found, and whether it is white space
pub record Delimits (ifs : IfsState) (p : Piece) (white : Bool) : Type 0 where
  pub byte : ℕ
  pub finds : (i : ℕ) → found ifs i p ≡ some (byte, i + length (code_of p))
  pub in_ifs : ifs.cmap byte ≡ true
  pub is_white : ifs.whitespace byte ≡ white

-- what a kind means for the code
abbrev pub Finds : IfsState → Piece → Kind → Type 0
Finds ifs p blank = Delimits ifs p true
Finds ifs p separator = Delimits ifs p false
Finds ifs p plain = (i : ℕ) → found ifs i p ≡ none

pub Finds-kind : (ifs : IfsState) (p : Piece) → Finds ifs p (kind ifs p)
Finds-kind ifs (literal b) = elim (Bool-cases (ifs.cmap b)) [
  | inl c ↦ elim (Bool-cases (ifs.whitespace b)) [
    | inl w ↦ rw (c, w) (record { byte = b; finds = λ i. rw c refl; in_ifs = c; is_white = w })
    | inr w ↦ rw (c, w) (record { byte = b; finds = λ i. rw c refl; in_ifs = c; is_white = w })
  ]
  | inr c ↦ rw c (λ i. rw c refl)
]
Finds-kind ifs (quoted b) = λ i. refl
Finds-kind ifs quoted_null = λ i. refl
Finds-kind ifs param_null = λ i. refl

pub length-code_of : (p : Piece) → 0 < length (code_of p)
length-code_of (literal b) = elim (Bool-cases (is_ctl b)) [
  | inl c ↦ rw c (omega arith)
  | inr c ↦ rw c (omega arith)
]
length-code_of (quoted b) = omega arith
length-code_of quoted_null = omega arith
length-code_of param_null = omega arith

length-encode : (ps : List Piece) → length ps ≤ length (encode ps)
length-encode [] = omega arith
length-encode (p ∷ ps) =
    omega (arith, length-append {0} (code_of p) (encode ps), length-code_of p, length-encode ps)

pub IsPieces-drop_blank :
    (ifs : IfsState) (ps : List Piece) → IsPieces ps → IsPieces (drop_blank ifs ps)
unfolding drop_blank
IsPieces-drop_blank ifs [] v = tt
IsPieces-drop_blank ifs (p ∷ ps) v = of_kind (kind ifs p) (IsPieces-drop_blank ifs ps v.1)
  where
    of_kind :
        (k : Kind)
        → IsPieces (drop_blank ifs ps)
        → IsPieces (blank_or k (drop_blank ifs ps) (p ∷ ps))
    of_kind blank h = h
    of_kind separator h = v
    of_kind plain h = v

IsPieces-drop_separator :
    (ifs : IfsState) (ps : List Piece) → IsPieces ps → IsPieces (drop_separator ifs ps)
unfolding drop_separator
IsPieces-drop_separator ifs [] v = tt
IsPieces-drop_separator ifs (p ∷ ps) v = of_kind (kind ifs p)
  where
    of_kind : (k : Kind) → IsPieces (separator_or k (drop_blank ifs ps) (p ∷ ps))
    of_kind blank = v
    of_kind separator = IsPieces-drop_blank ifs ps v.1
    of_kind plain = v

pub IsPieces-past :
    (ifs : IfsState) (k : Kind) (ps : List Piece) → IsPieces ps → IsPieces (past ifs k ps)
unfolding past
IsPieces-past ifs blank ps v =
    IsPieces-drop_separator ifs (drop_blank ifs ps) (IsPieces-drop_blank ifs ps v)
IsPieces-past ifs separator ps v = IsPieces-drop_blank ifs ps v
IsPieces-past ifs plain ps v = IsPieces-drop_blank ifs ps v

module _ (bytes : Text) (ifs : IfsState) (v : IsAscii ifs) where
  -- the pieces that stand from a place on
  abbrev pub At : ℕ → List Piece → Type 0
  At i ps = drop i bytes ≡ encode ps

  pub At-next :
      (i : ℕ) (p : Piece) (ps : List Piece) → At i (p ∷ ps) → At (i + length (code_of p)) ps
  At-next i p ps e = drop_past (code_of p) (encode ps) i bytes e

  pub enough : (i : ℕ) (ps : List Piece) → At i ps → length ps ≤ length bytes
  enough i ps e = omega (arith, length-encode ps, ap length e, length-drop {0} i bytes)

  ws_next-blank :
      (i : ℕ) (p : Piece) (ps : List Piece)
      → IsPiece p
      → At i (p ∷ ps)
      → Delimits ifs p true
      → ws_next bytes i ifs (unquoted_ifs_at bytes i ifs) ≡ i + length (code_of p)
  ws_next-blank i p ps h e d =
      rw (found_lem bytes i ifs p (encode ps) v h e) (rw (d.finds i) (rw d.is_white refl))

  ws_next-other :
      (i : ℕ) (p : Piece) (ps : List Piece) (k : Kind)
      → IsPiece p
      → At i (p ∷ ps)
      → Finds ifs p k
      → blank_or k [] (p ∷ []) ≡ p ∷ []
      → ws_next bytes i ifs (unquoted_ifs_at bytes i ifs) ≡ i
  ws_next-other i p ps blank h e d other = cc
  ws_next-other i p ps separator h e d other =
      rw (found_lem bytes i ifs p (encode ps) v h e) (rw (d.finds i) (rw d.is_white refl))
  ws_next-other i p ps plain h e d other =
      rw (found_lem bytes i ifs p (encode ps) v h e) (rw (d i) refl)

  skip_ws-end : (fuel i : ℕ) → At i [] → At (skip_ws fuel bytes i ifs) []
  skip_ws-end fuel i e =
      let still : ws_next bytes i ifs (unquoted_ifs_at bytes i ifs) ≡ i =
        rw (found_end bytes i ifs e) refl in
      ap (λ j. drop j bytes) (skip_ws_still fuel bytes i ifs still) ∙ e

  skip_ws-stops :
      (fuel i : ℕ) (p : Piece) (ps : List Piece) (k : Kind)
      → IsPiece p
      → At i (p ∷ ps)
      → Finds ifs p k
      → blank_or k [] (p ∷ []) ≡ p ∷ []
      → At (skip_ws fuel bytes i ifs) (p ∷ ps)
  skip_ws-stops fuel i p ps k h e d other =
      ap (λ j. drop j bytes) (skip_ws_still fuel bytes i ifs (ws_next-other i p ps k h e d other))
      ∙ e

  -- The loop over white space passes the white space of the IFS and nothing else.
  pub skip_ws_passes :
      (fuel i : ℕ) (ps : List Piece)
      → IsPieces ps
      → At i ps
      → length ps ≤ fuel
      → At (skip_ws fuel bytes i ifs) (drop_blank ifs ps)
  unfolding drop_blank
  skip_ws_passes fuel i [] h e l = skip_ws-end fuel i e
  skip_ws_passes zero i (p ∷ ps) h e l = absurd (omega arith)
  skip_ws_passes (suc fuel) i (p ∷ ps) h e l =
      of_kind (kind ifs p) (Finds-kind ifs p)
        (skip_ws_passes fuel (i + length (code_of p)) ps h.1 (At-next i p ps e) (omega arith))
    where
      of_kind :
          (k : Kind)
          → Finds ifs p k
          → At (skip_ws fuel bytes (i + length (code_of p)) ifs) (drop_blank ifs ps)
          → At (skip_ws (suc fuel) bytes i ifs) (blank_or k (drop_blank ifs ps) (p ∷ ps))
      of_kind blank d rest = unfold skip_ws in rw (ws_next-blank i p ps h.0 e d) rest
      of_kind separator d rest = skip_ws-stops (suc fuel) i p ps separator h.0 e d refl
      of_kind plain d rest = skip_ws-stops (suc fuel) i p ps plain h.0 e d refl

  skip_nonws_passes :
      (i : ℕ) (ps : List Piece)
      → IsPieces ps
      → At i ps
      → At (skip_nonws bytes i ifs (unquoted_ifs_at bytes i ifs)) (drop_separator ifs ps)
  unfolding drop_separator skip_nonws
  skip_nonws_passes i [] h e = rw (found_end bytes i ifs e) e
  skip_nonws_passes i (p ∷ ps) h e =
      rw (found_lem bytes i ifs p (encode ps) v h.0 e) (of_kind (kind ifs p) (Finds-kind ifs p))
    where
      of_kind :
          (k : Kind)
          → Finds ifs p k
          → At
              (skip_nonws bytes i ifs (found ifs i p))
              (separator_or k (drop_blank ifs ps) (p ∷ ps))
      of_kind blank d = rw (d.finds i) (rw (d.in_ifs, d.is_white) e)
      of_kind separator d = rw (d.finds i) (
          rw (d.in_ifs, d.is_white)
            (skip_ws_passes (length bytes) (i + length (code_of p)) ps h.1 (At-next i p ps e)
              (enough (i + length (code_of p)) ps (At-next i p ps e))))
      of_kind plain d = rw (d i) e

  -- Behind a delimiter the code goes on where the rules do.
  pub past_delimiter_passes :
      (delim next : ℕ) (ps : List Piece) (k : Kind) (white : Bool)
      → (k ≡ blank × white ≡ true) ⊎ (k ≡ separator × white ≡ false)
      → ifs.whitespace delim ≡ white
      → IsPieces ps
      → At next ps
      → At (past_delimiter bytes delim next ifs) (past ifs k ps)
  unfolding past past_delimiter
  past_delimiter_passes delim next ps k white w is_white h e =
      let i = skip_ws (length bytes) bytes next ifs in
      let there = skip_ws_passes (length bytes) next ps h e (enough next ps e) in
      elim w [
        | inl (s, t) ↦
            rw (s, is_white, t)
              (skip_nonws_passes i (drop_blank ifs ps) (IsPieces-drop_blank ifs ps h) there)
        | inr (s, t) ↦ rw (s, is_white, t) there
      ]
