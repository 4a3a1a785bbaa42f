-- ===== src/Split/Joins.antt =====
-- One buffer behind another (crates/expander/src/buf.rs `extend_from`).
use cherubsh.Base.{
  ◌≡◌, refl, sym, ap, ap₂, ◌∙◌, ℕ, ◌+◌, Bool, true, false, ◌||◌, List, [], ◌∷◌, ◌++◌, map,
  map-append, append-nil, append_assoc, Text, length, length-append, Bool-cases, inl, inr, arith,
}
use cherubsh.Split.{ctlesc, ctlraw, ctlnul}
use cherubsh.Split.Buffer.{push_raw, ExpandBuf, is_ctl, new_buffer, extend_from}
use cherubsh.Split.Pieces.{
  Piece, literal, quoted, quoted_null, param_null, push_piece, push_pieces, built,
}

or_true : (b : Bool) → (b || true) ≡ true
or_true true = refl
or_true false = refl

or_false : (b : Bool) → (b || false) ≡ b
or_false true = refl
or_false false = refl

extend_from-new : (buf : ExpandBuf) → extend_from new_buffer buf ≡ buf
unfolding extend_from
extend_from-new buf = ground (
  arith,
  append-nil buf.bytes,
  append-nil buf.param_nulls,
  or_false buf.had_quoted_null,
  or_false buf.has_dollar_at,
  or_false buf.quoted_dollar_at,
)

extend_from-raw :
    (s : Text) (other buf : ExpandBuf)
    → push_raw s (extend_from other buf) ≡ extend_from (push_raw s other) buf
unfolding extend_from
extend_from-raw s other buf =
    ap (λ (t : Text). record (extend_from other buf) { bytes = t })
      (append_assoc buf.bytes other.bytes s)

extend_from-raw_twice :
    (s t : Text) (other buf : ExpandBuf)
    → push_raw t (push_raw s (extend_from other buf))
      ≡ extend_from (push_raw t (push_raw s other)) buf
extend_from-raw_twice s t other buf =
    ap (push_raw t) (extend_from-raw s other buf) ∙ extend_from-raw t (push_raw s other) buf

-- the state of `other` in front of the null byte of an empty string
extend_from-marked :
    (other buf : ExpandBuf)
    → push_raw (ctlnul ∷ []) (record (extend_from other buf) { had_quoted_null = true })
      ≡ extend_from (push_raw (ctlnul ∷ []) (record other { had_quoted_null = true })) buf
unfolding extend_from
extend_from-marked other buf =
    ap₂ (λ (t : Text) (b : Bool). record (extend_from other buf) { bytes = t; had_quoted_null = b })
      (append_assoc buf.bytes other.bytes (ctlnul ∷ [])) (sym (or_true buf.had_quoted_null))

moved :
    (other buf : ExpandBuf)
    → (buf.param_nulls ++ map (λ pos. length buf.bytes + pos) other.param_nulls)
        ++ length (buf.bytes ++ other.bytes) ∷ []
      ≡ buf.param_nulls
        ++ map (λ pos. length buf.bytes + pos) (other.param_nulls ++ length other.bytes ∷ [])
moved other buf =
    let shift = λ (pos : ℕ). length buf.bytes + pos in
    append_assoc buf.param_nulls (map shift other.param_nulls) _
    ∙ ap (λ (n : ℕ). buf.param_nulls ++ (map shift other.param_nulls ++ n ∷ []))
        (length-append buf.bytes other.bytes)
    ∙ ap (λ (l : List ℕ). buf.param_nulls ++ l)
        (sym (map-append shift other.param_nulls (length other.bytes ∷ [])))

extend_from-push :
    (p : Piece) (other buf : ExpandBuf)
    → push_piece p (extend_from other buf) ≡ extend_from (push_piece p other) buf
unfolding push_piece extend_from
extend_from-push (literal b) other buf = elim (Bool-cases (is_ctl b)) [
  | inl c ↦ rw c (extend_from-raw_twice (ctlesc ∷ ctlraw ∷ []) (b ∷ []) other buf)
  | inr c ↦ rw c (extend_from-raw (b ∷ []) other buf)
]
extend_from-push (quoted b) other buf = extend_from-raw_twice (ctlesc ∷ []) (b ∷ []) other buf
extend_from-push quoted_null other buf = extend_from-marked other buf
extend_from-push param_null other buf =
    ap
      (λ (l : List ℕ).
        push_raw (ctlnul ∷ [])
          (record (extend_from other buf) { had_quoted_null = true; param_nulls = l }))
      (moved other buf)
    ∙ extend_from-marked
        (record other { param_nulls = other.param_nulls ++ length other.bytes ∷ [] }) buf

extend_from-pieces :
    (ps : List Piece) (other buf : ExpandBuf)
    → push_pieces ps (extend_from other buf) ≡ extend_from (push_pieces ps other) buf
unfolding push_pieces
extend_from-pieces [] other buf = refl
extend_from-pieces (p ∷ ps) other buf =
    ap (push_pieces ps) (extend_from-push p other buf)
    ∙ extend_from-pieces ps (push_piece p other) buf

push_pieces-append :
    (ps qs : List Piece) (buf : ExpandBuf)
    → push_pieces (ps ++ qs) buf ≡ push_pieces qs (push_pieces ps buf)
unfolding push_pieces
push_pieces-append [] qs buf = refl
push_pieces-append (p ∷ ps) qs buf = push_pieces-append ps qs (push_piece p buf)

-- A buffer that is put behind another one gives the buffer of all pieces, with the places of the empty
-- parameters moved.
pub extend_from-built : (ps qs : List Piece) → extend_from (built qs) (built ps) ≡ built (ps ++ qs)
extend_from-built ps qs =
    sym (extend_from-pieces qs new_buffer (built ps))
    ∙ ap (push_pieces qs) (extend_from-new (built ps))
    ∙ sym (push_pieces-append ps qs new_buffer)
