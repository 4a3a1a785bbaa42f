-- ===== src/Split/Dequote.antt =====
-- The removal of quotes gives back what was pushed (crates/expander/src/buf.rs).
use cherubsh.Base.{
  ◌≡◌, refl, sym, ap, ◌∙◌, ℕ, false, List, [], ◌∷◌, ◌++◌, append-nil, append_assoc, Text, ◌==◌,
  Bool-cases, inl, inr, arith,
}
use cherubsh.Split.{ctlesc, ctlraw, ctlnul}
use cherubsh.Split.Buffer.{ExpandBuf, is_ctl, new_buffer, dequote_bytes}
use cherubsh.Split.Pieces.{
  Piece, literal, quoted, quoted_null, param_null, push_piece, push_pieces, built, IsPiece,
  IsPieces, meaning, meanings, code_of, encode,
}

dequote-plain : (b : ℕ) (s : Text) → is_ctl b ≡ false → dequote_bytes (b ∷ s) ≡ b ∷ dequote_bytes s
unfolding dequote_bytes
dequote-plain b [] h = ground arith
dequote-plain b (c ∷ []) h = ground arith
dequote-plain b (c ∷ d ∷ s) h = ground arith

dequote-quoted :
    (b : ℕ) (s : Text)
    → (b == ctlraw) ≡ false
    → dequote_bytes (ctlesc ∷ b ∷ s) ≡ b ∷ dequote_bytes s
unfolding dequote_bytes
dequote-quoted b [] h = refl
dequote-quoted b (c ∷ s) h = rw h refl

dequote-null : (s : Text) → dequote_bytes (ctlnul ∷ s) ≡ dequote_bytes s
unfolding dequote_bytes
dequote-null [] = refl
dequote-null (c ∷ []) = refl
dequote-null (c ∷ d ∷ s) = refl

dequote-raw : (b : ℕ) (s : Text) → dequote_bytes (ctlesc ∷ ctlraw ∷ b ∷ s) ≡ b ∷ dequote_bytes s
unfolding dequote_bytes
dequote-raw b s = refl

dequote-code_of :
    (p : Piece) (s : Text)
    → IsPiece p
    → dequote_bytes (code_of p ++ s) ≡ meaning p ++ dequote_bytes s
dequote-code_of (literal b) s h = elim (Bool-cases (is_ctl b)) [
  | inl c ↦ rw c (dequote-raw b s)
  | inr c ↦ rw c (dequote-plain b s c)
]
dequote-code_of (quoted b) s h = dequote-quoted b s (ground arith)
dequote-code_of quoted_null s h = dequote-null s
dequote-code_of param_null s h = dequote-null s

pub dequote-encode : (ps : List Piece) → IsPieces ps → dequote_bytes (encode ps) ≡ meanings ps
dequote-encode [] h = unfold dequote_bytes in refl
dequote-encode (p ∷ ps) (h, k) =
    dequote-code_of p (encode ps) h ∙ ap (λ s. meaning p ++ s) (dequote-encode ps k)

bytes-push_piece : (p : Piece) (buf : ExpandBuf) → (push_piece p buf).bytes ≡ buf.bytes ++ code_of p
unfolding push_piece
bytes-push_piece (literal b) buf = elim (Bool-cases (is_ctl b)) [
  | inl c ↦ rw c (append_assoc buf.bytes (ctlesc ∷ ctlraw ∷ []) (b ∷ []))
  | inr c ↦ rw c refl
]
bytes-push_piece (quoted b) buf = append_assoc buf.bytes (ctlesc ∷ []) (b ∷ [])
bytes-push_piece quoted_null buf = refl
bytes-push_piece param_null buf = refl

bytes-push_pieces :
    (ps : List Piece) (buf : ExpandBuf) → (push_pieces ps buf).bytes ≡ buf.bytes ++ encode ps
unfolding push_pieces
bytes-push_pieces [] buf = sym (append-nil buf.bytes)
bytes-push_pieces (p ∷ ps) buf =
    bytes-push_pieces ps (push_piece p buf)
    ∙ ap (λ s. s ++ encode ps) (bytes-push_piece p buf)
    ∙ append_assoc buf.bytes (code_of p) (encode ps)

pub bytes-built : (ps : List Piece) → (built ps).bytes ≡ encode ps
bytes-built ps = bytes-push_pieces ps new_buffer

-- Whatever literal bytes, quoted bytes but the null byte, and quoted empty strings are pushed, in any
-- order, the removal of the quotes gives back the bytes that they stand for.
pub dequote-built : (ps : List Piece) → IsPieces ps → dequote_bytes (built ps).bytes ≡ meanings ps
dequote-built ps h = ap dequote_bytes (bytes-built ps) ∙ dequote-encode ps h
