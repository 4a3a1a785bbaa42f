-- ===== src/Split/Pieces.antt =====
-- What an expansion pushes, piece by piece, and how the pieces are to be split: an independent account
-- of the rules for the IFS.
use cherubsh.Base.{ℕ, ◌≢◌, List, [], ◌∷◌, ◌++◌, Text, if◌then◌else◌}
use cherubsh.Split.{IfsState, ctlesc, ctlraw, ctlnul}
use cherubsh.Split.Buffer.{
  ExpandBuf, is_ctl, new_buffer, push_literal, push_quoted, push_quoted_null,
  push_quoted_param_null,
}

-- A byte that is not quoted, a quoted byte, and the quoted empty string, of a parameter or not.
pub data Piece : Type 0 where
  literal : ℕ → Piece
  quoted : ℕ → Piece
  quoted_null : Piece
  param_null : Piece

unfoldable pub push_piece : Piece → ExpandBuf → ExpandBuf
unfolding push_literal push_quoted push_quoted_null push_quoted_param_null
push_piece (literal b) buf = push_literal b buf
push_piece (quoted b) buf = push_quoted b buf
push_piece quoted_null buf = push_quoted_null buf
push_piece param_null buf = push_quoted_param_null buf

unfoldable pub push_pieces : List Piece → ExpandBuf → ExpandBuf
unfolding push_piece
push_pieces [] buf = buf
push_pieces (p ∷ ps) buf = push_pieces ps (push_piece p buf)

-- the buffer with the pieces
abbrev pub built : List Piece → ExpandBuf
built ps = push_pieces ps new_buffer

-- A quoted byte is not the null byte, which no shell string has.
abbrev pub IsPiece : Piece → Type 0
IsPiece (quoted b) = b ≢ ctlraw
IsPiece _ = Unit

abbrev pub IsPieces : List Piece → Type 0
IsPieces [] = Unit
IsPieces (p ∷ ps) = IsPiece p × IsPieces ps

-- the bytes that a piece stands for
abbrev pub meaning : Piece → Text
meaning (literal b) = b ∷ []
meaning (quoted b) = b ∷ []
meaning quoted_null = []
meaning param_null = []

abbrev pub meanings : List Piece → Text
meanings [] = []
meanings (p ∷ ps) = meaning p ++ meanings ps

-- the bytes of a piece in the buffer
abbrev pub code_of : Piece → Text
code_of (literal b) = if is_ctl b then ctlesc ∷ ctlraw ∷ b ∷ [] else b ∷ []
code_of (quoted b) = ctlesc ∷ b ∷ []
code_of quoted_null = ctlnul ∷ []
code_of param_null = ctlnul ∷ []

abbrev pub encode : List Piece → Text
encode [] = []
encode (p ∷ ps) = code_of p ++ encode ps

-- What a piece is to the IFS: white space of the IFS, another byte of it, or part of a field.
pub data Kind : Type 0 where
  blank separator plain : Kind

abbrev pub kind : IfsState → Piece → Kind
kind ifs (literal b) = if ifs.cmap b then (if ifs.whitespace b then blank else separator) else plain
kind ifs _ = plain

-- Where the splitting is: at a place where a field may begin, behind white space that ended a field,
-- or in a field.
pub data Where : Type 0 where
  between after_blank : Where
  within : List Piece → Where

abbrev pub onward : Where → Kind → Piece → Where
onward between blank p = between
onward after_blank blank p = after_blank
onward (within field) blank p = after_blank
onward st separator p = between
onward (within field) plain p = within (field ++ p ∷ [])
onward between plain p = within (p ∷ [])
onward after_blank plain p = within (p ∷ [])

-- the field that a piece ends
abbrev pub ended : Where → Kind → List (List Piece)
ended (within field) blank = field ∷ []
ended (within field) separator = field ∷ []
ended between separator = [] ∷ []
ended _ _ = []

abbrev pub last_field : Where → List (List Piece)
last_field (within field) = field ∷ []
last_field _ = []

-- White space around a separator belongs to it, a run of white space alone is one separator, and a
-- separator where a field may begin ends an empty field. What is quoted is part of a field.
unfoldable pub fields : IfsState → Where → List Piece → List (List Piece)
fields ifs st [] = last_field st
fields ifs st (p ∷ ps) = ended st (kind ifs p) ++ fields ifs (onward st (kind ifs p) p) ps
