-- ===== src/Split/Gaps.antt =====
-- Where the loops over white space and delimiters come to, piece by piece
-- (crates/expander/src/split.rs).
use cherubsh.Base.{◌≡◌, refl, ◌≤◌, List, [], ◌∷◌, ◌++◌, length, arith}
use cherubsh.Split.{IfsState}
use cherubsh.Split.Pieces.{
  Piece, Kind, blank, separator, plain, kind, Where, between, after_blank, onward, ended, fields,
}

-- the pieces behind white space
abbrev pub blank_or : Kind → List Piece → List Piece → List Piece
blank_or blank skipped kept = skipped
blank_or _ skipped kept = kept

unfoldable pub drop_blank : IfsState → List Piece → List Piece
drop_blank ifs [] = []
drop_blank ifs (p ∷ ps) = blank_or (kind ifs p) (drop_blank ifs ps) (p ∷ ps)

-- a separator of another byte, with the white space behind it
abbrev pub separator_or : Kind → List Piece → List Piece → List Piece
separator_or separator skipped kept = skipped
separator_or _ skipped kept = kept

unfoldable pub drop_separator : IfsState → List Piece → List Piece
unfolding drop_blank
drop_separator ifs [] = []
drop_separator ifs (p ∷ ps) = separator_or (kind ifs p) (drop_blank ifs ps) (p ∷ ps)

-- behind a delimiter
unfoldable pub past : IfsState → Kind → List Piece → List Piece
unfolding drop_blank drop_separator
past ifs blank ps = drop_separator ifs (drop_blank ifs ps)
past ifs _ ps = drop_blank ifs ps

pub fields_of_kind :
    (ifs : IfsState) (st : Where) (k : Kind) (p : Piece) (ps : List Piece)
    → kind ifs p ≡ k
    → fields ifs st (p ∷ ps) ≡ ended st k ++ fields ifs (onward st k p) ps
unfolding fields
fields_of_kind ifs st k p ps e = rw e refl

pub fields-between :
    (ifs : IfsState) (ps : List Piece)
    → fields ifs between (drop_blank ifs ps) ≡ fields ifs between ps
unfolding fields drop_blank
fields-between ifs [] = refl
fields-between ifs (p ∷ ps) = of_kind (kind ifs p) refl (fields-between ifs ps)
  where
    of_kind :
        (k : Kind)
        → kind ifs p ≡ k
        → fields ifs between (drop_blank ifs ps) ≡ fields ifs between ps
        → fields ifs between (blank_or (kind ifs p) (drop_blank ifs ps) (p ∷ ps))
          ≡ fields ifs between (p ∷ ps)
    of_kind blank e h = rw e h
    of_kind separator e h = rw e (fields_of_kind ifs between separator p ps e)
    of_kind plain e h = rw e (fields_of_kind ifs between plain p ps e)

pub fields-after_blank :
    (ifs : IfsState) (ps : List Piece)
    → fields ifs between (past ifs blank ps) ≡ fields ifs after_blank ps
unfolding fields drop_blank past drop_separator
fields-after_blank ifs [] = refl
fields-after_blank ifs (p ∷ ps) = of_kind (kind ifs p) refl (fields-after_blank ifs ps)
  where
    of_kind :
        (k : Kind)
        → kind ifs p ≡ k
        → fields ifs between (past ifs blank ps) ≡ fields ifs after_blank ps
        → fields ifs between
            (drop_separator ifs (blank_or (kind ifs p) (drop_blank ifs ps) (p ∷ ps)))
          ≡ fields ifs after_blank (p ∷ ps)
    of_kind blank e h = rw e h
    of_kind separator e h = rw (e, e) (fields-between ifs ps)
    of_kind plain e h = rw (e, e) (fields_of_kind ifs between plain p ps e)

pub length-drop_blank : (ifs : IfsState) (ps : List Piece) → length (drop_blank ifs ps) ≤ length ps
unfolding drop_blank
length-drop_blank ifs [] = omega arith
length-drop_blank ifs (p ∷ ps) = of_kind (kind ifs p) (length-drop_blank ifs ps)
  where
    of_kind :
        (k : Kind)
        → length (drop_blank ifs ps) ≤ length ps
        → length (blank_or k (drop_blank ifs ps) (p ∷ ps)) ≤ length (p ∷ ps)
    of_kind blank h = omega arith
    of_kind separator h = omega arith
    of_kind plain h = omega arith

length-drop_separator :
    (ifs : IfsState) (ps : List Piece) → length (drop_separator ifs ps) ≤ length ps
unfolding drop_separator
length-drop_separator ifs [] = omega arith
length-drop_separator ifs (p ∷ ps) = of_kind (kind ifs p)
  where
    of_kind : (k : Kind) → length (separator_or k (drop_blank ifs ps) (p ∷ ps)) ≤ length (p ∷ ps)
    of_kind blank = omega arith
    of_kind separator = omega (arith, length-drop_blank ifs ps)
    of_kind plain = omega arith

pub length-past : (ifs : IfsState) (k : Kind) (ps : List Piece) → length (past ifs k ps) ≤ length ps
unfolding past
length-past ifs blank ps =
    omega (arith, length-drop_separator ifs (drop_blank ifs ps), length-drop_blank ifs ps)
length-past ifs separator ps = length-drop_blank ifs ps
length-past ifs plain ps = length-drop_blank ifs ps

-- Pieces of which the first is no white space.
abbrev pub NoBlank : IfsState → List Piece → Type 0
NoBlank ifs [] = Unit
NoBlank ifs (p ∷ ps) = blank_or (kind ifs p) [] (p ∷ []) ≡ p ∷ []

pub drop_blank-NoBlank : (ifs : IfsState) (ps : List Piece) → NoBlank ifs (drop_blank ifs ps)
unfolding drop_blank
drop_blank-NoBlank ifs [] = tt
drop_blank-NoBlank ifs (p ∷ ps) = of_kind (kind ifs p) refl (drop_blank-NoBlank ifs ps)
  where
    of_kind :
        (k : Kind)
        → kind ifs p ≡ k
        → NoBlank ifs (drop_blank ifs ps)
        → NoBlank ifs (blank_or k (drop_blank ifs ps) (p ∷ ps))
    of_kind blank e h = h
    of_kind separator e h = rw e refl
    of_kind plain e h = rw e refl

drop_separator-NoBlank :
    (ifs : IfsState) (ps : List Piece) → NoBlank ifs ps → NoBlank ifs (drop_separator ifs ps)
unfolding drop_separator
drop_separator-NoBlank ifs [] h = tt
drop_separator-NoBlank ifs (p ∷ ps) h = of_kind (kind ifs p)
  where
    of_kind : (k : Kind) → NoBlank ifs (separator_or k (drop_blank ifs ps) (p ∷ ps))
    of_kind blank = h
    of_kind separator = drop_blank-NoBlank ifs ps
    of_kind plain = h

pub past-NoBlank : (ifs : IfsState) (k : Kind) (ps : List Piece) → NoBlank ifs (past ifs k ps)
unfolding past
past-NoBlank ifs blank ps =
    drop_separator-NoBlank ifs (drop_blank ifs ps) (drop_blank-NoBlank ifs ps)
past-NoBlank ifs separator ps = drop_blank-NoBlank ifs ps
past-NoBlank ifs plain ps = drop_blank-NoBlank ifs ps
