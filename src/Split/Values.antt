-- ===== src/Split/Values.antt =====
-- Words are split by the value of the variable IFS (crates/expander/src/ifs.rs and
-- crates/expander/src/split.rs), and their quotes removed (crates/expander/src/buf.rs).
use cherubsh.Base.{
  ◌≡◌, refl, subst, ap, ap₂, ◌∙◌, ℕ, ◌<◌, Bool, true, false, ◌&&◌, ◌||◌, Option, none, some, List,
  [], ◌∷◌, ◌++◌, map, Text, text_eq, any, ltb, ◌==◌, Bool-cases, inl, inr, arith,
}
use cherubsh.Split.{IfsState, split}
use cherubsh.Split.Buffer.{dequote_bytes}
use cherubsh.Split.Ifs.{
  char_bytes, shell_string_to_bytes, push_char, chars_from, utf8_chars, multibyte, is_blank,
  build_for_owned, default_raw, from_env,
}
use cherubsh.Split.Pieces.{
  Piece, IsPiece, IsPieces, meanings, encode, built, Kind, blank, separator, plain, kind, Where,
  between, after_blank, within, onward, ended, fields,
}
use cherubsh.Split.Found.{IsAscii}
use cherubsh.Split.Dequote.{bytes-built, dequote-encode}
use cherubsh.Split.Refines.{split_lem}

abbrev pub AsciiText : Text → Type 0
AsciiText [] = Unit
AsciiText (b ∷ s) = (b < 0x80) × AsciiText s

-- a value of ASCII characters, or none
abbrev pub AsciiValue : Option Text → Type 0
AsciiValue none = Unit
AsciiValue (some s) = AsciiText s

bytes-ascii : (s : Text) → AsciiText s → shell_string_to_bytes s ≡ s
unfolding shell_string_to_bytes
bytes-ascii [] h = refl
bytes-ascii (b ∷ s) (h, k) =
    let one : char_bytes b ≡ b ∷ [] = ground arith in rw one (ap (b ∷◌) (bytes-ascii s k))

chars-ascii : (lo hi : ℕ) (cur s : Text) → AsciiText s → multibyte (chars_from 0 lo hi cur s) ≡ []
unfolding chars_from
chars-ascii lo hi cur [] h = refl
chars-ascii lo hi cur (b ∷ s) (h, k) =
    let small : ltb b 0x80 ≡ true = ground arith in
    rw small (single (chars_from 0 0 0 (b ∷ []) s) (chars-ascii 0 0 (b ∷ []) s k))
  where
    single :
        (o : Option (List Text)) → multibyte o ≡ [] → multibyte (push_char true (b ∷ []) o) ≡ []
    single none e = refl
    single (some chars) e = e

any-ascii : (s : Text) (b : ℕ) → AsciiText s → any (λ c. c == b) s ≡ true → b < 0x80
any-ascii [] b h e = cc
any-ascii (c ∷ s) b (h, k) e = elim (Bool-cases (c == b)) [
  | inl q ↦ ground arith
  | inr q ↦ any-ascii s b k (ground arith)
]

any-white :
    (s : Text) (b : ℕ) → any (λ c. c == b && is_blank c) s ≡ true → any (λ c. c == b) s ≡ true
any-white [] b e = e
any-white (c ∷ s) b e = elim (Bool-cases (c == b)) [
  | inl q ↦ rw q refl
  | inr q ↦ rw q (
      any-white s b
        (subst (λ (t : Bool). (t && is_blank c || any (λ d. d == b && is_blank d) s) ≡ true) q e))
]

build-IsAscii :
    (s : Text) (d u n : Bool)
    → AsciiText s
    → (n ≡ true → s ≡ [])
    → IsAscii (build_for_owned s d u n)
unfolding build_for_owned
build-IsAscii s d u n h empty = record {
  single = unfold utf8_chars in chars-ascii 0 0 [] s h;
  ascii = λ b e. any-ascii s b h e;
  no_bytes = λ e b. ap (any (λ c. c == b)) (empty e);
  white = λ b e. any-white s b e;
}

pub from_env-IsAscii : (value : Option Text) → AsciiValue value → IsAscii (from_env value)
unfolding from_env
from_env-IsAscii none h = build-IsAscii default_raw true true false (omega arith) (λ e. cc)
from_env-IsAscii (some []) h = build-IsAscii [] true false true tt (λ e. refl)
from_env-IsAscii (some (b ∷ s)) h =
    build-IsAscii (shell_string_to_bytes (b ∷ s))
      (text_eq (shell_string_to_bytes (b ∷ s)) default_raw) false false
      (rw (bytes-ascii (b ∷ s) h) h) (λ e. cc)

abbrev AllPieces : List (List Piece) → Type 0
AllPieces [] = Unit
AllPieces (field ∷ fs) = IsPieces field × AllPieces fs

-- the pieces of the field that is begun
abbrev HasPieces : Where → Type 0
HasPieces (within field) = IsPieces field
HasPieces _ = Unit

IsPieces-append : (ps qs : List Piece) → IsPieces ps → IsPieces qs → IsPieces (ps ++ qs)
IsPieces-append [] qs h k = k
IsPieces-append (p ∷ ps) qs h k = (h.0, IsPieces-append ps qs h.1 k)

onward-HasPieces :
    (st : Where) (k : Kind) (p : Piece) → HasPieces st → IsPiece p → HasPieces (onward st k p)
onward-HasPieces between blank p h v = tt
onward-HasPieces after_blank blank p h v = tt
onward-HasPieces (within field) blank p h v = tt
onward-HasPieces between separator p h v = tt
onward-HasPieces after_blank separator p h v = tt
onward-HasPieces (within field) separator p h v = tt
onward-HasPieces between plain p h v = (v, tt)
onward-HasPieces after_blank plain p h v = (v, tt)
onward-HasPieces (within field) plain p h v = IsPieces-append field (p ∷ []) h (v, tt)

ended-AllPieces :
    (st : Where) (k : Kind) (fs : List (List Piece))
    → HasPieces st
    → AllPieces fs
    → AllPieces (ended st k ++ fs)
ended-AllPieces (within field) blank fs h v = (h, v)
ended-AllPieces (within field) separator fs h v = (h, v)
ended-AllPieces (within field) plain fs h v = v
ended-AllPieces between blank fs h v = v
ended-AllPieces between separator fs h v = (tt, v)
ended-AllPieces between plain fs h v = v
ended-AllPieces after_blank k fs h v = after k
  where
    after : (j : Kind) → AllPieces (ended after_blank j ++ fs)
    after blank = v
    after separator = v
    after plain = v

fields-AllPieces :
    (ifs : IfsState) (st : Where) (ps : List Piece)
    → HasPieces st
    → IsPieces ps
    → AllPieces (fields ifs st ps)
unfolding fields
fields-AllPieces ifs between [] h v = tt
fields-AllPieces ifs after_blank [] h v = tt
fields-AllPieces ifs (within field) [] h v = (h, tt)
fields-AllPieces ifs st (p ∷ ps) h v = ended-AllPieces st (kind ifs p) _ h (
    fields-AllPieces ifs (onward st (kind ifs p) p) ps (onward-HasPieces st (kind ifs p) p h v.0)
      v.1)

map-dequote :
    (fs : List (List Piece)) → AllPieces fs → map dequote_bytes (map encode fs) ≡ map meanings fs
map-dequote [] h = refl
map-dequote (field ∷ fs) (h, k) = ap₂ (λ s t. s ∷ t) (dequote-encode field h) (map-dequote fs k)

-- Whatever literal bytes, quoted bytes but the null byte, and quoted empty strings an expansion
-- pushes, the splitting of its buffer by an IFS of ASCII characters, or an unset or empty one, and the
-- removal of the quotes give the fields of the rules for the IFS: white space around a separator
-- belongs to it, a run of white space alone is one separator, any other separator where a field may
-- begin ends an empty field, and what is quoted is never a separator.
pub split_fields :
    (value : Option Text) (ps : List Piece)
    → AsciiValue value
    → IsPieces ps
    → map dequote_bytes (split (built ps).bytes (from_env value))
      ≡ map meanings (fields (from_env value) between ps)
split_fields value ps h v =
    let ifs = from_env value in
    ap (map dequote_bytes)
      (split_lem (built ps).bytes ifs (from_env-IsAscii value h) ps v (bytes-built ps))
    ∙ map-dequote (fields ifs between ps) (fields-AllPieces ifs between ps tt v)
