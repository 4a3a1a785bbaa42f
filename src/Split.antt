-- ===== src/Split.antt =====
-- Word splitting (crates/expander/src/split.rs, the state of crates/expander/src/ifs.rs). A text is
-- here a list of bytes, and a field is the bytes of its word. A separator of several bytes is not
-- empty, since it is the encoding of a character.
pub mod Buffer
pub mod Ifs
pub mod Pieces
pub mod Dequote
pub mod Joins
pub mod Found
pub mod Gaps
pub mod Passes
pub mod Turns
pub mod Refines
pub mod Values
pub mod Steps
pub mod Ends
pub mod Tests
use cherubsh.Base.{
  ℕ, zero, suc, ◌+◌, ◌-◌, ◌/◌, Bool, true, false, not, ◌&&◌, ◌||◌, Option, none, some, List, [],
  ◌∷◌, ◌++◌, Text, starts_with, length, take, drop, get_elem?, leb, ltb, ◌==◌, if◌then◌else◌,
}

pub record IfsState : Type 0 where
  pub raw : Text
  pub cmap : ℕ → Bool
  pub whitespace : ℕ → Bool
  pub is_default : Bool
  pub is_unset : Bool
  pub is_null : Bool
  pub first_char : Option ℕ
  pub utf8_separators : List Text

abbrev pub ctlesc : ℕ
ctlesc = 1

abbrev pub is_ifs : ℕ → IfsState → Bool
is_ifs b ifs = ifs.cmap b

abbrev pub is_ifs_ws : ℕ → IfsState → Bool
is_ifs_ws b ifs = ifs.whitespace b

abbrev pub is_ifs_nonws : ℕ → IfsState → Bool
is_ifs_nonws b ifs = ifs.cmap b && not (ifs.whitespace b)

abbrev pub ctlraw : ℕ
ctlraw = 0

abbrev pub ctlnul : ℕ
ctlnul = 0x7f

-- a byte and the place after it
abbrev pub Place : Type 0
Place = Option (ℕ × ℕ)

unfoldable pub raw_literal : ℕ → Option ℕ → Option ℕ → Option ℕ → Place
raw_literal i (some a) (some b) (some c) =
    if a == ctlesc && b == ctlraw then some (c, i + 3) else none
raw_literal i (some a) (some b) none = none
raw_literal i (some a) none c = none
raw_literal i none b c = none

unfoldable pub raw_literal_at : Text → ℕ → Place
unfolding raw_literal
raw_literal_at bytes i =
    raw_literal i (get_elem? bytes i) (get_elem? bytes (i + 1)) (get_elem? bytes (i + 2))

-- the loop over `utf8_separators`
unfoldable pub separator_at : Text → ℕ → List Text → Place
separator_at bytes i [] = none
separator_at bytes i ([] ∷ seps) = none
separator_at bytes i ((c ∷ sep) ∷ seps) =
    let later = separator_at bytes i seps in
    if starts_with (drop i bytes) (c ∷ sep) then some (c, i + length (c ∷ sep)) else later

abbrev pub is_utf8_continuation : ℕ → Bool
is_utf8_continuation b = b / 64 == 2

abbrev pub utf8_width : ℕ → ℕ
utf8_width b =
    if leb 0xc2 b && leb b 0xdf
    then 2
    else if leb 0xe0 b && leb b 0xef
    then 3
    else if leb 0xf0 b && leb b 0xf4
    then 4
    else 1

abbrev pub byte_or_zero : Option ℕ → ℕ
byte_or_zero none = 0
byte_or_zero (some b) = b

-- `bytes[i]` inside the text
abbrev pub byte_at : Text → ℕ → ℕ
byte_at bytes i = byte_or_zero (get_elem? bytes i)

-- the loop back to the first byte of a character
unfoldable pub lead_from : Text → ℕ → ℕ
lead_from bytes zero = 0
lead_from bytes (suc start) =
    let before = lead_from bytes start in
    if is_utf8_continuation (byte_at bytes (suc start)) then before else suc start

unfoldable pub is_inside_valid_utf8_char : Text → ℕ → Bool
unfolding lead_from
is_inside_valid_utf8_char bytes i =
    let start = lead_from bytes i in
    let width = utf8_width (byte_at bytes start) in
    is_utf8_continuation (byte_at bytes i)
    && not (start == i)
    && ltb 1 width
    && ltb i (start + width)
    && leb (start + width) (length bytes)

-- a byte that is no raw literal and no part of a separator of several bytes
unfoldable pub plain_ifs_at : Text → ℕ → IfsState → ℕ → Place
unfolding is_inside_valid_utf8_char
plain_ifs_at bytes i ifs b =
    if leb 0x80 b && is_inside_valid_utf8_char bytes i
    then none
    else if is_ifs b ifs
    then some (b, i + 1)
    else none

abbrev pub or_plain : Place → Place → Place
or_plain (some found) plain = some found
or_plain none plain = plain

unfoldable pub byte_ifs_at : Text → ℕ → IfsState → Option ℕ → Place
unfolding plain_ifs_at separator_at
byte_ifs_at bytes i ifs none = none
byte_ifs_at bytes i ifs (some b) =
    if b == ctlesc || b == ctlnul
    then none
    else or_plain (separator_at bytes i ifs.utf8_separators) (plain_ifs_at bytes i ifs b)

unfoldable pub ifs_at : Text → ℕ → IfsState → Place → Place
unfolding byte_ifs_at
ifs_at bytes i ifs (some (literal, next)) =
    if is_ifs literal ifs then some (literal, next) else none
ifs_at bytes i ifs none = byte_ifs_at bytes i ifs (get_elem? bytes i)

unfoldable pub unquoted_ifs_at : Text → ℕ → IfsState → Place
unfolding ifs_at raw_literal_at
unquoted_ifs_at bytes i ifs = ifs_at bytes i ifs (raw_literal_at bytes i)

-- The loops over white space. A turn passes white space, or stands still, and then so do the later
-- ones.
abbrev pub ws_next : Text → ℕ → IfsState → Place → ℕ
ws_next bytes i ifs none = i
ws_next bytes i ifs (some (delim, next)) = if is_ifs_ws delim ifs then next else i

unfoldable pub skip_ws : ℕ → Text → ℕ → IfsState → ℕ
unfolding unquoted_ifs_at
skip_ws zero bytes i ifs = i
skip_ws (suc fuel) bytes i ifs =
    skip_ws fuel bytes (ws_next bytes i ifs (unquoted_ifs_at bytes i ifs)) ifs

-- a delimiter of other bytes after white space, with the white space behind it
unfoldable pub skip_nonws : Text → ℕ → IfsState → Place → ℕ
unfolding skip_ws
skip_nonws bytes i ifs none = i
skip_nonws bytes i ifs (some (delim, next)) =
    if is_ifs_nonws delim ifs then skip_ws (length bytes) bytes next ifs else i

-- the place after a delimiter that ends at `next`
unfoldable pub past_delimiter : Text → ℕ → ℕ → IfsState → ℕ
unfolding skip_ws skip_nonws unquoted_ifs_at
past_delimiter bytes delim next ifs =
    let i = skip_ws (length bytes) bytes next ifs in
    if is_ifs_ws delim ifs then skip_nonws bytes i ifs (unquoted_ifs_at bytes i ifs) else i

-- the variables of the main loop
pub record SplitState : Type 0 where
  pub i : ℕ
  pub cur : Text
  pub fields : List Text

unfoldable pub push_byte : Text → ℕ → SplitState → SplitState
push_byte bytes b s =
    if b == ctlesc && ltb (s.i + 1) (length bytes)
    then record s { cur = s.cur ++ ctlesc ∷ byte_at bytes (s.i + 1) ∷ []; i = s.i + 2 }
    else record s { cur = s.cur ++ b ∷ []; i = s.i + 1 }

unfoldable pub push_literal : Text → Place → SplitState → SplitState
unfolding push_byte
push_literal bytes (some (literal, next)) s = record s {
  cur = s.cur ++ drop s.i (take next bytes);
  i = next;
}
push_literal bytes none s = push_byte bytes (byte_at bytes s.i) s

unfoldable pub end_field : Text → IfsState → Place → SplitState → SplitState
unfolding past_delimiter push_literal raw_literal_at
end_field bytes ifs (some (delim, next)) s = record {
  i = past_delimiter bytes delim next ifs;
  cur = [];
  fields = s.fields ++ s.cur ∷ [];
}
end_field bytes ifs none s = push_literal bytes (raw_literal_at bytes s.i) s

-- a turn of the main loop
unfoldable pub split_step : Text → IfsState → SplitState → SplitState
unfolding end_field unquoted_ifs_at
split_step bytes ifs s = end_field bytes ifs (unquoted_ifs_at bytes s.i ifs) s

unfoldable pub split_loop : ℕ → Text → IfsState → SplitState → SplitState
unfolding split_step
split_loop zero bytes ifs s = s
split_loop (suc fuel) bytes ifs s =
    let more = split_loop fuel bytes ifs (split_step bytes ifs s) in
    if ltb s.i (length bytes) then more else s

-- after the main loop
unfoldable pub finish_split : SplitState → List Text
finish_split s =
    if ltb 0 (length s.cur)
    then s.fields ++ s.cur ∷ []
    else if length s.fields == 0
    then s.fields ++ [] ∷ []
    else s.fields

unfoldable pub split : Text → IfsState → List Text
unfolding skip_ws split_loop finish_split
split bytes ifs =
    let i = skip_ws (length bytes) bytes 0 ifs in
    if ifs.is_null
    then (if length bytes == 0 then [] else bytes ∷ [])
    else if leb (length bytes) i
    then []
    else finish_split
        (split_loop (length bytes) bytes ifs (record { i = i; cur = []; fields = [] }))
