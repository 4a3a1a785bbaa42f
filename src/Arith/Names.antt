-- ===== src/Arith/Names.antt =====
-- Names and texts of variables (crates/expander/src/arith.rs `array_ref_parts`, `is_arith_identifier`,
-- `unescape_assoc_subscript`, `strip_arith_subscript_double_quotes`, `parse_plain_value`).
use cherubsh.Base.{
  ℕ, ◌-◌, ◌^◌, Bool, true, false, ◌&&◌, not, ltb, ◌==◌, if◌then◌else◌, Text, [], ◌∷◌, drop, take,
  length, all, take_while, Option, none, some, starts_with, trim_text, codes, ℤ, pos, negsuc,
  parse_signed, to_string, reverse, as_bytes,
}
use cherubsh.Arith.{Res, ok, err, no_fuel}
use cherubsh.Arith.Words.{is_neg}
use cherubsh.Arith.Number.{parse_number}
use cherubsh.Arith.Lexer.{is_ident_start, is_ident_char}

abbrev pub is_arith_identifier : Text → Bool
is_arith_identifier [] = false
is_arith_identifier (c ∷ s) = is_ident_start c && all is_ident_char s

abbrev pub ends_with : Text → Text → Bool
ends_with s suffix = starts_with (reverse s) (reverse suffix)

-- the text behind the first `[`
abbrev pub after_bracket : Text → Option Text
after_bracket [] = none
after_bracket (c ∷ s) = if c == b'[' then some s else after_bracket s

unfoldable pub parts_of : Text → Option Text → Option (Text × Text)
parts_of name none = none
parts_of name (some rest) =
    let base = take_while (λ c. not (c == b'[')) name in
    if ends_with name (codes "]") && is_arith_identifier base
    then some (base, take (length rest - 1) rest)
    else none

unfoldable pub array_ref_parts : Text → Option (Text × Text)
unfolding parts_of
array_ref_parts name = parts_of name (after_bracket name)

abbrev pub is_array_ref : Text → Bool
is_array_ref name = elim (array_ref_parts name) [ none ↦ false | some _ ↦ true ]

unfoldable pub unescape_assoc_subscript : Text → Text
unescape_assoc_subscript [] = []
unescape_assoc_subscript (c ∷ []) = c ∷ []
unescape_assoc_subscript (c ∷ d ∷ s) =
    let escaped = unescape_assoc_subscript s in
    let plain = unescape_assoc_subscript (d ∷ s) in if c == b'\\' then d ∷ escaped else c ∷ plain

-- the bytes between the quotes: a backslash is dropped where a byte follows it
unfoldable pub strip_escapes : Text → Text
strip_escapes [] = []
strip_escapes (c ∷ []) = c ∷ []
strip_escapes (c ∷ d ∷ s) =
    let escaped = strip_escapes s in
    let plain = strip_escapes (d ∷ s) in if c == b'\\' then d ∷ escaped else c ∷ plain

-- Each byte is pushed as a character of its own.
unfoldable pub strip_arith_subscript_double_quotes : Text → Option Text
unfolding strip_escapes as_bytes
strip_arith_subscript_double_quotes value =
    let bytes = as_bytes value in
    if ltb 1 (length bytes) && starts_with bytes (codes "\"") && ends_with bytes (codes "\"")
    then some (strip_escapes (take (length bytes - 2) (drop 1 bytes)))
    else none

-- the word of an integer
abbrev pub word_of : ℤ → ℕ
word_of (pos n) = n
word_of (negsuc n) = 2 ^ 64 - 1 - n

-- `i64::to_string`
unfoldable pub word_to_string : ℕ → Text
word_to_string v = if is_neg v then b'-' ∷ to_string (2 ^ 64 - v) else to_string v

abbrev pub res_option : Res ℕ → Option ℕ
res_option (ok v) = some v
res_option (err e) = none
res_option no_fuel = none

unfoldable pub integer_or : Option ℕ → Option ℤ → Option ℕ
integer_or other none = other
integer_or other (some z) = some (word_of z)

-- the integer of a text that is trimmed
unfoldable pub parse_integer : Text → Option ℕ
unfolding integer_or parse_signed parse_number
parse_integer trimmed =
    if length trimmed == 0
    then some 0
    else integer_or (res_option (parse_number trimmed)) (parse_signed (2 ^ 63) trimmed)

unfoldable pub parse_plain_value : Text → Option ℕ
unfolding parse_integer trim_text
parse_plain_value s = parse_integer (trim_text s)
