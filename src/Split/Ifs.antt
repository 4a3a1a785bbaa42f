-- ===== src/Split/Ifs.antt =====
-- The state of the IFS (crates/expander/src/ifs.rs), with the bytes of a shell string
-- (crates/expander/src/quote.rs). A string is here the list of its code points.
use cherubsh.Base.{
  ℕ, zero, suc, ◌+◌, ◌-◌, Bool, true, false, ◌&&◌, ◌||◌, Option, none, some, List, [], ◌∷◌, ◌++◌,
  Text, encode_utf8, text_eq, any, keep, length, leb, ltb, ◌==◌, if◌then◌else◌,
}
use cherubsh.Split.{IfsState}

abbrev pub raw_byte_base : ℕ
raw_byte_base = 0xf0000

abbrev pub char_bytes : ℕ → Text
char_bytes cp =
    if leb raw_byte_base cp && leb cp (raw_byte_base + 0xff)
    then (cp - raw_byte_base) ∷ []
    else encode_utf8 cp

unfoldable pub shell_string_to_bytes : Text → Text
shell_string_to_bytes [] = []
shell_string_to_bytes (cp ∷ s) = char_bytes cp ++ shell_string_to_bytes s

-- The first byte of an encoded character: how many bytes follow, and the bounds of the next one.
abbrev pub Lead : Type 0
Lead = Option (ℕ × ℕ × ℕ)

abbrev pub lead : ℕ → Lead
lead b =
    if ltb b 0x80
    then some (0, 0, 0)
    else if leb 0xc2 b && leb b 0xdf
    then some (1, 0x80, 0xbf)
    else if b == 0xe0
    then some (2, 0xa0, 0xbf)
    else if b == 0xed
    then some (2, 0x80, 0x9f)
    else if leb 0xe1 b && leb b 0xef
    then some (2, 0x80, 0xbf)
    else if b == 0xf0
    then some (3, 0x90, 0xbf)
    else if leb 0xf1 b && leb b 0xf3
    then some (3, 0x80, 0xbf)
    else if b == 0xf4
    then some (3, 0x80, 0x8f)
    else none

-- a character in front of the later ones
abbrev pub push_char : Bool → Text → Option (List Text) → Option (List Text)
push_char complete char none = none
push_char complete char (some chars) = some (if complete then char ∷ chars else chars)

abbrev pub begin_char : Lead → ℕ → (ℕ → ℕ → ℕ → Option (List Text)) → Option (List Text)
begin_char none b go_on = none
begin_char (some (n, lo, hi)) b go_on = push_char (n == 0) (b ∷ []) (go_on n lo hi)

-- `str::from_utf8` with `chars`: the bytes of each character, where all are well formed. `n` bytes of
-- the character `cur` are still to come.
unfoldable pub chars_from : ℕ → ℕ → ℕ → Text → Text → Option (List Text)
chars_from zero lo hi cur [] = some []
chars_from (suc n) lo hi cur [] = none
chars_from zero lo hi cur (b ∷ s) =
    begin_char (lead b) b λ n lo' hi'. chars_from n lo' hi' (b ∷ []) s
chars_from (suc n) lo hi cur (b ∷ s) =
    let later = chars_from n 0x80 0xbf (cur ++ b ∷ []) s in
    if leb lo b && leb b hi then push_char (n == 0) (cur ++ b ∷ []) later else none

unfoldable pub utf8_chars : Text → Option (List Text)
unfolding chars_from
utf8_chars s = chars_from 0 0 0 [] s

abbrev pub multibyte : Option (List Text) → List Text
multibyte none = []
multibyte (some chars) = keep (λ char. ltb 1 (length char)) chars

abbrev pub first : Text → Option ℕ
first [] = none
first (b ∷ s) = some b

abbrev pub is_blank : ℕ → Bool
is_blank b = b == b' ' || b == b'\t' || b == b'\n'

-- The arrays, which the loop over `raw` sets, are functions.
unfoldable pub build_for_owned : Text → Bool → Bool → Bool → IfsState
unfolding utf8_chars
build_for_owned raw is_default is_unset is_null = record {
  raw = raw;
  cmap = λ b. any (λ c. c == b) raw;
  whitespace = λ b. any (λ c. c == b && is_blank c) raw;
  is_default = is_default;
  is_unset = is_unset;
  is_null = is_null;
  first_char = first raw;
  utf8_separators = multibyte (utf8_chars raw);
}

abbrev pub default_raw : Text
default_raw = b' ' ∷ b'\t' ∷ b'\n' ∷ []

-- of the value of the variable IFS
unfoldable pub from_env : Option Text → IfsState
unfolding build_for_owned shell_string_to_bytes
from_env none = build_for_owned default_raw true true false
from_env (some []) = build_for_owned [] true false true
from_env (some (cp ∷ v)) =
    let bytes = shell_string_to_bytes (cp ∷ v) in
    build_for_owned bytes (text_eq bytes default_raw) false false

unfoldable pub join_separator : IfsState → Option ℕ
join_separator ifs =
    if ifs.is_null then none else if ifs.is_unset then some b' ' else ifs.first_char

abbrev pub first_of : Option (List Text) → Option ℕ → Option Text
first_of (some []) b = none
first_of (some (char ∷ chars)) b = some char
first_of none (some b) = some (b ∷ [])
first_of none none = none

unfoldable pub join_separator_bytes : IfsState → Option Text
unfolding utf8_chars
join_separator_bytes ifs =
    if ifs.is_null
    then none
    else if ifs.is_unset
    then some (b' ' ∷ [])
    else first_of (utf8_chars ifs.raw) ifs.first_char

unfoldable pub refresh : Option Text → IfsState → IfsState
unfolding from_env
refresh value ifs = from_env value
