-- ===== src/Split/Tests.antt =====
-- Runs of word splitting, and the theorems at concrete inputs (crates/expander/src/split.rs).
use cherubsh.Base.{some, none, ◌≡◌, refl, false, ◌||◌, List, [], ◌∷◌, ◌++◌, map, codes, ◌==◌, arith}
use cherubsh.Split.{IfsState, split}
use cherubsh.Split.Buffer.{dequote_bytes, extend_from}
use cherubsh.Split.Ifs.{from_env, shell_string_to_bytes, join_separator, join_separator_bytes}
use cherubsh.Split.Pieces.{
  Piece, literal, quoted, quoted_null, param_null, built, push_pieces, meanings, fields, between,
}
use cherubsh.Split.Dequote.{dequote-built}
use cherubsh.Split.Joins.{extend_from-built}
use cherubsh.Split.Values.{split_fields}

-- the separators are a colon and a space
abbrev colon_space : IfsState
colon_space = record {
  raw = codes ": ";
  cmap = λ b. b == b':' || b == b' ';
  whitespace = λ b. b == b' ';
  is_default = false;
  is_unset = false;
  is_null = false;
  first_char = some b':';
  utf8_separators = [];
}

split_mixed : split (codes " a :b::c:") colon_space ≡ codes "a" ∷ codes "b" ∷ [] ∷ codes "c" ∷ []
unfolding split
split_mixed = refl

-- as the expansion of `a 'b c'":"::"" d` pushes it
abbrev word : List Piece
word =
    literal b'a'
    ∷ literal b' '
    ∷ quoted b'b'
    ∷ quoted b' '
    ∷ quoted b'c'
    ∷ quoted b':'
    ∷ literal b':'
    ∷ literal b':'
    ∷ quoted_null
    ∷ literal b' '
    ∷ literal b'd'
    ∷ []

quoted_colon :
    map dequote_bytes (split (built word).bytes (from_env (some (codes ": "))))
    ≡ codes "a" ∷ codes "b c:" ∷ [] ∷ [] ∷ codes "d" ∷ []
unfolding split push_pieces from_env dequote_bytes
quoted_colon = refl

split_fields_example :
    map dequote_bytes (split (built word).bytes (from_env (some (codes ": "))))
    ≡ map meanings (fields (from_env (some (codes ": "))) between word)
split_fields_example = split_fields (some (codes ": ")) word (omega arith) (omega arith)

-- a control byte that is not quoted, and one that is
abbrev controls : List Piece
controls = literal 1 ∷ quoted 0x7f ∷ param_null ∷ literal 0x1e ∷ []

dequote-built_example : dequote_bytes (built controls).bytes ≡ 1 ∷ 0x7f ∷ 0x1e ∷ []
dequote-built_example = dequote-built controls (omega arith)

extend_from-built_example : extend_from (built controls) (built word) ≡ built (word ++ controls)
extend_from-built_example = extend_from-built word controls

-- the colon and the letter e with an acute accent
two_separators :
    split (codes "a" ++ 0xc3 ∷ 0xa9 ∷ codes "b:c") (from_env (some (b':' ∷ 0xe9 ∷ [])))
    ≡ codes "a" ∷ codes "b" ∷ codes "c" ∷ []
unfolding split from_env
two_separators = refl

joined : join_separator_bytes (from_env (some (0xe9 ∷ []))) ≡ some (0xc3 ∷ 0xa9 ∷ [])
unfolding from_env join_separator_bytes
joined = refl

joined_unset : join_separator (from_env none) ≡ some b' '
unfolding from_env join_separator
joined_unset = refl

joined_null : join_separator (from_env (some [])) ≡ none
unfolding from_env join_separator
joined_null = refl

raw_marker : shell_string_to_bytes (0xf00ff ∷ b'a' ∷ []) ≡ 0xff ∷ b'a' ∷ []
unfolding shell_string_to_bytes
raw_marker = refl
