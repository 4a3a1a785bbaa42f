-- ===== src/Options/Tests.antt =====
-- Runs of the option parser, and the theorems at concrete inputs (crates/builtins/src/getopt.rs).
use cherubsh.Base.{ℕ, ◌≡◌, refl, ◌+◌, false, some, List, [], ◌∷◌, Text, map, codes, arith}
use cherubsh.Options.{OptParser, opt, next, needs_arg, new, remaining}
use cherubsh.Options.Steps.{IsParser, total}
use cherubsh.Options.Flags.{AllFlags, flag, in_first, next_times, next_times-AllFlags}
use cherubsh.Options.Drain.{drain, drain-new}

-- `-ra name -- rest`
abbrev words : List Text
words = codes "-ra" ∷ codes "name" ∷ codes "--" ∷ codes "rest" ∷ []

-- after `r`
abbrev inside_word : OptParser
inside_word = record { args = words; spec = codes "ra:"; pos = 0; inner = 2; index = 0 }

inside_word-IsParser : IsParser inside_word
inside_word-IsParser = record {
  pos_inside = omega arith;
  index_inside = omega arith;
  inner_inside = λ h. (codes "-ra", refl, omega arith);
}

next_argument :
    next inside_word
    ≡ some (opt false b'a' (some (codes "name")), record inside_word { pos = 2; inner = 0 })
unfolding next
next_argument = refl

drain-new_example :
    (q : OptParser) × (rest : List Text) × (drain (total words + 1) (new words (codes "ra:"))
      ≡ some q)
    × (remaining q ≡ some rest)
drain-new_example = drain-new words (codes "ra:")

flags_known : AllFlags (codes "ran:") (codes "ra")
unfolding needs_arg
flags_known = (refl, (refl, tt))

next_times-AllFlags_example :
    (after : ℕ) × (next_times 2 (new (codes "-ra" ∷ []) (codes "ran:"))
      ≡ some (map flag (codes "ra"), in_first (codes "-ra") [] (codes "ran:") (1 + 2) after))
next_times-AllFlags_example =
    next_times-AllFlags b'r' (codes "a") [] (codes "ran:") refl flags_known
