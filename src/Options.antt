-- ===== src/Options.antt =====
-- The option parser of the builtins (crates/builtins/src/getopt.rs). `none` is the panic of an index,
-- or the end of the fuel of `next`.
pub mod Steps
pub mod Progress
pub mod Drain
pub mod Flags
pub mod Tests
use cherubsh.Base.{
  ℕ, zero, suc, ◌+◌, Bool, true, false, not, ◌&&◌, ◌||◌, Option, none, some, List, [], ◌∷◌, Text,
  text_eq, starts_with, codes, length, drop, get_elem?, leb, ◌==◌, if◌then◌else◌,
}

pub data GetOpt : Type 0 where
  opt : Bool → ℕ → Option Text → GetOpt
  end_options : GetOpt
  done : GetOpt
  unknown : Bool → ℕ → GetOpt
  missing : Bool → ℕ → GetOpt

pub record OptParser : Type 0 where
  pub args : List Text
  pub spec : Text
  pub pos : ℕ
  pub inner : ℕ
  pub index : ℕ

unfoldable pub new : List Text → Text → OptParser
new args spec = record { args = args; spec = spec; pos = 0; inner = 0; index = 0 }

-- the answer and the parser after it
abbrev pub Answer : Type 0
Answer = Option (GetOpt × OptParser)

abbrev pub starts_colon : Text → Bool
starts_colon [] = false
starts_colon (c ∷ s) = c == b':'

-- whether the first place of the option in the spec has a colon behind it
unfoldable pub needs_arg : ℕ → Text → Option Bool
needs_arg ch [] = none
needs_arg ch (c ∷ spec) =
    let later = needs_arg ch spec in if c == ch then some (starts_colon spec) else later

-- the argument of an option: the rest of its word, or the next word
unfoldable pub read_arg : Bool → ℕ → Text → Option Text → OptParser → GetOpt × OptParser
read_arg plus ch (c ∷ rest) word p =
    (opt plus ch (some (c ∷ rest)), record p { pos = p.pos + 1; inner = 0 })
read_arg plus ch [] none p = (missing plus ch, record p { pos = p.pos + 1; inner = 0 })
read_arg plus ch [] (some v) p = (opt plus ch (some v), record p { pos = p.pos + 1 + 1; inner = 0 })

unfoldable pub read_option : Bool → ℕ → Text → Option Bool → OptParser → GetOpt × OptParser
unfolding read_arg
read_option plus ch arg none p = (unknown plus ch, p)
read_option plus ch arg (some true) p =
    read_arg plus ch (drop p.inner arg) (get_elem? p.args (p.pos + 1)) p
read_option plus ch arg (some false) p =
    (opt plus ch none, record p { index = if leb (length arg) p.inner then p.pos + 1 else p.pos })

abbrev pub starts_plus : Text → Bool
starts_plus s = starts_with s (b'+' ∷ [])

-- The characters of a word of options; `again` is the answer at the next word.
unfoldable pub read_word : Answer → Text → Option ℕ → OptParser → Answer
unfolding read_option needs_arg
read_word again [] ch p = none
read_word again (c ∷ arg) none p = again
read_word again (c ∷ arg) (some ch) p =
    some (
      read_option (c == b'+') ch (c ∷ arg) (needs_arg ch p.spec) (record p { inner = p.inner + 1 }))

-- whether a word holds no options
abbrev pub is_operand : Text → Bool
is_operand arg =
    length arg == 0
    || not (starts_with arg (b'-' ∷ [])) && not (starts_plus arg)
    || text_eq arg (b'-' ∷ [])
    || text_eq arg (b'+' ∷ [])

unfoldable pub at_word : Answer → Option Text → OptParser → Answer
unfolding read_word
at_word again none p = some (done, record p { index = p.pos })
at_word again (some arg) p =
    if p.inner == 0
    then (if text_eq arg (codes "--")
        then some (end_options, record p { index = p.pos + 1; pos = length p.args })
        else if is_operand arg
        then some (done, record p { index = p.pos })
        else read_word again arg (get_elem? arg 1) (record p { inner = 1 }))
    else read_word again arg (get_elem? arg p.inner) p

unfoldable pub next_from : ℕ → OptParser → Answer
unfolding at_word
next_from zero p = none
next_from (suc fuel) p =
    at_word (next_from fuel (record p { pos = p.pos + 1; inner = 0 })) (get_elem? p.args p.pos) p

-- A call moves on to the next word at most once.
unfoldable pub next : OptParser → Answer
unfolding next_from
next p = next_from 2 p

unfoldable pub remaining : OptParser → Option (List Text)
remaining p = if leb p.index (length p.args) then some (drop p.index p.args) else none
