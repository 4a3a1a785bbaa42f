-- ===== src/Options/Flags.antt =====
-- A word of flags (crates/builtins/src/getopt.rs).
use cherubsh.Base.{
  ◌≡◌, refl, ap, ℕ, zero, suc, ◌+◌, false, Option, none, some, List, [], ◌∷◌, ◌++◌, map,
  append_assoc, Text, length, length-append, get_elem?, leb, ◌==◌, if◌then◌else◌, arith,
}
use cherubsh.Options.{
  GetOpt, opt, OptParser, Answer, new, needs_arg, read_option, read_word, is_operand, at_word,
  next_from, next,
}

-- the answers of some calls of `next`, and the parser after them
abbrev gather : GetOpt → Option (List GetOpt × OptParser) → Option (List GetOpt × OptParser)
gather r none = none
gather r (some (rs, q)) = some (r ∷ rs, q)

abbrev gather_answer :
    Answer → (OptParser → Option (List GetOpt × OptParser)) → Option (List GetOpt × OptParser)
gather_answer none go = none
gather_answer (some (r, q)) go = gather r (go q)

unfoldable pub next_times : ℕ → OptParser → Option (List GetOpt × OptParser)
next_times zero p = some ([], p)
next_times (suc n) p = gather_answer (next p) (next_times n)

-- options of the spec that take no argument
abbrev pub AllFlags : Text → Text → Type 0
AllFlags spec [] = Unit
AllFlags spec (c ∷ cs) = (needs_arg c spec ≡ some false) × AllFlags spec cs

abbrev pub flag : ℕ → GetOpt
flag c = opt false c none

abbrev pub in_first : Text → List Text → Text → ℕ → ℕ → OptParser
in_first word rest spec inner index = record {
  args = word ∷ rest;
  spec = spec;
  pos = 0;
  inner = inner;
  index = index;
}

get_elem?-append_at :
    (xs : Text) (c : ℕ) (ys : Text) → get_elem? (xs ++ c ∷ ys) (length xs) ≡ some c
get_elem?-append_at [] c ys = refl
get_elem?-append_at (x ∷ xs) c ys = get_elem?-append_at xs c ys

abbrev index_after : Text → ℕ → ℕ
index_after word inner = if leb (length word) inner then 1 else 0

flag_step :
    (pre : Text) (c : ℕ) (cs : Text) (rest : List Text) (spec : Text) (index : ℕ)
    → needs_arg c spec ≡ some false
    → let word = b'-' ∷ (pre ++ c ∷ cs) in
      let inner = suc (length pre) in
      next (in_first word rest spec inner index)
      ≡ some (flag c, in_first word rest spec (inner + 1) (index_after word (inner + 1)))
unfolding next next_from at_word read_word read_option
flag_step pre c cs rest spec index h =
    let z : (suc (length pre) == 0) ≡ false = ground arith in
    rw (z, get_elem?-append_at pre c cs, h) refl

flags_from :
    (pre fs : Text) (rest : List Text) (spec : Text) (index : ℕ)
    → AllFlags spec fs
    → (after : ℕ) × (next_times
          (length fs)
          (in_first (b'-' ∷ (pre ++ fs)) rest spec (suc (length pre)) index)
        ≡ some (
          map flag fs,
          in_first (b'-' ∷ (pre ++ fs)) rest spec (suc (length pre) + length fs) after,
        ))
unfolding next_times
flags_from pre [] rest spec index h =
    let z : suc (length pre) + 0 ≡ suc (length pre) = omega arith in (index, rw z refl)
flags_from pre (c ∷ cs) rest spec index (k, h) =
    let place = suc (length pre) + 1 in
    let pre_c = pre ++ c ∷ [] in
    let (after, e) = flags_from pre_c cs rest spec (index_after (b'-' ∷ (pre ++ c ∷ cs)) place) h in
    let word : pre_c ++ cs ≡ pre ++ c ∷ cs = append_assoc {0} pre (c ∷ []) cs in
    let here : suc (length pre_c) ≡ place = omega (arith, length-append {0} pre (c ∷ [])) in
    let end : place + length cs ≡ suc (length pre) + suc (length cs) = omega arith in
    let rest_read = rw (word, here, end) at e in
    (after, rw (flag_step pre c cs rest spec index k) (ap (gather (flag c)) rest_read))

start_word :
    (c : ℕ) (cs : Text) (rest : List Text) (spec : Text)
    → (c == b'-') ≡ false
    → let word = b'-' ∷ c ∷ cs in next (new (word ∷ rest) spec) ≡ next (in_first word rest spec 1 0)
unfolding next next_from at_word new
start_word c cs rest spec h =
    let operand : is_operand (b'-' ∷ c ∷ cs) ≡ false = ground arith in rw (h, operand) refl

-- A first word of flags, each of which the spec has without an argument and the first of which is not
-- a dash, is read flag by flag: as many calls as there are flags give exactly these, in order, and
-- leave the parser at the end of the word.
pub next_times-AllFlags :
    (c : ℕ) (cs : Text) (rest : List Text) (spec : Text)
    → (c == b'-') ≡ false
    → AllFlags spec (c ∷ cs)
    → (after : ℕ) × (next_times (length (c ∷ cs)) (new ((b'-' ∷ c ∷ cs) ∷ rest) spec)
        ≡ some (map flag (c ∷ cs), in_first (b'-' ∷ c ∷ cs) rest spec (1 + length (c ∷ cs)) after))
unfolding next_times
next_times-AllFlags c cs rest spec h k =
    let (after, e) = flags_from [] (c ∷ cs) rest spec 0 k in
    (after, rw (start_word c cs rest spec h) e)
