-- ===== src/Options/Steps.antt =====
-- What one option takes (crates/builtins/src/getopt.rs).
use cherubsh.Base.{
  ◌≡◌, refl, ℕ, zero, suc, ◌+◌, ◌-◌, ◌≤◌, ◌<◌, Bool, true, false, Option, none, some, List, [], ◌∷◌,
  Text, length, drop, get_elem?, leb, ◌==◌, if◌then◌else◌, inr, ◌⊎◌, arith, get_elem?-some-lt,
}
use cherubsh.Options.{
  GetOpt, opt, end_options, done, unknown, missing, OptParser, Answer, needs_arg, read_arg,
  read_option, read_word, is_operand,
}

-- The place is among the words, and a place inside a word is at most at its end.
pub record IsParser (p : OptParser) : Type 0 where
  pub pos_inside : p.pos ≤ length p.args
  pub index_inside : p.index ≤ length p.args
  pub inner_inside :
      0 < p.inner → (arg : Text) × (get_elem? p.args p.pos ≡ some arg) × (p.inner ≤ length arg)

-- the characters that are left, and a place behind each word
abbrev pub total : List Text → ℕ
total [] = 0
total (arg ∷ args) = length arg + 1 + total args

abbrev pub left_over : OptParser → ℕ
left_over p = total (drop p.pos p.args) - p.inner

abbrev pub is_final : GetOpt → Bool
is_final (opt plus ch arg) = false
is_final end_options = true
is_final done = true
is_final (unknown plus ch) = false
is_final (missing plus ch) = false

-- The answer is there, its parser is well formed with the same words, and less than `bound` is left
-- over unless the answer is final.
abbrev pub Within : List Text → ℕ → Answer → Type 0
Within args bound none = ⊥
Within args bound (some (r, q)) =
    IsParser q × (q.args ≡ args) × ((is_final r ≡ true) ⊎ (left_over q < bound))

pub total-drop :
    (i : ℕ) (args : List Text) (arg : Text)
    → get_elem? args i ≡ some arg
    → total (drop i args) ≡ length arg + 1 + total (drop (i + 1) args)
total-drop i [] arg h = absurd cc
total-drop zero (a ∷ args) arg h = let e : a ≡ arg = cc in rw e refl
total-drop (suc i) (a ∷ args) arg h =
    let z : suc i + 1 ≡ suc (i + 1) = omega arith in rw z (total-drop i args arg h)

pub total-drop_suc : (i : ℕ) (args : List Text) → total (drop (i + 1) args) ≤ total (drop i args)
total-drop_suc zero [] = omega arith
total-drop_suc zero (a ∷ args) = omega arith
total-drop_suc (suc i) [] = let z : suc i + 1 ≡ suc (i + 1) = omega arith in rw z (omega arith)
total-drop_suc (suc i) (a ∷ args) =
    let z : suc i + 1 ≡ suc (i + 1) = omega arith in rw z (total-drop_suc i args)

-- the state inside the word `arg`
pub record Inside (arg : Text) (p : OptParser) : Type 0 where
  pub here : get_elem? p.args p.pos ≡ some arg
  pub fits : p.inner ≤ length arg
  pub index_fits : p.index ≤ length p.args

pub Inside-IsParser : (arg : Text) (p : OptParser) → Inside arg p → IsParser p
Inside-IsParser arg p h = record {
  pos_inside = omega (arith, get_elem?-some-lt {0} p.args p.pos h.here);
  index_inside = h.index_fits;
  inner_inside = λ _. (arg, h.here, h.fits);
}

read_arg-Within :
    (plus : Bool) (ch bound : ℕ) (arg rest : Text) (word : Option Text) (p : OptParser)
    → Inside arg p
    → get_elem? p.args (p.pos + 1) ≡ word
    → left_over p < bound
    → Within p.args bound (some (read_arg plus ch rest word p))
unfolding read_arg
read_arg-Within plus ch bound arg (c ∷ rest) word p h e l = (
  record {
    pos_inside = omega (arith, get_elem?-some-lt {0} p.args p.pos h.here);
    index_inside = h.index_fits;
    inner_inside = λ k. absurd (omega arith);
  },
  refl,
  inr (omega (arith, total-drop p.pos p.args arg h.here, h.fits)),
)
read_arg-Within plus ch bound arg [] none p h e l = (
  record {
    pos_inside = omega (arith, get_elem?-some-lt {0} p.args p.pos h.here);
    index_inside = h.index_fits;
    inner_inside = λ k. absurd (omega arith);
  },
  refl,
  inr (omega (arith, total-drop p.pos p.args arg h.here, h.fits)),
)
read_arg-Within plus ch bound arg [] (some v) p h e l = (
  record {
    pos_inside = omega (arith, get_elem?-some-lt {0} p.args (p.pos + 1) e);
    index_inside = h.index_fits;
    inner_inside = λ k. absurd (omega arith);
  },
  refl,
  inr (
      omega (arith, total-drop p.pos p.args arg h.here, h.fits, total-drop_suc (p.pos + 1) p.args)),
)

read_option-Within :
    (plus : Bool) (ch bound : ℕ) (arg : Text) (known : Option Bool) (p : OptParser)
    → Inside arg p
    → left_over p < bound
    → Within p.args bound (some (read_option plus ch arg known p))
unfolding read_option
read_option-Within plus ch bound arg none p h l = (Inside-IsParser arg p h, refl, inr l)
read_option-Within plus ch bound arg (some true) p h l =
    read_arg-Within plus ch bound arg (drop p.inner arg) (get_elem? p.args (p.pos + 1)) p h refl l
read_option-Within plus ch bound arg (some false) p h l =
    let index = if leb (length arg) p.inner then p.pos + 1 else p.pos in
    let fits : index ≤ length p.args = ground (arith, get_elem?-some-lt {0} p.args p.pos h.here) in
    (
      Inside-IsParser arg (record p { index = index })
          (record { here = h.here; fits = h.fits; index_fits = fits }),
      refl,
      inr l,
    )

pub read_word-Within :
    (again : Answer) (bound : ℕ) (arg : Text) (ch : Option ℕ) (p : OptParser)
    → Inside arg p
    → 0 < length arg
    → get_elem? arg p.inner ≡ ch
    → left_over p ≤ bound
    → (ch ≡ none → Within p.args bound again)
    → Within p.args bound (read_word again arg ch p)
unfolding read_word
read_word-Within again bound [] ch p h k e l more = absurd (omega arith)
read_word-Within again bound (c ∷ arg) none p h k e l more = more refl
read_word-Within again bound (c ∷ arg) (some ch) p h k e l more =
    let q = record p { inner = p.inner + 1 } in
    let room = get_elem?-some-lt {0} (c ∷ arg) p.inner e in
    read_option-Within (c == b'+') ch bound (c ∷ arg) (needs_arg ch p.spec) q
      (record { here = h.here; fits = omega arith; index_fits = h.index_fits })
      (omega (arith, total-drop p.pos p.args (c ∷ arg) h.here))

pub options_long : (arg : Text) → is_operand arg ≡ false → 2 ≤ length arg
options_long [] h = absurd (ground arith)
options_long (c ∷ []) h = absurd (ground arith)
options_long (c ∷ d ∷ arg) h = omega arith
