-- ===== src/Options/Progress.antt =====
-- A call of `next` (crates/builtins/src/getopt.rs).
use cherubsh.Base.{
  ◌≡◌, ◌≢◌, refl, ℕ, ◌+◌, ◌≤◌, ◌<◌, true, Option, none, some, List, [], ◌∷◌, Text, text_eq, codes,
  length, get_elem?, ◌==◌, Bool-cases, inl, inr, arith, get_elem?-some-lt,
}
use cherubsh.Options.{OptParser, Answer, is_operand, at_word, next_from, next}
use cherubsh.Options.Steps.{IsParser, left_over, Within, total-drop, read_word-Within, options_long}

start_word-Within :
    (again : Answer) (arg : Text) (p : OptParser)
    → IsParser p
    → p.inner ≡ 0
    → get_elem? p.args p.pos ≡ some arg
    → Within p.args (left_over p) (at_word again (some arg) p)
unfolding at_word
start_word-Within again arg p h z e =
    let inside = get_elem?-some-lt {0} p.args p.pos e in
    let first : (p.inner == 0) ≡ true = ground arith in
    elim (Bool-cases (text_eq arg (codes "--"))) [
      | inl dashes ↦
          rw (first, dashes)
            (
              record {
                pos_inside = omega arith;
                index_inside = omega arith;
                inner_inside = λ k. absurd (omega arith);
              },
              refl,
              inl refl,
            )
      | inr other ↦ elim (Bool-cases (is_operand arg)) [
        | inl operand ↦
            rw (first, other, operand)
              (
                record {
                  pos_inside = h.pos_inside;
                  index_inside = h.pos_inside;
                  inner_inside = λ k. absurd (omega arith);
                },
                refl,
                inl refl,
              )
        | inr options ↦
            let long = options_long arg options in
            rw (first, other, options)
              (read_word-Within again (left_over p) arg (get_elem? arg 1) (record p { inner = 1 })
                (record { here = e; fits = omega arith; index_fits = h.index_inside }) (omega arith)
                refl (omega arith) (λ past. absurd (second arg long past)))
      ]
    ]
  where
    second : (arg : Text) → 2 ≤ length arg → get_elem? arg 1 ≢ none
    second [] l k = absurd (omega arith)
    second (c ∷ []) l k = absurd (omega arith)
    second (c ∷ d ∷ arg) l k = absurd cc

at_word-Within :
    (again : Answer) (word : Option Text) (p : OptParser)
    → IsParser p
    → get_elem? p.args p.pos ≡ word
    → (0 < p.inner → p.pos < length p.args → Within p.args (left_over p) again)
    → Within p.args (left_over p) (at_word again word p)
unfolding at_word
at_word-Within again none p h e more = (
  record { pos_inside = h.pos_inside; index_inside = h.pos_inside; inner_inside = h.inner_inside },
  refl,
  inl refl,
)
at_word-Within again (some arg) p h e more = elim (Bool-cases (p.inner == 0)) [
  | inl z ↦ start_word-Within again arg p h (ground arith) e
  | inr z ↦
      let (a, here, fits) = h.inner_inside (ground arith) in
      let same : a ≡ arg = cc in
      let inside : p.inner ≤ length arg = rw same at fits in
      rw z (
        read_word-Within again (left_over p) arg (get_elem? arg p.inner) p
          (record { here = e; fits = inside; index_fits = h.index_inside }) (ground arith) refl
          (omega arith) (λ _. more (ground arith) (get_elem?-some-lt {0} p.args p.pos e)))
]

Within-le :
    (args : List Text) (a b : ℕ) (answer : Answer)
    → a ≤ b
    → Within args a answer
    → Within args b answer
Within-le args a b none l w = w
Within-le args a b (some (r, q)) l (v, e, inl f) = (v, e, inl f)
Within-le args a b (some (r, q)) l (v, e, inr m) = (v, e, inr (omega arith))

next_word-Within :
    (p : OptParser) → IsParser p → p.inner ≡ 0 → Within p.args (left_over p) (next_from 1 p)
unfolding next_from
next_word-Within p h z =
    at_word-Within none (get_elem? p.args p.pos) p h refl (λ k l. absurd (omega arith))

-- From a well formed parser `next` always answers, without a panic: with a well formed parser over the
-- same words, and with less left to read unless the answer is that the options are over.
pub next-Within : (p : OptParser) → IsParser p → Within p.args (left_over p) (next p)
unfolding next next_from
next-Within p h =
    at_word-Within (next_from 1 (record p { pos = p.pos + 1; inner = 0 })) (get_elem? p.args p.pos)
      p h refl
      (λ k l.
        let q = record p { pos = p.pos + 1; inner = 0 } in
        let v : IsParser q = record {
          pos_inside = omega arith;
          index_inside = h.index_inside;
          inner_inside = λ m. absurd (omega arith);
        } in
        let (arg, e, fits) = h.inner_inside k in
        Within-le p.args (left_over q) (left_over p) (next_from 1 q)
          (omega (arith, total-drop p.pos p.args arg e)) (next_word-Within q v refl))
