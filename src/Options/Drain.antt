-- ===== src/Options/Drain.antt =====
-- The options of a builtin come to an end (crates/builtins/src/getopt.rs).
use cherubsh.Base.{
  ◌≡◌, refl, ℕ, zero, suc, ◌+◌, ◌<◌, Option, none, some, List, Text, length, drop, if◌then◌else◌,
  Bool-cases, le→leb, inl, inr, arith,
}
use cherubsh.Options.{OptParser, Answer, new, next, remaining}
use cherubsh.Options.Steps.{IsParser, total, left_over, is_final, Within}
use cherubsh.Options.Progress.{next-Within}

-- The calls of `next` that a builtin makes, until the options are over.
unfoldable pub drain_answer : Answer → (OptParser → Option OptParser) → Option OptParser
drain_answer none go = none
drain_answer (some (r, q)) go = if is_final r then some q else go q

unfoldable pub drain : ℕ → OptParser → Option OptParser
unfolding drain_answer
drain zero p = none
drain (suc calls) p = drain_answer (next p) (drain calls)

abbrev Drained : Option OptParser → Type 0
Drained none = ⊥
Drained (some q) = IsParser q

drain_answer-Drained :
    (args : List Text) (bound : ℕ) (answer : Answer) (go : OptParser → Option OptParser)
    → Within args bound answer
    → ((q : OptParser) → IsParser q → left_over q < bound → Drained (go q))
    → Drained (drain_answer answer go)
unfolding drain_answer
drain_answer-Drained args bound none go w h = elim w [ ]
drain_answer-Drained args bound (some (r, q)) go (v, e, inl f) h = rw f v
drain_answer-Drained args bound (some (r, q)) go (v, e, inr l) h = elim (Bool-cases (is_final r)) [
  | inl f ↦ rw f v
  | inr f ↦ rw f (h q v l)
]

drain-Drained :
    (calls : ℕ) (p : OptParser) → IsParser p → left_over p < calls → Drained (drain calls p)
unfolding drain
drain-Drained zero p h l = absurd (omega arith)
drain-Drained (suc calls) p h l =
    drain_answer-Drained p.args (left_over p) (next p) (drain calls) (next-Within p h)
      (λ q v m. drain-Drained calls q v (omega arith))

Drained-remaining :
    (o : Option OptParser)
    → Drained o
    → (q : OptParser) × (rest : List Text) × (o ≡ some q) × (remaining q ≡ some rest)
unfolding remaining
Drained-remaining none v = elim v [ ]
Drained-remaining (some q) v =
    let inside = le→leb q.index (length q.args) v.index_inside in
    (q, drop q.index q.args, refl, rw inside refl)

-- For all words and any spec, a builtin that calls `next` until the options are over gets there,
-- without a panic, in at most one call more than the words have characters and ends; the words that
-- remain then are there.
pub drain-new :
    (args : List Text) (spec : Text)
    → (q : OptParser) × (rest : List Text) × (drain (total args + 1) (new args spec) ≡ some q)
      × (remaining q ≡ some rest)
unfolding new
drain-new args spec =
    let p = new args spec in
    Drained-remaining (drain (total args + 1) p) (
      drain-Drained (total args + 1) p
        (record {
          pos_inside = omega arith;
          index_inside = omega arith;
          inner_inside = λ k. absurd (omega arith);
        })
        (omega arith))
