-- ===== src/History/Removal.antt =====
-- `remove_range` and `remove_at` (crates/common/src/history.rs) by event numbers.
use cherubsh.Base.{
  ◌≡◌, refl, ◌∙◌, ℕ, zero, suc, ◌+◌, ◌-◌, ◌≤◌, ◌<◌, inl, inr, false, List, [], ◌∷◌, ◌++◌, arith,
  max, min, length, drop, take, get_elem?, length-append, length-take, ltb, leb, ◌==◌, ◌||◌, ◌&&◌,
  length-drop, Bool-cases,
}
use cherubsh.History.{HistoryEntry, HistoryTable, get, remove_at, remove_range}
use cherubsh.History.Trims.{get_elem?-drop}

get_elem?-take :
    (s i : ℕ) (es fs : List HistoryEntry)
    → i < s
    → s ≤ length es
    → get_elem? (take s es ++ fs) i ≡ get_elem? es i
get_elem?-take zero i es fs h k = absurd (omega arith)
get_elem?-take (suc s) i [] fs h k = absurd (omega arith)
get_elem?-take (suc s) zero (e ∷ es) fs h k = refl
get_elem?-take (suc s) (suc i) (e ∷ es) fs h k =
    get_elem?-take s i es fs (omega arith) (omega arith)

get_elem?-past :
    (s i : ℕ) (es fs : List HistoryEntry)
    → s ≤ length es
    → get_elem? (take s es ++ fs) (s + i) ≡ get_elem? fs i
get_elem?-past zero i es fs h = let z : 0 + i ≡ i = omega arith in rw z refl
get_elem?-past (suc s) i [] fs h = absurd (omega arith)
get_elem?-past (suc s) i (e ∷ es) fs h =
    let z : suc s + i ≡ suc (s + i) = omega arith in rw z (get_elem?-past s i es fs (omega arith))

-- `s` is `t` without the events from `a` to `b`: those before keep their numbers, and those after
-- move down.
pub record Removes (a b : ℕ) (t s : HistoryTable) : Type 0 where
  pub counted : length s.entries + (b + 1 - a) ≡ length t.entries
  pub before : (n : ℕ) → n < a → get n s ≡ get n t
  pub after : (n : ℕ) → a ≤ n → get n s ≡ get (n + (b + 1 - a)) t

inside :
    (a b : ℕ) (t : HistoryTable)
    → t.base < a
    → a ≤ b
    → b ≤ t.base + length t.entries
    → remove_range a b t
      ≡ record t { entries = take (a - t.base - 1) t.entries ++ drop (b - t.base) t.entries }
unfolding remove_range
inside a b t h k l =
    let start : max a (t.base + 1) - (t.base + 1) ≡ a - t.base - 1 = omega arith in
    let end : min b (t.base + length t.entries) - t.base ≡ b - t.base = omega arith in
    ground (arith, start, end)

-- Removing a range of the events that are there removes exactly those, and keeps the order of the
-- others: what came before keeps its number, and what came after moves down by their count.
pub remove_range-Removes :
    (a b : ℕ) (t : HistoryTable)
    → t.base < a
    → a ≤ b
    → b ≤ t.base + length t.entries
    → Removes a b t (remove_range a b t)
unfolding get
remove_range-Removes a b t h k l =
    let i = a - t.base - 1 in
    let j = b - t.base in
    let es = t.entries in
    let room : i ≤ length es = omega arith in
    rw (inside a b t h k l) (record {
      counted = omega (
        arith,
        length-append {0} (take i es) (drop j es),
        length-take {0} i es,
        length-drop {0} j es,
      );
      before = λ n m. elim (Bool-cases (n == 0 || leb n t.base)) [
        | inl z ↦ rw z refl
        | inr z ↦ rw z (get_elem?-take i (n - t.base - 1) es (drop j es) (ground arith) room)
      ];
      after = λ n m.
          let here : (n == 0 || leb n t.base) ≡ false = ground arith in
          let there : (n + (b + 1 - a) == 0 || leb (n + (b + 1 - a)) t.base) ≡ false =
            ground arith in
          let at : n - t.base - 1 ≡ i + (n - a) = omega arith in
          let past : n + (b + 1 - a) - t.base - 1 ≡ j + (n - a) = omega arith in
          rw (here, there, at, past)
            (get_elem?-past i (n - a) es (drop j es) room ∙ get_elem?-drop j (n - a) es);
    })

-- Removing one event is removing the range of it alone, whether or not it is there, and tells
-- whether it was.
pub remove_at-remove_range :
    (i : ℕ) (t : HistoryTable)
    → remove_at i t ≡ (remove_range i i t, ltb t.base i && leb i (t.base + length t.entries))
unfolding remove_at remove_range
remove_at-remove_range i t = ground arith
