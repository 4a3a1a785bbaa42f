-- ===== src/History/Events.antt =====
-- Event numbers under `add_forced` and `add` (crates/common/src/history.rs).
use cherubsh.Base.{
  ◌≡◌, subst, refl, ◌∙◌, ℕ, zero, suc, ◌+◌, ◌-◌, ◌≤◌, ◌<◌, inl, inr, false, Option, none, some,
  List, [], ◌∷◌, ◌++◌, arith, Text, length, get_elem?, length-drop, length-append,
  get_elem?-append_end, leb, ◌==◌, ◌||◌, Bool-cases,
}
use cherubsh.History.{HistoryEntry, HistoryTable, trim, get, entry_of, add_forced}
use cherubsh.History.Trims.{
  trimmed, excess, trim_lem, IsHistory, trim-IsHistory, get-trimmed, get-dropped,
}

-- `s` is `t` with one more event, `e`, the newest: the events that `s` still has keep their numbers.
pub record Records (e : HistoryEntry) (t s : HistoryTable) : Type 0 where
  pub counted : s.base + length s.entries ≡ t.base + length t.entries + 1
  pub newest : get (t.base + length t.entries + 1) s ≡ some e
  pub kept : (n : ℕ) → s.base < n → n ≤ t.base + length t.entries → get n s ≡ get n t
  pub gone : (n : ℕ) → n ≤ s.base → get n s ≡ none
  pub history : IsHistory s

get_elem?-append_lt :
    (xs ys : List HistoryEntry) (i : ℕ) → i < length xs → get_elem? (xs ++ ys) i ≡ get_elem? xs i
get_elem?-append_lt [] ys i h = absurd (omega arith)
get_elem?-append_lt (x ∷ xs) ys zero h = refl
get_elem?-append_lt (x ∷ xs) ys (suc i) h = get_elem?-append_lt xs ys i (omega arith)

abbrev pub pushed : HistoryEntry → HistoryTable → HistoryTable
pushed e t = record t { entries = t.entries ++ e ∷ [] }

get-pushed :
    (e : HistoryEntry) (t : HistoryTable) (n : ℕ)
    → n ≤ t.base + length t.entries
    → get n (pushed e t) ≡ get n t
unfolding get
get-pushed e t n h = elim (Bool-cases (n == 0 || leb n t.base)) [
  | inl z ↦ rw z refl
  | inr z ↦ rw z (get_elem?-append_lt t.entries (e ∷ []) (n - t.base - 1) (ground arith))
]

get-pushed_newest :
    (e : HistoryEntry) (t : HistoryTable)
    → get (t.base + length t.entries + 1) (pushed e t) ≡ some e
unfolding get
get-pushed_newest e t =
    let at : t.base + length t.entries + 1 - t.base - 1 ≡ length t.entries = omega arith in
    ground (arith, at, get_elem?-append_end t.entries e)

pub trim-pushed-Records :
    (e : HistoryEntry) (t : HistoryTable) → 1 ≤ t.max_entries → Records e t (trim (pushed e t))
trim-pushed-Records e t h =
    let p = pushed e t in
    let k = excess p in
    let n : length (t.entries ++ e ∷ []) ≡ length t.entries + 1 =
      length-append {0} t.entries (e ∷ []) in
    let small : k ≤ length t.entries = omega arith in
    let history = trim-IsHistory p h in
    rw (trim_lem p) (record {
      counted = omega (arith, length-drop {0} k p.entries);
      newest =
          get-trimmed (t.base + length t.entries + 1) k p (omega arith) ∙ get-pushed_newest e t;
      kept = λ m g l. get-trimmed m k p g ∙ get-pushed e t m l;
      gone = λ m l. get-dropped m (trimmed k p) l;
      history = subst IsHistory (trim_lem p) history;
    })

-- A line forced into a history becomes its newest event. The events that are not pushed out keep
-- their numbers, the numbers pushed out give nothing, and the limit holds.
pub add_forced-Records :
    (line : Text) (timestamp : Option ℕ) (t : HistoryTable)
    → 1 ≤ t.max_entries
    → Records (entry_of line timestamp false) t (add_forced line timestamp t)
unfolding add_forced
add_forced-Records line timestamp t h = trim-pushed-Records (entry_of line timestamp false) t h
