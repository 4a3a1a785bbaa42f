-- ===== src/History/Dups.antt =====
-- What `HISTCONTROL` keeps out of the history (`HistoryTable::add` in crates/common/src/history.rs).
use cherubsh.Base.{
  ◌≡◌, ◌≢◌, refl, ℕ, zero, suc, ◌+◌, ◌≤◌, inl, inr, true, false, not, Bool, Option, List, [], ◌∷◌,
  ◌++◌, arith, Text, length, drop, keep, text_eq, text_eq_iff, length-append, ◌&&◌, Bool-cases,
  get_last?,
}
use cherubsh.History.{
  HistoryEntry, HistoryTable, HistControl, entry_of, add, refused, last, repeats_last,
}
use cherubsh.History.Trims.{drop-append_front, excess, trim_lem}

-- No entry repeats the one before it.
abbrev pub NoRepeats : List HistoryEntry → Type 0
NoRepeats [] = Unit
NoRepeats (e ∷ []) = Unit
NoRepeats (e ∷ f ∷ es) = (e.line ≢ f.line) × NoRepeats (f ∷ es)

NoRepeats-drop : (k : ℕ) (es : List HistoryEntry) → NoRepeats es → NoRepeats (drop k es)
NoRepeats-drop zero es h = h
NoRepeats-drop (suc k) [] h = h
NoRepeats-drop (suc k) (e ∷ []) h = NoRepeats-drop k [] tt
NoRepeats-drop (suc k) (e ∷ f ∷ es) h = NoRepeats-drop k (f ∷ es) h.1

NoRepeats-append :
    (es : List HistoryEntry) (e : HistoryEntry)
    → repeats_last e.line (get_last? es) ≡ false
    → NoRepeats es
    → NoRepeats (es ++ e ∷ [])
NoRepeats-append [] e h r = tt
NoRepeats-append (f ∷ []) e h r = ground (arith, text_eq_iff f.line e.line)
NoRepeats-append (f ∷ g ∷ es) e h r = (r.0, NoRepeats-append (g ∷ es) e h r.1)

-- Under `ignoredups` without `erasedups`, `add` to a history in which no entry repeats the one before
-- it gives such a history: it never puts a line after itself.
pub add-NoRepeats :
    (now : Option ℕ) (line : Text) (control : HistControl) (t : HistoryTable)
    → control.ignoredups ≡ true
    → control.erasedups ≡ false
    → NoRepeats t.entries
    → NoRepeats (add now line control t).0.entries
unfolding add last
add-NoRepeats now line control t i e h = elim (Bool-cases (refused line control t)) [
  | inl r ↦ rw r h
  | inr r ↦
      let fresh : repeats_last line (get_last? t.entries) ≡ false = ground arith in
      let p = record t { entries = t.entries ++ entry_of line now false ∷ [] } in
      rw (r, e, trim_lem p)
        (NoRepeats-drop (excess p) p.entries
          (NoRepeats-append t.entries (entry_of line now false) fresh h))
]

-- no entry with the line
abbrev pub lacks : Text → List HistoryEntry → Bool
lacks line [] = true
lacks line (e ∷ es) = not (text_eq e.line line) && lacks line es

lacks-keep :
    (line : Text) (es : List HistoryEntry)
    → lacks line (keep (λ e. not (text_eq e.line line)) es) ≡ true
lacks-keep line [] = refl
lacks-keep line (e ∷ es) = elim (Bool-cases (text_eq e.line line)) [
  | inl h ↦ rw h (lacks-keep line es)
  | inr h ↦ rw (h, h) (lacks-keep line es)
]

lacks-drop :
    (line : Text) (k : ℕ) (es : List HistoryEntry)
    → lacks line es ≡ true
    → lacks line (drop k es) ≡ true
lacks-drop line zero es h = h
lacks-drop line (suc k) [] h = h
lacks-drop line (suc k) (e ∷ es) h = lacks-drop line k es (ground arith)

-- Under `erasedups` a line that `add` takes is the newest entry, and no other entry has it.
pub add_erasedups_once :
    (now : Option ℕ) (line : Text) (control : HistControl) (t : HistoryTable)
    → 1 ≤ t.max_entries
    → control.erasedups ≡ true
    → (add now line control t).1 ≡ true
    → (front : List HistoryEntry) × ((add now line control t).0.entries
        ≡ front ++ entry_of line now false ∷ [])
      × (lacks line front ≡ true)
unfolding add
add_erasedups_once now line control t m e h = elim (Bool-cases (refused line control t)) [
  | inl r ↦ absurd (ground arith)
  | inr r ↦
      let kept = keep (λ f. not (text_eq f.line line)) t.entries in
      let end = entry_of line now false ∷ [] in
      let p = record t { entries = kept ++ end } in
      let n : length (kept ++ end) ≡ length kept + 1 = length-append {0} kept end in
      rw (r, e, trim_lem p)
        (
          drop (excess p) kept,
          drop-append_front (excess p) kept end (omega arith),
          lacks-drop line (excess p) kept (lacks-keep line t.entries),
        )
]
