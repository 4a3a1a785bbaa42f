-- ===== src/History/Saves.antt =====
-- What `append_to` writes after lines were added (crates/common/src/history.rs).
use cherubsh.Base.{
  ◌≡◌, refl, sym, ◌∙◌, ap, ℕ, suc, ◌+◌, ◌-◌, inl, inr, Bool, false, none, List, [], ◌∷◌, ◌++◌, map,
  append_assoc, append-nil, arith, Text, length, drop, length-append, length-map, length-drop,
  drop-length, ◌==◌, Bool-cases,
}
use cherubsh.History.{HistoryEntry, HistoryTable, entry_of, add_forced, mark_saved, unsaved}
use cherubsh.History.Trims.{
  drop_zero, trim-IsHistory, trimmed, excess, trim_lem, IsHistory, table_eq, drop-append_front,
  drop-drop, drop-append_end,
}
use cherubsh.History.Files.{write_entries, append_to}

abbrev pub add_lines : List Text → HistoryTable → HistoryTable
add_lines [] t = t
add_lines (line ∷ ls) t = add_lines ls (add_forced line none t)

abbrev pub line_entry : Text → HistoryEntry
line_entry line = entry_of line none false

overflow : ℕ → HistoryTable → ℕ
overflow n t = length t.entries + n - t.max_entries

add_lines_lem :
    (ls : List Text) (t : HistoryTable)
    → IsHistory t
    → add_lines ls t
      ≡ trimmed (overflow (length ls) t) (record t { entries = t.entries ++ map line_entry ls })
unfolding overflow add_forced
add_lines_lem [] t h =
    let k = overflow 0 t in
    let z : k ≡ 0 = omega (arith, h.bounded) in
    table_eq t t.entries (drop k (t.entries ++ [])) t.base t.new_since_save (t.base + k)
      (t.new_since_save - k) (sym (append-nil {0} t.entries) ∙ drop_zero k (t.entries ++ []) z)
      (omega arith) (omega arith)
add_lines_lem (line ∷ ls) t h =
    let e = line_entry line in
    let p = record t { entries = t.entries ++ e ∷ [] } in
    let k = excess p in
    let s = trimmed k p in
    let j = overflow (length ls) s in
    let n : length (t.entries ++ e ∷ []) ≡ length t.entries + 1 =
      length-append {0} t.entries (e ∷ []) in
    let m = length-drop {0} k p.entries in
    let rest = map line_entry ls in
    let i = overflow (suc (length ls)) t in
    let total : k + j ≡ i = omega arith in
    let all_entries : drop j (drop k p.entries ++ rest) ≡ drop i (t.entries ++ e ∷ rest) =
      ap (drop j) (sym (drop-append_front k p.entries rest (omega arith)))
      ∙ drop-drop k j (p.entries ++ rest)
      ∙ rw (total, append_assoc {0} t.entries (e ∷ []) rest) refl in
    let history : IsHistory s = rw (trim_lem p) at (trim-IsHistory p h.limit_positive) in
    ap (add_lines ls) (trim_lem p)
    ∙ add_lines_lem ls s history
    ∙ table_eq t (drop j (drop k p.entries ++ rest)) (drop i (t.entries ++ e ∷ rest))
        (t.base + k + j) (t.new_since_save - k - j) (t.base + i) (t.new_since_save - i) all_entries
        (omega arith) (omega arith)

append_to_text :
    (w : Bool) (file : Text) (s : HistoryTable)
    → (append_to w file s).1
      ≡ file ++ write_entries w (drop (length s.entries - unsaved s) s.entries)
unfolding append_to write_entries
append_to_text w file s = elim (Bool-cases (unsaved s == 0)) [
  | inl h ↦
      let z : length s.entries - unsaved s ≡ length s.entries = ground arith in
      rw (h, z, drop-length {0} s.entries, append-nil {0} file) refl
  | inr h ↦ rw h refl
]

append_to_marks : (w : Bool) (file : Text) (s : HistoryTable) → unsaved (append_to w file s).0 ≡ 0
unfolding append_to unsaved mark_saved
append_to_marks w file s = elim (Bool-cases (length s.entries - s.new_since_save == 0)) [
  | inl h ↦ rw h (ground arith)
  | inr h ↦ rw h (omega arith)
]

unsaved-add_lines :
    (ls : List Text) (t : HistoryTable)
    → IsHistory t
    → let s = add_lines ls (mark_saved t) in
      drop (length s.entries - unsaved s) s.entries
      ≡ drop (length ls - t.max_entries) (map line_entry ls)
unfolding mark_saved unsaved overflow
unsaved-add_lines ls t h =
    let u = mark_saved t in
    let k = overflow (length ls) u in
    let rest = map line_entry ls in
    let es = t.entries ++ rest in
    let n : length es ≡ length t.entries + length ls =
      omega (arith, length-append {0} t.entries rest, length-map ls line_entry) in
    let left = length-drop {0} k es in
    let history : IsHistory u = record { limit_positive = h.limit_positive; bounded = h.bounded } in
    let m = length (drop k es) - (length (drop k es) - (length t.entries - k)) in
    let start : k + m ≡ length t.entries + (length ls - t.max_entries) =
      omega (arith, h.bounded, h.limit_positive) in
    rw (add_lines_lem ls u history, drop-drop k m es, start)
      (drop-append_end (length ls - t.max_entries) t.entries rest)

-- After `mark_saved` on a history within its limit, and the adding of lines by `add_forced` without a
-- timestamp, `append_to` writes the added lines in order, as many of the newest of them as the history has room for, and no entry that was saved before; afterwards
-- nothing is unsaved.
pub append_to-add_lines :
    (w : Bool) (file : Text) (ls : List Text) (t : HistoryTable)
    → IsHistory t
    → let s = append_to w file (add_lines ls (mark_saved t)) in
      (s.1 ≡ file ++ write_entries w (drop (length ls - t.max_entries) (map line_entry ls)))
      × (unsaved s.0 ≡ 0)
append_to-add_lines w file ls t h =
    let u = mark_saved t in
    let s = add_lines ls u in
    (
      append_to_text w file s ∙ ap (λ es. file ++ write_entries w es) (unsaved-add_lines ls t h),
      append_to_marks w file s,
    )
