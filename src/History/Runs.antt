-- ===== src/History/Runs.antt =====
-- Every sequence of operations keeps the history within its limit (crates/common/src/history.rs). A
-- file that a run reads has no line that fails to read: `load_from` leaves before it trims otherwise.
use cherubsh.Base.{
  ◌≡◌, refl, ℕ, ◌+◌, ◌-◌, ◌≤◌, inl, inr, Bool, Option, none, some, List, [], ◌∷◌, ◌++◌, map, arith,
  Text, max, min, length, drop, take, length-append, length-take, length-drop, ◌==◌, ◌<◌,
  Option-cases, Bool-cases,
}
use cherubsh.History.{
  HistoryEntry, HistControl, HistoryTable, new, set_max, add, add_forced, remove_at, remove_range,
  drop_last, replace_last, clear, mark_saved, refused, unsaved,
}
use cherubsh.History.Trims.{IsHistory, trim-IsHistory}
use cherubsh.History.Removal.{remove_at-remove_range}
use cherubsh.History.Files.{
  finish_load, push_loaded, comment_timestamp, physical_from, load_physical_lines_from, opened,
  append_to,
}
use cherubsh.History.Load.{
  LoadState, load_line, load_lines, load_from, load_end, blank_line, begin_entry, settle,
  is_empty_text, load_start,
}

pub data HistoryOp : Type 0 where
  set_limit : ℕ → HistoryOp
  add_line : Option ℕ → Text → HistControl → HistoryOp
  force_line : Text → Option ℕ → HistoryOp
  delete_one : ℕ → HistoryOp
  delete_range : ℕ → ℕ → HistoryOp
  replace_newest : Option ℕ → Text → HistControl → HistoryOp
  wipe : HistoryOp
  note_saved : HistoryOp
  save_new : Bool → Text → HistoryOp
  read_file : List Text → HistoryOp
  read_physical : List Text → HistoryOp

unfoldable pub apply_op : HistoryOp → HistoryTable → HistoryTable
apply_op (set_limit n) t = set_max n t
apply_op (add_line now line control) t = (add now line control t).0
apply_op (force_line line ts) t = add_forced line ts t
apply_op (delete_one i) t = (remove_at i t).0
apply_op (delete_range a b) t = remove_range a b t
apply_op (replace_newest now line control) t = (replace_last now line control t).0
apply_op wipe t = clear t
apply_op note_saved t = mark_saved t
apply_op (save_new w file) t = (append_to w file t).0
apply_op (read_file ls) t = (load_from (opened (map some ls)) t).0
apply_op (read_physical ls) t = (load_physical_lines_from (opened (map some ls)) t).0

unfoldable pub apply_all : List HistoryOp → HistoryTable → HistoryTable
unfolding apply_op
apply_all [] t = t
apply_all (op ∷ ops) t = apply_all ops (apply_op op t)

add-IsHistory :
    (now : Option ℕ) (line : Text) (control : HistControl) (t : HistoryTable)
    → IsHistory t
    → IsHistory (add now line control t).0
unfolding add
add-IsHistory now line control t h = elim (Bool-cases (refused line control t)) [
  | inl r ↦ rw r h
  | inr r ↦ rw r (trim-IsHistory _ h.limit_positive)
]

shrunk :
    (t u : HistoryTable)
    → u.max_entries ≡ t.max_entries
    → length u.entries ≤ length t.entries
    → IsHistory t
    → IsHistory u
shrunk t u h k v = record {
  limit_positive = omega (arith, v.limit_positive);
  bounded = omega (arith, v.bounded);
}

cut_length :
    (s e : ℕ) (es : List HistoryEntry) → s < e → length (take s es ++ drop e es) ≤ length es
cut_length s e es h =
    omega
      (arith, length-append {0} (take s es) (drop e es), length-take {0} s es, length-drop {0} e es)

remove_range-IsHistory : (a b : ℕ) (t : HistoryTable) → IsHistory t → IsHistory (remove_range a b t)
unfolding remove_range
remove_range-IsHistory a b t h =
    let s = max a (t.base + 1) - (t.base + 1) in
    let e = min b (t.base + length t.entries) - t.base in
    shrunk t (remove_range a b t) (ground arith) (ground (arith, cut_length s e t.entries)) h

drop_last-IsHistory : (t : HistoryTable) → IsHistory t → IsHistory (drop_last t)
unfolding drop_last
drop_last-IsHistory t h =
    shrunk t (drop_last t) (ground arith)
      (ground (arith, length-take {0} (length t.entries - 1) t.entries)) h

saved_trim : (t : HistoryTable) → 1 ≤ t.max_entries → IsHistory (finish_load t)
unfolding mark_saved
saved_trim t h =
    let v = trim-IsHistory t h in record { limit_positive = v.limit_positive; bounded = v.bounded }

blank_line_limit :
    (pending : Option ℕ) (st : LoadState)
    → (blank_line pending st).table.max_entries ≡ st.table.max_entries
unfolding blank_line
blank_line_limit none st = refl
blank_line_limit (some ts) st = refl

settle_limit : (st : LoadState) → (settle st).table.max_entries ≡ st.table.max_entries
unfolding settle
settle_limit st = ground arith

begin_entry_limit :
    (ts : Option ℕ) (line : Text) (st : LoadState)
    → (begin_entry ts line st).table.max_entries ≡ st.table.max_entries
unfolding begin_entry
begin_entry_limit none line st = settle_limit _
begin_entry_limit (some ts) line st = refl

load_line_limit :
    (line : Text) (st : LoadState) → (load_line line st).table.max_entries ≡ st.table.max_entries
unfolding load_line
load_line_limit line st = elim (Bool-cases (is_empty_text st.entry)) [
  | inl e ↦ elim (Bool-cases (is_empty_text line)) [
    | inl f ↦ rw (e, f) (blank_line_limit st.pending_ts st)
    | inr f ↦ rw (e, f) (begin_entry_limit (comment_timestamp line) line st)
  ]
  | inr e ↦ rw e (settle_limit (record st { entry = st.entry ++ b'\n' ∷ line }))
]

load_lines-IsHistory :
    (ls : List Text) (st : LoadState)
    → 1 ≤ st.table.max_entries
    → IsHistory (load_lines (map some ls) st).0
unfolding load_lines load_end mark_saved
load_lines-IsHistory [] st h = elim (Bool-cases (is_empty_text st.entry)) [
  | inl e ↦ rw e (saved_trim st.table h)
  | inr e ↦ rw e (saved_trim (push_loaded st.entry st.entry_ts st.table) h)
]
load_lines-IsHistory (line ∷ ls) st h =
    load_lines-IsHistory ls (load_line line st) (omega (arith, load_line_limit line st))

physical_from-IsHistory :
    (pending : Option ℕ) (ls : List Text) (t : HistoryTable)
    → 1 ≤ t.max_entries
    → IsHistory (physical_from pending (map some ls) t).0
unfolding physical_from mark_saved
physical_from-IsHistory pending [] t h = saved_trim t h
physical_from-IsHistory pending (line ∷ ls) t h = elim (Option-cases (comment_timestamp line)) [
  | inl e ↦ rw (physical_from, e) (physical_from-IsHistory none ls (push_loaded line pending t) h)
  | inr (ts, e) ↦ rw (physical_from, e) (physical_from-IsHistory (some ts) ls t h)
]

append_to-IsHistory :
    (w : Bool) (file : Text) (t : HistoryTable) → IsHistory t → IsHistory (append_to w file t).0
unfolding append_to mark_saved
append_to-IsHistory w file t h = elim (Bool-cases (unsaved t == 0)) [
  | inl e ↦ rw e h
  | inr e ↦ rw e (record { limit_positive = h.limit_positive; bounded = h.bounded })
]

-- Every operation keeps the limit positive and the entries within it.
pub apply_op-IsHistory :
    (op : HistoryOp) (t : HistoryTable) → IsHistory t → IsHistory (apply_op op t)
unfolding apply_op set_max add_forced replace_last clear mark_saved load_from
    load_physical_lines_from
apply_op-IsHistory (set_limit n) t h =
    trim-IsHistory (record t { max_entries = max n 1 }) (omega arith)
apply_op-IsHistory (add_line now line control) t h = add-IsHistory now line control t h
apply_op-IsHistory (force_line line ts) t h = trim-IsHistory _ h.limit_positive
apply_op-IsHistory (delete_one i) t h =
    rw (apply_op, remove_at-remove_range i t) (remove_range-IsHistory i i t h)
apply_op-IsHistory (delete_range a b) t h = remove_range-IsHistory a b t h
apply_op-IsHistory (replace_newest now line control) t h =
    add-IsHistory now line control (drop_last t) (drop_last-IsHistory t h)
apply_op-IsHistory wipe t h = record {
  limit_positive = h.limit_positive;
  bounded = omega (arith, h.limit_positive);
}
apply_op-IsHistory note_saved t h = record {
  limit_positive = h.limit_positive;
  bounded = h.bounded;
}
apply_op-IsHistory (save_new w file) t h = append_to-IsHistory w file t h
apply_op-IsHistory (read_file ls) t h = load_lines-IsHistory ls (load_start t) h.limit_positive
apply_op-IsHistory (read_physical ls) t h = physical_from-IsHistory none ls t h.limit_positive

all-IsHistory :
    (ops : List HistoryOp) (t : HistoryTable) → IsHistory t → IsHistory (apply_all ops t)
unfolding apply_all
all-IsHistory [] t h = h
all-IsHistory (op ∷ ops) t h = all-IsHistory ops (apply_op op t) (apply_op-IsHistory op t h)

-- Whatever operations follow on a new history, the files that are read included as long as each of
-- their lines can be read, the limit stays positive and there are never more entries than it.
pub apply_all-new : (limit : ℕ) (ops : List HistoryOp) → IsHistory (apply_all ops (new limit))
unfolding new
apply_all-new limit ops =
    all-IsHistory ops (new limit) (record { limit_positive = omega arith; bounded = omega arith })
