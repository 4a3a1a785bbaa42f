-- ===== src/History/Tests.antt =====
-- Runs of the command history, and the theorems at concrete inputs (crates/common/src/history.rs).
use cherubsh.Base.{
  ◌≡◌, refl, ◌-◌, true, false, none, some, List, [], ◌∷◌, ◌++◌, map, arith, codes, length, drop,
  lines, max,
}
use cherubsh.History.{
  HistControl, HistoryEntry, HistoryTable, no_control, entry_of, new, add, add_forced, remove_range,
  mark_saved, unsaved,
}
use cherubsh.History.Trims.{IsHistory}
use cherubsh.History.Events.{Records, add_forced-Records}
use cherubsh.History.Dups.{NoRepeats, add-NoRepeats, add_erasedups_once, lacks}
use cherubsh.History.Files.{opened, write_to, write_entries, append_to, load_physical_lines_from}
use cherubsh.History.RoundTrip.{IsPlain, reread_entries, load_physical_lines_from-write_to}
use cherubsh.History.Saves.{add_lines, line_entry, append_to-add_lines}
use cherubsh.History.Complete.{history_entry_complete, quotes_balanced, heredocs_closed}
use cherubsh.History.Load.{load_from}
use cherubsh.History.Multiline.{AllCommands, load_from-write_to}
use cherubsh.History.Removal.{Removes, remove_range-Removes}
use cherubsh.History.Runs.{
  apply_all, apply_all-new, set_limit, add_line, force_line, delete_one, delete_range,
  replace_newest, note_saved, save_new, read_file, read_physical,
}

abbrev ls_entry : HistoryEntry
ls_entry = entry_of (codes "ls") (some 170) false

abbrev cd_entry : HistoryEntry
cd_entry = entry_of (codes "cd /tmp") none true

-- two entries after three that were dropped
abbrev full : HistoryTable
full = record { entries = ls_entry ∷ cd_entry ∷ []; max_entries = 2; base = 3; new_since_save = 1 }

abbrev ignore_repeats : HistControl
ignore_repeats = record no_control { ignoredups = true }

abbrev erase_repeats : HistControl
erase_repeats = record no_control { erasedups = true }

apply_all-new_example : IsHistory (
    apply_all
      (add_line (some 7) (codes "ls") no_control
        ∷ read_file (codes "cat <<X" ∷ codes "X" ∷ [])
        ∷ force_line (codes "pwd") none
        ∷ save_new true []
        ∷ set_limit 1
        ∷ delete_one 3
        ∷ delete_range 1 9
        ∷ read_physical (codes "#12" ∷ codes "a" ∷ [])
        ∷ replace_newest none (codes "b") ignore_repeats
        ∷ note_saved
        ∷ [])
      (new 2))
apply_all-new_example = apply_all-new 2 (
    add_line (some 7) (codes "ls") no_control
    ∷ read_file (codes "cat <<X" ∷ codes "X" ∷ [])
    ∷ force_line (codes "pwd") none
    ∷ save_new true []
    ∷ set_limit 1
    ∷ delete_one 3
    ∷ delete_range 1 9
    ∷ read_physical (codes "#12" ∷ codes "a" ∷ [])
    ∷ replace_newest none (codes "b") ignore_repeats
    ∷ note_saved
    ∷ [])

add_forced-Records_example :
    Records (entry_of (codes "pwd") none false) full (add_forced (codes "pwd") none full)
add_forced-Records_example = add_forced-Records (codes "pwd") none full (omega arith)

full-NoRepeats : NoRepeats full.entries
full-NoRepeats = (cc, tt)

add-NoRepeats_example : NoRepeats (add (some 9) (codes "cd /tmp") ignore_repeats full).0.entries
add-NoRepeats_example =
    add-NoRepeats (some 9) (codes "cd /tmp") ignore_repeats full refl refl full-NoRepeats

taken : (add (some 9) (codes "ls") erase_repeats full).1 ≡ true
unfolding add
taken = refl

add_erasedups_once_example :
    (front : List HistoryEntry) × ((add (some 9) (codes "ls") erase_repeats full).0.entries
      ≡ front ++ entry_of (codes "ls") (some 9) false ∷ [])
    × (lacks (codes "ls") front ≡ true)
add_erasedups_once_example =
    add_erasedups_once (some 9) (codes "ls") erase_repeats full (omega arith) refl taken

ls_entry-IsPlain : IsPlain ls_entry
ls_entry-IsPlain = record {
  single = refl;
  no_return = refl;
  no_comment = refl;
  in_range = λ ts h. ground arith;
}

cd_entry-IsPlain : IsPlain cd_entry
cd_entry-IsPlain = record {
  single = refl;
  no_return = refl;
  no_comment = refl;
  in_range = λ ts h. absurd cc;
}

load_physical_lines_from-write_to_example :
    load_physical_lines_from (opened (map some (lines (write_to 1 false full)))) (new 5) ≡ (
      record {
        entries = reread_entries false 1 full;
        max_entries = max 5 1;
        base = 0;
        new_since_save = length (reread_entries false 1 full);
      },
      true,
    )
load_physical_lines_from-write_to_example =
    load_physical_lines_from-write_to false 1 5 full (ls_entry-IsPlain, (cd_entry-IsPlain, tt))
      (omega arith)

-- A here-document over three lines.
abbrev document : HistoryTable
document = record full {
  entries =
      entry_of (codes "cat <<EOF" ++ b'\n' ∷ codes "a b" ++ b'\n' ∷ codes "EOF") none false ∷ [];
}

document-AllCommands : AllCommands document.entries
unfolding history_entry_complete quotes_balanced heredocs_closed lines
document-AllCommands = (
  record {
    first = codes "cat <<EOF";
    more = codes "a b" ∷ codes "EOF" ∷ [];
    first_line = record { single = refl; no_return = refl };
    not_empty = refl;
    no_comment = refl;
    whole = refl;
    grows = (
      refl,
      record { single = refl; no_return = refl },
      (refl, record { single = refl; no_return = refl }, refl),
    );
    in_range = λ ts h. absurd cc;
  },
  tt,
)

load_from-write_to_example :
    load_from (opened (map some (lines (write_to 9 true document)))) (new 9) ≡ (
      record {
        entries = reread_entries true 9 document;
        max_entries = max 9 1;
        base = 0;
        new_since_save = length (reread_entries true 9 document);
      },
      true,
    )
load_from-write_to_example = load_from-write_to true 9 9 document document-AllCommands (omega arith)

full-IsHistory : IsHistory full
full-IsHistory = record { limit_positive = omega arith; bounded = omega arith }

append_to-add_lines_example :
    let ls = codes "a" ∷ codes "b" ∷ codes "c" ∷ [] in
    let s = append_to true (codes "x") (add_lines ls (mark_saved full)) in
    (s.1 ≡ codes "x" ++ write_entries true (drop (length ls - 2) (map line_entry ls)))
    × (unsaved s.0 ≡ 0)
append_to-add_lines_example =
    append_to-add_lines true (codes "x") (codes "a" ∷ codes "b" ∷ codes "c" ∷ []) full
      full-IsHistory

remove_range-Removes_example : Removes 4 4 full (remove_range 4 4 full)
remove_range-Removes_example =
    remove_range-Removes 4 4 full (omega arith) (omega arith) (omega arith)
