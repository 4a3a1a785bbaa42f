-- ===== src/History/Load.antt =====
-- `load_from` (crates/common/src/history.rs): the history file with the entries of several lines put
-- together.
use cherubsh.Base.{
  ℕ, Bool, true, false, ◌&&◌, Option, none, some, List, [], ◌∷◌, ◌++◌, Text, if◌then◌else◌,
}
use cherubsh.History.{HistoryEntry, HistoryTable}
use cherubsh.History.Files.{
  OpenResult, not_found, failed, opened, comment_timestamp, push_loaded, finish_load,
}
use cherubsh.History.Complete.{history_entry_complete}

-- the variables of the loop
pub record LoadState : Type 0 where
  pub pending_ts : Option ℕ
  pub entry : Text
  pub entry_ts : Option ℕ
  pub table : HistoryTable

abbrev pub is_empty_text : Text → Bool
is_empty_text [] = true
is_empty_text (c ∷ s) = false

-- `last_mut`, with a line feed pushed on its line
unfoldable pub break_last : List HistoryEntry → List HistoryEntry
break_last [] = []
break_last (e ∷ []) = record e { line = e.line ++ b'\n' ∷ [] } ∷ []
break_last (e ∷ f ∷ es) = e ∷ break_last (f ∷ es)

-- an empty line between entries
unfoldable pub blank_line : Option ℕ → LoadState → LoadState
unfolding break_last
blank_line none st = record st { table = record st.table { entries = break_last st.table.entries } }
blank_line (some ts) st = st

-- the end of a turn, where the entry may be complete
unfoldable pub settle : LoadState → LoadState
settle st =
    if history_entry_complete st.entry
    then record st {
      entry = [];
      entry_ts = none;
      table = push_loaded st.entry st.entry_ts st.table;
    }
    else st

-- a line where an entry may begin, with the timestamp that it reads as
unfoldable pub begin_entry : Option ℕ → Text → LoadState → LoadState
unfolding settle
begin_entry (some ts) line st = record st { pending_ts = some ts }
begin_entry none line st =
    settle (record st { pending_ts = none; entry = st.entry ++ line; entry_ts = st.pending_ts })

-- a turn of the loop
unfoldable pub load_line : Text → LoadState → LoadState
unfolding blank_line begin_entry settle
load_line line st =
    if is_empty_text st.entry && is_empty_text line
    then blank_line st.pending_ts st
    else if is_empty_text st.entry
    then begin_entry (comment_timestamp line) line st
    else settle (record st { entry = st.entry ++ b'\n' ∷ line })

-- after the loop
unfoldable pub load_end : LoadState → HistoryTable
load_end st =
    finish_load
      (if is_empty_text st.entry then st.table else push_loaded st.entry st.entry_ts st.table)

unfoldable pub load_lines : List (Option Text) → LoadState → HistoryTable × Bool
unfolding load_line load_end
load_lines [] st = (load_end st, true)
load_lines (none ∷ reader) st = (st.table, false)
load_lines (some line ∷ reader) st = load_lines reader (load_line line st)

abbrev pub load_start : HistoryTable → LoadState
load_start t = record { pending_ts = none; entry = []; entry_ts = none; table = t }

unfoldable pub load_from : OpenResult → HistoryTable → HistoryTable × Bool
unfolding load_lines
load_from not_found t = (t, true)
load_from failed t = (t, false)
load_from (opened reader) t = load_lines reader (load_start t)
