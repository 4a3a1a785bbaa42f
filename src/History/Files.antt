-- ===== src/History/Files.antt =====
-- The history file (`load_physical_lines_from`, `write_to` and `append_to` of
-- crates/common/src/history.rs). A reader is its lines, `none` where reading fails; a file is its
-- text, and writing to one succeeds.
use cherubsh.Base.{
  ℕ, ◌-◌, ◌^◌, Bool, true, false, ◌||◌, Option, none, some, List, [], ◌∷◌, ◌++◌, Text, length, drop,
  ◌==◌, if◌then◌else◌, parse_unsigned, to_string,
}
use cherubsh.History.{HistoryEntry, HistoryTable, trim, entry_of, mark_saved, unsaved}

-- what `File::open` gives
pub data OpenResult : Type 0 where
  not_found : OpenResult
  failed : OpenResult
  opened : List (Option Text) → OpenResult

-- `strip_prefix('#')` and `parse::<u64>`
abbrev pub comment_timestamp : Text → Option ℕ
comment_timestamp [] = none
comment_timestamp (c ∷ rest) = if c == b'#' then parse_unsigned (2 ^ 64 - 1) rest else none

abbrev pub push_loaded : Text → Option ℕ → HistoryTable → HistoryTable
push_loaded line timestamp t = record t { entries = t.entries ++ entry_of line timestamp true ∷ [] }

abbrev pub finish_load : HistoryTable → HistoryTable
finish_load t = mark_saved (trim t)

-- A comment is kept for the next line; any other line is an entry with the comment before it.
abbrev pub take_line : Option ℕ → Option ℕ → Text → HistoryTable → HistoryTable
take_line (some ts) pending line t = t
take_line none pending line t = push_loaded line pending t

-- The loop over the lines, with `pending_ts`: a line that is no comment takes it.
unfoldable pub physical_from : Option ℕ → List (Option Text) → HistoryTable → HistoryTable × Bool
physical_from pending [] t = (finish_load t, true)
physical_from pending (none ∷ reader) t = (t, false)
physical_from pending (some line ∷ reader) t =
    let ts = comment_timestamp line in physical_from ts reader (take_line ts pending line t)

unfoldable pub load_physical_lines_from : OpenResult → HistoryTable → HistoryTable × Bool
unfolding physical_from
load_physical_lines_from not_found t = (t, true)
load_physical_lines_from failed t = (t, false)
load_physical_lines_from (opened reader) t = physical_from none reader t

abbrev pub written_timestamp : Option ℕ → Text
written_timestamp none = []
written_timestamp (some ts) = b'#' ∷ to_string ts ++ b'\n' ∷ []

-- what one turn of the loop of `write_to` writes
unfoldable pub write_entry : Bool → HistoryEntry → Text
write_entry with_timestamps e =
    (if with_timestamps || e.timestamp_from_file then written_timestamp e.timestamp else [])
    ++ e.line
    ++ b'\n' ∷ []

unfoldable pub write_entries : Bool → List HistoryEntry → Text
unfolding write_entry
write_entries with_timestamps [] = []
write_entries with_timestamps (e ∷ es) =
    write_entry with_timestamps e ++ write_entries with_timestamps es

unfoldable pub write_to : ℕ → Bool → HistoryTable → Text
unfolding write_entries
write_to max_size with_timestamps t =
    write_entries with_timestamps (drop (length t.entries - max_size) t.entries)

-- the table and the file after `append_to`
unfoldable pub append_to : Bool → Text → HistoryTable → HistoryTable × Text
unfolding write_entries unsaved mark_saved
append_to with_timestamps file t = if unsaved t == 0 then (t, file) else (
  mark_saved t,
  file ++ write_entries with_timestamps (drop (length t.entries - unsaved t) t.entries),
)
