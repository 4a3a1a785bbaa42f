-- ===== src/History.antt =====
-- The command history (crates/common/src/history.rs): `HistoryTable` and what changes it in memory.
-- The clock is an argument.
pub mod Trims
pub mod Events
pub mod Dups
pub mod Files
pub mod RoundTrip
pub mod Saves
pub mod Complete
pub mod Load
pub mod Multiline
pub mod Removal
pub mod Runs
pub mod Tests
use cherubsh.Base.{
  ℕ, ◌+◌, ◌-◌, min, max, Bool, true, false, not, ◌&&◌, ◌||◌, Option, none, some, List, [], ◌∷◌,
  ◌++◌, Text, text_eq, starts_with, length, get_elem?, take, drop, keep, get_last?, ltb, leb, ◌==◌,
  if◌then◌else◌, codes, split_at, trim_text,
}

-- the bits of `HistControl`
pub record HistControl : Type 0 where
  pub ignorespace : Bool
  pub ignoredups : Bool
  pub erasedups : Bool

abbrev pub no_control : HistControl
no_control = record { ignorespace = false; ignoredups = false; erasedups = false }

-- one token of `HISTCONTROL`
unfoldable pub add_control : Text → HistControl → HistControl
add_control tok out =
    if text_eq tok (codes "ignorespace")
    then record out { ignorespace = true }
    else if text_eq tok (codes "ignoredups")
    then record out { ignoredups = true }
    else if text_eq tok (codes "ignoreboth")
    then record out { ignorespace = true; ignoredups = true }
    else if text_eq tok (codes "erasedups")
    then record out { erasedups = true }
    else out

unfoldable pub add_controls : List Text → HistControl → HistControl
add_controls [] out = out
add_controls (tok ∷ toks) out = add_controls toks (add_control (trim_text tok) out)

unfoldable pub parse_control : Text → HistControl
unfolding add_controls add_control
parse_control value = add_controls (split_at b':' value) no_control

pub record HistoryEntry : Type 0 where
  pub line : Text
  pub timestamp : Option ℕ
  pub timestamp_from_file : Bool

pub record HistoryTable : Type 0 where
  pub entries : List HistoryEntry
  pub max_entries : ℕ
  pub base : ℕ
  pub new_since_save : ℕ

unfoldable pub new : ℕ → HistoryTable
new limit = record { entries = []; max_entries = max limit 1; base = 0; new_since_save = 0 }

-- The loop of `trim`; a counter that is not 0 goes down by one for each entry dropped.
unfoldable pub trim_from : List HistoryEntry → HistoryTable → HistoryTable
trim_from [] t = record t { entries = [] }
trim_from (e ∷ es) t =
    if ltb t.max_entries (length (e ∷ es))
    then trim_from es (record t {
      base = t.base + 1;
      new_since_save = if ltb 0 t.new_since_save then t.new_since_save - 1 else t.new_since_save;
    })
    else record t { entries = e ∷ es }

unfoldable pub trim : HistoryTable → HistoryTable
unfolding trim_from
trim t = trim_from t.entries t

unfoldable pub set_max : ℕ → HistoryTable → HistoryTable
set_max limit t = trim (record t { max_entries = max limit 1 })

unfoldable pub get : ℕ → HistoryTable → Option HistoryEntry
get idx t = if idx == 0 || leb idx t.base then none else get_elem? t.entries (idx - t.base - 1)

unfoldable pub last : HistoryTable → Option HistoryEntry
last t = get_last? t.entries

unfoldable pub nth_last : ℕ → HistoryTable → Option HistoryEntry
nth_last n t =
    if n == 0 || ltb (length t.entries) n then none else get_elem? t.entries (length t.entries - n)

abbrev pub repeats_last : Text → Option HistoryEntry → Bool
repeats_last line none = false
repeats_last line (some e) = text_eq e.line line

abbrev pub entry_of : Text → Option ℕ → Bool → HistoryEntry
entry_of line timestamp from_file = record {
  line = line;
  timestamp = timestamp;
  timestamp_from_file = from_file;
}

-- whether `add` refuses the line
abbrev pub refused : Text → HistControl → HistoryTable → Bool
refused line control t =
    length line == 0
    || control.ignorespace && starts_with line (b' ' ∷ [])
    || control.ignoredups && repeats_last line (last t)

-- `now` is what the clock gives.
unfoldable pub add : Option ℕ → Text → HistControl → HistoryTable → HistoryTable × Bool
unfolding last
add now line control t =
    let kept =
      if control.erasedups then keep (λ e. not (text_eq e.line line)) t.entries else t.entries in
    if refused line control t
    then (t, false)
    else (trim (record t { entries = kept ++ entry_of line now false ∷ [] }), true)

unfoldable pub add_forced : Text → Option ℕ → HistoryTable → HistoryTable
add_forced line timestamp t =
    trim (record t { entries = t.entries ++ entry_of line timestamp false ∷ [] })

unfoldable pub remove_at : ℕ → HistoryTable → HistoryTable × Bool
remove_at idx t =
    let i = idx - t.base - 1 in
    if idx == 0 || leb idx t.base
    then (t, false)
    else if leb (length t.entries) i
    then (t, false)
    else (record t { entries = take i t.entries ++ drop (i + 1) t.entries }, true)

unfoldable pub remove_range : ℕ → ℕ → HistoryTable → HistoryTable
remove_range start end t =
    let first = t.base + 1 in
    let last = t.base + length t.entries in
    let s = max start first - first in
    let e = min end last - t.base in
    if ltb last start || ltb end first
    then t
    else if ltb s e
    then record t { entries = take s t.entries ++ drop e t.entries }
    else t

-- `pop`, and the counter kept within the entries
unfoldable pub drop_last : HistoryTable → HistoryTable
drop_last t =
    let entries = take (length t.entries - 1) t.entries in
    let s = record t { entries = entries } in
    if length t.entries == 0
    then t
    else if ltb (length entries) t.new_since_save
    then record s { new_since_save = length entries }
    else s

unfoldable pub replace_last : Option ℕ → Text → HistControl → HistoryTable → HistoryTable × Bool
unfolding drop_last
replace_last now line control t = add now line control (drop_last t)

unfoldable pub clear : HistoryTable → HistoryTable
clear t = record t { entries = []; base = 0; new_since_save = 0 }

unfoldable pub mark_saved : HistoryTable → HistoryTable
mark_saved t = record t { new_since_save = length t.entries }

-- the method `new_since_save`
unfoldable pub unsaved : HistoryTable → ℕ
unsaved t = length t.entries - t.new_since_save
