-- ===== src/History/Multiline.antt =====
-- What `load_from` reads of a file that `write_to` wrote (crates/common/src/history.rs).
use cherubsh.Base.{
  ◌≡◌, refl, sym, ◌∙◌, ap, ℕ, zero, suc, ◌-◌, ◌^◌, ◌≤◌, inl, inr, Bool, true, false, ◌||◌, Option,
  none, some, List, [], ◌∷◌, ◌++◌, map, append_assoc, append-nil, arith, Text, max, length, drop,
  length-map, length-drop, Bool-cases, lines, strip_cr,
}
use cherubsh.History.{HistoryEntry, HistoryTable, mark_saved, new}
use cherubsh.History.Trims.{trim_nothing}
use cherubsh.History.Files.{
  comment_timestamp, push_loaded, finish_load, opened, written_timestamp, write_entry,
  write_entries, write_to,
}
use cherubsh.History.RoundTrip.{
  one_line, lines_from_text, stamp, lines-stamp, stamp_comment, saved_timestamp, reread,
  reread_entries,
}
use cherubsh.History.Complete.{history_entry_complete}
use cherubsh.History.Load.{
  LoadState, is_empty_text, settle, begin_entry, load_line, load_end, load_lines, load_start,
  load_from,
}

-- a line that a reader gives back as it was written
pub record IsLine (s : Text) : Type 0 where
  pub single : one_line s ≡ true
  pub no_return : strip_cr s ≡ s

-- the lines of an entry put together
abbrev pub joined : Text → List Text → Text
joined s [] = s
joined s (l ∷ ls) = joined (s ++ b'\n' ∷ l) ls

-- The entry is complete with its last line, and not before.
abbrev pub Grows : Text → List Text → Type 0
Grows s [] = history_entry_complete s ≡ true
Grows s (l ∷ ls) = (history_entry_complete s ≡ false) × IsLine l × Grows (s ++ b'\n' ∷ l) ls

-- A command of one or more lines, as the shell records it.
pub record IsCommand (e : HistoryEntry) : Type 0 where
  pub first : Text
  pub more : List Text
  pub first_line : IsLine first
  pub not_empty : is_empty_text first ≡ false
  pub no_comment : comment_timestamp first ≡ none
  pub whole : e.line ≡ joined first more
  pub grows : Grows first more
  pub in_range : (ts : ℕ) → e.timestamp ≡ some ts → ts ≤ 2 ^ 64 - 1

abbrev pub AllCommands : List HistoryEntry → Type 0
AllCommands [] = Unit
AllCommands (e ∷ es) = IsCommand e × AllCommands es

not_empty-append : (s t : Text) → is_empty_text s ≡ false → is_empty_text (s ++ t) ≡ false
not_empty-append [] t h = ground arith
not_empty-append (c ∷ s) t h = refl

-- reading a text in the state with the entry so far
abbrev reads : Text → LoadState → HistoryTable × Bool
reads text st = load_lines (map some (lines text)) st

abbrev growing : Text → Option ℕ → HistoryTable → LoadState
growing s ts t = record { pending_ts = none; entry = s; entry_ts = ts; table = t }

settle_done :
    (s : Text) (ts : Option ℕ) (t : HistoryTable)
    → history_entry_complete s ≡ true
    → settle (growing s ts t) ≡ load_start (push_loaded s ts t)
unfolding settle
settle_done s ts t h = rw h refl

settle_open :
    (s : Text) (ts : Option ℕ) (t : HistoryTable)
    → history_entry_complete s ≡ false
    → settle (growing s ts t) ≡ growing s ts t
unfolding settle
settle_open s ts t h = rw h refl

load_line_more :
    (s l : Text) (ts : Option ℕ) (t : HistoryTable)
    → is_empty_text s ≡ false
    → load_line l (growing s ts t) ≡ settle (growing (s ++ b'\n' ∷ l) ts t)
unfolding load_line
load_line_more s l ts t h = rw h refl

load_line_first :
    (s : Text) (pending : Option ℕ) (t : HistoryTable)
    → is_empty_text s ≡ false
    → comment_timestamp s ≡ none
    → load_line s (record (load_start t) { pending_ts = pending }) ≡ settle (growing s pending t)
unfolding load_line begin_entry
load_line_first s pending t h k = rw (h, k) refl

abbrev more_text : List Text → Text → Text
more_text [] rest = rest
more_text (l ∷ ls) rest = l ++ b'\n' ∷ more_text ls rest

joined_text :
    (s : Text) (ls : List Text) (rest : Text)
    → joined s ls ++ b'\n' ∷ rest ≡ s ++ b'\n' ∷ more_text ls rest
joined_text s [] rest = refl
joined_text s (l ∷ ls) rest =
    joined_text (s ++ b'\n' ∷ l) ls rest
    ∙ append_assoc {0} s (b'\n' ∷ l) (b'\n' ∷ more_text ls rest)

reads_line :
    (l rest : Text) (st : LoadState)
    → IsLine l
    → reads (l ++ b'\n' ∷ rest) st ≡ reads rest (load_line l st)
unfolding load_lines
reads_line l rest st h =
    ap (λ ls. load_lines (map some ls) st) (lines_from_text l rest h.single h.no_return)

read_more :
    (s : Text) (ls : List Text) (ts : Option ℕ) (rest : Text) (t : HistoryTable)
    → is_empty_text s ≡ false
    → Grows s ls
    → reads (more_text ls rest) (settle (growing s ts t))
      ≡ reads rest (load_start (push_loaded (joined s ls) ts t))
read_more s [] ts rest t h g = ap (reads rest) (settle_done s ts t g)
read_more s (l ∷ ls) ts rest t h (open_still, line, g) =
    let u = s ++ b'\n' ∷ l in
    ap (reads (l ++ b'\n' ∷ more_text ls rest)) (settle_open s ts t open_still)
    ∙ reads_line l (more_text ls rest) (growing s ts t) line
    ∙ ap (reads (more_text ls rest)) (load_line_more s l ts t h)
    ∙ read_more u ls ts rest t (not_empty-append s (b'\n' ∷ l) h) g

read_command :
    (e : HistoryEntry) (pending : Option ℕ) (rest : Text) (t : HistoryTable)
    → IsCommand e
    → reads (e.line ++ b'\n' ∷ rest) (record (load_start t) { pending_ts = pending })
      ≡ reads rest (load_start (push_loaded e.line pending t))
read_command e pending rest t p =
    let st = record (load_start t) { pending_ts = pending } in
    let after = more_text p.more rest in
    ap (λ s. reads s st) (ap (λ s. s ++ b'\n' ∷ rest) p.whole ∙ joined_text p.first p.more rest)
    ∙ reads_line p.first after st p.first_line
    ∙ ap (reads after) (load_line_first p.first pending t p.not_empty p.no_comment)
    ∙ read_more p.first p.more pending rest t p.not_empty p.grows
    ∙ ap (λ s. reads rest (load_start (push_loaded s pending t))) (sym p.whole)

read_stamped :
    (e : HistoryEntry) (ts : Option ℕ) (rest : Text) (t : HistoryTable)
    → IsCommand e
    → ((n : ℕ) → ts ≡ some n → n ≤ 2 ^ 64 - 1)
    → reads (written_timestamp ts ++ (e.line ++ b'\n' ∷ rest)) (load_start t)
      ≡ reads rest (load_start (push_loaded e.line ts t))
unfolding load_lines load_line begin_entry
read_stamped e none rest t p h = read_command e none rest t p
read_stamped e (some ts) rest t p h =
    let after = e.line ++ b'\n' ∷ rest in
    ap (λ s. reads s (load_start t)) (append_assoc {0} (stamp ts) (b'\n' ∷ []) after)
    ∙ ap (λ ls. load_lines (map some ls) (load_start t)) (lines-stamp ts after)
    ∙ ap (reads after) (load_line_stamp ts t (h ts refl))
    ∙ read_command e (some ts) rest t p
  where
    load_line_stamp :
        (n : ℕ) (u : HistoryTable)
        → n ≤ 2 ^ 64 - 1
        → load_line (stamp n) (load_start u) ≡ record (load_start u) { pending_ts = some n }
    load_line_stamp n u l = rw (stamp_comment n l) refl

read_written :
    (w : Bool) (e : HistoryEntry) (rest : Text) (t : HistoryTable)
    → IsCommand e
    → reads (write_entry w e ++ rest) (load_start t)
      ≡ reads rest (load_start (push_loaded e.line (saved_timestamp w e) t))
unfolding write_entry
read_written w e rest t p = elim (Bool-cases (w || e.timestamp_from_file)) [
  | inl h ↦
      rw
        (
          h,
          append_assoc {0} (written_timestamp e.timestamp ++ e.line) (b'\n' ∷ []) rest,
          append_assoc {0} (written_timestamp e.timestamp) e.line (b'\n' ∷ rest),
        )
        (read_stamped e e.timestamp rest t p p.in_range)
  | inr h ↦ rw (h, append_assoc {0} e.line (b'\n' ∷ []) rest) (read_command e none rest t p)
]

read_all :
    (w : Bool) (es : List HistoryEntry) (t : HistoryTable)
    → AllCommands es
    → reads (write_entries w es) (load_start t)
      ≡ (finish_load (record t { entries = t.entries ++ map (reread w) es }), true)
unfolding write_entries load_lines load_end lines
read_all w [] t p = rw (append-nil {0} t.entries) refl
read_all w (e ∷ es) t p =
    read_written w e (write_entries w es) t p.0
    ∙ read_all w es (push_loaded e.line (saved_timestamp w e) t) p.1
    ∙ rw (append_assoc {0} t.entries (reread w e ∷ []) (map (reread w) es)) refl

AllCommands-drop : (k : ℕ) (es : List HistoryEntry) → AllCommands es → AllCommands (drop k es)
AllCommands-drop zero es p = p
AllCommands-drop (suc k) [] p = p
AllCommands-drop (suc k) (e ∷ es) p = AllCommands-drop k es p.1

-- When every entry is a command of one or more lines that is complete with its last line and not
-- before, whose first line is not empty and does not read as a timestamp comment, with no carriage
-- return at the end of a line and a 64-bit timestamp: a new table whose limit is at least `max_size`
-- and that loads the history file that was written with `max_size` holds the newest `max_size` commands in order, each whole, with the timestamp that was written with
-- it, and counts all of them as saved.
pub load_from-write_to :
    (w : Bool) (max_size limit : ℕ) (t : HistoryTable)
    → AllCommands t.entries
    → max_size ≤ limit
    → load_from (opened (map some (lines (write_to max_size w t)))) (new limit) ≡ (
      record {
        entries = reread_entries w max_size t;
        max_entries = max limit 1;
        base = 0;
        new_since_save = length (reread_entries w max_size t);
      },
      true,
    )
unfolding load_from write_to new mark_saved
load_from-write_to w max_size limit t p h =
    let k = length t.entries - max_size in
    let kept = drop k t.entries in
    let s = record (new limit) { entries = map (reread w) kept } in
    let room : length s.entries ≤ max limit 1 =
      omega (arith, length-map kept (reread w), length-drop {0} k t.entries) in
    read_all w kept (new limit) (AllCommands-drop k t.entries p)
    ∙ ap (λ u. (mark_saved u, true)) (trim_nothing s room)
