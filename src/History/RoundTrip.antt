-- ===== src/History/RoundTrip.antt =====
-- What `load_physical_lines_from` reads of a file that `write_to` wrote (crates/common/src/history.rs).
use cherubsh.Base.{
  ◌≡◌, refl, ◌∙◌, ap, ℕ, zero, suc, ◌-◌, ◌^◌, ◌≤◌, inl, inr, Bool, true, false, ◌||◌, Option, none,
  some, List, [], ◌∷◌, ◌++◌, map, append_assoc, append-nil, arith, Text, length, drop, length-map,
  length-drop, if◌then◌else◌, ◌==◌, Bool-cases, lines, max, all, is_ascii_digit, to_string_digits,
  to_string_head, lines_from, strip_cr, to_string, parse_unsigned-to_string,
}
use cherubsh.History.{HistoryEntry, HistoryTable, entry_of, mark_saved, new}
use cherubsh.History.Trims.{trim_nothing}
use cherubsh.History.Files.{
  comment_timestamp, push_loaded, finish_load, physical_from, load_physical_lines_from, opened,
  written_timestamp, write_entry, write_entries, write_to,
}

-- a text in one line
abbrev pub one_line : Text → Bool
one_line [] = true
one_line (c ∷ s) = if c == 10 then false else one_line s

-- The entry's line is one line of a file, and does not read as a timestamp; its timestamp is a `u64`.
pub record IsPlain (e : HistoryEntry) : Type 0 where
  pub single : one_line e.line ≡ true
  pub no_return : strip_cr e.line ≡ e.line
  pub no_comment : comment_timestamp e.line ≡ none
  pub in_range : (ts : ℕ) → e.timestamp ≡ some ts → ts ≤ 2 ^ 64 - 1

abbrev pub AllPlain : List HistoryEntry → Type 0
AllPlain [] = Unit
AllPlain (e ∷ es) = IsPlain e × AllPlain es

lines_from_line :
    (open_line line rest : Text)
    → one_line line ≡ true
    → lines_from open_line (line ++ 10 ∷ rest) ≡ strip_cr (open_line ++ line) ∷ lines_from [] rest
unfolding lines_from
lines_from_line open_line [] rest h = rw (append-nil {0} open_line) refl
lines_from_line open_line (c ∷ line) rest h = elim (Bool-cases (c == 10)) [
  | inl e ↦ absurd (ground arith)
  | inr e ↦
      let h : one_line line ≡ true = ground arith in
      rw e (
        lines_from_line (open_line ++ c ∷ []) line rest h
        ∙ ap (λ s. strip_cr s ∷ lines_from [] rest) (append_assoc {0} open_line (c ∷ []) line))
]

pub lines_from_text :
    (line rest : Text)
    → one_line line ≡ true
    → strip_cr line ≡ line
    → lines (line ++ 10 ∷ rest) ≡ line ∷ lines rest
unfolding lines
lines_from_text line rest h k = rw (lines_from_line [] line rest h, k) refl

digits_one_line : (s : Text) → all is_ascii_digit s ≡ true → one_line s ≡ true
digits_one_line [] h = refl
digits_one_line (c ∷ s) h =
    let other : (c == 10) ≡ false = ground arith in rw other (digits_one_line s (ground arith))

digits_no_return : (s : Text) → all is_ascii_digit s ≡ true → strip_cr s ≡ s
digits_no_return [] h = refl
digits_no_return (c ∷ []) h = let other : (c == 13) ≡ false = ground arith in rw other refl
digits_no_return (c ∷ d ∷ s) h = ap (c ∷◌) (digits_no_return (d ∷ s) (ground arith))

-- the comment of a timestamp, and what it reads as
abbrev pub stamp : ℕ → Text
stamp ts = b'#' ∷ to_string ts

pub lines-stamp : (ts : ℕ) (rest : Text) → lines (stamp ts ++ 10 ∷ rest) ≡ stamp ts ∷ lines rest
lines-stamp ts rest =
    let (c, cs, e, d) = to_string_head ts in
    let digits : all is_ascii_digit (c ∷ cs) ≡ true = rw e at (to_string_digits ts) in
    rw e (
      lines_from_text (b'#' ∷ c ∷ cs) rest (digits_one_line (c ∷ cs) digits)
        (ap (b'#' ∷◌) (digits_no_return (c ∷ cs) digits)))

pub stamp_comment : (ts : ℕ) → ts ≤ 2 ^ 64 - 1 → comment_timestamp (stamp ts) ≡ some ts
stamp_comment ts h = parse_unsigned-to_string (2 ^ 64 - 1) ts h

-- the timestamp that is written with an entry
abbrev pub saved_timestamp : Bool → HistoryEntry → Option ℕ
saved_timestamp with_timestamps e =
    if with_timestamps || e.timestamp_from_file then e.timestamp else none

-- the entry as it is read back
abbrev pub reread : Bool → HistoryEntry → HistoryEntry
reread with_timestamps e = entry_of e.line (saved_timestamp with_timestamps e) true

abbrev read_text : Option ℕ → Text → HistoryTable → HistoryTable × Bool
read_text pending text t = physical_from pending (map some (lines text)) t

plain_step :
    (line : Text) (pending : Option ℕ) (reader : List (Option Text)) (t : HistoryTable)
    → comment_timestamp line ≡ none
    → physical_from pending (some line ∷ reader) t
      ≡ physical_from none reader (push_loaded line pending t)
unfolding physical_from
plain_step line pending reader t h = rw h refl

comment_step :
    (line : Text) (ts : ℕ) (pending : Option ℕ) (reader : List (Option Text)) (t : HistoryTable)
    → comment_timestamp line ≡ some ts
    → physical_from pending (some line ∷ reader) t ≡ physical_from (some ts) reader t
unfolding physical_from
comment_step line ts pending reader t h = rw h refl

read_line :
    (e : HistoryEntry) (pending : Option ℕ) (rest : Text) (t : HistoryTable)
    → IsPlain e
    → read_text pending (e.line ++ 10 ∷ rest) t ≡ read_text none rest (push_loaded e.line pending t)
read_line e pending rest t p =
    rw (lines_from_text e.line rest p.single p.no_return)
      (plain_step e.line pending (map some (lines rest)) t p.no_comment)

read_saved :
    (e : HistoryEntry) (ts : Option ℕ) (rest : Text) (t : HistoryTable)
    → IsPlain e
    → ((n : ℕ) → ts ≡ some n → n ≤ 2 ^ 64 - 1)
    → read_text none (written_timestamp ts ++ (e.line ++ 10 ∷ rest)) t
      ≡ read_text none rest (push_loaded e.line ts t)
read_saved e none rest t p h = read_line e none rest t p
read_saved e (some ts) rest t p h =
    let after = e.line ++ 10 ∷ rest in
    ap (λ s. read_text none s t) (append_assoc {0} (stamp ts) (10 ∷ []) after)
    ∙ ap (λ ls. physical_from none (map some ls) t) (lines-stamp ts after)
    ∙ comment_step (stamp ts) ts none (map some (lines after)) t (stamp_comment ts (h ts refl))
    ∙ read_line e (some ts) rest t p

read_entry :
    (w : Bool) (e : HistoryEntry) (rest : Text) (t : HistoryTable)
    → IsPlain e
    → read_text none (write_entry w e ++ rest) t
      ≡ read_text none rest (push_loaded e.line (saved_timestamp w e) t)
unfolding write_entry
read_entry w e rest t p = elim (Bool-cases (w || e.timestamp_from_file)) [
  | inl h ↦
      rw
        (
          h,
          append_assoc {0} (written_timestamp e.timestamp ++ e.line) (10 ∷ []) rest,
          append_assoc {0} (written_timestamp e.timestamp) e.line (10 ∷ rest),
        )
        (read_saved e e.timestamp rest t p p.in_range)
  | inr h ↦ rw (h, append_assoc {0} e.line (10 ∷ []) rest) (read_line e none rest t p)
]

read_entries :
    (w : Bool) (es : List HistoryEntry) (t : HistoryTable)
    → AllPlain es
    → read_text none (write_entries w es) t
      ≡ (finish_load (record t { entries = t.entries ++ map (reread w) es }), true)
unfolding write_entries physical_from lines
read_entries w [] t p = rw (append-nil {0} t.entries) refl
read_entries w (e ∷ es) t p =
    read_entry w e (write_entries w es) t p.0
    ∙ read_entries w es (push_loaded e.line (saved_timestamp w e) t) p.1
    ∙ rw (append_assoc {0} t.entries (reread w e ∷ []) (map (reread w) es)) refl

AllPlain-drop : (k : ℕ) (es : List HistoryEntry) → AllPlain es → AllPlain (drop k es)
AllPlain-drop zero es p = p
AllPlain-drop (suc k) [] p = p
AllPlain-drop (suc k) (e ∷ es) p = AllPlain-drop k es p.1

-- the entries that are read back of a file with room for `max_size`
abbrev pub reread_entries : Bool → ℕ → HistoryTable → List HistoryEntry
reread_entries w max_size t = map (reread w) (drop (length t.entries - max_size) t.entries)

-- When every entry is one line that neither ends in a carriage return nor reads as a timestamp
-- comment, and the timestamps are 64-bit: a new table whose limit is at least `max_size`
-- and that reads, as physical lines, the history file that was written with `max_size` holds the newest `max_size` entries in order, each with its line and the timestamp that was
-- written with it, and counts all of them as saved.
pub load_physical_lines_from-write_to :
    (w : Bool) (max_size limit : ℕ) (t : HistoryTable)
    → AllPlain t.entries
    → max_size ≤ limit
    → load_physical_lines_from (opened (map some (lines (write_to max_size w t)))) (new limit) ≡ (
      record {
        entries = reread_entries w max_size t;
        max_entries = max limit 1;
        base = 0;
        new_since_save = length (reread_entries w max_size t);
      },
      true,
    )
unfolding load_physical_lines_from write_to new mark_saved
load_physical_lines_from-write_to w max_size limit t p h =
    let k = length t.entries - max_size in
    let kept = drop k t.entries in
    let s = record (new limit) { entries = map (reread w) kept } in
    let room : length s.entries ≤ max limit 1 =
      omega (arith, length-map kept (reread w), length-drop {0} k t.entries) in
    read_entries w kept (new limit) (AllPlain-drop k t.entries p)
    ∙ ap (λ u. (mark_saved u, true)) (trim_nothing s room)
