-- ===== src/Edit/Tests.antt =====
-- Runs of the line buffer and of the kill ring, and the theorems at concrete inputs
-- (crates/lineedit/src/buffer.rs, crates/lineedit/src/killring.rs).
use cherubsh.Base.{
  ◌≡◌, refl, ℕ, ◌≤◌, true, false, ◌&&◌, ◌||◌, none, some, List, [], ◌∷◌, arith, take, codes, leb,
  negsuc, Text,
}
use cherubsh.Edit.{
  put_all, put, snapshot_insert, set_byte_point, insert, EditBuffer, insert_str, undo, snapshot,
  char_index_for_byte, move_visual_line,
}
use cherubsh.Edit.Words.{Unicode, word_ranges, skip_right}
use cherubsh.Edit.Kill.{kill_range}
use cherubsh.Edit.Transform.{transpose_words}
use cherubsh.Edit.Complete.{Completion, common_prefix, apply_completion_result, ambiguous}
use cherubsh.Edit.Ring.{KillRing, push, IsRing, Holds, push-Holds}
use cherubsh.Edit.Valid.{IsValid, Safe}
use cherubsh.Edit.Valid.Kill.{put_back}
use cherubsh.Edit.Valid.Words.{Ranges, word_ranges_total}
use cherubsh.Edit.Valid.Prefix.{AllAgree, common_prefix_longest}
use cherubsh.Edit.Valid.Complete.{CompletesWord, apply_completion_result-CompletesWord}
use cherubsh.Edit.Undo.{SamePlace, type_all, undo-type_all, insert_str-kill_range}
use cherubsh.Edit.Session.{
  run, run-IsValid, insert_text, to_byte, insert_char, swap_words, undo_op, visual, complete,
  Operation, AllAllowed, perform,
}

-- ASCII stands for the tables of Unicode.
abbrev ascii : Unicode
ascii = record {
  is_alphanumeric =
      λ c. leb b'a' c && leb c b'z' || leb b'A' c && leb c b'Z' || leb b'0' c && leb c b'9';
  is_alphabetic = λ c. leb b'a' c && leb c b'z' || leb b'A' c && leb c b'Z';
}

abbrev line : Text → ℕ → EditBuffer
line s p = record { chars = s; point = p; undo_stack = []; coalescing_insert = false }

abbrev two_words : EditBuffer
two_words = line (codes "one two") 5

two_words-IsValid : IsValid two_words
two_words-IsValid = record {
  point_fits = omega arith;
  stack_fits = tt;
  stack_bounded = omega arith;
}

insert_str-kill_range_example :
    (b' : EditBuffer) × (killed : Text) × (b'' : EditBuffer) × (kill_range 6 1 two_words
      ≡ some (b', killed))
    × (insert_str killed b' ≡ some b'')
    × (b''.chars ≡ codes "one two")
insert_str-kill_range_example = insert_str-kill_range 6 1 two_words two_words-IsValid

undo-type_all_example :
    (b' : EditBuffer) × (type_all (codes "abc") two_words ≡ some b')
    × (b'.chars ≡ put_back two_words (codes "abc"))
    × SamePlace two_words (undo b')
undo-type_all_example = undo-type_all b'a' (codes "bc") two_words two_words-IsValid refl

common_prefix_longest_example :
    (n : ℕ) × (common_prefix (codes "source" ∷ codes "sort" ∷ []) ≡ some (take n (codes "source")))
    × (n ≤ 6)
    × AllAgree n (codes "source") (codes "sort" ∷ [])
    × ((m : ℕ) → m ≤ 6 → AllAgree m (codes "source") (codes "sort" ∷ []) → m ≤ n)
common_prefix_longest_example = common_prefix_longest (codes "source") (codes "sort" ∷ [])

abbrev sources : Completion
sources = record {
  matches = codes "source" ∷ codes "sort" ∷ [];
  replace_start = 0;
  suppress_append = false;
  append_character = none;
  filenames = false;
}

abbrev one_s : EditBuffer
one_s = line (codes "s") 1

one_s-IsValid : IsValid one_s
one_s-IsValid = record { point_fits = omega arith; stack_fits = tt; stack_bounded = omega arith }

apply_completion_result_example :
    CompletesWord one_s (char_index_for_byte 0 one_s) (apply_completion_result sources one_s)
apply_completion_result_example =
    apply_completion_result-CompletesWord sources one_s one_s-IsValid (omega arith)

-- a word is completed, and then edited
abbrev edits : List Operation
edits =
    complete sources
    ∷ visual 80 (negsuc 0)
    ∷ insert_text (codes "one two")
    ∷ to_byte 1
    ∷ swap_words
    ∷ insert_char 233
    ∷ undo_op
    ∷ []

edits-AllAllowed : AllAllowed ascii edits (some one_s)
unfolding perform apply_completion_result char_index_for_byte snapshot move_visual_line insert_str
    put_all put snapshot_insert set_byte_point transpose_words word_ranges skip_right insert
edits-AllAllowed = (omega arith, (omega arith, (tt, (tt, (tt, (tt, (tt, tt)))))))

run-IsValid_example : Safe (run ascii edits one_s)
run-IsValid_example = run-IsValid ascii edits one_s one_s-IsValid edits-AllAllowed

word_ranges_total_example :
    (rs : List (ℕ × ℕ)) × (word_ranges ascii (codes "a bc") ≡ some rs) × Ranges 0 4 rs
word_ranges_total_example = word_ranges_total ascii (codes "a bc")

-- The unit tests of the source.
completion_extends :
    (apply_completion_result sources one_s)
    ≡ some (
      record {
        chars = codes "so";
        point = 2;
        undo_stack = (codes "s", 1) ∷ [];
        coalescing_insert = false;
      },
      ambiguous true,
    )
unfolding apply_completion_result char_index_for_byte snapshot
completion_extends = refl

words_swapped :
    transpose_words ascii two_words
    ≡ some (record {
      chars = codes "two one";
      point = 7;
      undo_stack = (codes "one two", 5) ∷ [];
      coalescing_insert = false;
    })
unfolding transpose_words word_ranges snapshot skip_right
words_swapped = refl

-- The kill ring.
abbrev one_kill : KillRing
one_kill = record { entries = codes "middle" ∷ []; head = 0; capacity = 8 }

one_kill-IsRing : IsRing one_kill
one_kill-IsRing = ground arith

push-Holds_example : Holds (codes "word") (push (codes "word") one_kill)
push-Holds_example = push-Holds (codes "word") one_kill one_kill-IsRing (omega arith)
