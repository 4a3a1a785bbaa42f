-- ===== src/Edit/Session.antt =====
-- Whole editing sessions: the operations of the line buffer (crates/lineedit/src/buffer.rs), one after
-- the other.
use cherubsh.Base.{
  ℕ, ℤ, ◌+◌, ◌≤◌, ◌<◌, max, take, Option, none, some, List, [], ◌∷◌, ◌>>=◌, arith, length,
}
use cherubsh.Edit.{
  Text, EditBuffer, undo, clear, insert, insert_str, break_undo_group, delete_forward,
  backward_delete, move_left, move_right, move_home, move_end, set_byte_point, set_char_point,
  move_visual_line, replace_all, replace_all_at_byte, usize_mod, byte_len,
}
use cherubsh.Edit.Words.{Unicode, move_word_left, move_word_right}
use cherubsh.Edit.Kill.{
  kill_to_end, kill_to_beginning, kill_range, backward_kill_word, forward_kill_word,
  replace_char_range,
}
use cherubsh.Edit.Transform.{
  transpose_chars, transpose_words, upcase_word, downcase_word, capitalize_word,
}
use cherubsh.Edit.Complete.{
  Completion, CompletionApplication, replace_completion, apply_completion_result,
}
use cherubsh.Edit.Valid.{IsValid, Safe}
use cherubsh.Edit.Valid.Basic.{
  undo-IsValid, clear-IsValid, insert-IsValid, insert_str-IsValid, delete_forward-IsValid,
  backward_delete-IsValid, move_left-IsValid, move_right-IsValid, move_to-IsValid,
  set_byte_point-IsValid, set_char_point-IsValid, move_visual_line-IsValid, replace_all-IsValid,
  replace_all_at_byte-IsValid,
}
use cherubsh.Edit.Valid.Words.{move_word_left-IsValid, move_word_right-IsValid}
use cherubsh.Edit.Valid.Kill.{
  CutsFrom, kill_to_end-CutsFrom, kill_to_beginning-CutsFrom, kill_range-CutsFrom,
  backward_kill_word-CutsFrom, forward_kill_word-CutsFrom, replace_char_range-IsValid,
}
use cherubsh.Edit.Valid.Transform.{transpose_chars-IsValid, transpose_words-IsValid}
use cherubsh.Edit.Valid.Case.{upcase_word-IsValid, downcase_word-IsValid, capitalize_word-IsValid}
use cherubsh.Edit.Valid.Complete.{
  CompletesWord, apply_completion_result-CompletesWord, replace_completion-IsValid,
}

-- The public methods of `EditBuffer`; `apply_completion` does to the buffer what
-- `apply_completion_result` does, which is `complete` here.
pub data Operation : Type 0 where
  undo_op clear_op break_group delete_op backspace left right home end : Operation
  insert_char to_char to_byte : ℕ → Operation
  insert_text replace_line : Text → Operation
  visual : ℕ → ℤ → Operation
  replace_line_at : Text → ℕ → Operation
  word_left word_right : Operation
  kill_end kill_home kill_word_left kill_word_right : Operation
  kill_between : ℕ → ℕ → Operation
  replace_between : ℕ → ℕ → Text → Operation
  swap_chars swap_words upcase downcase capitalize_op : Operation
  choose_candidate : Completion → Text → Operation
  complete : Completion → Operation

-- Where an operation does not panic: a completion needs a word that starts at or before the point, and
-- a motion by lines of the screen a point that a width further on still fits a `usize`. The others do
-- not ask for anything.
abbrev pub Allowed : Operation → EditBuffer → Type 0
Allowed (visual w d) b = b.point + max w 1 < usize_mod
Allowed (complete c) b = c.replace_start ≤ byte_len (take b.point b.chars)
Allowed _ b = Unit

-- a completion, with what it tells left to the editor
abbrev pub completed : Option (EditBuffer × CompletionApplication) → Option EditBuffer
completed none = none
completed (some (b, result)) = some b

CompletesWord-Safe :
    (b : EditBuffer) (start : ℕ) (m : Option (EditBuffer × CompletionApplication))
    → CompletesWord b start m
    → Safe (completed m)
CompletesWord-Safe b start none h = h
CompletesWord-Safe b start (some (b', result)) h = h.0

-- A kill, with its text left to the kill ring.
abbrev pub buffer_of : Option (EditBuffer × Text) → Option EditBuffer
buffer_of none = none
buffer_of (some (b, killed)) = some b

CutsFrom-Safe :
    (b : EditBuffer) (m : Option (EditBuffer × Text)) → CutsFrom b m → Safe (buffer_of m)
CutsFrom-Safe b none h = h
CutsFrom-Safe b (some (b', killed)) (v, _) = v

module _ (u : Unicode) where
  unfoldable pub perform : Operation → EditBuffer → Option EditBuffer
  perform undo_op b = some (undo b)
  perform clear_op b = some (clear b)
  perform break_group b = some (break_undo_group b)
  perform delete_op b = delete_forward b
  perform backspace b = backward_delete b
  perform left b = some (move_left b)
  perform right b = some (move_right b)
  perform home b = some (move_home b)
  perform end b = some (move_end b)
  perform (insert_char c) b = insert c b
  perform (to_char p) b = some (set_char_point p b)
  perform (to_byte p) b = some (set_byte_point p b)
  perform (insert_text s) b = insert_str s b
  perform (replace_line s) b = some (replace_all s b)
  perform (visual w d) b = move_visual_line w d b
  perform (replace_line_at s p) b = some (replace_all_at_byte s p b)
  perform word_left b = move_word_left u b
  perform word_right b = some (move_word_right u b)
  perform kill_end b = buffer_of (kill_to_end b)
  perform kill_home b = buffer_of (kill_to_beginning b)
  perform kill_word_left b = buffer_of (backward_kill_word u b)
  perform kill_word_right b = buffer_of (forward_kill_word u b)
  perform (kill_between l r) b = buffer_of (kill_range l r b)
  perform (replace_between l r s) b = replace_char_range l r s b
  perform swap_chars b = transpose_chars b
  perform swap_words b = transpose_words u b
  perform upcase b = some (upcase_word u b)
  perform downcase b = some (downcase_word u b)
  perform capitalize_op b = some (capitalize_word u b)
  perform (choose_candidate c s) b = replace_completion c s b
  perform (complete c) b = completed (apply_completion_result c b)

  -- Every allowed operation succeeds on a valid buffer and leaves a valid buffer.
  pub perform-IsValid :
      (op : Operation) (b : EditBuffer) → IsValid b → Allowed op b → Safe (perform op b)
  unfolding perform break_undo_group move_home move_end
  perform-IsValid undo_op b v h = undo-IsValid b v
  perform-IsValid clear_op b v h = clear-IsValid b v
  perform-IsValid break_group b v h = ground arith
  perform-IsValid delete_op b v h = delete_forward-IsValid b v
  perform-IsValid backspace b v h = backward_delete-IsValid b v
  perform-IsValid left b v h = move_left-IsValid b v
  perform-IsValid right b v h = move_right-IsValid b v
  perform-IsValid home b v h = move_to-IsValid 0 b (omega arith) v
  perform-IsValid end b v h = move_to-IsValid (length b.chars) b (omega arith) v
  perform-IsValid (insert_char c) b v h = insert-IsValid c b v
  perform-IsValid (to_char p) b v h = set_char_point-IsValid p b v
  perform-IsValid (to_byte p) b v h = set_byte_point-IsValid p b v
  perform-IsValid (insert_text s) b v h = insert_str-IsValid s b v
  perform-IsValid (replace_line s) b v h = replace_all-IsValid s b v
  perform-IsValid (visual w d) b v h = move_visual_line-IsValid w d b v h
  perform-IsValid (replace_line_at s p) b v h = replace_all_at_byte-IsValid s p b v
  perform-IsValid word_left b v h = move_word_left-IsValid u b v
  perform-IsValid word_right b v h = move_word_right-IsValid u b v
  perform-IsValid kill_end b v h = CutsFrom-Safe b (kill_to_end b) (kill_to_end-CutsFrom b v)
  perform-IsValid kill_home b v h =
      CutsFrom-Safe b (kill_to_beginning b) (kill_to_beginning-CutsFrom b v)
  perform-IsValid kill_word_left b v h =
      CutsFrom-Safe b (backward_kill_word u b) (backward_kill_word-CutsFrom u b v)
  perform-IsValid kill_word_right b v h =
      CutsFrom-Safe b (forward_kill_word u b) (forward_kill_word-CutsFrom u b v)
  perform-IsValid (kill_between l r) b v h =
      CutsFrom-Safe b (kill_range l r b) (kill_range-CutsFrom l r b v)
  perform-IsValid (replace_between l r s) b v h = replace_char_range-IsValid l r s b v
  perform-IsValid swap_chars b v h = transpose_chars-IsValid b v
  perform-IsValid swap_words b v h = transpose_words-IsValid u b v
  perform-IsValid upcase b v h = upcase_word-IsValid u b v
  perform-IsValid downcase b v h = downcase_word-IsValid u b v
  perform-IsValid capitalize_op b v h = capitalize_word-IsValid u b v
  perform-IsValid (choose_candidate c s) b v h = replace_completion-IsValid c s b v
  perform-IsValid (complete c) b v h =
      CompletesWord-Safe b _ (apply_completion_result c b)
        (apply_completion_result-CompletesWord c b v h)

  unfoldable pub run : List Operation → EditBuffer → Option EditBuffer
  run [] b = some b
  run (op ∷ rest) b = do b' ← perform op b; run rest b'

  -- every operation is allowed where it is performed
  abbrev pub AllAllowed : List Operation → Option EditBuffer → Type 0
  AllAllowed [] m = Unit
  AllAllowed (op ∷ rest) none = Unit
  AllAllowed (op ∷ rest) (some b) = Allowed op b × AllAllowed rest (perform op b)

  -- Any sequence of buffer operations on a valid buffer, in any order, in which each completion has a
  -- word that starts at or before the point and each motion by lines of the screen leaves the point
  -- and the width together below 2 ^ 64, runs to its end without a panic, and leaves a buffer whose
  -- point is inside the text, whose snapshots are well formed, and which holds at most 128 of them.
  pub run-IsValid :
      (ops : List Operation) (b : EditBuffer)
      → IsValid b
      → AllAllowed ops (some b)
      → Safe (run ops b)
  unfolding run
  run-IsValid [] b v h = v
  run-IsValid (op ∷ rest) b v h =
      go_on (perform op b) (perform-IsValid op b v h.0) h.1 (run-IsValid rest)
    where
      go_on :
          (m : Option EditBuffer)
          → Safe m
          → AllAllowed rest m
          → ((b' : EditBuffer) → IsValid b' → AllAllowed rest (some b') → Safe (run rest b'))
          → Safe (m >>= run rest)
      go_on none s a later = s
      go_on (some b') s a later = later b' s a
