-- ===== src/Edit/Complete.antt =====
-- Completion in the line buffer (crates/lineedit/src/buffer.rs), with the `Completion` of
-- crates/lineedit/src/lib.rs.
use cherubsh.Base.{
  text_eq, ℕ, zero, suc, ◌+◌, ◌-◌, min, Bool, false, not, ◌||◌, ◌&&◌, Option, none, some, List, [],
  ◌∷◌, ◌++◌, ◌>>=◌, ltb, ◌==◌, if◌then◌else◌, length, slice, get_last?,
}
use cherubsh.Edit.{Text, EditBuffer, snapshot, put, insert, len_utf8, byte_len, char_index_for_byte}
use cherubsh.Edit.Kill.{replace_char_range}

pub record Completion : Type 0 where
  pub matches : List Text
  pub replace_start : ℕ
  pub suppress_append : Bool
  pub append_character : Option ℕ
  pub filenames : Bool

pub data CompletionApplication : Type 0 where
  no_matches : CompletionApplication
  unique ambiguous : Bool → CompletionApplication

-- `first[..end]` on bytes: a panic inside a character, or past the end
abbrev pub byte_prefix : ℕ → Text → Option Text
byte_prefix zero s = some []
byte_prefix (suc n) [] = none
byte_prefix (suc n) (c ∷ cs) = do
  rest ← byte_prefix (suc n - len_utf8 c) cs
  if ltb (suc n) (len_utf8 c) then none else some (c ∷ rest)

-- the inner loop of `common_prefix`: the bytes on which two texts agree
unfoldable pub agreeing_bytes : Text → Text → ℕ
agreeing_bytes [] t = 0
agreeing_bytes (a ∷ s) [] = 0
agreeing_bytes (a ∷ s) (b ∷ t) = if a == b then len_utf8 a + agreeing_bytes s t else 0

-- the outer loop
unfoldable pub shrink_prefix : Text → ℕ → List Text → ℕ
shrink_prefix first end [] = end
shrink_prefix first end (s ∷ rest) =
    let new_end = min end (agreeing_bytes first s) in
    let later = shrink_prefix first new_end rest in if new_end == 0 then new_end else later

unfoldable pub common_prefix : List Text → Option Text
unfolding agreeing_bytes shrink_prefix
common_prefix [] = some []
common_prefix (first ∷ others) = byte_prefix (shrink_prefix first (byte_len first) others) first

abbrev pub ends_with_slash : Text → Bool
ends_with_slash s = elim (get_last? s) [ none ↦ false | some c ↦ c == b'/' ]

-- `if let Some(ch) = append_character { … }`
abbrev pub append_with :
    (ℕ → EditBuffer → Option EditBuffer) → Option ℕ → EditBuffer → Option EditBuffer
append_with add none b = some b
append_with add (some ch) b = add ch b

-- what is written for the word, if the completion changes anything
unfoldable pub choose : List Text → Text → Option (Option Text)
unfolding common_prefix
choose matches cur_word = do
  common ← common_prefix matches
  some (elim matches [
    | m ∷ [] ↦ some m
    | _ ↦ if ltb (length cur_word) (length common) then some common else none
  ])

-- the writing half of `apply_completion_result`
unfoldable pub rebuild : Completion → ℕ → Text → EditBuffer → Option EditBuffer
rebuild completion word_start chosen b = do
  let s = snapshot b
  head ← slice 0 word_start s.chars
  tail ← slice s.point (length s.chars) s.chars
  let t = record s { chars = head ++ chosen ++ tail; point = word_start + length chosen }
  let closing = length completion.matches == 1 && not completion.suppress_append
  if closing && not (completion.filenames && ends_with_slash chosen)
      then append_with put completion.append_character t
      else some t

-- `none` leaves the buffer alone: the candidates agree on no more than what is there.
unfoldable pub write_choice :
    Completion → ℕ → Option Text → EditBuffer → Option (EditBuffer × CompletionApplication)
unfolding rebuild
write_choice completion word_start none b = some (b, ambiguous false)
write_choice completion word_start (some chosen) b = do
  t ← rebuild completion word_start chosen b
  let changed = not (text_eq t.chars b.chars)
  some (t, if length completion.matches == 1 then unique changed else ambiguous changed)

unfoldable pub apply_completion_result :
    Completion → EditBuffer → Option (EditBuffer × CompletionApplication)
unfolding choose write_choice
apply_completion_result completion b =
    if length completion.matches == 0 then some (b, no_matches) else (do
      let word_start = char_index_for_byte completion.replace_start b
      cur_word ← slice word_start b.point b.chars
      chosen ← choose completion.matches cur_word
      write_choice completion word_start chosen b)

unfoldable pub replace_completion : Completion → Text → EditBuffer → Option EditBuffer
replace_completion completion chosen b = do
  let start = char_index_for_byte completion.replace_start b
  s ← replace_char_range start b.point chosen b
  if completion.suppress_append || completion.filenames && ends_with_slash chosen
      then some s
      else append_with insert completion.append_character s
