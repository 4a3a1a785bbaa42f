-- ===== src/Edit/Transform.antt =====
-- Transposition and change of case in the line buffer (crates/lineedit/src/buffer.rs).
use cherubsh.Base.{
  ℕ, suc, ◌+◌, ◌-◌, max, Bool, true, false, Option, none, some, List, [], ◌∷◌, ◌++◌, ◌>>=◌, ltb,
  leb, ◌==◌, ◌&&◌, ◌||◌, if◌then◌else◌, length, take, drop, get_elem?, slice, splice, map,
}
use cherubsh.Edit.{Text, EditBuffer, snapshot}
use cherubsh.Edit.Words.{Unicode, move_word_right, word_ranges}

-- `Vec::swap(i, j)` for `i < j`
unfoldable pub swap_at : ℕ → ℕ → Text → Option Text
swap_at i j xs = do
  a ← get_elem? xs i
  b ← get_elem? xs j
  some (take i xs ++ b ∷ drop (i + 1) (take j xs) ++ a ∷ drop (j + 1) xs)

unfoldable pub transpose_chars : EditBuffer → Option EditBuffer
transpose_chars b =
    let len = length b.chars in
    let idx = if leb len b.point then len - 1 else max b.point 1 in
    if ltb len 2 then some b else if idx == 0 then some b else do
      let s = snapshot b
      chars ← swap_at (idx - 1) idx s.chars
      let t = record s { chars = chars }
      some (if ltb t.point (length t.chars) then record t { point = t.point + 1 } else t)

-- `ranges.iter().position(…)`
abbrev pub position {ℓ} : {A : Type ℓ} → (A → Bool) → List A → Option ℕ
position test [] = none
position test (x ∷ xs) =
    let later = (do i ← position test xs; some (suc i)) in if test x then some 0 else later

abbrev pub or_else {ℓ} : {A : Type ℓ} → Option A → Option A → Option A
or_else none y = y
or_else (some x) y = some x

abbrev pub unwrap_or {ℓ} : {A : Type ℓ} → Option A → A → A
unwrap_or none y = y
unwrap_or (some x) y = x

unfoldable pub right_word : ℕ → List (ℕ × ℕ) → ℕ
right_word point ranges =
    unwrap_or
      (or_else (position (λ r. leb r.0 point && leb point r.1) ranges)
        (position (λ r. ltb point r.0) ranges))
      (length ranges - 1)

-- the body of `transpose_words` once two neighbouring ranges are chosen
unfoldable pub exchange : (ℕ × ℕ) → (ℕ × ℕ) → EditBuffer → Option EditBuffer
exchange (left_start, left_end) (right_start, right_end) b = do
  left ← slice left_start left_end b.chars
  middle ← slice left_end right_start b.chars
  right ← slice right_start right_end b.chars
  let s = snapshot b
  chars ← splice left_start right_end (right ++ middle ++ left) s.chars
  some (record s { chars = chars; point = right_end })

abbrev pub to_ascii_uppercase : ℕ → ℕ
to_ascii_uppercase c = if leb b'a' c && leb c b'z' then c - 32 else c

abbrev pub to_ascii_lowercase : ℕ → ℕ
to_ascii_lowercase c = if leb b'A' c && leb c b'Z' then c + 32 else c

-- A loop that writes `chars[i]` for `i` in `start..end`: the characters between are replaced.
abbrev pub rewrite_between : ℕ → ℕ → (Text → Text) → Text → Text
rewrite_between start end f chars =
    take start chars ++ f (drop start (take end chars)) ++ drop end chars

module _ (u : Unicode) where
  unfoldable pub transpose_words : EditBuffer → Option EditBuffer
  unfolding exchange right_word
  transpose_words b = do
    ranges ← word_ranges u b.chars
    let right_index = right_word b.point ranges
    if ltb (length ranges) 2 || right_index == 0 then some b else (do
      left ← get_elem? ranges (right_index - 1)
      right ← get_elem? ranges right_index
      exchange left right b)

  -- The snapshot is taken after the point has moved over the word.
  unfoldable pub case_map_word : (Text → Text) → EditBuffer → EditBuffer
  case_map_word f b =
      let s = snapshot (move_word_right u b) in
      record s { chars = rewrite_between b.point s.point f s.chars }

  unfoldable pub upcase_word : EditBuffer → EditBuffer
  unfolding case_map_word
  upcase_word = case_map_word (map to_ascii_uppercase)

  unfoldable pub downcase_word : EditBuffer → EditBuffer
  unfolding case_map_word
  downcase_word = case_map_word (map to_ascii_lowercase)

  -- the loop of `capitalize_word`
  unfoldable pub capitalize : Bool → Text → Text
  capitalize seen_alpha [] = []
  capitalize seen_alpha (c ∷ cs) =
      if u.is_alphabetic c
      then (if seen_alpha then to_ascii_lowercase c else to_ascii_uppercase c) ∷ capitalize true cs
      else c ∷ capitalize false cs

  unfoldable pub capitalize_word : EditBuffer → EditBuffer
  unfolding case_map_word capitalize
  capitalize_word = case_map_word (capitalize false)
