-- ===== src/Edit/Kill.antt =====
-- Operations of the line buffer that cut a range out and return its text
-- (crates/lineedit/src/buffer.rs).
use cherubsh.Base.{
  ℕ, ◌+◌, min, max, Option, some, [], ◌>>=◌, leb, ◌==◌, if◌then◌else◌, length, take, slice, drain,
  splice,
}
use cherubsh.Edit.{Text, EditBuffer, snapshot}
use cherubsh.Edit.Words.{Unicode, move_word_left, move_word_right}

unfoldable pub kill_to_end : EditBuffer → Option (EditBuffer × Text)
kill_to_end b = do
  let s = snapshot b
  tail ← slice s.point (length s.chars) s.chars
  some (record s { chars = take s.point s.chars }, tail)

unfoldable pub kill_to_beginning : EditBuffer → Option (EditBuffer × Text)
kill_to_beginning b = do
  let s = snapshot b
  head ← slice 0 s.point s.chars
  chars ← drain 0 s.point s.chars
  some (record s { chars = chars; point = 0 }, head)

-- `chars[start..end]` out, with the point where `b` has it
unfoldable pub cut : ℕ → ℕ → EditBuffer → Option (EditBuffer × Text)
cut start end b = do
  let s = snapshot b
  killed ← slice start end s.chars
  chars ← drain start end s.chars
  some (record s { chars = chars }, killed)

unfoldable pub kill_range : ℕ → ℕ → EditBuffer → Option (EditBuffer × Text)
unfolding cut
kill_range left right b =
    let l = min left (length b.chars) in
    let r = min right (length b.chars) in
    let start = if leb l r then l else r in
    let end = if leb l r then r else l in
    if start == end
    then some (b, [])
    else do (s, killed) ← cut start end b; some (record s { point = start }, killed)

unfoldable pub replace_char_range : ℕ → ℕ → Text → EditBuffer → Option EditBuffer
replace_char_range from to value b = do
  let start = min from (length b.chars)
  let end = max (min to (length b.chars)) start
  let s = snapshot b
  chars ← splice start end value s.chars
  some (record s { chars = chars; point = start + length value })

module _ (u : Unicode) where
  unfoldable pub backward_kill_word : EditBuffer → Option (EditBuffer × Text)
  unfolding cut
  backward_kill_word b = do moved ← move_word_left u b; cut moved.point b.point moved

  unfoldable pub forward_kill_word : EditBuffer → Option (EditBuffer × Text)
  unfolding cut
  forward_kill_word b = let end = (move_word_right u b).point in cut b.point end b
