-- ===== src/Edit/Words.antt =====
-- Words of the line buffer (crates/lineedit/src/buffer.rs): motion by words, the ranges of words,
-- and the search for a character. What Unicode calls a letter is a table of Rust's library, and a
-- parameter here.
use cherubsh.Base.{
  ℕ, zero, suc, ◌+◌, ◌-◌, Bool, not, ◌||◌, Option, none, some, List, [], ◌∷◌, ◌>>=◌, ltb, leb, ◌==◌,
  if◌then◌else◌, length, drop, get_elem?,
}
use cherubsh.Edit.{Text, EditBuffer}

pub record Unicode : Type 0 where
  pub is_alphanumeric : ℕ → Bool
  pub is_alphabetic : ℕ → Bool

abbrev pub is_word_char : Unicode → ℕ → Bool
is_word_char u ch = u.is_alphanumeric ch || ch == b'_'

-- `while point > 0 && test(chars[point - 1]) { point -= 1 }`
unfoldable pub skip_left : (ℕ → Bool) → Text → ℕ → Option ℕ
skip_left test chars zero = some zero
skip_left test chars (suc n) = do
  c ← get_elem? chars n
  let rest = skip_left test chars n
  if test c then rest else some (suc n)

-- `while point < chars.len() && test(chars[point]) { point += 1 }`, on the characters from `point`
unfoldable pub skip_right : (ℕ → Bool) → Text → ℕ → ℕ
skip_right test [] point = point
skip_right test (c ∷ cs) point = if test c then skip_right test cs (point + 1) else point

module _ (u : Unicode) where
  unfoldable pub word_left_point : EditBuffer → Option ℕ
  word_left_point b = do
    p ← skip_left (λ c. not (is_word_char u c)) b.chars b.point
    skip_left (is_word_char u) b.chars p

  unfoldable pub word_right_point : EditBuffer → ℕ
  word_right_point b =
      let p = skip_right (λ c. not (is_word_char u c)) (drop b.point b.chars) b.point in
      skip_right (is_word_char u) (drop p b.chars) p

  -- The two loops of `move_word_left` move the point itself.
  unfoldable pub move_word_left : EditBuffer → Option EditBuffer
  unfolding word_left_point
  move_word_left b = do p ← word_left_point b; some (record b { point = p })

  unfoldable pub move_word_right : EditBuffer → EditBuffer
  unfolding word_right_point
  move_word_right b = record b { point = word_right_point b }

  -- The outer loop of `word_ranges`; `none` means that the fuel ran out.
  unfoldable pub ranges_from : ℕ → Text → ℕ → Option (List (ℕ × ℕ))
  ranges_from zero chars index = none
  ranges_from (suc fuel) chars index =
      let start = skip_right (λ c. not (is_word_char u c)) (drop index chars) index in
      let end = skip_right (is_word_char u) (drop start chars) start in
      let later = (do
        rest ← ranges_from fuel chars end
        some (if ltb start end then (start, end) ∷ rest else rest)) in
      if ltb index (length chars) then later else some []

  unfoldable pub word_ranges : Text → Option (List (ℕ × ℕ))
  unfolding ranges_from
  word_ranges chars = ranges_from (suc (length chars)) chars 0

-- the first index from `from` on at which `needle` stands
abbrev pub index_from : ℕ → Text → ℕ → Option ℕ
index_from needle [] from = none
index_from needle (c ∷ cs) from = if c == needle then some from else index_from needle cs (from + 1)

unfoldable pub find_forward : ℕ → Bool → EditBuffer → Option ℕ
find_forward needle include b = do
  index ← index_from needle (drop (b.point + 1) b.chars) (b.point + 1)
  some (if include then index else index - 1)

-- the last index below `from` at which `needle` stands, searched from the right
abbrev pub index_before : ℕ → Text → ℕ → Option ℕ
index_before needle chars zero = none
index_before needle chars (suc n) = do
  c ← get_elem? chars n
  let rest = index_before needle chars n
  if c == needle then some n else rest

-- The outer option is the panic of `chars[..point]`.
unfoldable pub find_backward : ℕ → Bool → EditBuffer → Option (Option ℕ)
find_backward needle include b =
    if leb b.point (length b.chars)
    then some (do
      index ← index_before needle b.chars b.point
      some (if include then index else index + 1))
    else none
