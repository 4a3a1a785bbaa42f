-- ===== src/Edit/Valid/Kill.antt =====
-- A kill does not panic, keeps the buffer valid, and returns the text that is missing at the point
-- (crates/lineedit/src/buffer.rs).
use cherubsh.Base.{
  ◌≡◌, ℕ, ◌+◌, ◌≤◌, min, max, Option, none, some, [], ◌++◌, append-nil, ◌>>=◌, arith, length, take,
  drop, if◌then◌else◌, leb, take_of_take, slice_lem, drain_lem, splice_lem, drop_of_take,
  slices_join, length-take, length-append, take-append-drop, take-length, drop-length, Bool-cases,
  inl, inr, leb→le, ◌==◌,
}
use cherubsh.Edit.{Text, EditBuffer, snapshot}
use cherubsh.Edit.Words.{Unicode, word_right_point, move_word_left, move_word_right}
use cherubsh.Edit.Kill.{
  kill_to_end, kill_to_beginning, cut, kill_range, replace_char_range, backward_kill_word,
  forward_kill_word,
}
use cherubsh.Edit.Valid.{IsValid, Safe, snapshot-IsValid}
use cherubsh.Edit.Valid.Basic.{move_to-IsValid}
use cherubsh.Edit.Valid.Words.{word_left_point_total, word_right_point_bounds}

-- The text with `killed` put back at the point.
abbrev pub put_back : EditBuffer → Text → Text
put_back b killed = take b.point b.chars ++ killed ++ drop b.point b.chars

-- The kill succeeds with a valid buffer, and what it returns fits at the point.
abbrev pub CutsFrom : EditBuffer → Option (EditBuffer × Text) → Type 0
CutsFrom b none = ⊥
CutsFrom b (some (b', killed)) = IsValid b' × (put_back b' killed ≡ b.chars)

abbrev pub snapshot_with : EditBuffer → Text → ℕ → EditBuffer
snapshot_with b chars point = record (snapshot b) { chars = chars; point = point }

-- A snapshot with a new text and a point inside it.
pub snapshot_with-IsValid :
    (b : EditBuffer) (chars : Text) (point : ℕ)
    → IsValid b
    → point ≤ length chars
    → IsValid (snapshot_with b chars point)
snapshot_with-IsValid b chars point v h = ground (arith, snapshot-IsValid b v)

-- Cutting `start..end` and leaving the point at `start`.
cut-CutsFrom :
    (b : EditBuffer) (start end : ℕ)
    → IsValid b
    → start ≤ end
    → end ≤ length b.chars
    → CutsFrom b (
        some (
          snapshot_with b (take start b.chars ++ drop end b.chars) start,
          drop start (take end b.chars),
        ))
cut-CutsFrom b start end v h k =
    let p = length-take {0} start b.chars in
    (
      snapshot_with-IsValid b _ start v
          (omega (arith, length-append {0} (take start b.chars) (drop end b.chars))),
      rw
          (
            take_of_take start b.chars (drop end b.chars) (omega arith),
            drop_of_take start b.chars (drop end b.chars) (omega arith),
          )
          (slices_join start end b.chars h),
    )

pub kill_to_end-CutsFrom : (b : EditBuffer) → IsValid b → CutsFrom b (kill_to_end b)
unfolding kill_to_end snapshot
kill_to_end-CutsFrom b v = ground (
  arith,
  cut-CutsFrom b b.point (length b.chars) v,
  take-length b.chars,
  drop-length b.chars,
  append-nil (take b.point b.chars),
)

pub kill_to_beginning-CutsFrom : (b : EditBuffer) → IsValid b → CutsFrom b (kill_to_beginning b)
unfolding kill_to_beginning snapshot
kill_to_beginning-CutsFrom b v = ground (arith, cut-CutsFrom b 0 b.point v)

-- `kill_range` once its ends are in order.
kill_ordered-CutsFrom :
    (start end : ℕ) (b : EditBuffer)
    → IsValid b
    → start ≤ end
    → end ≤ length b.chars
    → CutsFrom b (
        if start == end
        then some (b, [])
        else (do (s, killed) ← cut start end b; some (record s { point = start }, killed)))
unfolding cut snapshot
kill_ordered-CutsFrom start end b v h k = elim (Bool-cases (start == end)) [
  | inl same ↦ rw same (v, rw append-nil (take-append-drop b.point b.chars))
  | inr apart ↦
      rw (apart, slice_lem start end b.chars h k, drain_lem start end b.chars h k)
        (cut-CutsFrom b start end v h k)
]

pub kill_range-CutsFrom :
    (left right : ℕ) (b : EditBuffer) → IsValid b → CutsFrom b (kill_range left right b)
unfolding kill_range
kill_range-CutsFrom left right b v =
    let l = min left (length b.chars) in
    let r = min right (length b.chars) in
    elim (Bool-cases (leb l r)) [
      | inl up ↦ rw up (kill_ordered-CutsFrom l r b v (leb→le l r up) (omega arith))
      | inr down ↦ rw down (kill_ordered-CutsFrom r l b v (ground arith) (omega arith))
    ]

module _ (u : Unicode) where
  -- Killing the word before the point does not panic, keeps the buffer valid, and returns the
  -- text that is missing at the new point.
  pub backward_kill_word-CutsFrom :
      (b : EditBuffer) → IsValid b → CutsFrom b (backward_kill_word u b)
  unfolding backward_kill_word move_word_left cut snapshot
  backward_kill_word-CutsFrom b v =
      let (p, e, h) = word_left_point_total u b v in
      rw e (
        ground (
          arith,
          cut-CutsFrom (record b { point = p }) p b.point
              (move_to-IsValid p b (omega (arith, v.point_fits)) v),
        ))

  pub forward_kill_word-CutsFrom : (b : EditBuffer) → IsValid b → CutsFrom b (forward_kill_word u b)
  unfolding forward_kill_word move_word_right cut snapshot
  forward_kill_word-CutsFrom b v =
      ground (arith, word_right_point_bounds u b v, cut-CutsFrom b b.point (word_right_point u b) v)

pub replace_char_range-IsValid :
    (from to : ℕ) (value : Text) (b : EditBuffer)
    → IsValid b
    → Safe (replace_char_range from to value b)
unfolding replace_char_range snapshot
replace_char_range-IsValid from to value b v =
    let start = min from (length b.chars) in
    let end = max (min to (length b.chars)) start in
    rw (splice_lem start end value b.chars (omega arith) (omega arith)) (
      snapshot_with-IsValid b (take start b.chars ++ value ++ drop end b.chars)
        (start + length value) v
        (omega (
          arith,
          length-append {0} (take start b.chars ++ value) (drop end b.chars),
          length-append {0} (take start b.chars) value,
          length-take {0} start b.chars,
        )))
