-- ===== src/Edit/Valid.antt =====
-- The invariant of the line buffer, kept by its operations (crates/lineedit/src/buffer.rs).
pub mod Basic
pub mod Words
pub mod Kill
pub mod Transform
pub mod Case
pub mod Complete
pub mod Prefix
use cherubsh.Base.{
  ◌≡◌, ℕ, zero, suc, ◌+◌, ◌-◌, ◌≤◌, ◌<◌, min, Option, none, some, List, [], ◌∷◌, ◌>>=◌, arith,
  length, take, drop, length-take, length-drop, length-append,
}
use cherubsh.Edit.{Text, EditBuffer, snapshot, snapshot_insert, undo_limit, drop_oldest}

abbrev pub AllFit : List (Text × ℕ) → Type 0
AllFit [] = Unit
AllFit ((chars, point) ∷ rest) = (point ≤ length chars) × AllFit rest

pub record IsValid (b : EditBuffer) : Type 0 where
  pub point_fits : b.point ≤ length b.chars
  pub stack_fits : AllFit b.undo_stack
  pub stack_bounded : length b.undo_stack ≤ undo_limit

-- The operation does not panic, and its result is valid.
abbrev pub Safe : Option EditBuffer → Type 0
Safe none = ⊥
Safe (some b) = IsValid b

take-AllFit : (n : ℕ) (xs : List (Text × ℕ)) → AllFit xs → AllFit (take n xs)
take-AllFit zero xs h = tt
take-AllFit (suc n) [] h = tt
take-AllFit (suc n) ((chars, point) ∷ xs) (h, rest) = (h, take-AllFit n xs rest)

pub snapshot-IsValid : (b : EditBuffer) → IsValid b → IsValid (snapshot b)
unfolding snapshot
snapshot-IsValid b v = ground (
  arith,
  length-take (length b.undo_stack) ((b.chars, b.point) ∷ b.undo_stack),
  take-AllFit (length b.undo_stack) ((b.chars, b.point) ∷ b.undo_stack),
)

-- A snapshot leaves the text and the point alone.
pub snapshot_same :
    (b : EditBuffer) → ((snapshot b).chars ≡ b.chars) × ((snapshot b).point ≡ b.point)
unfolding snapshot
snapshot_same b = ground arith

pub snapshot_insert-IsValid : (b : EditBuffer) → IsValid b → IsValid (snapshot_insert b)
unfolding snapshot_insert
snapshot_insert-IsValid b v = ground (arith, snapshot-IsValid b)

pub snapshot_insert_same :
    (b : EditBuffer) → ((snapshot_insert b).chars ≡ b.chars) × ((snapshot_insert b).point ≡ b.point)
unfolding snapshot_insert
snapshot_insert_same b = ground (arith, snapshot_same b)

-- An operation that follows a safe one.
pub >>=-Safe :
    (m : Option EditBuffer) (f : EditBuffer → Option EditBuffer)
    → Safe m
    → ((b : EditBuffer) → IsValid b → Safe (f b))
    → Safe (m >>= f)
>>=-Safe none f h k = h
>>=-Safe (some b) f h k = k b h
