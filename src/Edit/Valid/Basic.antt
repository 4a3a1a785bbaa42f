-- ===== src/Edit/Valid/Basic.antt =====
-- Snapshots, insertion, deletion and motion keep the line buffer valid
-- (crates/lineedit/src/buffer.rs).
use cherubsh.Base.{
  ℕ, ◌+◌, ◌-◌, ◌*◌, ◌/◌, ◌%◌, ◌≤◌, ◌<◌, ◌≡◌, ℤ, [], ◌∷◌, arith, length, take, drop, max, min, ltb,
  true, if◌then◌else◌, length-take, length-drop, length-append,
}
use native.Mathlib.Nat.{div-add-mod', add-mul, mul-le-mul_right}
use cherubsh.Edit.{
  Text, EditBuffer, snapshot_insert, undo, clear, put, insert, put_all, insert_str, delete_forward,
  backward_delete, move_left, move_right, index_for_byte, char_index_for_byte, set_byte_point,
  set_char_point, move_visual_line, replace_all, replace_all_at_byte, len_utf8, is_negative,
  usize_mod,
}
use cherubsh.Edit.Valid.{
  IsValid, Safe, >>=-Safe, snapshot-IsValid, snapshot_same, snapshot_insert-IsValid,
}

pub undo-IsValid : (b : EditBuffer) → IsValid b → IsValid (undo b)
unfolding undo
undo-IsValid b v = ground arith

pub put-IsValid : (c : ℕ) (b : EditBuffer) → IsValid b → Safe (put c b)
unfolding put
put-IsValid c b v = ground (
  arith,
  length-append (take b.point b.chars) (c ∷ drop b.point b.chars),
  length-take b.point b.chars,
  length-drop b.point b.chars,
)

pub insert-IsValid : (c : ℕ) (b : EditBuffer) → IsValid b → Safe (insert c b)
unfolding insert
insert-IsValid c b v = put-IsValid c (snapshot_insert b) (snapshot_insert-IsValid b v)

pub delete_forward-IsValid : (b : EditBuffer) → IsValid b → Safe (delete_forward b)
unfolding delete_forward
delete_forward-IsValid b v = ground (
  arith,
  snapshot-IsValid b v,
  snapshot_same b,
  length-append (take b.point b.chars) (drop (b.point + 1) b.chars),
  length-take b.point b.chars,
  length-drop (b.point + 1) b.chars,
)

pub index_for_byte_bound :
    (byte : ℕ) (cs : Text) (index offset : ℕ)
    → index_for_byte byte cs index offset ≤ index + length cs
unfolding index_for_byte
index_for_byte_bound byte [] index offset = omega arith
index_for_byte_bound byte (c ∷ cs) index offset =
    ground (arith, index_for_byte_bound byte cs (index + 1) (offset + len_utf8 c))

put_all-IsValid : (s : Text) (b : EditBuffer) → IsValid b → Safe (put_all s b)
unfolding put_all
put_all-IsValid [] b v = v
put_all-IsValid (c ∷ s) b v = >>=-Safe (put c b) (put_all s) (put-IsValid c b v) (put_all-IsValid s)

pub insert_str-IsValid : (s : Text) (b : EditBuffer) → IsValid b → Safe (insert_str s b)
unfolding insert_str
insert_str-IsValid s b v = put_all-IsValid s (snapshot_insert b) (snapshot_insert-IsValid b v)

pub backward_delete-IsValid : (b : EditBuffer) → IsValid b → Safe (backward_delete b)
unfolding backward_delete
backward_delete-IsValid b v = ground (
  arith,
  snapshot-IsValid b v,
  snapshot_same b,
  length-append (take (b.point - 1) b.chars) (drop (b.point - 1 + 1) b.chars),
  length-take (b.point - 1) b.chars,
  length-drop (b.point - 1 + 1) b.chars,
)

pub clear-IsValid : (b : EditBuffer) → IsValid b → IsValid (clear b)
unfolding clear
clear-IsValid b v = ground (arith, snapshot-IsValid b v)

pub move_left-IsValid : (b : EditBuffer) → IsValid b → IsValid (move_left b)
unfolding move_left
move_left-IsValid b v = ground arith

pub move_right-IsValid : (b : EditBuffer) → IsValid b → IsValid (move_right b)
unfolding move_right
move_right-IsValid b v = ground arith

-- Motion to any place within the text.
pub move_to-IsValid :
    (p : ℕ) (b : EditBuffer) → p ≤ length b.chars → IsValid b → IsValid (record b { point = p })
move_to-IsValid p b h v = ground arith

pub set_byte_point-IsValid :
    (byte : ℕ) (b : EditBuffer) → IsValid b → IsValid (set_byte_point byte b)
unfolding set_byte_point char_index_for_byte
set_byte_point-IsValid byte b v =
    move_to-IsValid _ b (omega (arith, index_for_byte_bound byte b.chars 0 0)) v

pub set_char_point-IsValid :
    (point : ℕ) (b : EditBuffer) → IsValid b → IsValid (set_char_point point b)
unfolding set_char_point
set_char_point-IsValid point b v = move_to-IsValid _ b (omega arith) v

pub move_visual_line-IsValid :
    (columns : ℕ) (direction : ℤ) (b : EditBuffer)
    → IsValid b
    → b.point + max columns 1 < usize_mod
    → Safe (move_visual_line columns direction b)
unfolding move_visual_line
move_visual_line-IsValid columns direction b v h =
    let width = max columns 1 in
    let row = b.point / width in
    let column = b.point % width in
    let target_row = if is_negative direction then row - 1 else min (row + 1) (usize_mod - 1) in
    let parts : row * width + column ≡ b.point = div-add-mod' b.point width in
    let below : target_row ≤ row + 1 = ground arith in
    let scaled : target_row * width ≤ (row + 1) * width = mul-le-mul_right width below in
    let next : (row + 1) * width ≡ row * width + 1 * width = add-mul row 1 width in
    let bound : target_row * width + column < usize_mod = omega arith in
    let fits : ltb (target_row * width + column) usize_mod ≡ true = ground arith in
    rw fits (move_to-IsValid _ b (omega arith) v)

pub replace_all-IsValid : (s : Text) (b : EditBuffer) → IsValid b → IsValid (replace_all s b)
unfolding replace_all
replace_all-IsValid s b v = ground (arith, snapshot-IsValid b v)

pub replace_all_at_byte-IsValid :
    (s : Text) (byte : ℕ) (b : EditBuffer) → IsValid b → IsValid (replace_all_at_byte s byte b)
unfolding replace_all_at_byte
replace_all_at_byte-IsValid s byte b v =
    set_byte_point-IsValid byte (replace_all s b) (replace_all-IsValid s b v)
