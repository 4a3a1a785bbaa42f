-- ===== src/Edit.antt =====
-- The line buffer of the editor (crates/lineedit/src/buffer.rs): the state and the operations that
-- snapshot, insert, delete and move. A character is its code point. `none` is a panic: an index or
-- a range outside the vector.
pub mod Words
pub mod Kill
pub mod Transform
pub mod Complete
pub mod Valid
pub mod Undo
pub mod Session
pub mod Ring
pub mod Tests
pub use cherubsh.Base.{Text}
use cherubsh.Base.{
  ℕ, ◌+◌, ◌-◌, ◌*◌, ◌/◌, ◌%◌, ◌^◌, min, max, ℤ, is_negative, Bool, true, false, Option, none, some,
  List, [], ◌∷◌, ◌>>=◌, ltb, leb, ◌==◌, if◌then◌else◌, length, take, drop, insert_at, remove_at,
  get_elem?,
}

pub record EditBuffer : Type 0 where
  pub chars : Text
  pub point : ℕ
  -- The newest snapshot first: the end of the vector is the head of the list.
  pub undo_stack : List (Text × ℕ)
  pub coalescing_insert : Bool

abbrev pub new : EditBuffer
new = record { chars = []; point = 0; undo_stack = []; coalescing_insert = false }

-- `char::len_utf8`
abbrev pub len_utf8 : ℕ → ℕ
len_utf8 c = if ltb c 0x80 then 1 else if ltb c 0x800 then 2 else if ltb c 0x10000 then 3 else 4

abbrev pub byte_len : Text → ℕ
byte_len [] = 0
byte_len (c ∷ cs) = len_utf8 c + byte_len cs

-- `&chars[..point]` panics past the end.
unfoldable pub byte_point : EditBuffer → Option ℕ
byte_point b = if leb b.point (length b.chars) then some (byte_len (take b.point b.chars)) else none

abbrev pub undo_limit : ℕ
undo_limit = 128

-- `Vec::remove(0)`, which drops the oldest snapshot
abbrev pub drop_oldest {ℓ} : {A : Type ℓ} → List A → List A
drop_oldest xs = take (length xs - 1) xs

unfoldable pub snapshot : EditBuffer → EditBuffer
snapshot b =
    let stack = (b.chars, b.point) ∷ b.undo_stack in
    record b {
      coalescing_insert = false;
      undo_stack = if ltb undo_limit (length stack) then drop_oldest stack else stack;
    }

unfoldable pub snapshot_insert : EditBuffer → EditBuffer
snapshot_insert b =
    if b.coalescing_insert then b else record (snapshot b) { coalescing_insert = true }

unfoldable pub break_undo_group : EditBuffer → EditBuffer
break_undo_group b = record b { coalescing_insert = false }

restore : EditBuffer → List (Text × ℕ) → EditBuffer
restore b [] = b
restore b ((chars, point) ∷ rest) = record b { chars = chars; point = point; undo_stack = rest }

unfoldable pub undo : EditBuffer → EditBuffer
unfolding restore
undo b = restore (record b { coalescing_insert = false }) b.undo_stack

unfoldable pub clear : EditBuffer → EditBuffer
clear b = record (snapshot b) { chars = []; point = 0 }

-- `chars.insert(point, c); point += 1`
unfoldable pub put : ℕ → EditBuffer → Option EditBuffer
put c b = do
  chars ← insert_at b.point c b.chars
  some (record b { chars = chars; point = b.point + 1 })

unfoldable pub insert : ℕ → EditBuffer → Option EditBuffer
insert c b = put c (snapshot_insert b)

-- the loop of `insert_str`
unfoldable pub put_all : Text → EditBuffer → Option EditBuffer
put_all [] b = some b
put_all (c ∷ s) b = do b' ← put c b; put_all s b'

unfoldable pub insert_str : Text → EditBuffer → Option EditBuffer
insert_str s b = put_all s (snapshot_insert b)

unfoldable pub delete_forward : EditBuffer → Option EditBuffer
delete_forward b =
    if leb (length b.chars) b.point
    then some b
    else do let s = snapshot b; chars ← remove_at s.point s.chars; some (record s { chars = chars })

unfoldable pub backward_delete : EditBuffer → Option EditBuffer
backward_delete b = if b.point == 0 then some b else do
  let s = record (snapshot b) { point = b.point - 1 }
  chars ← remove_at s.point s.chars
  some (record s { chars = chars })

unfoldable pub move_left : EditBuffer → EditBuffer
move_left b = if ltb 0 b.point then record b { point = b.point - 1 } else b

unfoldable pub move_right : EditBuffer → EditBuffer
move_right b = if ltb b.point (length b.chars) then record b { point = b.point + 1 } else b

unfoldable pub move_home : EditBuffer → EditBuffer
move_home b = record b { point = 0 }

unfoldable pub move_end : EditBuffer → EditBuffer
move_end b = record b { point = length b.chars }

-- the loop of `char_index_for_byte`, with the index and the offset that it has reached
unfoldable pub index_for_byte : ℕ → Text → ℕ → ℕ → ℕ
index_for_byte byte [] index offset = index
index_for_byte byte (c ∷ cs) index offset =
    let rest = index_for_byte byte cs (index + 1) (offset + len_utf8 c) in
    if leb byte offset then index else rest

unfoldable pub char_index_for_byte : ℕ → EditBuffer → ℕ
unfolding index_for_byte
char_index_for_byte byte b = index_for_byte byte b.chars 0 0

unfoldable pub set_byte_point : ℕ → EditBuffer → EditBuffer
set_byte_point byte b = record b { point = char_index_for_byte byte b }

unfoldable pub set_char_point : ℕ → EditBuffer → EditBuffer
set_char_point point b = record b { point = min point (length b.chars) }

unfoldable pub char_at : ℕ → EditBuffer → Option ℕ
char_at point b = get_elem? b.chars point

-- `slice`: both ends are clamped, so nothing panics.
unfoldable pub text_between : ℕ → ℕ → EditBuffer → Text
text_between start end b =
    let s = min start (length b.chars) in
    let e = max (min end (length b.chars)) s in drop s (take e b.chars)

abbrev pub usize_mod : ℕ
usize_mod = 2 ^ 64

-- A build with overflow checks panics where the target does not fit a `usize`.
unfoldable pub move_visual_line : ℕ → ℤ → EditBuffer → Option EditBuffer
move_visual_line columns direction b =
    let width = max columns 1 in
    let row = b.point / width in
    let column = b.point % width in
    let target_row = if is_negative direction then row - 1 else min (row + 1) (usize_mod - 1) in
    let target = target_row * width + column in
    if ltb target usize_mod then some (record b { point = min target (length b.chars) }) else none

unfoldable pub replace_all : Text → EditBuffer → EditBuffer
replace_all s b = record (snapshot b) { chars = s; point = length s }

unfoldable pub replace_all_at_byte : Text → ℕ → EditBuffer → EditBuffer
replace_all_at_byte value point b = set_byte_point point (replace_all value b)
