-- ===== src/Edit/Undo.antt =====
-- What undo gives back, and what an insertion writes (crates/lineedit/src/buffer.rs).
use cherubsh.Base.{
  ◌≡◌, refl, sym, ◌∙◌, ap₂, ℕ, suc, ◌+◌, ◌-◌, true, false, Option, none, some, List, [], ◌∷◌, ◌++◌,
  ◌>>=◌, arith, length, take, drop, insert_at, insert_at_lem, append_assoc, append-nil, length-take,
  length-append, take-append-drop, if◌then◌else◌, ltb, Bool-cases, inl, inr,
}
use cherubsh.Edit.{
  Text, EditBuffer, snapshot, snapshot_insert, undo, put, put_all, insert, insert_str, drop_oldest,
  undo_limit,
}
use cherubsh.Edit.Kill.{kill_range}
use cherubsh.Edit.Valid.{IsValid, snapshot_insert_same}
use cherubsh.Edit.Valid.Kill.{CutsFrom, put_back, kill_range-CutsFrom}

-- Text and point are those of `b`.
abbrev pub SamePlace : EditBuffer → EditBuffer → Type 0
SamePlace b b' = (b'.chars ≡ b.chars) × (b'.point ≡ b.point)

-- The newest snapshot survives the limit.
limited : {A : Type 0} → A → List A → List A
limited x xs =
    let stack = x ∷ xs in if ltb undo_limit (length stack) then drop_oldest stack else stack

limited-cons : {A : Type 0} (x : A) (xs : List A) → (rest : List A) × (limited x xs ≡ x ∷ rest)
unfolding limited
limited-cons x [] = ([], refl)
limited-cons x (y ∷ ys) =
    let e : suc (suc (length ys)) - 1 ≡ suc (length ys) = omega arith in
    elim (Bool-cases (ltb undo_limit (suc (suc (length ys))))) [
      | inl full ↦ (take (length ys) (y ∷ ys), rw (full, e))
      | inr room ↦ (y ∷ ys, rw room)
    ]

undo-cons :
    (chars : Text) (point : ℕ) (rest : List (Text × ℕ)) (b' : EditBuffer)
    → b'.undo_stack ≡ (chars, point) ∷ rest
    → undo b'
      ≡ record { chars = chars; point = point; undo_stack = rest; coalescing_insert = false }
unfolding undo
undo-cons chars point rest b' e = rw e

-- Undo goes back to the buffer at the last snapshot, whatever was written since.
undo-snapshot :
    (b b' : EditBuffer) → b'.undo_stack ≡ (snapshot b).undo_stack → SamePlace b (undo b')
unfolding snapshot limited
undo-snapshot b b' e =
    let (rest, t) = limited-cons (b.chars, b.point) b.undo_stack in
    rw (undo-cons b.chars b.point rest b' (e ∙ t)) (refl, refl)

-- Insertion leaves the stack alone, writes at the point, and moves the point behind the new text.
put_all_lem :
    (s l r : Text) (b : EditBuffer)
    → b.chars ≡ l ++ r
    → b.point ≡ length l
    → put_all s b ≡ some (record b { chars = l ++ s ++ r; point = length l + length s })
unfolding put_all put
put_all_lem [] l r b h k = rw append-nil (ground arith)
put_all_lem (c ∷ s) l r b h k =
    let b' = record b { chars = l ++ c ∷ r; point = b.point + 1 } in
    let q : insert_at b.point c b.chars ≡ some (l ++ c ∷ r) =
      rw h (insert_at_lem b.point c l r k) in
    let ih =
      put_all_lem s (l ++ c ∷ []) r b' (simp append_assoc)
        (omega (arith, k, length-append {0} l (c ∷ []))) in
    rw q (
      ih
      ∙ ap₂ (λ chars point. some (record b { chars = chars; point = point })) (simp append_assoc)
          (omega (arith, length-append {0} l (c ∷ []))))

-- `insert_str` of a valid buffer does not panic, puts the whole text at the point, and keeps the
-- rest of the line.
pub insert_str_lem :
    (s : Text) (b : EditBuffer)
    → IsValid b
    → insert_str s b
      ≡ some (record (snapshot_insert b) { chars = put_back b s; point = b.point + length s })
unfolding insert_str
insert_str_lem s b v =
    let (ce, pe) = snapshot_insert_same b in
    let at : length (take b.point b.chars) ≡ b.point =
      omega (arith, length-take {0} b.point b.chars, v.point_fits) in
    rw at at (
      put_all_lem s (take b.point b.chars) (drop b.point b.chars) (snapshot_insert b)
        (ce ∙ sym (take-append-drop b.point b.chars)) (pe ∙ sym at))

-- A kill by range, followed by the insertion of what it returned, gives back the line.
pub insert_str-kill_range :
    (left right : ℕ) (b : EditBuffer)
    → IsValid b
    → (b' : EditBuffer) × (killed : Text) × (b'' : EditBuffer) × (kill_range left right b
        ≡ some (b', killed))
      × (insert_str killed b' ≡ some b'')
      × (b''.chars ≡ b.chars)
insert_str-kill_range left right b v =
    restored (kill_range left right b) (kill_range-CutsFrom left right b v)
  where
    restored :
        (m : Option (EditBuffer × Text))
        → CutsFrom b m
        → (b' : EditBuffer) × (killed : Text) × (b'' : EditBuffer) × (m ≡ some (b', killed))
          × (insert_str killed b' ≡ some b'')
          × (b''.chars ≡ b.chars)
    restored none h = absurd h
    restored (some (b', killed)) (w, e) = (
      b',
      killed,
      record (snapshot_insert b') { chars = put_back b' killed; point = b'.point + length killed },
      refl,
      insert_str_lem killed b' w,
      e,
    )

-- `insert` of each character in turn, as the editor does while the user types
unfoldable pub type_all : Text → EditBuffer → Option EditBuffer
type_all [] b = some b
type_all (c ∷ s) b = do b' ← insert c b; type_all s b'

bind_same :
    (m : Option EditBuffer) (f g : EditBuffer → Option EditBuffer)
    → ((b : EditBuffer) → m ≡ some b → f b ≡ g b)
    → (m >>= f) ≡ (m >>= g)
bind_same none f g h = refl
bind_same (some b) f g h = h b refl

put_keeps_group :
    (c : ℕ) (b b' : EditBuffer) → put c b ≡ some b' → b'.coalescing_insert ≡ b.coalescing_insert
unfolding put
put_keeps_group c b b' h = ground arith

insert_open : (c : ℕ) (b : EditBuffer) → b.coalescing_insert ≡ true → insert c b ≡ put c b
unfolding insert snapshot_insert
insert_open c b h = rw h

-- While a group is open, typing is a plain insertion.
type_all_open :
    (s : Text) (b : EditBuffer) → b.coalescing_insert ≡ true → type_all s b ≡ put_all s b
unfolding type_all put_all
type_all_open [] b h = refl
type_all_open (c ∷ s) b h = rw (insert_open c b h) (
    bind_same (put c b) (type_all s) (put_all s)
      (λ b' e. type_all_open s b' (put_keeps_group c b b' e ∙ h)))

snapshot_insert_open : (b : EditBuffer) → (snapshot_insert b).coalescing_insert ≡ true
unfolding snapshot_insert snapshot
snapshot_insert_open b = ground arith

-- Typing characters one by one is one `insert_str`.
pub type_all-insert_str :
    (c : ℕ) (s : Text) (b : EditBuffer) → type_all (c ∷ s) b ≡ insert_str (c ∷ s) b
unfolding type_all insert_str put_all insert
type_all-insert_str c s b =
    let start = snapshot_insert b in
    bind_same (put c start) (type_all s) (put_all s)
      (λ b' e. type_all_open s b' (put_keeps_group c start b' e ∙ snapshot_insert_open b))

new_group :
    (b : EditBuffer)
    → b.coalescing_insert ≡ false
    → (snapshot_insert b).undo_stack ≡ (snapshot b).undo_stack
unfolding snapshot_insert
new_group b h = rw h

-- However many characters are typed in a row, they are all in the line, and one undo takes them
-- back and restores the point.
pub undo-type_all :
    (c : ℕ) (s : Text) (b : EditBuffer)
    → IsValid b
    → b.coalescing_insert ≡ false
    → (b' : EditBuffer) × (type_all (c ∷ s) b ≡ some b')
      × (b'.chars ≡ put_back b (c ∷ s))
      × SamePlace b (undo b')
undo-type_all c s b v h =
    let b' = record (snapshot_insert b) {
      chars = put_back b (c ∷ s);
      point = b.point + length (c ∷ s);
    } in
    (
      b',
      type_all-insert_str c s b ∙ insert_str_lem (c ∷ s) b v,
      refl,
      undo-snapshot b b' (new_group b h),
    )
