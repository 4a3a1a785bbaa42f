-- ===== src/Edit/Ring.antt =====
-- The kill ring (crates/lineedit/src/killring.rs). `none` is the panic of an index.
use cherubsh.Base.{
  ◌≡◌, ◌∙◌, ap, ℕ, zero, suc, ◌+◌, ◌-◌, ◌%◌, ◌≤◌, ◌<◌, ◌≢◌, inl, inr, false, Option, none, some,
  List, [], ◌∷◌, ◌++◌, ◌>>=◌, arith, length, get_elem?, set, set_at, length-set, get_elem?-set_self,
  get_elem?-append_end, length-append, if◌then◌else◌, ltb, ◌==◌, Bool-cases, ltb→lt, lt→ltb,
  get_elem?-some-lt,
}
use cherubsh.Edit.{Text}

pub record KillRing : Type 0 where
  pub entries : List Text
  pub head : ℕ
  pub capacity : ℕ

abbrev pub new_ring : KillRing
new_ring = record { entries = []; head = 0; capacity = 8 }

unfoldable pub push : Text → KillRing → Option KillRing
push s r =
    if length s == 0
    then some r
    else if ltb (length r.entries) r.capacity
    then some (record r { entries = r.entries ++ s ∷ []; head = length (r.entries ++ s ∷ []) - 1 })
    else (do
      let head = (r.head + 1) % r.capacity
      entries ← set_at head s r.entries
      some (record r { entries = entries; head = head }))

-- `get_mut(head)`, changed by `f`; an empty ring takes `text` by `push`.
change_current : (Text → Text) → Text → Option Text → KillRing → Option KillRing
change_current f text none r = push text r
change_current f text (some entry) r = some (record r { entries = set r.entries r.head (f entry) })

unfoldable pub append : Text → KillRing → Option KillRing
unfolding change_current
append text r =
    if length text == 0
    then some r
    else change_current (λ entry. entry ++ text) text (get_elem? r.entries r.head) r

unfoldable pub prepend : Text → KillRing → Option KillRing
unfolding change_current
prepend text r =
    if length text == 0
    then some r
    else change_current (λ entry. text ++ entry) text (get_elem? r.entries r.head) r

unfoldable pub current : KillRing → Option Text
current r = get_elem? r.entries r.head

unfoldable pub rotate : KillRing → KillRing
rotate r =
    if length r.entries == 0
    then r
    else if r.head == 0
    then record r { head = length r.entries - 1 }
    else record r { head = r.head - 1 }

-- The capacity is fixed, and the head points at an entry when there is one.
pub record IsRing (r : KillRing) : Type 0 where
  pub fixed : r.capacity ≡ 8
  pub bounded : length r.entries ≤ 8
  pub head_inside : length r.entries ≢ 0 → r.head < length r.entries
  pub head_empty : length r.entries ≡ 0 → r.head ≡ 0

-- The ring after a kill: well formed, with the killed text at its head.
abbrev pub Holds : Text → Option KillRing → Type 0
Holds s none = ⊥
Holds s (some r) = IsRing r × (current r ≡ some s)

push_room :
    (s : Text) (r : KillRing)
    → IsRing r
    → length r.entries < 8
    → Holds s
        (some (record r { entries = r.entries ++ s ∷ []; head = length (r.entries ++ s ∷ []) - 1 }))
unfolding current
push_room s r v h =
    let n = length-append {0} r.entries (s ∷ []) in
    let at : length (r.entries ++ s ∷ []) - 1 ≡ length r.entries = omega arith in
    rw at (
      record {
        fixed = v.fixed;
        bounded = omega arith;
        head_inside = λ _. omega arith;
        head_empty = λ e. omega arith;
      },
      get_elem?-append_end r.entries s,
    )

replace-Holds :
    (s : Text) (r : KillRing) (head : ℕ)
    → IsRing r
    → head < length r.entries
    → Holds s (some (record r { entries = set r.entries head s; head = head }))
unfolding current
replace-Holds s r head v h =
    let n = length-set {0} r.entries head s in
    (
      record {
        fixed = v.fixed;
        bounded = omega (arith, v.bounded);
        head_inside = λ _. omega arith;
        head_empty = λ e. omega arith;
      },
      get_elem?-set_self r.entries head s h,
    )

-- A kill of some text never panics, whether the ring is full or not, and is what the next yank
-- takes.
pub push-Holds : (s : Text) (r : KillRing) → IsRing r → length s ≢ 0 → Holds s (push s r)
unfolding push
push-Holds s r v h = elim (Bool-cases (ltb (length r.entries) r.capacity)) [
  | inl room ↦
      let nonempty : (length s == 0) ≡ false = ground arith in
      rw (nonempty, room) (push_room s r v (omega (arith, v.fixed, ltb→lt _ _ room)))
  | inr full ↦
      let nonempty : (length s == 0) ≡ false = ground arith in
      let size : 8 ≤ length r.entries = ground arith in
      let inside : (r.head + 1) % r.capacity < length r.entries = rw v.fixed (omega arith) in
      rw (nonempty, full, lt→ltb _ _ inside) (replace-Holds s r _ v inside)
]

-- A kill that goes on from the one before joins the current entry, on the right or on the left.
pub append-prepend_current :
    (entry text : Text) (r : KillRing)
    → IsRing r
    → length text ≢ 0
    → current r ≡ some entry
    → Holds (entry ++ text) (append text r) × Holds (text ++ entry) (prepend text r)
unfolding append prepend current
append-prepend_current entry text r v h c =
    let nonempty : (length text == 0) ≡ false = ground arith in
    let inside : r.head < length r.entries = get_elem?-some-lt r.entries r.head c in
    (
      rw (nonempty, c) (replace-Holds (entry ++ text) r r.head v inside),
      rw (nonempty, c) (replace-Holds (text ++ entry) r r.head v inside),
    )

unfoldable pub rotate_times : ℕ → KillRing → KillRing
rotate_times zero r = r
rotate_times (suc n) r = rotate_times n (rotate r)

rotate_times-add :
    (m n : ℕ) (r : KillRing) → rotate_times (m + n) r ≡ rotate_times n (rotate_times m r)
unfolding rotate_times
rotate_times-add zero n r = let e : zero + n ≡ n = omega arith in rw e
rotate_times-add (suc m) n r =
    let e : suc m + n ≡ suc (m + n) = omega arith in rw e (rotate_times-add m n (rotate r))

at_head : KillRing → ℕ → KillRing
at_head r head = record r { head = head }

rotate-suc :
    (r : KillRing) (k : ℕ) → length r.entries ≢ 0 → rotate (at_head r (suc k)) ≡ at_head r k
unfolding rotate at_head
rotate-suc r k h = ground arith

rotate-zero :
    (r : KillRing) → length r.entries ≢ 0 → rotate (at_head r 0) ≡ at_head r (length r.entries - 1)
unfolding rotate at_head
rotate-zero r h = ground arith

rotate_times_down :
    (k head : ℕ) (r : KillRing)
    → length r.entries ≢ 0
    → rotate_times k (at_head r (head + k)) ≡ at_head r head
unfolding rotate_times
rotate_times_down zero head r h = let e : head + 0 ≡ head = omega arith in rw e
rotate_times_down (suc k) head r h =
    let e : head + suc k ≡ suc (head + k) = omega arith in
    rw (e, rotate-suc r (head + k) h) (rotate_times_down k head r h)

rotate_times_cycle :
    (k m : ℕ) (r : KillRing)
    → length r.entries ≡ k + suc m
    → rotate_times (k + suc m) (at_head r k) ≡ at_head r k
unfolding rotate_times
rotate_times_cycle k m r e =
    let some_entry : length r.entries ≢ 0 = omega arith in
    let start : 0 + k ≡ k = omega arith in
    let down : rotate_times k (at_head r k) ≡ at_head r 0 =
      rw start at (rotate_times_down k 0 r some_entry) in
    let last : length r.entries - 1 ≡ k + m = omega arith in
    rotate_times-add k (suc m) (at_head r k)
    ∙ rw (down, rotate-zero r some_entry, last) (rotate_times_down m k r some_entry)

-- Rotating as often as there are entries comes back to the same ring.
pub rotate_times_all : (r : KillRing) → IsRing r → rotate_times (length r.entries) r ≡ r
unfolding rotate_times at_head
rotate_times_all r v = elim (Bool-cases (length r.entries == 0)) [
  | inl empty ↦ let e : length r.entries ≡ 0 = ground arith in ap (λ n. rotate_times n r) e
  | inr more ↦
      let h : r.head < length r.entries = ground arith in
      let m = length r.entries - 1 - r.head in
      let e : length r.entries ≡ r.head + suc m = omega arith in
      ap (λ n. rotate_times n r) e ∙ rotate_times_cycle r.head m r e
]
