-- ===== src/Edit/Valid/Words.antt =====
-- Motion by words stays inside the text, and the search for word ranges ends
-- (crates/lineedit/src/buffer.rs).
use cherubsh.Base.{
  ◌≡◌, refl, ℕ, zero, suc, ◌+◌, ◌≤◌, ◌<◌, Bool, true, false, not, some, List, [], ◌∷◌, arith,
  drop-cons, Bool-cases, ltb→lt, inl, inr, length, drop, get_elem?, get_elem?-lt, length-drop,
  if◌then◌else◌, ltb,
}
use cherubsh.Edit.{Text, EditBuffer}
use cherubsh.Edit.Words.{
  Unicode, is_word_char, skip_left, skip_right, word_left_point, word_right_point, move_word_left,
  move_word_right, ranges_from, word_ranges,
}
use cherubsh.Edit.Valid.{IsValid, Safe}
use cherubsh.Edit.Valid.Basic.{move_to-IsValid}

pub skip_left_total :
    (test : ℕ → Bool) (chars : Text) (n : ℕ)
    → n ≤ length chars
    → (p : ℕ) × (skip_left test chars n ≡ some p) × (p ≤ n)
unfolding skip_left
skip_left_total test chars zero h = (zero, refl, omega arith)
skip_left_total test chars (suc n) h =
    let (c, e) = get_elem?-lt chars n h in
    let (p, q, le) = skip_left_total test chars n (omega arith) in
    (if test c then p else suc n, ground arith, ground arith)

pub skip_right_bounds :
    (test : ℕ → Bool) (cs : Text) (point : ℕ)
    → (point ≤ skip_right test cs point) × (skip_right test cs point ≤ point + length cs)
unfolding skip_right
skip_right_bounds test [] point = omega arith
skip_right_bounds test (c ∷ cs) point = ground (arith, skip_right_bounds test cs (point + 1))

module _ (u : Unicode) where
  pub word_left_point_total :
      (b : EditBuffer) → IsValid b → (p : ℕ) × (word_left_point u b ≡ some p) × (p ≤ b.point)
  unfolding word_left_point
  word_left_point_total b v =
      let (p, e, h) = skip_left_total (λ c. not (is_word_char u c)) b.chars b.point v.point_fits in
      let (q, f, k) = skip_left_total (is_word_char u) b.chars p (omega (arith, v.point_fits)) in
      (q, ground arith, omega arith)

  pub word_right_point_bounds :
      (b : EditBuffer)
      → IsValid b
      → (b.point ≤ word_right_point u b) × (word_right_point u b ≤ length b.chars)
  unfolding word_right_point
  word_right_point_bounds b v =
      let q = λ (c : ℕ). not (is_word_char u c) in
      let p = skip_right q (drop b.point b.chars) b.point in
      omega (
        arith,
        v.point_fits,
        skip_right_bounds q (drop b.point b.chars) b.point,
        skip_right_bounds (is_word_char u) (drop p b.chars) p,
        length-drop {0} b.point b.chars,
        length-drop {0} p b.chars,
      )

  pub move_word_left-IsValid : (b : EditBuffer) → IsValid b → Safe (move_word_left u b)
  unfolding move_word_left
  move_word_left-IsValid b v = ground (arith, word_left_point_total b v)

  pub move_word_right-IsValid : (b : EditBuffer) → IsValid b → IsValid (move_word_right u b)
  unfolding move_word_right
  move_word_right-IsValid b v = move_to-IsValid _ b (word_right_point_bounds b v).1 v

-- Ranges in order, without overlap, none of them empty, between `lo` and `hi`.
abbrev pub Ranges : ℕ → ℕ → List (ℕ × ℕ) → Type 0
Ranges lo hi [] = Unit
Ranges lo hi ((start, end) ∷ rest) = (lo ≤ start) × (start < end) × (end ≤ hi) × Ranges end hi rest

Ranges-weaken : (lo lo' hi : ℕ) (rs : List (ℕ × ℕ)) → lo ≤ lo' → Ranges lo' hi rs → Ranges lo hi rs
Ranges-weaken lo lo' hi [] h r = tt
Ranges-weaken lo lo' hi ((start, end) ∷ rest) h (a, b, c, r) = ground arith

skip_right_stop :
    (test : ℕ → Bool) (c : ℕ) (cs : Text) (i : ℕ) → test c ≡ false → skip_right test (c ∷ cs) i ≡ i
unfolding skip_right
skip_right_stop test c cs i h = rw h

skip_right_go :
    (test : ℕ → Bool) (c : ℕ) (cs : Text) (i : ℕ) → test c ≡ true → i < skip_right test (c ∷ cs) i
unfolding skip_right
skip_right_go test c cs i h = rw h (omega (arith, skip_right_bounds test cs (i + 1)))

-- One round of the outer loop of `word_ranges` moves the index.
skip_progress :
    (test : ℕ → Bool) (chars : Text) (index : ℕ)
    → index < length chars
    → let start = skip_right (λ c. not (test c)) (drop index chars) index in
      index < skip_right test (drop start chars) start
skip_progress test chars index h =
    let (c, e) = drop-cons index chars h in
    elim (Bool-cases (test c)) [
      | inl yes_word ↦
          rw (e, skip_right_stop (λ c. not (test c)) c _ index (rw yes_word), e)
            (skip_right_go test c (drop (suc index) chars) index yes_word)
      | inr no_word ↦
          let q = λ (c : ℕ). not (test c) in
          let start = skip_right q (drop index chars) index in
          let moved : index < start = rw e (skip_right_go q c _ index (rw no_word)) in
          omega (arith, skip_right_bounds test (drop start chars) start)
    ]

add_range :
    (lo start end hi : ℕ) (rs : List (ℕ × ℕ))
    → lo ≤ start
    → start ≤ end
    → end ≤ hi
    → Ranges end hi rs
    → Ranges lo hi (if ltb start end then (start, end) ∷ rs else rs)
add_range lo start end hi rs a b c r = ground (arith, Ranges-weaken lo end hi rs)

module _ (u : Unicode) where
  -- Fuel above what is left of the text is enough, and the ranges are in order.
  ranges_from_total :
      (fuel : ℕ) (chars : Text) (index : ℕ)
      → index ≤ length chars
      → length chars < index + fuel
      → (rs : List (ℕ × ℕ)) × (ranges_from u fuel chars index ≡ some rs)
        × Ranges index (length chars) rs
  unfolding ranges_from
  ranges_from_total zero chars index le h = absurd (omega arith)
  ranges_from_total (suc fuel) chars index le h = elim (Bool-cases (ltb index (length chars))) [
    | inl more ↦
        let q = λ (c : ℕ). not (is_word_char u c) in
        let start = skip_right q (drop index chars) index in
        let end = skip_right (is_word_char u) (drop start chars) start in
        let s = skip_right_bounds q (drop index chars) index in
        let e = skip_right_bounds (is_word_char u) (drop start chars) start in
        let d = length-drop {0} index chars in
        let d' = length-drop {0} start chars in
        let moved = skip_progress (is_word_char u) chars index (ltb→lt _ _ more) in
        let (rs, eq, ordered) = ranges_from_total fuel chars end (omega arith) (omega arith) in
        (
          if ltb start end then (start, end) ∷ rs else rs,
          rw (more, eq),
          add_range index start end (length chars) rs s.0 e.0 (omega arith) ordered,
        )
    | inr done ↦ ([], rw done, tt)
  ]

  -- `word_ranges` ends, and its ranges are non-empty, in order, apart, and inside the text.
  pub word_ranges_total :
      (chars : Text)
      → (rs : List (ℕ × ℕ)) × (word_ranges u chars ≡ some rs) × Ranges 0 (length chars) rs
  unfolding word_ranges
  word_ranges_total chars =
      ranges_from_total (suc (length chars)) chars 0 (omega arith) (omega arith)

-- Two neighbouring ranges stand in this order.
pub Ranges-neighbours :
    (lo hi : ℕ) (rs : List (ℕ × ℕ)) (i : ℕ) {l r : ℕ × ℕ}
    → Ranges lo hi rs
    → get_elem? rs i ≡ some l
    → get_elem? rs (suc i) ≡ some r
    → (l.0 < l.1) × (l.1 ≤ r.0) × (r.0 < r.1) × (r.1 ≤ hi)
Ranges-neighbours lo hi [] i h a b = cc
Ranges-neighbours lo hi ((s, e) ∷ []) zero h a b = cc
Ranges-neighbours lo hi ((s, e) ∷ ((s', e') ∷ rest)) zero h a b = ground arith
Ranges-neighbours lo hi ((s, e) ∷ rest) (suc i) (_, _, _, h) a b =
    Ranges-neighbours e hi rest i h a b
