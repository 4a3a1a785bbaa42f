-- ===== src/Edit/Valid/Transform.antt =====
-- Transposition does not panic and keeps the buffer valid (crates/lineedit/src/buffer.rs).
use cherubsh.Base.{
  ◌≡◌, ℕ, suc, ◌+◌, ◌-◌, ◌≤◌, ◌<◌, max, inl, inr, Bool, some, List, [], ◌∷◌, ◌++◌, ◌>>=◌, ◌||◌,
  arith, length, take, drop, if◌then◌else◌, leb, ltb, ◌==◌, length-slice, slice_lem, splice_lem,
  length-take, length-drop, length-append, get_elem?, get_elem?-lt, Bool-cases, Option-cases, ◌&&◌,
  slices_join,
}
use cherubsh.Edit.{Text, EditBuffer, snapshot}
use cherubsh.Edit.Words.{Unicode}
use cherubsh.Edit.Transform.{
  swap_at, transpose_chars, position, right_word, exchange, transpose_words,
}
use cherubsh.Edit.Valid.{IsValid, Safe}
use cherubsh.Edit.Valid.Words.{word_ranges_total, Ranges, Ranges-neighbours}
use cherubsh.Edit.Valid.Kill.{snapshot_with, snapshot_with-IsValid}

-- A swap inside the text succeeds and keeps the length.
swap_at_total :
    (i j : ℕ) (xs : Text)
    → i < j
    → j < length xs
    → (ys : Text) × (swap_at i j xs ≡ some ys) × (length ys ≡ length xs)
unfolding swap_at
swap_at_total i j xs k h =
    let (a, e) = get_elem?-lt xs i (omega arith) in
    let (b, f) = get_elem?-lt xs j h in
    (
      take i xs ++ b ∷ drop (i + 1) (take j xs) ++ a ∷ drop (j + 1) xs,
      rw (e, f),
      omega (
        arith,
        length-append {0} (take i xs ++ b ∷ drop (i + 1) (take j xs)) (a ∷ drop (j + 1) xs),
        length-append {0} (take i xs) (b ∷ drop (i + 1) (take j xs)),
        length-take {0} i xs,
        length-slice {0} (i + 1) j xs (omega arith),
        length-drop {0} (j + 1) xs,
      ),
    )

-- The two results of `transpose_chars` after the swap.
advance-IsValid :
    (b : EditBuffer) (chars : Text)
    → IsValid b
    → length chars ≡ length b.chars
    → IsValid (
        if ltb b.point (length chars)
        then snapshot_with b chars (b.point + 1)
        else snapshot_with b chars b.point)
advance-IsValid b chars v h =
    ground (
      arith,
      snapshot_with-IsValid b chars (b.point + 1) v,
      snapshot_with-IsValid b chars b.point v,
    )

swapped-IsValid :
    (i j : ℕ) (b : EditBuffer)
    → IsValid b
    → i < j
    → j < length b.chars
    → Safe (do
      chars ← swap_at i j b.chars
      some (
          if ltb b.point (length chars)
          then snapshot_with b chars (b.point + 1)
          else snapshot_with b chars b.point))
swapped-IsValid i j b v k h =
    let (ys, e, n) = swap_at_total i j b.chars k h in rw e (advance-IsValid b ys v n)

pub transpose_chars-IsValid : (b : EditBuffer) → IsValid b → Safe (transpose_chars b)
unfolding transpose_chars snapshot
transpose_chars-IsValid b v =
    let len = length b.chars in
    elim (Bool-cases (ltb len 2)) [
      | inl short ↦ rw short v
      | inr long ↦ elim (Bool-cases (leb len b.point)) [
        | inl at_end ↦
            rw (long, at_end)
              (elim (Bool-cases (len - 1 == 0)) [
                | inl z ↦ rw z v
                | inr nz ↦
                    rw nz
                      (swapped-IsValid (len - 1 - 1) (len - 1) b v (ground arith) (ground arith))
              ])
        | inr inside ↦
            rw (long, inside)
              (elim (Bool-cases (max b.point 1 == 0)) [
                | inl z ↦ rw z v
                | inr nz ↦ rw nz (
                    swapped-IsValid (max b.point 1 - 1) (max b.point 1) b v (ground arith)
                      (ground arith))
              ])
      ]
    ]

position-lt :
    (test : ℕ × ℕ → Bool) (xs : List (ℕ × ℕ)) {i : ℕ} → position test xs ≡ some i → i < length xs
position-lt test [] h = cc
position-lt test (x ∷ xs) h = elim (Option-cases (position test xs)) [
  | inl e ↦ ground arith
  | inr (k, e) ↦ ground (arith, position-lt test xs {i = k})
]

right_word-lt :
    (point : ℕ) (ranges : List (ℕ × ℕ))
    → 0 < length ranges
    → right_word point ranges < length ranges
unfolding right_word
right_word-lt point ranges h =
    let inside = λ (r : ℕ × ℕ). leb r.0 point && leb point r.1 in
    let right = λ (r : ℕ × ℕ). ltb point r.0 in
    elim (Option-cases (position inside ranges)) [
      | inr (i, e) ↦ rw e (position-lt inside ranges e)
      | inl e ↦ elim (Option-cases (position right ranges)) [
        | inr (i, f) ↦ rw (e, f) (position-lt right ranges f)
        | inl f ↦ rw (e, f) (omega arith)
      ]
    ]

exchange-IsValid :
    (l r : ℕ × ℕ) (b : EditBuffer)
    → IsValid b
    → l.0 < l.1
    → l.1 ≤ r.0
    → r.0 < r.1
    → r.1 ≤ length b.chars
    → Safe (exchange l r b)
unfolding exchange snapshot
exchange-IsValid (ls, le) (rs, re) b v h1 h2 h3 h4 =
    rw
      (
        slice_lem ls le b.chars (omega arith) (omega arith),
        slice_lem le rs b.chars (omega arith) (omega arith),
        slice_lem rs re b.chars (omega arith) (omega arith),
        splice_lem ls re
            (drop rs (take re b.chars) ++ drop le (take rs b.chars) ++ drop ls (take le b.chars))
            b.chars (omega arith) (omega arith),
      )
      (snapshot_with-IsValid b _ re v (
        ground (
          arith,
          slices_join ls re b.chars,
          length-append
              (take ls b.chars
                ++ (drop rs (take re b.chars)
                    ++ drop le (take rs b.chars)
                    ++ drop ls (take le b.chars)))
              (drop re b.chars),
          length-append (take ls b.chars)
              (drop rs (take re b.chars) ++ drop le (take rs b.chars) ++ drop ls (take le b.chars)),
          length-append (drop rs (take re b.chars) ++ drop le (take rs b.chars))
              (drop ls (take le b.chars)),
          length-append (drop rs (take re b.chars)) (drop le (take rs b.chars)),
          length-take ls b.chars,
          length-slice rs re b.chars,
          length-slice le rs b.chars,
          length-slice ls le b.chars,
        )))

neighbours :
    (hi : ℕ) (rs : List (ℕ × ℕ)) (i : ℕ)
    → Ranges 0 hi rs
    → 0 < i
    → i < length rs
    → (l : ℕ × ℕ) × (r : ℕ × ℕ) × (get_elem? rs (i - 1) ≡ some l)
      × (get_elem? rs i ≡ some r)
      × (l.0 < l.1)
      × (l.1 ≤ r.0)
      × (r.0 < r.1)
      × (r.1 ≤ hi)
neighbours hi rs i h pos k =
    let (l, e) = get_elem?-lt rs (i - 1) (omega arith) in
    let (r, f) = get_elem?-lt rs i k in
    let e' : suc (i - 1) ≡ i = omega arith in
    let (a, b, c, d) = Ranges-neighbours 0 hi rs (i - 1) h e (rw e' f) in (l, r, e, f, a, b, c, d)

module _ (u : Unicode) where
  pub transpose_words-IsValid : (b : EditBuffer) → IsValid b → Safe (transpose_words u b)
  unfolding transpose_words
  transpose_words-IsValid b v =
      let (rs, e, ordered) = word_ranges_total u b.chars in
      let i = right_word b.point rs in
      elim (Bool-cases (ltb (length rs) 2 || i == 0)) [
        | inl few ↦ rw (e, few) v
        | inr enough ↦
            let at = right_word-lt b.point rs (ground arith) in
            let (l, r, p, q, a, c, d, f) =
              neighbours (length b.chars) rs i ordered (ground arith) at in
            rw (e, enough, p, q) (exchange-IsValid l r b v a c d f)
      ]
