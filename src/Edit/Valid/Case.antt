-- ===== src/Edit/Valid/Case.antt =====
-- Change of case keeps the buffer valid (crates/lineedit/src/buffer.rs).
use cherubsh.Base.{
  ◌≡◌, refl, ℕ, ◌≤◌, Bool, true, false, [], ◌∷◌, ◌++◌, arith, length, take, drop, length-slice,
  length-take, length-drop, length-append, length-map, map,
}
use cherubsh.Edit.{Text, EditBuffer}
use cherubsh.Edit.Words.{Unicode, move_word_right}
use cherubsh.Edit.Transform.{
  rewrite_between, case_map_word, upcase_word, downcase_word, capitalize, capitalize_word,
  to_ascii_uppercase, to_ascii_lowercase,
}
use cherubsh.Edit.Valid.{IsValid, snapshot-IsValid, snapshot_same}
use cherubsh.Edit.Valid.Words.{word_right_point_bounds, move_word_right-IsValid}

length-rewrite_between :
    (start end : ℕ) (f : Text → Text) (chars : Text)
    → ((s : Text) → length (f s) ≡ length s)
    → start ≤ end
    → end ≤ length chars
    → length (rewrite_between start end f chars) ≡ length chars
length-rewrite_between start end f chars h k l = omega (
  arith,
  length-append {0} (take start chars ++ f (drop start (take end chars))) (drop end chars),
  length-append {0} (take start chars) (f (drop start (take end chars))),
  h (drop start (take end chars)),
  length-take {0} start chars,
  length-slice {0} start end chars l,
  length-drop {0} end chars,
)

module _ (u : Unicode) where
  move_word_right_lem :
      (b : EditBuffer)
      → IsValid b
      → ((move_word_right u b).chars ≡ b.chars) × (b.point ≤ (move_word_right u b).point)
  unfolding move_word_right
  move_word_right_lem b v = (refl, (word_right_point_bounds u b v).0)

  -- A loop over a word that writes as many characters as it reads.
  case_map_word-IsValid :
      (f : Text → Text) (b : EditBuffer)
      → ((s : Text) → length (f s) ≡ length s)
      → IsValid b
      → IsValid (case_map_word u f b)
  unfolding case_map_word
  case_map_word-IsValid f b h v =
      let m = move_word_right u b in
      let w = move_word_right-IsValid u b v in
      ground (
        arith,
        snapshot-IsValid m w,
        snapshot_same m,
        move_word_right_lem b v,
        length-rewrite_between b.point m.point f m.chars h,
      )

  length-capitalize : (seen : Bool) (s : Text) → length (capitalize u seen s) ≡ length s
  unfolding capitalize
  length-capitalize seen [] = refl
  length-capitalize seen (c ∷ s) =
      ground (arith, length-capitalize true s, length-capitalize false s)

  pub upcase_word-IsValid : (b : EditBuffer) → IsValid b → IsValid (upcase_word u b)
  unfolding upcase_word
  upcase_word-IsValid b = case_map_word-IsValid (map to_ascii_uppercase) b (λ s. length-map s _)

  pub downcase_word-IsValid : (b : EditBuffer) → IsValid b → IsValid (downcase_word u b)
  unfolding downcase_word
  downcase_word-IsValid b = case_map_word-IsValid (map to_ascii_lowercase) b (λ s. length-map s _)

  pub capitalize_word-IsValid : (b : EditBuffer) → IsValid b → IsValid (capitalize_word u b)
  unfolding capitalize_word
  capitalize_word-IsValid b = case_map_word-IsValid (capitalize u false) b (length-capitalize false)
