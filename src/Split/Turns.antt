-- ===== src/Split/Turns.antt =====
-- A turn of word splitting, piece by piece (crates/expander/src/split.rs `split`).
use cherubsh.Base.{
  ◌≡◌, refl, sym, ap, ◌∙◌, ◌⊎◌, ℕ, zero, suc, ◌+◌, ◌<◌, Bool, true, false, List, [], ◌∷◌, ◌++◌, map,
  map-append, append-nil, append_assoc, Text, length, length-append, length-drop, length-map, drop,
  slice_past, ltb, ◌==◌, Bool-cases, inl, inr, arith,
}
use cherubsh.Split.{
  IfsState, past_delimiter, SplitState, push_byte, push_literal, end_field, split_step, split_loop,
  finish_split, ctlesc,
}
use cherubsh.Split.Buffer.{is_ctl}
use cherubsh.Split.Pieces.{
  Piece, literal, quoted, quoted_null, param_null, IsPiece, code_of, encode, Kind, blank, separator,
  plain, kind, Where, between, within, fields,
}
use cherubsh.Split.Found.{
  IsAscii, found_lem, at_first, at_rest, raw_of, raw_of_lem, code_of_ctl, code_of_plain,
}
use cherubsh.Split.Gaps.{
  blank_or, past, fields_of_kind, fields-between, fields-after_blank, NoBlank,
}
use cherubsh.Split.Passes.{Delimits, Finds, length-code_of, At}

-- the state of the loop at the place `i`, with pieces for the texts
abbrev pub state : ℕ → List Piece → List (List Piece) → SplitState
state i cur fs = record { i = i; cur = encode cur; fields = map encode fs }

abbrev pub state_of : List Piece → Where
state_of [] = between
state_of (p ∷ ps) = within (p ∷ ps)

-- Where no field is begun there is no white space ahead, and there is something to come or done.
abbrev pub Ready : IfsState → List Piece → List (List Piece) → List Piece → Type 0
Ready ifs [] fs ps = NoBlank ifs ps × (0 < length fs + length ps)
Ready ifs (c ∷ cur) fs ps = Unit

encode-append : (ps qs : List Piece) → encode (ps ++ qs) ≡ encode ps ++ encode qs
encode-append [] qs = refl
encode-append (p ∷ ps) qs =
    ap (λ s. code_of p ++ s) (encode-append ps qs)
    ∙ sym (append_assoc (code_of p) (encode ps) (encode qs))

encode-snoc : (cur : List Piece) (p : Piece) → encode (cur ++ p ∷ []) ≡ encode cur ++ code_of p
encode-snoc cur p = encode-append cur (p ∷ []) ∙ ap (λ s. encode cur ++ s) (append-nil (code_of p))

module _ (bytes : Text) (ifs : IfsState) (v : IsAscii ifs) where
  push_plain :
      (i : ℕ) (p : Piece) (s : Text) (cur : Text) (fs : List Text)
      → IsPiece p
      → drop i bytes ≡ code_of p ++ s
      → push_literal bytes (raw_of i p) (record { i = i; cur = cur; fields = fs })
        ≡ record { i = i + length (code_of p); cur = cur ++ code_of p; fields = fs }
  unfolding push_literal push_byte raw_of
  push_plain i (literal b) s cur fs h e = elim (Bool-cases (is_ctl b)) [
    | inl c ↦ rw c (
        ap
          (λ (t : Text).
            let r : SplitState = record { i = i + 3; cur = cur ++ t; fields = fs } in r)
          (slice_past (ctlesc ∷ 0 ∷ b ∷ []) s i bytes (e ∙ ap (λ t. t ++ s) (code_of_ctl b c))))
    | inr c ↦
        let e' : drop i bytes ≡ b ∷ s = e ∙ ap (λ t. t ++ s) (code_of_plain b c) in
        let other : (b == ctlesc) ≡ false = ground arith in
        rw c (rw (at_first i bytes (b ∷ s) e') (rw other refl))
  ]
  push_plain i (quoted b) s cur fs h e =
      let left : ltb (i + 1) (length bytes) ≡ true =
        ground (arith, ap length e, length-drop {0} i bytes) in
      rw (at_first i bytes _ e) (rw (at_rest i 1 bytes _ e) (rw left refl))
  push_plain i quoted_null s cur fs h e = rw (at_first i bytes _ e) refl
  push_plain i param_null s cur fs h e = rw (at_first i bytes _ e) refl

  pub step-plain :
      (i : ℕ) (p : Piece) (ps cur : List Piece) (fs : List (List Piece))
      → IsPiece p
      → At bytes ifs v i (p ∷ ps)
      → Finds ifs p plain
      → split_step bytes ifs (state i cur fs) ≡ state (i + length (code_of p)) (cur ++ p ∷ []) fs
  unfolding split_step end_field
  step-plain i p ps cur fs h e d = rw (found_lem bytes i ifs p (encode ps) v h e) (
      rw (d i) (
        rw (raw_of_lem i bytes p (encode ps) h e)
          (rw (encode-snoc cur p) (push_plain i p (encode ps) (encode cur) (map encode fs) h e))))

  pub step-delimiter :
      (i : ℕ) (p : Piece) (ps cur : List Piece) (fs : List (List Piece)) (white : Bool)
      → IsPiece p
      → At bytes ifs v i (p ∷ ps)
      → (d : Delimits ifs p white)
      → split_step bytes ifs (state i cur fs)
        ≡ state (past_delimiter bytes d.byte (i + length (code_of p)) ifs) [] (fs ++ cur ∷ [])
  unfolding split_step end_field
  step-delimiter i p ps cur fs white h e d =
      rw (found_lem bytes i ifs p (encode ps) v h e)
        (rw (d.finds i) (rw (map-append encode fs (cur ∷ [])) refl))

  pub finish_lem :
      (i : ℕ) (cur : List Piece) (fs : List (List Piece))
      → Ready ifs cur fs []
      → finish_split (state i cur fs) ≡ map encode (fs ++ fields ifs (state_of cur) [])
  unfolding finish_split fields
  finish_lem i [] fs h =
      let some_field : (length (map encode fs) == 0) ≡ false =
        ground (arith, length-map fs encode) in
      rw some_field (ap (map encode) (sym (append-nil fs)))
  finish_lem i (c ∷ cur) fs h =
      let begun : ltb 0 (length (code_of c ++ encode cur)) ≡ true =
        ground (arith, length-append {0} (code_of c) (encode cur), length-code_of c) in
      rw begun (sym (map-append encode fs ((c ∷ cur) ∷ [])))

  pub at_end : (i : ℕ) → At bytes ifs v i [] → ltb i (length bytes) ≡ false
  at_end i e = ground (arith, ap length e, length-drop {0} i bytes)

  pub not_end :
      (i : ℕ) (p : Piece) (ps : List Piece)
      → At bytes ifs v i (p ∷ ps)
      → ltb i (length bytes) ≡ true
  not_end i p ps e = ground (
    arith,
    ap length e,
    length-drop {0} i bytes,
    length-append {0} (code_of p) (encode ps),
    length-code_of p,
  )

  pub loop_end :
      (fuel : ℕ) (s : SplitState) → ltb s.i (length bytes) ≡ false → split_loop fuel bytes ifs s ≡ s
  unfolding split_loop
  loop_end zero s e = refl
  loop_end (suc fuel) s e = rw e refl

  -- what is to come where the code ends a field
  pub delimited :
      (k : Kind) (p : Piece) (ps cur : List Piece) (fs : List (List Piece))
      → (k ≡ blank) ⊎ (k ≡ separator)
      → kind ifs p ≡ k
      → Ready ifs cur fs (p ∷ ps)
      → fields ifs (state_of cur) (p ∷ ps) ≡ cur ∷ fields ifs between (past ifs k ps)
  delimited blank p ps [] fs b e h =
      let never : blank_or blank [] (p ∷ []) ≡ p ∷ [] =
        ap (λ k. blank_or k [] (p ∷ [])) (sym e) ∙ h.0 in
      cc
  delimited blank p ps (c ∷ cur) fs b e h =
      fields_of_kind ifs (within (c ∷ cur)) blank p ps e
      ∙ ap ((c ∷ cur) ∷◌) (sym (fields-after_blank ifs ps))
  delimited separator p ps [] fs b e h =
      fields_of_kind ifs between separator p ps e
      ∙ ap ([] ∷◌) (sym (unfold past in fields-between ifs ps))
  delimited separator p ps (c ∷ cur) fs b e h =
      fields_of_kind ifs (within (c ∷ cur)) separator p ps e
      ∙ ap ((c ∷ cur) ∷◌) (sym (unfold past in fields-between ifs ps))
  delimited plain p ps cur fs b e h = elim b [ inl q ↦ cc | inr q ↦ cc ]

  pub appended :
      (p : Piece) (ps cur : List Piece)
      → kind ifs p ≡ plain
      → fields ifs (state_of cur) (p ∷ ps) ≡ fields ifs (state_of (cur ++ p ∷ [])) ps
  appended p ps [] e = fields_of_kind ifs between plain p ps e
  appended p ps (c ∷ cur) e = fields_of_kind ifs (within (c ∷ cur)) plain p ps e

  pub loop_turn :
      (fuel : ℕ) (s : SplitState)
      → ltb s.i (length bytes) ≡ true
      → split_loop (suc fuel) bytes ifs s ≡ split_loop fuel bytes ifs (split_step bytes ifs s)
  unfolding split_loop
  loop_turn fuel s e = rw e refl
