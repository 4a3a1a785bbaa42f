-- ===== src/Split/Refines.antt =====
-- Word splitting follows the rules for the IFS (crates/expander/src/split.rs).
use cherubsh.Base.{
  ◌≡◌, refl, sym, ap, ◌∙◌, ◌⊎◌, ℕ, zero, suc, ◌+◌, ◌≤◌, Bool, true, false, List, [], ◌∷◌, ◌++◌, map,
  append-nil, append_assoc, Text, length, length-append, length-drop, leb, ◌==◌, if◌then◌else◌, inl,
  inr, arith,
}
use cherubsh.Split.{IfsState, skip_ws, past_delimiter, split_loop, finish_split, split}
use cherubsh.Split.Pieces.{
  Piece, literal, quoted, quoted_null, param_null, IsPieces, code_of, encode, Kind, blank,
  separator, plain, kind, between, within, fields,
}
use cherubsh.Split.Found.{IsAscii}
use cherubsh.Split.Gaps.{
  drop_blank, past, fields_of_kind, fields-between, length-past, NoBlank, drop_blank-NoBlank,
  past-NoBlank,
}
use cherubsh.Split.Passes.{
  Delimits, Finds, Finds-kind, length-code_of, At, At-next, enough, skip_ws_passes,
  past_delimiter_passes, IsPieces-past, IsPieces-drop_blank,
}
use cherubsh.Split.Turns.{
  state, state_of, Ready, step-plain, step-delimiter, finish_lem, at_end, not_end, loop_end,
  delimited, appended, loop_turn,
}

if_cases :
    (b : Bool) (x y r : List Text)
    → (b ≡ true → x ≡ r)
    → (b ≡ false → y ≡ r)
    → (if b then x else y) ≡ r
if_cases true x y r h k = h refl
if_cases false x y r h k = k refl

module _ (bytes : Text) (ifs : IfsState) (v : IsAscii ifs) where
  -- The main loop from a place on gives the fields of the rules.
  abbrev Splits : ℕ → Type 0
  Splits fuel =
      (i : ℕ) (ps cur : List Piece) (fs : List (List Piece))
      → IsPieces ps
      → At bytes ifs v i ps
      → length ps ≤ fuel
      → Ready ifs cur fs ps
      → finish_split (split_loop fuel bytes ifs (state i cur fs))
        ≡ map encode (fs ++ fields ifs (state_of cur) ps)

  Splits-plain :
      (fuel i : ℕ) (p : Piece) (ps cur : List Piece) (fs : List (List Piece))
      → Splits fuel
      → IsPieces (p ∷ ps)
      → At bytes ifs v i (p ∷ ps)
      → length ps ≤ fuel
      → kind ifs p ≡ plain
      → Finds ifs p plain
      → finish_split (split_loop (suc fuel) bytes ifs (state i cur fs))
        ≡ map encode (fs ++ fields ifs (state_of cur) (p ∷ ps))
  Splits-plain fuel i p ps cur fs rest h e l q d =
      let j = i + length (code_of p) in
      ap finish_split (
        loop_turn bytes ifs v fuel (state i cur fs) (not_end bytes ifs v i p ps e)
        ∙ ap (split_loop fuel bytes ifs) (step-plain bytes ifs v i p ps cur fs h.0 e d))
      ∙ rest j ps (cur ++ p ∷ []) fs h.1 (At-next bytes ifs v i p ps e) l (begun cur)
      ∙ ap (λ gs. map encode (fs ++ gs)) (sym (appended bytes ifs v p ps cur q))
    where
      begun : (c : List Piece) → Ready ifs (c ++ p ∷ []) fs ps
      begun [] = tt
      begun (b ∷ c) = tt

  Splits-delimiter :
      (fuel i : ℕ) (p : Piece) (ps cur : List Piece) (fs : List (List Piece)) (k : Kind)
      (white : Bool)
      → Splits fuel
      → IsPieces (p ∷ ps)
      → At bytes ifs v i (p ∷ ps)
      → length ps ≤ fuel
      → Ready ifs cur fs (p ∷ ps)
      → (k ≡ blank × white ≡ true) ⊎ (k ≡ separator × white ≡ false)
      → kind ifs p ≡ k
      → Delimits ifs p white
      → finish_split (split_loop (suc fuel) bytes ifs (state i cur fs))
        ≡ map encode (fs ++ fields ifs (state_of cur) (p ∷ ps))
  Splits-delimiter fuel i p ps cur fs k white rest h e l r w q d =
      let next = i + length (code_of p) in
      let j = past_delimiter bytes d.byte next ifs in
      let ps' = past ifs k ps in
      let there =
        past_delimiter_passes bytes ifs v d.byte next ps k white w d.is_white h.1
          (At-next bytes ifs v i p ps e) in
      ap finish_split (
        loop_turn bytes ifs v fuel (state i cur fs) (not_end bytes ifs v i p ps e)
        ∙ ap (split_loop fuel bytes ifs) (step-delimiter bytes ifs v i p ps cur fs white h.0 e d))
      ∙ rest j ps' [] (fs ++ cur ∷ []) (IsPieces-past ifs k ps h.1) there
          (omega (arith, length-past ifs k ps))
          (past-NoBlank ifs k ps, omega (arith, length-append {0} fs (cur ∷ [])))
      ∙ ap (map encode) (
          append_assoc fs (cur ∷ []) (fields ifs between ps')
          ∙ ap (λ gs. fs ++ gs) (sym (delimited bytes ifs v k p ps cur fs (one_of w) q r)))
    where
      one_of :
          (k ≡ blank × white ≡ true) ⊎ (k ≡ separator × white ≡ false)
          → (k ≡ blank) ⊎ (k ≡ separator)
      one_of (inl s) = inl s.0
      one_of (inr s) = inr s.0

  loop-Splits : (fuel : ℕ) → Splits fuel
  loop-Splits fuel i [] cur fs h e l r =
      ap finish_split (loop_end bytes ifs v fuel (state i cur fs) (at_end bytes ifs v i e))
      ∙ finish_lem bytes ifs v i cur fs r
  loop-Splits zero i (p ∷ ps) cur fs h e l r = absurd (omega arith)
  loop-Splits (suc fuel) i (p ∷ ps) cur fs h e l r =
      of_kind (kind ifs p) refl (Finds-kind ifs p) (loop-Splits fuel)
    where
      of_kind :
          (k : Kind)
          → kind ifs p ≡ k
          → Finds ifs p k
          → Splits fuel
          → finish_split (split_loop (suc fuel) bytes ifs (state i cur fs))
            ≡ map encode (fs ++ fields ifs (state_of cur) (p ∷ ps))
      of_kind blank q d rest =
          Splits-delimiter fuel i p ps cur fs blank true rest h e (omega arith) r (inl (refl, refl))
            q d
      of_kind separator q d rest =
          Splits-delimiter fuel i p ps cur fs separator false rest h e (omega arith) r
            (inr (refl, refl)) q d
      of_kind plain q d rest = Splits-plain fuel i p ps cur fs rest h e (omega arith) q d

  -- where no byte is of the IFS
  kind-plain : ((b : ℕ) → ifs.cmap b ≡ false) → (p : Piece) → kind ifs p ≡ plain
  kind-plain none_of (literal b) = rw (none_of b) refl
  kind-plain none_of (quoted b) = refl
  kind-plain none_of quoted_null = refl
  kind-plain none_of param_null = refl

  one_field :
      ((b : ℕ) → ifs.cmap b ≡ false)
      → (cur ps : List Piece) → fields ifs (within cur) ps ≡ (cur ++ ps) ∷ []
  one_field none_of cur [] = unfold fields in ap (λ s. s ∷ []) (sym (append-nil cur))
  one_field none_of cur (p ∷ ps) =
      fields_of_kind ifs (within cur) plain p ps (kind-plain none_of p)
      ∙ one_field none_of (cur ++ p ∷ []) ps
      ∙ ap (λ s. s ∷ []) (append_assoc cur (p ∷ []) ps)

  whole_text :
      (ps : List Piece)
      → bytes ≡ encode ps
      → ((b : ℕ) → ifs.cmap b ≡ false)
      → (if length bytes == 0 then [] else bytes ∷ []) ≡ map encode (fields ifs between ps)
  whole_text [] e none_of =
      let empty : (length bytes == 0) ≡ true = rw e refl in rw empty (unfold fields in refl)
  whole_text (p ∷ ps) e none_of =
      let full : (length bytes == 0) ≡ false =
        ground (arith, ap length e, length-append {0} (code_of p) (encode ps), length-code_of p) in
      rw full (
        ap (λ s. s ∷ []) e
        ∙ ap (map encode) (
            sym (
              fields_of_kind ifs between plain p ps (kind-plain none_of p)
              ∙ one_field none_of (p ∷ []) ps)))

  from_place :
      (i : ℕ) (ps : List Piece)
      → IsPieces ps
      → At bytes ifs v i ps
      → NoBlank ifs ps
      → (if leb (length bytes) i
          then []
          else finish_split (split_loop (length bytes) bytes ifs (state i [] [])))
        ≡ map encode (fields ifs between ps)
  from_place i [] h e n =
      let over : leb (length bytes) i ≡ true =
        ground (arith, ap length e, length-drop {0} i bytes) in
      rw over (unfold fields in refl)
  from_place i (p ∷ ps) h e n =
      let inside : leb (length bytes) i ≡ false = ground (arith, not_end bytes ifs v i p ps e) in
      rw inside (
        loop-Splits (length bytes) i (p ∷ ps) [] [] h e (enough bytes ifs v i (p ∷ ps) e)
          (n, omega arith))

  pub split_lem :
      (ps : List Piece)
      → IsPieces ps
      → bytes ≡ encode ps
      → split bytes ifs ≡ map encode (fields ifs between ps)
  unfolding split
  split_lem ps h e =
      let i = skip_ws (length bytes) bytes 0 ifs in
      let there = skip_ws_passes bytes ifs v (length bytes) 0 ps h e (enough bytes ifs v 0 ps e) in
      if_cases ifs.is_null _ _ _ (λ null. whole_text ps e (v.no_bytes null))
        λ full.
          from_place i (drop_blank ifs ps) (IsPieces-drop_blank ifs ps h) there
            (drop_blank-NoBlank ifs ps)
          ∙ ap (map encode) (fields-between ifs ps)
