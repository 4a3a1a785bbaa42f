-- ===== src/Split/Ends.antt =====
-- The loops of word splitting come to the end of the text (crates/expander/src/split.rs).
use cherubsh.Base.{
  ◌≡◌, refl, sym, subst, ◌⊎◌, ◌∙◌, ap, ℕ, zero, suc, ◌+◌, ◌≤◌, ◌<◌, ◌&&◌, none, some, List, [], ◌∷◌,
  ◌++◌, Text, length, take, drop, ltb, ◌==◌, Bool-cases, inl, inr, arith, length-append,
  length-slice,
}
use cherubsh.Split.{
  IfsState, Place, is_ifs_ws, raw_literal_at, unquoted_ifs_at, ws_next, skip_ws, past_delimiter,
  SplitState, push_byte, push_literal, end_field, split_step, split_loop, byte_at, ctlesc,
}
use cherubsh.Split.Steps.{
  ws_next-Onward, Ahead, raw_literal_at-Ahead, unquoted_ifs_at-Ahead, past_delimiter-Onward,
}

abbrev pub total_length : List Text → ℕ
total_length [] = 0
total_length (f ∷ fields) = length f + total_length fields

total_length-append :
    (fs gs : List Text) → total_length (fs ++ gs) ≡ total_length fs + total_length gs
total_length-append [] gs = omega arith
total_length-append (f ∷ fs) gs = omega (arith, total_length-append fs gs)

-- the bytes that the fields have so far
abbrev pub size : SplitState → ℕ
size s = length s.cur + total_length s.fields

-- A turn goes on by a byte or more, stays in the text, and adds no more bytes than it passes.
pub record Advances (bytes : Text) (s t : SplitState) : Type 0 where
  pub onward : s.i < t.i
  pub inside : t.i ≤ length bytes
  pub taken : size t + s.i ≤ size s + t.i

push_byte-Advances :
    (bytes : Text) (b : ℕ) (s : SplitState)
    → s.i < length bytes
    → Advances bytes s (push_byte bytes b s)
unfolding push_byte
push_byte-Advances bytes b s l = elim (Bool-cases (b == ctlesc && ltb (s.i + 1) (length bytes))) [
  | inl h ↦
      let two = ctlesc ∷ byte_at bytes (s.i + 1) ∷ [] in
      let room : s.i + 1 < length bytes = ground arith in
      rw h (record {
        onward = omega arith;
        inside = omega arith;
        taken = omega (arith, length-append {0} s.cur two);
      })
  | inr h ↦ rw h (record {
    onward = omega arith;
    inside = omega arith;
    taken = omega (arith, length-append {0} s.cur (b ∷ []));
  })
]

push_literal-Advances :
    (bytes : Text) (p : Place) (s : SplitState)
    → s.i < length bytes
    → Ahead bytes s.i p
    → Advances bytes s (push_literal bytes p s)
unfolding push_literal
push_literal-Advances bytes none s l h = push_byte-Advances bytes (byte_at bytes s.i) s l
push_literal-Advances bytes (some (literal, next)) s l (forward, room) =
    let part = drop s.i (take next bytes) in
    record {
      onward = forward;
      inside = room;
      taken = omega (arith, length-append {0} s.cur part, length-slice {0} s.i next bytes room);
    }

end_field-Advances :
    (bytes : Text) (ifs : IfsState) (p : Place) (s : SplitState)
    → s.i < length bytes
    → Ahead bytes s.i p
    → Advances bytes s (end_field bytes ifs p s)
unfolding end_field
end_field-Advances bytes ifs none s l h =
    push_literal-Advances bytes (raw_literal_at bytes s.i) s l (raw_literal_at-Ahead bytes s.i)
end_field-Advances bytes ifs (some (delim, next)) s l (forward, room) =
    let past = past_delimiter-Onward bytes delim next ifs room in
    let onward : s.i < past_delimiter bytes delim next ifs = omega (arith, past.0) in
    record {
      onward = onward;
      inside = past.1;
      taken = omega (arith, total_length-append s.fields (s.cur ∷ []));
    }

split_step-Advances :
    (bytes : Text) (ifs : IfsState) (s : SplitState)
    → s.i < length bytes
    → Advances bytes s (split_step bytes ifs s)
unfolding split_step
split_step-Advances bytes ifs s l =
    end_field-Advances bytes ifs (unquoted_ifs_at bytes s.i ifs) s l
      (unquoted_ifs_at-Ahead bytes s.i ifs)

-- The main loop reaches the end of the text within one turn for each byte that is left, and its fields
-- have no more bytes than it has passed.
pub split_loop_ends :
    (fuel : ℕ) (bytes : Text) (ifs : IfsState) (s : SplitState)
    → s.i ≤ length bytes
    → length bytes ≤ fuel + s.i
    → ((split_loop fuel bytes ifs s).i ≡ length bytes)
      × (size (split_loop fuel bytes ifs s) + s.i ≤ size s + length bytes)
unfolding split_loop
split_loop_ends zero bytes ifs s l f = (omega arith, omega arith)
split_loop_ends (suc fuel) bytes ifs s l f = elim (Bool-cases (ltb s.i (length bytes))) [
  | inl h ↦
      let t = split_step bytes ifs s in
      let a = split_step-Advances bytes ifs s (ground arith) in
      let more = split_loop_ends fuel bytes ifs t a.inside (omega (arith, a.onward)) in
      rw h (more.0, omega (arith, a.taken, more.1))
  | inr h ↦ rw h (ground arith, ground arith)
]

ws_next-cases :
    (bytes : Text) (i : ℕ) (ifs : IfsState) (p : Place)
    → Ahead bytes i p
    → (ws_next bytes i ifs p ≡ i) ⊎ (i < ws_next bytes i ifs p)
ws_next-cases bytes i ifs none h = inl refl
ws_next-cases bytes i ifs (some (delim, next)) h = elim (Bool-cases (is_ifs_ws delim ifs)) [
  | inl k ↦ inr (rw k h.0)
  | inr k ↦ inl (rw k refl)
]

ws_next-end :
    (bytes : Text) (i : ℕ) (ifs : IfsState) (p : Place)
    → Ahead bytes i p
    → length bytes ≤ i
    → ws_next bytes i ifs p ≡ i
ws_next-end bytes i ifs none h l = refl
ws_next-end bytes i ifs (some (delim, next)) h l = absurd (omega (arith, h.0, h.1))

pub skip_ws_still :
    (fuel : ℕ) (bytes : Text) (i : ℕ) (ifs : IfsState)
    → ws_next bytes i ifs (unquoted_ifs_at bytes i ifs) ≡ i
    → skip_ws fuel bytes i ifs ≡ i
unfolding skip_ws
skip_ws_still zero bytes i ifs h = refl
skip_ws_still (suc fuel) bytes i ifs h =
    ap (λ j. skip_ws fuel bytes j ifs) h ∙ skip_ws_still fuel bytes i ifs h

-- The loop over white space ends by its own test: within one turn for each byte that is left it comes
-- to a place where there is no white space of the IFS.
pub skip_ws_stops :
    (fuel : ℕ) (bytes : Text) (i : ℕ) (ifs : IfsState)
    → i ≤ length bytes
    → length bytes ≤ fuel + i
    → let j = skip_ws fuel bytes i ifs in ws_next bytes j ifs (unquoted_ifs_at bytes j ifs) ≡ j
unfolding skip_ws
skip_ws_stops zero bytes i ifs l f =
    ws_next-end bytes i ifs (unquoted_ifs_at bytes i ifs) (unquoted_ifs_at-Ahead bytes i ifs)
      (omega arith)
skip_ws_stops (suc fuel) bytes i ifs l f =
    let p = unquoted_ifs_at bytes i ifs in
    let j = ws_next bytes i ifs p in
    elim (ws_next-cases bytes i ifs p (unquoted_ifs_at-Ahead bytes i ifs)) [
      | inl still ↦
          let e = skip_ws_still (suc fuel) bytes i ifs still in
          subst (λ k. ws_next bytes k ifs (unquoted_ifs_at bytes k ifs) ≡ k) (sym e) still
      | inr on ↦
          skip_ws_stops fuel bytes j ifs
            (ws_next-Onward bytes i ifs p l (unquoted_ifs_at-Ahead bytes i ifs)).1 (omega arith)
    ]
