-- ===== src/Umask/RoundTrip.antt =====
-- The symbolic form of a mask, read back (crates/builtins/src/umask.rs).
use cherubsh.Base.{
  ◌≡◌, refl, ◌∙◌, ap, ℕ, Bool, true, false, not, ◌&&◌, ◌||◌, [], ◌∷◌, ◌++◌, Text, ◌==◌, Bool-cases,
  inl, inr, arith, split_at, split_from, append_assoc, append-nil,
}
use cherubsh.Umask.{
  Perm, Mode, no_mode, same_bits, perm_or, perm_and, no_perm, all_perm, perm_not, mode_not, ok,
  perm_text, group_text, format_symbolic, apply_clause, apply_clauses, apply_symbolic, perms_from,
  who_from, apply_operators, apply_operator, symbolic_perm_bits,
}

abbrev without : ℕ → Text → Bool
without c [] = true
without c (d ∷ s) = not (d == c) && without c s

split_from-part :
    (c : ℕ) (part s rest : Text)
    → without c s ≡ true
    → split_from c part (s ++ c ∷ rest) ≡ (part ++ s) ∷ split_from c [] rest
unfolding split_from
split_from-part c part [] rest h = ground (arith, append-nil {0} part)
split_from-part c part (d ∷ s) rest h = elim (Bool-cases (d == c)) [
  | inl e ↦ absurd (ground arith)
  | inr e ↦ rw e (
      split_from-part c (part ++ d ∷ []) s rest (ground arith)
      ∙ ap (λ t. t ∷ split_from c [] rest) (append_assoc {0} part (d ∷ []) s))
]

split_from-last :
    (c : ℕ) (part s : Text) → without c s ≡ true → split_from c part s ≡ (part ++ s) ∷ []
unfolding split_from
split_from-last c part [] h = rw (append-nil {0} part) refl
split_from-last c part (d ∷ s) h = elim (Bool-cases (d == c)) [
  | inl e ↦ absurd (ground arith)
  | inr e ↦ rw e (
      split_from-last c (part ++ d ∷ []) s (ground arith)
      ∙ ap (λ t. t ∷ []) (append_assoc {0} part (d ∷ []) s))
]

-- the permissions after an operator, as they are read
read_bits :
    (r w x : Bool) (op : ℕ) (who m : Mode)
    → let p : Perm = record { r = r; w = w; x = x } in
      perms_from op no_mode who m (perm_text p) ≡ ok (apply_operator op (same_bits p) who m)
unfolding perms_from symbolic_perm_bits
read_bits true true true op who m = refl
read_bits true true false op who m = refl
read_bits true false true op who m = refl
read_bits true false false op who m = refl
read_bits false true true op who m = refl
read_bits false true false op who m = refl
read_bits false false true op who m = refl
read_bits false false false op who m = refl

text_without_comma :
    (r w x : Bool) → without b',' (perm_text (record { r = r; w = w; x = x })) ≡ true
text_without_comma true true true = refl
text_without_comma true true false = refl
text_without_comma true false true = refl
text_without_comma true false false = refl
text_without_comma false true true = refl
text_without_comma false true false = refl
text_without_comma false false true = refl
text_without_comma false false false = refl

kept : (b c : Bool) → (b && true || c && false) ≡ b
kept true true = refl
kept true false = refl
kept false true = refl
kept false false = refl

taken : (b c : Bool) → (b && false || c && true) ≡ c
taken true true = refl
taken true false = refl
taken false true = refl
taken false false = refl

perm_kept : (p q : Perm) → perm_or (perm_and p (perm_not no_perm)) (perm_and q no_perm) ≡ p
perm_kept p q = rw (kept p.r q.r, kept p.w q.w, kept p.x q.x) refl

perm_taken : (p q : Perm) → perm_or (perm_and p (perm_not all_perm)) (perm_and q all_perm) ≡ q
perm_taken p q = rw (taken p.r q.r, taken p.w q.w, taken p.x q.x) refl

set_u : (p : Perm) (m : Mode) → apply_clause (group_text b'u' p) m ≡ ok (record m { u = p })
unfolding apply_clause who_from apply_operators apply_operator
set_u p m =
    read_bits p.r p.w p.x b'=' (record no_mode { u = all_perm }) m
    ∙ rw (perm_taken m.u p, perm_kept m.g p, perm_kept m.o p) refl

set_g : (p : Perm) (m : Mode) → apply_clause (group_text b'g' p) m ≡ ok (record m { g = p })
unfolding apply_clause who_from apply_operators apply_operator
set_g p m =
    read_bits p.r p.w p.x b'=' (record no_mode { g = all_perm }) m
    ∙ rw (perm_kept m.u p, perm_taken m.g p, perm_kept m.o p) refl

set_o : (p : Perm) (m : Mode) → apply_clause (group_text b'o' p) m ≡ ok (record m { o = p })
unfolding apply_clause who_from apply_operators apply_operator
set_o p m =
    read_bits p.r p.w p.x b'=' (record no_mode { o = all_perm }) m
    ∙ rw (perm_kept m.u p, perm_kept m.g p, perm_taken m.o p) refl

groups_split :
    (p q r : Perm)
    → split_at b',' (group_text b'u' p ++ b',' ∷ group_text b'g' q ++ b',' ∷ group_text b'o' r)
      ≡ group_text b'u' p ∷ group_text b'g' q ∷ group_text b'o' r ∷ []
unfolding split_at
groups_split p q r =
    let u = group_text b'u' p in
    let g = group_text b'g' q in
    let o = group_text b'o' r in
    ap (split_from b',' []) (append_assoc {0} u (b',' ∷ g) (b',' ∷ o))
    ∙ split_from-part b',' [] u (g ++ b',' ∷ o) (text_without_comma p.r p.w p.x)
    ∙ ap (u ∷◌) (split_from-part b',' [] g o (text_without_comma q.r q.w q.x))
    ∙ ap (λ t. u ∷ g ∷ t) (split_from-last b',' [] o (text_without_comma r.r r.w r.x))

perm_not_not : (p : Perm) → perm_not (perm_not p) ≡ p
perm_not_not p = rw (not_not p.r, not_not p.w, not_not p.x) refl
  where
    not_not : (b : Bool) → not (not b) ≡ b
    not_not true = refl
    not_not false = refl

-- What the builtin prints of a mask in symbolic form, it reads back as that mask, whatever the mask is
-- at the time.
pub apply_symbolic-format_symbolic :
    (mask current : Mode) → apply_symbolic (format_symbolic mask) current ≡ ok mask
unfolding apply_symbolic format_symbolic apply_clauses
apply_symbolic-format_symbolic mask current =
    let allowed = mode_not mask in
    let start = mode_not current in
    rw
      (
        groups_split allowed.u allowed.g allowed.o,
        set_u allowed.u start,
        set_g allowed.g (record start { u = allowed.u }),
        set_o allowed.o (record start { u = allowed.u; g = allowed.g }),
        perm_not_not mask.u,
        perm_not_not mask.g,
        perm_not_not mask.o,
      )
      refl
