-- ===== src/Umask/Classes.antt =====
-- Which classes a clause can change (crates/builtins/src/umask.rs).
use cherubsh.Base.{
  ◌≡◌, refl, ◌∙◌, ℕ, Bool, true, false, not, ◌&&◌, ◌||◌, [], ◌∷◌, Text, ◌==◌, if◌then◌else◌,
  Bool-cases, inl, inr,
}
use cherubsh.Umask.{
  Perm, Mode, no_perm, no_mode, perm_or, perm_and, perm_not, mode_or, Outcome, ok, err, and_then,
  apply_operator, symbolic_perm_bits, perms_from, is_operator, who_from, apply_clause,
  apply_operators, default_who,
}

-- The classes that `who` does not name are the same in both.
pub record Untouched (who m n : Mode) : Type 0 where
  pub u_same : who.u ≡ no_perm → n.u ≡ m.u
  pub g_same : who.g ≡ no_perm → n.g ≡ m.g
  pub o_same : who.o ≡ no_perm → n.o ≡ m.o

Untouched-through : (who a b c : Mode) → Untouched who a b → Untouched who b c → Untouched who a c
Untouched-through who a b c h k = record {
  u_same = λ e. k.u_same e ∙ h.u_same e;
  g_same = λ e. k.g_same e ∙ h.g_same e;
  o_same = λ e. k.o_same e ∙ h.o_same e;
}

-- the three operators on one class
operated : ℕ → Perm → Perm → Perm → Perm
operated op bits who p =
    let mask_bits = perm_and bits who in
    if op == b'+'
    then perm_or p mask_bits
    else if op == b'-'
    then perm_and p (perm_not mask_bits)
    else perm_or (perm_and p (perm_not who)) mask_bits

bit_added : (b c : Bool) → (b || c && false) ≡ b
bit_added true c = refl
bit_added false true = refl
bit_added false false = refl

bit_removed : (b c : Bool) → (b && not (c && false)) ≡ b
bit_removed true true = refl
bit_removed true false = refl
bit_removed false c = refl

bit_kept : (b c : Bool) → (b && true || c && false) ≡ b
bit_kept true c = refl
bit_kept false true = refl
bit_kept false false = refl

operated_none : (op : ℕ) (bits p : Perm) → operated op bits no_perm p ≡ p
unfolding operated
operated_none op bits p = elim (Bool-cases (op == b'+')) [
  | inl e ↦ rw (e, bit_added p.r bits.r, bit_added p.w bits.w, bit_added p.x bits.x) refl
  | inr e ↦ elim (Bool-cases (op == b'-')) [
    | inl f ↦ rw (e, f, bit_removed p.r bits.r, bit_removed p.w bits.w, bit_removed p.x bits.x) refl
    | inr f ↦ rw (e, f, bit_kept p.r bits.r, bit_kept p.w bits.w, bit_kept p.x bits.x) refl
  ]
]

classes_operated :
    (op : ℕ) (bits who m : Mode)
    → apply_operator op bits who m ≡ record {
      u = operated op bits.u who.u m.u;
      g = operated op bits.g who.g m.g;
      o = operated op bits.o who.o m.o;
    }
unfolding apply_operator operated
classes_operated op bits who m = elim (Bool-cases (op == b'+')) [
  | inl e ↦ rw e refl
  | inr e ↦ elim (Bool-cases (op == b'-')) [ inl f ↦ rw (e, f) refl | inr f ↦ rw (e, f) refl ]
]

apply_operator-Untouched :
    (op : ℕ) (bits who m : Mode) → Untouched who m (apply_operator op bits who m)
apply_operator-Untouched op bits who m = rw (classes_operated op bits who m) (record {
  u_same = λ e. rw e (operated_none op bits.u m.u);
  g_same = λ e. rw e (operated_none op bits.g m.g);
  o_same = λ e. rw e (operated_none op bits.o m.o);
})

-- the outcome, when it is a mode, leaves the classes alone
abbrev pub Keeps : Mode → Mode → Outcome → Type 0
Keeps who m (err e) = Unit
Keeps who m (ok n) = Untouched who m n

and_then-Keeps :
    (who m : Mode) (o : Outcome) (f : Mode → Outcome)
    → ((b : Mode) → Keeps who m (f b))
    → Keeps who m (and_then o f)
and_then-Keeps who m (err e) f h = tt
and_then-Keeps who m (ok b) f h = h b

Keeps-through : (who a b : Mode) (o : Outcome) → Untouched who a b → Keeps who b o → Keeps who a o
Keeps-through who a b (err e) h k = tt
Keeps-through who a b (ok c) h k = Untouched-through who a b c h k

perms_from-Keeps :
    (op : ℕ) (bits who m : Mode) (chars : Text) → Keeps who m (perms_from op bits who m chars)
unfolding perms_from
perms_from-Keeps op bits who m [] = apply_operator-Untouched op bits who m
perms_from-Keeps op bits who m (p ∷ chars) = elim (Bool-cases (is_operator p)) [
  | inl e ↦
      let n = apply_operator op bits who m in
      rw e (
        Keeps-through who m n (perms_from p no_mode who n chars)
          (apply_operator-Untouched op bits who m) (perms_from-Keeps p no_mode who n chars))
  | inr e ↦ rw e (
      and_then-Keeps who m (symbolic_perm_bits p m who) _
        (λ b. perms_from-Keeps op (mode_or bits b) who m chars))
]

apply_operators-Keeps :
    (who : Mode) (rest : Text) (m : Mode) → Keeps who m (apply_operators who rest m)
unfolding apply_operators
apply_operators-Keeps who [] m = tt
apply_operators-Keeps who (op ∷ chars) m = elim (Bool-cases (is_operator op)) [
  | inl e ↦ rw e (perms_from-Keeps op no_mode who m chars)
  | inr e ↦ rw e tt
]

-- A clause, whatever its operators and permissions, changes no class but those it names, or any where
-- it names none.
pub apply_clause-Keeps :
    (clause : Text) (m : Mode)
    → Keeps (default_who (who_from no_mode clause).0) m (apply_clause clause m)
unfolding apply_clause
apply_clause-Keeps [] m = tt
apply_clause-Keeps (c ∷ chars) m =
    let who = default_who (who_from no_mode (c ∷ chars)).0 in
    apply_operators-Keeps who (who_from no_mode (c ∷ chars)).1 m
