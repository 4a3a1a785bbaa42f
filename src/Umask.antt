-- ===== src/Umask.antt =====
-- Symbolic modes (crates/builtins/src/umask.rs). The code keeps every mask within the bits 0o777:
-- such a number is its three classes, u (0o700), g (0o070) and o (0o007), each the bits r (4), w (2)
-- and x (1).
pub mod Classes
pub mod RoundTrip
pub mod Run
pub mod Restores
pub mod Tests
use cherubsh.Base.{
  ℕ, Bool, true, false, not, ◌&&◌, ◌||◌, List, [], ◌∷◌, ◌++◌, Text, ◌==◌, if◌then◌else◌, split_at,
}

pub record Perm : Type 0 where
  pub r : Bool
  pub w : Bool
  pub x : Bool

pub record Mode : Type 0 where
  pub u : Perm
  pub g : Perm
  pub o : Perm

abbrev pub no_perm : Perm
no_perm = record { r = false; w = false; x = false }

abbrev pub all_perm : Perm
all_perm = record { r = true; w = true; x = true }

abbrev pub no_mode : Mode
no_mode = record { u = no_perm; g = no_perm; o = no_perm }

abbrev pub all_mode : Mode
all_mode = record { u = all_perm; g = all_perm; o = all_perm }

-- the operators `|`, `&` and `!` (with `& 0o777`) on each bit
abbrev pub perm_or : Perm → Perm → Perm
perm_or p q = record { r = p.r || q.r; w = p.w || q.w; x = p.x || q.x }

abbrev pub perm_and : Perm → Perm → Perm
perm_and p q = record { r = p.r && q.r; w = p.w && q.w; x = p.x && q.x }

abbrev pub perm_not : Perm → Perm
perm_not p = record { r = not p.r; w = not p.w; x = not p.x }

abbrev pub mode_or : Mode → Mode → Mode
mode_or m n = record { u = perm_or m.u n.u; g = perm_or m.g n.g; o = perm_or m.o n.o }

abbrev pub mode_and : Mode → Mode → Mode
mode_and m n = record { u = perm_and m.u n.u; g = perm_and m.g n.g; o = perm_and m.o n.o }

abbrev pub mode_not : Mode → Mode
mode_not m = record { u = perm_not m.u; g = perm_not m.g; o = perm_not m.o }

-- `bits & 0o7 != 0`
abbrev pub any_perm : Perm → Bool
any_perm p = p.r || p.w || p.x

-- the bits of one class, as letters
abbrev pub perm_text : Perm → Text
perm_text p =
    (if p.r then b'r' ∷ [] else [])
    ++ (if p.w then b'w' ∷ [] else [])
    ++ (if p.x then b'x' ∷ [] else [])

-- one turn of the loop over the groups, without the comma
abbrev pub group_text : ℕ → Perm → Text
group_text label p = label ∷ b'=' ∷ perm_text p

unfoldable pub format_symbolic : Mode → Text
format_symbolic mask =
    let allowed = mode_not mask in
    group_text b'u' allowed.u
    ++ b',' ∷ group_text b'g' allowed.g
    ++ b',' ∷ group_text b'o' allowed.o

pub data SymbolicError : Type 0 where
  character : ℕ → SymbolicError
  operator : ℕ → SymbolicError

pub data Outcome : Type 0 where
  ok : Mode → Outcome
  err : SymbolicError → Outcome

-- the class bits, in every class that `who` names
unfoldable pub copy_class_bits : Perm → Mode → Mode
copy_class_bits bits who = record {
  u = if any_perm who.u then bits else no_perm;
  g = if any_perm who.g then bits else no_perm;
  o = if any_perm who.o then bits else no_perm;
}

abbrev pub same_bits : Perm → Mode
same_bits p = record { u = p; g = p; o = p }

unfoldable pub symbolic_perm_bits : ℕ → Mode → Mode → Outcome
unfolding copy_class_bits
symbolic_perm_bits ch allowed who =
    let some_x = allowed.u.x || allowed.g.x || allowed.o.x in
    if ch == b'r'
    then ok (same_bits (record no_perm { r = true }))
    else if ch == b'w'
    then ok (same_bits (record no_perm { w = true }))
    else if ch == b'x'
    then ok (same_bits (record no_perm { x = true }))
    else if ch == b'X'
    then ok (if some_x then same_bits (record no_perm { x = true }) else no_mode)
    else if ch == b'u'
    then ok (copy_class_bits allowed.u who)
    else if ch == b'g'
    then ok (copy_class_bits allowed.g who)
    else if ch == b'o'
    then ok (copy_class_bits allowed.o who)
    else err (character ch)

abbrev pub is_operator : ℕ → Bool
is_operator c = c == b'+' || c == b'-' || c == b'='

-- the effect of an operator with its permissions
unfoldable pub apply_operator : ℕ → Mode → Mode → Mode → Mode
apply_operator op perm_bits who allowed =
    let mask_bits = mode_and perm_bits who in
    if op == b'+'
    then mode_or allowed mask_bits
    else if op == b'-'
    then mode_and allowed (mode_not mask_bits)
    else mode_or (mode_and allowed (mode_not who)) mask_bits

-- the `?` on a result
abbrev pub and_then : Outcome → (Mode → Outcome) → Outcome
and_then (err e) f = err e
and_then (ok m) f = f m

-- The permissions of the operator `op`, of which `bits` are read; the next operator, or the end,
-- applies it.
unfoldable pub perms_from : ℕ → Mode → Mode → Mode → Text → Outcome
unfolding apply_operator symbolic_perm_bits
perms_from op bits who allowed [] = ok (apply_operator op bits who allowed)
perms_from op bits who allowed (p ∷ chars) =
    let next = perms_from p no_mode who (apply_operator op bits who allowed) chars in
    let more =
      and_then (symbolic_perm_bits p allowed who)
        (λ b. perms_from op (mode_or bits b) who allowed chars) in
    if is_operator p then next else more

-- the letters of the classes, and the rest of the clause
unfoldable pub who_from : Mode → Text → Mode × Text
who_from who [] = (who, [])
who_from who (c ∷ chars) =
    let u = who_from (record who { u = all_perm }) chars in
    let g = who_from (record who { g = all_perm }) chars in
    let o = who_from (record who { o = all_perm }) chars in
    let a = who_from all_mode chars in
    if c == b'u'
    then u
    else if c == b'g'
    then g
    else if c == b'o'
    then o
    else if c == b'a'
    then a
    else (who, c ∷ chars)

-- no letter stands for all classes
abbrev pub default_who : Mode → Mode
default_who who = if any_perm who.u || any_perm who.g || any_perm who.o then who else all_mode

unfoldable pub apply_operators : Mode → Text → Mode → Outcome
unfolding perms_from
apply_operators who [] allowed = err (operator 0)
apply_operators who (op ∷ chars) allowed =
    if is_operator op then perms_from op no_mode who allowed chars else err (operator op)

unfoldable pub apply_clause : Text → Mode → Outcome
unfolding who_from apply_operators
apply_clause [] allowed = err (character 0)
apply_clause (c ∷ chars) allowed =
    let (who, rest) = who_from no_mode (c ∷ chars) in apply_operators (default_who who) rest allowed

unfoldable pub apply_clauses : List Text → Mode → Outcome
unfolding apply_clause
apply_clauses [] allowed = ok allowed
apply_clauses (clause ∷ clauses) allowed =
    and_then (apply_clause clause allowed) (apply_clauses clauses)

unfoldable pub apply_symbolic : Text → Mode → Outcome
unfolding apply_clauses
apply_symbolic spec current =
    and_then (apply_clauses (split_at b',' spec) (mode_not current))
      (λ allowed. ok (mode_not allowed))
