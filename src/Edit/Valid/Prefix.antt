-- ===== src/Edit/Valid/Prefix.antt =====
-- `common_prefix` computes the longest common prefix, by byte lengths that never split a character
-- (crates/lineedit/src/buffer.rs).
use cherubsh.Base.{
  ◌≡◌, refl, ℕ, zero, suc, ◌+◌, ◌-◌, ◌≤◌, ◌<◌, min, inl, inr, some, List, [], ◌∷◌, arith, length,
  take, if◌then◌else◌, ◌==◌, Bool-cases, take-length,
}
use cherubsh.Edit.{Text, len_utf8, byte_len}
use cherubsh.Edit.Complete.{byte_prefix, agreeing_bytes, shrink_prefix, common_prefix}

-- The two texts agree on their first `n` characters.
abbrev pub Agree : ℕ → Text → Text → Type 0
Agree n s t = (n ≤ length s) × (n ≤ length t) × (take n s ≡ take n t)

abbrev pub AllAgree : ℕ → Text → List Text → Type 0
AllAgree n first [] = Unit
AllAgree n first (s ∷ rest) = Agree n first s × AllAgree n first rest

-- how many characters agree
agreeing : Text → Text → ℕ
agreeing [] t = 0
agreeing (a ∷ s) [] = 0
agreeing (a ∷ s) (b ∷ t) = if a == b then suc (agreeing s t) else 0

agreeing_all : Text → ℕ → List Text → ℕ
agreeing_all first k [] = k
agreeing_all first k (s ∷ rest) = agreeing_all first (min k (agreeing first s)) rest

Agree-agreeing : (s t : Text) → Agree (agreeing s t) s t
unfolding agreeing
Agree-agreeing [] t = (omega arith, omega arith, refl)
Agree-agreeing (a ∷ s) [] = (omega arith, omega arith, refl)
Agree-agreeing (a ∷ s) (b ∷ t) = ground (arith, Agree-agreeing s t)

-- Shorter prefixes agree too.
Agree-shorter : (m n : ℕ) (s t : Text) → m ≤ n → Agree n s t → Agree m s t
Agree-shorter zero n s t h g = (omega arith, omega arith, refl)
Agree-shorter (suc m) zero s t h g = absurd (omega arith)
Agree-shorter (suc m) (suc n) [] t h (g, _, _) = absurd (omega arith)
Agree-shorter (suc m) (suc n) (a ∷ s) [] h (_, g, _) = absurd (omega arith)
Agree-shorter (suc m) (suc n) (a ∷ s) (b ∷ t) h g = ground (arith, Agree-shorter m n s t)

le_agreeing : (n : ℕ) (s t : Text) → Agree n s t → n ≤ agreeing s t
unfolding agreeing
le_agreeing zero s t g = omega arith
le_agreeing (suc n) [] t (g, _, _) = absurd (omega arith)
le_agreeing (suc n) (a ∷ s) [] (_, g, _) = absurd (omega arith)
le_agreeing (suc n) (a ∷ s) (b ∷ t) g = ground (arith, le_agreeing n s t)

agreeing_all-le : (first : Text) (k : ℕ) (rest : List Text) → agreeing_all first k rest ≤ k
unfolding agreeing_all
agreeing_all-le first k [] = omega arith
agreeing_all-le first k (s ∷ rest) =
    omega (arith, agreeing_all-le first (min k (agreeing first s)) rest)

AllAgree-agreeing :
    (first : Text) (k : ℕ) (rest : List Text) → AllAgree (agreeing_all first k rest) first rest
unfolding agreeing_all
AllAgree-agreeing first k [] = tt
AllAgree-agreeing first k (s ∷ rest) = (
  Agree-shorter _ (agreeing first s) first s
      (omega (arith, agreeing_all-le first (min k (agreeing first s)) rest))
      (Agree-agreeing first s),
  AllAgree-agreeing first (min k (agreeing first s)) rest,
)

le_agreeing_all :
    (n : ℕ) (first : Text) (k : ℕ) (rest : List Text)
    → n ≤ k
    → AllAgree n first rest
    → n ≤ agreeing_all first k rest
unfolding agreeing_all
le_agreeing_all n first k [] h g = h
le_agreeing_all n first k (s ∷ rest) h (g, gs) =
    le_agreeing_all n first (min k (agreeing first s)) rest (omega (arith, le_agreeing n first s g))
      gs

-- Back to bytes.
byte_len-take-min :
    (i j : ℕ) (s : Text)
    → min (byte_len (take i s)) (byte_len (take j s)) ≡ byte_len (take (min i j) s)
byte_len-take-min zero j s = ground arith
byte_len-take-min (suc i) zero s = ground arith
byte_len-take-min (suc i) (suc j) [] =
    let e : min (suc i) (suc j) ≡ suc (min i j) = omega arith in rw e refl
byte_len-take-min (suc i) (suc j) (c ∷ s) =
    let e : min (suc i) (suc j) ≡ suc (min i j) = omega arith in
    rw e (omega (arith, byte_len-take-min i j s))

agreeing_bytes_lem : (s t : Text) → agreeing_bytes s t ≡ byte_len (take (agreeing s t) s)
unfolding agreeing_bytes agreeing
agreeing_bytes_lem [] t = refl
agreeing_bytes_lem (a ∷ s) [] = refl
agreeing_bytes_lem (a ∷ s) (b ∷ t) = ground (arith, agreeing_bytes_lem s t)

len_utf8_pos : (c : ℕ) → 0 < len_utf8 c
len_utf8_pos c = ground arith

byte_prefix-cons :
    (n c : ℕ) (cs : Text) {p : Text}
    → len_utf8 c ≤ n
    → byte_prefix (n - len_utf8 c) cs ≡ some p
    → byte_prefix n (c ∷ cs) ≡ some (c ∷ p)
byte_prefix-cons zero c cs h e = absurd (omega (arith, len_utf8_pos c))
byte_prefix-cons (suc n) c cs h e = rw e (ground arith)

byte_prefix_lem : (k : ℕ) (s : Text) → byte_prefix (byte_len (take k s)) s ≡ some (take k s)
byte_prefix_lem zero s = refl
byte_prefix_lem (suc k) [] = refl
byte_prefix_lem (suc k) (c ∷ s) =
    let rest = byte_len (take k s) in
    let e : len_utf8 c + rest - len_utf8 c ≡ rest = omega arith in
    byte_prefix-cons (len_utf8 c + rest) c s (omega arith) (rw e (byte_prefix_lem k s))

-- No character takes no bytes.
byte_len-take_zero : (k : ℕ) (s : Text) → k ≤ length s → byte_len (take k s) ≡ 0 → k ≡ 0
byte_len-take_zero zero s h e = refl
byte_len-take_zero (suc k) [] h e = absurd (omega arith)
byte_len-take_zero (suc k) (c ∷ s) h e = absurd (omega (arith, len_utf8_pos c))

agreeing_all_zero : (first : Text) (rest : List Text) → agreeing_all first 0 rest ≡ 0
agreeing_all_zero first rest = omega (arith, agreeing_all-le first 0 rest)

shrink_prefix_lem :
    (first : Text) (k : ℕ) (rest : List Text)
    → k ≤ length first
    → shrink_prefix first (byte_len (take k first)) rest
      ≡ byte_len (take (agreeing_all first k rest) first)
unfolding shrink_prefix agreeing_all
shrink_prefix_lem first k [] h = refl
shrink_prefix_lem first k (s ∷ rest) h =
    let m = min k (agreeing first s) in
    rw (agreeing_bytes_lem first s, byte_len-take-min k (agreeing first s) first)
      (elim (Bool-cases (byte_len (take m first) == 0)) [
        | inr some_left ↦ rw some_left (shrink_prefix_lem first m rest (omega arith))
        | inl none_left ↦
            let z = byte_len-take_zero m first (omega arith) (ground arith) in
            rw (none_left, z, agreeing_all_zero first rest) refl
      ])

-- `common_prefix` of one or more texts does not panic, and is the longest text with which all of
-- them begin.
pub common_prefix_longest :
    (first : Text) (rest : List Text)
    → (n : ℕ) × (common_prefix (first ∷ rest) ≡ some (take n first))
      × (n ≤ length first)
      × AllAgree n first rest
      × ((m : ℕ) → m ≤ length first → AllAgree m first rest → m ≤ n)
unfolding common_prefix
common_prefix_longest first rest =
    let n = agreeing_all first (length first) rest in
    let start : byte_len first ≡ byte_len (take (length first) first) = rw take-length in
    (
      n,
      rw (start, shrink_prefix_lem first (length first) rest (omega arith))
          (byte_prefix_lem n first),
      agreeing_all-le first (length first) rest,
      AllAgree-agreeing first (length first) rest,
      λ m h g. le_agreeing_all m first (length first) rest h g,
    )
