-- ===== src/History/Trims.antt =====
-- What the loop of `trim` comes to (crates/common/src/history.rs).
use cherubsh.Base.{
  ◌≡◌, sym, refl, ◌∙◌, ℕ, zero, suc, ◌+◌, ◌-◌, ◌≤◌, ◌<◌, inl, inr, none, List, [], ◌∷◌, ◌++◌, arith,
  length, drop, get_elem?, length-drop, if◌then◌else◌, ltb, Bool-cases,
}
use cherubsh.History.{HistoryEntry, HistoryTable, trim_from, trim, get}

-- The table without its oldest `k` entries.
abbrev pub trimmed : ℕ → HistoryTable → HistoryTable
trimmed k t = record t {
  entries = drop k t.entries;
  base = t.base + k;
  new_since_save = t.new_since_save - k;
}

abbrev pub excess : HistoryTable → ℕ
excess t = length t.entries - t.max_entries

pub table_eq :
    (t : HistoryTable) (es fs : List HistoryEntry) (b c d e : ℕ)
    → es ≡ fs
    → b ≡ d
    → c ≡ e
    → record t { entries = es; base = b; new_since_save = c }
      ≡ record t { entries = fs; base = d; new_since_save = e }
table_eq t es fs b c d e g h k = rw (g, h, k)

pub drop_zero : (k : ℕ) (es : List HistoryEntry) → k ≡ 0 → es ≡ drop k es
drop_zero k es h = rw h refl

drop-suc :
    (j k : ℕ) (e : HistoryEntry) (es : List HistoryEntry) → k ≡ suc j → drop j es ≡ drop k (e ∷ es)
drop-suc j k e es h = rw h refl

count_down : (c : ℕ) → (if ltb 0 c then c - 1 else c) ≡ c - 1
count_down c = ground arith

trim_from_lem :
    (es : List HistoryEntry) (t : HistoryTable)
    → trim_from es t ≡ trimmed (length es - t.max_entries) (record t { entries = es })
unfolding trim_from
trim_from_lem [] t =
    let k = 0 - t.max_entries in
    let z : k ≡ 0 = omega arith in
    table_eq t [] (drop k []) t.base t.new_since_save (t.base + k) (t.new_since_save - k)
      (drop_zero k [] z) (omega arith) (omega arith)
trim_from_lem (e ∷ es) t = elim (Bool-cases (ltb t.max_entries (length (e ∷ es)))) [
  | inl h ↦
      let k = suc (length es) - t.max_entries in
      let j = length es - t.max_entries in
      let z : k ≡ suc j = ground arith in
      let c = if ltb 0 t.new_since_save then t.new_since_save - 1 else t.new_since_save in
      rw h (
        trim_from_lem es (record t { base = t.base + 1; new_since_save = c })
        ∙ table_eq t (drop j es) (drop k (e ∷ es)) (t.base + 1 + j) (c - j) (t.base + k)
            (t.new_since_save - k) (drop-suc j k e es z) (omega arith)
            (omega (arith, count_down t.new_since_save)))
  | inr h ↦
      let k = suc (length es) - t.max_entries in
      let z : k ≡ 0 = ground arith in
      rw h (
        table_eq t (e ∷ es) (drop k (e ∷ es)) t.base t.new_since_save (t.base + k)
          (t.new_since_save - k) (drop_zero k (e ∷ es) z) (omega arith) (omega arith))
]

pub trim_lem : (t : HistoryTable) → trim t ≡ trimmed (excess t) t
unfolding trim
trim_lem t = trim_from_lem t.entries t

pub drop-append_front :
    (k : ℕ) (es fs : List HistoryEntry) → k ≤ length es → drop k (es ++ fs) ≡ drop k es ++ fs
drop-append_front zero es fs h = refl
drop-append_front (suc k) [] fs h = absurd (omega arith)
drop-append_front (suc k) (e ∷ es) fs h = drop-append_front k es fs (omega arith)

pub drop-drop : (k j : ℕ) (es : List HistoryEntry) → drop j (drop k es) ≡ drop (k + j) es
drop-drop zero j es = let z : 0 + j ≡ j = omega arith in rw z refl
drop-drop (suc k) zero [] = let z : suc k + 0 ≡ suc k = omega arith in rw z refl
drop-drop (suc k) (suc j) [] = let z : suc k + suc j ≡ suc (k + suc j) = omega arith in rw z refl
drop-drop (suc k) j (e ∷ es) =
    let z : suc k + j ≡ suc (k + j) = omega arith in rw z (drop-drop k j es)

pub drop-append_end :
    (k : ℕ) (es fs : List HistoryEntry) → drop (length es + k) (es ++ fs) ≡ drop k fs
drop-append_end k [] fs = let z : 0 + k ≡ k = omega arith in rw z refl
drop-append_end k (e ∷ es) fs =
    let z : suc (length es) + k ≡ suc (length es + k) = omega arith in
    rw z (drop-append_end k es fs)

pub trim_nothing : (t : HistoryTable) → length t.entries ≤ t.max_entries → trim t ≡ t
trim_nothing t h =
    let z : excess t ≡ 0 = omega arith in
    trim_lem t
    ∙ table_eq t (drop (excess t) t.entries) t.entries (t.base + excess t)
        (t.new_since_save - excess t) t.base t.new_since_save
        (sym (drop_zero (excess t) t.entries z)) (omega arith) (omega arith)

-- The limit is not 0, and holds.
pub record IsHistory (t : HistoryTable) : Type 0 where
  pub limit_positive : 1 ≤ t.max_entries
  pub bounded : length t.entries ≤ t.max_entries

pub trim-IsHistory : (t : HistoryTable) → 1 ≤ t.max_entries → IsHistory (trim t)
trim-IsHistory t h =
    rw (trim_lem t)
      (record { limit_positive = h; bounded = omega (arith, length-drop {0} (excess t) t.entries) })

-- An event number means the same before and after, unless its entry is dropped.
pub get_elem?-drop :
    (k i : ℕ) (es : List HistoryEntry) → get_elem? (drop k es) i ≡ get_elem? es (k + i)
get_elem?-drop zero i es = let z : 0 + i ≡ i = omega arith in rw z refl
get_elem?-drop (suc k) i [] = refl
get_elem?-drop (suc k) i (e ∷ es) =
    let z : suc k + i ≡ suc (k + i) = omega arith in rw z (get_elem?-drop k i es)

pub get-trimmed : (n k : ℕ) (t : HistoryTable) → t.base + k < n → get n (trimmed k t) ≡ get n t
unfolding get
get-trimmed n k t h =
    let at : k + (n - (t.base + k) - 1) ≡ n - t.base - 1 = omega arith in
    ground (arith, get_elem?-drop k (n - (t.base + k) - 1) t.entries, at)

pub get-dropped : (n : ℕ) (t : HistoryTable) → n ≤ t.base → get n t ≡ none
unfolding get
get-dropped n t h = ground arith
