-- ===== src/Edit/Valid/Complete.antt =====
-- Completion does not panic when the word starts before the point, and writes nothing but the word
-- (crates/lineedit/src/buffer.rs).
use cherubsh.Base.{
  ◌≡◌, refl, ℕ, zero, suc, ◌+◌, ◌≤◌, inl, inr, not, Option, none, some, List, [], ◌∷◌, ◌++◌, ◌>>=◌,
  ◌||◌, ◌&&◌, arith, length, take, drop, if◌then◌else◌, ltb, ◌==◌, slice_lem, length-take,
  length-append, Bool-cases, slices_join, take-length, insert_at, length-slice, insert_at_lem,
  append_assoc, sym,
}
use cherubsh.Edit.{
  Text, EditBuffer, snapshot, put, insert, char_index_for_byte, index_for_byte, byte_len, len_utf8,
}
use cherubsh.Edit.Kill.{replace_char_range}
use cherubsh.Edit.Complete.{
  Completion, CompletionApplication, append_with, choose, rebuild, write_choice,
  apply_completion_result, replace_completion, ends_with_slash,
}
use cherubsh.Edit.Valid.{IsValid, Safe, >>=-Safe}
use cherubsh.Edit.Valid.Basic.{insert-IsValid}
use cherubsh.Edit.Valid.Kill.{snapshot_with, snapshot_with-IsValid, replace_char_range-IsValid}
use cherubsh.Edit.Valid.Prefix.{common_prefix_longest}

-- An index that the bytes reach.
index_for_byte-le :
    (byte : ℕ) (cs : Text) (index offset n : ℕ)
    → byte ≤ offset + byte_len (take n cs)
    → index_for_byte byte cs index offset ≤ index + n
unfolding index_for_byte
index_for_byte-le byte [] index offset n h = omega arith
index_for_byte-le byte (c ∷ cs) index offset zero h = ground arith
index_for_byte-le byte (c ∷ cs) index offset (suc n) h =
    ground (arith, index_for_byte-le byte cs (index + 1) (offset + len_utf8 c) n)

-- A byte at or before the point belongs to a character at or before the point.
pub char_index_for_byte-le :
    (byte : ℕ) (b : EditBuffer)
    → byte ≤ byte_len (take b.point b.chars)
    → char_index_for_byte byte b ≤ b.point
unfolding char_index_for_byte
char_index_for_byte-le byte b h = omega (arith, index_for_byte-le byte b.chars 0 0 b.point)

choose_total :
    (matches : List Text) (word : Text) → (r : Option Text) × (choose matches word ≡ some r)
unfolding choose
choose_total [] word = (none, ground arith)
choose_total (m ∷ []) word = let (n, e, _, _, _) = common_prefix_longest m [] in (some m, rw e)
choose_total (m ∷ (s ∷ rest)) word =
    let (n, e, _, _, _) = common_prefix_longest m (s ∷ rest) in
    (if ltb (length word) (length (take n m)) then some (take n m) else none, rw e)

-- The buffer is valid, and outside `start..point` the text is that of `b`.
abbrev pub WritesWord : EditBuffer → ℕ → Option EditBuffer → Type 0
WritesWord b start none = ⊥
WritesWord b start (some b') =
    IsValid b'
    × (word : Text) × (b'.chars ≡ take start b.chars ++ word ++ drop b.point b.chars)
    × (b'.point ≡ start + length word)

-- `put` after the word makes the word longer.
put-WritesWord :
    (c start : ℕ) (b t : EditBuffer)
    → start ≤ length b.chars
    → WritesWord b start (some t)
    → WritesWord b start (put c t)
unfolding put
put-WritesWord c start b t h (v, word, e, p) =
    let pre = take start b.chars ++ word in
    let tail = drop b.point b.chars in
    let at : t.point ≡ length pre =
      omega (arith, length-append {0} (take start b.chars) word, length-take {0} start b.chars) in
    let q : insert_at t.point c t.chars ≡ some (pre ++ c ∷ tail) =
      rw e (insert_at_lem t.point c pre tail at) in
    rw q (
      ground (arith, length-append pre (c ∷ tail)),
      word ++ c ∷ [],
      simp append_assoc,
      omega (arith, length-append {0} word (c ∷ [])),
    )

append_with-WritesWord :
    (ch : Option ℕ) (start : ℕ) (b t : EditBuffer)
    → start ≤ length b.chars
    → WritesWord b start (some t)
    → WritesWord b start (append_with put ch t)
append_with-WritesWord none start b t h w = w
append_with-WritesWord (some c) start b t h w = put-WritesWord c start b t h w

-- The writing half replaces the word before the point.
rebuild-WritesWord :
    (completion : Completion) (start : ℕ) (chosen : Text) (b : EditBuffer)
    → IsValid b
    → start ≤ b.point
    → WritesWord b start (rebuild completion start chosen b)
unfolding rebuild snapshot
rebuild-WritesWord completion start chosen b v h =
    let len = length b.chars in
    let text = take start b.chars ++ chosen ++ drop b.point b.chars in
    let t = snapshot_with b text (start + length chosen) in
    let w : WritesWord b start (some t) = (
      snapshot_with-IsValid b text (start + length chosen) v (
          omega (
            arith,
            v.point_fits,
            length-append {0} (take start b.chars ++ chosen) (drop b.point b.chars),
            length-append {0} (take start b.chars) chosen,
            length-take {0} start b.chars,
          )),
      chosen,
      refl,
      refl,
    ) in
    let go =
      append_with-WritesWord completion.append_character start b t (omega (arith, v.point_fits))
        w in
    rw
      (
        slice_lem 0 start b.chars (omega arith) (omega (arith, v.point_fits)),
        slice_lem b.point len b.chars v.point_fits (omega arith),
        take-length b.chars,
      )
      (elim (Bool-cases (
        length completion.matches == 1
        && not completion.suppress_append
        && not (completion.filenames && ends_with_slash chosen))) [
          | inl more ↦ rw more go
          | inr done ↦ rw done w
        ])

-- as `WritesWord`, of the buffer that comes with a result
abbrev pub CompletesWord : EditBuffer → ℕ → Option (EditBuffer × CompletionApplication) → Type 0
CompletesWord b start none = ⊥
CompletesWord b start (some (b', result)) = WritesWord b start (some b')

unchanged-WritesWord :
    (start : ℕ) (b : EditBuffer) → IsValid b → start ≤ b.point → WritesWord b start (some b)
unchanged-WritesWord start b v h = (
  v,
  drop start (take b.point b.chars),
  sym (slices_join start b.point b.chars h),
  omega (arith, length-slice {0} start b.point b.chars v.point_fits),
)

>>=-CompletesWord :
    (b : EditBuffer) (start : ℕ) (m : Option EditBuffer)
    (result : EditBuffer → CompletionApplication)
    → WritesWord b start m
    → CompletesWord b start (m >>= λ t. some (t, result t))
>>=-CompletesWord b start none result w = w
>>=-CompletesWord b start (some t) result w = w

write_choice-CompletesWord :
    (completion : Completion) (start : ℕ) (r : Option Text) (b : EditBuffer)
    → IsValid b
    → start ≤ b.point
    → CompletesWord b start (write_choice completion start r b)
unfolding write_choice
write_choice-CompletesWord completion start none b v h = unchanged-WritesWord start b v h
write_choice-CompletesWord completion start (some chosen) b v h =
    >>=-CompletesWord b start (rebuild completion start chosen b) _
      (rebuild-WritesWord completion start chosen b v h)

-- A completion whose word starts at or before the point does not panic, keeps the buffer valid,
-- and changes nothing before the word or after the point.
pub apply_completion_result-CompletesWord :
    (completion : Completion) (b : EditBuffer)
    → IsValid b
    → completion.replace_start ≤ byte_len (take b.point b.chars)
    → CompletesWord b
        (char_index_for_byte completion.replace_start b)
        (apply_completion_result completion b)
unfolding apply_completion_result
apply_completion_result-CompletesWord completion b v h =
    let start = char_index_for_byte completion.replace_start b in
    let le = char_index_for_byte-le completion.replace_start b h in
    let word = drop start (take b.point b.chars) in
    let same = unchanged-WritesWord start b v le in
    elim (Bool-cases (length completion.matches == 0)) [
      | inl empty ↦ rw empty same
      | inr found ↦
          let (r, e) = choose_total completion.matches word in
          rw (found, slice_lem start b.point b.chars le v.point_fits, e)
            (write_choice-CompletesWord completion start r b v le)
    ]

append_with-Safe : (ch : Option ℕ) (b : EditBuffer) → IsValid b → Safe (append_with insert ch b)
append_with-Safe none b v = v
append_with-Safe (some c) b v = insert-IsValid c b v

pub replace_completion-IsValid :
    (completion : Completion) (chosen : Text) (b : EditBuffer)
    → IsValid b
    → Safe (replace_completion completion chosen b)
unfolding replace_completion
replace_completion-IsValid completion chosen b v =
    let start = char_index_for_byte completion.replace_start b in
    >>=-Safe (replace_char_range start b.point chosen b) _
      (replace_char_range-IsValid start b.point chosen b v)
      (λ s w.
        elim (Bool-cases
          (completion.suppress_append || completion.filenames && ends_with_slash chosen)) [
            | inl done ↦ rw done w
            | inr more ↦ rw more (append_with-Safe completion.append_character s w)
          ])
