-- ===== src/Jobs/Spec.antt =====
-- Job specifications: `%1`, `%+`, `%name`, `%?part` or a process id, and the job that they name
-- (crates/common/src/jobs.rs).
use cherubsh.Base.{
  ◌≡◌, refl, ℕ, ◌^◌, ◌≤◌, ◌-◌, ℤ, Bool, true, false, ◌||◌, Option, none, some, List, [], ◌∷◌, ◌++◌,
  arith, Text, text_eq, starts_with, starts_with-append, keep-append, length-map, length-append,
  contains, keep, map, ◌==◌, if◌then◌else◌, is_some, parse_unsigned, parse_signed, to_string,
  parse_unsigned-to_string, to_string_head, length,
}
use cherubsh.Jobs.{Job, JobTable}
use cherubsh.Jobs.Table.{get}

pub data JobSpec : Type 0 where
  current_job previous_job : JobSpec
  by_id : ℕ → JobSpec
  by_prefix by_substring : Text → JobSpec
  by_pid : ℤ → JobSpec

pub data JobLookupErr : Type 0 where
  no_such_job is_ambiguous : JobLookupErr

pub data Found : Type 0 where
  ok : ℕ → Found
  err : JobLookupErr → Found

abbrev pub id_or_prefix : Option ℕ → Text → JobSpec
id_or_prefix none rest = by_prefix rest
id_or_prefix (some n) rest = by_id n

-- what follows `%`
unfoldable pub parse_rest : Text → JobSpec
parse_rest [] = current_job
parse_rest (c ∷ cs) =
    let rest = c ∷ cs in
    if text_eq rest (b'%' ∷ []) || text_eq rest (b'+' ∷ [])
    then current_job
    else if text_eq rest (b'-' ∷ [])
    then previous_job
    else if c == b'?'
    then by_substring cs
    else id_or_prefix (parse_unsigned (2 ^ 32 - 1) rest) rest

abbrev pub pid_spec : Option ℤ → Option JobSpec
pid_spec none = none
pid_spec (some pid) = some (by_pid pid)

unfoldable pub parse : Text → Option JobSpec
unfolding parse_rest
parse [] = pid_spec (parse_signed (2 ^ 31) [])
parse (c ∷ cs) =
    if c == b'%' then some (parse_rest cs) else pid_spec (parse_signed (2 ^ 31) (c ∷ cs))

abbrev pub found_or : Option ℕ → Found
found_or none = err no_such_job
found_or (some id) = ok id

-- `match hits.len()`
abbrev pub only : List ℕ → Found
only [] = err no_such_job
only (id ∷ []) = ok id
only (_ ∷ _ ∷ _) = err is_ambiguous

unfoldable pub lookup : JobSpec → JobTable → Found
lookup current_job t = found_or t.current
lookup previous_job t = found_or t.previous
lookup (by_id id) t = if is_some (get id t) then ok id else err no_such_job
lookup (by_prefix s) t = only (map (λ j. j.id) (keep (λ j. starts_with j.command_line s) t.jobs))
lookup (by_substring s) t = only (map (λ j. j.id) (keep (λ j. contains j.command_line s) t.jobs))
lookup (by_pid pid) t = found_or (t.pid_to_job pid)

-- Every job number in range, written as `%N`, is read back as that number.
pub parse_id : (n : ℕ) → n ≤ 2 ^ 32 - 1 → parse (b'%' ∷ to_string n) ≡ some (by_id n)
unfolding parse
parse_id n h =
    let (c, cs, e, d) = to_string_head n in
    let number : parse_unsigned (2 ^ 32 - 1) (c ∷ cs) ≡ some n =
      rw e at (parse_unsigned-to_string (2 ^ 32 - 1) n h) in
    let no_percent : (c == b'%') ≡ false = ground arith in
    let no_plus : (c == b'+') ≡ false = ground arith in
    let no_minus : (c == b'-') ≡ false = ground arith in
    let no_question : (c == b'?') ≡ false = ground arith in
    rw e (unfold parse_rest in rw (no_percent, no_plus, no_minus, no_question, number))

only_many : (ids : List ℕ) → 2 ≤ length ids → only ids ≡ err is_ambiguous
only_many [] h = absurd (omega arith)
only_many (x ∷ []) h = absurd (omega arith)
only_many (x ∷ y ∷ ids) h = refl

keep_cons :
    (p : Job → Bool) (j : Job) (js : List Job) → p j ≡ true → keep p (j ∷ js) ≡ j ∷ keep p js
keep_cons p j js h = rw h

-- However the jobs stand, a prefix with which the commands of two jobs begin is ambiguous: the
-- lookup takes neither of them.
pub lookup_shared_prefix :
    (s r r' : Text) (j j' : Job) (before between after : List Job) (t : JobTable)
    → t.jobs ≡ before ++ (j ∷ between ++ (j' ∷ after))
    → j.command_line ≡ s ++ r
    → j'.command_line ≡ s ++ r'
    → lookup (by_prefix s) t ≡ err is_ambiguous
unfolding lookup
lookup_shared_prefix s r r' j j' before between after t e p q =
    let fits = λ (j : Job). starts_with j.command_line s in
    let first : fits j ≡ true = rw p (starts_with-append s r) in
    let second : fits j' ≡ true = rw q (starts_with-append s r') in
    let hits : keep fits t.jobs
        ≡ keep fits before ++ (j ∷ (keep fits between ++ (j' ∷ keep fits after))) =
      rw (
        e,
        keep-append fits before,
        keep_cons fits j _ first,
        keep-append fits between,
        keep_cons fits j' after second,
      ) in
    rw hits (
      only_many _ (
        omega (
          arith,
          length-map (keep fits before ++ (j ∷ (keep fits between ++ (j' ∷ keep fits after))))
              (λ (j : Job). j.id),
          length-append {0} (keep fits before) (j ∷ (keep fits between ++ (j' ∷ keep fits after))),
          length-append {0} (keep fits between) (j' ∷ keep fits after),
        )))
