-- ===== src/History/Complete.antt =====
-- Whether the lines of a history entry are all there (`history_entry_complete` in
-- crates/common/src/history.rs). Every byte that the code tests for is ASCII, so a scan of code points
-- takes the same branches; a position in a line is the text from there on.
use cherubsh.Base.{
  length-drop, ◌≡◌, refl, ℕ, zero, suc, ◌≤◌, inl, inr, Bool, true, false, not, ◌&&◌, ◌||◌, Option,
  none, some, List, [], ◌∷◌, arith, Text, text_eq, starts_with, length, drop, keep, ◌==◌, ltb,
  if◌then◌else◌, lines, take_while, drop_while, Bool-cases,
}

-- the loop of `quotes_balanced`
unfoldable pub quotes_from : Option ℕ → Bool → Text → Bool
quotes_from none escaped [] = not escaped
quotes_from (some q) escaped [] = false
quotes_from quote true (c ∷ s) = quotes_from quote false s
quotes_from none false (c ∷ s) =
    let skip = quotes_from none true s in
    let enter = quotes_from (some c) false s in
    let go = quotes_from none false s in
    if c == b'\\' then skip else if c == b'\'' || c == b'"' then enter else go
quotes_from (some q) false (c ∷ s) =
    let skip = quotes_from (some q) true s in
    let leave = quotes_from none false s in
    let go = quotes_from (some q) false s in
    if q == b'\''
    then (if c == b'\'' then leave else go)
    else if c == b'\\'
    then skip
    else if c == b'"'
    then leave
    else go

unfoldable pub quotes_balanced : Text → Bool
unfolding quotes_from
quotes_balanced input = quotes_from none false input

abbrev pub is_blank : ℕ → Bool
is_blank c = c == b' ' || c == b'\t'

abbrev pub ends_delimiter : ℕ → Bool
ends_delimiter c = is_blank c || c == b';' || c == b'|' || c == b'&'

abbrev pub is_quoting : ℕ → Bool
is_quoting c = c == b'\'' || c == b'"' || c == b'\\'

-- what stands between `<<` and the delimiter
abbrev pub skip_lead : Text → Text
skip_lead s = drop_while is_blank (if starts_with s (b'-' ∷ []) then drop 1 s else s)

abbrev pub push_delimiter : Text → List Text → List Text
push_delimiter raw out =
    let delimiter = keep (λ c. not (is_quoting c)) raw in
    if ltb 0 (length raw) && ltb 0 (length delimiter) then delimiter ∷ out else out

-- The loop of `extract_heredoc_delimiters`.
unfoldable pub delimiters_from : ℕ → Text → List Text
delimiters_from zero s = []
delimiters_from (suc fuel) [] = []
delimiters_from (suc fuel) (c ∷ []) = []
delimiters_from (suc fuel) (c ∷ d ∷ s) =
    let word = skip_lead s in
    let next = delimiters_from fuel (d ∷ s) in
    let past = delimiters_from fuel (drop 1 s) in
    let after = delimiters_from fuel (drop_while (λ c. not (ends_delimiter c)) word) in
    if not (c == b'<') || not (d == b'<')
    then next
    else if starts_with s (b'<' ∷ [])
    then past
    else push_delimiter (take_while (λ c. not (ends_delimiter c)) word) after

unfoldable pub extract_heredoc_delimiters : Text → List Text
unfolding delimiters_from
extract_heredoc_delimiters line = delimiters_from (length line) line

-- the loop of `heredocs_closed`
unfoldable pub heredocs_from : List Text → List Text → Bool
unfolding extract_heredoc_delimiters
heredocs_from [] [] = true
heredocs_from (delim ∷ pending) [] = false
heredocs_from [] (line ∷ ls) = heredocs_from (extract_heredoc_delimiters line) ls
heredocs_from (delim ∷ pending) (line ∷ ls) =
    let closed = heredocs_from pending ls in
    let open_still = heredocs_from (delim ∷ pending) ls in
    if text_eq line delim then closed else open_still

unfoldable pub heredocs_closed : Text → Bool
unfolding heredocs_from
heredocs_closed input = heredocs_from [] (lines input)

unfoldable pub history_entry_complete : Text → Bool
history_entry_complete input = quotes_balanced input && heredocs_closed input

length-drop_while : (p : ℕ → Bool) (s : Text) → length (drop_while p s) ≤ length s
length-drop_while p [] = omega arith
length-drop_while p (c ∷ s) = ground (arith, length-drop_while p s)

length-skip_lead : (s : Text) → length (skip_lead s) ≤ length s
length-skip_lead s = elim (Bool-cases (starts_with s (b'-' ∷ []))) [
  | inl h ↦ rw h (omega (arith, length-drop_while is_blank (drop 1 s), length-drop_1 s))
  | inr h ↦ rw h (length-drop_while is_blank s)
]
  where
    length-drop_1 : (s : Text) → length (drop 1 s) ≤ length s
    length-drop_1 [] = omega arith
    length-drop_1 (c ∷ s) = omega arith

-- The scan takes no more turns than the line has characters: with more fuel than that, it gives the
-- same delimiters.
pub delimiters_from_enough :
    (fuel more : ℕ) (s : Text)
    → length s ≤ fuel
    → fuel ≤ more
    → delimiters_from more s ≡ delimiters_from fuel s
unfolding delimiters_from
delimiters_from_enough zero zero s h k = refl
delimiters_from_enough zero (suc more) [] h k = refl
delimiters_from_enough zero (suc more) (c ∷ s) h k = absurd (omega arith)
delimiters_from_enough (suc fuel) zero s h k = absurd (omega arith)
delimiters_from_enough (suc fuel) (suc more) [] h k = refl
delimiters_from_enough (suc fuel) (suc more) (c ∷ []) h k = refl
delimiters_from_enough (suc fuel) (suc more) (c ∷ d ∷ s) h k =
    let p : ℕ → Bool = λ c. not (ends_delimiter c) in
    let word = drop_while p (skip_lead s) in
    let le : length word ≤ length s =
      omega (arith, length-drop_while p (skip_lead s), length-skip_lead s) in
    rw
      (
        delimiters_from_enough fuel more (d ∷ s) (omega arith) (omega arith),
        delimiters_from_enough fuel more (drop 1 s) (omega (arith, length-drop {0} 1 s))
            (omega arith),
        delimiters_from_enough fuel more word (omega arith) (omega arith),
      )
      refl
