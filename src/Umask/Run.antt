-- ===== src/Umask/Run.antt =====
-- The builtin `umask` (crates/builtins/src/umask.rs `run`). What it prints is its output, a line each,
-- and its messages are values; the mask of the process goes in and out.
use cherubsh.Base.{
  ℕ, ◌+◌, ◌*◌, ◌-◌, ◌/◌, ◌%◌, ◌^◌, Bool, false, not, ◌&&◌, ◌||◌, Option, none, some, List, [], ◌∷◌,
  ◌++◌, Text, codes, text_eq, starts_with, length, drop, all, get_elem?, is_ascii_digit, leb, ltb,
  ◌==◌, if◌then◌else◌,
}
use cherubsh.Umask.{
  Perm, Mode, character, operator, Outcome, ok, err, format_symbolic, apply_symbolic,
}

-- `u32::from_str_radix` with the radix 8
unfoldable pub octal_after : ℕ → Text → Option ℕ
octal_after acc [] = some acc
octal_after acc (c ∷ s) =
    let rest = octal_after (acc * 8 + (c - b'0')) s in
    if leb b'0' c && leb c b'7' && ltb (acc * 8 + (c - b'0')) (2 ^ 32) then rest else none

abbrev pub some_octal : Text → Option ℕ
some_octal [] = none
some_octal (c ∷ s) = octal_after 0 (c ∷ s)

unfoldable pub from_octal : Text → Option ℕ
unfolding octal_after
from_octal s = if starts_with s (b'+' ∷ []) then some_octal (drop 1 s) else some_octal s

-- a digit of the mask, and the bits of one
abbrev pub perm_digit : Perm → ℕ
perm_digit p = (if p.r then 4 else 0) + (if p.w then 2 else 0) + (if p.x then 1 else 0)

abbrev pub perm_of : ℕ → Perm
perm_of n = record { r = n / 4 % 2 == 1; w = n / 2 % 2 == 1; x = n % 2 == 1 }

abbrev pub mode_of : ℕ → Mode
mode_of n = record { u = perm_of (n / 64 % 8); g = perm_of (n / 8 % 8); o = perm_of (n % 8) }

-- the format `{:04o}`
abbrev pub format_octal : Mode → Text
format_octal m =
    b'0' ∷ (b'0' + perm_digit m.u) ∷ (b'0' + perm_digit m.g) ∷ (b'0' + perm_digit m.o) ∷ []

pub record Flags : Type 0 where
  pub symbolic : Bool
  pub print_form : Bool

abbrev pub is_flag : ℕ → Bool
is_flag ch = ch == b'p' || ch == b'S'

abbrev pub set_flags : Text → Flags → Flags
set_flags [] f = f
set_flags (ch ∷ chars) f =
    set_flags chars
      (record { symbolic = f.symbolic || ch == b'S'; print_form = f.print_form || ch == b'p' })

-- `-p`, `-S`, or several of these letters
abbrev pub has_flags : Text → Bool
has_flags arg = starts_with arg (b'-' ∷ []) && ltb 1 (length arg) && all is_flag (drop 1 arg)

-- what the loop over the options comes to
pub data Scan : Type 0 where
  operands : Flags → List Text → Scan
  invalid_option : ℕ → Scan

abbrev pub or_dash : Option ℕ → ℕ
or_dash none = b'-'
or_dash (some ch) = ch

unfoldable pub scan : Flags → List Text → Scan
scan f [] = operands f []
scan f (arg ∷ args) =
    let more = scan (set_flags (drop 1 arg) f) args in
    if text_eq arg (codes "--")
    then operands f args
    else if has_flags arg
    then more
    else if starts_with arg (b'-' ∷ []) && not (text_eq arg (codes "-"))
    then invalid_option (or_dash (get_elem? arg 1))
    else operands f (arg ∷ args)

-- the messages, and the line that says how the builtin is used
pub data Message : Type 0 where
  bad_option : ℕ → Message
  usage : Message
  out_of_range : Text → Message
  bad_character : ℕ → Message
  bad_operator : ℕ → Message

pub record Answer : Type 0 where
  pub status : ℕ
  pub mask : Mode
  pub output : List Text
  pub messages : List Message

abbrev pub printed : Text → Mode → Answer
printed text m = record { status = 0; mask = m; output = text ∷ []; messages = [] }

abbrev pub changed : Mode → Answer
changed m = record { status = 0; mask = m; output = []; messages = [] }

abbrev pub failed : Message → Mode → Answer
failed message m = record { status = 1; mask = m; output = []; messages = message ∷ [] }

abbrev pub mask_text : Flags → Mode → Text
mask_text f m =
    if f.symbolic
    then (if f.print_form then codes "umask -S " ++ format_symbolic m else format_symbolic m)
    else if f.print_form
    then codes "umask " ++ format_octal m
    else format_octal m

abbrev pub set_symbolic : Mode → Outcome → Answer
set_symbolic m (ok new_mask) = changed new_mask
set_symbolic m (err (character ch)) = failed (bad_character ch) m
set_symbolic m (err (operator ch)) = failed (bad_operator ch) m

abbrev pub set_mode : Text → Mode → Option ℕ → Answer
set_mode arg m (some n) = if ltb 0o777 n then failed (out_of_range arg) m else changed (mode_of n)
set_mode arg m none =
    if all is_ascii_digit arg
    then failed (out_of_range arg) m
    else set_symbolic m (apply_symbolic arg m)

unfoldable pub run_scanned : Scan → Mode → Answer
unfolding from_octal format_symbolic apply_symbolic
run_scanned (invalid_option ch) m = record {
  status = 2;
  mask = m;
  output = [];
  messages = bad_option ch ∷ usage ∷ [];
}
run_scanned (operands f []) m = printed (mask_text f m) m
run_scanned (operands f (arg ∷ args)) m = set_mode arg m (from_octal arg)

unfoldable pub run : List Text → Mode → Answer
unfolding scan run_scanned
run args m = run_scanned (scan (record { symbolic = false; print_form = false }) args) m
