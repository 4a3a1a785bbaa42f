-- ===== src/Signals.antt =====
-- Trap names and actions (crates/common/src/signals.rs).
pub mod Names
pub mod Tests
use cherubsh.Base.{
  ℕ, zero, suc, ◌+◌, ◌-◌, ◌^◌, Bool, true, false, ◌&&◌, ◌||◌, Option, none, some, List, [], ◌∷◌,
  map, Text, text_eq, starts_with, codes, drop, leb, ltb, if◌then◌else◌, ℤ, pos, negsuc,
  parse_signed, to_string,
}

abbrev pub nsig : ℕ
nsig = 64

pub data TrapKind : Type 0 where
  numeric : ℤ → TrapKind
  exit_trap : TrapKind
  err_trap : TrapKind
  debug_trap : TrapKind
  return_trap : TrapKind

-- `to_ascii_uppercase`
abbrev pub upper : ℕ → ℕ
upper c = if leb b'a' c && leb c b'z' then c - 32 else c

-- the value of `parse::<i32>`, as a signal number
unfoldable pub numbered : Option ℤ → Option TrapKind
numbered none = none
numbered (some (negsuc n)) = none
numbered (some (pos zero)) = none
numbered (some (pos (suc n))) = if leb nsig (suc n) then none else some (numeric (pos (suc n)))

unfoldable pub parse_stripped : Text → Option TrapKind
unfolding numbered
parse_stripped s =
    if text_eq s (codes "EXIT") || text_eq s (codes "0")
    then some exit_trap
    else if text_eq s (codes "ERR")
    then some err_trap
    else if text_eq s (codes "DEBUG")
    then some debug_trap
    else if text_eq s (codes "RETURN")
    then some return_trap
    else numbered (parse_signed (2 ^ 31) s)

unfoldable pub parse : Text → Option TrapKind
unfolding parse_stripped
parse name =
    let s = map upper name in parse_stripped (if starts_with s (codes "SIG") then drop 3 s else s)

unfoldable pub as_signal : TrapKind → Option ℤ
as_signal (numeric n) = some n
as_signal exit_trap = none
as_signal err_trap = none
as_signal debug_trap = none
as_signal return_trap = none

-- Rust's `to_string` of an i32
abbrev pub int_to_string : ℤ → Text
int_to_string (pos n) = to_string n
int_to_string (negsuc n) = b'-' ∷ to_string (n + 1)

unfoldable pub as_str : TrapKind → Text
as_str exit_trap = codes "EXIT"
as_str err_trap = codes "ERR"
as_str debug_trap = codes "DEBUG"
as_str return_trap = codes "RETURN"
as_str (numeric n) = int_to_string n

-- what is to be done when a trap is taken
pub data TrapAction : Type 0 where
  default_action : TrapAction
  ignore : TrapAction
  command_text : Text → TrapAction

unfoldable pub is_default : TrapAction → Bool
is_default default_action = true
is_default ignore = false
is_default (command_text s) = false

unfoldable pub is_ignore : TrapAction → Bool
is_ignore default_action = false
is_ignore ignore = true
is_ignore (command_text s) = false

unfoldable pub command : TrapAction → Option Text
command default_action = none
command ignore = none
command (command_text s) = some s
