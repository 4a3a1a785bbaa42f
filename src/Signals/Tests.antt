-- ===== src/Signals/Tests.antt =====
-- The theorems on trap names at concrete inputs (crates/common/src/signals.rs).
use cherubsh.Base.{◌≡◌, refl, some, pos, codes, arith}
use cherubsh.Signals.{numeric, exit_trap, parse, as_str}
use cherubsh.Signals.Names.{parse-as_str}

parse_exit : parse (codes "sigExit") ≡ some exit_trap
unfolding parse
parse_exit = refl

parse-as_str_example : parse (as_str (numeric (pos 15))) ≡ some (numeric (pos 15))
parse-as_str_example = parse-as_str (numeric (pos 15)) (omega arith, omega arith)
