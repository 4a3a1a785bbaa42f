-- ===== src/Umask/Tests.antt =====
-- Runs of symbolic modes, and the theorems at concrete inputs (crates/builtins/src/umask.rs).
use cherubsh.Base.{◌≡◌, refl, true, codes, Text, [], ◌∷◌}
use cherubsh.Umask.{Mode, no_perm, no_mode, format_symbolic, apply_clause, default_who, who_from}
use cherubsh.Umask.Classes.{Keeps, apply_clause-Keeps}
use cherubsh.Umask.Run.{run, printed, changed, bad_option, usage, out_of_range}
use cherubsh.Umask.Restores.{Ends, run_restores, run-Ends}

-- the mask 022
abbrev usual : Mode
usual = record { u = no_perm; g = record no_perm { w = true }; o = record no_perm { w = true } }

format_usual : format_symbolic usual ≡ codes "u=rwx,g=rx,o=rx"
unfolding format_symbolic
format_usual = refl

run_restores_example :
    (text : Text) × (run (codes "-S" ∷ []) usual ≡ printed text usual)
    × (run (text ∷ []) no_mode ≡ changed usual)
run_restores_example = run_restores true usual no_mode

run-Ends_example : Ends usual (run (codes "-pS" ∷ codes "--" ∷ codes "789" ∷ []) usual)
run-Ends_example = run-Ends (codes "-pS" ∷ codes "--" ∷ codes "789" ∷ []) usual

printed_octal : run (codes "-p" ∷ []) usual ≡ printed (codes "umask 0022") usual
unfolding run
printed_octal = refl

bad_flag :
    run (codes "-px" ∷ []) usual
    ≡ record { status = 2; mask = usual; output = []; messages = bad_option b'p' ∷ usage ∷ [] }
unfolding run
bad_flag = refl

too_large :
    run (codes "1000" ∷ []) usual
    ≡ record { status = 1; mask = usual; output = []; messages = out_of_range (codes "1000") ∷ [] }
unfolding run
too_large = refl

apply_clause-Keeps_example :
    Keeps
      (default_who (who_from no_mode (codes "g-w+X")).0)
      usual
      (apply_clause (codes "g-w+X") usual)
apply_clause-Keeps_example = apply_clause-Keeps (codes "g-w+X") usual
