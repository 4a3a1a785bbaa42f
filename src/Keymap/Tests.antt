-- ===== src/Keymap/Tests.antt =====
-- Runs of keymaps (crates/common/src/keymap.rs).
use cherubsh.Base.{◌≡◌, refl, none, some, codes}
use cherubsh.Keymap.{new, yank, bind, unbind, lookup, bind_all, Keymap}
use cherubsh.Keymap.Defaults.{install_emacs_defaults}

abbrev rebound : Keymap
rebound = bind (codes "\\C-a") yank (install_emacs_defaults (new (codes "emacs")))

rebound_key : lookup (codes "\\C-a") rebound ≡ some yank
unfolding lookup bind install_emacs_defaults bind_all new
rebound_key = refl

unbound_key : lookup (codes "\\C-a") (unbind (codes "\\C-a") rebound).0 ≡ none
unfolding lookup unbind bind install_emacs_defaults bind_all new
unbound_key = refl
