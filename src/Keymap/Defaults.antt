-- ===== src/Keymap/Defaults.antt =====
-- The default keymaps (crates/common/src/keymap.rs).
use cherubsh.Base.{List, [], ◌∷◌, Text, codes}
use cherubsh.Keymap.{
  EditAction, Keymap, bind_all, abort, accept_line, backward_char, backward_delete_char,
  backward_word, beginning_of_line, capitalize_word, clear_screen, complete, delete_char,
  delete_char_or_list, downcase_word, end_of_line, forward_char, forward_search_history,
  forward_word, kill_line, kill_word, next_history, operate_and_get_next, possible_completions,
  previous_history, reverse_search_history, transpose_chars, transpose_words, undo_cmd,
  unix_line_discard, unix_word_rubout, upcase_word, vi_append_eol, vi_append_mode,
  vi_insertion_mode, vi_movement_mode, yank, yank_last_arg, yank_pop,
}

abbrev pub emacs_pairs : List (Text × EditAction)
emacs_pairs =
    (codes "\\C-a", beginning_of_line)
    ∷ (codes "\\C-e", end_of_line)
    ∷ (codes "\\C-f", forward_char)
    ∷ (codes "\\C-b", backward_char)
    ∷ (codes "\\M-f", forward_word)
    ∷ (codes "\\M-b", backward_word)
    ∷ (codes "\\C-d", delete_char_or_list)
    ∷ (codes "\\C-h", backward_delete_char)
    ∷ (codes "\\C-k", kill_line)
    ∷ (codes "\\C-u", unix_line_discard)
    ∷ (codes "\\C-w", unix_word_rubout)
    ∷ (codes "\\M-d", kill_word)
    ∷ (codes "\\C-y", yank)
    ∷ (codes "\\M-y", yank_pop)
    ∷ (codes "\\C-t", transpose_chars)
    ∷ (codes "\\M-t", transpose_words)
    ∷ (codes "\\M-u", upcase_word)
    ∷ (codes "\\M-l", downcase_word)
    ∷ (codes "\\M-c", capitalize_word)
    ∷ (codes "\\C-p", previous_history)
    ∷ (codes "\\C-n", next_history)
    ∷ (codes "\\C-o", operate_and_get_next)
    ∷ (codes "\\C-r", reverse_search_history)
    ∷ (codes "\\C-s", forward_search_history)
    ∷ (codes "\\C-j", accept_line)
    ∷ (codes "\\C-m", accept_line)
    ∷ (codes "\\C-l", clear_screen)
    ∷ (codes "\\C-_", undo_cmd)
    ∷ (codes "\\C-x\\C-u", undo_cmd)
    ∷ (codes "\\C-g", abort)
    ∷ (codes "\\e[A", previous_history)
    ∷ (codes "\\e[B", next_history)
    ∷ (codes "\\e[C", forward_char)
    ∷ (codes "\\e[D", backward_char)
    ∷ (codes "\\e[H", beginning_of_line)
    ∷ (codes "\\e[F", end_of_line)
    ∷ (codes "\\eOH", beginning_of_line)
    ∷ (codes "\\eOF", end_of_line)
    ∷ (codes "\\e[3~", delete_char)
    ∷ (codes "\\t", complete)
    ∷ (codes "\\e?", possible_completions)
    ∷ (codes "\\M-.", yank_last_arg)
    ∷ (codes "\\M-_", yank_last_arg)
    ∷ (codes "\\e\\e", complete)
    ∷ []

unfoldable pub install_emacs_defaults : Keymap → Keymap
unfolding bind_all
install_emacs_defaults m = bind_all emacs_pairs m

abbrev pub vi_insert_pairs : List (Text × EditAction)
vi_insert_pairs =
    (codes "\\C-m", accept_line)
    ∷ (codes "\\C-j", accept_line)
    ∷ (codes "\\C-h", backward_delete_char)
    ∷ (codes "\\e", vi_movement_mode)
    ∷ (codes "\\C-i", complete)
    ∷ (codes "\\C-r", reverse_search_history)
    ∷ []

unfoldable pub install_vi_insert_defaults : Keymap → Keymap
unfolding bind_all
install_vi_insert_defaults m = bind_all vi_insert_pairs m

abbrev pub vi_movement_pairs : List (Text × EditAction)
vi_movement_pairs =
    (codes "h", backward_char)
    ∷ (codes "l", forward_char)
    ∷ (codes "k", previous_history)
    ∷ (codes "j", next_history)
    ∷ (codes "0", beginning_of_line)
    ∷ (codes "$", end_of_line)
    ∷ (codes "w", forward_word)
    ∷ (codes "b", backward_word)
    ∷ (codes "i", vi_insertion_mode)
    ∷ (codes "a", vi_append_mode)
    ∷ (codes "A", vi_append_eol)
    ∷ (codes "x", delete_char)
    ∷ (codes "D", kill_line)
    ∷ (codes "u", undo_cmd)
    ∷ (codes "\\C-m", accept_line)
    ∷ (codes "\\C-j", accept_line)
    ∷ (codes "/", reverse_search_history)
    ∷ []

unfoldable pub install_vi_movement_defaults : Keymap → Keymap
unfolding bind_all
install_vi_movement_defaults m = bind_all vi_movement_pairs m
