-- ===== src/Keymap.antt =====
-- Keymaps (crates/common/src/keymap.rs). The ordered map of bindings is a list in the order of its
-- keys; Rust orders texts by their bytes, which is the order of their code points. `insert`, `remove` and
-- `find_binding` stand for the calls of the standard library's `BTreeMap`.
pub mod Defaults
pub mod Tests
use cherubsh.Base.{
  ℕ, Bool, true, false, ◌&&◌, ◌||◌, Option, none, some, List, [], ◌∷◌, Text, text_eq, ltb, ◌==◌,
  if◌then◌else◌,
}

pub data EditAction : Type 0 where
  beginning_of_line : EditAction
  end_of_line : EditAction
  forward_char : EditAction
  backward_char : EditAction
  forward_word : EditAction
  backward_word : EditAction
  next_screen_line : EditAction
  previous_screen_line : EditAction
  self_insert : EditAction
  delete_char : EditAction
  backward_delete_char : EditAction
  quoted_insert : EditAction
  tab_insert : EditAction
  transpose_chars : EditAction
  transpose_words : EditAction
  upcase_word : EditAction
  downcase_word : EditAction
  capitalize_word : EditAction
  kill_line : EditAction
  backward_kill_line : EditAction
  kill_word : EditAction
  backward_kill_word : EditAction
  unix_word_rubout : EditAction
  unix_line_discard : EditAction
  kill_region : EditAction
  yank : EditAction
  yank_pop : EditAction
  yank_last_arg : EditAction
  yank_nth_arg : EditAction
  previous_history : EditAction
  next_history : EditAction
  operate_and_get_next : EditAction
  beginning_of_history : EditAction
  end_of_history : EditAction
  reverse_search_history : EditAction
  forward_search_history : EditAction
  non_incremental_reverse_search_history : EditAction
  non_incremental_forward_search_history : EditAction
  history_search_forward : EditAction
  history_search_backward : EditAction
  accept_line : EditAction
  new_line : EditAction
  delete_char_or_list : EditAction
  complete : EditAction
  possible_completions : EditAction
  insert_completions : EditAction
  menu_complete : EditAction
  menu_complete_backward : EditAction
  undo_cmd : EditAction
  revert_line : EditAction
  clear_screen : EditAction
  redraw : EditAction
  abort : EditAction
  tilde : EditAction
  quit : EditAction
  vi_movement_mode : EditAction
  vi_insertion_mode : EditAction
  vi_append_mode : EditAction
  vi_append_eol : EditAction
  noop : EditAction
  shell_command : ℕ → EditAction
  macro : ℕ → EditAction

pub record Keymap : Type 0 where
  pub name : Text
  pub bindings : List (Text × EditAction)
  pub shell_commands : List Text
  pub macros : List Text

-- the order of the keys
abbrev pub text_ltb : Text → Text → Bool
text_ltb [] [] = false
text_ltb [] (d ∷ t) = true
text_ltb (c ∷ s) [] = false
text_ltb (c ∷ s) (d ∷ t) = ltb c d || c == d && text_ltb s t

-- `BTreeMap::insert`
unfoldable pub insert : Text → EditAction → List (Text × EditAction) → List (Text × EditAction)
insert seq action [] = (seq, action) ∷ []
insert seq action ((key, bound) ∷ m) =
    let later = insert seq action m in
    if text_eq seq key
    then (seq, action) ∷ m
    else if text_ltb seq key
    then (seq, action) ∷ (key, bound) ∷ m
    else (key, bound) ∷ later

-- `BTreeMap::remove`, and whether the key was there
unfoldable pub remove : Text → List (Text × EditAction) → List (Text × EditAction) × Bool
remove seq [] = ([], false)
remove seq ((key, bound) ∷ m) =
    let later = remove seq m in
    if text_eq seq key then (m, true) else ((key, bound) ∷ later.0, later.1)

-- `BTreeMap::get`
unfoldable pub find_binding : Text → List (Text × EditAction) → Option EditAction
find_binding seq [] = none
find_binding seq ((key, bound) ∷ m) =
    let later = find_binding seq m in if text_eq seq key then some bound else later

unfoldable pub new : Text → Keymap
new name = record { name = name; bindings = []; shell_commands = []; macros = [] }

unfoldable pub bind : Text → EditAction → Keymap → Keymap
unfolding insert
bind seq action m = record m { bindings = insert seq action m.bindings }

unfoldable pub unbind : Text → Keymap → Keymap × Bool
unfolding remove
unbind seq m = let rest = remove seq m.bindings in (record m { bindings = rest.0 }, rest.1)

unfoldable pub lookup : Text → Keymap → Option EditAction
unfolding find_binding
lookup seq m = find_binding seq m.bindings

unfoldable pub bind_all : List (Text × EditAction) → Keymap → Keymap
unfolding bind
bind_all [] m = m
bind_all ((seq, action) ∷ pairs) m = bind_all pairs (bind seq action m)
