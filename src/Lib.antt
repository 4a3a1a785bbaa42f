-- ===== src/Lib.antt =====
-- Verification library of cherubsh, a shell in Rust that behaves like Bash 5.3.
--
-- The library models, by shallow embedding, parts of the shell whose logic is pure or works on a
-- table in memory:
--
-- - Edit (crates/lineedit/src/buffer.rs, the record Completion of crates/lineedit/src/lib.rs): the
--   line buffer `EditBuffer`. Edit.antt has the state and the plain operations, Edit/Words the
--   motion by words, Edit/Kill the operations that cut text, Edit/Transform transposition and
--   case, Edit/Complete completion. A method of the source has the name of its function here and
--   returns the new buffer. Edit/Valid and its children have the invariant, Edit/Undo what undo
--   and insertion do, Edit/Session sequences of operations, Edit/Tests runs.
-- - Edit/Ring (crates/lineedit/src/killring.rs): the kill ring.
-- - Jobs (crates/common/src/jobs.rs): the job table. Jobs.antt has the data, Jobs/Markers the free
--   job number and the current and previous markers, Jobs/Table the changes of one job, Jobs/Reap
--   reaping, purging and notices, Jobs/Spec job specifications. Jobs/Ids and Jobs/Valid have the
--   theorems, Jobs/Tests runs.
-- - History (crates/common/src/history.rs): the command history. History.antt has the table and what
--   changes it, History/Files the history file line by line, History/Load and History/Complete the
--   file with entries of several lines. History/Trims, Events, Dups, Removal, Saves, RoundTrip,
--   Multiline and Runs have the theorems, History/Tests runs.
-- - Keymap (crates/common/src/keymap.rs): the keymaps of the line editor. Keymap.antt has the
--   bindings and what changes them, Keymap/Defaults the default tables, Keymap/Tests runs.
-- - Umask (crates/builtins/src/umask.rs): the builtin `umask`. Umask.antt has the symbolic modes,
--   Umask/Run the options, the octal form and the whole run. Umask/RoundTrip, Restores and Classes
--   have the theorems.
-- - Options (crates/builtins/src/getopt.rs): the option parser that the builtins call. Options/Steps,
--   Options/Progress, Options/Drain and Options/Flags have the theorems.
-- - Signals (crates/common/src/signals.rs): the kinds of traps with their names, and their actions.
--   Signals/Names has the theorems.
-- - Split (crates/expander/src/split.rs, with ifs.rs, buf.rs and the bytes of a shell string of
--   quote.rs there): the buffer of an expansion (Split/Buffer), the state of the IFS (Split/Ifs), and
--   the splitting of the buffer into words (Split.antt). Split/Pieces has what is pushed as data, and
--   the rules for the IFS as a machine over it. Split/Dequote, Joins, Steps, Ends, Found, Gaps, Passes,
--   Turns, Refines and Values have the theorems, Split/Tests runs.
-- - Arith (crates/expander/src/arith.rs): the evaluator of arithmetic. Arith.antt has its errors and
--   results, Arith/Words the operations of i64, Arith/Number integer constants, Arith/Lexer the lexer,
--   Arith/Operators, Unary and Grammar the recursive descent over a context, Arith/Names and
--   Arith/Values (with Run and Nesting) variables, subscripts, values that are expressions, and the
--   entry points. Arith/Printed has expressions as data, their printed form and their meaning.
--   Arith/Products, Constants, Levels, Tokens, Ends, Operands, Bare, Evaluates, Refines, Errors,
--   Lexing, Sound and the other children of Values have the theorems, Arith/Tests and Arith/Examples
--   runs.
-- - Base: tests, lists, texts, integers and decimal numbers, which the parts share.
--
-- The editor calls the buffer and passes what a kill returns to the kill ring; the shell keeps one
-- job table, which the builtins read and which reaped children change, and one history table, which
-- the reader loop adds to and the builtins `history` and `fc` read.
--
-- How Rust is read:
--
-- - A `char` is its code point, a text a list of code points (in Split, of bytes), a vector a list.
--   `none` stands for a panic (an index or a range outside a vector), or for a lookup that fails, as
--   each file says.
-- - The undo stack has its newest snapshot first. Hash maps and sets are functions.
-- - A `usize` that counts elements of a vector is not wrapped, since Rust keeps lengths far below
--   2^64; a counter that can wrap is written with its modulus, and arithmetic that panics on an overflow
--   has `none` there.
-- - A number that the code keeps within nine permission bits is a record of Booleans.
-- - An i32 status word and an i64 of Arith is its bit pattern. A process id is an integer.
--
-- Fuel: `word_ranges` has one more round than the line has characters, `allocate_id` one more than
-- there are jobs; theorems show that both end by their own tests. The scan for here-document
-- delimiters has as many rounds as the line has characters, and a theorem shows that more change
-- nothing. A call of `next` has two rounds, since it moves on to the next word at most once; a theorem
-- shows that it always answers. The loops of word splitting have as many rounds as the text has bytes;
-- theorems show that they end by their own tests. The grammar of arithmetic has more rounds than the
-- text has characters, for each loop and each depth of parentheses; theorems show that they are enough
-- for printed expressions and for a part that is not evaluated. The nesting of texts in texts (values, subscripts, namerefs) has as many levels as the caller
-- gives, since a nameref may lead to another without end.
--
-- Parameters: the classes of Unicode characters (a table of Rust's library) and the status macros
-- of the libc crate. The bounds on the macros are the record IsPosix. In Arith, the environment of the
-- shell (the trait `Environment`, of which Arith calls the operations in the record of that name) and
-- the expansion of a subscript.
--
-- Not modelled: the terminal, system calls, signal masks, and the components that the manifest
-- lists as such; `apply_completion`, which prints the candidates that
-- `apply_completion_result` returns; `list_mut` and `get_mut`, through which other code writes to
-- jobs in place.
mod Base
pub mod Edit
pub mod Jobs
pub mod History
pub mod Keymap
pub mod Umask
pub mod Options
pub mod Signals
pub mod Split
pub mod Arith
