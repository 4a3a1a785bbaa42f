-- ===== src/Arith/Values/Restores.antt =====
-- Every operation on variables, and so every evaluation, puts back what it changes of the context
-- besides the environment (crates/expander/src/arith.rs).
use cherubsh.Base.{ℕ, suc, true, ◌==◌, Text, [], ◌∷◌, ◌++◌, Option, none, some, length, arith}
use cherubsh.Arith.{
  Res, ok, err, no_fuel, Outcome, done, fails, out_of_fuel, next, lift, Gives, Post-if,
}
use cherubsh.Arith.Errors.{Static}
use cherubsh.Arith.Lexer.{Lexer, Lexer_new}
use cherubsh.Arith.Eval.{LValue, scalar, indexed, assoc}
use cherubsh.Arith.Grammar.{parse_comma}
use cherubsh.Arith.Names.{word_to_string, parse_plain_value}
use cherubsh.Arith.Sound.{Frame, Idle, Sound}
use cherubsh.Arith.Sound.Within.{At, Lexer_new-At}
use cherubsh.Arith.Sound.Prefix.{Kept}
use cherubsh.Arith.Sound.Whole.{parse_comma-Reads}
use cherubsh.Arith.Values.{
  Assigned, assigned, refused, Environment, Context, Nested, set_env, eval_text,
}
use cherubsh.Arith.Values.Run.{
  is_indexed, finish_loaded_value, loaded, unset_value, load_scalar, unset_element, missing_element,
  load_lvalue_value, after_assign, store_element, store_lvalue_value,
}
use cherubsh.Arith.Values.Keeps.{
  Same, Same-refl, Same-trans, Same-set_env, KeepsContext, keeps-from,
}

abbrev pub context_frame : (S : Type 0) → Text → Frame (Context S)
context_frame S src = record {
  src = src;
  Keeps = λ c c'. Same c c';
  keeps_refl = Same-refl;
  keeps_trans = Same-trans;
  Exhausted = Unit;
}

-- the evaluators of nested texts put back what they change
pub record NestedKeeps {S : Type 0} (low : Nested (Context S)) : Type 0 where
  pub kept : (src : Text) → Kept (context_frame S src) low.vars
  pub value_keeps : (s : Text) (depth : ℕ) (c : Context S) → KeepsContext c (low.value s depth c)

module _ {S : Type 0} where
  pub text-keeps :
      (low : Nested (Context S)) (keeps : NestedKeeps low) (text : Text) (c : Context S)
      → KeepsContext c (eval_text low text c)
  unfolding eval_text
  text-keeps low keeps text c = lexed (Lexer_new text) (Lexer_new-At text)
    where
      read :
          (r : Outcome (Context S) (ℕ × Lexer))
          → Sound (context_frame S text) true c (suc (length text)) (Idle true) r
          → KeepsContext c r
      read (done (v, lex) c') h = h.1
      read (fails e c') h = h.0
      read out_of_fuel h = tt

      lexed :
          (r : Res Lexer)
          → Gives (At text (suc (length text))) Static ⊥ r
          → KeepsContext c
              (next (lift r c) λ lex c'. parse_comma low.vars (suc (suc (length text))) true lex c')
      lexed (ok lex) at = read (parse_comma low.vars (suc (suc (length text))) true lex c) (
          parse_comma-Reads (context_frame S text) low.vars (keeps.kept text)
            (suc (suc (length text))) (suc (length text)) true lex c (omega arith) at)
      lexed (err e) h = Same-refl c
      lexed no_fuel h = absurd h

module _ {S : Type 0} (environment : Environment S)
    (expand : Text → Context S → Outcome (Context S) Text)
    (expand-keeps : (text : Text) (c : Context S) → KeepsContext c (expand text c))
    (low : Nested (Context S)) (keeps : NestedKeeps low) where
  pub finish-keeps :
      (text : Text) (depth : ℕ) (o : Option ℕ) (a c : Context S)
      → Same a c
      → KeepsContext a (finish_loaded_value environment expand low text depth o c)
  unfolding finish_loaded_value
  finish-keeps text depth (some v) a c h = h
  finish-keeps text depth none a c h =
      keeps-from a c (low.value text depth c) h (keeps.value_keeps text depth c)

  pub loaded-keeps :
      (otherwise : Context S → Outcome (Context S) ℕ) (c : Context S) (r : Option Text × S)
      → ((c' : Context S) → KeepsContext c' (otherwise c'))
      → KeepsContext c (loaded environment expand low otherwise c r)
  unfolding loaded
  loaded-keeps otherwise c (none, env) h =
      keeps-from c (set_env c env) (otherwise (set_env c env)) (Same-set_env c c env (Same-refl c))
        (h (set_env c env))
  loaded-keeps otherwise c (some text, env) h =
      finish-keeps text 0 (parse_plain_value text) c (set_env c env)
        (Same-set_env c c env (Same-refl c))

  pub unset-keeps :
      (name : Text) (c : Context S) → KeepsContext c (unset_value environment expand name c)
  unfolding unset_value
  unset-keeps name c =
      Post-if (λ v c'. Same c c') (λ e c'. Same c c') (Unit {0}) c.eval_unbound_error _ _
        (λ h. Same-refl c) λ h. Same-refl c

  pub load_scalar-keeps :
      (name : Text) (c : Context S) → KeepsContext c (load_scalar environment expand low name c)
  unfolding load_scalar
  load_scalar-keeps name c =
      loaded-keeps (unset_value environment expand name) c (environment.get name c.env)
        (unset-keeps name)

  pub unset_element-keeps :
      (name text : Text) (c : Context S)
      → KeepsContext c (unset_element environment expand name text c)
  unfolding unset_element
  unset_element-keeps name text c =
      Post-if (λ v c'. Same c c') (λ e c'. Same c c') (Unit {0})
        (is_indexed (environment.kind name c.env)) _ _ (λ h. Same-refl c) λ h. unset-keeps text c

  pub missing-keeps :
      (name : Text) (index : ℕ) (c : Context S)
      → KeepsContext c (missing_element environment expand low name index c)
  unfolding missing_element
  missing-keeps name index c =
      Post-if (λ v c'. Same c c') (λ e c'. Same c c') (Unit {0}) (index == 0) _ _
        (λ h.
          loaded-keeps (unset_element environment expand name name) c (environment.get name c.env)
            (unset_element-keeps name name))
        λ h. unset_element-keeps name (name ++ b'[' ∷ word_to_string index ++ b']' ∷ []) c

  pub load-keeps :
      (lvalue : LValue) (c : Context S)
      → KeepsContext c (load_lvalue_value environment expand low lvalue c)
  unfolding load_lvalue_value
  load-keeps (scalar name) c = load_scalar-keeps name c
  load-keeps (indexed name index) c =
      loaded-keeps (missing_element environment expand low name index) c
        (environment.get_array_indexed name index c.env) (missing-keeps name index)
  load-keeps (assoc name key) c =
      loaded-keeps (λ c'. done 0 c') c (environment.get_array_assoc name key c.env)
        λ c'. Same-refl c'

  pub assigned-keeps :
      (c : Context S) (r : Assigned S) → KeepsContext c (after_assign environment expand c r)
  unfolding after_assign
  assigned-keeps c (assigned env) = Same-set_env c c env (Same-refl c)
  assigned-keeps c (refused e env) = Same-set_env c c env (Same-refl c)

  pub element-keeps :
      (name : Text) (write : S → S) (c : Context S)
      → KeepsContext c (store_element environment expand name write c)
  unfolding store_element
  element-keeps name write c =
      Post-if (λ v c'. Same c c') (λ e c'. Same c c') (Unit {0})
        (environment.is_readonly name c.env) _ _ (λ h. Same-refl c)
        λ h. Same-set_env c c (write c.env) (Same-refl c)

  pub store-keeps :
      (lvalue : LValue) (v : ℕ) (c : Context S)
      → KeepsContext c (store_lvalue_value environment expand lvalue v c)
  unfolding store_lvalue_value
  store-keeps (scalar name) v c =
      assigned-keeps c (environment.assign name (word_to_string v) c.env)
  store-keeps (indexed name index) v c =
      element-keeps name (environment.set_array_indexed name index (word_to_string v)) c
  store-keeps (assoc name key) v c =
      element-keeps name (environment.set_array_assoc name key (word_to_string v)) c
