-- ===== src/Arith/Values/Run.antt =====
-- The operations on variables, over an environment (crates/expander/src/arith.rs).
use cherubsh.Base.{
  ℕ, Bool, true, false, ◌&&◌, ◌||◌, not, ◌==◌, if◌then◌else◌, Text, [], ◌∷◌, ◌++◌, length, Option,
  none, some, codes, text_eq,
}
use cherubsh.Arith.{
  ArithError, Outcome, done, fails, next, unbound_variable, readonly_variable, invalid_subscript,
  refused_assignment, invalid_subscript_operator,
}
use cherubsh.Arith.Eval.{LValue, scalar, indexed, assoc}
use cherubsh.Arith.Names.{
  array_ref_parts, is_array_ref, unescape_assoc_subscript, strip_arith_subscript_double_quotes,
  word_to_string, parse_plain_value,
}
use cherubsh.Arith.Values.{
  VarKind, indexed_kind, assoc_kind, AssignError, read_only, bad_subscript, other_refusal, Assigned,
  assigned, refused, Environment, Context, Nested, set_env, with_expand, blank, from_option,
  escaped_bracket, eval_text, all_read,
}

abbrev pub is_assoc : VarKind → Bool
is_assoc assoc_kind = true
is_assoc _ = false

abbrev pub is_indexed : VarKind → Bool
is_indexed indexed_kind = true
is_indexed _ = false

abbrev pub assign_error : AssignError → ArithError
assign_error (read_only name) = readonly_variable name
assign_error (bad_subscript name) = invalid_subscript name
assign_error (other_refusal text) = refused_assignment text

module _ {S : Type 0} (environment : Environment S)
    (expand : Text → Context S → Outcome (Context S) Text) where
  -- `prepare_loaded_value` and `finish_loaded_value`
  unfoldable pub finish_loaded_value :
      Nested (Context S) → Text → ℕ → Option ℕ → Context S → Outcome (Context S) ℕ
  finish_loaded_value low text depth (some v) c = done v c
  finish_loaded_value low text depth none c = low.value text depth c

  unfoldable pub loaded :
      Nested (Context S)
      → (Context S → Outcome (Context S) ℕ)
      → Context S
      → Option Text × S
      → Outcome (Context S) ℕ
  unfolding finish_loaded_value parse_plain_value
  loaded low otherwise c (none, env) = otherwise (set_env c env)
  loaded low otherwise c (some text, env) =
      finish_loaded_value low text 0 (parse_plain_value text) (set_env c env)

  unfoldable pub unset_value : Text → Context S → Outcome (Context S) ℕ
  unset_value name c = if c.eval_unbound_error then fails (unbound_variable name) c else done 0 c

  unfoldable pub load_scalar : Nested (Context S) → Text → Context S → Outcome (Context S) ℕ
  unfolding loaded unset_value
  load_scalar low name c = loaded low (unset_value name) c (environment.get name c.env)

  unfoldable pub unset_element : Text → Text → Context S → Outcome (Context S) ℕ
  unfolding unset_value
  unset_element name text c =
      if is_indexed (environment.kind name c.env) then done 0 c else unset_value text c

  -- Element 0 is the scalar of that name.
  unfoldable pub missing_element : Nested (Context S) → Text → ℕ → Context S → Outcome (Context S) ℕ
  unfolding loaded unset_element
  missing_element low name index c =
      if index == 0
      then loaded low (unset_element name name) c (environment.get name c.env)
      else unset_element name (name ++ b'[' ∷ word_to_string index ++ b']' ∷ []) c

  unfoldable pub load_lvalue_value : Nested (Context S) → LValue → Context S → Outcome (Context S) ℕ
  unfolding load_scalar missing_element
  load_lvalue_value low (scalar name) c = load_scalar low name c
  load_lvalue_value low (indexed name index) c =
      loaded low (missing_element low name index) c (environment.get_array_indexed name index c.env)
  load_lvalue_value low (assoc name key) c =
      loaded low (λ c'. done 0 c') c (environment.get_array_assoc name key c.env)

  unfoldable pub after_assign : Context S → Assigned S → Outcome (Context S) (Unit {0})
  after_assign c (assigned env) = done tt (set_env c env)
  after_assign c (refused e env) = fails (assign_error e) (set_env c env)

  unfoldable pub store_element : Text → (S → S) → Context S → Outcome (Context S) (Unit {0})
  store_element name write c =
      if environment.is_readonly name c.env
      then fails (readonly_variable name) c
      else done tt (set_env c (write c.env))

  unfoldable pub store_lvalue_value : LValue → ℕ → Context S → Outcome (Context S) (Unit {0})
  unfolding after_assign store_element word_to_string
  store_lvalue_value (scalar name) v c =
      after_assign c (environment.assign name (word_to_string v) c.env)
  store_lvalue_value (indexed name index) v c =
      store_element name (environment.set_array_indexed name index (word_to_string v)) c
  store_lvalue_value (assoc name key) v c =
      store_element name (environment.set_array_assoc name key (word_to_string v)) c

  unfoldable pub index_value : Nested (Context S) → Text → Context S → Outcome (Context S) ℕ
  unfolding eval_text all_read
  index_value low text c = next (eval_text low text c) λ r c'. all_read r c'

  unfoldable pub index_of :
      Nested (Context S) → Text → Option Text → Context S → Outcome (Context S) ℕ
  unfolding index_value
  index_of low expanded (some rest) c = fails (invalid_subscript_operator rest) c
  index_of low expanded none c = with_expand false (index_value low expanded) c

  unfoldable pub expanded_index : Nested (Context S) → Text → Context S → Outcome (Context S) ℕ
  unfolding index_of strip_arith_subscript_double_quotes escaped_bracket
  expanded_index low expanded c =
      if blank expanded
        || not c.arith_expand_subscripts
          && from_option false (strip_arith_subscript_double_quotes expanded)
      then done 0 c
      else index_of low expanded (escaped_bracket expanded) c

  unfoldable pub eval_array_index : Nested (Context S) → Text → Context S → Outcome (Context S) ℕ
  unfolding expanded_index
  eval_array_index low subscript c =
      next
        (if c.arith_expand_subscripts && not (environment.assoc_expand_once c.env)
          then expand subscript c
          else done subscript c)
        λ expanded c'. expanded_index low expanded c'

  unfoldable pub resolve_parts :
      Nested (Context S) → Text → Option (Text × Text) → Context S → Outcome (Context S) LValue
  unfolding eval_array_index unescape_assoc_subscript
  resolve_parts low name none c = done (scalar name) c
  resolve_parts low name (some (base, subscript)) c =
      if is_assoc (environment.kind base c.env)
      then done (assoc base (unescape_assoc_subscript subscript)) c
      else if length subscript == 0
      then fails (invalid_subscript (base ++ codes "[]")) c
      else next (eval_array_index low subscript c) λ index c'. done (indexed base index) c'

  -- the name that a nameref stands for, where that is another name
  unfoldable pub other_target : Text → Option Text → Option Text
  other_target name none = none
  other_target name (some target) = if text_eq target name then none else some target

  unfoldable pub resolve_target :
      Nested (Context S) → Text → Option Text → Context S → Outcome (Context S) LValue
  unfolding resolve_parts array_ref_parts
  resolve_target low name (some target) c = low.vars.resolve target c
  resolve_target low name none c = resolve_parts low name (array_ref_parts name) c

  unfoldable pub resolve_lvalue : Nested (Context S) → Text → Context S → Outcome (Context S) LValue
  unfolding resolve_target other_target array_ref_parts
  resolve_lvalue low name c =
      resolve_target low name
        (if not (is_array_ref name) && environment.is_nameref name c.env
          then other_target name (environment.resolve_nameref name c.env)
          else none)
        c

  unfoldable pub load_ident_value : Nested (Context S) → Text → Context S → Outcome (Context S) ℕ
  unfolding resolve_lvalue load_lvalue_value array_ref_parts
  load_ident_value low name c =
      if is_array_ref name
      then next (resolve_lvalue low name c) (λ lvalue c'. load_lvalue_value low lvalue c')
      else load_scalar low name c
