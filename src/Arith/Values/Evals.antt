-- ===== src/Arith/Values/Evals.antt =====
-- Evaluation puts back the depth counters and the setting for subscripts, on every path
-- (crates/expander/src/arith.rs `parse_value_recursive`, `eval_inner`, `eval_preexpanded`).
use cherubsh.Base.{ℕ, zero, suc, true, ◌||◌, leb, ltb, Text, Option, none, some, trim_text, text_eq}
use cherubsh.Arith.{ArithError, Outcome, Post-if}
use cherubsh.Arith.Lexer.{is_eof}
use cherubsh.Arith.Names.{is_array_ref, parse_integer, parse_plain_value}
use cherubsh.Arith.Values.{
  Environment, Context, max_arith_nesting, Nested, set_env, set_expand, set_depth, set_value_depth,
  blank, is_name_like, eval_text,
}
use cherubsh.Arith.Values.Nesting.{
  named_value, expression_value, value_at, parse_value_recursive, nested,
  prefix_postfix_lvalue_error, whole, eval_checked, eval, trim_start,
}
use cherubsh.Arith.Values.Keeps.{
  Same, Same-refl, Same-set_env, KeepsContext, keeps-next, keeps-with_expand, keeps-value_depth,
  keeps-depth,
}
use cherubsh.Arith.Values.Restores.{NestedKeeps, text-keeps, finish-keeps}
use cherubsh.Arith.Values.Resolves.{resolved-keeps, variables-Kept}

module _ {S : Type 0} (environment : Environment S)
    (expand : Text → Context S → Outcome (Context S) Text)
    (expand-keeps : (text : Text) (c : Context S) → KeepsContext c (expand text c))
    (low : Nested (Context S)) (keeps : NestedKeeps low) where
  named-keeps :
      (s : Text) (depth : ℕ) (c : Context S) (r : Option Text × S)
      → KeepsContext c (named_value environment expand low s depth c r)
  unfolding named_value
  named-keeps s depth c (none, env) = Same-set_env c c env (Same-refl c)
  named-keeps s depth c (some v, env) =
      Post-if (λ w c'. Same c c') (λ e c'. Same c c') (Unit {0})
        (text_eq (trim_text v) (trim_text s)) _ _ (λ h. Same-set_env c c env (Same-refl c))
        λ h.
          Post-if (λ w c'. Same c c') (λ e c'. Same c c') (Unit {0}) (text_eq v s) _ _
            (λ k. Same-set_env c c env (Same-refl c))
            λ k.
              finish-keeps environment expand expand-keeps low keeps v (suc depth)
                (parse_plain_value v) c (set_env c env) (Same-set_env c c env (Same-refl c))

  expression-keeps :
      (s : Text) (c : Context S) → KeepsContext c (expression_value environment expand low s c)
  unfolding expression_value
  expression-keeps s c =
      keeps-next c (eval_text low (trim_start s) c) _ (text-keeps low keeps (trim_start s) c)
        λ r c' h. h

  value_at-keeps :
      (s : Text) (depth : ℕ) (o : Option ℕ) (c : Context S)
      → KeepsContext c (value_at environment expand low s depth o c)
  unfolding value_at
  value_at-keeps s depth (some n) c = Same-refl c
  value_at-keeps s depth none c =
      Post-if (λ w c'. Same c c') (λ e c'. Same c c') (Unit {0}) (is_array_ref (trim_text s)) _ _
        (λ h. resolved-keeps environment expand expand-keeps low keeps (trim_text s) c)
        λ h.
          Post-if (λ w c'. Same c c') (λ e c'. Same c c') (Unit {0}) (is_name_like (trim_text s)) _
            _ (λ k. named-keeps s depth c (environment.get (trim_text s) c.env))
            λ k.
              keeps-with_expand true (expression_value environment expand low s) c
                (expression-keeps s (set_expand true c))

  value-keeps :
      (s : Text) (depth : ℕ) (c : Context S)
      → KeepsContext c (parse_value_recursive environment expand low s depth c)
  unfolding parse_value_recursive
  value-keeps s depth c =
      Post-if (λ w c'. Same c c') (λ e c'. Same c c') (Unit {0})
        (ltb max_arith_nesting depth || leb max_arith_nesting c.value_depth) _ _ (λ h. Same-refl c)
        λ h. keeps-value_depth c _ (
          value_at-keeps s depth (parse_integer (trim_text s))
            (set_value_depth (suc c.value_depth) c))

module _ {S : Type 0} (environment : Environment S)
    (expand : Text → Context S → Outcome (Context S) Text)
    (expand-keeps : (text : Text) (c : Context S) → KeepsContext c (expand text c)) where
  nested-Keeps : (n : ℕ) → NestedKeeps (nested environment expand n)
  unfolding nested
  nested-Keeps zero = record {
    kept = λ src. record {
      resolves = λ name c. tt;
      loads = λ lvalue c. tt;
      stores = λ lvalue v c. tt;
      loads_ident = λ name c. tt;
    };
    value_keeps = λ s depth c. tt;
  }
  nested-Keeps (suc n) = record {
    kept =
        variables-Kept environment expand expand-keeps (nested environment expand n)
          (nested-Keeps n);
    value_keeps =
        value-keeps environment expand expand-keeps (nested environment expand n) (nested-Keeps n);
  }

  checked-keeps :
      (n : ℕ) (expr : Text) (o : Option ArithError) (c : Context S)
      → KeepsContext c (eval_checked environment expand n expr o c)
  unfolding eval_checked whole
  checked-keeps n expr (some e) c = Same-refl c
  checked-keeps n expr none c =
      Post-if (λ w c'. Same c c') (λ e c'. Same c c') (Unit {0})
        (ltb max_arith_nesting (suc c.arith_depth)) _ _ (λ h. Same-refl c)
        λ h. keeps-depth c _ (
          keeps-next (set_depth (suc c.arith_depth) c)
            (eval_text (nested environment expand n) expr (set_depth (suc c.arith_depth) c)) _
            (text-keeps (nested environment expand n) (nested-Keeps n) expr
              (set_depth (suc c.arith_depth) c))
            λ (v, lex) c' k.
              Post-if (λ w c₂. Same (set_depth (suc c.arith_depth) c) c₂)
                (λ e c₂. Same (set_depth (suc c.arith_depth) c) c₂) (Unit {0}) (is_eof lex.cur) _ _
                (λ q. k) λ q. k)

  -- Where the expansion of a subscript changes the environment at most, so does an evaluation, whether
  -- it has a value or fails: the depth counters, the setting for subscripts and the setting for unbound
  -- names are what they were. This holds for every environment, text and depth of nesting.
  pub eval-restores :
      (n : ℕ) (expr : Text) (c : Context S) → KeepsContext c (eval environment expand n expr c)
  unfolding eval
  eval-restores n expr c =
      Post-if (λ w c'. Same c c') (λ e c'. Same c c') (Unit {0}) (blank expr) _ _ (λ h. Same-refl c)
        λ h. checked-keeps n expr (prefix_postfix_lvalue_error expr) c
