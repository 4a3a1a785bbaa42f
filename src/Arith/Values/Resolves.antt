-- ===== src/Arith/Values/Resolves.antt =====
-- Names that are resolved, and the operations as a whole, put back what they change of the context
-- (crates/expander/src/arith.rs `resolve_lvalue`, `eval_array_index`, `load_ident_value`).
use cherubsh.Base.{
  ℕ, false, ◌&&◌, ◌||◌, not, ◌==◌, if◌then◌else◌, Text, [], Option, none, some, length,
}
use cherubsh.Arith.{Outcome, done, next, Post-if}
use cherubsh.Arith.Lexer.{Lexer, is_eof}
use cherubsh.Arith.Names.{array_ref_parts, is_array_ref, strip_arith_subscript_double_quotes}
use cherubsh.Arith.Sound.Prefix.{Kept}
use cherubsh.Arith.Values.{
  Environment, Context, Nested, set_expand, blank, from_option, escaped_bracket, eval_text,
  all_read,
}
use cherubsh.Arith.Values.Run.{
  is_assoc, load_lvalue_value, index_value, index_of, expanded_index, eval_array_index,
  resolve_parts, resolve_target, resolve_lvalue, load_ident_value,
}
use cherubsh.Arith.Values.Nesting.{variables}
use cherubsh.Arith.Values.Keeps.{
  Same, Same-refl, KeepsContext, keeps-next, keeps-from, keeps-with_expand,
}
use cherubsh.Arith.Values.Restores.{
  context_frame, NestedKeeps, text-keeps, load_scalar-keeps, load-keeps, store-keeps,
}

module _ {S : Type 0} (environment : Environment S)
    (expand : Text → Context S → Outcome (Context S) Text)
    (expand-keeps : (text : Text) (c : Context S) → KeepsContext c (expand text c))
    (low : Nested (Context S)) (keeps : NestedKeeps low) where
  pub all_read-keeps :
      (r : ℕ × Lexer) (c c' : Context S) → Same c c' → KeepsContext c (all_read r c')
  unfolding all_read
  all_read-keeps (v, lex) c c' h =
      Post-if (λ w c₂. Same c c₂) (λ e c₂. Same c c₂) (Unit {0}) (is_eof lex.cur) _ _ (λ k. h)
        λ k. h

  pub index-keeps :
      (expanded : Text) (o : Option Text) (c : Context S)
      → KeepsContext c (index_of environment expand low expanded o c)
  unfolding index_of index_value
  index-keeps expanded (some rest) c = Same-refl c
  index-keeps expanded none c =
      keeps-with_expand false (index_value environment expand low expanded) c (
        keeps-next (set_expand false c) (eval_text low expanded (set_expand false c)) _
          (text-keeps low keeps expanded (set_expand false c))
          λ r c' h. all_read-keeps r (set_expand false c) c' h)

  pub expanded-keeps :
      (expanded : Text) (c : Context S)
      → KeepsContext c (expanded_index environment expand low expanded c)
  unfolding expanded_index
  expanded-keeps expanded c =
      Post-if (λ v c'. Same c c') (λ e c'. Same c c') (Unit {0})
        (blank expanded
          || not c.arith_expand_subscripts
            && from_option false (strip_arith_subscript_double_quotes expanded))
        _ _ (λ h. Same-refl c) λ h. index-keeps expanded (escaped_bracket expanded) c

  pub subscript-keeps :
      (subscript : Text) (c : Context S)
      → KeepsContext c (eval_array_index environment expand low subscript c)
  unfolding eval_array_index
  subscript-keeps subscript c =
      keeps-next c
        (if c.arith_expand_subscripts && not (environment.assoc_expand_once c.env)
          then expand subscript c
          else done subscript c)
        _
        (Post-if (λ v c'. Same c c') (λ e c'. Same c c') (Unit {0})
          (c.arith_expand_subscripts && not (environment.assoc_expand_once c.env)) _ _
          (λ h. expand-keeps subscript c) λ h. Same-refl c)
        λ expanded c' h.
          keeps-from c c' (expanded_index environment expand low expanded c') h
            (expanded-keeps expanded c')

  pub parts-keeps :
      (name : Text) (o : Option (Text × Text)) (c : Context S)
      → KeepsContext c (resolve_parts environment expand low name o c)
  unfolding resolve_parts
  parts-keeps name none c = Same-refl c
  parts-keeps name (some (base, subscript)) c =
      Post-if (λ v c'. Same c c') (λ e c'. Same c c') (Unit {0})
        (is_assoc (environment.kind base c.env)) _ _ (λ h. Same-refl c)
        λ h.
          Post-if (λ v c'. Same c c') (λ e c'. Same c c') (Unit {0}) (length subscript == 0) _ _
            (λ k. Same-refl c)
            λ k.
              keeps-next c (eval_array_index environment expand low subscript c) _
                (subscript-keeps subscript c) λ index c' s. s

  pub target-keeps :
      (name : Text) (o : Option Text) (c : Context S)
      → KeepsContext c (resolve_target environment expand low name o c)
  unfolding resolve_target
  target-keeps name (some target) c = (keeps.kept []).resolves target c
  target-keeps name none c = parts-keeps name (array_ref_parts name) c

  pub resolve-keeps :
      (name : Text) (c : Context S) → KeepsContext c (resolve_lvalue environment expand low name c)
  unfolding resolve_lvalue
  resolve-keeps name c = target-keeps name _ c

  pub resolved-keeps :
      (name : Text) (c : Context S)
      → KeepsContext c (
          next
            (resolve_lvalue environment expand low name c)
            λ lvalue c'. load_lvalue_value environment expand low lvalue c')
  resolved-keeps name c =
      keeps-next c (resolve_lvalue environment expand low name c) _ (resolve-keeps name c)
        λ lvalue c' h.
          keeps-from c c' (load_lvalue_value environment expand low lvalue c') h
            (load-keeps environment expand expand-keeps low keeps lvalue c')

  pub load_ident-keeps :
      (name : Text) (c : Context S)
      → KeepsContext c (load_ident_value environment expand low name c)
  unfolding load_ident_value
  load_ident-keeps name c =
      Post-if (λ v c'. Same c c') (λ e c'. Same c c') (Unit {0}) (is_array_ref name) _ _
        (λ h. resolved-keeps name c)
        λ h. load_scalar-keeps environment expand expand-keeps low keeps name c

  pub variables-Kept : (src : Text) → Kept (context_frame S src) (variables environment expand low)
  variables-Kept src = record {
    resolves = resolve-keeps;
    loads = load-keeps environment expand expand-keeps low keeps;
    stores = store-keeps environment expand expand-keeps low keeps;
    loads_ident = load_ident-keeps;
  }
