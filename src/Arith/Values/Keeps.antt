-- ===== src/Arith/Values/Keeps.antt =====
-- What evaluation leaves of the context besides the environment (crates/expander/src/arith.rs).
use cherubsh.Base.{suc, ◌-◌, Bool, ◌≡◌, refl, ◌∙◌, arith}
use cherubsh.Arith.{Outcome, done, fails, out_of_fuel, next, Post, Post-next}
use cherubsh.Arith.Values.{
  Context, set_env, set_expand, set_depth, set_value_depth, finally, with_expand,
}

-- The two contexts differ in the environment at most.
pub record Same {S : Type 0} (c c' : Context S) : Type 0 where
  pub same_expand : c'.arith_expand_subscripts ≡ c.arith_expand_subscripts
  pub same_depth : c'.arith_depth ≡ c.arith_depth
  pub same_unbound : c'.eval_unbound_error ≡ c.eval_unbound_error
  pub same_value_depth : c'.value_depth ≡ c.value_depth

module _ {S : Type 0} where
  pub Same-refl : (c : Context S) → Same c c
  Same-refl c = record {
    same_expand = refl;
    same_depth = refl;
    same_unbound = refl;
    same_value_depth = refl;
  }

  pub Same-trans : (a b c : Context S) → Same a b → Same b c → Same a c
  Same-trans a b c h k = record {
    same_expand = k.same_expand ∙ h.same_expand;
    same_depth = k.same_depth ∙ h.same_depth;
    same_unbound = k.same_unbound ∙ h.same_unbound;
    same_value_depth = k.same_value_depth ∙ h.same_value_depth;
  }

  pub Same-set_env : (a c : Context S) (env : S) → Same a c → Same a (set_env c env)
  Same-set_env a c env h = record {
    same_expand = h.same_expand;
    same_depth = h.same_depth;
    same_unbound = h.same_unbound;
    same_value_depth = h.same_value_depth;
  }

  -- the result of an evaluation that began in the context `c`
  abbrev pub KeepsContext {ℓ} : {A : Type ℓ} → Context S → Outcome (Context S) A → Type 0
  KeepsContext c r = Post (λ a c'. Same c c') (λ e c'. Same c c') (Unit {0}) r

  module _ {ℓ κ} {A : Type ℓ} {B : Type κ} where
    pub keeps-next :
        (c : Context S) (r : Outcome (Context S) A) (k : A → Context S → Outcome (Context S) B)
        → KeepsContext c r
        → ((a : A) (c' : Context S) → Same c c' → KeepsContext c (k a c'))
        → KeepsContext c (next r k)
    keeps-next c r k h rule =
        Post-next (λ a c'. Same c c') (λ b c'. Same c c') (λ e c'. Same c c') (λ e c'. Same c c')
          (Unit {0}) r k h (λ e c' s. s) rule

  module _ {ℓ} {A : Type ℓ} where
    pub keeps-from :
        (a c : Context S) (r : Outcome (Context S) A)
        → Same a c
        → KeepsContext c r
        → KeepsContext a r
    keeps-from a c (done v c') h k = Same-trans a c c' h k
    keeps-from a c (fails e c') h k = Same-trans a c c' h k
    keeps-from a c out_of_fuel h k = tt

    pub keeps-with_expand :
        (b : Bool) (run : Context S → Outcome (Context S) A) (c : Context S)
        → KeepsContext (set_expand b c) (run (set_expand b c))
        → KeepsContext c (with_expand b run c)
    keeps-with_expand b run c h = put_back (run (set_expand b c)) h
      where
        put_back :
            (r : Outcome (Context S) A)
            → KeepsContext (set_expand b c) r
            → KeepsContext c (finally (set_expand c.arith_expand_subscripts) r)
        put_back (done v c') k = record {
          same_expand = refl;
          same_depth = k.same_depth;
          same_unbound = k.same_unbound;
          same_value_depth = k.same_value_depth;
        }
        put_back (fails e c') k = record {
          same_expand = refl;
          same_depth = k.same_depth;
          same_unbound = k.same_unbound;
          same_value_depth = k.same_value_depth;
        }
        put_back out_of_fuel k = tt

    pub keeps-value_depth :
        (c : Context S) (r : Outcome (Context S) A)
        → KeepsContext (set_value_depth (suc c.value_depth) c) r
        → KeepsContext c (finally (λ c'. set_value_depth (c'.value_depth - 1) c') r)
    keeps-value_depth c (done v c') k = record {
      same_expand = k.same_expand;
      same_depth = k.same_depth;
      same_unbound = k.same_unbound;
      same_value_depth = omega (arith, k.same_value_depth);
    }
    keeps-value_depth c (fails e c') k = record {
      same_expand = k.same_expand;
      same_depth = k.same_depth;
      same_unbound = k.same_unbound;
      same_value_depth = omega (arith, k.same_value_depth);
    }
    keeps-value_depth c out_of_fuel k = tt

    pub keeps-depth :
        (c : Context S) (r : Outcome (Context S) A)
        → KeepsContext (set_depth (suc c.arith_depth) c) r
        → KeepsContext c (finally (λ c'. set_depth (c'.arith_depth - 1) c') r)
    keeps-depth c (done v c') k = record {
      same_expand = k.same_expand;
      same_depth = omega (arith, k.same_depth);
      same_unbound = k.same_unbound;
      same_value_depth = k.same_value_depth;
    }
    keeps-depth c (fails e c') k = record {
      same_expand = k.same_expand;
      same_depth = omega (arith, k.same_depth);
      same_unbound = k.same_unbound;
      same_value_depth = k.same_value_depth;
    }
    keeps-depth c out_of_fuel k = tt
