-- ===== src/Base/Sure.antt =====
-- Actions that return normally: total correctness.
use ansible_operator.Base.Flow.{
  Error, Result, ok, Exec, map_error, with_error, continue, ◌>>=◌, pure,
}
use mathlib.Core.Path.{◌≡◌, refl, sym, ap, subst, ◌∙◌}

module _ {ℓ} {S A : Type ℓ} where
  -- From `s`, `m` returns a value, and it and the state that is left meet `Q`.
  pub record Sure (Q : A → S → Type ℓ) (m : Exec S A) (s : S) : Type ℓ where
    pub value : A
    pub returns : (m s).0 ≡ ok value
    pub holds : Q value (m s).1

module _ {ℓ} {S A : Type ℓ} {Q : A → S → Type ℓ} where
  pub Sure-pure : (a : A) (s : S) → Q a s → Sure Q (pure a) s
  Sure-pure a s q = record { value = a; returns = refl; holds = q }

  pub Sure-with_error :
      (f : Error → Error) (m : Exec S A) (s : S) → Sure Q m s → Sure Q (with_error f m) s
  Sure-with_error f m s p = record {
    value = p.value;
    returns = ap (map_error f) p.returns;
    holds = p.holds;
  }

  pub Sure-given : (m : Exec S A) (s : S) (a : A) (t : S) → m s ≡ (ok a, t) → Q a t → Sure Q m s
  Sure-given m s a t e q = record {
    value = a;
    returns = ap (λ (x : Result A × S). x.0) e;
    holds = subst (λ (x : Result A × S). Q a x.1) (sym e) q;
  }

  -- Two actions that do the same from a state.
  pub Sure-same : (m n : Exec S A) (s : S) → m s ≡ n s → Sure Q n s → Sure Q m s
  Sure-same m n s e p = record {
    value = p.value;
    returns = ap (λ (x : Result A × S). x.0) e ∙ p.returns;
    holds = subst (λ (x : Result A × S). Q p.value x.1) (sym e) p.holds;
  }

  pub Sure-weaken :
      {R : A → S → Type ℓ} (m : Exec S A) (s : S)
      → ((a : A) (t : S) → R a t → Q a t)
      → Sure R m s
      → Sure Q m s
  Sure-weaken m s w p = record {
    value = p.value;
    returns = p.returns;
    holds = w p.value (m s).1 p.holds;
  }

module _ {ℓ} {S A B : Type ℓ} {Q : B → S → Type ℓ} where
  Sure-continue :
      (f : A → Exec S B) (r : Result A) (a : A) (s : S)
      → r ≡ ok a
      → Sure Q (f a) s
      → Sure Q (continue r f) s
  Sure-continue f r a s e p =
      subst (λ x. Sure Q (continue x f) s) (sym e)
        (record { value = p.value; returns = p.returns; holds = p.holds })

  pub Sure-bind :
      {R : A → S → Type ℓ} (m : Exec S A) (f : A → Exec S B) (s : S)
      → Sure R m s
      → ((a : A) (t : S) → R a t → Sure Q (f a) t)
      → Sure Q (m >>= f) s
  Sure-bind m f s p k =
      let q = Sure-continue f (m s).0 p.value (m s).1 p.returns (k p.value (m s).1 p.holds) in
      record { value = q.value; returns = q.returns; holds = q.holds }
