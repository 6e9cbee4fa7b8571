-- ===== src/Base/Post.antt =====
-- Postconditions of actions that return normally, and invariants that hold however they end.
use ansible_operator.Base.Flow.{
  Error, Result, ok, err, panic, Exec, map_error, with_error, handle_result, handling, continue,
  ◌>>=◌, pure, fail, branch, trying,
}
use ansible_operator.Base.Tests.{if◌then◌else◌}
use mathlib.Core.Path.{◌≡◌, refl, sym, subst}
use mathlib.Core.Bool.{Bool, true, false}

module _ {ℓ} {S A : Type ℓ} where
  abbrev pub Outcome : (A → S → Type ℓ) → Result A → S → Type ℓ
  Outcome Q (ok a) s = Q a s
  Outcome Q (err e) s = Unit
  Outcome Q panic s = Unit

  -- If `m` returns normally from `s`, what it returns and the state that it leaves meet `Q`.
  pub record Post (Q : A → S → Type ℓ) (m : Exec S A) (s : S) : Type ℓ where
    pub holds : Outcome Q (m s).0 (m s).1

  -- However `m` ends, it keeps `P`.
  pub record Keeps (P : S → Type ℓ) (m : Exec S A) : Type ℓ where
    pub at : (s : S) → P s → P (m s).1

module _ {ℓ} {S A : Type ℓ} (Q : A → S → Type ℓ) where
  Outcome-map_error :
      (f : Error → Error) (r : Result A) (s : S) → Outcome Q r s → Outcome Q (map_error f r) s
  Outcome-map_error f (ok a) s h = h
  Outcome-map_error f (err e) s h = tt
  Outcome-map_error f panic s h = tt

module _ {ℓ} {S A : Type ℓ} {Q : A → S → Type ℓ} where
  pub Post-with_error :
      (f : Error → Error) (m : Exec S A) (s : S) → Post Q m s → Post Q (with_error f m) s
  Post-with_error f m s h = record { holds = Outcome-map_error Q f (m s).0 (m s).1 h.holds }

  Post-handle_result :
      (h : Error → Exec S A) (r : Result A) (s : S)
      → Outcome Q r s
      → ((e : Error) → Post Q (h e) s)
      → Post Q (handle_result r h) s
  Post-handle_result h (ok a) s p k = record { holds = p }
  Post-handle_result h (err e) s p k = k e
  Post-handle_result h panic s p k = record { holds = tt }

  pub Post-handling :
      (m : Exec S A) (h : Error → Exec S A) (s : S)
      → Post Q m s
      → ((e : Error) → Post Q (h e) (m s).1)
      → Post Q (handling m h) s
  Post-handling m h s p k = record {
    holds = (Post-handle_result h (m s).0 (m s).1 p.holds k).holds;
  }

module _ {ℓ} {S A : Type ℓ} (Q : A → S → Type ℓ) where
  Outcome-ok : (r : Result A) (a : A) (s : S) → r ≡ ok a → Outcome Q r s → Q a s
  Outcome-ok r a s e h = subst (λ x. Outcome Q x s) e h

  -- What holds where `m` is known to return `a`.
  pub Post-elim : (m : Exec S A) (a : A) (s : S) → Post Q m s → (m s).0 ≡ ok a → Q a (m s).1
  Post-elim m a s p e = Outcome-ok (m s).0 a (m s).1 e p.holds

module _ {ℓ} {S A B : Type ℓ} {Q : B → S → Type ℓ} where
  Post-continue :
      (f : A → Exec S B) (r : Result A) (s : S)
      → Outcome (λ a t. Post Q (f a) t) r s
      → Post Q (continue r f) s
  Post-continue f (ok a) s h = h
  Post-continue f (err e) s h = record { holds = tt }
  Post-continue f panic s h = record { holds = tt }

  pub Post-bind :
      (m : Exec S A) (f : A → Exec S B) (s : S)
      → Post (λ a t. Post Q (f a) t) m s
      → Post Q (m >>= f) s
  Post-bind m f s h = record { holds = (Post-continue f (m s).0 (m s).1 h.holds).holds }

module _ {ℓ} {S A : Type ℓ} {Q R : A → S → Type ℓ} where
  Outcome-weaken :
      (r : Result A) (s : S) → ((a : A) (t : S) → Q a t → R a t) → Outcome Q r s → Outcome R r s
  Outcome-weaken (ok a) s w h = w a s h
  Outcome-weaken (err e) s w h = tt
  Outcome-weaken panic s w h = tt

  pub Post-weaken :
      (m : Exec S A) (s : S) → ((a : A) (t : S) → Q a t → R a t) → Post Q m s → Post R m s
  Post-weaken m s w h = record { holds = Outcome-weaken (m s).0 (m s).1 w h.holds }

module _ {ℓ} {S A B : Type ℓ} {Q : B → S → Type ℓ} where
  Post-branch :
      (r : Result A) (h : Error → Exec S B) (k : A → Exec S B) (s : S)
      → Outcome (λ a t. Post Q (k a) t) r s
      → ((e : Error) → Post Q (h e) s)
      → Post Q (branch r h k) s
  Post-branch (ok a) h k s p q = p
  Post-branch (err e) h k s p q = q e
  Post-branch panic h k s p q = record { holds = tt }

  pub Post-trying :
      (m : Exec S A) (h : Error → Exec S B) (k : A → Exec S B) (s : S)
      → Post (λ a t. Post Q (k a) t) m s
      → ((e : Error) → Post Q (h e) (m s).1)
      → Post Q (trying m h k) s
  Post-trying m h k s p q = record { holds = (Post-branch (m s).0 h k (m s).1 p.holds q).holds }

module _ {ℓ} {S A B : Type ℓ} {R : A → S → Type ℓ} {Q : B → S → Type ℓ} where
  -- One step of a sequence.
  pub Post-then :
      (m : Exec S A) (f : A → Exec S B) (s : S)
      → Post R m s
      → ((a : A) (t : S) → R a t → Post Q (f a) t)
      → Post Q (m >>= f) s
  Post-then m f s p k = Post-bind m f s (Post-weaken m s k p)

module _ {ℓ} {S A : Type ℓ} where
  -- A postcondition of the state that `m` leaves, however it ends.
  pub Post-state : (Q : S → Type ℓ) (m : Exec S A) (s : S) → Q (m s).1 → Post (λ _ t. Q t) m s
  Post-state Q m s q = record { holds = Outcome-state (m s).0 (m s).1 q }
    where
      Outcome-state : (r : Result A) (t : S) → Q t → Outcome (λ _ u. Q u) r t
      Outcome-state (ok a) t q = q
      Outcome-state (err e) t q = tt
      Outcome-state panic t q = tt

-- A statement about every normal return, as a postcondition.
pub Post-outcome {ℓ} :
    {S : Type ℓ} {Q : S → Type ℓ} (m : Exec S (Unit {ℓ})) (s : S)
    → ((m s).0 ≡ ok tt → Q (m s).1)
    → Post (λ _ t. Q t) m s
Post-outcome {S = S} {Q = Q} m s h = record { holds = of_result (m s).0 (m s).1 h }
  where
    of_result : (r : Result (Unit {ℓ})) (t : S) → (r ≡ ok tt → Q t) → Outcome (λ _ u. Q u) r t
    of_result (ok a) t h = h refl
    of_result (err e) t h = tt
    of_result panic t h = tt

module _ {ℓ} {S A : Type ℓ} {Q : A → S → Type ℓ} where
  -- A postcondition with a fact about the state that `m` leaves.
  pub Post-both :
      {R : S → Type ℓ} (m : Exec S A) (s : S)
      → Post Q m s
      → R (m s).1
      → Post (λ a t. Q a t × R t) m s
  Post-both {R = R} m s p r = record { holds = of_result (m s).0 (m s).1 p.holds r }
    where
      of_result : (x : Result A) (t : S) → Outcome Q x t → R t → Outcome (λ a u. Q a u × R u) x t
      of_result (ok a) t q r = (q, r)
      of_result (err e) t q r = tt
      of_result panic t q r = tt

  -- Two actions that do the same from a state.
  pub Post-given : (m : Exec S A) (s : S) (n : Exec S A) → m s ≡ n s → Post Q n s → Post Q m s
  Post-given m s n e p = record {
    holds = subst (λ (x : Result A × S). Outcome Q x.0 x.1) (sym e) p.holds;
  }

-- What a computation without a state yields.
pub Post-lift {ℓ} :
    {S A : Type ℓ} (r : Result A) (s : S) → Post (λ a t. (r ≡ ok a) × (t ≡ s)) (λ u. (r, u)) s
Post-lift (ok a) s = record { holds = (refl, refl) }
Post-lift (err e) s = record { holds = tt }
Post-lift panic s = record { holds = tt }

module _ {ℓ} {S A : Type ℓ} {Q : A → S → Type ℓ} where
  pub Post-pure : (a : A) (s : S) → Q a s → Post Q (pure a) s
  Post-pure a s q = record { holds = q }

  pub Post-fail : (e : Error) (s : S) → Post Q (fail e) s
  Post-fail e s = record { holds = tt }

  pub Post-if :
      (b : Bool) (m n : Exec S A) (s : S)
      → (b ≡ true → Post Q m s)
      → (b ≡ false → Post Q n s)
      → Post Q (if b then m else n) s
  Post-if true m n s p q = p refl
  Post-if false m n s p q = q refl

module _ {ℓ} {S A : Type ℓ} {P : S → Type ℓ} where
  pub Keeps-pure : (a : A) → Keeps P (pure a)
  Keeps-pure a = record { at = λ s h. h }

  pub Keeps-fail : (e : Error) → Keeps P (fail {A = A} e)
  Keeps-fail e = record { at = λ s h. h }

  pub Keeps-lift : (r : Result A) → Keeps P (λ s. (r, s))
  Keeps-lift r = record { at = λ s h. h }

  pub Keeps-with_error : (f : Error → Error) (m : Exec S A) → Keeps P m → Keeps P (with_error f m)
  Keeps-with_error f m k = record { at = k.at }

  pub Keeps-if : (b : Bool) (m n : Exec S A) → Keeps P m → Keeps P n → Keeps P (if b then m else n)
  Keeps-if true m n km kn = km
  Keeps-if false m n km kn = kn

  Keeps-handle_result :
      (h : Error → Exec S A) (r : Result A)
      → ((e : Error) → Keeps P (h e))
      → Keeps P (handle_result r h)
  Keeps-handle_result h (ok a) k = record { at = λ s p. p }
  Keeps-handle_result h (err e) k = k e
  Keeps-handle_result h panic k = record { at = λ s p. p }

  pub Keeps-handling :
      (m : Exec S A) (h : Error → Exec S A)
      → Keeps P m
      → ((e : Error) → Keeps P (h e))
      → Keeps P (handling m h)
  Keeps-handling m h km kh = record {
    at = λ s p. (Keeps-handle_result h (m s).0 kh).at (m s).1 (km.at s p);
  }

module _ {ℓ} {S A B : Type ℓ} {P : S → Type ℓ} where
  Keeps-continue :
      (f : A → Exec S B) (r : Result A) → ((a : A) → Keeps P (f a)) → Keeps P (continue r f)
  Keeps-continue f (ok a) k = k a
  Keeps-continue f (err e) k = record { at = λ s p. p }
  Keeps-continue f panic k = record { at = λ s p. p }

  pub Keeps-bind :
      (m : Exec S A) (f : A → Exec S B) → Keeps P m → ((a : A) → Keeps P (f a)) → Keeps P (m >>= f)
  Keeps-bind m f km kf = record { at = λ s p. (Keeps-continue f (m s).0 kf).at (m s).1 (km.at s p) }

  Keeps-branch :
      (r : Result A) (h : Error → Exec S B) (k : A → Exec S B)
      → ((e : Error) → Keeps P (h e))
      → ((a : A) → Keeps P (k a))
      → Keeps P (branch r h k)
  Keeps-branch (ok a) h k kh kk = kk a
  Keeps-branch (err e) h k kh kk = kh e
  Keeps-branch panic h k kh kk = record { at = λ s p. p }

  pub Keeps-trying :
      (m : Exec S A) (h : Error → Exec S B) (k : A → Exec S B)
      → Keeps P m
      → ((e : Error) → Keeps P (h e))
      → ((a : A) → Keeps P (k a))
      → Keeps P (trying m h k)
  Keeps-trying m h k km kh kk = record {
    at = λ s p. (Keeps-branch (m s).0 h k kh kk).at (m s).1 (km.at s p);
  }

pub ruleset keeps_rules =
    (Keeps-pure, Keeps-fail, Keeps-lift, Keeps-with_error, Keeps-handling, Keeps-bind, Keeps-trying)
