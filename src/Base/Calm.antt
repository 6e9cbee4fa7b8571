-- ===== src/Base/Calm.antt =====
-- Actions that never panic.
use ansible_operator.Base.Flow.{
  Error, Reason, not_found, other, Result, ok, err, panic, Exec, map_error, with_error,
  handle_result, handling, continue, ◌>>=◌, pure, fail, branch, trying,
}
use ansible_operator.Base.Tests.{if◌then◌else◌}
use mathlib.Core.Bool.{Bool, true, false}

abbrev pub NoPanic {ℓ} : {A : Type ℓ} → Result A → Type 0
NoPanic (ok a) = Unit
NoPanic (err e) = Unit
NoPanic panic = ⊥

pub NoPanic-map_error {ℓ} :
    {A : Type ℓ} (f : Error → Error) (r : Result A) → NoPanic r → NoPanic (map_error f r)
NoPanic-map_error f (ok a) c = tt
NoPanic-map_error f (err e) c = tt
NoPanic-map_error f panic c = absurd c

-- Whatever the state, `m` returns or fails.
pub record Calm {ℓ} {S A : Type ℓ} (m : Exec S A) : Type ℓ where
  pub at : (s : S) → NoPanic (m s).0

module _ {ℓ} {S A : Type ℓ} where
  pub Calm-pure : (a : A) → Calm (pure {S = S} a)
  Calm-pure a = record { at = λ s. tt }

  pub Calm-fail : (e : Error) → Calm (fail {S = S} {A = A} e)
  Calm-fail e = record { at = λ s. tt }

  pub Calm-lift : (r : Result A) → NoPanic r → Calm (λ (s : S). (r, s))
  Calm-lift r c = record { at = λ s. c }

  pub Calm-with_error : (f : Error → Error) (m : Exec S A) → Calm m → Calm (with_error f m)
  Calm-with_error f m c = record { at = λ s. NoPanic-map_error f (m s).0 (c.at s) }

  pub Calm-if : (b : Bool) (m n : Exec S A) → Calm m → Calm n → Calm (if b then m else n)
  Calm-if true m n c d = c
  Calm-if false m n c d = d

  pub Calm-reason :
      (r : Reason) (m n : Exec S A) → Calm m → Calm n → Calm (elim r [ not_found ↦ m | other ↦ n ])
  Calm-reason not_found m n c d = c
  Calm-reason other m n c d = d

  NoPanic-handle_result :
      (h : Error → Exec S A) (r : Result A) (s : S)
      → NoPanic r
      → ((e : Error) → Calm (h e))
      → NoPanic (handle_result r h s).0
  NoPanic-handle_result h (ok a) s c d = tt
  NoPanic-handle_result h (err e) s c d = (d e).at s
  NoPanic-handle_result h panic s c d = absurd c

  pub Calm-handling :
      (m : Exec S A) (h : Error → Exec S A)
      → Calm m
      → ((e : Error) → Calm (h e))
      → Calm (handling m h)
  Calm-handling m h c d = record { at = λ s. NoPanic-handle_result h (m s).0 (m s).1 (c.at s) d }

module _ {ℓ} {S A B : Type ℓ} where
  NoPanic-continue :
      (f : A → Exec S B) (r : Result A) (s : S)
      → NoPanic r
      → ((a : A) → Calm (f a))
      → NoPanic (continue r f s).0
  NoPanic-continue f (ok a) s c d = (d a).at s
  NoPanic-continue f (err e) s c d = tt
  NoPanic-continue f panic s c d = absurd c

  pub Calm-bind :
      (m : Exec S A) (f : A → Exec S B) → Calm m → ((a : A) → Calm (f a)) → Calm (m >>= f)
  Calm-bind m f c d = record { at = λ s. NoPanic-continue f (m s).0 (m s).1 (c.at s) d }

  NoPanic-branch :
      (r : Result A) (h : Error → Exec S B) (k : A → Exec S B) (s : S)
      → NoPanic r
      → ((e : Error) → Calm (h e))
      → ((a : A) → Calm (k a))
      → NoPanic (branch r h k s).0
  NoPanic-branch (ok a) h k s c d e = (e a).at s
  NoPanic-branch (err f) h k s c d e = (d f).at s
  NoPanic-branch panic h k s c d e = absurd c

  pub Calm-trying :
      (m : Exec S A) (h : Error → Exec S B) (k : A → Exec S B)
      → Calm m
      → ((e : Error) → Calm (h e))
      → ((a : A) → Calm (k a))
      → Calm (trying m h k)
  Calm-trying m h k c d e = record { at = λ s. NoPanic-branch (m s).0 h k (m s).1 (c.at s) d e }

pub ruleset calm_rules = (
  Calm-pure, Calm-fail, Calm-lift, Calm-with_error, Calm-handling, Calm-bind, Calm-trying, Calm-if,
)
