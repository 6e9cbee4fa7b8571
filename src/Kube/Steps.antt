-- ===== src/Kube/Steps.antt =====
-- Postconditions of the calls.
use ansible_operator.Base.{◌≡◌, refl, Result, ok, err, panic}
use ansible_operator.Base.Post.{Post, Outcome}
use ansible_operator.Kube.Interface.{Platform}
use ansible_operator.Kube.Calls.{Session, read, this}

module _ {P : Platform} {T A : Type 0} where
  Outcome-read : (r : Result A) (s : Session P T) → Outcome (λ a t. (r ≡ ok a) × (t ≡ s)) r s
  Outcome-read (ok a) s = (refl, refl)
  Outcome-read (err e) s = tt
  Outcome-read panic s = tt

  pub Post-read :
      (f : P.State → Result A) (s : Session P T)
      → Post (λ a t. (f s.server ≡ ok a) × (t ≡ s)) (read f) s
  Post-read f s = record { holds = Outcome-read (f s.server) s }

module _ {P : Platform} {T : Type 0} where
  pub Post-this : (s : Session P T) → Post (λ a t. (a ≡ s.object) × (t ≡ s)) this s
  Post-this s = record { holds = (refl, refl) }
