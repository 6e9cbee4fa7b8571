-- ===== src/Kube/Within.antt =====
-- How many write requests an action sends at most, however it ends.
use ansible_operator.Base.{
  ℕ, ◌+◌, ◌≤◌, Bool, true, false, length, arith, Error, Result, ok, err, panic, Exec, continue,
  branch, ◌>>=◌, pure, fail, lift, with_error, trying, if◌then◌else◌,
}
use ansible_operator.Kube.Interface.{Platform}
use ansible_operator.Kube.Calls.{Session, Request, read, send}

module _ {P : Platform} {T A : Type 0} where
  -- `m` sends `n` requests at most.
  pub record Within (n : ℕ) (m : Exec (Session P T) A) : Type 0 where
    pub at : (s : Session P T) → length (m s).1.requests ≤ n + length s.requests

  pub Within-weaken : (k n : ℕ) (m : Exec (Session P T) A) → k ≤ n → Within k m → Within n m
  Within-weaken k n m le w = record { at = λ s. omega (arith, le, w.at s) }

  pub Within-pure : (a : A) → Within 0 (pure a)
  Within-pure a = record { at = λ s. omega arith }

  pub Within-fail : (e : Error) → Within 0 (fail e)
  Within-fail e = record { at = λ s. omega arith }

  pub Within-lift : (r : Result A) → Within 0 (lift r)
  Within-lift r = record { at = λ s. omega arith }

  pub Within-read : (f : P.State → Result A) → Within 0 (read f)
  Within-read f = record { at = λ s. omega arith }

  pub Within-send :
      (request : Request) (f : P.State → Result A × P.State) → Within 1 (send request f)
  Within-send request f = record { at = λ s. omega arith }

  pub Within-with_error :
      (n : ℕ) (f : Error → Error) (m : Exec (Session P T) A)
      → Within n m
      → Within n (with_error f m)
  Within-with_error n f m w = record { at = w.at }

  pub Within-if :
      (n : ℕ) (b : Bool) (m k : Exec (Session P T) A)
      → Within n m
      → Within n k
      → Within n (if b then m else k)
  Within-if n true m k v w = v
  Within-if n false m k v w = w

module _ {P : Platform} {T A B : Type 0} where
  Within-continue :
      (n : ℕ) (f : A → Exec (Session P T) B) (r : Result A)
      → ((a : A) → Within n (f a))
      → Within n (continue r f)
  Within-continue n f (ok a) w = w a
  Within-continue n f (err e) w = record { at = λ s. omega arith }
  Within-continue n f panic w = record { at = λ s. omega arith }

  pub Within-bind :
      (k n : ℕ) (m : Exec (Session P T) A) (f : A → Exec (Session P T) B)
      → Within k m
      → ((a : A) → Within n (f a))
      → Within (k + n) (m >>= f)
  Within-bind k n m f v w = record {
    at = λ s. omega (arith, v.at s, (Within-continue n f (m s).0 w).at (m s).1);
  }

  Within-branch :
      (n : ℕ) (r : Result A) (h : Error → Exec (Session P T) B) (k : A → Exec (Session P T) B)
      → ((e : Error) → Within n (h e))
      → ((a : A) → Within n (k a))
      → Within n (branch r h k)
  Within-branch n (ok a) h k v w = w a
  Within-branch n (err e) h k v w = v e
  Within-branch n panic h k v w = record { at = λ s. omega arith }

  pub Within-trying :
      (j n : ℕ) (m : Exec (Session P T) A) (h : Error → Exec (Session P T) B)
      (k : A → Exec (Session P T) B)
      → Within j m
      → ((e : Error) → Within n (h e))
      → ((a : A) → Within n (k a))
      → Within (j + n) (trying m h k)
  Within-trying j n m h k u v w = record {
    at = λ s. omega (arith, u.at s, (Within-branch n (m s).0 h k v w).at (m s).1);
  }
