-- ===== src/Base/Flow.antt =====
-- Go's `error` values and panics. A function that returns an error is an action on the state that
-- it shares with its caller: what was done before the error stays done.
use Prim.Native.String.{String, ◌++◌ as ◌<>◌}
use mathlib.Core.Bool.{Bool, true, false}
use mathlib.Core.Path.{◌≡◌, refl}

-- What `errors.IsNotFound` sees of an error: `%w` keeps it, `%v` forgets it.
pub data Reason : Type 0 where
  not_found other : Reason

pub record Error : Type 0 where
  pub reason : Reason
  pub message : String

pub data Result {ℓ} (A : Type ℓ) : Type ℓ where
  ok : A → Result A
  err : Error → Result A
  -- a nil dereference or a write to a nil map
  panic : Result A

abbrev pub errorf : String → Error
errorf text = record { reason = other; message = text }

-- `fmt.Errorf("text: %w", e)`
abbrev pub wrap : String → Error → Error
wrap text e = record { reason = e.reason; message = text <> (": " <> e.message) }

-- `fmt.Errorf("text: %v", e)`
abbrev pub wrap_text : String → Error → Error
wrap_text text e = record { reason = other; message = text <> (": " <> e.message) }

abbrev pub map_error {ℓ} : {A : Type ℓ} → (Error → Error) → Result A → Result A
map_error f (ok a) = ok a
map_error f (err e) = err (f e)
map_error f panic = panic

abbrev pub succeeded {ℓ} : {A : Type ℓ} → Result A → Bool
succeeded (ok a) = true
succeeded (err e) = false
succeeded panic = false

-- What holds of a value if there is one.
abbrev pub OnOk {ℓ} : {A : Type ℓ} → (A → Type 0) → Result A → Type 0
OnOk Q (ok a) = Q a
OnOk Q (err e) = Unit
OnOk Q panic = Unit

abbrev pub Exec {ℓ} : Type ℓ → Type ℓ → Type ℓ
Exec S A = S → Result A × S

module _ {ℓ} {S A : Type ℓ} where
  abbrev pub pure : A → Exec S A
  pure a s = (ok a, s)

  abbrev pub fail : Error → Exec S A
  fail e s = (err e, s)

  -- An outcome that is computed without touching the state.
  abbrev pub lift : Result A → Exec S A
  lift r s = (r, s)

  -- `if err := m; err != nil { return wrapped err }`
  abbrev pub with_error : (Error → Error) → Exec S A → Exec S A
  with_error f m s = let (r, s') = m s in (map_error f r, s')

  abbrev pub handle_result : Result A → (Error → Exec S A) → Exec S A
  handle_result (ok a) h s = (ok a, s)
  handle_result (err e) h s = h e s
  handle_result panic h s = (panic, s)

  -- `if err := m; err != nil { h }`; a panic is not an error.
  abbrev pub handling : Exec S A → (Error → Exec S A) → Exec S A
  handling m h s = let (r, s') = m s in handle_result r h s'

module _ {ℓ} {S A B : Type ℓ} where
  abbrev pub continue : Result A → (A → Exec S B) → Exec S B
  continue (ok a) f s = f a s
  continue (err e) f s = (err e, s)
  continue panic f s = (panic, s)

  infixl 10 ◌>>=◌ ◌>>◌
  abbrev pub ◌>>=◌ : Exec S A → (A → Exec S B) → Exec S B
  ◌>>=◌ m f s = let (r, s') = m s in continue r f s'

  abbrev pub ◌>>◌ : Exec S A → Exec S B → Exec S B
  m >> n = m >>= λ _. n

-- To split on an outcome and keep the equation.
pub data ResultCase {ℓ} {A : Type ℓ} (r : Result A) : Type ℓ where
  is_ok : (a : A) → r ≡ ok a → ResultCase r
  is_err : (e : Error) → r ≡ err e → ResultCase r
  is_panic : r ≡ panic → ResultCase r

pub Result-cases {ℓ} : {A : Type ℓ} (r : Result A) → ResultCase r
Result-cases (ok a) = is_ok a refl
Result-cases (err e) = is_err e refl
Result-cases panic = is_panic refl

module _ {ℓ} {S A B : Type ℓ} where
  abbrev pub branch : Result A → (Error → Exec S B) → (A → Exec S B) → Exec S B
  branch (ok a) h k s = k a s
  branch (err e) h k s = h e s
  branch panic h k s = (panic, s)

  -- `a, err := m; if err != nil { return h }; k`
  abbrev pub trying : Exec S A → (Error → Exec S B) → (A → Exec S B) → Exec S B
  trying m h k s = let (r, s') = m s in branch r h k s'
