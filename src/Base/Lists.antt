-- ===== src/Base/Lists.antt =====
-- Lists with native lengths, and predicates by recursion.
use Prim.Native.Nat.{ℕ, suc}
use mathlib.Core.Bool.{Bool, true, false}
use mathlib.Core.List.{List, [], ◌∷◌, ◌++◌}
use Prim.Native.String.{String}
use mathlib.Core.List.{Memᴰ}
use mathlib.Core.Path.{◌≡◌, refl, sym, subst}
use ansible_operator.Base.Tests.{if◌then◌else◌, ◌==◌}

module _ {ℓ} {A : Type ℓ} where
  abbrev pub length : List A → ℕ
  length [] = 0
  length (x ∷ xs) = suc (length xs)

  -- The elements that pass a Boolean test, in order.
  abbrev pub keep : (A → Bool) → List A → List A
  keep p [] = []
  keep p (x ∷ xs) = let rest = keep p xs in if p x then x ∷ rest else rest

  -- `len(xs) > 0`
  abbrev pub nonempty : List A → Bool
  nonempty [] = false
  nonempty (x ∷ xs) = true

-- `slices.Contains`
abbrev pub contains : String → List String → Bool
contains value [] = false
contains value (v ∷ vs) = if v == value then true else contains value vs

module _ {ℓ} {A : Type ℓ} (p q : A → Bool) where
  pub keep_ext : ((x : A) → p x ≡ q x) → (xs : List A) → keep p xs ≡ keep q xs
  keep_ext e [] = refl
  keep_ext e (x ∷ xs) = rw (e x, keep_ext e xs)

module _ {ℓ κ} {A : Type ℓ} (P : A → Type κ) where
  abbrev pub All : List A → Type κ
  All [] = Unit
  All (x ∷ xs) = P x × All xs

  pub All-append : (xs ys : List A) → All xs → All ys → All (xs ++ ys)
  All-append [] ys _ k = k
  All-append (x ∷ xs) ys (p, h) k = (p, All-append xs ys h k)

module _ {ℓ κ ν} {A : Type ℓ} (P : A → Type κ) (Q : A → Type ν) where
  pub All-impl : ((x : A) → P x → Q x) → (xs : List A) → All P xs → All Q xs
  All-impl f [] _ = tt
  All-impl f (x ∷ xs) (p, h) = (f x p, All-impl f xs h)

module _ {ℓ κ} {A : Type ℓ} (P : A → Type κ) where
  pub All-of : ((x : A) → P x) → (xs : List A) → All P xs
  All-of f [] = tt
  All-of f (x ∷ xs) = (f x, All-of f xs)

  pub All-Memᴰ : (xs : List A) (x : A) → Memᴰ x xs → All P xs → P x
  All-Memᴰ [] x m _ = elim m [ ]
  All-Memᴰ (y ∷ ys) x (Memᴰ.head e) (p, _) = subst P (sym e) p
  All-Memᴰ (y ∷ ys) x (Memᴰ.tail m) (_, ps) = All-Memᴰ ys x m ps

module _ {ℓ κ ν} {A : Type ℓ} (P : A → Type κ) (Q : A → Type ν) where
  pub All-map : (xs : List A) → ((x : A) → Memᴰ x xs → P x → Q x) → All P xs → All Q xs
  All-map [] f _ = tt
  All-map (x ∷ xs) f (p, ps) = (f x (Memᴰ.head refl) p, All-map xs (λ y m. f y (Memᴰ.tail m)) ps)
