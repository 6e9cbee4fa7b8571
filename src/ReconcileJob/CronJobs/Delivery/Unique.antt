-- ===== src/ReconcileJob/CronJobs/Delivery/Unique.antt =====
-- An element of a list whose elements have different keys is the only one with its key.
use mathlib.Core.List.{Memᴰ}
use ansible_operator.Base.{String, ◌≡◌, refl, ◌∙◌, sym, ap, List, [], ◌∷◌, map, All-Memᴰ, ◌≢◌}
use ansible_operator.ReconcileJob.CronJobs.Names.{Distinct}

module _ {A : Type 0} (key : A → String) where
  -- `a` is in the list, and nothing else there has its key.
  abbrev pub Sole : A → List A → Type 0
  Sole a xs = Memᴰ a xs × ((b : A) → Memᴰ b xs → key b ≡ key a → b ≡ a)

  Memᴰ-map : (xs : List A) (a : A) → Memᴰ a xs → Memᴰ (key a) (map key xs)
  Memᴰ-map [] a m = elim m [ ]
  Memᴰ-map (x ∷ xs) a (Memᴰ.head e) = Memᴰ.head (ap key e)
  Memᴰ-map (x ∷ xs) a (Memᴰ.tail m) = Memᴰ.tail (Memᴰ-map xs a m)

  only :
      (xs : List A) (a b : A)
      → Distinct (map key xs)
      → Memᴰ a xs
      → Memᴰ b xs
      → key b ≡ key a
      → b ≡ a
  only [] a b d m n same = elim m [ ]
  only (x ∷ xs) a b d (Memᴰ.head e) (Memᴰ.head f) same = f ∙ sym e
  only (x ∷ xs) a b (ne, d) (Memᴰ.head e) (Memᴰ.tail n) same =
      absurd (
        All-Memᴰ (λ y. key x ≢ y) (map key xs) (key b) (Memᴰ-map xs b n) ne (sym (same ∙ ap key e)))
  only (x ∷ xs) a b (ne, d) (Memᴰ.tail m) (Memᴰ.head f) same =
      absurd (
        All-Memᴰ (λ y. key x ≢ y) (map key xs) (key a) (Memᴰ-map xs a m) ne (sym (ap key f) ∙ same))
  only (x ∷ xs) a b (ne, d) (Memᴰ.tail m) (Memᴰ.tail n) same = only xs a b d m n same

  pub Distinct-Sole : (xs : List A) (a : A) → Distinct (map key xs) → Memᴰ a xs → Sole a xs
  Distinct-Sole xs a d m = (m, λ b n same. only xs a b d m n same)

-- The entries for some objects have the keys of the objects.
pub map_pairs :
    {A B : Type 0} (key : B → String) (pair : A → B) (xs : List A)
    → map key (map pair xs) ≡ map (λ x. key (pair x)) xs
map_pairs key pair [] = refl
map_pairs key pair (x ∷ xs) = ap (λ l. key (pair x) ∷ l) (map_pairs key pair xs)
