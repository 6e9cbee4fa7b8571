-- ===== src/Base/Sorting.antt =====
-- `slices.Sort` on strings. Go orders strings by their bytes, which for UTF-8 is the order of the
-- code points.
use mathlib.Core.HLevel.{hedberg}
use mathlib.Core.List.{List-discrete}
use Prim.Native.Char.{code}
use Prim.Native.Nat.{compare, Ordering}
use mathlib.Core.List.{Perm, Permᴰ}
use mathlib.Core.Logic.{∥∥₁_elim}
use text.Mathlib.TextEquality.{Char-path}
use ansible_operator.Base.{
  String, ◌≡◌, refl, ◌∙◌, Bool, true, false, List, [], ◌∷◌, arith, if◌then◌else◌, string_dec,
}

unfoldable pub text_le : String → String → Bool
text_le String.[] t = true
text_le (String.◌∷◌ c s) String.[] = false
text_le (String.◌∷◌ c s) (String.◌∷◌ d t) = elim (compare (code c) (code d)) [
  | Ordering.lt ↦ true
  | Ordering.gt ↦ false
  | Ordering.eq ↦ text_le s t
]

pub text_le_total : (s t : String) → text_le s t ≡ false → text_le t s ≡ true
unfolding text_le
text_le_total String.[] t h = ground arith
text_le_total (String.◌∷◌ c s) String.[] h = refl
text_le_total (String.◌∷◌ c s) (String.◌∷◌ d t) h = ground (arith, text_le_total s t)

pub text_le_antisymm : (s t : String) → text_le s t ≡ true → text_le t s ≡ true → s ≡ t
unfolding text_le
text_le_antisymm String.[] String.[] h k = refl
text_le_antisymm String.[] (String.◌∷◌ d t) h k = cc
text_le_antisymm (String.◌∷◌ c s) String.[] h k = cc
text_le_antisymm (String.◌∷◌ c s) (String.◌∷◌ d t) h k =
    ground (arith, text_le_antisymm s t, Char-path c d)

pub text_le_trans : (s t u : String) → text_le s t ≡ true → text_le t u ≡ true → text_le s u ≡ true
unfolding text_le
text_le_trans String.[] t u h k = refl
text_le_trans (String.◌∷◌ c s) String.[] u h k = cc
text_le_trans (String.◌∷◌ c s) (String.◌∷◌ d t) String.[] h k = cc
text_le_trans (String.◌∷◌ c s) (String.◌∷◌ d t) (String.◌∷◌ e u) h k =
    ground (arith, text_le_trans s t u)

unfoldable pub insert_sorted : String → List String → List String
insert_sorted a [] = a ∷ []
insert_sorted a (b ∷ l) = if text_le a b then a ∷ b ∷ l else b ∷ insert_sorted a l

unfoldable pub sorted : List String → List String
unfolding insert_sorted
sorted [] = []
sorted (a ∷ l) = insert_sorted a (sorted l)

pub insert_sorted_swap :
    (a b : String) (l : List String)
    → insert_sorted a (insert_sorted b l) ≡ insert_sorted b (insert_sorted a l)
unfolding insert_sorted
insert_sorted_swap a b [] = ground (arith, text_le_antisymm a b, text_le_total a b)
insert_sorted_swap a b (x ∷ l) = ground (
  arith,
  insert_sorted_swap a b l,
  text_le_antisymm a b,
  text_le_total a b,
  text_le_trans a b x,
  text_le_trans b a x,
)

texts_set : IsSet (List String)
texts_set = hedberg (List-discrete string_dec)

sorted_of_permᴰ : {l m : List String} → Permᴰ l m → sorted l ≡ sorted m
unfolding sorted
sorted_of_permᴰ Permᴰ.nil = refl
sorted_of_permᴰ (Permᴰ.cons e p) = cc (e, sorted_of_permᴰ p)
sorted_of_permᴰ (Permᴰ.swap {a} {b} {l = l} e f) = cc (e, f, insert_sorted_swap a b (sorted l))
sorted_of_permᴰ (Permᴰ.trans p q) = sorted_of_permᴰ p ∙ sorted_of_permᴰ q

-- The sorted list does not depend on the order of the items.
pub sorted_of_perm : {l m : List String} → Perm l m → sorted l ≡ sorted m
sorted_of_perm {l} {m} p = ∥∥₁_elim p (texts_set (sorted l) (sorted m)) sorted_of_permᴰ
