-- ===== src/DeepCopy/Alike.antt =====
-- Deep equality between values in two memories, and copies that respect it.
use ansible_operator.Base.{ℕ, ◌≡◌, sym, ap, ◌∙◌, Option, none, some, List, [], ◌∷◌}
use ansible_operator.DeepCopy.Structs.{Machinery}
use ansible_operator.DeepCopy.Memory.{
  Memory, Kind, Copy, pure, at, load, alloc, copy_each, copy_slice, copy_pointer, deep_copy,
  deep_copy_object,
}
use ansible_operator.DeepCopy.Copied.{
  Grows, Copied, Copied-pure, Copied-bind, Copied-load, Copied-alloc, at-Grows,
}

module _ (M : Machinery) where
  -- `R h x i y`: as `x` is in the memory `h`, so is `y` in `i`.
  abbrev pub Relation : Type 0 → Type 1
  Relation E = Memory M → E → Memory M → E → Type 0

  -- equality of what has no addresses in it
  abbrev pub Plain : (E : Type 0) → Relation E
  Plain E h x i y = y ≡ x

  module _ {E : Type 0} (kind : Kind M (List E)) (R : Relation E) where
    abbrev pub Each : Relation (List E)
    Each h [] i [] = Unit
    Each h [] i (y ∷ ys) = ⊥
    Each h (x ∷ xs) i [] = ⊥
    Each h (x ∷ xs) i (y ∷ ys) = R h x i y × Each h xs i ys

    -- both nil, or arrays with elements that correspond
    abbrev pub Slice : Relation (Option ℕ)
    Slice h none i none = Unit
    Slice h none i (some b) = ⊥
    Slice h (some a) i none = ⊥
    Slice h (some a) i (some b) =
        (xs ys : List E) × (at kind h a ≡ some xs) × (at kind i b ≡ some ys) × Each h xs i ys

  -- both nil, or pointers to the same struct
  abbrev pub Pointer : {E : Type 0} → Kind M E → Relation (Option ℕ)
  Pointer kind h none i none = Unit
  Pointer kind h none i (some b) = ⊥
  Pointer kind h (some a) i none = ⊥
  Pointer {E} kind h (some a) i (some b) = (x : E) × (at kind h a ≡ some x) × (at kind i b ≡ some x)

  -- both nil, or structs that correspond
  abbrev pub Nullable : {E : Type 0} → Relation E → Relation (Option E)
  Nullable R h none i none = Unit
  Nullable R h none i (some y) = ⊥
  Nullable R h (some x) i none = ⊥
  Nullable R h (some x) i (some y) = R h x i y

  -- `f` copies deeply: a copy of what is as `x` was in `h` is as `x` was in `h`.
  pub record Deep {E : Type 0} (R : Relation E) (f : E → Copy M E) : Type 0 where
    pub stable : (h i j : Memory M) (x y : E) → Grows i j → R h x i y → R h x j y
    pub copies : (h i : Memory M) (x y : E) → R h x i y → Copied i (f y) (λ later z. R h x later z)

  pub Deep-pure : {E : Type 0} → Deep (Plain E) pure
  Deep-pure = record {
    stable = λ h i j x y g e. e;
    copies = λ h i x y e. Copied-pure i y (λ later. e);
  }

  module _ {E : Type 0} (kind : Kind M (List E)) (R : Relation E) (f : E → Copy M E)
      (d : Deep R f) where
    Each-stable :
        (h i j : Memory M) (xs ys : List E)
        → Grows i j
        → Each kind R h xs i ys
        → Each kind R h xs j ys
    Each-stable h i j [] [] g e = tt
    Each-stable h i j [] (y ∷ ys) g e = absurd e
    Each-stable h i j (x ∷ xs) [] g e = absurd e
    Each-stable h i j (x ∷ xs) (y ∷ ys) g (r, e) =
        (d.stable h i j x y g r, Each-stable h i j xs ys g e)

    copy_each-Copied :
        (h i : Memory M) (xs ys : List E)
        → Each kind R h xs i ys
        → Copied i (copy_each f ys) (λ later zs. Each kind R h xs later zs)
    unfolding copy_each
    copy_each-Copied h i [] [] e = Copied-pure i [] (λ later. tt)
    copy_each-Copied h i [] (y ∷ ys) e = absurd e
    copy_each-Copied h i (x ∷ xs) [] e = absurd e
    copy_each-Copied h i (x ∷ xs) (y ∷ ys) (r, e) =
        Copied-bind i (f y) _ (d.copies h i x y r) λ z j g _.
          Copied-bind j (copy_each f ys) _
            (copy_each-Copied h j xs ys (Each-stable h i j xs ys g e))
            λ zs k g' _. Copied-pure k (z ∷ zs) (λ later e' r'. (r', e'))

    Slice-stable :
        (h i j : Memory M) (s t : Option ℕ)
        → Grows i j
        → Slice kind R h s i t
        → Slice kind R h s j t
    Slice-stable h i j none none g e = tt
    Slice-stable h i j none (some b) g e = absurd e
    Slice-stable h i j (some a) none g e = absurd e
    Slice-stable h i j (some a) (some b) g (xs, ys, e, e', r) =
        (xs, ys, e, at-Grows kind i j b ys g e', Each-stable h i j xs ys g r)

    copy_slice-Copied :
        ((xs : List E) → kind.unwrap (kind.wrap xs) ≡ some xs)
        → (h i : Memory M) (s t : Option ℕ) → Slice kind R h s i t
        → Copied i (copy_slice kind f t) (λ later u. Slice kind R h s later u)
    unfolding copy_slice
    copy_slice-Copied back h i none none e = Copied-pure i none (λ later. tt)
    copy_slice-Copied back h i none (some b) e = absurd e
    copy_slice-Copied back h i (some a) none e = absurd e
    copy_slice-Copied back h i (some a) (some b) (xs, ys, e, e', r) =
        Copied-bind i (load kind b) _ (Copied-load kind b ys i e') λ ys' j g same.
          Copied-bind j (copy_each f ys') _
            (copy_each-Copied h j xs ys' (rw same (Each-stable h i j xs ys g r)))
            λ zs k g' _.
              Copied-bind k (alloc kind zs) _ (Copied-alloc kind zs k (back zs))
                λ c l g'' _. Copied-pure l (some c) (λ later there r' _. (xs, zs, e, there, r'))

    pub Deep-slice :
        ((xs : List E) → kind.unwrap (kind.wrap xs) ≡ some xs)
        → Deep (Slice kind R) (copy_slice kind f)
    Deep-slice back = record { stable = Slice-stable; copies = copy_slice-Copied back }

  module _ {E : Type 0} (kind : Kind M E) where
    Pointer-stable :
        (h i j : Memory M) (p q : Option ℕ)
        → Grows i j
        → Pointer kind h p i q
        → Pointer kind h p j q
    Pointer-stable h i j none none g e = tt
    Pointer-stable h i j none (some b) g e = absurd e
    Pointer-stable h i j (some a) none g e = absurd e
    Pointer-stable h i j (some a) (some b) g (x, e, e') = (x, e, at-Grows kind i j b x g e')

    copy_pointer-Copied :
        ((x : E) → kind.unwrap (kind.wrap x) ≡ some x)
        → (h i : Memory M) (p q : Option ℕ) → Pointer kind h p i q
        → Copied i (copy_pointer kind q) (λ later u. Pointer kind h p later u)
    unfolding copy_pointer
    copy_pointer-Copied back h i none none e = Copied-pure i none (λ later. tt)
    copy_pointer-Copied back h i none (some b) e = absurd e
    copy_pointer-Copied back h i (some a) none e = absurd e
    copy_pointer-Copied back h i (some a) (some b) (x, e, e') =
        Copied-bind i (load kind b) _ (Copied-load kind b x i e') λ x' j g same.
          Copied-bind j (alloc kind x') _ (Copied-alloc kind x' j (back x')) λ c k g' _.
            Copied-pure k (some c) (λ later there _. (x', e ∙ ap some (sym same), there))

    pub Deep-pointer :
        ((x : E) → kind.unwrap (kind.wrap x) ≡ some x) → Deep (Pointer kind) (copy_pointer kind)
    Deep-pointer back = record { stable = Pointer-stable; copies = copy_pointer-Copied back }

  module _ {E : Type 0} (R : Relation E) (f : E → Copy M E) (d : Deep R f) where
    Nullable-stable :
        (h i j : Memory M) (x y : Option E) → Grows i j → Nullable R h x i y → Nullable R h x j y
    Nullable-stable h i j none none g e = tt
    Nullable-stable h i j none (some y) g e = absurd e
    Nullable-stable h i j (some x) none g e = absurd e
    Nullable-stable h i j (some x) (some y) g e = d.stable h i j x y g e

    deep_copy-Copied :
        (h i : Memory M) (x y : Option E)
        → Nullable R h x i y
        → Copied i (deep_copy f y) (λ later z. Nullable R h x later z)
    unfolding deep_copy
    deep_copy-Copied h i none none e = Copied-pure i none (λ later. tt)
    deep_copy-Copied h i none (some y) e = absurd e
    deep_copy-Copied h i (some x) none e = absurd e
    deep_copy-Copied h i (some x) (some y) e =
        Copied-bind i (f y) _ (d.copies h i x y e) λ z j g _. Copied-pure j (some z) (λ later r. r)

    pub Deep-deep_copy : Deep (Nullable R) (deep_copy f)
    Deep-deep_copy = record { stable = Nullable-stable; copies = deep_copy-Copied }

    -- `DeepCopyObject` adds nothing.
    deep_copy_object-Copied :
        (h i : Memory M) (x y : Option E)
        → Nullable R h x i y
        → Copied i (deep_copy_object f y) (λ later z. Nullable R h x later z)
    unfolding deep_copy_object
    deep_copy_object-Copied h i x y e =
        Copied-bind i (deep_copy f y) _ (deep_copy-Copied h i x y e) λ z j g _. settle z j
      where
        settle :
            (z : Option E) (j : Memory M)
            → Copied j
                (elim z [ none ↦ pure none | some w ↦ pure (some w) ])
                (λ later u. Nullable R h x later z → Nullable R h x later u)
        settle none j = Copied-pure j none (λ later r. r)
        settle (some w) j = Copied-pure j (some w) (λ later r. r)

    pub Deep-deep_copy_object : Deep (Nullable R) (deep_copy_object f)
    Deep-deep_copy_object = record { stable = Nullable-stable; copies = deep_copy_object-Copied }
