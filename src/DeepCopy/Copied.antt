-- ===== src/DeepCopy/Copied.antt =====
-- What a copying action leaves of the memory, and what it makes of its own.
use Prim.Native.Nat.{zero, suc}
use ansible_operator.Base.{
  ℕ, ◌≤◌, ◌≡◌, refl, some, List, [], ◌∷◌, ◌++◌, length, arith, Option-cases, inl, inr,
}
use ansible_operator.DeepCopy.Structs.{Machinery}
use ansible_operator.DeepCopy.Memory.{
  get_elem?, Cell, Memory, Kind, Copy, pure, ◌>>=◌, at, load, alloc,
}

module _ {A : Type 0} where
  get_elem?-append :
      (xs ys : List A) (n : ℕ) (x : A) → get_elem? xs n ≡ some x → get_elem? (xs ++ ys) n ≡ some x
  get_elem?-append [] ys n x h = cc h
  get_elem?-append (y ∷ xs) ys zero x h = h
  get_elem?-append (y ∷ xs) ys (suc n) x h = get_elem?-append xs ys n x h

  get_elem?-length : (xs : List A) (x : A) → get_elem? (xs ++ (x ∷ [])) (length xs) ≡ some x
  get_elem?-length [] x = refl
  get_elem?-length (y ∷ xs) x = get_elem?-length xs x

  length-append_one : (xs : List A) (x : A) → length xs ≤ length (xs ++ (x ∷ []))
  length-append_one [] x = omega arith
  length-append_one (y ∷ xs) x = omega (arith, length-append_one xs x)

module _ {M : Machinery} where
  -- The cells of `h` from the address `n` on are in `h'` as they were. Of other cells nothing is said.
  pub record Retains (n : ℕ) (h h' : Memory M) : Type 0 where
    pub same : (a : ℕ) (c : Cell M) → n ≤ a → get_elem? h a ≡ some c → get_elem? h' a ≡ some c

  -- Cells have been added at most.
  pub record Grows (h h' : Memory M) : Type 0 where
    pub longer : length h ≤ length h'
    pub old : Retains 0 h h'

  -- The action ends, adds cells at most, and what it returns meets `Q` in every later memory that has
  -- the added cells, whatever has become of those that were there before.
  pub record Copied {A : Type 0} (h : Memory M) (m : Copy M A) (Q : Memory M → A → Type 0)
      : Type 0 where
    pub value : A
    pub memory : Memory M
    pub ends : m h ≡ some (value, memory)
    pub grows : Grows h memory
    pub holds : (later : Memory M) → Retains (length h) memory later → Q later value

  pub Grows-refl : (h : Memory M) → Grows h h
  Grows-refl h = record { longer = omega arith; old = record { same = λ a c le e. e } }

  pub Grows-trans : (h i j : Memory M) → Grows h i → Grows i j → Grows h j
  Grows-trans h i j p q = record {
    longer = omega (arith, p.longer, q.longer);
    old = record { same = λ a c le e. q.old.same a c le (p.old.same a c le e) };
  }

  pub Copied-pure :
      {A : Type 0} {Q : Memory M → A → Type 0} (h : Memory M) (a : A)
      → ((later : Memory M) → Q later a)
      → Copied h (pure a) Q
  Copied-pure h a q = record {
    value = a;
    memory = h;
    ends = refl;
    grows = Grows-refl h;
    holds = λ later r. q later;
  }

  pub Copied-bind :
      {A B : Type 0} {Q : Memory M → A → Type 0} {R : Memory M → B → Type 0} (h : Memory M)
      (m : Copy M A) (f : A → Copy M B)
      → Copied h m Q
      → ((a : A) (i : Memory M)
          → Grows h i
          → Q i a
          → Copied i (f a) (λ later b. Q later a → R later b))
      → Copied h (m >>= f) R
  Copied-bind h m f p k =
      let now = p.holds p.memory (record { same = λ a c le e. e }) in
      let q = k p.value p.memory p.grows now in
      record {
        value = q.value;
        memory = q.memory;
        ends = rw (p.ends, q.ends, ◌>>=◌);
        grows = Grows-trans h p.memory q.memory p.grows q.grows;
        holds = λ later r.
            q.holds later
              (record { same = λ a c le e. r.same a c (omega (arith, le, p.grows.longer)) e })
              (p.holds later (record {
                same = λ a c le e. r.same a c le (q.grows.old.same a c (omega arith) e);
              }));
      }

  pub Copied-load :
      {E : Type 0} (kind : Kind M E) (a : ℕ) (x : E) (h : Memory M)
      → at kind h a ≡ some x
      → Copied h (load kind a) (λ later y. y ≡ x)
  unfolding load
  Copied-load kind a x h e = record {
    value = x;
    memory = h;
    ends = ground (arith, e);
    grows = Grows-refl h;
    holds = λ later r. refl;
  }

  pub Copied-alloc :
      {E : Type 0} (kind : Kind M E) (x : E) (h : Memory M)
      → kind.unwrap (kind.wrap x) ≡ some x
      → Copied h (alloc kind x) (λ later a. at kind later a ≡ some x)
  unfolding alloc
  Copied-alloc kind x h e = record {
    value = length h;
    memory = h ++ (kind.wrap x ∷ []);
    ends = refl;
    grows = record {
      longer = length-append_one h (kind.wrap x);
      old = record { same = λ a c le g. get_elem?-append h (kind.wrap x ∷ []) a c g };
    };
    holds = λ later r.
        let there =
          r.same (length h) (kind.wrap x) (omega arith) (get_elem?-length h (kind.wrap x)) in
        ground (arith, there, e);
  }

  pub at-Grows :
      {E : Type 0} (kind : Kind M E) (h i : Memory M) (a : ℕ) (x : E)
      → Grows h i
      → at kind h a ≡ some x
      → at kind i a ≡ some x
  at-Grows kind h i a x g e = elim (Option-cases (get_elem? h a)) [
    | inl missing ↦ ground (arith, missing, e)
    | inr (c, there) ↦ ground (arith, there, e, g.old.same a c (omega arith) there)
  ]
