-- ===== src/Common/Sorting.antt =====
-- `Array.prototype.sort` with a comparator: the language makes it stable, so it is insertion sort.
-- `le a b` stands for `compare(a, b) <= 0`.
use mathlib.Core.Path.{◌≡◌, refl}
use mathlib.Core.Logic.{◌⊎◌, inl, inr}
use mathlib.Core.Bool.{Bool, true, false}
use mathlib.Core.List.{List, [], ◌∷◌, Memᴰ}
use mathlib.Core.List.Memᴰ
use planipus.Common.Tests.{if◌then◌else◌, Bool-cases}
use planipus.Common.Lists.{All}

module _ {ℓ} {A : Type ℓ} (le : A → A → Bool) where
  unfoldable pub insert : A → List A → List A
  insert a [] = a ∷ []
  insert a (x ∷ xs) = if le a x then a ∷ x ∷ xs else x ∷ insert a xs

  unfoldable pub sort : List A → List A
  unfolding insert
  sort [] = []
  sort (x ∷ xs) = insert x (sort xs)

  -- Every entry is at most each later one.
  abbrev pub IsSorted : List A → Type ℓ
  IsSorted [] = Unit
  IsSorted (x ∷ xs) = All (λ y. le x y ≡ true) xs × IsSorted xs

  pub mem-insert : {b : A} (a : A) (xs : List A) → Memᴰ b (insert a xs) → (b ≡ a) ⊎ Memᴰ b xs
  unfolding insert
  mem-insert a [] m = Memᴰ.cases_cons m
  mem-insert {b} a (x ∷ xs) m = elim (Bool-cases (le a x)) [
    | inl before ↦ Memᴰ.cases_cons (rw before at m)
    | inr after ↦ elim (Memᴰ.cases_cons {b = x} {l = insert a xs} (rw after at m)) [
      | inl e ↦ inr (Memᴰ.head e)
      | inr i ↦ elim (mem-insert a xs i) [ inl e ↦ inl e | inr j ↦ inr (Memᴰ.tail j) ]
    ]
  ]

  pub mem-insert_new : (a : A) (xs : List A) → Memᴰ a (insert a xs)
  unfolding insert
  mem-insert_new a [] = Memᴰ.head refl
  mem-insert_new a (x ∷ xs) = elim (Bool-cases (le a x)) [
    | inl before ↦ rw before (Memᴰ.head refl)
    | inr after ↦ rw after (Memᴰ.tail (mem-insert_new a xs))
  ]

  pub mem-insert_old : {b : A} (a : A) (xs : List A) → Memᴰ b xs → Memᴰ b (insert a xs)
  unfolding insert
  mem-insert_old a [] m = Memᴰ.tail m
  mem-insert_old a (x ∷ xs) m = elim (Bool-cases (le a x)) [
    | inl before ↦ rw before (Memᴰ.tail m)
    | inr after ↦ rw after (elim (Memᴰ.cases_cons m) [
      | inl e ↦ Memᴰ.head e
      | inr i ↦ Memᴰ.tail (mem-insert_old a xs i)
    ])
  ]

  pub mem-sort : {b : A} (xs : List A) → Memᴰ b (sort xs) → Memᴰ b xs
  unfolding sort
  mem-sort [] m = m
  mem-sort (x ∷ xs) m = elim (mem-insert x (sort xs) m) [
    | inl e ↦ Memᴰ.head e
    | inr i ↦ Memᴰ.tail (mem-sort xs i)
  ]

  pub mem-sort_intro : {b : A} (xs : List A) → Memᴰ b xs → Memᴰ b (sort xs)
  unfolding sort
  mem-sort_intro [] m = m
  mem-sort_intro {b} (x ∷ xs) m = elim (Memᴰ.cases_cons m) [
    | inl e ↦ rw e (mem-insert_new x (sort xs))
    | inr i ↦ mem-insert_old x (sort xs) (mem-sort_intro xs i)
  ]

  pub All-insert {κ} : (P : A → Type κ) (a : A) (xs : List A) → P a → All P xs → All P (insert a xs)
  unfolding insert
  All-insert P a [] p h = (p, tt)
  All-insert P a (x ∷ xs) p h = elim (Bool-cases (le a x)) [
    | inl before ↦ rw before (p, h)
    | inr after ↦ rw after (h.0, All-insert P a xs p h.1)
  ]

  pub All-sort {κ} : (P : A → Type κ) (xs : List A) → All P xs → All P (sort xs)
  unfolding sort
  All-sort P [] h = tt
  All-sort P (x ∷ xs) h = All-insert P x (sort xs) h.0 (All-sort P xs h.1)

  module _ (total : (a b : A) → le a b ≡ false → le b a ≡ true)
      (trans : (a b c : A) → le a b ≡ true → le b c ≡ true → le a c ≡ true) where
    below-All :
        (a x : A) (xs : List A)
        → le a x ≡ true
        → All (λ y. le x y ≡ true) xs
        → All (λ y. le a y ≡ true) xs
    below-All a x [] h k = tt
    below-All a x (y ∷ ys) h (k, ks) = (trans a x y h k, below-All a x ys h ks)

    insert-IsSorted : (a : A) (xs : List A) → IsSorted xs → IsSorted (insert a xs)
    unfolding insert
    insert-IsSorted a [] s = (tt, tt)
    insert-IsSorted a (x ∷ xs) (b, s) = elim (Bool-cases (le a x)) [
      | inl before ↦ rw before ((before, below-All a x xs before b), (b, s))
      | inr after ↦
          rw after
            (All-insert (λ y. le x y ≡ true) a xs (total a x after) b, insert-IsSorted a xs s)
    ]

    pub sort-IsSorted : (xs : List A) → IsSorted (sort xs)
    unfolding sort
    sort-IsSorted [] = tt
    sort-IsSorted (x ∷ xs) = insert-IsSorted x (sort xs) (sort-IsSorted xs)
