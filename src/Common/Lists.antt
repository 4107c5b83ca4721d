-- ===== src/Common/Lists.antt =====
-- JavaScript's array methods on lists: `some`, `every`, `includes`, `filter`, `flatMap`, `find`.
use Prim.Native.Nat.{ℕ, zero, suc, ◌+◌, ◌≤◌}
use Prim.Native.String.{String}
use mathlib.Core.Path.{◌≡◌, refl, ap}
use mathlib.Core.Logic.{inl, inr}
use mathlib.Core.Bool.{Bool, true, false, ◌||◌}
use mathlib.Core.Option.{Option, none, some}
use mathlib.Core.List.{List, [], ◌∷◌, ◌++◌, map, Memᴰ}
use mathlib.Core.List.Memᴰ
use native.Mathlib.Omega.{arith}
use text.Mathlib.Text.{◌==◌ as str_eq}
use planipus.Common.Tests.{if◌then◌else◌, Bool-cases, ltb}

module _ {ℓ} {A : Type ℓ} where
  abbrev pub length : List A → ℕ
  length [] = 0
  length (x ∷ xs) = suc (length xs)

  abbrev pub take : ℕ → List A → List A
  take zero xs = []
  take (suc n) [] = []
  take (suc n) (x ∷ xs) = x ∷ take n xs

  abbrev pub filter : (A → Bool) → List A → List A
  filter p [] = []
  filter p (x ∷ xs) = if p x then x ∷ filter p xs else filter p xs

  -- `xs.some(p)`
  abbrev pub any : (A → Bool) → List A → Bool
  any p [] = false
  any p (x ∷ xs) = p x || any p xs

  -- `xs.find(p)`
  abbrev pub find : (A → Bool) → List A → Option A
  find p [] = none
  find p (x ∷ xs) = if p x then some x else find p xs

  pub length-append : (xs ys : List A) → length (xs ++ ys) ≡ length xs + length ys
  length-append [] ys = omega arith
  length-append (x ∷ xs) ys = omega (arith, length-append xs ys)

  pub length-take-le : (n : ℕ) (xs : List A) → length (take n xs) ≤ n
  length-take-le zero xs = omega arith
  length-take-le (suc n) [] = omega arith
  length-take-le (suc n) (x ∷ xs) = omega (arith, length-take-le n xs)

  pub length-filter-le : (p : A → Bool) (xs : List A) → length (filter p xs) ≤ length xs
  length-filter-le p [] = omega arith
  length-filter-le p (x ∷ xs) = ground (arith, length-filter-le p xs)

module _ {ℓ} {A : Type ℓ} (p : A → Bool) where
  mem-filter_keep :
      {a x : A} {xs : List A}
      → p x ≡ true
      → (Memᴰ a (filter p xs) → Memᴰ a xs × (p a ≡ true))
      → Memᴰ a (x ∷ filter p xs)
      → Memᴰ a (x ∷ xs) × (p a ≡ true)
  mem-filter_keep keep ih (Memᴰ.head e) = (Memᴰ.head e, rw e keep)
  mem-filter_keep keep ih (Memᴰ.tail i) = let (j, h) = ih i in (Memᴰ.tail j, h)

  pub mem-filter : {a : A} (xs : List A) → Memᴰ a (filter p xs) → Memᴰ a xs × (p a ≡ true)
  mem-filter [] m = absurd (Memᴰ.not-nil m)
  mem-filter {a} (x ∷ xs) m = elim (Bool-cases (p x)) [
    | inl keep ↦ mem-filter_keep keep (mem-filter xs) (rw keep at m)
    | inr drop ↦ let (i, e) = mem-filter xs (rw drop at m) in (Memᴰ.tail i, e)
  ]

  pub mem-filter_intro : {a : A} (xs : List A) → Memᴰ a xs → p a ≡ true → Memᴰ a (filter p xs)
  mem-filter_intro [] m h = absurd (Memᴰ.not-nil m)
  mem-filter_intro (x ∷ xs) (Memᴰ.head e) h =
      let keep : p x ≡ true = rw (← e) h in rw keep (Memᴰ.head e)
  mem-filter_intro {a} (x ∷ xs) (Memᴰ.tail i) h = elim (Bool-cases (p x)) [
    | inl keep ↦ rw keep (Memᴰ.tail (mem-filter_intro xs i h))
    | inr drop ↦ rw drop (mem-filter_intro xs i h)
  ]

  pub any_of_mem : {a : A} (xs : List A) → Memᴰ a xs → p a ≡ true → any p xs ≡ true
  any_of_mem [] m h = absurd (Memᴰ.not-nil m)
  any_of_mem (x ∷ xs) (Memᴰ.head e) h = let keep : p x ≡ true = rw (← e) h in rw keep
  any_of_mem (x ∷ xs) (Memᴰ.tail i) h = elim (Bool-cases (p x)) [
    | inl keep ↦ rw keep
    | inr drop ↦ rw drop (any_of_mem xs i h)
  ]

  pub mem_of_any : (xs : List A) → any p xs ≡ true → (a : A) × Memᴰ a xs × (p a ≡ true)
  mem_of_any [] h = cc
  mem_of_any (x ∷ xs) h = elim (Bool-cases (p x)) [
    | inl hit ↦ (x, Memᴰ.head refl, hit)
    | inr miss ↦ let (a, i, e) = mem_of_any xs (rw miss at h) in (a, Memᴰ.tail i, e)
  ]

  -- Some entry passes the test exactly when the filtered list is not empty.
  pub any-eq-length : (xs : List A) → any p xs ≡ ltb 0 (length (filter p xs))
  any-eq-length [] = refl
  any-eq-length (x ∷ xs) = elim (Bool-cases (p x)) [
    | inl hit ↦ rw hit (ground arith)
    | inr miss ↦ rw miss (any-eq-length xs)
  ]

module _ {ℓ κ} {A : Type ℓ} (P : A → Type κ) where
  -- A predicate of every entry.
  abbrev pub All : List A → Type κ
  All [] = Unit
  All (x ∷ xs) = P x × All xs

  pub All-append : (xs ys : List A) → All xs → All ys → All (xs ++ ys)
  All-append [] ys h k = k
  All-append (x ∷ xs) ys (p, h) k = (p, All-append xs ys h k)

  pub All-mem : {a : A} (xs : List A) → All xs → Memᴰ a xs → P a
  All-mem [] h m = absurd (Memᴰ.not-nil m)
  All-mem (x ∷ xs) (p, h) (Memᴰ.head e) = rw e p
  All-mem (x ∷ xs) (p, h) (Memᴰ.tail i) = All-mem xs h i

-- `[...new Set(xs)]`: the first occurrence of each entry, in order, by the equality `same`.
module _ {ℓ} {A : Type ℓ} (same : A → A → Bool) where
  abbrev pub unique_from : List A → List A → List A
  unique_from seen [] = []
  unique_from seen (x ∷ xs) =
      let kept = x ∷ unique_from (x ∷ seen) xs in
      let dropped = unique_from seen xs in if any (same x) seen then dropped else kept

  abbrev pub unique : List A → List A
  unique xs = unique_from [] xs

-- `xs.includes(x)`
abbrev pub includes : List String → String → Bool
includes xs s = any (λ x. str_eq x s) xs

pub All-of_mem {ℓ κ} :
    {A : Type ℓ} (P : A → Type κ) (xs : List A) → ((x : A) → Memᴰ x xs → P x) → All P xs
All-of_mem P [] h = tt
All-of_mem P (x ∷ xs) h = (h x (Memᴰ.head refl), All-of_mem P xs (λ y m. h y (Memᴰ.tail m)))

pub mem-take {ℓ} : {A : Type ℓ} {a : A} (n : ℕ) (xs : List A) → Memᴰ a (take n xs) → Memᴰ a xs
mem-take zero xs m = absurd (Memᴰ.not-nil m)
mem-take (suc n) [] m = absurd (Memᴰ.not-nil m)
mem-take (suc n) (x ∷ xs) (Memᴰ.head e) = Memᴰ.head e
mem-take (suc n) (x ∷ xs) (Memᴰ.tail m) = Memᴰ.tail (mem-take n xs m)

pub length-map {ℓ κ} :
    {A : Type ℓ} {B : Type κ} (f : A → B) (xs : List A) → length (map f xs) ≡ length xs
length-map f [] = refl
length-map f (x ∷ xs) = ap suc (length-map f xs)

pub All-map_intro {ℓ κ μ} :
    {A : Type ℓ} {B : Type κ} (P : B → Type μ) (f : A → B) (xs : List A)
    → ((x : A) → Memᴰ x xs → P (f x))
    → All P (map f xs)
All-map_intro P f [] h = tt
All-map_intro P f (x ∷ xs) h =
    (h x (Memᴰ.head refl), All-map_intro P f xs (λ y m. h y (Memᴰ.tail m)))

pub mem-map {ℓ κ} :
    {A : Type ℓ} {B : Type κ} (f : A → B) (xs : List A) {b : B}
    → Memᴰ b (map f xs)
    → (a : A) × Memᴰ a xs × (b ≡ f a)
mem-map f [] m = absurd (Memᴰ.not-nil m)
mem-map f (x ∷ xs) (Memᴰ.head e) = (x, Memᴰ.head refl, e)
mem-map f (x ∷ xs) (Memᴰ.tail m) = let (a, i, e) = mem-map f xs m in (a, Memᴰ.tail i, e)

pub mem-map_intro {ℓ κ} :
    {A : Type ℓ} {B : Type κ} (f : A → B) (xs : List A) {a : A} → Memᴰ a xs → Memᴰ (f a) (map f xs)
mem-map_intro f (x ∷ xs) (Memᴰ.head e) = Memᴰ.head (ap f e)
mem-map_intro f (x ∷ xs) (Memᴰ.tail m) = Memᴰ.tail (mem-map_intro f xs m)
mem-map_intro f [] m = absurd (Memᴰ.not-nil m)

pub any-append {ℓ} :
    {A : Type ℓ} (p : A → Bool) (xs ys : List A) → any p (xs ++ ys) ≡ (any p xs || any p ys)
any-append p [] ys = refl
any-append p (x ∷ xs) ys = elim (Bool-cases (p x)) [
  | inl hit ↦ rw hit refl
  | inr miss ↦ rw (miss, any-append p xs ys) refl
]
