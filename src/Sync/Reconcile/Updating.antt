-- ===== src/Sync/Reconcile/Updating.antt =====
-- Lists of rows under an update of those that pass a test.
use mathlib.Core.List.{Memᴰ}
use mathlib.Core.List.Memᴰ
use planipus.Common.{
  ◌⊎◌, mem-map, ◌≡◌, refl, ap, inl, inr, some, Bool, true, false, List, [], ◌∷◌, map, find,
  if◌then◌else◌, Bool-cases,
}
use planipus.Sync.Store.{update_where}

map-if {ℓ κ} :
    {A : Type ℓ} {B : Type κ} (view : A → B) (set : A → A)
    → ((a : A) → view (set a) ≡ view a)
    → (b : Bool) (a : A) → view (if b then set a else a) ≡ view a
map-if view set same true a = same a
map-if view set same false a = refl

pub map-update_where {ℓ κ} :
    {A : Type ℓ} {B : Type κ} (view : A → B) (test : A → Bool) (set : A → A)
    → ((a : A) → view (set a) ≡ view a)
    → (rows : List A) → map view (update_where test set rows) ≡ map view rows
map-update_where view test set same [] = refl
map-update_where view test set same (a ∷ rows) =
    rw (map-if view set same (test a) a, map-update_where view test set same rows) refl

pub mem-find {ℓ} :
    {A : Type ℓ} (test : A → Bool) (rows : List A) {a : A} → find test rows ≡ some a → Memᴰ a rows
mem-find test [] e = absurd (cc e)
mem-find test (a ∷ rows) e = elim (Bool-cases (test a)) [
  | inl hit ↦ let first : some a ≡ some _ = rw hit at e in Memᴰ.head (cc first)
  | inr miss ↦ Memᴰ.tail (mem-find test rows (rw miss at e))
]

pub mem-update_where {ℓ} :
    {A : Type ℓ} (test : A → Bool) (set : A → A) (rows : List A) {a : A}
    → Memᴰ a rows
    → test a ≡ true
    → Memᴰ (set a) (update_where test set rows)
mem-update_where test set [] m hit = absurd (Memᴰ.not-nil m)
mem-update_where test set (x ∷ rows) (Memᴰ.head same) hit =
    let changed : test x ≡ true = rw (← same) hit in rw changed (Memᴰ.head (ap set same))
mem-update_where test set (x ∷ rows) (Memᴰ.tail m) hit =
    Memᴰ.tail (mem-update_where test set rows m hit)

pub mem-updated {ℓ} :
    {A : Type ℓ} (test : A → Bool) (set : A → A) (rows : List A) {a : A}
    → Memᴰ a (update_where test set rows)
    → (Memᴰ a rows × (test a ≡ false)) ⊎ ((r : A) × Memᴰ r rows × (test r ≡ true) × (a ≡ set r))
mem-updated test set rows {a} m =
    let (r, j, same) = mem-map (λ r. if test r then set r else r) rows m in
    elim (Bool-cases (test r)) [
      | inl hit ↦ let changed : a ≡ set r = rw hit at same in inr (r, j, hit, changed)
      | inr miss ↦ let kept : a ≡ r = rw miss at same in inl (rw kept j, rw kept miss)
    ]
