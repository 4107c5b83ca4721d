-- ===== src/Sync/Notices/Searches.antt =====
-- What an update of a table leaves of a search in it.
use planipus.Common.{
  ◌≡◌, refl, sym, inl, inr, some, Bool, true, ◌&&◌, List, [], ◌∷◌, find, Bool-cases,
}
use planipus.Sync.Store.{update_where}

pub find-hit {ℓ} :
    {A : Type ℓ} (test : A → Bool) (rows : List A) {a : A} → find test rows ≡ some a → test a ≡ true
find-hit test [] e = absurd (cc e)
find-hit test (r ∷ rows) {a} e = elim (Bool-cases (test r)) [
  | inl hit ↦
      let first : some r ≡ some a = rw hit at e in let same : r ≡ a = cc first in rw (sym same) hit
  | inr miss ↦ find-hit test rows (rw miss at e)
]

-- A further condition that the first hit meets does not change the search.
pub find-stronger {ℓ} :
    {A : Type ℓ} (test extra : A → Bool) (rows : List A) {a : A}
    → find test rows ≡ some a
    → extra a ≡ true
    → find (λ r. test r && extra r) rows ≡ some a
find-stronger test extra [] e also = absurd (cc e)
find-stronger test extra (r ∷ rows) {a} e also = elim (Bool-cases (test r)) [
  | inl hit ↦
      let first : some r ≡ some a = rw hit at e in
      let same : r ≡ a = cc first in rw (hit, same, also) refl
  | inr miss ↦ rw miss (find-stronger test extra rows (rw miss at e) also)
]

-- The first hit is the one that an update changes, where the update keeps what is searched for.
pub find-updated {ℓ} :
    {A : Type ℓ} (test other : A → Bool) (set : A → A)
    → ((a : A) → test (set a) ≡ test a)
    → (rows : List A) {a : A} → find test rows ≡ some a
    → other a ≡ true
    → find test (update_where other set rows) ≡ some (set a)
find-updated test other set same [] e also = absurd (cc e)
find-updated test other set same (r ∷ rows) {a} e also = elim (Bool-cases (test r)) [
  | inl hit ↦
      let first : some r ≡ some a = rw hit at e in
      let is_first : r ≡ a = cc first in rw (is_first, also, same a, rw is_first at hit) refl
  | inr miss ↦ elim (Bool-cases (other r)) [
    | inl changed ↦
        rw (changed, same r, miss) (find-updated test other set same rows (rw miss at e) also)
    | inr kept ↦ rw (kept, miss) (find-updated test other set same rows (rw miss at e) also)
  ]
]
