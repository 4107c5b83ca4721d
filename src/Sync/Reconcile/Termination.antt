-- ===== src/Sync/Reconcile/Termination.antt =====
-- server/src/sync/reconciliation.ts: the loop of `reconcile` ends, and when it does nothing.
use mathlib.Core.List.{Memᴰ}
use mathlib.Core.List.Memᴰ
use planipus.Common.{
  is_false_of_not, ℕ, zero, suc, ◌≤◌, ◌<◌, ◌≡◌, refl, inl, inr, String, Option, none, some, Bool,
  true, false, ◌&&◌, List, [], ◌∷◌, str_eq, ltb, length, filter, mem-take, mem-filter, both_true,
  and_intro, Bool-cases, Result-cases, Result, arith,
}
use planipus.Common.Sorting.{mem-sort}
use planipus.CalendarSync.Json.{codes, utf16, units_le, text_le}
use planipus.Sync.Store.{Observation, Store}
use planipus.Sync.Provider.{EffectError}
use planipus.Sync.Reconcile.Passes.{
  Tally, page_size, is_after, last_id, is_candidate, next_page, Transaction, reconcile_page,
  reconcile_pages,
}

units_lt_trans :
    (xs ys zs : List ℕ) → units_le ys xs ≡ false → units_le zs ys ≡ false → units_le zs xs ≡ false
unfolding units_le
units_lt_trans xs [] zs a b = absurd (cc a)
units_lt_trans xs (y ∷ ys) [] a b = absurd (cc b)
units_lt_trans [] (y ∷ ys) (z ∷ zs) a b = refl
units_lt_trans (x ∷ xs) (y ∷ ys) (z ∷ zs) a b =
    let rest : units_le ys xs ≡ false → units_le zs ys ≡ false → units_le zs xs ≡ false =
      units_lt_trans xs ys zs in
    ground arith

units_le_refl : (xs : List ℕ) → units_le xs xs ≡ true
unfolding units_le
units_le_refl [] = refl
units_le_refl (x ∷ xs) = let rest : units_le xs xs ≡ true = units_le_refl xs in ground arith

text_le_refl : (s : String) → text_le s s ≡ true
unfolding text_le
text_le_refl s = units_le_refl (utf16 (codes s))

text_lt_trans : (a b c : String) → text_le b a ≡ false → text_le c b ≡ false → text_le c a ≡ false
unfolding text_le
text_lt_trans a b c = units_lt_trans (utf16 (codes a)) (utf16 (codes b)) (utf16 (codes c))

module _ {ℓ} {A : Type ℓ} (p q : A → Bool) (weaker : (a : A) → p a ≡ true → q a ≡ true) where
  length-filter-weaker : (xs : List A) → length (filter p xs) ≤ length (filter q xs)
  length-filter-weaker [] = omega arith
  length-filter-weaker (x ∷ xs) =
      let rest = length-filter-weaker xs in
      elim (Bool-cases (p x)) [
        | inl hit ↦ rw (hit, weaker x hit) (omega arith)
        | inr miss ↦ elim (Bool-cases (q x)) [
          | inl more ↦ rw (miss, more) (omega arith)
          | inr less ↦ rw (miss, less) rest
        ]
      ]

  -- One element passes the weaker test only.
  length-filter-lt :
      {a : A} (xs : List A)
      → Memᴰ a xs
      → p a ≡ false
      → q a ≡ true
      → length (filter p xs) < length (filter q xs)
  length-filter-lt [] m out within = absurd (Memᴰ.not-nil m)
  length-filter-lt (x ∷ xs) (Memᴰ.head same) out within =
      let miss : p x ≡ false = rw (← same) out in
      let hit : q x ≡ true = rw (← same) within in
      let rest = length-filter-weaker xs in rw (miss, hit) (omega arith)
  length-filter-lt (x ∷ xs) (Memᴰ.tail m) out within =
      let rest = length-filter-lt xs m out within in
      elim (Bool-cases (p x)) [
        | inl hit ↦ rw (hit, weaker x hit) (omega arith)
        | inr miss ↦ elim (Bool-cases (q x)) [
          | inl more ↦ rw (miss, more) (omega arith)
          | inr less ↦ rw (miss, less) rest
        ]
      ]

last_id-mem :
    (o : Observation) (os : List Observation)
    → (x : Observation) × Memᴰ x (o ∷ os) × (last_id (o ∷ os) ≡ some x.id)
last_id-mem o [] = (o, Memᴰ.head refl, refl)
last_id-mem o (p ∷ os) = let (x, m, e) = last_id-mem p os in (x, Memᴰ.tail m, e)

full-last_id :
    (os : List Observation)
    → ltb (length os) page_size ≡ false
    → (x : Observation) × Memᴰ x os × (last_id os ≡ some x.id)
full-last_id [] full = absurd (cc full)
full-last_id (o ∷ os) full = last_id-mem o os

module _ (organization calendar : String) (rows : List Observation) where
  abbrev left : Option String → ℕ
  left after = length (filter (is_candidate organization calendar rows after) rows)

  abbrev page : Option String → List Observation
  page = next_page organization calendar rows

  mem-next_page :
      (after : Option String) (x : Observation)
      → Memᴰ x (page after)
      → Memᴰ x rows × (is_candidate organization calendar rows after x ≡ true)
  unfolding next_page
  mem-next_page after x m = mem-filter _ rows (mem-sort _ _ (mem-take page_size _ m))

  is_after_trans :
      (after : Option String) (x o : Observation)
      → is_after after x ≡ true
      → is_after (some x.id) o ≡ true
      → is_after after o ≡ true
  is_after_trans none x o a b = refl
  is_after_trans (some id) x o a b =
      let u : text_le x.id id ≡ false = is_false_of_not _ a in
      let v : text_le o.id x.id ≡ false = is_false_of_not _ b in
      rw (text_lt_trans id x.id o.id u v) refl

  abbrev in_calendar : Observation → Bool
  in_calendar o = str_eq o.organization_id organization && str_eq o.calendar_endpoint_id calendar

  is_candidate_weaker :
      (after : Option String) (x : Observation)
      → is_candidate organization calendar rows after x ≡ true
      → (o : Observation) → is_candidate organization calendar rows (some x.id) o ≡ true
      → is_candidate organization calendar rows after o ≡ true
  is_candidate_weaker after x first o later =
      let passes : is_after after x ≡ true =
        (both_true (in_calendar x) (is_after after x) first).1 in
      let (here, past) = both_true (in_calendar o) (is_after (some x.id) o) later in
      and_intro (in_calendar o) (is_after after o) here (is_after_trans after x o passes past)

  not_after_itself :
      (x : Observation) → is_candidate organization calendar rows (some x.id) x ≡ false
  not_after_itself x = rw (text_le_refl x.id) (ground arith)

  -- After a page that is not empty fewer observations are left.
  left-last_id :
      (after : Option String)
      → ltb (length (page after)) page_size ≡ false
      → left (last_id (page after)) < left after
  left-last_id after full =
      let (x, m, last) = full-last_id (page after) full in
      let (among, first) = mem-next_page after x m in
      rw last (
        length-filter-lt (is_candidate organization calendar rows (some x.id))
          (is_candidate organization calendar rows after) (is_candidate_weaker after x first) rows
          among (not_after_itself x) first)

  -- With more fuel than there are observations left, the loop has an answer.
  pub reconcile_pages-answers :
      (step : Transaction) (fuel : ℕ) (after : Option String) (t : Tally) (s : Store)
      → left after < fuel
      → (out : Store × Result EffectError Tally) × (reconcile_pages step page fuel after t s
          ≡ some out)
  unfolding reconcile_pages
  reconcile_pages-answers step zero after t s bound = absurd (omega arith)
  reconcile_pages-answers step (suc fuel) after t s bound =
      elim (Result-cases (reconcile_page step (page after) t s).1) [
        | inr (e, failed) ↦ rw (failed, reconcile_pages) (_, refl)
        | inl (tally, done) ↦ elim (Bool-cases (ltb (length (page after)) page_size)) [
          | inl final ↦ rw (done, reconcile_pages, final) (_, refl)
          | inr full ↦
              rw (done, reconcile_pages, full)
                (reconcile_pages-answers step fuel (last_id (page after)) _ _
                  (let fewer = left-last_id after full in omega arith))
        ]
      ]
