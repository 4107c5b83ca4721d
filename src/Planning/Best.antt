-- ===== src/Planning/Best.antt =====
-- server/src/planning/engine.ts: the slot that `chooseMeetingSlot` chooses is the best one.
use mathlib.Core.List.{Memᴰ}
use mathlib.Core.List.Memᴰ
use planipus.Common.{
  ℕ, ◌≤◌, ◌<◌, ◌≡◌, refl, ap, ◌∙◌, ◌⊎◌, inl, inr, String, Option, none, some, Bool, true, List, [],
  ◌∷◌, ◌++◌, map, All, All-mem, mem-map, mem-map_intro, arith,
}
use planipus.Common.Sorting.{sort, mem-sort, mem-sort_intro}
use planipus.CalendarSync.Types.{InstantInterval}
use planipus.Planning.Types.{SmartMeetingDraft, PlanningBusyInterval, Clock}
use planipus.Planning.Slots.{
  Candidate, SelectedSlot, slot, score_of, durations, candidate_le, search_durations, is_found,
  first_slot, best_slot,
}
use planipus.Planning.Choice.{
  Least, Least-sort, view, offer, openings, candidate_le-follows, candidate_le-total,
  search_durations-Searched,
}
use planipus.Planning.Openings.{
  mem-append_cases, mem-append_right, IsOpening, Descends-back, durations-Descends, mem-openings,
  mem-openings_intro,
}

module _ (clock : Clock) (draft : SmartMeetingDraft) (busy : List PlanningBusyInterval)
    (used : List InstantInterval) (earliest : String) (windows : List InstantInterval) where
  abbrev Opening : ℕ → ℕ → Type 0
  Opening duration cursor = IsOpening clock draft busy used earliest windows duration cursor

  -- No longer duration of the loop has an opening, and no other opening of this one has a lower score.
  abbrev pub IsBest : InstantInterval → Type 0
  IsBest interval =
      (duration : ℕ) × (cursor : ℕ) × (interval ≡ slot clock draft duration cursor)
      × Memᴰ duration (durations clock draft)
      × Opening duration cursor
      × ((longer c : ℕ)
          → Memᴰ longer (durations clock draft)
          → duration < longer
          → ¬ Opening longer c)
      × ((c : ℕ)
          → Opening duration c
          → score_of clock draft duration cursor ≤ score_of clock draft duration c)

  abbrev pub HasNone : Type 0
  HasNone = (duration c : ℕ) → Memᴰ duration (durations clock draft) → ¬ Opening duration c

  abbrev found : List Candidate
  found =
      (search_durations clock draft busy used earliest windows (durations clock draft)
        (record { rejected = 0; candidates = [] })).candidates

  no-Opening :
      (duration c : ℕ)
      → openings clock draft busy used earliest duration windows ≡ []
      → ¬ Opening duration c
  no-Opening duration c closed o =
      Memᴰ.not-nil
        (rw closed at (mem-openings_intro clock draft busy used earliest windows duration c o))

  none-HasNone :
      All (λ d. openings clock draft busy used earliest d windows ≡ []) (durations clock draft)
      → HasNone
  none-HasNone closed duration c m =
      no-Opening duration c
        (All-mem (λ d. openings clock draft busy used earliest d windows ≡ []) _ closed m)

  -- A duration that is longer than `d` stands before it.
  longer_closed :
      (front : List ℕ) (d : ℕ) (back : List ℕ)
      → durations clock draft ≡ front ++ d ∷ back
      → All (λ x. openings clock draft busy used earliest x windows ≡ []) front
      → (longer c : ℕ) → Memᴰ longer (durations clock draft)
      → d < longer
      → ¬ Opening longer c
  longer_closed front d back split closed longer c m above =
      elim (mem-append_cases front (d ∷ back) (rw split at m)) [
        | inl i ↦
            no-Opening longer c
              (All-mem (λ x. openings clock draft busy used earliest x windows ≡ []) front closed i)
        | inr j ↦ elim (Memᴰ.cases_cons j) [
          | inl e ↦ absurd (omega (arith, e, above))
          | inr k ↦
              let below =
                All-mem (λ x. x < d) back
                  (Descends-back clock draft front d back
                    (rw split at (durations-Descends clock draft)))
                  k in
              absurd (omega (arith, below, above))
        ]
      ]

  abbrev order : Candidate → Candidate → Bool
  order = candidate_le clock draft

  -- What the answer says of the slot.
  abbrev pub IsAnswer : Option SelectedSlot → Type 0
  IsAnswer answer =
      ((answer ≡ none) × HasNone)
      ⊎ ((selected : SelectedSlot) × (answer ≡ some selected) × IsBest selected.interval)

  found_any :
      (cs : List Candidate)
      → is_found clock draft busy used earliest cs ≡ true
      → (x : Candidate) × Memᴰ x cs
  found_any [] hit = absurd (cc hit)
  found_any (c ∷ cs) hit = (c, Memᴰ.head refl)

  below_best :
      (best : Candidate) (rest : List Candidate) (x : Candidate)
      → Least (λ (c : Candidate). c.score) (best ∷ rest)
      → Memᴰ x (best ∷ rest)
      → best.score ≤ x.score
  below_best best rest x least m = elim (Memᴰ.cases_cons m) [
    | inl e ↦ omega (arith, ap (λ (c : Candidate). c.score) e)
    | inr i ↦ All-mem (λ (y : Candidate). best.score ≤ y.score) rest least i
  ]

  least_of :
      (d : ℕ) (best : Candidate) (rest : List Candidate)
      → sort order found ≡ best ∷ rest
      → map view found
        ≡ map (offer clock draft d) (openings clock draft busy used earliest d windows)
      → (c : ℕ) → Opening d c
      → best.score ≤ score_of clock draft d c
  least_of d best rest e offers c o =
      let sorted_least : Least (λ (x : Candidate). x.score) (best ∷ rest) = rw e at (
        Least-sort (λ (x : Candidate). x.score) order (candidate_le-follows clock draft)
          (candidate_le-total clock draft) found) in
      let offered : Memᴰ (offer clock draft d c) (map view found) = rw offers (
        mem-map_intro (offer clock draft d) _
          (mem-openings_intro clock draft busy used earliest windows d c o)) in
      let (x, m, same) = mem-map view found offered in
      let low = below_best best rest x sorted_least (rw e at (mem-sort_intro order found m)) in
      omega (arith, low, ap (λ (p : InstantInterval × ℕ). p.1) same)

  first_slot-IsAnswer :
      (front : List ℕ) (d : ℕ) (back : List ℕ) (sorted : List Candidate)
      → durations clock draft ≡ front ++ d ∷ back
      → All (λ x. openings clock draft busy used earliest x windows ≡ []) front
      → map view found
        ≡ map (offer clock draft d) (openings clock draft busy used earliest d windows)
      → is_found clock draft busy used earliest found ≡ true
      → sort order found ≡ sorted
      → IsAnswer (first_slot clock draft busy used earliest sorted)
  first_slot-IsAnswer front d back [] split closed offers hit e =
      let (x, m) = found_any found hit in
      absurd (Memᴰ.not-nil (rw e at (mem-sort_intro order found m)))
  first_slot-IsAnswer front d back (best ∷ rest) split closed offers hit e =
      let here : Memᴰ best found = mem-sort order found (rw e (Memᴰ.head refl)) in
      let (cursor, i, same) =
        mem-map (offer clock draft d) _ (rw offers at (mem-map_intro view found here)) in
      let member : Memᴰ d (durations clock draft) =
        rw split (mem-append_right front (d ∷ back) (Memᴰ.head refl)) in
      inr (
        record { interval = best.interval; rejected = best.rejected_before },
        refl,
        (
          d,
          cursor,
          ap (λ p. p.0) same,
          member,
          mem-openings clock draft busy used earliest windows d cursor i,
          longer_closed front d back split closed,
          λ c o. omega (arith, ap (λ p. p.1) same, least_of d best rest e offers c o),
        ),
      )

  nothing : first_slot clock draft busy used earliest (sort order []) ≡ none
  unfolding sort
  nothing = refl

  -- The slot that is chosen begins at one of the cursors of a window, with no conflict, for the
  -- longest duration of the loop that has such an opening, with the lowest score among the openings of
  -- that duration; and none is chosen only where no duration of the loop has an opening in a window.
  pub best_slot-IsAnswer : IsAnswer (best_slot clock draft busy used earliest windows)
  unfolding best_slot
  best_slot-IsAnswer =
      elim (search_durations-Searched clock draft busy used earliest windows (durations clock draft)
        (record { rejected = 0; candidates = [] }) refl) [
          | inl (missed, closed) ↦ inl (
            ap (λ (cs : List Candidate). first_slot clock draft busy used earliest (sort order cs))
                  missed
                ∙ nothing,
            none-HasNone closed,
          )
          | inr (front, d, back, split, closed, offers, hit) ↦
              first_slot-IsAnswer front d back (sort order found) split closed offers hit refl
        ]
