-- ===== src/Planning/Choice.antt =====
-- server/src/planning/engine.ts: which slot `chooseMeetingSlot` chooses.
use mathlib.Core.List.{append-nil, append_assoc, map-append}
use planipus.Common.{
  ℕ, ◌+◌, ◌≤◌, ◌≡◌, refl, sym, ap, ◌∙◌, ◌⊎◌, inl, inr, String, Bool, true, false, not, List, [],
  ◌∷◌, ◌++◌, map, filter, All, Bool-cases, arith,
}
use planipus.Common.Sorting.{insert, sort, All-insert}
use planipus.CalendarSync.Types.{InstantInterval}
use planipus.Planning.Types.{SmartMeetingDraft, PlanningBusyInterval, Clock}
use planipus.Planning.Slots.{
  Candidate, Search, window_cursors, slot, score_of, candidate_le, conflicts_with, try_cursor,
  try_cursors, try_duration, search_durations, is_found,
}

module _ {ℓ} {A : Type ℓ} (key : A → ℕ) where
  weaken-All :
      (a x : A) (xs : List A)
      → key a ≤ key x
      → All (λ y. key x ≤ key y) xs
      → All (λ y. key a ≤ key y) xs
  weaken-All a x [] first h = tt
  weaken-All a x (y ∷ ys) first (p, h) = (omega (arith, first, p), weaken-All a x ys first h)

  -- The first entry has the least key.
  abbrev pub Least : List A → Type 0
  Least [] = Unit
  Least (x ∷ xs) = All (λ y. key x ≤ key y) xs

  module _ (le : A → A → Bool) (follows : (a b : A) → le a b ≡ true → key a ≤ key b)
      (total : (a b : A) → le a b ≡ false → key b ≤ key a) where
    Least-insert : (a : A) (xs : List A) → Least xs → Least (insert le a xs)
    unfolding insert
    Least-insert a [] h = tt
    Least-insert a (x ∷ xs) h = elim (Bool-cases (le a x)) [
      | inl before ↦ rw before (follows a x before, weaken-All a x xs (follows a x before) h)
      | inr after ↦ rw after (All-insert le (λ y. key x ≤ key y) a xs (total a x after) h)
    ]

    pub Least-sort : (xs : List A) → Least (sort le xs)
    unfolding sort
    Least-sort [] = tt
    Least-sort (x ∷ xs) = Least-insert x (sort le xs) (Least-sort xs)

-- What a candidate is, but for the count of rejections.
abbrev pub view : Candidate → InstantInterval × ℕ
view c = (c.interval, c.score)

map-eq-nil {ℓ κ} : {A : Type ℓ} {B : Type κ} (f : A → B) (xs : List A) → map f xs ≡ [] → xs ≡ []
map-eq-nil f [] e = refl
map-eq-nil f (x ∷ xs) e = absurd (cc e)

module _ (clock : Clock) (draft : SmartMeetingDraft) where
  abbrev pub all_cursors : ℕ → List InstantInterval → List ℕ
  all_cursors duration [] = []
  all_cursors duration (w ∷ windows) =
      window_cursors clock draft duration (clock.parse w.start) (clock.parse w.«end»)
      ++ all_cursors duration windows

  abbrev pub offer : ℕ → ℕ → InstantInterval × ℕ
  offer duration cursor = (slot clock draft duration cursor, score_of clock draft duration cursor)

  pub candidate_le-follows :
      (a b : Candidate) → candidate_le clock draft a b ≡ true → a.score ≤ b.score
  candidate_le-follows a b h = ground arith

  pub candidate_le-total :
      (a b : Candidate) → candidate_le clock draft a b ≡ false → b.score ≤ a.score
  candidate_le-total a b h = ground arith

  module _ (busy : List PlanningBusyInterval) (used : List InstantInterval)
      (earliest : String) where
    abbrev pub is_free : ℕ → ℕ → Bool
    is_free duration cursor =
        not (conflicts_with clock draft busy used earliest (slot clock draft duration cursor))

    module _ (duration : ℕ) (s : Search) (c : ℕ) where
      abbrev rejecting : Search
      rejecting = record s { rejected = s.rejected + 1 }

      abbrev offering : Search
      offering = record s {
        candidates =
            s.candidates
            ++ record {
              interval = slot clock draft duration c;
              score = score_of clock draft duration c;
              rejected_before = s.rejected;
            }
              ∷ [];
      }

      try_cursor-taken :
          is_free duration c ≡ false
          → try_cursor clock draft busy used earliest duration s c ≡ rejecting
      unfolding try_cursor
      try_cursor-taken taken = ground arith

      try_cursor-free :
          is_free duration c ≡ true
          → try_cursor clock draft busy used earliest duration s c ≡ offering
      unfolding try_cursor
      try_cursor-free free = ground arith

    abbrev pub free_cursors : ℕ → List ℕ → List ℕ
    free_cursors duration cs = filter (is_free duration) cs

    try_cursors-offers :
        (duration : ℕ) (s : Search) (cs : List ℕ)
        → map view (try_cursors clock draft busy used earliest duration s cs).candidates
          ≡ map view s.candidates ++ map (offer duration) (free_cursors duration cs)
    unfolding try_cursors
    try_cursors-offers duration s [] = sym (append-nil _)
    try_cursors-offers duration s (c ∷ cs) = elim (Bool-cases (is_free duration c)) [
      | inr taken ↦
          let moved =
            ap (λ x. map view (try_cursors clock draft busy used earliest duration x cs).candidates)
              (try_cursor-taken duration s c taken) in
          rw taken (moved ∙ try_cursors-offers duration (rejecting duration s c) cs)
      | inl free ↦
          let first = map view s.candidates in
          let later = map (offer duration) (free_cursors duration cs) in
          let grown : map view (offering duration s c).candidates ≡ first ++ offer duration c ∷ [] =
            map-append view s.candidates (_ ∷ []) in
          let whole : map view
                (try_cursors clock draft busy used earliest duration (offering duration s c)
                  cs).candidates
              ≡ first ++ (offer duration c ∷ later) =
            try_cursors-offers duration (offering duration s c) cs
            ∙ (ap (λ zs. zs ++ later) grown ∙ append_assoc first (offer duration c ∷ []) later) in
          let moved =
            ap (λ x. map view (try_cursors clock draft busy used earliest duration x cs).candidates)
              (try_cursor-free duration s c free) in
          rw free (moved ∙ whole)
    ]

    -- The cursors of a duration, in all windows, that meet no conflict.
    abbrev pub openings : ℕ → List InstantInterval → List ℕ
    openings duration windows = free_cursors duration (all_cursors duration windows)

    filter-append :
        (test : ℕ → Bool) (xs ys : List ℕ)
        → filter test (xs ++ ys) ≡ filter test xs ++ filter test ys
    filter-append test [] ys = refl
    filter-append test (x ∷ xs) ys = elim (Bool-cases (test x)) [
      | inl keep ↦ rw keep (ap (λ zs. x ∷ zs) (filter-append test xs ys))
      | inr drop ↦ rw drop (filter-append test xs ys)
    ]

    try_duration-offers :
        (duration : ℕ) (windows : List InstantInterval) (s : Search)
        → map view (try_duration clock draft busy used earliest duration windows s).candidates
          ≡ map view s.candidates ++ map (offer duration) (openings duration windows)
    unfolding try_duration
    try_duration-offers duration [] s = sym (append-nil _)
    try_duration-offers duration (w ∷ windows) s =
        let cs = window_cursors clock draft duration (clock.parse w.start) (clock.parse w.«end») in
        let after = try_cursors clock draft busy used earliest duration s cs in
        let rest = all_cursors duration windows in
        rw
          (
            try_duration-offers duration windows after,
            try_cursors-offers duration s cs,
            filter-append (is_free duration) cs rest,
            map-append (offer duration) (free_cursors duration cs) (free_cursors duration rest),
          )
          (append_assoc (map view s.candidates) (map (offer duration) (free_cursors duration cs)) _)

    -- The durations before one that has an opening, that one, and what is found for it.
    abbrev pub Found : List InstantInterval → List ℕ → List Candidate → Type 0
    Found windows ds found =
        (front : List ℕ) × (duration : ℕ) × (back : List ℕ) × (ds ≡ front ++ duration ∷ back)
        × All (λ d. openings d windows ≡ []) front
        × (map view found ≡ map (offer duration) (openings duration windows))
        × (is_found clock draft busy used earliest found ≡ true)

    abbrev pub Searched : List InstantInterval → List ℕ → List Candidate → Type 0
    Searched windows ds found =
        ((found ≡ []) × All (λ d. openings d windows ≡ []) ds) ⊎ Found windows ds found

    not_found :
        (found : List Candidate)
        → is_found clock draft busy used earliest found ≡ false
        → found ≡ []
    not_found [] e = refl
    not_found (c ∷ cs) e = absurd (cc e)

    Searched-cons :
        (windows : List InstantInterval) (d : ℕ) (ds : List ℕ) (found : List Candidate)
        → openings d windows ≡ []
        → Searched windows ds found
        → Searched windows (d ∷ ds) found
    Searched-cons windows d ds found closed (inl (e, h)) = inl (e, (closed, h))
    Searched-cons windows d ds found closed (inr (front, duration, back, e, h, offers, hit)) =
        inr (d ∷ front, duration, back, ap (λ xs. d ∷ xs) e, (closed, h), offers, hit)

    pub search_durations-Searched :
        (windows : List InstantInterval) (ds : List ℕ) (s : Search)
        → s.candidates ≡ []
        → Searched windows ds
            (search_durations clock draft busy used earliest windows ds s).candidates
    unfolding search_durations
    search_durations-Searched windows [] s none_yet = inl (none_yet, tt)
    search_durations-Searched windows (d ∷ ds) s none_yet =
        let tried = try_duration clock draft busy used earliest d windows s in
        let offers : map view tried.candidates ≡ map (offer d) (openings d windows) =
          try_duration-offers d windows s ∙ rw (ap (map view) none_yet) refl in
        elim (Bool-cases (is_found clock draft busy used earliest tried.candidates)) [
          | inl found ↦ rw (found, search_durations) (inr ([], d, ds, refl, tt, offers, found))
          | inr missed ↦
              let nothing : tried.candidates ≡ [] = not_found tried.candidates missed in
              let closed : openings d windows ≡ [] =
                map-eq-nil (offer d) _ (sym offers ∙ ap (map view) nothing) in
              rw (missed, search_durations)
                (Searched-cons windows d ds _ closed
                  (search_durations-Searched windows ds tried nothing))
        ]
