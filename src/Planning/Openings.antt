-- ===== src/Planning/Openings.antt =====
-- server/src/planning/engine.ts: the loops of `chooseMeetingSlot` over cursors and durations.
use mathlib.Core.List.{Memᴰ}
use mathlib.Core.List.Memᴰ
use planipus.Common.{
  ℕ, zero, suc, ◌+◌, ◌-◌, ◌*◌, ◌≤◌, ◌<◌, ◌≡◌, refl, ◌⊎◌, inl, inr, String, Option, none, some, true,
  false, List, [], ◌∷◌, ◌++◌, leb, ◌==◌, any, any_of_mem, All, All-append, All-mem, All-of_mem,
  is_false_of_not, Bool-cases, mem-filter, mem-filter_intro, leb→le, le→leb, arith,
}
use planipus.CalendarSync.Types.{InstantInterval}
use planipus.Planning.Types.{
  SmartMeetingDraft, PlanningBusyInterval, Clock, StartStep, fifteen, thirty, sixty, step_minutes,
}
use planipus.Planning.Slots.{
  durations_from, durations, cursors_from, window_cursors, step_milliseconds, align_to_step, slot,
  conflicts_with,
}
use planipus.Planning.Choice.{all_cursors, is_free, openings}

step_minutes-pos : (s : StartStep) → 0 < step_minutes s
step_minutes-pos fifteen = omega arith
step_minutes-pos thirty = omega arith
step_minutes-pos sixty = omega arith

le-mul : (k t : ℕ) → 0 < t → k ≤ k * t
le-mul zero t pos = omega arith
le-mul (suc k) t pos = omega (arith, le-mul k t pos, pos)

pub mem-append_cases {ℓ} :
    {A : Type ℓ} (xs ys : List A) {a : A} → Memᴰ a (xs ++ ys) → Memᴰ a xs ⊎ Memᴰ a ys
mem-append_cases [] ys m = inr m
mem-append_cases (x ∷ xs) ys (Memᴰ.head e) = inl (Memᴰ.head e)
mem-append_cases (x ∷ xs) ys (Memᴰ.tail m) = elim (mem-append_cases xs ys m) [
  | inl i ↦ inl (Memᴰ.tail i)
  | inr j ↦ inr j
]

mem-append_left {ℓ} : {A : Type ℓ} (xs ys : List A) {a : A} → Memᴰ a xs → Memᴰ a (xs ++ ys)
mem-append_left [] ys m = absurd (Memᴰ.not-nil m)
mem-append_left (x ∷ xs) ys (Memᴰ.head e) = Memᴰ.head e
mem-append_left (x ∷ xs) ys (Memᴰ.tail m) = Memᴰ.tail (mem-append_left xs ys m)

pub mem-append_right {ℓ} : {A : Type ℓ} (xs ys : List A) {a : A} → Memᴰ a ys → Memᴰ a (xs ++ ys)
mem-append_right [] ys m = m
mem-append_right (x ∷ xs) ys m = Memᴰ.tail (mem-append_right xs ys m)

module _ (clock : Clock) (draft : SmartMeetingDraft) where
  abbrev step : ℕ
  step = step_milliseconds clock draft

  -- A value of the loop: a number of steps after its start, with room before the end of the window.
  abbrev pub IsCursor : ℕ → ℕ → ℕ → ℕ → Type 0
  IsCursor start duration end_time cursor =
      (k : ℕ) × (cursor ≡ start + k * step) × (cursor + duration * 60000 ≤ end_time)

  cursors_from-IsCursor :
      (fuel start duration end_time : ℕ) {c : ℕ}
      → Memᴰ c (cursors_from clock draft fuel start duration end_time)
      → IsCursor start duration end_time c
  unfolding cursors_from
  cursors_from-IsCursor zero start duration end_time m = absurd (Memᴰ.not-nil m)
  cursors_from-IsCursor (suc fuel) start duration end_time m =
      elim (Bool-cases (leb (start + duration * 60000) end_time)) [
        | inr late ↦ absurd (Memᴰ.not-nil (rw (late, cursors_from) at m))
        | inl early ↦ elim (Memᴰ.cases_cons (rw (early, cursors_from) at m)) [
          | inl e ↦ (0, omega (arith, e), rw e (leb→le _ _ early))
          | inr i ↦
              let (k, e, fits) = cursors_from-IsCursor fuel (start + step) duration end_time i in
              (suc k, omega (arith, e), fits)
        ]
      ]

  cursors_from-mem :
      (fuel start duration end_time k : ℕ)
      → k < fuel
      → start + k * step + duration * 60000 ≤ end_time
      → Memᴰ (start + k * step) (cursors_from clock draft fuel start duration end_time)
  unfolding cursors_from
  cursors_from-mem zero start duration end_time k bound fits = absurd (omega (arith, bound))
  cursors_from-mem (suc fuel) start duration end_time zero bound fits =
      let early : leb (start + duration * 60000) end_time ≡ true =
        le→leb _ _ (omega (arith, fits)) in
      rw (early, cursors_from) (Memᴰ.head (omega arith))
  cursors_from-mem (suc fuel) start duration end_time (suc k) bound fits =
      let moved : start + suc k * step ≡ (start + step) + k * step = omega arith in
      let early : leb (start + duration * 60000) end_time ≡ true =
        le→leb _ _ (omega (arith, fits)) in
      rw (moved, early, cursors_from)
        (Memᴰ.tail (
          cursors_from-mem fuel (start + step) duration end_time k (omega (arith, bound))
            (omega (arith, fits, moved))))

  abbrev pub Descends : List ℕ → Type 0
  Descends [] = Unit
  Descends (x ∷ xs) = All (λ y. y < x) xs × Descends xs

  abbrev InRange : ℕ → ℕ → Type 0
  InRange d x = (draft.minimum_duration_minutes ≤ x) × (x ≤ d)

  durations_from-InRange : (fuel d : ℕ) → All (InRange d) (durations_from clock draft fuel d)
  unfolding durations_from
  durations_from-InRange zero d = tt
  durations_from-InRange (suc fuel) d = elim (Bool-cases (leb draft.minimum_duration_minutes d)) [
    | inr short ↦ rw (short, durations_from) tt
    | inl long ↦ elim (Bool-cases (leb (step_minutes draft.start_step) d)) [
      | inr last ↦ rw (long, durations_from, last) ((leb→le _ _ long, omega arith), tt)
      | inl more ↦
          rw (long, durations_from, more)
            (
              (leb→le _ _ long, omega arith),
              All-of_mem (InRange d) _ (λ x m.
                  let (low, high) =
                    All-mem (InRange (d - step_minutes draft.start_step)) _
                      (durations_from-InRange fuel _) m in
                  (low, omega (arith, high))),
            )
    ]
  ]

  durations_from-Descends : (fuel d : ℕ) → Descends (durations_from clock draft fuel d)
  unfolding durations_from
  durations_from-Descends zero d = tt
  durations_from-Descends (suc fuel) d = elim (Bool-cases (leb draft.minimum_duration_minutes d)) [
    | inr short ↦ rw (short, durations_from) tt
    | inl long ↦ elim (Bool-cases (leb (step_minutes draft.start_step) d)) [
      | inr last ↦ rw (long, durations_from, last) (tt, tt)
      | inl more ↦
          rw (long, durations_from, more)
            (
              All-of_mem (λ x. x < d) _
                  (λ x m.
                    let (low, high) =
                      All-mem (InRange (d - step_minutes draft.start_step)) _
                        (durations_from-InRange fuel _) m in
                    omega (arith, high, leb→le _ _ more, step_minutes-pos draft.start_step)),
              durations_from-Descends fuel _,
            )
    ]
  ]

  Descends-append :
      (xs : List ℕ) (m : ℕ) → Descends xs → All (λ x. m < x) xs → Descends (xs ++ m ∷ [])
  Descends-append [] m h above = (tt, tt)
  Descends-append (x ∷ xs) m (below, h) (first, above) =
      (All-append (λ y. y < x) xs (m ∷ []) below (first, tt), Descends-append xs m h above)

  pub Descends-back :
      (front : List ℕ) (d : ℕ) (back : List ℕ)
      → Descends (front ++ d ∷ back)
      → All (λ x. x < d) back
  Descends-back [] d back (below, h) = below
  Descends-back (x ∷ front) d back (below, h) = Descends-back front d back h

  pub durations-Descends : Descends (durations clock draft)
  unfolding durations
  durations-Descends =
      let least = draft.minimum_duration_minutes in
      let fuel = suc draft.maximum_duration_minutes in
      let found = durations_from clock draft fuel draft.maximum_duration_minutes in
      let down = durations_from-Descends fuel draft.maximum_duration_minutes in
      elim (Bool-cases (any (λ d. d == least) found)) [
        | inl there ↦ rw there down
        | inr absent ↦ rw absent (
            Descends-append found least down (
              All-of_mem (λ x. least < x) found
                (λ x m.
                  let (low, high) =
                    All-mem (InRange draft.maximum_duration_minutes) found
                      (durations_from-InRange fuel draft.maximum_duration_minutes) m in
                  ground (arith, low, absent, any_of_mem (λ d. d == least) found m))))
      ]

  module _ (busy : List PlanningBusyInterval) (used : List InstantInterval)
      (earliest : String) where
    -- The cursor is one of a window, and its slot meets no conflict.
    abbrev pub IsOpening : List InstantInterval → ℕ → ℕ → Type 0
    IsOpening windows duration cursor =
        (w : InstantInterval) × Memᴰ w windows
        × (start : ℕ) × (end_time : ℕ) × (clock.parse w.start ≡ some start)
        × (clock.parse w.«end» ≡ some end_time)
        × IsCursor (align_to_step start step) duration end_time cursor
        × (conflicts_with clock draft busy used earliest (slot clock draft duration cursor) ≡ false)

    abbrev InWindow : InstantInterval → ℕ → ℕ → Type 0
    InWindow w duration cursor =
        (start : ℕ) × (end_time : ℕ) × (clock.parse w.start ≡ some start)
        × (clock.parse w.«end» ≡ some end_time)
        × IsCursor (align_to_step start step) duration end_time cursor

    window_cursors-InWindow :
        (w : InstantInterval) (duration : ℕ) (s e : Option ℕ) {c : ℕ}
        → clock.parse w.start ≡ s
        → clock.parse w.«end» ≡ e
        → Memᴰ c (window_cursors clock draft duration s e)
        → InWindow w duration c
    unfolding window_cursors
    window_cursors-InWindow w duration none e p q m = absurd (Memᴰ.not-nil m)
    window_cursors-InWindow w duration (some s) none p q m = absurd (Memᴰ.not-nil m)
    window_cursors-InWindow w duration (some s) (some e) p q m =
        (s, e, p, q, cursors_from-IsCursor (suc e) (align_to_step s step) duration e m)

    window_cursors-mem :
        (w : InstantInterval) (duration : ℕ) (c : ℕ)
        → InWindow w duration c
        → Memᴰ c (window_cursors clock draft duration (clock.parse w.start) (clock.parse w.«end»))
    unfolding window_cursors
    window_cursors-mem w duration c (s, e, p, q, (k, at, fits)) =
        let fits_at : align_to_step s step + k * step + duration * 60000 ≤ e = rw (← at) fits in
        let pos : 0 < step = omega (arith, step_minutes-pos draft.start_step) in
        rw (p, q, window_cursors, at)
          (cursors_from-mem (suc e) (align_to_step s step) duration e k
            (omega (arith, fits_at, le-mul k step pos)) fits_at)

    all_cursors-cases :
        (duration : ℕ) (windows : List InstantInterval) {c : ℕ}
        → Memᴰ c (all_cursors clock draft duration windows)
        → (w : InstantInterval) × Memᴰ w windows × InWindow w duration c
    all_cursors-cases duration [] m = absurd (Memᴰ.not-nil m)
    all_cursors-cases duration (w ∷ windows) m = elim (mem-append_cases _ _ m) [
      | inl i ↦ (w, Memᴰ.head refl, window_cursors-InWindow w duration _ _ refl refl i)
      | inr j ↦
          let (v, n, inside) = all_cursors-cases duration windows j in (v, Memᴰ.tail n, inside)
    ]

    all_cursors-mem :
        (duration : ℕ) (windows : List InstantInterval) (w : InstantInterval) (c : ℕ)
        → Memᴰ w windows
        → InWindow w duration c
        → Memᴰ c (all_cursors clock draft duration windows)
    all_cursors-mem duration [] w c m inside = absurd (Memᴰ.not-nil m)
    all_cursors-mem duration (v ∷ windows) w c (Memᴰ.head e) inside =
        rw (← e) (mem-append_left _ _ (window_cursors-mem w duration c inside))
    all_cursors-mem duration (v ∷ windows) w c (Memᴰ.tail m) inside =
        mem-append_right _ _ (all_cursors-mem duration windows w c m inside)

    pub mem-openings :
        (windows : List InstantInterval) (duration cursor : ℕ)
        → Memᴰ cursor (openings clock draft busy used earliest duration windows)
        → IsOpening windows duration cursor
    mem-openings windows duration cursor m =
        let (i, free) = mem-filter (is_free clock draft busy used earliest duration) _ m in
        let (w, j, (s, e, p, q, at)) = all_cursors-cases duration windows i in
        (w, j, s, e, p, q, at, is_false_of_not _ free)

    pub mem-openings_intro :
        (windows : List InstantInterval) (duration cursor : ℕ)
        → IsOpening windows duration cursor
        → Memᴰ cursor (openings clock draft busy used earliest duration windows)
    mem-openings_intro windows duration cursor (w, j, s, e, p, q, at, free) =
        mem-filter_intro (is_free clock draft busy used earliest duration) _
          (all_cursors-mem duration windows w cursor j (s, e, p, q, at)) (rw free refl)
