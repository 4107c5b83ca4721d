-- ===== src/CalendarSync/Hours/Matching.antt =====
-- hours.ts: when `evaluateHours` includes an event.
use planipus.Common.{
  ℕ, ◌≤◌, ◌<◌, ◌≡◌, refl, ◌↔◌, ◌≢◌, some, Bool, true, List, filter, any, any-eq-length, any_of_mem,
  mem_of_any, ok, arith, ◌∙◌, sym,
}
use mathlib.Core.List.{Memᴰ}
use planipus.CalendarSync.Types.{
  ReasonCode, HoursProfile, HoursMode, HoursEvaluationInput, HoursEvaluationResult,
}
use planipus.CalendarSync.Platform.{Platform}
use planipus.CalendarSync.Hours.Intervals.{ConcreteInterval, public_intervals}
use planipus.CalendarSync.Hours.Evaluation.{
  overlaps_event, contains_event, hours_intervals, decide_hours, evaluate_profile, evaluate_hours,
}

-- The event from `s` to `e` and the interval have an instant in common.
abbrev pub Overlaps : ℕ → ℕ → ConcreteInterval → Type 0
Overlaps s e c = (s < c.«end») × (c.start < e)

-- The event lies inside the interval.
abbrev pub Inside : ℕ → ℕ → ConcreteInterval → Type 0
Inside s e c = (c.start ≤ s) × (e ≤ c.«end»)

-- The two rules, and the interval that meets the mode's rule.
abbrev pub Matches : HoursMode → ℕ → ℕ → ConcreteInterval → Type 0
Matches HoursMode.overlaps_profile s e c = Overlaps s e c
Matches HoursMode.contained_in_profile s e c = Inside s e c
Matches HoursMode.all_times s e c = Unit

abbrev pub meets : HoursMode → ℕ → ℕ → ConcreteInterval → Bool
meets HoursMode.overlaps_profile s e c = overlaps_event s e c
meets HoursMode.contained_in_profile s e c = contains_event s e c
meets HoursMode.all_times s e c = true

meets_iff :
    (mode : HoursMode) (s e : ℕ) (c : ConcreteInterval)
    → (meets mode s e c ≡ true) ↔ Matches mode s e c
meets_iff HoursMode.overlaps_profile s e c = ground arith
meets_iff HoursMode.contained_in_profile s e c = ground arith
meets_iff HoursMode.all_times s e c = (λ _. tt, λ _. refl)

any-meets_iff :
    (mode : HoursMode) (s e : ℕ) (cs : List ConcreteInterval)
    → (any (meets mode s e) cs ≡ true) ↔ ((c : ConcreteInterval) × Memᴰ c cs × Matches mode s e c)
any-meets_iff mode s e cs = (
  λ h. let (c, i, t) = mem_of_any (meets mode s e) cs h in (c, i, (meets_iff mode s e c).0 t),
  λ (c, i, m). any_of_mem (meets mode s e) cs i ((meets_iff mode s e c).1 m),
)

module _ (p : Platform) where
  -- The result for a profile with the intervals `cs`, in the two modes that look at them.
  decide_hours-included :
      (mode : HoursMode) (s e : ℕ) (cs : List ConcreteInterval) (ds : List ReasonCode)
      → mode ≢ HoursMode.all_times
      → (decide_hours p mode s e (ok (cs, ds))).included ≡ any (meets mode s e) cs
  unfolding decide_hours
  decide_hours-included HoursMode.overlaps_profile s e cs ds h =
      sym (any-eq-length (overlaps_event s e) cs)
  decide_hours-included HoursMode.contained_in_profile s e cs ds h =
      sym (any-eq-length (contains_event s e) cs)
  decide_hours-included HoursMode.all_times s e cs ds h = absurd (h refl)

  decide_hours-matched :
      (mode : HoursMode) (s e : ℕ) (cs : List ConcreteInterval) (ds : List ReasonCode)
      → mode ≢ HoursMode.all_times
      → (decide_hours p mode s e (ok (cs, ds))).matched_intervals
        ≡ public_intervals p (filter (meets mode s e) cs)
  unfolding decide_hours
  decide_hours-matched HoursMode.overlaps_profile s e cs ds h = refl
  decide_hours-matched HoursMode.contained_in_profile s e cs ds h = refl
  decide_hours-matched HoursMode.all_times s e cs ds h = absurd (h refl)

  evaluate_profile-decide :
      (mode : HoursMode) (profile : HoursProfile) (s e : ℕ)
      → mode ≢ HoursMode.all_times
      → evaluate_profile p mode (some profile) s e
        ≡ decide_hours p mode s e (hours_intervals p profile s e)
  unfolding evaluate_profile
  evaluate_profile-decide HoursMode.overlaps_profile profile s e h = refl
  evaluate_profile-decide HoursMode.contained_in_profile profile s e h = refl
  evaluate_profile-decide HoursMode.all_times profile s e h = absurd (h refl)

  evaluate_hours-profile :
      (input : HoursEvaluationInput) (s e : ℕ)
      → p.instant_from input.event.start ≡ some s
      → p.instant_from input.event.«end» ≡ some e
      → s < e
      → evaluate_hours p input ≡ ok (evaluate_profile p input.mode input.profile s e)
  unfolding evaluate_hours
  evaluate_hours-profile input s e hs he lt = ground arith

-- Where the instants of an event can be read, the event ends after it starts, and the intervals of
-- its profile can be worked out, a mode that looks at the profile includes the event exactly when
-- some interval meets the mode's rule (shares an instant with the event, or holds all of it), and
-- the matched intervals are those that meet it.
pub evaluate_hours-included_iff :
    (p : Platform) (input : HoursEvaluationInput) (profile : HoursProfile) (s e : ℕ)
    (cs : List ConcreteInterval) (ds : List ReasonCode)
    → input.mode ≢ HoursMode.all_times
    → input.profile ≡ some profile
    → p.instant_from input.event.start ≡ some s
    → p.instant_from input.event.«end» ≡ some e
    → s < e
    → hours_intervals p profile s e ≡ ok (cs, ds)
    → (r : HoursEvaluationResult) × (evaluate_hours p input ≡ ok r)
      × ((r.included ≡ true) ↔ ((c : ConcreteInterval) × Memᴰ c cs × Matches input.mode s e c))
      × (r.matched_intervals ≡ public_intervals p (filter (meets input.mode s e) cs))
evaluate_hours-included_iff p input profile s e cs ds mode given hs he lt found =
    let r : HoursEvaluationResult = decide_hours p input.mode s e (ok (cs, ds)) in
    let included = decide_hours-included p input.mode s e cs ds mode in
    let (to, from) = any-meets_iff input.mode s e cs in
    (
      r,
      rw (
        evaluate_hours-profile p input s e hs he lt,
        given,
        evaluate_profile-decide p input.mode profile s e mode,
        found,
      ),
      (λ h. to (sym included ∙ h), λ m. included ∙ from m),
      decide_hours-matched p input.mode s e cs ds mode,
    )
