-- ===== src/CalendarSync/Evaluate/Guards.antt =====
-- evaluate.ts: the guards of `evaluatePolicy` on the answer to an invitation, on timed, all-day and free
-- events, on the horizon and on the hours, as conditions on the input.
use planipus.CalendarSync.Hours.Intervals.{HoursError}
use planipus.Common.{
  refl, ap, sym, not, String, Option, ◌&&◌, Bool, ok_eq, ℕ, ◌<◌, some, ◌≡◌, ◌⊎◌, true, false,
  Result, ok, or_else, or_throw, bind-eq-ok, ltb, stop_if, arith,
}
use planipus.CalendarSync.Types.{InstantInterval, HoursEvaluationResult}
use planipus.CalendarSync.Platform.{Platform}
use planipus.CalendarSync.Hours.Evaluation.{evaluate_hours}
use planipus.CalendarSync.Events.{
  EventTiming, timed, all_day, Availability, Role, Response, ReplyHandling, TimedSelection,
  AllDaySelection, FreeEvents, PolicyEvaluationInput,
}
use planipus.CalendarSync.Evaluate.Validation.{
  range_error, EvaluationError, is_redacted, timing_interval, overlaps, instants,
  effective_availability,
}
use planipus.CalendarSync.Evaluate.Decision.{
  throwing_range, throwing, Chosen, select_availability, select_kind, select_free, check_horizon,
  select_hours,
}

-- What an unanswered or a tentative invitation counts as, where it counts.
abbrev pub AsReplied : ReplyHandling → Availability → Type 0
AsReplied handling base =
    ((handling ≡ ReplyHandling.as_busy) × (base ≡ Availability.busy))
    ⊎ ((handling ≡ ReplyHandling.as_free) × (base ≡ Availability.free))

module _ (input : PolicyEvaluationInput) where
  -- The event counts, as busy or free: the organizer's event and an accepted one as busy, a tentative
  -- or unanswered one as the policy says, another one as its calendar says. A declined one does not.
  abbrev pub IsCounted : Availability → Type 0
  IsCounted base =
      ((input.source.relationship.role ≡ Role.organizer) × (base ≡ Availability.busy))
      ⊎ (((input.source.relationship.role ≡ Role.no_role)
            × (base ≡ or_else input.source.availability Availability.busy))
          ⊎ ((input.source.relationship.role ≡ Role.attendee)
              × (((input.source.relationship.response ≡ Response.accepted)
                    × (base ≡ Availability.busy))
                  ⊎ (((input.source.relationship.response ≡ Response.tentative)
                        × AsReplied input.policy.selection.tentative base)
                      ⊎ (((input.source.relationship.response ≡ Response.needs_action)
                            × AsReplied input.policy.selection.unanswered base)
                          ⊎ ((input.source.relationship.response ≡ Response.not_applicable)
                              × (base ≡ or_else input.source.availability Availability.busy)))))))

  -- The policy takes the kind of event: a timed one, or one of a whole day, which may have to be busy.
  abbrev pub IsTaken : EventTiming → Availability → Type 0
  IsTaken (timed _ _ _ _) base = input.policy.selection.timed ≡ TimedSelection.include
  IsTaken (all_day _ _ _) base =
      (input.policy.selection.all_day ≡ AllDaySelection.all)
      ⊎ ((input.policy.selection.all_day ≡ AllDaySelection.only_busy) × (base ≡ Availability.busy))

  -- What the copy shows: busy for a busy event; for a free one free, where the policy keeps it and it
  -- may be told apart, or busy, where the policy forces it.
  abbrev pub IsShown : Availability → Availability → Type 0
  IsShown base shown =
      ((base ≡ Availability.busy) × (shown ≡ Availability.busy))
      ⊎ ((base ≡ Availability.free)
          × (((input.policy.selection.free_events ≡ FreeEvents.force_busy)
                × (shown ≡ Availability.busy))
              ⊎ (((input.policy.selection.free_events ≡ FreeEvents.preserve_free)
                    × (shown ≡ Availability.free))
                  ⊎ ((input.policy.selection.free_events ≡ FreeEvents.skip_when_redacted)
                      × (is_redacted input.policy.privacy.preset ≡ false)
                      × (shown ≡ Availability.free)))))

  pub select_availability-IsCounted :
      (c : Chosen) → select_availability input ≡ ok c → IsCounted c.availability
  unfolding select_availability effective_availability
  select_availability-IsCounted c e = ground arith

  pub select_kind-IsTaken :
      (t : EventTiming) (c k : Chosen)
      → select_kind input t c ≡ ok k
      → IsTaken t c.availability × (k.availability ≡ c.availability)
  unfolding select_kind
  select_kind-IsTaken (timed _ _ _ _) c k e = ground arith
  select_kind-IsTaken (all_day _ _ _) c k e = ground arith

  pub select_free-IsShown :
      (c s : Chosen) → select_free input c ≡ ok s → IsShown c.availability s.availability
  unfolding select_free
  select_free-IsShown c s e = ground arith

throwing-eq-ok : {A : Type 0} (m : Result EvaluationError A) (a : A) → throwing m ≡ ok a → m ≡ ok a
throwing-eq-ok m a e = ground arith

throwing_range-eq-ok :
    {A : Type 0} (m : Result HoursError A) (a : A) → throwing_range m ≡ ok a → m ≡ ok a
throwing_range-eq-ok m a e = ground arith

stop_if-ok : {E : Type 0} (b : Bool) (x : E) → stop_if (not b) x ≡ ok tt → b ≡ true
stop_if-ok true x e = refl
stop_if-ok false x e = absurd (cc e)

module _ (p : Platform) (input : PolicyEvaluationInput) where
  -- The event and the horizon are spans of time with a common instant.
  abbrev pub IsInHorizon : EventTiming → Type 0
  IsInHorizon t =
      (span : InstantInterval) × (timing_interval p t ≡ ok span)
      × ((first last from to : ℕ) × (p.instant_from span.start ≡ some first)
          × (p.instant_from span.«end» ≡ some last)
          × (p.instant_from input.horizon.start ≡ some from)
          × (p.instant_from input.horizon.«end» ≡ some to)
          × (first < last)
          × (from < to)
          × (first < to)
          × (from < last))

  -- A timed event is one that the hours of the policy include.
  abbrev pub IsWithinHours : EventTiming → Type 0
  IsWithinHours (timed start finish _ _) =
      (hours : HoursEvaluationResult) × (evaluate_hours p (record {
        mode = input.policy.hours_mode;
        event = record { start = start; «end» = finish };
        profile = input.hours_profile;
      })
        ≡ ok hours)
      × (hours.included ≡ true)
  IsWithinHours (all_day _ _ _) = Unit

  pub select_hours-IsWithinHours :
      (t : EventTiming) (s c : Chosen)
      → select_hours p input t s ≡ ok c
      → IsWithinHours t × (c.availability ≡ s.availability)
  unfolding select_hours
  select_hours-IsWithinHours (all_day _ _ _) s c e = (tt, cc)
  select_hours-IsWithinHours (timed start finish _ _) s c e =
      let (hours, found, rest) = bind-eq-ok (throwing_range _) _ e in
      let (_, inside, last) = bind-eq-ok (stop_if (not hours.included) _) _ rest in
      (
        (hours, throwing_range-eq-ok _ hours found, stop_if-ok hours.included _ inside),
        sym (ap (λ x. x.availability) (ok_eq refl last)),
      )

  or_throw-eq-ok : {A : Type 0} (o : Option A) (a : A) → or_throw range_error o ≡ ok a → o ≡ some a
  or_throw-eq-ok o a e = ground arith

  instants-eq-ok :
      (s e : String) (x : ℕ × ℕ)
      → instants p s e ≡ ok x
      → (p.instant_from s ≡ some x.0) × (p.instant_from e ≡ some x.1)
  unfolding instants
  instants-eq-ok s e x done =
      let (a, first, rest) = bind-eq-ok (or_throw range_error (p.instant_from s)) _ done in
      let (b, last, pair) = bind-eq-ok (or_throw range_error (p.instant_from e)) _ rest in
      let same : (a, b) ≡ x = ok_eq refl pair in
      rw (← same) (or_throw-eq-ok _ a first, or_throw-eq-ok _ b last)

  spans_meet :
      (a b c d : ℕ)
      → (ltb a b && ltb c d && ltb a d && ltb c b) ≡ true
      → (a < b) × (c < d) × (a < d) × (c < b)
  spans_meet a b c d e = ground arith

  overlaps-Overlap :
      (left right : InstantInterval)
      → overlaps p left right ≡ ok true
      → (first last from to : ℕ) × (p.instant_from left.start ≡ some first)
        × (p.instant_from left.«end» ≡ some last)
        × (p.instant_from right.start ≡ some from)
        × (p.instant_from right.«end» ≡ some to)
        × (first < last)
        × (from < to)
        × (first < to)
        × (from < last)
  unfolding overlaps
  overlaps-Overlap left right done =
      let (l, at_left, rest) = bind-eq-ok (instants p left.start left.«end») _ done in
      let (r, at_right, last) = bind-eq-ok (instants p right.start right.«end») _ rest in
      let (first_is, last_is) = instants-eq-ok left.start left.«end» l at_left in
      let (from_is, to_is) = instants-eq-ok right.start right.«end» r at_right in
      let (spans, opens, begins, ends) = spans_meet l.0 l.1 r.0 r.1 (ok_eq refl last) in
      (l.0, l.1, r.0, r.1, first_is, last_is, from_is, to_is, spans, opens, begins, ends)

  pub check_horizon-IsInHorizon :
      (t : EventTiming) → check_horizon p input t ≡ ok tt → IsInHorizon t
  unfolding check_horizon
  check_horizon-IsInHorizon t e =
      let (span, found, rest) = bind-eq-ok (throwing (timing_interval p t)) _ e in
      let (inside, met, last) = bind-eq-ok (throwing (overlaps p span input.horizon)) _ rest in
      let held : inside ≡ true = stop_if-ok inside _ last in
      (
        span,
        throwing-eq-ok _ span found,
        overlaps-Overlap span input.horizon (rw held at (throwing-eq-ok _ inside met)),
      )
