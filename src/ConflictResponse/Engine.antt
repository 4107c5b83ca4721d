-- ===== src/ConflictResponse/Engine.antt =====
-- server/src/conflict-response/engine.ts: which invitations may be declined, which of them meet a busy
-- interval, and the preview's counts. Instants count milliseconds from the first instant of a `Date`;
-- `parse` is `Date.parse`, with `none` for NaN, and `to_iso` is `toISOString`.
use planipus.Common.{
  ℕ, ◌+◌, ◌-◌, ◌*◌, String, Option, none, some, Bool, true, false, ◌&&◌, ◌||◌, List, [], ◌∷◌, map,
  ltb, leb, str_eq, if◌then◌else◌, filter, length, take, Result, ok, err, ◌>>=◌,
}
use planipus.CalendarSync.Json.{JsonValue, null, str, obj, Members, lookup_member}
use planipus.ConflictResponse.Records.{
  ConflictTimeExample, ConflictResponsePreviewResult, WorkInvitationCandidate, WorkObservationRow,
  ConflictBusyInterval, as_source_observation, max_automatic_declines_per_24_hours,
}

pub data EngineError : Type 0 where
  range_error type_error : EngineError

abbrev pub preview_example_limit : ℕ
preview_example_limit = 3

abbrev pub max_declinable_invitation_milliseconds : ℕ
max_declinable_invitation_milliseconds = 7 * 24 * 60 * 60000

-- `Date.parse(value)` and `new Date(value)`, with `none` for NaN: on a text both read it.
pub record Dates : Type 0 where
  pub parse : String → Option ℕ
  pub parse_other : Option JsonValue → Option ℕ
  pub date_other : Option JsonValue → Option ℕ

abbrev pub date_parse : Dates → Option JsonValue → Option ℕ
date_parse d (some (str s)) = d.parse s
date_parse d v = d.parse_other v

abbrev pub new_date : Dates → Option JsonValue → Option ℕ
new_date d (some (str s)) = d.parse s
new_date d v = d.date_other v

-- `value === text`, where `none` is undefined.
abbrev pub is_text : String → Option JsonValue → Bool
is_text text (some (str s)) = str_eq s text
is_text text _ = false

-- `value.name`: undefined and null have no properties, and no other value than an object has these.
abbrev pub property : String → Option JsonValue → Result EngineError (Option JsonValue)
property name none = err type_error
property name (some null) = err type_error
property name (some (obj ms)) = ok (lookup_member name ms)
property name (some _) = ok none

-- `value?.name`
abbrev pub optional_property : String → Option JsonValue → Option JsonValue
optional_property name (some (obj ms)) = lookup_member name ms
optional_property name _ = none

abbrev pub busy_warning : List String
busy_warning = "automatic_decline_budget_will_hold_excess" ∷ []

-- The test of `event.relationship`.
unfoldable pub is_invited : Option JsonValue → Result EngineError Bool
is_invited relationship = do
  role ← property "role" relationship
  response ← property "response" relationship
  ok (is_text "attendee" role && is_text "needs_action" response)

abbrev pub is_committed : Members → Bool
is_committed event =
    is_text "confirmed" (lookup_member "lifecycle" event)
    && is_text "provider_original" (lookup_member "origin" event)
    && is_text "busy" (lookup_member "availability" event)

module _ (dates : Dates) where
  abbrev pub within_horizon : ℕ → ℕ → Option ℕ → Option ℕ → Bool
  within_horizon now horizon (some s) (some e) =
      ltb s e
      && ltb now s
      && ltb s horizon
      && leb e horizon
      && leb (e - s) max_declinable_invitation_milliseconds
  within_horizon now horizon _ _ = false

  -- The end of `isEligibleWorkInvitation`, from the test of `event.timing?.kind`.
  unfoldable pub is_timely : ℕ → ℕ → Option JsonValue → Bool
  is_timely now horizon timing =
      is_text "timed" (optional_property "kind" timing)
      && within_horizon now horizon (date_parse dates (optional_property "start_instant" timing))
          (date_parse dates (optional_property "end_instant" timing))

  unfoldable pub is_eligible_work_invitation : Members → ℕ → ℕ → Result EngineError Bool
  unfolding is_invited is_timely
  is_eligible_work_invitation event now horizon =
      if is_committed event
      then (is_invited (lookup_member "relationship" event) >>= λ invited.
          ok (invited && is_timely now horizon (lookup_member "timing" event)))
      else ok false

module _ (parse : String → Option ℕ) where
  -- Both intervals are proper, and they have an instant in common.
  abbrev pub meet : Option ℕ → Option ℕ → Option ℕ → Option ℕ → Bool
  meet (some ls) (some le) (some rs) (some re) =
      if leb le ls || leb re rs then false else ltb ls re && ltb rs le
  meet _ _ _ _ = false

  unfoldable pub intervals_overlap : String → String → String → String → Bool
  intervals_overlap left_start left_end right_start right_end =
      meet (parse left_start) (parse left_end) (parse right_start) (parse right_end)

  unfoldable pub overlapping_busy_intervals :
      WorkInvitationCandidate → List ConflictBusyInterval → List ConflictBusyInterval
  unfolding intervals_overlap
  overlapping_busy_intervals invitation busy =
      filter (λ b. intervals_overlap invitation.start_at invitation.end_at b.start b.finish) busy

  -- The conflicts' invitations; `overlap` is kept by the source but not read.
  unfoldable pub conflicting :
      List WorkInvitationCandidate → List ConflictBusyInterval → List WorkInvitationCandidate
  unfolding overlapping_busy_intervals
  conflicting invitations busy =
      filter (λ i. ltb 0 (length (overlapping_busy_intervals i busy))) invitations

-- `!invitation.remote_revision`
abbrev pub lacks_revision : WorkInvitationCandidate → Bool
lacks_revision invitation = elim invitation.remote_revision [
  | none ↦ true
  | some revision ↦ str_eq revision ""
]

abbrev pub time_example : WorkInvitationCandidate → ConflictTimeExample
time_example i = record { start_at = i.start_at; end_at = i.end_at }

-- `Math.max(0, a - b)` is the subtraction that stops at 0.
unfoldable pub conflict_preview_result :
    (String → Option ℕ)
    → List WorkInvitationCandidate
    → List ConflictBusyInterval
    → ℕ
    → ConflictResponsePreviewResult
unfolding conflicting
conflict_preview_result parse invitations busy applied_last_24_hours =
    let conflicts = conflicting parse invitations busy in
    let revision_guard_held = length (filter lacks_revision conflicts) in
    let guarded = length conflicts - revision_guard_held in
    let remaining = max_automatic_declines_per_24_hours - applied_last_24_hours in
    let budget_held = guarded - remaining in
    record {
      invitation_count = length invitations;
      conflict_count = length conflicts;
      held_count = revision_guard_held + budget_held;
      budget_held_count = budget_held;
      examples = map time_example (take preview_example_limit conflicts);
      warnings =
          "This private-reply rule creates no event copies or event-detail copies; existing paused-bridge copies may remain."
          ∷ "Only future invitations that are still awaiting your response can be declined."
          ∷ (if ltb 0 budget_held then busy_warning else []);
    }

abbrev pub candidate : WorkObservationRow → String → String → WorkInvitationCandidate
candidate row start_at end_at = record {
  observation_id = row.id;
  remote_event_id = row.remote_event_id;
  recurrence_identity = row.recurrence_identity;
  observation_hash = row.observation_hash;
  remote_revision = row.remote_etag;
  start_at = start_at;
  end_at = end_at;
}

module _ (dates : Dates) (to_iso : ℕ → String) where
  unfoldable pub canonical_instant : Option JsonValue → Result EngineError String
  canonical_instant value = elim (new_date dates value) [
    | none ↦ err range_error
    | some t ↦ ok (to_iso t)
  ]

  -- The end of `workInvitationCandidate`, from `const timing`.
  unfoldable pub candidate_at :
      WorkObservationRow → Option JsonValue → Result EngineError (Option WorkInvitationCandidate)
  unfolding canonical_instant
  candidate_at row timing =
      if is_text "timed" (optional_property "kind" timing)
      then (canonical_instant (optional_property "start_instant" timing) >>= λ start_at.
          canonical_instant (optional_property "end_instant" timing) >>= λ end_at.
          ok (some (candidate row start_at end_at)))
      else ok none

  unfoldable pub candidate_of :
      WorkObservationRow → Members → Bool → Result EngineError (Option WorkInvitationCandidate)
  unfolding candidate_at
  candidate_of row event eligible =
      if eligible && is_text row.remote_event_id (lookup_member "source_event_ref" event)
      then candidate_at row (lookup_member "timing" event)
      else ok none

  unfoldable pub work_invitation_candidate :
      WorkObservationRow → ℕ → ℕ → Result EngineError (Option WorkInvitationCandidate)
  unfolding is_eligible_work_invitation candidate_of
  work_invitation_candidate row now horizon = elim (as_source_observation row.normalized_event) [
    | none ↦ ok none
    | some event ↦ is_eligible_work_invitation dates event now horizon >>= candidate_of row event
  ]
