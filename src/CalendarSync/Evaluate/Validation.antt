-- ===== src/CalendarSync/Evaluate/Validation.antt =====
-- packages/calendar-sync/src/evaluate.ts: `result`, `excluded`, `validate`, `effectiveAvailability`,
-- `timingInterval` and `overlaps`.
use planipus.Common.{
  ℕ, String, Option, none, some, Bool, true, false, ◌&&◌, ◌||◌, not, List, [], ◌∷◌, ltb, str_eq,
  opt_str_eq, is_some, or_else, if◌then◌else◌, unique, Result, ok, ◌>>=◌, or_throw,
}
use planipus.CalendarSync.Types.{ReasonCode, same_reason, HoursMode, HoursProfile, InstantInterval}
use planipus.CalendarSync.Platform.{Platform}
use planipus.CalendarSync.Events.{
  EventTiming, timed, all_day, Lifecycle, Availability, Role, Response, ReplyHandling, Preset,
  busy_only, commitment, shared_details, PrivacyPolicy, PolicyEvaluationInput,
  PolicyEvaluationResult, Selection, Operation, Ownership,
}

-- What evaluation can throw: a `RangeError` of Temporal, or a `TypeError`.
pub data EvaluationError : Type 0 where
  range_error type_error : EvaluationError

abbrev pub result :
    Selection → Operation → ReasonCode → List ReasonCode → List ReasonCode → PolicyEvaluationResult
result selection operation primary reasons warnings = record {
  selection = selection;
  operation = operation;
  primary_reason_code = primary;
  reason_codes = unique same_reason reasons;
  desired_copy = none;
  desired_fingerprint = none;
  disclosure_manifest = none;
  warnings = unique same_reason warnings;
}

unfoldable pub excluded : PolicyEvaluationInput → ReasonCode → Bool → PolicyEvaluationResult
excluded input code source_removed = elim input.projection.ownership [
  | Ownership.detached ↦
      result Selection.excluded Operation.no_operation ReasonCode.detached_no_action
        (code ∷ ReasonCode.detached_no_action ∷ []) []
  | Ownership.ambiguous ↦
      result Selection.held Operation.no_operation ReasonCode.ambiguous_ownership
        (code ∷ ReasonCode.ambiguous_ownership ∷ []) []
  | Ownership.attached ↦
      let effect =
        if source_removed
        then ReasonCode.delete_source_removed
        else ReasonCode.delete_policy_exclusion in
      result Selection.excluded Operation.delete effect (code ∷ effect ∷ []) []
  | Ownership.unowned ↦ result Selection.excluded Operation.no_operation code (code ∷ []) []
]

-- `preset === "busy_only" || preset === "commitment"`
abbrev pub is_redacted : Preset → Bool
is_redacted busy_only = true
is_redacted commitment = true
is_redacted _ = false

abbrev pub is_shared : Preset → Bool
is_shared shared_details = true
is_shared _ = false

abbrev is_confirmed : Lifecycle → Bool
is_confirmed Lifecycle.confirmed = true
is_confirmed _ = false

abbrev copies_details : PrivacyPolicy → Bool
copies_details privacy =
    privacy.copy_summary || privacy.copy_description || privacy.copy_location
    || privacy.copy_conference

-- Whether the hours profile that the policy names was given.
profile_fits : Option String → Option HoursProfile → Bool
profile_fits ref none = false
profile_fits ref (some profile) = opt_str_eq ref (some profile.profile_ref)

needs_profile : HoursMode → Bool
needs_profile HoursMode.all_times = false
needs_profile _ = true

module _ (p : Platform) where
  unfoldable pub validate : PolicyEvaluationInput → Option ReasonCode
  unfolding profile_fits needs_profile
  validate input =
      let policy = input.policy in
      let privacy = policy.privacy in
      let capabilities = input.destination_capabilities in
      if str_eq policy.source_calendar_ref policy.destination_calendar_ref
      then some ReasonCode.invalid_same_calendar
      else if not capabilities.writable
      then some ReasonCode.invalid_unwritable_destination
      else if privacy.copy_attendees || privacy.copy_organizer
      then some ReasonCode.invalid_privacy_transform
      else if is_redacted privacy.preset && copies_details privacy
      then some ReasonCode.invalid_privacy_transform
      else if str_eq (p.trim (p.nfc privacy.generic_summary)) ""
      then some ReasonCode.invalid_privacy_transform
      else if not (is_shared privacy.preset) && not capabilities.private_visibility
      then some ReasonCode.unsupported_destination_capability
      else if privacy.copy_conference && not capabilities.conference_copy
      then some ReasonCode.unsupported_destination_capability
      else if is_some policy.color && not capabilities.color
      then some ReasonCode.unsupported_destination_capability
      else if is_confirmed input.source.lifecycle && not (is_some input.source.timing)
      then some ReasonCode.invalid_source_event
      else if needs_profile policy.hours_mode
          && not (profile_fits policy.hours_profile_ref input.hours_profile)
      then some ReasonCode.invalid_hours_profile
      else none

  unfoldable pub instants : String → String → Result EvaluationError (ℕ × ℕ)
  instants s e = do
    start ← or_throw range_error (p.instant_from s)
    finish ← or_throw range_error (p.instant_from e)
    ok (start, finish)

  -- A zoned midnight, printed at the precision of a second.
  midnight : String → String → Result EvaluationError String
  midnight date timezone = do
    day ← or_throw range_error (p.date_from date)
    start ← or_throw range_error (p.start_of_date timezone day)
    ok (p.instant_text start)

  unfoldable pub timing_interval : EventTiming → Result EvaluationError InstantInterval
  unfolding midnight
  timing_interval (timed start finish _ _) = ok (record { start = start; «end» = finish })
  timing_interval (all_day start_date end_date timezone) = do
    start ← midnight start_date timezone
    finish ← midnight end_date timezone
    ok (record { start = start; «end» = finish })

  unfoldable pub overlaps : InstantInterval → InstantInterval → Result EvaluationError Bool
  unfolding instants
  overlaps left right = do
    l ← instants left.start left.«end»
    r ← instants right.start right.«end»
    ok (ltb l.0 l.1 && ltb r.0 r.1 && ltb l.0 r.1 && ltb r.0 l.1)

-- An availability with the reason for it, or the reason to leave the event out.
pub data Effective : Type 0 where
  counts : Availability → Option ReasonCode → Effective
  omitted : ReasonCode → Effective

abbrev reply : ReplyHandling → ReasonCode → ReasonCode → ReasonCode → Effective
reply ReplyHandling.omit out _ _ = omitted out
reply ReplyHandling.as_busy _ code _ = counts Availability.busy (some code)
reply ReplyHandling.as_free _ _ code = counts Availability.free (some code)

unfoldable pub effective_availability : PolicyEvaluationInput → Effective
effective_availability input =
    let own = counts (or_else input.source.availability Availability.busy) none in
    elim input.source.relationship.role [
      | Role.organizer ↦ counts Availability.busy (some ReasonCode.organizer_assumed_accepted)
      | Role.no_role ↦ own
      | Role.attendee ↦ elim input.source.relationship.response [
        | Response.declined ↦ omitted ReasonCode.rsvp_declined
        | Response.accepted ↦ counts Availability.busy (some ReasonCode.rsvp_accepted)
        | Response.tentative ↦
            reply input.policy.selection.tentative ReasonCode.rsvp_tentative_omitted
              ReasonCode.rsvp_tentative_busy ReasonCode.rsvp_tentative_free
        | Response.needs_action ↦
            reply input.policy.selection.unanswered ReasonCode.rsvp_unanswered_omitted
              ReasonCode.rsvp_unanswered_busy ReasonCode.rsvp_unanswered_free
        | Response.not_applicable ↦ own
      ]
    ]
