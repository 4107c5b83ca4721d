-- ===== src/CalendarSync/Types.antt =====
-- packages/calendar-sync/src/types.ts. A field that may be absent is an option; a version that is
-- always 1 and the empty `reminders` are left out.
use planipus.Common.{ℕ, String, Option, List, Bool, true, false}

pub data ReasonCode : Type 0 where
  policy_disabled policy_paused policy_review_required : ReasonCode
  invalid_same_calendar invalid_unwritable_destination invalid_hours_profile : ReasonCode
  invalid_source_event invalid_privacy_transform unsupported_destination_capability : ReasonCode
  outside_horizon source_deleted source_cancelled managed_copy manual_exclusion nosync : ReasonCode
  already_invited timed_event_disabled timed_event_included all_day all_day_free : ReasonCode
  all_day_busy_included all_day_included free free_preserved free_forced_busy : ReasonCode
  rsvp_declined rsvp_accepted rsvp_tentative_busy rsvp_tentative_free : ReasonCode
  rsvp_unanswered_busy rsvp_unanswered_free organizer_assumed_accepted : ReasonCode
  rsvp_unanswered_omitted rsvp_tentative_omitted all_times overlaps_hours : ReasonCode
  contained_in_hours outside_hours not_contained_in_hours dst_ambiguous_earlier : ReasonCode
  dst_ambiguous_later dst_nonexistent_shifted dst_resolution_rejected : ReasonCode
  privacy_busy_only privacy_commitment privacy_private_details privacy_shared_details : ReasonCode
  create_missing_copy update_source_change restore_destination_missing : ReasonCode
  restore_destination_drift delete_source_removed delete_policy_exclusion no_change : ReasonCode
  detached_no_action ambiguous_ownership : ReasonCode

unfoldable pub ReasonCode-discrete : Discrete ReasonCode
ReasonCode-discrete = hlevel

pub record InstantInterval : Type 0 where
  pub start : String
  pub «end» : String

pub record LocalInterval : Type 0 where
  pub start : String
  pub «end» : String
  pub end_day_offset : ℕ

pub record WeeklyInterval : Type 0 where
  pub local : LocalInterval
  pub weekday : ℕ

pub data HoursException : Type 0 where
  closed : String → HoursException
  replace : String → List LocalInterval → HoursException
  add : String → List LocalInterval → HoursException
  remove : String → List LocalInterval → HoursException

pub data AmbiguousResolution : Type 0 where
  earlier_offset later_offset : AmbiguousResolution

pub data NonexistentResolution : Type 0 where
  reject shift_forward_by_gap : NonexistentResolution

pub record HoursProfile : Type 0 where
  pub profile_ref : String
  pub revision : ℕ
  pub timezone : String
  pub ambiguous : AmbiguousResolution
  pub nonexistent : NonexistentResolution
  pub weekly : List WeeklyInterval
  pub exceptions : List HoursException

pub data HoursMode : Type 0 where
  all_times overlaps_profile contained_in_profile : HoursMode

pub record HoursEvaluationInput : Type 0 where
  pub mode : HoursMode
  pub event : InstantInterval
  pub profile : Option HoursProfile

pub record HoursEvaluationResult : Type 0 where
  pub included : Bool
  pub reason_code : ReasonCode
  pub concrete_intervals : List InstantInterval
  pub matched_intervals : List InstantInterval
  pub diagnostics : List ReasonCode

pub record HoursMaterializationInput : Type 0 where
  pub profile : HoursProfile
  pub start_date : String
  pub end_date_exclusive : String

pub record HoursMaterializationResult : Type 0 where
  pub concrete_intervals : List InstantInterval
  pub diagnostics : List ReasonCode

unfoldable pub same_reason : ReasonCode → ReasonCode → Bool
unfolding ReasonCode-discrete
same_reason a b = elim (ReasonCode-discrete a b) [ yes _ ↦ true | no _ ↦ false ]
