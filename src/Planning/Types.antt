-- ===== src/Planning/Types.antt =====
-- server/src/planning/types.ts, and what the planner takes from `Date` and `Intl`.
use planipus.Common.{ℕ, String, Option, Bool, List}
use planipus.CalendarSync.Types.{InstantInterval}

pub data PlanningRuleKind : Type 0 where
  availability_boundary smart_meeting : PlanningRuleKind

pub data PlanningVisibility : Type 0 where
  private_event default_event : PlanningVisibility

pub record AvailabilityBoundaryDraft : Type 0 where
  pub name : String
  pub target_calendar_id : String
  pub timezone : String
  pub working_days : List ℕ
  pub workday_start : String
  pub workday_end : String
  pub protect_before_work : Bool
  pub protect_after_work : Bool
  pub protect_closed_days : Bool
  pub title : String
  pub visibility : PlanningVisibility
  pub horizon_days : ℕ

pub record SmartMeetingAttendee : Type 0 where
  pub email : String
  pub required : Bool
  pub availability_calendar_id : Option String

pub data StartStep : Type 0 where
  fifteen thirty sixty : StartStep

abbrev pub step_minutes : StartStep → ℕ
step_minutes fifteen = 15
step_minutes thirty = 30
step_minutes sixty = 60

pub data ConflictPolicy : Type 0 where
  suggest auto_move keep_with_warning : ConflictPolicy

pub record SmartMeetingDraft : Type 0 where
  pub name : String
  pub target_calendar_id : String
  pub timezone : String
  pub start_date : String
  pub weekdays : List ℕ
  pub window_start : String
  pub window_end : String
  pub preferred_time : String
  pub cadence_weeks : ℕ
  pub occurrence_count : ℕ
  pub minimum_duration_minutes : ℕ
  pub maximum_duration_minutes : ℕ
  pub start_step : StartStep
  pub priority : ℕ
  pub attendees : List SmartMeetingAttendee
  pub availability_calendar_ids : List String
  pub conflict_policy : ConflictPolicy
  pub lock_before_minutes : ℕ
  pub description : Option String
  pub location : Option String
  pub visibility : PlanningVisibility

pub data PlanningDraft : Type 0 where
  boundary : AvailabilityBoundaryDraft → PlanningDraft
  meeting : SmartMeetingDraft → PlanningDraft

pub record PlanningBusyInterval : Type 0 where
  pub interval : InstantInterval
  pub calendar_id : String

pub record PlanningAttendee : Type 0 where
  pub email : String
  pub is_optional : Bool

-- A `ManagedPlanningEvent` without its provenance. It is always opaque and has no reminders.
pub record EventTemplate : Type 0 where
  pub interval : InstantInterval
  pub timezone : String
  pub summary : String
  pub description : Option String
  pub location : Option String
  pub visibility : PlanningVisibility
  pub attendees : List PlanningAttendee
  pub send_updates : Bool

-- `decision` is "schedule" where there is an event, and "unmet" where there is none.
pub record PlannedOccurrenceTemplate : Type 0 where
  pub occurrence_key : String
  pub reason_code : String
  pub event : Option EventTemplate
  pub rejected_candidate_count : ℕ

pub record PlanningResult : Type 0 where
  pub kind : PlanningRuleKind
  pub occurrences : List PlannedOccurrenceTemplate
  pub scheduled_count : ℕ
  pub unmet_count : ℕ
  pub warnings : List String
  pub hours_summary : String

pub record PlanningInput : Type 0 where
  pub draft : PlanningDraft
  pub now : String
  pub busy : List PlanningBusyInterval
  pub known_availability_calendar_ids : List String

-- `Date` and `Intl`. Times count milliseconds from the first instant of a `Date`, which is a midnight;
-- `parse` has no value where `getTime` is NaN, and `iso` is `toISOString`.
pub record Clock : Type 0 where
  pub parse : String → Option ℕ
  pub iso : ℕ → String
  -- The numbers of the local hour and minute, of an instant in a time zone that was read before.
  pub local_clock : String → String → ℕ × ℕ
  -- The parts of `en-CA` dates; there is none where `Intl` throws a `RangeError`.
  pub local_date : String → String → Option String
  -- `left.localeCompare(right) <= 0`
  pub locale_le : String → String → Bool
