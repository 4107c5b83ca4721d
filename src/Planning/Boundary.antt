-- ===== src/Planning/Boundary.antt =====
-- server/src/planning/engine.ts: `planAvailabilityBoundary`, with the helpers of both plans.
use Prim.Native.String
use planipus.Common.{
  ℕ, zero, suc, ◌+◌, ◌*◌, String, none, some, false, not, ◌&&◌, List, [], ◌∷◌, ◌++◌, map, ◌==◌,
  str_eq, if◌then◌else◌, any, length, Result, ok, ◌>>=◌, or_throw,
}
use planipus.CalendarSync.Types.{
  ReasonCode, InstantInterval, WeeklyInterval, HoursProfile, earlier_offset, shift_forward_by_gap,
  HoursMaterializationResult,
}
use planipus.CalendarSync.Platform.{Platform}
use planipus.CalendarSync.Hours.Evaluation.{materialize_hours}
use planipus.Sync.Reconcile.Reasons.{reason_text}
use planipus.Planning.Types.{
  availability_boundary, AvailabilityBoundaryDraft, PlannedOccurrenceTemplate, PlanningResult,
  Clock,
}
use planipus.Planning.Slots.{PlanningError, range_error, to_iso}

infixr 65 ◌<+>◌
abbrev pub ◌<+>◌ : String → String → String
a <+> b = String.◌++◌ a b

abbrev day_milliseconds : ℕ
day_milliseconds = 86400000

unfoldable pub add_local_days : Clock → String → ℕ → Result PlanningError String
add_local_days clock date days = do
  midnight ← or_throw range_error (clock.parse (date <+> "T00:00:00Z"))
  text ← to_iso clock (some (midnight + days * day_milliseconds))
  ok (String.slice text 0 10)

-- `hoursProfile`
abbrev pub hours_profile : String → String → List WeeklyInterval → HoursProfile
hours_profile id timezone weekly = record {
  profile_ref = id;
  revision = 1;
  timezone = timezone;
  ambiguous = earlier_offset;
  nonexistent = shift_forward_by_gap;
  weekly = weekly;
  exceptions = [];
}

abbrev pub hours_summary : String → String → String → String
hours_summary start end_time timezone =
    String.slice start 0 5 <+> ("–" <+> (String.slice end_time 0 5 <+> (" · " <+> timezone)))

abbrev pub midnight_text : String
midnight_text = "00:00:00"

abbrev pub from_midnight : ℕ → String → WeeklyInterval
from_midnight weekday end_time = record {
  local = record { start = midnight_text; «end» = end_time; end_day_offset = 0 };
  weekday = weekday;
}

abbrev pub to_midnight : ℕ → String → WeeklyInterval
to_midnight weekday start = record {
  local = record { start = start; «end» = midnight_text; end_day_offset = 1 };
  weekday = weekday;
}

-- The body of the loop over weekdays.
unfoldable pub weekday_blocks : AvailabilityBoundaryDraft → ℕ → List WeeklyInterval
weekday_blocks draft weekday =
    if any (λ d. d == weekday) draft.working_days
    then (if draft.protect_before_work && not (str_eq draft.workday_start midnight_text)
        then from_midnight weekday draft.workday_start ∷ []
        else [])
      ++ (if draft.protect_after_work && not (str_eq draft.workday_end midnight_text)
          then to_midnight weekday draft.workday_end ∷ []
          else [])
    else if draft.protect_closed_days
    then to_midnight weekday midnight_text ∷ []
    else []

unfoldable pub blocks_from : AvailabilityBoundaryDraft → ℕ → ℕ → List WeeklyInterval
blocks_from draft zero weekday = []
blocks_from draft (suc days) weekday =
    weekday_blocks draft weekday ++ blocks_from draft days (weekday + 1)

unfoldable pub boundary_weekly : AvailabilityBoundaryDraft → List WeeklyInterval
boundary_weekly draft = blocks_from draft 7 1

abbrev pub boundary_occurrence :
    AvailabilityBoundaryDraft → InstantInterval → PlannedOccurrenceTemplate
boundary_occurrence draft interval = record {
  occurrence_key = "boundary:" <+> interval.start;
  reason_code = "outside_working_hours";
  event = some (record {
    interval = interval;
    timezone = draft.timezone;
    summary = draft.title;
    description = none;
    location = none;
    visibility = draft.visibility;
    attendees = [];
    send_updates = false;
  });
  rejected_candidate_count = 0;
}

abbrev pub reason_texts : List ReasonCode → List String
reason_texts codes = map reason_text codes

abbrev pub boundary_result : AvailabilityBoundaryDraft → HoursMaterializationResult → PlanningResult
boundary_result draft materialized =
    let occurrences = map (boundary_occurrence draft) materialized.concrete_intervals in
    record {
      kind = availability_boundary;
      occurrences = occurrences;
      scheduled_count = length occurrences;
      unmet_count = 0;
      warnings = reason_texts materialized.diagnostics;
      hours_summary = hours_summary draft.workday_start draft.workday_end draft.timezone;
    }

module _ (platform : Platform) (clock : Clock) where
  unfoldable pub plan_availability_boundary :
      AvailabilityBoundaryDraft → String → Result PlanningError PlanningResult
  plan_availability_boundary draft now = do
    start_date ← or_throw range_error (clock.local_date now draft.timezone)
    end_date ← add_local_days clock start_date draft.horizon_days
    ok (
        boundary_result draft (
          materialize_hours platform (record {
            profile =
                hours_profile "availability-boundary-preview" draft.timezone
                  (boundary_weekly draft);
            start_date = start_date;
            end_date_exclusive = end_date;
          })))
