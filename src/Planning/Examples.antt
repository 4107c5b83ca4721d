-- ===== src/Planning/Examples.antt =====
-- Theorems on the planner at one meeting of fifteen minutes: in a window of an hour, whose first quarter
-- is busy.
use planipus.Common.{
  ℕ, String, Option, none, some, true, false, ◌+◌, ◌≡◌, refl, List, [], ◌∷◌, ◌==◌, any, str_eq,
  if◌then◌else◌, length, All, ok, arith,
}
use planipus.CalendarSync.Json.{text_le}
use planipus.CalendarSync.Types.{InstantInterval}
use planipus.CalendarSync.Samples.{evaluation, sample}
use planipus.CalendarSync.Hours.Evaluation.{materialize_hours}
use planipus.Planning.Types.{
  AvailabilityBoundaryDraft, SmartMeetingDraft, fifteen, suggest, meeting, smart_meeting,
  private_event, PlanningBusyInterval, PlanningInput, PlanningResult, Clock,
}
use planipus.Planning.Slots.{
  text_lt, clock_minutes, to_iso, durations_from, durations, cursors_from, window_cursors,
  conflicts_with, try_cursor, try_cursors, try_duration, search_durations, best_slot,
  earliest_start, candidate_count,
}
use planipus.Planning.Boundary.{midnight_text, add_local_days, boundary_weekly}
use planipus.Planning.Engine.{
  scheduled_occurrence, choose_meeting_slot, plan_between, plan_occurrence, plan_occurrences,
  plan_smart_meeting,
}
use planipus.Planning.Best.{IsAnswer, best_slot-IsAnswer}
use planipus.Planning.Schedule.{slots, Apart, IsClear, plan_smart_meeting-IsClear}
use planipus.Planning.Protection.{covers, is_protected, boundary_weekly-covers}

abbrev quarters : List (String × ℕ)
quarters =
    ("110", 0)
    ∷ ("120", 900000)
    ∷ ("130", 1800000)
    ∷ ("140", 2700000)
    ∷ ("150", 3600000)
    ∷ ("2", 604800000)
    ∷ ("1T00:00:00Z", 0)
    ∷ []

abbrev time_of : List (String × ℕ) → String → Option ℕ
time_of [] s = none
time_of (q ∷ qs) s = elim (str_eq q.0 s) [ true ↦ some q.1 | false ↦ time_of qs s ]

abbrev text_of : List (String × ℕ) → ℕ → String
text_of [] n = "?"
text_of (q ∷ qs) n = elim (q.1 == n) [ true ↦ q.0 | false ↦ text_of qs n ]

abbrev clock : Clock
clock = record {
  parse = time_of quarters;
  iso = text_of quarters;
  local_clock = λ s tz. (0, if str_eq s "110" then 0 else 15);
  local_date = λ s tz. some "1";
  locale_le = λ s t. true;
}

abbrev draft : SmartMeetingDraft
draft = record {
  name = "Sync";
  target_calendar_id = "office";
  timezone = "UTC";
  start_date = "1";
  weekdays = 1 ∷ [];
  window_start = "10";
  window_end = "50";
  preferred_time = "00:00:00";
  cadence_weeks = 1;
  occurrence_count = 1;
  minimum_duration_minutes = 15;
  maximum_duration_minutes = 15;
  start_step = fifteen;
  priority = 1;
  attendees = [];
  availability_calendar_ids = "home" ∷ [];
  conflict_policy = suggest;
  lock_before_minutes = 0;
  description = none;
  location = none;
  visibility = private_event;
}

abbrev busy : List PlanningBusyInterval
busy = record { interval = record { start = "110"; «end» = "120" }; calendar_id = "home" } ∷ []

abbrev window : InstantInterval
window = record { start = "110"; «end» = "150" }

best_slot-IsAnswer_example :
    IsAnswer clock draft busy [] "110"
      (window ∷ [])
      (best_slot clock draft busy [] "110" (window ∷ []))
best_slot-IsAnswer_example = best_slot-IsAnswer clock draft busy [] "110" (window ∷ [])

abbrev input : PlanningInput
input = record {
  draft = meeting draft;
  now = "110";
  busy = busy;
  known_availability_calendar_ids = "home" ∷ [];
}

abbrev planned : PlanningResult
planned = record {
  kind = smart_meeting;
  occurrences =
      scheduled_occurrence draft "1"
        (record { interval = record { start = "120"; «end» = "130" }; rejected = 1 })
      ∷ [];
  scheduled_count = 1;
  unmet_count = 0;
  warnings = [];
  hours_summary = "10–50 · UTC";
}

starts_at_once : earliest_start clock draft "110" ≡ ok "110"
unfolding earliest_start to_iso
starts_at_once = refl

is_planned : plan_smart_meeting sample clock draft input ≡ ok planned
unfolding evaluation plan_smart_meeting plan_occurrences plan_occurrence plan_between
    choose_meeting_slot add_local_days materialize_hours best_slot search_durations try_duration
    try_cursors try_cursor conflicts_with window_cursors cursors_from durations durations_from
    earliest_start to_iso clock_minutes candidate_count text_le
is_planned = refl

plan_smart_meeting-IsClear_example :
    (length planned.occurrences ≡ draft.occurrence_count)
    × (planned.scheduled_count + planned.unmet_count ≡ draft.occurrence_count)
    × Apart (slots planned.occurrences)
    × All (IsClear busy "110") (slots planned.occurrences)
plan_smart_meeting-IsClear_example =
    plan_smart_meeting-IsClear sample clock draft input "110" planned starts_at_once is_planned

abbrev evenings : AvailabilityBoundaryDraft
evenings = record {
  name = "Evenings";
  target_calendar_id = "office";
  timezone = "UTC";
  working_days = 1 ∷ 2 ∷ [];
  workday_start = "09:00:00";
  workday_end = "17:00:00";
  protect_before_work = false;
  protect_after_work = true;
  protect_closed_days = false;
  title = "Personal time";
  visibility = private_event;
  horizon_days = 7;
}

evening_is_late : text_le midnight_text "18:00:00" ≡ true
unfolding text_le
evening_is_late = refl

work_is_late : text_le midnight_text "09:00:00" ≡ true
unfolding text_le
work_is_late = refl

work_is_ordered : text_lt "09:00:00" "17:00:00" ≡ true
unfolding text_le
work_is_ordered = refl

boundary_weekly-covers_example :
    any (covers 2 "18:00:00") (boundary_weekly evenings) ≡ is_protected evenings 2 "18:00:00"
boundary_weekly-covers_example =
    boundary_weekly-covers evenings 2 "18:00:00" evening_is_late work_is_late work_is_ordered
      (omega arith) (omega arith)
