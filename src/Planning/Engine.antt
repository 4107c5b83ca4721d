-- ===== src/Planning/Engine.antt =====
-- server/src/planning/engine.ts: `planSmartMeeting` and `planScheduling`.
use planipus.Common.{
  ℕ, zero, suc, ◌*◌, String, Option, none, some, Bool, true, not, ◌&&◌, ◌||◌, List, [], ◌∷◌, ◌++◌,
  map, ltb, str_eq, if◌then◌else◌, any, filter, length, includes, is_some, Result, ok, ◌>>=◌,
}
use planipus.CalendarSync.Types.{InstantInterval, WeeklyInterval, HoursMaterializationResult}
use planipus.CalendarSync.Platform.{Platform}
use planipus.CalendarSync.Hours.Evaluation.{materialize_hours}
use planipus.Planning.Types.{
  smart_meeting, SmartMeetingAttendee, SmartMeetingDraft, PlanningDraft, boundary, meeting,
  PlanningAttendee, EventTemplate, PlannedOccurrenceTemplate, PlanningResult, PlanningInput, Clock,
}
use planipus.Planning.Slots.{
  PlanningError, text_lt, SelectedSlot, best_slot, earliest_start, candidate_count,
}
use planipus.Planning.Boundary.{
  ◌<+>◌, add_local_days, hours_profile, hours_summary, reason_texts, plan_availability_boundary,
}

-- `!description`
abbrev pub nonempty : Option String → Option String
nonempty none = none
nonempty (some s) = if str_eq s "" then none else some s

abbrev pub planning_attendee : SmartMeetingAttendee → PlanningAttendee
planning_attendee a = record { email = a.email; is_optional = not a.required }

abbrev pub meeting_event : SmartMeetingDraft → InstantInterval → EventTemplate
meeting_event draft interval = record {
  interval = interval;
  timezone = draft.timezone;
  summary = draft.name;
  description = nonempty draft.description;
  location = nonempty draft.location;
  visibility = draft.visibility;
  attendees = map planning_attendee draft.attendees;
  send_updates = ltb 0 (length draft.attendees);
}

abbrev pub occurrence_key : String → String
occurrence_key window_start = "week:" <+> window_start

abbrev pub scheduled_occurrence :
    SmartMeetingDraft → String → SelectedSlot → PlannedOccurrenceTemplate
scheduled_occurrence draft window_start selected = record {
  occurrence_key = occurrence_key window_start;
  reason_code =
      if ltb 0 selected.rejected then "closest_mutual_opening" else "preferred_time_available";
  event = some (meeting_event draft selected.interval);
  rejected_candidate_count = selected.rejected;
}

abbrev pub unmet_occurrence : String → ℕ → PlannedOccurrenceTemplate
unmet_occurrence window_start count = record {
  occurrence_key = occurrence_key window_start;
  reason_code = "no_mutual_time_inside_meeting_hours";
  event = none;
  rejected_candidate_count = count;
}

-- `if (!warnings.includes(diagnostic)) warnings.push(diagnostic)`, for each diagnostic.
abbrev pub add_warnings : List String → List String → List String
add_warnings warnings [] = warnings
add_warnings warnings (d ∷ ds) =
    add_warnings (if includes warnings d then warnings else warnings ++ d ∷ []) ds

abbrev pub is_unknown : PlanningInput → SmartMeetingAttendee → Bool
is_unknown input attendee = attendee.required && elim attendee.availability_calendar_id [
  | none ↦ true
  | some calendar ↦
      str_eq calendar "" || not (includes input.known_availability_calendar_ids calendar)
]

abbrev pub first_warnings : SmartMeetingDraft → PlanningInput → List String
first_warnings draft input =
    (if any (λ c. not (includes input.known_availability_calendar_ids c))
        draft.availability_calendar_ids
      then "availability_incomplete" ∷ []
      else [])
    ++ (if any (is_unknown input) draft.attendees
        then "required_attendee_availability_unknown" ∷ []
        else [])

abbrev pub meeting_weekly : SmartMeetingDraft → List WeeklyInterval
meeting_weekly draft =
    map
      (λ weekday. record {
        local = record {
          start = draft.window_start;
          «end» = draft.window_end;
          end_day_offset = if text_lt draft.window_start draft.window_end then 0 else 1;
        };
        weekday = weekday;
      })
      draft.weekdays

-- What the loop over occurrences has so far: `occurrences`, `used` and `warnings`.
pub record Plan : Type 0 where
  pub occurrences : List PlannedOccurrenceTemplate
  pub used : List InstantInterval
  pub warnings : List String

module _ (platform : Platform) (clock : Clock) where
  module _ (draft : SmartMeetingDraft) (input : PlanningInput) where
    -- `chooseMeetingSlot`
    unfoldable pub choose_meeting_slot :
        List InstantInterval → List InstantInterval → Result PlanningError (Option SelectedSlot)
    choose_meeting_slot windows used = do
      earliest ← earliest_start clock draft input.now
      ok (best_slot clock draft input.busy used earliest windows)

    abbrev pub place_occurrence : String → List InstantInterval → Option SelectedSlot → Plan → Plan
    place_occurrence window_start windows none plan = record plan {
      occurrences =
          plan.occurrences
          ++ unmet_occurrence window_start (candidate_count clock draft windows) ∷ [];
    }
    place_occurrence window_start windows (some selected) plan = record plan {
      occurrences = plan.occurrences ++ scheduled_occurrence draft window_start selected ∷ [];
      used = plan.used ++ selected.interval ∷ [];
    }

    abbrev pub meeting_windows : String → String → HoursMaterializationResult
    meeting_windows window_start window_end = materialize_hours platform (record {
      profile = hours_profile "smart-meeting-preview" draft.timezone (meeting_weekly draft);
      start_date = window_start;
      end_date_exclusive = window_end;
    })

    abbrev pub warned : HoursMaterializationResult → Plan → Plan
    warned windows plan = record plan {
      warnings = add_warnings plan.warnings (reason_texts windows.diagnostics);
    }

    -- One turn of the loop, with the next `windowStart`.
    unfoldable pub plan_between : String → Plan → String → Result PlanningError (String × Plan)
    plan_between window_start plan window_end = do
      let windows = meeting_windows window_start window_end
      selected ← choose_meeting_slot windows.concrete_intervals plan.used
      ok (
        window_end,
        place_occurrence window_start windows.concrete_intervals selected (warned windows plan),
      )

    unfoldable pub plan_occurrence : String → Plan → Result PlanningError (String × Plan)
    plan_occurrence window_start plan =
        add_local_days clock window_start (7 * draft.cadence_weeks)
        >>= plan_between window_start plan

    unfoldable pub plan_occurrences : ℕ → String → Plan → Result PlanningError Plan
    plan_occurrences zero window_start plan = ok plan
    plan_occurrences (suc count) window_start plan =
        plan_occurrence window_start plan >>= λ turn. plan_occurrences count turn.0 turn.1

    abbrev pub is_scheduled : PlannedOccurrenceTemplate → Bool
    is_scheduled o = is_some o.event

    abbrev pub meeting_result : Plan → PlanningResult
    meeting_result plan = record {
      kind = smart_meeting;
      occurrences = plan.occurrences;
      scheduled_count = length (filter is_scheduled plan.occurrences);
      unmet_count = length (filter (λ o. not (is_scheduled o)) plan.occurrences);
      warnings = plan.warnings;
      hours_summary = hours_summary draft.window_start draft.window_end draft.timezone;
    }

    abbrev pub empty_plan : Plan
    empty_plan = record { occurrences = []; used = []; warnings = first_warnings draft input }

    unfoldable pub plan_smart_meeting : Result PlanningError PlanningResult
    plan_smart_meeting = do
      plan ← plan_occurrences draft.occurrence_count draft.start_date empty_plan
      ok (meeting_result plan)

  unfoldable pub plan_draft : PlanningDraft → PlanningInput → Result PlanningError PlanningResult
  plan_draft (boundary draft) input = plan_availability_boundary platform clock draft input.now
  plan_draft (meeting draft) input = plan_smart_meeting draft input

  unfoldable pub plan_scheduling : PlanningInput → Result PlanningError PlanningResult
  plan_scheduling input = plan_draft input.draft input
