-- ===== src/CalendarSync/Examples.antt =====
-- Tests of the calendar-sync package, and its theorems at concrete inputs. Instants, dates and times
-- are written as decimal numbers.
use planipus.Common.{
  ℕ, ◌≤◌, ◌<◌, ◌≡◌, refl, ◌⊎◌, ◌↔◌, ◌≢◌, none, some, true, not, ◌&&◌, [], ◌∷◌, ltb, any, filter,
  All, ok, arith,
}
use mathlib.Core.List.{Memᴰ}
use planipus.Common.Sorting.{IsSorted}
use planipus.CalendarSync.Json.{no_members, member, str, num, obj, JsonValue, null}
use planipus.CalendarSync.Types.{ReasonCode, HoursMode, HoursEvaluationInput, HoursEvaluationResult}
use planipus.CalendarSync.Events.{
  timed, Origin, Availability, Ownership, PolicyEvaluationInput, PolicyEvaluationResult, Selection,
  Operation,
}
use planipus.CalendarSync.Hours.Intervals.{
  interval, subtract_all, collect_days, public_intervals, ConcreteInterval, interval_le,
}
use planipus.CalendarSync.DestinationEdits.{
  DestinationEditPolicy, default_destination_edit_policy, normalize_destination_edit_policy,
}
use planipus.CalendarSync.DestinationEdits.Laws.{IsStored, normalize-IsStored}
use planipus.CalendarSync.Evaluate.NoSync.{contains_no_sync, comparable, searched_fields}
use planipus.CalendarSync.Evaluate.Marker.{SomeMarked, contains_no_sync_iff}
use planipus.CalendarSync.Evaluate.Transform.{desired_copy, disclosure}
use planipus.CalendarSync.Evaluate.Decision.{evaluate_policy}
use planipus.CalendarSync.Evaluate.Stages.{IsQuiet}
use planipus.CalendarSync.Evaluate.Soundness.{IsAuthorized, evaluate_policy_sound}
use planipus.CalendarSync.Evaluate.Privacy.{
  PersonalDetails, with_details, IsRedacted, evaluate_policy-ignores_details,
  evaluate_policy-IsRedacted,
}
use planipus.CalendarSync.Evaluate.Convergence.{applied, evaluate_policy-converges}
use planipus.CalendarSync.Evaluate.Honesty.{IsHonest, disclosure-IsHonest}
use planipus.CalendarSync.Hours.Subtraction.{covers, IsNonempty, covers-subtract_all}
use planipus.CalendarSync.Hours.Concrete.{hours_intervals_well_formed}
use planipus.CalendarSync.Hours.Matching.{Matches, meets, evaluate_hours-included_iff}
use planipus.CalendarSync.Hours.Range.{NextDay, OnDate, collect_days_iff}
use planipus.CalendarSync.Samples.{
  evaluation, sample, work, source_event, fresh, busy_copy, created, fresh-created,
}
use planipus.CalendarSync.Hours.Evaluation.{hours_intervals, evaluate_hours}

abbrev meeting : HoursEvaluationInput
meeting = record {
  mode = HoursMode.contained_in_profile;
  event = record { start = "120"; «end» = "130" };
  profile = some work;
}

meeting_intervals : hours_intervals sample work 120 130 ≡ ok (interval 110 150 ∷ [], [])
unfolding hours_intervals
meeting_intervals = refl

-- The same event, managed by Planipus itself, with a copy at the destination.
abbrev managed : PolicyEvaluationInput
managed = record fresh {
  source = record source_event { origin = Origin.planipus_managed };
  projection = record (fresh.projection) { ownership = Ownership.attached };
}

abbrev removed : PolicyEvaluationResult
removed = record {
  selection = Selection.excluded;
  operation = Operation.delete;
  primary_reason_code = ReasonCode.delete_policy_exclusion;
  reason_codes = ReasonCode.managed_copy ∷ ReasonCode.delete_policy_exclusion ∷ [];
  desired_copy = none;
  desired_fingerprint = none;
  disclosure_manifest = none;
  warnings = [];
}

managed-removed : evaluate_policy sample managed ≡ ok removed
unfolding evaluation
managed-removed = refl

abbrev party : PersonalDetails
party = record {
  content = record {
    summary = some "party";
    description = some "at home";
    location = none;
    conference = none;
  };
  attendees = none;
  organizer_identity = some "eve";
  attachments = some ("cake" ∷ []);
  source_url = none;
  provider_metadata = some null;
}

same_marker : contains_no_sync sample (with_details fresh party) ≡ contains_no_sync sample fresh
unfolding contains_no_sync
same_marker = refl

tagged : PolicyEvaluationInput
tagged = record fresh {
  source = record source_event {
    content = record party.content { summary = some "party #nosync" };
  };
}

tagged_test : contains_no_sync sample tagged ≡ true
unfolding contains_no_sync tagged
tagged_test = refl

evaluate_policy_sound_example : IsQuiet fresh created ⊎ IsAuthorized sample fresh created
evaluate_policy_sound_example = evaluate_policy_sound sample fresh created fresh-created

evaluate_policy-ignores_details_example :
    evaluate_policy sample (with_details fresh party) ≡ evaluate_policy sample fresh
evaluate_policy-ignores_details_example =
    evaluate_policy-ignores_details sample fresh party refl same_marker

evaluate_policy-IsRedacted_example : IsRedacted fresh busy_copy
evaluate_policy-IsRedacted_example =
    evaluate_policy-IsRedacted sample fresh created busy_copy refl fresh-created refl

evaluate_policy-converges_example :
    (q : PolicyEvaluationResult) × (evaluate_policy sample
        (applied fresh busy_copy "sha256:long" "dest1")
      ≡ ok q)
    × (q.selection ≡ Selection.included)
    × (q.operation ≡ Operation.no_operation)
    × (q.primary_reason_code ≡ ReasonCode.no_change)
    × (q.desired_copy ≡ some busy_copy)
    × (q.desired_fingerprint ≡ some "sha256:long")
evaluate_policy-converges_example =
    evaluate_policy-converges sample fresh created busy_copy "sha256:long" "dest1" fresh-created
      refl refl

contains_no_sync_iff_example : (contains_no_sync sample fresh ≡ true) ↔ (
    (comparable sample "#nosync" ≢ [])
    × SomeMarked sample (comparable sample "#nosync") (searched_fields fresh))
contains_no_sync_iff_example = contains_no_sync_iff sample fresh

disclosure-IsHonest_example :
    IsHonest fresh
      (desired_copy fresh Availability.busy (timed "120" "130" "UTC" "UTC"))
      (disclosure fresh (desired_copy fresh Availability.busy (timed "120" "130" "UTC" "UTC")))
disclosure-IsHonest_example =
    disclosure-IsHonest fresh Availability.busy (timed "120" "130" "UTC" "UTC")

covers-subtract_all_example :
    any (covers 20) (subtract_all (interval 10 50 ∷ []) (interval 15 30 ∷ []))
    ≡ (any (covers 20) (interval 10 50 ∷ []) && not (any (covers 20) (interval 15 30 ∷ [])))
covers-subtract_all_example = covers-subtract_all 20 (interval 10 50 ∷ []) (interval 15 30 ∷ [])

hours_intervals_well_formed_example :
    All IsNonempty (interval 110 150 ∷ []) × IsSorted (interval_le sample) (interval 110 150 ∷ [])
hours_intervals_well_formed_example =
    hours_intervals_well_formed sample work 120 130 (interval 110 150 ∷ []) [] meeting_intervals

evaluate_hours-included_iff_example :
    (r : HoursEvaluationResult) × (evaluate_hours sample meeting ≡ ok r)
    × ((r.included ≡ true) ↔ (
        (c : ConcreteInterval) × Memᴰ c (interval 110 150 ∷ []) × Matches meeting.mode 120 130 c))
    × (r.matched_intervals
        ≡ public_intervals sample (filter (meets meeting.mode 120 130) (interval 110 150 ∷ [])))
evaluate_hours-included_iff_example =
    evaluate_hours-included_iff sample meeting work 120 130 (interval 110 150 ∷ []) [] (λ h. cc)
      refl refl refl (omega arith) meeting_intervals

abbrev meeting_inside : HoursEvaluationResult
meeting_inside = record {
  included = true;
  reason_code = ReasonCode.contained_in_hours;
  concrete_intervals = record { start = "110"; «end» = "150" } ∷ [];
  matched_intervals = record { start = "110"; «end» = "150" } ∷ [];
  diagnostics = [];
}

meeting_test : evaluate_hours sample meeting ≡ ok meeting_inside
unfolding evaluate_hours
meeting_test = refl

sample_next : NextDay sample
sample_next d e h = ground arith

week_found : collect_days sample work (λ d. ltb d 7) 371 0 ≡ ok (interval 110 150 ∷ [], [])
unfolding collect_days
week_found = refl

collect_days_iff_example :
    Memᴰ (interval 110 150) (interval 110 150 ∷ [])
    ↔ ((d : ℕ) × (0 ≤ d) × (d < 7) × OnDate sample work d (interval 110 150))
collect_days_iff_example =
    collect_days_iff sample work sample_next 371 0 7 (interval 110 150 ∷ []) [] (interval 110 150)
      week_found

abbrev stored_edits : JsonValue
stored_edits = obj (
    member "version" (num 1)
      (member "on_edit" (str "hold_for_review") (member "on_delete" (str "restore") no_members)))

normalize-IsStored_example :
    IsStored stored_edits (normalize_destination_edit_policy stored_edits)
    ⊎ (((policy : DestinationEditPolicy) → ¬ IsStored stored_edits policy)
        × (normalize_destination_edit_policy stored_edits ≡ default_destination_edit_policy))
normalize-IsStored_example = normalize-IsStored stored_edits
