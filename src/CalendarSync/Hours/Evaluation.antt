-- ===== src/CalendarSync/Hours/Evaluation.antt =====
-- packages/calendar-sync/src/hours.ts: `evaluateHours` and `materializeHours`.
use planipus.Common.{
  ℕ, Option, none, some, Bool, true, false, ◌&&◌, List, [], ◌∷◌, length, ltb, leb, filter, unique,
  Result, ok, err, ◌>>=◌, or_throw, if◌then◌else◌,
}
use planipus.CalendarSync.Types.{
  ReasonCode, same_reason, HoursProfile, HoursMode, HoursEvaluationInput, HoursEvaluationResult,
  HoursMaterializationInput, HoursMaterializationResult,
}
use planipus.CalendarSync.Platform.{Platform}
use planipus.CalendarSync.Hours.Intervals.{
  ConcreteInterval, HoursError, dst_resolution, range_error, collect_days, deduplicate_and_sort,
  public_intervals,
}

abbrev pub rejected : ReasonCode → List ReasonCode → HoursEvaluationResult
rejected code diagnostics = record {
  included = false;
  reason_code = code;
  concrete_intervals = [];
  matched_intervals = [];
  diagnostics = diagnostics;
}

-- The tests of the two filters, on an event from `s` to `e`.
abbrev pub overlaps_event : ℕ → ℕ → ConcreteInterval → Bool
overlaps_event s e c = ltb s c.«end» && ltb c.start e

abbrev pub contains_event : ℕ → ℕ → ConcreteInterval → Bool
contains_event s e c = leb c.start s && leb e c.«end»

module _ (p : Platform) where
  -- The body of the `try` up to the filters: the intervals, sorted, and the diagnostics.
  unfoldable pub hours_intervals :
      HoursProfile → ℕ → ℕ → Result HoursError (List ConcreteInterval × List ReasonCode)
  unfolding collect_days deduplicate_and_sort
  hours_intervals profile s e = do
    start_date ← or_throw range_error (p.local_date profile.timezone s)
    first ← or_throw range_error (p.subtract_day start_date)
    last ← or_throw range_error (p.local_date profile.timezone e)
    found ← collect_days p profile (λ d. leb d last) 371 first
    ok (deduplicate_and_sort p found.0, found.1)

  unfoldable pub decide_overlap :
      ℕ → ℕ → List ConcreteInterval → List ReasonCode → HoursEvaluationResult
  unfolding public_intervals
  decide_overlap s e sorted diagnostics =
      let matched = filter (overlaps_event s e) sorted in
      record {
        included = ltb 0 (length matched);
        reason_code =
            if ltb 0 (length matched) then ReasonCode.overlaps_hours else ReasonCode.outside_hours;
        concrete_intervals = public_intervals p sorted;
        matched_intervals = public_intervals p matched;
        diagnostics = unique same_reason diagnostics;
      }

  unfoldable pub decide_containment :
      ℕ → ℕ → List ConcreteInterval → List ReasonCode → HoursEvaluationResult
  unfolding public_intervals
  decide_containment s e sorted diagnostics =
      let matched = filter (contains_event s e) sorted in
      record {
        included = ltb 0 (length matched);
        reason_code =
            if ltb 0 (length matched)
            then ReasonCode.contained_in_hours
            else ReasonCode.not_contained_in_hours;
        concrete_intervals = public_intervals p sorted;
        matched_intervals = public_intervals p matched;
        diagnostics = unique same_reason diagnostics;
      }

  -- The `try` with its `catch`.
  unfoldable pub decide_hours :
      HoursMode
      → ℕ
      → ℕ
      → Result HoursError (List ConcreteInterval × List ReasonCode)
      → HoursEvaluationResult
  unfolding decide_overlap decide_containment
  decide_hours mode s e (err range_error) = rejected ReasonCode.invalid_hours_profile []
  decide_hours mode s e (err dst_resolution) =
      rejected ReasonCode.dst_resolution_rejected (ReasonCode.dst_resolution_rejected ∷ [])
  decide_hours HoursMode.overlaps_profile s e (ok (sorted, ds)) = decide_overlap s e sorted ds
  decide_hours HoursMode.contained_in_profile s e (ok (sorted, ds)) =
      decide_containment s e sorted ds
  decide_hours HoursMode.all_times s e (ok (sorted, ds)) = decide_containment s e sorted ds

  abbrev pub everything : HoursEvaluationResult
  everything = record {
    included = true;
    reason_code = ReasonCode.all_times;
    concrete_intervals = [];
    matched_intervals = [];
    diagnostics = [];
  }

  unfoldable pub evaluate_profile : HoursMode → Option HoursProfile → ℕ → ℕ → HoursEvaluationResult
  unfolding decide_hours hours_intervals
  evaluate_profile HoursMode.all_times profile s e = everything
  evaluate_profile _ none s e = rejected ReasonCode.invalid_hours_profile []
  evaluate_profile mode (some profile) s e = decide_hours mode s e (hours_intervals profile s e)

  -- The first two library calls stand outside the `try`: their error is thrown.
  unfoldable pub evaluate_hours : HoursEvaluationInput → Result HoursError HoursEvaluationResult
  unfolding evaluate_profile
  evaluate_hours input = do
    s ← or_throw range_error (p.instant_from input.event.start)
    e ← or_throw range_error (p.instant_from input.event.«end»)
    if leb e s
        then ok (rejected ReasonCode.invalid_hours_profile [])
        else ok (evaluate_profile input.mode input.profile s e)

  unfoldable pub materialized :
      HoursProfile → ℕ → ℕ → Result HoursError (List ConcreteInterval × List ReasonCode)
  unfolding collect_days deduplicate_and_sort
  materialized profile first last = if leb last first then ok ([], []) else do
    found ← collect_days p profile (λ d. ltb d last) 371 first
    ok (deduplicate_and_sort p found.0, found.1)

  -- Here every error is caught.
  unfoldable pub materialized_result :
      Result HoursError (List ConcreteInterval × List ReasonCode) → HoursMaterializationResult
  unfolding public_intervals
  materialized_result (err e) = record {
    concrete_intervals = [];
    diagnostics = ReasonCode.dst_resolution_rejected ∷ [];
  }
  materialized_result (ok (cs, ds)) = record {
    concrete_intervals = public_intervals p cs;
    diagnostics = unique same_reason ds;
  }

  unfoldable pub materialize_hours : HoursMaterializationInput → HoursMaterializationResult
  unfolding materialized materialized_result
  materialize_hours input = materialized_result do
    first ← or_throw range_error (p.date_from input.start_date)
    last ← or_throw range_error (p.date_from input.end_date_exclusive)
    materialized input.profile first last
