-- ===== src/CalendarSync/Evaluate/Decision.antt =====
-- packages/calendar-sync/src/evaluate.ts: `evaluatePolicy`. Each stage of its body is a function that
-- goes on with a value or leaves: by an early `return`, or by an exception.
use planipus.Common.{
  String, Option, none, some, Bool, true, false, ◌&&◌, not, List, [], ◌∷◌, ◌++◌, ◌==◌, str_eq,
  includes, if◌then◌else◌, unique, Result, ok, err, ◌>>=◌, ◌>>◌, stop_if,
}
use planipus.CalendarSync.Types.{ReasonCode, same_reason}
use planipus.CalendarSync.Json.{Text, JsonError, canonicalize_json, sha256_canonical}
use planipus.CalendarSync.Platform.{Platform}
use planipus.CalendarSync.Hours.Intervals.{HoursError}
use planipus.CalendarSync.Hours.Evaluation.{evaluate_hours}
use planipus.CalendarSync.Events.{
  EventTiming, timed, all_day, Lifecycle, Origin, Availability, Preset, busy_only, commitment,
  private_details, shared_details, TimedSelection, AllDaySelection, FreeEvents, PolicyState,
  PolicyEvaluationInput, PolicyEvaluationResult, DesiredCopy, Selection, Operation, Ownership,
}
use planipus.CalendarSync.Evaluate.NoSync.{contains_no_sync}
use planipus.CalendarSync.Evaluate.Validation.{
  EvaluationError, range_error, type_error, result, excluded, is_redacted, validate,
  timing_interval, overlaps, counts, omitted, effective_availability,
}
use planipus.CalendarSync.Evaluate.Transform.{is_free, desired_copy, disclosure, desired_json}

pub data Exit : Type 0 where
  returned : PolicyEvaluationResult → Exit
  thrown : EvaluationError → Exit

abbrev pub Stage : Type 0 → Type 0
Stage A = Result Exit A

abbrev pub throwing {ℓ} : {A : Type ℓ} → Result EvaluationError A → Result Exit A
throwing (ok a) = ok a
throwing (err e) = err (thrown e)

abbrev pub throwing_type {ℓ} : {A : Type ℓ} → Result JsonError A → Result Exit A
throwing_type (ok a) = ok a
throwing_type (err e) = err (thrown type_error)

-- The one error that leaves `evaluateHours` is a `RangeError`.
abbrev pub throwing_range {ℓ} : {A : Type ℓ} → Result HoursError A → Result Exit A
throwing_range (ok a) = ok a
throwing_range (err e) = err (thrown range_error)

abbrev pub same_text : Text → Text → Bool
same_text [] [] = true
same_text [] (y ∷ ys) = false
same_text (x ∷ xs) [] = false
same_text (x ∷ xs) (y ∷ ys) = x == y && same_text xs ys

unfoldable pub privacy_reason : Preset → ReasonCode
privacy_reason busy_only = ReasonCode.privacy_busy_only
privacy_reason commitment = ReasonCode.privacy_commitment
privacy_reason private_details = ReasonCode.privacy_private_details
privacy_reason shared_details = ReasonCode.privacy_shared_details

reason_list : Option ReasonCode → List ReasonCode
reason_list none = []
reason_list (some r) = r ∷ []

-- What the selection has settled so far.
pub record Chosen : Type 0 where
  pub availability : Availability
  pub reasons : List ReasonCode
  pub warnings : List ReasonCode

module _ (input : PolicyEvaluationInput) where
  abbrev pub leave {ℓ} : {A : Type ℓ} → ReasonCode → Result Exit A
  leave code = err (returned (excluded input code false))

  unfoldable pub check_lifecycle : Stage (Unit {0})
  check_lifecycle = elim input.source.lifecycle [
    | Lifecycle.deleted ↦ err (returned (excluded input ReasonCode.source_deleted true))
    | Lifecycle.cancelled ↦ err (returned (excluded input ReasonCode.source_cancelled true))
    | Lifecycle.confirmed ↦ ok tt
  ]

  unfoldable pub check_origin : Stage (Unit {0})
  check_origin = elim input.source.origin [
    | Origin.planipus_managed ↦ leave ReasonCode.managed_copy
    | Origin.provider_original ↦ ok tt
  ]

  unfoldable pub select_availability : Stage Chosen
  unfolding reason_list
  select_availability = elim (effective_availability input) [
    | omitted code ↦ leave code
    | counts availability reason ↦
        ok (record { availability = availability; reasons = reason_list reason; warnings = [] })
  ]

  unfoldable pub select_kind : EventTiming → Chosen → Stage Chosen
  select_kind (timed _ _ _ _) c = elim input.policy.selection.timed [
    | TimedSelection.skip ↦ leave ReasonCode.timed_event_disabled
    | TimedSelection.include ↦
        ok (record c { reasons = c.reasons ++ ReasonCode.timed_event_included ∷ [] })
  ]
  select_kind (all_day _ _ _) c = elim input.policy.selection.all_day [
    | AllDaySelection.skip_all_day ↦ leave ReasonCode.all_day
    | AllDaySelection.only_busy ↦
        if is_free c.availability
        then leave ReasonCode.all_day_free
        else ok (record c { reasons = c.reasons ++ ReasonCode.all_day_busy_included ∷ [] })
    | AllDaySelection.all ↦
        ok (record c { reasons = c.reasons ++ ReasonCode.all_day_included ∷ [] })
  ]

  preserved : Chosen → Chosen
  preserved c = record c { reasons = c.reasons ++ ReasonCode.free_preserved ∷ [] }

  unfoldable pub select_free : Chosen → Stage Chosen
  unfolding preserved
  select_free c =
      if not (is_free c.availability) then ok c else elim input.policy.selection.free_events [
        | FreeEvents.skip_when_redacted ↦
            if is_redacted input.policy.privacy.preset
            then leave ReasonCode.free
            else ok (preserved c)
        | FreeEvents.preserve_free ↦ ok (preserved c)
        | FreeEvents.force_busy ↦ ok (record {
          availability = Availability.busy;
          reasons = c.reasons ++ ReasonCode.free_forced_busy ∷ [];
          warnings = c.warnings ++ ReasonCode.free_forced_busy ∷ [];
        })
      ]

  unfoldable pub check_ownership : Chosen → Stage (Unit {0})
  check_ownership c = elim input.projection.ownership [
    | Ownership.detached ↦ err (
        returned (
          result Selection.included Operation.no_operation ReasonCode.detached_no_action
            (c.reasons ++ ReasonCode.detached_no_action ∷ []) c.warnings))
    | Ownership.ambiguous ↦ err (
        returned (
          result Selection.held Operation.no_operation ReasonCode.ambiguous_ownership
            (c.reasons ++ ReasonCode.ambiguous_ownership ∷ []) c.warnings))
    | _ ↦ ok tt
  ]

  -- The result that `evaluatePolicy` ends with.
  unfoldable pub emitted :
      EventTiming → Chosen → String → Operation × ReasonCode → PolicyEvaluationResult
  emitted timing c fingerprint action =
      let desired = desired_copy input c.availability timing in
      record {
        selection = Selection.included;
        operation = action.0;
        primary_reason_code = action.1;
        reason_codes =
            unique same_reason
              (c.reasons ++ privacy_reason input.policy.privacy.preset ∷ action.1 ∷ []);
        desired_copy = some desired;
        desired_fingerprint = some fingerprint;
        disclosure_manifest = some (disclosure input desired);
        warnings = unique same_reason c.warnings;
      }

module _ (p : Platform) (input : PolicyEvaluationInput) where
  unfoldable pub check_policy : Stage (Unit {0})
  check_policy = elim (validate p input) [
    | some code ↦
        err (returned (result Selection.invalid Operation.no_operation code (code ∷ []) []))
    | none ↦ elim input.policy.state [
      | PolicyState.paused ↦ err (
          returned (
            result Selection.held Operation.no_operation ReasonCode.policy_paused
              (ReasonCode.policy_paused ∷ []) []))
      | PolicyState.disabled ↦ err (
          returned (
            result Selection.excluded Operation.no_operation ReasonCode.policy_disabled
              (ReasonCode.policy_disabled ∷ []) []))
      | PolicyState.review_required ↦ err (
          returned (
            result Selection.held Operation.no_operation ReasonCode.policy_review_required
              (ReasonCode.policy_review_required ∷ []) []))
      | PolicyState.active ↦ ok tt
    ]
  ]

  unfoldable pub check_source : Stage (Unit {0})
  unfolding check_lifecycle check_origin
  check_source = do
    check_lifecycle input
    check_origin input
    stop_if (includes input.policy.selection.manual_exclusions input.source.source_event_ref)
        (returned (excluded input ReasonCode.manual_exclusion false))
    stop_if (contains_no_sync p input) (returned (excluded input ReasonCode.nosync false))
    stop_if
        (input.policy.selection.skip_when_destination_identity_invited
          && input.source.destination_identity_invited)
        (returned (excluded input ReasonCode.already_invited false))

  unfoldable pub require_timing : Stage EventTiming
  require_timing = elim input.source.timing [
    | none ↦ err (
        returned (
          result Selection.invalid Operation.no_operation ReasonCode.invalid_source_event
            (ReasonCode.invalid_source_event ∷ []) []))
    | some timing ↦ ok timing
  ]

  unfoldable pub check_horizon : EventTiming → Stage (Unit {0})
  check_horizon timing = do
    interval ← throwing (timing_interval p timing)
    inside ← throwing (overlaps p interval input.horizon)
    stop_if (not inside) (returned (excluded input ReasonCode.outside_horizon false))

  unfoldable pub select_hours : EventTiming → Chosen → Stage Chosen
  select_hours (all_day _ _ _) c = ok c
  select_hours (timed start finish _ _) c = do
    hours ← throwing_range (
        evaluate_hours p (record {
          mode = input.policy.hours_mode;
          event = record { start = start; «end» = finish };
          profile = input.hours_profile;
        }))
    stop_if (not hours.included) (returned (excluded input hours.reason_code false))
    ok (record c { reasons = c.reasons ++ (hours.diagnostics ++ hours.reason_code ∷ []) })

  -- `observed_copy !== undefined && !sameJson(observed_copy, desired)`
  unfoldable pub has_drifted : Option DesiredCopy → DesiredCopy → Stage Bool
  has_drifted none desired = ok false
  has_drifted (some observed) desired = do
    left ← throwing_type (canonicalize_json p.nfc (desired_json observed))
    right ← throwing_type (canonicalize_json p.nfc (desired_json desired))
    ok (not (same_text left right))

  -- `desired_fingerprint !== undefined && desired_fingerprint !== desiredFingerprint`
  abbrev pub fingerprint_differs : Option String → String → Bool
  fingerprint_differs none fingerprint = false
  fingerprint_differs (some known) fingerprint = not (str_eq known fingerprint)

  unfoldable pub choose_operation : DesiredCopy → String → Stage (Operation × ReasonCode)
  unfolding has_drifted
  choose_operation desired fingerprint = elim input.projection.ownership [
    | Ownership.unowned ↦ ok (Operation.create, ReasonCode.create_missing_copy)
    | _ ↦ elim input.projection.destination_exists [
      | some false ↦ ok (Operation.create, ReasonCode.restore_destination_missing)
      | _ ↦ do
        drifted ← has_drifted input.projection.observed_copy desired
        if drifted
            then ok (Operation.update, ReasonCode.restore_destination_drift)
            else if fingerprint_differs input.projection.desired_fingerprint fingerprint
            then ok (Operation.update, ReasonCode.update_source_change)
            else ok (Operation.no_operation, ReasonCode.no_change)
    ]
  ]

  unfoldable pub emit : EventTiming → Chosen → Stage PolicyEvaluationResult
  unfolding check_ownership emitted
  emit timing c = do
    check_ownership input c
    let desired = desired_copy input c.availability timing
    fingerprint ← throwing_type (sha256_canonical p.nfc p.sha256 (desired_json desired))
    action ← choose_operation desired fingerprint
    ok (emitted input timing c fingerprint action)

  unfoldable pub evaluate_stages : Stage PolicyEvaluationResult
  unfolding check_policy check_source select_availability require_timing check_horizon
  evaluate_stages = do
    check_policy
    check_source
    first ← select_availability input
    timing ← require_timing
    check_horizon timing
    kind ← select_kind input timing first
    settled ← select_free input kind
    chosen ← select_hours timing settled
    emit timing chosen

abbrev pub finish : Stage PolicyEvaluationResult → Result EvaluationError PolicyEvaluationResult
finish (ok r) = ok r
finish (err (returned r)) = ok r
finish (err (thrown e)) = err e

unfoldable pub evaluate_policy :
    Platform → PolicyEvaluationInput → Result EvaluationError PolicyEvaluationResult
unfolding evaluate_stages
evaluate_policy p input = finish (evaluate_stages p input)
