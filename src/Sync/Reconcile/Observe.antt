-- ===== src/Sync/Reconcile/Observe.antt =====
-- server/src/sync/reconciliation.ts: `reconcileObservation`, one transaction for one source observation.
-- A `bigint` counter is a number here; rows that other transactions insert meanwhile do not appear.
use planipus.Common.{
  ℕ, ◌+◌, String, Option, none, some, Bool, true, false, ◌&&◌, ◌||◌, List, [], ◌∷◌, ltb, ◌==◌,
  str_eq, if◌then◌else◌, find, filter, Result, ok, err,
}
use planipus.CalendarSync.Types.{ReasonCode}
use planipus.CalendarSync.Events.{Selection, Operation, PolicyEvaluationResult}
use planipus.Jobs.ErrorCode.{named}
use planipus.Sync.Provider.{EffectError, unexpected}
use planipus.Sync.Reconcile.Projecting.{
  is_held_selection, or_option, stored, reason_code_text, projection_persistence_for_result,
  recovery_operation_for_result, is_ambiguous_copy, is_destination_edit_hold, is_retained, Pass,
}
use planipus.Common.Sorting.{sort}
use planipus.CalendarSync.Json.{JsonValue, Text, str, null, codes, text_le}
use planipus.CalendarSync.Evaluate.Validation.{result, EvaluationError}
use planipus.Jobs.Queue.{JobState}
use planipus.Sync.Store.{
  EffectOperation, ProjectionStatus, CopyOwnership, Projection, Effect, Observation, Store,
}
use planipus.Sync.Effects.Steps.{set_projection}

-- `decision` of the outcome: the result's parts, or one of the two fixed answers.
pub data PassDecision : Type 0 where
  decided : Selection → Operation → ReasonCode → PassDecision
  blocking_dead_effect : ProjectionStatus → PassDecision
  recovery_shadow_refreshed : PassDecision

pub record Outcome : Type 0 where
  pub created : Bool
  pub decision : PassDecision

abbrev pub decision_of : PolicyEvaluationResult → PassDecision
decision_of result = decided result.selection result.operation result.primary_reason_code

abbrev pub effect_operation : Operation → Option EffectOperation
effect_operation Operation.create = some EffectOperation.create
effect_operation Operation.update = some EffectOperation.update
effect_operation Operation.delete = some EffectOperation.delete
effect_operation Operation.no_operation = none

abbrev pub operation_text : EffectOperation → String
operation_text EffectOperation.create = "create"
operation_text EffectOperation.update = "update"
operation_text EffectOperation.delete = "delete"

abbrev pub is_dead_state : JobState → Bool
is_dead_state JobState.dead = true
is_dead_state _ = false

abbrev pub created_le : Effect → Effect → Bool
created_le a b =
    ltb a.created_at b.created_at || (a.created_at == b.created_at && text_le a.id b.id)

abbrev pub first_of : List Effect → Option Effect
first_of [] = none
first_of (e ∷ _) = some e

-- The error that `evaluate` throws for an input that it cannot read.
abbrev pub evaluated :
    Result EvaluationError PolicyEvaluationResult → Result EffectError PolicyEvaluationResult
evaluated (ok result) = ok result
evaluated (err EvaluationError.range_error) = err (unexpected (named (codes "RangeError")))
evaluated (err EvaluationError.type_error) = err (unexpected (named (codes "TypeError")))

abbrev pub nullable : Option String → JsonValue
nullable none = null
nullable (some s) = str s

module _ (pass : Pass) (organization : String) (observation : Observation) where
  abbrev pub is_observed : Projection → Bool
  is_observed q =
      str_eq q.organization_id organization
      && str_eq q.policy_id pass.policy.policy_ref
      && str_eq q.source_observation_id observation.id
      && str_eq q.recurrence_identity observation.recurrence_identity

  abbrev pub find_existing : Store → Option Projection
  find_existing s = find is_observed s.projections

  unfoldable pub blocking_dead : Projection → Store → Option Effect
  unfolding sort
  blocking_dead q s = first_of (
      sort created_le (
        filter
          (λ e.
            str_eq e.organization_id organization
            && str_eq e.projection_id q.id
            && is_dead_state e.state)
          s.effects))

  abbrev pub candidate_id : Option Projection → String
  candidate_id none = pass.new_projection_id
  candidate_id (some q) = q.id

  -- `status`, where a decision of a person or a dead effect blocks the projection.
  abbrev pub blocked_status : Projection → ProjectionStatus
  blocked_status q =
      if is_ambiguous_copy q.ownership || is_destination_edit_hold q
      then ProjectionStatus.held
      else ProjectionStatus.failed

  abbrev blocked_code :
      PolicyEvaluationResult → Option Text → Option Text → Option EffectOperation → Option Text
  blocked_code result dead kept none = some (reason_code_text result.primary_reason_code)
  blocked_code result dead kept (some _) =
      or_option dead (or_option kept (some (codes "effect_recovery_required")))

  abbrev dead_code : Option Effect → Option Text
  dead_code none = none
  dead_code (some e) = e.safe_error_code

  abbrev blocked_decision : Option Effect → ProjectionStatus → PassDecision
  blocked_decision none status = recovery_shadow_refreshed
  blocked_decision (some _) status = blocking_dead_effect status

  abbrev pub refreshed_row :
      String → Projection → PolicyEvaluationResult → Option Effect → Projection → Projection
  refreshed_row basis existing result dead q = record q {
    policy_revision = pass.policy.revision;
    source_basis_hash = some basis;
    recovery_operation = recovery_operation_for_result result;
    desired_hash = result.desired_fingerprint;
    desired_state = stored result.desired_copy;
    status = blocked_status existing;
    safe_error_code =
        blocked_code result (dead_code dead) existing.safe_error_code
          (recovery_operation_for_result result);
    updated_at = pass.now;
  }

  unfoldable pub refresh_recovery :
      String → Projection → PolicyEvaluationResult → Option Effect → Store → Store × Outcome
  refresh_recovery basis existing result dead s = (
    set_projection existing.id (refreshed_row basis existing result dead) s,
    record { created = false; decision = blocked_decision dead (blocked_status existing) },
  )

  abbrev none_status : Selection → Projection → ProjectionStatus
  none_status Selection.held q = ProjectionStatus.held
  none_status _ q = if is_retained q then ProjectionStatus.deleted else ProjectionStatus.converged

  abbrev row_status : Selection → Projection → Option EffectOperation → ProjectionStatus
  row_status selection q none = none_status selection q
  row_status selection q (some _) = ProjectionStatus.pending

  abbrev pub next_intent : ℕ → Option EffectOperation → ℕ
  next_intent intent none = intent
  next_intent intent (some _) = intent + 1

  abbrev pub evaluated_row :
      String
      → Projection
      → PolicyEvaluationResult
      → Option EffectOperation
      → Projection
      → Projection
  evaluated_row basis existing result operation q =
      let persistence = projection_persistence_for_result result (some existing) in
      record q {
        policy_revision = pass.policy.revision;
        source_basis_hash = some basis;
        recovery_operation = none;
        intent_sequence = next_intent existing.intent_sequence operation;
        desired_hash = persistence.desired_hash;
        desired_state = persistence.desired_state;
        status = row_status result.selection existing operation;
        safe_error_code = persistence.safe_error_code;
        updated_at = pass.now;
      }

  -- The row of a projection that there was none of; it is inserted where there is something to do.
  abbrev pub new_row : String → PolicyEvaluationResult → Projection
  new_row basis result =
      let persistence = projection_persistence_for_result result none in
      record {
        id = pass.new_projection_id;
        organization_id = organization;
        policy_id = pass.policy.policy_ref;
        policy_revision = pass.policy.revision;
        source_observation_id = observation.id;
        source_basis_hash = some basis;
        recovery_operation = none;
        recurrence_identity = observation.recurrence_identity;
        destination_calendar_id = pass.policy.destination_calendar_ref;
        destination_event_id = none;
        destination_etag = none;
        generation = 1;
        intent_sequence = 1;
        desired_hash = persistence.desired_hash;
        desired_state = persistence.desired_state;
        status = ProjectionStatus.pending;
        ownership =
            if is_held_selection result.selection
            then CopyOwnership.ambiguous
            else CopyOwnership.attached;
        last_success_at = none;
        last_verified_at = none;
        safe_error_code = persistence.safe_error_code;
        updated_at = pass.now;
      }
