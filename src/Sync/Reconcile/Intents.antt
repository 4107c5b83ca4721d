-- ===== src/Sync/Reconcile/Intents.antt =====
-- server/src/sync/reconciliation.ts: the end of `reconcileObservation`, which records what is to be
-- written, and the whole of it.
use planipus.Common.{
  String, Option, none, some, Bool, true, false, ◌||◌, ◌∷◌, str_eq, if◌then◌else◌, any, is_some,
  Result, ok, ◌>>=◌,
}
use planipus.CalendarSync.Events.{SourceObservation, PolicyEvaluationResult}
use planipus.Sync.Provider.{EffectError}
use planipus.Sync.Reconcile.Projecting.{
  is_ambiguous_copy, is_destination_edit_hold, Pass, evaluation_input,
}
use planipus.CalendarSync.Json.{JsonValue, num, str, obj, member, no_members, sha256_canonical}
use planipus.CalendarSync.Evaluate.Decision.{evaluate_policy}
use planipus.Jobs.Queue.{JobState}
use planipus.Sync.Store.{EffectOperation, Projection, Effect, Observation, Store}
use planipus.Sync.Effects.Missing.{hashed}
use planipus.Sync.Effects.Rows.{source_observation_basis_hash}
use planipus.Sync.Effects.Steps.{set_projection}
use planipus.Sync.Reconcile.Observe.{
  PassDecision, Outcome, decision_of, effect_operation, operation_text, evaluated, nullable,
  find_existing, blocking_dead, candidate_id, refresh_recovery, evaluated_row, new_row,
}

module _ (pass : Pass) (organization : String) (observation : Observation) where
  abbrev pub intent_document : Projection → EffectOperation → JsonValue
  intent_document q operation = obj (
      member "version" (num 1) (
        member "policy_ref" (str pass.policy.policy_ref) (
          member "policy_revision" (num pass.policy.revision) (
            member "projection_ref" (str q.id) (
              member "generation" (num q.generation) (
                member "intent_sequence" (num q.intent_sequence) (
                  member "operation" (str (operation_text operation))
                    (member "desired_fingerprint" (nullable q.desired_hash) no_members))))))))

  -- The effect on the copy that the row `q` stands for.
  abbrev pub intended_effect : String → Projection → EffectOperation → String → Effect
  intended_effect basis q operation key = record {
    id = pass.new_effect_id;
    organization_id = organization;
    policy_id = pass.policy.policy_ref;
    projection_id = q.id;
    source_basis_hash = some basis;
    policy_revision = pass.policy.revision;
    operation = operation;
    idempotency_key = key;
    desired_state = q.desired_state;
    state = JobState.pending;
    attempt_count = 0;
    run_after = pass.now;
    lease_owner = none;
    lease_expires_at = none;
    ambiguous = false;
    safe_error_code = none;
    created_at = pass.now;
    updated_at = pass.now;
  }

  -- `onConflict(… doNothing())`: an effect whose key is taken is not inserted again.
  unfoldable pub insert_intent : Effect → PassDecision → Store → Store × Outcome
  insert_intent e decision s =
      if any (λ old. str_eq old.idempotency_key e.idempotency_key) s.effects
      then (s, record { created = false; decision = decision })
      else (record s { effects = e ∷ s.effects }, record { created = true; decision = decision })

  unfoldable pub send :
      String
      → Projection
      → PassDecision
      → EffectOperation
      → Store
      → Result EffectError (Store × Outcome)
  send basis q decision operation s = do
    key ←
        hashed
          (sha256_canonical pass.platform.nfc pass.platform.sha256 (intent_document q operation))
    ok (insert_intent (intended_effect basis q operation key) decision s)

  unfoldable pub reconcile_new :
      String
      → PolicyEvaluationResult
      → Option EffectOperation
      → Store
      → Result EffectError (Store × Outcome)
  reconcile_new basis result none s =
      ok (s, record { created = false; decision = decision_of result })
  reconcile_new basis result (some operation) s =
      let q = new_row pass organization observation basis result in
      send basis q (decision_of result) operation (record s { projections = q ∷ s.projections })

  unfoldable pub reconcile_evaluated :
      String
      → Projection
      → PolicyEvaluationResult
      → Option EffectOperation
      → Store
      → Result EffectError (Store × Outcome)
  reconcile_evaluated basis existing result none s = ok (
    set_projection existing.id
        (evaluated_row pass organization observation basis existing result none) s,
    record { created = false; decision = decision_of result },
  )
  reconcile_evaluated basis existing result (some operation) s =
      let set =
        evaluated_row pass organization observation basis existing result (some operation) in
      send basis (set existing) (decision_of result) operation (set_projection existing.id set s)

  -- The row waits for a decision, or for the recovery of an effect.
  abbrev pub is_blocked : Projection → Option Effect → Bool
  is_blocked q dead = is_some dead || is_ambiguous_copy q.ownership || is_destination_edit_hold q

  unfoldable pub reconcile_existing :
      String
      → Projection
      → Option Effect
      → PolicyEvaluationResult
      → Store
      → Result EffectError (Store × Outcome)
  reconcile_existing basis q dead result s =
      if is_blocked q dead
      then ok (refresh_recovery pass organization observation basis q result dead s)
      else reconcile_evaluated basis q result (effect_operation result.operation) s

  unfoldable pub reconcile_result :
      String
      → Option Projection
      → PolicyEvaluationResult
      → Store
      → Result EffectError (Store × Outcome)
  reconcile_result basis none result s =
      reconcile_new basis result (effect_operation result.operation) s
  reconcile_result basis (some q) result s =
      reconcile_existing basis q (blocking_dead pass organization observation q s) result s

  unfoldable pub evaluate_observation :
      SourceObservation → Option Projection → Result EffectError PolicyEvaluationResult
  evaluate_observation source existing = do
    input ←
        evaluation_input pass source (candidate_id pass organization observation existing) existing
    evaluated (evaluate_policy pass.platform input)

  unfoldable pub reconcile_observation :
      SourceObservation → Store → Result EffectError (Store × Outcome)
  reconcile_observation source s = do
    basis ←
        source_observation_basis_hash pass.platform observation.observation_hash
          observation.tombstone
    let existing = find_existing pass organization observation s
    result ← evaluate_observation source existing
    reconcile_result basis existing result s
