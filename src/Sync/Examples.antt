-- ===== src/Sync/Examples.antt =====
-- Theorems on reconciliation and the effect executor at concrete stores: one observation, with and
-- without a copy, and one due effect on it.
use mathlib.Core.List.{Memᴰ}
use planipus.Common.{inl, ◌≤◌, ◌≡◌, refl, ◌⊎◌, String, true, false, [], ◌∷◌, length, map, All, ok}
use planipus.CalendarSync.Samples.{evaluation, sample, source_event, busy_copy}
use planipus.Sync.Store.{EffectOperation}
use planipus.Sync.Effects.Steps.{require_desired_copy}
use planipus.Sync.Effects.Missing.{event_belongs_to_projection}
use planipus.Sync.Effects.Lease.{lease}
use planipus.Sync.Effects.Execute.{execute_one}
use planipus.Sync.Effects.Attempt.{belongs, event_id, run_operation}
use planipus.Sync.Effects.Remote.{IsAuthorized, execute_one-IsAuthorized}
use planipus.Sync.Effects.Order.{IsFirst, lease-IsFirst}
use planipus.Sync.Effects.Foreign.{IsHeldBack, run_operation-foreign}
use planipus.Sync.Effects.Rows.{source_observation_basis_hash}
use planipus.Sync.Reconcile.Projecting.{
  is_destination_edit_hold, evaluation_input, projection_persistence_for_result,
}
use planipus.Sync.Reconcile.Observe.{blocking_dead, refresh_recovery}
use planipus.Sync.Reconcile.Intents.{
  insert_intent, send, reconcile_new, reconcile_existing, reconcile_result, evaluate_observation,
  reconcile_observation,
}
use planipus.Sync.Reconcile.Recording.{KeepsPlaces, Leaves}
use planipus.Sync.Reconcile.Run.{reconcile}
use planipus.Sync.Reconcile.Outcome.{Answers, reconcile-Answers}
use planipus.Sync.Reconcile.Authority.{
  reconcile_observation-KeepsPlaces, reconcile_observation-Leaves, reconcile_observation-blocked,
}
use planipus.Sync.Samples.{
  dead_effect, present, iso, pass, observation, empty_store, first_effect, planned, planned_outcome,
  retained_row, stuck, refreshed, refreshed_outcome, env, stranger, calendar, granted, world,
  target, unlocked, documents, ids,
}

planned_result :
    reconcile_observation pass "org" observation source_event empty_store
    ≡ ok (planned, planned_outcome)
unfolding evaluation reconcile_observation evaluate_observation evaluation_input reconcile_result
    reconcile_new send insert_intent source_observation_basis_hash projection_persistence_for_result
planned_result = refl

refreshed_result :
    reconcile_observation pass "org" observation source_event stuck
    ≡ ok (refreshed, refreshed_outcome)
unfolding evaluation reconcile_observation evaluate_observation evaluation_input reconcile_result
    reconcile_existing refresh_recovery blocking_dead source_observation_basis_hash
    is_destination_edit_hold
refreshed_result = refl

reconcile_observation-KeepsPlaces_example : KeepsPlaces pass "org" observation empty_store planned
reconcile_observation-KeepsPlaces_example =
    reconcile_observation-KeepsPlaces pass "org" observation source_event empty_store
      (planned, planned_outcome) planned_result

reconcile_observation-Leaves_example :
    (basis : String) × (source_observation_basis_hash sample "h1" false ≡ ok basis)
    × Leaves pass "org" observation basis empty_store planned true
reconcile_observation-Leaves_example =
    reconcile_observation-Leaves pass "org" observation source_event empty_store
      (planned, planned_outcome) planned_result

reconcile_observation-blocked_example :
    (refreshed.effects ≡ stuck.effects)
    × (refreshed_outcome.created ≡ false)
    × (map (λ r. r.intent_sequence) refreshed.projections
        ≡ map (λ r. r.intent_sequence) stuck.projections)
reconcile_observation-blocked_example =
    reconcile_observation-blocked pass "org" observation source_event stuck
      (refreshed, refreshed_outcome) retained_row refl
      (inl (dead_effect, Memᴰ.head refl, refl, refl, refl)) refreshed_result

execute_one-IsAuthorized_example :
    ((execute_one env calendar "w1" granted world).0.remote ≡ 0)
    ⊎ IsAuthorized sample "w1" granted world.store
execute_one-IsAuthorized_example = execute_one-IsAuthorized env calendar "w1" granted world

lease-IsFirst_example :
    (length (lease "w1" present unlocked 10 30 (first_effect ∷ [])).1 ≤ 10)
    × All
        (IsFirst "w1" present unlocked 10 30 (first_effect ∷ []))
        (lease "w1" present unlocked 10 30 (first_effect ∷ [])).1
lease-IsFirst_example = lease-IsFirst "w1" present unlocked 10 30 (first_effect ∷ [])

stranger-belongs : belongs env granted target stranger ≡ false
unfolding belongs event_belongs_to_projection
stranger-belongs = refl

granted-has_copy : require_desired_copy granted.desired_state ≡ ok busy_copy
unfolding require_desired_copy projection_persistence_for_result
granted-has_copy = refl

run_operation-foreign_example :
    IsHeldBack env calendar "w1" granted target "token" world stranger 0 stranger-belongs
      (run_operation env calendar "w1" granted target "token" EffectOperation.create world)
run_operation-foreign_example =
    run_operation-foreign env calendar "w1" granted target "token" world stranger 0 stranger-belongs
      EffectOperation.create refl refl
      (inl (event_id env granted target, refl, (busy_copy, granted-has_copy), refl))

reconcile-Answers_example :
    Answers (reconcile sample iso present ids documents "org" "p1" empty_store)
reconcile-Answers_example =
    reconcile-Answers sample iso present ids documents "org" "p1" empty_store
