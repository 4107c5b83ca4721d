-- ===== src/Sync/Effects/Execute.antt =====
-- server/src/sync/effects.ts: `lease`, `executeOneLocked` and `runBatch`.
use planipus.Common.{
  ℕ, String, Option, none, some, Bool, ◌&&◌, List, [], ◌∷◌, length, str_eq, if◌then◌else◌, any, ok,
  err,
}
use planipus.CalendarSync.Json.{codes}
use planipus.Sync.Store.{ProjectionStatus, Effect}
use planipus.Sync.Provider.{provider_error, CalendarProvider, M, ◌>>=◌, ◌>>◌, give, modify}
use planipus.Sync.Effects.Steps.{
  Env, LeasedEffect, is_held_by, update_projection, defer, supersede, fail,
}
use planipus.Sync.Effects.Attempt.{attempt_write}
use planipus.Sync.Effects.Lease.{lease}
use planipus.Sync.Effects.Rows.{
  EffectPolicyExecutionDisposition, execute, defer_paused, defer_revision, supersede_deleted,
  effect_policy_execution_disposition, PolicyRow, find_policy, authorizes_copying, TargetRow,
  find_target, is_available, target_of, source_observation_basis_hash, is_current_basis,
  connection_role_changed, target_unavailable, mark_role_changed, enqueue_reconcile,
}

module _ (env : Env) {R : Type 0} (provider : CalendarProvider R) (owner : String) where
  -- Another basis authorized the effect: it is dropped, and a new pass is scheduled.
  unfoldable pub drop_stale : LeasedEffect → M R (Unit {0})
  drop_stale effect = do
    supersede env owner effect "recovery_basis_changed"
    update_projection env effect.projection_id (λ q. record q {
      status = ProjectionStatus.failed;
      safe_error_code = some (codes "recovery_basis_changed");
      updated_at = env.now;
    })
    modify (enqueue_reconcile env effect)

  unfoldable pub execute_current : LeasedEffect → TargetRow → String → M R (Unit {0})
  execute_current effect row current =
      if is_current_basis effect row.projection current
      then attempt_write env provider owner effect (target_of row)
      else drop_stale effect

  unfoldable pub execute_target : LeasedEffect → Option TargetRow → M R (Unit {0})
  execute_target effect none = fail env owner effect (provider_error target_unavailable)
  execute_target effect (some row) =
      if is_available effect row
      then give (
          source_observation_basis_hash env.platform row.observation.observation_hash
            row.observation.tombstone)
        >>= execute_current effect row
      else fail env owner effect (provider_error target_unavailable)

  unfoldable pub execute_disposed :
      LeasedEffect → PolicyRow → EffectPolicyExecutionDisposition → M R (Unit {0})
  execute_disposed effect row defer_paused w = defer env owner effect "policy_paused" w
  execute_disposed effect row defer_revision w = defer env owner effect "policy_revision_changed" w
  execute_disposed effect row supersede_deleted w = supersede env owner effect "policy_deleted" w
  execute_disposed effect row execute w =
      if authorizes_copying row
      then execute_target effect (find_target effect w.store) w
      else (modify (mark_role_changed env effect)
            >> fail env owner effect (provider_error connection_role_changed))
          w

  -- Where there is no policy the target counts as unavailable.
  unfoldable pub execute_policy : LeasedEffect → Option PolicyRow → M R (Unit {0})
  execute_policy effect none = fail env owner effect (provider_error target_unavailable)
  execute_policy effect (some row) = execute_disposed effect row (
      effect_policy_execution_disposition row.policy.status row.policy.revision
        effect.policy_revision)

  unfoldable pub execute_one_locked : LeasedEffect → M R (Unit {0})
  execute_one_locked effect w =
      if any (λ e. str_eq e.organization_id effect.organization_id && is_held_by owner effect.id e)
        w.store.effects
      then execute_policy effect (find_policy effect w.store) w
      else (w, ok tt)

  -- The transaction: an error that leaves it undoes its statements, and not the provider's writes.
  unfoldable pub execute_one : LeasedEffect → M R (Unit {0})
  execute_one effect w =
      let (after, answer) = execute_one_locked effect w in
      elim answer [
        | ok u ↦ (after, ok u)
        | err error ↦ (record after { store = w.store }, err error)
      ]

  unfoldable pub execute_all : List LeasedEffect → M R (Unit {0})
  execute_all [] = give (ok tt)
  execute_all (effect ∷ effects) = execute_one effect >> execute_all effects

unfoldable pub run_batch :
    {R : Type 0} → Env → CalendarProvider R → String → (Effect → Bool) → ℕ → ℕ → M R ℕ
run_batch env provider owner locked limit lease_seconds w =
    let (effects, leased) = lease owner env.now locked limit lease_seconds w.store.effects in
    let started = record w { store = record (w.store) { effects = effects } } in
    (execute_all env provider owner leased >> give (ok (length leased))) started
