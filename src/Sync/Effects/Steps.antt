-- ===== src/Sync/Effects/Steps.antt =====
-- server/src/sync/effects.ts: the private methods that record an outcome. The calls of `new Date()` in
-- one transaction give one time.
use planipus.Common.{
  ℕ, ◌+◌, ◌-◌, ◌*◌, ◌^◌, min, String, Option, none, some, Bool, true, false, not, ◌&&◌, ◌||◌, ◌∷◌,
  leb, str_eq, opt_str_eq, if◌then◌else◌, any, Result, ok, err,
}
use planipus.CalendarSync.Json.{Text, codes}
use planipus.CalendarSync.Events.{DesiredCopy}
use planipus.CalendarSync.Platform.{Platform}
use planipus.Jobs.ErrorCode.{Thrown, safe_error_code}
use planipus.Jobs.Queue.{JobState, is_leased}
use planipus.Sync.Store.{
  EffectOperation, StoredCopy, document, malformed, effect_detail, ActorKind, ProjectionStatus,
  CopyOwnership, Projection, Effect, Store, update_where,
}
use planipus.Sync.Provider.{
  ProviderError, EffectError, provider_error, unexpected, thrown_of, M, ◌>>◌, modify,
}

-- What a transaction takes from outside: the time, new ids, hashes, `toLowerCase`, and the error of
-- `executeTakeFirstOrThrow` where no row is found, and the database's where a unique key is taken.
pub record Env : Type 0 where
  pub platform : Platform
  pub lower : Text → Text
  pub no_result : Thrown
  pub unique_violation : Thrown
  pub now : ℕ
  pub new_effect_id : String
  pub new_job_id : String

-- What `lease` hands out.
pub record LeasedEffect : Type 0 where
  pub id : String
  pub organization_id : String
  pub policy_id : String
  pub policy_revision : ℕ
  pub projection_id : String
  pub source_basis_hash : Option String
  pub operation : EffectOperation
  pub desired_state : Option StoredCopy
  pub attempt_count : ℕ
  pub ambiguous : Bool

abbrev pub is_held_by : String → String → Effect → Bool
is_held_by owner id e = str_eq e.id id && is_leased e.state && opt_str_eq e.lease_owner (some owner)

abbrev pub is_projection : String → Projection → Bool
is_projection id p = str_eq p.id id

abbrev pub is_delete : EffectOperation → Bool
is_delete EffectOperation.delete = true
is_delete _ = false

-- `requireDesiredCopy`
unfoldable pub require_desired_copy : Option StoredCopy → Result EffectError DesiredCopy
require_desired_copy (some (document desired)) = ok desired
require_desired_copy (some malformed) = err (
    provider_error (record {
      code = "invalid_desired_state";
      retryable = false;
      ambiguous = false;
      status = none;
    }))
require_desired_copy none = err (
    provider_error (record {
      code = "invalid_desired_state";
      retryable = false;
      ambiguous = false;
      status = none;
    }))

abbrev pub set_projection : String → (Projection → Projection) → Store → Store
set_projection id set s = record s {
  projections = update_where (is_projection id) set s.projections;
}

abbrev pub is_retryable : EffectError → Bool
is_retryable (provider_error e) = e.retryable
is_retryable (unexpected _) = true

abbrev pub is_ambiguous : EffectError → Bool
is_ambiguous (provider_error e) = e.ambiguous
is_ambiguous (unexpected _) = false

abbrev pub is_dead : LeasedEffect → EffectError → Bool
is_dead effect error = not (is_retryable error) || leb 10 effect.attempt_count

module _ (env : Env) where
  abbrev pub succeeded_projection :
      EffectOperation → Option String → Option String → Projection → Projection
  succeeded_projection operation event revision q =
      if is_delete operation
      then record q {
        recovery_operation = none;
        destination_event_id = none;
        destination_etag = none;
        generation = q.generation + 1;
        status = ProjectionStatus.deleted;
        last_success_at = some env.now;
        last_verified_at = none;
        safe_error_code = none;
        updated_at = env.now;
      }
      else record q {
        recovery_operation = none;
        destination_event_id = event;
        destination_etag = revision;
        status = ProjectionStatus.converged;
        ownership = CopyOwnership.attached;
        last_success_at = some env.now;
        last_verified_at = some env.now;
        safe_error_code = none;
        updated_at = env.now;
      }

  abbrev pub held_projection : ProviderError → Projection → Projection
  held_projection error q = record q {
    ownership = CopyOwnership.ambiguous;
    status = ProjectionStatus.held;
    safe_error_code = some (codes error.code);
    updated_at = env.now;
  }

module _ (env : Env) {R : Type 0} where
  -- An `update` of the effect that this owner holds, or the error that no row was found.
  unfoldable pub update_effect : String → String → (Effect → Effect) → M R (Unit {0})
  update_effect owner id set w =
      if any (is_held_by owner id) w.store.effects
      then (
        record w {
          store = record (w.store) {
            effects = update_where (is_held_by owner id) set w.store.effects;
          };
        },
        ok tt,
      )
      else (w, err (unexpected env.no_result))

  unfoldable pub update_projection : String → (Projection → Projection) → M R (Unit {0})
  update_projection id set w =
      if any (is_projection id) w.store.projections
      then (record w { store = set_projection id set w.store }, ok tt)
      else (w, err (unexpected env.no_result))

  unfoldable pub audit : LeasedEffect → String → String → Option (String × ℕ × ℕ) → M R (Unit {0})
  audit effect action reason repair = modify (λ s. record s {
    audit =
        record {
          organization_id = effect.organization_id;
          principal_id = none;
          actor_kind = ActorKind.sync;
          action = action;
          target_id = effect.projection_id;
          reason_code = reason;
          before_hash = none;
          after_hash = none;
          detail = effect_detail effect.id effect.operation repair;
        }
        ∷ s.audit;
  })

  -- A leased effect has at least the attempt that its lease counted, which is taken back.
  unfoldable pub defer : String → LeasedEffect → String → M R (Unit {0})
  defer owner effect reason = do
    update_effect owner effect.id (λ e. record e {
      state = JobState.retry;
      attempt_count = e.attempt_count - 1;
      lease_owner = none;
      lease_expires_at = none;
      run_after = env.now + 24 * 60 * 60000;
      ambiguous = false;
      safe_error_code = some (codes reason);
      updated_at = env.now;
    })
    audit effect "copy.deferred" reason none

  unfoldable pub supersede : String → LeasedEffect → String → M R (Unit {0})
  supersede owner effect reason = do
    update_effect owner effect.id (λ e. record e {
      state = JobState.succeeded;
      lease_owner = none;
      lease_expires_at = none;
      ambiguous = false;
      safe_error_code = some (codes reason);
      updated_at = env.now;
    })
    audit effect "copy.effect_superseded" reason none

  unfoldable pub succeed : String → LeasedEffect → Option String → Option String → M R (Unit {0})
  succeed owner effect event revision = do
    update_effect owner effect.id (λ e. record e {
      state = JobState.succeeded;
      lease_owner = none;
      lease_expires_at = none;
      ambiguous = false;
      safe_error_code = none;
      updated_at = env.now;
    })
    update_projection effect.projection_id
        (succeeded_projection env effect.operation event revision)
    audit effect (if is_delete effect.operation then "copy.deleted" else "copy.converged")
        "provider_write_succeeded" none

  unfoldable pub hold_ambiguous : String → LeasedEffect → ProviderError → M R (Unit {0})
  hold_ambiguous owner effect error = do
    update_effect owner effect.id (λ e. record e {
      state = JobState.dead;
      lease_owner = none;
      lease_expires_at = none;
      ambiguous = true;
      safe_error_code = some (codes error.code);
      updated_at = env.now;
    })
    update_projection effect.projection_id (held_projection env error)
    audit effect "copy.held"
        (if str_eq error.code "ownership_mismatch"
          then "destination_ownership_mismatch"
          else "provider_precondition_failed")
        none

  -- The last statement changes no row where the projection is gone.
  unfoldable pub fail : String → LeasedEffect → EffectError → M R (Unit {0})
  fail owner effect error = do
    update_effect owner effect.id (λ e. record e {
      state = if is_dead effect error then JobState.dead else JobState.retry;
      lease_owner = none;
      lease_expires_at = none;
      run_after = env.now + min 3600 (2 ^ min effect.attempt_count 10) * 1000;
      ambiguous = effect.ambiguous || is_ambiguous error;
      safe_error_code = some (safe_error_code env.lower (thrown_of error));
      updated_at = env.now;
    })
    modify (
        set_projection effect.projection_id (λ q. record q {
          status =
              if is_dead effect error then ProjectionStatus.failed else ProjectionStatus.retrying;
          safe_error_code = some (safe_error_code env.lower (thrown_of error));
          updated_at = env.now;
        }))
