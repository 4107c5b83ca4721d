-- ===== src/Sync/Effects/Rows.antt =====
-- server/src/sync/effects.ts: the rows that `executeOneLocked` reads, and its tests.
use Prim.Native.String
use planipus.Common.{
  List, ℕ, String, Option, none, some, Bool, false, not, ◌&&◌, ◌==◌, str_eq, opt_str_eq,
  if◌then◌else◌, find, Result, ok, err,
}
use planipus.CalendarSync.Platform.{Platform}
use planipus.CalendarSync.Json.{
  JsonValue, num, bool, str, obj, member, no_members, codes, sha256_canonical,
}
use planipus.Jobs.Queue.{Job, QueueError, new_job, enqueue}
use planipus.Sync.Store.{
  PolicyStatus, Policy, Endpoint, Connection, Observation, Projection, Store, is_policy,
  is_active_status, is_connected, is_source_role, is_destination_role, find_endpoint,
  find_connection, update_where,
}
use planipus.Sync.Provider.{ProviderError, EffectError}
use planipus.Sync.Effects.Steps.{Env, LeasedEffect}
use planipus.Sync.Effects.Missing.{Target, decimal_text, hashed}

pub data EffectPolicyExecutionDisposition : Type 0 where
  execute defer_paused defer_revision supersede_deleted : EffectPolicyExecutionDisposition

unfoldable pub effect_policy_execution_disposition :
    PolicyStatus → ℕ → ℕ → EffectPolicyExecutionDisposition
effect_policy_execution_disposition PolicyStatus.deleted current revision = supersede_deleted
effect_policy_execution_disposition PolicyStatus.paused current revision = defer_paused
effect_policy_execution_disposition PolicyStatus.active current revision =
    if current == revision then execute else defer_revision

-- The row `policy` of `executeOneLocked`: the policy with its source calendar and connection.
pub record PolicyRow : Type 0 where
  pub policy : Policy
  pub source : Endpoint
  pub connection : Connection

abbrev pub join {ℓ} : {A B : Type ℓ} → Option A → (A → Option B) → Option B
join none f = none
join (some a) f = f a

unfoldable pub find_policy : LeasedEffect → Store → Option PolicyRow
find_policy effect s =
    join (find (is_policy effect.organization_id effect.policy_id) s.policies) (λ policy.
      join (find_endpoint policy.source_calendar_id s) (λ source.
        join (find_connection source.connection_id s) (λ connection.
          some (record { policy = policy; source = source; connection = connection }))))

abbrev pub authorizes_copying : PolicyRow → Bool
authorizes_copying row =
    row.source.readable
    && is_connected row.connection.status
    && is_source_role row.connection.intended_role

-- The row `target`: the projection with its observation, calendar and connection.
pub record TargetRow : Type 0 where
  pub projection : Projection
  pub observation : Observation
  pub calendar : Endpoint
  pub connection : Connection

abbrev pub is_target : LeasedEffect → Projection → Bool
is_target effect q =
    str_eq q.organization_id effect.organization_id
    && str_eq q.id effect.projection_id
    && str_eq q.policy_id effect.policy_id

unfoldable pub find_target : LeasedEffect → Store → Option TargetRow
find_target effect s = join (find (is_target effect) s.projections) (λ q.
    join (find (λ o. str_eq o.id q.source_observation_id) s.observations) (λ observation.
      join (find_endpoint q.destination_calendar_id s) (λ calendar.
        join (find_connection calendar.connection_id s) (λ connection. some (record {
          projection = q;
          observation = observation;
          calendar = calendar;
          connection = connection;
        })))))

abbrev pub is_available : LeasedEffect → TargetRow → Bool
is_available effect row =
    str_eq row.projection.policy_id effect.policy_id
    && is_connected row.connection.status
    && row.calendar.writable
    && is_destination_role row.connection.intended_role

abbrev pub target_of : TargetRow → Target
target_of row = record {
  projection_id = row.projection.id;
  generation = row.projection.generation;
  intent_sequence = row.projection.intent_sequence;
  destination_event_id = row.projection.destination_event_id;
  destination_etag = row.projection.destination_etag;
  desired_hash = row.projection.desired_hash;
  desired_state = row.projection.desired_state;
  policy_revision = row.projection.policy_revision;
  calendar_remote_id = row.calendar.remote_id;
  connection_id = row.calendar.connection_id;
  provider = row.connection.provider;
}

-- server/src/sync/basis.ts: `sourceObservationBasisHash`
abbrev pub basis_document : String → Bool → JsonValue
basis_document observation_hash tombstone = obj (
    member "version" (num 1) (
      member "observation_hash" (str observation_hash)
        (member "tombstone" (bool tombstone) no_members)))

unfoldable pub source_observation_basis_hash : Platform → String → Bool → Result EffectError String
unfolding sha256_canonical
source_observation_basis_hash p observation_hash tombstone =
    hashed (sha256_canonical p.nfc p.sha256 (basis_document observation_hash tombstone))

-- The effect's basis is the projection's and the current one, and is not empty.
abbrev pub is_current_basis : LeasedEffect → Projection → String → Bool
is_current_basis effect q current = elim effect.source_basis_hash [
  | none ↦ false
  | some basis ↦
      not (str_eq basis "") && opt_str_eq q.source_basis_hash (some basis) && str_eq basis current
]

abbrev pub connection_role_changed : ProviderError
connection_role_changed = record {
  code = "connection_role_changed";
  retryable = false;
  ambiguous = false;
  status = none;
}

abbrev pub target_unavailable : ProviderError
target_unavailable = record {
  code = "target_unavailable";
  retryable = false;
  ambiguous = false;
  status = none;
}

abbrev pub with_jobs : Store → Result QueueError (List Job × Option String) → Store
with_jobs s (ok (jobs, _)) = record s { jobs = jobs }
with_jobs s (err _) = s

module _ (env : Env) (effect : LeasedEffect) where
  abbrev pub mark_role_changed : Store → Store
  mark_role_changed s = record s {
    policies =
        update_where
          (λ q. is_policy effect.organization_id effect.policy_id q && is_active_status q.status)
          (λ q. record q {
            safe_error_code = some (codes "connection_role_changed");
            updated_at = env.now;
          })
          s.policies;
  }

  abbrev pub recovery_key : String
  unfolding decimal_text
  recovery_key = String.◌++◌ "policy:" (
      String.◌++◌ effect.policy_id (
        String.◌++◌ ":revision:"
          (decimal_text 16 effect.policy_revision (String.◌++◌ ":recovery-basis:" effect.id))))

  unfoldable pub requeued : List Job → Result QueueError (List Job × Option String)
  requeued = enqueue (
      new_job env.new_job_id effect.organization_id "reconcile_policy" recovery_key
        (obj (member "policy_id" (str effect.policy_id) no_members)) env.now env.now)

  unfoldable pub enqueue_reconcile : Store → Store
  enqueue_reconcile s = with_jobs s (requeued s.jobs)
