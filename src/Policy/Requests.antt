-- ===== src/Policy/Requests.antt =====
-- server/src/policy/service.ts: who asks, the policy that is asked for, and `requestReconcile`. An error
-- of a transaction leaves the store as it was.
use Prim.Native.String
use planipus.Common.{
  String, Option, none, some, Bool, ◌∷◌, find, is_some, str_eq, if◌then◌else◌, Result, ok, err,
  ◌>>=◌,
}
use planipus.CalendarSync.Json.{str, obj, member, no_members}
use planipus.Jobs.Queue.{Job, QueueError, new_job, enqueue}
use planipus.Sync.Store.{
  Policy, Projection, AuditDetail, reconcile_detail, ActorKind, Store, is_policy,
}
use planipus.Sync.Provider.{EffectError}
use planipus.Sync.Effects.Steps.{Env}
use planipus.Sync.Effects.Missing.{decimal_text}
use planipus.Sync.Notices.Reads.{is_deleted}

-- The codes of `PolicyInputError`, or another error that leaves the transaction.
pub data PolicyError : Type 0 where
  invalid_request not_found no_copy_rule_conflict calendar_capability same_provider_calendar
        connection_role_changed :
      PolicyError
  thrown : EffectError → PolicyError
  refused : QueueError → PolicyError

-- What a request takes from outside: the time and the platform, `isUuid`, who asks, the column
-- `policy_hash`, the hash of a stored document that is no copy by the row it stands in, and the new ids,
-- which are found by the id of the projection here.
pub record Caller : Type 0 where
  pub env : Env
  pub is_uuid : String → Bool
  pub principal_id : String
  pub actor_kind : ActorKind
  pub actor_token_id : Option String
  pub policy_hash : Policy → String
  pub other_hash : Projection → Result EffectError String
  pub new_effect_id : String → String
  pub new_job_id : String → String

-- `auditActorDetail`: the token that is named.
abbrev pub actor_token : ActorKind → Option String → Option String
actor_token ActorKind.api_token (some token) = if str_eq token "" then none else some token
actor_token _ _ = none

abbrev pub rethrow {ℓ} : {A : Type ℓ} → Result EffectError A → Result PolicyError A
rethrow (ok a) = ok a
rethrow (err e) = err (thrown e)

-- `policy:${id}:revision:${policy.revision}`, in front of `rest`.
unfoldable pub revision_key : Policy → String → String
unfolding decimal_text
revision_key p rest =
    String.◌++◌ "policy:"
      (String.◌++◌ p.id (String.◌++◌ ":revision:" (decimal_text 16 p.revision rest)))

module _ (caller : Caller) (organization : String) where
  -- The policy that a request is on.
  unfoldable pub asked_policy : String → Store → Result PolicyError Policy
  asked_policy id s =
      if caller.is_uuid id
      then elim (find (is_policy organization id) s.policies) [
        | none ↦ err not_found
        | some p ↦ if is_deleted p.status then err not_found else ok p
      ]
      else err invalid_request

  abbrev pub audit : Policy → String → AuditDetail → Store → Store
  audit p action detail s = record s {
    audit =
        record {
          organization_id = organization;
          principal_id = some caller.principal_id;
          actor_kind = caller.actor_kind;
          action = action;
          target_id = p.id;
          reason_code = "user_command";
          before_hash = some (caller.policy_hash p);
          after_hash = some (caller.policy_hash p);
          detail = detail;
        }
        ∷ s.audit;
  }

  abbrev pub reconcile_job : Policy → String → String → Job
  reconcile_job p id key =
      new_job id organization "reconcile_policy" key
        (obj (member "policy_id" (str p.id) no_members)) caller.env.now caller.env.now

  -- `jobs.enqueue`, with the id of the job where one is made.
  unfoldable pub enqueue_reconcile :
      Policy → String → String → Store → Result PolicyError (Store × Option String)
  enqueue_reconcile p id key s = elim (enqueue (reconcile_job p id key) s.jobs) [
    | err e ↦ err (refused e)
    | ok (jobs, job) ↦ ok (record s { jobs = jobs }, job)
  ]

  unfoldable pub request_reconcile : String → Store → Result PolicyError (Store × Option String)
  unfolding revision_key
  request_reconcile id s = do
    p ← asked_policy id s
    (after, job) ← enqueue_reconcile p caller.env.new_job_id (revision_key p String.[]) s
    ok (
      audit p "policy.reconcile_requested"
          (reconcile_detail (is_some job) (actor_token caller.actor_kind caller.actor_token_id))
          after,
      job,
    )
