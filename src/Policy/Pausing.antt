-- ===== src/Policy/Pausing.antt =====
-- server/src/policy/service.ts: `setPaused`. An error of the transaction leaves the store as it was; the
-- advisory locks change no row.
use planipus.Common.{
  String, Option, none, some, Bool, true, false, ◌&&◌, ◌==◌, str_eq, if◌then◌else◌, Result, ok,
  ◌>>=◌,
}
use planipus.CalendarSync.Json.{codes, Text}
use planipus.CalendarSync.Evaluate.Decision.{same_text}
use planipus.Jobs.Queue.{JobState}
use planipus.Sync.Store.{PolicyStatus, Policy, Effect, status_detail, Store, update_where}
use planipus.Policy.Requests.{
  PolicyError, Caller, actor_token, revision_key, asked_policy, audit, enqueue_reconcile,
}
use planipus.Policy.Calendars.{
  Identities, require_no_conflict_response_rule, load_policy_calendar_capabilities,
  require_policy_calendars, require_same_identities,
}

abbrev pub is_retry : JobState → Bool
is_retry JobState.retry = true
is_retry _ = false

abbrev pub has_code : String → Option Text → Bool
has_code code none = false
has_code code (some text) = same_text (codes code) text

module _ (caller : Caller) (identities : Identities) (organization : String) where
  -- What a policy must meet to run again.
  unfoldable pub require_resumable : Policy → Store → Result PolicyError (Unit {0})
  require_resumable p s = require_no_conflict_response_rule identities organization p >>= λ _.
      require_policy_calendars identities organization p
        (load_policy_calendar_capabilities identities organization p s)
      >>= require_same_identities identities organization p

  abbrev pub set_status : Policy → PolicyStatus → Store → Store
  set_status p status s = record s {
    policies =
        update_where (λ q. str_eq q.id p.id)
          (λ q. record q { status = status; updated_at = caller.env.now }) s.policies;
  }

  abbrev pub is_paused_effect : Policy → Effect → Bool
  is_paused_effect p e =
      str_eq e.policy_id p.id
      && (e.policy_revision == p.revision
          && (is_retry e.state && has_code "policy_paused" e.safe_error_code))

  abbrev pub released : Effect → Effect
  released e = record e {
    run_after = caller.env.now;
    safe_error_code = none;
    updated_at = caller.env.now;
  }

  abbrev pub release_paused : Policy → Store → Store
  release_paused p s = record s { effects = update_where (is_paused_effect p) released s.effects }

  abbrev pub status_change : Policy → PolicyStatus → String → Store → Store
  status_change p status action =
      audit caller organization p action
        (status_detail p.status status (actor_token caller.actor_kind caller.actor_token_id))

  unfoldable pub resume : Policy → Store → Result PolicyError Store
  unfolding revision_key
  resume p s = do
    checked ← require_resumable p s
    queued ←
        enqueue_reconcile caller organization p caller.env.new_job_id (revision_key p String.[]) (
          status_change p PolicyStatus.active "policy.resumed"
            (release_paused p (set_status p PolicyStatus.active s)))
    ok queued.0

  unfoldable pub pause : Policy → Store → Result PolicyError Store
  pause p s =
      ok (status_change p PolicyStatus.paused "policy.paused" (set_status p PolicyStatus.paused s))

  unfoldable pub set_paused : Bool → String → Store → Result PolicyError Store
  set_paused paused id s =
      asked_policy caller organization id s >>= λ p. if paused then pause p s else resume p s
