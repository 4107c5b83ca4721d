-- ===== src/Policy/Recovery.antt =====
-- server/src/policy/service.ts: `retryBlocked`. An error of the transaction leaves the store as it was.
use Prim.Native.String
use planipus.Common.{
  List, [], ◌∷◌, ℕ, ◌+◌, String, Option, none, some, Bool, true, false, ◌&&◌, ◌==◌, any, str_eq,
  if◌then◌else◌, Result, ok, err, ◌>>=◌,
}
use planipus.CalendarSync.Json.{
  JsonValue, num, str, obj, member, no_members, codes, sha256_canonical,
}
use planipus.Jobs.Queue.{JobState}
use planipus.Sync.Store.{
  EffectOperation, ProjectionStatus, Projection, Effect, Policy, recovery_detail, Store,
  update_where,
}
use planipus.Sync.Provider.{unexpected}
use planipus.Sync.Effects.Steps.{set_projection}
use planipus.Sync.Effects.Missing.{hashed}
use planipus.Sync.Reconcile.Observe.{is_dead_state, operation_text, nullable}
use planipus.Sync.Notices.Reads.{is_same_basis}
use planipus.Policy.Requests.{
  PolicyError, thrown, Caller, actor_token, rethrow, revision_key, asked_policy, audit,
  enqueue_reconcile,
}
use planipus.Policy.Evidence.{
  source_basis_matches, blocked_rows, first_dead, source_basis, payload_matches, has_evidence,
  waits_for,
}

unfoldable pub recovery_key_document : Policy → Projection → ℕ → EffectOperation → JsonValue
recovery_key_document p q intent operation = obj (
    member "version" (num 1) (
      member "kind" (str "user_requested_ambiguous_recovery") (
        member "policy_ref" (str p.id) (
          member "policy_revision" (num p.revision) (
            member "projection_ref" (str q.id) (
              member "generation" (num q.generation) (
                member "intent_sequence" (num intent) (
                  member "operation" (str (operation_text operation))
                    (member "desired_fingerprint" (nullable q.desired_hash) no_members)))))))))

module _ (caller : Caller) (organization : String) (p : Policy) where
  abbrev pub replayed_effect : Effect → Effect
  replayed_effect e = record e {
    state = JobState.retry;
    attempt_count = 0;
    run_after = caller.env.now;
    lease_owner = none;
    lease_expires_at = none;
    ambiguous = true;
    safe_error_code = none;
    updated_at = caller.env.now;
  }

  abbrev pub superseded_code : Effect → String
  superseded_code dead =
      if dead.policy_revision == p.revision
      then "recovery_basis_changed"
      else "policy_revision_superseded"

  abbrev pub superseded_effect : Effect → Effect → Effect
  superseded_effect dead e = record e {
    state = JobState.succeeded;
    lease_owner = none;
    lease_expires_at = none;
    ambiguous = false;
    safe_error_code = some (codes (superseded_code dead));
    updated_at = caller.env.now;
  }

  -- `where id = … and state = 'dead'`
  abbrev pub is_dead_effect : Effect → Effect → Bool
  is_dead_effect dead e = str_eq e.id dead.id && is_dead_state e.state

  abbrev pub set_dead : Effect → (Effect → Effect) → Store → Store
  set_dead dead set s = record s { effects = update_where (is_dead_effect dead) set s.effects }

  abbrev pub retrying_row : Projection → Projection
  retrying_row q = record q {
    recovery_operation = none;
    status = ProjectionStatus.retrying;
    safe_error_code = none;
    updated_at = caller.env.now;
  }

  unfoldable pub replay : Effect → Projection → Store → Store
  replay dead q s = set_projection q.id retrying_row (set_dead dead replayed_effect s)

  abbrev pub changed_row : ProjectionStatus → Projection → Projection
  changed_row status q = record q {
    status = status;
    safe_error_code = some (codes "recovery_basis_changed");
    updated_at = caller.env.now;
  }

  -- A copy whose evidence changed waits for a new pass.
  unfoldable pub refresh :
      ProjectionStatus → String → Projection → Store → Result PolicyError (Store × Bool)
  refresh status key q s =
      enqueue_reconcile caller organization p (caller.new_job_id q.id) key
        (set_projection q.id (changed_row status) s)
      >>= λ out. ok (out.0, true)

  -- The row is left as it is, unless the effect that blocked it was superseded.
  abbrev pub refresh_superseded :
      String → Projection → Store → Option Effect → Result PolicyError (Store × Bool)
  refresh_superseded key q s none = ok (s, false)
  refresh_superseded key q s (some dead) = refresh ProjectionStatus.failed key q s

  abbrev pub recovery_text : String → Projection → Option Effect → String
  unfolding revision_key
  recovery_text kind q none = revision_key p (String.◌++◌ kind q.id)
  recovery_text kind q (some dead) = revision_key p (String.◌++◌ kind dead.id)

  abbrev pub stale_status : Option Effect → ProjectionStatus
  stale_status none = ProjectionStatus.held
  stale_status (some dead) = ProjectionStatus.failed

  abbrev pub recovery_effect : Projection → EffectOperation → String → Effect
  recovery_effect q operation key = record {
    id = caller.new_effect_id q.id;
    organization_id = organization;
    policy_id = p.id;
    projection_id = q.id;
    source_basis_hash = q.source_basis_hash;
    policy_revision = p.revision;
    operation = operation;
    idempotency_key = key;
    desired_state = q.desired_state;
    state = JobState.pending;
    attempt_count = 0;
    run_after = caller.env.now;
    lease_owner = none;
    lease_expires_at = none;
    ambiguous = true;
    safe_error_code = none;
    created_at = caller.env.now;
    updated_at = caller.env.now;
  }

  abbrev pub recovered_row : ℕ → Projection → Projection
  recovered_row intent q = record q {
    intent_sequence = intent;
    recovery_operation = none;
    status = ProjectionStatus.retrying;
    safe_error_code = none;
    updated_at = caller.env.now;
  }

  unfoldable pub write_recovery :
      Projection → EffectOperation → String → Store → Result PolicyError (Store × Bool)
  write_recovery q operation key s =
      if any (λ old. str_eq old.idempotency_key key) s.effects
      then err (thrown (unexpected caller.env.unique_violation))
      else ok (
        set_projection q.id (recovered_row (q.intent_sequence + 1))
            (record s { effects = recovery_effect q operation key ∷ s.effects }),
        true,
      )

  abbrev pub recovery_key : Projection → EffectOperation → Result PolicyError String
  recovery_key q operation = rethrow (
      hashed (
        sha256_canonical caller.env.platform.nfc caller.env.platform.sha256
          (recovery_key_document p q (q.intent_sequence + 1) operation)))

  unfoldable pub recover_checked :
      Projection
      → EffectOperation
      → Option Effect
      → Store
      → Bool
      → Result PolicyError (Store × Bool)
  unfolding revision_key
  recover_checked q operation superseded s false =
      refresh_superseded (revision_key p (String.◌++◌ ":recovery-payload:" q.id)) q s superseded
  recover_checked q operation superseded s true =
      recovery_key q operation >>= λ key. write_recovery q operation key s

  -- What is done for a row that is not replayed: `superseded` is the dead effect that blocked it.
  unfoldable pub recover_waiting :
      Projection
      → Option String
      → Option Effect
      → Store
      → Option EffectOperation
      → Result PolicyError (Store × Bool)
  unfolding revision_key
  recover_waiting q current superseded s none =
      refresh_superseded (recovery_text ":recovery:" q superseded) q s superseded
  recover_waiting q current superseded s (some operation) =
      if is_same_basis current q.source_basis_hash
      then (rethrow (has_evidence caller organization p q operation)
          >>= recover_checked q operation superseded s)
      else refresh (stale_status superseded) (revision_key p (String.◌++◌ ":recovery-basis:" q.id))
          q s

  unfoldable pub replay_or_recover :
      Projection → Option String → Effect → Store → Bool → Result PolicyError (Store × Bool)
  replay_or_recover q current dead s payload =
      if dead.policy_revision == p.revision
        && (source_basis_matches current dead.source_basis_hash q.source_basis_hash && payload)
      then ok (replay dead q s, true)
      else recover_waiting q current (some dead) (set_dead dead (superseded_effect dead) s)
          (waits_for caller organization p q (some dead))

  unfoldable pub retry_from :
      Projection → Store → Option String → Option Effect → Result PolicyError (Store × Bool)
  retry_from q s current none =
      recover_waiting q current none s (waits_for caller organization p q none)
  retry_from q s current (some dead) =
      rethrow (payload_matches caller organization p q dead) >>= replay_or_recover q current dead s

  -- The body of the loop, with whether the row counts as retried.
  unfoldable pub retry_row : Projection → Store → Result PolicyError (Store × Bool)
  retry_row q s = rethrow (source_basis caller organization q s) >>= λ current.
      retry_from q s current (first_dead caller organization q s)

  abbrev pub count_if : Bool → ℕ → ℕ
  count_if true n = n + 1
  count_if false n = n

  unfoldable pub retry_rows : List Projection → Store → ℕ → Result PolicyError (Store × ℕ)
  retry_rows [] s n = ok (s, n)
  retry_rows (q ∷ rows) s n = retry_row q s >>= λ out. retry_rows rows out.0 (count_if out.1 n)

module _ (caller : Caller) (organization : String) where
  unfoldable pub retry_blocked : String → Store → Result PolicyError (Store × ℕ)
  retry_blocked id s = do
    p ← asked_policy caller organization id s
    (after, retried) ← retry_rows caller organization p (blocked_rows caller organization id s) s 0
    ok (
      audit caller organization p "policy.recovery_requested"
          (recovery_detail retried (actor_token caller.actor_kind caller.actor_token_id)) after,
      retried,
    )
