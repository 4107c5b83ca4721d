-- ===== src/Sync/Notices/Resolve.antt =====
-- server/src/sync/notices.ts: `resolve`, `finishNotice` and `audit`.
use Prim.Native.String
use planipus.Common.{
  List, ℕ, ◌+◌, String, Option, none, some, true, ◌&&◌, ◌∷◌, str_eq, opt_str_eq, if◌then◌else◌, any,
  find, Result, ok, err, ◌>>=◌,
}
use planipus.CalendarSync.Json.{str, obj, member, no_members, sha256_canonical}
use planipus.Jobs.Queue.{JobState, Job, QueueError, new_job, enqueue}
use planipus.Sync.Store.{
  EffectOperation, document, malformed, Policy, ProjectionStatus, CopyOwnership, Projection, Effect,
  NoticeStatus, NoticeResolution, restore, keep_and_detach, no_detail, ActorKind, Store,
  update_where,
}
use planipus.Sync.Provider.{EffectError, unexpected}
use planipus.Sync.Effects.Steps.{set_projection}
use planipus.Sync.Effects.Missing.{decimal_text, hashed, hash_copy, has_hash}
use planipus.Sync.Effects.Rows.{source_observation_basis_hash, with_jobs}
use planipus.Sync.Notices.Reads.{
  NoticeError, thrown, Resolver, is_notice, open_notice, live_policy, held_projection,
  waiting_operation, rethrow, is_same_basis, names_row, restore_key_document, hold_stale,
}

-- `resolve` within its transaction: the statements before a `throw` have their effect here.
abbrev pub Step : Type 0
Step = Store × Result NoticeError (Unit {0})

module _ (resolver : Resolver) (organization : String) (notice_id : String) where
  abbrev pub current_basis : Projection → Store → Result EffectError (Option String)
  current_basis q s =
      elim (find (λ o. str_eq o.organization_id organization && str_eq o.id q.source_observation_id)
        s.observations) [
          | none ↦ ok none
          | some o ↦
              source_observation_basis_hash resolver.env.platform o.observation_hash o.tombstone
              >>= λ hash. ok (some hash)
        ]

  -- The tests of the stored copy.
  unfoldable pub evidence : Policy → Projection → EffectOperation → Result NoticeError (Unit {0})
  evidence p q EffectOperation.delete = elim q.desired_hash [
    | some hash ↦ err hold_stale
    | none ↦ elim q.desired_state [ none ↦ ok tt | some stored ↦ err hold_stale ]
  ]
  evidence p q operation = elim q.desired_state [
    | none ↦ err hold_stale
    | some stored ↦ elim stored [
      | malformed ↦ err hold_stale
      | document desired ↦
          if has_hash q.desired_hash && names_row p q desired
          then (rethrow (hash_copy resolver.env desired) >>= λ hash.
              if opt_str_eq q.desired_hash (some hash) then ok tt else err hold_stale)
          else err hold_stale
    ]
  ]

  abbrev pub finish_notice : NoticeResolution → Store → Store
  finish_notice resolution s = record s {
    notices =
        update_where (is_notice organization notice_id)
          (λ n. record n { status = NoticeStatus.resolved; resolution = some resolution })
          s.notices;
  }

  abbrev pub audit : Policy → String → String → String → Store → Store
  audit p projection action reason s = record s {
    audit =
        record {
          organization_id = organization;
          principal_id = some resolver.principal_id;
          actor_kind = ActorKind.user;
          action = action;
          target_id = projection;
          reason_code = reason;
          before_hash = some (resolver.policy_hash p);
          after_hash = some (resolver.policy_hash p);
          detail = no_detail;
        }
        ∷ s.audit;
  }

  abbrev pub detached_row : Projection → Projection
  detached_row q = record q {
    ownership = CopyOwnership.detached;
    status = ProjectionStatus.converged;
    recovery_operation = none;
    safe_error_code = none;
    updated_at = resolver.env.now;
  }

  unfoldable pub keep_and_detach_copy : Policy → Projection → Store → Store
  keep_and_detach_copy p q s =
      audit p q.id "copy.detached" "destination_edit_kept"
        (finish_notice keep_and_detach (set_projection q.id detached_row s))

  abbrev pub restore_effect : Policy → Projection → EffectOperation → String → Effect
  restore_effect p q operation key = record {
    id = resolver.env.new_effect_id;
    organization_id = organization;
    policy_id = p.id;
    projection_id = q.id;
    source_basis_hash = q.source_basis_hash;
    policy_revision = p.revision;
    operation = operation;
    idempotency_key = key;
    desired_state = q.desired_state;
    state = JobState.pending;
    attempt_count = 0;
    run_after = resolver.env.now;
    lease_owner = none;
    lease_expires_at = none;
    ambiguous = true;
    safe_error_code = none;
    created_at = resolver.env.now;
    updated_at = resolver.env.now;
  }

  abbrev pub restored_row : ℕ → Projection → Projection
  restored_row intent q = record q {
    intent_sequence = intent;
    recovery_operation = none;
    status = ProjectionStatus.retrying;
    safe_error_code = none;
    updated_at = resolver.env.now;
  }

  unfoldable pub write_restore : Policy → Projection → EffectOperation → String → Store → Step
  write_restore p q operation key s =
      if any (λ old. str_eq old.idempotency_key key) s.effects
      then (s, err (thrown (unexpected resolver.env.unique_violation)))
      else (
        audit p q.id "copy.restore_requested" "destination_edit_restored" (
            finish_notice restore (
              set_projection q.id (restored_row (q.intent_sequence + 1))
                (record s { effects = restore_effect p q operation key ∷ s.effects }))),
        ok tt,
      )

  abbrev pub key_of : Policy → Projection → EffectOperation → Result NoticeError String
  key_of p q operation = rethrow (
      hashed (
        sha256_canonical resolver.env.platform.nfc resolver.env.platform.sha256
          (restore_key_document p q (q.intent_sequence + 1) operation)))

  abbrev pub written :
      Policy → Projection → EffectOperation → Store → Result NoticeError String → Step
  written p q operation s (err e) = (s, err e)
  written p q operation s (ok key) = write_restore p q operation key s

  abbrev pub notice_job_key : Policy → String
  unfolding decimal_text
  notice_job_key p = String.◌++◌ "policy:" (
      String.◌++◌ p.id (
        String.◌++◌ ":revision:"
          (decimal_text 16 p.revision (String.◌++◌ ":notice-basis:" notice_id))))

  unfoldable pub requeued : Policy → Store → Result QueueError (List Job × Option String)
  requeued p s =
      enqueue
        (new_job resolver.env.new_job_id organization "reconcile_policy" (notice_job_key p)
          (obj (member "policy_id" (str p.id) no_members)) resolver.env.now resolver.env.now)
        s.jobs

  -- The source changed: a job is queued, and then the error is thrown.
  abbrev pub stale_basis : Policy → Store → Step
  stale_basis p s = (with_jobs s (requeued p s), err hold_stale)

  unfoldable pub restore_current : Policy → Projection → EffectOperation → Store → Step
  restore_current p q operation s =
      written p q operation s (evidence p q operation >>= λ _. key_of p q operation)

  unfoldable pub restore_based :
      Policy → Projection → EffectOperation → Store → Result EffectError (Option String) → Step
  restore_based p q operation s (err e) = (s, err (thrown e))
  restore_based p q operation s (ok current) =
      if is_same_basis current q.source_basis_hash
      then restore_current p q operation s
      else stale_basis p s

  unfoldable pub restore_waiting :
      Policy → Projection → Store → Result NoticeError EffectOperation → Step
  restore_waiting p q s (err e) = (s, err e)
  restore_waiting p q s (ok operation) = restore_based p q operation s (current_basis q s)

  unfoldable pub resolve_held : NoticeResolution → Policy → Projection → Store → Step
  resolve_held keep_and_detach p q s = (keep_and_detach_copy p q s, ok tt)
  resolve_held restore p q s = restore_waiting p q s (waiting_operation p q)

  -- The rows that `resolve` decides on.
  unfoldable pub find_held : Store → Result NoticeError (Policy × Projection)
  find_held s = do
    n ← open_notice organization notice_id s
    p ← live_policy organization n s
    q ← held_projection organization n s
    ok (p, q)

  unfoldable pub resolve_locked : NoticeResolution → Store → Step
  resolve_locked action s = elim (find_held s) [
    | err e ↦ (s, err e)
    | ok held ↦ resolve_held action held.0 held.1 s
  ]

  -- The transaction: an error that leaves it undoes its statements.
  unfoldable pub resolve : NoticeResolution → Store → Step
  resolve action s =
      let (after, answer) = resolve_locked action s in
      elim answer [ ok u ↦ (after, ok u) | err e ↦ (s, err e) ]
