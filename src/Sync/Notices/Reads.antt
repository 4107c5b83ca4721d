-- ===== src/Sync/Notices/Reads.antt =====
-- server/src/sync/notices.ts: `acknowledge`, and what `resolve` reads and tests.
use planipus.Common.{
  ℕ, String, Option, none, some, Bool, true, false, not, ◌&&◌, ◌||◌, ◌==◌, str_eq, opt_str_eq,
  if◌then◌else◌, find, Result, ok, err,
}
use planipus.CalendarSync.Json.{JsonValue, num, str, obj, member, no_members}
use planipus.CalendarSync.Events.{DesiredCopy}
use planipus.CalendarSync.DestinationEdits.{
  NoticeKind, copy_edit_reverted, copy_delete_restored, copy_edit_held, copy_delete_held,
}
use planipus.Sync.Store.{
  EffectOperation, PolicyStatus, Policy, Projection, NoticeStatus, SyncNotice, Store, is_policy,
  update_where,
}
use planipus.Sync.Provider.{EffectError}
use planipus.Sync.Effects.Steps.{Env}
use planipus.Sync.Effects.Missing.{has_hash}
use planipus.Sync.Reconcile.Observe.{operation_text, nullable}
use planipus.Sync.Reconcile.Projecting.{is_destination_edit_hold}
use planipus.Sync.Verification.Guards.{is_row}

-- The codes of `PolicyInputError`, or another error that leaves the transaction.
pub data NoticeError : Type 0 where
  not_found notice_not_resolvable hold_stale : NoticeError
  thrown : EffectError → NoticeError

-- Who resolves a notice, and the column `policy_hash`.
pub record Resolver : Type 0 where
  pub env : Env
  pub principal_id : String
  pub policy_hash : Policy → String

-- `HELD_NOTICE_KINDS.includes`
abbrev pub is_held_kind : NoticeKind → Bool
is_held_kind copy_edit_held = true
is_held_kind copy_delete_held = true
is_held_kind copy_edit_reverted = false
is_held_kind copy_delete_restored = false

abbrev pub is_resolved : NoticeStatus → Bool
is_resolved NoticeStatus.resolved = true
is_resolved _ = false

abbrev pub is_unread : NoticeStatus → Bool
is_unread NoticeStatus.unread = true
is_unread _ = false

abbrev pub is_deleted : PolicyStatus → Bool
is_deleted PolicyStatus.deleted = true
is_deleted _ = false

abbrev pub is_notice : String → String → SyncNotice → Bool
is_notice organization id n = str_eq n.organization_id organization && str_eq n.id id

unfoldable pub acknowledge : String → String → Store → Result NoticeError Store
acknowledge organization id s = elim (find (is_notice organization id) s.notices) [
  | none ↦ err not_found
  | some n ↦ ok (record s {
    notices =
        update_where (λ n. is_notice organization id n && is_unread n.status)
          (λ n. record n { status = NoticeStatus.acknowledged }) s.notices;
  })
]

-- The reads of `resolve`, each with the error where it finds nothing to go on with.
unfoldable pub open_notice : String → String → Store → Result NoticeError SyncNotice
open_notice organization id s = elim (find (is_notice organization id) s.notices) [
  | none ↦ err not_found
  | some n ↦
      if not (is_held_kind n.kind) || is_resolved n.status then err notice_not_resolvable else ok n
]

unfoldable pub live_policy : String → SyncNotice → Store → Result NoticeError Policy
live_policy organization n s =
    elim (find (λ p. is_policy organization n.policy_id p && not (is_deleted p.status))
      s.policies) [ none ↦ err not_found | some p ↦ ok p ]

unfoldable pub held_projection : String → SyncNotice → Store → Result NoticeError Projection
held_projection organization n s = elim (find (is_row organization n.projection_id) s.projections) [
  | none ↦ err hold_stale
  | some q ↦ if is_destination_edit_hold q then ok q else err hold_stale
]

-- The operation that waits, where the row is of the policy's revision.
abbrev pub waiting_operation : Policy → Projection → Result NoticeError EffectOperation
waiting_operation p q =
    if q.policy_revision == p.revision
    then elim q.recovery_operation [ none ↦ err hold_stale | some operation ↦ ok operation ]
    else err hold_stale

abbrev pub rethrow {ℓ} : {A : Type ℓ} → Result EffectError A → Result NoticeError A
rethrow (ok a) = ok a
rethrow (err e) = err (thrown e)

-- `!current || !projection.source_basis_hash || current !== projection.source_basis_hash`, negated.
abbrev pub is_same_basis : Option String → Option String → Bool
is_same_basis none stored = false
is_same_basis (some current) stored =
    has_hash (some current) && (has_hash stored && opt_str_eq stored (some current))

abbrev pub names_row : Policy → Projection → DesiredCopy → Bool
names_row p q desired =
    str_eq desired.provenance.policy_ref p.id
    && (str_eq desired.provenance.projection_ref q.id
        && desired.provenance.generation == q.generation)

unfoldable pub restore_key_document : Policy → Projection → ℕ → EffectOperation → JsonValue
restore_key_document p q intent operation = obj (
    member "version" (num 1) (
      member "kind" (str "destination_edit_hold_restore") (
        member "policy_ref" (str p.id) (
          member "policy_revision" (num p.revision) (
            member "projection_ref" (str q.id) (
              member "generation" (num q.generation) (
                member "intent_sequence" (num intent) (
                  member "operation" (str (operation_text operation))
                    (member "desired_fingerprint" (nullable q.desired_hash) no_members)))))))))
