-- ===== src/Sync/Verification/Repair.antt =====
-- server/src/sync/verification.ts: `scheduleRepair`, `holdDestinationEdit`, `holdOwnershipMismatch` and
-- `audit`. An error of a transaction leaves the store as it was.
use planipus.Common.{
  ℕ, ◌+◌, String, Option, none, some, Bool, true, false, ◌∷◌, str_eq, if◌then◌else◌, any, Result,
  ok, err, ◌>>=◌,
}
use planipus.CalendarSync.Json.{
  JsonValue, num, str, obj, member, no_members, codes, sha256_canonical,
}
use planipus.CalendarSync.Events.{DesiredCopy}
use planipus.CalendarSync.DestinationEdits.{
  NoticeKind, EditErrorCode, destination_missing, destination_drift,
}
use planipus.Jobs.Queue.{JobState}
use planipus.Sync.Store.{
  EffectOperation, document, ProjectionStatus, CopyOwnership, Projection, Effect, AuditDetail,
  verification_detail, ActorKind, Store,
}
use planipus.Sync.Provider.{EffectError, unexpected}
use planipus.Sync.Effects.Steps.{set_projection}
use planipus.Sync.Effects.Missing.{hashed, hash_copy}
use planipus.Sync.Verification.Decision.{
  Verifier, VerificationTarget, CopyEdit, missing_copy, drifted_copy, edit_kind, edit_operation,
  edit_operation_text, edit_error_text, destination_repair_generation,
  notice_detail_for_desired_copy, record_sync_notice,
}
use planipus.Sync.Verification.Guards.{find_current, recovery_copy}

unfoldable pub repair_key_document : VerificationTarget → ℕ → ℕ → CopyEdit → String → JsonValue
repair_key_document target generation intent edit desired_hash = obj (
    member "version" (num 1) (
      member "kind" (str "destination_verification_repair") (
        member "policy_ref" (str target.policy_id) (
          member "policy_revision" (num target.policy_revision) (
            member "projection_ref" (str target.projection_id) (
              member "generation" (num generation) (
                member "intent_sequence" (num intent) (
                  member "operation" (str (edit_operation_text edit))
                    (member "desired_fingerprint" (str desired_hash) no_members)))))))))

abbrev pub kept_event : VerificationTarget → CopyEdit → Option String
kept_event target missing_copy = none
kept_event target (drifted_copy revision) = some target.destination_event_id

abbrev pub seen_revision : CopyEdit → Option String
seen_revision missing_copy = none
seen_revision (drifted_copy revision) = some revision

abbrev pub repair_error : CopyEdit → EditErrorCode
repair_error missing_copy = destination_missing
repair_error (drifted_copy revision) = destination_drift

module _ (verifier : Verifier) (organization : String) (target : VerificationTarget) where
  unfoldable pub audit : String → String → AuditDetail → String → Store → Store
  audit action reason detail after_hash s = record s {
    audit =
        record {
          organization_id = organization;
          principal_id = none;
          actor_kind = ActorKind.recovery;
          action = action;
          target_id = target.projection_id;
          reason_code = reason;
          before_hash = some target.desired_hash;
          after_hash = some after_hash;
          detail = detail;
        }
        ∷ s.audit;
  }

  abbrev pub notify : NoticeKind → CopyEdit → DesiredCopy → Store → Store
  notify kind edit desired =
      record_sync_notice (verifier.new_notice_id target.projection_id) organization target.policy_id
        target.projection_id kind (notice_detail_for_desired_copy (edit_kind edit) desired)

  abbrev pub notify_if : Option NoticeKind → CopyEdit → DesiredCopy → Store → Store
  notify_if none edit desired s = s
  notify_if (some kind) edit desired s = notify kind edit desired s

  abbrev pub repair_effect : CopyEdit → DesiredCopy → String → Effect
  repair_effect edit desired key = record {
    id = verifier.new_effect_id target.projection_id;
    organization_id = organization;
    policy_id = target.policy_id;
    projection_id = target.projection_id;
    source_basis_hash = target.source_basis_hash;
    policy_revision = target.policy_revision;
    operation = edit_operation edit;
    idempotency_key = key;
    desired_state = some (document desired);
    state = JobState.pending;
    attempt_count = 0;
    run_after = verifier.env.now;
    lease_owner = none;
    lease_expires_at = none;
    ambiguous = false;
    safe_error_code = none;
    created_at = verifier.env.now;
    updated_at = verifier.env.now;
  }

  abbrev pub repaired_row : CopyEdit → ℕ → ℕ → DesiredCopy → String → Projection → Projection
  repaired_row edit intent generation desired desired_hash q = record q {
    intent_sequence = intent;
    generation = generation;
    recovery_operation = none;
    destination_event_id = kept_event target edit;
    destination_etag = seen_revision edit;
    desired_hash = some desired_hash;
    desired_state = some (document desired);
    status = ProjectionStatus.pending;
    safe_error_code = some (codes (edit_error_text (repair_error edit)));
    updated_at = verifier.env.now;
  }

  -- The writes of `scheduleRepair`, in their order.
  unfoldable pub write_repair :
      CopyEdit
      → Option NoticeKind
      → EditErrorCode
      → ℕ
      → ℕ
      → DesiredCopy
      → String
      → String
      → Store
      → Result EffectError (Store × Bool)
  write_repair edit notice code intent generation desired desired_hash key s =
      if any (λ old. str_eq old.idempotency_key key) s.effects
      then err (unexpected verifier.env.unique_violation)
      else ok (
        notify_if notice edit desired (
            audit "copy.repair_scheduled" (edit_error_text code)
              (verification_detail target.generation (some (edit_operation edit))
                (some (target.generation, generation)))
              desired_hash
              (set_projection target.projection_id
                (repaired_row edit intent generation desired desired_hash)
                (record s { effects = repair_effect edit desired key ∷ s.effects }))),
        true,
      )

  unfoldable pub repair_from :
      CopyEdit
      → Option NoticeKind
      → EditErrorCode
      → Projection
      → Store
      → Option DesiredCopy
      → Result EffectError (Store × Bool)
  repair_from edit notice code q s none = ok (s, false)
  repair_from edit notice code q s (some previous) = do
    let intent = q.intent_sequence + 1
    let (generation, desired) = destination_repair_generation previous q.generation edit
    desired_hash ← hash_copy verifier.env desired
    key ← hashed (
        sha256_canonical verifier.env.platform.nfc verifier.env.platform.sha256
          (repair_key_document target generation intent edit desired_hash))
    write_repair edit notice code intent generation desired desired_hash key s

  unfoldable pub schedule_repair :
      CopyEdit → Option NoticeKind → EditErrorCode → Store → Result EffectError (Store × Bool)
  schedule_repair edit notice code s = elim (find_current organization target s) [
    | none ↦ ok (s, false)
    | some q ↦ recovery_copy verifier target q.desired_state >>= repair_from edit notice code q s
  ]

  abbrev pub held_row : CopyEdit → EditErrorCode → Projection → Projection
  held_row missing_copy code q = record q {
    status = ProjectionStatus.held;
    recovery_operation = some EffectOperation.create;
    safe_error_code = some (codes (edit_error_text code));
    updated_at = verifier.env.now;
  }
  held_row (drifted_copy revision) code q = record q {
    status = ProjectionStatus.held;
    recovery_operation = some EffectOperation.update;
    safe_error_code = some (codes (edit_error_text code));
    destination_etag = some revision;
    updated_at = verifier.env.now;
  }

  unfoldable pub hold_from :
      CopyEdit → NoticeKind → EditErrorCode → Store → Option DesiredCopy → Store × Bool
  hold_from edit notice code s none = (s, false)
  hold_from edit notice code s (some desired) = (
    audit "copy.held" (edit_error_text code)
        (verification_detail target.generation (some (edit_operation edit)) none)
        target.desired_hash
        (notify notice edit desired (set_projection target.projection_id (held_row edit code) s)),
    true,
  )

  unfoldable pub hold_destination_edit :
      CopyEdit → NoticeKind → EditErrorCode → Store → Result EffectError (Store × Bool)
  hold_destination_edit edit notice code s = elim (find_current organization target s) [
    | none ↦ ok (s, false)
    | some q ↦ recovery_copy verifier target q.desired_state >>= λ copy.
        ok (hold_from edit notice code s copy)
  ]

  abbrev pub mismatched_row : String → Projection → Projection
  mismatched_row revision q = record q {
    status = ProjectionStatus.held;
    ownership = CopyOwnership.ambiguous;
    recovery_operation = some EffectOperation.update;
    safe_error_code = some (codes "ownership_mismatch");
    destination_etag = some revision;
    updated_at = verifier.env.now;
  }

  unfoldable pub hold_ownership_mismatch : String → Store → Store × Bool
  hold_ownership_mismatch revision s = elim (find_current organization target s) [
    | none ↦ (s, false)
    | some q ↦ (
      audit "copy.held" "destination_ownership_mismatch"
          (verification_detail target.generation none none) target.desired_hash
          (set_projection target.projection_id (mismatched_row revision) s),
      true,
    )
  ]
