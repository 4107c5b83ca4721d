-- ===== src/Sync/Verification/Decision.antt =====
-- server/src/sync/verification.ts: its types, `classifyDestinationVerification` and
-- `destinationRepairGeneration`, and the notices of notices.ts.
use planipus.Common.{ℕ, ◌+◌, String, Option, none, some, ◌∷◌, opt_str_eq, if◌then◌else◌}
use planipus.CalendarSync.Json.{JsonValue}
use planipus.CalendarSync.Events.{DesiredCopy}
use planipus.CalendarSync.DestinationEdits.{
  DestinationEditPolicy, ObservationKind, drifted, missing, NoticeKind, EditErrorCode,
  destination_drift, destination_missing, destination_edit_held, destination_delete_held,
}
use planipus.Sync.Store.{
  ProviderKind, EffectOperation, StoredCopy, NoticeDetail, NoticeStatus, Policy, Store,
}
use planipus.Sync.Provider.{ProviderEventLookup}
use planipus.Sync.Effects.Steps.{Env}
use planipus.Sync.Effects.Missing.{event_belongs_to_projection, next_generation}

-- What a batch takes from outside: the time and the platform, the new ids, which are found by the id of
-- the projection here, and the member `destination_edits` of a policy's document.
pub record Verifier : Type 0 where
  pub env : Env
  pub new_effect_id : String → String
  pub new_notice_id : String → String
  pub destination_edits : Policy → JsonValue

pub record VerificationTarget : Type 0 where
  pub projection_id : String
  pub policy_id : String
  pub policy_revision : ℕ
  pub source_basis_hash : Option String
  pub generation : ℕ
  pub intent_sequence : ℕ
  pub destination_event_id : String
  pub destination_revision : Option String
  pub desired_hash : String
  pub desired_state : StoredCopy
  pub calendar_remote_id : String
  pub connection_id : String
  pub provider : ProviderKind
  pub destination_edits : DestinationEditPolicy

-- The decisions "missing" and "drifted".
pub data CopyEdit : Type 0 where
  missing_copy : CopyEdit
  drifted_copy : (observed_revision : String) → CopyEdit

pub data DestinationVerificationDecision : Type 0 where
  current : (observed_revision : String) → DestinationVerificationDecision
  edited : CopyEdit → DestinationVerificationDecision
  ownership_mismatch : (observed_revision : String) → DestinationVerificationDecision

abbrev pub edit_kind : CopyEdit → ObservationKind
edit_kind missing_copy = missing
edit_kind (drifted_copy revision) = drifted

abbrev pub edit_operation : CopyEdit → EffectOperation
edit_operation missing_copy = EffectOperation.create
edit_operation (drifted_copy revision) = EffectOperation.update

abbrev pub edit_operation_text : CopyEdit → String
edit_operation_text missing_copy = "create"
edit_operation_text (drifted_copy revision) = "update"

abbrev pub edit_error_text : EditErrorCode → String
edit_error_text destination_drift = "destination_drift"
edit_error_text destination_missing = "destination_missing"
edit_error_text destination_edit_held = "destination_edit_held"
edit_error_text destination_delete_held = "destination_delete_held"

-- `classifyDestinationVerification`
unfoldable pub classify_destination_verification :
    VerificationTarget → Option ProviderEventLookup → DestinationVerificationDecision
classify_destination_verification target none = edited missing_copy
classify_destination_verification target (some observed) =
    if event_belongs_to_projection observed target.policy_id target.projection_id target.generation
    then if opt_str_eq (some observed.remote_revision) target.destination_revision
      then current observed.remote_revision
      else edited (drifted_copy observed.remote_revision)
    else ownership_mismatch observed.remote_revision

-- `destinationRepairGeneration`
unfoldable pub destination_repair_generation : DesiredCopy → ℕ → CopyEdit → ℕ × DesiredCopy
destination_repair_generation desired current_generation missing_copy =
    (current_generation + 1, next_generation (current_generation + 1) desired)
destination_repair_generation desired current_generation (drifted_copy revision) =
    (current_generation, desired)

-- `noticeDetailForDesiredCopy`
abbrev pub notice_detail_for_desired_copy : ObservationKind → DesiredCopy → NoticeDetail
notice_detail_for_desired_copy observed desired = record {
  observed = observed;
  copy_summary = desired.summary;
  copy_timing = desired.timing;
}

-- `recordSyncNotice`
unfoldable pub record_sync_notice :
    String → String → String → String → NoticeKind → NoticeDetail → Store → Store
record_sync_notice id organization policy projection kind detail s = record s {
  notices =
      record {
        id = id;
        organization_id = organization;
        policy_id = policy;
        projection_id = projection;
        kind = kind;
        status = NoticeStatus.unread;
        resolution = none;
        detail = detail;
      }
      ∷ s.notices;
}
