-- ===== src/Sync/Reconcile/Projecting.antt =====
-- server/src/sync/reconciliation.ts: the pure parts, and the input of the evaluation.
use planipus.Common.{
  not, ℕ, ◌+◌, ◌-◌, ◌*◌, String, Option, none, some, Bool, true, false, ◌&&◌, ◌||◌, List, [], ◌∷◌,
  ltb, str_eq, if◌then◌else◌, any, is_some, or_else, Result, ok, err, ◌>>=◌,
}
use planipus.CalendarSync.Types.{ReasonCode, HoursProfile}
use planipus.CalendarSync.Json.{Text, codes}
use planipus.CalendarSync.Platform.{Platform}
use planipus.CalendarSync.Events.{
  SourceObservation, Lifecycle, SyncPolicy, DestinationCapabilities, Ownership, ProjectionInput,
  PolicyEvaluationInput, PolicyEvaluationResult, Selection, Operation, DesiredCopy,
}
use planipus.CalendarSync.Evaluate.Decision.{same_text}
use planipus.Jobs.ErrorCode.{named}
use planipus.Sync.Store.{
  EffectOperation, StoredCopy, document, ProjectionStatus, CopyOwnership, Projection,
}
use planipus.Sync.Provider.{EffectError, unexpected}
use planipus.Sync.Effects.Attempt.{truthy}
use planipus.Sync.Reconcile.Reasons.{reason_text}

abbrev pub is_held_selection : Selection → Bool
is_held_selection Selection.held = true
is_held_selection _ = false

abbrev pub is_no_operation : Operation → Bool
is_no_operation Operation.no_operation = true
is_no_operation _ = false

abbrev pub or_option {ℓ} : {A : Type ℓ} → Option A → Option A → Option A
or_option none d = d
or_option (some a) d = some a

abbrev pub stored : Option DesiredCopy → Option StoredCopy
stored none = none
stored (some d) = some (document d)

abbrev pub reason_code_text : ReasonCode → Text
reason_code_text r = codes (reason_text r)

pub record Persistence : Type 0 where
  pub desired_hash : Option String
  pub desired_state : Option StoredCopy
  pub safe_error_code : Option Text

abbrev pub held_hash : Option Projection → Option String
held_hash none = none
held_hash (some q) = q.desired_hash

abbrev pub held_state : Option Projection → Option StoredCopy
held_state none = none
held_state (some q) = q.desired_state

abbrev pub held_code : Option Projection → Option Text
held_code none = none
held_code (some q) = q.safe_error_code

abbrev pub selection_code : Selection → ReasonCode → Option Projection → Option Text
selection_code Selection.invalid reason existing = some (reason_code_text reason)
selection_code Selection.held reason existing =
    or_option (held_code existing) (some (reason_code_text reason))
selection_code Selection.included reason existing = none
selection_code Selection.excluded reason existing = none

unfoldable pub projection_persistence_for_result :
    PolicyEvaluationResult → Option Projection → Persistence
projection_persistence_for_result result existing =
    let preserve = is_held_selection result.selection && is_no_operation result.operation in
    record {
      desired_hash =
          or_option result.desired_fingerprint (if preserve then held_hash existing else none);
      desired_state =
          or_option (stored result.desired_copy) (if preserve then held_state existing else none);
      safe_error_code = selection_code result.selection result.primary_reason_code existing;
    }

abbrev pub recovery_operation : Selection → Operation → Option EffectOperation
recovery_operation Selection.included Operation.create = some EffectOperation.create
recovery_operation Selection.included _ = some EffectOperation.update
recovery_operation Selection.excluded Operation.delete = some EffectOperation.delete
recovery_operation Selection.excluded _ = none
recovery_operation Selection.held _ = none
recovery_operation Selection.invalid _ = none

unfoldable pub recovery_operation_for_result : PolicyEvaluationResult → Option EffectOperation
recovery_operation_for_result result = recovery_operation result.selection result.operation

abbrev pub is_held_status : ProjectionStatus → Bool
is_held_status ProjectionStatus.held = true
is_held_status _ = false

abbrev pub is_deleted_status : ProjectionStatus → Bool
is_deleted_status ProjectionStatus.deleted = true
is_deleted_status _ = false

abbrev pub is_attached : CopyOwnership → Bool
is_attached CopyOwnership.attached = true
is_attached _ = false

abbrev pub is_ambiguous_copy : CopyOwnership → Bool
is_ambiguous_copy CopyOwnership.ambiguous = true
is_ambiguous_copy _ = false

-- server/src/sync/notices.ts: `DESTINATION_EDIT_HOLD_CODES` and `isDestinationEditHold`
abbrev pub destination_edit_hold_codes : List String
destination_edit_hold_codes = "destination_edit_held" ∷ "destination_delete_held" ∷ []

abbrev pub is_hold_code : Option Text → Bool
is_hold_code none = false
is_hold_code (some code) = any (λ c. same_text (codes c) code) destination_edit_hold_codes

unfoldable pub is_destination_edit_hold : Projection → Bool
is_destination_edit_hold q =
    is_held_status q.status && is_attached q.ownership && is_hold_code q.safe_error_code

-- A deleted copy that no destination event stands for.
abbrev pub is_retained : Projection → Bool
is_retained q = is_deleted_status q.status && not (is_some q.destination_event_id)

abbrev pub input_ownership : CopyOwnership → Ownership
input_ownership CopyOwnership.attached = Ownership.attached
input_ownership CopyOwnership.detached = Ownership.detached
input_ownership CopyOwnership.ambiguous = Ownership.attached

unfoldable pub projection_input : Option Projection → ProjectionInput
projection_input none = record {
  ownership = Ownership.unowned;
  projection_ref = none;
  generation = none;
  destination_event_ref = none;
  destination_exists = none;
  desired_fingerprint = none;
  observed_copy = none;
}
projection_input (some q) = record {
  ownership = if is_retained q then Ownership.unowned else input_ownership q.ownership;
  projection_ref = some q.id;
  generation = some q.generation;
  destination_event_ref = truthy q.destination_event_id;
  destination_exists = some (is_some q.destination_event_id);
  desired_fingerprint = truthy q.desired_hash;
  observed_copy = none;
}

-- `new Date(milliseconds).toISOString()`; milliseconds count from the first instant of a `Date`, and
-- there is none before it.
abbrev pub iso_before : (ℕ → String) → ℕ → ℕ → Result EffectError String
iso_before iso now distance =
    if ltb now distance
    then err (unexpected (named (codes "RangeError")))
    else ok (iso (now - distance))

abbrev pub day_milliseconds : ℕ
day_milliseconds = 86400000

pub record HorizonDays : Type 0 where
  pub past_days : ℕ
  pub future_days : ℕ

-- What the reconciliation of one observation is given.
pub record Pass : Type 0 where
  pub platform : Platform
  pub iso : ℕ → String
  pub now : ℕ
  pub new_projection_id : String
  pub new_effect_id : String
  pub policy : SyncPolicy
  pub capabilities : DestinationCapabilities
  pub hours_profile : Option HoursProfile
  pub horizon : Option HorizonDays

abbrev pub default_horizon : HorizonDays
default_horizon = record { past_days = 30; future_days = 365 }

unfoldable pub evaluation_input :
    Pass → SourceObservation → String → Option Projection → Result EffectError PolicyEvaluationInput
unfolding projection_input
evaluation_input pass source projection_id existing = do
  let horizon = or_else pass.horizon default_horizon
  start ← iso_before pass.iso pass.now (horizon.past_days * day_milliseconds)
  ok (record {
    now = pass.iso pass.now;
    horizon = record {
      start = start;
      «end» = pass.iso (pass.now + horizon.future_days * day_milliseconds);
    };
    candidate_projection_ref = projection_id;
    policy = pass.policy;
    hours_profile = pass.hours_profile;
    source = source;
    projection = projection_input existing;
    destination_capabilities = pass.capabilities;
  })

-- `normalizeIdentity`
abbrev pub normalize_identity : Platform → String → String
normalize_identity p value = p.to_lower_case (p.trim (p.nfc value))

abbrev pub any_attendee : (String → Bool) → Option (List String) → Bool
any_attendee test none = false
any_attendee test (some attendees) = any test attendees

abbrev pub organizer_is : (String → Bool) → Option String → Bool
organizer_is test none = false
organizer_is test (some organizer) = test organizer

unfoldable pub mark_destination_identity_invitation :
    Platform → SourceObservation → String → SourceObservation
mark_destination_identity_invitation p source destination_identity =
    let is_identity =
      λ (a : String). str_eq (normalize_identity p a) (normalize_identity p destination_identity) in
    record source {
      destination_identity_invited =
          source.destination_identity_invited
          || any_attendee is_identity source.attendees
          || organizer_is is_identity source.organizer_identity;
    }

abbrev pub deleted_if : Bool → Lifecycle → Lifecycle
deleted_if true Lifecycle.confirmed = Lifecycle.deleted
deleted_if true other = other
deleted_if false other = other

unfoldable pub observation_for_evaluation : SourceObservation → Bool → SourceObservation
observation_for_evaluation source tombstone = record source {
  lifecycle = deleted_if tombstone source.lifecycle;
}
