-- ===== src/Sync/Store.antt =====
-- server/src/database/types.ts: the rows that reconciliation, the effect executor and the
-- verification of copies read and write. Times are in milliseconds; columns that none of them touches
-- are left out.
use planipus.Common.{
  ℕ, String, Option, Bool, true, false, ◌&&◌, List, map, str_eq, if◌then◌else◌, find,
}
use planipus.CalendarSync.Json.{Text}
use planipus.CalendarSync.Events.{EventTiming, DesiredCopy, SourceObservation}
use planipus.CalendarSync.DestinationEdits.{ObservationKind, NoticeKind}
use planipus.Jobs.Queue.{JobState, Job}

pub data ProviderKind : Type 0 where
  google fake : ProviderKind

pub data IntendedRole : Type 0 where
  availability source destination both : IntendedRole

pub data ConnectionStatus : Type 0 where
  active action_required revoked : ConnectionStatus

pub data PolicyStatus : Type 0 where
  active paused deleted : PolicyStatus

pub record Connection : Type 0 where
  pub id : String
  pub organization_id : String
  pub provider : ProviderKind
  pub account_label : String
  pub intended_role : IntendedRole
  pub status : ConnectionStatus
  pub safe_error_code : Option Text
  pub updated_at : ℕ

pub record Endpoint : Type 0 where
  pub id : String
  pub organization_id : String
  pub connection_id : String
  pub remote_id : String
  pub readable : Bool
  pub writable : Bool

pub record Policy : Type 0 where
  pub id : String
  pub organization_id : String
  pub source_calendar_id : String
  pub destination_calendar_id : String
  pub status : PolicyStatus
  pub revision : ℕ
  pub last_success_at : Option ℕ
  pub safe_error_code : Option Text
  pub updated_at : ℕ

pub record Observation : Type 0 where
  pub id : String
  pub organization_id : String
  pub calendar_endpoint_id : String
  pub recurrence_identity : String
  pub normalized_event : SourceObservation
  pub observation_hash : String
  pub tombstone : Bool

pub data EffectOperation : Type 0 where
  create update delete : EffectOperation

-- What a column of desired states may hold besides null: an object with a timing and a provenance,
-- or another document.
pub data StoredCopy : Type 0 where
  document : DesiredCopy → StoredCopy
  malformed : StoredCopy

pub data ProjectionStatus : Type 0 where
  pending converged held failed retrying deleted : ProjectionStatus

pub data CopyOwnership : Type 0 where
  attached detached ambiguous : CopyOwnership

pub record Projection : Type 0 where
  pub id : String
  pub organization_id : String
  pub policy_id : String
  pub policy_revision : ℕ
  pub source_observation_id : String
  pub source_basis_hash : Option String
  pub recovery_operation : Option EffectOperation
  pub recurrence_identity : String
  pub destination_calendar_id : String
  pub destination_event_id : Option String
  pub destination_etag : Option String
  pub generation : ℕ
  pub intent_sequence : ℕ
  pub desired_hash : Option String
  pub desired_state : Option StoredCopy
  pub status : ProjectionStatus
  pub ownership : CopyOwnership
  pub last_success_at : Option ℕ
  pub last_verified_at : Option ℕ
  pub safe_error_code : Option Text
  pub updated_at : ℕ

pub record Effect : Type 0 where
  pub id : String
  pub organization_id : String
  pub policy_id : String
  pub projection_id : String
  pub source_basis_hash : Option String
  pub policy_revision : ℕ
  pub operation : EffectOperation
  pub idempotency_key : String
  pub desired_state : Option StoredCopy
  pub state : JobState
  pub attempt_count : ℕ
  pub run_after : ℕ
  pub lease_owner : Option String
  pub lease_expires_at : Option ℕ
  pub ambiguous : Bool
  pub safe_error_code : Option Text
  pub created_at : ℕ
  pub updated_at : ℕ

-- `effect_detail` has the ids and generations of a repair that the executor scheduled;
-- `verification_detail` has the generation of the copy that was read, and those of a repair;
-- `recovery_detail`, `reconcile_detail` and `status_detail` have the answer and the token of a request of a user.
pub data AuditDetail : Type 0 where
  effect_detail :
      (effect_id : String) (operation : EffectOperation) (repair : Option (String × ℕ × ℕ))
      → AuditDetail
  verification_detail :
      (generation : ℕ) (operation : Option EffectOperation) (repair : Option (ℕ × ℕ)) → AuditDetail
  recovery_detail : (effects_retried : ℕ) (api_token_id : Option String) → AuditDetail
  reconcile_detail : (enqueued : Bool) (api_token_id : Option String) → AuditDetail
  status_detail : (previous next : PolicyStatus) (api_token_id : Option String) → AuditDetail
  no_detail : AuditDetail

pub data ActorKind : Type 0 where
  user api_token sync recovery : ActorKind

-- A fact about a projection.
pub record AuditFact : Type 0 where
  pub organization_id : String
  pub principal_id : Option String
  pub actor_kind : ActorKind
  pub action : String
  pub target_id : String
  pub reason_code : String
  pub before_hash : Option String
  pub after_hash : Option String
  pub detail : AuditDetail

-- What `noticeDetailForDesiredCopy` makes.
pub record NoticeDetail : Type 0 where
  pub observed : ObservationKind
  pub copy_summary : String
  pub copy_timing : EventTiming

pub data NoticeResolution : Type 0 where
  restore keep_and_detach : NoticeResolution

pub data NoticeStatus : Type 0 where
  unread acknowledged resolved : NoticeStatus

pub record SyncNotice : Type 0 where
  pub id : String
  pub organization_id : String
  pub policy_id : String
  pub projection_id : String
  pub kind : NoticeKind
  pub status : NoticeStatus
  pub resolution : Option NoticeResolution
  pub detail : NoticeDetail

pub record Store : Type 0 where
  pub connections : List Connection
  pub endpoints : List Endpoint
  pub policies : List Policy
  pub observations : List Observation
  pub projections : List Projection
  pub effects : List Effect
  pub jobs : List Job
  pub audit : List AuditFact
  pub notices : List SyncNotice

abbrev pub is_policy : String → String → Policy → Bool
is_policy organization id p = str_eq p.organization_id organization && str_eq p.id id

abbrev pub is_active_status : PolicyStatus → Bool
is_active_status PolicyStatus.active = true
is_active_status _ = false

abbrev pub is_connected : ConnectionStatus → Bool
is_connected ConnectionStatus.active = true
is_connected _ = false

abbrev pub is_source_role : IntendedRole → Bool
is_source_role IntendedRole.source = true
is_source_role IntendedRole.both = true
is_source_role _ = false

abbrev pub is_destination_role : IntendedRole → Bool
is_destination_role IntendedRole.destination = true
is_destination_role IntendedRole.both = true
is_destination_role _ = false

abbrev pub find_endpoint : String → Store → Option Endpoint
find_endpoint id s = find (λ e. str_eq e.id id) s.endpoints

abbrev pub find_connection : String → Store → Option Connection
find_connection id s = find (λ c. str_eq c.id id) s.connections

-- `update … set … where …`
abbrev pub update_where {ℓ} : {A : Type ℓ} → (A → Bool) → (A → A) → List A → List A
update_where test set rows = map (λ r. if test r then set r else r) rows
