-- ===== src/ConflictResponse/Records.antt =====
-- server/src/conflict-response/types.ts
use planipus.Common.{ℕ, String, Option, none, some, Bool, List}
use planipus.CalendarSync.Json.{JsonValue, obj, Members}

abbrev pub default_decline_message : String
default_decline_message = "I have a private conflict at that time. Please choose another time."

abbrev pub default_conflict_horizon_days : ℕ
default_conflict_horizon_days = 60

abbrev pub max_availability_calendars : ℕ
max_availability_calendars = 32

abbrev pub max_automatic_declines_per_24_hours : ℕ
max_automatic_declines_per_24_hours = 20

pub record ConflictResponseDraft : Type 0 where
  pub name : String
  pub response_calendar_id : String
  pub availability_calendar_ids : List String
  pub decline_message : String
  pub horizon_days : ℕ

pub record ConflictTimeExample : Type 0 where
  pub start_at : String
  pub end_at : String

pub record ConflictResponsePreviewResult : Type 0 where
  pub invitation_count : ℕ
  pub conflict_count : ℕ
  pub held_count : ℕ
  pub budget_held_count : ℕ
  pub examples : List ConflictTimeExample
  pub warnings : List String

pub record WorkInvitationCandidate : Type 0 where
  pub observation_id : String
  pub remote_event_id : String
  pub recurrence_identity : String
  pub observation_hash : String
  pub remote_revision : Option String
  pub start_at : String
  pub end_at : String

pub record WorkObservationRow : Type 0 where
  pub id : String
  pub remote_event_id : String
  pub recurrence_identity : String
  pub remote_etag : Option String
  pub observation_hash : String
  pub normalized_event : JsonValue

pub record ConflictBusyInterval : Type 0 where
  pub calendar_id : String
  pub start : String
  pub finish : String

pub data Provider : Type 0 where
  google fake : Provider

pub record ConflictCalendarBinding : Type 0 where
  pub id : String
  pub connection_id : String
  pub remote_id : String
  pub name : String
  pub readable : Bool
  pub writable : Bool
  pub provider : Provider
  pub connection_status : String
  pub intended_role : String

-- The cast of an object checks none of its members.
abbrev pub as_source_observation : JsonValue → Option Members
as_source_observation (obj event) = some event
as_source_observation _ = none

pub data MessageDelivery : Type 0 where
  simulated unverified_google : MessageDelivery

pub record ConflictResponsePreviewDocument : Type 0 where
  pub result : ConflictResponsePreviewResult
  pub preview_token : String
  pub expires_at : String
  pub provider_writes_enabled : Bool
  pub message_delivery : MessageDelivery

pub data RuleStatus : Type 0 where
  active paused : RuleStatus

pub record ConflictResponseRuleDocument : Type 0 where
  pub id : String
  pub name : String
  pub status : RuleStatus
  pub response_calendar_id : String
  pub response_calendar_name : String
  pub availability_calendar_count : ℕ
  pub decline_message : String
  pub horizon_days : ℕ
  pub pending_count : ℕ
  pub declined_count : ℕ
  pub held_count : ℕ
  pub last_evaluated_at : Option String
  pub last_success_at : Option String
  pub safe_error_code : Option String
  pub provider_writes_enabled : Bool
  pub message_delivery : MessageDelivery

pub record Conflict : Type 0 where
  pub invitation : WorkInvitationCandidate
  pub overlapping_busy : List ConflictBusyInterval

pub record ConflictResponsePreparedInput : Type 0 where
  pub response_calendar : ConflictCalendarBinding
  pub availability_calendars : List ConflictCalendarBinding
  pub invitations : List WorkInvitationCandidate
  pub busy : List ConflictBusyInterval
  pub conflicts : List Conflict
  pub snapshot_hash : String
  pub result : ConflictResponsePreviewResult

pub data ConflictResponseActorKind : Type 0 where
  user api_token : ConflictResponseActorKind
