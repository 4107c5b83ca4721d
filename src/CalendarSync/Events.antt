-- ===== src/CalendarSync/Events.antt =====
-- packages/calendar-sync/src/types.ts: the policy, the source event, the copy and the evaluation.
-- A field that may be absent is an option; versions that are always 1 and the empty `reminders` are
-- left out.
use planipus.Common.{ℕ, String, Option, List, Bool}
use planipus.CalendarSync.Json.{JsonValue}
use planipus.CalendarSync.DestinationEdits.{DestinationEditPolicy}
use planipus.CalendarSync.Types.{ReasonCode, HoursProfile, HoursMode, InstantInterval}

pub data EventTiming : Type 0 where
  timed : (start_instant end_instant start_tzid end_tzid : String) → EventTiming
  all_day : (start_date end_date timezone : String) → EventTiming

pub record EventContent : Type 0 where
  pub summary : Option String
  pub description : Option String
  pub location : Option String
  pub conference : Option String

pub data Lifecycle : Type 0 where
  confirmed cancelled deleted : Lifecycle

pub data Origin : Type 0 where
  provider_original planipus_managed : Origin

pub data Availability : Type 0 where
  busy free : Availability

pub data Role : Type 0 where
  organizer attendee no_role : Role

pub data Response : Type 0 where
  accepted tentative declined needs_action not_applicable : Response

pub record Relationship : Type 0 where
  pub role : Role
  pub response : Response
  pub response_note : Option String

pub record Recurrence : Type 0 where
  pub series_ref : String
  pub original_start : String

pub record SourceObservation : Type 0 where
  pub source_event_ref : String
  pub source_occurrence_ref : String
  pub remote_revision : String
  pub lifecycle : Lifecycle
  pub origin : Origin
  pub timing : Option EventTiming
  pub recurrence : Option Recurrence
  pub availability : Option Availability
  pub relationship : Relationship
  pub destination_identity_invited : Bool
  pub content : EventContent
  pub attendees : Option (List String)
  pub organizer_identity : Option String
  pub attachments : Option (List String)
  pub source_url : Option String
  pub provider_metadata : Option JsonValue

pub data Preset : Type 0 where
  busy_only commitment private_details shared_details : Preset

pub record PrivacyPolicy : Type 0 where
  pub preset : Preset
  pub generic_summary : String
  pub copy_summary : Bool
  pub copy_description : Bool
  pub copy_location : Bool
  pub copy_conference : Bool
  pub copy_attendees : Bool
  pub copy_organizer : Bool

pub data TimedSelection : Type 0 where
  include skip : TimedSelection

pub data AllDaySelection : Type 0 where
  skip_all_day only_busy all : AllDaySelection

pub data FreeEvents : Type 0 where
  skip_when_redacted preserve_free force_busy : FreeEvents

-- What a tentative or unanswered event counts as.
pub data ReplyHandling : Type 0 where
  as_busy as_free omit : ReplyHandling

pub record SelectionPolicy : Type 0 where
  pub timed : TimedSelection
  pub all_day : AllDaySelection
  pub free_events : FreeEvents
  pub tentative : ReplyHandling
  pub unanswered : ReplyHandling
  pub skip_when_destination_identity_invited : Bool
  pub source_exclusion_marker : String
  pub manual_exclusions : List String

pub data PolicyState : Type 0 where
  active paused disabled review_required : PolicyState

pub record SyncPolicy : Type 0 where
  pub policy_ref : String
  pub revision : ℕ
  pub state : PolicyState
  pub source_calendar_ref : String
  pub destination_calendar_ref : String
  pub hours_mode : HoursMode
  pub hours_profile_ref : Option String
  pub privacy : PrivacyPolicy
  pub selection : SelectionPolicy
  pub color : Option String
  pub destination_edits : Option DestinationEditPolicy

pub record DestinationCapabilities : Type 0 where
  pub writable : Bool
  pub private_visibility : Bool
  pub conference_copy : Bool
  pub color : Bool

pub data Transparency : Type 0 where
  opaque transparent : Transparency

pub data Visibility : Type 0 where
  private_visibility default_visibility : Visibility

pub record Provenance : Type 0 where
  pub policy_ref : String
  pub projection_ref : String
  pub generation : ℕ

-- `write_controls.send_notifications` is always false.
pub record DesiredCopy : Type 0 where
  pub timing : EventTiming
  pub summary : String
  pub description : Option String
  pub location : Option String
  pub conference : Option String
  pub transparency : Transparency
  pub visibility : Visibility
  pub color : Option String
  pub provenance : Provenance

pub record DisclosureManifest : Type 0 where
  pub preset : Preset
  pub source_fields_read : List String
  pub source_fields_disclosed : List String
  pub destination_fields_written : List String
  pub source_fields_omitted : List String

pub data Ownership : Type 0 where
  unowned attached detached ambiguous : Ownership

pub record ProjectionInput : Type 0 where
  pub ownership : Ownership
  pub projection_ref : Option String
  pub generation : Option ℕ
  pub destination_event_ref : Option String
  pub destination_exists : Option Bool
  pub desired_fingerprint : Option String
  pub observed_copy : Option DesiredCopy

pub record PolicyEvaluationInput : Type 0 where
  pub now : String
  pub horizon : InstantInterval
  pub candidate_projection_ref : String
  pub policy : SyncPolicy
  pub hours_profile : Option HoursProfile
  pub source : SourceObservation
  pub projection : ProjectionInput
  pub destination_capabilities : DestinationCapabilities

pub data Selection : Type 0 where
  included excluded held invalid : Selection

pub data Operation : Type 0 where
  create update delete no_operation : Operation

pub record PolicyEvaluationResult : Type 0 where
  pub selection : Selection
  pub operation : Operation
  pub primary_reason_code : ReasonCode
  pub reason_codes : List ReasonCode
  pub desired_copy : Option DesiredCopy
  pub desired_fingerprint : Option String
  pub disclosure_manifest : Option DisclosureManifest
  pub warnings : List ReasonCode
