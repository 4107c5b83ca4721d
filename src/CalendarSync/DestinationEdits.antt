-- ===== src/CalendarSync/DestinationEdits.antt =====
-- packages/calendar-sync/src/destination-edits.ts: what is done when a person edits or deletes a
-- managed copy on the destination calendar. `unknown` values are `JsonValue`s.
pub mod Laws
use planipus.Common.{String, Option, none, some, Bool, false, ◌==◌, str_eq, if◌then◌else◌}
use planipus.CalendarSync.Json.{JsonValue, num, str, obj, lookup_member}

pub data DestinationEditMode : Type 0 where
  restore restore_and_notify hold_for_review : DestinationEditMode

-- `version` is always 1.
pub record DestinationEditPolicy : Type 0 where
  pub on_edit : DestinationEditMode
  pub on_delete : DestinationEditMode

abbrev pub default_destination_edit_policy : DestinationEditPolicy
default_destination_edit_policy = record {
  on_edit = restore_and_notify;
  on_delete = restore_and_notify;
}

pub data ObservationKind : Type 0 where
  drifted missing : ObservationKind

pub data NoticeKind : Type 0 where
  copy_edit_reverted copy_delete_restored copy_edit_held copy_delete_held : NoticeKind

pub data EditErrorCode : Type 0 where
  destination_drift destination_missing destination_edit_held destination_delete_held :
      EditErrorCode

pub data DestinationEditResponse : Type 0 where
  repair : Option NoticeKind → EditErrorCode → DestinationEditResponse
  hold : NoticeKind → EditErrorCode → DestinationEditResponse

-- `MODES.includes(value)`, with the mode that the string stands for.
abbrev pub mode_of_text : String → Option DestinationEditMode
mode_of_text s =
    if str_eq s "restore"
    then some restore
    else if str_eq s "restore_and_notify"
    then some restore_and_notify
    else if str_eq s "hold_for_review"
    then some hold_for_review
    else none

unfoldable pub mode_of : Option JsonValue → Option DestinationEditMode
mode_of (some (str s)) = mode_of_text s
mode_of _ = none

unfoldable pub is_version_one : Option JsonValue → Bool
is_version_one (some (num n)) = n == 1
is_version_one _ = false

unfoldable pub both_modes :
    Option DestinationEditMode → Option DestinationEditMode → Option DestinationEditPolicy
both_modes (some e) (some d) = some (record { on_edit = e; on_delete = d })
both_modes _ _ = none

-- The policy that a value is, if it is one.
unfoldable pub is_destination_edit_policy : JsonValue → Option DestinationEditPolicy
unfolding both_modes mode_of is_version_one lookup_member
is_destination_edit_policy (obj ms) =
    if is_version_one (lookup_member "version" ms)
    then both_modes (mode_of (lookup_member "on_edit" ms)) (mode_of (lookup_member "on_delete" ms))
    else none
is_destination_edit_policy _ = none

unfoldable pub normalize_destination_edit_policy : JsonValue → DestinationEditPolicy
unfolding is_destination_edit_policy
normalize_destination_edit_policy value = elim (is_destination_edit_policy value) [
  | none ↦ default_destination_edit_policy
  | some policy ↦ policy
]

abbrev pub mode_for : DestinationEditPolicy → ObservationKind → DestinationEditMode
mode_for policy drifted = policy.on_edit
mode_for policy missing = policy.on_delete

unfoldable pub respond : DestinationEditMode → ObservationKind → DestinationEditResponse
respond hold_for_review drifted = hold copy_edit_held destination_edit_held
respond hold_for_review missing = hold copy_delete_held destination_delete_held
respond restore drifted = repair none destination_drift
respond restore missing = repair none destination_missing
respond restore_and_notify drifted = repair (some copy_edit_reverted) destination_drift
respond restore_and_notify missing = repair (some copy_delete_restored) destination_missing

unfoldable pub plan_destination_edit_response :
    DestinationEditPolicy → ObservationKind → DestinationEditResponse
unfolding respond
plan_destination_edit_response policy observed = respond (mode_for policy observed) observed
