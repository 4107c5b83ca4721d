-- ===== src/Sync/Reconcile/Drafts.antt =====
-- server/src/policy/service.ts: `PolicyDraft`, `compilePolicyDraft` and `destinationCapabilities`, from
-- which reconciliation takes the policy that it evaluates.
use planipus.Common.{
  String, Option, none, some, Bool, true, false, ◌||◌, not, ℕ, is_some, if◌then◌else◌,
}
use planipus.CalendarSync.Json.{JsonValue, bool, obj, lookup_member}
use planipus.CalendarSync.Types.{HoursMode}
use planipus.CalendarSync.Events.{
  PrivacyPolicy, SelectionPolicy, PolicyState, SyncPolicy, DestinationCapabilities,
}
use planipus.CalendarSync.DestinationEdits.{normalize_destination_edit_policy}
use planipus.Sync.Effects.Attempt.{truthy}
use planipus.Sync.Reconcile.Projecting.{HorizonDays, or_option}

pub record DraftHours : Type 0 where
  pub mode : HoursMode
  pub profile_ref : Option String

-- `hours_profile` is an inline profile, of which only the presence matters here.
pub record PolicyDraft : Type 0 where
  pub source_calendar_id : String
  pub destination_calendar_id : String
  pub hours_profile_id : Option String
  pub hours : Option DraftHours
  pub has_hours_profile : Bool
  pub privacy : PrivacyPolicy
  pub selection : SelectionPolicy
  pub color : Option String
  pub destination_edits : JsonValue
  pub horizon : Option HorizonDays

abbrev pub draft_mode : PolicyDraft → Option DraftHours → HoursMode
draft_mode draft (some hours) = hours.mode
draft_mode draft none =
    if is_some (truthy draft.hours_profile_id) || draft.has_hours_profile
    then HoursMode.overlaps_profile
    else HoursMode.all_times

abbrev pub draft_profile : Option DraftHours → Option String
draft_profile none = none
draft_profile (some hours) = hours.profile_ref

abbrev pub used_profile : HoursMode → Option String → Option String
used_profile HoursMode.all_times profile = none
used_profile _ profile = truthy profile

unfoldable pub compile_policy_draft :
    PolicyDraft → String → ℕ → PolicyState → Option String → SyncPolicy
compile_policy_draft draft policy_ref revision state resolved =
    let mode = draft_mode draft draft.hours in
    let profile =
      or_option resolved (or_option (draft_profile draft.hours) draft.hours_profile_id) in
    record {
      policy_ref = policy_ref;
      revision = revision;
      state = state;
      source_calendar_ref = draft.source_calendar_id;
      destination_calendar_ref = draft.destination_calendar_id;
      hours_mode = mode;
      hours_profile_ref = used_profile mode profile;
      privacy = draft.privacy;
      selection = draft.selection;
      color = draft.color;
      destination_edits = some (normalize_destination_edit_policy draft.destination_edits);
    }

abbrev pub field : String → JsonValue → Option JsonValue
field key (obj members) = lookup_member key members
field key _ = none

abbrev pub is_true : Option JsonValue → Bool
is_true (some (bool true)) = true
is_true _ = false

abbrev pub is_false : Option JsonValue → Bool
is_false (some (bool false)) = true
is_false _ = false

unfoldable pub destination_capabilities : JsonValue → Bool → DestinationCapabilities
destination_capabilities raw writable = record {
  writable = writable;
  private_visibility = not (is_false (field "private_visibility" raw));
  conference_copy = is_true (field "conference_copy" raw);
  color = not (is_false (field "color" raw));
}
