-- ===== src/ConflictResponse/Documents.antt =====
-- server/src/conflict-response/engine.ts: the documents that are hashed, as JSON.
use planipus.Common.{
  ℕ, String, Bool, true, false, ◌&&◌, ◌||◌, not, List, [], ◌∷◌, map, str_eq, is_some,
}
use planipus.Common.Sorting.{sort}
use planipus.CalendarSync.Json.{
  JsonValue, bool, num, str, arr, obj, Items, no_items, item, no_members, member, text_le,
}
use planipus.ConflictResponse.Records.{
  ConflictResponseDraft, WorkInvitationCandidate, ConflictBusyInterval, ConflictCalendarBinding,
  Provider, google, fake,
}

items : List JsonValue → Items
items [] = no_items
items (v ∷ vs) = item v (items vs)

abbrev array_of : List JsonValue → JsonValue
array_of vs = arr (items vs)

-- `compareText(left, right) < 0`
abbrev precedes : String → String → Bool
precedes a b = not (text_le b a)

-- `compareText` of the keys one after the other: at most 0.
keys_le : List String → List String → Bool
unfolding text_le
keys_le [] _ = true
keys_le (a ∷ xs) [] = false
keys_le (a ∷ xs) (b ∷ ys) = let rest = keys_le xs ys in precedes a b || (str_eq a b && rest)

provider_text : Provider → String
provider_text google = "google"
provider_text fake = "fake"

-- What an entry of a sorted list is written from.
pub record Capability : Type 0 where
  pub id : String
  pub readable : Bool
  pub writable : Bool
  pub provider : Provider
  pub connection_status : String
  pub intended_role : String

unfoldable pub capability_document : ConflictCalendarBinding → Capability
capability_document c = record {
  id = c.id;
  readable = c.readable;
  writable = c.writable;
  provider = c.provider;
  connection_status = c.connection_status;
  intended_role = c.intended_role;
}

capability_json : Capability → JsonValue
unfolding provider_text
capability_json c = obj (
    member "id" (str c.id) (
      member "readable" (bool c.readable) (
        member "writable" (bool c.writable) (
          member "provider" (str (provider_text c.provider)) (
            member "connection_status" (str c.connection_status)
              (member "intended_role" (str c.intended_role) no_members))))))

pub record InvitationEntry : Type 0 where
  pub observation_hash : String
  pub remote_revision_present : Bool
  pub start_at : String
  pub end_at : String

abbrev pub invitation_entry : WorkInvitationCandidate → InvitationEntry
invitation_entry i = record {
  observation_hash = i.observation_hash;
  remote_revision_present = is_some i.remote_revision;
  start_at = i.start_at;
  end_at = i.end_at;
}

abbrev invitation_keys : InvitationEntry → List String
invitation_keys i = i.start_at ∷ i.end_at ∷ i.observation_hash ∷ []

invitation_json : InvitationEntry → JsonValue
invitation_json i = obj (
    member "observation_hash" (str i.observation_hash) (
      member "remote_revision_present" (bool i.remote_revision_present)
        (member "start_at" (str i.start_at) (member "end_at" (str i.end_at) no_members))))

abbrev busy_keys : ConflictBusyInterval → List String
busy_keys b = b.calendar_id ∷ b.start ∷ b.finish ∷ []

busy_json : ConflictBusyInterval → JsonValue
busy_json b = obj (
    member "calendar_id" (str b.calendar_id)
      (member "start" (str b.start) (member "end" (str b.finish) no_members)))

busy_array : List ConflictBusyInterval → JsonValue
unfolding items busy_json sort keys_le
busy_array busy = array_of (map busy_json (sort (λ a b. keys_le (busy_keys a) (busy_keys b)) busy))

draft_json : ConflictResponseDraft → JsonValue
unfolding items
draft_json d = obj (
    member "name" (str d.name) (
      member "response_calendar_id" (str d.response_calendar_id) (
        member "availability_calendar_ids" (array_of (map str d.availability_calendar_ids)) (
          member "decline_message" (str d.decline_message)
            (member "horizon_days" (num d.horizon_days) no_members)))))

-- The argument of `conflictSnapshotDocument`.
pub record ConflictSnapshot : Type 0 where
  pub draft : ConflictResponseDraft
  pub reference_at : String
  pub horizon_end : String
  pub availability_end : String
  pub response_calendar : ConflictCalendarBinding
  pub availability_calendars : List ConflictCalendarBinding
  pub invitations : List WorkInvitationCandidate
  pub busy : List ConflictBusyInterval
  pub automatic_declines_applied_last_24_hours : ℕ

unfoldable pub conflict_snapshot_document : ConflictSnapshot → JsonValue
unfolding items capability_document capability_json invitation_json busy_array draft_json sort
    keys_le text_le
conflict_snapshot_document s =
    let calendars =
      sort (λ a b. keys_le (a.id ∷ []) (b.id ∷ []))
        (map capability_document s.availability_calendars) in
    let invitations =
      sort (λ a b. keys_le (invitation_keys a) (invitation_keys b))
        (map invitation_entry s.invitations) in
    obj (
      member "version" (num 1) (
        member "draft" (draft_json s.draft) (
          member "reference_at" (str s.reference_at) (
            member "horizon_end" (str s.horizon_end) (
              member "availability_end" (str s.availability_end) (
                member "automatic_declines_applied_last_24_hours"
                  (num s.automatic_declines_applied_last_24_hours)
                  (member "response_calendar"
                    (capability_json (capability_document s.response_calendar))
                    (member "availability_calendars" (array_of (map capability_json calendars)) (
                      member "work_invitations" (array_of (map invitation_json invitations))
                        (member "busy" (busy_array s.busy) no_members))))))))))

unfoldable pub conflict_action_basis_document :
    String → ℕ → WorkInvitationCandidate → List ConflictBusyInterval → JsonValue
unfolding busy_array
conflict_action_basis_document rule_id rule_revision invitation overlapping_busy = obj (
    member "version" (num 1) (
      member "rule_id" (str rule_id) (
        member "rule_revision" (num rule_revision) (
          member "work_observation_hash" (str invitation.observation_hash) (
            member "work_start_at" (str invitation.start_at) (
              member "work_end_at" (str invitation.end_at)
                (member "busy" (busy_array overlapping_busy) no_members)))))))
