-- ===== src/ConflictResponse/Examples.antt =====
-- Theorems on the conflict response at concrete inputs. Times are texts of two letters.
use planipus.Common.{
  refl, ℕ, ◌+◌, ◌-◌, ◌≤◌, max, ◌≡◌, String, Option, none, some, true, err, [], ◌∷◌, ok, str_eq,
  if◌then◌else◌,
}
use planipus.CalendarSync.Json.{lookup_member, str, obj, Members, member, no_members}
use planipus.ConflictResponse.Records.{
  WorkInvitationCandidate, WorkObservationRow, ConflictBusyInterval, ConflictCalendarBinding, fake,
  max_automatic_declines_per_24_hours,
}
use planipus.ConflictResponse.Engine.{
  type_error, Dates, conflict_preview_result, work_invitation_candidate,
}
use planipus.ConflictResponse.Documents.{ConflictSnapshot}
use planipus.ConflictResponse.Overlap.{conflict_preview_result-within_budget}

abbrev clock : String → Option ℕ
clock s =
    if str_eq s "t1"
    then some 10
    else if str_eq s "t2"
    then some 20
    else if str_eq s "t3"
    then some 30
    else none

abbrev show : ℕ → String
show t = "iso"

abbrev invitation : WorkInvitationCandidate
invitation = record {
  observation_id = "o";
  remote_event_id = "e";
  recurrence_identity = "";
  observation_hash = "h";
  remote_revision = some "r";
  start_at = "t1";
  end_at = "t3";
}

abbrev busy_time : ConflictBusyInterval
busy_time = record { calendar_id = "home"; start = "t2"; finish = "t3" }

abbrev dates : Dates
dates = record { parse = clock; parse_other = λ _. none; date_other = λ _. none }

abbrev event : Members
event = member "source_event_ref" (str "e") (
    member "lifecycle" (str "confirmed") (
      member "origin" (str "provider_original") (
        member "availability" (str "busy") (
          member "relationship"
            (obj
              (member "role" (str "attendee") (member "response" (str "needs_action") no_members)))
            (member "timing"
              (obj (
                member "kind" (str "timed")
                  (member "start_instant" (str "t1") (member "end_instant" (str "t2") no_members))))
              no_members)))))

abbrev row : WorkObservationRow
row = record {
  id = "o";
  remote_event_id = "e";
  recurrence_identity = "";
  remote_etag = some "r";
  observation_hash = "h";
  normalized_event = obj event;
}

abbrev calendar : ConflictCalendarBinding
calendar = record {
  id = "work";
  connection_id = "c";
  remote_id = "me@example.org";
  name = "Work";
  readable = true;
  writable = true;
  provider = fake;
  connection_status = "active";
  intended_role = "work";
}

abbrev snapshot : ConflictSnapshot
snapshot = record {
  draft = record {
    name = "rule";
    response_calendar_id = "work";
    availability_calendar_ids = "home" ∷ [];
    decline_message = "no";
    horizon_days = 60;
  };
  reference_at = "t1";
  horizon_end = "t3";
  availability_end = "t3";
  response_calendar = calendar;
  availability_calendars = calendar ∷ [];
  invitations = invitation ∷ [];
  busy = busy_time ∷ [];
  automatic_declines_applied_last_24_hours = 3;
}

conflict_preview_result-within_budget_example :
    let preview = conflict_preview_result clock (invitation ∷ []) (busy_time ∷ []) 20 in
    (preview.budget_held_count ≤ preview.held_count)
    × (preview.held_count ≤ preview.conflict_count)
    × (preview.conflict_count ≤ preview.invitation_count)
    × ((preview.conflict_count - preview.held_count) + 20
        ≤ max max_automatic_declines_per_24_hours 20)
conflict_preview_result-within_budget_example =
    conflict_preview_result-within_budget clock (invitation ∷ []) (busy_time ∷ []) 20

found_test :
    work_invitation_candidate dates show row 5 100
    ≡ ok (some (record invitation { start_at = "iso"; end_at = "iso" }))
unfolding work_invitation_candidate lookup_member
found_test = refl

-- An event without a relationship.
lost_test :
    work_invitation_candidate dates show
      (record row {
        normalized_event = obj (
            member "lifecycle" (str "confirmed") (
              member "origin"
                (str "provider_original")
                (member "availability" (str "busy") no_members)));
      })
      5
      100
    ≡ err type_error
unfolding work_invitation_candidate lookup_member
lost_test = refl
