-- ===== src/CalendarSync/Evaluate/Transform.antt =====
-- packages/calendar-sync/src/evaluate.ts: `transform`, the copy and its disclosure manifest, and the
-- copy as JSON.
use planipus.Common.{
  String, Option, none, some, Bool, true, false, ◌&&◌, not, List, [], ◌∷◌, ◌++◌, str_eq, or_else,
  filter, includes, if◌then◌else◌, unique,
}
use planipus.Common.Sorting.{sort}
use planipus.CalendarSync.Json.{
  JsonValue, bool, num, str, arr, obj, no_items, Members, no_members, member, text_le,
}
use planipus.CalendarSync.Events.{
  EventTiming, timed, all_day, Availability, Preset, private_details, shared_details,
  PolicyEvaluationInput, DesiredCopy, DisclosureManifest, Transparency, opaque, transparent,
  Visibility, default_visibility, Provenance,
}

abbrev pub is_free : Availability → Bool
is_free Availability.busy = false
is_free Availability.free = true

abbrev pub shows_details : Preset → Bool
shows_details private_details = true
shows_details shared_details = true
shows_details _ = false

abbrev pub copied : Bool → Option String → Option String
copied true field = field
copied false field = none

abbrev pub summary_of : Bool → Option String → String → String
summary_of true summary generic = or_else summary ""
summary_of false summary generic = generic

visibility_of : Preset → Visibility
visibility_of shared_details = default_visibility
visibility_of _ = Visibility.private_visibility

unfoldable pub desired_copy : PolicyEvaluationInput → Availability → EventTiming → DesiredCopy
unfolding visibility_of
desired_copy input availability timing =
    let privacy = input.policy.privacy in
    let details = shows_details privacy.preset in
    let content = input.source.content in
    record {
      timing = timing;
      summary =
          summary_of (details && privacy.copy_summary) content.summary privacy.generic_summary;
      description = copied (details && privacy.copy_description) content.description;
      location = copied (details && privacy.copy_location) content.location;
      conference = copied (details && privacy.copy_conference) content.conference;
      transparency = if is_free availability then transparent else opaque;
      visibility = visibility_of privacy.preset;
      color = input.policy.color;
      provenance = record {
        policy_ref = input.policy.policy_ref;
        projection_ref = or_else input.projection.projection_ref input.candidate_projection_ref;
        generation = or_else input.projection.generation 1;
      };
    }

unfoldable pub sorted_unique : List String → List String
unfolding sort text_le
sorted_unique values = sort text_le (unique str_eq values)

abbrev pub when_true : Bool → String → List String
when_true true s = s ∷ []
when_true false s = []

abbrev pub when_some {ℓ} : {A : Type ℓ} → Option A → String → List String
when_some (some _) s = s ∷ []
when_some none s = []

abbrev pub omitted_source_fields : List String
omitted_source_fields =
    "/attachments" ∷ "/attendees" ∷ "/content/description" ∷ "/content/summary"
    ∷ "/content/location" ∷ "/content/conference" ∷ "/organizer" ∷ "/provider_metadata"
    ∷ "/source_url" ∷ []

unfoldable pub disclosed_fields : PolicyEvaluationInput → List String
disclosed_fields input =
    let privacy = input.policy.privacy in
    let details = shows_details privacy.preset in
    "/timing"
    ∷ (when_true (details && privacy.copy_summary) "/content/summary"
        ++ (when_true (details && privacy.copy_description) "/content/description"
            ++ (when_true (details && privacy.copy_location) "/content/location"
                ++ when_true (details && privacy.copy_conference) "/content/conference")))

unfoldable pub read_fields : PolicyEvaluationInput → List String
read_fields input =
    let privacy = input.policy.privacy in
    let details = shows_details privacy.preset in
    ("/availability" ∷ "/content/description" ∷ "/content/summary" ∷ "/destination_identity_invited"
      ∷ "/origin" ∷ [])
    ++ (when_some input.source.recurrence "/recurrence"
        ++ (("/relationship" ∷ "/timing" ∷ [])
            ++ (when_true (details && privacy.copy_location) "/content/location"
                ++ when_true (details && privacy.copy_conference) "/content/conference")))

-- `Object.keys(desired)`
unfoldable pub written_fields : DesiredCopy → List String
written_fields desired =
    ("/timing" ∷ "/summary" ∷ "/transparency" ∷ "/visibility" ∷ "/reminders" ∷ "/write_controls"
      ∷ "/provenance" ∷ [])
    ++ (when_some desired.description "/description"
        ++ (when_some desired.location "/location"
            ++ (when_some desired.conference "/conference" ++ when_some desired.color "/color")))

unfoldable pub disclosure : PolicyEvaluationInput → DesiredCopy → DisclosureManifest
unfolding sorted_unique disclosed_fields read_fields written_fields sort text_le
disclosure input desired = record {
  preset = input.policy.privacy.preset;
  source_fields_read = sorted_unique (read_fields input);
  source_fields_disclosed = sorted_unique (disclosed_fields input);
  destination_fields_written = sorted_unique (written_fields desired);
  source_fields_omitted =
      sort text_le (filter (λ f. not (includes (disclosed_fields input) f)) omitted_source_fields);
}

abbrev json_if : String → Option String → Members → Members
json_if k none ms = ms
json_if k (some s) ms = member k (str s) ms

timing_json : EventTiming → JsonValue
timing_json (timed start finish start_tzid end_tzid) = obj (
    member "kind" (str "timed") (
      member "start_instant" (str start) (
        member "end_instant" (str finish)
          (member "start_tzid" (str start_tzid) (member "end_tzid" (str end_tzid) no_members)))))
timing_json (all_day start_date end_date timezone) = obj (
    member "kind" (str "all_day") (
      member "start_date" (str start_date)
        (member "end_date" (str end_date) (member "timezone" (str timezone) no_members))))

transparency_json : Transparency → JsonValue
transparency_json opaque = str "opaque"
transparency_json transparent = str "transparent"

visibility_json : Visibility → JsonValue
visibility_json Visibility.private_visibility = str "private"
visibility_json default_visibility = str "default"

provenance_json : Provenance → JsonValue
provenance_json q = obj (
    member "version" (num 1) (
      member "policy_ref" (str q.policy_ref) (
        member "projection_ref" (str q.projection_ref)
          (member "generation" (num q.generation) no_members))))

-- The object that `transform` builds, as `asJson` passes it on.
unfoldable pub desired_json : DesiredCopy → JsonValue
unfolding timing_json transparency_json visibility_json provenance_json
desired_json d = obj (
    member "timing" (timing_json d.timing) (
      member "summary" (str d.summary) (
        member "transparency" (transparency_json d.transparency) (
          member "visibility" (visibility_json d.visibility) (
            member "reminders" (arr no_items) (
              member "write_controls" (obj (member "send_notifications" (bool false) no_members)) (
                member "provenance" (provenance_json d.provenance) (
                  json_if "description" d.description (
                    json_if "location" d.location (
                      json_if "conference" d.conference
                        (json_if "color" d.color no_members)))))))))))
