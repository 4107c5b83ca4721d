-- ===== src/CalendarSync/Samples.antt =====
-- A platform, a policy and an event that the tests and the examples share. Instants, dates and times
-- are written as decimal numbers.
use planipus.Common.{
  ℕ, ◌+◌, ◌-◌, ◌*◌, ◌≡◌, refl, String, Option, none, some, Bool, true, false, ◌&&◌, [], ◌∷◌, ◌==◌,
  ◌/◌, ◌%◌, length, leb, if◌then◌else◌, ok,
}
use planipus.CalendarSync.Json.{Text, codes, sha256_canonical}
use planipus.CalendarSync.Types.{
  ReasonCode, same_reason, HoursProfile, earlier_offset, shift_forward_by_gap, HoursMode,
}
use planipus.CalendarSync.Platform.{Platform}
use planipus.CalendarSync.Events.{
  timed, Lifecycle, Origin, Role, Response, SourceObservation, busy_only, TimedSelection,
  AllDaySelection, FreeEvents, ReplyHandling, PolicyState, SyncPolicy, DesiredCopy, Ownership,
  PolicyEvaluationInput, PolicyEvaluationResult, Selection, Operation, opaque, Visibility,
}
use planipus.CalendarSync.Evaluate.NoSync.{contains_no_sync}
use planipus.CalendarSync.Evaluate.Transform.{desired_copy, disclosure, desired_json}
use planipus.CalendarSync.Evaluate.Validation.{
  validate, excluded, effective_availability, timing_interval, overlaps,
}
use planipus.CalendarSync.Evaluate.Decision.{
  evaluate_policy, select_kind, select_free, select_hours, emit, choose_operation, privacy_reason,
}
use planipus.CalendarSync.Hours.Evaluation.{evaluate_hours}

-- What a test of `evaluatePolicy` computes through.
unfoldable pub evaluation : Unit {0}
unfolding privacy_reason evaluate_policy validate contains_no_sync effective_availability
    timing_interval overlaps select_kind select_free select_hours evaluate_hours emit
    sha256_canonical desired_json desired_copy choose_operation disclosure same_reason excluded
evaluation = tt

abbrev decimal_digit : ℕ → Option ℕ
decimal_digit c = if leb b'0' c && leb c b'9' then some (c - b'0') else none

abbrev read_from : ℕ → Text → Option ℕ
read_from n [] = some n
read_from n (c ∷ cs) = elim (decimal_digit c) [ none ↦ none | some d ↦ read_from (n * 10 + d) cs ]

abbrev read : String → Option ℕ
read s = read_from 0 (codes s)

abbrev pub is_letter : ℕ → Bool
is_letter c = leb b'a' c && leb c b'z'

-- A platform in whose one time zone a day has a hundred instants.
abbrev pub sample : Platform
sample = record {
  instant_from = read;
  instant_text = λ n. if n == 110 then "110" else if n == 150 then "150" else "?";
  date_from = read;
  date_text = λ n. if n == 1 then "1" else "?";
  day_of_week = λ n. n % 7;
  add_days = λ d n. some (d + n);
  subtract_day = λ d. if d == 0 then none else some (d - 1);
  time_from = read;
  zoned_from = λ _ tz d t. some (record { instant = d * 100 + t; date = d; time = t });
  start_of_date = λ tz d. some (d * 100);
  local_date = λ tz n. some (n / 100);
  nfc = λ s. s;
  trim = λ s. s;
  to_lower_case = λ s. s;
  fold = λ c. c;
  is_word = is_letter;
  sha256 = λ t. if leb 300 (length t) then "long" else "short";
}

-- Working hours on weekday 1 only.
abbrev pub work : HoursProfile
work = record {
  profile_ref = "work";
  revision = 1;
  timezone = "UTC";
  ambiguous = earlier_offset;
  nonexistent = shift_forward_by_gap;
  weekly =
      record { local = record { start = "10"; «end» = "50"; end_day_offset = 0 }; weekday = 1 }
      ∷ [];
  exceptions = [];
}

abbrev pub source_event : SourceObservation
source_event = record {
  source_event_ref = "e1";
  source_occurrence_ref = "o1";
  remote_revision = "r1";
  lifecycle = Lifecycle.confirmed;
  origin = Origin.provider_original;
  timing = some (timed "120" "130" "UTC" "UTC");
  recurrence = none;
  availability = none;
  relationship = record {
    role = Role.organizer;
    response = Response.not_applicable;
    response_note = none;
  };
  destination_identity_invited = false;
  content = record {
    summary = some "dentist";
    description = none;
    location = some "main st";
    conference = none;
  };
  attendees = some ("bob" ∷ []);
  organizer_identity = none;
  attachments = none;
  source_url = none;
  provider_metadata = none;
}

abbrev pub bridge : SyncPolicy
bridge = record {
  policy_ref = "p1";
  revision = 1;
  state = PolicyState.active;
  source_calendar_ref = "home";
  destination_calendar_ref = "office";
  hours_mode = HoursMode.overlaps_profile;
  hours_profile_ref = some "work";
  privacy = record {
    preset = busy_only;
    generic_summary = "Busy";
    copy_summary = false;
    copy_description = false;
    copy_location = false;
    copy_conference = false;
    copy_attendees = false;
    copy_organizer = false;
  };
  selection = record {
    timed = TimedSelection.include;
    all_day = AllDaySelection.skip_all_day;
    free_events = FreeEvents.skip_when_redacted;
    tentative = ReplyHandling.as_busy;
    unanswered = ReplyHandling.omit;
    skip_when_destination_identity_invited = true;
    source_exclusion_marker = "#nosync";
    manual_exclusions = [];
  };
  color = none;
  destination_edits = none;
}

abbrev pub fresh : PolicyEvaluationInput
fresh = record {
  now = "100";
  horizon = record { start = "0"; «end» = "900" };
  candidate_projection_ref = "c1";
  policy = bridge;
  hours_profile = some work;
  source = source_event;
  projection = record {
    ownership = Ownership.unowned;
    projection_ref = none;
    generation = none;
    destination_event_ref = none;
    destination_exists = none;
    desired_fingerprint = none;
    observed_copy = none;
  };
  destination_capabilities = record {
    writable = true;
    private_visibility = true;
    conference_copy = false;
    color = false;
  };
}

abbrev pub busy_copy : DesiredCopy
busy_copy = record {
  timing = timed "120" "130" "UTC" "UTC";
  summary = "Busy";
  description = none;
  location = none;
  conference = none;
  transparency = opaque;
  visibility = Visibility.private_visibility;
  color = none;
  provenance = record { policy_ref = "p1"; projection_ref = "c1"; generation = 1 };
}

abbrev pub created : PolicyEvaluationResult
created = record {
  selection = Selection.included;
  operation = Operation.create;
  primary_reason_code = ReasonCode.create_missing_copy;
  reason_codes =
      ReasonCode.organizer_assumed_accepted ∷ ReasonCode.timed_event_included
      ∷ ReasonCode.overlaps_hours ∷ ReasonCode.privacy_busy_only ∷ ReasonCode.create_missing_copy
      ∷ [];
  desired_copy = some busy_copy;
  desired_fingerprint = some "sha256:long";
  disclosure_manifest = some (record {
    preset = busy_only;
    source_fields_read =
        "/availability" ∷ "/content/description" ∷ "/content/summary"
        ∷ "/destination_identity_invited" ∷ "/origin" ∷ "/relationship" ∷ "/timing" ∷ [];
    source_fields_disclosed = "/timing" ∷ [];
    destination_fields_written =
        "/provenance" ∷ "/reminders" ∷ "/summary" ∷ "/timing" ∷ "/transparency" ∷ "/visibility"
        ∷ "/write_controls" ∷ [];
    source_fields_omitted =
        "/attachments" ∷ "/attendees" ∷ "/content/conference" ∷ "/content/description"
        ∷ "/content/location" ∷ "/content/summary" ∷ "/organizer" ∷ "/provider_metadata"
        ∷ "/source_url" ∷ [];
  });
  warnings = [];
}

pub fresh-created : evaluate_policy sample fresh ≡ ok created
unfolding evaluation
fresh-created = refl
