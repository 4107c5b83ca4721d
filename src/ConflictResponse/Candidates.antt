-- ===== src/ConflictResponse/Candidates.antt =====
-- server/src/conflict-response/engine.ts: which rows become candidates for a private reply.
use planipus.Common.{
  ℕ, ◌-◌, ◌≤◌, ◌<◌, String, Option, none, some, ◌≡◌, true, false, Bool, ◌⊎◌, ok, err,
}
use planipus.CalendarSync.Json.{JsonValue, null, str, obj, Members, lookup_member}
use planipus.ConflictResponse.Records.{WorkInvitationCandidate, WorkObservationRow}
use planipus.ConflictResponse.Engine.{
  EngineError, range_error, type_error, Dates, date_parse, new_date, canonical_instant,
  work_invitation_candidate, max_declinable_invitation_milliseconds,
}

-- The value is absent, or null: reading a property of it throws.
abbrev pub IsNullish : Option JsonValue → Type 0
IsNullish v = (v ≡ none) ⊎ (v ≡ some null)

abbrev pub is_string : Option JsonValue → Bool
is_string (some (str _)) = true
is_string _ = false

-- The relationship is an object of an attendee that has not answered.
abbrev pub IsInvited : Option JsonValue → Type 0
IsInvited relationship =
    (ms : Members) × (relationship ≡ some (obj ms))
    × (lookup_member "role" ms ≡ some (str "attendee"))
    × (lookup_member "response" ms ≡ some (str "needs_action"))

module _ (dates : Dates) (now horizon : ℕ) where
  -- The timing is an object that says that the event is timed, whose times the parser reads: it starts
  -- after `now` and ends by the horizon, at most a week later.
  abbrev pub IsTimely : Option JsonValue → Option JsonValue → Option JsonValue → ℕ → ℕ → Type 0
  IsTimely timing from until s e =
      (ms : Members) × (timing ≡ some (obj ms))
      × (lookup_member "kind" ms ≡ some (str "timed"))
      × (lookup_member "start_instant" ms ≡ from)
      × (lookup_member "end_instant" ms ≡ until)
      × (date_parse dates from ≡ some s)
      × (date_parse dates until ≡ some e)
      × (now < s)
      × (s < e)
      × (e ≤ horizon)
      × (e - s ≤ max_declinable_invitation_milliseconds)

  abbrev pub SomeTimely : Option JsonValue → Type 0
  SomeTimely timing = (from until : Option JsonValue) × ((s e : ℕ) × IsTimely timing from until s e)

  -- An invitation that may be declined, by the members of its event.
  abbrev pub IsDeclinable : Members → Type 0
  IsDeclinable event =
      (lookup_member "lifecycle" event ≡ some (str "confirmed"))
      × (lookup_member "origin" event ≡ some (str "provider_original"))
      × (lookup_member "availability" event ≡ some (str "busy"))
      × IsInvited (lookup_member "relationship" event)

  module _ (to_iso : ℕ → String) where
    -- The instant that a candidate shows for a time that is `s` in the tests: the same, unless the
    -- time is not a text.
    abbrev pub IsShownAt : Option JsonValue → ℕ → String → Type 0
    IsShownAt value s shown =
        (a : ℕ) × (new_date dates value ≡ some a)
        × (shown ≡ to_iso a)
        × ((a ≡ s) ⊎ (is_string value ≡ false))

    -- A candidate for this row: it has the row's identities and the times of a declinable event.
    abbrev pub IsCandidate : WorkObservationRow → WorkInvitationCandidate → Type 0
    IsCandidate row c =
        (event : Members) × (row.normalized_event ≡ obj event)
        × (lookup_member "source_event_ref" event ≡ some (str row.remote_event_id))
        × IsDeclinable event
        × ((from until : Option JsonValue) × ((s e : ℕ) × IsTimely (lookup_member "timing" event)
                from until s e
              × (c.remote_event_id ≡ row.remote_event_id)
              × (c.remote_revision ≡ row.remote_etag)
              × IsShownAt from s c.start_at
              × IsShownAt until e c.end_at))

    -- An event that cannot be read: its relationship is missing, or a time is not a text.
    abbrev pub IsMisshapen : WorkObservationRow → EngineError → Type 0
    IsMisshapen row type_error =
        (event : Members) × (row.normalized_event ≡ obj event)
        × IsNullish (lookup_member "relationship" event)
    IsMisshapen row range_error =
        (event : Members) × (row.normalized_event ≡ obj event)
        × ((from until : Option JsonValue) × ((s e : ℕ) × IsTimely (lookup_member "timing" event)
                from until s e
              × ((is_string from ≡ false) ⊎ (is_string until ≡ false))))

    abbrev Shows : Option JsonValue → ℕ → Type 0
    Shows value s =
        ((shown : String) × (canonical_instant dates to_iso value ≡ ok shown)
          × IsShownAt value s shown)
        ⊎ ((canonical_instant dates to_iso value ≡ err range_error) × (is_string value ≡ false))

    -- What a run of the conversion answers.
    abbrev pub IsAnswer : WorkObservationRow → Type 0
    IsAnswer row =
        (work_invitation_candidate dates to_iso row now horizon ≡ ok none)
        ⊎ (((c : WorkInvitationCandidate) × (work_invitation_candidate dates to_iso row now horizon
                ≡ ok (some c))
              × IsCandidate row c)
            ⊎ ((x : EngineError) × (work_invitation_candidate dates to_iso row now horizon ≡ err x)
                × IsMisshapen row x))
