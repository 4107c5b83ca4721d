-- ===== src/Planning/Slots.antt =====
-- server/src/planning/engine.ts: `chooseMeetingSlot`. The texts of instants are compared as texts.
use planipus.Common.{
  ℕ, zero, suc, ◌+◌, ◌-◌, ◌*◌, ◌/◌, String, Option, none, some, Bool, true, false, not, ◌&&◌, ◌||◌,
  List, [], ◌∷◌, ◌++◌, ltb, leb, ◌==◌, if◌then◌else◌, any, Result, ok, err,
}
use planipus.Common.Sorting.{sort}
use planipus.CalendarSync.Json.{Text, codes, text_le}
use planipus.CalendarSync.Types.{InstantInterval}
use planipus.Planning.Types.{SmartMeetingDraft, PlanningBusyInterval, Clock, step_minutes}

pub data PlanningError : Type 0 where
  range_error : PlanningError

-- `left < right` on texts
abbrev pub text_lt : String → String → Bool
text_lt a b = not (text_le b a)

abbrev pub overlaps : InstantInterval → InstantInterval → Bool
overlaps left right = text_lt left.start right.«end» && text_lt right.start left.«end»

abbrev pub align_to_step : ℕ → ℕ → ℕ
align_to_step milliseconds step = (milliseconds + (step - 1)) / step * step

-- The digits before the next colon, and what stands behind it.
abbrev split_number : ℕ → Text → ℕ × Text
split_number n [] = (n, [])
split_number n (c ∷ cs) = elim (c == b':') [
  | true ↦ (n, cs)
  | false ↦ split_number (n * 10 + (c - b'0')) cs
]

-- The minutes of a time that the validation has accepted: digits between colons.
unfoldable pub clock_minutes : String → ℕ
clock_minutes value =
    let (hour, rest) = split_number 0 (codes value) in hour * 60 + (split_number 0 rest).0

abbrev pub local_minute_of_day : Clock → String → String → ℕ
local_minute_of_day clock instant timezone =
    let (hour, minute) = clock.local_clock instant timezone in hour * 60 + minute

-- The last instant of a `Date`.
abbrev pub last_time : ℕ
last_time = 17280000000000000

unfoldable pub to_iso : Clock → Option ℕ → Result PlanningError String
to_iso clock none = err range_error
to_iso clock (some n) = if ltb last_time n then err range_error else ok (clock.iso n)

pub record Candidate : Type 0 where
  pub interval : InstantInterval
  pub score : ℕ
  pub rejected_before : ℕ

-- `rejected` and `candidates`
pub record Search : Type 0 where
  pub rejected : ℕ
  pub candidates : List Candidate

pub record SelectedSlot : Type 0 where
  pub interval : InstantInterval
  pub rejected : ℕ

abbrev pub distance : ℕ → ℕ → ℕ
distance a b = (a - b) + (b - a)

module _ (clock : Clock) (draft : SmartMeetingDraft) where
  abbrev pub step_milliseconds : ℕ
  step_milliseconds = step_minutes draft.start_step * 60000

  -- The values of the loop over durations that starts at `duration`.
  unfoldable pub durations_from : ℕ → ℕ → List ℕ
  durations_from zero duration = []
  durations_from (suc fuel) duration = elim (leb draft.minimum_duration_minutes duration) [
    | false ↦ []
    | true ↦ elim (leb (step_minutes draft.start_step) duration) [
      | true ↦ duration ∷ durations_from fuel (duration - step_minutes draft.start_step)
      | false ↦ duration ∷ []
    ]
  ]

  unfoldable pub durations : List ℕ
  durations =
      let found =
        durations_from (suc draft.maximum_duration_minutes) draft.maximum_duration_minutes in
      if any (λ d. d == draft.minimum_duration_minutes) found
      then found
      else found ++ draft.minimum_duration_minutes ∷ []

  -- The values of the loop over `cursor` in a window that ends at `end_time`.
  unfoldable pub cursors_from : ℕ → ℕ → ℕ → ℕ → List ℕ
  cursors_from zero cursor duration end_time = []
  cursors_from (suc fuel) cursor duration end_time =
      elim (leb (cursor + duration * 60000) end_time) [
        | true ↦ cursor ∷ cursors_from fuel (cursor + step_milliseconds) duration end_time
        | false ↦ []
      ]

  -- A cursor is at most the end of the window, and grows.
  unfoldable pub window_cursors : ℕ → Option ℕ → Option ℕ → List ℕ
  window_cursors duration (some start) (some end_time) =
      cursors_from (suc end_time) (align_to_step start step_milliseconds) duration end_time
  window_cursors duration (some start) none = []
  window_cursors duration none end_time = []

  abbrev pub slot : ℕ → ℕ → InstantInterval
  slot duration cursor = record {
    start = clock.iso cursor;
    «end» = clock.iso (cursor + duration * 60000);
  }

  abbrev pub score_of : ℕ → ℕ → ℕ
  score_of duration cursor =
      distance (local_minute_of_day clock (clock.iso cursor) draft.timezone)
        (clock_minutes draft.preferred_time)
      + (draft.maximum_duration_minutes - duration) * 5

  abbrev pub candidate_le : Candidate → Candidate → Bool
  candidate_le left right =
      ltb left.score right.score
      || (left.score == right.score
          && (not (clock.locale_le right.interval.start left.interval.start)
              || (clock.locale_le left.interval.start right.interval.start
                  && clock.locale_le left.interval.«end» right.interval.«end»)))

  module _ (busy : List PlanningBusyInterval) (used : List InstantInterval)
      (earliest : String) where
    unfoldable pub conflicts_with : InstantInterval → Bool
    conflicts_with candidate =
        text_lt candidate.start earliest
        || any (λ b. overlaps candidate b.interval) busy
        || any (overlaps candidate) used

    unfoldable pub try_cursor : ℕ → Search → ℕ → Search
    try_cursor duration s cursor =
        if conflicts_with (slot duration cursor)
        then record s { rejected = s.rejected + 1 }
        else record s {
          candidates =
              s.candidates
              ++ record {
                interval = slot duration cursor;
                score = score_of duration cursor;
                rejected_before = s.rejected;
              }
                ∷ [];
        }

    unfoldable pub try_cursors : ℕ → Search → List ℕ → Search
    try_cursors duration s [] = s
    try_cursors duration s (c ∷ cs) = try_cursors duration (try_cursor duration s c) cs

    unfoldable pub try_duration : ℕ → List InstantInterval → Search → Search
    try_duration duration [] s = s
    try_duration duration (w ∷ windows) s = try_duration duration windows (
        try_cursors duration s
          (window_cursors duration (clock.parse w.start) (clock.parse w.«end»)))

    abbrev pub is_found : List Candidate → Bool
    is_found [] = false
    is_found (_ ∷ _) = true

    unfoldable pub search_durations : List InstantInterval → List ℕ → Search → Search
    search_durations windows [] s = s
    search_durations windows (d ∷ ds) s =
        let tried = try_duration d windows s in
        elim (is_found tried.candidates) [
          | true ↦ tried
          | false ↦ search_durations windows ds tried
        ]

    abbrev pub first_slot : List Candidate → Option SelectedSlot
    first_slot [] = none
    first_slot (c ∷ _) = some (record { interval = c.interval; rejected = c.rejected_before })

    unfoldable pub best_slot : List InstantInterval → Option SelectedSlot
    best_slot windows = first_slot (
        sort candidate_le
          (search_durations windows durations
            (record { rejected = 0; candidates = [] })).candidates)

  unfoldable pub earliest_start : String → Result PlanningError String
  earliest_start now = elim (clock.parse now) [
    | none ↦ err range_error
    | some n ↦ to_iso clock (some (n + draft.lock_before_minutes * 60000))
  ]

  -- A window that does not parse counts for nothing; those of `materializeHours` parse.
  unfoldable pub candidate_count : List InstantInterval → ℕ
  candidate_count [] = 0
  candidate_count (w ∷ windows) =
      let rest = candidate_count windows in
      elim (clock.parse w.start) [
        | none ↦ rest
        | some start ↦ elim (clock.parse w.«end») [
          | none ↦ rest
          | some end_time ↦
              (if leb (start + draft.minimum_duration_minutes * 60000) end_time
                then (end_time - start - draft.minimum_duration_minutes * 60000) / step_milliseconds
                  + 1
                else 0)
              + rest
        ]
      ]
