-- ===== src/CalendarSync/Platform.antt =====
-- What the package takes from the Temporal polyfill, from the JavaScript engine's Unicode tables and
-- from node's hashes, none of which is in the repository.
use planipus.Common.{ℕ, String, Option, Bool}
use planipus.CalendarSync.Json.{Text}

pub data Disambiguation : Type 0 where
  rejecting earlier later : Disambiguation

-- A `Temporal.ZonedDateTime`: its instant, and its local date and time.
pub record Zoned : Type 0 where
  pub instant : ℕ
  pub date : ℕ
  pub time : ℕ

-- Instants count nanoseconds from Temporal's first instant, dates count days from its first date,
-- and times count nanoseconds from midnight, so that Temporal's `compare` is the order of numbers.
-- `none` stands for the `RangeError` that Temporal throws.
pub record Platform : Type 0 where
  pub instant_from : String → Option ℕ
  -- `toString({ smallestUnit: "second" })`
  pub instant_text : ℕ → String
  pub date_from : String → Option ℕ
  pub date_text : ℕ → String
  pub day_of_week : ℕ → ℕ
  pub add_days : ℕ → ℕ → Option ℕ
  pub subtract_day : ℕ → Option ℕ
  pub time_from : String → Option ℕ
  pub zoned_from : Disambiguation → String → ℕ → ℕ → Option Zoned
  -- `ZonedDateTime.from` of a date at hour 0, with the default disambiguation.
  pub start_of_date : String → ℕ → Option ℕ
  -- `instant.toZonedDateTimeISO(timezone).toPlainDate()`
  pub local_date : String → ℕ → Option ℕ
  pub nfc : String → String
  pub trim : String → String
  pub to_lower_case : String → String
  -- The case folding of the regular expression flags `iu`, and the class [\p{L}\p{N}_] under them.
  pub fold : ℕ → ℕ
  pub is_word : ℕ → Bool
  pub sha256 : Text → String
