-- ===== src/CalendarSync/Hours/Intervals.antt =====
-- packages/calendar-sync/src/hours.ts: from a profile to the concrete intervals of a date.
-- Diagnostics that the source pushes to a shared array are returned beside the value; a `throw`
-- discards them there too.
use planipus.Common.{
  ℕ, zero, suc, String, Option, none, some, Bool, true, false, ◌&&◌, ◌||◌, List, [], ◌∷◌, ◌++◌, map,
  ltb, leb, ◌==◌, str_eq, if◌then◌else◌, find, filter, Result, ok, err, ◌>>=◌, or_throw,
}
use Prim.Native.String
use mathlib.Core.List.{flat_map}
use planipus.Common.Sorting.{sort}
use planipus.CalendarSync.Types.{
  ReasonCode, InstantInterval, LocalInterval, HoursException, closed, replace, add, remove,
  HoursProfile, earlier_offset, later_offset, reject, shift_forward_by_gap,
}
use planipus.CalendarSync.Platform.{Platform, Zoned, rejecting, earlier, later}

pub record ConcreteInterval : Type 0 where
  pub start : ℕ
  pub «end» : ℕ

-- A `DstResolutionError`, or the `RangeError` of a library call.
pub data HoursError : Type 0 where
  dst_resolution range_error : HoursError

abbrev pub interval : ℕ → ℕ → ConcreteInterval
interval s e = record { start = s; «end» = e }

unfoldable pub subtract_interval : ConcreteInterval → ConcreteInterval → List ConcreteInterval
subtract_interval base removal =
    if leb removal.«end» base.start || leb base.«end» removal.start
    then base ∷ []
    else (if ltb base.start removal.start then interval base.start removal.start ∷ [] else [])
      ++ (if ltb removal.«end» base.«end» then interval removal.«end» base.«end» ∷ [] else [])

-- The loop over the removals of an exception.
unfoldable pub subtract_all : List ConcreteInterval → List ConcreteInterval → List ConcreteInterval
unfolding subtract_interval
subtract_all concrete [] = concrete
subtract_all concrete (r ∷ rs) = subtract_all (flat_map (λ b. subtract_interval b r) concrete) rs

-- `.filter((interval) => interval !== undefined)`
unfoldable pub present {ℓ} : {A : Type ℓ} → List (Option A) → List A
present [] = []
present (none ∷ xs) = present xs
present (some x ∷ xs) = x ∷ present xs

abbrev pub exception_date : HoursException → String
exception_date (closed d) = d
exception_date (replace d xs) = d
exception_date (add d xs) = d
exception_date (remove d xs) = d

abbrev is_at : Zoned → ℕ → ℕ → Bool
is_at z date time = z.date == date && z.time == time

unfoldable pub optional : Option ReasonCode → List ReasonCode
optional none = []
optional (some r) = r ∷ []

module _ (p : Platform) (profile : HoursProfile) where
  -- The `catch` block of `resolveLocal`: the local time occurs twice, or never.
  unfoldable pub resolve_irregular : ℕ → ℕ → Result HoursError (ℕ × Option ReasonCode)
  resolve_irregular date time = do
    first ← or_throw dst_resolution (p.zoned_from earlier profile.timezone date time)
    second ← or_throw dst_resolution (p.zoned_from later profile.timezone date time)
    if is_at first date time && is_at second date time
        then elim profile.ambiguous [
          | earlier_offset ↦ ok (first.instant, some ReasonCode.dst_ambiguous_earlier)
          | later_offset ↦ ok (second.instant, some ReasonCode.dst_ambiguous_later)
        ]
        else elim profile.nonexistent [
          | reject ↦ err dst_resolution
          | shift_forward_by_gap ↦ ok (second.instant, some ReasonCode.dst_nonexistent_shifted)
        ]

  unfoldable pub resolve_local : ℕ → String → Result HoursError (ℕ × Option ReasonCode)
  unfolding resolve_irregular
  resolve_local date time_text = do
    time ← or_throw range_error (p.time_from time_text)
    elim (p.zoned_from rejecting profile.timezone date time) [
      | some z ↦ ok (z.instant, none)
      | none ↦ resolve_irregular date time
    ]

  unfoldable pub materialize :
      ℕ → LocalInterval → Result HoursError (Option ConcreteInterval × List ReasonCode)
  unfolding resolve_local optional
  materialize date local = do
    start ← resolve_local date local.start
    end_date ← or_throw range_error (p.add_days date local.end_day_offset)
    finish ← resolve_local end_date local.«end»
    ok (
      if leb finish.0 start.0 then none else some (interval start.0 finish.0),
      optional start.1 ++ optional finish.1,
    )

  unfoldable pub materialize_each :
      ℕ → List LocalInterval → Result HoursError (List ConcreteInterval × List ReasonCode)
  unfolding materialize present
  materialize_each date [] = ok ([], [])
  materialize_each date (l ∷ ls) = do
    first ← materialize date l
    rest ← materialize_each date ls
    ok (present (first.0 ∷ []) ++ rest.0, first.1 ++ rest.1)

  -- The weekly intervals of a date, in the profile's order.
  unfoldable pub weekly_for : ℕ → List LocalInterval
  weekly_for date =
      map (λ w. w.local) (filter (λ w. w.weekday == p.day_of_week date) profile.weekly)

  -- The intervals of a date under its exception, if it has one.
  unfoldable pub intervals_under :
      ℕ → Option HoursException → Result HoursError (List ConcreteInterval × List ReasonCode)
  unfolding materialize_each weekly_for subtract_all
  intervals_under date none = materialize_each date (weekly_for date)
  intervals_under date (some (closed _)) = ok ([], [])
  intervals_under date (some (replace _ xs)) = materialize_each date xs
  intervals_under date (some (add _ xs)) = materialize_each date (weekly_for date ++ xs)
  intervals_under date (some (remove _ xs)) = do
    concrete ← materialize_each date (weekly_for date)
    removals ← materialize_each date xs
    ok (subtract_all concrete.0 removals.0, concrete.1 ++ removals.1)

  unfoldable pub intervals_for_date :
      ℕ → Result HoursError (List ConcreteInterval × List ReasonCode)
  unfolding intervals_under
  intervals_for_date date =
      intervals_under date
        (find (λ e. str_eq (exception_date e) (p.date_text date)) profile.exceptions)

  -- The `while` loop over dates, as long as `goes_on`. `room` is 371 less `days`: the loop throws
  -- where `days > 370`.
  unfoldable pub collect_days :
      (ℕ → Bool) → ℕ → ℕ → Result HoursError (List ConcreteInterval × List ReasonCode)
  unfolding intervals_for_date
  collect_days goes_on zero date = if goes_on date then err dst_resolution else ok ([], [])
  collect_days goes_on (suc room) date = elim (goes_on date) [
    | false ↦ ok ([], [])
    | true ↦ do
      here ← intervals_for_date date
      next ← or_throw range_error (p.add_days date 1)
      rest ← collect_days goes_on room next
      ok (here.0 ++ rest.0, here.1 ++ rest.1)
  ]

-- `byKey.set(key, interval)`: a key that is there keeps its place and takes the new value.
unfoldable pub put_interval :
    String → ConcreteInterval → List (String × ConcreteInterval) → List (String × ConcreteInterval)
put_interval k c [] = (k, c) ∷ []
put_interval k c ((j, d) ∷ m) = if str_eq j k then (j, c) ∷ m else (j, d) ∷ put_interval k c m

module _ (p : Platform) where
  unfoldable pub interval_key : ConcreteInterval → String
  interval_key c = String.◌++◌ (p.instant_text c.start) (String.◌++◌ "/" (p.instant_text c.«end»))

  unfoldable pub by_key :
      List (String × ConcreteInterval) → List ConcreteInterval → List (String × ConcreteInterval)
  unfolding put_interval interval_key
  by_key m [] = m
  by_key m (c ∷ cs) = by_key (put_interval (interval_key c) c m) cs

  -- The comparator of `sort`: by start, then by end.
  abbrev pub interval_le : ConcreteInterval → ConcreteInterval → Bool
  interval_le a b = ltb a.start b.start || (a.start == b.start && leb a.«end» b.«end»)

  unfoldable pub deduplicate_and_sort : List ConcreteInterval → List ConcreteInterval
  unfolding by_key sort
  deduplicate_and_sort cs = sort interval_le (map (λ e. e.1) (by_key [] cs))

  unfoldable pub public_intervals : List ConcreteInterval → List InstantInterval
  public_intervals cs =
      map (λ c. record { start = p.instant_text c.start; «end» = p.instant_text c.«end» }) cs
