-- ===== src/CalendarSync/Hours/Range.antt =====
-- hours.ts: the loops over dates visit each date of their range.
use planipus.Common.{
  ok_eq, ℕ, zero, suc, ◌+◌, ◌≤◌, ◌<◌, ◌≡◌, inl, inr, ◌↔◌, some, Bool, List, [], ltb, ok, arith,
}
use native.Mathlib.Decide.{dec_le}
use mathlib.Core.List.{Memᴰ}
use mathlib.Core.List.Memᴰ
use planipus.CalendarSync.Types.{ReasonCode, HoursProfile}
use planipus.CalendarSync.Platform.{Platform}
use planipus.CalendarSync.Hours.Intervals.{ConcreteInterval, intervals_for_date, collect_days}
use planipus.CalendarSync.Hours.Concrete.{collect_days-cases}

-- Temporal's `add({ days: 1 })` gives the next date where it gives one.
abbrev pub NextDay : Platform → Type 0
NextDay p = (d e : ℕ) → p.add_days d 1 ≡ some e → e ≡ d + 1

-- The interval is one of those of the date.
abbrev pub OnDate : Platform → HoursProfile → ℕ → ConcreteInterval → Type 0
OnDate p profile d c =
    (found : List ConcreteInterval × List ReasonCode) × (intervals_for_date p profile d ≡ ok found)
    × Memᴰ c found.0

module _ (p : Platform) (profile : HoursProfile) (law : NextDay p) (last : ℕ) where
  abbrev before_last : ℕ → Bool
  before_last d = ltb d last

  collect_days_sound :
      (room date : ℕ) (cs : List ConcreteInterval) (ds : List ReasonCode) (c : ConcreteInterval)
      → collect_days p profile before_last room date ≡ ok (cs, ds)
      → Memᴰ c cs
      → (d : ℕ) × (date ≤ d) × (d < last) × OnDate p profile d c
  unfolding collect_days
  collect_days_sound zero date cs ds c e m =
      let same : [] ≡ cs = ground arith in absurd (Memᴰ.not-nil (rw (← same) at m))
  collect_days_sound (suc room) date cs ds c e m =
      elim (collect_days-cases p profile before_last room date cs ds e) [
        | inl (_, same) ↦ absurd (Memᴰ.not-nil (rw same at m))
        | inr (h, n, r, on, here, next, rest, both) ↦ elim (Memᴰ.append_cases h.0 (rw both at m)) [
          | inl i ↦ (date, omega arith, ground arith, (h, here, i))
          | inr i ↦
              let step = law date n next in
              let (d, lo, hi, o) = collect_days_sound room n r.0 r.1 c rest i in
              (d, omega arith, hi, o)
        ]
      ]

  collect_days_complete :
      (room date d : ℕ) (cs : List ConcreteInterval) (ds : List ReasonCode) (c : ConcreteInterval)
      → collect_days p profile before_last room date ≡ ok (cs, ds)
      → date ≤ d
      → d < last
      → OnDate p profile d c
      → Memᴰ c cs
  unfolding collect_days
  collect_days_complete zero date d cs ds c e lo hi o = absurd (ground arith)
  collect_days_complete (suc room) date d cs ds c e lo hi o =
      elim (collect_days-cases p profile before_last room date cs ds e) [
        | inl (stops, _) ↦ absurd (ground arith)
        | inr (h, n, r, _, here, next, rest, both) ↦ elim (dec_le d date) [
          | yes le ↦
              let same : d ≡ date = omega arith in
              let (x, there, i) = o in
              let found : x ≡ h = ok_eq (rw same at there) here in
              rw both (Memᴰ.append_left r.0 (rw found at i))
          | no gt ↦
              let step = law date n next in
              rw both (
                Memᴰ.append_right h.0
                  (collect_days_complete room n d r.0 r.1 c rest (omega arith) hi o))
        ]
      ]

-- Where the loop over the dates from `date` up to `last`, which it leaves out, gives a result, its
-- intervals are exactly those of the dates of that range, if Temporal's next date is the next one.
pub collect_days_iff :
    (p : Platform) (profile : HoursProfile) (law : NextDay p) (room date last : ℕ)
    (cs : List ConcreteInterval) (ds : List ReasonCode) (c : ConcreteInterval)
    → collect_days p profile (λ d. ltb d last) room date ≡ ok (cs, ds)
    → Memᴰ c cs ↔ ((d : ℕ) × (date ≤ d) × (d < last) × OnDate p profile d c)
collect_days_iff p profile law room date last cs ds c e = (
  collect_days_sound p profile law last room date cs ds c e,
  λ (d, lo, hi, o). collect_days_complete p profile law last room date d cs ds c e lo hi o,
)
