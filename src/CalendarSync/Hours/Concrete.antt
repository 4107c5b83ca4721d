-- ===== src/CalendarSync/Hours/Concrete.antt =====
-- hours.ts: the intervals that a profile gives are nonempty and sorted.
use planipus.Common.{
  ℕ, zero, suc, ◌≡◌, ◌⊎◌, inl, inr, String, Option, none, some, Bool, true, false, List, [], ◌∷◌,
  ◌++◌, map, All, All-append, Result, ok, bind-eq-ok, or_throw, str_eq, Bool-cases, arith, leb,
}
use planipus.Common.Sorting.{All-sort, IsSorted, sort-IsSorted}
use planipus.CalendarSync.Types.{
  ReasonCode, LocalInterval, HoursException, closed, replace, add, remove, HoursProfile,
}
use planipus.CalendarSync.Platform.{Platform}
use planipus.CalendarSync.Hours.Intervals.{
  ConcreteInterval, HoursError, range_error, present, resolve_local, materialize, materialize_each,
  weekly_for, intervals_under, intervals_for_date, subtract_all, collect_days, put_interval, by_key,
  interval_key, interval_le, deduplicate_and_sort,
}
use planipus.CalendarSync.Hours.Evaluation.{hours_intervals}
use planipus.CalendarSync.Hours.Subtraction.{IsNonempty, subtract_all-IsNonempty}

abbrev pub Found : Type 0
Found = Result HoursError (List ConcreteInterval × List ReasonCode)

-- Where there is a result, its intervals are nonempty.
abbrev AllNonempty : Found → Type 0
AllNonempty m =
    (cs : List ConcreteInterval) (ds : List ReasonCode) → m ≡ ok (cs, ds) → All IsNonempty cs

module _ (p : Platform) (profile : HoursProfile) where
  materialize-IsNonempty :
      (date : ℕ) (l : LocalInterval) (o : Option ConcreteInterval) (ds : List ReasonCode)
      → materialize p profile date l ≡ ok (o, ds)
      → All IsNonempty (present (o ∷ []))
  unfolding materialize present
  materialize-IsNonempty date l o ds e =
      let (s, e1, e') = bind-eq-ok (resolve_local p profile date l.start) _ e in
      let (n, e2, f) = bind-eq-ok (or_throw range_error (p.add_days date l.end_day_offset)) _ e' in
      let (t, e3, g) = bind-eq-ok (resolve_local p profile n l.«end») _ f in ground arith

  materialize_each-IsNonempty :
      (date : ℕ) (ls : List LocalInterval) → AllNonempty (materialize_each p profile date ls)
  unfolding materialize_each
  materialize_each-IsNonempty date [] cs ds e = let same : [] ≡ cs = cc in rw (← same) tt
  materialize_each-IsNonempty date (l ∷ ls) cs ds e =
      let ((o, d), e1, e') = bind-eq-ok (materialize p profile date l) _ e in
      let ((rs, d'), e2, f) = bind-eq-ok (materialize_each p profile date ls) _ e' in
      let same : present (o ∷ []) ++ rs ≡ cs = cc in
      rw (← same) (
        All-append IsNonempty (present (o ∷ [])) rs (materialize-IsNonempty date l o d e1)
          (materialize_each-IsNonempty date ls rs d' e2))

  intervals_under-IsNonempty :
      (date : ℕ) (x : Option HoursException) → AllNonempty (intervals_under p profile date x)
  unfolding intervals_under
  intervals_under-IsNonempty date none cs ds e = materialize_each-IsNonempty date _ cs ds e
  intervals_under-IsNonempty date (some (closed _)) cs ds e =
      let same : [] ≡ cs = cc in rw (← same) tt
  intervals_under-IsNonempty date (some (replace _ xs)) cs ds e =
      materialize_each-IsNonempty date xs cs ds e
  intervals_under-IsNonempty date (some (add _ xs)) cs ds e =
      materialize_each-IsNonempty date _ cs ds e
  intervals_under-IsNonempty date (some (remove _ xs)) cs ds e =
      let ((bs, d), e1, e') =
        bind-eq-ok (materialize_each p profile date (weekly_for p profile date)) _ e in
      let ((rs, d'), e2, f) = bind-eq-ok (materialize_each p profile date xs) _ e' in
      let same : subtract_all bs rs ≡ cs = cc in
      rw (← same) (subtract_all-IsNonempty bs rs (materialize_each-IsNonempty date _ bs d e1))

  -- One round of the loop over dates that gives a result.
  pub collect_days-cases :
      (goes_on : ℕ → Bool) (room date : ℕ) (cs : List ConcreteInterval) (ds : List ReasonCode)
      → collect_days p profile goes_on (suc room) date ≡ ok (cs, ds)
      → ((goes_on date ≡ false) × (cs ≡ []))
        ⊎ ((here : List ConcreteInterval × List ReasonCode) × (next : ℕ) × (rest : List
                ConcreteInterval
              × List ReasonCode)
            × (goes_on date ≡ true)
            × (intervals_for_date p profile date ≡ ok here)
            × (p.add_days date 1 ≡ some next)
            × (collect_days p profile goes_on room next ≡ ok rest)
            × (cs ≡ here.0 ++ rest.0))
  unfolding collect_days
  collect_days-cases goes_on room date cs ds e = elim (Bool-cases (goes_on date)) [
    | inr done ↦ inl (done, ground arith)
    | inl more ↦
        let (h, e1, e') =
          bind-eq-ok (intervals_for_date p profile date) _ (rw (more, collect_days) at e) in
        let (n, e2, f) = bind-eq-ok (or_throw range_error (p.add_days date 1)) _ e' in
        let (r, e3, g) = bind-eq-ok (collect_days p profile goes_on room n) _ f in
        inr (h, n, r, more, e1, ground arith, e3, cc)
  ]

  collect_days-IsNonempty :
      (goes_on : ℕ → Bool) (room date : ℕ) → AllNonempty (collect_days p profile goes_on room date)
  unfolding collect_days intervals_for_date
  collect_days-IsNonempty goes_on zero date cs ds e =
      let same : [] ≡ cs = ground arith in rw (← same) tt
  collect_days-IsNonempty goes_on (suc room) date cs ds e =
      elim (collect_days-cases goes_on room date cs ds e) [
        | inl (_, none_found) ↦ rw none_found tt
        | inr (h, n, r, _, here_ok, _, rest_ok, both) ↦ rw both (
            All-append IsNonempty h.0 r.0 (intervals_under-IsNonempty date _ h.0 h.1 here_ok)
              (collect_days-IsNonempty goes_on room n r.0 r.1 rest_ok))
      ]

values : List (String × ConcreteInterval) → List ConcreteInterval
values m = map (λ e. e.1) m

module _ (p : Platform) where
  put_interval-IsNonempty :
      (k : String) (c : ConcreteInterval) (m : List (String × ConcreteInterval))
      → IsNonempty c
      → All IsNonempty (values m)
      → All IsNonempty (values (put_interval k c m))
  unfolding put_interval values
  put_interval-IsNonempty k c [] h a = (h, tt)
  put_interval-IsNonempty k c ((j, d) ∷ m) h (b, a) = elim (Bool-cases (str_eq j k)) [
    | inl same ↦ rw same (h, a)
    | inr other ↦ rw other (b, put_interval-IsNonempty k c m h a)
  ]

  by_key-IsNonempty :
      (m : List (String × ConcreteInterval)) (cs : List ConcreteInterval)
      → All IsNonempty (values m)
      → All IsNonempty cs
      → All IsNonempty (values (by_key p m cs))
  unfolding by_key
  by_key-IsNonempty m [] a h = a
  by_key-IsNonempty m (c ∷ cs) a (k, h) =
      by_key-IsNonempty (put_interval (interval_key p c) c m) cs
        (put_interval-IsNonempty (interval_key p c) c m k a) h

  deduplicate_and_sort-IsNonempty :
      (cs : List ConcreteInterval) → All IsNonempty cs → All IsNonempty (deduplicate_and_sort p cs)
  unfolding deduplicate_and_sort values
  deduplicate_and_sort-IsNonempty cs h =
      All-sort (interval_le p) IsNonempty (values (by_key p [] cs)) (by_key-IsNonempty [] cs tt h)

  interval_le_total :
      (a b : ConcreteInterval) → interval_le p a b ≡ false → interval_le p b a ≡ true
  interval_le_total a b h = ground arith

  interval_le_trans :
      (a b c : ConcreteInterval)
      → interval_le p a b ≡ true
      → interval_le p b c ≡ true
      → interval_le p a c ≡ true
  interval_le_trans a b c h k = ground arith

  pub deduplicate_and_sort-IsSorted :
      (cs : List ConcreteInterval) → IsSorted (interval_le p) (deduplicate_and_sort p cs)
  unfolding deduplicate_and_sort values
  deduplicate_and_sort-IsSorted cs =
      sort-IsSorted (interval_le p) interval_le_total interval_le_trans (values (by_key p [] cs))

-- Where the hours of an event can be worked out, every interval ends after it starts, and the
-- intervals stand in the order of their starts, those with one start in the order of their ends.
pub hours_intervals_well_formed :
    (p : Platform) (profile : HoursProfile) (s e : ℕ) (cs : List ConcreteInterval)
    (ds : List ReasonCode)
    → hours_intervals p profile s e ≡ ok (cs, ds)
    → All IsNonempty cs × IsSorted (interval_le p) cs
unfolding hours_intervals
hours_intervals_well_formed p profile s e cs ds h =
    let (a, e1, f) = bind-eq-ok (or_throw range_error (p.local_date profile.timezone s)) _ h in
    let (b, e2, g) = bind-eq-ok (or_throw range_error (p.subtract_day a)) _ f in
    let (c, e3, i) = bind-eq-ok (or_throw range_error (p.local_date profile.timezone e)) _ g in
    let ((fs, fd), e4, j) = bind-eq-ok (collect_days p profile (λ d. leb d c) 371 b) _ i in
    let same : deduplicate_and_sort p fs ≡ cs = cc in
    rw (← same) (
      deduplicate_and_sort-IsNonempty p fs
          (collect_days-IsNonempty p profile (λ d. leb d c) 371 b fs fd e4),
      deduplicate_and_sort-IsSorted p fs,
    )
