-- ===== src/Planning/Protection.antt =====
-- server/src/planning/engine.ts: what the weekly blocks of an availability boundary cover.
use planipus.Common.{
  List, any-append, ℕ, zero, suc, ◌+◌, ◌≤◌, ◌≡◌, refl, sym, ◌∙◌, inl, inr, String, Bool, true,
  false, not, ◌&&◌, ◌||◌, [], ◌∷◌, any, ltb, leb, ◌==◌, str_eq, str_eq_iff, ==_iff, if◌then◌else◌,
  Bool-cases, arith,
}
use planipus.CalendarSync.Json.{text_le}
use planipus.CalendarSync.Types.{WeeklyInterval}
use planipus.Planning.Types.{AvailabilityBoundaryDraft}
use planipus.Planning.Slots.{text_lt}
use planipus.Planning.Boundary.{
  midnight_text, from_midnight, to_midnight, weekday_blocks, blocks_from, boundary_weekly,
}

-- The interval covers the time on the day that it begins.
abbrev pub covers_first_day : ℕ → String → WeeklyInterval → Bool
covers_first_day weekday t x =
    x.weekday == weekday
    && (text_le x.local.start t && (ltb 0 x.local.end_day_offset || text_lt t x.local.«end»))

abbrev pub next_day : ℕ → ℕ
next_day weekday = if weekday == 7 then 1 else weekday + 1

-- The interval covers the time on the day after the one that it begins on: all of the day where it ends
-- later still, or the part before its end.
abbrev pub covers_next_day : ℕ → String → WeeklyInterval → Bool
covers_next_day weekday t x =
    next_day x.weekday == weekday
    && (ltb 1 x.local.end_day_offset || (x.local.end_day_offset == 1 && text_lt t x.local.«end»))

abbrev pub covers : ℕ → String → WeeklyInterval → Bool
covers weekday t x = covers_first_day weekday t x || covers_next_day weekday t x

abbrev is_working : AvailabilityBoundaryDraft → ℕ → Bool
is_working draft weekday = any (λ d. d == weekday) draft.working_days

-- What a person asks for: time before and after work on working days, and the other days.
abbrev pub is_protected : AvailabilityBoundaryDraft → ℕ → String → Bool
is_protected draft weekday t =
    if is_working draft weekday
    then (draft.protect_before_work && text_lt t draft.workday_start)
      || (draft.protect_after_work && text_le draft.workday_end t)
    else draft.protect_closed_days

any-if {ℓ} :
    {A : Type ℓ} (p : A → Bool) (b : Bool) (x : A) → any p (if b then x ∷ [] else []) ≡ (b && p x)
any-if p false x = refl
any-if p true x = elim (Bool-cases (p x)) [ inl e ↦ rw e refl | inr e ↦ rw e refl ]

and_guard : (a p c : Bool) → ((p && true) && (a && c)) ≡ (a && (p && c))
and_guard true true c = refl
and_guard false true c = refl
and_guard true false c = refl
and_guard false false c = refl

and_never : (a p c : Bool) → ((p && false) && c) ≡ (a && (p && false))
and_never true true c = refl
and_never false true c = refl
and_never true false c = refl
and_never false false c = refl

and_true : (a : Bool) → (a && true) ≡ a
and_true true = refl
and_true false = refl

and_comm : (a b : Bool) → (a && b) ≡ (b && a)
and_comm true b = sym (and_true b)
and_comm false true = refl
and_comm false false = refl

and_distrib : (a b c : Bool) → ((a && b) || (a && c)) ≡ (a && (b || c))
and_distrib true b c = refl
and_distrib false b c = refl

range-none : (d w : ℕ) → (leb d w && ltb w (d + 0)) ≡ false
range-none d w = ground arith

range-past : (n w : ℕ) → (leb (w + 1) w && ltb w (w + 1 + n)) ≡ false
range-past n w = ground arith

range-first : (n w : ℕ) → (leb w w && ltb w (w + suc n)) ≡ true
range-first n w = ground arith

range-later :
    (n d w : ℕ)
    → (d == w) ≡ false
    → (leb (d + 1) w && ltb w (d + 1 + n)) ≡ (leb d w && ltb w (d + suc n))
range-later n d w e = ground arith

or_false : (a : Bool) → (a || false) ≡ a
or_false true = refl
or_false false = refl

in_week : (w : ℕ) → 1 ≤ w → w ≤ 7 → (leb 1 w && ltb w (1 + 7)) ≡ true
in_week w first last = ground arith

and_false : (a : Bool) → (a && false) ≡ false
and_false true = refl
and_false false = refl

or_exchange : (a b c d : Bool) → ((a || b) || (c || d)) ≡ ((a || c) || (b || d))
or_exchange true b c d = refl
or_exchange false true true d = refl
or_exchange false true false d = refl
or_exchange false false c d = refl

any-or {ℓ} :
    {A : Type ℓ} (p q : A → Bool) (xs : List A) → any (λ x. p x || q x) xs ≡ (any p xs || any q xs)
any-or p q [] = refl
any-or p q (x ∷ xs) = rw (any-or p q xs) (or_exchange (p x) (q x) (any p xs) (any q xs))

module _ (draft : AvailabilityBoundaryDraft) (t : String) (late : text_le midnight_text t ≡ true)
    (begins : text_le midnight_text draft.workday_start ≡ true)
    (ordered : text_lt draft.workday_start draft.workday_end ≡ true) where
  end_time-IsLate : str_eq draft.workday_end midnight_text ≡ false
  end_time-IsLate = elim (Bool-cases (str_eq draft.workday_end midnight_text)) [
    | inl e ↦
        let same : draft.workday_end ≡ midnight_text = (str_eq_iff _ _).0 e in
        absurd (cc (rw same at ordered, begins))
    | inr e ↦ e
  ]

  any-before :
      (weekday d : ℕ)
      → any (covers_first_day weekday t) (
          if draft.protect_before_work && not (str_eq draft.workday_start midnight_text)
          then from_midnight d draft.workday_start ∷ []
          else [])
        ≡ ((d == weekday) && (draft.protect_before_work && text_lt t draft.workday_start))
  any-before weekday d = elim (Bool-cases (str_eq draft.workday_start midnight_text)) [
    | inl e ↦
        let same : draft.workday_start ≡ midnight_text = (str_eq_iff _ _).0 e in
        rw
          (
            same,
            any-if (covers_first_day weekday t) (draft.protect_before_work && not true)
                (from_midnight d midnight_text),
            late,
          )
          (and_never (d == weekday) draft.protect_before_work _)
    | inr e ↦
        any-if (covers_first_day weekday t)
          (draft.protect_before_work && not (str_eq draft.workday_start midnight_text))
          (from_midnight d draft.workday_start)
        ∙ rw (e, late) (and_guard (d == weekday) draft.protect_before_work _)
  ]

  any-after :
      (weekday d : ℕ)
      → any (covers_first_day weekday t) (
          if draft.protect_after_work && not (str_eq draft.workday_end midnight_text)
          then to_midnight d draft.workday_end ∷ []
          else [])
        ≡ ((d == weekday) && (draft.protect_after_work && text_le draft.workday_end t))
  any-after weekday d =
      any-if (covers_first_day weekday t)
        (draft.protect_after_work && not (str_eq draft.workday_end midnight_text))
        (to_midnight d draft.workday_end)
      ∙ rw end_time-IsLate (
          rw (and_true (text_le draft.workday_end t))
            (and_guard (d == weekday) draft.protect_after_work (text_le draft.workday_end t)))

  any-weekday_blocks :
      (weekday d : ℕ)
      → any (covers_first_day weekday t) (weekday_blocks draft d)
        ≡ ((d == weekday) && is_protected draft d t)
  unfolding weekday_blocks
  any-weekday_blocks weekday d = elim (Bool-cases (is_working draft d)) [
    | inl working ↦
        rw (working, any-append, any-before weekday d, any-after weekday d)
          (and_distrib (d == weekday) _ _)
    | inr closed ↦ rw closed (
        any-if (covers_first_day weekday t) draft.protect_closed_days (to_midnight d midnight_text)
        ∙ rw (late, and_true (d == weekday)) (and_comm draft.protect_closed_days (d == weekday)))
  ]

  range-step :
      (n d w : ℕ)
      → (((d == w) && is_protected draft d t)
          || ((leb (d + 1) w && ltb w (d + 1 + n)) && is_protected draft w t))
        ≡ ((leb d w && ltb w (d + suc n)) && is_protected draft w t)
  range-step n d w = elim (Bool-cases (d == w)) [
    | inl e ↦
        let same : d ≡ w = (==_iff _ _).0 e in
        rw (same, range-past n w, range-first n w, or_false, (==_iff w w).1 refl) refl
    | inr e ↦ rw (e, range-later n d w e) refl
  ]

  any-blocks_from :
      (n d weekday : ℕ)
      → any (covers_first_day weekday t) (blocks_from draft n d)
        ≡ ((leb d weekday && ltb weekday (d + n)) && is_protected draft weekday t)
  unfolding blocks_from
  any-blocks_from zero d weekday = rw (range-none d weekday) refl
  any-blocks_from (suc n) d weekday =
      any-append (covers_first_day weekday t) (weekday_blocks draft d) (blocks_from draft n (d + 1))
      ∙ rw (any-weekday_blocks weekday d, any-blocks_from n (d + 1) weekday)
          (range-step n d weekday)

  none_if :
      (weekday : ℕ) (b : Bool) (x : WeeklyInterval)
      → covers_next_day weekday t x ≡ false
      → any (covers_next_day weekday t) (if b then x ∷ [] else []) ≡ false
  none_if weekday false x e = refl
  none_if weekday true x e = rw e refl

  from_midnight-ends :
      (weekday d : ℕ) (ending : String) → covers_next_day weekday t (from_midnight d ending) ≡ false
  from_midnight-ends weekday d ending = and_false (next_day d == weekday)

  to_midnight-ends :
      (weekday d : ℕ) (start : String) → covers_next_day weekday t (to_midnight d start) ≡ false
  to_midnight-ends weekday d start = rw late (and_false (next_day d == weekday))

  weekday_blocks-end :
      (weekday d : ℕ) → any (covers_next_day weekday t) (weekday_blocks draft d) ≡ false
  unfolding weekday_blocks
  weekday_blocks-end weekday d = elim (Bool-cases (is_working draft d)) [
    | inl working ↦
        rw
          (
            working,
            any-append,
            none_if weekday
                (draft.protect_before_work && not (str_eq draft.workday_start midnight_text))
                (from_midnight d draft.workday_start)
                (from_midnight-ends weekday d draft.workday_start),
            none_if weekday
                (draft.protect_after_work && not (str_eq draft.workday_end midnight_text))
                (to_midnight d draft.workday_end) (to_midnight-ends weekday d draft.workday_end),
          )
          refl
    | inr closed ↦ rw closed (
        none_if weekday draft.protect_closed_days (to_midnight d midnight_text)
          (to_midnight-ends weekday d midnight_text))
  ]

  blocks_from-end :
      (n d weekday : ℕ) → any (covers_next_day weekday t) (blocks_from draft n d) ≡ false
  unfolding blocks_from
  blocks_from-end zero d weekday = refl
  blocks_from-end (suc n) d weekday =
      any-append (covers_next_day weekday t) (weekday_blocks draft d) (blocks_from draft n (d + 1))
      ∙ rw (weekday_blocks-end weekday d, blocks_from-end n (d + 1) weekday) refl

-- Where a day begins at midnight, and work ends later than it starts: a time of a day of the week is
-- in a weekly block of the boundary, or in the part of one of the day before that runs past midnight,
-- exactly where it is before or after work on a working day, with that protection switched on, or on
-- another day, with those days protected.
pub boundary_weekly-covers :
    (draft : AvailabilityBoundaryDraft) (weekday : ℕ) (t : String)
    → text_le midnight_text t ≡ true
    → text_le midnight_text draft.workday_start ≡ true
    → text_lt draft.workday_start draft.workday_end ≡ true
    → 1 ≤ weekday
    → weekday ≤ 7
    → any (covers weekday t) (boundary_weekly draft) ≡ is_protected draft weekday t
unfolding boundary_weekly
boundary_weekly-covers draft weekday t late begins ordered first last =
    any-or (covers_first_day weekday t) (covers_next_day weekday t) (blocks_from draft 7 1)
    ∙ rw
        (
          any-blocks_from draft t late begins ordered 7 1 weekday,
          blocks_from-end draft t late begins ordered 7 1 weekday,
          in_week weekday first last,
        )
        (or_false (is_protected draft weekday t))
