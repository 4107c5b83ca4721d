-- ===== src/Planning/Schedule.antt =====
-- server/src/planning/engine.ts: the meetings of a whole plan.
use mathlib.Core.List.{append-nil}
use planipus.Common.{
  neither, ℕ, zero, suc, ◌+◌, ◌*◌, ◌≡◌, refl, sym, ap, ◌∙◌, inl, inr, String, Option, none, some,
  Bool, false, not, ◌||◌, List, [], ◌∷◌, ◌++◌, length, filter, any, All, All-append, Bool-cases,
  Option-cases, ok, bind-eq-ok, ok_eq, length-append, arith,
}
use planipus.CalendarSync.Types.{InstantInterval}
use planipus.CalendarSync.Platform.{Platform}
use planipus.Planning.Types.{
  SmartMeetingDraft, PlanningBusyInterval, PlannedOccurrenceTemplate, PlanningInput, PlanningResult,
  Clock,
}
use planipus.Planning.Slots.{
  text_lt, overlaps, conflicts_with, SelectedSlot, slot, best_slot, earliest_start,
}
use planipus.Planning.Best.{best_slot-IsAnswer}
use planipus.Planning.Boundary.{add_local_days}
use planipus.Planning.Engine.{
  Plan, place_occurrence, meeting_windows, warned, choose_meeting_slot, plan_between,
  plan_occurrence, plan_occurrences, empty_plan, is_scheduled, meeting_result, plan_smart_meeting,
}

-- The interval of an event, where there is one.
abbrev pub slots : List PlannedOccurrenceTemplate → List InstantInterval
slots [] = []
slots (o ∷ os) = elim o.event [ none ↦ slots os | some event ↦ event.interval ∷ slots os ]

-- None meets an earlier one.
abbrev pub Apart : List InstantInterval → Type 0
Apart [] = Unit
Apart (x ∷ xs) = All (λ y. overlaps y x ≡ false) xs × Apart xs

Apart-append :
    (xs : List InstantInterval) (y : InstantInterval)
    → Apart xs
    → any (overlaps y) xs ≡ false
    → Apart (xs ++ y ∷ [])
Apart-append [] y h free = (tt, tt)
Apart-append (x ∷ xs) y (first, h) free =
    let (here, there) = neither (overlaps y x) (any (overlaps y) xs) free in
    (All-append (λ z. overlaps z x ≡ false) xs (y ∷ []) first (here, tt), Apart-append xs y h there)

-- The event meets no busy interval, and does not begin before the end of the lock.
abbrev pub IsClear : List PlanningBusyInterval → String → InstantInterval → Type 0
IsClear busy earliest x =
    (text_lt x.start earliest ≡ false) × (any (λ b. overlaps x b.interval) busy ≡ false)

module _ (clock : Clock) (draft : SmartMeetingDraft) (busy : List PlanningBusyInterval)
    (earliest : String) where
  conflicts_with-IsClear :
      (used : List InstantInterval) (x : InstantInterval)
      → conflicts_with clock draft busy used earliest x ≡ false
      → IsClear busy earliest x × (any (overlaps x) used ≡ false)
  unfolding conflicts_with
  conflicts_with-IsClear used x free =
      let in_use = any (overlaps x) used in
      let taken = any (λ (b : PlanningBusyInterval). overlaps x b.interval) busy in
      let (first, later) = neither (text_lt x.start earliest || taken) in_use free in
      let (early, meets) = neither (text_lt x.start earliest) taken first in ((early, meets), later)

  pub record IsPlan (p : Plan) : Type 0 where
    pub same : slots p.occurrences ≡ p.used
    pub apart : Apart p.used
    pub clear : All (IsClear busy earliest) p.used

slots-append :
    (os : List PlannedOccurrenceTemplate) (o : PlannedOccurrenceTemplate)
    → slots (os ++ o ∷ []) ≡ slots os ++ slots (o ∷ [])
slots-append [] o = refl
slots-append (p ∷ os) o = elim (Option-cases p.event) [
  | inl e ↦ rw e (slots-append os o)
  | inr (event, e) ↦ rw e (ap (λ xs. event.interval ∷ xs) (slots-append os o))
]

module _ (platform : Platform) (clock : Clock) (draft : SmartMeetingDraft) (input : PlanningInput)
    (earliest : String) (at : earliest_start clock draft input.now ≡ ok earliest) where
  abbrev Plans : Plan → Type 0
  Plans p = IsPlan clock draft input.busy earliest p

  best_slot-IsFree :
      (used windows : List InstantInterval) (s : SelectedSlot)
      → some s ≡ best_slot clock draft input.busy used earliest windows
      → IsClear input.busy earliest s.interval × (any (overlaps s.interval) used ≡ false)
  best_slot-IsFree used windows s chosen =
      elim (best_slot-IsAnswer clock draft input.busy used earliest windows) [
        | inl (missed, _) ↦ absurd (cc (chosen, missed))
        | inr
              (
                t,
                found,
                (d, c, same, m, (w, i, start, end_time, p, q, at_cursor, free), longest, lowest),
              ) ↦
            let picked : s ≡ t = cc (chosen, found) in
            let interval : s.interval ≡ slot clock draft d c =
              ap (λ (x : SelectedSlot). x.interval) picked ∙ same in
            conflicts_with-IsClear clock draft input.busy earliest used s.interval
              (rw interval free)
      ]

  place_occurrence-IsPlan :
      (start : String) (windows : List InstantInterval) (selected : Option SelectedSlot) (p : Plan)
      → selected ≡ best_slot clock draft input.busy p.used earliest windows
      → Plans p
      → Plans (place_occurrence platform clock draft input start windows selected p)
  place_occurrence-IsPlan start windows none p chosen h = record {
    same = slots-append p.occurrences _ ∙ (append-nil _ ∙ h.same);
    apart = h.apart;
    clear = h.clear;
  }
  place_occurrence-IsPlan start windows (some s) p chosen h =
      let (clear, apart) = best_slot-IsFree p.used windows s chosen in
      record {
        same = slots-append p.occurrences _ ∙ ap (λ xs. xs ++ s.interval ∷ []) h.same;
        apart = Apart-append p.used s.interval h.apart apart;
        clear =
            All-append (IsClear input.busy earliest) p.used (s.interval ∷ []) h.clear (clear, tt);
      }

  length-place_occurrence :
      (start : String) (windows : List InstantInterval) (selected : Option SelectedSlot) (p : Plan)
      → length (place_occurrence platform clock draft input start windows selected p).occurrences
        ≡ length p.occurrences + 1
  length-place_occurrence start windows none p = length-append p.occurrences _
  length-place_occurrence start windows (some s) p = length-append p.occurrences _

  choose_meeting_slot_eq :
      (windows used : List InstantInterval)
      → choose_meeting_slot platform clock draft input windows used
        ≡ ok (best_slot clock draft input.busy used earliest windows)
  unfolding choose_meeting_slot
  choose_meeting_slot_eq windows used = rw at refl

  abbrev windows_between : String → String → List InstantInterval
  windows_between start window_end =
      (meeting_windows platform clock draft input start window_end).concrete_intervals

  abbrev after_turn : String → Plan → String → Plan
  after_turn start p window_end =
      place_occurrence platform clock draft input start (windows_between start window_end)
        (best_slot clock draft input.busy p.used earliest (windows_between start window_end))
        (warned platform clock draft input
          (meeting_windows platform clock draft input start window_end) p)

  plan_between_eq :
      (start : String) (p : Plan) (window_end : String)
      → plan_between platform clock draft input start p window_end
        ≡ ok (window_end, after_turn start p window_end)
  unfolding plan_between
  plan_between_eq start p window_end =
      rw (choose_meeting_slot_eq (windows_between start window_end) p.used) refl

  abbrev Grown : Plan → ℕ → Plan → Type 0
  Grown p turns q = Plans q × (length q.occurrences ≡ length p.occurrences + turns)

  after_turn-Grown :
      (start : String) (p : Plan) (window_end : String)
      → Plans p
      → Grown p 1 (after_turn start p window_end)
  after_turn-Grown start p window_end h = (
    place_occurrence-IsPlan start (windows_between start window_end) _ _ refl
        (record { same = h.same; apart = h.apart; clear = h.clear }),
    length-place_occurrence start (windows_between start window_end)
        (best_slot clock draft input.busy p.used earliest (windows_between start window_end))
        (warned platform clock draft input
          (meeting_windows platform clock draft input start window_end) p),
  )

  plan_occurrence-Grown :
      (start : String) (p : Plan) (out : String × Plan)
      → Plans p
      → plan_occurrence platform clock draft input start p ≡ ok out
      → Grown p 1 out.1
  unfolding plan_occurrence
  plan_occurrence-Grown start p out h done =
      let (window_end, e, turn) =
        bind-eq-ok (add_local_days clock start (7 * draft.cadence_weeks))
          (plan_between platform clock draft input start p) done in
      let same = ok_eq (plan_between_eq start p window_end) turn in
      rw (sym same) (after_turn-Grown start p window_end h)

  pub plan_occurrences-Grown :
      (turns : ℕ) (start : String) (p : Plan) (out : Plan)
      → Plans p
      → plan_occurrences platform clock draft input turns start p ≡ ok out
      → Grown p turns out
  unfolding plan_occurrences
  plan_occurrences-Grown zero start p out h done =
      let same : p ≡ out = ok_eq refl done in rw (sym same) (h, omega arith)
  plan_occurrences-Grown (suc turns) start p out h done =
      let (turn, e, rest) =
        bind-eq-ok (plan_occurrence platform clock draft input start p)
          (λ turn. plan_occurrences platform clock draft input turns turn.0 turn.1) done in
      let (kept, longer) = plan_occurrence-Grown start p turn h e in
      let (whole, count) = plan_occurrences-Grown turns turn.0 turn.1 out kept rest in
      (whole, omega (arith, longer, count))

length-filter_split {ℓ} :
    {A : Type ℓ} (p : A → Bool) (xs : List A)
    → length (filter p xs) + length (filter (λ x. not (p x)) xs) ≡ length xs
length-filter_split p [] = refl
length-filter_split p (x ∷ xs) = elim (Bool-cases (p x)) [
  | inl kept ↦ rw kept (omega (arith, length-filter_split p xs))
  | inr dropped ↦ rw dropped (omega (arith, length-filter_split p xs))
]

-- Where the end of the lock is an instant, a plan of a smart meeting that is returned has as many
-- occurrences as the draft asks for, each is counted once as scheduled or as unmet, the events do not
-- meet each other, and none meets a busy interval or begins before the end of the lock.
pub plan_smart_meeting-IsClear :
    (platform : Platform) (clock : Clock) (draft : SmartMeetingDraft) (input : PlanningInput)
    (earliest : String) (result : PlanningResult)
    → earliest_start clock draft input.now ≡ ok earliest
    → plan_smart_meeting platform clock draft input ≡ ok result
    → (length result.occurrences ≡ draft.occurrence_count)
      × (result.scheduled_count + result.unmet_count ≡ draft.occurrence_count)
      × Apart (slots result.occurrences)
      × All (IsClear input.busy earliest) (slots result.occurrences)
unfolding plan_smart_meeting
plan_smart_meeting-IsClear platform clock draft input earliest result at done =
    let (plan, e, out) =
      bind-eq-ok
        (plan_occurrences platform clock draft input draft.occurrence_count draft.start_date
          (empty_plan platform clock draft input))
        (λ plan. ok (meeting_result platform clock draft input plan)) done in
    let (kept, count) =
      plan_occurrences-Grown platform clock draft input earliest at draft.occurrence_count
        draft.start_date (empty_plan platform clock draft input) plan
        (record { same = refl; apart = tt; clear = tt }) e in
    let same : meeting_result platform clock draft input plan ≡ result = ok_eq refl out in
    let whole : length plan.occurrences ≡ draft.occurrence_count = omega (arith, count) in
    let split = length-filter_split (is_scheduled platform clock draft input) plan.occurrences in
    rw (sym same) (whole, split ∙ whole, rw kept.same kept.apart, rw kept.same kept.clear)
