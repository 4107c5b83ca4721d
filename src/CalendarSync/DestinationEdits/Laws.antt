-- ===== src/CalendarSync/DestinationEdits/Laws.antt =====
-- destination-edits.ts: what a stored policy document stands for.
use planipus.Common.{
  ◌∙◌, ◌≡◌, refl, sym, ap, ◌⊎◌, inl, inr, String, Option, none, some, true, str_eq, str_eq_iff,
  ==_iff, Bool-cases, Option-cases,
}
use planipus.CalendarSync.Json.{
  JsonValue, null, bool, num, negative, not_integer, str, arr, obj, Members, lookup_member,
}
use planipus.CalendarSync.DestinationEdits.{
  DestinationEditMode, restore, restore_and_notify, hold_for_review, DestinationEditPolicy,
  default_destination_edit_policy, mode_of_text, mode_of, is_version_one, both_modes,
  is_destination_edit_policy, normalize_destination_edit_policy,
}

abbrev pub mode_text : DestinationEditMode → String
mode_text restore = "restore"
mode_text restore_and_notify = "restore_and_notify"
mode_text hold_for_review = "hold_for_review"

-- A document of version 1 that names a mode for edits and one for deletions.
abbrev pub IsStored : JsonValue → DestinationEditPolicy → Type 0
IsStored value policy =
    (ms : Members) × (value ≡ obj ms)
    × (lookup_member "version" ms ≡ some (num 1))
    × (lookup_member "on_edit" ms ≡ some (str (mode_text policy.on_edit)))
    × (lookup_member "on_delete" ms ≡ some (str (mode_text policy.on_delete)))

mode_of_text-mode_text : (m : DestinationEditMode) → mode_of_text (mode_text m) ≡ some m
mode_of_text-mode_text restore = refl
mode_of_text-mode_text restore_and_notify = refl
mode_of_text-mode_text hold_for_review = refl

mode_of_text-some :
    (s : String) (m : DestinationEditMode) → mode_of_text s ≡ some m → s ≡ mode_text m
mode_of_text-some s m e = elim (Bool-cases (str_eq s "restore")) [
  | inl first ↦
      let same : restore ≡ m = cc (rw first at e) in rw (sym same) ((str_eq_iff _ _).0 first)
  | inr a ↦ elim (Bool-cases (str_eq s "restore_and_notify")) [
    | inl second ↦
        let same : restore_and_notify ≡ m = cc (rw (a, second) at e) in
        rw (sym same) ((str_eq_iff _ _).0 second)
    | inr b ↦ elim (Bool-cases (str_eq s "hold_for_review")) [
      | inl third ↦
          let same : hold_for_review ≡ m = cc (rw (a, b, third) at e) in
          rw (sym same) ((str_eq_iff _ _).0 third)
      | inr c ↦ absurd (cc (rw (a, b, c) at e))
    ]
  ]
]

mode_of-some :
    (v : Option JsonValue) (m : DestinationEditMode)
    → mode_of v ≡ some m
    → v ≡ some (str (mode_text m))
unfolding mode_of
mode_of-some (some (str s)) m e = ap (λ x. some (str x)) (mode_of_text-some s m e)
mode_of-some none m e = absurd (cc e)
mode_of-some (some null) m e = absurd (cc e)
mode_of-some (some (bool b)) m e = absurd (cc e)
mode_of-some (some (num n)) m e = absurd (cc e)
mode_of-some (some (negative n)) m e = absurd (cc e)
mode_of-some (some not_integer) m e = absurd (cc e)
mode_of-some (some (arr xs)) m e = absurd (cc e)
mode_of-some (some (obj xs)) m e = absurd (cc e)

version_one : (v : Option JsonValue) → is_version_one v ≡ true → v ≡ some (num 1)
unfolding is_version_one
version_one (some (num n)) e = ap (λ x. some (num x)) ((==_iff n 1).0 e)
version_one none e = absurd (cc e)
version_one (some null) e = absurd (cc e)
version_one (some (bool b)) e = absurd (cc e)
version_one (some (str s)) e = absurd (cc e)
version_one (some (negative n)) e = absurd (cc e)
version_one (some not_integer) e = absurd (cc e)
version_one (some (arr xs)) e = absurd (cc e)
version_one (some (obj xs)) e = absurd (cc e)

both_modes-some :
    (e d : Option DestinationEditMode) (policy : DestinationEditPolicy)
    → both_modes e d ≡ some policy
    → (e ≡ some policy.on_edit) × (d ≡ some policy.on_delete)
unfolding both_modes
both_modes-some (some e) (some d) policy done =
    let same : record { on_edit = e; on_delete = d } ≡ policy = cc done in
    (
      ap (λ (p : DestinationEditPolicy). some p.on_edit) same,
      ap (λ (p : DestinationEditPolicy). some p.on_delete) same,
    )
both_modes-some (some e) none policy done = absurd (cc done)
both_modes-some none d policy done = absurd (cc done)

read-IsStored :
    (value : JsonValue) (policy : DestinationEditPolicy)
    → is_destination_edit_policy value ≡ some policy
    → IsStored value policy
unfolding is_destination_edit_policy
read-IsStored (obj ms) policy done =
    elim (Bool-cases (is_version_one (lookup_member "version" ms))) [
      | inr other ↦ absurd (cc (rw other at done))
      | inl first ↦
          let (edits, deletions) =
            both_modes-some (mode_of (lookup_member "on_edit" ms))
              (mode_of (lookup_member "on_delete" ms)) policy (rw first at done) in
          (
            ms,
            refl,
            version_one _ first,
            mode_of-some _ policy.on_edit edits,
            mode_of-some _ policy.on_delete deletions,
          )
    ]
read-IsStored null policy done = absurd (cc done)
read-IsStored (bool b) policy done = absurd (cc done)
read-IsStored (num n) policy done = absurd (cc done)
read-IsStored (negative n) policy done = absurd (cc done)
read-IsStored not_integer policy done = absurd (cc done)
read-IsStored (str s) policy done = absurd (cc done)
read-IsStored (arr xs) policy done = absurd (cc done)

stored-read :
    (value : JsonValue) (policy : DestinationEditPolicy)
    → IsStored value policy
    → is_destination_edit_policy value ≡ some policy
unfolding is_destination_edit_policy mode_of is_version_one both_modes
stored-read value policy (ms, same, version, edits, deletions) =
    rw
      (
        same,
        version,
        edits,
        deletions,
        mode_of_text-mode_text policy.on_edit,
        mode_of_text-mode_text policy.on_delete,
      )
      refl

-- The policy that a value stands for: the one that it stores, where it is a document of version 1 that
-- names a mode for edits and a mode for deletions; and the default, where it stores none.
pub normalize-IsStored :
    (value : JsonValue)
    → IsStored value (normalize_destination_edit_policy value)
      ⊎ (((policy : DestinationEditPolicy) → ¬ IsStored value policy)
          × (normalize_destination_edit_policy value ≡ default_destination_edit_policy))
unfolding normalize_destination_edit_policy
normalize-IsStored value = elim (Option-cases (is_destination_edit_policy value)) [
  | inr (policy, read) ↦
      inl (rw (normalize_destination_edit_policy, read) (read-IsStored value policy read))
  | inl unread ↦ inr (
    λ policy stored. cc (sym unread ∙ stored-read value policy stored),
    rw (normalize_destination_edit_policy, unread) refl,
  )
]
