-- ===== src/CalendarSync/Evaluate/Honesty.antt =====
-- evaluate.ts: the disclosure manifest tells what of the event's content the copy holds.
use planipus.Common.{
  ◌≡◌, refl, ◌⊎◌, inl, inr, String, Option, none, Bool, true, false, ◌&&◌, not, List, [], ◌∷◌, ◌++◌,
  any, unique_from, unique, str_eq, str_eq_iff, filter, mem-filter, includes, any_of_mem,
  Bool-cases, arith,
}
use mathlib.Core.List.{Memᴰ}
use mathlib.Core.List.Memᴰ
use planipus.Common.Sorting.{sort, mem-sort, mem-sort_intro}
use planipus.CalendarSync.Json.{text_le}
use planipus.CalendarSync.Events.{
  EventTiming, Availability, PolicyEvaluationInput, DesiredCopy, DisclosureManifest,
}
use planipus.CalendarSync.Evaluate.Transform.{
  copied, summary_of, when_true, desired_copy, disclosure, disclosed_fields, sorted_unique,
  shows_details, omitted_source_fields,
}

mem-unique_from :
    {a : String} (seen xs : List String)
    → Memᴰ a xs
    → (any (str_eq a) seen ≡ true) ⊎ Memᴰ a (unique_from str_eq seen xs)
mem-unique_from seen [] m = absurd (Memᴰ.not-nil m)
mem-unique_from {a} seen (x ∷ xs) (Memᴰ.head e) = elim (Bool-cases (any (str_eq x) seen)) [
  | inl old ↦ inl (rw e old)
  | inr new ↦ inr (rw new (Memᴰ.head e))
]
mem-unique_from {a} seen (x ∷ xs) (Memᴰ.tail i) = elim (Bool-cases (any (str_eq x) seen)) [
  | inl old ↦ rw old (mem-unique_from seen xs i)
  | inr new ↦ rw new (elim (mem-unique_from (x ∷ seen) xs i) [
    | inl known ↦ elim (Bool-cases (str_eq a x)) [
      | inl same ↦ inr (Memᴰ.head ((str_eq_iff a x).0 same))
      | inr other ↦ inl (ground arith)
    ]
    | inr j ↦ inr (Memᴰ.tail j)
  ])
]

mem-sorted_unique : {a : String} (xs : List String) → Memᴰ a xs → Memᴰ a (sorted_unique xs)
unfolding sorted_unique
mem-sorted_unique xs m = elim (mem-unique_from [] xs m) [
  | inl none_seen ↦ absurd (cc)
  | inr i ↦ mem-sort_intro text_le (unique str_eq xs) i
]

-- What the manifest lists for the content of the copy.
pub record IsHonest (input : PolicyEvaluationInput) (d : DesiredCopy) (m : DisclosureManifest)
    : Type 0 where
  pub summary :
      (d.summary ≡ input.policy.privacy.generic_summary)
      ⊎ Memᴰ "/content/summary" m.source_fields_disclosed
  pub description : (d.description ≡ none) ⊎ Memᴰ "/content/description" m.source_fields_disclosed
  pub location : (d.location ≡ none) ⊎ Memᴰ "/content/location" m.source_fields_disclosed
  pub conference : (d.conference ≡ none) ⊎ Memᴰ "/content/conference" m.source_fields_disclosed
  pub omitted :
      (f : String)
      → Memᴰ f m.source_fields_omitted
      → Memᴰ f omitted_source_fields × (Memᴰ f (disclosed_fields input) → ⊥)

mem-when_true : (b : Bool) (s : String) → b ≡ true → Memᴰ s (when_true b s)
mem-when_true true s h = Memᴰ.head refl
mem-when_true false s h = cc

-- The place of each content field in the list, behind `/timing`.
module _ (a b c d : Bool) where
  abbrev flagged : List String
  flagged =
      "/timing"
      ∷ (when_true a "/content/summary"
          ++ (when_true b "/content/description"
              ++ (when_true c "/content/location" ++ when_true d "/content/conference")))

  flagged_summary : a ≡ true → Memᴰ "/content/summary" flagged
  flagged_summary h = Memᴰ.tail (Memᴰ.append_left _ (mem-when_true a _ h))

  flagged_description : b ≡ true → Memᴰ "/content/description" flagged
  flagged_description h =
      Memᴰ.tail (Memᴰ.append_right (when_true a _) (Memᴰ.append_left _ (mem-when_true b _ h)))

  flagged_location : c ≡ true → Memᴰ "/content/location" flagged
  flagged_location h = Memᴰ.tail (
      Memᴰ.append_right (when_true a _)
        (Memᴰ.append_right (when_true b _) (Memᴰ.append_left _ (mem-when_true c _ h))))

  flagged_conference : d ≡ true → Memᴰ "/content/conference" flagged
  flagged_conference h = Memᴰ.tail (
      Memᴰ.append_right (when_true a _) (
        Memᴰ.append_right (when_true b _)
          (Memᴰ.append_right (when_true c _) (mem-when_true d _ h))))

copied-cases :
    (b : Bool) (o : Option String) {f : String} {m : List String}
    → (b ≡ true → Memᴰ f m)
    → (copied b o ≡ none) ⊎ Memᴰ f m
copied-cases true o h = inr (h refl)
copied-cases false o h = inl refl

summary_of-cases :
    (b : Bool) (o : Option String) (g : String) {f : String} {m : List String}
    → (b ≡ true → Memᴰ f m)
    → (summary_of b o g ≡ g) ⊎ Memᴰ f m
summary_of-cases true o g h = inr (h refl)
summary_of-cases false o g h = inl refl

omitted-lem :
    (disclosed : List String) (f : String)
    → Memᴰ f (sort text_le (filter (λ x. not (includes disclosed x)) omitted_source_fields))
    → Memᴰ f omitted_source_fields × (Memᴰ f disclosed → ⊥)
omitted-lem disclosed f m =
    let (i, e) =
      mem-filter (λ x. not (includes disclosed x)) omitted_source_fields (mem-sort text_le _ m) in
    (
      i,
      λ j.
          let hit = any_of_mem (λ x. str_eq x f) disclosed j ((str_eq_iff f f).1 refl) in
          ground arith,
    )

-- The manifest of a copy is honest: a summary other than the generic one, a description, a location
-- or a conference stands in the copy only if its source field is listed as disclosed; and what is
-- listed as omitted is one of the fields that can be omitted and was not disclosed.
pub disclosure-IsHonest :
    (input : PolicyEvaluationInput) (a : Availability) (t : EventTiming)
    → IsHonest input (desired_copy input a t) (disclosure input (desired_copy input a t))
unfolding desired_copy disclosure disclosed_fields
disclosure-IsHonest input a t =
    let privacy = input.policy.privacy in
    let details = shows_details privacy.preset in
    let s = details && privacy.copy_summary in
    let e = details && privacy.copy_description in
    let l = details && privacy.copy_location in
    let c = details && privacy.copy_conference in
    record {
      summary =
          summary_of-cases s _ _
            (λ h. mem-sorted_unique (flagged s e l c) (flagged_summary s e l c h));
      description =
          copied-cases e _
            (λ h. mem-sorted_unique (flagged s e l c) (flagged_description s e l c h));
      location =
          copied-cases l _ (λ h. mem-sorted_unique (flagged s e l c) (flagged_location s e l c h));
      conference =
          copied-cases c _
            (λ h. mem-sorted_unique (flagged s e l c) (flagged_conference s e l c h));
      omitted = omitted-lem (flagged s e l c);
    }
