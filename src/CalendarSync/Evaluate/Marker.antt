-- ===== src/CalendarSync/Evaluate/Marker.antt =====
-- evaluate.ts: what the expression of `containsNoSync` finds.
use planipus.Common.{
  ◌≡◌, refl, inl, inr, ◌↔◌, ◌≢◌, ap, ℕ, String, Option, none, some, Bool, true, ◌&&◌, not, List, [],
  ◌∷◌, ◌++◌, Bool-cases, any_of_mem, mem_of_any, arith,
}
use mathlib.Core.List.{Memᴰ}
use planipus.CalendarSync.Json.{Text}
use planipus.CalendarSync.Platform.{Platform}
use planipus.CalendarSync.Events.{PolicyEvaluationInput}
use planipus.CalendarSync.Evaluate.NoSync.{
  ends_word, matches_here, search_marker, comparable, field_has, contains_marker, contains_no_sync,
  searched_fields,
}

module _ (p : Platform) where
  -- Two texts that are equal letter by letter under case folding.
  abbrev pub FoldEqual : Text → Text → Type 0
  FoldEqual [] [] = Unit
  FoldEqual [] (y ∷ ys) = ⊥
  FoldEqual (x ∷ xs) [] = ⊥
  FoldEqual (x ∷ xs) (y ∷ ys) = (p.fold x ≡ p.fold y) × FoldEqual xs ys

  -- Whether a word can start behind `before`, where `starts` says so of its front.
  abbrev pub starts_word : Bool → Text → Bool
  starts_word starts [] = starts
  starts_word starts (c ∷ cs) = starts_word (not (p.is_word c)) cs

  -- The marker stands in the text as a word of its own.
  pub record IsMarked (marker : Text) (starts : Bool) (text : Text) : Type 0 where
    pub before : Text
    pub found : Text
    pub after : Text
    pub parts : text ≡ before ++ (found ++ after)
    pub begins : starts_word starts before ≡ true
    pub same : FoldEqual marker found
    pub ends : ends_word p after ≡ true

  abbrev Here : Text → Text → Type 0
  Here marker text =
      (found : Text) × (after : Text) × (text ≡ found ++ after)
      × FoldEqual marker found
      × (ends_word p after ≡ true)

  matches_here-Here : (marker text : Text) → matches_here p marker text ≡ true → Here marker text
  unfolding matches_here
  matches_here-Here [] text h = ([], text, refl, tt, h)
  matches_here-Here (m ∷ ms) [] h = cc
  matches_here-Here (m ∷ ms) (c ∷ cs) h =
      let (f, a, e, s, w) = matches_here-Here ms cs (ground arith) in
      (c ∷ f, a, ap (λ t. c ∷ t) e, (ground arith, s), w)

  Here-matches_here :
      (marker found after : Text)
      → FoldEqual marker found
      → ends_word p after ≡ true
      → matches_here p marker (found ++ after) ≡ true
  unfolding matches_here
  Here-matches_here [] [] after s w = w
  Here-matches_here [] (y ∷ ys) after s w = absurd s
  Here-matches_here (m ∷ ms) [] after s w = absurd s
  Here-matches_here (m ∷ ms) (y ∷ ys) after (e, s) w =
      ground (arith, Here-matches_here ms ys after s w)

  Here-IsMarked :
      {marker text : Text} {starts : Bool}
      → starts ≡ true
      → Here marker text
      → IsMarked marker starts text
  Here-IsMarked b (f, a, e, s, w) = record {
    before = [];
    found = f;
    after = a;
    parts = e;
    begins = b;
    same = s;
    ends = w;
  }

  later-IsMarked :
      (c : ℕ) {marker text : Text} {starts : Bool}
      → IsMarked marker (not (p.is_word c)) text
      → IsMarked marker starts (c ∷ text)
  later-IsMarked c m = record {
    before = c ∷ m.before;
    found = m.found;
    after = m.after;
    parts = ap (λ t. c ∷ t) m.parts;
    begins = m.begins;
    same = m.same;
    ends = m.ends;
  }

  search_marker_sound :
      (marker : Text) (starts : Bool) (text : Text)
      → search_marker p marker starts text ≡ true
      → IsMarked marker starts text
  unfolding search_marker
  search_marker_sound marker starts [] h =
      Here-IsMarked (ground arith) (matches_here-Here marker [] (ground arith))
  search_marker_sound marker starts (c ∷ cs) h =
      elim (Bool-cases (starts && matches_here p marker (c ∷ cs))) [
        | inl hit ↦ Here-IsMarked (ground arith) (matches_here-Here marker (c ∷ cs) (ground arith))
        | inr miss ↦
            later-IsMarked c (search_marker_sound marker (not (p.is_word c)) cs (rw miss at h))
      ]

  search_marker_front :
      (marker : Text) (starts : Bool) (text : Text)
      → starts ≡ true
      → matches_here p marker text ≡ true
      → search_marker p marker starts text ≡ true
  unfolding search_marker
  search_marker_front marker starts [] b m = ground arith
  search_marker_front marker starts (c ∷ cs) b m = ground arith

  search_marker_complete :
      (marker : Text) (starts : Bool) (before found after : Text)
      → starts_word starts before ≡ true
      → FoldEqual marker found
      → ends_word p after ≡ true
      → search_marker p marker starts (before ++ (found ++ after)) ≡ true
  unfolding search_marker
  search_marker_complete marker starts (c ∷ cs) found after b s w =
      ground (arith, search_marker_complete marker (not (p.is_word c)) cs found after b s w)
  search_marker_complete marker starts [] found after b s w =
      search_marker_front marker starts (found ++ after) b
        (Here-matches_here marker found after s w)

  pub search_marker_iff :
      (marker : Text) (text : Text)
      → (search_marker p marker true text ≡ true) ↔ IsMarked marker true text
  search_marker_iff marker text = (
    search_marker_sound marker true text,
    λ m.
        rw m.parts
          (search_marker_complete marker true m.before m.found m.after m.begins m.same m.ends),
  )

  field_has-IsMarked :
      (marker : Text) (field : Option String)
      → field_has p marker field ≡ true
      → (s : String) × (field ≡ some s) × IsMarked marker true (comparable p s)
  unfolding field_has
  field_has-IsMarked marker none h = cc
  field_has-IsMarked marker (some s) h = (s, refl, (search_marker_iff marker (comparable p s)).0 h)

  -- A field of the list holds the marker.
  abbrev pub SomeMarked : Text → List (Option String) → Type 0
  SomeMarked marker fields =
      (s : String) × Memᴰ (some s) fields × IsMarked marker true (comparable p s)

  contains_marker_iff :
      (marker : Text) (fields : List (Option String))
      → (contains_marker p marker fields ≡ true) ↔ ((marker ≢ []) × SomeMarked marker fields)
  unfolding contains_marker field_has
  contains_marker_iff [] fields = (λ h. cc, λ h. absurd (h.0 refl))
  contains_marker_iff (m ∷ ms) fields = (
    λ h.
        let (field, i, e) = mem_of_any (field_has p (m ∷ ms)) fields h in
        let (s, same, marked) = field_has-IsMarked (m ∷ ms) field e in
        (λ (n : (m ∷ ms) ≡ []). cc, (s, rw same at i, marked)),
    λ h.
        let (s, i, marked) = h.1 in
        any_of_mem (field_has p (m ∷ ms)) fields i
          ((search_marker_iff (m ∷ ms) (comparable p s)).1 marked),
  )

-- An event carries the exclusion marker exactly when the marker, normalised and in lower case, is
-- not empty and stands, as a word of its own and up to case folding, in the summary, the
-- description or the response note.
pub contains_no_sync_iff :
    (p : Platform) (input : PolicyEvaluationInput)
    → (contains_no_sync p input ≡ true) ↔ (
        (comparable p input.policy.selection.source_exclusion_marker ≢ [])
        × SomeMarked p
            (comparable p input.policy.selection.source_exclusion_marker)
            (searched_fields input))
unfolding contains_no_sync
contains_no_sync_iff p input =
    contains_marker_iff p (comparable p input.policy.selection.source_exclusion_marker)
      (searched_fields input)
