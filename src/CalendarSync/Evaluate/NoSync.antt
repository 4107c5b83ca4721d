-- ===== src/CalendarSync/Evaluate/NoSync.antt =====
-- packages/calendar-sync/src/evaluate.ts: `containsNoSync`. The expression
-- (^|[^\p{L}\p{N}_])marker(?=$|[^\p{L}\p{N}_]) is run over the code points of a field.
use planipus.Common.{
  String, Option, none, some, Bool, true, false, ◌&&◌, ◌||◌, not, List, [], ◌∷◌, ◌==◌, any,
}
use planipus.CalendarSync.Json.{Text, codes}
use planipus.CalendarSync.Platform.{Platform}
use planipus.CalendarSync.Events.{PolicyEvaluationInput}

abbrev pub searched_fields : PolicyEvaluationInput → List (Option String)
searched_fields input =
    input.source.content.summary ∷ input.source.content.description
    ∷ input.source.relationship.response_note ∷ []

module _ (p : Platform) where
  -- The lookahead (?=$|[^\p{L}\p{N}_]).
  abbrev pub ends_word : Text → Bool
  ends_word [] = true
  ends_word (c ∷ cs) = not (p.is_word c)

  -- The marker, letter by letter under case folding, and the lookahead behind it.
  unfoldable pub matches_here : Text → Text → Bool
  matches_here [] text = ends_word text
  matches_here (m ∷ ms) [] = false
  matches_here (m ∷ ms) (c ∷ cs) = p.fold m == p.fold c && matches_here ms cs

  -- A search from a place that `starts` a word or does not.
  unfoldable pub search_marker : Text → Bool → Text → Bool
  unfolding matches_here
  search_marker marker starts [] = starts && matches_here marker []
  search_marker marker starts (c ∷ cs) =
      (starts && matches_here marker (c ∷ cs)) || search_marker marker (not (p.is_word c)) cs

  abbrev pub comparable : String → Text
  comparable s = codes (p.to_lower_case (p.nfc s))

  unfoldable pub field_has : Text → Option String → Bool
  unfolding search_marker
  field_has marker none = false
  field_has marker (some s) = search_marker marker true (comparable s)

  unfoldable pub contains_marker : Text → List (Option String) → Bool
  unfolding field_has
  contains_marker [] fields = false
  contains_marker (m ∷ ms) fields = any (field_has (m ∷ ms)) fields

  unfoldable pub contains_no_sync : PolicyEvaluationInput → Bool
  unfolding contains_marker
  contains_no_sync input =
      contains_marker (comparable input.policy.selection.source_exclusion_marker)
        (searched_fields input)
