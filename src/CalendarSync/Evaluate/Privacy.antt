-- ===== src/CalendarSync/Evaluate/Privacy.antt =====
-- evaluate.ts: what a copy can disclose of the source event.
use planipus.Common.{
  ap, String, Option, none, some, ◌≡◌, inl, inr, true, List, ok, bind_congr, refl, arith,
}
use planipus.CalendarSync.Json.{JsonValue}
use planipus.CalendarSync.Platform.{Platform}
use planipus.CalendarSync.Events.{
  EventTiming, timed, all_day, EventContent, Availability, PolicyEvaluationInput,
  PolicyEvaluationResult, DesiredCopy, Visibility,
}
use planipus.CalendarSync.Evaluate.NoSync.{contains_no_sync}
use planipus.CalendarSync.Evaluate.Validation.{
  is_redacted, validate, excluded, effective_availability,
}
use planipus.CalendarSync.Evaluate.Transform.{desired_copy, disclosure}
use planipus.CalendarSync.Evaluate.Decision.{
  Chosen, check_policy, check_source, select_availability, select_kind, select_free, select_hours,
  choose_operation, require_timing, check_horizon, emit, evaluate_stages, evaluate_policy, finish,
}
use planipus.CalendarSync.Evaluate.Soundness.{evaluate_policy_sound}

-- A copy under a redacting preset: the generic summary, no details, private.
pub record IsRedacted (input : PolicyEvaluationInput) (d : DesiredCopy) : Type 0 where
  pub summary : d.summary ≡ input.policy.privacy.generic_summary
  pub description : d.description ≡ none
  pub location : d.location ≡ none
  pub conference : d.conference ≡ none
  pub visibility : d.visibility ≡ Visibility.private_visibility

desired_copy-IsRedacted :
    (input : PolicyEvaluationInput) (a : Availability) (t : EventTiming)
    → is_redacted input.policy.privacy.preset ≡ true
    → IsRedacted input (desired_copy input a t)
unfolding desired_copy
desired_copy-IsRedacted input a t h = record {
  summary = ground arith;
  description = ground arith;
  location = ground arith;
  conference = ground arith;
  visibility = ground arith;
}

-- The fields of an event that hold personal details.
pub record PersonalDetails : Type 0 where
  pub content : EventContent
  pub attendees : Option (List String)
  pub organizer_identity : Option String
  pub attachments : Option (List String)
  pub source_url : Option String
  pub provider_metadata : Option JsonValue

-- The input with other details of its event.
abbrev pub with_details : PolicyEvaluationInput → PersonalDetails → PolicyEvaluationInput
with_details input details = record input {
  source = record (input.source) {
    content = details.content;
    attendees = details.attendees;
    organizer_identity = details.organizer_identity;
    attachments = details.attachments;
    source_url = details.source_url;
    provider_metadata = details.provider_metadata;
  };
}

redacted_desired :
    (input : PolicyEvaluationInput) (details : PersonalDetails) (a : Availability) (t : EventTiming)
    → is_redacted input.policy.privacy.preset ≡ true
    → desired_copy (with_details input details) a t ≡ desired_copy input a t
unfolding desired_copy
redacted_desired input details a t h = ground arith

-- The stages read the details through the marker search and through the copy only.
module _ (p : Platform) (input : PolicyEvaluationInput) (details : PersonalDetails) where
  abbrev other : PolicyEvaluationInput
  other = with_details input details

  same_policy : check_policy p other ≡ check_policy p input
  unfolding check_policy validate
  same_policy = refl

  same_source :
      contains_no_sync p other ≡ contains_no_sync p input
      → check_source p other ≡ check_source p input
  unfolding check_source excluded
  same_source h = rw h

  same_emit :
      (t : EventTiming) (c : Chosen)
      → desired_copy other c.availability t ≡ desired_copy input c.availability t
      → emit p other t c ≡ emit p input t c
  unfolding emit choose_operation disclosure
  same_emit t c h = rw h

  same_availability : select_availability other ≡ select_availability input
  unfolding select_availability effective_availability excluded
  same_availability = refl

  same_horizon : (t : EventTiming) → check_horizon p other t ≡ check_horizon p input t
  unfolding check_horizon excluded
  same_horizon t = refl

  same_kind : (t : EventTiming) (c : Chosen) → select_kind other t c ≡ select_kind input t c
  unfolding select_kind excluded
  same_kind (timed _ _ _ _) c = refl
  same_kind (all_day _ _ _) c = refl

  same_free : (c : Chosen) → select_free other c ≡ select_free input c
  unfolding select_free excluded
  same_free c = refl

  same_hours : (t : EventTiming) (c : Chosen) → select_hours p other t c ≡ select_hours p input t c
  unfolding select_hours excluded
  same_hours (all_day _ _ _) c = refl
  same_hours (timed _ _ _ _) c = refl

  same_timing : require_timing p other ≡ require_timing p input
  unfolding require_timing
  same_timing = refl

  same_stages :
      ((a : Availability) (t : EventTiming) → desired_copy other a t ≡ desired_copy input a t)
      → contains_no_sync p other ≡ contains_no_sync p input
      → evaluate_stages p other ≡ evaluate_stages p input
  unfolding evaluate_stages
  same_stages h k = bind_congr same_policy λ _. bind_congr (same_source k) λ _.
      bind_congr same_availability λ a. bind_congr same_timing λ t. bind_congr (same_horizon t) λ _.
        bind_congr (same_kind t a) λ b.
          bind_congr (same_free b)
            λ s. bind_congr (same_hours t s) λ c. same_emit t c (h c.availability t)

-- Under the presets `busy_only` and `commitment` the whole answer (the copy, its fingerprint, the
-- disclosure, the reasons, or the error that is thrown) is the same whatever the event's content,
-- attendees, organizer, attachments, URL and provider metadata are, as long as the exclusion marker
-- is found in both contents or in neither.
pub evaluate_policy-ignores_details :
    (p : Platform) (input : PolicyEvaluationInput) (details : PersonalDetails)
    → is_redacted input.policy.privacy.preset ≡ true
    → contains_no_sync p (with_details input details) ≡ contains_no_sync p input
    → evaluate_policy p (with_details input details) ≡ evaluate_policy p input
unfolding evaluate_policy
evaluate_policy-ignores_details p input details h k =
    ap finish (same_stages p input details (λ a t. redacted_desired input details a t h) k)

-- A copy that any answer desires under a redacting preset has the generic summary, no details, and
-- private visibility.
pub evaluate_policy-IsRedacted :
    (p : Platform) (input : PolicyEvaluationInput) (r : PolicyEvaluationResult) (d : DesiredCopy)
    → is_redacted input.policy.privacy.preset ≡ true
    → evaluate_policy p input ≡ ok r
    → r.desired_copy ≡ some d
    → IsRedacted input d
evaluate_policy-IsRedacted p input r d h e c = elim (evaluate_policy_sound p input r e) [
  | inl quiet ↦ absurd (cc quiet.no_copy)
  | inr a ↦
      let same : desired_copy input a.availability a.timing ≡ d = cc (a.copy) in
      rw same at (desired_copy-IsRedacted input a.availability a.timing h)
]
