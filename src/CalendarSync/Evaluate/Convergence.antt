-- ===== src/CalendarSync/Evaluate/Convergence.antt =====
-- evaluate.ts: once the desired copy stands on the destination, evaluation asks for nothing more.
use planipus.Common.{
  str_eq_iff, ap, String, some, ◌≡◌, inl, inr, true, false, [], ◌∷◌, ok, bind-eq-ok, ◌∙◌, refl,
  arith,
}
use mathlib.Core.Option.{some-injective}
use planipus.CalendarSync.Json.{Text, canonicalize_json, sha256_canonical}
use planipus.CalendarSync.Platform.{Platform}
use planipus.CalendarSync.Types.{ReasonCode}
use planipus.CalendarSync.Events.{
  EventTiming, timed, all_day, Availability, PolicyEvaluationInput, PolicyEvaluationResult,
  DesiredCopy, Selection, Operation, Ownership,
}
use planipus.CalendarSync.Evaluate.NoSync.{contains_no_sync}
use planipus.CalendarSync.Evaluate.Validation.{validate, effective_availability}
use planipus.CalendarSync.Evaluate.Transform.{desired_copy, desired_json}
use planipus.CalendarSync.Evaluate.Decision.{
  Chosen, check_policy, check_source, select_availability, select_kind, select_free, select_hours,
  check_ownership, choose_operation, has_drifted, require_timing, check_horizon, emit, emitted,
  evaluate_policy, same_text,
}
use planipus.CalendarSync.Evaluate.Soundness.{Passes, evaluate-cases, emit-Emits}

-- The input of a later evaluation that finds the copy on the destination, as it was written.
abbrev pub applied : PolicyEvaluationInput → DesiredCopy → String → String → PolicyEvaluationInput
applied input d fingerprint event = record input {
  projection = record {
    ownership = Ownership.attached;
    projection_ref = some d.provenance.projection_ref;
    generation = some d.provenance.generation;
    destination_event_ref = some event;
    destination_exists = some true;
    desired_fingerprint = some fingerprint;
    observed_copy = some d;
  };
}

pub same_text_refl : (t : Text) → same_text t t ≡ true
same_text_refl [] = refl
same_text_refl (c ∷ cs) = ground (arith, same_text_refl cs)

-- A hashed copy has a canonical form, so it equals itself as JSON.
has_drifted_self :
    (p : Platform) (input : PolicyEvaluationInput) (d : DesiredCopy) (f : String)
    → sha256_canonical p.nfc p.sha256 (desired_json d) ≡ ok f
    → has_drifted p input (some d) d ≡ ok false
unfolding has_drifted sha256_canonical
has_drifted_self p input d f h =
    let (t, e, _) = bind-eq-ok (canonicalize_json p.nfc (desired_json d)) _ h in
    rw (e, same_text_refl t)

module _ (p : Platform) (input : PolicyEvaluationInput) (d : DesiredCopy) (f event : String) where
  abbrev next : PolicyEvaluationInput
  next = applied input d f event

  again_policy : check_policy p input ≡ ok tt → check_policy p next ≡ ok tt
  unfolding check_policy validate
  again_policy e = e

  again_source : check_source p input ≡ ok tt → check_source p next ≡ ok tt
  unfolding check_source contains_no_sync
  again_source e = ground arith

  again_availability :
      (c : Chosen) → select_availability input ≡ ok c → select_availability next ≡ ok c
  unfolding select_availability effective_availability
  again_availability c e = ground arith

  again_timing : (t : EventTiming) → require_timing p input ≡ ok t → require_timing p next ≡ ok t
  unfolding require_timing
  again_timing t e = e

  again_horizon :
      (t : EventTiming) → check_horizon p input t ≡ ok tt → check_horizon p next t ≡ ok tt
  unfolding check_horizon
  again_horizon t e = ground arith

  again_kind :
      (t : EventTiming) (a c : Chosen) → select_kind input t a ≡ ok c → select_kind next t a ≡ ok c
  unfolding select_kind
  again_kind (timed _ _ _ _) a c e = ground arith
  again_kind (all_day _ _ _) a c e = ground arith

  again_free : (a c : Chosen) → select_free input a ≡ ok c → select_free next a ≡ ok c
  unfolding select_free
  again_free a c e = ground arith

  again_hours :
      (t : EventTiming) (a c : Chosen)
      → select_hours p input t a ≡ ok c
      → select_hours p next t a ≡ ok c
  unfolding select_hours
  again_hours (all_day _ _ _) a c e = e
  again_hours (timed _ _ _ _) a c e = ground arith

  again_desired :
      (a : Availability) (t : EventTiming) → desired_copy input a t ≡ d → desired_copy next a t ≡ d
  unfolding desired_copy
  again_desired a t same = ground arith

  again_emit :
      (t : EventTiming) (c : Chosen)
      → desired_copy next c.availability t ≡ d
      → sha256_canonical p.nfc p.sha256 (desired_json d) ≡ ok f
      → emit p next t c ≡ ok (emitted next t c f (Operation.no_operation, ReasonCode.no_change))
  unfolding emit choose_operation check_ownership
  again_emit t c same hashed =
      rw (same, hashed, has_drifted_self p next d f hashed, (str_eq_iff f f).1 refl)

  again_stages :
      (r : PolicyEvaluationResult) (run : Passes p input r)
      → desired_copy input run.chosen.availability run.timing ≡ d
      → sha256_canonical p.nfc p.sha256 (desired_json d) ≡ ok f
      → evaluate_policy p next
        ≡ ok (emitted next run.timing run.chosen f (Operation.no_operation, ReasonCode.no_change))
  unfolding evaluate_policy
  again_stages r run same hashed = rw (
    again_policy run.policy_passes,
    again_source run.source_passes,
    again_availability run.first run.availability_passes,
    again_timing run.timing run.timing_passes,
    again_horizon run.timing run.horizon_passes,
    again_kind run.timing run.first run.kind run.kind_passes,
    again_free run.kind run.settled run.free_passes,
    again_hours run.timing run.settled run.chosen run.hours_pass,
    again_emit run.timing run.chosen (again_desired run.chosen.availability run.timing same) hashed,
  )

-- Evaluation converges: where an answer desires the copy `d` with fingerprint `f`, a later
-- evaluation of the same input that finds `d` at the destination, under any event id, includes the
-- event, desires the same copy with the same fingerprint, and has nothing to do.
pub evaluate_policy-converges :
    (p : Platform) (input : PolicyEvaluationInput) (r : PolicyEvaluationResult) (d : DesiredCopy)
    (f event : String)
    → evaluate_policy p input ≡ ok r
    → r.desired_copy ≡ some d
    → r.desired_fingerprint ≡ some f
    → (q : PolicyEvaluationResult) × (evaluate_policy p (applied input d f event) ≡ ok q)
      × (q.selection ≡ Selection.included)
      × (q.operation ≡ Operation.no_operation)
      × (q.primary_reason_code ≡ ReasonCode.no_change)
      × (q.desired_copy ≡ some d)
      × (q.desired_fingerprint ≡ some f)
unfolding emitted
evaluate_policy-converges p input r d f event e copy print = elim (evaluate-cases p input r e) [
  | inl quiet ↦ absurd (cc (quiet.no_copy))
  | inr run ↦
      let em = emit-Emits p input run.timing run.chosen r run.emitted in
      let same : desired_copy input run.chosen.availability run.timing ≡ d =
        some-injective _ _ (ap (λ x. x.desired_copy) em.same ∙ copy) in
      let same_print : em.fingerprint ≡ f =
        some-injective _ _ (ap (λ x. x.desired_fingerprint) em.same ∙ print) in
      let hashed : sha256_canonical p.nfc p.sha256 (desired_json d) ≡ ok f =
        rw (← same, ← same_print) em.hashed in
      (
        emitted (applied input d f event) run.timing run.chosen f
            (Operation.no_operation, ReasonCode.no_change),
        again_stages p input d f event r run same hashed,
        refl,
        refl,
        refl,
        ap some (again_desired p input d f event run.chosen.availability run.timing same),
        refl,
      )
]
