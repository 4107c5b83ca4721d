-- ===== src/CalendarSync/Evaluate/Soundness.antt =====
-- evaluate.ts: a copy is desired only where every guard of `evaluatePolicy` has let the event through.
use planipus.Common.{
  String, none, some, ◌≡◌, ◌⊎◌, inl, inr, ◌≢◌, false, ◌&&◌, Result, ◌∙◌, sym, ok, err, bind-eq-ok,
  includes, arith, ap,
}
use planipus.CalendarSync.Types.{ReasonCode}
use planipus.CalendarSync.Json.{JsonError, sha256_canonical}
use planipus.CalendarSync.Platform.{Platform}
use planipus.CalendarSync.Events.{
  EventTiming, DesiredCopy, Availability, Lifecycle, Origin, PolicyState, PolicyEvaluationInput,
  PolicyEvaluationResult, Selection, Operation, Ownership,
}
use planipus.CalendarSync.Evaluate.NoSync.{contains_no_sync}
use planipus.CalendarSync.Evaluate.Validation.{validate}
use planipus.CalendarSync.Evaluate.Transform.{desired_copy, disclosure, desired_json}
use planipus.CalendarSync.Evaluate.Guards.{
  IsCounted, IsTaken, IsShown, IsInHorizon, IsWithinHours, select_availability-IsCounted,
  select_kind-IsTaken, select_free-IsShown, check_horizon-IsInHorizon, select_hours-IsWithinHours,
}
use planipus.CalendarSync.Evaluate.Decision.{
  returned, Stage, Chosen, select_availability, select_kind, select_free, check_policy,
  check_source, require_timing, check_horizon, select_hours, check_ownership, choose_operation,
  throwing_type, emitted, emit, evaluate_stages, evaluate_policy, finish,
}
use planipus.CalendarSync.Evaluate.Stages.{IsQuiet, evaluate_stages-IsQuiet}

module _ (p : Platform) (input : PolicyEvaluationInput) where
  -- A run of `evaluatePolicy` through all its stages.
  pub record Passes (r : PolicyEvaluationResult) : Type 0 where
    pub first : Chosen
    pub timing : EventTiming
    pub kind : Chosen
    pub settled : Chosen
    pub chosen : Chosen
    pub policy_passes : check_policy p input ≡ ok tt
    pub source_passes : check_source p input ≡ ok tt
    pub availability_passes : select_availability input ≡ ok first
    pub timing_passes : require_timing p input ≡ ok timing
    pub horizon_passes : check_horizon p input timing ≡ ok tt
    pub kind_passes : select_kind input timing first ≡ ok kind
    pub free_passes : select_free input kind ≡ ok settled
    pub hours_pass : select_hours p input timing settled ≡ ok chosen
    pub emitted : emit p input timing chosen ≡ ok r

  stages-Passes : (r : PolicyEvaluationResult) → evaluate_stages p input ≡ ok r → Passes r
  unfolding evaluate_stages
  stages-Passes r e =
      let (_, e1, e') = bind-eq-ok (check_policy p input) _ e in
      let (_, e2, f) = bind-eq-ok (check_source p input) _ e' in
      let (a, e3, f') = bind-eq-ok (select_availability input) _ f in
      let (t, e4, g) = bind-eq-ok (require_timing p input) _ f' in
      let (_, e5, g') = bind-eq-ok (check_horizon p input t) _ g in
      let (k, e6, h) = bind-eq-ok (select_kind input t a) _ g' in
      let (s, e7, h') = bind-eq-ok (select_free input k) _ h in
      let (c, e8, i) = bind-eq-ok (select_hours p input t s) _ h' in
      record {
        first = a;
        timing = t;
        kind = k;
        settled = s;
        chosen = c;
        policy_passes = e1;
        source_passes = e2;
        availability_passes = e3;
        timing_passes = e4;
        horizon_passes = e5;
        kind_passes = e6;
        free_passes = e7;
        hours_pass = e8;
        emitted = i;
      }

  finish-cases :
      (m : Stage PolicyEvaluationResult) (r : PolicyEvaluationResult)
      → finish m ≡ ok r
      → (m ≡ err (returned r)) ⊎ (m ≡ ok r)
  finish-cases m r e = ground arith

  pub evaluate-cases :
      (r : PolicyEvaluationResult) → evaluate_policy p input ≡ ok r → IsQuiet input r ⊎ Passes r
  unfolding evaluate_policy
  evaluate-cases r e = elim (finish-cases (evaluate_stages p input) r e) [
    | inl early ↦ inl (evaluate_stages-IsQuiet p input r early)
    | inr late ↦ inr (stages-Passes r late)
  ]

  -- What stands behind a copy: each guard of the evaluation, and the copy itself.
  pub record IsAuthorized (r : PolicyEvaluationResult) : Type 0 where
    pub base : Availability
    pub availability : Availability
    pub timing : EventTiming
    pub fingerprint : String
    pub valid : validate p input ≡ none
    pub active : input.policy.state ≡ PolicyState.active
    pub confirmed : input.source.lifecycle ≡ Lifecycle.confirmed
    pub original : input.source.origin ≡ Origin.provider_original
    pub not_excluded :
        includes input.policy.selection.manual_exclusions input.source.source_event_ref ≡ false
    pub no_marker : contains_no_sync p input ≡ false
    pub not_invited :
        (input.policy.selection.skip_when_destination_identity_invited
          && input.source.destination_identity_invited)
        ≡ false
    pub reply_counts : IsCounted input base
    pub timed : input.source.timing ≡ some timing
    pub in_horizon : IsInHorizon p input timing
    pub taken : IsTaken input timing base
    pub shown : IsShown input base availability
    pub within_hours : IsWithinHours p input timing
    pub owned :
        (input.projection.ownership ≡ Ownership.unowned)
        ⊎ (input.projection.ownership ≡ Ownership.attached)
    pub selected : r.selection ≡ Selection.included
    pub keeps : r.operation ≢ Operation.delete
    pub copy : r.desired_copy ≡ some (desired_copy input availability timing)
    pub hashed :
        sha256_canonical p.nfc p.sha256 (desired_json (desired_copy input availability timing))
        ≡ ok fingerprint
    pub fingerprinted : r.desired_fingerprint ≡ some fingerprint
    pub disclosed :
        r.disclosure_manifest ≡ some (disclosure input (desired_copy input availability timing))

  check_policy-eq-ok :
      check_policy p input ≡ ok tt
      → (validate p input ≡ none) × (input.policy.state ≡ PolicyState.active)
  unfolding check_policy
  check_policy-eq-ok e = ground arith

  check_source-eq-ok :
      check_source p input ≡ ok tt
      → (input.source.lifecycle ≡ Lifecycle.confirmed)
        × (input.source.origin ≡ Origin.provider_original)
        × (includes input.policy.selection.manual_exclusions input.source.source_event_ref ≡ false)
        × (contains_no_sync p input ≡ false)
        × ((input.policy.selection.skip_when_destination_identity_invited
              && input.source.destination_identity_invited)
            ≡ false)
  unfolding check_source
  check_source-eq-ok e = ground arith

  require_timing-eq-ok :
      (t : EventTiming) → require_timing p input ≡ ok t → input.source.timing ≡ some t
  unfolding require_timing
  require_timing-eq-ok t e = ground arith

  check_ownership-eq-ok :
      (c : Chosen)
      → check_ownership input c ≡ ok tt
      → (input.projection.ownership ≡ Ownership.unowned)
        ⊎ (input.projection.ownership ≡ Ownership.attached)
  unfolding check_ownership
  check_ownership-eq-ok c e = ground arith

  choose_operation-ne-delete :
      (d : DesiredCopy) (f : String) (o : Operation) (code : ReasonCode)
      → choose_operation p input d f ≡ ok (o, code)
      → o ≢ Operation.delete
  unfolding choose_operation
  choose_operation-ne-delete d f o code e = ground arith

  throwing_type-eq-ok :
      {A : Type 0} (m : Result JsonError A) (a : A) → throwing_type m ≡ ok a → m ≡ ok a
  throwing_type-eq-ok m a e = ground arith

  -- What `emit` has computed where it gives a result.
  pub record Emits (t : EventTiming) (c : Chosen) (r : PolicyEvaluationResult) : Type 0 where
    pub fingerprint : String
    pub action : Operation
    pub code : ReasonCode
    pub owned : check_ownership input c ≡ ok tt
    pub hashed :
        sha256_canonical p.nfc p.sha256 (desired_json (desired_copy input c.availability t))
        ≡ ok fingerprint
    pub chosen :
        choose_operation p input (desired_copy input c.availability t) fingerprint
        ≡ ok (action, code)
    pub same : emitted input t c fingerprint (action, code) ≡ r

  pub emit-Emits :
      (t : EventTiming) (c : Chosen) (r : PolicyEvaluationResult)
      → emit p input t c ≡ ok r
      → Emits t c r
  unfolding emit
  emit-Emits t c r e =
      let (_, e1, e') = bind-eq-ok (check_ownership input c) _ e in
      let (f, e2, g) = bind-eq-ok (throwing_type _) _ e' in
      let ((o, code), e3, h) =
        bind-eq-ok (choose_operation p input (desired_copy input c.availability t) f) _ g in
      record {
        fingerprint = f;
        action = o;
        code = code;
        owned = e1;
        hashed = throwing_type-eq-ok _ f e2;
        chosen = e3;
        same = cc;
      }

  Passes-IsAuthorized : (r : PolicyEvaluationResult) → Passes r → IsAuthorized r
  unfolding emitted
  Passes-IsAuthorized r run =
      let e = emit-Emits run.timing run.chosen r run.emitted in
      let (valid, active) = check_policy-eq-ok run.policy_passes in
      let (confirmed, original, not_excluded, no_marker, not_invited) =
        check_source-eq-ok run.source_passes in
      let (taken, same_kind) =
        select_kind-IsTaken input run.timing run.first run.kind run.kind_passes in
      let (within_hours, same_hours) =
        select_hours-IsWithinHours p input run.timing run.settled run.chosen run.hours_pass in
      let shown = select_free-IsShown input run.kind run.settled run.free_passes in
      record {
        base = run.first.availability;
        availability = run.chosen.availability;
        timing = run.timing;
        fingerprint = e.fingerprint;
        valid = valid;
        active = active;
        confirmed = confirmed;
        original = original;
        not_excluded = not_excluded;
        no_marker = no_marker;
        not_invited = not_invited;
        reply_counts = select_availability-IsCounted input run.first run.availability_passes;
        in_horizon = check_horizon-IsInHorizon p input run.timing run.horizon_passes;
        taken = taken;
        shown = rw (← same_kind, same_hours) shown;
        within_hours = within_hours;
        timed = require_timing-eq-ok run.timing run.timing_passes;
        owned = check_ownership-eq-ok run.chosen e.owned;
        selected = sym (ap (λ x. x.selection) e.same);
        keeps = λ d.
            choose_operation-ne-delete _ _ e.action e.code e.chosen
              (ap (λ x. x.operation) e.same ∙ d);
        copy = sym (ap (λ x. x.desired_copy) e.same);
        hashed = e.hashed;
        fingerprinted = sym (ap (λ x. x.desired_fingerprint) e.same);
        disclosed = sym (ap (λ x. x.disclosure_manifest) e.same);
      }

-- Every answer of the evaluation either writes nothing but, at most, the removal of a copy that
-- is attached and of an event that is excluded, and carries no copy, fingerprint or disclosure; or
-- every guard has passed, and it carries the copy, its fingerprint and its disclosure and deletes
-- nothing. The guards are: a valid, active policy; a confirmed event of the provider's own with a
-- timing, not excluded by hand, by the marker or by an invitation; an answer to the invitation that
-- counts; a span that meets the horizon; a kind of event that the policy takes; a free event that it
-- keeps or shows as busy; for a timed event, hours that include it; and a projection that is unowned or
-- attached. The copy's availability is the one that the answer and the rule on free events give.
pub evaluate_policy_sound :
    (p : Platform) (input : PolicyEvaluationInput) (r : PolicyEvaluationResult)
    → evaluate_policy p input ≡ ok r
    → IsQuiet input r ⊎ IsAuthorized p input r
evaluate_policy_sound p input r e = elim (evaluate-cases p input r e) [
  | inl quiet ↦ inl quiet
  | inr run ↦ inr (Passes-IsAuthorized p input r run)
]
