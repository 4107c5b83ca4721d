-- ===== src/CalendarSync/Evaluate/Stages.antt =====
-- evaluate.ts: what each early return of `evaluatePolicy` answers, and how a copy comes about.
use planipus.Common.{ap, none, ◌≡◌, ◌⊎◌, ok, err, ◌>>=◌, arith}
use planipus.CalendarSync.Platform.{Platform}
use planipus.CalendarSync.Events.{
  EventTiming, timed, all_day, PolicyEvaluationInput, PolicyEvaluationResult, Selection, Operation,
  Ownership,
}
use planipus.CalendarSync.Evaluate.Validation.{excluded}
use planipus.CalendarSync.Evaluate.Decision.{
  returned, thrown, Stage, Chosen, select_availability, select_kind, select_free, check_policy,
  check_source, require_timing, check_horizon, select_hours, check_ownership, choose_operation,
  has_drifted, emit, evaluate_stages,
}

-- A result that writes nothing but the removal of an attached copy, and discloses nothing.
pub record IsQuiet (input : PolicyEvaluationInput) (r : PolicyEvaluationResult) : Type 0 where
  pub no_copy : r.desired_copy ≡ none
  pub no_fingerprint : r.desired_fingerprint ≡ none
  pub no_disclosure : r.disclosure_manifest ≡ none
  pub effect :
      (r.operation ≡ Operation.no_operation)
      ⊎ ((r.operation ≡ Operation.delete)
          × (r.selection ≡ Selection.excluded)
          × (input.projection.ownership ≡ Ownership.attached))

-- The result that a stage returns early, if it does, satisfies `P`.
abbrev pub Leaves : {A : Type 0} → (PolicyEvaluationResult → Type 0) → Stage A → Type 0
Leaves P m = (r : PolicyEvaluationResult) → m ≡ err (returned r) → P r

pub Leaves-bind :
    {A B : Type 0} (P : PolicyEvaluationResult → Type 0) (m : Stage A) (f : A → Stage B)
    → Leaves P m
    → ((a : A) → Leaves P (f a))
    → Leaves P (m >>= f)
Leaves-bind P (ok a) f h k r e = k a r e
Leaves-bind P (err (returned q)) f h k r e =
    let same : q ≡ r = cc in h r (ap (λ x. err (returned x)) same)
Leaves-bind P (err (thrown x)) f h k r e = cc

module _ (input : PolicyEvaluationInput) where
  abbrev Quiet : {A : Type 0} → Stage A → Type 0
  Quiet m = Leaves (IsQuiet input) m

  select_availability-IsQuiet : Quiet (select_availability input)
  unfolding select_availability excluded
  select_availability-IsQuiet r e = ground arith

  select_kind-IsQuiet : (t : EventTiming) (c : Chosen) → Quiet (select_kind input t c)
  unfolding select_kind excluded
  select_kind-IsQuiet (timed _ _ _ _) c r e = ground arith
  select_kind-IsQuiet (all_day _ _ _) c r e = ground arith

  select_free-IsQuiet : (c : Chosen) → Quiet (select_free input c)
  unfolding select_free excluded
  select_free-IsQuiet c r e = ground arith

  check_ownership-IsQuiet : (c : Chosen) → Quiet (check_ownership input c)
  unfolding check_ownership
  check_ownership-IsQuiet c r e = ground arith

module _ (p : Platform) (input : PolicyEvaluationInput) where
  check_policy-IsQuiet : Quiet input (check_policy p input)
  unfolding check_policy
  check_policy-IsQuiet r e = ground arith

  check_source-IsQuiet : Quiet input (check_source p input)
  unfolding check_source excluded
  check_source-IsQuiet r e = ground arith

  require_timing-IsQuiet : Quiet input (require_timing p input)
  unfolding require_timing
  require_timing-IsQuiet r e = ground arith

  check_horizon-IsQuiet : (t : EventTiming) → Quiet input (check_horizon p input t)
  unfolding check_horizon excluded
  check_horizon-IsQuiet t r e = ground arith

  select_hours-IsQuiet : (t : EventTiming) (c : Chosen) → Quiet input (select_hours p input t c)
  unfolding select_hours excluded
  select_hours-IsQuiet (all_day _ _ _) c r e = cc
  select_hours-IsQuiet (timed _ _ _ _) c r e = ground arith

  emit-IsQuiet : (t : EventTiming) (c : Chosen) → Quiet input (emit p input t c)
  unfolding emit choose_operation has_drifted
  emit-IsQuiet t c r e = ground (arith, check_ownership-IsQuiet input c r)

  -- Whatever stage returns early, the result is quiet.
  pub evaluate_stages-IsQuiet : Quiet input (evaluate_stages p input)
  unfolding evaluate_stages
  evaluate_stages-IsQuiet =
      let Q = IsQuiet input in
      Leaves-bind Q (check_policy p input) _ check_policy-IsQuiet λ _.
        Leaves-bind Q (check_source p input) _ check_source-IsQuiet λ _.
          Leaves-bind Q (select_availability input) _ (select_availability-IsQuiet input) λ a.
            Leaves-bind Q (require_timing p input) _ require_timing-IsQuiet λ t.
              Leaves-bind Q (check_horizon p input t) _ (check_horizon-IsQuiet t) λ _.
                Leaves-bind Q (select_kind input t a) _ (select_kind-IsQuiet input t a) λ k.
                  Leaves-bind Q (select_free input k) _ (select_free-IsQuiet input k) λ s.
                    Leaves-bind Q (select_hours p input t s) _ (select_hours-IsQuiet t s)
                      λ c. emit-IsQuiet t c
