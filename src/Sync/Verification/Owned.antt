-- ===== src/Sync/Verification/Owned.antt =====
-- server/src/sync/verification.ts: when a batch sends a new effect.
use planipus.Common.{
  ◌≡◌, refl, sym, ap, ◌⊎◌, inl, inr, String, Option, none, some, Bool, true, false, List, ◌∷◌,
  str_eq, opt_str_eq, Result, ok, err, bind-eq-ok, ok_eq, Bool-cases, Option-cases,
}
use planipus.CalendarSync.Events.{DesiredCopy}
use planipus.CalendarSync.DestinationEdits.{
  ObservationKind, drifted, missing, DestinationEditMode, restore, restore_and_notify,
  hold_for_review, NoticeKind, EditErrorCode, DestinationEditResponse, repair, hold, mode_for,
  respond, plan_destination_edit_response,
}
use planipus.Sync.Store.{Effect, Store}
use planipus.Sync.Provider.{
  EffectError, provider_error, unexpected, ProviderEventLookup, CalendarProvider,
}
use planipus.Sync.Effects.Missing.{event_belongs_to_projection}
use planipus.Sync.Verification.Decision.{
  Verifier, VerificationTarget, DestinationVerificationDecision, current, edited,
  ownership_mismatch, CopyEdit, missing_copy, drifted_copy, edit_kind,
  classify_destination_verification, record_sync_notice,
}
use planipus.Sync.Verification.Guards.{find_current, recovery_copy}
use planipus.Sync.Verification.Repair.{
  audit, hold_from, hold_destination_edit, hold_ownership_mismatch,
}
use planipus.Sync.Verification.Coherence.{IsOutcome, schedule_repair-IsOutcome}
use planipus.Sync.Verification.Batch.{
  Batch, count_held, count_repair, caught, counted, finish, respond_to_edit, act_on, act_on_lookup,
}

-- The event is gone, or it is the projection's own with another revision than the one that was written.
abbrev pub IsOwnEdit : VerificationTarget → Option ProviderEventLookup → CopyEdit → Type 0
IsOwnEdit target observed missing_copy = observed ≡ none
IsOwnEdit target observed (drifted_copy revision) =
    (found : ProviderEventLookup) × (observed ≡ some found)
    × (event_belongs_to_projection found target.policy_id target.projection_id target.generation
        ≡ true)
    × (opt_str_eq (some found.remote_revision) target.destination_revision ≡ false)
    × (revision ≡ found.remote_revision)

respond-AllowsRepair :
    (mode : DestinationEditMode) (observed : ObservationKind) (notice : Option NoticeKind)
    (code : EditErrorCode)
    → respond mode observed ≡ repair notice code
    → ¬ (mode ≡ hold_for_review)
unfolding respond
respond-AllowsRepair hold_for_review drifted notice code e = absurd (cc e)
respond-AllowsRepair hold_for_review missing notice code e = absurd (cc e)
respond-AllowsRepair restore observed notice code e = λ h. cc h
respond-AllowsRepair restore_and_notify observed notice code e = λ h. cc h

classify-found :
    (target : VerificationTarget) (found : ProviderEventLookup) (edit : CopyEdit)
    → classify_destination_verification target (some found) ≡ edited edit
    → (event_belongs_to_projection found target.policy_id target.projection_id target.generation
        ≡ true)
      × (opt_str_eq (some found.remote_revision) target.destination_revision ≡ false)
      × (edit ≡ drifted_copy found.remote_revision)
unfolding classify_destination_verification
classify-found target found edit e =
    elim (Bool-cases
      (event_belongs_to_projection found target.policy_id target.projection_id target.generation)) [
        | inr foreign ↦ absurd (cc (rw (foreign, classify_destination_verification) at e))
        | inl own ↦
            elim (Bool-cases
              (opt_str_eq (some found.remote_revision) target.destination_revision)) [
                | inl same ↦ absurd (cc (rw (own, same, classify_destination_verification) at e))
                | inr other ↦
                    let drift : edited (drifted_copy found.remote_revision) ≡ edited edit =
                      rw (own, other, classify_destination_verification) at e in
                    (own, other, cc drift)
              ]
      ]

classify-IsOwnEdit :
    (target : VerificationTarget) (observed : Option ProviderEventLookup) (edit : CopyEdit)
    → classify_destination_verification target observed ≡ edited edit
    → IsOwnEdit target observed edit
unfolding classify_destination_verification
classify-IsOwnEdit target none missing_copy e = refl
classify-IsOwnEdit target none (drifted_copy revision) e = absurd (cc e)
classify-IsOwnEdit target (some found) missing_copy e =
    let (own, other, same) = classify-found target found missing_copy e in absurd (cc same)
classify-IsOwnEdit target (some found) (drifted_copy revision) e =
    let (own, other, same) = classify-found target found (drifted_copy revision) e in
    (found, refl, own, other, cc same)

module _ (verifier : Verifier) {R : Type 0} (provider : CalendarProvider R) (organization : String)
    (target : VerificationTarget) where
  abbrev pub effects_of : Batch R → List Effect
  effects_of b = b.world.store.effects

  caught-effects :
      (error : EffectError) (b : Batch R)
      → effects_of (caught verifier provider organization target error b) ≡ effects_of b
  unfolding caught
  caught-effects (provider_error e) b = elim (Bool-cases (str_eq e.code "provider_auth")) [
    | inl hit ↦ rw hit refl
    | inr miss ↦ rw miss refl
  ]
  caught-effects (unexpected t) b = refl

  counted_held-effects :
      (out : Store × Bool) (b : Batch R)
      → out.0.effects ≡ effects_of b
      → effects_of (counted verifier provider organization count_held out b) ≡ effects_of b
  counted_held-effects (s, true) b same = same
  counted_held-effects (s, false) b same = same

  hold_from-effects :
      (edit : CopyEdit) (notice : NoticeKind) (code : EditErrorCode) (s : Store)
      (copy : Option DesiredCopy)
      → (hold_from verifier organization target edit notice code s copy).0.effects ≡ s.effects
  unfolding hold_from audit record_sync_notice
  hold_from-effects edit notice code s none = refl
  hold_from-effects edit notice code s (some desired) = refl

  hold_destination_edit-effects :
      (edit : CopyEdit) (notice : NoticeKind) (code : EditErrorCode) (s : Store)
      (out : Store × Bool)
      → hold_destination_edit verifier organization target edit notice code s ≡ ok out
      → out.0.effects ≡ s.effects
  unfolding hold_destination_edit
  hold_destination_edit-effects edit notice code s out done =
      elim (Option-cases (find_current organization target s)) [
        | inl e ↦
            let same : (s, false) ≡ out = ok_eq refl (rw (e, hold_destination_edit) at done) in
            rw (sym same) refl
        | inr (q, e) ↦
            let (copy, read, last) =
              bind-eq-ok (recovery_copy verifier target q.desired_state)
                (λ copy. ok (hold_from verifier organization target edit notice code s copy))
                (rw (e, hold_destination_edit) at done) in
            let same : hold_from verifier organization target edit notice code s copy ≡ out =
              ok_eq refl last in
            rw (sym same) (hold_from-effects edit notice code s copy)
      ]

  hold_ownership_mismatch-effects :
      (revision : String) (s : Store)
      → (hold_ownership_mismatch verifier organization target revision s).0.effects ≡ s.effects
  unfolding hold_ownership_mismatch audit
  hold_ownership_mismatch-effects revision s =
      elim (Option-cases (find_current organization target s)) [
        | inl e ↦ rw (e, hold_ownership_mismatch) refl
        | inr (q, e) ↦ rw (e, hold_ownership_mismatch) refl
      ]

  finish_held-effects :
      (out : Result EffectError (Store × Bool)) (b : Batch R)
      → ((changed : Store × Bool) → out ≡ ok changed → changed.0.effects ≡ effects_of b)
      → effects_of (finish verifier provider organization target count_held out b) ≡ effects_of b
  unfolding finish
  finish_held-effects (ok out) b same = counted_held-effects out b (same out refl)
  finish_held-effects (err error) b same = caught-effects error b

  abbrev pub MayRepair : CopyEdit → Type 0
  MayRepair edit = ¬ (mode_for target.destination_edits (edit_kind edit) ≡ hold_for_review)

  -- Nothing is sent, or one effect, for an edit of the projection's own copy that may be repaired.
  abbrev pub Sends : Result EffectError (Option ProviderEventLookup) → Batch R → Batch R → Type 0
  Sends seen b after =
      (effects_of after ≡ effects_of b)
      ⊎ ((edit : CopyEdit) × (observed : Option ProviderEventLookup) × (seen ≡ ok observed)
          × IsOwnEdit target observed edit
          × MayRepair edit
          × (e : Effect) × (effects_of after ≡ e ∷ effects_of b))

  finish_repair-effects :
      (edit : CopyEdit) (out : Result EffectError (Store × Bool)) (b : Batch R)
      → ((changed : Store × Bool)
          → out ≡ ok changed
          → IsOutcome verifier organization target edit b.world.store changed)
      → (effects_of (finish verifier provider organization target count_repair out b)
          ≡ effects_of b)
        ⊎ ((e : Effect) × (effects_of
                (finish verifier provider organization target count_repair out b)
              ≡ e ∷ effects_of b))
  unfolding finish
  finish_repair-effects edit (ok (s, true)) b outcome = elim (outcome (s, true) refl) [
    | inl (kept, _) ↦ absurd (cc kept)
    | inr (_, (q, e, set, ready, effects, rows, coherent)) ↦ inr (e, effects)
  ]
  finish_repair-effects edit (ok (s, false)) b outcome = elim (outcome (s, false) refl) [
    | inl (_, same) ↦ inl (ap (λ (x : Store). x.effects) same)
    | inr (sent, _) ↦ absurd (cc sent)
  ]
  finish_repair-effects edit (err error) b outcome = inl (caught-effects error b)

  respond_to_edit-effects :
      (edit : CopyEdit) (response : DestinationEditResponse) (b : Batch R)
      → (effects_of (respond_to_edit verifier provider organization target edit response b)
          ≡ effects_of b)
        ⊎ (((notice : Option NoticeKind) × (code : EditErrorCode) × (response ≡ repair notice code))
            × (e : Effect) × (effects_of
                  (respond_to_edit verifier provider organization target edit response b)
                ≡ e ∷ effects_of b))
  unfolding respond_to_edit
  respond_to_edit-effects edit (hold notice code) b =
      inl (finish_held-effects _ b (hold_destination_edit-effects edit notice code b.world.store))
  respond_to_edit-effects edit (repair notice code) b =
      elim (finish_repair-effects edit _ b
        (schedule_repair-IsOutcome verifier organization target edit notice code b.world.store)) [
          | inl same ↦ inl same
          | inr (e, sent) ↦ inr ((notice, code, refl), e, sent)
        ]

  act_on-Sends :
      (observed : Option ProviderEventLookup) (decision : DestinationVerificationDecision)
      (b : Batch R)
      → classify_destination_verification target observed ≡ decision
      → Sends (ok observed) b (act_on verifier provider organization target decision b)
  unfolding act_on plan_destination_edit_response
  act_on-Sends observed (current revision) b e = inl refl
  act_on-Sends observed (ownership_mismatch revision) b e =
      inl (counted_held-effects _ b (hold_ownership_mismatch-effects revision b.world.store))
  act_on-Sends observed (edited edit) b e =
      elim (respond_to_edit-effects edit
        (plan_destination_edit_response target.destination_edits (edit_kind edit)) b) [
          | inl same ↦ inl same
          | inr ((notice, code, allowed), effect, sent) ↦ inr (
            edit,
            observed,
            refl,
            classify-IsOwnEdit target observed edit e,
            respond-AllowsRepair (mode_for target.destination_edits (edit_kind edit))
                (edit_kind edit) notice code allowed,
            effect,
            sent,
          )
        ]

  -- What a look at the destination leads to: at most one new effect, and one only where the event is
  -- gone or is the projection's own with another revision, and the policy does not hold such an edit
  -- for a person.
  pub act_on_lookup-Sends :
      (seen : Result EffectError (Option ProviderEventLookup)) (b : Batch R)
      → Sends seen b (act_on_lookup verifier provider organization target seen b)
  unfolding act_on_lookup
  act_on_lookup-Sends (err error) b = inl (caught-effects error b)
  act_on_lookup-Sends (ok observed) b = act_on-Sends observed _ b refl
