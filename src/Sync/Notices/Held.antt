-- ===== src/Sync/Notices/Held.antt =====
-- server/src/sync/verification.ts: what a transaction that holds an edit has read, and the row that it
-- leaves.
use planipus.Common.{
  ok, false, ◌≡◌, refl, sym, ap, ◌∙◌, inl, inr, String, Option, none, some, true, not, ◌&&◌, ◌==◌,
  ==_iff, find, str_eq, str_eq_iff, opt_str_eq, both_true, Option-cases,
}
use planipus.CalendarSync.Json.{codes}
use planipus.CalendarSync.DestinationEdits.{
  destination_delete_held, copy_delete_held, destination_edit_held, copy_edit_held,
  DestinationEditMode, hold_for_review, restore_and_notify, ObservationKind, drifted, missing,
  NoticeKind, EditErrorCode, hold, respond,
}
use planipus.Sync.Store.{
  EffectOperation, document, PolicyStatus, Policy, Projection, Store, is_policy, is_active_status,
}
use planipus.Sync.Reconcile.Projecting.{is_hold_code, is_attached, is_destination_edit_hold}
use planipus.Sync.Verification.Decision.{
  edit_error_text, Verifier, VerificationTarget, CopyEdit, missing_copy, drifted_copy,
  edit_operation,
}
use planipus.Sync.Verification.Guards.{is_converged, is_row, is_authorized, is_unchanged}
use planipus.Sync.Verification.Repair.{held_row}
use planipus.Sync.Verification.Evidence.{IsReady}
use planipus.Sync.Notices.Searches.{find-hit}
use planipus.CalendarSync.Events.{DesiredCopy}
use planipus.Sync.Effects.Steps.{Env}
use planipus.Sync.Effects.Missing.{hash_copy}
use planipus.Sync.Notices.Reads.{Resolver, is_held_kind, is_deleted, names_row, waiting_operation}
use planipus.Sync.Notices.Resolve.{evidence}

opt_str_eq-some : (o : Option String) (s : String) → opt_str_eq o (some s) ≡ true → o ≡ some s
opt_str_eq-some none s e = absurd (cc e)
opt_str_eq-some (some t) s e = ap some ((str_eq_iff t s).0 e)

active_not_deleted :
    (status : PolicyStatus) → is_active_status status ≡ true → not (is_deleted status) ≡ true
active_not_deleted PolicyStatus.active e = refl
active_not_deleted PolicyStatus.paused e = absurd (cc e)
active_not_deleted PolicyStatus.deleted e = absurd (cc e)

-- What a transaction of the verifier has established of the policy and the row that it goes on with.
pub record Owns (organization : String) (target : VerificationTarget) (s : Store) (q : Projection)
    : Type 0 where
  pub policy : Policy
  pub found : find (is_policy organization target.policy_id) s.policies ≡ some policy
  pub policy_id : policy.id ≡ target.policy_id
  pub undeleted : not (is_deleted policy.status) ≡ true
  pub row_id : q.id ≡ target.projection_id
  pub attached : is_attached q.ownership ≡ true
  pub revision : q.policy_revision ≡ policy.revision
  pub generation : q.generation ≡ target.generation
  pub desired_hash : q.desired_hash ≡ some target.desired_hash

module _ (organization : String) (target : VerificationTarget) (s : Store) where
  is_authorized-found :
      is_authorized organization target s ≡ true
      → (p : Policy) × (find (is_policy organization target.policy_id) s.policies ≡ some p)
        × (is_active_status p.status ≡ true)
        × (p.revision ≡ target.policy_revision)
  unfolding is_authorized
  is_authorized-found e =
      elim (Option-cases (find (is_policy organization target.policy_id) s.policies)) [
        | inl gone ↦ absurd (cc (rw (gone, is_authorized) at e))
        | inr (p, found) ↦
            let tests : (is_active_status p.status && p.revision == target.policy_revision) ≡ true =
              rw (found, is_authorized) at e in
            let (running, same) = both_true (is_active_status p.status) _ tests in
            (p, found, running, (==_iff _ _).0 same)
      ]

  is_unchanged-same :
      (q : Projection)
      → is_unchanged target q ≡ true
      → (is_attached q.ownership ≡ true)
        × (q.policy_revision ≡ target.policy_revision)
        × (q.generation ≡ target.generation)
        × (q.desired_hash ≡ some target.desired_hash)
  unfolding is_unchanged
  is_unchanged-same q e =
      let rest_1 = (both_true (is_converged q.status) _ e).1 in
      let (attached, rest_2) = both_true (is_attached q.ownership) _ rest_1 in
      let (revision, rest_3) = both_true (q.policy_revision == target.policy_revision) _ rest_2 in
      let (generation, rest_4) = both_true (q.generation == target.generation) _ rest_3 in
      let rest_5 =
        (both_true (opt_str_eq q.destination_event_id (some target.destination_event_id)) _
          rest_4).1 in
      let hash =
        (both_true (opt_str_eq q.destination_etag target.destination_revision) _ rest_5).1 in
      (
        attached,
        (==_iff _ _).0 revision,
        (==_iff _ _).0 generation,
        opt_str_eq-some q.desired_hash target.desired_hash hash,
      )

  pub ready-Owns :
      (verifier : Verifier) (q : Projection)
      → IsReady verifier organization target s q
      → Owns organization target s q
  ready-Owns verifier q ready =
      let (p, found, running, same) = is_authorized-found ready.authorized in
      let (attached, revision, generation, hash) = is_unchanged-same q ready.unchanged in
      let policy_hit = find-hit (is_policy organization target.policy_id) s.policies found in
      let row_hit = find-hit (is_row organization target.projection_id) s.projections ready.row in
      record {
        policy = p;
        found = found;
        policy_id =
            (str_eq_iff _ _).0 (both_true (str_eq p.organization_id organization) _ policy_hit).1;
        undeleted = active_not_deleted p.status running;
        row_id = (str_eq_iff _ _).0 (both_true (str_eq q.organization_id organization) _ row_hit).1;
        attached = attached;
        revision = revision ∙ sym same;
        generation = generation;
        desired_hash = hash;
      }

-- A response that holds an edit makes a notice that can be decided, and a code of such a hold.
pub respond-hold :
    (mode : DestinationEditMode) (observed : ObservationKind) (notice : NoticeKind)
    (code : EditErrorCode)
    → respond mode observed ≡ hold notice code
    → (is_held_kind notice ≡ true) × (is_hold_code (some (codes (edit_error_text code))) ≡ true)
unfolding respond
respond-hold hold_for_review drifted notice code e =
    let (kind, same) : (copy_edit_held ≡ notice) × (destination_edit_held ≡ code) = (cc e, cc e) in
    rw (sym kind, sym same) (refl, refl)
respond-hold hold_for_review missing notice code e =
    let (kind, same) : (copy_delete_held ≡ notice) × (destination_delete_held ≡ code) =
      (cc e, cc e) in
    rw (sym kind, sym same) (refl, refl)
respond-hold DestinationEditMode.restore drifted notice code e = absurd (cc e)
respond-hold DestinationEditMode.restore missing notice code e = absurd (cc e)
respond-hold restore_and_notify drifted notice code e = absurd (cc e)
respond-hold restore_and_notify missing notice code e = absurd (cc e)

-- What a held row keeps, and that its hold can be decided.
pub held_row-kept :
    (verifier : Verifier) (organization : String) (target : VerificationTarget) (edit : CopyEdit)
    (code : EditErrorCode) (q : Projection)
    → let r = held_row verifier organization target edit code q in
      (r.id ≡ q.id)
      × (r.policy_revision ≡ q.policy_revision)
      × (r.generation ≡ q.generation)
      × (r.desired_hash ≡ q.desired_hash)
      × (r.desired_state ≡ q.desired_state)
      × (r.recovery_operation ≡ some (edit_operation edit))
held_row-kept verifier organization target missing_copy code q =
    (refl, refl, refl, refl, refl, refl)
held_row-kept verifier organization target (drifted_copy revision) code q =
    (refl, refl, refl, refl, refl, refl)

pub held_row-is_hold :
    (verifier : Verifier) (organization : String) (target : VerificationTarget) (edit : CopyEdit)
    (code : EditErrorCode) (q : Projection)
    → is_attached q.ownership ≡ true
    → is_hold_code (some (codes (edit_error_text code))) ≡ true
    → is_destination_edit_hold (held_row verifier organization target edit code q) ≡ true
unfolding is_destination_edit_hold
held_row-is_hold verifier organization target missing_copy code q attached held =
    rw (attached, held) refl
held_row-is_hold verifier organization target (drifted_copy revision) code q attached held =
    rw (attached, held) refl

pub held_row-is_row :
    (verifier : Verifier) (organization : String) (target : VerificationTarget) (edit : CopyEdit)
    (code : EditErrorCode) (id : String) (q : Projection)
    → is_row organization id (held_row verifier organization target edit code q)
      ≡ is_row organization id q
held_row-is_row verifier organization target missing_copy code id q = refl
held_row-is_row verifier organization target (drifted_copy revision) code id q = refl

pub hash_copy-platform :
    (env other : Env) (desired : DesiredCopy)
    → env.platform ≡ other.platform
    → hash_copy env desired ≡ hash_copy other desired
unfolding hash_copy
hash_copy-platform env other desired same = rw same refl

-- The operations that undo an edit have their evidence in the copy of the row.
pub evidence-edit :
    (resolver : Resolver) (organization notice_id : String) (p : Policy) (r : Projection)
    (edit : CopyEdit)
    → evidence resolver organization notice_id p r (edit_operation edit)
      ≡ evidence resolver organization notice_id p r EffectOperation.create
unfolding evidence
evidence-edit resolver organization notice_id p r missing_copy = refl
evidence-edit resolver organization notice_id p r (drifted_copy revision) = refl

pub evidence-checked :
    (resolver : Resolver) (organization notice_id : String) (p : Policy) (r : Projection)
    (desired : DesiredCopy) (hash : String)
    → r.desired_state ≡ some (document desired)
    → r.desired_hash ≡ some hash
    → str_eq hash "" ≡ false
    → names_row p r desired ≡ true
    → hash_copy resolver.env desired ≡ ok hash
    → evidence resolver organization notice_id p r EffectOperation.create ≡ ok tt
unfolding evidence
evidence-checked resolver organization notice_id p r desired hash stored read filled named hashes =
    rw (evidence, stored, read, filled, named, hashes, (str_eq_iff hash hash).1 refl) refl

pub waiting_operation-ok :
    (p : Policy) (r : Projection) (operation : EffectOperation)
    → r.policy_revision ≡ p.revision
    → r.recovery_operation ≡ some operation
    → waiting_operation p r ≡ ok operation
waiting_operation-ok p r operation same waits = rw ((==_iff _ _).1 same, waits) refl
