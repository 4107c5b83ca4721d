-- ===== src/Sync/Notices/Recoverable.antt =====
-- server/src/sync/verification.ts with notices.ts: from an edit that is held to its decision.
use planipus.Common.{
  ◌≡◌, refl, sym, ap, ◌∙◌, inl, inr, String, none, some, Bool, true, false, not, ◌&&◌, ◌∷◌, find,
  str_eq, str_eq_iff, ok, bind-eq-ok, ok_eq, Option-cases,
}
use planipus.CalendarSync.Json.{codes}
use planipus.CalendarSync.Events.{DesiredCopy}
use planipus.CalendarSync.DestinationEdits.{
  NoticeKind, EditErrorCode, hold, mode_for, plan_destination_edit_response,
}
use planipus.Sync.Store.{
  NoticeStatus, SyncNotice, Policy, Projection, keep_and_detach, Store, is_policy, update_where,
}
use planipus.Sync.Effects.Steps.{is_projection}
use planipus.Sync.Reconcile.Projecting.{is_hold_code, is_destination_edit_hold}
use planipus.Sync.Verification.Decision.{
  notice_detail_for_desired_copy, edit_error_text, Verifier, VerificationTarget, CopyEdit,
  edit_kind, edit_operation, record_sync_notice,
}
use planipus.Sync.Verification.Guards.{is_row, find_current, recovery_copy}
use planipus.Sync.Verification.Repair.{audit, held_row, hold_from, hold_destination_edit}
use planipus.Sync.Verification.Evidence.{
  IsReady, find_current-IsReady, IsEvidence, recovery_copy-IsEvidence,
}
use planipus.Sync.Notices.Reads.{
  names_row, is_held_kind, Resolver, is_deleted, open_notice, live_policy, held_projection,
  waiting_operation,
}
use planipus.Sync.Notices.Resolve.{evidence, resolve_held, find_held, resolve_locked, resolve}
use planipus.Sync.Notices.Searches.{find-stronger, find-updated}
use planipus.Sync.Notices.Held.{
  hash_copy-platform, evidence-edit, evidence-checked, waiting_operation-ok, Owns, ready-Owns,
  respond-hold, held_row-kept, held_row-is_hold, held_row-is_row,
}

module _ (verifier : Verifier) (resolver : Resolver) (organization : String)
    (target : VerificationTarget) (edit : CopyEdit) (notice : NoticeKind) (code : EditErrorCode)
    (s : Store) where
  abbrev notice_id : String
  notice_id = verifier.new_notice_id target.projection_id

  -- The notice holds a copy whose row waits, with its evidence, for the operation that undoes the edit.
  pub record IsRecoverable (held : Store) : Type 0 where
    pub policy : Policy
    pub row : Projection
    pub found : find_held resolver organization notice_id held ≡ ok (policy, row)
    pub waits : waiting_operation policy row ≡ ok (edit_operation edit)
    pub checked : evidence resolver organization notice_id policy row (edit_operation edit) ≡ ok tt
    pub kept : (resolve resolver organization notice_id keep_and_detach held).1 ≡ ok tt
    pub effects : held.effects ≡ s.effects

  abbrev after : DesiredCopy → Store
  after desired = (hold_from verifier organization target edit notice code s (some desired)).0

  held_from :
      (held : Store)
      → hold_destination_edit verifier organization target edit notice code s ≡ ok (held, true)
      → (q : Projection) × (desired : DesiredCopy) × IsReady verifier organization target s q
        × IsEvidence verifier organization target q.desired_state desired
        × (after desired ≡ held)
  unfolding hold_destination_edit hold_from
  held_from held done = elim (Option-cases (find_current organization target s)) [
    | inl gone ↦ absurd (cc (ok_eq refl (rw (gone, hold_destination_edit) at done)))
    | inr (q, current) ↦
        let (copy, read, last) =
          bind-eq-ok (recovery_copy verifier target q.desired_state)
            (λ copy. ok (hold_from verifier organization target edit notice code s copy))
            (rw (current, hold_destination_edit) at done) in
        elim (Option-cases copy) [
          | inl lost ↦ absurd (cc (rw (lost, hold_from) at last))
          | inr (desired, kept) ↦
              let same : hold_from verifier organization target edit notice code s (some desired)
                  ≡ (held, true) =
                ok_eq refl (rw kept at last) in
              (
                q,
                desired,
                find_current-IsReady verifier organization target s q current,
                recovery_copy-IsEvidence verifier organization target q.desired_state desired
                    (read ∙ ap ok kept),
                ap (λ (x : Store × Bool). x.0) same,
              )
        ]
  ]

  abbrev row_of : Projection → Projection
  row_of q = held_row verifier organization target edit code q

  abbrev held_notice : DesiredCopy → SyncNotice
  held_notice desired = record {
    id = notice_id;
    organization_id = organization;
    policy_id = target.policy_id;
    projection_id = target.projection_id;
    kind = notice;
    status = NoticeStatus.unread;
    resolution = none;
    detail = notice_detail_for_desired_copy (edit_kind edit) desired;
  }

  after-tables :
      (desired : DesiredCopy)
      → ((after desired).notices ≡ held_notice desired ∷ s.notices)
        × ((after desired).policies ≡ s.policies)
        × ((after desired).projections
            ≡ update_where (is_projection target.projection_id) row_of s.projections)
        × ((after desired).effects ≡ s.effects)
  unfolding hold_from audit record_sync_notice
  after-tables desired = (refl, refl, refl, refl)

  after-notice :
      (desired : DesiredCopy)
      → is_held_kind notice ≡ true
      → open_notice organization notice_id (after desired) ≡ ok (held_notice desired)
  unfolding open_notice
  after-notice desired holds =
      rw
        (
          open_notice,
          (after-tables desired).0,
          (str_eq_iff organization organization).1 refl,
          (str_eq_iff notice_id notice_id).1 refl,
          holds,
        )
        refl

  after-policy :
      (desired : DesiredCopy) (p : Policy)
      → find (is_policy organization target.policy_id) s.policies ≡ some p
      → not (is_deleted p.status) ≡ true
      → live_policy organization (held_notice desired) (after desired) ≡ ok p
  unfolding live_policy
  after-policy desired p found undeleted =
      let same = (after-tables desired).1 in
      let still : find (λ p. is_policy organization target.policy_id p && not (is_deleted p.status))
            s.policies
          ≡ some p =
        find-stronger (is_policy organization target.policy_id) (λ p. not (is_deleted p.status))
          s.policies found undeleted in
      rw (live_policy, same, still) refl

  after-row :
      (desired : DesiredCopy) (q : Projection)
      → find (is_row organization target.projection_id) s.projections ≡ some q
      → q.id ≡ target.projection_id
      → is_destination_edit_hold (row_of q) ≡ true
      → held_projection organization (held_notice desired) (after desired) ≡ ok (row_of q)
  unfolding held_projection
  after-row desired q found id holds =
      let (_, _, same, _) = after-tables desired in
      let still : find (is_row organization target.projection_id)
            (update_where (is_projection target.projection_id) row_of s.projections)
          ≡ some (row_of q) =
        find-updated (is_row organization target.projection_id) (is_projection target.projection_id)
          row_of (held_row-is_row verifier organization target edit code target.projection_id)
          s.projections found ((str_eq_iff _ _).1 id) in
      rw (held_projection, same, still, holds) refl

  after-found :
      (desired : DesiredCopy) (q : Projection) (owns : Owns organization target s q)
      → find (is_row organization target.projection_id) s.projections ≡ some q
      → is_held_kind notice ≡ true
      → is_hold_code (some (codes (edit_error_text code))) ≡ true
      → find_held resolver organization notice_id (after desired) ≡ ok (owns.policy, row_of q)
  unfolding find_held
  after-found desired q owns row kind is_code =
      rw
        (
          find_held,
          after-notice desired kind,
          after-policy desired owns.policy owns.found owns.undeleted,
          after-row desired q row owns.row_id
              (held_row-is_hold verifier organization target edit code q owns.attached is_code),
        )
        refl

  resolve-kept :
      (held : Store) (p : Policy) (q : Projection)
      → find_held resolver organization notice_id held ≡ ok (p, q)
      → (resolve resolver organization notice_id keep_and_detach held).1 ≡ ok tt
  unfolding resolve resolve_locked resolve_held
  resolve-kept held p q found = rw (resolve, resolve_locked, found, resolve_held) refl

  after-IsRecoverable :
      (desired : DesiredCopy) (q : Projection)
      → Owns organization target s q
      → find (is_row organization target.projection_id) s.projections ≡ some q
      → IsEvidence verifier organization target q.desired_state desired
      → resolver.env.platform ≡ verifier.env.platform
      → is_held_kind notice ≡ true
      → is_hold_code (some (codes (edit_error_text code))) ≡ true
      → str_eq target.desired_hash "" ≡ false
      → IsRecoverable (after desired)
  after-IsRecoverable desired q owns row (stored, named, hashes) platform kind is_code filled =
      let found = after-found desired q owns row kind is_code in
      let (id, revision, generation, hash, state, operation) =
        held_row-kept verifier organization target edit code q in
      let names : names_row owns.policy (row_of q) desired ≡ true =
        rw (owns.policy_id, id ∙ owns.row_id, generation ∙ owns.generation) named in
      record {
        policy = owns.policy;
        row = row_of q;
        found = found;
        waits =
            waiting_operation-ok owns.policy (row_of q) (edit_operation edit)
              (revision ∙ owns.revision) operation;
        checked =
            evidence-edit resolver organization notice_id owns.policy (row_of q) edit
            ∙ evidence-checked resolver organization notice_id owns.policy (row_of q) desired
                target.desired_hash (state ∙ stored) (hash ∙ owns.desired_hash) filled names
                (hash_copy-platform resolver.env verifier.env desired platform ∙ hashes);
        kept = resolve-kept (after desired) owns.policy (row_of q) found;
        effects = (after-tables desired).3;
      }

  -- Where the response to an edit is to hold it, and the hold is written, the notice that it makes can be
  -- decided by anyone of the same platform: it finds the policy and the row, which waits for the
  -- operation that undoes the edit, with the evidence that a restore asks for, provided the hash that the
  -- target was read with is not empty; and keeping the copy succeeds. The hold itself sends nothing.
  pub hold_destination_edit-IsRecoverable :
      (held : Store)
      → resolver.env.platform ≡ verifier.env.platform
      → plan_destination_edit_response target.destination_edits (edit_kind edit) ≡ hold notice code
      → str_eq target.desired_hash "" ≡ false
      → hold_destination_edit verifier organization target edit notice code s ≡ ok (held, true)
      → IsRecoverable held
  unfolding plan_destination_edit_response
  hold_destination_edit-IsRecoverable held platform holds filled done =
      let (q, desired, ready, evidence, same) = held_from held done in
      let (kind, is_code) =
        respond-hold (mode_for target.destination_edits (edit_kind edit)) (edit_kind edit) notice
          code holds in
      let whole =
        after-IsRecoverable desired q (ready-Owns organization target s verifier q ready) ready.row
          evidence platform kind is_code filled in
      rw (sym same) whole
