-- ===== src/Sync/CopyExamples.antt =====
-- Theorems on the verification of copies and on notices at concrete stores: one copy that stands at its
-- destination, and the hold of an edit of it.
use mathlib.Core.List.{Memᴰ}
use planipus.Common.{
  ℕ, ◌+◌, ◌≤◌, ◌≡◌, refl, none, some, Bool, true, false, [], ◌∷◌, length, any, Result, ok, err,
  arith,
}
use planipus.Common.Sorting.{sort}
use planipus.CalendarSync.Json.{null}
use planipus.CalendarSync.DestinationEdits.{
  hold, drifted, hold_for_review, plan_destination_edit_response, default_destination_edit_policy,
  copy_delete_restored, copy_edit_held, destination_missing, destination_edit_held,
}
use planipus.CalendarSync.Samples.{evaluation, busy_copy}
use planipus.Sync.Store.{
  google, document, restore, keep_and_detach, EffectOperation, PolicyStatus, ProjectionStatus,
  Policy, Projection, Store,
}
use planipus.Jobs.Queue.{conflicts}
use planipus.Sync.Provider.{World, EffectError}
use planipus.Sync.Effects.Missing.{hash_copy}
use planipus.Sync.Effects.Rows.{source_observation_basis_hash}
use planipus.Sync.Reconcile.Projecting.{projection_persistence_for_result, is_destination_edit_hold}
use planipus.Sync.Verification.Decision.{
  Verifier, VerificationTarget, missing_copy, drifted_copy, destination_repair_generation,
  record_sync_notice,
}
use planipus.Sync.Verification.Guards.{
  is_authorized, is_unchanged, has_unfinished, find_current, recovery_copy,
}
use planipus.Sync.Verification.Repair.{
  repair_key_document, audit, write_repair, repair_from, schedule_repair, held_row, hold_from,
  hold_destination_edit,
}
use planipus.Sync.Verification.Claim.{is_claimable, due_rows, claim_due}
use planipus.Sync.Verification.Batch.{Batch, started, act_on_lookup, verify_batch}
use planipus.Sync.Verification.Claiming.{claim_due-IsFresh}
use planipus.Sync.Verification.Coherence.{IsOutcome, schedule_repair-IsOutcome}
use planipus.Sync.Verification.Counts.{verify_batch-counts}
use planipus.Sync.Verification.Owned.{Sends, act_on_lookup-Sends}
use planipus.Sync.Notices.Reads.{
  hold_stale, notice_not_resolvable, Resolver, open_notice, live_policy, held_projection,
  restore_key_document,
}
use planipus.Sync.Notices.Resolve.{
  find_held, evidence, write_restore, restore_current, restore_based, restore_waiting, resolve_held,
  resolve_locked, resolve,
}
use planipus.Sync.Notices.Decided.{basis_job, resolve-once, resolve-changed_source}
use planipus.Sync.Notices.Recoverable.{IsRecoverable, hold_destination_edit-IsRecoverable}
use planipus.Sync.Samples.{present, env, empty_store, first_row, stranger, calendar}

abbrev unlocked : Projection → Bool
unlocked q = false

abbrev copy_row : Projection
copy_row = record first_row {
  status = ProjectionStatus.converged;
  destination_event_id = some "pc11";
  destination_etag = some "r1";
}

abbrev copies : Store
copies = record empty_store { projections = copy_row ∷ [] }

abbrev verifier : Verifier
verifier = record {
  env = env;
  new_effect_id = λ id. "f9";
  new_notice_id = λ id. "n1";
  destination_edits = λ p. null;
}

abbrev target : VerificationTarget
target = record {
  projection_id = "c1";
  policy_id = "p1";
  policy_revision = 1;
  source_basis_hash = some "sha256:short";
  generation = 1;
  intent_sequence = 1;
  destination_event_id = "pc11";
  destination_revision = some "r1";
  desired_hash = "sha256:long";
  desired_state = document busy_copy;
  calendar_remote_id = "office@x";
  connection_id = "k1";
  provider = google;
  destination_edits = default_destination_edit_policy;
}

copies_claimed : (claim_due "org" present unlocked 100 copies).0 ≡ "c1" ∷ []
unfolding claim_due due_rows is_claimable sort projection_persistence_for_result
copies_claimed = refl

claimed_once : Memᴰ "c1" (claim_due "org" present unlocked 100 copies).0
claimed_once = rw copies_claimed (Memᴰ.head refl)

claim_due-IsFresh_example :
    (length (claim_due "org" present unlocked 100 copies).0 ≤ 100)
    × ((q : Projection) × Memᴰ q copies.projections
        × (q.id ≡ "c1")
        × (is_claimable "org" present copies q ≡ true))
    × ¬ Memᴰ "c1"
        (claim_due "org"
          (present + 10)
          unlocked
          100
          (claim_due "org" present unlocked 100 copies).1).0
claim_due-IsFresh_example =
    claim_due-IsFresh "org" present (present + 10) unlocked unlocked 100 100 copies "c1"
      (omega arith) claimed_once

abbrev out_of : Result EffectError (Store × Bool) → Store × Bool
out_of (ok out) = out
out_of (err e) = (copies, false)

abbrev repaired : Store × Bool
repaired = out_of (
    schedule_repair verifier "org" target missing_copy (some copy_delete_restored)
      destination_missing copies)

is_repaired :
    schedule_repair verifier "org" target missing_copy
      (some copy_delete_restored)
      destination_missing
      copies
    ≡ ok repaired
unfolding evaluation schedule_repair find_current is_authorized is_unchanged has_unfinished
    recovery_copy hash_copy projection_persistence_for_result repair_from
    destination_repair_generation repair_key_document write_repair
is_repaired = refl

repair_is_sent : repaired.1 ≡ true
unfolding evaluation schedule_repair find_current is_authorized is_unchanged has_unfinished
    recovery_copy hash_copy projection_persistence_for_result repair_from
    destination_repair_generation repair_key_document write_repair
repair_is_sent = refl

schedule_repair-IsOutcome_example : IsOutcome verifier "org" target missing_copy copies repaired
schedule_repair-IsOutcome_example =
    schedule_repair-IsOutcome verifier "org" target missing_copy (some copy_delete_restored)
      destination_missing copies repaired is_repaired

abbrev world : World ℕ
world = record { store = copies; remote = 0 }

verify_batch-counts_example :
    ((verify_batch verifier calendar "org" unlocked 100 world).1.claimed
      ≡ (verify_batch verifier calendar "org" unlocked 100 world).1.current
        + (verify_batch verifier calendar "org" unlocked 100 world).1.repairs_scheduled
        + (verify_batch verifier calendar "org" unlocked 100 world).1.held
        + (verify_batch verifier calendar "org" unlocked 100 world).1.deferred)
    × ((verify_batch verifier calendar "org" unlocked 100 world).0.remote ≡ 0)
verify_batch-counts_example =
    verify_batch-counts verifier calendar "org" (λ n. n ≡ 0) unlocked 100 world
      (record { token = λ o c r h. h; event = λ k t c e r h. h }) refl

abbrev batch : Batch ℕ
batch = started verifier calendar "org" world

act_on_lookup-Sends_example :
    Sends verifier calendar "org" target
      (ok (some stranger))
      batch
      (act_on_lookup verifier calendar "org" target (ok (some stranger)) batch)
act_on_lookup-Sends_example =
    act_on_lookup-Sends verifier calendar "org" target (ok (some stranger)) batch

-- The event was edited, and the policy holds such an edit.
abbrev held : Store × Bool
held = out_of (
    hold_destination_edit verifier "org" target (drifted_copy "r2") copy_edit_held
      destination_edit_held copies)

abbrev resolver : Resolver
resolver = record { env = env; principal_id = "me"; policy_hash = λ p. "sha256:short" }

abbrev reviewed : VerificationTarget
reviewed = record target {
  destination_edits = record { on_edit = hold_for_review; on_delete = hold_for_review };
}

abbrev reviewed_hold : Store
reviewed_hold =
    (out_of (
      hold_destination_edit verifier "org" reviewed (drifted_copy "r2") copy_edit_held
        destination_edit_held copies)).0

is_reviewed :
    hold_destination_edit verifier "org" reviewed
      (drifted_copy "r2")
      copy_edit_held
      destination_edit_held
      copies
    ≡ ok (reviewed_hold, true)
unfolding evaluation hold_destination_edit hold_from audit record_sync_notice find_current
    is_authorized is_unchanged has_unfinished recovery_copy hash_copy
    projection_persistence_for_result
is_reviewed = refl

is_to_be_held :
    plan_destination_edit_response reviewed.destination_edits drifted
    ≡ hold copy_edit_held destination_edit_held
unfolding plan_destination_edit_response
is_to_be_held = refl

hold_destination_edit-IsRecoverable_example :
    IsRecoverable verifier resolver "org" reviewed
      (drifted_copy "r2")
      copy_edit_held
      destination_edit_held
      copies
      reviewed_hold
hold_destination_edit-IsRecoverable_example =
    hold_destination_edit-IsRecoverable verifier resolver "org" reviewed (drifted_copy "r2")
      copy_edit_held destination_edit_held copies reviewed_hold refl is_to_be_held refl is_reviewed

abbrev restored : Store
restored = (resolve resolver "org" "n1" restore held.0).0

is_restored : resolve resolver "org" "n1" restore held.0 ≡ (restored, ok tt)
unfolding evaluation hold_destination_edit hold_from audit record_sync_notice find_current
    is_authorized is_unchanged has_unfinished recovery_copy hash_copy
    projection_persistence_for_result resolve resolve_locked find_held open_notice live_policy
    held_projection is_destination_edit_hold resolve_held restore_waiting restore_based
    source_observation_basis_hash restore_current evidence restore_key_document write_restore
is_restored = refl

resolve-once_example :
    resolve resolver "org" "n1" keep_and_detach restored ≡ (restored, err notice_not_resolvable)
resolve-once_example =
    resolve-once resolver resolver "org" "n1" restore keep_and_detach held.0 restored is_restored

abbrev policy : Policy
policy = record {
  id = "p1";
  organization_id = "org";
  source_calendar_id = "home";
  destination_calendar_id = "office";
  status = PolicyStatus.active;
  revision = 1;
  last_success_at = none;
  safe_error_code = none;
  updated_at = 0;
}

abbrev held_copy : Projection
held_copy = held_row verifier "org" target (drifted_copy "r2") destination_edit_held copy_row

-- The source is gone.
abbrev moved : Store
moved = record (held.0) { observations = [] }

is_found : find_held resolver "org" "n1" moved ≡ ok (policy, held_copy)
unfolding evaluation hold_destination_edit hold_from audit record_sync_notice find_current
    is_authorized is_unchanged has_unfinished recovery_copy hash_copy
    projection_persistence_for_result find_held open_notice live_policy held_projection
    is_destination_edit_hold
is_found = refl

no_jobs : any (conflicts (basis_job resolver "org" "n1" policy moved)) moved.jobs ≡ false
unfolding hold_destination_edit hold_from audit record_sync_notice find_current is_authorized
    is_unchanged has_unfinished recovery_copy hash_copy evaluation projection_persistence_for_result
no_jobs = refl

resolve-changed_source_example :
    ((resolve_locked resolver "org" "n1" restore moved).0.jobs
      ≡ basis_job resolver "org" "n1" policy moved ∷ moved.jobs)
    × (resolve resolver "org" "n1" restore moved ≡ (moved, err hold_stale))
resolve-changed_source_example =
    resolve-changed_source resolver "org" "n1" moved policy held_copy EffectOperation.update none
      is_found refl refl refl no_jobs
