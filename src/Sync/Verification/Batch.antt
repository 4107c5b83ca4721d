-- ===== src/Sync/Verification/Batch.antt =====
-- server/src/sync/verification.ts: `verifyBatch`.
use planipus.Common.{
  ℕ, ◌+◌, min, max, String, Option, none, some, Bool, true, false, List, [], ◌∷◌, length, str_eq,
  if◌then◌else◌, find, Result, ok, err,
}
use planipus.CalendarSync.Json.{codes}
use planipus.CalendarSync.DestinationEdits.{
  DestinationEditResponse, repair, hold, plan_destination_edit_response,
}
use planipus.Sync.Store.{ConnectionStatus, Projection, Store, update_where}
use planipus.Sync.Provider.{
  ProviderError, EffectError, provider_error, unexpected, ProviderEventLookup, CalendarProvider,
  World,
}
use planipus.Sync.Effects.Attempt.{is_connection}
use planipus.Sync.Verification.Decision.{
  Verifier, VerificationTarget, DestinationVerificationDecision, current, edited,
  ownership_mismatch, CopyEdit, edit_kind, classify_destination_verification,
}
use planipus.Sync.Verification.Repair.{
  schedule_repair, hold_destination_edit, hold_ownership_mismatch,
}
use planipus.Sync.Verification.Claim.{max_destination_verifications_per_job, claim_due, load_target}

pub record DestinationVerificationSummary : Type 0 where
  pub claimed : ℕ
  pub current : ℕ
  pub repairs_scheduled : ℕ
  pub held : ℕ
  pub deferred : ℕ

-- `tokenCache`: what the call for a connection's token gave, an error too.
abbrev pub TokenCache : Type 0
TokenCache = List (String × Result EffectError String)

-- What the loop over projections carries.
pub record Batch (R : Type 0) : Type 0 where
  pub world : World R
  pub token_cache : TokenCache
  pub current : ℕ
  pub repairs_scheduled : ℕ
  pub held : ℕ
  pub deferred : ℕ

module _ {R : Type 0} where
  abbrev pub count_current : Batch R → Batch R
  count_current b = record b { current = b.current + 1 }

  abbrev pub count_repair : Batch R → Batch R
  count_repair b = record b { repairs_scheduled = b.repairs_scheduled + 1 }

  abbrev pub count_held : Batch R → Batch R
  count_held b = record b { held = b.held + 1 }

  abbrev pub count_deferred : Batch R → Batch R
  count_deferred b = record b { deferred = b.deferred + 1 }

  abbrev pub with_store : Store → Batch R → Batch R
  with_store s b = record b { world = record (b.world) { store = s } }

  abbrev pub with_remote : R → Batch R → Batch R
  with_remote r b = record b { world = record (b.world) { remote = r } }

module _ (verifier : Verifier) {R : Type 0} (provider : CalendarProvider R)
    (organization : String) where
  -- The statement of the `catch`.
  abbrev pub mark_connection : VerificationTarget → ProviderError → Store → Store
  mark_connection target error s = record s {
    connections =
        update_where (is_connection organization target.connection_id)
          (λ c. record c {
            status = ConnectionStatus.action_required;
            safe_error_code = some (codes error.code);
            updated_at = verifier.env.now;
          })
          s.connections;
  }

  unfoldable pub caught : VerificationTarget → EffectError → Batch R → Batch R
  caught target (provider_error error) b = count_deferred (
      if str_eq error.code "provider_auth"
      then with_store (mark_connection target error b.world.store) b
      else b)
  caught target (unexpected thrown) b = count_deferred b

  -- What follows a transaction that may have changed nothing.
  abbrev pub counted : (Batch R → Batch R) → Store × Bool → Batch R → Batch R
  counted count (s, true) b = count (with_store s b)
  counted count (s, false) b = count_deferred (with_store s b)

  unfoldable pub finish :
      VerificationTarget
      → (Batch R → Batch R)
      → Result EffectError (Store × Bool)
      → Batch R
      → Batch R
  finish target count (ok out) b = counted count out b
  finish target count (err error) b = caught target error b

  unfoldable pub respond_to_edit :
      VerificationTarget → CopyEdit → DestinationEditResponse → Batch R → Batch R
  respond_to_edit target edit (hold notice code) b =
      finish target count_held
        (hold_destination_edit verifier organization target edit notice code b.world.store) b
  respond_to_edit target edit (repair notice code) b =
      finish target count_repair
        (schedule_repair verifier organization target edit notice code b.world.store) b

  unfoldable pub act_on : VerificationTarget → DestinationVerificationDecision → Batch R → Batch R
  act_on target (current revision) b = count_current b
  act_on target (ownership_mismatch revision) b =
      counted count_held
        (hold_ownership_mismatch verifier organization target revision b.world.store) b
  act_on target (edited edit) b =
      respond_to_edit target edit
        (plan_destination_edit_response target.destination_edits (edit_kind edit)) b

  -- What the look at the event gave.
  unfoldable pub act_on_lookup :
      VerificationTarget → Result EffectError (Option ProviderEventLookup) → Batch R → Batch R
  act_on_lookup target (err error) b = caught target error b
  act_on_lookup target (ok observed) b =
      act_on target (classify_destination_verification target observed) b

  unfoldable pub look : VerificationTarget → Result EffectError String → Batch R → Batch R
  look target (err error) b = caught target error b
  look target (ok token) b =
      let (after, observed) =
        provider.get_event target.provider token target.calendar_remote_id
          target.destination_event_id b.world.remote in
      act_on_lookup target observed (with_remote after b)

  unfoldable pub resolve_and_look :
      VerificationTarget → Result EffectError String → Batch R → Batch R
  resolve_and_look target token b = elim (provider.resolve target.provider) [
    | err error ↦ caught target error b
    | ok u ↦ look target token b
  ]

  unfoldable pub verify_target : VerificationTarget → Batch R → Batch R
  verify_target target b =
      elim (find (λ entry. str_eq entry.0 target.connection_id) b.token_cache) [
        | some entry ↦ resolve_and_look target entry.1 b
        | none ↦
            let (after, token) =
              provider.access_token organization target.connection_id b.world.remote in
            resolve_and_look target token (record (with_remote after b) {
              token_cache = (target.connection_id, token) ∷ b.token_cache;
            })
      ]

  unfoldable pub verify_one : String → Batch R → Batch R
  verify_one id b = elim (load_target verifier organization id b.world.store) [
    | none ↦ count_deferred b
    | some target ↦ verify_target target b
  ]

  unfoldable pub verify_all : List String → Batch R → Batch R
  verify_all [] b = b
  verify_all (id ∷ ids) b = verify_all ids (verify_one id b)

  abbrev pub started : World R → Batch R
  started w = record {
    world = w;
    token_cache = [];
    current = 0;
    repairs_scheduled = 0;
    held = 0;
    deferred = 0;
  }

  abbrev pub summary : ℕ → Batch R → DestinationVerificationSummary
  summary claimed b = record {
    claimed = claimed;
    current = b.current;
    repairs_scheduled = b.repairs_scheduled;
    held = b.held;
    deferred = b.deferred;
  }

  unfoldable pub verify_batch :
      (Projection → Bool) → ℕ → World R → World R × DestinationVerificationSummary
  verify_batch locked limit w =
      let (ids, s) =
        claim_due organization verifier.env.now locked
          (max 1 (min limit max_destination_verifications_per_job)) w.store in
      let b = verify_all ids (started (record w { store = s })) in (b.world, summary (length ids) b)
