-- ===== src/Sync/Verification/Counts.antt =====
-- server/src/sync/verification.ts: what a batch counts, and what it does at the provider.
use planipus.Common.{
  ℕ, ◌+◌, ◌≡◌, inl, inr, String, Option, Bool, true, false, List, [], ◌∷◌, length, max, min, find,
  str_eq, Result, ok, err, Bool-cases, Option-cases, Result-cases, arith,
}
use planipus.CalendarSync.DestinationEdits.{DestinationEditResponse, repair, hold}
use planipus.Sync.Store.{ProviderKind, Projection, Store}
use planipus.Sync.Provider.{
  EffectError, provider_error, unexpected, ProviderEventLookup, CalendarProvider, World,
}
use planipus.Sync.Verification.Decision.{
  Verifier, VerificationTarget, DestinationVerificationDecision, current, edited,
  ownership_mismatch, CopyEdit,
}
use planipus.Sync.Verification.Claim.{max_destination_verifications_per_job, claim_due, load_target}
use planipus.Sync.Verification.Batch.{
  Batch, count_repair, count_held, caught, counted, finish, respond_to_edit, act_on, act_on_lookup,
  look, resolve_and_look, verify_target, verify_one, verify_all, started, verify_batch,
}

-- What the provider promises of `P`: no read breaks it.
pub record KeepsOnReads {R : Type 0} (provider : CalendarProvider R) (P : R → Type 0) : Type 0 where
  pub token :
      (organization connection : String) (r : R)
      → P r
      → P (provider.access_token organization connection r).0
  pub event :
      (kind : ProviderKind) (token calendar event : String) (r : R)
      → P r
      → P (provider.get_event kind token calendar event r).0

abbrev total : {R : Type 0} → Batch R → ℕ
total b = b.current + b.repairs_scheduled + b.held + b.deferred

module _ (verifier : Verifier) {R : Type 0} (provider : CalendarProvider R) (organization : String)
    (P : R → Type 0) (reads : KeepsOnReads provider P) where
  -- One more projection is counted, and the provider's state has `P`.
  abbrev Counted : Batch R → Batch R → Type 0
  Counted b c = (total c ≡ total b + 1) × P c.world.remote

  caught-Counted :
      (target : VerificationTarget) (error : EffectError) (b : Batch R)
      → P b.world.remote
      → Counted b (caught verifier provider organization target error b)
  unfolding caught
  caught-Counted target (provider_error e) b h = elim (Bool-cases (str_eq e.code "provider_auth")) [
    | inl hit ↦ rw hit (omega arith, h)
    | inr miss ↦ rw miss (omega arith, h)
  ]
  caught-Counted target (unexpected t) b h = (omega arith, h)

  finish_repair-Counted :
      (target : VerificationTarget) (out : Result EffectError (Store × Bool)) (b : Batch R)
      → P b.world.remote
      → Counted b (finish verifier provider organization target count_repair out b)
  unfolding finish
  finish_repair-Counted target (ok (s, true)) b h = (omega arith, h)
  finish_repair-Counted target (ok (s, false)) b h = (omega arith, h)
  finish_repair-Counted target (err error) b h = caught-Counted target error b h

  finish_held-Counted :
      (target : VerificationTarget) (out : Result EffectError (Store × Bool)) (b : Batch R)
      → P b.world.remote
      → Counted b (finish verifier provider organization target count_held out b)
  unfolding finish
  finish_held-Counted target (ok (s, true)) b h = (omega arith, h)
  finish_held-Counted target (ok (s, false)) b h = (omega arith, h)
  finish_held-Counted target (err error) b h = caught-Counted target error b h

  counted_held-Counted :
      (out : Store × Bool) (b : Batch R)
      → P b.world.remote
      → Counted b (counted verifier provider organization count_held out b)
  counted_held-Counted (s, true) b h = (omega arith, h)
  counted_held-Counted (s, false) b h = (omega arith, h)

  respond_to_edit-Counted :
      (target : VerificationTarget) (edit : CopyEdit) (response : DestinationEditResponse)
      (b : Batch R)
      → P b.world.remote
      → Counted b (respond_to_edit verifier provider organization target edit response b)
  unfolding respond_to_edit
  respond_to_edit-Counted target edit (hold notice code) b h = finish_held-Counted target _ b h
  respond_to_edit-Counted target edit (repair notice code) b h = finish_repair-Counted target _ b h

  act_on-Counted :
      (target : VerificationTarget) (decision : DestinationVerificationDecision) (b : Batch R)
      → P b.world.remote
      → Counted b (act_on verifier provider organization target decision b)
  unfolding act_on
  act_on-Counted target (current revision) b h = (omega arith, h)
  act_on-Counted target (ownership_mismatch revision) b h = counted_held-Counted _ b h
  act_on-Counted target (edited edit) b h = respond_to_edit-Counted target edit _ b h

  act_on_lookup-Counted :
      (target : VerificationTarget) (seen : Result EffectError (Option ProviderEventLookup))
      (b : Batch R)
      → P b.world.remote
      → Counted b (act_on_lookup verifier provider organization target seen b)
  unfolding act_on_lookup
  act_on_lookup-Counted target (err error) b h = caught-Counted target error b h
  act_on_lookup-Counted target (ok observed) b h = act_on-Counted target _ b h

  look-Counted :
      (target : VerificationTarget) (token : Result EffectError String) (b : Batch R)
      → P b.world.remote
      → Counted b (look verifier provider organization target token b)
  unfolding look
  look-Counted target (err error) b h = caught-Counted target error b h
  look-Counted target (ok token) b h =
      let (after, observed) =
        provider.get_event target.provider token target.calendar_remote_id
          target.destination_event_id b.world.remote in
      act_on_lookup-Counted target observed _ (
        reads.event target.provider token target.calendar_remote_id target.destination_event_id
          b.world.remote h)

  resolved-Counted :
      (target : VerificationTarget) (token : Result EffectError String) (b : Batch R)
      → P b.world.remote
      → Counted b (resolve_and_look verifier provider organization target token b)
  unfolding resolve_and_look
  resolved-Counted target token b h = elim (Result-cases (provider.resolve target.provider)) [
    | inl (u, e) ↦ rw (e, resolve_and_look) (look-Counted target token b h)
    | inr (error, e) ↦ rw (e, resolve_and_look) (caught-Counted target error b h)
  ]

  verify_target-Counted :
      (target : VerificationTarget) (b : Batch R)
      → P b.world.remote
      → Counted b (verify_target verifier provider organization target b)
  unfolding verify_target
  verify_target-Counted target b h =
      elim (Option-cases (find (λ entry. str_eq entry.0 target.connection_id) b.token_cache)) [
        | inl e ↦
            rw (e, verify_target)
              (resolved-Counted target _ _
                (reads.token organization target.connection_id b.world.remote h))
        | inr (entry, e) ↦ rw (e, verify_target) (resolved-Counted target entry.1 b h)
      ]

  verify_one-Counted :
      (id : String) (b : Batch R)
      → P b.world.remote
      → Counted b (verify_one verifier provider organization id b)
  unfolding verify_one
  verify_one-Counted id b h =
      elim (Option-cases (load_target verifier organization id b.world.store)) [
        | inl e ↦ rw (e, verify_one) (omega arith, h)
        | inr (target, e) ↦ rw (e, verify_one) (verify_target-Counted target b h)
      ]

  pub verify_all-Counted :
      (ids : List String) (b : Batch R)
      → P b.world.remote
      → (total (verify_all verifier provider organization ids b) ≡ total b + length ids)
        × P (verify_all verifier provider organization ids b).world.remote
  unfolding verify_all
  verify_all-Counted [] b h = (omega arith, h)
  verify_all-Counted (id ∷ ids) b h =
      let (one, kept) = verify_one-Counted id b h in
      let (rest, last) = verify_all-Counted ids _ kept in (omega (arith, one, rest), last)

-- A batch counts each row that it claims once: as current, repaired, held or deferred. It only reads at
-- the provider: what no read breaks there still holds after it.
pub verify_batch-counts :
    (verifier : Verifier) {R : Type 0} (provider : CalendarProvider R) (organization : String)
    (P : R → Type 0) (locked : Projection → Bool) (limit : ℕ) (w : World R)
    → KeepsOnReads provider P
    → P w.remote
    → ((verify_batch verifier provider organization locked limit w).1.claimed
        ≡ (verify_batch verifier provider organization locked limit w).1.current
          + (verify_batch verifier provider organization locked limit w).1.repairs_scheduled
          + (verify_batch verifier provider organization locked limit w).1.held
          + (verify_batch verifier provider organization locked limit w).1.deferred)
      × P (verify_batch verifier provider organization locked limit w).0.remote
unfolding verify_batch
verify_batch-counts verifier provider organization P locked limit w reads h =
    let (ids, s) =
      claim_due organization verifier.env.now locked
        (max 1 (min limit max_destination_verifications_per_job)) w.store in
    let (count, kept) =
      verify_all-Counted verifier provider organization P reads ids
        (started verifier provider organization (record w { store = s })) h in
    (omega (arith, count), kept)
