-- ===== src/Sync/Notices/Decided.antt =====
-- server/src/sync/notices.ts: a notice is decided once, and an error undoes a transaction.
use planipus.Common.{
  ◌≡◌, refl, sym, ap, ◌∙◌, ◌⊎◌, inl, inr, String, Option, some, Bool, true, false, not, ◌||◌, List,
  ◌∷◌, find, str_eq, any, Result, ok, err, Bool-cases, Option-cases, Result-cases,
}
use planipus.CalendarSync.Json.{obj, member, str, no_members}
use planipus.Jobs.Queue.{Job, new_job, conflicts, insert_job, enqueue}
use planipus.Sync.Store.{
  NoticeStatus, NoticeResolution, restore, keep_and_detach, SyncNotice, Policy, Projection,
  EffectOperation, Store, update_where,
}
use planipus.Sync.Provider.{EffectError, unexpected}
use planipus.Sync.Notices.Reads.{
  NoticeError, hold_stale, notice_not_resolvable, thrown, Resolver, is_held_kind, is_resolved,
  is_notice, open_notice, waiting_operation, is_same_basis,
}
use planipus.Sync.Notices.Resolve.{
  Step, current_basis, written, write_restore, keep_and_detach_copy, notice_job_key, requeued,
  stale_basis, restore_current, restore_based, restore_waiting, resolve_held, find_held,
  resolve_locked, resolve,
}
use planipus.Sync.Notices.Searches.{find-hit, find-updated}

-- The row that a search finds is still found where an update keeps what is searched for.
find-update_where {ℓ} :
    {A : Type ℓ} (test : A → Bool) (set : A → A)
    → ((a : A) → test (set a) ≡ test a)
    → (rows : List A) {a : A} → find test rows ≡ some a
    → find test (update_where test set rows) ≡ some (set a)
find-update_where test set same rows e =
    find-updated test test set same rows e (find-hit test rows e)

module _ (resolver : Resolver) (organization : String) (notice_id : String) where
  abbrev mark : NoticeResolution → SyncNotice → SyncNotice
  mark resolution n = record n { status = NoticeStatus.resolved; resolution = some resolution }

  -- The notices after a decision.
  abbrev Decided : Store → Step → Type 0
  Decided s out =
      ((e : NoticeError) × (out.1 ≡ err e))
      ⊎ ((resolution : NoticeResolution) × (out.0.notices
            ≡ update_where (is_notice organization notice_id) (mark resolution) s.notices))

  written-Decided :
      (p : Policy) (q : Projection) (operation : EffectOperation) (s : Store)
      (key : Result NoticeError String)
      → Decided s (written resolver organization notice_id p q operation s key)
  unfolding write_restore
  written-Decided p q operation s (err e) = inl (e, refl)
  written-Decided p q operation s (ok key) =
      elim (Bool-cases (any (λ old. str_eq old.idempotency_key key) s.effects)) [
        | inl taken ↦
            rw (taken, write_restore)
              (inl (thrown (unexpected resolver.env.unique_violation), refl))
        | inr free ↦ rw (free, write_restore) (inr (restore, refl))
      ]

  based-Decided :
      (p : Policy) (q : Projection) (operation : EffectOperation) (s : Store)
      (basis : Result EffectError (Option String))
      → Decided s (restore_based resolver organization notice_id p q operation s basis)
  unfolding restore_based restore_current
  based-Decided p q operation s (err e) = inl (thrown e, refl)
  based-Decided p q operation s (ok current) =
      elim (Bool-cases (is_same_basis current q.source_basis_hash)) [
        | inl same ↦ rw (same, restore_based) (written-Decided p q operation s _)
        | inr other ↦ rw (other, restore_based) (inl (hold_stale, refl))
      ]

  waiting-Decided :
      (p : Policy) (q : Projection) (s : Store) (operation : Result NoticeError EffectOperation)
      → Decided s (restore_waiting resolver organization notice_id p q s operation)
  unfolding restore_waiting
  waiting-Decided p q s (err e) = inl (e, refl)
  waiting-Decided p q s (ok operation) = based-Decided p q operation s _

  held-Decided :
      (action : NoticeResolution) (p : Policy) (q : Projection) (s : Store)
      → Decided s (resolve_held resolver organization notice_id action p q s)
  unfolding resolve_held keep_and_detach_copy
  held-Decided restore p q s = waiting-Decided p q s _
  held-Decided keep_and_detach p q s = inr (keep_and_detach, refl)

  locked-Decided :
      (action : NoticeResolution) (s : Store)
      → Decided s (resolve_locked resolver organization notice_id action s)
  unfolding resolve_locked
  locked-Decided action s = elim (Result-cases (find_held resolver organization notice_id s)) [
    | inl (held, e) ↦ rw (e, resolve_locked) (held-Decided action held.0 held.1 s)
    | inr (error, e) ↦ rw (e, resolve_locked) (inl (error, refl))
  ]

  -- `resolve` gives what its transaction gives, or an error and the store as it was.
  pub resolve-cases :
      (action : NoticeResolution) (s : Store)
      → ((resolve resolver organization notice_id action s
            ≡ resolve_locked resolver organization notice_id action s)
          × ((resolve_locked resolver organization notice_id action s).1 ≡ ok tt))
        ⊎ ((e : NoticeError) × (resolve resolver organization notice_id action s ≡ (s, err e))
            × ((resolve_locked resolver organization notice_id action s).1 ≡ err e))
  unfolding resolve
  resolve-cases action s =
      elim (Result-cases (resolve_locked resolver organization notice_id action s).1) [
        | inl (u, e) ↦ inl (rw (e, resolve) refl, e)
        | inr (error, e) ↦ inr (error, rw (e, resolve) refl, e)
      ]

  open_notice-found :
      (s : Store) (n : SyncNotice)
      → open_notice organization notice_id s ≡ ok n
      → (m : SyncNotice) × (find (is_notice organization notice_id) s.notices ≡ some m)
  unfolding open_notice
  open_notice-found s n e =
      elim (Option-cases (find (is_notice organization notice_id) s.notices)) [
        | inl gone ↦ absurd (cc (rw (gone, open_notice) at e))
        | inr (m, found) ↦ (m, found)
      ]

  locked-found :
      (action : NoticeResolution) (s : Store)
      → (resolve_locked resolver organization notice_id action s).1 ≡ ok tt
      → (m : SyncNotice) × (find (is_notice organization notice_id) s.notices ≡ some m)
  unfolding resolve_locked find_held
  locked-found action s done = elim (Result-cases (open_notice organization notice_id s)) [
    | inl (n, e) ↦ open_notice-found s n e
    | inr (error, e) ↦ absurd (cc (rw (e, find_held, resolve_locked) at done))
  ]

  or_true : (a : Bool) → (a || true) ≡ true
  or_true true = refl
  or_true false = refl

  open_notice-closed :
      (after : Store) (n : SyncNotice)
      → find (is_notice organization notice_id) after.notices ≡ some n
      → is_resolved n.status ≡ true
      → open_notice organization notice_id after ≡ err notice_not_resolvable
  unfolding open_notice
  open_notice-closed after n found closed =
      rw (found, open_notice, closed, or_true (not (is_held_kind n.kind))) refl

  resolve-closed :
      (action : NoticeResolution) (after : Store)
      → open_notice organization notice_id after ≡ err notice_not_resolvable
      → resolve resolver organization notice_id action after ≡ (after, err notice_not_resolvable)
  unfolding resolve resolve_locked find_held
  resolve-closed action after e = rw (e, find_held, resolve_locked, resolve) refl

-- A notice is decided once: after a decision that was taken, every further one is refused, whoever takes
-- it, and changes nothing.
pub resolve-once :
    (resolver other : Resolver) (organization notice_id : String) (action again : NoticeResolution)
    (s after : Store)
    → resolve resolver organization notice_id action s ≡ (after, ok tt)
    → resolve other organization notice_id again after ≡ (after, err notice_not_resolvable)
resolve-once resolver other organization notice_id action again s after done =
    elim (resolve-cases resolver organization notice_id action s) [
      | inr (e, refused, _) ↦ absurd (cc (ap (λ (x : Step). x.1) (sym refused ∙ done)))
      | inl (same, taken) ↦
          let (n, found) = locked-found resolver organization notice_id action s taken in
          elim (locked-Decided resolver organization notice_id action s) [
            | inl (e, failed) ↦ absurd (cc (sym failed ∙ taken))
            | inr (resolution, notices) ↦
                let store : (resolve_locked resolver organization notice_id action s).0 ≡ after =
                  ap (λ (x : Step). x.0) (sym same ∙ done) in
                let marked : find (is_notice organization notice_id) after.notices
                    ≡ some (mark resolver organization notice_id resolution n) =
                  rw (sym store, notices)
                    (find-update_where (is_notice organization notice_id)
                      (mark resolver organization notice_id resolution) (λ m. refl) s.notices
                      found) in
                resolve-closed other organization notice_id again after
                  (open_notice-closed other organization notice_id after _ marked refl)
          ]
    ]

insert_job-free :
    (new : Job) (jobs : List Job)
    → any (conflicts new) jobs ≡ false
    → (insert_job new jobs).0 ≡ new ∷ jobs
unfolding insert_job
insert_job-free new jobs free = rw free refl

module _ (resolver : Resolver) (organization : String) (notice_id : String) (p : Policy)
    (s : Store) where
  abbrev pub basis_job : Job
  basis_job =
      new_job resolver.env.new_job_id organization "reconcile_policy"
        (notice_job_key resolver organization notice_id p)
        (obj (member "policy_id" (str p.id) no_members)) resolver.env.now resolver.env.now

  stale_basis-jobs :
      any (conflicts basis_job) s.jobs ≡ false
      → (stale_basis resolver organization notice_id p s).0.jobs ≡ basis_job ∷ s.jobs
  unfolding requeued enqueue
  stale_basis-jobs free = insert_job-free basis_job s.jobs free

locked-stale :
    (resolver : Resolver) (organization notice_id : String) (s : Store) (p : Policy)
    (q : Projection) (operation : EffectOperation) (current : Option String)
    → find_held resolver organization notice_id s ≡ ok (p, q)
    → waiting_operation p q ≡ ok operation
    → current_basis resolver organization notice_id q s ≡ ok current
    → is_same_basis current q.source_basis_hash ≡ false
    → resolve_locked resolver organization notice_id restore s
      ≡ stale_basis resolver organization notice_id p s
unfolding resolve_locked resolve_held restore_waiting restore_based
locked-stale resolver organization notice_id s p q operation current held waits basis changed =
    rw (held, resolve_locked, waits, restore_waiting, basis, restore_based, changed) refl

-- Where the source of a held copy changed, or is gone, `restore` is refused as stale. The transaction
-- queues a new pass before the error is thrown, but the error undoes it: no job is left of it.
pub resolve-changed_source :
    (resolver : Resolver) (organization notice_id : String) (s : Store) (p : Policy)
    (q : Projection) (operation : EffectOperation) (current : Option String)
    → find_held resolver organization notice_id s ≡ ok (p, q)
    → waiting_operation p q ≡ ok operation
    → current_basis resolver organization notice_id q s ≡ ok current
    → is_same_basis current q.source_basis_hash ≡ false
    → any (conflicts (basis_job resolver organization notice_id p s)) s.jobs ≡ false
    → ((resolve_locked resolver organization notice_id restore s).0.jobs
        ≡ basis_job resolver organization notice_id p s ∷ s.jobs)
      × (resolve resolver organization notice_id restore s ≡ (s, err hold_stale))
unfolding resolve
resolve-changed_source resolver organization notice_id s p q operation current held waits basis
      changed free =
    let stale =
      locked-stale resolver organization notice_id s p q operation current held waits basis
        changed in
    (
      ap (λ (x : Step). x.0.jobs) stale ∙ stale_basis-jobs resolver organization notice_id p s free,
      rw (stale, resolve) refl,
    )
