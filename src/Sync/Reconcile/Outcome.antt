-- ===== src/Sync/Reconcile/Outcome.antt =====
-- server/src/sync/reconciliation.ts: what `reconcile` comes to.
use planipus.Common.{
  ℕ, suc, ◌≡◌, refl, inl, inr, String, Option, none, some, length, Bool-cases, length-filter-le,
  Result, ok, err, arith,
}
use planipus.CalendarSync.Platform.{Platform}
use planipus.Sync.Store.{PolicyStatus, Observation, Store}
use planipus.Sync.Provider.{EffectError}
use planipus.Sync.Reconcile.Passes.{
  Documents, Fresh, PassRow, find_pass_row, connects, ReconciliationSummary, Tally, is_candidate,
  empty_tally,
}
use planipus.Sync.Reconcile.Run.{
  Answer, step_of, finish_pass, reconcile_active, reconcile_row, reconcile,
}
use planipus.Sync.Reconcile.Termination.{reconcile_pages-answers}

abbrev pub Answers : Answer → Type 0
Answers answer = (out : Store × Result EffectError ReconciliationSummary) × (answer ≡ some out)

module _ (platform : Platform) (iso : ℕ → String) (now : ℕ) (fresh : Observation → Fresh)
    (documents : Documents) (organization id : String) where
  abbrev row_answer : Option PassRow → Store → Answer
  row_answer = reconcile_row platform iso now fresh documents organization id

  finish_pass-Answers :
      (out : Store × Result EffectError Tally)
      → Answers (finish_pass platform iso now fresh documents organization id (some out))
  finish_pass-Answers (s, ok t) = (_, refl)
  finish_pass-Answers (s, err e) = (_, refl)

  reconcile_active-Answers :
      (row : PassRow) (s : Store)
      → Answers (reconcile_active platform iso now fresh documents organization id row s)
  unfolding reconcile_active
  reconcile_active-Answers row s =
      let fewer =
        length-filter-le
          (is_candidate organization row.policy.source_calendar_id s.observations none)
          s.observations in
      let (out, e) =
        reconcile_pages-answers organization row.policy.source_calendar_id s.observations
          (step_of platform iso now fresh documents organization id row)
          (suc (length s.observations)) none empty_tally s (omega arith) in
      rw e (finish_pass-Answers out)

  at_status-Answers :
      (row : PassRow) (s : Store) (status : PolicyStatus)
      → row.policy.status ≡ status
      → Answers (row_answer (some row) s)
  unfolding reconcile_row
  at_status-Answers row s PolicyStatus.deleted e = rw (e, reconcile_row) (_, refl)
  at_status-Answers row s PolicyStatus.paused e = rw (e, reconcile_row) (_, refl)
  at_status-Answers row s PolicyStatus.active e = elim (Bool-cases (connects row)) [
    | inl connected ↦ rw (e, reconcile_row, connected) (reconcile_active-Answers row s)
    | inr closed ↦ rw (e, reconcile_row, closed) (_, refl)
  ]

  row_answer-Answers : (o : Option PassRow) (s : Store) → Answers (row_answer o s)
  unfolding reconcile_row
  row_answer-Answers none s = (_, refl)
  row_answer-Answers (some row) s = at_status-Answers row s row.policy.status refl

  -- A pass has an answer: its loop over pages of observations ends within one more page than there are
  -- observations, whatever the transactions do.
  pub reconcile-Answers :
      (s : Store) → Answers (reconcile platform iso now fresh documents organization id s)
  unfolding reconcile
  reconcile-Answers s = row_answer-Answers (find_pass_row organization id s) s
