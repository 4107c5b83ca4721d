-- ===== src/Jobs/Ownership.antt =====
-- server/src/jobs/queue.ts and leased-job.ts: what an owner of a lease may do, and what one that lost
-- it cannot do.
use planipus.Common.{
  ◌^◌, ◌*◌, min, ◌+◌, mem-map_intro, arith, leb, some, ◌<◌, ◌≤◌, ◌⊎◌, none, inl, inr, ℕ, suc,
  String, ◌≡◌, refl, ap, Bool, true, false, List, [], ◌∷◌, map, if◌then◌else◌, filter, length,
  Result, ok, err, Bool-cases,
}
use planipus.CalendarSync.Json.{Text}
use mathlib.Core.List.{Memᴰ}
use planipus.Jobs.ErrorCode.{safe_error_code}
use planipus.Jobs.Queue.{
  delay_ms, retry, dead, is_dead, JobState, Job, Jobs, Failure, QueueError, is_held_by, update_held,
  renewed_row, transition, renew, succeed, fail,
}
use planipus.Jobs.LeasedJob.{
  TransitionError, job_lease_lost, LeaseQueue, JobLeaseHeartbeat, LeasedJobResult,
  stop_and_confirm_ownership, finish, succeeded, failed, Step, start, run_steps, process_leased_job,
}

module _ (held : Job → Bool) (set : Job → Job) where
  abbrev set_held : Job → Job
  set_held j = if held j then set j else j

  -- Where the change keeps the lease, as many rows are held as before.
  length-filter-map :
      ((j : Job) → held (set j) ≡ held j)
      → (jobs : Jobs) → length (filter held (map set_held jobs)) ≡ length (filter held jobs)
  length-filter-map keeps [] = refl
  length-filter-map keeps (j ∷ jobs) = elim (Bool-cases (held j)) [
    | inl hit ↦ rw hit (rw (keeps j) (rw hit (ap suc (length-filter-map keeps jobs))))
    | inr miss ↦ rw miss (rw miss (length-filter-map keeps jobs))
  ]

abbrev thrown : Result QueueError (Unit {0}) → Result TransitionError (Unit {0})
thrown (ok u) = ok u
thrown (err _) = err job_lease_lost

-- The queue over a clock and the job table, as the worker `owner` uses it for the job `id`.
unfoldable pub table_queue :
    (Text → Text) → (id owner : String) → (lease_seconds attempt jitter : ℕ) → LeaseQueue (ℕ × Jobs)
unfolding renew succeed fail
table_queue lower id owner lease_seconds attempt jitter = record {
  renew =
      λ s. let (after, answer) = renew id owner s.0 lease_seconds s.1 in ((s.0, after), ok answer);
  succeed = λ s. let (after, answer) = succeed id owner s.0 s.1 in ((s.0, after), thrown answer);
  fail = λ failure s.
      let (after, answer) = fail lower id owner failure attempt s.0 jitter s.1 in
      ((s.0, after), thrown answer);
}

abbrev pub result_of : Result Failure (Unit {0}) → LeasedJobResult
result_of (ok _) = succeeded
result_of (err _) = failed

module _ (lower : Text → Text) (id owner : String) (lease_seconds attempt jitter : ℕ)
    (steps : List (Step (ℕ × Jobs))) (s : ℕ × Jobs) where
  abbrev queue : LeaseQueue (ℕ × Jobs)
  queue = table_queue lower id owner lease_seconds attempt jitter

  -- The heartbeat and the state when the dispatch is over.
  abbrev pub at_end : JobLeaseHeartbeat × (ℕ × Jobs)
  at_end = run_steps queue steps (start, s)

  abbrev renewed : ℕ × Jobs
  unfolding renew update_held
  renewed = (at_end.1.0, (renew id owner at_end.1.0 lease_seconds at_end.1.1).0)

  confirm_held :
      at_end.0.ownership_lost ≡ false
      → length (filter (is_held_by id owner) at_end.1.1) ≡ 1
      → stop_and_confirm_ownership queue at_end.0 at_end.1 ≡ (renewed, ok true)
  unfolding stop_and_confirm_ownership table_queue renew update_held
  confirm_held kept one_held = rw kept (rw one_held refl)

  transition-ok :
      (set : Job → Job)
      → length (filter (is_held_by id owner) at_end.1.1) ≡ 1
      → (transition id owner set renewed.1).1 ≡ ok tt
  unfolding transition renew update_held
  transition-ok set one_held =
      rw
        (length-filter-map (is_held_by id owner) (renewed_row at_end.1.0 lease_seconds) (λ j. refl)
          at_end.1.1)
        (rw one_held refl)

  -- What a dispatch leaves of the row that it ran: it succeeded, or failed and is dead or to be
  -- retried later.
  abbrev pub IsFinal : Result Failure (Unit {0}) → Job → Type 0
  IsFinal (ok _) k = (k.state ≡ JobState.succeeded) × (k.safe_code ≡ none)
  IsFinal (err failure) k =
      (((failure.non_retryable ≡ true) × (k.state ≡ dead))
        ⊎ (((failure.non_retryable ≡ false) × (10 ≤ attempt) × (k.state ≡ dead))
            ⊎ ((failure.non_retryable ≡ false) × (attempt < 10) × (k.state ≡ retry))))
      × (k.safe_code ≡ some (safe_error_code lower failure.error))
      × (k.run_after ≡ at_end.1.0 + min (3600 * 1000) (2 ^ min attempt 10 * 1000 + jitter))

  abbrev pub IsRecorded : Result Failure (Unit {0}) → Job → Jobs → Type 0
  IsRecorded outcome j after =
      (k : Job) × Memᴰ k after
      × (k.id ≡ j.id)
      × (k.lease_owner ≡ none)
      × (k.lease_expires_at ≡ none)
      × IsFinal outcome k

  fail-IsFinal :
      (failure : Failure) (state_after : JobState)
      → state_after ≡ (if is_dead failure attempt then dead else retry)
      → (((failure.non_retryable ≡ true) × (state_after ≡ dead))
          ⊎ (((failure.non_retryable ≡ false) × (10 ≤ attempt) × (state_after ≡ dead))
              ⊎ ((failure.non_retryable ≡ false) × (attempt < 10) × (state_after ≡ retry))))
  unfolding is_dead
  fail-IsFinal failure state_after state = elim (Bool-cases failure.non_retryable) [
    | inl never ↦ inl (never, rw never at state)
    | inr may ↦ elim (Bool-cases (leb 10 attempt)) [
      | inl tried ↦ inr (inl (may, ground arith, rw (may, tried) at state))
      | inr left ↦ inr (inr (may, ground arith, rw (may, left) at state))
    ]
  ]

  -- The row of the renewed table that takes the place of a held one, and the one of any other.
  transition-held :
      (set : Job → Job) (j : Job)
      → Memᴰ j at_end.1.1
      → is_held_by id owner j ≡ true
      → Memᴰ (set (renewed_row at_end.1.0 lease_seconds j)) (transition id owner set renewed.1).0
  unfolding transition renew update_held
  transition-held set j m held =
      let kept : Memᴰ (set_held (is_held_by id owner) (renewed_row at_end.1.0 lease_seconds) j)
          renewed.1 =
        mem-map_intro _ at_end.1.1 m in
      let now_held : Memᴰ (renewed_row at_end.1.0 lease_seconds j) renewed.1 = rw held at kept in
      let after = mem-map_intro (set_held (is_held_by id owner) set) renewed.1 now_held in
      rw held at after

  transition-free :
      (set : Job → Job) (j : Job)
      → Memᴰ j at_end.1.1
      → is_held_by id owner j ≡ false
      → Memᴰ j (transition id owner set renewed.1).0
  unfolding transition renew update_held
  transition-free set j m free =
      let kept : Memᴰ (set_held (is_held_by id owner) (renewed_row at_end.1.0 lease_seconds) j)
          renewed.1 =
        mem-map_intro _ at_end.1.1 m in
      let now_kept : Memᴰ j renewed.1 = rw free at kept in
      let after = mem-map_intro (set_held (is_held_by id owner) set) renewed.1 now_kept in
      rw free at after

  -- Where the worker holds exactly one leased row then, and no heartbeat has found the lease lost, the
  -- answer is `succeeded` if the dispatch returned and `failed` if it threw, and the held row is in the
  -- table afterwards, without its lease: as succeeded with no error code, or with the error's code as
  -- dead, where the error is not to be retried or the attempt is the tenth or a later one, and as due
  -- again after the delay otherwise. A row that the worker did not hold stays as it was.
  pub process_leased_job-result_of :
      (outcome : Result Failure (Unit {0})) (j other : Job)
      → at_end.0.ownership_lost ≡ false
      → length (filter (is_held_by id owner) at_end.1.1) ≡ 1
      → Memᴰ j at_end.1.1
      → is_held_by id owner j ≡ true
      → Memᴰ other at_end.1.1
      → is_held_by id owner other ≡ false
      → ((process_leased_job queue steps outcome s).1 ≡ ok (result_of outcome))
        × IsRecorded outcome j (process_leased_job queue steps outcome s).0.1
        × Memᴰ other (process_leased_job queue steps outcome s).0.1
  unfolding process_leased_job finish table_queue succeed fail delay_ms
  process_leased_job-result_of (ok _) j other kept one_held m held n free =
      rw (confirm_held kept one_held) (
        rw (transition-ok _ one_held) refl,
        (_, transition-held _ j m held, refl, refl, refl, (refl, refl)),
        transition-free _ other n free,
      )
  process_leased_job-result_of (err failure) j other kept one_held m held n free =
      rw (confirm_held kept one_held) (
        rw (transition-ok _ one_held) refl,
        (
          _,
          transition-held _ j m held,
          refl,
          refl,
          refl,
          (fail-IsFinal failure (if is_dead failure attempt then dead else retry) refl, refl, refl),
        ),
        transition-free _ other n free,
      )
