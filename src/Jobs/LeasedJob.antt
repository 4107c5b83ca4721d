-- ===== src/Jobs/LeasedJob.antt =====
-- server/src/jobs/leased-job.ts: one leased job, its heartbeat, and the transition at the end. The
-- queue is an interface over its state, whose operations may throw.
use planipus.Common.{
  ℕ, ◌*◌, ◌/◌, max, Bool, true, false, ◌||◌, List, [], ◌∷◌, Result, ok, err, if◌then◌else◌,
}
use planipus.Jobs.ErrorCode.{Thrown}
use planipus.Jobs.Queue.{Failure}

-- What a transition throws: `JobLeaseLostError`, or another error.
pub data TransitionError : Type 0 where
  job_lease_lost : TransitionError
  other_error : Thrown → TransitionError

-- `Pick<PostgresJobQueue, "renew" | "succeed" | "fail">`, for this job and this owner. Each operation
-- is a step on the state that the workers share.
pub record LeaseQueue {ℓ} (S : Type ℓ) : Type ℓ where
  pub renew : S → S × Result Thrown Bool
  pub succeed : S → S × Result TransitionError (Unit {0})
  pub fail : Failure → S → S × Result TransitionError (Unit {0})

pub data LeasedJobResult : Type 0 where
  succeeded failed lease_lost : LeasedJobResult

pub record JobLeaseHeartbeat : Type 0 where
  pub stopped : Bool
  pub ownership_lost : Bool

-- What happens while `dispatch` runs: the timer fires and its renewal completes, or the state changes
-- in another way, by the dispatch or by another worker.
pub data Step {ℓ} (S : Type ℓ) : Type ℓ where
  beat : Step S
  elsewhere : (S → S) → Step S

unfoldable pub interval_milliseconds : ℕ → ℕ
interval_milliseconds lease_seconds = max 1000 (lease_seconds * 1000 / 3)

abbrev pub start : JobLeaseHeartbeat
start = record { stopped = false; ownership_lost = false }

module _ {ℓ} {S : Type ℓ} (queue : LeaseQueue S) where
  -- A thrown error is swallowed.
  abbrev pub note_renewal : JobLeaseHeartbeat → Result Thrown Bool → JobLeaseHeartbeat
  note_renewal h (ok true) = h
  note_renewal h (ok false) = record h { ownership_lost = true }
  note_renewal h (err _) = h

  -- The callback of the timer in `schedule`.
  unfoldable pub renew_once : JobLeaseHeartbeat → S → JobLeaseHeartbeat × S
  renew_once h s =
      if h.stopped || h.ownership_lost
      then (h, s)
      else let (after, answer) = queue.renew s in (note_renewal h answer, after)

  unfoldable pub run_step : Step S → JobLeaseHeartbeat × S → JobLeaseHeartbeat × S
  unfolding renew_once
  run_step beat (h, s) = renew_once h s
  run_step (elsewhere change) (h, s) = (h, change s)

  unfoldable pub run_steps : List (Step S) → JobLeaseHeartbeat × S → JobLeaseHeartbeat × S
  unfolding run_step
  run_steps [] state = state
  run_steps (step ∷ steps) state = run_steps steps (run_step step state)

  unfoldable pub stop_and_confirm_ownership : JobLeaseHeartbeat → S → S × Result Thrown Bool
  stop_and_confirm_ownership h s = if h.ownership_lost then (s, ok false) else queue.renew s

  -- The `catch` of a transition, which answers `result` where nothing is thrown.
  abbrev pub settle :
      LeasedJobResult → Result TransitionError (Unit {0}) → Result Thrown LeasedJobResult
  settle result (ok _) = ok result
  settle result (err job_lease_lost) = ok lease_lost
  settle result (err (other_error e)) = err e

  unfoldable pub finish :
      LeasedJobResult
      → (S → S × Result TransitionError (Unit {0}))
      → S × Result Thrown Bool
      → S × Result Thrown LeasedJobResult
  finish result transition (s, ok true) =
      let (after, answer) = transition s in (after, settle result answer)
  finish result transition (s, ok false) = (s, ok lease_lost)
  finish result transition (s, err e) = (s, err e)

  -- `dispatch` takes the steps and then returns or throws.
  unfoldable pub process_leased_job :
      List (Step S) → Result Failure (Unit {0}) → S → S × Result Thrown LeasedJobResult
  unfolding run_steps stop_and_confirm_ownership finish
  process_leased_job steps outcome s =
      let (h, after) = run_steps steps (start, s) in
      let confirmed = stop_and_confirm_ownership h after in
      elim outcome [
        | ok _ ↦ finish succeeded queue.succeed confirmed
        | err failure ↦ finish failed (queue.fail failure) confirmed
      ]
