-- ===== src/Jobs/Calls.antt =====
-- server/src/jobs/queue.ts: the table under any sequence of calls of `PostgresJobQueue`, by any owners.
use planipus.Common.{ℕ, refl, String, Bool, List, [], ◌∷◌}
use planipus.CalendarSync.Json.{JsonValue, Text}
use planipus.Jobs.Queue.{
  Job, Jobs, Failure, new_job, enqueue, enqueue_once, lease, succeed, renew, fail,
}
use planipus.Jobs.Table.{IsIndexed, table_after, enqueue-IsIndexed}
use planipus.Jobs.Leasing.{lease-IsIndexed}
use planipus.Jobs.Updates.{succeed-IsIndexed, renew-IsIndexed, fail-IsIndexed}

-- A call, with what it takes from outside: the time, a new id, the rows that other transactions lock.
pub data QueueCall : Type 0 where
  enqueues enqueues_once :
      (id organization kind key : String) (payload : JsonValue) (run_after now : ℕ) → QueueCall
  leases : (owner : String) (now : ℕ) (locked : Job → Bool) (limit lease_seconds : ℕ) → QueueCall
  succeeds : (id owner : String) (now : ℕ) → QueueCall
  renews : (id owner : String) (now lease_seconds : ℕ) → QueueCall
  fails :
      (lower : Text → Text) (id owner : String) (failure : Failure) (attempt now jitter : ℕ)
      → QueueCall

-- The table after a call.
unfoldable pub apply_call : QueueCall → Jobs → Jobs
apply_call (enqueues id organization kind key payload run_after now) jobs =
    table_after jobs (enqueue (new_job id organization kind key payload run_after now) jobs)
apply_call (enqueues_once id organization kind key payload run_after now) jobs =
    table_after jobs (enqueue_once (new_job id organization kind key payload run_after now) jobs)
apply_call (leases owner now locked limit lease_seconds) jobs =
    (lease owner now locked limit lease_seconds jobs).0
apply_call (succeeds id owner now) jobs = (succeed id owner now jobs).0
apply_call (renews id owner now lease_seconds) jobs = (renew id owner now lease_seconds jobs).0
apply_call (fails lower id owner failure attempt now jitter) jobs =
    (fail lower id owner failure attempt now jitter jobs).0

unfoldable pub run_calls : List QueueCall → Jobs → Jobs
run_calls [] jobs = jobs
run_calls (call ∷ calls) jobs = run_calls calls (apply_call call jobs)

apply_call-IsIndexed :
    (call : QueueCall) (jobs : Jobs) → IsIndexed jobs → IsIndexed (apply_call call jobs)
unfolding apply_call
apply_call-IsIndexed (enqueues id organization kind key payload run_after now) jobs h =
    (enqueue-IsIndexed (new_job id organization kind key payload run_after now) jobs refl h).0
apply_call-IsIndexed (enqueues_once id organization kind key payload run_after now) jobs h =
    (enqueue-IsIndexed (new_job id organization kind key payload run_after now) jobs refl h).1
apply_call-IsIndexed (leases owner now locked limit lease_seconds) jobs h =
    lease-IsIndexed owner now locked limit lease_seconds jobs h
apply_call-IsIndexed (succeeds id owner now) jobs h = succeed-IsIndexed id owner now jobs h
apply_call-IsIndexed (renews id owner now lease_seconds) jobs h =
    renew-IsIndexed id owner now lease_seconds jobs h
apply_call-IsIndexed (fails lower id owner failure attempt now jitter) jobs h =
    fail-IsIndexed id owner lower failure attempt now jitter jobs h

-- Every sequence of calls of the queue, by any owners and at any times, keeps the indexes of the table: the
-- ids stay distinct, and no two live rows have one key.
pub run_calls-IsIndexed :
    (calls : List QueueCall) (jobs : Jobs) → IsIndexed jobs → IsIndexed (run_calls calls jobs)
unfolding run_calls
run_calls-IsIndexed [] jobs h = h
run_calls-IsIndexed (call ∷ calls) jobs h =
    run_calls-IsIndexed calls (apply_call call jobs) (apply_call-IsIndexed call jobs h)
