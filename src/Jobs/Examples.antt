-- ===== src/Jobs/Examples.antt =====
-- Theorems on the job table at concrete tables: one row that worker w1 holds, and one that is due.
use planipus.Common.{
  Result, ℕ, ◌≤◌, ◌≡◌, refl, String, some, Bool, false, [], ◌∷◌, length, All, ok, str_eq_iff, List,
}
use mathlib.Core.List.{Memᴰ}
use planipus.CalendarSync.Json.{Text, arr, no_items, obj, no_members}
use planipus.Jobs.ErrorCode.{Thrown, other}
use planipus.Jobs.Queue.{leased, Job, Jobs, Failure, update_held, new_job, lease, renew}
use planipus.Jobs.LeasedJob.{beat, run_steps, LeasedJobResult, process_leased_job}
use planipus.Jobs.Table.{IsIndexed}
use planipus.Jobs.Leasing.{IsGranted, lease-keeps_leased, lease-IsGranted}
use planipus.Jobs.Ownership.{IsRecorded, table_queue, process_leased_job-result_of}
use planipus.Jobs.Calls.{QueueCall, enqueues, leases, succeeds, run_calls, run_calls-IsIndexed}

abbrev due_row : Job
due_row = new_job "b" "org" "sync" "calendar-b" (arr no_items) 1000 500

abbrev held_row : Job
held_row = record (new_job "a" "org" "sync" "calendar-a" (arr no_items) 1000 500) {
  state = leased;
  lease_owner = some "w1";
  lease_expires_at = some 5000;
  attempt_count = 1;
}

-- The row after the heartbeat at 2000 extended its lease by 30 seconds.
abbrev extended_row : Job
extended_row = record held_row { lease_expires_at = some 32000; updated_at = 2000 }

abbrev table : Jobs
table = held_row ∷ due_row ∷ []

ids_differ : ¬ (◌≡◌ {A = String} "a" "b")
ids_differ e = let hit = (str_eq_iff "a" "b").1 e in cc hit

keys_differ : ¬ (◌≡◌ {A = String} "calendar-a" "calendar-b")
keys_differ e = let hit = (str_eq_iff "calendar-a" "calendar-b").1 e in cc hit

table-IsIndexed : IsIndexed table
table-IsIndexed = (((ids_differ, λ _ _ (o, k, d). keys_differ d), tt), (tt, tt))

abbrev unlocked : Job → Bool
unlocked j = false

abbrev same : Text → Text
same t = t

abbrev failure : Failure
failure = record { error = other; non_retryable = false }

lease-keeps_leased_example : Memᴰ held_row (lease "w2" 2000 unlocked 10 30 table).0
lease-keeps_leased_example =
    lease-keeps_leased "w2" 2000 unlocked 10 30 table table-IsIndexed held_row (Memᴰ.head refl) refl
      refl

lease-IsGranted_example :
    (length (lease "w2" 2000 unlocked 10 30 table).1 ≤ 10)
    × All
        (IsGranted "w2" 2000 unlocked 10 30 table table-IsIndexed)
        (lease "w2" 2000 unlocked 10 30 table).1
lease-IsGranted_example = lease-IsGranted "w2" 2000 unlocked 10 30 table table-IsIndexed

abbrev finished : (ℕ × Jobs) × Result Thrown LeasedJobResult
unfolding process_leased_job table_queue
finished = process_leased_job (table_queue same "a" "w1" 30 1 7) (beat ∷ []) (ok tt) (2000, table)

process_leased_job-result_of_example :
    (finished.1 ≡ ok LeasedJobResult.succeeded)
    × IsRecorded same "a" "w1" 30 1 7 (beat ∷ []) (2000, table) (ok tt) extended_row finished.0.1
    × Memᴰ due_row finished.0.1
unfolding run_steps table_queue renew update_held process_leased_job
process_leased_job-result_of_example =
    process_leased_job-result_of same "a" "w1" 30 1 7 (beat ∷ []) (2000, table) (ok tt) extended_row
      due_row refl refl (Memᴰ.head refl) refl (Memᴰ.tail (Memᴰ.head refl)) refl

-- A job is enqueued twice, leased, and done.
abbrev calls : List QueueCall
calls =
    enqueues "c" "org" "sync" "k2" (obj no_members) 2000 2000
    ∷ enqueues "d" "org" "sync" "k2" (obj no_members) 2000 2000
    ∷ leases "w3" 2000 unlocked 10 30
    ∷ succeeds "c" "w3" 2001
    ∷ []

run_calls-IsIndexed_example : IsIndexed (run_calls calls table)
run_calls-IsIndexed_example = run_calls-IsIndexed calls table table-IsIndexed
