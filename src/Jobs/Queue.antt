-- ===== src/Jobs/Queue.antt =====
-- server/src/jobs/queue.ts: the job table and the statements that `PostgresJobQueue` runs on it. Each
-- statement or transaction is one step. Times are in milliseconds.
use planipus.Common.{
  ℕ, ◌+◌, ◌*◌, ◌^◌, min, String, Option, none, some, Bool, true, false, ◌&&◌, ◌||◌, not, List, ◌∷◌,
  map, ltb, leb, ◌==◌, str_eq, opt_str_eq, if◌then◌else◌, any, filter, take, length, Result, ok,
  err,
}
use planipus.Common.Sorting.{sort}
use planipus.CalendarSync.Json.{JsonValue, arr, obj, Text, text_le}
use planipus.Jobs.ErrorCode.{Thrown, safe_error_code}

pub data JobState : Type 0 where
  pending leased retry succeeded dead : JobState

-- A row of `scheduled_jobs`.
pub record Job : Type 0 where
  pub id : String
  pub organization_id : String
  pub kind : String
  pub dedupe_key : String
  pub payload : JsonValue
  pub state : JobState
  pub attempt_count : ℕ
  pub run_after : ℕ
  pub lease_owner : Option String
  pub lease_expires_at : Option ℕ
  pub safe_code : Option Text
  pub updated_at : ℕ

pub record LeasedJob : Type 0 where
  pub id : String
  pub organization_id : String
  pub kind : String
  pub payload : JsonValue
  pub attempt_count : ℕ

abbrev pub Jobs : Type 0
Jobs = List Job

pub data QueueError : Type 0 where
  lease_lost invalid_payload : QueueError

-- `state in ('pending', 'leased', 'retry')`, the condition of the partial unique index.
abbrev pub is_live : JobState → Bool
is_live pending = true
is_live leased = true
is_live retry = true
is_live _ = false

abbrev pub is_leased : JobState → Bool
is_leased leased = true
is_leased _ = false

abbrev pub is_waiting : JobState → Bool
is_waiting pending = true
is_waiting retry = true
is_waiting _ = false

abbrev pub same_key : Job → Job → Bool
same_key a b =
    str_eq a.organization_id b.organization_id
    && str_eq a.kind b.kind
    && str_eq a.dedupe_key b.dedupe_key

-- `assertJobPayload`
abbrev pub is_job_payload : JsonValue → Bool
is_job_payload (arr _) = true
is_job_payload (obj _) = true
is_job_payload _ = false

-- A row that the indexes keep out: the key of a live row, or an id that is taken.
abbrev pub conflicts : Job → Job → Bool
conflicts new old = str_eq old.id new.id || (is_live old.state && same_key old new)

-- The values of an `insert` by `enqueue`; `id` is the result of `newId()`.
abbrev pub new_job : String → String → String → String → JsonValue → ℕ → ℕ → Job
new_job id organization kind key payload run_after now = record {
  id = id;
  organization_id = organization;
  kind = kind;
  dedupe_key = key;
  payload = payload;
  state = pending;
  attempt_count = 0;
  run_after = run_after;
  lease_owner = none;
  lease_expires_at = none;
  safe_code = none;
  updated_at = now;
}

-- `insert … on conflict do nothing returning id`
unfoldable pub insert_job : Job → Jobs → Jobs × Option String
insert_job new jobs = if any (conflicts new) jobs then (jobs, none) else (new ∷ jobs, some new.id)

unfoldable pub enqueue : Job → Jobs → Result QueueError (Jobs × Option String)
unfolding insert_job
enqueue new jobs =
    if is_job_payload new.payload then ok (insert_job new jobs) else err invalid_payload

-- `enqueueOnce`: no row of the key, live or not, may exist. The advisory lock makes it one step.
unfoldable pub enqueue_once : Job → Jobs → Result QueueError (Jobs × Option String)
unfolding insert_job
enqueue_once new jobs =
    if is_job_payload new.payload
    then if any (λ j. same_key j new) jobs then ok (jobs, none) else ok (insert_job new jobs)
    else err invalid_payload

abbrev pub is_before : Option ℕ → ℕ → Bool
is_before none now = false
is_before (some t) now = ltb t now

abbrev pub is_expired : ℕ → Job → Bool
is_expired now j = is_leased j.state && is_before j.lease_expires_at now

unfoldable pub release_expired : ℕ → Job → Job
release_expired now j =
    if is_expired now j
    then record j { state = retry; lease_owner = none; lease_expires_at = none }
    else j

abbrev pub is_due : ℕ → Job → Bool
is_due now j = is_waiting j.state && leb j.run_after now

-- `order by run_after, id`
abbrev pub due_le : Job → Job → Bool
due_le a b = ltb a.run_after b.run_after || (a.run_after == b.run_after && text_le a.id b.id)

-- The rows that the `select … for update skip locked` finds: `locked` are the rows that other
-- transactions hold.
unfoldable pub select_due : ℕ → (Job → Bool) → ℕ → Jobs → Jobs
unfolding sort
select_due now locked limit jobs =
    take limit (sort due_le (filter (λ j. is_due now j && not (locked j)) jobs))

-- The row of an `update` to a lease.
abbrev pub leased_row : String → ℕ → ℕ → Job → Job
leased_row owner now lease_ms j = record j {
  state = leased;
  lease_owner = some owner;
  lease_expires_at = some (now + lease_ms);
  attempt_count = j.attempt_count + 1;
  updated_at = now;
}

unfoldable pub take_lease : String → ℕ → ℕ → Jobs → Job → Job
take_lease owner now lease_ms chosen j =
    if any (λ c. str_eq c.id j.id) chosen then leased_row owner now lease_ms j else j

abbrev pub leased_job : Job → LeasedJob
leased_job j = record {
  id = j.id;
  organization_id = j.organization_id;
  kind = j.kind;
  payload = j.payload;
  attempt_count = j.attempt_count + 1;
}

-- The transaction of `lease`.
unfoldable pub lease : String → ℕ → (Job → Bool) → ℕ → ℕ → Jobs → Jobs × List LeasedJob
unfolding release_expired select_due take_lease
lease owner now locked limit lease_seconds jobs =
    let freed = map (release_expired now) jobs in
    let chosen = select_due now locked limit freed in
    (map (take_lease owner now (lease_seconds * 1000) chosen) freed, map leased_job chosen)

abbrev pub is_held_by : String → String → Job → Bool
is_held_by id owner j = str_eq j.id id && is_leased j.state && opt_str_eq j.lease_owner (some owner)

-- An `update` of the row that this owner holds, and the number of rows that it changed.
unfoldable pub update_held : String → String → (Job → Job) → Jobs → Jobs × ℕ
update_held id owner set jobs = (
  map (λ j. if is_held_by id owner j then set j else j) jobs,
  length (filter (is_held_by id owner) jobs),
)

-- The private method `transition`: the statement, and the error that it throws.
unfoldable pub transition :
    String → String → (Job → Job) → Jobs → Jobs × Result QueueError (Unit {0})
unfolding update_held
transition id owner set jobs =
    let (after, count) = update_held id owner set jobs in
    (after, if count == 1 then ok tt else err lease_lost)

unfoldable pub succeed : String → String → ℕ → Jobs → Jobs × Result QueueError (Unit {0})
unfolding transition
succeed id owner now jobs =
    transition id owner
      (λ j. record j {
        state = succeeded;
        lease_owner = none;
        lease_expires_at = none;
        safe_code = none;
        updated_at = now;
      })
      jobs

abbrev pub renewed_row : ℕ → ℕ → Job → Job
renewed_row now lease_seconds j = record j {
  lease_expires_at = some (now + lease_seconds * 1000);
  updated_at = now;
}

unfoldable pub renew : String → String → ℕ → ℕ → Jobs → Jobs × Bool
unfolding update_held
renew id owner now lease_seconds jobs =
    let (after, count) = update_held id owner (renewed_row now lease_seconds) jobs in
    (after, count == 1)

-- An error, and whether it says `retryable: false`.
pub record Failure : Type 0 where
  pub error : Thrown
  pub non_retryable : Bool

-- `jitter` is `Math.random()` in whole milliseconds, below 1000.
unfoldable pub delay_ms : ℕ → ℕ → ℕ
delay_ms attempt jitter = min (3600 * 1000) (2 ^ min attempt 10 * 1000 + jitter)

unfoldable pub is_dead : Failure → ℕ → Bool
is_dead failure attempt = failure.non_retryable || leb 10 attempt

unfoldable pub fail :
    (Text → Text)
    → String
    → String
    → Failure
    → ℕ
    → ℕ
    → ℕ
    → Jobs
    → Jobs × Result QueueError (Unit {0})
unfolding transition delay_ms is_dead
fail lower id owner failure attempt now jitter jobs =
    transition id owner
      (λ j. record j {
        state = if is_dead failure attempt then dead else retry;
        lease_owner = none;
        lease_expires_at = none;
        run_after = now + delay_ms attempt jitter;
        safe_code = some (safe_error_code lower failure.error);
        updated_at = now;
      })
      jobs
