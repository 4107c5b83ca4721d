-- ===== src/Jobs/Leasing.antt =====
-- server/src/jobs/queue.ts: what `lease` grants, and what it leaves alone.
use planipus.Common.{
  mem-take, length-map, All-map_intro, both_true, All-of_mem, any_of_mem, ℕ, ◌+◌, ◌*◌, ◌≤◌, ◌≡◌,
  refl, inl, inr, Bool, true, false, map, length, length-take-le, String, some, str_eq, str_eq_iff,
  any, mem_of_any, mem-filter, Bool-cases, All,
}
use mathlib.Core.List.{Memᴰ}
use planipus.Common.Sorting.{mem-sort}
use planipus.Jobs.Queue.{
  leased, leased_row, Job, Jobs, LeasedJob, is_leased, is_waiting, is_due, is_before, is_expired,
  due_le, release_expired, select_due, take_lease, leased_job, lease,
}
use planipus.Jobs.Table.{
  IsIndexed, KeepsRow, live_of_leased, live_of_waiting, waiting-not_leased, row_unique,
  IsIndexed-map, mem-map,
}

release-KeepsRow : (now : ℕ) (j : Job) → KeepsRow j (release_expired now j)
unfolding release_expired
release-KeepsRow now j = elim (Bool-cases (is_expired now j)) [
  | inl gone ↦
      rw gone (refl, (refl, refl, refl), λ _. live_of_leased j.state (both_true _ _ gone).0)
  | inr stays ↦ rw stays (refl, (refl, refl, refl), λ live. live)
]

release_expired_valid :
    (now : ℕ) (j : Job) → is_before j.lease_expires_at now ≡ false → release_expired now j ≡ j
unfolding release_expired
release_expired_valid now j valid = elim (Bool-cases (is_leased j.state)) [
  | inl held ↦ rw held (rw valid refl)
  | inr idle ↦ rw idle refl
]

-- The rows that are chosen are rows of the table, and they are due.
select_due-mem :
    (now : ℕ) (locked : Job → Bool) (limit : ℕ) (jobs : Jobs) {c : Job}
    → Memᴰ c (select_due now locked limit jobs)
    → Memᴰ c jobs × (is_due now c ≡ true)
unfolding select_due
select_due-mem now locked limit jobs m =
    let (i, fit) = mem-filter _ jobs (mem-sort due_le _ (mem-take limit _ m)) in
    (i, (both_true _ _ fit).0)

length-select_due-le :
    (now : ℕ) (locked : Job → Bool) (limit : ℕ) (jobs : Jobs)
    → length (select_due now locked limit jobs) ≤ limit
unfolding select_due
length-select_due-le now locked limit jobs = length-take-le limit _

take_lease_chosen :
    (owner : String) (now lease_ms : ℕ) (chosen : Jobs) (j : Job)
    → any (λ c. str_eq c.id j.id) chosen ≡ true
    → take_lease owner now lease_ms chosen j ≡ leased_row owner now lease_ms j
unfolding take_lease
take_lease_chosen owner now lease_ms chosen j hit = rw hit refl

module _ (owner : String) (now lease_ms : ℕ) (locked : Job → Bool) (limit : ℕ) where
  -- A row that the second statement changes is due.
  due_of_chosen :
      (jobs : Jobs) {j : Job}
      → IsIndexed jobs
      → Memᴰ j jobs
      → any (λ c. str_eq c.id j.id) (select_due now locked limit jobs) ≡ true
      → is_due now j ≡ true
  due_of_chosen jobs {j} h m hit =
      let (c, i, same) = mem_of_any _ _ hit in
      let (k, due) = select_due-mem now locked limit jobs i in
      rw (← row_unique jobs h k m ((str_eq_iff c.id j.id).0 same)) due

  take_lease-KeepsRow :
      (jobs : Jobs) (j : Job)
      → IsIndexed jobs
      → Memᴰ j jobs
      → KeepsRow j (take_lease owner now lease_ms (select_due now locked limit jobs) j)
  unfolding take_lease
  take_lease-KeepsRow jobs j h m =
      elim (Bool-cases (any (λ c. str_eq c.id j.id) (select_due now locked limit jobs))) [
        | inl hit ↦ rw hit (
          refl,
          (refl, refl, refl),
          λ _. live_of_waiting j.state (both_true _ _ (due_of_chosen jobs h m hit)).0,
        )
        | inr miss ↦ rw miss (refl, (refl, refl, refl), λ live. live)
      ]

  take_lease_held :
      (jobs : Jobs) (j : Job)
      → IsIndexed jobs
      → Memᴰ j jobs
      → is_leased j.state ≡ true
      → take_lease owner now lease_ms (select_due now locked limit jobs) j ≡ j
  unfolding take_lease
  take_lease_held jobs j h m held =
      elim (Bool-cases (any (λ c. str_eq c.id j.id) (select_due now locked limit jobs))) [
        | inl hit ↦
            let waits : is_waiting j.state ≡ true =
              (both_true _ _ (due_of_chosen jobs h m hit)).0 in
            absurd (cc (held, waiting-not_leased j.state waits))
        | inr miss ↦ rw miss refl
      ]

pub IsIndexed-release :
    (now : ℕ) (jobs : Jobs) → IsIndexed jobs → IsIndexed (map (release_expired now) jobs)
IsIndexed-release now jobs =
    IsIndexed-map (release_expired now) jobs (All-of_mem _ jobs (λ j _. release-KeepsRow now j))

module _ (owner : String) (now : ℕ) (locked : Job → Bool) (limit lease_seconds : ℕ) (jobs : Jobs)
    (indexed : IsIndexed jobs) where
  abbrev freed_rows : Jobs
  freed_rows = map (release_expired now) jobs

  -- Leasing keeps the indexes: the ids stay distinct, and no two live rows have one key.
  pub lease-IsIndexed : IsIndexed (lease owner now locked limit lease_seconds jobs).0
  unfolding lease
  lease-IsIndexed =
      let freed = IsIndexed-release now jobs indexed in
      IsIndexed-map _ _
        (All-of_mem _ _
          (λ j m. take_lease-KeepsRow owner now (lease_seconds * 1000) locked limit _ j freed m))
        freed

  -- Mutual exclusion: a row whose lease has not expired is left as it is by every other lease.
  pub lease-keeps_leased :
      (j : Job)
      → Memᴰ j jobs
      → is_leased j.state ≡ true
      → is_before j.lease_expires_at now ≡ false
      → Memᴰ j (lease owner now locked limit lease_seconds jobs).0
  unfolding lease
  lease-keeps_leased j m held valid =
      let freed = IsIndexed-release now jobs indexed in
      let stays = release_expired_valid now j valid in
      let m' = rw stays at (mem-map (release_expired now) jobs m) in
      let kept = take_lease_held owner now (lease_seconds * 1000) locked limit _ j freed m' held in
      rw kept at (
        mem-map
          (take_lease owner now (lease_seconds * 1000) (select_due now locked limit freed_rows))
          freed_rows m')

  -- What a worker gets: a row that was free and due, and that the table now holds for this worker,
  -- with one attempt more, until the lease ends.
  abbrev pub IsGranted : LeasedJob → Type 0
  IsGranted granted =
      (j : Job) × Memᴰ j freed_rows
      × (is_due now j ≡ true)
      × (granted ≡ leased_job j)
      × ((k : Job) × Memᴰ k (lease owner now locked limit lease_seconds jobs).0
          × (k.id ≡ granted.id)
          × (k.state ≡ leased)
          × (k.lease_owner ≡ some owner)
          × (k.attempt_count ≡ granted.attempt_count)
          × (k.lease_expires_at ≡ some (now + lease_seconds * 1000)))

  granted_lem :
      (c : Job) → Memᴰ c (select_due now locked limit freed_rows) → IsGranted (leased_job c)
  unfolding lease take_lease
  granted_lem c m =
      let chosen = select_due now locked limit freed_rows in
      let (i, due) = select_due-mem now locked limit freed_rows m in
      let hit : any (λ d. str_eq d.id c.id) chosen ≡ true =
        any_of_mem _ chosen m ((str_eq_iff c.id c.id).1 refl) in
      let took = take_lease_chosen owner now (lease_seconds * 1000) chosen c hit in
      let k =
        rw took at (mem-map (take_lease owner now (lease_seconds * 1000) chosen) freed_rows i) in
      (
        c,
        i,
        due,
        refl,
        (leased_row owner now (lease_seconds * 1000) c, k, refl, refl, refl, refl, refl),
      )

  -- A lease grants at most `limit` jobs, and each of them was free and due and is now leased to this
  -- worker in the table, with one attempt more.
  pub lease-IsGranted :
      (length (lease owner now locked limit lease_seconds jobs).1 ≤ limit)
      × All IsGranted (lease owner now locked limit lease_seconds jobs).1
  unfolding lease
  lease-IsGranted =
      let chosen = select_due now locked limit freed_rows in
      (
        rw (length-map leased_job chosen) (length-select_due-le now locked limit freed_rows),
        All-map_intro IsGranted leased_job chosen (λ c m. granted_lem c m),
      )
