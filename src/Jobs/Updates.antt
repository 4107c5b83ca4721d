-- ===== src/Jobs/Updates.antt =====
-- server/src/jobs/queue.ts: the updates of a row that its owner holds, and the indexes.
use planipus.Common.{
  both_true, All-of_mem, ℕ, ◌≡◌, refl, inl, inr, true, String, if◌then◌else◌, Bool-cases,
}
use planipus.CalendarSync.Json.{Text}
use planipus.Jobs.Queue.{
  Job, Jobs, Failure, is_live, is_held_by, update_held, transition, succeed, renew, fail,
}
use planipus.Jobs.Table.{IsIndexed, KeepsRow, live_of_leased, IsIndexed-map}

module _ (id owner : String) where
  live_of_held : (j : Job) → is_held_by id owner j ≡ true → is_live j.state ≡ true
  live_of_held j held = live_of_leased j.state (both_true _ _ (both_true _ _ held).0).1

  update_held-KeepsRow :
      (set : Job → Job) (j : Job)
      → (is_held_by id owner j ≡ true → KeepsRow j (set j))
      → KeepsRow j (if is_held_by id owner j then set j else j)
  update_held-KeepsRow set j keeps = elim (Bool-cases (is_held_by id owner j)) [
    | inl held ↦ rw held (keeps held)
    | inr free ↦ rw free (refl, (refl, refl, refl), λ live. live)
  ]

  transition-IsIndexed :
      (set : Job → Job) (jobs : Jobs)
      → ((j : Job) → is_held_by id owner j ≡ true → KeepsRow j (set j))
      → IsIndexed jobs
      → IsIndexed (update_held id owner set jobs).0
  unfolding update_held
  transition-IsIndexed set jobs keeps =
      IsIndexed-map _ jobs (All-of_mem _ jobs (λ j _. update_held-KeepsRow set j (keeps j)))

  pub succeed-IsIndexed :
      (now : ℕ) (jobs : Jobs) → IsIndexed jobs → IsIndexed (succeed id owner now jobs).0
  unfolding succeed transition
  succeed-IsIndexed now jobs =
      transition-IsIndexed _ jobs (λ j held. (refl, (refl, refl, refl), λ _. live_of_held j held))

  pub renew-IsIndexed :
      (now lease_seconds : ℕ) (jobs : Jobs)
      → IsIndexed jobs
      → IsIndexed (renew id owner now lease_seconds jobs).0
  unfolding renew
  renew-IsIndexed now lease_seconds jobs =
      transition-IsIndexed _ jobs (λ j held. (refl, (refl, refl, refl), λ live. live))

  pub fail-IsIndexed :
      (lower : Text → Text) (failure : Failure) (attempt now jitter : ℕ) (jobs : Jobs)
      → IsIndexed jobs
      → IsIndexed (fail lower id owner failure attempt now jitter jobs).0
  unfolding fail transition
  fail-IsIndexed lower failure attempt now jitter jobs =
      transition-IsIndexed _ jobs (λ j held. (refl, (refl, refl, refl), λ _. live_of_held j held))
