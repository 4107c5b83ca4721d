-- ===== src/Policy/Resumed.antt =====
-- server/src/policy/service.ts with server/src/sync/effects.ts: effects that a pause put off, when the
-- policy is resumed.
use mathlib.Core.List.{Memᴰ}
use planipus.Common.{
  ◌>>=◌, ◌≡◌, refl, sym, ap, ◌∙◌, ◌-◌, String, none, some, true, false, str_eq_iff, ==_iff, Result,
  ok, bind-eq-ok, ok_eq,
}
use planipus.CalendarSync.Json.{codes}
use planipus.CalendarSync.Evaluate.Convergence.{same_text_refl}
use planipus.Jobs.Queue.{is_waiting}
use planipus.Sync.Store.{PolicyStatus, Policy, Effect, Store}
use planipus.Sync.Provider.{EffectError, CalendarProvider, World, modify}
use planipus.Sync.Effects.Steps.{Env, LeasedEffect, audit}
use planipus.Sync.Effects.Rows.{PolicyRow, find_policy}
use planipus.Sync.Effects.Execute.{execute_one}
use planipus.Sync.Effects.Settled.{holds_lease}
use planipus.Sync.Reconcile.Updating.{mem-update_where}
use planipus.Policy.Requests.{Caller, asked_policy, enqueue_reconcile, revision_key}
use planipus.Policy.Safety.{enqueue_reconcile-same}
use planipus.Policy.Calendars.{Identities}
use planipus.Policy.Pausing.{
  set_status, status_change, is_paused_effect, released, release_paused, require_resumable, resume,
  set_paused,
}
use planipus.Policy.Deferred.{deferred, execute_one-paused, put_off-Mem}

module _ (caller : Caller) (identities : Identities) (organization : String) where
  pub resume-Checked :
      (p : Policy) (s after : Store)
      → resume caller identities organization p s ≡ ok after
      → (require_resumable caller identities organization p s ≡ ok tt)
        × (after.effects ≡ (release_paused caller identities organization p s).effects)
  unfolding resume
  resume-Checked p s after done =
      let changed : Store =
        status_change caller identities organization p PolicyStatus.active "policy.resumed" (
          release_paused caller identities organization p
            (set_status caller identities organization p PolicyStatus.active s)) in
      let key = revision_key p String.[] in
      let (checked, met, rest) =
        bind-eq-ok (require_resumable caller identities organization p s)
          (λ _.
            enqueue_reconcile caller organization p caller.env.new_job_id key changed >>= λ queued.
            ok (queued.0))
          done in
      let (queued, made, last) =
        bind-eq-ok (enqueue_reconcile caller organization p caller.env.new_job_id key changed)
          (λ queued. ok (queued.0)) rest in
      let (effects, _) = enqueue_reconcile-same caller organization p _ _ changed queued made in
      let same : queued.0 ≡ after = ok_eq refl last in
      (met, ap (λ (x : Store). x.effects) (sym same) ∙ effects)

  resume-Mem :
      (p : Policy) (s after : Store) (d : Effect)
      → resume caller identities organization p s ≡ ok after
      → Memᴰ d s.effects
      → is_paused_effect caller identities organization p d ≡ true
      → Memᴰ (released caller identities organization d) after.effects
  resume-Mem p s after d done m paused = rw (resume-Checked p s after done).1 (
      mem-update_where (is_paused_effect caller identities organization p)
        (released caller identities organization) s.effects m paused)

  pub set_paused-resume :
      (id : String) (p : Policy) (s after : Store)
      → asked_policy caller organization id s ≡ ok p
      → set_paused caller identities organization false id s ≡ ok after
      → resume caller identities organization p s ≡ ok after
  unfolding set_paused
  set_paused-resume id p s after asked done = rw (asked, set_paused) at done

-- An effect whose execution finds its policy paused is put off without a call of the provider. Once the
-- policy is resumed, at the revision of the effect, it waits again, due at once, with no lease and without
-- the attempt that its lease had counted.
pub paused_effect-resumes :
    (env : Env) {R : Type 0} (provider : CalendarProvider R) (owner : String)
    (effect : LeasedEffect) (w : World R) (row : PolicyRow) (e : Effect) (caller : Caller)
    (identities : Identities) (organization id : String) (p : Policy) (after : Store)
    → find_policy effect w.store ≡ some row
    → row.policy.status ≡ PolicyStatus.paused
    → Memᴰ e w.store.effects
    → holds_lease env provider owner effect e ≡ true
    → asked_policy caller organization id (execute_one env provider owner effect w).0.store ≡ ok p
    → e.policy_id ≡ p.id
    → e.policy_revision ≡ p.revision
    → set_paused caller identities organization false id
        (execute_one env provider owner effect w).0.store
      ≡ ok after
    → ((execute_one env provider owner effect w).0.remote ≡ w.remote)
      × (r : Effect) × Memᴰ r after.effects
      × (r.id ≡ e.id)
      × (is_waiting r.state ≡ true)
      × (r.run_after ≡ caller.env.now)
      × (r.lease_owner ≡ none)
      × (r.attempt_count ≡ e.attempt_count - 1)
      × (r.desired_state ≡ e.desired_state)
unfolding audit modify
paused_effect-resumes env provider owner effect w row e caller identities organization id p after
      found paused m leased asked policy revision done =
    let executed = execute_one-paused env provider owner effect w row e found paused m leased in
    let d = deferred env provider owner effect e in
    let store = ap (λ (x : World _ × Result EffectError (Unit {0})). x.0.store) executed in
    let there : Memᴰ d (execute_one env provider owner effect w).0.store.effects =
      rw store (put_off-Mem env provider owner effect w e m leased) in
    let is_paused : is_paused_effect caller identities organization p d ≡ true =
      rw
        (
          (str_eq_iff e.policy_id p.id).1 policy,
          (==_iff e.policy_revision p.revision).1 revision,
          same_text_refl (codes "policy_paused"),
        )
        refl in
    let resumed = set_paused-resume caller identities organization id p _ after asked done in
    (
      ap (λ (x : World _ × Result EffectError (Unit {0})). x.0.remote) executed,
      released caller identities organization d,
      resume-Mem caller identities organization p _ after d resumed there is_paused,
      refl,
      refl,
      refl,
      refl,
      refl,
      refl,
    )
