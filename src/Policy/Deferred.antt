-- ===== src/Policy/Deferred.antt =====
-- server/src/sync/effects.ts: the execution of an effect whose policy is paused.
use mathlib.Core.List.{Memᴰ}
use planipus.Common.{
  ◌≡◌, refl, ap, ◌∙◌, ◌+◌, ◌-◌, ◌*◌, String, none, some, true, false, any, any_of_mem, str_eq,
  both_true, Result, ok, err,
}
use planipus.CalendarSync.Json.{codes}
use planipus.Jobs.Queue.{JobState}
use planipus.Sync.Store.{PolicyStatus, Effect, update_where}
use planipus.Sync.Provider.{EffectError, CalendarProvider, World, bind-ok, modify}
use planipus.Sync.Effects.Steps.{Env, LeasedEffect, is_held_by, update_effect, defer, audit}
use planipus.Sync.Effects.Rows.{PolicyRow, find_policy, effect_policy_execution_disposition}
use planipus.Sync.Effects.Execute.{
  execute_disposed, execute_policy, execute_one_locked, execute_one,
}
use planipus.Sync.Effects.Settled.{holds_lease}
use planipus.Sync.Reconcile.Updating.{mem-update_where}

module _ (env : Env) {R : Type 0} (provider : CalendarProvider R) (owner : String)
    (effect : LeasedEffect) where
  -- The effect that a pause puts off for a day.
  abbrev pub deferred : Effect → Effect
  deferred e = record e {
    state = JobState.retry;
    attempt_count = e.attempt_count - 1;
    lease_owner = none;
    lease_expires_at = none;
    run_after = env.now + 24 * 60 * 60000;
    ambiguous = false;
    safe_error_code = some (codes "policy_paused");
    updated_at = env.now;
  }

  update_effect-held :
      (set : Effect → Effect) (w : World R)
      → any (is_held_by owner effect.id) w.store.effects ≡ true
      → update_effect env owner effect.id set w ≡ (
        record w {
          store = record (w.store) {
            effects = update_where (is_held_by owner effect.id) set w.store.effects;
          };
        },
        ok tt,
      )
  unfolding update_effect
  update_effect-held set w held = rw held refl

  -- The store after an effect was put off.
  abbrev pub put_off : World R → World R
  put_off w =
      (audit env effect "copy.deferred" "policy_paused" none (record w {
        store = record (w.store) {
          effects = update_where (is_held_by owner effect.id) deferred w.store.effects;
        };
      })).0

  defer-paused :
      (w : World R)
      → any (is_held_by owner effect.id) w.store.effects ≡ true
      → defer env owner effect "policy_paused" w ≡ (put_off w, ok tt)
  unfolding defer audit modify
  defer-paused w held =
      bind-ok (update_effect env owner effect.id deferred)
        (λ _. audit env effect "copy.deferred" "policy_paused" none) w
        (update_effect-held deferred w held)

  execute_policy-paused :
      (row : PolicyRow) (w : World R)
      → row.policy.status ≡ PolicyStatus.paused
      → execute_policy env provider owner effect (some row) w
        ≡ defer env owner effect "policy_paused" w
  unfolding execute_policy execute_disposed effect_policy_execution_disposition
  execute_policy-paused row w paused = rw (execute_policy, paused) refl

  pub execute_one-paused :
      (w : World R) (row : PolicyRow) (e : Effect)
      → find_policy effect w.store ≡ some row
      → row.policy.status ≡ PolicyStatus.paused
      → Memᴰ e w.store.effects
      → holds_lease env provider owner effect e ≡ true
      → execute_one env provider owner effect w ≡ (put_off w, ok tt)
  unfolding execute_one execute_one_locked
  execute_one-paused w row e found paused m leased =
      let held = (both_true (str_eq e.organization_id effect.organization_id) _ leased).1 in
      let first = any_of_mem (holds_lease env provider owner effect) w.store.effects m leased in
      let second = any_of_mem (is_held_by owner effect.id) w.store.effects m held in
      let locked : execute_one_locked env provider owner effect w ≡ (put_off w, ok tt) =
        rw (first, found) (execute_policy-paused row w paused ∙ defer-paused w second) in
      ap
        (λ (out : World R × Result EffectError (Unit {0})). elim out.1 [
          | ok u ↦ (out.0, ok u)
          | err error ↦ (record (out.0) { store = w.store }, err error)
        ])
        locked

  pub put_off-Mem :
      (w : World R) (e : Effect)
      → Memᴰ e w.store.effects
      → holds_lease env provider owner effect e ≡ true
      → Memᴰ (deferred e) (put_off w).store.effects
  unfolding audit modify
  put_off-Mem w e m leased =
      let held = (both_true (str_eq e.organization_id effect.organization_id) _ leased).1 in
      mem-update_where (is_held_by owner effect.id) deferred w.store.effects m held
