-- ===== src/Sync/Effects/SettledWrites.antt =====
-- server/src/sync/effects.ts: every write that ends without an error gives up the lease.
use planipus.Common.{
  ◌+◌, String, Option, none, some, false, ◌≡◌, refl, inl, inr, Result, ok, err, Bool-cases, any,
  arith, str_eq,
}
use planipus.CalendarSync.Events.{DesiredCopy}
use planipus.Sync.Store.{Effect, EffectOperation}
use planipus.Sync.Provider.{
  EffectError, provider_error, unexpected, CalendarProvider, ProviderEventLookup,
  ProviderWriteResult, World, M,
}
use planipus.Sync.Effects.Steps.{Env, LeasedEffect, is_held_by}
use planipus.Sync.Effects.Missing.{
  Target, insert_effect, advance_generation, repair_missing, is_other_live, replacement_effect,
  next_generation, schedule_replacement_after_missing,
}
use planipus.Sync.Effects.Attempt.{
  belongs, rewrite, if_owned, run_create, look_again, after_update, write_update, update_or_create,
  update_from, run_update, remove, delete_from, run_operation, attempt, handle_error, attempt_write,
  is_not_found,
}
use planipus.Sync.Effects.Settling.{
  is_held, Settles, LeasesNothing, Settles-later, Settles-first, Settles-if, Settles-try_catch,
  LeasesNothing-bind, is_held_by-not_leased, update_projection-LeasesNothing, audit-LeasesNothing,
  Settles-supersede, Settles-succeed, Settles-hold_ambiguous, Settles-fail,
}

module _ (env : Env) {R : Type 0} (owner : String) (effect : LeasedEffect) (target : Target) where
  insert_effect_free :
      (e : Effect) (w : World R)
      → is_held_by owner effect.id e ≡ false
      → is_held owner effect w.store.effects ≡ false
      → is_held owner effect (insert_effect env owner effect e w).0.store.effects ≡ false
  unfolding insert_effect
  insert_effect_free e w free rest = ground arith

  insert_effect-LeasesNothing :
      (e : Effect)
      → is_held_by owner effect.id e ≡ false
      → LeasesNothing {R = R} owner effect (insert_effect env owner effect e)
  insert_effect-LeasesNothing e free = record {
    none_taken = λ w rest. insert_effect_free e w free rest;
  }

  Settles-advance_generation :
      (desired : DesiredCopy)
      → Settles {R = R} owner effect (advance_generation env owner effect target desired)
  unfolding advance_generation
  Settles-advance_generation desired = Settles-later owner effect _ _ (λ h.
      Settles-later owner effect _ _ (λ k.
        Settles-first owner effect _ _ (Settles-supersede env owner effect _) (λ _.
          LeasesNothing-bind owner effect _ _
            (insert_effect-LeasesNothing _ (
              is_held_by-not_leased owner effect.id
                (replacement_effect env effect (next_generation (target.generation + 1) desired) k)
                refl))
            (λ _.
              LeasesNothing-bind owner effect _ _
                (update_projection-LeasesNothing env owner effect _ _)
                (λ _. audit-LeasesNothing env owner effect _ _ _)))))

  Settles-repair_missing : Settles {R = R} owner effect (repair_missing env owner effect target)
  unfolding repair_missing
  Settles-repair_missing = Settles-later owner effect _ _ (λ desired.
      Settles-later owner effect _ _ (λ own. Settles-later owner effect _ _ (λ _.
        Settles-later owner effect _ _ (λ current. Settles-later owner effect _ _ (λ _.
          Settles-later owner effect _ _
            (λ mine. Settles-later owner effect _ _ (λ _. Settles-advance_generation desired)))))))

  missing_released :
      (w : World R) (u : Unit {0})
      → (schedule_replacement_after_missing env owner effect target w).1 ≡ ok u
      → is_held owner effect
          (schedule_replacement_after_missing env owner effect target w).0.store.effects
        ≡ false
  unfolding schedule_replacement_after_missing
  missing_released w u = elim (Bool-cases (any (is_other_live effect) w.store.effects)) [
    | inl newer ↦ rw newer ((Settles-supersede env owner effect _).released w u)
    | inr last ↦ rw last (Settles-repair_missing.released w u)
  ]

  Settles-missing :
      Settles {R = R} owner effect (schedule_replacement_after_missing env owner effect target)
  Settles-missing = record { released = missing_released }

module _ (env : Env) {R : Type 0} (provider : CalendarProvider R) (owner : String)
    (effect : LeasedEffect) (target : Target) where
  module _ (token : String) where
    Settles-if_owned :
        (missing : M R (Unit {0})) (write : ProviderEventLookup → M R (Unit {0}))
        → Settles owner effect missing
        → ((found : ProviderEventLookup) → Settles owner effect (write found))
        → (found : Option ProviderEventLookup)
        → Settles owner effect (if_owned env provider owner effect target token missing write found)
    unfolding if_owned
    Settles-if_owned missing write p q none = p
    Settles-if_owned missing write p q (some found) =
        Settles-if owner effect (belongs env effect target found) _ _ (q found)
          (Settles-hold_ambiguous env owner effect _)

    Settles-rewrite :
        (found : ProviderEventLookup) (desired : DesiredCopy)
        → Settles owner effect (rewrite env provider owner effect target token found desired)
    unfolding rewrite
    Settles-rewrite found desired =
        Settles-later owner effect _ _ (λ r. Settles-succeed env owner effect _ _)

    Settles-run_create : Settles owner effect (run_create env provider owner effect target token)
    unfolding run_create
    Settles-run_create = Settles-later owner effect _ _ (λ desired.
        Settles-later owner effect _ _ (λ found.
          Settles-if_owned _ _
            (Settles-if owner effect effect.ambiguous _ _ (Settles-missing env owner effect target)
              (Settles-later owner effect _ _ (λ r. Settles-succeed env owner effect _ _)))
            (λ event. Settles-rewrite event desired) found))

    Settles-look_again :
        (id : String) (desired : DesiredCopy)
        → Settles owner effect (look_again env provider owner effect target token id desired)
    unfolding look_again
    Settles-look_again id desired = Settles-later owner effect _ _ (λ found.
        Settles-if_owned _ _ (Settles-missing env owner effect target)
          (λ event. Settles-rewrite event desired) found)

    after_update_released :
        (id : String) (desired : DesiredCopy) (w : World R)
        (answer : Result EffectError ProviderWriteResult) (u : Unit {0})
        → (after_update env provider owner effect target token id desired w answer).1 ≡ ok u
        → is_held owner effect
            (after_update env provider owner effect target token id desired w
              answer).0.store.effects
          ≡ false
    unfolding after_update
    after_update_released id desired w (ok r) u =
        (Settles-succeed env owner effect (some r.remote_event_id)
            (some r.remote_revision)).released
          w u
    after_update_released id desired w (err x) u = elim (Bool-cases (is_not_found x)) [
      | inl gone ↦ rw gone ((Settles-look_again id desired).released w u)
      | inr other ↦ rw other (λ e. absurd (cc e))
    ]

    Settles-write_update :
        (id : String) (revision : Option String) (desired : DesiredCopy)
        → Settles owner effect
            (write_update env provider owner effect target token id revision desired)
    unfolding write_update
    Settles-write_update id revision desired = record {
      released = λ w u. after_update_released id desired _ _ u;
    }

    Settles-update_or_create :
        (id revision : Option String) (desired : DesiredCopy)
        → Settles owner effect
            (update_or_create env provider owner effect target token id revision desired)
    unfolding update_or_create
    Settles-update_or_create none revision desired =
        Settles-later owner effect _ _ (λ r. Settles-succeed env owner effect _ _)
    Settles-update_or_create (some id) revision desired = Settles-write_update id revision desired

    Settles-update_from :
        (desired : DesiredCopy) (id : Option String)
        → Settles owner effect (update_from env provider owner effect target token desired id)
    unfolding update_from
    Settles-update_from desired none = Settles-update_or_create none target.destination_etag desired
    Settles-update_from desired (some id) =
        Settles-if owner effect effect.ambiguous _ _
          (Settles-later owner effect _ _ (λ found.
            Settles-if_owned _ _ (Settles-missing env owner effect target)
              (λ event. Settles-update_or_create _ _ desired) found))
          (Settles-update_or_create (some id) target.destination_etag desired)

    Settles-remove :
        (id : String) (revision : Option String)
        → Settles owner effect (remove env provider owner effect target token id revision)
    unfolding remove
    Settles-remove id revision =
        Settles-later owner effect _ _ (λ _. Settles-succeed env owner effect none none)

    Settles-delete_from :
        (id : Option String)
        → Settles owner effect (delete_from env provider owner effect target token id)
    unfolding delete_from
    Settles-delete_from none = Settles-succeed env owner effect none none
    Settles-delete_from (some id) =
        Settles-if owner effect effect.ambiguous _ _
          (Settles-later owner effect _ _ (λ found.
            Settles-if_owned _ _ (Settles-succeed env owner effect none none)
              (λ event. Settles-remove id (some event.remote_revision)) found))
          (Settles-remove id target.destination_etag)

    Settles-run_operation :
        (operation : EffectOperation)
        → Settles owner effect (run_operation env provider owner effect target token operation)
    unfolding run_operation run_update
    Settles-run_operation EffectOperation.create = Settles-run_create
    Settles-run_operation EffectOperation.update =
        Settles-later owner effect _ _ (λ desired. Settles-update_from desired _)
    Settles-run_operation EffectOperation.delete = Settles-delete_from _

  Settles-handle_error :
      (x : EffectError) → Settles owner effect (handle_error env provider owner effect target x)
  unfolding handle_error
  Settles-handle_error (unexpected thrown) = Settles-fail env owner effect _
  Settles-handle_error (provider_error error) =
      Settles-if owner effect (str_eq error.code "precondition_failed") _ _
        (Settles-hold_ambiguous env owner effect error)
        (Settles-if owner effect (str_eq error.code "provider_auth") _ _
          (Settles-later owner effect _ _
            (λ _. Settles-fail env owner effect (provider_error error)))
          (Settles-fail env owner effect (provider_error error)))

  pub Settles-attempt_write : Settles owner effect (attempt_write env provider owner effect target)
  unfolding attempt_write attempt
  Settles-attempt_write =
      Settles-try_catch owner effect _ _
        (Settles-later owner effect _ _ (λ _.
          Settles-later owner effect _ _ (λ token. Settles-run_operation token effect.operation)))
        Settles-handle_error
