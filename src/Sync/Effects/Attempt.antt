-- ===== src/Sync/Effects/Attempt.antt =====
-- server/src/sync/effects.ts: the body of the `try` of `executeOneLocked`, one function for each
-- operation, and its `catch`.
use planipus.Common.{
  Result, String, Option, none, some, Bool, false, ◌&&◌, ◌==◌, str_eq, if◌then◌else◌, or_else, ok,
  err,
}
use planipus.CalendarSync.Json.{codes}
use planipus.CalendarSync.Events.{DesiredCopy}
use planipus.Sync.Store.{ConnectionStatus, Connection, EffectOperation, Store, update_where}
use planipus.Sync.Provider.{
  ProviderError, EffectError, provider_error, unexpected, ProviderEventLookup, ProviderWriteResult,
  CalendarProvider, World, M, ◌>>=◌, ◌>>◌, give, modify, call, try_catch,
}
use planipus.Sync.Effects.Steps.{
  Env, LeasedEffect, require_desired_copy, succeed, hold_ambiguous, fail,
}
use planipus.Sync.Effects.Missing.{
  Target, managed_event_id, event_belongs_to_projection, ownership_mismatch,
  schedule_replacement_after_missing,
}

-- A text that JavaScript takes for true.
abbrev pub truthy : Option String → Option String
truthy none = none
truthy (some s) = if str_eq s "" then none else some s

-- `error instanceof ProviderError && error.status === 404`
abbrev pub is_not_found : EffectError → Bool
is_not_found (provider_error e) = elim e.status [ none ↦ false | some status ↦ status == 404 ]
is_not_found (unexpected _) = false

abbrev pub is_connection : String → String → Connection → Bool
is_connection organization id c = str_eq c.organization_id organization && str_eq c.id id

module _ (env : Env) (effect : LeasedEffect) (target : Target) where
  abbrev pub event_id : String
  event_id =
      or_else target.destination_event_id
        (managed_event_id env.platform.to_lower_case target.projection_id target.generation)

  unfoldable pub belongs : ProviderEventLookup → Bool
  belongs found =
      event_belongs_to_projection found effect.policy_id target.projection_id target.generation

  -- The event that a deletion names.
  abbrev pub delete_event_id : Option String
  delete_event_id = elim target.destination_event_id [
    | some id ↦ some id
    | none ↦ if effect.ambiguous then some event_id else none
  ]

module _ (env : Env) {R : Type 0} (provider : CalendarProvider R) (owner : String)
    (effect : LeasedEffect) (target : Target) (token : String) where
  unfoldable pub get_event : String → M R (Option ProviderEventLookup)
  get_event id = call (provider.get_event target.provider token target.calendar_remote_id id)

  unfoldable pub update_event : String → Option String → DesiredCopy → M R ProviderWriteResult
  update_event id revision desired =
      call
        (provider.update_event target.provider token target.calendar_remote_id id revision desired)

  unfoldable pub create_event : DesiredCopy → M R ProviderWriteResult
  create_event desired = call (
      provider.create_event target.provider token target.calendar_remote_id
        (event_id env effect target) desired)

  unfoldable pub delete_event : String → Option String → M R (Unit {0})
  delete_event id revision =
      call (provider.delete_event target.provider token target.calendar_remote_id id revision)

  abbrev pub written : ProviderWriteResult → M R (Unit {0})
  written r = succeed env owner effect (some r.remote_event_id) (some r.remote_revision)

  abbrev pub mismatched : M R (Unit {0})
  mismatched = hold_ambiguous env owner effect ownership_mismatch

  -- The event's own revision guards the write.
  unfoldable pub rewrite : ProviderEventLookup → DesiredCopy → M R (Unit {0})
  rewrite found desired = do
    restored ← update_event found.remote_event_id (some found.remote_revision) desired
    written restored

  -- What follows a look at the event that a write is for.
  unfoldable pub if_owned :
      M R (Unit {0})
      → (ProviderEventLookup → M R (Unit {0}))
      → Option ProviderEventLookup
      → M R (Unit {0})
  if_owned missing write none = missing
  if_owned missing write (some found) =
      if belongs env effect target found then write found else mismatched

  abbrev pub replace_missing : M R (Unit {0})
  replace_missing = schedule_replacement_after_missing env owner effect target

  unfoldable pub run_create : M R (Unit {0})
  run_create = do
    desired ← give (require_desired_copy effect.desired_state)
    found ← get_event (event_id env effect target)
    if_owned (if effect.ambiguous then replace_missing else create_event desired >>= written)
        (λ event. rewrite event desired) found

  unfoldable pub look_again : String → DesiredCopy → M R (Unit {0})
  look_again id desired = get_event id >>= if_owned replace_missing (λ event. rewrite event desired)

  -- The inner `try`: an update that finds no event looks again.
  unfoldable pub after_update :
      String
      → DesiredCopy
      → World R
      → Result EffectError ProviderWriteResult
      → World R × Result EffectError (Unit {0})
  after_update id desired w (ok updated) = written updated w
  after_update id desired w (err error) =
      if is_not_found error then look_again id desired w else (w, err error)

  unfoldable pub write_update : String → Option String → DesiredCopy → M R (Unit {0})
  write_update id revision desired w =
      let (after, answer) = update_event id revision desired w in
      after_update id desired after answer

  -- The end of an update, from `if (updateEventId)`.
  unfoldable pub update_or_create : Option String → Option String → DesiredCopy → M R (Unit {0})
  update_or_create none revision desired = create_event desired >>= written
  update_or_create (some id) revision desired = write_update id revision desired

  -- An ambiguous update looks at the event first.
  unfoldable pub update_from : DesiredCopy → Option String → M R (Unit {0})
  update_from desired none = update_or_create none target.destination_etag desired
  update_from desired (some id) =
      if effect.ambiguous
      then get_event id
        >>= if_owned replace_missing (λ event.
          update_or_create (truthy (some event.remote_event_id)) (some event.remote_revision)
            desired)
      else update_or_create (some id) target.destination_etag desired

  unfoldable pub run_update : M R (Unit {0})
  run_update = do
    desired ← give (require_desired_copy effect.desired_state)
    update_from desired (truthy target.destination_event_id)

  unfoldable pub remove : String → Option String → M R (Unit {0})
  remove id revision = do delete_event id revision; succeed env owner effect none none

  unfoldable pub delete_from : Option String → M R (Unit {0})
  delete_from none = succeed env owner effect none none
  delete_from (some id) =
      if effect.ambiguous
      then get_event id
        >>= if_owned (succeed env owner effect none none)
            (λ event. remove id (some event.remote_revision))
      else remove id target.destination_etag

  unfoldable pub run_operation : EffectOperation → M R (Unit {0})
  run_operation EffectOperation.create = run_create
  run_operation EffectOperation.update = run_update
  run_operation EffectOperation.delete = delete_from (truthy (delete_event_id env effect target))

module _ (env : Env) {R : Type 0} (provider : CalendarProvider R) (owner : String)
    (effect : LeasedEffect) (target : Target) where
  -- The body of the `try`.
  unfoldable pub attempt : M R (Unit {0})
  attempt = do
    give (provider.resolve target.provider)
    token ← call (provider.access_token effect.organization_id target.connection_id)
    run_operation env provider owner effect target token effect.operation

  abbrev pub require_action : ProviderError → Store → Store
  require_action error s = record s {
    connections =
        update_where (is_connection effect.organization_id target.connection_id)
          (λ c. record c {
            status = ConnectionStatus.action_required;
            safe_error_code = some (codes error.code);
            updated_at = env.now;
          })
          s.connections;
  }

  -- The `catch`.
  unfoldable pub handle_error : EffectError → M R (Unit {0})
  handle_error (unexpected thrown) = fail env owner effect (unexpected thrown)
  handle_error (provider_error error) =
      if str_eq error.code "precondition_failed"
      then hold_ambiguous env owner effect error
      else if str_eq error.code "provider_auth"
      then modify (require_action error) >> fail env owner effect (provider_error error)
      else fail env owner effect (provider_error error)

  unfoldable pub attempt_write : M R (Unit {0})
  attempt_write = try_catch attempt handle_error
