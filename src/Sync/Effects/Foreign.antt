-- ===== src/Sync/Effects/Foreign.antt =====
-- server/src/sync/effects.ts: events at the destination that are not the projection's own.
use planipus.Common.{
  inr, err, inl, any, ◌⊎◌, map, ap, ◌∙◌, String, Option, none, some, Bool, true, false, ◌≡◌, refl,
  Result, ok, if◌then◌else◌,
}
use planipus.CalendarSync.Events.{DesiredCopy}
use planipus.Sync.Store.{
  Projection, Effect, update_where, EffectOperation, ProjectionStatus, CopyOwnership,
}
use planipus.Jobs.Queue.{JobState}
use planipus.CalendarSync.Json.{codes}
use planipus.Sync.Provider.{
  modify, bind-ok, give-bind-ok, EffectError, CalendarProvider, ProviderEventLookup, World, M,
  ◌>>=◌, call,
}
use planipus.Sync.Effects.Steps.{
  held_projection, set_projection, is_projection, audit, is_held_by, update_projection,
  update_effect, Env, LeasedEffect, require_desired_copy, hold_ambiguous,
}
use planipus.Sync.Effects.Missing.{Target, ownership_mismatch}
use planipus.Sync.Effects.Attempt.{
  look_again, after_update, is_not_found, replace_missing, update_event, write_update,
  update_or_create, truthy, event_id, delete_event_id, belongs, get_event, if_owned, run_create,
  update_from, run_update, delete_from, run_operation,
}

-- The event that is looked at before the write.
abbrev pub checked_id : Env → LeasedEffect → Target → EffectOperation → Option String
checked_id env effect target EffectOperation.create = some (event_id env effect target)
checked_id env effect target EffectOperation.update =
    if effect.ambiguous then truthy target.destination_event_id else none
checked_id env effect target EffectOperation.delete =
    if effect.ambiguous then truthy (delete_event_id env effect target) else none

-- What is written, where something is: a deletion has no copy.
abbrev pub HasCopy : LeasedEffect → EffectOperation → Type 0
HasCopy effect EffectOperation.delete = Unit
HasCopy effect _ =
    (desired : DesiredCopy) × (require_desired_copy effect.desired_state ≡ ok desired)

if_some :
    {A : Type 0} (b : Bool) (o : Option A) {x : A}
    → (if b then o else none) ≡ some x
    → (b ≡ true) × (o ≡ some x)
if_some true o e = (refl, e)
if_some false o e = absurd (cc e)

if_then_at :
    {R A : Type 0} (b : Bool) (m n : M R A) (w : World R) → b ≡ true → (if b then m else n) w ≡ m w
if_then_at true m n w e = refl
if_then_at false m n w e = absurd (cc e)

if_else_at :
    {R A : Type 0} (b : Bool) (m n : M R A) (w : World R) → b ≡ false → (if b then m else n) w ≡ n w
if_else_at false m n w e = refl
if_else_at true m n w e = absurd (cc e)

module _ (env : Env) {R : Type 0} (provider : CalendarProvider R) (owner : String)
    (effect : LeasedEffect) (target : Target) (token : String) (w : World R)
    (found : ProviderEventLookup) (seen : R)
    (foreign : belongs env effect target found ≡ false) where
  -- The read of the event, from the provider's state `r`, finds the foreign event.
  abbrev pub Looks : R → String → Type 0
  Looks r id =
      provider.get_event target.provider token target.calendar_remote_id id r
      ≡ (seen, ok (some found))

  -- The write of the event, from the provider's state `r`, finds none, and the read after it finds the
  -- foreign event.
  abbrev pub Misses : R → String → Option String → DesiredCopy → Type 0
  Misses r id revision desired =
      (mid : R) × (error : EffectError) × (provider.update_event target.provider token
          target.calendar_remote_id id revision desired r
        ≡ (mid, err error))
      × (is_not_found error ≡ true)
      × Looks mid id

  -- An update whose first read, if it is ambiguous, finds an event of the projection's own.
  abbrev pub MissesUpdate : DesiredCopy → String → Type 0
  MissesUpdate desired id =
      ((effect.ambiguous ≡ false) × Misses w.remote id target.destination_etag desired)
      ⊎ ((effect.ambiguous ≡ true)
          × ((own : ProviderEventLookup) × (r : R) × (again : String) × (provider.get_event
                  target.provider token target.calendar_remote_id id w.remote
                ≡ (r, ok (some own)))
              × (belongs env effect target own ≡ true)
              × (truthy (some own.remote_event_id) ≡ some again)
              × Misses r again (some own.remote_revision) desired))

  -- The ways in which an operation meets the foreign event: it looks before it writes, or it is an
  -- update that finds its event gone and looks again.
  abbrev pub Meets : EffectOperation → Type 0
  Meets operation =
      ((id : String) × (checked_id env effect target operation ≡ some id)
        × HasCopy effect operation
        × Looks w.remote id)
      ⊎ ((operation ≡ EffectOperation.update)
          × ((id : String) × (desired : DesiredCopy) × (truthy target.destination_event_id
                ≡ some id)
              × (require_desired_copy effect.desired_state ≡ ok desired)
              × MissesUpdate desired id))

  -- The provider is as the look left it; the effect waits for a decision, without its lease; the row
  -- is held, with an unclear owner; no other effect or row has changed.
  pub record IsHeldBack (out : World R × Result EffectError (Unit {0})) : Type 0 where
    pub answered : out.1 ≡ ok tt
    pub unwritten : out.0.remote ≡ seen
    pub effects :
        out.0.store.effects
        ≡ map
            (λ e.
              if is_held_by owner effect.id e
              then record e {
                state = JobState.dead;
                lease_owner = none;
                lease_expires_at = none;
                ambiguous = true;
                safe_error_code = some (codes "ownership_mismatch");
                updated_at = env.now;
              }
              else e)
            w.store.effects
    pub projections :
        out.0.store.projections
        ≡ map
            (λ q.
              if is_projection effect.projection_id q
              then record q {
                ownership = CopyOwnership.ambiguous;
                status = ProjectionStatus.held;
                safe_error_code = some (codes "ownership_mismatch");
                updated_at = env.now;
              }
              else q)
            w.store.projections

  abbrev held_back : World R × Result EffectError (Unit {0})
  held_back = hold_ambiguous env owner effect ownership_mismatch (record w { remote = seen })

  seen_event :
      (r : R) (id : String)
      → Looks r id
      → get_event env provider owner effect target token id (record w { remote = r })
        ≡ (record w { remote = seen }, ok (some found))
  unfolding get_event call
  seen_event r id look = ap (λ x. (record w { remote = x.0 }, x.1)) look

  looked :
      (r : R) (id : String) (missing : M R (Unit {0}))
      (write : ProviderEventLookup → M R (Unit {0}))
      → Looks r id
      → (get_event env provider owner effect target token id
            >>= if_owned env provider owner effect target token missing write)
          (record w { remote = r })
        ≡ held_back
  unfolding if_owned
  looked r id missing write look =
      bind-ok (get_event env provider owner effect target token id) _ (record w { remote = r })
        (seen_event r id look)
      ∙ rw foreign refl

  create_held_back :
      (desired : DesiredCopy)
      → require_desired_copy effect.desired_state ≡ ok desired
      → Looks w.remote (event_id env effect target)
      → run_create env provider owner effect target token w ≡ held_back
  unfolding run_create
  create_held_back desired has look = give-bind-ok _ w has ∙ looked w.remote _ _ _ look

  update_held_back :
      (desired : DesiredCopy) (id : String) (o : Option String)
      → effect.ambiguous ≡ true
      → o ≡ some id
      → Looks w.remote id
      → update_from env provider owner effect target token desired o w ≡ held_back
  unfolding update_from
  update_held_back desired id none sure e look = absurd (cc e)
  update_held_back desired id (some j) sure e look =
      let same : j ≡ id = cc e in
      if_then_at effect.ambiguous _ _ w sure ∙ looked w.remote j _ _ (rw same look)

  delete_held_back :
      (id : String) (o : Option String)
      → effect.ambiguous ≡ true
      → o ≡ some id
      → Looks w.remote id
      → delete_from env provider owner effect target token o w ≡ held_back
  unfolding delete_from
  delete_held_back id none sure e look = absurd (cc e)
  delete_held_back id (some j) sure e look =
      let same : j ≡ id = cc e in
      if_then_at effect.ambiguous _ _ w sure ∙ looked w.remote j _ _ (rw same look)

  own_event :
      (r : R) (id : String) (own : ProviderEventLookup)
      → provider.get_event target.provider token target.calendar_remote_id id w.remote
        ≡ (r, ok (some own))
      → get_event env provider owner effect target token id w
        ≡ (record w { remote = r }, ok (some own))
  unfolding get_event call
  own_event r id own look = ap (λ x. (record w { remote = x.0 }, x.1)) look

  missed_event :
      (r : R) (id : String) (revision : Option String) (desired : DesiredCopy)
      → Misses r id revision desired
      → write_update env provider owner effect target token id revision desired
          (record w { remote = r })
        ≡ held_back
  unfolding write_update update_event call after_update look_again
  missed_event r id revision desired (mid, error, failed, gone, look) =
      ap
        (λ x.
          after_update env provider owner effect target token id desired (record w { remote = x.0 })
            x.1)
        failed
      ∙ rw gone (looked mid id _ _ look)

  own_write :
      (r : R) (desired : DesiredCopy) (own : ProviderEventLookup) (again : String)
      → belongs env effect target own ≡ true
      → truthy (some own.remote_event_id) ≡ some again
      → Misses r again (some own.remote_revision) desired
      → if_owned env provider owner effect target token
          (replace_missing env provider owner effect target token)
          (λ event.
            update_or_create env provider owner effect target token
              (truthy (some event.remote_event_id))
              (some event.remote_revision)
              desired)
          (some own)
          (record w { remote = r })
        ≡ held_back
  unfolding if_owned update_or_create
  own_write r desired own again owned named misses =
      rw (owned, named) (missed_event r again (some own.remote_revision) desired misses)

  missed_held_back :
      (desired : DesiredCopy) (id : String) (o : Option String)
      → o ≡ some id
      → MissesUpdate desired id
      → update_from env provider owner effect target token desired o w ≡ held_back
  unfolding update_from update_or_create
  missed_held_back desired id none e misses = absurd (cc e)
  missed_held_back desired id (some j) e (inl (sure, misses)) =
      let same : j ≡ id = cc e in
      if_else_at effect.ambiguous _ _ w sure
      ∙ missed_event w.remote j target.destination_etag desired (rw same misses)
  missed_held_back desired id (some j) e (inr (sure, (own, r, again, look, owned, named, misses))) =
      let same : j ≡ id = cc e in
      let first : get_event env provider owner effect target token j w
          ≡ (record w { remote = r }, ok (some own)) =
        own_event r j own (rw same look) in
      if_then_at effect.ambiguous _ _ w sure
      ∙ bind-ok (get_event env provider owner effect target token j) _ w first
      ∙ own_write r desired own again owned named misses

  run_held_back :
      (operation : EffectOperation) (id : String)
      → checked_id env effect target operation ≡ some id
      → HasCopy effect operation
      → Looks w.remote id
      → run_operation env provider owner effect target token operation w ≡ held_back
  unfolding run_operation run_update
  run_held_back EffectOperation.create id e (desired, has) look =
      let same : event_id env effect target ≡ id = cc e in
      create_held_back desired has (rw same look)
  run_held_back EffectOperation.update id e (desired, has) look =
      let (sure, named) = if_some effect.ambiguous _ e in
      give-bind-ok _ w has ∙ update_held_back desired id _ sure named look
  run_held_back EffectOperation.delete id e has look =
      let (sure, named) = if_some effect.ambiguous _ e in delete_held_back id _ sure named look

  operation_held_back :
      (operation : EffectOperation)
      → Meets operation
      → run_operation env provider owner effect target token operation w ≡ held_back
  unfolding run_operation run_update
  operation_held_back operation (inl (id, checked, copy, look)) =
      run_held_back operation id checked copy look
  operation_held_back operation (inr (updates, (id, desired, named, has, misses))) =
      rw updates (give-bind-ok _ w has ∙ missed_held_back desired id _ named misses)

  update_effect-leased :
      (set : Effect → Effect) (v : World R)
      → any (is_held_by owner effect.id) v.store.effects ≡ true
      → update_effect env owner effect.id set v ≡ (
        record v {
          store = record (v.store) {
            effects = update_where (is_held_by owner effect.id) set v.store.effects;
          };
        },
        ok tt,
      )
  unfolding update_effect
  update_effect-leased set v leased = rw leased refl

  update_projection-present :
      (set : Projection → Projection) (v : World R)
      → any (is_projection effect.projection_id) v.store.projections ≡ true
      → update_projection env effect.projection_id set v
        ≡ (record v { store = set_projection effect.projection_id set v.store }, ok tt)
  unfolding update_projection
  update_projection-present set v present = rw present refl

  abbrev put_down : Effect → Effect
  put_down e = record e {
    state = JobState.dead;
    lease_owner = none;
    lease_expires_at = none;
    ambiguous = true;
    safe_error_code = some (codes "ownership_mismatch");
    updated_at = env.now;
  }

  -- The world after the statement on the effect, and after the one on the row.
  abbrev released : World R
  released = record {
    store = record (w.store) {
      effects = update_where (is_held_by owner effect.id) put_down w.store.effects;
    };
    remote = seen;
  }

  abbrev set_aside : World R
  set_aside = record released {
    store =
        set_projection effect.projection_id (held_projection env ownership_mismatch) released.store;
  }

  hold-IsHeldBack :
      any (is_held_by owner effect.id) w.store.effects ≡ true
      → any (is_projection effect.projection_id) w.store.projections ≡ true
      → IsHeldBack held_back
  unfolding hold_ambiguous audit modify
  hold-IsHeldBack leased present =
      let done : held_back
          ≡ audit env effect "copy.held" "destination_ownership_mismatch" none set_aside =
        bind-ok (update_effect env owner effect.id put_down) _ (record w { remote = seen })
          (update_effect-leased put_down (record w { remote = seen }) leased)
        ∙ bind-ok
            (update_projection env effect.projection_id (held_projection env ownership_mismatch)) _
            released
            (update_projection-present (held_projection env ownership_mismatch) released present) in
      rw done (record { answered = refl; unwritten = refl; effects = refl; projections = refl })

  -- Where the effect holds its lease and its row is there: an operation that meets an event that is not
  -- the projection's own, where it looks before it writes or looks again after an update that found no
  -- event, writes nothing more. The provider stays as the look left it, the effect is dead and ambiguous
  -- without its lease, and the row is held with an unclear owner, both with the code
  -- `ownership_mismatch`; every other effect and row stays.
  pub run_operation-foreign :
      (operation : EffectOperation)
      → any (is_held_by owner effect.id) w.store.effects ≡ true
      → any (is_projection effect.projection_id) w.store.projections ≡ true
      → Meets operation
      → IsHeldBack (run_operation env provider owner effect target token operation w)
  run_operation-foreign operation leased present meets =
      rw (operation_held_back operation meets) (hold-IsHeldBack leased present)
