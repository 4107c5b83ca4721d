-- ===== src/Sync/Effects/Lease.antt =====
-- server/src/sync/effects.ts: `lease`.
use planipus.Common.{
  ℕ, ◌+◌, ◌*◌, String, none, some, Bool, true, false, not, ◌&&◌, ◌||◌, List, map, ltb, leb, ◌==◌,
  str_eq, if◌then◌else◌, any, filter, take,
}
use planipus.Common.Sorting.{sort}
use planipus.CalendarSync.Json.{text_le}
use planipus.Jobs.Queue.{JobState, is_leased, is_waiting, is_before}
use planipus.Sync.Store.{Effect, update_where}
use planipus.Sync.Effects.Steps.{LeasedEffect}

-- The first statement of `lease`: a lease that expired may have crossed to the provider.
unfoldable pub release_expired : ℕ → Effect → Effect
release_expired now e =
    if is_leased e.state && is_before e.lease_expires_at now
    then record e {
      state = JobState.retry;
      lease_owner = none;
      lease_expires_at = none;
      ambiguous = true;
      run_after = now;
      updated_at = now;
    }
    else e

abbrev pub is_succeeded : JobState → Bool
is_succeeded JobState.succeeded = true
is_succeeded _ = false

-- `prior` is an unfinished effect of the same projection that was created before.
abbrev pub is_before_effect : Effect → Effect → Bool
is_before_effect prior e =
    ltb prior.created_at e.created_at
    || (prior.created_at == e.created_at && not (text_le e.id prior.id))

abbrev pub is_prior : Effect → Effect → Bool
is_prior e prior =
    str_eq prior.projection_id e.projection_id
    && not (is_succeeded prior.state)
    && is_before_effect prior e

abbrev pub due_le : Effect → Effect → Bool
due_le a b = ltb a.run_after b.run_after || (a.run_after == b.run_after && text_le a.id b.id)

abbrev pub is_next : ℕ → List Effect → Effect → Bool
is_next now effects e = is_waiting e.state && leb e.run_after now && not (any (is_prior e) effects)

unfoldable pub select_next : ℕ → (Effect → Bool) → ℕ → List Effect → List Effect
unfolding sort
select_next now locked limit effects =
    take limit (sort due_le (filter (λ e. is_next now effects e && not (locked e)) effects))

abbrev pub lease_row : String → ℕ → ℕ → Effect → Effect
lease_row owner now lease_ms e = record e {
  state = JobState.leased;
  lease_owner = some owner;
  lease_expires_at = some (now + lease_ms);
  attempt_count = e.attempt_count + 1;
  updated_at = now;
}

abbrev pub leased_effect : Effect → LeasedEffect
leased_effect e = record {
  id = e.id;
  organization_id = e.organization_id;
  policy_id = e.policy_id;
  policy_revision = e.policy_revision;
  projection_id = e.projection_id;
  source_basis_hash = e.source_basis_hash;
  operation = e.operation;
  desired_state = e.desired_state;
  attempt_count = e.attempt_count + 1;
  ambiguous = e.ambiguous;
}

-- `locked` are the rows that other transactions hold.
unfoldable pub lease :
    String → ℕ → (Effect → Bool) → ℕ → ℕ → List Effect → List Effect × List LeasedEffect
unfolding release_expired select_next
lease owner now locked limit lease_seconds effects =
    let freed = map (release_expired now) effects in
    let chosen = select_next now locked limit freed in
    (
      update_where (λ e. any (λ c. str_eq c.id e.id) chosen)
          (lease_row owner now (lease_seconds * 1000)) freed,
      map leased_effect chosen,
    )
