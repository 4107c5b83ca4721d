-- ===== src/Policy/Evidence.antt =====
-- server/src/policy/service.ts: the rows that `retryBlocked` reads, and its tests of a blocked copy.
use planipus.Common.{
  ℕ, String, Option, none, some, Bool, true, false, not, ◌&&◌, ◌||◌, ◌==◌, leb, List, filter, take,
  any, find, is_some, str_eq, opt_str_eq, if◌then◌else◌, Result, ok, ◌>>=◌,
}
use planipus.Common.Sorting.{sort}
use planipus.CalendarSync.Events.{DesiredCopy}
use planipus.Sync.Store.{
  EffectOperation, StoredCopy, document, malformed, ProjectionStatus, Projection, Effect,
  Observation, Policy, Store,
}
use planipus.Sync.Provider.{EffectError}
use planipus.Sync.Effects.Missing.{hash_copy, has_hash}
use planipus.Sync.Effects.Rows.{source_observation_basis_hash}
use planipus.Sync.Reconcile.Projecting.{is_ambiguous_copy, is_held_status}
use planipus.Sync.Reconcile.Observe.{is_dead_state, created_le, first_of}
use planipus.Sync.Notices.Reads.{names_row}
use planipus.Policy.Requests.{Caller}

abbrev pub is_failed_status : ProjectionStatus → Bool
is_failed_status ProjectionStatus.failed = true
is_failed_status _ = false

abbrev pub updated_le : Projection → Projection → Bool
updated_le a b = leb a.updated_at b.updated_at

abbrev pub max_retried : ℕ
max_retried = 100

-- `dead.source_basis_hash === projection.source_basis_hash`, and `=== currentSourceBasisHash`.
abbrev pub source_basis_matches : Option String → Option String → Option String → Bool
source_basis_matches (some current) (some dead) (some stored) =
    str_eq dead stored && str_eq dead current
source_basis_matches _ _ _ = false

module _ (caller : Caller) (organization : String) where
  abbrev pub has_dead : Store → Projection → Bool
  has_dead s q =
      any
        (λ e.
          str_eq e.organization_id q.organization_id
          && str_eq e.projection_id q.id
          && is_dead_state e.state)
        s.effects

  abbrev pub is_blocked : String → Store → Projection → Bool
  is_blocked id s q =
      str_eq q.organization_id organization
      && (str_eq q.policy_id id
          && (is_held_status q.status || is_failed_status q.status || has_dead s q))

  unfoldable pub blocked_rows : String → Store → List Projection
  unfolding sort
  blocked_rows id s = take max_retried (sort updated_le (filter (is_blocked id s) s.projections))

  abbrev pub is_dead_of : Projection → Effect → Bool
  is_dead_of q e =
      str_eq e.organization_id organization
      && (str_eq e.projection_id q.id && is_dead_state e.state)

  unfoldable pub first_dead : Projection → Store → Option Effect
  unfolding sort
  first_dead q s = first_of (sort created_le (filter (is_dead_of q) s.effects))

  abbrev pub current_source : Projection → Store → Option Observation
  current_source q s =
      find (λ o. str_eq o.organization_id organization && str_eq o.id q.source_observation_id)
        s.observations

  -- `currentSourceBasisHash`
  unfoldable pub source_basis : Projection → Store → Result EffectError (Option String)
  source_basis q s = elim (current_source q s) [
    | none ↦ ok none
    | some o ↦
        source_observation_basis_hash caller.env.platform o.observation_hash o.tombstone >>= λ hash.
        ok (some hash)
  ]

  -- The hash of what a row has stored.
  abbrev pub stored_hash : Projection → StoredCopy → Result EffectError String
  stored_hash q (document desired) = hash_copy caller.env desired
  stored_hash q malformed = caller.other_hash q

  -- The hash of the effect's copy, and then the one of the row's, is the row's hash.
  abbrev pub both_hash : Projection → DesiredCopy → StoredCopy → String → Result EffectError Bool
  both_hash q desired stored hash = hash_copy caller.env desired >>= λ sent.
      if str_eq sent hash
      then (stored_hash q stored >>= λ kept. ok (str_eq kept hash))
      else ok false

  abbrev pub copies_match :
      Policy
      → Projection
      → Option StoredCopy
      → Option String
      → Option StoredCopy
      → Result EffectError Bool
  copies_match p q (some (document desired)) (some hash) (some stored) =
      if names_row p q desired then both_hash q desired stored hash else ok false
  copies_match p q _ _ _ = ok false

  -- `deadPayloadMatches`
  unfoldable pub payload_matches : Policy → Projection → Effect → Result EffectError Bool
  payload_matches p q dead = elim dead.operation [
    | EffectOperation.delete ↦ ok (not (is_some q.desired_hash) && not (is_some q.desired_state))
    | EffectOperation.create ↦ copies_match p q dead.desired_state q.desired_hash q.desired_state
    | EffectOperation.update ↦ copies_match p q dead.desired_state q.desired_hash q.desired_state
  ]

  -- The row has the evidence for the operation that waits.
  unfoldable pub has_evidence : Policy → Projection → EffectOperation → Result EffectError Bool
  has_evidence p q EffectOperation.delete =
      ok (not (is_some q.desired_hash) && not (is_some q.desired_state))
  has_evidence p q operation = elim q.desired_state [
    | none ↦ ok false
    | some stored ↦ elim stored [
      | malformed ↦ ok false
      | document desired ↦
          if has_hash q.desired_hash && names_row p q desired
          then (hash_copy caller.env desired >>= λ hash. ok (opt_str_eq q.desired_hash (some hash)))
          else ok false
    ]
  ]

  -- The row waits for an operation, of the policy's revision. Where no dead effect was superseded, the row
  -- is held because its ownership is ambiguous.
  abbrev pub waits_for : Policy → Projection → Option Effect → Option EffectOperation
  waits_for p q superseded =
      if not (is_some superseded) && not (is_held_status q.status && is_ambiguous_copy q.ownership)
      then none
      else if q.policy_revision == p.revision
      then q.recovery_operation
      else none
