-- ===== src/Policy/Current.antt =====
-- server/src/policy/service.ts: what `retryBlocked` may send again, and how the effects change in it.
use mathlib.Core.List.{Memᴰ}
use planipus.Common.{
  Bool-cases, ◌≡◌, refl, sym, ◌∙◌, ◌⊎◌, inl, inr, String, some, true, false, List, ok, bind-eq-ok,
  Option-cases,
}
use planipus.Jobs.Queue.{JobState, is_waiting}
use planipus.Sync.Store.{Projection, Effect, Observation, Policy, Store}
use planipus.Sync.Effects.Rows.{source_observation_basis_hash}
use planipus.Sync.Reconcile.Observe.{is_dead_state}
use planipus.Sync.Reconcile.Updating.{mem-find}
use planipus.Policy.Requests.{Caller}
use planipus.Policy.Evidence.{current_source, source_basis}

-- The dead effects of a store have ids of their own.
abbrev pub IsUnique : Store → Type 0
IsUnique s =
    (a b : Effect)
    → Memᴰ a s.effects
    → Memᴰ b s.effects
    → is_dead_state a.state ≡ true
    → is_dead_state b.state ≡ true
    → a.id ≡ b.id
    → a ≡ b

waiting_not_dead : (state : JobState) → is_waiting state ≡ true → is_dead_state state ≡ false
waiting_not_dead JobState.pending e = refl
waiting_not_dead JobState.retry e = refl
waiting_not_dead JobState.leased e = absurd (cc e)
waiting_not_dead JobState.succeeded e = absurd (cc e)
waiting_not_dead JobState.dead e = absurd (cc e)

module _ (caller : Caller) (organization : String) (p : Policy) where
  -- The basis is the one that a source has now.
  abbrev pub IsSourced : List Observation → String → Type 0
  IsSourced observations basis =
      (o : Observation) × Memᴰ o observations
      × (source_observation_basis_hash caller.env.platform o.observation_hash o.tombstone
          ≡ ok basis)

  -- A waiting effect that the executor looks at the destination for before it writes, of the policy's
  -- revision and with the basis that its source has now.
  pub record IsCurrent (observations : List Observation) (e : Effect) : Type 0 where
    pub basis : String
    pub sourced : IsSourced observations basis
    pub stored : e.source_basis_hash ≡ some basis
    pub revision : e.policy_revision ≡ p.revision
    pub ambiguous : e.ambiguous ≡ true
    pub waiting : is_waiting e.state ≡ true

  abbrev pub IsSafe : List Observation → Effect → Type 0
  IsSafe observations e = (e.state ≡ JobState.succeeded) ⊎ IsCurrent observations e

  pub record Advances (s after : Store) : Type 0 where
    pub kept : (e : Effect) → Memᴰ e after.effects → Memᴰ e s.effects ⊎ IsSafe s.observations e
    pub observations : after.observations ≡ s.observations

  pub safe_not_dead :
      (observations : List Observation) (e : Effect)
      → IsSafe observations e
      → is_dead_state e.state ≡ false
  safe_not_dead observations e (inl done) = rw done refl
  safe_not_dead observations e (inr current) = waiting_not_dead e.state current.waiting

  pub Advances-same :
      (s after : Store)
      → after.effects ≡ s.effects
      → after.observations ≡ s.observations
      → Advances s after
  Advances-same s after effects observations = record {
    kept = λ e m. let i : Memᴰ e s.effects = rw effects at m in inl i;
    observations = observations;
  }

  pub Advances-trans :
      (s middle after : Store) → Advances s middle → Advances middle after → Advances s after
  Advances-trans s middle after first second = record {
    kept = λ e m. elim (second.kept e m) [
      | inl i ↦ first.kept e i
      | inr safe ↦ let still : IsSafe s.observations e = rw first.observations at safe in inr still
    ];
    observations = second.observations ∙ first.observations;
  }

  dead-before :
      (s after : Store) (e : Effect)
      → Advances s after
      → Memᴰ e after.effects
      → is_dead_state e.state ≡ true
      → Memᴰ e s.effects
  dead-before s after e step m dead = elim (step.kept e m) [
    | inl i ↦ i
    | inr safe ↦ absurd (cc (sym dead ∙ safe_not_dead s.observations e safe))
  ]

  pub Advances-IsUnique : (s after : Store) → Advances s after → IsUnique s → IsUnique after
  Advances-IsUnique s after step unique a b m n dead dead_too same =
      unique a b (dead-before s after a step m dead) (dead-before s after b step n dead_too) dead
        dead_too same

  pub source_basis-IsSourced :
      (q : Projection) (s : Store) (basis : String)
      → source_basis caller organization q s ≡ ok (some basis)
      → IsSourced s.observations basis
  unfolding source_basis
  source_basis-IsSourced q s basis e =
      elim (Option-cases (current_source caller organization q s)) [
        | inl gone ↦ absurd (cc (rw (gone, source_basis) at e))
        | inr (o, found) ↦
            let (hash, read, last) =
              bind-eq-ok
                (source_observation_basis_hash caller.env.platform o.observation_hash o.tombstone)
                (λ hash. ok (some hash)) (rw (found, source_basis) at e) in
            let same : hash ≡ basis = cc last in
            (o, mem-find _ s.observations found, rw same at read)
      ]

  -- No effect of the id is dead.
  abbrev pub IsUnblocked : String → Store → Type 0
  IsUnblocked id s = (e : Effect) → Memᴰ e s.effects → e.id ≡ id → is_dead_state e.state ≡ false

  pub Advances-IsUnblocked :
      (s after : Store) (id : String) → Advances s after → IsUnblocked id s → IsUnblocked id after
  Advances-IsUnblocked s after id step free e m same = elim (Bool-cases (is_dead_state e.state)) [
    | inl dead ↦ free e (dead-before s after e step m dead) same
    | inr alive ↦ alive
  ]
