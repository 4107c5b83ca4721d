-- ===== src/Sync/Effects/Remote.antt =====
-- server/src/sync/effects.ts: when the executor may reach the provider.
use planipus.Common.{
  ℕ, String, Option, none, some, true, ◌≡◌, refl, ◌∙◌, ap, ◌⊎◌, inl, inr, ok, Bool-cases, any,
  both_true, str_eq, opt_str_eq, str_eq_iff, ◌&&◌, Result-cases, arith,
}
use planipus.CalendarSync.Platform.{Platform}
use planipus.Sync.Store.{Store, PolicyStatus, Projection, Effect}
use planipus.Sync.Provider.{
  give-bind-ok, give-bind-err, EffectError, provider_error, CalendarProvider, World, M, ◌>>=◌, ◌>>◌,
  give, modify,
}
use planipus.Sync.Effects.Steps.{
  Env, LeasedEffect, is_held_by, update_effect, update_projection, audit, defer, supersede, fail,
}
use planipus.Sync.Effects.Rows.{
  EffectPolicyExecutionDisposition, execute, defer_paused, defer_revision, supersede_deleted,
  effect_policy_execution_disposition, PolicyRow, find_policy, authorizes_copying, TargetRow,
  find_target, is_available, source_observation_basis_hash, is_current_basis,
  connection_role_changed, mark_role_changed,
}
use planipus.Sync.Effects.Execute.{
  drop_stale, execute_current, execute_target, execute_disposed, execute_policy, execute_one_locked,
  execute_one,
}

-- A program that does not reach the provider.
pub record KeepsRemote {R A : Type 0} (m : M R A) : Type 0 where
  pub same : (w : World R) → (m w).0.remote ≡ w.remote

module _ {R A B : Type 0} (m : M R A) (f : A → M R B) where
  bind_remote :
      KeepsRemote m
      → ((a : A) → KeepsRemote (f a))
      → (w : World R) → ((m >>= f) w).0.remote ≡ w.remote
  unfolding ◌>>=◌
  bind_remote keeps next w = elim (Result-cases (m w).1) [
    | inl (a, e) ↦ rw (e, ◌>>=◌) ((next a).same (m w).0 ∙ keeps.same w)
    | inr (x, e) ↦ rw (e, ◌>>=◌) (keeps.same w)
  ]

  KeepsRemote-bind : KeepsRemote m → ((a : A) → KeepsRemote (f a)) → KeepsRemote (m >>= f)
  KeepsRemote-bind keeps next = record { same = bind_remote keeps next }

modify-KeepsRemote : {R : Type 0} (f : Store → Store) → KeepsRemote {R = R} (modify f)
unfolding modify
modify-KeepsRemote f = record { same = λ w. refl }

module _ (env : Env) {R : Type 0} (owner : String) (effect : LeasedEffect) where
  update_effect-KeepsRemote :
      (id : String) (set : Effect → Effect) → KeepsRemote {R = R} (update_effect env owner id set)
  unfolding update_effect
  update_effect-KeepsRemote id set = record { same = λ w. ground arith }

  update_projection-KeepsRemote :
      (id : String) (set : Projection → Projection)
      → KeepsRemote {R = R} (update_projection env id set)
  unfolding update_projection
  update_projection-KeepsRemote id set = record { same = λ w. ground arith }

  defer-KeepsRemote : (reason : String) → KeepsRemote {R = R} (defer env owner effect reason)
  unfolding defer audit
  defer-KeepsRemote reason =
      KeepsRemote-bind _ _ (update_effect-KeepsRemote _ _) (λ _. modify-KeepsRemote _)

  supersede-KeepsRemote :
      (reason : String) → KeepsRemote {R = R} (supersede env owner effect reason)
  unfolding supersede audit
  supersede-KeepsRemote reason =
      KeepsRemote-bind _ _ (update_effect-KeepsRemote _ _) (λ _. modify-KeepsRemote _)

  fail-KeepsRemote : (error : EffectError) → KeepsRemote {R = R} (fail env owner effect error)
  unfolding fail
  fail-KeepsRemote error =
      KeepsRemote-bind _ _ (update_effect-KeepsRemote _ _) (λ _. modify-KeepsRemote _)

  drop_stale-KeepsRemote :
      (provider : CalendarProvider R) → KeepsRemote (drop_stale env provider owner effect)
  unfolding drop_stale
  drop_stale-KeepsRemote provider =
      KeepsRemote-bind _ _ (supersede-KeepsRemote _)
        (λ _. KeepsRemote-bind _ _ (update_projection-KeepsRemote _ _) (λ _. modify-KeepsRemote _))

-- What allows a write: the worker holds the lease; the policy is active, at the effect's revision, and
-- its source may be copied; the destination is connected and writable; and the basis of the effect is
-- that of the projection and of the source as it stands.
pub record IsAuthorized (p : Platform) (owner : String) (effect : LeasedEffect) (s : Store)
    : Type 0 where
  pub policy : PolicyRow
  pub found_policy : find_policy effect s ≡ some policy
  pub held :
      any
        (λ e. str_eq e.organization_id effect.organization_id && is_held_by owner effect.id e)
        s.effects
      ≡ true
  pub is_active : policy.policy.status ≡ PolicyStatus.active
  pub same_revision : policy.policy.revision ≡ effect.policy_revision
  pub copying : authorizes_copying policy ≡ true
  pub target : TargetRow
  pub found_target : find_target effect s ≡ some target
  pub available : is_available effect target ≡ true
  pub basis : String
  pub has_basis : effect.source_basis_hash ≡ some basis
  pub projection_basis : target.projection.source_basis_hash ≡ some basis
  pub current_basis :
      source_observation_basis_hash p target.observation.observation_hash
        target.observation.tombstone
      ≡ ok basis

disposition-execute :
    (status : PolicyStatus) (current revision : ℕ)
    → effect_policy_execution_disposition status current revision ≡ execute
    → (status ≡ PolicyStatus.active) × (current ≡ revision)
unfolding effect_policy_execution_disposition
disposition-execute PolicyStatus.active current revision h = (refl, ground arith)
disposition-execute PolicyStatus.paused current revision h = absurd (cc h)
disposition-execute PolicyStatus.deleted current revision h = absurd (cc h)

opt_str_eq-some : (o : Option String) (s : String) → opt_str_eq o (some s) ≡ true → o ≡ some s
opt_str_eq-some none s h = absurd (cc h)
opt_str_eq-some (some t) s h = ap some ((str_eq_iff t s).0 h)

basis_of :
    (effect : LeasedEffect) (q : Projection) (current : String) (o : Option String)
    → effect.source_basis_hash ≡ o
    → is_current_basis effect q current ≡ true
    → (effect.source_basis_hash ≡ some current) × (q.source_basis_hash ≡ some current)
basis_of effect q current none e h = absurd (cc (rw e at h))
basis_of effect q current (some basis) e h =
    let (h1, same) = both_true _ _ (rw e at h) in
    let (_, recorded) = both_true _ _ h1 in
    let equal : basis ≡ current = (str_eq_iff basis current).0 same in
    (rw (← equal) e, rw (← equal) (opt_str_eq-some _ _ recorded))

module _ (env : Env) {R : Type 0} (provider : CalendarProvider R) (owner : String)
    (effect : LeasedEffect) (w : World R) where
  -- The provider is left alone, or the effect is authorized.
  abbrev Guarded : M R (Unit {0}) → Type 0
  Guarded m = ((m w).0.remote ≡ w.remote) ⊎ IsAuthorized env.platform owner effect w.store

  module _
      (held : any
          (λ e. str_eq e.organization_id effect.organization_id && is_held_by owner effect.id e)
          w.store.effects
        ≡ true)
      (policy : PolicyRow) (found_policy : find_policy effect w.store ≡ some policy)
      (is_active : policy.policy.status ≡ PolicyStatus.active)
      (same_revision : policy.policy.revision ≡ effect.policy_revision)
      (copying : authorizes_copying policy ≡ true) where
    Guarded-current :
        (row : TargetRow) (current : String)
        → find_target effect w.store ≡ some row
        → is_available effect row ≡ true
        → source_observation_basis_hash env.platform row.observation.observation_hash
            row.observation.tombstone
          ≡ ok current
        → Guarded (execute_current env provider owner effect row current)
    unfolding execute_current
    Guarded-current row current found available hashed =
        elim (Bool-cases (is_current_basis effect row.projection current)) [
          | inr stale ↦ rw stale (inl ((drop_stale-KeepsRemote env owner effect provider).same w))
          | inl fresh ↦
              let (mine, recorded) =
                basis_of effect row.projection current effect.source_basis_hash refl fresh in
              inr (record {
                policy = policy;
                found_policy = found_policy;
                held = held;
                is_active = is_active;
                same_revision = same_revision;
                copying = copying;
                target = row;
                found_target = found;
                available = available;
                basis = current;
                has_basis = mine;
                projection_basis = recorded;
                current_basis = hashed;
              })
        ]

    Guarded-available :
        (row : TargetRow)
        → find_target effect w.store ≡ some row
        → is_available effect row ≡ true
        → Guarded (
            give (
              source_observation_basis_hash env.platform row.observation.observation_hash
                row.observation.tombstone)
            >>= execute_current env provider owner effect row)
    Guarded-available row found available =
        elim (Result-cases (
          source_observation_basis_hash env.platform row.observation.observation_hash
            row.observation.tombstone)) [
              | inl (current, hashed) ↦
                  rw (give-bind-ok (execute_current env provider owner effect row) w hashed)
                    (Guarded-current row current found available hashed)
              | inr (error, failed) ↦
                  inl (
                    rw (give-bind-err (execute_current env provider owner effect row) w failed)
                      refl)
            ]

    Guarded-target :
        (o : Option TargetRow)
        → find_target effect w.store ≡ o
        → Guarded (execute_target env provider owner effect o)
    unfolding execute_target
    Guarded-target none found = inl ((fail-KeepsRemote env owner effect _).same w)
    Guarded-target (some row) found = elim (Bool-cases (is_available effect row)) [
      | inr closed ↦ rw closed (inl ((fail-KeepsRemote env owner effect _).same w))
      | inl available ↦ rw available (Guarded-available row found available)
    ]

  role_changed-KeepsRemote : KeepsRemote {R = R} (
      modify (mark_role_changed env effect)
      >> fail env owner effect (provider_error connection_role_changed))
  role_changed-KeepsRemote =
      KeepsRemote-bind _ _ (modify-KeepsRemote _) (λ _. fail-KeepsRemote env owner effect _)

  Guarded-disposed :
      (held : any
          (λ e. str_eq e.organization_id effect.organization_id && is_held_by owner effect.id e)
          w.store.effects
        ≡ true)
      (row : PolicyRow)
      → find_policy effect w.store ≡ some row
      → (d : EffectPolicyExecutionDisposition)
      → effect_policy_execution_disposition row.policy.status row.policy.revision
          effect.policy_revision
        ≡ d
      → Guarded (execute_disposed env provider owner effect row d)
  unfolding execute_disposed
  Guarded-disposed held row found defer_paused e =
      inl ((defer-KeepsRemote env owner effect _).same w)
  Guarded-disposed held row found defer_revision e =
      inl ((defer-KeepsRemote env owner effect _).same w)
  Guarded-disposed held row found supersede_deleted e =
      inl ((supersede-KeepsRemote env owner effect _).same w)
  Guarded-disposed held row found execute e =
      let (is_active, same_revision) =
        disposition-execute row.policy.status row.policy.revision effect.policy_revision e in
      elim (Bool-cases (authorizes_copying row)) [
        | inr closed ↦ rw closed (inl (role_changed-KeepsRemote.same w))
        | inl copying ↦ rw copying (
            Guarded-target held row found is_active same_revision copying
              (find_target effect w.store) refl)
      ]

  Guarded-policy :
      (held : any
          (λ e. str_eq e.organization_id effect.organization_id && is_held_by owner effect.id e)
          w.store.effects
        ≡ true)
      (o : Option PolicyRow)
      → find_policy effect w.store ≡ o
      → Guarded (execute_policy env provider owner effect o)
  unfolding execute_policy
  Guarded-policy held none found = inl ((fail-KeepsRemote env owner effect _).same w)
  Guarded-policy held (some row) found = Guarded-disposed held row found _ refl

  Guarded-locked : Guarded (execute_one_locked env provider owner effect)
  unfolding execute_one_locked
  Guarded-locked =
      elim (Bool-cases (
        any (λ e. str_eq e.organization_id effect.organization_id && is_held_by owner effect.id e)
          w.store.effects)) [
            | inl held ↦ rw held (Guarded-policy held (find_policy effect w.store) refl)
            | inr lost ↦ rw lost (inl refl)
          ]

  execute_one-remote :
      (execute_one env provider owner effect w).0.remote
      ≡ (execute_one_locked env provider owner effect w).0.remote
  unfolding execute_one
  execute_one-remote = elim (Result-cases (execute_one_locked env provider owner effect w).1) [
    | inl (u, e) ↦ rw (e, execute_one) refl
    | inr (x, e) ↦ rw (e, execute_one) refl
  ]

  -- Whatever the provider does, executing an effect leaves the provider's state alone, or the effect
  -- is authorized: the worker holds its lease, the policy is active at the effect's revision, the
  -- source may be copied, the destination is available, and the basis is current.
  pub execute_one-IsAuthorized :
      ((execute_one env provider owner effect w).0.remote ≡ w.remote)
      ⊎ IsAuthorized env.platform owner effect w.store
  execute_one-IsAuthorized = elim Guarded-locked [
    | inl same ↦ inl (execute_one-remote ∙ same)
    | inr authorized ↦ inr authorized
  ]
