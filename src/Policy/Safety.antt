-- ===== src/Policy/Safety.antt =====
-- server/src/policy/service.ts: the writes of `retryBlocked` to the effects.
use mathlib.Core.List.{Memᴰ}
use mathlib.Core.List.Memᴰ
use planipus.Common.{
  ◌≡◌, refl, sym, ap, ◌∙◌, ◌⊎◌, inl, inr, String, Option, none, some, Bool, true, false, List, [],
  ◌∷◌, any, str_eq, str_eq_iff, both_true, ok, bind-eq-ok, ok_eq, Bool-cases, Result-cases,
  mem-filter,
}
use planipus.Common.Sorting.{mem-sort}
use planipus.Jobs.Queue.{enqueue}
use planipus.Sync.Store.{EffectOperation, ProjectionStatus, Projection, Effect, Policy, Store}
use planipus.Sync.Reconcile.Observe.{is_dead_state, created_le, first_of}
use planipus.Sync.Reconcile.Updating.{mem-updated}
use planipus.Policy.Requests.{Caller, reconcile_job, enqueue_reconcile}
use planipus.Policy.Evidence.{source_basis_matches, is_dead_of, first_dead}
use planipus.Policy.Recovery.{
  replayed_effect, superseded_effect, is_dead_effect, set_dead, replay, refresh, refresh_superseded,
  recovery_effect, write_recovery,
}
use planipus.Policy.Current.{IsUnique, IsSourced, IsCurrent, Advances, Advances-same}

first_of-Mem : (es : List Effect) (e : Effect) → first_of es ≡ some e → Memᴰ e es
first_of-Mem [] e first = absurd (cc first)
first_of-Mem (x ∷ es) e first = Memᴰ.head (cc first)

pub matches_basis :
    (current dead stored : Option String)
    → source_basis_matches current dead stored ≡ true
    → (basis : String) × (current ≡ some basis) × (dead ≡ some basis)
matches_basis (some c) (some d) (some q) e =
    let same = (str_eq_iff d c).0 (both_true (str_eq d q) _ e).1 in (c, refl, ap some same)
matches_basis (some c) (some d) none e = absurd (cc e)
matches_basis (some c) none stored e = absurd (cc e)
matches_basis none dead stored e = absurd (cc e)

module _ (caller : Caller) (organization : String) (p : Policy) where
  pub first_dead-Mem :
      (q : Projection) (s : Store) (dead : Effect)
      → first_dead caller organization q s ≡ some dead
      → Memᴰ dead s.effects × (is_dead_state dead.state ≡ true)
  unfolding first_dead
  first_dead-Mem q s dead e =
      let sorted = first_of-Mem _ dead e in
      let (m, hit) =
        mem-filter (is_dead_of caller organization q) s.effects (mem-sort created_le _ sorted) in
      let rest = (both_true (str_eq dead.organization_id organization) _ hit).1 in
      (m, (both_true (str_eq dead.projection_id q.id) _ rest).1)

  replayed-IsCurrent :
      (s : Store) (dead d : Effect) (basis : String)
      → d ≡ dead
      → IsSourced caller organization p s.observations basis
      → dead.source_basis_hash ≡ some basis
      → dead.policy_revision ≡ p.revision
      → IsCurrent caller organization p s.observations (replayed_effect caller organization p d)
  replayed-IsCurrent s dead d basis same sourced stored revision = record {
    basis = basis;
    sourced = sourced;
    stored = ap (λ (e : Effect). e.source_basis_hash) same ∙ stored;
    revision = ap (λ (e : Effect). e.policy_revision) same ∙ revision;
    ambiguous = refl;
    waiting = refl;
  }

  pub replay-Advances :
      (s : Store) (q : Projection) (dead : Effect) (basis : String)
      → IsUnique s
      → Memᴰ dead s.effects
      → is_dead_state dead.state ≡ true
      → IsSourced caller organization p s.observations basis
      → dead.source_basis_hash ≡ some basis
      → dead.policy_revision ≡ p.revision
      → Advances caller organization p s (replay caller organization p dead q s)
  unfolding replay
  replay-Advances s q dead basis unique i is_dead sourced stored revision = record {
    kept = λ e m.
        elim (mem-updated (is_dead_effect caller organization p dead)
          (replayed_effect caller organization p) s.effects m) [
            | inl (j, _) ↦ inl j
            | inr (d, j, hit, same) ↦
                let (id, dead_too) = both_true (str_eq d.id dead.id) _ hit in
                let one = unique d dead j i dead_too is_dead ((str_eq_iff d.id dead.id).0 id) in
                rw same (inr (inr (replayed-IsCurrent s dead d basis one sourced stored revision)))
          ];
    observations = refl;
  }

  pub supersede-Advances :
      (s : Store) (dead : Effect)
      → Advances caller organization p s
          (set_dead caller organization p dead (superseded_effect caller organization p dead) s)
  supersede-Advances s dead = record {
    kept = λ e m.
        elim (mem-updated (is_dead_effect caller organization p dead)
          (superseded_effect caller organization p dead) s.effects m) [
            | inl (j, _) ↦ inl j
            | inr (d, j, hit, same) ↦ rw same (inr (inl refl))
          ];
    observations = refl;
  }

  pub enqueue_reconcile-same :
      (id key : String) (s : Store) (out : Store × Option String)
      → enqueue_reconcile caller organization p id key s ≡ ok out
      → (out.0.effects ≡ s.effects) × (out.0.observations ≡ s.observations)
  unfolding enqueue_reconcile
  enqueue_reconcile-same id key s out done =
      elim (Result-cases (enqueue (reconcile_job caller organization p id key) s.jobs)) [
        | inr (e, failed) ↦ absurd (cc (rw (failed, enqueue_reconcile) at done))
        | inl (jobs, made) ↦
            let same = ok_eq refl (rw (made, enqueue_reconcile) at done) in
            rw (sym same) (refl, refl)
      ]

  -- A step of the recovery, where `superseded` is the dead effect that it started from: a row that had one
  -- counts as retried.
  abbrev pub Recovers : Option Effect → Store → Store × Bool → Type 0
  Recovers superseded s out =
      Advances caller organization p s out.0 × ((superseded ≡ none) ⊎ (out.1 ≡ true))

  pub refresh-Recovers :
      (superseded : Option Effect) (status : ProjectionStatus) (key : String) (q : Projection)
      (s : Store) (out : Store × Bool)
      → refresh caller organization p status key q s ≡ ok out
      → Recovers superseded s out
  unfolding refresh
  refresh-Recovers superseded status key q s out done =
      let (made, queued, last) = bind-eq-ok _ (λ made. ok (made.0, true)) done in
      let (effects, observations) = enqueue_reconcile-same _ _ _ made queued in
      let same : (made.0, true) ≡ out = ok_eq refl last in
      rw (sym same) (Advances-same caller organization p s made.0 effects observations, inr refl)

  pub refresh_superseded-Recovers :
      (superseded : Option Effect) (key : String) (q : Projection) (s : Store) (out : Store × Bool)
      → refresh_superseded caller organization p key q s superseded ≡ ok out
      → Recovers superseded s out
  refresh_superseded-Recovers none key q s out done =
      let same : (s, false) ≡ out = ok_eq refl done in
      rw (sym same) (Advances-same caller organization p s s refl refl, inl refl)
  refresh_superseded-Recovers (some dead) key q s out done =
      refresh-Recovers (some dead) ProjectionStatus.failed key q s out done

  recovery-IsCurrent :
      (s : Store) (q : Projection) (operation : EffectOperation) (key basis : String)
      → IsSourced caller organization p s.observations basis
      → q.source_basis_hash ≡ some basis
      → IsCurrent caller organization p s.observations
          (recovery_effect caller organization p q operation key)
  recovery-IsCurrent s q operation key basis sourced stored = record {
    basis = basis;
    sourced = sourced;
    stored = stored;
    revision = refl;
    ambiguous = refl;
    waiting = refl;
  }

  pub write_recovery-Recovers :
      (superseded : Option Effect) (q : Projection) (operation : EffectOperation)
      (key basis : String) (s : Store) (out : Store × Bool)
      → IsSourced caller organization p s.observations basis
      → q.source_basis_hash ≡ some basis
      → write_recovery caller organization p q operation key s ≡ ok out
      → Recovers superseded s out
  unfolding write_recovery
  write_recovery-Recovers superseded q operation key basis s out sourced stored done =
      elim (Bool-cases (any (λ old. str_eq old.idempotency_key key) s.effects)) [
        | inl taken ↦ absurd (cc (rw (taken, write_recovery) at done))
        | inr free ↦
            let same = ok_eq refl (rw (free, write_recovery) at done) in
            rw (sym same) (
              record {
                kept = λ e m. elim (Memᴰ.cases_cons m) [
                  | inr i ↦ inl i
                  | inl first ↦
                      rw first
                        (inr (inr (recovery-IsCurrent s q operation key basis sourced stored)))
                ];
                observations = refl;
              },
              inr refl,
            )
      ]
