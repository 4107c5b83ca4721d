-- ===== src/Sync/Reconcile/Recording.antt =====
-- server/src/sync/reconciliation.ts: what the recording of a result changes in the store.
use mathlib.Core.List.{Memᴰ}
use planipus.Common.{
  ℕ, ◌≡◌, refl, ap, ◌∙◌, ◌⊎◌, inl, inr, String, str_eq, str_eq_iff, Option, none, some, Bool, true,
  false, ◌∷◌, map, any, ok, bind-eq-ok, ok_eq, ==_iff, Bool-cases,
}
use planipus.CalendarSync.Json.{sha256_canonical}
use planipus.CalendarSync.Events.{PolicyEvaluationResult}
use planipus.Sync.Store.{
  PolicyStatus, CopyOwnership, EffectOperation, Projection, Effect, Observation, Store,
}
use planipus.Sync.Effects.Missing.{hashed}
use planipus.Sync.Effects.Steps.{is_projection, set_projection}
use planipus.Sync.Effects.Lease.{leased_effect}
use planipus.Sync.Effects.Rows.{is_current_basis, execute, effect_policy_execution_disposition}
use planipus.Sync.Reconcile.Projecting.{Pass}
use planipus.Sync.Reconcile.Observe.{
  PassDecision, Outcome, find_existing, refresh_recovery, evaluated_row, new_row,
}
use planipus.Sync.Reconcile.Intents.{
  intent_document, intended_effect, insert_intent, send, reconcile_new, reconcile_evaluated,
  is_blocked, reconcile_existing, reconcile_result,
}
use planipus.Sync.Reconcile.Updating.{map-update_where, mem-find, mem-update_where}

-- Where the copy of a projection is, and whose it is.
pub record Place : Type 0 where
  pub id : String
  pub destination_event_id : Option String
  pub destination_etag : Option String
  pub generation : ℕ
  pub ownership : CopyOwnership

abbrev pub place : Projection → Place
place q = record {
  id = q.id;
  destination_event_id = q.destination_event_id;
  destination_etag = q.destination_etag;
  generation = q.generation;
  ownership = q.ownership;
}

module _ (pass : Pass) (organization : String) (observation : Observation) where
  -- What `send` leaves of the store `s`: its rows, and its effects with at most one new one.
  abbrev Sent : String → Projection → EffectOperation → Store → Store × Outcome → Type 0
  Sent basis q operation s out =
      (out.0.projections ≡ s.projections)
      × (((out.0.effects ≡ s.effects) × (out.1.created ≡ false))
          ⊎ ((key : String) × (out.0.effects
                ≡ intended_effect pass organization observation basis q operation key ∷ s.effects)))

  insert_intent-Sent :
      (basis : String) (q : Projection) (operation : EffectOperation) (key : String)
      (d : PassDecision) (s : Store)
      → Sent basis q operation s (
          insert_intent pass organization observation
            (intended_effect pass organization observation basis q operation key)
            d
            s)
  unfolding insert_intent
  insert_intent-Sent basis q operation key d s =
      elim (Bool-cases (any (λ old. str_eq old.idempotency_key key) s.effects)) [
        | inl taken ↦ rw taken (refl, inl (refl, refl))
        | inr free ↦ rw free (refl, inr (key, refl))
      ]

  send-Sent :
      (basis : String) (q : Projection) (d : PassDecision) (operation : EffectOperation) (s : Store)
      (out : Store × Outcome)
      → send pass organization observation basis q d operation s ≡ ok out
      → Sent basis q operation s out
  unfolding send
  send-Sent basis q d operation s out done =
      let (key, hash, last) =
        bind-eq-ok
          (hashed (
            sha256_canonical pass.platform.nfc pass.platform.sha256
              (intent_document pass organization observation q operation)))
          (λ key. ok (
            insert_intent pass organization observation
              (intended_effect pass organization observation basis q operation key) d s))
          done in
      let same : insert_intent pass organization observation
            (intended_effect pass organization observation basis q operation key) d s
          ≡ out =
        cc last in
      rw (← same) (insert_intent-Sent basis q operation key d s)

  -- The places of the copies are kept; a row that is new stands for no copy yet.
  abbrev pub KeepsPlaces : Store → Store → Type 0
  KeepsPlaces s after =
      (map place after.projections ≡ map place s.projections)
      ⊎ ((q : Projection) × (after.projections ≡ q ∷ s.projections)
          × (q.destination_event_id ≡ none)
          × (find_existing pass organization observation s ≡ none))

  -- The executor accepts the effect `e` on the row `q`: its basis is the row's and the current one, and
  -- its revision is the policy's.
  abbrev pub IsCurrent : String → Effect → Projection → Type 0
  IsCurrent basis e q =
      (q.id ≡ e.projection_id)
      × (is_current_basis (leased_effect e) q basis ≡ true)
      × (effect_policy_execution_disposition PolicyStatus.active pass.policy.revision
            e.policy_revision
          ≡ execute)

  abbrev pub Leaves : String → Store → Store → Bool → Type 0
  Leaves basis s after created =
      ((after.effects ≡ s.effects) × (created ≡ false))
      ⊎ ((e : Effect) × (after.effects ≡ e ∷ s.effects)
          × ((q : Projection) × Memᴰ q after.projections × IsCurrent basis e q))

  intended-IsCurrent :
      (basis : String) (q : Projection) (operation : EffectOperation) (key : String)
      → str_eq basis "" ≡ false
      → q.source_basis_hash ≡ some basis
      → IsCurrent basis (intended_effect pass organization observation basis q operation key) q
  unfolding effect_policy_execution_disposition
  intended-IsCurrent basis q operation key filled same = (
    refl,
    rw (filled, same, (str_eq_iff basis basis).1 refl) refl,
    rw ((==_iff pass.policy.revision pass.policy.revision).1 refl) refl,
  )

  Leaves-Sent :
      (basis : String) (q : Projection) (operation : EffectOperation) (s before : Store)
      (out : Store × Outcome)
      → str_eq basis "" ≡ false
      → q.source_basis_hash ≡ some basis
      → before.effects ≡ s.effects
      → Memᴰ q before.projections
      → Sent basis q operation before out
      → Leaves basis s out.0 out.1.created
  Leaves-Sent basis q operation s before out filled same old m (rows, inl (effects, created)) =
      inl (effects ∙ old, created)
  Leaves-Sent basis q operation s before out filled same old m (rows, inr (key, effects)) =
      let e = intended_effect pass organization observation basis q operation key in
      inr (
        e,
        effects ∙ ap (λ es. e ∷ es) old,
        (q, rw rows m, intended-IsCurrent basis q operation key filled same),
      )

  kept_row :
      (id : String) (set : Projection → Projection) (s : Store)
      → ((q : Projection) → place (set q) ≡ place q)
      → map place (set_projection id set s).projections ≡ map place s.projections
  kept_row id set s same = map-update_where place (is_projection id) set same s.projections

  abbrev pub Recorded : String → Store → Store × Outcome → Type 0
  Recorded basis s out = KeepsPlaces s out.0 × Leaves basis s out.0 out.1.created

  reconcile_new-Recorded :
      (basis : String) (result : PolicyEvaluationResult) (operation : Option EffectOperation)
      (s : Store) (out : Store × Outcome)
      → str_eq basis "" ≡ false
      → find_existing pass organization observation s ≡ none
      → reconcile_new pass organization observation basis result operation s ≡ ok out
      → Recorded basis s out
  unfolding reconcile_new
  reconcile_new-Recorded basis result none s out filled absent done =
      let same = ok_eq refl done in rw (← same) (inl refl, inl (refl, refl))
  reconcile_new-Recorded basis result (some operation) s out filled absent done =
      let q = new_row pass organization observation basis result in
      let sent = send-Sent basis q _ operation _ out done in
      (
        inr (q, sent.0, refl, absent),
        Leaves-Sent basis q operation s (record s { projections = q ∷ s.projections }) out filled
            refl refl (Memᴰ.head refl) sent,
      )

  mem-existing :
      (s : Store) (q : Projection)
      → find_existing pass organization observation s ≡ some q
      → (set : Projection → Projection) → Memᴰ (set q) (set_projection q.id set s).projections
  mem-existing s q found set =
      mem-update_where (is_projection q.id) set s.projections (mem-find _ s.projections found)
        ((str_eq_iff q.id q.id).1 refl)

  reconcile_evaluated-Recorded :
      (basis : String) (q : Projection) (result : PolicyEvaluationResult)
      (operation : Option EffectOperation) (s : Store) (out : Store × Outcome)
      → str_eq basis "" ≡ false
      → find_existing pass organization observation s ≡ some q
      → reconcile_evaluated pass organization observation basis q result operation s ≡ ok out
      → Recorded basis s out
  unfolding reconcile_evaluated
  reconcile_evaluated-Recorded basis q result none s out filled found done =
      let same = ok_eq refl done in
      rw (← same) (inl (kept_row q.id _ s (λ _. refl)), inl (refl, refl))
  reconcile_evaluated-Recorded basis q result (some operation) s out filled found done =
      let set = evaluated_row pass organization observation basis q result (some operation) in
      let sent = send-Sent basis (set q) _ operation _ out done in
      (
        inl (ap (map place) sent.0 ∙ kept_row q.id set s (λ _. refl)),
        Leaves-Sent basis (set q) operation s (set_projection q.id set s) out filled refl refl
            (mem-existing s q found set) sent,
      )

  reconcile_existing-Recorded :
      (basis : String) (q : Projection) (dead : Option Effect) (result : PolicyEvaluationResult)
      (s : Store) (out : Store × Outcome)
      → str_eq basis "" ≡ false
      → find_existing pass organization observation s ≡ some q
      → reconcile_existing pass organization observation basis q dead result s ≡ ok out
      → Recorded basis s out
  unfolding reconcile_existing refresh_recovery
  reconcile_existing-Recorded basis q dead result s out filled found done =
      elim (Bool-cases (is_blocked pass organization observation q dead)) [
        | inl blocked ↦
            let same = ok_eq refl (rw blocked at done) in
            rw (← same) (inl (kept_row q.id _ s (λ _. refl)), inl (refl, refl))
        | inr free ↦
            reconcile_evaluated-Recorded basis q result _ s out filled found (rw free at done)
      ]

  pub reconcile_result-Recorded :
      (basis : String) (existing : Option Projection) (result : PolicyEvaluationResult) (s : Store)
      (out : Store × Outcome)
      → str_eq basis "" ≡ false
      → find_existing pass organization observation s ≡ existing
      → reconcile_result pass organization observation basis existing result s ≡ ok out
      → Recorded basis s out
  unfolding reconcile_result
  reconcile_result-Recorded basis none result s out filled found done =
      reconcile_new-Recorded basis result _ s out filled found done
  reconcile_result-Recorded basis (some q) result s out filled found done =
      reconcile_existing-Recorded basis q _ result s out filled found done
