-- ===== src/Sync/Reconcile/Authority.antt =====
-- server/src/sync/reconciliation.ts: what a pass over one observation may change, and what the effect
-- that it leaves behind is allowed to do.
use Prim.Native.String.{◌∷◌}
use Prim.Native.String
use text.Mathlib.TextLemmas.{length-append}
use mathlib.Core.List.{Memᴰ}
use mathlib.Core.List.Memᴰ
use planipus.Jobs.Queue.{JobState}
use planipus.Common.{
  [], ◌∷◌, mem-filter_intro, ◌||◌, Bool, is_some, ◌⊎◌, List, ◌+◌, arith, ◌≡◌, refl, sym, ap, ◌∙◌,
  inl, inr, String, str_eq, str_eq_iff, Option, none, some, true, false, map, Result, ok, err,
  ◌>>=◌, bind-eq-ok, ok_eq, Bool-cases,
}
use planipus.CalendarSync.Json.{
  codes, JsonValue, JsonError, Text, canonicalize_json, sha256_canonical,
}
use planipus.CalendarSync.Events.{SourceObservation, PolicyEvaluationResult}
use planipus.Sync.Store.{ProjectionStatus, CopyOwnership, Effect, Projection, Observation, Store}
use planipus.Sync.Effects.Missing.{hashed}
use planipus.Sync.Effects.Steps.{is_projection}
use planipus.Sync.Effects.Rows.{basis_document, source_observation_basis_hash}
use planipus.Sync.Reconcile.Projecting.{is_hold_code, is_destination_edit_hold, Pass}
use planipus.Common.Sorting.{mem-sort_intro}
use planipus.Sync.Reconcile.Observe.{
  created_le, first_of, Outcome, find_existing, blocking_dead, refresh_recovery,
}
use planipus.Sync.Reconcile.Intents.{
  is_blocked, reconcile_existing, reconcile_result, evaluate_observation, reconcile_observation,
}
use planipus.Sync.Reconcile.Updating.{map-update_where}
use planipus.Sync.Reconcile.Recording.{KeepsPlaces, Leaves, reconcile_result-Recorded}

or_true : (a : Bool) → (a || true) ≡ true
or_true true = refl
or_true false = refl

or_middle : (a b : Bool) → (a || true || b) ≡ true
or_middle true b = refl
or_middle false b = refl

digest-is_filled_at : (text : String) → str_eq (String.◌++◌ "sha256:" text) "" ≡ false
digest-is_filled_at text = elim (Bool-cases (str_eq (String.◌++◌ "sha256:" text) "")) [
  | inr filled ↦ filled
  | inl hit ↦
      let empty : String.◌++◌ "sha256:" text ≡ "" = (str_eq_iff _ _).0 hit in
      let none_left : 7 + String.count text ≡ 0 =
        sym (length-append "sha256:" text) ∙ ap String.count empty in
      absurd (omega arith)
]

digest-is_filled :
    (sha256 : Text → String) (answer : Result JsonError Text) {h : String}
    → hashed (answer >>= λ text. ok (String.◌++◌ "sha256:" (sha256 text))) ≡ ok h
    → str_eq h "" ≡ false
digest-is_filled sha256 (ok text) done =
    let same : String.◌++◌ "sha256:" (sha256 text) ≡ _ = ok_eq refl done in
    rw (← same) (digest-is_filled_at (sha256 text))
digest-is_filled sha256 (err e) done = absurd (cc done)

hash-is_filled :
    (nfc : String → String) (sha256 : Text → String) (value : JsonValue) {h : String}
    → hashed (sha256_canonical nfc sha256 value) ≡ ok h
    → str_eq h "" ≡ false
unfolding sha256_canonical
hash-is_filled nfc sha256 value done = digest-is_filled sha256 (canonicalize_json nfc value) done

module _ (pass : Pass) (organization : String) (observation : Observation) where
  -- What a pass that ends has done: it found the basis, evaluated the policy, and recorded the result.
  abbrev Ran : Store → Store × Outcome → Type 0
  Ran s out =
      (basis : String) × (source_observation_basis_hash pass.platform observation.observation_hash
          observation.tombstone
        ≡ ok basis)
      × ((result : PolicyEvaluationResult) × (reconcile_result pass organization observation basis
              (find_existing pass organization observation s) result s
            ≡ ok out))

  reconcile_observation-Ran :
      (source : SourceObservation) (s : Store) (out : Store × Outcome)
      → reconcile_observation pass organization observation source s ≡ ok out
      → Ran s out
  unfolding reconcile_observation
  reconcile_observation-Ran source s out done =
      let existing = find_existing pass organization observation s in
      let record_result = λ (basis : String) (result : PolicyEvaluationResult).
        reconcile_result pass organization observation basis existing result s in
      let evaluation = evaluate_observation pass organization observation source existing in
      let (basis, found, rest) =
        bind-eq-ok
          (source_observation_basis_hash pass.platform observation.observation_hash
            observation.tombstone)
          (λ basis. evaluation >>= record_result basis) done in
      let (result, answered, last) = bind-eq-ok evaluation (record_result basis) rest in
      (basis, found, (result, last))

  basis-is_filled :
      (basis : String)
      → source_observation_basis_hash pass.platform observation.observation_hash
          observation.tombstone
        ≡ ok basis
      → str_eq basis "" ≡ false
  unfolding source_observation_basis_hash
  basis-is_filled basis found =
      hash-is_filled pass.platform.nfc pass.platform.sha256
        (basis_document observation.observation_hash observation.tombstone) found

  -- A pass over an observation moves no copy: every row keeps its event, its event's tag, its
  -- generation and its owner, and a row that is new, of an observation without one, has no event yet.
  pub reconcile_observation-KeepsPlaces :
      (source : SourceObservation) (s : Store) (out : Store × Outcome)
      → reconcile_observation pass organization observation source s ≡ ok out
      → KeepsPlaces pass organization observation s out.0
  reconcile_observation-KeepsPlaces source s out done =
      let (basis, found, (result, last)) = reconcile_observation-Ran source s out done in
      (reconcile_result-Recorded pass organization observation basis _ result s out
        (basis-is_filled basis found) refl last).0

  -- What a pass leaves in the outbox the executor accepts: the effects stay as they were and the pass
  -- reports none, or one effect is added, at the revision of the pass's policy, whose row is in the
  -- store with the same basis, which is the observation's present basis.
  pub reconcile_observation-Leaves :
      (source : SourceObservation) (s : Store) (out : Store × Outcome)
      → reconcile_observation pass organization observation source s ≡ ok out
      → (basis : String) × (source_observation_basis_hash pass.platform observation.observation_hash
            observation.tombstone
          ≡ ok basis)
        × Leaves pass organization observation basis s out.0 out.1.created
  reconcile_observation-Leaves source s out done =
      let (basis, found, (result, last)) = reconcile_observation-Ran source s out done in
      (
        basis,
        found,
        (reconcile_result-Recorded pass organization observation basis _ result s out
            (basis-is_filled basis found) refl last).1,
      )

  blocked_result :
      (basis : String) (existing : Option Projection) (q : Projection)
      (result : PolicyEvaluationResult) (s : Store) (out : Store × Outcome)
      → existing ≡ some q
      → is_blocked pass organization observation q (blocking_dead pass organization observation q s)
        ≡ true
      → reconcile_result pass organization observation basis existing result s ≡ ok out
      → (out.0.effects ≡ s.effects)
        × (out.1.created ≡ false)
        × (map (λ r. r.intent_sequence) out.0.projections
            ≡ map (λ r. r.intent_sequence) s.projections)
  unfolding reconcile_result reconcile_existing refresh_recovery
  blocked_result basis none q result s out found blocked done = absurd (cc found)
  blocked_result basis (some r) q result s out found blocked done =
      let same_row : r ≡ q = cc found in
      let held : is_blocked pass organization observation r
            (blocking_dead pass organization observation r s)
          ≡ true =
        rw same_row blocked in
      let same = ok_eq refl (rw held at done) in
      rw (← same) (
        refl,
        refl,
        map-update_where (λ r. r.intent_sequence) (is_projection r.id) _ (λ _. refl) s.projections,
      )

  -- What stands in the way of a pass: a dead effect of the row, an unclear owner, or an open decision on
  -- an edit or a deletion of the copy at its destination.
  abbrev pub IsBlocked : Store → Projection → Type 0
  IsBlocked s q =
      ((e : Effect) × Memᴰ e s.effects
        × (e.organization_id ≡ organization)
        × (e.projection_id ≡ q.id)
        × (e.state ≡ JobState.dead))
      ⊎ ((q.ownership ≡ CopyOwnership.ambiguous)
          ⊎ ((q.status ≡ ProjectionStatus.held)
              × (q.ownership ≡ CopyOwnership.attached)
              × ((q.safe_error_code ≡ some (codes "destination_edit_held"))
                  ⊎ (q.safe_error_code ≡ some (codes "destination_delete_held")))))

  first_of-mem : (e : Effect) (xs : List Effect) → Memᴰ e xs → is_some (first_of xs) ≡ true
  first_of-mem e [] m = absurd (Memᴰ.not-nil m)
  first_of-mem e (_ ∷ _) m = refl

  blocking_dead-found :
      (s : Store) (q : Projection) (e : Effect)
      → Memᴰ e s.effects
      → e.organization_id ≡ organization
      → e.projection_id ≡ q.id
      → e.state ≡ JobState.dead
      → is_some (blocking_dead pass organization observation q s) ≡ true
  unfolding blocking_dead
  blocking_dead-found s q e m its_organization its_row dead = first_of-mem e _ (
      mem-sort_intro created_le _ (
        mem-filter_intro _ s.effects m (
          rw
            (
              its_organization,
              its_row,
              dead,
              (str_eq_iff organization organization).1 refl,
              (str_eq_iff q.id q.id).1 refl,
            )
            refl)))

  hold_code-IsHoldCode :
      (code : Option Text)
      → (code ≡ some (codes "destination_edit_held"))
        ⊎ (code ≡ some (codes "destination_delete_held"))
      → is_hold_code code ≡ true
  hold_code-IsHoldCode code (inl e) = rw e refl
  hold_code-IsHoldCode code (inr e) = rw e refl

  blocked-IsBlocked :
      (s : Store) (q : Projection)
      → IsBlocked s q
      → is_blocked pass organization observation q (blocking_dead pass organization observation q s)
        ≡ true
  unfolding is_destination_edit_hold
  blocked-IsBlocked s q (inl (e, m, its_organization, its_row, dead)) =
      rw (blocking_dead-found s q e m its_organization its_row dead) refl
  blocked-IsBlocked s q (inr (inl unclear)) = rw unclear (or_middle _ _)
  blocked-IsBlocked s q (inr (inr (held, attached, code))) =
      rw (held, attached, hold_code-IsHoldCode q.safe_error_code code) (or_true _)

  -- Where the row of the observation has a dead effect in the outbox, an unclear owner, or an open
  -- decision on an edit or a deletion of its copy (it is held and attached, with the code of one), a
  -- pass writes no intent: the outbox and every row's intent sequence stay as they were.
  pub reconcile_observation-blocked :
      (source : SourceObservation) (s : Store) (out : Store × Outcome) (q : Projection)
      → find_existing pass organization observation s ≡ some q
      → IsBlocked s q
      → reconcile_observation pass organization observation source s ≡ ok out
      → (out.0.effects ≡ s.effects)
        × (out.1.created ≡ false)
        × (map (λ r. r.intent_sequence) out.0.projections
            ≡ map (λ r. r.intent_sequence) s.projections)
  reconcile_observation-blocked source s out q found blocked done =
      let (basis, hash, (result, last)) = reconcile_observation-Ran source s out done in
      blocked_result basis _ q result s out found (blocked-IsBlocked s q blocked) last
