-- ===== src/Sync/Notices/Restored.antt =====
-- server/src/sync/notices.ts: what a `restore` that is taken leaves, and that the executor accepts it.
use planipus.Common.{
  ◌+◌, ◌≡◌, refl, ap, String, Option, none, some, true, not, ◌∷◌, str_eq, str_eq_iff, ok, both_true,
}
use planipus.Sync.Store.{EffectOperation, Policy, Projection, Effect, Store}
use planipus.Sync.Effects.Steps.{set_projection}
use planipus.Sync.Effects.Lease.{leased_effect}
use planipus.Sync.Effects.Rows.{is_current_basis}
use planipus.Sync.Notices.Reads.{Resolver, waiting_operation, is_same_basis}
use planipus.Sync.Notices.Resolve.{current_basis, evidence, restored_row}

-- The basis that authorizes: it is there, and it is the stored one.
pub is_same_basis-basis :
    (current stored : Option String)
    → is_same_basis current stored ≡ true
    → (basis : String) × (current ≡ some basis)
      × (stored ≡ some basis)
      × (not (str_eq basis "") ≡ true)
is_same_basis-basis none stored e = absurd (cc e)
is_same_basis-basis (some c) none e = absurd (cc (both_true (not (str_eq c "")) _ e).1)
is_same_basis-basis (some c) (some b) e =
    let (filled, rest) = both_true (not (str_eq c "")) _ e in
    let same = (str_eq_iff b c).0 (both_true (not (str_eq b "")) _ rest).1 in
    (c, refl, ap some same, filled)

module _ (resolver : Resolver) (organization : String) (notice_id : String) (s : Store) (p : Policy)
    (q : Projection) where
  -- What the effect and the row say together. `current` is the basis that the source has now.
  pub record IsRestored (operation : EffectOperation) (current : String) (after : Store)
      : Type 0 where
    pub effect : Effect
    pub row : Projection
    pub waited : waiting_operation p q ≡ ok operation
    pub basis : current_basis resolver organization notice_id q s ≡ ok (some current)
    pub checked : evidence resolver organization notice_id p q operation ≡ ok tt
    pub sent : after.effects ≡ effect ∷ s.effects
    pub rows :
        after.projections
        ≡ (set_projection q.id
            (restored_row resolver organization notice_id (q.intent_sequence + 1))
            s).projections
    pub changed : row ≡ restored_row resolver organization notice_id (q.intent_sequence + 1) q
    pub ambiguous : effect.ambiguous ≡ true
    pub same_operation : effect.operation ≡ operation
    pub same_copy : effect.desired_state ≡ row.desired_state
    pub accepted : is_current_basis (leased_effect effect) row current ≡ true
