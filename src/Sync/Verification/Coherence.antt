-- ===== src/Sync/Verification/Coherence.antt =====
-- server/src/sync/verification.ts: what a repair leaves in the store.
use planipus.Common.{
  ℕ, ◌+◌, ◌≡◌, refl, sym, ◌∙◌, ◌⊎◌, inl, inr, String, Option, none, some, Bool, true, false, ◌∷◌,
  any, str_eq, str_eq_iff, ◌==◌, ==_iff, Result, ok, ◌>>=◌, bind-eq-ok, ok_eq, both_true,
  Bool-cases, Option-cases,
}
use planipus.CalendarSync.Json.{sha256_canonical}
use planipus.CalendarSync.Events.{DesiredCopy}
use planipus.CalendarSync.DestinationEdits.{NoticeKind, EditErrorCode}
use planipus.Sync.Store.{document, ProjectionStatus, Projection, Effect, Store}
use planipus.Sync.Provider.{EffectError}
use planipus.Sync.Effects.Steps.{set_projection}
use planipus.Sync.Effects.Missing.{hashed, hash_copy, next_generation}
use planipus.Sync.Reconcile.Projecting.{is_attached}
use planipus.Sync.Verification.Decision.{
  Verifier, VerificationTarget, CopyEdit, missing_copy, drifted_copy, destination_repair_generation,
  record_sync_notice,
}
use planipus.Sync.Verification.Guards.{
  is_converged, is_unchanged, find_current, names_target, recovery_copy,
}
use planipus.Sync.Verification.Repair.{
  repair_key_document, repair_effect, repaired_row, audit, notify_if, write_repair, repair_from,
  schedule_repair,
}
use planipus.Sync.Verification.Evidence.{IsReady, find_current-IsReady, recovery_copy-IsEvidence}

module _ (verifier : Verifier) (organization : String) (target : VerificationTarget) where
  abbrev next_of : CopyEdit → ℕ → ℕ
  next_of missing_copy generation = generation + 1
  next_of (drifted_copy revision) generation = generation

  -- The row and its effect name one copy, which has the row's generation and hash.
  pub record IsCoherent (edit : CopyEdit) (q : Projection) (e : Effect) (r : Projection)
      : Type 0 where
    pub copy : DesiredCopy
    pub sent : e.desired_state ≡ some (document copy)
    pub stored : r.desired_state ≡ some (document copy)
    pub generation : copy.provenance.generation ≡ r.generation
    pub next : r.generation ≡ next_of edit q.generation
    pub policy_ref : copy.provenance.policy_ref ≡ e.policy_id
    pub projection_ref : copy.provenance.projection_ref ≡ e.projection_id
    pub hash : String
    pub hashes : hash_copy verifier.env copy ≡ ok hash
    pub desired_hash : r.desired_hash ≡ some hash
    pub is_pending : r.status ≡ ProjectionStatus.pending

  abbrev pub Repairs : CopyEdit → Store → Store → Type 0
  Repairs edit s after =
      (q : Projection) × (e : Effect) × (set : Projection → Projection) × IsReady verifier
        organization target s q
      × (after.effects ≡ e ∷ s.effects)
      × (after.projections ≡ (set_projection target.projection_id set s).projections)
      × IsCoherent edit q e (set q)

  -- Nothing changed, or a repair.
  abbrev pub IsOutcome : CopyEdit → Store → Store × Bool → Type 0
  IsOutcome edit s out = ((out.1 ≡ false) × (out.0 ≡ s)) ⊎ ((out.1 ≡ true) × Repairs edit s out.0)

  notify_if-effects :
      (notice : Option NoticeKind) (edit : CopyEdit) (desired : DesiredCopy) (s : Store)
      → (notify_if verifier organization target notice edit desired s).effects ≡ s.effects
  unfolding record_sync_notice
  notify_if-effects none edit desired s = refl
  notify_if-effects (some kind) edit desired s = refl

  notify_if-projections :
      (notice : Option NoticeKind) (edit : CopyEdit) (desired : DesiredCopy) (s : Store)
      → (notify_if verifier organization target notice edit desired s).projections ≡ s.projections
  unfolding record_sync_notice
  notify_if-projections none edit desired s = refl
  notify_if-projections (some kind) edit desired s = refl

  write_repair-Written :
      (edit : CopyEdit) (notice : Option NoticeKind) (code : EditErrorCode) (intent generation : ℕ)
      (desired : DesiredCopy) (desired_hash key : String) (s : Store) (out : Store × Bool)
      → write_repair verifier organization target edit notice code intent generation desired
          desired_hash key s
        ≡ ok out
      → (out.1 ≡ true)
        × (out.0.effects ≡ repair_effect verifier organization target edit desired key ∷ s.effects)
        × (out.0.projections
            ≡ (set_projection target.projection_id
                (repaired_row verifier organization target edit intent generation desired
                  desired_hash)
                s).projections)
  unfolding write_repair audit
  write_repair-Written edit notice code intent generation desired desired_hash key s out done =
      elim (Bool-cases (any (λ old. str_eq old.idempotency_key key) s.effects)) [
        | inl taken ↦ absurd (cc (rw (taken, write_repair) at done))
        | inr free ↦
            let same = ok_eq refl (rw (free, write_repair) at done) in
            rw (sym same) (
              refl,
              notify_if-effects notice edit desired _,
              notify_if-projections notice edit desired _,
            )
      ]

  unchanged_generation :
      (q : Projection) → is_unchanged target q ≡ true → q.generation ≡ target.generation
  unfolding is_unchanged
  unchanged_generation q e =
      let rest_1 = (both_true (is_converged q.status) _ e).1 in
      let rest_2 = (both_true (is_attached q.ownership) _ rest_1).1 in
      let rest_3 = (both_true (q.policy_revision == target.policy_revision) _ rest_2).1 in
      (==_iff _ _).0 (both_true (q.generation == target.generation) _ rest_3).0

  repaired-IsCoherent :
      (edit : CopyEdit) (q : Projection) (previous : DesiredCopy) (hash key : String) (intent : ℕ)
      → is_unchanged target q ≡ true
      → names_target target previous ≡ true
      → hash_copy verifier.env (destination_repair_generation previous q.generation edit).1
        ≡ ok hash
      → IsCoherent edit q
          (repair_effect verifier organization target edit
            (destination_repair_generation previous q.generation edit).1
            key)
          (repaired_row verifier organization target edit intent
            (destination_repair_generation previous q.generation edit).0
            (destination_repair_generation previous q.generation edit).1
            hash
            q)
  unfolding destination_repair_generation
  repaired-IsCoherent missing_copy q previous hash key intent same named hashes =
      let (policy, rest) =
        both_true (str_eq previous.provenance.policy_ref target.policy_id) _ named in
      let (row, _) =
        both_true (str_eq previous.provenance.projection_ref target.projection_id) _ rest in
      record {
        copy = next_generation (q.generation + 1) previous;
        sent = refl;
        stored = refl;
        generation = refl;
        next = refl;
        policy_ref = (str_eq_iff _ _).0 policy;
        projection_ref = (str_eq_iff _ _).0 row;
        hash = hash;
        hashes = hashes;
        desired_hash = refl;
        is_pending = refl;
      }
  repaired-IsCoherent (drifted_copy revision) q previous hash key intent same named hashes =
      let (policy, rest) =
        both_true (str_eq previous.provenance.policy_ref target.policy_id) _ named in
      let (row, last) =
        both_true (str_eq previous.provenance.projection_ref target.projection_id) _ rest in
      record {
        copy = previous;
        sent = refl;
        stored = refl;
        generation = (==_iff _ _).0 last ∙ sym (unchanged_generation q same);
        next = refl;
        policy_ref = (str_eq_iff _ _).0 policy;
        projection_ref = (str_eq_iff _ _).0 row;
        hash = hash;
        hashes = hashes;
        desired_hash = refl;
        is_pending = refl;
      }

  repair_from-IsOutcome :
      (edit : CopyEdit) (notice : Option NoticeKind) (code : EditErrorCode) (q : Projection)
      (s : Store) (copy : Option DesiredCopy) (out : Store × Bool)
      → IsReady verifier organization target s q
      → recovery_copy verifier target q.desired_state ≡ ok copy
      → repair_from verifier organization target edit notice code q s copy ≡ ok out
      → IsOutcome edit s out
  unfolding repair_from
  repair_from-IsOutcome edit notice code q s none out ready e done =
      let same : (s, false) ≡ out = ok_eq refl done in rw (sym same) (inl (refl, refl))
  repair_from-IsOutcome edit notice code q s (some previous) out ready e done =
      let intent = q.intent_sequence + 1 in
      let (generation, desired) = destination_repair_generation previous q.generation edit in
      let key_for : String → Result EffectError String = λ hash. hashed (
        sha256_canonical verifier.env.platform.nfc verifier.env.platform.sha256
          (repair_key_document target generation intent edit hash)) in
      let (hash, hashes, keyed) =
        bind-eq-ok (hash_copy verifier.env desired)
          (λ hash. key_for hash >>= λ key.
            write_repair verifier organization target edit notice code intent generation desired
              hash key s)
          done in
      let (key, _, last) =
        bind-eq-ok (key_for hash)
          (λ key.
            write_repair verifier organization target edit notice code intent generation desired
              hash key s)
          keyed in
      let (answer, effects, rows) =
        write_repair-Written edit notice code intent generation desired hash key s out last in
      let (stored, named, _) =
        recovery_copy-IsEvidence verifier organization target q.desired_state previous e in
      inr (
        answer,
        (
          q,
          repair_effect verifier organization target edit desired key,
          repaired_row verifier organization target edit intent generation desired hash,
          ready,
          effects,
          rows,
          repaired-IsCoherent edit q previous hash key intent ready.unchanged named hashes,
        ),
      )

  -- A repair that is scheduled is one new effect, on a row that is the one that was read, while its
  -- policy runs at the revision that was read and no effect on the row is unfinished. The effect and the
  -- row then name one copy, with the row's generation and hash; a missing copy gets the next
  -- generation. Otherwise the answer is false and the store is as it was.
  pub schedule_repair-IsOutcome :
      (edit : CopyEdit) (notice : Option NoticeKind) (code : EditErrorCode) (s : Store)
      (out : Store × Bool)
      → schedule_repair verifier organization target edit notice code s ≡ ok out
      → IsOutcome edit s out
  unfolding schedule_repair
  schedule_repair-IsOutcome edit notice code s out done =
      elim (Option-cases (find_current organization target s)) [
        | inl e ↦
            let same : (s, false) ≡ out = ok_eq refl (rw (e, schedule_repair) at done) in
            rw (sym same) (inl (refl, refl))
        | inr (q, e) ↦
            let (copy, read, rest) =
              bind-eq-ok (recovery_copy verifier target q.desired_state)
                (repair_from verifier organization target edit notice code q s)
                (rw (e, schedule_repair) at done) in
            repair_from-IsOutcome edit notice code q s copy out
              (find_current-IsReady verifier organization target s q e) read rest
      ]
