-- ===== src/Policy/Retried.antt =====
-- server/src/policy/service.ts: the turn of one copy in `retryBlocked`.
use mathlib.Core.List.{Memᴰ}
use planipus.Common.{
  err, ◌≡◌, refl, sym, ap, ◌∙◌, ◌⊎◌, inl, inr, String, Option, none, some, Bool, true, false, List,
  str_eq_iff, both_true, ==_iff, ◌==◌, Result, ok, bind-eq-ok, ok_eq, Bool-cases, Option-cases,
  ◌&&◌,
}
use planipus.Sync.Store.{Observation, EffectOperation, Projection, Effect, Policy, Store}
use planipus.Sync.Provider.{EffectError}
use planipus.Sync.Reconcile.Observe.{is_dead_state}
use planipus.Sync.Reconcile.Updating.{mem-updated}
use planipus.Sync.Notices.Reads.{is_same_basis}
use planipus.Sync.Notices.Restored.{is_same_basis-basis}
use planipus.Policy.Requests.{Caller, rethrow}
use planipus.Policy.Evidence.{
  source_basis_matches, first_dead, source_basis, payload_matches, has_evidence, waits_for,
}
use planipus.Policy.Recovery.{
  is_dead_effect, write_recovery, recovery_key, replayed_effect, set_dead, superseded_effect,
  replay, stale_status, recover_checked, recover_waiting, replay_or_recover, retry_from, retry_row,
}
use planipus.Policy.Current.{
  Advances-IsUnblocked, IsUnblocked, IsUnique, IsSourced, Advances, Advances-trans,
  source_basis-IsSourced,
}
use planipus.Policy.Safety.{
  matches_basis, first_dead-Mem, replay-Advances, supersede-Advances, Recovers, refresh-Recovers,
  refresh_superseded-Recovers, write_recovery-Recovers,
}

rethrow-ok {ℓ} : {A : Type ℓ} (m : Result EffectError A) {a : A} → rethrow m ≡ ok a → m ≡ ok a
rethrow-ok (ok x) e = ap ok (ok_eq refl e)
rethrow-ok (err x) e = absurd (cc e)

module _ (caller : Caller) (organization : String) (p : Policy) where
  -- The basis that was read is one that a source has now.
  abbrev Read : List Observation → Option String → Type 0
  Read observations current =
      (basis : String) → current ≡ some basis → IsSourced caller organization p observations basis

  recover_checked-Recovers :
      (superseded : Option Effect) (q : Projection) (operation : EffectOperation) (basis : String)
      (s : Store) (checked : Bool) (out : Store × Bool)
      → IsSourced caller organization p s.observations basis
      → q.source_basis_hash ≡ some basis
      → recover_checked caller organization p q operation superseded s checked ≡ ok out
      → Recovers caller organization p superseded s out
  unfolding recover_checked
  recover_checked-Recovers superseded q operation basis s false out sourced stored done =
      refresh_superseded-Recovers caller organization p superseded _ q s out done
  recover_checked-Recovers superseded q operation basis s true out sourced stored done =
      let (key, _, last) =
        bind-eq-ok (recovery_key caller organization p q operation)
          (λ key. write_recovery caller organization p q operation key s) done in
      write_recovery-Recovers caller organization p superseded q operation key basis s out sourced
        stored last

  recover_waiting-Recovers :
      (superseded : Option Effect) (q : Projection) (current : Option String) (s : Store)
      (waits : Option EffectOperation) (out : Store × Bool)
      → Read s.observations current
      → recover_waiting caller organization p q current superseded s waits ≡ ok out
      → Recovers caller organization p superseded s out
  unfolding recover_waiting
  recover_waiting-Recovers superseded q current s none out read done =
      refresh_superseded-Recovers caller organization p superseded _ q s out done
  recover_waiting-Recovers superseded q current s (some operation) out read done =
      elim (Bool-cases (is_same_basis current q.source_basis_hash)) [
        | inr stale ↦
            refresh-Recovers caller organization p superseded
              (stale_status caller organization p superseded) _ q s out
              (rw (stale, recover_waiting) at done)
        | inl same ↦
            let (basis, now, stored, _) = is_same_basis-basis current q.source_basis_hash same in
            let (checked, _, last) =
              bind-eq-ok (rethrow (has_evidence caller organization p q operation))
                (recover_checked caller organization p q operation superseded s)
                (rw (same, recover_waiting) at done) in
            recover_checked-Recovers superseded q operation basis s checked out (read basis now)
              stored last
      ]

  set_dead-IsUnblocked :
      (dead : Effect) (set : Effect → Effect) (s : Store)
      → ((e : Effect) → is_dead_state (set e).state ≡ false)
      → IsUnblocked caller organization p dead.id (set_dead caller organization p dead set s)
  set_dead-IsUnblocked dead set s alive e m same =
      elim (mem-updated (is_dead_effect caller organization p dead) set s.effects m) [
        | inr (d, _, _, changed) ↦ rw changed (alive d)
        | inl (_, miss) ↦
            let state : (true && is_dead_state e.state) ≡ false =
              rw ((str_eq_iff e.id dead.id).1 same) at miss in
            state
      ]

  -- What a row's turn does where a dead effect blocks it.
  abbrev pub Unblocks : Effect → Store → Store × Bool → Type 0
  Unblocks dead s out =
      Advances caller organization p s out.0
      × (out.1 ≡ true)
      × IsUnblocked caller organization p dead.id out.0

  replay-Unblocks :
      (q : Projection) (s : Store) (dead : Effect) (current : Option String)
      → IsUnique s
      → Memᴰ dead s.effects
      → is_dead_state dead.state ≡ true
      → Read s.observations current
      → dead.policy_revision ≡ p.revision
      → source_basis_matches current dead.source_basis_hash q.source_basis_hash ≡ true
      → Unblocks dead s (replay caller organization p dead q s, true)
  unfolding replay
  replay-Unblocks q s dead current unique i is_dead read revision same =
      let (basis, now, stored) =
        matches_basis current dead.source_basis_hash q.source_basis_hash same in
      (
        replay-Advances caller organization p s q dead basis unique i is_dead (read basis now)
            stored revision,
        refl,
        set_dead-IsUnblocked dead (replayed_effect caller organization p) s (λ e. refl),
      )

  recover_dead-Unblocks :
      (q : Projection) (s : Store) (dead : Effect) (current : Option String) (out : Store × Bool)
      → Read s.observations current
      → recover_waiting caller organization p q current
          (some dead)
          (set_dead caller organization p dead (superseded_effect caller organization p dead) s)
          (waits_for caller organization p q (some dead))
        ≡ ok out
      → Unblocks dead s out
  recover_dead-Unblocks q s dead current out read done =
      let set = superseded_effect caller organization p dead in
      let middle = set_dead caller organization p dead set s in
      let (step, counted) =
        recover_waiting-Recovers (some dead) q current middle
          (waits_for caller organization p q (some dead)) out read done in
      (
        Advances-trans caller organization p s middle out.0
            (supersede-Advances caller organization p s dead) step,
        elim counted [ inl without ↦ absurd (cc without) | inr retried ↦ retried ],
        Advances-IsUnblocked caller organization p middle out.0 dead.id step
            (set_dead-IsUnblocked dead set s (λ e. refl)),
      )

  replay_or_recover-Unblocks :
      (q : Projection) (s : Store) (dead : Effect) (current : Option String) (payload : Bool)
      (out : Store × Bool)
      → IsUnique s
      → Memᴰ dead s.effects
      → is_dead_state dead.state ≡ true
      → Read s.observations current
      → replay_or_recover caller organization p q current dead s payload ≡ ok out
      → Unblocks dead s out
  unfolding replay_or_recover
  replay_or_recover-Unblocks q s dead current payload out unique i is_dead read done =
      elim (Bool-cases (
        dead.policy_revision == p.revision
        && (source_basis_matches current dead.source_basis_hash q.source_basis_hash && payload))) [
          | inl fits ↦
              let (revision, rest) = both_true (dead.policy_revision == p.revision) _ fits in
              let (same, _) =
                both_true (source_basis_matches current dead.source_basis_hash q.source_basis_hash)
                  _ rest in
              let whole =
                replay-Unblocks q s dead current unique i is_dead read ((==_iff _ _).0 revision)
                  same in
              let result = ok_eq refl (rw (fits, replay_or_recover) at done) in
              rw (sym result) whole
          | inr changed ↦
              recover_dead-Unblocks q s dead current out read
                (rw (changed, replay_or_recover) at done)
        ]

  -- A turn of a row: of one with a dead effect, and of one without.
  abbrev pub Retries : Projection → Store → Store × Bool → Type 0
  Retries q s out =
      ((dead : Effect) × (first_dead caller organization q s ≡ some dead) × Unblocks dead s out)
      ⊎ ((first_dead caller organization q s ≡ none) × Advances caller organization p s out.0)

  retry_from-Retries :
      (q : Projection) (s : Store) (current : Option String) (out : Store × Bool)
      → IsUnique s
      → Read s.observations current
      → retry_from caller organization p q s current (first_dead caller organization q s) ≡ ok out
      → Retries q s out
  unfolding retry_from
  retry_from-Retries q s current out unique read done =
      elim (Option-cases (first_dead caller organization q s)) [
        | inl free ↦
            let (step, _) =
              recover_waiting-Recovers none q current s (waits_for caller organization p q none) out
                read (rw (free, retry_from) at done) in
            inr (free, step)
        | inr (dead, found) ↦
            let (i, is_dead) = first_dead-Mem caller organization p q s dead found in
            let (payload, _, last) =
              bind-eq-ok (rethrow (payload_matches caller organization p q dead))
                (replay_or_recover caller organization p q current dead s)
                (rw (found, retry_from) at done) in
            inl (
              dead,
              found,
              replay_or_recover-Unblocks q s dead current payload out unique i is_dead read last,
            )
      ]

  -- In the turn of a copy that `retryBlocked` goes through, provided the dead effects of the store have
  -- ids of their own, the effects change only so that one is settled, or waits to be sent: of the
  -- policy's revision, with the basis that a source has now, and to be checked at the destination first.
  -- Where the copy has dead effects, the turn counts, and the oldest of them is dead no longer.
  pub retry_row-Retries :
      (q : Projection) (s : Store) (out : Store × Bool)
      → IsUnique s
      → retry_row caller organization p q s ≡ ok out
      → Retries q s out
  unfolding retry_row
  retry_row-Retries q s out unique done =
      let (current, read, last) =
        bind-eq-ok (rethrow (source_basis caller organization q s))
          (λ current.
            retry_from caller organization p q s current (first_dead caller organization q s))
          done in
      let basis = rethrow-ok (source_basis caller organization q s) read in
      retry_from-Retries q s current out unique
        (λ b e. source_basis-IsSourced caller organization p q s b (basis ∙ ap ok e)) last
