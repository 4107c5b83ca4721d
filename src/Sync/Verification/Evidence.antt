-- ===== src/Sync/Verification/Evidence.antt =====
-- server/src/sync/verification.ts: what the reads of a transaction establish.
use planipus.Common.{
  ◌≡◌, sym, ap, ◌∙◌, inl, inr, String, Option, none, some, true, false, find, str_eq, str_eq_iff,
  ok, ◌>>=◌, bind-eq-ok, Bool-cases, Option-cases,
}
use planipus.CalendarSync.Events.{DesiredCopy}
use planipus.Sync.Store.{StoredCopy, document, malformed, Projection, Store}
use planipus.Sync.Effects.Missing.{hash_copy}
use planipus.Sync.Verification.Decision.{Verifier, VerificationTarget}
use planipus.Sync.Verification.Guards.{
  is_row, is_authorized, is_unchanged, has_unfinished, settled_row, find_current, names_target,
  if_same_hash, recovery_copy,
}

module _ (verifier : Verifier) (organization : String) (target : VerificationTarget) where
  -- The row is the one that was read, no effect on it is unfinished, and its policy still runs.
  pub record IsReady (s : Store) (q : Projection) : Type 0 where
    pub authorized : is_authorized organization target s ≡ true
    pub row : find (is_row organization target.projection_id) s.projections ≡ some q
    pub unchanged : is_unchanged target q ≡ true
    pub finished : has_unfinished target s ≡ false

  settled_row-Settled :
      (s : Store) (q r : Projection)
      → settled_row target s q ≡ some r
      → (q ≡ r) × (is_unchanged target q ≡ true) × (has_unfinished target s ≡ false)
  settled_row-Settled s q r e = elim (Bool-cases (is_unchanged target q)) [
    | inr changed ↦ absurd (cc (rw changed at e))
    | inl same ↦ elim (Bool-cases (has_unfinished target s)) [
      | inl busy ↦ absurd (cc (rw (same, busy) at e))
      | inr free ↦ let row : some q ≡ some r = rw (same, free) at e in (cc row, same, free)
    ]
  ]

  pub find_current-IsReady :
      (s : Store) (q : Projection) → find_current organization target s ≡ some q → IsReady s q
  unfolding find_current
  find_current-IsReady s q e = elim (Bool-cases (is_authorized organization target s)) [
    | inr stopped ↦ absurd (cc (rw (stopped, find_current) at e))
    | inl running ↦
        elim (Option-cases (find (is_row organization target.projection_id) s.projections)) [
          | inl gone ↦ absurd (cc (rw (running, gone, find_current) at e))
          | inr (r, row) ↦
              let kept : settled_row target s r ≡ some q = rw (running, row, find_current) at e in
              let (same, unchanged, free) = settled_row-Settled s r q kept in
              record {
                authorized = running;
                row = row ∙ ap some same;
                unchanged = rw (sym same) unchanged;
                finished = free;
              }
        ]
  ]

  -- The copy that a repair replays: the one that the row stored, whose hash was read.
  abbrev pub IsEvidence : Option StoredCopy → DesiredCopy → Type 0
  IsEvidence stored previous =
      (stored ≡ some (document previous))
      × (names_target target previous ≡ true)
      × (hash_copy verifier.env previous ≡ ok target.desired_hash)

  if_same_hash-same :
      (desired previous : DesiredCopy) (hash : String)
      → if_same_hash target desired hash ≡ some previous
      → (desired ≡ previous) × (hash ≡ target.desired_hash)
  if_same_hash-same desired previous hash e = elim (Bool-cases (str_eq hash target.desired_hash)) [
    | inl same ↦
        let copy : some desired ≡ some previous = rw same at e in (cc copy, (str_eq_iff _ _).0 same)
    | inr other ↦ absurd (cc (rw other at e))
  ]

  pub recovery_copy-IsEvidence :
      (stored : Option StoredCopy) (previous : DesiredCopy)
      → recovery_copy verifier target stored ≡ ok (some previous)
      → IsEvidence stored previous
  unfolding recovery_copy
  recovery_copy-IsEvidence none previous e = absurd (cc e)
  recovery_copy-IsEvidence (some malformed) previous e = absurd (cc e)
  recovery_copy-IsEvidence (some (document desired)) previous e =
      elim (Bool-cases (names_target target desired)) [
        | inr other ↦ absurd (cc (rw other at e))
        | inl named ↦
            let chain : (hash_copy verifier.env desired >>= λ hash.
            ok (if_same_hash target desired hash))
                ≡ ok (some previous) =
              rw named at e in
            let (hash, hashes, last) =
              bind-eq-ok (hash_copy verifier.env desired)
                (λ hash. ok (if_same_hash target desired hash)) chain in
            let (same, read) = if_same_hash-same desired previous hash (cc last) in
            (
              ap (λ d. some (document d)) same,
              rw (sym same) named,
              rw (sym same) (hashes ∙ ap ok read),
            )
      ]
