-- ===== src/ConflictResponse/Overlap.antt =====
-- server/src/conflict-response/engine.ts: the counts of the preview.
use planipus.Common.{
  ℕ, ◌+◌, ◌-◌, ◌≤◌, max, String, Option, ltb, List, length, length-filter-le, arith,
}
use planipus.ConflictResponse.Records.{
  WorkInvitationCandidate, ConflictBusyInterval, max_automatic_declines_per_24_hours,
}
use planipus.ConflictResponse.Engine.{
  overlapping_busy_intervals, conflicting, lacks_revision, conflict_preview_result,
}

module _ (parse : String → Option ℕ) (invitations : List WorkInvitationCandidate)
    (busy : List ConflictBusyInterval) (applied : ℕ) where
  -- The counts of a preview are nested, and the conflicts that it does not hold are within the budget:
  -- with the declines of the last 24 hours they are at most 20, or there are none.
  pub conflict_preview_result-within_budget :
      let preview = conflict_preview_result parse invitations busy applied in
      (preview.budget_held_count ≤ preview.held_count)
      × (preview.held_count ≤ preview.conflict_count)
      × (preview.conflict_count ≤ preview.invitation_count)
      × ((preview.conflict_count - preview.held_count) + applied
          ≤ max max_automatic_declines_per_24_hours applied)
  unfolding conflict_preview_result conflicting
  conflict_preview_result-within_budget =
      let nested = length-filter-le lacks_revision (conflicting parse invitations busy) in
      let found =
        length-filter-le (λ i. ltb 0 (length (overlapping_busy_intervals parse i busy)))
          invitations in
      (omega arith, omega (arith, nested), omega (arith, found), omega (arith, nested))
