-- ===== src/Sync/Verification/Guards.antt =====
-- server/src/sync/verification.ts: what the transactions of the verifier read again before they write.
use planipus.Common.{
  String, Option, none, some, Bool, true, false, ◌&&◌, ◌==◌, str_eq, opt_str_eq, if◌then◌else◌, any,
  find, Result, ok, ◌>>=◌,
}
use planipus.CalendarSync.Events.{DesiredCopy}
use planipus.Jobs.Queue.{is_live}
use planipus.Sync.Store.{
  StoredCopy, document, malformed, ProjectionStatus, Projection, Store, is_policy, is_active_status,
}
use planipus.Sync.Provider.{EffectError}
use planipus.Sync.Effects.Missing.{hash_copy}
use planipus.Sync.Reconcile.Projecting.{is_attached}
use planipus.Sync.Verification.Decision.{Verifier, VerificationTarget}

abbrev pub is_converged : ProjectionStatus → Bool
is_converged ProjectionStatus.converged = true
is_converged _ = false

abbrev pub is_row : String → String → Projection → Bool
is_row organization id q = str_eq q.organization_id organization && str_eq q.id id

-- The policy still runs at the revision of the target.
unfoldable pub is_authorized : String → VerificationTarget → Store → Bool
is_authorized organization target s =
    elim (find (is_policy organization target.policy_id) s.policies) [
      | none ↦ false
      | some policy ↦ is_active_status policy.status && policy.revision == target.policy_revision
    ]

-- The row is still the one that the target was read from.
unfoldable pub is_unchanged : VerificationTarget → Projection → Bool
is_unchanged target q =
    is_converged q.status
    && (is_attached q.ownership
        && (q.policy_revision == target.policy_revision
            && (q.generation == target.generation
                && (opt_str_eq q.destination_event_id (some target.destination_event_id)
                    && (opt_str_eq q.destination_etag target.destination_revision
                        && opt_str_eq q.desired_hash (some target.desired_hash))))))

unfoldable pub has_unfinished : VerificationTarget → Store → Bool
has_unfinished target s =
    any (λ e. str_eq e.projection_id target.projection_id && is_live e.state) s.effects

abbrev pub settled_row : VerificationTarget → Store → Projection → Option Projection
settled_row target s q =
    if is_unchanged target q then if has_unfinished target s then none else some q else none

-- The row that a transaction may change, if there is one.
unfoldable pub find_current : String → VerificationTarget → Store → Option Projection
find_current organization target s =
    if is_authorized organization target s
    then elim (find (is_row organization target.projection_id) s.projections) [
      | none ↦ none
      | some q ↦ settled_row target s q
    ]
    else none

abbrev pub names_target : VerificationTarget → DesiredCopy → Bool
names_target target desired =
    str_eq desired.provenance.policy_ref target.policy_id
    && (str_eq desired.provenance.projection_ref target.projection_id
        && desired.provenance.generation == target.generation)

abbrev pub if_same_hash : VerificationTarget → DesiredCopy → String → Option DesiredCopy
if_same_hash target desired hash = if str_eq hash target.desired_hash then some desired else none

-- The stored copy of the row, where it names the target and has the hash that was read. A document that
-- is not a copy names no target.
unfoldable pub recovery_copy :
    Verifier → VerificationTarget → Option StoredCopy → Result EffectError (Option DesiredCopy)
recovery_copy verifier target none = ok none
recovery_copy verifier target (some malformed) = ok none
recovery_copy verifier target (some (document desired)) =
    if names_target target desired
    then (hash_copy verifier.env desired >>= λ hash. ok (if_same_hash target desired hash))
    else ok none
