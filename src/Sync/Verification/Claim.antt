-- ===== src/Sync/Verification/Claim.antt =====
-- server/src/sync/verification.ts: `claimDue` and `loadTarget`.
use planipus.Common.{
  ℕ, ◌+◌, ◌*◌, String, Option, none, some, Bool, true, false, not, ◌&&◌, ◌||◌, List, map, ltb,
  str_eq, if◌then◌else◌, any, filter, find, take, is_some,
}
use planipus.Common.Sorting.{sort}
use planipus.CalendarSync.Json.{text_le}
use planipus.CalendarSync.DestinationEdits.{normalize_destination_edit_policy}
use planipus.Sync.Store.{
  Projection, Policy, Endpoint, Connection, StoredCopy, Store, is_active_status, is_connected,
  is_destination_role, find_endpoint, find_connection, update_where,
}
use planipus.Sync.Effects.Attempt.{truthy}
use planipus.Sync.Effects.Rows.{join}
use planipus.Sync.Reconcile.Projecting.{is_attached}
use planipus.Sync.Verification.Decision.{Verifier, VerificationTarget}
use planipus.Sync.Verification.Guards.{is_converged, is_row}

abbrev pub destination_verification_interval_milliseconds : ℕ
destination_verification_interval_milliseconds = 15 * 60000

abbrev pub max_destination_verifications_per_job : ℕ
max_destination_verifications_per_job = 100

-- A row that was never verified is due, and one that was verified before the cutoff.
abbrev pub is_due : ℕ → Option ℕ → Bool
is_due now none = true
is_due now (some verified) = ltb (verified + destination_verification_interval_milliseconds) now

-- Rows that were never verified come first.
abbrev pub verified_lt : Option ℕ → Option ℕ → Bool
verified_lt none none = false
verified_lt none (some b) = true
verified_lt (some a) none = false
verified_lt (some a) (some b) = ltb a b

abbrev pub oldest_le : Projection → Projection → Bool
oldest_le a b =
    verified_lt a.last_verified_at b.last_verified_at
    || (not (verified_lt b.last_verified_at a.last_verified_at) && text_le a.id b.id)

abbrev pub has_active_policy : String → Store → Projection → Bool
has_active_policy organization s q =
    any
      (λ (p : Policy).
        str_eq p.id q.policy_id
        && (str_eq p.organization_id organization && is_active_status p.status))
      s.policies

unfoldable pub is_claimable : String → ℕ → Store → Projection → Bool
is_claimable organization now s q =
    str_eq q.organization_id organization
    && (has_active_policy organization s q
        && (is_converged q.status
            && (is_attached q.ownership
                && (is_some q.destination_event_id
                    && (is_some q.desired_state
                        && (is_some q.desired_hash && is_due now q.last_verified_at))))))

-- `locked` are the rows that other transactions hold.
unfoldable pub due_rows : String → ℕ → (Projection → Bool) → ℕ → Store → List Projection
due_rows organization now locked limit s = take limit (
    sort oldest_le
      (filter (λ q. is_claimable organization now s q && not (locked q)) s.projections))

unfoldable pub claim_due : String → ℕ → (Projection → Bool) → ℕ → Store → List String × Store
claim_due organization now locked limit s =
    let ids = map (λ (q : Projection). q.id) (due_rows organization now locked limit s) in
    (
      ids,
      record s {
        projections =
            update_where (λ q. any (λ id. str_eq id q.id) ids)
              (λ q. record q { last_verified_at = some now }) s.projections;
      },
    )

abbrev pub is_loadable : String → String → Projection → Bool
is_loadable organization id q =
    is_row organization id q && (is_converged q.status && is_attached q.ownership)

abbrev pub can_be_read : Endpoint → Connection → Bool
can_be_read calendar connection =
    calendar.writable
    && (is_connected connection.status && is_destination_role connection.intended_role)

module _ (verifier : Verifier) (organization : String) where
  abbrev pub target_of :
      Projection
      → Policy
      → Endpoint
      → Connection
      → String
      → String
      → StoredCopy
      → VerificationTarget
  target_of q policy calendar connection event hash desired = record {
    projection_id = q.id;
    policy_id = q.policy_id;
    policy_revision = q.policy_revision;
    source_basis_hash = q.source_basis_hash;
    generation = q.generation;
    intent_sequence = q.intent_sequence;
    destination_event_id = event;
    destination_revision = q.destination_etag;
    desired_hash = hash;
    desired_state = desired;
    calendar_remote_id = calendar.remote_id;
    connection_id = connection.id;
    provider = connection.provider;
    destination_edits = normalize_destination_edit_policy (verifier.destination_edits policy);
  }

  unfoldable pub load_target : String → Store → Option VerificationTarget
  load_target id s = join (find (is_loadable organization id) s.projections) (λ q.
      join (find (λ p. str_eq p.id q.policy_id && is_active_status p.status) s.policies) (λ policy.
        join (find_endpoint q.destination_calendar_id s) (λ calendar.
          join (find_connection calendar.connection_id s) (λ connection.
            join (truthy q.destination_event_id) (λ event. join (truthy q.desired_hash) (λ hash.
              join q.desired_state (λ desired.
                if can_be_read calendar connection
                then some (target_of q policy calendar connection event hash desired)
                else none)))))))
