-- ===== src/Policy/Examples.antt =====
-- Theorems on the requests of a user at a concrete store, in which an effect is dead.
use mathlib.Core.List.{Memᴰ}
use planipus.Common.{
  ℕ, ◌≤◌, ◌≡◌, refl, none, Bool, false, [], ◌∷◌, Result, ok, err, str_eq, sym, ◌∙◌, inl, inr,
}
use planipus.CalendarSync.Samples.{evaluation}
use planipus.Sync.Store.{
  ActorKind, ProjectionStatus, Projection, Policy, Store, PolicyStatus, Effect,
}
use planipus.Sync.Samples.{env, stuck, retained_row, dead_effect}
use planipus.Policy.Requests.{PolicyError, Caller, asked_policy, enqueue_reconcile}
use planipus.Policy.Recovery.{
  retry_row, retry_blocked, replay, refresh, recover_waiting, replay_or_recover, retry_from,
  retry_rows,
}
use planipus.Policy.Current.{IsUnique, Advances}
use planipus.Policy.Retried.{Retries, retry_row-Retries}
use planipus.Policy.Blocked.{retry_blocked-Advances}
use planipus.Common.Sorting.{sort}
use mathlib.Core.List.Memᴰ
use planipus.Jobs.Queue.{insert_job, enqueue}
use planipus.Sync.Effects.Missing.{hash_copy}
use planipus.Sync.Effects.Rows.{source_observation_basis_hash}
use planipus.Sync.Reconcile.Projecting.{projection_persistence_for_result}
use planipus.Policy.Evidence.{blocked_rows, source_basis, first_dead, payload_matches}

abbrev pub caller : Caller
caller = record {
  env = env;
  is_uuid = λ id. str_eq id "p1";
  principal_id = "me";
  actor_kind = ActorKind.user;
  actor_token_id = none;
  policy_hash = λ p. "sha256:short";
  other_hash = λ q. ok "sha256:other";
  new_effect_id = λ id. "f9";
  new_job_id = λ id. "j9";
}

abbrev failed_row : Projection
failed_row = record retained_row { status = ProjectionStatus.failed }

abbrev failing : Store
failing = record stuck { projections = failed_row ∷ [] }

abbrev out_of : Result PolicyError (Store × ℕ) → Store × ℕ
out_of (ok out) = out
out_of (err e) = (failing, 7)

abbrev retried : Store × ℕ
retried = out_of (retry_blocked caller "org" "p1" failing)

is_retried : retry_blocked caller "org" "p1" failing ≡ ok retried
unfolding evaluation asked_policy retry_blocked blocked_rows sort retry_rows retry_row source_basis
    source_observation_basis_hash retry_from first_dead payload_matches hash_copy replay_or_recover
    replay projection_persistence_for_result
is_retried = refl

one_retried : retried.1 ≡ 1
unfolding evaluation asked_policy retry_blocked blocked_rows sort retry_rows retry_row source_basis
    source_observation_basis_hash retry_from first_dead payload_matches hash_copy replay_or_recover
    replay projection_persistence_for_result
one_retried = refl

only_dead : (e : Effect) → Memᴰ e failing.effects → e ≡ dead_effect
only_dead e m = elim (Memᴰ.cases_cons m) [
  | inl same ↦ same
  | inr none_left ↦ absurd (Memᴰ.not-nil none_left)
]

failing-IsUnique : IsUnique failing
failing-IsUnique a b m n dead dead_too same = only_dead a m ∙ sym (only_dead b n)

abbrev pub policy : Policy
policy = record {
  id = "p1";
  organization_id = "org";
  source_calendar_id = "home";
  destination_calendar_id = "office";
  status = PolicyStatus.active;
  revision = 1;
  last_success_at = none;
  safe_error_code = none;
  updated_at = 0;
}

retry_blocked-Advances_example :
    (p : Policy) × (asked_policy caller "org" "p1" failing ≡ ok p)
    × Advances caller "org" p failing retried.0
    × (retried.1 ≤ 100)
retry_blocked-Advances_example =
    retry_blocked-Advances caller "org" "p1" failing retried failing-IsUnique is_retried

-- The source changed, so that the effect is superseded.
abbrev changed : Store
changed = record failing { observations = [] }

abbrev out_of_turn : Result PolicyError (Store × Bool) → Store × Bool
out_of_turn (ok out) = out
out_of_turn (err e) = (failing, false)

abbrev turn : Store × Bool
turn = out_of_turn (retry_row caller "org" policy failed_row changed)

is_turn : retry_row caller "org" policy failed_row changed ≡ ok turn
unfolding evaluation sort retry_row source_basis retry_from first_dead payload_matches hash_copy
    replay_or_recover projection_persistence_for_result recover_waiting refresh enqueue_reconcile
    enqueue insert_job
is_turn = refl

retry_row-Retries_example : Retries caller "org" policy failed_row changed turn
retry_row-Retries_example =
    retry_row-Retries caller "org" policy failed_row changed turn failing-IsUnique is_turn
