-- ===== src/Policy/PauseExamples.antt =====
-- Theorems on pausing at a concrete store: a worker holds an effect of a policy that was paused.
use mathlib.Core.List.{Memᴰ}
use planipus.Common.{ℕ, ◌≡◌, refl, none, some, true, false, [], ◌∷◌, Result, ok, err}
use planipus.Jobs.Queue.{is_waiting, insert_job, enqueue}
use planipus.Sync.Store.{
  ConnectionStatus, IntendedRole, google, PolicyStatus, Policy, Effect, Store,
}
use planipus.Sync.Provider.{World, ◌>>=◌, modify}
use planipus.Sync.Effects.Steps.{update_effect, defer, audit}
use planipus.Sync.Effects.Rows.{PolicyRow, find_policy, effect_policy_execution_disposition}
use planipus.Sync.Effects.Execute.{
  execute_disposed, execute_policy, execute_one_locked, execute_one,
}
use planipus.Sync.Samples.{env, calendar, granted, held_effect, world, empty_store}
use planipus.Policy.Requests.{PolicyError, asked_policy, enqueue_reconcile}
use planipus.Policy.Calendars.{
  Identities, provider_calendar_identity, require_no_conflict_response_rule, with_connections,
  load_policy_calendar_capabilities, require_both, require_policy_calendars,
  require_same_identities,
}
use planipus.Policy.Pausing.{require_resumable, resume, set_paused}
use planipus.Policy.Resumed.{paused_effect-resumes}
use planipus.Policy.Permitted.{IsPermitted, set_paused-IsPermitted}
use planipus.Policy.Examples.{caller, policy}

abbrev identities : Identities
identities = record {
  source_provider_identity = λ p. "1:google1:global1:home@x";
  destination_provider_identity = λ p. "1:google1:global1:office@x";
  protected_calendars = [];
  byte_length = λ text. 1;
}

abbrev paused : Policy
paused = record policy { status = PolicyStatus.paused }

abbrev paused_world : World ℕ
paused_world = record { store = record (world.store) { policies = paused ∷ [] }; remote = 0 }

abbrev out_of : Result PolicyError Store → Store
out_of (ok after) = after
out_of (err e) = empty_store

abbrev later : Store
later = (execute_one env calendar "w1" granted paused_world).0.store

abbrev after : Store
after = out_of (set_paused caller identities "org" false "p1" later)

is_asked : asked_policy caller "org" "p1" later ≡ ok paused
unfolding execute_one execute_one_locked find_policy execute_policy execute_disposed
    effect_policy_execution_disposition defer update_effect audit modify ◌>>=◌ asked_policy
is_asked = refl

is_resumed : set_paused caller identities "org" false "p1" later ≡ ok after
unfolding execute_one execute_one_locked find_policy execute_policy execute_disposed
    effect_policy_execution_disposition defer update_effect audit modify ◌>>=◌ asked_policy
    set_paused resume require_resumable require_no_conflict_response_rule
    load_policy_calendar_capabilities with_connections require_policy_calendars require_both
    require_same_identities provider_calendar_identity enqueue_reconcile enqueue insert_job
is_resumed = refl

abbrev row : PolicyRow
row = record {
  policy = paused;
  source = record {
    id = "home";
    organization_id = "org";
    connection_id = "k1";
    remote_id = "home@x";
    readable = true;
    writable = false;
  };
  connection = record {
    id = "k1";
    organization_id = "org";
    provider = google;
    account_label = "me";
    intended_role = IntendedRole.both;
    status = ConnectionStatus.active;
    safe_error_code = none;
    updated_at = 0;
  };
}

found_row : find_policy granted paused_world.store ≡ some row
unfolding find_policy
found_row = refl

paused_effect-resumes_example :
    ((execute_one env calendar "w1" granted paused_world).0.remote ≡ 0)
    × (r : Effect) × Memᴰ r after.effects
    × (r.id ≡ held_effect.id)
    × (is_waiting r.state ≡ true)
    × (r.run_after ≡ caller.env.now)
    × (r.lease_owner ≡ none)
    × (r.attempt_count ≡ 0)
    × (r.desired_state ≡ held_effect.desired_state)
paused_effect-resumes_example =
    paused_effect-resumes env calendar "w1" granted paused_world row held_effect caller identities
      "org" "p1" paused after found_row refl (Memᴰ.head refl) refl is_asked refl refl is_resumed

set_paused-IsPermitted_example : IsPermitted caller identities "org" paused later
set_paused-IsPermitted_example =
    set_paused-IsPermitted caller identities "org" "p1" paused later after is_asked is_resumed
