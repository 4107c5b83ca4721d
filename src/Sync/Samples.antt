-- ===== src/Sync/Samples.antt =====
-- Stores, a provider and a policy that the examples of reconciliation and of the effect executor share.
use planipus.Common.{
  ℕ, ◌+◌, String, none, some, Bool, true, false, [], ◌∷◌, ◌==◌, if◌then◌else◌, ok,
}
use planipus.CalendarSync.Json.{null, codes}
use planipus.CalendarSync.Samples.{sample, work, source_event, bridge, fresh, created}
use planipus.Jobs.ErrorCode.{other}
use planipus.Jobs.Queue.{JobState}
use planipus.Sync.Store.{
  google, IntendedRole, ConnectionStatus, PolicyStatus, Observation, EffectOperation,
  ProjectionStatus, Projection, Effect, Store,
}
use planipus.Sync.Provider.{ProviderEventLookup, CalendarProvider, World}
use planipus.Sync.Effects.Steps.{Env, LeasedEffect}
use planipus.Sync.Effects.Missing.{Target}
use planipus.Sync.Effects.Lease.{leased_effect}
use planipus.Sync.Reconcile.Projecting.{Pass}
use planipus.Sync.Reconcile.Observe.{decided, Outcome, blocking_dead_effect, new_row, refreshed_row}
use planipus.Sync.Reconcile.Intents.{intended_effect}
use planipus.Sync.Reconcile.Drafts.{PolicyDraft}
use planipus.Sync.Reconcile.Passes.{Documents, Fresh}

abbrev pub present : ℕ
present = 2592000005

abbrev pub iso : ℕ → String
iso n = if n == present then "100" else if n == 5 then "0" else "900"

abbrev pub pass : Pass
pass = record {
  platform = sample;
  iso = iso;
  now = present;
  new_projection_id = "c1";
  new_effect_id = "f1";
  policy = bridge;
  capabilities = fresh.destination_capabilities;
  hours_profile = some work;
  horizon = none;
}

abbrev pub observation : Observation
observation = record {
  id = "ob1";
  organization_id = "org";
  calendar_endpoint_id = "home";
  recurrence_identity = "single";
  normalized_event = source_event;
  observation_hash = "h1";
  tombstone = false;
}

abbrev pub empty_store : Store
empty_store = record {
  connections =
      record {
        id = "k1";
        organization_id = "org";
        provider = google;
        account_label = "me";
        intended_role = IntendedRole.both;
        status = ConnectionStatus.active;
        safe_error_code = none;
        updated_at = 0;
      }
      ∷ [];
  endpoints =
      record {
        id = "home";
        organization_id = "org";
        connection_id = "k1";
        remote_id = "home@x";
        readable = true;
        writable = false;
      }
      ∷ record {
        id = "office";
        organization_id = "org";
        connection_id = "k1";
        remote_id = "office@x";
        readable = true;
        writable = true;
      }
      ∷ [];
  policies =
      record {
        id = "p1";
        organization_id = "org";
        source_calendar_id = "home";
        destination_calendar_id = "office";
        status = PolicyStatus.active;
        revision = 1;
        last_success_at = none;
        safe_error_code = none;
        updated_at = 0;
      }
      ∷ [];
  observations = observation ∷ [];
  projections = [];
  effects = [];
  jobs = [];
  audit = [];
  notices = [];
}

abbrev pub first_row : Projection
first_row = new_row pass "org" observation "sha256:short" created

abbrev pub first_effect : Effect
first_effect =
    intended_effect pass "org" observation "sha256:short" first_row EffectOperation.create
      "sha256:short"

abbrev pub planned : Store
planned = record empty_store { projections = first_row ∷ []; effects = first_effect ∷ [] }

abbrev pub planned_outcome : Outcome
planned_outcome = record {
  created = true;
  decision = decided created.selection created.operation created.primary_reason_code;
}

-- The copy was deleted, and an earlier effect on it is dead.
abbrev pub retained_row : Projection
retained_row = record first_row { status = ProjectionStatus.deleted }

abbrev pub dead_effect : Effect
dead_effect = record first_effect {
  id = "f0";
  state = JobState.dead;
  safe_error_code = some (codes "gone");
}

abbrev pub stuck : Store
stuck = record empty_store { projections = retained_row ∷ []; effects = dead_effect ∷ [] }

abbrev pub refreshed : Store
refreshed = record stuck {
  projections =
      refreshed_row pass "org" observation "sha256:short" retained_row created (some dead_effect)
        retained_row
      ∷ [];
}

abbrev pub refreshed_outcome : Outcome
refreshed_outcome = record {
  created = false;
  decision = blocking_dead_effect ProjectionStatus.failed;
}

abbrev pub env : Env
env = record {
  platform = sample;
  lower = λ t. t;
  no_result = other;
  unique_violation = other;
  now = present;
  new_effect_id = "f2";
  new_job_id = "j1";
}

-- The event of another program.
abbrev pub stranger : ProviderEventLookup
stranger = record { remote_event_id = "pc11"; remote_revision = "r1"; managed_identity = none }

-- A provider at whose calendar the stranger stands; its state counts the writes.
abbrev pub calendar : CalendarProvider ℕ
calendar = record {
  resolve = λ _. ok tt;
  access_token = λ _ _ n. (n, ok "token");
  get_event = λ _ _ _ _ n. (n, ok (some stranger));
  create_event =
      λ _ _ _ _ _ n. (n + 1, ok (record { remote_event_id = "pc11"; remote_revision = "r2" }));
  update_event =
      λ _ _ _ _ _ _ n. (n + 1, ok (record { remote_event_id = "pc11"; remote_revision = "r2" }));
  delete_event = λ _ _ _ _ _ n. (n + 1, ok tt);
}

abbrev pub granted : LeasedEffect
granted = leased_effect first_effect

abbrev pub held_effect : Effect
held_effect = record first_effect {
  state = JobState.leased;
  lease_owner = some "w1";
  lease_expires_at = some 2592600005;
  attempt_count = 1;
}

abbrev pub world : World ℕ
world = record { store = record planned { effects = held_effect ∷ [] }; remote = 0 }

abbrev pub target : Target
target = record {
  projection_id = "c1";
  generation = 1;
  intent_sequence = 1;
  destination_event_id = none;
  destination_etag = none;
  desired_hash = first_row.desired_hash;
  desired_state = first_row.desired_state;
  policy_revision = 1;
  calendar_remote_id = "office@x";
  connection_id = "k1";
  provider = google;
}

abbrev pub unlocked : Effect → Bool
unlocked e = false

abbrev pub draft : PolicyDraft
draft = record {
  source_calendar_id = "home";
  destination_calendar_id = "office";
  hours_profile_id = some "work";
  hours = none;
  has_hours_profile = false;
  privacy = bridge.privacy;
  selection = bridge.selection;
  color = none;
  destination_edits = null;
  horizon = none;
}

abbrev pub documents : Documents
documents = record {
  policy_document = λ _. draft;
  hours_profile_id = λ _. some "work";
  capabilities = λ _. null;
  hours_profiles = ("org", work) ∷ [];
}

abbrev pub ids : Observation → Fresh
ids o = record { now = present; new_projection_id = "c1"; new_effect_id = "f1" }
