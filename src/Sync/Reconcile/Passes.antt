-- ===== src/Sync/Reconcile/Passes.antt =====
-- server/src/sync/reconciliation.ts: `reconcile`, a pass over all observations of a policy's source.
-- Other transactions do not change the observations meanwhile; each transaction has its own time and
-- new ids.
use planipus.Common.{
  ℕ, zero, suc, ◌+◌, String, Option, none, some, Bool, true, false, not, ◌&&◌, List, [], ◌∷◌, ltb,
  str_eq, find, filter, take, length, Result, ok, err, if◌then◌else◌,
}
use planipus.Common.Sorting.{sort}
use planipus.CalendarSync.Json.{JsonValue, text_le}
use planipus.CalendarSync.Types.{HoursProfile}
use planipus.Sync.Store.{
  Policy, Endpoint, Connection, Observation, Store, is_policy, is_connected, is_source_role,
  is_destination_role, find_endpoint, find_connection,
}
use planipus.Sync.Provider.{EffectError}
use planipus.Sync.Effects.Rows.{join}
use planipus.Sync.Reconcile.Drafts.{PolicyDraft}
use planipus.Sync.Reconcile.Observe.{PassDecision, Outcome}

-- The columns of policies and calendars that a pass only reads, and the table of hours profiles.
pub record Documents : Type 0 where
  pub policy_document : String → PolicyDraft
  pub hours_profile_id : String → Option String
  pub capabilities : String → JsonValue
  pub hours_profiles : List (String × HoursProfile)

-- What the transaction of an observation takes from outside.
pub record Fresh : Type 0 where
  pub now : ℕ
  pub new_projection_id : String
  pub new_effect_id : String

-- The row `policy`: the policy with both calendars and their connections.
pub record PassRow : Type 0 where
  pub policy : Policy
  pub source : Endpoint
  pub source_connection : Connection
  pub destination : Endpoint
  pub destination_connection : Connection

unfoldable pub find_pass_row : String → String → Store → Option PassRow
find_pass_row organization id s = join (find (is_policy organization id) s.policies) (λ policy.
    join (find_endpoint policy.source_calendar_id s) (λ source.
      join (find_connection source.connection_id s) (λ source_connection.
        join (find_endpoint policy.destination_calendar_id s) (λ destination.
          join (find_connection destination.connection_id s) (λ destination_connection.
            some (record {
              policy = policy;
              source = source;
              source_connection = source_connection;
              destination = destination;
              destination_connection = destination_connection;
            }))))))

abbrev pub connects : PassRow → Bool
connects row =
    row.source.readable
    && is_connected row.source_connection.status
    && is_source_role row.source_connection.intended_role
    && row.destination.writable
    && is_connected row.destination_connection.status
    && is_destination_role row.destination_connection.intended_role

-- `ReconciliationSummary`: the decisions stand for their counts.
pub data PassCounts : Type 0 where
  not_found paused connection_role_changed : PassCounts
  decisions : List PassDecision → PassCounts

pub record ReconciliationSummary : Type 0 where
  pub evaluated : ℕ
  pub effects_created : ℕ
  pub counts : PassCounts

-- What the loop has counted: observations, effects and decisions.
pub record Tally : Type 0 where
  pub evaluated : ℕ
  pub effects_created : ℕ
  pub decided : List PassDecision

abbrev pub tally_outcome : Outcome → Tally → Tally
tally_outcome out t = record t {
  effects_created = if out.created then t.effects_created + 1 else t.effects_created;
  decided = out.decision ∷ t.decided;
}

abbrev pub stopped : PassCounts → ReconciliationSummary
stopped counts = record { evaluated = 0; effects_created = 0; counts = counts }

abbrev pub summary_of_tally : Tally → ReconciliationSummary
summary_of_tally t = record {
  evaluated = t.evaluated;
  effects_created = t.effects_created;
  counts = decisions t.decided;
}

abbrev pub page_size : ℕ
page_size = 1000

-- `if (afterId)`: ids are UUIDs, and never empty.
abbrev pub is_after : Option String → Observation → Bool
is_after none o = true
is_after (some id) o = not (text_le o.id id)

-- `observations.at(-1)?.id`
abbrev pub last_id : List Observation → Option String
last_id [] = none
last_id (o ∷ []) = some o.id
last_id (o ∷ p ∷ os) = last_id (p ∷ os)

module _ (organization : String) (calendar : String) (rows : List Observation) where
  abbrev pub is_candidate : Option String → Observation → Bool
  is_candidate after o =
      (str_eq o.organization_id organization && str_eq o.calendar_endpoint_id calendar)
      && is_after after o

  unfoldable pub next_page : Option String → List Observation
  unfolding sort
  next_page after =
      take page_size (sort (λ a b. text_le a.id b.id) (filter (is_candidate after) rows))

-- The transactions of a page, one after the other; an error leaves the rest of the page undone.
abbrev pub Transaction : Type 0
Transaction = Observation → Store → Result EffectError (Store × Outcome)

unfoldable pub reconcile_page :
    Transaction → List Observation → Tally → Store → Store × Result EffectError Tally
reconcile_page step [] t s = (s, ok t)
reconcile_page step (o ∷ os) t s = elim (step o s) [
  | ok (after, out) ↦ reconcile_page step os (tally_outcome out t) after
  | err e ↦ (s, err e)
]

-- The loop over pages; `none` where the fuel, a bound on the number of pages, runs out.
unfoldable pub reconcile_pages :
    Transaction
    → (Option String → List Observation)
    → ℕ
    → Option String
    → Tally
    → Store
    → Option (Store × Result EffectError Tally)
unfolding reconcile_page
reconcile_pages step page zero after t s = none
reconcile_pages step page (suc fuel) after t s =
    let observations = page after in
    let (done, answer) = reconcile_page step observations t s in
    elim answer [
      | err e ↦ some (done, err e)
      | ok tally ↦
          let counted = record tally { evaluated = tally.evaluated + length observations } in
          elim (ltb (length observations) page_size) [
            | true ↦ some (done, ok counted)
            | false ↦ reconcile_pages step page fuel (last_id observations) counted done
          ]
    ]

abbrev pub empty_tally : Tally
empty_tally = record { evaluated = 0; effects_created = 0; decided = [] }
