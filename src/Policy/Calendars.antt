-- ===== src/Policy/Calendars.antt =====
-- server/src/policy/service.ts: `requireNoConflictResponseRule`, `loadPolicyCalendarCapabilities` and
-- `requirePolicyCalendars`, with server/src/providers/calendar-identity.ts.
use Prim.Native.String
use planipus.Common.{
  ℕ, String, Option, none, some, Bool, not, ◌&&◌, ◌||◌, List, [], ◌∷◌, filter, find, any, str_eq,
  if◌then◌else◌, Result, ok, err,
}
use planipus.Sync.Store.{
  ProviderKind, google, fake, Connection, Endpoint, Policy, Store, is_connected, is_source_role,
  is_destination_role, find_connection,
}
use planipus.Sync.Effects.Missing.{decimal_text}
use planipus.Policy.Requests.{
  PolicyError, no_copy_rule_conflict, calendar_capability, same_provider_calendar,
  connection_role_changed,
}

-- A calendar of a rule of `conflict_response_rules` that keeps it for private availability.
pub record ProtectedCalendar : Type 0 where
  pub organization_id : String
  pub is_deleted_rule : Bool
  pub provider_calendar_identity : String

-- The columns of a policy that hold the identities of its calendars, the table of the protected calendars,
-- and `Buffer.byteLength`.
pub record Identities : Type 0 where
  pub source_provider_identity : Policy → String
  pub destination_provider_identity : Policy → String
  pub protected_calendars : List ProtectedCalendar
  pub byte_length : String → ℕ

pub record PolicyCalendar : Type 0 where
  pub endpoint : Endpoint
  pub connection : Connection

abbrev pub provider_text : ProviderKind → String
provider_text google = "google"
provider_text fake = "fake"

abbrev pub scope : ProviderKind → String → String
scope google connection_id = "global"
scope fake connection_id = connection_id

module _ (identities : Identities) (organization : String) where
  -- `${Buffer.byteLength(component, "utf8")}:${component}`, in front of `rest`.
  abbrev pub component : String → String → String
  unfolding decimal_text
  component text rest =
      decimal_text 16 (identities.byte_length text) (String.◌++◌ ":" (String.◌++◌ text rest))

  -- `providerCalendarIdentity`
  unfoldable pub provider_calendar_identity : PolicyCalendar → String
  provider_calendar_identity c = component (provider_text c.connection.provider) (
      component (scope c.connection.provider c.endpoint.connection_id)
        (component c.endpoint.remote_id String.[]))

  abbrev pub is_protected : String → String → ProtectedCalendar → Bool
  is_protected source destination c =
      str_eq c.organization_id organization
      && (not c.is_deleted_rule
          && (str_eq c.provider_calendar_identity source
              || str_eq c.provider_calendar_identity destination))

  unfoldable pub require_no_conflict_response_rule : Policy → Result PolicyError (Unit {0})
  require_no_conflict_response_rule p =
      if any
        (is_protected (identities.source_provider_identity p)
          (identities.destination_provider_identity p))
        identities.protected_calendars
      then err no_copy_rule_conflict
      else ok tt

  abbrev pub is_calendar_of : Policy → Endpoint → Bool
  is_calendar_of p e =
      str_eq e.organization_id organization
      && (str_eq e.id p.source_calendar_id || str_eq e.id p.destination_calendar_id)

  -- The calendars with their connections.
  unfoldable pub with_connections : Store → List Endpoint → List PolicyCalendar
  with_connections s [] = []
  with_connections s (e ∷ es) = elim (find_connection e.connection_id s) [
    | none ↦ with_connections s es
    | some c ↦ record { endpoint = e; connection = c } ∷ with_connections s es
  ]

  unfoldable pub load_policy_calendar_capabilities : Policy → Store → List PolicyCalendar
  load_policy_calendar_capabilities p s = with_connections s (filter (is_calendar_of p) s.endpoints)

  abbrev pub can_be_source : PolicyCalendar → Bool
  can_be_source c =
      is_connected c.connection.status
      && (c.endpoint.readable && is_source_role c.connection.intended_role)

  abbrev pub can_be_destination : PolicyCalendar → Bool
  can_be_destination c =
      is_connected c.connection.status
      && (c.endpoint.writable && is_destination_role c.connection.intended_role)

  unfoldable pub require_both :
      Option PolicyCalendar
      → Option PolicyCalendar
      → Result PolicyError (PolicyCalendar × PolicyCalendar)
  require_both (some source) (some destination) =
      if can_be_source source && can_be_destination destination
      then if str_eq (provider_calendar_identity source) (provider_calendar_identity destination)
        then err same_provider_calendar
        else ok (source, destination)
      else err calendar_capability
  require_both _ _ = err calendar_capability

  unfoldable pub require_policy_calendars :
      Policy → List PolicyCalendar → Result PolicyError (PolicyCalendar × PolicyCalendar)
  require_policy_calendars p calendars =
      require_both (find (λ c. str_eq c.endpoint.id p.source_calendar_id) calendars)
        (find (λ c. str_eq c.endpoint.id p.destination_calendar_id) calendars)

  -- The calendars are the ones that the policy was activated for.
  unfoldable pub require_same_identities :
      Policy → PolicyCalendar × PolicyCalendar → Result PolicyError (Unit {0})
  require_same_identities p calendars =
      if str_eq (provider_calendar_identity calendars.0) (identities.source_provider_identity p)
        && str_eq (provider_calendar_identity calendars.1)
            (identities.destination_provider_identity p)
      then ok tt
      else err connection_role_changed
