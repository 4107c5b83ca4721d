-- ===== src/Sync/Reconcile/Run.antt =====
-- server/src/sync/reconciliation.ts: the gate of `reconcile`, its pages, and its last statement.
use planipus.Common.{
  ℕ, suc, String, Option, none, some, Bool, true, false, ◌&&◌, List, length, str_eq, find, Result,
  ok, err,
}
use planipus.CalendarSync.Json.{codes}
use planipus.CalendarSync.Types.{HoursProfile}
use planipus.CalendarSync.Platform.{Platform}
use planipus.CalendarSync.Events.{PolicyState}
use planipus.Sync.Store.{
  PolicyStatus, Policy, Observation, Store, is_policy, is_active_status, update_where,
}
use planipus.Sync.Provider.{EffectError}
use planipus.Sync.Effects.Attempt.{truthy}
use planipus.Sync.Effects.Rows.{join}
use planipus.Sync.Reconcile.Projecting.{
  Pass, mark_destination_identity_invitation, observation_for_evaluation,
}
use planipus.Sync.Reconcile.Drafts.{compile_policy_draft, destination_capabilities}
use planipus.Sync.Reconcile.Intents.{reconcile_observation}
use planipus.Sync.Reconcile.Passes.{
  Documents, Fresh, PassRow, find_pass_row, connects, not_found, paused, connection_role_changed,
  ReconciliationSummary, Tally, stopped, summary_of_tally, next_page, Transaction, reconcile_pages,
  empty_tally,
}

abbrev pub Answer : Type 0
Answer = Option (Store × Result EffectError ReconciliationSummary)

abbrev pub set_policies : (Policy → Bool) → (Policy → Policy) → Store → Store
set_policies test set s = record s { policies = update_where test set s.policies }

unfoldable pub load_hours_profile :
    List (String × HoursProfile) → String → Option String → Option HoursProfile
load_hours_profile profiles organization id = join (truthy id) (λ profile.
    join (find (λ p. str_eq p.0 organization && str_eq p.1.profile_ref profile) profiles)
      (λ p. some p.1))

-- `now` is the time of the pass's own statements; `fresh` has what each transaction takes.
module _ (platform : Platform) (iso : ℕ → String) (now : ℕ) (fresh : Observation → Fresh)
    (documents : Documents) (organization id : String) where
  abbrev pub pass_of : PassRow → Observation → Pass
  pass_of row o =
      let draft = documents.policy_document id in
      let taken = fresh o in
      record {
        platform = platform;
        iso = iso;
        now = taken.now;
        new_projection_id = taken.new_projection_id;
        new_effect_id = taken.new_effect_id;
        policy = compile_policy_draft draft id row.policy.revision PolicyState.active none;
        capabilities =
            destination_capabilities (documents.capabilities row.destination.id)
              row.destination.writable;
        hours_profile =
            load_hours_profile documents.hours_profiles organization
              (documents.hours_profile_id id);
        horizon = draft.horizon;
      }

  unfoldable pub step_of : PassRow → Transaction
  step_of row o s =
      reconcile_observation (pass_of row o) organization o
        (mark_destination_identity_invitation platform
          (observation_for_evaluation o.normalized_event o.tombstone)
          row.destination_connection.account_label)
        s

  abbrev pub mark_success : Store → Store
  mark_success =
      set_policies (is_policy organization id)
        (λ q. record q { last_success_at = some now; safe_error_code = none; updated_at = now })

  abbrev pub mark_role_changed : Store → Store
  mark_role_changed =
      set_policies (λ q. is_policy organization id q && is_active_status q.status)
        (λ q. record q {
          safe_error_code = some (codes "connection_role_changed");
          updated_at = now;
        })

  abbrev pub finish_pass : Option (Store × Result EffectError Tally) → Answer
  finish_pass none = none
  finish_pass (some (s, err e)) = some (s, err e)
  finish_pass (some (s, ok t)) = some (mark_success s, ok (summary_of_tally t))

  -- A page has at least one observation that no page before had, so there are fewer pages than this.
  unfoldable pub reconcile_active : PassRow → Store → Answer
  reconcile_active row s = finish_pass (
      reconcile_pages (step_of row)
        (next_page organization row.policy.source_calendar_id s.observations)
        (suc (length s.observations)) none empty_tally s)

  unfoldable pub reconcile_row : Option PassRow → Store → Answer
  reconcile_row none s = some (s, ok (stopped not_found))
  reconcile_row (some row) s = elim row.policy.status [
    | PolicyStatus.deleted ↦ some (s, ok (stopped not_found))
    | PolicyStatus.paused ↦ some (s, ok (stopped paused))
    | PolicyStatus.active ↦ elim (connects row) [
      | true ↦ reconcile_active row s
      | false ↦ some (mark_role_changed s, ok (stopped connection_role_changed))
    ]
  ]

  unfoldable pub reconcile : Store → Answer
  reconcile s = reconcile_row (find_pass_row organization id s) s
