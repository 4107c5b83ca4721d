-- ===== src/Policy/Permitted.antt =====
-- server/src/policy/service.ts: what `setPaused` requires of the calendars of a policy.
use planipus.Common.{
  ◌≡◌, refl, ap, inl, inr, String, Option, none, some, true, false, ◌&&◌, any, find, str_eq,
  str_eq_iff, both_true, ok, ◌>>=◌, bind-eq-ok, ok_eq, Bool-cases,
}
use planipus.Sync.Store.{Policy, Store}
use planipus.Policy.Requests.{Caller, asked_policy}
use planipus.Policy.Calendars.{
  Identities, PolicyCalendar, provider_calendar_identity, is_protected,
  require_no_conflict_response_rule, load_policy_calendar_capabilities, can_be_source,
  can_be_destination, require_both, require_policy_calendars, require_same_identities,
}
use planipus.Policy.Pausing.{require_resumable, set_paused}
use planipus.Policy.Resumed.{resume-Checked, set_paused-resume}

module _ (caller : Caller) (identities : Identities) (organization : String) where
  -- The calendars of a policy may be read and written in their roles, are the ones that it was activated
  -- for, are different ones, and none of them is kept for private availability.
  pub record IsPermitted (p : Policy) (s : Store) : Type 0 where
    pub source : PolicyCalendar
    pub destination : PolicyCalendar
    pub source_found :
        find
          (λ c. str_eq c.endpoint.id p.source_calendar_id)
          (load_policy_calendar_capabilities identities organization p s)
        ≡ some source
    pub destination_found :
        find
          (λ c. str_eq c.endpoint.id p.destination_calendar_id)
          (load_policy_calendar_capabilities identities organization p s)
        ≡ some destination
    pub reads : can_be_source identities organization source ≡ true
    pub writes : can_be_destination identities organization destination ≡ true
    pub same_source :
        provider_calendar_identity identities organization source
        ≡ identities.source_provider_identity p
    pub same_destination :
        provider_calendar_identity identities organization destination
        ≡ identities.destination_provider_identity p
    pub different :
        str_eq (identities.source_provider_identity p) (identities.destination_provider_identity p)
        ≡ false
    pub unprotected :
        any
          (is_protected identities organization
            (identities.source_provider_identity p)
            (identities.destination_provider_identity p))
          identities.protected_calendars
        ≡ false

  no_rule-unprotected :
      (p : Policy)
      → require_no_conflict_response_rule identities organization p ≡ ok tt
      → any
          (is_protected identities organization
            (identities.source_provider_identity p)
            (identities.destination_provider_identity p))
          identities.protected_calendars
        ≡ false
  unfolding require_no_conflict_response_rule
  no_rule-unprotected p done =
      elim (Bool-cases (
        any
          (is_protected identities organization (identities.source_provider_identity p)
            (identities.destination_provider_identity p))
          identities.protected_calendars)) [
            | inl kept ↦ absurd (cc (rw (kept, require_no_conflict_response_rule) at done))
            | inr free ↦ free
          ]

  require_both-Found :
      (first second : Option PolicyCalendar) (found : PolicyCalendar × PolicyCalendar)
      → require_both identities organization first second ≡ ok found
      → (first ≡ some found.0)
        × (second ≡ some found.1)
        × (can_be_source identities organization found.0 ≡ true)
        × (can_be_destination identities organization found.1 ≡ true)
        × (str_eq
              (provider_calendar_identity identities organization found.0)
              (provider_calendar_identity identities organization found.1)
            ≡ false)
  unfolding require_both
  require_both-Found none second found done = absurd (cc done)
  require_both-Found (some a) none found done = absurd (cc done)
  require_both-Found (some a) (some b) found done =
      elim (Bool-cases
        (can_be_source identities organization a && can_be_destination identities organization b)) [
          | inr unfit ↦ absurd (cc (rw unfit at done))
          | inl fit ↦
              elim (Bool-cases (
                str_eq (provider_calendar_identity identities organization a)
                  (provider_calendar_identity identities organization b))) [
                    | inl one ↦ absurd (cc (rw (fit, one) at done))
                    | inr two ↦
                        let (reads, writes) =
                          both_true (can_be_source identities organization a) _ fit in
                        let same : (a, b) ≡ found = ok_eq refl (rw (fit, two) at done) in
                        let first : a ≡ found.0 =
                          ap (λ (x : PolicyCalendar × PolicyCalendar). x.0) same in
                        let second : b ≡ found.1 =
                          ap (λ (x : PolicyCalendar × PolicyCalendar). x.1) same in
                        (
                          ap some first,
                          ap some second,
                          rw first at reads,
                          rw second at writes,
                          rw (first, second) at two,
                        )
                  ]
        ]

  require_same_identities-same :
      (p : Policy) (found : PolicyCalendar × PolicyCalendar)
      → require_same_identities identities organization p found ≡ ok tt
      → (provider_calendar_identity identities organization found.0
          ≡ identities.source_provider_identity p)
        × (provider_calendar_identity identities organization found.1
            ≡ identities.destination_provider_identity p)
  unfolding require_same_identities
  require_same_identities-same p found done =
      elim (Bool-cases (
        str_eq (provider_calendar_identity identities organization found.0)
          (identities.source_provider_identity p)
        && str_eq (provider_calendar_identity identities organization found.1)
            (identities.destination_provider_identity p))) [
              | inr changed ↦ absurd (cc (rw (changed, require_same_identities) at done))
              | inl same ↦
                  let (source, destination) =
                    both_true
                      (str_eq (provider_calendar_identity identities organization found.0)
                        (identities.source_provider_identity p))
                      _ same in
                  ((str_eq_iff _ _).0 source, (str_eq_iff _ _).0 destination)
            ]

  require_resumable-IsPermitted :
      (p : Policy) (s : Store)
      → require_resumable caller identities organization p s ≡ ok tt
      → IsPermitted p s
  unfolding require_resumable require_policy_calendars
  require_resumable-IsPermitted p s done =
      let calendars = load_policy_calendar_capabilities identities organization p s in
      let (u, no_rule, rest) =
        bind-eq-ok (require_no_conflict_response_rule identities organization p)
          (λ _.
            require_policy_calendars identities organization p calendars
            >>= require_same_identities identities organization p)
          done in
      let (found, both, last) =
        bind-eq-ok (require_policy_calendars identities organization p calendars)
          (require_same_identities identities organization p) rest in
      let (first, second, reads, writes, different) = require_both-Found _ _ found both in
      let (source, destination) = require_same_identities-same p found last in
      record {
        source = found.0;
        destination = found.1;
        source_found = first;
        destination_found = second;
        reads = reads;
        writes = writes;
        same_source = source;
        same_destination = destination;
        different = rw (source, destination) at different;
        unprotected = no_rule-unprotected p no_rule;
      }

  -- A request that resumes a policy succeeds only where the calendars of the policy still may be read and
  -- written in their roles, are the ones that it was activated for, are different ones, and none of them is
  -- kept for private availability by a rule.
  pub set_paused-IsPermitted :
      (id : String) (p : Policy) (s after : Store)
      → asked_policy caller organization id s ≡ ok p
      → set_paused caller identities organization false id s ≡ ok after
      → IsPermitted p s
  set_paused-IsPermitted id p s after asked done =
      require_resumable-IsPermitted p s
        (resume-Checked caller identities organization p s after
          (set_paused-resume caller identities organization id p s after asked done)).0
