-- ===== src/Sync/Effects/Missing.antt =====
-- server/src/sync/effects.ts: the names of managed events, whose they are, and what the executor does
-- where a copy is missing at the destination.
use Prim.Native.Char.{Char, code}
use Prim.Native.String
use planipus.Common.{
  zero, suc, ◌/◌, ◌%◌, find, ℕ, ◌+◌, String, Option, none, some, Bool, true, false, not, ◌&&◌, ◌||◌,
  List, [], ◌∷◌, ◌==◌, str_eq, opt_str_eq, if◌then◌else◌, any, Result, ok, err,
}
use planipus.CalendarSync.Json.{
  JsonValue, JsonError, num, str, obj, member, no_members, codes, sha256_canonical,
}
use planipus.CalendarSync.Events.{DesiredCopy}
use planipus.CalendarSync.Evaluate.Transform.{desired_json}
use planipus.Jobs.ErrorCode.{named}
use planipus.Jobs.Queue.{JobState, is_live}
use planipus.Sync.Store.{
  ProviderKind, EffectOperation, StoredCopy, document, ProjectionStatus, Projection, Effect,
}
use planipus.Sync.Provider.{
  ProviderError, EffectError, provider_error, unexpected, ProviderEventLookup, M, ◌>>=◌, ◌>>◌, give,
}
use planipus.Sync.Effects.Steps.{
  Env, LeasedEffect, require_desired_copy, update_projection, audit, supersede,
}

-- The columns of the projection and its calendar that the row `target` has.
pub record Target : Type 0 where
  pub projection_id : String
  pub generation : ℕ
  pub intent_sequence : ℕ
  pub destination_event_id : Option String
  pub destination_etag : Option String
  pub desired_hash : Option String
  pub desired_state : Option StoredCopy
  pub policy_revision : ℕ
  pub calendar_remote_id : String
  pub connection_id : String
  pub provider : ProviderKind

-- `projectionId.replaceAll("-", "")`
without_dashes : String → String
without_dashes String.[] = String.[]
without_dashes (String.◌∷◌ c s) =
    let rest = without_dashes s in if code c == b'-' then rest else String.◌∷◌ c rest

abbrev digits : List (ℕ × Char)
digits =
    (0, "0")
    ∷ (1, "1")
    ∷ (2, "2")
    ∷ (3, "3")
    ∷ (4, "4")
    ∷ (5, "5")
    ∷ (6, "6")
    ∷ (7, "7")
    ∷ (8, "8")
    ∷ (9, "9")
    ∷ []

digit : ℕ → Char
digit n = elim (find (λ d. d.0 == n) digits) [ none ↦ "0" | some (m, c) ↦ c ]

-- The decimal text of a number of at most `fuel` digits, in front of `rest`.
unfoldable pub decimal_text : ℕ → ℕ → String → String
unfolding digit
decimal_text zero n rest = rest
decimal_text (suc fuel) n rest =
    let more = decimal_text fuel (n / 10) (String.◌∷◌ (digit (n % 10)) rest) in
    if n / 10 == 0 then String.◌∷◌ (digit (n % 10)) rest else more

-- A safe integer has 16 digits at most.
unfoldable pub managed_event_id : (String → String) → String → ℕ → String
unfolding without_dashes decimal_text
managed_event_id to_lower_case projection_id generation = String.◌++◌ "p" (
    String.◌++◌ (to_lower_case (without_dashes projection_id))
      (decimal_text 16 generation String.[]))

-- `eventBelongsToProjection`
unfoldable pub event_belongs_to_projection : ProviderEventLookup → String → String → ℕ → Bool
event_belongs_to_projection event policy_id projection_id generation = elim event.managed_identity [
  | none ↦ false
  | some identity ↦
      str_eq identity.policy_ref policy_id
      && str_eq identity.projection_ref projection_id
      && identity.generation == generation
]

abbrev pub ownership_mismatch : ProviderError
ownership_mismatch = record {
  code = "ownership_mismatch";
  retryable = false;
  ambiguous = false;
  status = none;
}

abbrev pub stale_missing_repair : ProviderError
stale_missing_repair = record {
  code = "stale_missing_repair";
  retryable = false;
  ambiguous = false;
  status = none;
}

-- A `TypeError` of canonical.ts.
abbrev pub hashed : Result JsonError String → Result EffectError String
hashed (ok h) = ok h
hashed (err _) = err (unexpected (named (codes "TypeError")))

unfoldable pub hash_copy : Env → DesiredCopy → Result EffectError String
hash_copy env desired =
    hashed (sha256_canonical env.platform.nfc env.platform.sha256 (desired_json desired))

unfoldable pub replacement_key_document : LeasedEffect → ℕ → ℕ → String → JsonValue
replacement_key_document effect generation intent desired_hash = obj (
    member "version" (num 1) (
      member "kind" (str "destination_missing_generation_repair") (
        member "policy_ref" (str effect.policy_id) (
          member "policy_revision" (num effect.policy_revision) (
            member "projection_ref" (str effect.projection_id) (
              member "generation" (num generation) (
                member "intent_sequence" (num intent) (
                  member "operation" (str "create")
                    (member "desired_fingerprint" (str desired_hash) no_members)))))))))

-- The copy of the next generation.
abbrev pub next_generation : ℕ → DesiredCopy → DesiredCopy
next_generation generation desired = record desired {
  provenance = record (desired.provenance) { generation = generation };
}

abbrev pub is_other_live : LeasedEffect → Effect → Bool
is_other_live effect e =
    str_eq e.projection_id effect.projection_id && not (str_eq e.id effect.id) && is_live e.state

-- `!target.desired_hash`, negated
abbrev pub has_hash : Option String → Bool
has_hash none = false
has_hash (some h) = not (str_eq h "")

module _ (env : Env) (effect : LeasedEffect) where
  abbrev pub replacement_effect : DesiredCopy → String → Effect
  replacement_effect desired key = record {
    id = env.new_effect_id;
    organization_id = effect.organization_id;
    policy_id = effect.policy_id;
    projection_id = effect.projection_id;
    source_basis_hash = effect.source_basis_hash;
    policy_revision = effect.policy_revision;
    operation = EffectOperation.create;
    idempotency_key = key;
    desired_state = some (document desired);
    state = JobState.pending;
    attempt_count = 0;
    run_after = env.now;
    lease_owner = none;
    lease_expires_at = none;
    ambiguous = false;
    safe_error_code = none;
    created_at = env.now;
    updated_at = env.now;
  }

  abbrev pub replaced_projection : ℕ → ℕ → String → DesiredCopy → Projection → Projection
  replaced_projection generation intent desired_hash desired q = record q {
    intent_sequence = intent;
    generation = generation;
    recovery_operation = none;
    destination_event_id = none;
    destination_etag = none;
    desired_hash = some desired_hash;
    desired_state = some (document desired);
    status = ProjectionStatus.pending;
    safe_error_code = some (codes "destination_missing");
    updated_at = env.now;
  }

  -- The tests of `scheduleReplacementAfterMissing` before its hashes.
  abbrev pub is_stale : Target → DesiredCopy → Bool
  is_stale target desired =
      not (target.policy_revision == effect.policy_revision)
      || not (str_eq desired.provenance.policy_ref effect.policy_id)
      || not (str_eq desired.provenance.projection_ref effect.projection_id)
      || not (desired.provenance.generation == target.generation)
      || not (has_hash target.desired_hash)

module _ (env : Env) {R : Type 0} (owner : String) (effect : LeasedEffect) where
  -- An `insert`: a key that is taken is an error of the database.
  unfoldable pub insert_effect : Effect → M R (Unit {0})
  insert_effect e w =
      if any (λ old. str_eq old.idempotency_key e.idempotency_key) w.store.effects
      then (w, err (unexpected env.unique_violation))
      else (record w { store = record (w.store) { effects = e ∷ w.store.effects } }, ok tt)

  abbrev pub require_fresh : Bool → M R (Unit {0})
  require_fresh true = give (ok tt)
  require_fresh false = give (err (provider_error stale_missing_repair))

  -- The repair proper: the end of `scheduleReplacementAfterMissing`.
  unfoldable pub advance_generation : Target → DesiredCopy → M R (Unit {0})
  advance_generation target desired = do
    let generation = target.generation + 1
    let intent = target.intent_sequence + 1
    let replacement = next_generation generation desired
    desired_hash ← give (hash_copy env replacement)
    key ← give (
        hashed (
          sha256_canonical env.platform.nfc env.platform.sha256
            (replacement_key_document effect generation intent desired_hash)))
    supersede env owner effect "destination_missing_generation_advanced"
    insert_effect (replacement_effect env effect replacement key)
    update_projection env effect.projection_id
        (replaced_projection env effect generation intent desired_hash replacement)
    audit env effect "copy.repair_scheduled" "destination_missing_generation_advanced"
        (some (env.new_effect_id, target.generation, generation))

  -- What is left of `scheduleReplacementAfterMissing` where there is no later intent.
  unfoldable pub repair_missing : Target → M R (Unit {0})
  repair_missing target = do
    desired ← give (require_desired_copy target.desired_state)
    effect_desired ← give (require_desired_copy effect.desired_state)
    require_fresh (not (is_stale env effect target desired))
    current ← give (hash_copy env desired)
    require_fresh (opt_str_eq target.desired_hash (some current))
    effect_hash ← give (hash_copy env effect_desired)
    require_fresh (opt_str_eq target.desired_hash (some effect_hash))
    advance_generation target desired

  unfoldable pub schedule_replacement_after_missing : Target → M R (Unit {0})
  schedule_replacement_after_missing target w =
      if any (is_other_live effect) w.store.effects
      then supersede env owner effect "destination_missing_newer_intent" w
      else repair_missing target w
