-- ===== src/Sync/Provider.antt =====
-- server/src/providers/types.ts and router.ts: the provider interface that the effect executor calls,
-- its errors, and programs that run against the store and a provider.
use planipus.Common.{ap, refl, ◌≡◌, ℕ, String, Option, Bool, Result, ok, err}
use planipus.CalendarSync.Json.{codes}
use planipus.CalendarSync.Events.{DesiredCopy}
use planipus.Jobs.ErrorCode.{Thrown, coded}
use planipus.Sync.Store.{ProviderKind, Store}

pub record ProviderError : Type 0 where
  pub code : String
  pub retryable : Bool
  pub ambiguous : Bool
  pub status : Option ℕ

-- What the executor may catch.
pub data EffectError : Type 0 where
  provider_error : ProviderError → EffectError
  unexpected : Thrown → EffectError

abbrev pub thrown_of : EffectError → Thrown
thrown_of (provider_error e) = coded (codes e.code)
thrown_of (unexpected t) = t

pub record ProviderWriteResult : Type 0 where
  pub remote_event_id : String
  pub remote_revision : String

pub record ProviderManagedIdentity : Type 0 where
  pub policy_ref : String
  pub projection_ref : String
  pub generation : ℕ

pub record ProviderEventLookup : Type 0 where
  pub remote_event_id : String
  pub remote_revision : String
  pub managed_identity : Option ProviderManagedIdentity

-- A call on the state `R` of the providers.
abbrev pub Call : Type 0 → Type 0 → Type 0
Call R A = R → R × Result EffectError A

-- `CalendarProvider` as far as the executor calls it. `resolve` stands for `ProviderRouter.resolve`,
-- and `access_token` for the token broker.
pub record CalendarProvider (R : Type 0) : Type 0 where
  pub resolve : ProviderKind → Result EffectError (Unit {0})
  pub access_token : String → String → Call R String
  pub get_event : ProviderKind → String → String → String → Call R (Option ProviderEventLookup)
  pub create_event :
      ProviderKind → String → String → String → DesiredCopy → Call R ProviderWriteResult
  pub update_event :
      ProviderKind
      → String
      → String
      → String
      → Option String
      → DesiredCopy
      → Call R ProviderWriteResult
  pub delete_event : ProviderKind → String → String → String → Option String → Call R (Unit {0})

-- The store within the transaction, and the providers.
pub record World (R : Type 0) : Type 0 where
  pub store : Store
  pub remote : R

abbrev pub M : Type 0 → Type 0 → Type 0
M R A = World R → World R × Result EffectError A

infixl 5 ◌>>=◌
unfoldable pub ◌>>=◌ : {R A B : Type 0} → M R A → (A → M R B) → M R B
◌>>=◌ m f w = let (after, answer) = m w in elim answer [ ok a ↦ f a after | err e ↦ (after, err e) ]

infixl 5 ◌>>◌
abbrev pub ◌>>◌ : {R B : Type 0} → M R (Unit {0}) → M R B → M R B
m >> k = m >>= λ _. k

unfoldable pub give : {R A : Type 0} → Result EffectError A → M R A
give r w = (w, r)

-- A statement on the store.
unfoldable pub modify : {R : Type 0} → (Store → Store) → M R (Unit {0})
modify f w = (record w { store = f w.store }, ok tt)

unfoldable pub call : {R A : Type 0} → Call R A → M R A
call f w = let (after, answer) = f w.remote in (record w { remote = after }, answer)

-- `try { body } catch (error) { handler }`: what the body wrote stays written.
unfoldable pub try_catch : {R A : Type 0} → M R A → (EffectError → M R A) → M R A
try_catch body handler w =
    let (after, answer) = body w in elim answer [ ok a ↦ (after, ok a) | err e ↦ handler e after ]

module _ {R A B : Type 0} {r : Result EffectError A} (f : A → M R B) (w : World R) where
  pub give-bind-ok : {a : A} → r ≡ ok a → (give r >>= f) w ≡ f a w
  unfolding give ◌>>=◌
  give-bind-ok e = rw e refl

  pub give-bind-err : {x : EffectError} → r ≡ err x → (give r >>= f) w ≡ (w, err x)
  unfolding give ◌>>=◌
  give-bind-err e = rw e refl

pub bind-ok :
    {R A B : Type 0} (m : M R A) (f : A → M R B) (w : World R) {w' : World R} {a : A}
    → m w ≡ (w', ok a)
    → (m >>= f) w ≡ f a w'
unfolding ◌>>=◌
bind-ok m f w e = ap (λ x. elim (x.1) [ ok a ↦ f a x.0 | err y ↦ (x.0, err y) ]) e
