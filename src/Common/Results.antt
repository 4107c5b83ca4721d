-- ===== src/Common/Results.antt =====
-- Code that may throw: a value, or the error that is thrown.
use mathlib.Core.Path.{◌≡◌, refl, ap₂, fun_ext}
use mathlib.Core.Logic.{◌⊎◌, inl, inr}
use mathlib.Core.Bool.{Bool, true, false}
use mathlib.Core.Option.{Option, none, some}

pub data Result {ℓ κ} (E : Type κ) (A : Type ℓ) : Type (ℓ ⊔ κ) where
  ok : A → Result E A
  err : E → Result E A

infixl 5 ◌>>=◌
abbrev pub ◌>>=◌ {ℓ κ μ} :
    {E : Type μ} {A : Type ℓ} {B : Type κ} → Result E A → (A → Result E B) → Result E B
ok a >>= f = f a
err e >>= f = err e

-- A call of a library function that throws `e` where it has no result.
abbrev pub or_throw {ℓ μ} : {E : Type μ} {A : Type ℓ} → E → Option A → Result E A
or_throw e none = err e
or_throw e (some a) = ok a

-- Both parts of a chain have a value, and the last one is `out`.
abbrev pub Chain {ℓ κ μ} :
    {E : Type μ} {A : Type ℓ} {B : Type κ} → Result E A → (A → Result E B) → B → Type (ℓ ⊔ κ ⊔ μ)
Chain {A} first next out = (x : A) × (first ≡ ok x) × (next x ≡ ok out)

pub bind-eq-ok {ℓ κ μ} :
    {E : Type μ} {A : Type ℓ} {B : Type κ} (first : Result E A) (next : A → Result E B) {out : B}
    → (first >>= next) ≡ ok out
    → Chain first next out
bind-eq-ok (ok x) next done = (x, refl, done)
bind-eq-ok (err failure) next done = absurd (cc done)

infixl 5 ◌>>◌
abbrev pub ◌>>◌ {ℓ μ} : {E : Type μ} {B : Type ℓ} → Result E (Unit {0}) → Result E B → Result E B
m >> k = m >>= λ _. k

-- An early `return e`, or an exception, under a condition.
abbrev pub stop_if {μ} : {E : Type μ} → Bool → E → Result E (Unit {0})
stop_if true e = err e
stop_if false e = ok tt

pub bind_congr {ℓ κ μ} :
    {E : Type μ} {A : Type ℓ} {B : Type κ} {m m' : Result E A} {f f' : A → Result E B}
    → m ≡ m'
    → ((a : A) → f a ≡ f' a)
    → (m >>= f) ≡ (m' >>= f')
bind_congr e g = ap₂ ◌>>=◌ e (fun_ext g)

pub Result-cases {ℓ μ} :
    {E : Type μ} {A : Type ℓ} (m : Result E A) → ((a : A) × (m ≡ ok a)) ⊎ ((e : E) × (m ≡ err e))
Result-cases (ok a) = inl (a, refl)
Result-cases (err e) = inr (e, refl)

pub ok_eq {ℓ μ} : {E : Type μ} {A : Type ℓ} {m : Result E A} {a b : A} → m ≡ ok a → m ≡ ok b → a ≡ b
ok_eq e f = cc
