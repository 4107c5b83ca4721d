-- ===== src/Sync/Effects/Settling.antt =====
-- server/src/sync/effects.ts: what an execution leaves of the lease of its effect.
use planipus.Common.{
  ℕ, String, Option, Bool, true, false, ◌≡◌, refl, inl, inr, List, [], ◌∷◌, ok, Bool-cases,
  Result-cases, any, if◌then◌else◌, arith,
}
use planipus.Jobs.Queue.{JobState, is_leased}
use planipus.Sync.Store.{Store, Effect, Projection, update_where}
use planipus.Sync.Provider.{EffectError, ProviderError, World, M, ◌>>=◌, modify, try_catch}
use planipus.Sync.Effects.Steps.{
  Env, LeasedEffect, is_held_by, update_effect, update_projection, audit, defer, supersede, succeed,
  hold_ambiguous, is_dead, fail,
}

failed_not_leased :
    (dead : Bool) → is_leased (if dead then JobState.dead else JobState.retry) ≡ false
failed_not_leased true = refl
failed_not_leased false = refl

-- The rows that this owner holds of the effect, after a program that ends without an error.
abbrev pub is_held : String → LeasedEffect → List Effect → Bool
is_held owner effect effects = any (is_held_by owner effect.id) effects

-- Where the program ends without an error, this owner no longer holds the effect.
pub record Settles {R A : Type 0} (owner : String) (effect : LeasedEffect) (m : M R A)
    : Type 0 where
  pub released :
      (w : World R) (a : A) → (m w).1 ≡ ok a → is_held owner effect (m w).0.store.effects ≡ false

-- A program that takes no lease for this owner.
pub record LeasesNothing {R A : Type 0} (owner : String) (effect : LeasedEffect) (m : M R A)
    : Type 0 where
  pub none_taken :
      (w : World R)
      → is_held owner effect w.store.effects ≡ false
      → is_held owner effect (m w).0.store.effects ≡ false

module _ {R A B : Type 0} (owner : String) (effect : LeasedEffect) (m : M R A) (f : A → M R B) where
  -- The rest of a program settles.
  later_released :
      ((a : A) → Settles owner effect (f a))
      → (w : World R) (b : B) → ((m >>= f) w).1 ≡ ok b
      → is_held owner effect ((m >>= f) w).0.store.effects ≡ false
  unfolding ◌>>=◌
  later_released next w b e = elim (Result-cases (m w).1) [
    | inl (a, done) ↦ rw (done, ◌>>=◌) ((next a).released (m w).0 b (rw (done, ◌>>=◌) at e))
    | inr (x, failed) ↦ absurd (cc (rw (failed, ◌>>=◌) at e))
  ]

  pub Settles-later : ((a : A) → Settles owner effect (f a)) → Settles owner effect (m >>= f)
  Settles-later next = record { released = later_released next }

  first_released :
      Settles owner effect m
      → ((a : A) → LeasesNothing owner effect (f a))
      → (w : World R) (b : B) → ((m >>= f) w).1 ≡ ok b
      → is_held owner effect ((m >>= f) w).0.store.effects ≡ false
  unfolding ◌>>=◌
  first_released first next w b e = elim (Result-cases (m w).1) [
    | inl (a, done) ↦ rw (done, ◌>>=◌) ((next a).none_taken (m w).0 (first.released w a done))
    | inr (x, failed) ↦ absurd (cc (rw (failed, ◌>>=◌) at e))
  ]

  pub Settles-first :
      Settles owner effect m
      → ((a : A) → LeasesNothing owner effect (f a))
      → Settles owner effect (m >>= f)
  Settles-first first next = record { released = first_released first next }

  both_none_taken :
      LeasesNothing owner effect m
      → ((a : A) → LeasesNothing owner effect (f a))
      → (w : World R) → is_held owner effect w.store.effects ≡ false
      → is_held owner effect ((m >>= f) w).0.store.effects ≡ false
  unfolding ◌>>=◌
  both_none_taken first next w free = elim (Result-cases (m w).1) [
    | inl (a, done) ↦ rw (done, ◌>>=◌) ((next a).none_taken (m w).0 (first.none_taken w free))
    | inr (x, failed) ↦ rw (failed, ◌>>=◌) (first.none_taken w free)
  ]

  pub LeasesNothing-bind :
      LeasesNothing owner effect m
      → ((a : A) → LeasesNothing owner effect (f a))
      → LeasesNothing owner effect (m >>= f)
  LeasesNothing-bind first next = record { none_taken = both_none_taken first next }

pub is_held_by-not_leased :
    (owner id : String) (e : Effect) → is_leased e.state ≡ false → is_held_by owner id e ≡ false
is_held_by-not_leased owner id e free = ground arith

module _ (owner : String) (effect : LeasedEffect) (set : Effect → Effect)
    (frees : (e : Effect) → is_leased (set e).state ≡ false) where
  -- After an update that ends the lease, no row is held.
  update_released :
      (rows : List Effect)
      → is_held owner effect (update_where (is_held_by owner effect.id) set rows) ≡ false
  update_released [] = refl
  update_released (e ∷ rows) = elim (Bool-cases (is_held_by owner effect.id e)) [
    | inl hit ↦
        rw hit (rw (is_held_by-not_leased owner effect.id (set e) (frees e)) (update_released rows))
    | inr miss ↦ rw miss (rw miss (update_released rows))
  ]

module _ (env : Env) {R : Type 0} (owner : String) (effect : LeasedEffect) where
  update_effect_released :
      (set : Effect → Effect)
      → ((e : Effect) → is_leased (set e).state ≡ false)
      → (w : World R) (u : Unit {0}) → (update_effect env owner effect.id set w).1 ≡ ok u
      → is_held owner effect (update_effect env owner effect.id set w).0.store.effects ≡ false
  unfolding update_effect
  update_effect_released set frees w u e =
      elim (Bool-cases (any (is_held_by owner effect.id) w.store.effects)) [
        | inl hit ↦ rw hit (update_released owner effect set frees w.store.effects)
        | inr miss ↦ absurd (cc (rw miss at e))
      ]

  Settles-update_effect :
      (set : Effect → Effect)
      → ((e : Effect) → is_leased (set e).state ≡ false)
      → Settles {R = R} owner effect (update_effect env owner effect.id set)
  Settles-update_effect set frees = record { released = update_effect_released set frees }

  pub audit-LeasesNothing :
      (action reason : String) (repair : Option (String × ℕ × ℕ))
      → LeasesNothing {R = R} owner effect (audit env effect action reason repair)
  unfolding audit modify
  audit-LeasesNothing action reason repair = record { none_taken = λ w free. free }

  pub modify-LeasesNothing :
      (f : Store → Store)
      → ((s : Store) → (f s).effects ≡ s.effects)
      → LeasesNothing {R = R} owner effect (modify f)
  unfolding modify
  modify-LeasesNothing f same = record { none_taken = λ w free. rw (same w.store) free }

  pub update_projection-LeasesNothing :
      (id : String) (set : Projection → Projection)
      → LeasesNothing {R = R} owner effect (update_projection env id set)
  unfolding update_projection
  update_projection-LeasesNothing id set = record { none_taken = λ w free. ground arith }

  pub Settles-defer :
      (reason : String) → Settles {R = R} owner effect (defer env owner effect reason)
  unfolding defer
  Settles-defer reason =
      Settles-first owner effect _ _ (Settles-update_effect _ (λ e. refl))
        (λ _. audit-LeasesNothing _ _ _)

  pub Settles-supersede :
      (reason : String) → Settles {R = R} owner effect (supersede env owner effect reason)
  unfolding supersede
  Settles-supersede reason =
      Settles-first owner effect _ _ (Settles-update_effect _ (λ e. refl))
        (λ _. audit-LeasesNothing _ _ _)

  pub Settles-succeed :
      (event revision : Option String)
      → Settles {R = R} owner effect (succeed env owner effect event revision)
  unfolding succeed
  Settles-succeed event revision =
      Settles-first owner effect _ _ (Settles-update_effect _ (λ e. refl)) (λ _.
        LeasesNothing-bind owner effect _ _ (update_projection-LeasesNothing _ _)
          (λ _. audit-LeasesNothing _ _ _))

  pub Settles-hold_ambiguous :
      (error : ProviderError) → Settles {R = R} owner effect (hold_ambiguous env owner effect error)
  unfolding hold_ambiguous
  Settles-hold_ambiguous error =
      Settles-first owner effect _ _ (Settles-update_effect _ (λ e. refl)) (λ _.
        LeasesNothing-bind owner effect _ _ (update_projection-LeasesNothing _ _)
          (λ _. audit-LeasesNothing _ _ _))

  pub Settles-fail :
      (error : EffectError) → Settles {R = R} owner effect (fail env owner effect error)
  unfolding fail
  Settles-fail error =
      Settles-first owner effect _ _
        (Settles-update_effect _ (λ e. failed_not_leased (is_dead effect error)))
        (λ _. modify-LeasesNothing _ (λ s. refl))

module _ {R A : Type 0} (owner : String) (effect : LeasedEffect) where
  pub Settles-if :
      (b : Bool) (m n : M R A)
      → Settles owner effect m
      → Settles owner effect n
      → Settles owner effect (if b then m else n)
  Settles-if true m n p q = p
  Settles-if false m n p q = q

  caught_released :
      (body : M R A) (handler : EffectError → M R A)
      → Settles owner effect body
      → ((x : EffectError) → Settles owner effect (handler x))
      → (w : World R) (a : A) → (try_catch body handler w).1 ≡ ok a
      → is_held owner effect (try_catch body handler w).0.store.effects ≡ false
  unfolding try_catch
  caught_released body handler p q w a e = elim (Result-cases (body w).1) [
    | inl (b, done) ↦ rw (done, try_catch) (p.released w b done)
    | inr (x, failed) ↦
        rw (failed, try_catch) ((q x).released (body w).0 a (rw (failed, try_catch) at e))
  ]

  pub Settles-try_catch :
      (body : M R A) (handler : EffectError → M R A)
      → Settles owner effect body
      → ((x : EffectError) → Settles owner effect (handler x))
      → Settles owner effect (try_catch body handler)
  Settles-try_catch body handler p q = record { released = caught_released body handler p q }
