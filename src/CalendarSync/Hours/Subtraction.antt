-- ===== src/CalendarSync/Hours/Subtraction.antt =====
-- hours.ts: `subtractInterval` and the removals of an exception, instant by instant.
use planipus.Common.{
  any-append, ℕ, ◌<◌, ◌≡◌, refl, Bool, ◌&&◌, not, List, [], ◌∷◌, ltb, leb, any, All, All-append,
  arith,
}
use mathlib.Core.List.{flat_map}
use planipus.CalendarSync.Hours.Intervals.{ConcreteInterval, subtract_interval, subtract_all}

-- The instant lies in the interval, which holds its start and not its end.
abbrev pub covers : ℕ → ConcreteInterval → Bool
covers x c = leb c.start x && ltb x c.«end»

abbrev pub IsNonempty : ConcreteInterval → Type 0
IsNonempty c = c.start < c.«end»

covers-subtract_interval :
    (x : ℕ) (b r : ConcreteInterval)
    → any (covers x) (subtract_interval b r) ≡ (covers x b && not (covers x r))
unfolding subtract_interval
covers-subtract_interval x b r = ground arith

covers-flat_map :
    (x : ℕ) (r : ConcreteInterval) (cs : List ConcreteInterval)
    → any (covers x) (flat_map (λ b. subtract_interval b r) cs)
      ≡ (any (covers x) cs && not (covers x r))
unfolding flat_map
covers-flat_map x r [] = refl
covers-flat_map x r (c ∷ cs) =
    rw
      (
        any-append (covers x) (subtract_interval c r),
        covers-subtract_interval x c r,
        covers-flat_map x r cs,
      )
      (ground arith)

-- After the removals, the intervals cover exactly the instants that they covered before and that no
-- removal covers.
pub covers-subtract_all :
    (x : ℕ) (cs rs : List ConcreteInterval)
    → any (covers x) (subtract_all cs rs) ≡ (any (covers x) cs && not (any (covers x) rs))
unfolding subtract_all
covers-subtract_all x cs [] = ground arith
covers-subtract_all x cs (r ∷ rs) =
    rw (covers-subtract_all x (flat_map (λ b. subtract_interval b r) cs) rs, covers-flat_map x r cs)
      (ground arith)

subtract_interval-IsNonempty :
    (b r : ConcreteInterval) → IsNonempty b → All IsNonempty (subtract_interval b r)
unfolding subtract_interval
subtract_interval-IsNonempty b r h = ground arith

flat_map-IsNonempty :
    (r : ConcreteInterval) (cs : List ConcreteInterval)
    → All IsNonempty cs
    → All IsNonempty (flat_map (λ b. subtract_interval b r) cs)
unfolding flat_map
flat_map-IsNonempty r [] h = tt
flat_map-IsNonempty r (c ∷ cs) (k, h) =
    All-append IsNonempty (subtract_interval c r) _ (subtract_interval-IsNonempty c r k)
      (flat_map-IsNonempty r cs h)

pub subtract_all-IsNonempty :
    (cs rs : List ConcreteInterval) → All IsNonempty cs → All IsNonempty (subtract_all cs rs)
unfolding subtract_all
subtract_all-IsNonempty cs [] h = h
subtract_all-IsNonempty cs (r ∷ rs) h =
    subtract_all-IsNonempty (flat_map (λ b. subtract_interval b r) cs) rs
      (flat_map-IsNonempty r cs h)
