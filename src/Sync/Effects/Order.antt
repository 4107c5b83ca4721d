-- ===== src/Sync/Effects/Order.antt =====
-- server/src/sync/effects.ts: the order in which the effects of one projection are leased.
use planipus.Common.{
  mem-take, All-map_intro, length-map, ℕ, ◌≤◌, ◌≡◌, refl, inl, inr, String, Bool, true, false, not,
  ◌&&◌, List, map, any, any_of_mem, mem-filter, length, length-take-le, All, Bool-cases, str_eq,
  str_eq_iff, arith,
}
use mathlib.Core.List.{Memᴰ}
use planipus.Common.Sorting.{mem-sort}
use planipus.Sync.Store.{Effect}
use planipus.Sync.Effects.Steps.{LeasedEffect}
use planipus.Sync.Effects.Lease.{
  is_next, is_prior, is_before_effect, is_succeeded, due_le, select_next, release_expired,
  leased_effect, lease,
}

module _ (owner : String) (now : ℕ) (locked : Effect → Bool) (limit lease_seconds : ℕ)
    (effects : List Effect) where
  abbrev freed : List Effect
  freed = map (release_expired now) effects

  -- The row of a leased effect, with nothing unfinished before it in its projection.
  abbrev pub IsFirst : LeasedEffect → Type 0
  IsFirst granted =
      (e : Effect) × Memᴰ e freed
      × (granted ≡ leased_effect e)
      × ((prior : Effect)
          → Memᴰ prior freed
          → prior.projection_id ≡ e.projection_id
          → is_before_effect prior e ≡ true
          → is_succeeded prior.state ≡ true)

  alone_of :
      (e : Effect) → (is_next now freed e && not (locked e)) ≡ true → any (is_prior e) freed ≡ false
  alone_of e fit = ground arith

  finished_prior :
      (e prior : Effect)
      → Memᴰ prior freed
      → any (is_prior e) freed ≡ false
      → prior.projection_id ≡ e.projection_id
      → is_before_effect prior e ≡ true
      → is_succeeded prior.state ≡ true
  finished_prior e prior m alone same earlier = elim (Bool-cases (is_succeeded prior.state)) [
    | inl finished ↦ finished
    | inr open_still ↦
        let together : str_eq prior.projection_id e.projection_id ≡ true =
          (str_eq_iff prior.projection_id e.projection_id).1 same in
        let blocks : is_prior e prior ≡ true = rw together (rw open_still earlier) in
        cc (alone, any_of_mem (is_prior e) freed m blocks)
  ]

  IsFirst-of_chosen :
      (e : Effect) → Memᴰ e (select_next now locked limit freed) → IsFirst (leased_effect e)
  unfolding select_next
  IsFirst-of_chosen e m =
      let (i, fit) = mem-filter _ freed (mem-sort due_le _ (mem-take limit _ m)) in
      (e, i, refl, λ prior j same earlier. finished_prior e prior j (alone_of e fit) same earlier)

  length-select_next-le : length (select_next now locked limit freed) ≤ limit
  unfolding select_next
  length-select_next-le = length-take-le limit _

  -- A batch holds at most `limit` effects, and each of them is the first of its projection that is not
  -- finished: whatever was created before it for the same copy has succeeded.
  pub lease-IsFirst :
      (length (lease owner now locked limit lease_seconds effects).1 ≤ limit)
      × All IsFirst (lease owner now locked limit lease_seconds effects).1
  unfolding lease
  lease-IsFirst =
      let chosen = select_next now locked limit freed in
      (
        rw (length-map leased_effect chosen) length-select_next-le,
        All-map_intro IsFirst leased_effect chosen IsFirst-of_chosen,
      )
