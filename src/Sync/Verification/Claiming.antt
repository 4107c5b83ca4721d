-- ===== src/Sync/Verification/Claiming.antt =====
-- server/src/sync/verification.ts: which rows `claimDue` hands out.
use mathlib.Core.List.{Memᴰ}
use planipus.Common.{
  ℕ, ◌+◌, ◌≤◌, ◌≡◌, refl, sym, ap, ◌∙◌, String, some, Bool, true, false, not, ◌&&◌, List, length,
  str_eq, str_eq_iff, if◌then◌else◌, any, is_some, any_of_mem, mem-filter, mem-take, mem-map,
  length-map, length-take-le, both_true, ltb→lt, arith,
}
use planipus.Common.Sorting.{mem-sort}
use planipus.Sync.Store.{Projection, Store, update_where}
use planipus.Sync.Reconcile.Projecting.{is_attached}
use planipus.Sync.Verification.Guards.{is_converged}
use planipus.Sync.Verification.Claim.{
  destination_verification_interval_milliseconds, is_due, has_active_policy, is_claimable,
  oldest_le, due_rows, claim_due,
}

mem-update_where_cases {ℓ} :
    {A : Type ℓ} (test : A → Bool) (set : A → A) (rows : List A) {a : A}
    → Memᴰ a (update_where test set rows)
    → (r : A) × Memᴰ r rows × (a ≡ (if test r then set r else r))
mem-update_where_cases test set rows m = mem-map (λ r. if test r then set r else r) rows m

module _ (organization : String) (now : ℕ) (locked : Projection → Bool) (limit : ℕ)
    (s : Store) where
  due_rows-mem :
      {q : Projection}
      → Memᴰ q (due_rows organization now locked limit s)
      → Memᴰ q s.projections × (is_claimable organization now s q ≡ true)
  unfolding due_rows
  due_rows-mem m =
      let free : Projection → Bool = λ q. is_claimable organization now s q && not (locked q) in
      let (i, e) = mem-filter free s.projections (mem-sort oldest_le _ (mem-take limit _ m)) in
      (i, (both_true _ _ e).0)

  due_rows-length : length (due_rows organization now locked limit s) ≤ limit
  unfolding due_rows
  due_rows-length = length-take-le limit _

  claimed_row :
      (id : String)
      → Memᴰ id (claim_due organization now locked limit s).0
      → (q : Projection) × Memᴰ q s.projections
        × (q.id ≡ id)
        × (is_claimable organization now s q ≡ true)
  unfolding claim_due
  claimed_row id m =
      let (q, i, e) =
        mem-map (λ (q : Projection). q.id) (due_rows organization now locked limit s) m in
      let (j, due) = due_rows-mem i in (q, j, sym e, due)

is_claimable-is_due :
    (organization : String) (now : ℕ) (s : Store) (q : Projection)
    → is_claimable organization now s q ≡ true
    → is_due now q.last_verified_at ≡ true
unfolding is_claimable
is_claimable-is_due organization now s q e =
    let rest_1 = (both_true (str_eq q.organization_id organization) _ e).1 in
    let rest_2 = (both_true (has_active_policy organization s q) _ rest_1).1 in
    let rest_3 = (both_true (is_converged q.status) _ rest_2).1 in
    let rest_4 = (both_true (is_attached q.ownership) _ rest_3).1 in
    let rest_5 = (both_true (is_some q.destination_event_id) _ rest_4).1 in
    let rest_6 = (both_true (is_some q.desired_state) _ rest_5).1 in
    (both_true (is_some q.desired_hash) _ rest_6).1

not_due :
    (now later : ℕ) (q r : Projection)
    → later ≤ now + destination_verification_interval_milliseconds
    → q ≡ record r { last_verified_at = some now }
    → ¬ (is_due later q.last_verified_at ≡ true)
not_due now later q r soon same due =
    let seen : q.last_verified_at ≡ some now = ap (λ (x : Projection). x.last_verified_at) same in
    let late = ltb→lt _ _ (rw seen at due) in omega (arith, late, soon)

module _ (organization : String) (now : ℕ) (locked : Projection → Bool) (limit : ℕ) (s : Store)
    (later : ℕ) (soon : later ≤ now + destination_verification_interval_milliseconds)
    (ids : List String) (id : String) (m : Memᴰ id ids) where
  abbrev is_claimed : Projection → Bool
  is_claimed q = any (λ i. str_eq i q.id) ids

  abbrev mark : Projection → Projection
  mark q = record q { last_verified_at = some now }

  marked_row :
      (b : Bool) (q r : Projection)
      → is_claimed r ≡ b
      → q ≡ (if b then mark r else r)
      → q.id ≡ id
      → ¬ (is_due later q.last_verified_at ≡ true)
  marked_row true q r e same named due = not_due now later q r soon same due
  marked_row false q r e same named due =
      let hit : str_eq id r.id ≡ true =
        (str_eq_iff _ _).1 (sym named ∙ ap (λ (x : Projection). x.id) same) in
      absurd (cc (e, any_of_mem (λ i. str_eq i r.id) ids m hit))

  no_second :
      (q : Projection)
      → Memᴰ q (update_where is_claimed mark s.projections)
      → q.id ≡ id
      → ¬ (is_due later q.last_verified_at ≡ true)
  no_second q i named due =
      let (r, j, same) = mem-update_where_cases is_claimed mark s.projections i in
      marked_row (is_claimed r) q r refl same named due

few_claimed :
    (organization : String) (now : ℕ) (locked : Projection → Bool) (limit : ℕ) (s : Store)
    → length (claim_due organization now locked limit s).0 ≤ limit
unfolding claim_due
few_claimed organization now locked limit s =
    rw (length-map (λ (q : Projection). q.id) (due_rows organization now locked limit s))
      (due_rows-length organization now locked limit s)

claimed_projections :
    (organization : String) (now : ℕ) (locked : Projection → Bool) (limit : ℕ) (s : Store)
    → (claim_due organization now locked limit s).1.projections
      ≡ update_where
          (λ q. any (λ i. str_eq i q.id) (claim_due organization now locked limit s).0)
          (λ q. record q { last_verified_at = some now })
          s.projections
unfolding claim_due
claimed_projections organization now locked limit s = refl

-- A claim hands out at most `limit` rows. One that it hands out is a row that may be claimed, which is
-- due, and a claim that follows within the interval does not hand it out again.
pub claim_due-IsFresh :
    (organization : String) (now later : ℕ) (locked locked_later : Projection → Bool)
    (limit limit_later : ℕ) (s : Store) (id : String)
    → later ≤ now + destination_verification_interval_milliseconds
    → Memᴰ id (claim_due organization now locked limit s).0
    → (length (claim_due organization now locked limit s).0 ≤ limit)
      × ((q : Projection) × Memᴰ q s.projections
          × (q.id ≡ id)
          × (is_claimable organization now s q ≡ true))
      × ¬ Memᴰ id
          (claim_due organization later locked_later limit_later
            (claim_due organization now locked limit s).1).0
claim_due-IsFresh organization now later locked locked_later limit limit_later s id soon m = (
  few_claimed organization now locked limit s,
  claimed_row organization now locked limit s id m,
  λ again.
      let after = (claim_due organization now locked limit s).1 in
      let (q, i, named, ready) =
        claimed_row organization later locked_later limit_later after id again in
      no_second organization now locked limit s later soon _ id m q
        (rw (claimed_projections organization now locked limit s) at i) named
        (is_claimable-is_due organization later after q ready),
)
