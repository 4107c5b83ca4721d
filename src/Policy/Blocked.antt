-- ===== src/Policy/Blocked.antt =====
-- server/src/policy/service.ts: the loop of `retryBlocked`, and what a whole request leaves.
use planipus.Common.{
  ◌>>=◌, ◌≡◌, refl, sym, inl, inr, ℕ, ◌+◌, ◌≤◌, String, Bool, true, false, List, [], ◌∷◌, length,
  ok, bind-eq-ok, ok_eq, arith, length-take-le,
}
use planipus.Sync.Store.{recovery_detail, Projection, Policy, Store}
use planipus.Policy.Requests.{actor_token, audit, Caller, asked_policy}
use planipus.Policy.Evidence.{blocked_rows}
use planipus.Policy.Recovery.{retry_row, count_if, retry_rows, retry_blocked}
use planipus.Policy.Current.{IsUnique, Advances, Advances-same, Advances-trans, Advances-IsUnique}
use planipus.Policy.Retried.{Retries, retry_row-Retries}

blocked_rows-le :
    (caller : Caller) (organization id : String) (s : Store)
    → length (blocked_rows caller organization id s) ≤ 100
unfolding blocked_rows
blocked_rows-le caller organization id s = length-take-le 100 _

module _ (caller : Caller) (organization : String) (p : Policy) where
  Retries-Advances :
      (q : Projection) (s : Store) (out : Store × Bool)
      → Retries caller organization p q s out
      → Advances caller organization p s out.0
  Retries-Advances q s out (inl (dead, found, turn)) = turn.0
  Retries-Advances q s out (inr (free, step)) = step

  count_if-le : (counted : Bool) (n : ℕ) → count_if caller organization p counted n ≤ n + 1
  count_if-le true n = omega arith
  count_if-le false n = omega arith

  retry_rows-Advances :
      (rows : List Projection) (s : Store) (n : ℕ) (out : Store × ℕ)
      → IsUnique s
      → retry_rows caller organization p rows s n ≡ ok out
      → Advances caller organization p s out.0 × (out.1 ≤ n + length rows)
  unfolding retry_rows
  retry_rows-Advances [] s n out unique done =
      let same : (s, n) ≡ out = ok_eq refl done in
      rw (sym same) (Advances-same caller organization p s s refl refl, omega arith)
  retry_rows-Advances (q ∷ rows) s n out unique done =
      let (middle, turn, last) =
        bind-eq-ok (retry_row caller organization p q s)
          (λ made.
            retry_rows caller organization p rows made.0 (count_if caller organization p made.1 n))
          done in
      let step =
        Retries-Advances q s middle
          (retry_row-Retries caller organization p q s middle unique turn) in
      let (rest, count) =
        retry_rows-Advances rows middle.0 (count_if caller organization p middle.1 n) out
          (Advances-IsUnique caller organization p s middle.0 step unique) last in
      (
        Advances-trans caller organization p s middle.0 out.0 step rest,
        omega (arith, count, count_if-le middle.1 n),
      )

-- A request to retry the blocked copies of a policy that succeeds, where the dead effects of the store have
-- ids of their own, is on a policy of the organization, counts at most a hundred copies, and leaves each
-- effect as it was, settled, or waiting to be sent: then it has the policy's revision and the basis that a
-- source has now, and it is checked at the destination before it writes.
pub retry_blocked-Advances :
    (caller : Caller) (organization id : String) (s : Store) (out : Store × ℕ)
    → IsUnique s
    → retry_blocked caller organization id s ≡ ok out
    → (p : Policy) × (asked_policy caller organization id s ≡ ok p)
      × Advances caller organization p s out.0
      × (out.1 ≤ 100)
unfolding retry_blocked
retry_blocked-Advances caller organization id s out unique done =
    let rows = blocked_rows caller organization id s in
    let answer : Policy → Store × ℕ → Store × ℕ = λ p out. (
      audit caller organization p "policy.recovery_requested"
          (recovery_detail out.1 (actor_token caller.actor_kind caller.actor_token_id)) out.0,
      out.1,
    ) in
    let (p, asked, whole) =
      bind-eq-ok (asked_policy caller organization id s)
        (λ p. retry_rows caller organization p rows s 0 >>= λ out. ok (answer p out)) done in
    let (made, turns, last) =
      bind-eq-ok (retry_rows caller organization p rows s 0) (λ out. ok (answer p out)) whole in
    let (steps, count) = retry_rows-Advances caller organization p rows s 0 made unique turns in
    let same : answer p made ≡ out = ok_eq refl last in
    rw (sym same) (
      p,
      asked,
      Advances-trans caller organization p s made.0 (answer p made).0 steps
          (Advances-same caller organization p made.0 (answer p made).0 refl refl),
      omega (arith, count, blocked_rows-le caller organization id s),
    )
