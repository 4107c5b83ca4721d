-- ===== src/Jobs/Table.antt =====
-- server/src/jobs/queue.ts: the rows that the indexes of `scheduled_jobs` allow, and that every
-- statement keeps to them.
use planipus.Common.{
  ◌≡◌, ◌≢◌, refl, sym, ◌∙◌, inl, inr, Bool, true, false, ◌&&◌, ◌||◌, [], ◌∷◌, map, String, Option,
  str_eq, any, Bool-cases, All, All-mem, Result, ok, err, str_eq_iff,
}
use mathlib.Core.List.{Memᴰ}
use mathlib.Core.List.Memᴰ
use planipus.Jobs.Queue.{
  JobState, pending, leased, retry, succeeded, dead, Job, Jobs, QueueError, is_live, is_leased,
  is_waiting, same_key, is_job_payload, conflicts, insert_job, enqueue, enqueue_once,
}

abbrev pub SameKey : Job → Job → Type 0
SameKey a b =
    (a.organization_id ≡ b.organization_id) × (a.kind ≡ b.kind) × (a.dedupe_key ≡ b.dedupe_key)

-- Two rows that may stand in the table together.
abbrev pub Apart : Job → Job → Type 0
Apart a b = (a.id ≢ b.id) × (is_live a.state ≡ true → is_live b.state ≡ true → ¬ SameKey a b)

abbrev pub IsIndexed : Jobs → Type 0
IsIndexed [] = Unit
IsIndexed (j ∷ jobs) = All (Apart j) jobs × IsIndexed jobs

-- A change that keeps the row's identity and key and does not bring it back to life.
abbrev pub KeepsRow : Job → Job → Type 0
KeepsRow j k = (k.id ≡ j.id) × SameKey k j × (is_live k.state ≡ true → is_live j.state ≡ true)

pub live_of_leased : (s : JobState) → is_leased s ≡ true → is_live s ≡ true
live_of_leased pending h = refl
live_of_leased leased h = refl
live_of_leased retry h = refl
live_of_leased succeeded h = absurd (cc h)
live_of_leased dead h = absurd (cc h)

pub live_of_waiting : (s : JobState) → is_waiting s ≡ true → is_live s ≡ true
live_of_waiting pending h = refl
live_of_waiting leased h = absurd (cc h)
live_of_waiting retry h = refl
live_of_waiting succeeded h = absurd (cc h)
live_of_waiting dead h = absurd (cc h)

pub waiting-not_leased : (s : JobState) → is_waiting s ≡ true → is_leased s ≡ false
waiting-not_leased pending h = refl
waiting-not_leased leased h = absurd (cc h)
waiting-not_leased retry h = refl
waiting-not_leased succeeded h = refl
waiting-not_leased dead h = refl

-- Rows with one id are one row.
pub row_unique :
    (jobs : Jobs) {a b : Job} → IsIndexed jobs → Memᴰ a jobs → Memᴰ b jobs → a.id ≡ b.id → a ≡ b
row_unique [] h m n e = absurd (Memᴰ.not-nil m)
row_unique (j ∷ jobs) h (Memᴰ.head d) (Memᴰ.head e) same = d ∙ sym e
row_unique (j ∷ jobs) (all, rest) (Memᴰ.head d) (Memᴰ.tail n) same =
    absurd ((All-mem (Apart j) jobs all n).0 (rw (← d) same))
row_unique (j ∷ jobs) (all, rest) (Memᴰ.tail m) (Memᴰ.head e) same =
    absurd ((All-mem (Apart j) jobs all m).0 (rw (← e) (sym same)))
row_unique (j ∷ jobs) (all, rest) (Memᴰ.tail m) (Memᴰ.tail n) same = row_unique jobs rest m n same

Apart-KeepsRow : (a a' b b' : Job) → KeepsRow a a' → KeepsRow b b' → Apart a b → Apart a' b'
Apart-KeepsRow a a' b b' (i, (o, k, d), live) (i', (o', k', d'), live') (ids, keys) = (
  λ same. ids (sym i ∙ same ∙ i'),
  λ l l' (p, q, r). keys (live l) (live' l') (sym o ∙ p ∙ o', sym k ∙ q ∙ k', sym d ∙ r ∙ d'),
)

module _ (f : Job → Job) where
  All-Apart-map :
      (x : Job) (xs : Jobs)
      → KeepsRow x (f x)
      → All (λ j. KeepsRow j (f j)) xs
      → All (Apart x) xs
      → All (Apart (f x)) (map f xs)
  All-Apart-map x [] k ks apart = tt
  All-Apart-map x (y ∷ ys) k (l, ks) (p, apart) =
      (Apart-KeepsRow x (f x) y (f y) k l p, All-Apart-map x ys k ks apart)

  pub IsIndexed-map :
      (xs : Jobs) → All (λ j. KeepsRow j (f j)) xs → IsIndexed xs → IsIndexed (map f xs)
  IsIndexed-map [] ks h = tt
  IsIndexed-map (x ∷ xs) (k, ks) (apart, h) = (All-Apart-map x xs k ks apart, IsIndexed-map xs ks h)

  pub mem-map : {j : Job} (xs : Jobs) → Memᴰ j xs → Memᴰ (f j) (map f xs)
  mem-map [] m = absurd (Memᴰ.not-nil m)
  mem-map (x ∷ xs) (Memᴰ.head e) = Memᴰ.head (rw e refl)
  mem-map (x ∷ xs) (Memᴰ.tail m) = Memᴰ.tail (mem-map xs m)

str_eq-true : (s t : String) → s ≡ t → str_eq s t ≡ true
str_eq-true s t = (str_eq_iff s t).1

same_key-true : (a b : Job) → SameKey a b → same_key a b ≡ true
same_key-true a b (o, k, d) =
    rw (str_eq-true _ _ o) (rw (str_eq-true _ _ k) (rw (str_eq-true _ _ d) refl))

clash_of_or : (x y : Bool) → (x || y) ≡ false → (x ≡ false) × (y ≡ false)
clash_of_or true y h = absurd (cc h)
clash_of_or false y h = (refl, h)

not_both : (x y : Bool) → (x && y) ≡ false → x ≡ true → ¬ (y ≡ true)
not_both true y h live hit = cc (h, hit)
not_both false y h live hit = cc live

-- A row that conflicts with no row of the table may be inserted.
Apart-conflicts :
    (new old : Job) → is_live new.state ≡ true → conflicts new old ≡ false → Apart new old
Apart-conflicts new old live free =
    let (ids, keys) = clash_of_or (str_eq old.id new.id) _ free in
    (
      λ same. cc (ids, str_eq-true _ _ (sym same)),
      λ _ live' (o, k, d). not_both _ _ keys live' (same_key-true old new (sym o, sym k, sym d)),
    )

All-Apart :
    (new : Job) (jobs : Jobs)
    → is_live new.state ≡ true
    → any (conflicts new) jobs ≡ false
    → All (Apart new) jobs
All-Apart new [] live free = tt
All-Apart new (j ∷ jobs) live free =
    let (p, q) = clash_of_or (conflicts new j) _ free in
    (Apart-conflicts new j live p, All-Apart new jobs live q)

pub IsIndexed-insert_job :
    (new : Job) (jobs : Jobs)
    → is_live new.state ≡ true
    → IsIndexed jobs
    → IsIndexed (insert_job new jobs).0
unfolding insert_job
IsIndexed-insert_job new jobs live h = elim (Bool-cases (any (conflicts new) jobs)) [
  | inl clash ↦ rw clash h
  | inr free ↦ rw free (All-Apart new jobs live free, h)
]

-- The table that an attempt to enqueue leaves.
abbrev pub table_after : Jobs → Result QueueError (Jobs × Option String) → Jobs
table_after before (ok (after, _)) = after
table_after before (err _) = before

-- Both ways to enqueue a pending row keep the indexes: the ids stay distinct, and no two live rows
-- have one key.
pub enqueue-IsIndexed :
    (new : Job) (jobs : Jobs)
    → new.state ≡ pending
    → IsIndexed jobs
    → IsIndexed (table_after jobs (enqueue new jobs))
      × IsIndexed (table_after jobs (enqueue_once new jobs))
unfolding enqueue enqueue_once
enqueue-IsIndexed new jobs fresh h =
    let live : is_live new.state ≡ true = rw fresh refl in
    let inserted = IsIndexed-insert_job new jobs live h in
    elim (Bool-cases (is_job_payload new.payload)) [
      | inl fits ↦ rw fits (
        inserted,
        elim (Bool-cases (any (λ j. same_key j new) jobs)) [
          | inl seen ↦ rw seen h
          | inr unseen ↦ rw unseen inserted
        ],
      )
      | inr unfit ↦ rw unfit (h, h)
    ]
