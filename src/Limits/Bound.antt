-- ===== src/Limits/Bound.antt =====
-- What the limiter admits: a burst of five, then one request every twelve seconds.
use ubuntu_auto_update.Base.{
  arith, ℕ, ◌+◌, ◌-◌, ◌*◌, ◌≤◌, ◌≡◌, refl, ap, subst, ◌∙◌, inl, inr, Bool, true, false, List, [],
  ◌∷◌, Option, none, some, Text, text_eq, text_eq_iff, text_eq_self, ltb, if◌then◌else◌, Bool-cases,
}
use ubuntu_auto_update.Limits.Defs.{
  token, capacity, Bucket, find_bucket, put_bucket, bucket_or_full, refill, spend, allow, is_idle,
  clean_idle,
}

-- What happens to the limiter, at a time: a request under a key, or a round of CleanIdle.
pub data LimitOp : Type 0 where
  asked : ℕ → Text → LimitOp
  cleaned : ℕ → ℕ → LimitOp

abbrev pub time_of : LimitOp → ℕ
time_of (asked now key) = now
time_of (cleaned now older) = now

-- The times do not go back, and a bucket is only dropped once it would be full.
abbrev pub InOrder : ℕ → List LimitOp → Type 0
InOrder from [] = Unit {0}
InOrder from (asked now key ∷ ops) = (from ≤ now) × InOrder now ops
InOrder from (cleaned now older ∷ ops) = (from ≤ now) × (capacity ≤ older) × InOrder now ops

abbrev pub end_of : ℕ → List LimitOp → ℕ
end_of from [] = from
end_of from (op ∷ ops) = end_of (time_of op) ops

abbrev pub one_if : Bool → ℕ
one_if true = 1
one_if false = 0

-- How many requests under `name` the operations admit.
unfoldable pub admitted : Text → List LimitOp → List Bucket → ℕ
admitted name [] bs = 0
admitted name (asked now key ∷ ops) bs =
    let r = allow now key bs in
    let later = admitted name ops r.1 in if text_eq key name then one_if r.0 + later else later
admitted name (cleaned now older ∷ ops) bs = admitted name ops (clean_idle now older bs)

-- What the key could spend at a time.
abbrev level_of : ℕ → Option Bucket → ℕ
level_of now none = capacity
level_of now (some b) = refill now b

level : ℕ → Text → List Bucket → ℕ
level now key bs = level_of now (find_bucket key bs)

find-put_bucket : (b : Bucket) (bs : List Bucket) → find_bucket b.key (put_bucket b bs) ≡ some b
unfolding find_bucket put_bucket
find-put_bucket b [] = rw (text_eq_self b.key) refl
find-put_bucket b (c ∷ cs) = elim (Bool-cases (text_eq c.key b.key)) [
  | inl e ↦ rw (e, text_eq_self b.key) refl
  | inr e ↦ rw (e, e) (find-put_bucket b cs)
]

find-put_other :
    (name : Text) (b : Bucket) (bs : List Bucket)
    → text_eq b.key name ≡ false
    → find_bucket name (put_bucket b bs) ≡ find_bucket name bs
unfolding find_bucket put_bucket
find-put_other name b [] other = rw other refl
find-put_other name b (c ∷ cs) other = elim (Bool-cases (text_eq c.key b.key)) [
  | inl e ↦
      let away : text_eq c.key name ≡ false =
        ap (λ k. text_eq k name) ((text_eq_iff c.key b.key).0 e) ∙ other in
      rw (e, other, away) refl
  | inr e ↦
      rw e (ap (λ o. if text_eq c.key name then some c else o) (find-put_other name b cs other))
]

-- Time alone fills a bucket no faster than the clock.
level_later :
    (from now : ℕ) (o : Option Bucket)
    → from ≤ now
    → level_of now o ≤ level_of from o + (now - from)
unfolding refill
level_later from now none le = omega arith
level_later from now (some b) le = ground arith

level_cleaned :
    (name : Text) (now older : ℕ) (bs : List Bucket)
    → capacity ≤ older
    → level_of now (find_bucket name (clean_idle now older bs)) ≤ level_of now (find_bucket name bs)
unfolding find_bucket clean_idle is_idle refill
level_cleaned name now older [] full = omega arith
level_cleaned name now older (b ∷ bs) full = ground (arith, level_cleaned name now older bs full)

-- A request pays for its admission.
spend-level :
    (now : ℕ) (key : Text) (tokens : ℕ) (bs : List Bucket)
    → one_if (spend now key tokens bs).0 * token
        + level_of now (find_bucket key (spend now key tokens bs).1)
      ≤ tokens
unfolding refill
spend-level now key tokens bs = elim (Bool-cases (ltb tokens token)) [
  | inl e ↦
      rw (e, find-put_bucket (record { key = key; tokens = tokens; last = now }) bs) (ground arith)
  | inr e ↦
      rw (e, find-put_bucket (record { key = key; tokens = tokens - token; last = now }) bs)
        (ground (arith, e))
]

allow-level :
    (now : ℕ) (key : Text) (bs : List Bucket)
    → one_if (allow now key bs).0 * token + level_of now (find_bucket key (allow now key bs).1)
      ≤ level_of now (find_bucket key bs)
unfolding allow refill
allow-level now key bs = omega (
  arith,
  spend-level now key (refill now (bucket_or_full now key (find_bucket key bs))) bs,
  by_row (find_bucket key bs),
)
  where
    by_row : (o : Option Bucket) → refill now (bucket_or_full now key o) ≤ level_of now o
    by_row none = ground arith
    by_row (some b) = omega arith

allow-other :
    (name : Text) (now : ℕ) (key : Text) (bs : List Bucket)
    → text_eq key name ≡ false
    → find_bucket name (allow now key bs).1 ≡ find_bucket name bs
unfolding allow
allow-other name now key bs other =
    by_tokens (refill now (bucket_or_full now key (find_bucket key bs)))
  where
    by_tokens : (n : ℕ) → find_bucket name (spend now key n bs).1 ≡ find_bucket name bs
    by_tokens n = elim (Bool-cases (ltb n token)) [
      | inl e ↦ rw e (find-put_other name (record { key = key; tokens = n; last = now }) bs other)
      | inr e ↦
          rw e (find-put_other name (record { key = key; tokens = n - token; last = now }) bs other)
    ]

admitted-level :
    (name : Text) (from : ℕ) (ops : List LimitOp) (bs : List Bucket)
    → InOrder from ops
    → (admitted name ops bs * token
        ≤ level_of from (find_bucket name bs) + (end_of from ops - from))
      × (from ≤ end_of from ops)
unfolding admitted
admitted-level name from [] bs runs = (omega arith, omega arith)
admitted-level name from (asked now key ∷ ops) bs (le, runs) =
    let (later, on) = admitted-level name now ops (allow now key bs).1 runs in
    let waited = level_later from now (find_bucket name bs) le in
    elim (Bool-cases (text_eq key name)) [
      | inl e ↦
          let spent = allow now key bs in
          let paid : one_if spent.0 * token + level_of now (find_bucket name spent.1)
              ≤ level_of now (find_bucket name bs) =
            subst
              (λ n.
                one_if spent.0 * token + level_of now (find_bucket n spent.1)
                ≤ level_of now (find_bucket n bs))
              ((text_eq_iff key name).0 e) (allow-level now key bs) in
          (rw e (omega (arith, paid)), omega arith)
      | inr e ↦
          (rw e (omega (arith, ap (level_of now) (allow-other name now key bs e))), omega arith)
    ]
admitted-level name from (cleaned now older ∷ ops) bs (le, full, runs) =
    let (later, on) = admitted-level name now ops (clean_idle now older bs) runs in
    (
      omega (
        arith,
        level_later from now (find_bucket name bs) le,
        level_cleaned name now older bs full,
      ),
      omega arith,
    )

-- Over operations at times that do not go back, where CleanIdle drops buckets idle for a minute at
-- least, the limiter admits at most five requests of one key and one more for each twelve seconds
-- that pass.
pub admitted-bound :
    (name : Text) (from : ℕ) (ops : List LimitOp) (bs : List Bucket)
    → InOrder from ops
    → admitted name ops bs * token ≤ capacity + (end_of from ops - from)
unfolding refill
admitted-bound name from ops bs runs =
    omega (arith, (admitted-level name from ops bs runs).0, at_most (find_bucket name bs))
  where
    at_most : (o : Option Bucket) → level_of from o ≤ capacity
    at_most none = omega arith
    at_most (some b) = ground arith
