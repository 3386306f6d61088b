-- ===== src/Limits/Defs.antt =====
-- LoginRateLimiter. Times are in nanoseconds on a clock that does not go back. The rate is 5/60
-- tokens per second, a token every 12 seconds, so tokens are counted in nanoseconds of refill: the
-- rounding of float64 is left out.
use ubuntu_auto_update.Base.{
  ℕ, ◌+◌, ◌-◌, Bool, true, false, List, [], ◌∷◌, Option, none, some, Text, text_eq, ltb,
  if◌then◌else◌,
}

-- One token.
abbrev pub token : ℕ
token = 12000000000

-- Five tokens.
abbrev pub capacity : ℕ
capacity = 60000000000

pub record Bucket : Type 0 where
  pub key : Text
  pub tokens : ℕ
  pub last : ℕ

unfoldable pub find_bucket : Text → List Bucket → Option Bucket
find_bucket key [] = none
find_bucket key (b ∷ bs) =
    let rest = find_bucket key bs in if text_eq b.key key then some b else rest

unfoldable pub put_bucket : Bucket → List Bucket → List Bucket
put_bucket b [] = b ∷ []
put_bucket b (c ∷ cs) =
    let rest = put_bucket b cs in if text_eq c.key b.key then b ∷ cs else c ∷ rest

abbrev pub bucket_or_full : ℕ → Text → Option Bucket → Bucket
bucket_or_full now key none = record { key = key; tokens = capacity; last = now }
bucket_or_full now key (some b) = b

-- The tokens at `now`, at most the capacity.
unfoldable pub refill : ℕ → Bucket → ℕ
refill now b =
    let tokens = b.tokens + (now - b.last) in if ltb capacity tokens then capacity else tokens

abbrev pub spend : ℕ → Text → ℕ → List Bucket → Bool × List Bucket
spend now key tokens bs =
    if ltb tokens token
    then (false, put_bucket (record { key = key; tokens = tokens; last = now }) bs)
    else (true, put_bucket (record { key = key; tokens = tokens - token; last = now }) bs)

unfoldable pub allow : ℕ → Text → List Bucket → Bool × List Bucket
allow now key bs = spend now key (refill now (bucket_or_full now key (find_bucket key bs))) bs

-- last.Before(now.Add(-older))
unfoldable pub is_idle : ℕ → ℕ → Bucket → Bool
is_idle now older b = ltb (b.last + older) now

unfoldable pub clean_idle : ℕ → ℕ → List Bucket → List Bucket
clean_idle now older [] = []
clean_idle now older (b ∷ bs) =
    let rest = clean_idle now older bs in if is_idle now older b then rest else b ∷ rest
