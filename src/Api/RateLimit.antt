-- ===== src/Api/RateLimit.antt =====
-- Per-credential rate limits (src/finance_rag/api/ratelimit.py). The clock is read in ticks, `hz`
-- of them to a second; Redis is a parameter.
pub mod Tightest
pub mod Windows
pub mod Decisions
pub mod Credentials
pub mod Tests
use finance_rag.Prelude.{
  ℕ, ◌+◌, ◌-◌, ◌*◌, ◌/◌, ◌%◌, max, ◌≡◌, Bool, true, false, not, Option, none, some, List, [], ◌∷◌,
  ◌++◌, ltb, leb, if◌then◌else◌, length, keep, get_or,
}
use finance_rag.Text.{Text, codes, text_eq, join}
use finance_rag.Text.Decimal.{decimal}
use finance_rag.Text.Sorting.{sorted_set}
use finance_rag.Config.{Settings}

-- Requests, and the window's length in seconds.
abbrev pub Limit : Type 0
Limit = ℕ × ℕ

-- `overrides`
unfoldable pub override : Settings → Text → Option Limit
override st s =
    if text_eq s (codes "ask")
    then some (st.rate_limit_ask, 60)
    else if text_eq s (codes "index")
    then some (st.rate_limit_index, 3600)
    else if text_eq s (codes "read")
    then some (st.rate_limit_read, 60)
    else none

-- `[overrides[s] for s in scopes if s in overrides]`
unfoldable pub candidates : Settings → List Text → List Limit
candidates st [] = []
candidates st (s ∷ ss) =
    let rest = candidates st ss in elim (override st s) [ none ↦ rest | some l ↦ l ∷ rest ]

-- `a[0] / a[1] < b[0] / b[1]`
abbrev pub tighter : Limit → Limit → Bool
tighter (n, w) (m, v) = ltb (n * v) (m * w)

-- `min(…, key=…)`: the first of the least
unfoldable pub tightest : Limit → List Limit → Limit
tightest best [] = best
tightest best (l ∷ ls) = tightest (if tighter l best then l else best) ls

-- `_limits_for`
unfoldable pub limits_for : Settings → List Text → Limit
limits_for st scopes = elim (candidates st scopes) [
  | [] ↦ (st.rate_limit_read, 60)
  | l ∷ ls ↦ tightest l ls
]

pub record Decision : Type 0 where
  pub allowed : Bool
  pub limit : ℕ
  pub remaining : ℕ
  pub retry_after : ℕ

-- `_LocalWindows._counts`: for a key, the count and the start of its window in ticks.
abbrev pub Counts : Type 0
Counts = List (Text × ℕ × ℕ)

unfoldable pub lookup : Text → Counts → Option (ℕ × ℕ)
lookup k [] = none
lookup k ((j, n, start) ∷ m) = if text_eq k j then some (n, start) else lookup k m

unfoldable pub insert : Text → ℕ × ℕ → Counts → Counts
insert k v [] = (k, v.0, v.1) ∷ []
insert k v ((j, n, start) ∷ m) =
    if text_eq k j then (k, v.0, v.1) ∷ m else (j, n, start) ∷ insert k v m

abbrev pub table_limit : ℕ
table_limit = 10000

module _ (hz : ℕ) where
  -- The ticks of a window, and the tick at which the window of `now` began.
  abbrev pub span : ℕ → ℕ
  span window = window * hz

  abbrev pub bucket_start : ℕ → ℕ → ℕ
  bucket_start window now = now - now % span window

  -- The count and the start that `incr` stores for the key.
  unfoldable pub next_entry : Text → ℕ → ℕ → Counts → ℕ × ℕ
  next_entry key window now m =
      let begun = bucket_start window now in
      let (count, start) = get_or (lookup key m) (0, begun) in
      if ltb start begun then (1, begun) else (count + 1, start)

  -- Entries that began before `now - window` go when the table has grown too long.
  unfoldable pub prune : ℕ → ℕ → Counts → Counts
  prune window now m =
      if ltb table_limit (length m) then keep (λ e. leb (now - span window) e.2) m else m

  -- `_LocalWindows.incr`: the count, the tick at which the window ends, and the new table
  unfoldable pub incr : Text → ℕ → ℕ → Counts → (ℕ × ℕ) × Counts
  unfolding next_entry prune
  incr key window now m =
      let (count, start) = next_entry key window now m in
      ((count, start + span window), prune window now (insert key (count, start) m))

  -- The window's number since the epoch.
  abbrev pub window_number : ℕ → ℕ → ℕ
  window_number window now = now / span window

  -- `bucket`
  unfoldable pub bucket : Text → List Text → ℕ → ℕ → Text
  bucket key_id scopes window now =
      (codes "rl:"
        ++ (key_id ++ (codes ":" ++ (join (codes "-") (sorted_set scopes) ++ codes ":"))))
      ++ decimal (window_number window now)

  -- The decision on a count, with the window's end in ticks.
  unfoldable pub decide : ℕ → ℕ → ℕ → ℕ → Decision
  decide limit count reset_at now = record {
    allowed = leb count limit;
    limit = limit;
    remaining = limit - count;
    retry_after = max 1 ((reset_at - now) / hz);
  }

-- The Redis client: INCR and EXPIRE in one pipeline, which counts or raises.
abbrev pub Pipeline : Type 0 → Type 0
Pipeline R = Text → ℕ → R → Option ℕ × R

-- What the limiter keeps between calls.
pub record Limiter (R : Type 0) : Type 0 where
  pub counts : Counts
  pub remote : R

module _ {R : Type 0} (hz : ℕ) (st : Settings) (pipeline : Pipeline R) where
  -- `check`; `connected` tells whether `_redis()` gave a client.
  unfoldable pub check : Bool → Text → List Text → ℕ → Limiter R → Decision × Limiter R
  check connected key_id scopes now lm =
      let (limit, window) = limits_for st scopes in
      let key = bucket hz key_id scopes window now in
      let (reply, after) = pipeline key window lm.remote in
      let ((count, reset_at), counts) = incr hz key window now lm.counts in
      if connected
      then (
        elim reply [
          | none ↦ record { allowed = true; limit = limit; remaining = limit; retry_after = 0 }
          | some n ↦ decide hz limit n ((window_number hz window now + 1) * span hz window) now
        ],
        record lm { remote = after },
      )
      else (decide hz limit count reset_at now, record lm { counts = counts })

-- `enforce`: the decision, or a 429 with the decision that it reports.
pub data Enforced : Type 0 where
  passed : Decision → Enforced
  too_many : Decision → Enforced

abbrev pub unlimited : Decision
unlimited = record { allowed = true; limit = 0; remaining = 0; retry_after = 0 }

module _ {R : Type 0} (hz : ℕ) (st : Settings) (pipeline : Pipeline R) where
  unfoldable pub enforce : Bool → Text → List Text → ℕ → Limiter R → Enforced × Limiter R
  unfolding check
  enforce connected key_id scopes now lm =
      let (d, after) = check hz st pipeline connected key_id scopes now lm in
      if not st.rate_limit_enabled
      then (passed unlimited, lm)
      else (if d.allowed then passed d else too_many d, after)

-- The body of the 429.
unfoldable pub detail : Decision → Text
detail d =
    codes "rate limit exceeded: "
    ++ (decimal d.limit
        ++ (codes " requests per "
            ++ (if ltb 60 d.retry_after then codes "hour" else codes "minute")))

-- `_redis_client` and `_redis_failed`
pub record Link : Type 0 where
  pub connected : Bool
  pub broken : Bool

-- `_redis()`: whether there is a client, given what a ping would say now.
unfoldable pub redis : Settings → Bool → Link → Bool × Link
redis st ping l =
    if l.broken
    then (false, l)
    else if l.connected
    then (true, l)
    else if not st.rate_limit_use_redis
    then (false, record l { broken = true })
    else if ping
    then (true, record l { connected = true })
    else (false, record l { broken = true })
