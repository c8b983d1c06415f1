-- ===== src/Api/RateLimit/Tests.antt =====
-- Limits decided on small histories, and the theorems applied to them.
use finance_rag.Prelude.{
  none, ℕ, zero, suc, ap, ◌+◌, max, ◌≡◌, refl, ◌⊎◌, inl, true, false, some, List, [], ◌∷◌, ◌≤◌, ◌<◌,
  length, In, All, arith,
}
use finance_rag.Config.{defaults}
use finance_rag.Api.RateLimit.Credentials.{Spelled, spent, check-spent}
use finance_rag.Api.RateLimit.Tightest.{AsTight, limits_for-AsTight}
use finance_rag.Api.RateLimit.Decisions.{Request, hits, begun_at, served, bucket_of, too_many-over}
use finance_rag.Text.{
  Text, codes, text_eq, text_lt, is_space, is_word, to_lower, lower, strip_left, strip_right, strip,
  starts_with, contains, join, split_at, split, split_max_at, split_max, member,
}
use finance_rag.Text.Decimal.{decimal, number}
use finance_rag.Text.Sorting.{insert_sorted, sorted_set}
use finance_rag.Api.RateLimit.{
  Limit, Pipeline, Decision, too_many, span, Counts, override, candidates, tightest, limits_for,
  lookup, insert, next_entry, prune, incr, bucket, decide, check, enforce, detail, redis,
}

abbrev scopes : List Text
scopes = codes "ask" ∷ codes "index" ∷ []

limits_for-AsTight_example :
    ((s : Text) (l : Limit)
      → In s scopes
      → override defaults s ≡ some l
      → AsTight (limits_for defaults scopes) l)
    × (((s : Text) × In s scopes × (override defaults s ≡ some (limits_for defaults scopes)))
        ⊎ (((s : Text) → In s scopes → override defaults s ≡ none)
            × (limits_for defaults scopes ≡ (defaults.rate_limit_read, 60))))
limits_for-AsTight_example = limits_for-AsTight defaults scopes

-- Five an hour is tighter than thirty a minute.
scopes_limit : limits_for defaults scopes ≡ (5, 3600)
unfolding text_eq text_lt is_space is_word to_lower lower strip_left strip_right strip starts_with
    contains join split_at split split_max_at split_max member decimal number insert_sorted
    sorted_set override candidates tightest limits_for lookup insert next_entry prune incr bucket
    decide check enforce detail redis
scopes_limit = refl

-- Redis, which counts the keys it was asked for, whichever they are.
abbrev redis_counts : Pipeline ℕ
redis_counts key window n = (some (suc n), suc n)

abbrev asked_at : Text → ℕ → Request
asked_at key now = record { key_id = key; scopes = codes "ask" ∷ []; now = now }

abbrev first_request : Request
first_request = asked_at (codes "key-a") 6100

abbrev history : List Request
history =
    asked_at (codes "key-a") 6001
    ∷ asked_at (codes "key-b") 6002
    ∷ asked_at (codes "key-a") 5900
    ∷ []

history-Spelled :
    Spelled 10 defaults first_request first_request
    × All (Spelled 10 defaults first_request) history
unfolding text_eq text_lt is_space is_word to_lower lower strip_left strip_right strip starts_with
    contains join split_at split split_max_at split_max member decimal number insert_sorted
    sorted_set override candidates tightest limits_for lookup insert next_entry prune incr bucket
    decide check enforce detail redis
history-Spelled = (
  (refl, refl, inl refl),
  ((refl, refl, inl refl), ((refl, refl, inl refl), ((refl, refl, inl refl), tt))),
)

check-spent_example :
    (check 10 defaults redis_counts false
      (codes "key-a")
      (codes "ask" ∷ [])
      6100
      (served 10 defaults redis_counts history (record { counts = []; remote = 0 }))).0
    ≡ decide 10
        (limits_for defaults (codes "ask" ∷ [])).0
        (suc (spent 10 defaults first_request history))
        (begun_at 10 defaults first_request + span 10 (limits_for defaults (codes "ask" ∷ [])).1)
        6100
check-spent_example =
    check-spent 10 defaults redis_counts first_request history 0 history-Spelled.0 history-Spelled.1
      (omega arith)

-- Of the three, one is in the window of the request and of its credential.
history-hits : hits 10 defaults first_request history ≡ 1
unfolding text_eq text_lt is_space is_word to_lower lower strip_left strip_right strip starts_with
    contains join split_at split split_max_at split_max member decimal number insert_sorted
    sorted_set override candidates tightest limits_for lookup insert next_entry prune incr bucket
    decide check enforce detail redis
history-hits = refl

abbrev over : Decision
over = record { allowed = false; limit = 30; remaining = 0; retry_after = 50 }

over_refused :
    (enforce 10 defaults redis_counts true
      (codes "key-a")
      (codes "ask" ∷ [])
      6100
      (record { counts = []; remote = 30 })).0
    ≡ too_many over
unfolding text_eq text_lt is_space is_word to_lower lower strip_left strip_right strip starts_with
    contains join split_at split split_max_at split_max member decimal number insert_sorted
    sorted_set override candidates tightest limits_for lookup insert next_entry prune incr bucket
    decide check enforce detail redis
over_refused = refl

too_many-over_example :
    (defaults.rate_limit_enabled ≡ true)
    × ((n : ℕ) × ((redis_counts
            (bucket_of 10 defaults first_request)
            (limits_for defaults (codes "ask" ∷ [])).1
            30).0
          ≡ some n)
        × ((limits_for defaults (codes "ask" ∷ [])).0 < n))
    × (0 < over.retry_after)
    × (over.retry_after ≤ max 1 (limits_for defaults (codes "ask" ∷ [])).1)
    × (over.remaining ≡ 0)
too_many-over_example =
    too_many-over 10 defaults redis_counts first_request (record { counts = []; remote = 30 }) over
      over_refused

-- So many counters that began at the epoch.
abbrev old_counters : ℕ → Counts
old_counters zero = []
old_counters (suc n) = (suc n ∷ [], 1, 0) ∷ old_counters n

length-old_counters : (n : ℕ) → length (old_counters n) ≡ n
length-old_counters zero = refl
length-old_counters (suc n) = ap suc (length-old_counters n)

old_counters-expired :
    (key : Text) (cutoff n : ℕ)
    → 0 < cutoff
    → All (λ (e : Text × ℕ × ℕ). text_eq key e.0 ≡ true → e.2 < cutoff) (old_counters n)
old_counters-expired key cutoff zero h = tt
old_counters-expired key cutoff (suc n) h = (λ e. h, old_counters-expired key cutoff n h)

length-le-insert : (k : Text) (v : ℕ × ℕ) (m : Counts) → length m ≤ length (insert k v m)
unfolding insert
length-le-insert k v [] = omega arith
length-le-insert k v ((j, n, b) ∷ m) = ground (arith, length-le-insert k v m)

read_apart : text_eq (codes "rl:a:index:1") (codes "rl:b:read:61") ≡ false
unfolding text_eq text_lt is_space is_word to_lower lower strip_left strip_right strip starts_with
    contains join split_at split split_max_at split_max member decimal number insert_sorted
    sorted_set override candidates tightest limits_for lookup insert next_entry prune incr bucket
    decide check enforce detail redis
read_apart = refl

-- Five index launches in the hour that began at tick 36000, of the 36000 ticks of an hour.
abbrev launches : Counts
launches = (codes "rl:a:index:1", 5, 36000) ∷ old_counters 10000
