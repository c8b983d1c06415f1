-- ===== src/Api/RateLimit/Decisions.antt =====
-- What the limiter decides after a history of requests (src/finance_rag/api/ratelimit.py).
use finance_rag.Prelude.{
  ℕ, suc, ◌+◌, ◌-◌, ◌*◌, ◌/◌, max, ◌≤◌, ◌<◌, ◌≡◌, refl, ◌⊎◌, inl, inr, Bool, true, false, some,
  List, [], ◌∷◌, if◌then◌else◌, length, All, arith, Bool-cases, Option-cases, ap, sym, ◌∙◌,
}
use mathlib.Core.Path.{subst}
use native.Mathlib.Omega.{div_any}
use native.Mathlib.Nat.{add-zero, zero-add, div-le_of_le-mul}
use finance_rag.Text.{Text, text_eq}
use finance_rag.Text.Laws.{text_eq_sound}
use finance_rag.Config.{Settings}
use finance_rag.Api.RateLimit.{
  Counts, table_limit, span, bucket_start, incr, window_number, bucket, limits_for, Limiter,
  Pipeline, check, decide, lookup, Decision, too_many, enforce,
}
use finance_rag.Api.RateLimit.Windows.{
  Tallied, next_entry_counts, hit_same, hit_other, length-incr-le, window_number-bucket_start,
  bucket-injective,
}

-- One call of `check`.
pub record Request : Type 0 where
  pub key_id : Text
  pub scopes : List Text
  pub now : ℕ

module _ (hz : ℕ) (st : Settings) where
  abbrev pub bucket_of : Request → Text
  bucket_of r = bucket hz r.key_id r.scopes (limits_for st r.scopes).1 r.now

  -- The requests of a history that share the bucket of `r`.
  abbrev pub hits : Request → List Request → ℕ
  hits r [] = 0
  hits r (q ∷ qs) =
      let rest = hits r qs in if text_eq (bucket_of r) (bucket_of q) then suc rest else rest

  -- Buckets are spelled apart unless the credential and the route are the same.
  abbrev pub Apart : Request → Request → Type 0
  Apart r q =
      ((q.key_id ≡ r.key_id) × (q.scopes ≡ r.scopes))
      ⊎ (text_eq (bucket_of r) (bucket_of q) ≡ false)

  abbrev pub begun_at : Request → ℕ
  begun_at r = bucket_start hz (limits_for st r.scopes).1 r.now

  module _ {R : Type 0} (pipeline : Pipeline R) where
    -- The limiter after requests that Redis took no part in, the earliest first.
    abbrev pub served : List Request → Limiter R → Limiter R
    served [] lm = lm
    served (q ∷ qs) lm = served qs (check hz st pipeline false q.key_id q.scopes q.now lm).1

  counts_after :
      {R : Type 0} (pipeline : Pipeline R) (q : Request) (lm : Limiter R)
      → (check hz st pipeline false q.key_id q.scopes q.now lm).1.counts
        ≡ (incr hz (bucket_of q) (limits_for st q.scopes).1 q.now lm.counts).1
  unfolding check
  counts_after pipeline q lm = refl

  begun_at_same :
      (r q : Request)
      → (q.key_id ≡ r.key_id) × (q.scopes ≡ r.scopes)
      → bucket_of r ≡ bucket_of q
      → begun_at r ≡ begun_at q
  begun_at_same r q (k, s) e =
      let window = (limits_for st r.scopes).1 in
      let moved : bucket_of q ≡ bucket hz r.key_id r.scopes window q.now =
        ap (λ (p : Text × List Text). bucket hz p.0 p.1 (limits_for st p.1).1 q.now)
          (λ i. (k i, s i)) in
      let one_window = bucket-injective hz r.key_id r.scopes window r.now q.now (e ∙ moved) in
      window_number-bucket_start hz window r.now q.now one_window
      ∙ ap (λ (ss : List Text). bucket_start hz (limits_for st ss).1 q.now) (sym s)

  hit_counts :
      (r q : Request) (n : ℕ) (m : Counts)
      → Apart r q
      → Tallied hz (bucket_of r) (begun_at r) n m
      → length m < table_limit
      → Tallied hz
          (bucket_of r)
          (begun_at r)
          (if text_eq (bucket_of r) (bucket_of q) then suc n else n)
          (incr hz (bucket_of q) (limits_for st q.scopes).1 q.now m).1
  hit_counts r q n m a h short = elim (Bool-cases (text_eq (bucket_of r) (bucket_of q))) [
    | inl e ↦ same e a
    | inr e ↦ rw e (
        hit_other hz (bucket_of r) (bucket_of q) (begun_at r) (limits_for st q.scopes).1 q.now n m
          short e h)
  ]
    where
      same :
          text_eq (bucket_of r) (bucket_of q) ≡ true
          → Apart r q
          → Tallied hz
              (bucket_of r)
              (begun_at r)
              (if text_eq (bucket_of r) (bucket_of q) then suc n else n)
              (incr hz (bucket_of q) (limits_for st q.scopes).1 q.now m).1
      same e (inr apart) = absurd (ground arith)
      same e (inl one) =
          let b = text_eq_sound (bucket_of r) (bucket_of q) e in
          let t = begun_at_same r q one b in
          let after =
            hit_same hz (bucket_of q) (limits_for st q.scopes).1 q.now n m short
              (subst (λ (p : Text × ℕ). Tallied hz p.0 p.1 n m) (λ i. (b i, t i)) h) in
          rw e (
            subst
              (λ (p : Text × ℕ).
                Tallied hz p.0 p.1 (suc n)
                  (incr hz (bucket_of q) (limits_for st q.scopes).1 q.now m).1)
              (λ i. (sym b i, sym t i)) after)

  module _ {R : Type 0} (pipeline : Pipeline R) where
    history_counts :
        (r : Request) (qs : List Request) (n : ℕ) (lm : Limiter R)
        → All (Apart r) qs
        → Tallied hz (bucket_of r) (begun_at r) n lm.counts
        → length lm.counts + length qs ≤ table_limit
        → Tallied hz (bucket_of r) (begun_at r) (n + hits r qs) (served pipeline qs lm).counts
    history_counts r [] n lm a h short = rw (add-zero n) h
    history_counts r (q ∷ qs) n lm a h short =
        let after = (check hz st pipeline false q.key_id q.scopes q.now lm).1 in
        let one = if text_eq (bucket_of r) (bucket_of q) then suc n else n in
        let counted =
          subst (Tallied hz (bucket_of r) (begun_at r) one) (sym (counts_after pipeline q lm))
            (hit_counts r q n lm.counts a.0 h (omega arith)) in
        let grown =
          length-incr-le hz (bucket_of q) (limits_for st q.scopes).1 q.now lm.counts
            (omega arith) in
        let sized =
          subst (λ (m : Counts). length m ≤ suc (length lm.counts))
            (sym (counts_after pipeline q lm)) grown in
        let rest = history_counts r qs one after a.1 counted (omega arith) in
        subst
          (λ (k : ℕ). Tallied hz (bucket_of r) (begun_at r) k (served pipeline (q ∷ qs) lm).counts)
          (one_more (text_eq (bucket_of r) (bucket_of q))) rest
      where
        one_more :
            (b : Bool)
            → (if b then suc n else n) + hits r qs ≡ n + (if b then suc (hits r qs) else hits r qs)
        one_more true = omega arith
        one_more false = omega arith

    -- After any history of requests with distinct spellings, fewer than the table's limit, the
    -- next request of a credential is decided on the number of its requests in the same window
    -- and on the end of that window.
    pub check-served :
        (r : Request) (qs : List Request) (remote : R)
        → All (Apart r) qs
        → length qs < table_limit
        → (check hz st pipeline false r.key_id r.scopes r.now
            (served pipeline qs (record { counts = []; remote = remote }))).0
          ≡ decide hz
              (limits_for st r.scopes).0
              (suc (hits r qs))
              (begun_at r + span hz (limits_for st r.scopes).1)
              r.now
    unfolding check incr lookup
    check-served r qs remote a short =
        let start : Limiter R = record { counts = []; remote = remote } in
        let tally =
          subst
            (λ (k : ℕ). Tallied hz (bucket_of r) (begun_at r) k (served pipeline qs start).counts)
            (zero-add (hits r qs))
            (history_counts r qs 0 start a (empty (bucket_of r)) (omega arith)) in
        let entry =
          next_entry_counts hz (bucket_of r) (limits_for st r.scopes).1 r.now (hits r qs)
            (served pipeline qs start).counts tally in
        rw entry refl
      where
        empty : (key : Text) → Tallied hz key (begun_at r) 0 []
        empty key = refl

-- How long the refusal tells the caller to wait.
decide-bounds :
    (hz limit count reset_at now window : ℕ)
    → reset_at - now ≤ window * hz
    → (0 < (decide hz limit count reset_at now).retry_after)
      × ((decide hz limit count reset_at now).retry_after ≤ max 1 window)
      × (((decide hz limit count reset_at now).allowed ≡ false)
          → (limit < count) × ((decide hz limit count reset_at now).remaining ≡ 0))
unfolding decide
decide-bounds hz limit count reset_at now window h =
    let waited : (reset_at - now) / hz ≤ window = div-le_of_le-mul hz (omega arith) in
    (
      omega arith,
      omega arith,
      λ over. let more : limit < count = ground arith in (more, omega arith),
    )

-- The end of the window that Redis counts in is at most one window away.
redis_reset :
    (hz window now : ℕ) → (window_number hz window now + 1) * span hz window - now ≤ window * hz
redis_reset hz window now = omega (arith, div_any now (window * hz))

module _ (hz : ℕ) (st : Settings) {R : Type 0} (pipeline : Pipeline R) where
  -- With Redis, a request is refused only when the limit is enforced and Redis has counted more
  -- requests in the window than the limit allows; a failure of Redis refuses nothing. A refusal
  -- asks for a wait of at least a second and at most the window, and reports nothing left.
  pub too_many-over :
      (r : Request) (lm : Limiter R) (d : Decision)
      → (enforce hz st pipeline true r.key_id r.scopes r.now lm).0 ≡ too_many d
      → (st.rate_limit_enabled ≡ true)
        × ((n : ℕ) × ((pipeline (bucket_of hz st r) (limits_for st r.scopes).1 lm.remote).0
              ≡ some n)
            × ((limits_for st r.scopes).0 < n))
        × (0 < d.retry_after)
        × (d.retry_after ≤ max 1 (limits_for st r.scopes).1)
        × (d.remaining ≡ 0)
  unfolding enforce check
  too_many-over r lm d h =
      elim (Option-cases (pipeline (bucket_of hz st r) (limits_for st r.scopes).1 lm.remote).0) [
        | inl e ↦ absurd (ground arith)
        | inr (n, e) ↦
            let (limit, window) = limits_for st r.scopes in
            let reset = (window_number hz window r.now + 1) * span hz window in
            let found : Decision = decide hz limit n reset r.now in
            let refused : (st.rate_limit_enabled ≡ true) × (found.allowed ≡ false) × (found ≡ d) =
              ground arith in
            let (soon, late, over) =
              decide-bounds hz limit n reset r.now window (redis_reset hz window r.now) in
            let (more, spent) = over refused.1 in
            let same = refused.2 in
            (
              refused.0,
              (n, e, more),
              subst (λ (x : Decision). 0 < x.retry_after) same soon,
              subst (λ (x : Decision). x.retry_after ≤ max 1 window) same late,
              subst (λ (x : Decision). x.remaining ≡ 0) same spent,
            )
      ]
