-- ===== src/Api/RateLimit/Credentials.antt =====
-- Whose requests share a bucket of the limiter (src/finance_rag/api/ratelimit.py).
use finance_rag.Prelude.{
  ℕ, suc, ◌+◌, ◌≡◌, ◌≢◌, refl, ap, sym, ◌∙◌, subst, ◌⊎◌, inl, inr, Bool, true, false, ◌&&◌, not,
  List, [], ◌∷◌, ◌++◌, ◌==◌, ◌<◌, if◌then◌else◌, all_of, All, length, arith, Bool-cases,
}
use mathlib.Core.List.{append_assoc}
use mathlib.Core.Bool.{true≢false}
use finance_rag.Text.{Text, codes, text_eq, join}
use finance_rag.Text.Laws.{text_eq_sound, text_eq_refl}
use finance_rag.Text.Sorting.{sorted_set}
use finance_rag.Text.Decimal.{decimal, decimal-injective}
use finance_rag.Config.{Settings}
use finance_rag.Api.RateLimit.{
  table_limit, span, window_number, bucket, limits_for, Pipeline, check, decide,
}
use finance_rag.Api.RateLimit.Windows.{append_cancel_left}
use finance_rag.Api.RateLimit.Decisions.{
  Request, bucket_of, hits, Apart, begun_at, served, check-served,
}

-- The text has no colon, like the key ids and the scopes of the key table, which is split at colons.
abbrev pub colon_free : Text → Bool
colon_free s = all_of (λ c. not (c == b':')) s

-- How the scopes of a route stand in a bucket.
abbrev pub names : List Text → Text
names scopes = join (codes "-") (sorted_set scopes)

colon-injective :
    (a b x y : Text)
    → colon_free a ≡ true
    → colon_free b ≡ true
    → a ++ (b':' ∷ x) ≡ b ++ (b':' ∷ y)
    → (a ≡ b) × (x ≡ y)
colon-injective [] [] x y h g e = (refl, ground arith)
colon-injective [] (c ∷ b) x y h g e = absurd (ground arith)
colon-injective (c ∷ a) [] x y h g e = absurd (ground arith)
colon-injective (c ∷ a) (d ∷ b) x y h g e =
    let rest : a ++ (b':' ∷ x) ≡ b ++ (b':' ∷ y) = ground arith in
    let same : c ≡ d = ground arith in
    let (p, q) = colon-injective a b x y (ground arith) (ground arith) rest in (ground arith, q)

module _ (hz : ℕ) (st : Settings) where
  -- The number of the window that a request falls in.
  abbrev pub window_of : Request → ℕ
  window_of r = window_number hz (limits_for st r.scopes).1 r.now

  -- The bucket, with its three parts set off by colons.
  bucket_lem :
      (r : Request)
      → bucket_of hz st r
        ≡ codes "rl:" ++ (r.key_id ++ (b':' ∷ (names r.scopes ++ (b':' ∷ decimal (window_of r)))))
  unfolding bucket
  bucket_lem r =
      ap (λ s. codes "rl:" ++ s)
        (append_assoc r.key_id (b':' ∷ (names r.scopes ++ (b':' ∷ []))) (decimal (window_of r))
          ∙ ap (λ s. r.key_id ++ (b':' ∷ s))
              (append_assoc (names r.scopes) (b':' ∷ []) (decimal (window_of r))))

  -- The key id and the scopes of a request have no colons, and its scopes are those of `r` or are
  -- spelled otherwise.
  abbrev pub Spelled : Request → Request → Type 0
  Spelled r q =
      (colon_free q.key_id ≡ true)
      × (colon_free (names q.scopes) ≡ true)
      × ((q.scopes ≡ r.scopes) ⊎ (names r.scopes ≢ names q.scopes))

  -- Requests of one credential, on routes with the same scopes, in one window.
  abbrev pub counted : Request → Request → Bool
  counted r q =
      text_eq r.key_id q.key_id
      && (text_eq (names r.scopes) (names q.scopes) && window_of r == window_of q)

  -- The requests of a history that count against `r`.
  abbrev pub spent : Request → List Request → ℕ
  spent r [] = 0
  spent r (q ∷ qs) = let rest = spent r qs in if counted r q then suc rest else rest

  bucket_of-injective :
      (r q : Request)
      → Spelled r r
      → Spelled r q
      → bucket_of hz st r ≡ bucket_of hz st q
      → (r.key_id ≡ q.key_id) × (names r.scopes ≡ names q.scopes) × (window_of r ≡ window_of q)
  bucket_of-injective r q a b e =
      let rest_of =
        λ (x : Request). x.key_id ++ (b':' ∷ (names x.scopes ++ (b':' ∷ decimal (window_of x)))) in
      let stripped =
        append_cancel_left (codes "rl:") (rest_of r) (rest_of q)
          (sym (bucket_lem r) ∙ (e ∙ bucket_lem q)) in
      let (k, after) =
        colon-injective r.key_id q.key_id (names r.scopes ++ (b':' ∷ decimal (window_of r)))
          (names q.scopes ++ (b':' ∷ decimal (window_of q))) a.0 b.0 stripped in
      let (n, d) =
        colon-injective (names r.scopes) (names q.scopes) (decimal (window_of r))
          (decimal (window_of q)) a.1 b.1 after in
      (k, n, decimal-injective (window_of r) (window_of q) d)

  bucket_of-same :
      (r q : Request)
      → r.key_id ≡ q.key_id
      → names r.scopes ≡ names q.scopes
      → window_of r ≡ window_of q
      → bucket_of hz st r ≡ bucket_of hz st q
  bucket_of-same r q k n w =
      bucket_lem r
      ∙ (ap
            (λ (p : Text × Text × ℕ).
              codes "rl:" ++ (p.0 ++ (b':' ∷ (p.1 ++ (b':' ∷ decimal p.2)))))
            (λ i. (k i, n i, w i))
          ∙ sym (bucket_lem q))

  same_credential :
      (r q : Request)
      → r.key_id ≡ q.key_id
      → names r.scopes ≡ names q.scopes
      → window_of r ≡ window_of q
      → counted r q ≡ true
  same_credential r q k n w =
      let one : text_eq r.key_id q.key_id ≡ true =
        subst (λ x. text_eq r.key_id x ≡ true) k (text_eq_refl r.key_id) in
      let two : text_eq (names r.scopes) (names q.scopes) ≡ true =
        subst (λ x. text_eq (names r.scopes) x ≡ true) n (text_eq_refl (names r.scopes)) in
      rw (one, two) ground arith

  bucket_of-counted :
      (r q : Request)
      → Spelled r r
      → Spelled r q
      → text_eq (bucket_of hz st r) (bucket_of hz st q) ≡ counted r q
  bucket_of-counted r q a b =
      let br = bucket_of hz st r in
      let bq = bucket_of hz st q in
      elim (Bool-cases (text_eq br bq)) [
        | inl e ↦
            let (k, n, w) = bucket_of-injective r q a b (text_eq_sound br bq e) in
            e ∙ sym (same_credential r q k n w)
        | inr e ↦ elim (Bool-cases (counted r q)) [
          | inr g ↦ e ∙ sym g
          | inl g ↦
              let one : text_eq r.key_id q.key_id ≡ true = ground arith in
              let two : text_eq (names r.scopes) (names q.scopes) ≡ true = ground arith in
              let three : window_of r ≡ window_of q = ground arith in
              let same =
                bucket_of-same r q (text_eq_sound r.key_id q.key_id one)
                  (text_eq_sound (names r.scopes) (names q.scopes) two) three in
              let equal : text_eq br bq ≡ true =
                subst (λ x. text_eq br x ≡ true) same (text_eq_refl br) in
              absurd (true≢false (sym equal ∙ e))
        ]
      ]

  Spelled-Apart : (r q : Request) → Spelled r r → Spelled r q → Apart hz st r q
  Spelled-Apart r q a b =
      let br = bucket_of hz st r in
      let bq = bucket_of hz st q in
      elim (Bool-cases (text_eq br bq)) [
        | inr e ↦ inr e
        | inl e ↦
            let (k, n, w) = bucket_of-injective r q a b (text_eq_sound br bq e) in
            elim (b.2) [ inl s ↦ inl (sym k, s) | inr d ↦ absurd (d n) ]
      ]

  All-Apart :
      (r : Request) (qs : List Request) → Spelled r r → All (Spelled r) qs → All (Apart hz st r) qs
  All-Apart r [] a h = tt
  All-Apart r (q ∷ qs) a h = (Spelled-Apart r q a h.0, All-Apart r qs a h.1)

  hits-spent :
      (r : Request) (qs : List Request)
      → Spelled r r
      → All (Spelled r) qs
      → hits hz st r qs ≡ spent r qs
  hits-spent r [] a h = refl
  hits-spent r (q ∷ qs) a h =
      ap (λ b. if b then suc (hits hz st r qs) else hits hz st r qs) (bucket_of-counted r q a h.0)
      ∙ ap (λ n. if counted r q then suc n else n) (hits-spent r qs a h.1)

  -- After any history of requests, fewer than the table's limit, of credentials and scopes without a
  -- colon, the next request of a credential is decided on the number of its own requests, on routes
  -- with the same scopes and in the same window, and on the end of that window: no request of
  -- another credential counts. Scopes that differ are to be spelled differently when sorted.
  pub check-spent :
      {R : Type 0} (pipeline : Pipeline R) (r : Request) (qs : List Request) (remote : R)
      → Spelled r r
      → All (Spelled r) qs
      → length qs < table_limit
      → (check hz st pipeline false r.key_id r.scopes r.now
          (served hz st pipeline qs (record { counts = []; remote = remote }))).0
        ≡ decide hz
            (limits_for st r.scopes).0
            (suc (spent r qs))
            (begun_at hz st r + span hz (limits_for st r.scopes).1)
            r.now
  check-spent pipeline r qs remote a h short =
      check-served hz st pipeline r qs remote (All-Apart r qs a h) short
      ∙ ap
          (λ n.
            decide hz (limits_for st r.scopes).0 (suc n)
              (begun_at hz st r + span hz (limits_for st r.scopes).1) r.now)
          (hits-spent r qs a h)
