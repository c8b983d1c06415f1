-- ===== src/Api/RateLimit/Windows.antt =====
-- The per-process counters of a bucket (src/finance_rag/api/ratelimit.py).
use finance_rag.Prelude.{
  ℕ, suc, ◌-◌, ◌*◌, ◌≤◌, ◌<◌, ◌≡◌, refl, inl, inr, true, false, none, some, List, [], ◌∷◌, ◌++◌,
  leb, length, keep, get_or, All, arith, Bool-cases, ap, sym, ◌∙◌,
}
use native.Mathlib.Omega.{div_any}
use finance_rag.Text.{Text, codes, text_eq, join}
use finance_rag.Text.Laws.{text_eq_sound, text_eq_refl}
use finance_rag.Text.Decimal.{decimal, decimal-injective}
use finance_rag.Text.Sorting.{sorted_set}
use finance_rag.Api.RateLimit.{
  Counts, lookup, insert, table_limit, span, bucket_start, next_entry, prune, incr, window_number,
  bucket,
}

pub lookup-insert_same : (k : Text) (v : ℕ × ℕ) (m : Counts) → lookup k (insert k v m) ≡ some v
unfolding lookup insert
lookup-insert_same k v [] = ground (arith, text_eq_refl k)
lookup-insert_same k v ((j, n, b) ∷ m) = ground (arith, text_eq_refl k, lookup-insert_same k v m)

pub lookup-insert_other :
    (k j : Text) (v : ℕ × ℕ) (m : Counts)
    → text_eq k j ≡ false
    → lookup k (insert j v m) ≡ lookup k m
unfolding lookup insert
lookup-insert_other k j v [] h = ground arith
lookup-insert_other k j v ((i, n, b) ∷ m) h = elim (Bool-cases (text_eq j i)) [
  | inl e ↦ ground (arith, text_eq_sound j i e)
  | inr e ↦ ground (arith, lookup-insert_other k j v m h)
]

pub length-insert-le : (k : Text) (v : ℕ × ℕ) (m : Counts) → length (insert k v m) ≤ suc (length m)
unfolding insert
length-insert-le k v [] = omega arith
length-insert-le k v ((j, n, b) ∷ m) = ground (arith, length-insert-le k v m)

module _ (hz : ℕ) where
  prune_short : (window now : ℕ) (m : Counts) → length m ≤ table_limit → prune hz window now m ≡ m
  unfolding prune
  prune_short window now m h = ground arith

  -- The table that `incr` leaves while it is short enough to keep every entry.
  pub incr-table :
      (key : Text) (window now : ℕ) (m : Counts)
      → length m < table_limit
      → (incr hz key window now m).1 ≡ insert key (next_entry hz key window now m) m
  unfolding incr
  incr-table key window now m h =
      prune_short window now (insert key (next_entry hz key window now m) m)
        (omega (arith, length-insert-le key (next_entry hz key window now m) m))

  -- How often a window was hit, as the table tells it: no entry before the first hit.
  abbrev pub Tallied : Text → ℕ → ℕ → Counts → Type 0
  Tallied key begun n m = (get_or (lookup key m) (0, begun)) ≡ (n, begun)

  pub next_entry_counts :
      (key : Text) (window now n : ℕ) (m : Counts)
      → Tallied key (bucket_start hz window now) n m
      → next_entry hz key window now m ≡ (suc n, bucket_start hz window now)
  unfolding next_entry
  next_entry_counts key window now n m h = ground arith

  pub hit_same :
      (key : Text) (window now n : ℕ) (m : Counts)
      → length m < table_limit
      → Tallied key (bucket_start hz window now) n m
      → Tallied key (bucket_start hz window now) (suc n) (incr hz key window now m).1
  hit_same key window now n m short h =
      rw
        (
          incr-table key window now m short,
          next_entry_counts key window now n m h,
          lookup-insert_same key (suc n, bucket_start hz window now) m,
        )
        refl

  pub hit_other :
      (key other : Text) (begun window now n : ℕ) (m : Counts)
      → length m < table_limit
      → text_eq key other ≡ false
      → Tallied key begun n m
      → Tallied key begun n (incr hz other window now m).1
  hit_other key other begun window now n m short apart h =
      rw
        (
          incr-table other window now m short,
          lookup-insert_other key other (next_entry hz other window now m) m apart,
        )
        h

  -- A hit makes the table longer by one entry at most.
  pub length-incr-le :
      (key : Text) (window now : ℕ) (m : Counts)
      → length m < table_limit
      → length (incr hz key window now m).1 ≤ suc (length m)
  length-incr-le key window now m short =
      rw (incr-table key window now m short)
        (length-insert-le key (next_entry hz key window now m) m)

  -- Ticks of one window have one beginning.
  pub window_number-bucket_start :
      (window now later : ℕ)
      → window_number hz window now ≡ window_number hz window later
      → bucket_start hz window now ≡ bucket_start hz window later
  window_number-bucket_start window now later h =
      begins now ∙ ap (λ k. span hz window * k) h ∙ sym (begins later)
    where
      begins : (t : ℕ) → bucket_start hz window t ≡ span hz window * window_number hz window t
      begins t = omega (arith, div_any t (span hz window))

pub append_cancel_left : (s t u : Text) → s ++ t ≡ s ++ u → t ≡ u
append_cancel_left [] t u h = h
append_cancel_left (c ∷ s) t u h = append_cancel_left s t u (ground arith)

module _ (hz : ℕ) where
  -- A credential's bucket tells the window.
  pub bucket-injective :
      (key_id : Text) (scopes : List Text) (window now later : ℕ)
      → bucket hz key_id scopes window now ≡ bucket hz key_id scopes window later
      → window_number hz window now ≡ window_number hz window later
  unfolding bucket
  bucket-injective key_id scopes window now later h =
      decimal-injective (window_number hz window now) (window_number hz window later) (
        append_cancel_left
          (codes "rl:"
            ++ (key_id ++ (codes ":" ++ (join (codes "-") (sorted_set scopes) ++ codes ":"))))
          (decimal (window_number hz window now)) (decimal (window_number hz window later)) h)

All-insert :
    (P : Text × ℕ × ℕ → Type 0) (k : Text) (v : ℕ × ℕ) (m : Counts)
    → P (k, v.0, v.1)
    → All P m
    → All P (insert k v m)
unfolding insert
All-insert P k v [] p h = (p, tt)
All-insert P k v ((j, n, b) ∷ m) p h = elim (Bool-cases (text_eq k j)) [
  | inl e ↦ rw e (p, h.1)
  | inr e ↦ rw e (h.0, All-insert P k v m p h.1)
]

module _ (hz : ℕ) where
  lookup-keep_expired :
      (key : Text) (cutoff : ℕ) (m : Counts)
      → All (λ (e : Text × ℕ × ℕ). text_eq key e.0 ≡ true → e.2 < cutoff) m
      → lookup key (keep (λ (e : Text × ℕ × ℕ). leb cutoff e.2) m) ≡ none
  unfolding lookup
  lookup-keep_expired key cutoff [] h = refl
  lookup-keep_expired key cutoff ((j, n, b) ∷ m) h =
      let later = lookup-keep_expired key cutoff m h.1 in
      elim (Bool-cases (text_eq key j)) [
        | inl e ↦ let old = h.0 e in ground (arith, later)
        | inr e ↦ ground (arith, later)
      ]

  -- A request on another key forgets a counter that began longer ago than that request's own
  -- window, however long the counter's window is, when the table is over its limit.
  pub counter_erased :
      (key other : Text) (window now : ℕ) (m : Counts)
      → text_eq key other ≡ false
      → All (λ (e : Text × ℕ × ℕ). text_eq key e.0 ≡ true → e.2 < now - span hz window) m
      → table_limit < length (insert other (next_entry hz other window now m) m)
      → lookup key (incr hz other window now m).1 ≡ none
  unfolding incr prune
  counter_erased key other window now m apart old long =
      let entry = next_entry hz other window now m in
      let expired = λ (e : Text × ℕ × ℕ). text_eq key e.0 ≡ true → e.2 < now - span hz window in
      let kept = All-insert expired other entry m (λ e. absurd (ground arith)) old in
      let gone = lookup-keep_expired key (now - span hz window) (insert other entry m) kept in
      ground arith
