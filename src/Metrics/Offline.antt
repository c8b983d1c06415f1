-- ===== src/Metrics/Offline.antt =====
-- The metrics against relevance labels (src/finance_rag/metrics/retrieval_metrics.py). The binary
-- logarithm is a parameter.
use finance_rag.Prelude.{
  ℕ, zero, suc, ◌+◌, ◌-◌, Bool, Option, some, List, [], ◌∷◌, ◌++◌, if◌then◌else◌, length, take,
  keep, any_of, get_or, sort_by, ◌==◌,
}
use finance_rag.Text.{Text, member}
use finance_rag.Models.{Floats, RetrievalMetrics, unmeasured, sum_from}
use finance_rag.Metrics.Online.{from_keys, share}

-- `xs[:k] if k else xs`
abbrev pub cut : {A : Type 0} → ℕ → List A → List A
cut zero xs = xs
cut (suc k) xs = take (suc k) xs

module _ {F : Type 0} (fl : Floats F) (log2 : ℕ → F) where
  abbrev pub positive : F → Bool
  positive x = fl.lt fl.zero x

  -- `[1.0 if cid in relevant_ids else 0.0 for cid in retrieved_ids]`
  unfoldable pub binary : List Text → List Text → List F
  binary relevant [] = []
  binary relevant (d ∷ ds) = (if member d relevant then fl.one else fl.zero) ∷ binary relevant ds

  unfoldable pub hit_rate : List F → F
  hit_rate rels = if any_of positive rels then fl.one else fl.zero

  -- The loop of `mrr`, from a rank on.
  unfoldable pub mrr_from : ℕ → List F → F
  mrr_from i [] = fl.zero
  mrr_from i (x ∷ xs) =
      let rest = mrr_from (suc i) xs in if positive x then fl.div fl.one (fl.of_nat i) else rest

  unfoldable pub mrr : List F → F
  mrr rels = mrr_from 1 rels

  -- The terms of `dcg`.
  unfoldable pub gains : ℕ → List F → List F
  gains i [] = []
  gains i (x ∷ xs) = fl.div x (log2 (i + 1)) ∷ gains (suc i) xs

  unfoldable pub dcg : List F → ℕ → F
  dcg rels k = sum_from fl (fl.of_nat 0) (gains 1 (cut k rels))

  unfoldable pub ndcg : List F → ℕ → Option (List F) → F
  ndcg rels k ideal_relevances =
      let pool = get_or ideal_relevances rels in
      let ideal = cut k (sort_by (λ a b. fl.lt a b) pool) in
      let ideal_dcg = dcg ideal k in
      if fl.eq ideal_dcg fl.zero then fl.zero else fl.div (dcg (cut k rels) k) ideal_dcg

  unfoldable pub precision_at_k : List F → ℕ → F
  precision_at_k rels k = share fl (length (keep positive (take k rels))) (length (take k rels))

  -- `min(found / total_relevant, 1.0)`
  unfoldable pub recall_at_k : List F → ℕ → ℕ → F
  recall_at_k rels total_relevant k =
      let found = share fl (length (keep positive (take k rels))) total_relevant in
      if total_relevant == 0 then fl.zero else if fl.lt fl.one found then fl.one else found

  -- The loop of `average_precision`: the hits so far, and the sum of the precisions.
  unfoldable pub precisions : ℕ → ℕ → F → List F → ℕ × F
  precisions i hits total [] = (hits, total)
  precisions i hits total (x ∷ xs) =
      let hit =
        precisions (suc i) (suc hits) (fl.add total (fl.div (fl.of_nat (suc hits)) (fl.of_nat i)))
          xs in
      let miss = precisions (suc i) hits total xs in if positive x then hit else miss

  unfoldable pub average_precision : List F → F
  average_precision rels =
      let (hits, total) = precisions 1 0 fl.zero rels in
      if hits == 0 then fl.zero else fl.div total (fl.of_nat hits)

  unfoldable pub ones : ℕ → List F
  ones zero = []
  ones (suc n) = fl.one ∷ ones n

  -- `evaluate_labeled`, without scores
  unfoldable pub evaluate_labeled : List Text → List Text → Option ℕ → Option ℕ → RetrievalMetrics F
  evaluate_labeled retrieved relevant k total_relevant =
      let rels = binary relevant retrieved in
      let by_default = if length retrieved == 0 then 1 else length retrieved in
      let given = get_or k 0 in
      let cutoff = if given == 0 then by_default else given in
      let known = get_or total_relevant (length (from_keys [] relevant)) in
      let missed = known - length (keep positive rels) in
      record unmeasured {
        hit_rate = some (hit_rate rels);
        mrr = some (mrr rels);
        ndcg = some (ndcg rels cutoff (some (rels ++ ones missed)));
        precision_at_k = some (precision_at_k rels cutoff);
        recall_at_k = some (recall_at_k rels known cutoff);
        context_precision = some (average_precision rels);
        context_recall =
            some (share fl (length (keep (λ d. member d relevant) (from_keys [] retrieved))) known);
        num_retrieved = length retrieved;
      }
