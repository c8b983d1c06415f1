-- ===== src/Evaluation.antt =====
-- The golden-set evaluation (src/scripts/run_eval.py): the score of a case, the summary, and the
-- regression gate. The agent, the judge and the rounding of a mean are parameters.
pub mod Gate
mod Tests
use finance_rag.Prelude.{
  ℕ, zero, suc, ◌+◌, Bool, true, false, ◌&&◌, ◌||◌, not, Option, none, some, List, [], ◌∷◌, ◌++◌,
  if◌then◌else◌, ltb, ◌==◌, length, take, keep, any_of, is_empty, get_or, max,
}
use finance_rag.Text.{Text, codes, text_eq, strip, lower, contains, split, member}
use finance_rag.Models.{Floats, Citation, RetrievalMetrics, RagResponse, mean, citation_ids}
use finance_rag.Metrics.Online.{citation_metrics}
use finance_rag.Metrics.Offline.{evaluate_labeled}
use finance_rag.Agent.Roles.{non_empty}

-- `s.replace("\\", "/")`
unfoldable pub slashes : Text → Text
slashes [] = []
slashes (c ∷ s) = (if c == 92 then 47 else c) ∷ slashes s

-- The last component of a path that is neither empty nor a dot.
unfoldable pub last_name : List Text → Text
last_name [] = []
last_name (p ∷ ps) =
    let rest = last_name ps in
    if not (is_empty rest) then rest else if is_empty p || text_eq p (codes ".") then [] else p

-- `_source_key`
unfoldable pub source_key : Text → Text
source_key value = lower (strip (last_name (split 47 (slashes value))))

-- `_chunk_matches_label`, of a citation's source
unfoldable pub chunk_matches_label : Text → Text → List Text → Bool
chunk_matches_label source doc_id labels =
    (not (is_empty doc_id) && member (lower (strip doc_id)) labels)
    || (not (is_empty source) && member (source_key source) labels)

abbrev pub markers : List Text
markers =
    codes "do not have sufficiently relevant"
    ∷ codes "insufficient"
    ∷ codes "cannot process this request"
    ∷ codes "not enough information"
    ∷ codes "does not contain"
    ∷ []

-- A case of the golden set.
pub record Case : Type 0 where
  pub query : Text
  pub relevant_sources : List Text
  pub expect_refusal : Bool

-- The row of a case; a key that a branch does not set is none.
pub record CaseRow (F : Type 0) : Type 0 where
  pub expect_refusal : Bool
  pub refused : Bool
  pub abstention_correct : Bool
  pub hit_rate : Option F
  pub mrr : Option F
  pub ndcg : Option F
  pub precision_at_k : Option F
  pub recall_at_k : Option F
  pub citation_precision : Option F
  pub hallucinated_citations : List Text
  pub faithfulness : Option F
  pub answer_relevance : Option F

-- What the judge finds in an answer.
pub record Judged (F : Type 0) : Type 0 where
  pub faithfulness : Option F
  pub answer_relevance : Option F

unfoldable pub normal_labels : List Text → List Text
normal_labels [] = []
normal_labels (s ∷ ss) = lower (strip s) ∷ normal_labels ss

module _ {F : Type 0} where
  -- `_looks_refused`
  unfoldable pub looks_refused : RagResponse F → Bool
  looks_refused r = r.refused || any_of (λ m. contains m (lower r.answer)) markers

  -- `{c.chunk_id: c for c in citations}.get(cid)`: of two citations of one id, the last
  unfoldable pub citation_for : Text → List (Citation F) → Option (Citation F)
  citation_for d [] = none
  citation_for d (c ∷ cs) =
      let rest = citation_for d cs in
      elim rest [ some q ↦ some q | none ↦ if text_eq d c.chunk_id then some c else none ]

  -- The retrieved ids that count as relevant.
  unfoldable pub relevant_ids : List Text → List (Citation F) → List Text → List Text
  relevant_ids labels citations [] = []
  relevant_ids labels citations (d ∷ ds) =
      let rest = relevant_ids labels citations ds in
      elim (citation_for d citations) [
        | none ↦ rest
        | some c ↦ if chunk_matches_label c.source c.doc_id labels then d ∷ rest else rest
      ]

  -- `list(response.retrieved_ids) or [c.chunk_id for c in citations]`
  unfoldable pub scored_ids : RagResponse F → List Text
  scored_ids r = if is_empty r.retrieved_ids then citation_ids r.citations else r.retrieved_ids

  -- `c.text or c.excerpt` of the citations
  unfoldable pub evidence : List (Citation F) → List Text
  evidence [] = []
  evidence (c ∷ cs) = (if is_empty c.content then c.excerpt else c.content) ∷ evidence cs

module _ {F : Type 0} (fl : Floats F) (log2 : ℕ → F) (judge : Text → Text → List Text → Judged F)
    (use_judge : Bool) where
  -- `evaluate_case`, of the response that the agent gave
  unfoldable pub evaluate_case : Case → RagResponse F → CaseRow F
  evaluate_case case response =
      let labels = normal_labels case.relevant_sources in
      let refused = looks_refused response in
      let retrieved = scored_ids response in
      let relevant = relevant_ids labels response.citations retrieved in
      let k = if is_empty retrieved then 1 else length retrieved in
      let labelled =
        evaluate_labeled fl log2 retrieved relevant (some k) (some (max (length labels) 1)) in
      let grounding =
        citation_metrics fl (citation_ids response.citations) retrieved (some relevant) in
      let judged = judge case.query response.answer (take 8 (evidence response.citations)) in
      let wanted = use_judge && not refused in
      if case.expect_refusal
      then record {
        expect_refusal = true;
        refused = refused;
        abstention_correct = refused;
        hit_rate = none;
        mrr = none;
        ndcg = none;
        precision_at_k = none;
        recall_at_k = none;
        citation_precision = none;
        hallucinated_citations = response.metrics.hallucinated_citations;
        faithfulness = none;
        answer_relevance = none;
      }
      else record {
        expect_refusal = false;
        refused = refused;
        abstention_correct = not refused;
        hit_rate = labelled.hit_rate;
        mrr = labelled.mrr;
        ndcg = labelled.ndcg;
        precision_at_k = labelled.precision_at_k;
        recall_at_k = labelled.recall_at_k;
        citation_precision = grounding.citation_precision;
        hallucinated_citations = grounding.hallucinated_citations;
        faithfulness = if wanted then judged.faithfulness else none;
        answer_relevance = if wanted then judged.answer_relevance else none;
      }

-- The headline metrics of a run.
pub record Summary (F : Type 0) : Type 0 where
  pub n_cases : ℕ
  pub n_answerable : ℕ
  pub n_refusal_cases : ℕ
  pub hit_rate : Option F
  pub mrr : Option F
  pub ndcg : Option F
  pub precision_at_k : Option F
  pub recall_at_k : Option F
  pub citation_precision : Option F
  pub faithfulness : Option F
  pub answer_relevance : Option F
  pub abstention_accuracy : Option F
  pub refusal_recall : Option F
  pub total_hallucinated_citations : ℕ

module _ {F : Type 0} where
  -- The values of a metric that are there.
  unfoldable pub measured_values : (CaseRow F → Option F) → List (CaseRow F) → List F
  measured_values metric [] = []
  measured_values metric (r ∷ rs) =
      let rest = measured_values metric rs in elim (metric r) [ none ↦ rest | some x ↦ x ∷ rest ]

  unfoldable pub hallucinated_total : List (CaseRow F) → ℕ
  hallucinated_total [] = 0
  hallucinated_total (r ∷ rs) = length r.hallucinated_citations + hallucinated_total rs

module _ {F : Type 0} (fl : Floats F) (round4 : F → F) where
  -- `_mean` of a metric
  unfoldable pub mean_of : (CaseRow F → Option F) → List (CaseRow F) → Option F
  mean_of metric rows = elim (mean fl (measured_values metric rows)) [
    | none ↦ none
    | some x ↦ some (round4 x)
  ]

  abbrev pub correct : CaseRow F → Option F
  correct r = some (if r.abstention_correct then fl.one else fl.zero)

  -- `summarise`, without the latency and the breakdown by service line
  unfoldable pub summarise : List (CaseRow F) → Summary F
  summarise rows =
      let answerable = keep (λ r. not r.expect_refusal) rows in
      let refusable = keep (λ r. r.expect_refusal) rows in
      record {
        n_cases = length rows;
        n_answerable = length answerable;
        n_refusal_cases = length refusable;
        hit_rate = mean_of (λ r. r.hit_rate) answerable;
        mrr = mean_of (λ r. r.mrr) answerable;
        ndcg = mean_of (λ r. r.ndcg) answerable;
        precision_at_k = mean_of (λ r. r.precision_at_k) answerable;
        recall_at_k = mean_of (λ r. r.recall_at_k) answerable;
        citation_precision = mean_of (λ r. r.citation_precision) answerable;
        faithfulness = mean_of (λ r. r.faithfulness) answerable;
        answer_relevance = mean_of (λ r. r.answer_relevance) answerable;
        abstention_accuracy = mean_of correct rows;
        refusal_recall = mean_of correct refusable;
        total_hallucinated_citations = hallucinated_total rows;
      }

-- A failure of the gate: a metric with its value and that of the baseline, or invented citations.
pub data Regression (F : Type 0) : Type 0 where
  fell : Text → F → F → Regression F
  invented : ℕ → ℕ → Regression F

-- `GATED_METRICS`
unfoldable pub gated : {F : Type 0} → Summary F → List (Text × Option F)
gated s =
    (codes "hit_rate", s.hit_rate)
    ∷ (codes "mrr", s.mrr)
    ∷ (codes "ndcg", s.ndcg)
    ∷ (codes "recall_at_k", s.recall_at_k)
    ∷ (codes "abstention_accuracy", s.abstention_accuracy)
    ∷ []

module _ {F : Type 0} (fl : Floats F) (minus : F → F → F) (tolerance : F) where
  -- The check of one metric; `minus` is the subtraction of floats and `tolerance` is
  -- REGRESSION_TOLERANCE.
  unfoldable pub check_metric : Text → Option F → Option F → List (Regression F)
  check_metric name none was = []
  check_metric name (some now) none = []
  check_metric name (some now) (some was) =
      if fl.lt now (minus was tolerance) then fell name now was ∷ [] else []

  -- The loop over the gated metrics of both summaries.
  unfoldable pub check_metrics :
      List (Text × Option F) → List (Text × Option F) → List (Regression F)
  check_metrics [] bs = []
  check_metrics (a ∷ rest) [] = []
  check_metrics (a ∷ rest) (b ∷ bs) = check_metric a.0 a.1 b.1 ++ check_metrics rest bs

  -- `check_regression`
  unfoldable pub check_regression : Summary F → Summary F → List (Regression F)
  check_regression summary baseline =
      let now = summary.total_hallucinated_citations in
      let was = baseline.total_hallucinated_citations in
      check_metrics (gated summary) (gated baseline)
      ++ (if ltb was now then invented now was ∷ [] else [])
