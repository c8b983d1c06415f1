-- ===== src/Evaluation/Gate.antt =====
-- What the regression gate lets through, and which passages the evaluation counts as relevant
-- (src/scripts/run_eval.py).
use finance_rag.Prelude.{
  ℕ, ◌≤◌, ◌≡◌, refl, ap, ◌∙◌, ◌↔◌, inl, inr, false, Option, none, some, List, [], ◌∷◌, ◌++◌,
  if◌then◌else◌, ltb, In, All, arith, Bool-cases, Option-cases,
}
use finance_rag.Text.{Text, text_eq}
use finance_rag.Text.Laws.{text_eq_sound}
use finance_rag.Models.{Floats, Citation, citation_ids}
use finance_rag.Evaluation.{
  Summary, Regression, invented, gated, check_metric, check_metrics, check_regression, relevant_ids,
  citation_for, chunk_matches_label,
}

module _ {F : Type 0} (fl : Floats F) (minus : F → F → F) (tolerance : F) where
  -- The metric was measured in both runs and has fallen by no more than the tolerance, or it was not
  -- measured in one of them.
  abbrev pub Holds : Option F → Option F → Type 0
  Holds none was = Unit
  Holds (some now) none = Unit
  Holds (some now) (some was) = fl.lt now (minus was tolerance) ≡ false

  -- Every gated metric holds.
  abbrev pub AllHold : List (Text × Option F) → List (Text × Option F) → Type 0
  AllHold [] bs = Unit
  AllHold (a ∷ rest) [] = Unit
  AllHold (a ∷ rest) (b ∷ bs) = Holds a.1 b.1 × AllHold rest bs

  append_nil_left : (xs ys : List (Regression F)) → xs ++ ys ≡ [] → xs ≡ []
  append_nil_left [] ys h = refl
  append_nil_left (x ∷ xs) ys h = absurd (ground arith)

  append_nil_right : (xs ys : List (Regression F)) → xs ++ ys ≡ [] → ys ≡ []
  append_nil_right [] ys h = h
  append_nil_right (x ∷ xs) ys h = absurd (ground arith)

  check_metric-Holds :
      (name : Text) (now was : Option F)
      → check_metric fl minus tolerance name now was ≡ []
      → Holds now was
  unfolding check_metric
  check_metric-Holds name none was h = tt
  check_metric-Holds name (some now) none h = tt
  check_metric-Holds name (some now) (some was) h =
      elim (Bool-cases (fl.lt now (minus was tolerance))) [
        | inl e ↦ absurd (ground arith)
        | inr e ↦ e
      ]

  Holds-check_metric :
      (name : Text) (now was : Option F)
      → Holds now was
      → check_metric fl minus tolerance name now was ≡ []
  unfolding check_metric
  Holds-check_metric name none was h = refl
  Holds-check_metric name (some now) none h = refl
  Holds-check_metric name (some now) (some was) h = ground arith

  check_metrics-AllHold :
      (ns bs : List (Text × Option F)) → check_metrics fl minus tolerance ns bs ≡ [] → AllHold ns bs
  unfolding check_metrics
  check_metrics-AllHold [] bs h = tt
  check_metrics-AllHold (a ∷ rest) [] h = tt
  check_metrics-AllHold (a ∷ rest) (b ∷ bs) h =
      let here = check_metric fl minus tolerance a.0 a.1 b.1 in
      let more = check_metrics fl minus tolerance rest bs in
      (
        check_metric-Holds a.0 a.1 b.1 (append_nil_left here more h),
        check_metrics-AllHold rest bs (append_nil_right here more h),
      )

  AllHold-check_metrics :
      (ns bs : List (Text × Option F)) → AllHold ns bs → check_metrics fl minus tolerance ns bs ≡ []
  unfolding check_metrics
  AllHold-check_metrics [] bs h = refl
  AllHold-check_metrics (a ∷ rest) [] h = refl
  AllHold-check_metrics (a ∷ rest) (b ∷ bs) h =
      ap (λ z. z ++ check_metrics fl minus tolerance rest bs) (Holds-check_metric a.0 a.1 b.1 h.0)
      ∙ AllHold-check_metrics rest bs h.1

  abbrev counted : ℕ → ℕ → List (Regression F)
  counted b n = if ltb b n then invented n b ∷ [] else []

  no_more : (b n : ℕ) → counted b n ≡ [] → n ≤ b
  no_more b n h = ground arith

  none_more : (b n : ℕ) → n ≤ b → counted b n ≡ []
  none_more b n h = ground arith

  -- If both runs have the metric, the new one is not below the old one less the tolerance.
  abbrev pub HoldsUp : Option F → Option F → Type 0
  HoldsUp now was = (n w : F) → now ≡ some n → was ≡ some w → fl.lt n (minus w tolerance) ≡ false

  Holds-HoldsUp : (now was : Option F) → Holds now was → HoldsUp now was
  Holds-HoldsUp none was h n w e g = absurd (ground arith)
  Holds-HoldsUp (some x) none h n w e g = absurd (ground arith)
  Holds-HoldsUp (some x) (some y) h n w e g = ground arith

  HoldsUp-Holds : (now was : Option F) → HoldsUp now was → Holds now was
  HoldsUp-Holds none was h = tt
  HoldsUp-Holds (some x) none h = tt
  HoldsUp-Holds (some x) (some y) h = h x y refl refl

  -- The five metrics and the count that a run must keep up.
  pub record KeepsUp (now base : Summary F) : Type 0 where
    pub hit_rate_holds : HoldsUp now.hit_rate base.hit_rate
    pub mrr_holds : HoldsUp now.mrr base.mrr
    pub ndcg_holds : HoldsUp now.ndcg base.ndcg
    pub recall_holds : HoldsUp now.recall_at_k base.recall_at_k
    pub abstention_holds : HoldsUp now.abstention_accuracy base.abstention_accuracy
    pub no_more_invented : now.total_hallucinated_citations ≤ base.total_hallucinated_citations

  -- The gate passes a run exactly if none of hit rate, MRR, NDCG, recall and abstention accuracy that
  -- both summaries have has fallen below the baseline's less the tolerance, and no more citations were
  -- invented than in the baseline. A metric that one of them does not have is not held against the
  -- run.
  pub check_regression-passes :
      (now base : Summary F)
      → (check_regression fl minus tolerance now base ≡ []) ↔ KeepsUp now base
  unfolding check_regression gated
  check_regression-passes now base =
      let metrics = check_metrics fl minus tolerance (gated now) (gated base) in
      let n = now.total_hallucinated_citations in
      let b = base.total_hallucinated_citations in
      let more = counted b n in
      (
        (λ h.
            let (a, (c, (d, (e, (f, g))))) =
              check_metrics-AllHold (gated now) (gated base) (append_nil_left metrics more h) in
            record {
              hit_rate_holds = Holds-HoldsUp now.hit_rate base.hit_rate a;
              mrr_holds = Holds-HoldsUp now.mrr base.mrr c;
              ndcg_holds = Holds-HoldsUp now.ndcg base.ndcg d;
              recall_holds = Holds-HoldsUp now.recall_at_k base.recall_at_k e;
              abstention_holds = Holds-HoldsUp now.abstention_accuracy base.abstention_accuracy f;
              no_more_invented = no_more b n (append_nil_right metrics more h);
            }),
        (λ k.
            ap (λ z. z ++ more)
              (AllHold-check_metrics (gated now) (gated base) (
                HoldsUp-Holds now.hit_rate base.hit_rate k.hit_rate_holds,
                (
                  HoldsUp-Holds now.mrr base.mrr k.mrr_holds,
                  (
                    HoldsUp-Holds now.ndcg base.ndcg k.ndcg_holds,
                    (
                      HoldsUp-Holds now.recall_at_k base.recall_at_k k.recall_holds,
                      (
                        HoldsUp-Holds now.abstention_accuracy base.abstention_accuracy
                            k.abstention_holds,
                        tt,
                      ),
                    ),
                  ),
                ),
              ))
            ∙ none_more b n k.no_more_invented),
      )

-- A citation that is found is one of the citations.
citation_for-In :
    {F : Type 0} (d : Text) (cs : List (Citation F)) (c : Citation F)
    → citation_for d cs ≡ some c
    → In d (citation_ids cs)
unfolding citation_for
citation_for-In d [] c e = absurd (ground arith)
citation_for-In d (x ∷ xs) c e = elim (Option-cases (citation_for d xs)) [
  | inr (y, g) ↦ inr (citation_for-In d xs y g)
  | inl g ↦ elim (Bool-cases (text_eq d x.chunk_id)) [
    | inl h ↦ inl (text_eq_sound d x.chunk_id h)
    | inr h ↦ absurd (ground arith)
  ]
]

-- Whatever was retrieved and whatever the labels are, the evaluation counts a passage as relevant only
-- if the answer cites it: a passage of a labelled document that was retrieved but not cited counts
-- against the retrieval.
pub relevant_ids-cited :
    {F : Type 0} (labels : List Text) (citations : List (Citation F)) (retrieved : List Text)
    → All (λ d. In d (citation_ids citations)) (relevant_ids labels citations retrieved)
unfolding relevant_ids
relevant_ids-cited labels citations [] = tt
relevant_ids-cited labels citations (d ∷ ds) =
    let rest = relevant_ids-cited labels citations ds in
    elim (Option-cases (citation_for d citations)) [
      | inl e ↦ rw (e, relevant_ids) rest
      | inr (c, e) ↦
          let here = citation_for-In d citations c e in
          elim (Bool-cases (chunk_matches_label c.source c.doc_id labels)) [
            | inl g ↦ rw (e, g, relevant_ids) (here, rest)
            | inr g ↦ rw (e, g, relevant_ids) rest
          ]
    ]
