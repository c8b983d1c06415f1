-- ===== src/SingleAgent/Repeats.antt =====
-- A question that is asked again, and questions that are refused
-- (src/finance_rag/agent/graph.py with src/finance_rag/cache/semantic_cache.py).
use finance_rag.Prelude.{
  ◌<◌, ◌≡◌, refl, sym, ap, ◌∙◌, subst, true, false, Option, none, some, List, [], ◌++◌, get_or,
  arith,
}
use finance_rag.Text.{Text, codes, strip}
use finance_rag.Config.{Settings, FloatSettings}
use finance_rag.Models.{Floats, RagResponse}
use finance_rag.Guardrails.Answerability.{Attempt, returned, failed}
use finance_rag.Cache.{Redis, IsRedis, Vectors, get, set}
use finance_rag.Cache.Laws.{get-set}
use finance_rag.SingleAgent.Nodes.{State, Helpers, invoke}
use finance_rag.SingleAgent.Ask.{
  begin, cache_query, caption_of, respond, caught, stored, answer_and_store, looked_up,
  ask_captioned, asked, ask,
}

module _ {F S : Type 0} (fl : Floats F) (st : Settings) (fs : FloatSettings F) (r : Redis F S)
    (v : Vectors F) (law : IsRedis r) (h again : Helpers F) where
  -- The second response is the first one, but for the marks of the cache.
  abbrev pub Repeats : RagResponse F → Attempt (RagResponse F) → Type 0
  Repeats x (failed e) = ⊥
  Repeats x (returned y) = y ≡ record x { cache_hit = y.cache_hit; cache_layer = y.cache_layer }

  abbrev response_or : RagResponse F → Attempt (RagResponse F) → RagResponse F
  response_or y (failed e) = y
  response_or y (returned x) = x

  module _ (query key : Text) (line caption : Option Text) (emb : Option (List F)) (s : S) where
    -- What the second call gives, on the cache that the first one left.
    abbrev second : Option S → Attempt (RagResponse F)
    second o =
        (looked_up fl st fs r v again query key line caption emb o
          (get fl st r v fs.cache_semantic_threshold key line emb o)).0

    stored_again :
        (x : RagResponse F)
        → st.cache_enabled ≡ true
        → 0 < st.cache_ttl_seconds
        → x.refused ≡ false
        → Repeats x (second (set fl st r v h.store_time key x line emb (some s)).0)
    stored_again x on live ok =
        let o = (set fl st r v h.store_time key x line emb (some s)).0 in
        subst (λ g. Repeats x (looked_up fl st fs r v again query key line caption emb o g).0)
          (sym (
            get-set fl st r v law fs.cache_semantic_threshold key key line emb emb h.store_time x s
              on live ok refl))
          refl

    stored_first :
        (x y : RagResponse F) (p : Option S × Option Text)
        → (stored fl st fs r v h x p).0 ≡ returned y
        → (x ≡ y) × ((stored fl st fs r v h x p).1 ≡ p.0)
    stored_first x y (o, some e) first = absurd (ground arith)
    stored_first x y (o, none) first = (ap (response_or y) first, refl)

    answered_again :
        (x : RagResponse F) (a : Attempt (State F))
        → st.cache_enabled ≡ true
        → 0 < st.cache_ttl_seconds
        → x.refused ≡ false
        → (answer_and_store fl st fs r v h key line emb (some s) a).0 ≡ returned x
        → Repeats x (second (answer_and_store fl st fs r v h key line emb (some s) a).1)
    answered_again x (failed e) on live ok first = absurd (ground arith)
    answered_again x (returned final) on live ok first =
        let x0 = respond fl final in
        let p = set fl st r v h.store_time key x0 line emb (some s) in
        let (same, left) = stored_first x0 x p first in
        subst (λ o. Repeats x (second o)) (sym left)
          (subst (λ z. Repeats z (second p.0)) same
            (stored_again x0 on live (ap (λ z. z.refused) same ∙ ok)))

    looked_up_again :
        (x : RagResponse F) (found : Attempt (Option (RagResponse F)))
        → get fl st r v fs.cache_semantic_threshold key line emb (some s) ≡ found
        → st.cache_enabled ≡ true
        → 0 < st.cache_ttl_seconds
        → x.refused ≡ false
        → (looked_up fl st fs r v h query key line caption emb (some s) found).0 ≡ returned x
        → Repeats x (second (looked_up fl st fs r v h query key line caption emb (some s) found).1)
    looked_up_again x (failed e) at on live ok first = absurd (ground arith)
    looked_up_again x (returned (some hit)) at on live ok first =
        subst
          (λ g. Repeats x (looked_up fl st fs r v again query key line caption emb (some s) g).0)
          (sym at) (subst (Repeats x) (sym first) refl)
    looked_up_again x (returned none) at on live ok first =
        answered_again x (invoke fl st fs h (begin query line caption)) on live ok first

  ask-captioned :
      (g : Helpers F) (query : Text) (line image caption : Option Text) (o : Option S)
      → caption_of st g image ≡ returned caption
      → ask fl st fs r v g query line image o ≡ ask_captioned fl st fs r v g query line caption o
  unfolding ask
  ask-captioned g query line image caption o seen = ap (asked fl st fs r v g query line o) seen

  captioned_again :
      (query : Text) (line caption : Option Text) (s : S) (x : RagResponse F)
      → st.cache_enabled ≡ true
      → 0 < st.cache_ttl_seconds
      → (ask_captioned fl st fs r v h query line caption (some s)).0 ≡ returned x
      → x.refused ≡ false
      → Repeats x
          (ask_captioned fl st fs r v again query line caption
            (ask_captioned fl st fs r v h query line caption (some s)).1).0
  unfolding ask_captioned
  captioned_again query line caption s x on live first ok =
      let key = cache_query query caption in
      let emb = caught (v.embed_query (strip (key ++ (codes " " ++ get_or line [])))) in
      looked_up_again query key line caption emb s x
        (get fl st r v fs.cache_semantic_threshold key line emb (some s)) refl on live ok first

  -- When `ask` has returned an answer that is no refusal, the same question in the same service line,
  -- with the same caption of its image, gets that answer again at once, whatever the rewriter, the
  -- gate, the model, the retriever and the clock would do by then, as long as the question is
  -- embedded as before: nothing but the marks of the cache differs.
  pub ask-again :
      (query : Text) (line image : Option Text) (caption : Option Text) (s : S) (x : RagResponse F)
      → st.cache_enabled ≡ true
      → 0 < st.cache_ttl_seconds
      → caption_of st h image ≡ returned caption
      → caption_of st again image ≡ returned caption
      → (ask fl st fs r v h query line image (some s)).0 ≡ returned x
      → x.refused ≡ false
      → Repeats x
          (ask fl st fs r v again query line image
            (ask fl st fs r v h query line image (some s)).1).0
  ask-again query line image caption s x on live seen seen2 first ok =
      let e = ask-captioned h query line image caption (some s) seen in
      let left = (ask fl st fs r v h query line image (some s)).1 in
      subst (λ p. Repeats x p.0) (sym (ask-captioned again query line image caption left seen2))
        (subst (λ p. Repeats x (ask_captioned fl st fs r v again query line caption p.1).0) (sym e)
          (captioned_again query line caption s x on live (ap (λ p. p.0) (sym e) ∙ first) ok))
