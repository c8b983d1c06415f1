-- ===== src/SingleAgent/Caching.antt =====
-- The single agent and its cache over many questions
-- (src/finance_rag/agent/graph.py with src/finance_rag/cache/semantic_cache.py).
use finance_rag.Prelude.{
  In, refl, ◌<◌, ◌≡◌, ap, ◌⊎◌, inl, inr, true, false, Option, none, some, List, [], ◌∷◌, ◌++◌,
  get_or, truthy, arith,
}
use finance_rag.Text.{Text, codes, strip}
use finance_rag.Config.{Settings, FloatSettings}
use finance_rag.Models.{Floats, RagResponse}
use finance_rag.Guardrails.Answerability.{Attempt, returned, failed}
use finance_rag.Cache.{Redis, IsRedis, Vectors, get, set, bump_corpus_version}
use finance_rag.Cache.History.{KnownIn, set-KnownIn, bump-KnownIn}
use finance_rag.Cache.Served.{From, Serves, get-Serves}
use finance_rag.SingleAgent.Nodes.{State, Helpers, output_guardrails, verdict, invoke}
use finance_rag.SingleAgent.Ask.{
  begin, cache_query, caption_of, respond, caught, stored, answer_and_store, looked_up,
  ask_captioned, asked, ask,
}
use finance_rag.SingleAgent.Laws.{Passed, Released, invoke-Released}

module _ {F S : Type 0} (fl : Floats F) (st : Settings) (fs : FloatSettings F) (r : Redis F S)
    (v : Vectors F) (law : IsRedis r) where
  -- A turn of the service: a question, with the behaviour of the models, or a new corpus version.
  pub data Turn : Type 0 where
    asking : Helpers F → Text → Option Text → Option Text → Turn
    renewing : Turn

  -- The response is the output guardrail's version, which it allowed, of a draft for this question
  -- that has passed in a run with these helpers.
  abbrev pub Made : Helpers F → Text → RagResponse F → Type 0
  Made h query x =
      (t : State F) × Passed fl st fs h query t
      × ((verdict fl st fs h t).allowed ≡ true)
      × (x ≡ respond fl (output_guardrails fl st fs h t))

  -- The response was made in one of these turns.
  abbrev pub Vetted : List Turn → RagResponse F → Type 0
  Vetted ts x =
      (h : Helpers F) × (query : Text) × (line : Option Text) × (image : Option Text) × In
        (asking h query line image) ts
      × Made h query x

  module _ (V : RagResponse F → Type 0) where
    -- What a call of `ask` returns: an exception, a refusal, a response that is made now, or one
    -- from the cache that was `V` when it was stored.
    abbrev pub Sound : Helpers F → Text → Attempt (RagResponse F) → Type 0
    Sound h query (failed e) = Unit
    Sound h query (returned x) =
        (x.refused ≡ true) ⊎ (Made h query x ⊎ From fl st r v law V (some x))

    abbrev pub Clean : Option S → Type 0
    Clean o = KnownIn fl st r v law V o

  module _ (V : RagResponse F → Type 0) (h : Helpers F) (query : Text)
      (known : (x : RagResponse F) → Made h query x → V x) (live : 0 < st.cache_ttl_seconds) where
    Released-Sound :
        (final : State F)
        → Released fl st fs h query (returned final)
        → (truthy final.refused ≡ true) ⊎ Made h query (respond fl final)
    Released-Sound final (inl e) = inl e
    Released-Sound final (inr (t, passed, ok, e)) = inr (t, passed, ok, ap (respond fl) e)

    stored-Sound :
        (x : RagResponse F) (p : Option S × Option Text)
        → (x.refused ≡ true) ⊎ Made h query x
        → Clean V p.0
        → Sound V h query (stored fl st fs r v h x p).0 × Clean V (stored fl st fs r v h x p).1
    stored-Sound x (o, some e) sound clean = (tt, clean)
    stored-Sound x (o, none) (inl e) clean = (inl e, clean)
    stored-Sound x (o, none) (inr k) clean = (inr (inl k), clean)

    made_now : (x : RagResponse F) → (x.refused ≡ true) ⊎ Made h query x → x.refused ≡ false → V x
    made_now x (inl e) g = absurd (ground arith)
    made_now x (inr k) g = known x k

    answer_and_store-Sound :
        (key : Text) (line : Option Text) (emb : Option (List F)) (o : Option S)
        (a : Attempt (State F))
        → Released fl st fs h query a
        → Clean V o
        → Sound V h query (answer_and_store fl st fs r v h key line emb o a).0
          × Clean V (answer_and_store fl st fs r v h key line emb o a).1
    unfolding respond
    answer_and_store-Sound key line emb o (failed e) released clean = (tt, clean)
    answer_and_store-Sound key line emb o (returned final) released clean =
        let x = respond fl final in
        let sound = Released-Sound final released in
        stored-Sound x (set fl st r v h.store_time key x line emb o) sound
          (set-KnownIn fl st r v law V h.store_time key x line emb o live (made_now x sound) clean)

    looked_up-Sound :
        (key : Text) (line caption : Option Text) (emb : Option (List F)) (o : Option S)
        (found : Attempt (Option (RagResponse F)))
        → Serves fl st r v law V found
        → Clean V o
        → Sound V h query (looked_up fl st fs r v h query key line caption emb o found).0
          × Clean V (looked_up fl st fs r v h query key line caption emb o found).1
    unfolding begin
    looked_up-Sound key line caption emb o (failed e) serves clean = (tt, clean)
    looked_up-Sound key line caption emb o (returned (some x)) serves clean =
        (inr (inr serves), clean)
    looked_up-Sound key line caption emb o (returned none) serves clean =
        answer_and_store-Sound key line emb o (invoke fl st fs h (begin query line caption))
          (invoke-Released fl st fs h (begin query line caption)) clean

    asked-Sound :
        (line : Option Text) (o : Option S) (caption : Attempt (Option Text))
        → Clean V o
        → Sound V h query (asked fl st fs r v h query line o caption).0
          × Clean V (asked fl st fs r v h query line o caption).1
    unfolding ask_captioned
    asked-Sound line o (failed e) clean = (tt, clean)
    asked-Sound line o (returned caption) clean =
        let key = cache_query query caption in
        let emb = caught (v.embed_query (strip (key ++ (codes " " ++ get_or line [])))) in
        looked_up-Sound key line caption emb o
          (get fl st r v fs.cache_semantic_threshold key line emb o)
          (get-Serves fl st r v law V fs.cache_semantic_threshold key line emb o clean) clean

  -- The cache after these turns.
  unfoldable pub after_turns : List Turn → Option S → Option S
  after_turns [] o = o
  after_turns (asking h query line image ∷ ts) o =
      after_turns ts (ask fl st fs r v h query line image o).1
  after_turns (renewing ∷ ts) o = after_turns ts (bump_corpus_version fl st r v o).1

  among_turns :
      (all : List Turn) (h : Helpers F) (query : Text) (line image : Option Text)
      → In (asking h query line image) all
      → (x : RagResponse F) → Made h query x
      → Vetted all x
  among_turns all h query line image i x made = (h, query, line, image, i, made)

  after_turns-Clean :
      (all ts : List Turn) (o : Option S)
      → ((u : Turn) → In u ts → In u all)
      → 0 < st.cache_ttl_seconds
      → Clean (Vetted all) o
      → Clean (Vetted all) (after_turns ts o)
  unfolding after_turns ask
  after_turns-Clean all [] o among live clean = clean
  after_turns-Clean all (asking h query line image ∷ ts) o among live clean =
      let known =
        among_turns all h query line image (among (asking h query line image) (inl refl)) in
      after_turns-Clean all ts (ask fl st fs r v h query line image o).1 (λ u i. among u (inr i))
        live (asked-Sound (Vetted all) h query known live line o (caption_of st h image) clean).1
  after_turns-Clean all (renewing ∷ ts) o among live clean =
      after_turns-Clean all ts (bump_corpus_version fl st r v o).1 (λ u i. among u (inr i)) live
        (bump-KnownIn fl st r v law (Vetted all) o clean)

  -- Over a cache that begins without payloads, after any questions and new corpus versions, every
  -- response that `ask` returns without the refusal flag is the output guardrail's version, which it
  -- allowed, of a draft that is the model's answer to a question that the input guardrail lets in,
  -- from passages that the retriever returned for it, that the answerability gate found to answer
  -- it and that are above the relevance floor. The draft was made now, for this question, or the
  -- response is marked as a cache hit and its draft was made in one of these turns, for the
  -- question of that turn.
  pub ask-Sound :
      (ts : List Turn) (s : S) (h : Helpers F) (query : Text) (line image : Option Text)
      → 0 < st.cache_ttl_seconds
      → ((k : Text) → r.get k s ≡ none)
      → Sound
          (Vetted (asking h query line image ∷ ts))
          h
          query
          (ask fl st fs r v h query line image (after_turns ts (some s))).0
  unfolding ask
  ask-Sound ts s h query line image live empty =
      let all = asking h query line image ∷ ts in
      let known = among_turns all h query line image (inl refl) in
      (asked-Sound (Vetted all) h query known live line (after_turns ts (some s))
        (caption_of st h image)
        (after_turns-Clean all ts (some s) (λ u i. inr i) live
          (λ k x other at. absurd (ground (arith, empty k))))).0
