-- ===== src/Cache/Served.antt =====
-- What the cache can answer after any sequence of calls
-- (src/finance_rag/cache/semantic_cache.py).
use finance_rag.Prelude.{
  ◌<◌, ◌≡◌, sym, ap, subst, inl, inr, true, false, Option, none, some, List, In, arith, Bool-cases,
  Option-cases, take, All-In,
}
use finance_rag.Text.{Text, codes, text_eq}
use finance_rag.Config.{Settings}
use finance_rag.Models.{Floats, RagResponse}
use finance_rag.Guardrails.Answerability.{Attempt, returned, failed}
use finance_rag.Agent.Roles.{non_empty}
use finance_rag.Cache.{
  Payload, Value, plain, payload, vector, Redis, IsRedis, Vectors, members_key, exact_key,
  payload_key, serialize, deserialize, hash_key, payload_at, payload_of, corpus_version,
  embedding_of, scan_entries, semantic, get, sought,
}
use finance_rag.Cache.Laws.{get-exact, get-miss}
use finance_rag.Cache.History.{
  Call, handed, play, exact_key-members, payload_key-members, Origin, Known, KnownIn, play-KnownIn,
}

module _ {F S : Type 0} (fl : Floats F) (st : Settings) (r : Redis F S) (v : Vectors F)
    (law : IsRedis r) (P : RagResponse F → Type 0) where
  payload_of-Good :
      (o : Option (Value F)) (p : Payload F) → payload_of o ≡ some p → o ≡ some (payload p)
  payload_of-Good none p e = absurd (ground arith)
  payload_of-Good (some (plain t)) p e = absurd (ground arith)
  payload_of-Good (some (vector x)) p e = absurd (ground arith)
  payload_of-Good (some (payload q)) p e = ap (λ z. some (payload z)) (ground arith)

  payload_at-Known :
      (k : Text) (p : Payload F) (s : S)
      → text_eq k members_key ≡ false
      → Known fl st r v law P s
      → payload_at fl st r v k s ≡ some p
      → Origin P p
  unfolding payload_at
  payload_at-Known k p s other known at =
      known k (payload p) other (payload_of-Good (r.get k s) p at)

  -- The answer was made from a response with `P` that is no refusal, marked with its layer.
  abbrev pub From : Option (RagResponse F) → Type 0
  From none = Unit
  From (some y) =
      (x : RagResponse F) × P x
      × (x.refused ≡ false)
      × ((layer : Text) × (y ≡ record x { cache_hit = true; cache_layer = some layer }))

  deserialize-From : (layer : Text) (p : Payload F) → Origin P p → From (some (deserialize layer p))
  unfolding deserialize serialize
  deserialize-From layer p (x, h, ok, (now, e)) = (x, h, ok, (layer, ap (deserialize layer) e))

  semantic-From :
      (threshold : F) (emb : List F) (s : S)
      → Known fl st r v law P s
      → From (semantic fl st r v threshold emb s)
  unfolding semantic
  semantic-From threshold emb s known =
      let found =
        scan_entries fl st r v emb s v.minus_one none
          (take st.cache_semantic_max_scan (r.smembers members_key s)) in
      elim (Option-cases (non_empty found.1)) [
        | inl e ↦ rw (e, semantic) tt
        | inr (key, e) ↦ elim (Bool-cases (fl.lt found.0 threshold)) [
          | inl g ↦ rw (e, g, semantic) tt
          | inr g ↦ elim (Option-cases (payload_at fl st r v (payload_key key) s)) [
            | inl h ↦ rw (e, g, h, semantic) tt
            | inr (p, h) ↦
                let origin =
                  payload_at-Known (payload_key key) p s (payload_key-members key) known h in
                rw (e, g, h, semantic) (deserialize-From (codes "semantic") p origin)
          ]
        ]
      ]

  abbrev pub Serves : Attempt (Option (RagResponse F)) → Type 0
  Serves (failed e) = Unit
  Serves (returned o) = From o

  sought-Serves :
      (threshold : F) (s : S) (emb : Attempt (List F))
      → Known fl st r v law P s
      → Serves (sought fl st r v threshold s emb)
  sought-Serves threshold s (failed e) known = tt
  sought-Serves threshold s (returned x) known = semantic-From threshold x s known

  pub get-Serves :
      (threshold : F) (query : Text) (line : Option Text) (emb : Option (List F)) (o : Option S)
      → KnownIn fl st r v law P o
      → Serves (get fl st r v threshold query line emb o)
  unfolding get
  get-Serves threshold query line emb none known = tt
  get-Serves threshold query line emb (some s) known =
      let key = exact_key (hash_key fl st r v query line (corpus_version fl st r v s)) in
      elim (Bool-cases st.cache_enabled) [
        | inr off ↦ rw (off, get) tt
        | inl on ↦ elim (Option-cases (payload_at fl st r v key s)) [
          | inr (p, h) ↦
              let origin = payload_at-Known key p s (exact_key-members _) known h in
              subst Serves (sym (get-exact fl st r v law threshold query line emb s p on h))
                (deserialize-From (codes "exact") p origin)
          | inl h ↦
              subst Serves (sym (get-miss fl st r v law threshold query line emb s on h))
                (sought-Serves threshold s (embedding_of fl st r v query emb) known)
        ]
      ]

module _ {F S : Type 0} (fl : Floats F) (st : Settings) (r : Redis F S) (v : Vectors F)
    (law : IsRedis r) where
  -- Over a store that begins without payloads, whatever calls of `set` and of
  -- `bump_corpus_version` have been made, every answer that `get` returns on either layer is one
  -- that was handed to `set` and was no refusal, unchanged but for the marks of the hit. The cache
  -- never serves a refusal and never mixes two answers.
  pub get-play :
      (threshold : F) (cs : List (Call F)) (s : S) (query : Text) (line : Option Text)
      (emb : Option (List F))
      → 0 < st.cache_ttl_seconds
      → ((k : Text) → r.get k s ≡ none)
      → Serves fl st r v law
          (λ x. In x (handed cs))
          (get fl st r v threshold query line emb (play fl st r v cs (some s)))
  get-play threshold cs s query line emb live empty =
      get-Serves fl st r v law (λ x. In x (handed cs)) threshold query line emb
        (play fl st r v cs (some s))
        (play-KnownIn fl st r v law (λ x. In x (handed cs)) cs (some s) live
          (All-In (λ x. In x (handed cs)) (handed cs) (λ x i. i))
          (λ k x other at. absurd (ground (arith, empty k))))
