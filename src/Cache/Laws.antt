-- ===== src/Cache/Laws.antt =====
-- What a lookup finds after a store or a new corpus version
-- (src/finance_rag/cache/semantic_cache.py).
use finance_rag.Prelude.{
  ℕ, ◌<◌, ◌≡◌, refl, ap, ◌∙◌, ◌⊎◌, inl, inr, true, false, Option, none, some, List, ◌++◌, arith,
  Bool-cases,
}
use finance_rag.Text.{Text, codes, text_eq, strip, lower}
use finance_rag.Config.{Settings}
use finance_rag.Models.{Floats, RagResponse}
use finance_rag.Guardrails.Answerability.{Attempt, returned, failed}
use finance_rag.Cache.{
  Payload, Value, payload, vector, Redis, IsRedis, Vectors, version_key, members_key, exact_key,
  vec_key, payload_key, serialize, deserialize, hash_key, text_at, payload_at, corpus_version,
  embedding_of, get, set, store, index_entry, sought,
}

-- The keys of the exact layer, of the semantic layer and of the version are all different.
pub version_key-exact_key : (k : Text) → text_eq version_key (exact_key k) ≡ false
unfolding text_eq
version_key-exact_key k = refl

pub version_key-sem : (k : Text) → text_eq version_key (codes "finrag:sem:" ++ k) ≡ false
unfolding text_eq
version_key-sem k = refl

pub exact_key-sem : (k j : Text) → text_eq (exact_key k) (codes "finrag:sem:" ++ j) ≡ false
unfolding text_eq
exact_key-sem k j = refl

module _ {F S : Type 0} (fl : Floats F) (st : Settings) (r : Redis F S) (v : Vectors F)
    (law : IsRedis r) where
  -- The store after the exact entry.
  abbrev stored_exact : Text → RagResponse F → Option Text → ℕ → S → S
  stored_exact query response line now s =
      r.setex (exact_key (hash_key fl st r v query line (corpus_version fl st r v s)))
        st.cache_ttl_seconds (payload (serialize now (codes "exact") response)) s

  -- A key outside the semantic layer reads after `store` as after the store of the exact entry.
  get-index_entry_other :
      (j key : Text) (p : Value F) (s : S) (emb : Attempt (List F))
      → ((k : Text) → text_eq j (codes "finrag:sem:" ++ k) ≡ false)
      → r.get j (index_entry fl st r v key p s emb).0 ≡ r.get j s
  unfolding index_entry
  get-index_entry_other j key p s (failed e) apart = refl
  get-index_entry_other j key p s (returned x) apart =
      let ttl = st.cache_ttl_seconds in
      let s2 = r.setex (vec_key key) ttl (vector x) s in
      let s3 = r.setex (payload_key key) ttl p s2 in
      law.get-sadd_other j members_key key s3 (apart (codes "ids"))
      ∙ (law.get-setex_other j (payload_key key) ttl p s2 (apart (key ++ codes ":payload"))
          ∙ law.get-setex_other j (vec_key key) ttl (vector x) s (apart (key ++ codes ":vec")))

  get-store_other :
      (j query : Text) (now : ℕ) (response : RagResponse F) (line : Option Text)
      (emb : Option (List F)) (s : S)
      → ((k : Text) → text_eq j (codes "finrag:sem:" ++ k) ≡ false)
      → r.get j (store fl st r v now query response line emb s).0
        ≡ r.get j (stored_exact query response line now s)
  unfolding store
  get-store_other j query now response line emb s apart =
      get-index_entry_other j (hash_key fl st r v query line (corpus_version fl st r v s))
        (payload (serialize now (codes "exact") response)) (stored_exact query response line now s)
        (embedding_of fl st r v query emb) apart

  pub set-store :
      (query : Text) (now : ℕ) (response : RagResponse F) (line : Option Text)
      (emb : Option (List F)) (s : S)
      → st.cache_enabled ≡ true
      → response.refused ≡ false
      → (set fl st r v now query response line emb (some s)).0
        ≡ some (store fl st r v now query response line emb s).0
  unfolding set
  set-store query now response line emb s on ok = ground arith

  -- `set` does nothing, or stores a response that is no refusal.
  pub set-cases :
      (query : Text) (now : ℕ) (response : RagResponse F) (line : Option Text)
      (emb : Option (List F)) (s : S)
      → ((set fl st r v now query response line emb (some s)).0 ≡ some s)
        ⊎ ((response.refused ≡ false)
            × ((set fl st r v now query response line emb (some s)).0
                ≡ some (store fl st r v now query response line emb s).0))
  unfolding set
  set-cases query now response line emb s = elim (Bool-cases response.refused) [
    | inl e ↦ inl (ground arith)
    | inr e ↦ elim (Bool-cases st.cache_enabled) [
      | inl g ↦ inr (e, ground arith)
      | inr g ↦ inl (ground arith)
    ]
  ]

  -- A new entry does not change the version of the corpus.
  corpus_version-store :
      (query : Text) (now : ℕ) (response : RagResponse F) (line : Option Text)
      (emb : Option (List F)) (s : S)
      → corpus_version fl st r v (store fl st r v now query response line emb s).0
        ≡ corpus_version fl st r v s
  unfolding corpus_version text_at
  corpus_version-store query now response line emb s =
      let key = hash_key fl st r v query line (corpus_version fl st r v s) in
      let p = payload (serialize now (codes "exact") response) in
      let same : r.get version_key (store fl st r v now query response line emb s).0
          ≡ r.get version_key s =
        get-store_other version_key query now response line emb s version_key-sem
        ∙ law.get-setex_other version_key (exact_key key) st.cache_ttl_seconds p s
            (version_key-exact_key key) in
      rw (same, corpus_version, text_at) refl

  payload_at-store :
      (query : Text) (now : ℕ) (response : RagResponse F) (line : Option Text)
      (emb : Option (List F)) (s : S)
      → 0 < st.cache_ttl_seconds
      → payload_at fl st r v
          (exact_key (hash_key fl st r v query line (corpus_version fl st r v s)))
          (store fl st r v now query response line emb s).0
        ≡ some (serialize now (codes "exact") response)
  unfolding payload_at
  payload_at-store query now response line emb s live =
      let key = hash_key fl st r v query line (corpus_version fl st r v s) in
      let p = payload (serialize now (codes "exact") response) in
      let held : r.get (exact_key key) (store fl st r v now query response line emb s).0 ≡ some p =
        get-store_other (exact_key key) query now response line emb s (exact_key-sem key)
        ∙ law.get-setex (exact_key key) st.cache_ttl_seconds p s live in
      rw (held, payload_at) refl

  hash_key-normal :
      (query again : Text) (line : Option Text) (version : Text)
      → lower (strip again) ≡ lower (strip query)
      → hash_key fl st r v again line version ≡ hash_key fl st r v query line version
  unfolding hash_key
  hash_key-normal query again line version same = rw same refl

  -- Where the exact layer has an entry, `get` answers with it.
  pub get-exact :
      (threshold : F) (query : Text) (line : Option Text) (emb : Option (List F)) (t : S)
      (p : Payload F)
      → st.cache_enabled ≡ true
      → payload_at fl st r v
          (exact_key (hash_key fl st r v query line (corpus_version fl st r v t)))
          t
        ≡ some p
      → get fl st r v threshold query line emb (some t)
        ≡ returned (some (deserialize (codes "exact") p))
  unfolding get
  get-exact threshold query line emb t p on held = ground arith

  -- Where it has none, `get` answers with what the semantic layer finds for the embedding.
  pub get-miss :
      (threshold : F) (query : Text) (line : Option Text) (emb : Option (List F)) (t : S)
      → st.cache_enabled ≡ true
      → payload_at fl st r v
          (exact_key (hash_key fl st r v query line (corpus_version fl st r v t)))
          t
        ≡ none
      → get fl st r v threshold query line emb (some t)
        ≡ sought fl st r v threshold t (embedding_of fl st r v query emb)
  unfolding get
  get-miss threshold query line emb t on absent = ground arith

  module _ (threshold : F) (query again : Text) (line : Option Text) (emb emb2 : Option (List F))
      (now : ℕ) (response : RagResponse F) (s : S) where
    -- Once an answer that is no refusal is stored, a question that reads the same but for case and
    -- for white space at its ends, in the same service line, gets the whole answer back, marked
    -- as a hit of the exact layer. This holds even where the call of the embedding service raises.
    pub get-set :
        st.cache_enabled ≡ true
        → 0 < st.cache_ttl_seconds
        → response.refused ≡ false
        → lower (strip again) ≡ lower (strip query)
        → get fl st r v threshold again line emb2
            (set fl st r v now query response line emb (some s)).0
          ≡ returned
              (some (record response { cache_hit = true; cache_layer = some (codes "exact") }))
    unfolding deserialize serialize
    get-set on live ok same =
        let t = (store fl st r v now query response line emb s).0 in
        let version = corpus_version-store query now response line emb s in
        let key =
          ap (hash_key fl st r v again line) version
          ∙ hash_key-normal query again line (corpus_version fl st r v s) same in
        let held =
          ap (λ k. payload_at fl st r v (exact_key k) t) key
          ∙ payload_at-store query now response line emb s live in
        ap (get fl st r v threshold again line emb2) (set-store query now response line emb s on ok)
        ∙ get-exact threshold again line emb2 t (serialize now (codes "exact") response) on held
