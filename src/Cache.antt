-- ===== src/Cache.antt =====
-- The answer cache (src/finance_rag/cache/semantic_cache.py). Redis is a parameter: a state with
-- its commands. A value that the program stores as JSON stands decoded in it. NumPy's norm and
-- product, the digest and the embedding are parameters too.
pub mod Laws
pub mod Bump
pub mod History
pub mod Served
pub mod Memory
mod Tests
use finance_rag.Prelude.{
  ℕ, zero, suc, ◌<◌, ◌≡◌, Bool, true, false, ◌&&◌, ◌||◌, not, Option, none, some, List, [], ◌∷◌,
  ◌++◌, if◌then◌else◌, take, is_empty, is_some, get_or, In,
}
use finance_rag.Text.{Text, codes, text_eq, strip, lower}
use finance_rag.Text.Decimal.{decimal}
use finance_rag.Config.{Settings}
use finance_rag.Models.{Floats, Citation, RetrievalMetrics, RagResponse}
use finance_rag.Agent.Roles.{non_empty}
use finance_rag.Guardrails.Answerability.{Attempt, returned, failed}

-- The dictionary that `_serialize` writes.
pub record Payload (F : Type 0) : Type 0 where
  pub answer : Text
  pub citations : List (Citation F)
  pub confidence : F
  pub metrics : RetrievalMetrics F
  pub guardrails : List Text
  pub refused : Bool
  pub trace_id : Option Text
  pub cache_hit : Bool
  pub cache_layer : Text
  pub retrieved_ids : List Text
  pub cached_at : ℕ

-- What a key of Redis can hold here: a number as text, a JSON vector, a JSON payload.
pub data Value (F : Type 0) : Type 0 where
  plain : Text → Value F
  vector : List F → Value F
  payload : Payload F → Value F

-- The commands of Redis that the cache uses.
pub record Redis (F S : Type 0) : Type 0 where
  pub get : Text → S → Option (Value F)
  pub setex : Text → ℕ → Value F → S → S
  pub incr : Text → S → ℕ × S
  pub delete : Text → S → S
  pub smembers : Text → S → List Text
  pub sadd : Text → Text → S → S

-- What the documentation of the commands promises of a key that has not expired.
pub record IsRedis {F S : Type 0} (r : Redis F S) : Type 0 where
  pub get-setex :
      (k : Text) (ttl : ℕ) (v : Value F) (s : S) → 0 < ttl → r.get k (r.setex k ttl v s) ≡ some v
  pub get-setex_other :
      (j k : Text) (ttl : ℕ) (v : Value F) (s : S)
      → text_eq j k ≡ false
      → r.get j (r.setex k ttl v s) ≡ r.get j s
  pub get-incr : (k : Text) (s : S) → r.get k (r.incr k s).1 ≡ some (plain (decimal (r.incr k s).0))
  pub get-incr_other :
      (j k : Text) (s : S) → text_eq j k ≡ false → r.get j (r.incr k s).1 ≡ r.get j s
  pub get-delete_other :
      (j k : Text) (s : S) → text_eq j k ≡ false → r.get j (r.delete k s) ≡ r.get j s
  pub get-sadd_other :
      (j k m : Text) (s : S) → text_eq j k ≡ false → r.get j (r.sadd k m s) ≡ r.get j s
  pub smembers-delete : (k : Text) (s : S) → r.smembers k (r.delete k s) ≡ []

-- What the cache takes from NumPy, `hashlib` and the embedding service, and the float `-1.0`.
pub record Vectors (F : Type 0) : Type 0 where
  pub norm : List F → F
  pub dot : List F → List F → F
  pub mul : F → F → F
  pub minus_one : F
  pub sha256 : Text → Text
  pub embed_query : Text → Attempt (List F)

abbrev pub version_key : Text
version_key = codes "finrag:corpus_version"

abbrev pub members_key : Text
members_key = codes "finrag:sem:ids"

abbrev pub exact_key : Text → Text
exact_key key = codes "finrag:exact:" ++ key

abbrev pub vec_key : Text → Text
vec_key key = codes "finrag:sem:" ++ (key ++ codes ":vec")

abbrev pub payload_key : Text → Text
payload_key key = codes "finrag:sem:" ++ (key ++ codes ":payload")

-- A response as `_serialize` writes it, at this time.
unfoldable pub serialize : {F : Type 0} → ℕ → Text → RagResponse F → Payload F
serialize now layer r = record {
  answer = r.answer;
  citations = r.citations;
  confidence = r.confidence;
  metrics = r.metrics;
  guardrails = r.guardrails;
  refused = r.refused;
  trace_id = r.trace_id;
  cache_hit = true;
  cache_layer = layer;
  retrieved_ids = r.retrieved_ids;
  cached_at = now;
}

unfoldable pub deserialize : {F : Type 0} → Text → Payload F → RagResponse F
deserialize layer p = record {
  answer = p.answer;
  citations = p.citations;
  confidence = p.confidence;
  metrics = p.metrics;
  guardrails = p.guardrails;
  refused = p.refused;
  trace_id = p.trace_id;
  cache_hit = true;
  cache_layer = some layer;
  retrieved_ids = p.retrieved_ids;
}

module _ {F : Type 0} where
  abbrev pub text_of : Option (Value F) → Option Text
  text_of none = none
  text_of (some (plain t)) = some t
  text_of (some (vector x)) = none
  text_of (some (payload p)) = none

  abbrev pub vector_of : Option (Value F) → Option (List F)
  vector_of none = none
  vector_of (some (plain t)) = none
  vector_of (some (vector x)) = some x
  vector_of (some (payload p)) = none

  abbrev pub payload_of : Option (Value F) → Option (Payload F)
  payload_of none = none
  payload_of (some (plain t)) = none
  payload_of (some (vector x)) = none
  payload_of (some (payload p)) = some p

module _ {F S : Type 0} (fl : Floats F) (st : Settings) (r : Redis F S) (v : Vectors F) where
  -- `_cosine`
  unfoldable pub cosine : List F → List F → F
  cosine a b =
      let denom = v.mul (v.norm a) (v.norm b) in
      if fl.eq denom fl.zero then fl.zero else fl.div (v.dot a b) denom

  -- `_hash_key`
  unfoldable pub hash_key : Text → Option Text → Text → Text
  unfolding strip lower
  hash_key text service_line corpus_version = take 32 (
      v.sha256 (
        corpus_version
        ++ (codes "|" ++ (get_or service_line [] ++ (codes "|" ++ lower (strip text))))))

  -- `self._text(self._redis.get(k))`
  unfoldable pub text_at : Text → S → Option Text
  text_at k s = text_of (r.get k s)

  unfoldable pub vector_at : Text → S → Option (List F)
  vector_at k s = vector_of (r.get k s)

  unfoldable pub payload_at : Text → S → Option (Payload F)
  payload_at k s = payload_of (r.get k s)

  -- `corpus_version` of a cache that is connected
  unfoldable pub corpus_version : S → Text
  corpus_version s = get_or (non_empty (text_at version_key s)) (codes "0")

  -- `bump_corpus_version`; a cache without a connection answers "0"
  unfoldable pub bump_corpus_version : Option S → Text × Option S
  bump_corpus_version none = (codes "0", none)
  bump_corpus_version (some s) =
      let (n, s1) = r.incr version_key s in (decimal n, some (r.delete members_key s1))

  -- `query_embedding or self.embedder.embed_query(query)`
  unfoldable pub embedding_of : Text → Option (List F) → Attempt (List F)
  embedding_of query none = v.embed_query query
  embedding_of query (some []) = v.embed_query query
  embedding_of query (some (x ∷ xs)) = returned (x ∷ xs)

  -- The loop over the members of the semantic index, with the best score and its entry so far.
  unfoldable pub scan_entries : List F → S → F → Option Text → List Text → F × Option Text
  scan_entries emb s best_score best_id [] = (best_score, best_id)
  scan_entries emb s best_score best_id (key ∷ keys) = elim (vector_at (vec_key key) s) [
    | none ↦ scan_entries emb s best_score best_id keys
    | some vec ↦
        let score = cosine emb vec in
        let better = scan_entries emb s score (some key) keys in
        let same = scan_entries emb s best_score best_id keys in
        if fl.lt best_score score then better else same
  ]

  -- The semantic layer of `get`, with its threshold.
  unfoldable pub semantic : F → List F → S → Option (RagResponse F)
  semantic threshold emb s =
      let found =
        scan_entries emb s v.minus_one none
          (take st.cache_semantic_max_scan (r.smembers members_key s)) in
      elim (non_empty found.1) [
        | none ↦ none
        | some key ↦
            let hit : Option (RagResponse F) = elim (payload_at (payload_key key) s) [
              | none ↦ none
              | some p ↦ some (deserialize (codes "semantic") p)
            ] in
            if fl.lt found.0 threshold then none else hit
      ]

  -- What `get` returns for an embedding call.
  abbrev pub sought : F → S → Attempt (List F) → Attempt (Option (RagResponse F))
  sought threshold s (failed e) = failed e
  sought threshold s (returned emb) = returned (semantic threshold emb s)

  -- `get`
  unfoldable pub get :
      F → Text → Option Text → Option (List F) → Option S → Attempt (Option (RagResponse F))
  get threshold query service_line query_embedding none = returned none
  get threshold query service_line query_embedding (some s) =
      let looked_up : Attempt (Option (RagResponse F)) =
        elim (payload_at (exact_key (hash_key query service_line (corpus_version s))) s) [
          | some p ↦ returned (some (deserialize (codes "exact") p))
          | none ↦ sought threshold s (embedding_of query query_embedding)
        ] in
      if st.cache_enabled then looked_up else returned none

  -- The entry of the semantic layer, if the embedding call answered.
  unfoldable pub index_entry : Text → Value F → S → Attempt (List F) → S × Option Text
  index_entry key p s (failed e) = (s, some e)
  index_entry key p s (returned emb) =
      let ttl = st.cache_ttl_seconds in
      (
        r.sadd members_key key
            (r.setex (payload_key key) ttl p (r.setex (vec_key key) ttl (vector emb) s)),
        none,
      )

  -- `set` behind its guard: the store afterwards, and the exception of the embedding call if it
  -- raised
  unfoldable pub store :
      ℕ → Text → RagResponse F → Option Text → Option (List F) → S → S × Option Text
  store now query response service_line query_embedding s =
      let key = hash_key query service_line (corpus_version s) in
      let p = payload (serialize now (codes "exact") response) in
      index_entry key p (r.setex (exact_key key) st.cache_ttl_seconds p s)
        (embedding_of query query_embedding)

  -- `set`
  unfoldable pub set :
      ℕ → Text → RagResponse F → Option Text → Option (List F) → Option S → Option S × Option Text
  set now query response service_line query_embedding none = (none, none)
  set now query response service_line query_embedding (some s) =
      let (s1, raised) = store now query response service_line query_embedding s in
      if not st.cache_enabled || response.refused then (some s, none) else (some s1, raised)
