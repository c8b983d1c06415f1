-- ===== src/Agent/Web.antt =====
-- `WebSearchAgent` (src/finance_rag/agent/roles.py). The search provider, the clock and `uuid5` are
-- parameters.
use finance_rag.Prelude.{
  ℕ, ◌/◌, ◌≤◌, ◌≡◌, refl, Bool, true, false, ◌&&◌, not, Option, none, some, List, [], ◌∷◌, ◌++◌,
  if◌then◌else◌, length, length-take-le, take, get_or, is_empty, All, arith, Bool-cases, inl, inr,
}
use finance_rag.Text.{Text, codes, text_eq, strip, split}
use finance_rag.Config.{Settings}
use finance_rag.Models.{Floats, RetrievedChunk, no_metadata}
use finance_rag.Guardrails.Answerability.{Attempt, returned, failed}
use finance_rag.Agent.Roles.{non_empty}
use finance_rag.Agent.Nodes.{is_web}
use finance_rag.Agent.WebText.{clean_web_text}

-- A result of the provider; a missing key and a null read alike.
pub record WebResult (F : Type 0) : Type 0 where
  pub raw_content : Option Text
  pub content : Option Text
  pub url : Option Text
  pub title : Option Text
  pub published_date : Option Text
  pub score : Option F

pub record WebServices (F : Type 0) : Type 0 where
  -- `datetime.now(UTC).isoformat()`
  pub now : Text
  -- `uuid.uuid5(uuid.NAMESPACE_URL, url).hex`
  pub uuid5 : Text → Text
  -- the results for the query, with the freshness and the domains, or the exception of the call
  pub post : Text → Bool → List Text → Attempt (List (WebResult F))

-- `enabled`
unfoldable pub enabled : Settings → Bool
enabled st = st.web_search_enabled && not (is_empty st.tavily_api_key)

-- `_domains`
unfoldable pub named : List Text → List Text
named [] = []
named (d ∷ ds) = let rest = named ds in if is_empty (strip d) then rest else strip d ∷ rest

unfoldable pub domains : Settings → List Text
domains st = named (split b',' st.web_search_include_domains)

module _ {F : Type 0} (fl : Floats F) (st : Settings) (ws : WebServices F) where
  -- A result as a passage.
  unfoldable pub web_passage : Text → WebResult F → RetrievedChunk F
  web_passage content item =
      let url = get_or item.url [] in
      let score = get_or item.score fl.zero in
      record {
        chunk = record {
          chunk_id = codes "web-" ++ take 16 (ws.uuid5 url);
          doc_id = codes "web-" ++ take 8 (ws.uuid5 url);
          content = content;
          index = 0;
          tokens = length content / 4;
          section = item.title;
          parent_id = none;
          metadata = record no_metadata {
            title = some (get_or (non_empty item.title) url);
            source = some url;
            modality = some (codes "web");
            fetched_at = some ws.now;
            published_date = item.published_date;
          };
        };
        score = score;
        cosine = fl.zero;
        rrf_score = fl.zero;
        vector_score = fl.zero;
        bm25_score = fl.zero;
        graph_score = fl.zero;
        rerank_score = some score;
        dense_rank = none;
        sparse_rank = none;
        graph_rank = none;
      }

  -- The loop over the results.
  unfoldable pub web_passages : List (WebResult F) → List (RetrievedChunk F)
  web_passages [] = []
  web_passages (item ∷ items) =
      let rest = web_passages items in
      let content =
        clean_web_text (get_or item.raw_content []) (get_or item.content [])
          st.web_search_content_chars in
      if is_empty content then rest else web_passage content item ∷ rest

  abbrev pub posted : Attempt (List (WebResult F)) → List (RetrievedChunk F)
  posted (failed e) = []
  posted (returned items) = web_passages items

  -- `search`
  unfoldable pub search : Text → Bool → List (RetrievedChunk F)
  search query freshness =
      let found = posted (ws.post query freshness (domains st)) in if enabled st then found else []

  -- A web passage: it cannot pass for one of the corpus, its text is there and no longer than the
  -- limit.
  abbrev pub IsExternal : RetrievedChunk F → Type 0
  IsExternal r =
      (is_web r ≡ true)
      × (r.cosine ≡ fl.zero)
      × (is_empty r.chunk.content ≡ false)
      × (length r.chunk.content ≤ st.web_search_content_chars)

  length-clean_web_text :
      (raw snippet : Text) (limit : ℕ) → length (clean_web_text raw snippet limit) ≤ limit
  unfolding clean_web_text
  length-clean_web_text raw snippet limit = length-take-le limit _

  web_passages-IsExternal : (items : List (WebResult F)) → All IsExternal (web_passages items)
  unfolding web_passages web_passage is_web text_eq
  web_passages-IsExternal [] = tt
  web_passages-IsExternal (item ∷ items) =
      let raw = get_or item.raw_content [] in
      let snippet = get_or item.content [] in
      let content = clean_web_text raw snippet st.web_search_content_chars in
      let rest = web_passages-IsExternal items in
      elim (Bool-cases (is_empty content)) [
        | inl e ↦ rw (e, web_passages) rest
        | inr e ↦
            rw (e, web_passages)
              ((refl, refl, e, length-clean_web_text raw snippet st.web_search_content_chars), rest)
      ]

  posted-IsExternal : (a : Attempt (List (WebResult F))) → All IsExternal (posted a)
  posted-IsExternal (failed e) = tt
  posted-IsExternal (returned items) = web_passages-IsExternal items

  -- Whatever the provider sends, and also where it fails, each passage that `search` returns is marked
  -- as one of the web, has a cosine of zero, so that the abstention does not read a number of another
  -- scale, and has a text that is not empty and within the limit; without the setting or the key
  -- there is none.
  pub search-IsExternal :
      (query : Text) (freshness : Bool)
      → All IsExternal (search query freshness) × (enabled st ≡ false → search query freshness ≡ [])
  unfolding search
  search-IsExternal query freshness = elim (Bool-cases (enabled st)) [
    | inl e ↦ (
      rw (e, search) (posted-IsExternal (ws.post query freshness (domains st))),
      λ off. absurd (ground arith),
    )
    | inr e ↦ (rw (e, search) tt, λ off. rw (e, search) refl)
  ]
