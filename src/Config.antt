-- ===== src/Config.antt =====
-- The settings that the modelled code reads (src/finance_rag/config.py), and the derived
-- `auth_required`.
use finance_rag.Prelude.{ℕ, Bool, true, false, not, Option, none, some}
use finance_rag.Text.{Text, codes, text_eq, strip, lower}

pub record Settings : Type 0 where
  pub app_env : Text
  pub default_org_id : Text
  pub enforce_tenancy : Bool
  pub auth_enabled : Option Bool
  pub auth_api_keys : Text
  pub auth_jwt_jwks_url : Text
  pub auth_jwt_issuer : Text
  pub auth_jwt_audience : Text
  pub auth_jwt_org_claim : Text
  pub auth_jwt_scopes_claim : Text
  pub rate_limit_enabled : Bool
  pub rate_limit_ask : ℕ
  pub rate_limit_index : ℕ
  pub rate_limit_read : ℕ
  pub rate_limit_use_redis : Bool
  pub index_runner : Text
  pub multimodal_enabled : Bool
  pub audit_enabled : Bool
  pub critic_enabled : Bool
  pub critic_max_retries : ℕ
  pub web_search_enabled : Bool
  pub answerability_check_enabled : Bool
  pub answerability_max_passages : ℕ
  pub answerability_passage_chars : ℕ
  pub guardrail_max_input_chars : ℕ
  pub guardrail_block_pii : Bool
  pub guardrail_require_citations : Bool
  pub openai_chat_model : Text
  pub openai_fast_model : Text
  pub openai_embedding_model : Text
  pub cohere_rerank_model : Text
  pub rerank_provider : Text
  pub cache_enabled : Bool
  pub cache_ttl_seconds : ℕ
  pub cache_semantic_max_scan : ℕ
  pub chunk_size : ℕ
  pub chunk_overlap : ℕ
  pub web_search_max_results : ℕ
  pub web_search_content_chars : ℕ
  pub web_search_include_domains : Text
  pub tavily_api_key : Text
  pub guardrail_refusal_on_low_confidence : Bool

-- The defaults that the class declares, for the fields above.
abbrev pub defaults : Settings
defaults = record {
  app_env = codes "development";
  default_org_id = codes "default";
  enforce_tenancy = true;
  auth_enabled = none;
  auth_api_keys = codes "";
  auth_jwt_jwks_url = codes "";
  auth_jwt_issuer = codes "";
  auth_jwt_audience = codes "";
  auth_jwt_org_claim = codes "org_id";
  auth_jwt_scopes_claim = codes "scope";
  rate_limit_enabled = true;
  rate_limit_ask = 30;
  rate_limit_index = 5;
  rate_limit_read = 120;
  rate_limit_use_redis = true;
  index_runner = codes "inline";
  multimodal_enabled = true;
  audit_enabled = true;
  critic_enabled = true;
  critic_max_retries = 1;
  web_search_enabled = false;
  answerability_check_enabled = true;
  answerability_max_passages = 8;
  answerability_passage_chars = 1200;
  guardrail_max_input_chars = 4000;
  guardrail_block_pii = true;
  guardrail_require_citations = true;
  openai_chat_model = codes "gpt-4o";
  openai_fast_model = codes "gpt-4o-mini";
  openai_embedding_model = codes "text-embedding-3-small";
  cohere_rerank_model = codes "rerank-v3.5";
  rerank_provider = codes "cohere";
  cache_enabled = true;
  cache_ttl_seconds = 3600;
  cache_semantic_max_scan = 200;
  chunk_size = 800;
  chunk_overlap = 120;
  web_search_max_results = 5;
  web_search_content_chars = 4000;
  web_search_include_domains = codes "";
  tavily_api_key = codes "";
  guardrail_refusal_on_low_confidence = true;
}

-- `app_env.strip().lower() == "development"`
unfoldable pub is_development : Settings → Bool
unfolding strip lower text_eq
is_development s = text_eq (lower (strip s.app_env)) (codes "development")

unfoldable pub auth_required : Settings → Bool
unfolding is_development
auth_required s = elim s.auth_enabled [ some b ↦ b | none ↦ not (is_development s) ]

-- The settings that are floats.
pub record FloatSettings (F : Type 0) : Type 0 where
  pub cache_semantic_threshold : F
  pub min_absolute_cosine : F
