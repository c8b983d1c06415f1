-- ===== src/Lib.antt =====
-- Verification of FinanceRAG, the retrieval-augmented advisory service.
--
-- A question enters through the API (src/finance_rag/api/app.py), where the rate limiter counts it
-- for its credential, and is answered by a graph of agents
-- (src/finance_rag/agent/orchestrator.py): a supervisor checks it with the input guardrail and
-- routes it, a researcher and a web searcher collect passages, the answerability gate decides
-- whether these can answer it, an analyst writes a draft, a critic approves it or sends it back
-- to the researcher, and compliance runs the output guardrail, narrows the citations, writes the
-- audit record and releases the text.
--
-- Files.
--   Prelude    Boolean tests, conditionals and lists measured by native numbers.
--   Text       Texts as lists of code points with Python's string methods; Text/Regex is a
--              backtracking matcher for the constructs that the patterns use (search, sub,
--              findall), Text/Sorting is sorted(set(..)), Text/Decimal is str of a number.
--   Config     The Settings fields that the modelled code reads (src/finance_rag/config.py).
--   Models     The dataclasses (src/finance_rag/models.py). The field `text` of Chunk, of
--              Citation and of a stored row is `content` here. Floats are a type F with a record
--              of operations, with no law assumed of them.
--   Guardrails Patterns, Input and Output are src/finance_rag/guardrails/pipeline.py
--              (check_input, check_output); Answerability is guardrails/answerability.py.
--              InputLaws, Scan and OutputLaws prove what they promise. Risk scores are in tenths.
--   Metrics    Online is compute_online_telemetry and citation_metrics, Offline the metrics against
--              labels (src/finance_rag/metrics/retrieval_metrics.py).
--   Agent      Roles is Supervisor.plan and Critic.review (src/finance_rag/agent/roles.py); State
--              is AgentState with the services as parameters; Nodes and Compliance are the node
--              methods; Graph is _build_graph with the edges; Entry is ask. Invariants carries a
--              property along the graph, Termination, Safety, Cost and Answers use it. WebText and
--              Web are clean_web_text and WebSearchAgent (src/finance_rag/agent/roles.py).
--   Api        RateLimit is src/finance_rag/api/ratelimit.py: Tightest about the limits, Windows
--              about the counters, Decisions about what is decided after a history of requests,
--              Credentials about whose requests count.
--              Auth is the key table and the credentials of src/finance_rag/api/auth.py,
--              Auth/Gate its tokens, authenticate, require and verify_auth_configuration;
--              Auth/Keys and Auth/Access prove what they promise. Routes is the routes over jobs,
--              uploads and the audit trail (src/finance_rag/api/app.py); Routes/Scoping is about
--              tenants, Routes/Uploads about what an upload leaves behind.
--   Storage    The S3 store and the keys of uploads (src/finance_rag/storage/object_store.py).
--   Audits     The reading of the audit trail (src/finance_rag/memory/audit.py).
--   Pipeline   Jobs is src/finance_rag/pipeline/jobs.py with the dispatch of
--              src/finance_rag/pipeline/launcher.py; Jobs/Steps is the relation of all writes to
--              the table in any order, Jobs/Runs is about one run and one reaping.
--   Retrieval  Hybrid is HybridRetriever.retrieve up to the reranker
--              (src/finance_rag/retrieval/hybrid.py); Candidates and Distinct are about what it
--              hands on. Fusion is reciprocal_rank_fusion (src/finance_rag/retrieval/fusion.py) and
--              the fusion that hybrid_search_rrf writes in SQL; FusionLaws compares them.
--   Ranking    The reranker (src/finance_rag/ranking/reranker.py), and the whole of retrieve.
--   Store      Tables and Search are the chunk table, its writes and its queries
--              (src/finance_rag/store/pgvector_store.py); Rows compares the table with a map, Upsert
--              is about a whole call, Scope about what a search may return.
--   Cache      The answer cache (src/finance_rag/cache/semantic_cache.py): Laws, Bump, History and
--              Served prove what it promises; Memory is a store for the tests.
--   SingleAgent Nodes and Ask are FinanceRAGAgent (src/finance_rag/agent/graph.py), the agent with
--              the answer cache; Laws is about one run, Caching about many questions, Repeats about
--              one that is asked again, Blocked about one that is refused.
--   Chunking   Structure, Windows and Document are src/finance_rag/chunking/hierarchical.py; Runs is
--              about tables, Indices about the chunks of a document.
--   Evaluation The golden-set evaluation and its gate (scripts/run_eval.py); Gate proves what it
--              lets through.
--   Samples    Data that the tests share; each part has a module Tests with runs and examples.
--
-- State and errors. A node of the graph is a function from the number of the step and the state
-- to the state with its updates merged in; a node that can raise returns an Attempt. A key that
-- may be absent from a dictionary is an Option. The language models, the retriever, the web
-- search, the clock and the id generator are fields of the record Services, each given the step's
-- number, so that two calls may answer differently; a model's reply is its decoded JSON or a
-- failure. Redis is a function that counts or fails. The limiter's clock is read in ticks, hz of
-- them to a second; a call of incr holds the lock and is one step.
--
-- The store's tables are lists of rows in any order, each SQL statement a function on them; full-text
-- search and the vector distance are parameters. Redis, for the cache, is a state with its commands
-- and the laws of their documentation, under which no key expires between two calls; what the
-- program stores as JSON is kept decoded.
--
-- Fuel. The run of the graph takes fuel; ask gives it 5 * critic_max_retries + 8 steps: the
-- supervisor, five nodes for each draft, compliance and the end. LangGraph's own recursion limit (25
-- by default) is not modelled; it is reached only where critic_max_retries is 4 or more. The
-- regular expressions recurse on the pattern and the text; their classes, and lower, are those of
-- ASCII.
--
-- Not modelled: HTTP, SQL and file access, tracing and logging, prompts' wording outside the parts
-- that carry state, and the components that the sections above do not name.
pub mod Prelude
pub mod Text
pub mod Config
pub mod Models
pub mod Guardrails
pub mod Metrics
pub mod Samples
pub mod Agent
pub mod Api
pub mod Pipeline
pub mod Retrieval
pub mod Cache
pub mod SingleAgent
pub mod Store
pub mod Storage
pub mod Audits
pub mod Ranking
pub mod Chunking
pub mod Evaluation
