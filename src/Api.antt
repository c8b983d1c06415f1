-- ===== src/Api.antt =====
-- The gate in front of the HTTP routes: rate limits (src/finance_rag/api/ratelimit.py) and
-- authentication (src/finance_rag/api/auth.py); and the routes (src/finance_rag/api/app.py).
pub mod RateLimit
pub mod Auth
pub mod Routes
