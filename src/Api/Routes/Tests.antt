-- ===== src/Api/Routes/Tests.antt =====
-- Two tenants in one table and one trail, an upload, and the theorems applied to them.
use finance_rag.Prelude.{ℕ, ◌≡◌, refl, false, none, some, Option, List, [], ◌∷◌, take, arith}
use finance_rag.Text.{Text, codes, text_eq, split}
use finance_rag.Config.{defaults}
use finance_rag.Models.{unmeasured}
use finance_rag.Api.Auth.{Principal, key_principal}
use finance_rag.Pipeline.Jobs.{Job, Jobs, Launch, refused, queued_row, find_row}
use finance_rag.Audits.{StoredAudit}
use finance_rag.Agent.State.{AuditRecord}
use finance_rag.Storage.{underscores, content_key}
use finance_rag.Evaluation.{last_name}
use finance_rag.Api.Routes.{
  returned, http, listed, job_selected, list_jobs, jobs, shown, job_status, audit, Backend, upload,
}
use finance_rag.Api.Routes.Scoping.{own_jobs, own_trail, routes-own}
use finance_rag.Api.Routes.Uploads.{IsStaged, upload-IsStaged}

abbrev caller : Principal
caller = key_principal (codes "org-a") (codes "k") (codes "read" ∷ [])

abbrev mine : Job
mine = queued_row 1 (codes "org-a") (codes "a.pdf" ∷ []) none

abbrev theirs : Job
theirs = queued_row 2 (codes "org-b") (codes "b.pdf" ∷ []) none

abbrev table : Jobs
table = record { rows = mine ∷ theirs ∷ []; next_id = 3 }

abbrev asked : Option Text → AuditRecord ℕ
asked org = record {
  trace_id = codes "t";
  query = codes "q";
  thread_id = none;
  user_id = none;
  org_id = org;
  rewritten_query = none;
  service_line = none;
  answer = codes "a";
  refused = false;
  refusal_reason = none;
  retrieved_ids = [];
  cited_ids = [];
  hallucinated_ids = [];
  route = none;
  critic_attempts = 0;
  metrics = unmeasured;
  guardrails = [];
  latency_ms = 5;
}

abbrev trail : List (StoredAudit ℕ)
trail =
    record { audit_id = 1; created_at = 10; written = asked none }
    ∷ record { audit_id = 2; created_at = 20; written = asked (some (codes "org-b")) }
    ∷ record { audit_id = 3; created_at = 30; written = asked (some (codes "org-a")) }
    ∷ []

foreign_job : job_status defaults caller 2 table ≡ http 404 (codes "job not found")
unfolding job_status shown find_row text_eq
foreign_job = refl

own_listing : jobs (λ n. 7) caller 20 table ≡ returned (listed (λ n. 7) mine ∷ [])
unfolding jobs list_jobs job_selected text_eq listed
own_listing = refl

routes-own_example :
    (job_status defaults caller 2 table ≡ job_status defaults caller 2 (own_jobs caller table))
    × (jobs (λ n. 7) caller 20 table ≡ jobs (λ n. 7) caller 20 (own_jobs caller table))
    × (audit defaults caller 20 none trail ≡ audit defaults caller 20 none (own_trail caller trail))
routes-own_example =
    routes-own defaults (λ n. 7) caller 2 20 none table trail refl refl
      (((λ e. omega arith), tt), (tt, tt))

-- A checksum of one letter, and ECS without room.
abbrev letter : List ℕ → Text
letter content = take 1 content

abbrev full : ℕ → Launch
full n = refused (codes "RESOURCE:CPU")

abbrev backend : Backend
backend = record {
  store = record { bucket = codes "docs"; prefix = codes "prod"; objects = [] };
  jobs = table;
}

-- A client that stores everything.
abbrev works : Text → List ℕ → Option Text
works key content = none

upload-IsStaged_example :
    IsStaged works defaults caller
      (content_key letter (codes "org-a") (codes "a.pdf") (codes "PDF"))
      (codes "PDF")
      50
      backend
      (upload letter works defaults full 50 caller (some (codes "a.pdf")) (codes "PDF") backend)
upload-IsStaged_example =
    upload-IsStaged letter works defaults full 50 caller (some (codes "a.pdf")) (codes "PDF")
      backend refl refl (omega arith, (omega arith, tt))

key_of_upload :
    content_key letter (codes "org-a") (codes "../x\\y/a.pdf") (codes "PDF")
    ≡ codes "org-a/uploads/P/a.pdf"
unfolding content_key last_name underscores text_eq split
key_of_upload = refl
