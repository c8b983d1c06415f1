-- ===== src/Api/Routes.antt =====
-- The routes over jobs, uploads and the audit trail (src/finance_rag/api/app.py) and `list_jobs`
-- (src/finance_rag/pipeline/jobs.py). A route gets the principal that `require` has let through. A
-- limit is a natural number: PostgreSQL refuses a negative one.
pub mod Uploads
pub mod Scoping
pub mod Tests
use finance_rag.Prelude.{
  ℕ, Bool, true, false, ◌&&◌, not, Option, none, some, List, [], ◌∷◌, ltb, if◌then◌else◌, take,
  keep, map, min, is_empty, sort_by,
}
use finance_rag.Text.{Text, codes, text_eq}
use finance_rag.Config.{Settings}
use finance_rag.Agent.Roles.{non_empty}
use finance_rag.Guardrails.Answerability.{Attempt}
use finance_rag.Api.Auth.{Principal}
use finance_rag.Audits.{StoredAudit, AuditSummary, recent_audits}
use finance_rag.Pipeline.Jobs.{Status, Job, Jobs, get_job, Launch, Dispatch, dispatch_index_job}
use finance_rag.Storage.{S3ObjectStore, StoredObject, content_key, put}

-- What a route returns, the HTTPException it raises, or another exception that leaves it.
pub data Response (A : Type 0) : Type 0 where
  returned : A → Response A
  http : ℕ → Text → Response A
  raised : Text → Response A

-- The columns that `list_jobs` selects.
pub record ListedJob : Type 0 where
  pub job_id : ℕ
  pub org_id : Text
  pub status : Status
  pub paths : List Text
  pub documents : ℕ
  pub chunks : ℕ
  pub attempts : ℕ
  pub error : Option Text
  pub started_at : Option ℕ
  pub created_at : ℕ
  pub finished_at : Option ℕ

-- The row of a job, with the time that the database filled in when the row was made.
unfoldable pub listed : (ℕ → ℕ) → Job → ListedJob
listed created_at j = record {
  created_at = created_at j.job_id;
  job_id = j.job_id;
  org_id = j.org_id;
  status = j.status;
  paths = j.paths;
  documents = j.documents;
  chunks = j.chunks;
  attempts = j.attempts;
  error = j.error;
  started_at = j.started_at;
  finished_at = j.finished_at;
}

unfoldable pub job_selected : Option Text → Job → Bool
job_selected org_id j = elim (non_empty org_id) [ none ↦ true | some o ↦ text_eq j.org_id o ]

-- `list_jobs`
unfoldable pub list_jobs : (ℕ → ℕ) → ℕ → Option Text → Jobs → List ListedJob
list_jobs created_at limit org_id js =
    let rows = keep (job_selected org_id) js.rows in
    map (listed created_at) (take limit (sort_by (λ x y. ltb x.job_id y.job_id) rows))

-- `jobs`
unfoldable pub jobs : (ℕ → ℕ) → Principal → ℕ → Jobs → Response (List ListedJob)
jobs created_at p limit js = returned (list_jobs created_at (min limit 100) (some p.org_id) js)

-- What the principal is shown of the row that `get_job` found or did not find.
unfoldable pub shown : Settings → Principal → Option Job → Response Job
shown st p none = http 404 (codes "job not found")
shown st p (some j) =
    if st.enforce_tenancy && not (text_eq j.org_id p.org_id)
    then http 404 (codes "job not found")
    else returned j

-- `job_status`
unfoldable pub job_status : Settings → Principal → ℕ → Jobs → Response Job
unfolding shown
job_status st p n js = shown st p (get_job n js)

-- `audit`
unfoldable pub audit :
    {F : Type 0}
    → Settings
    → Principal
    → ℕ
    → Option Text
    → List (StoredAudit F)
    → Response (List AuditSummary)
audit st p limit thread_id trail =
    let org_id : Option Text = if st.enforce_tenancy then some p.org_id else none in
    returned (recent_audits (min limit 200) thread_id org_id trail)

-- The reply to a job that was queued.
pub record Queued : Type 0 where
  pub job_id : ℕ
  pub runner : Text
  pub task_arn : Option Text

-- `index`
unfoldable pub index :
    Settings → (ℕ → Launch) → ℕ → Principal → List Text → Jobs → Response Queued × Jobs
index st ecs now p paths js =
    let (d, after) = dispatch_index_job st ecs now paths (some p.org_id) js in
    (
      elim (non_empty d.error) [
        | some e ↦ http 503 e
        | none ↦ returned (record { job_id = d.job_id; runner = d.runner; task_arn = d.task_arn })
      ],
      after,
    )

-- The reply to an upload.
pub record Uploaded : Type 0 where
  pub job_id : ℕ
  pub runner : Text
  pub uri : Text
  pub checksum : Text

-- The reply to a dispatch, by the error it has.
unfoldable pub upload_reply : StoredObject → Dispatch → Option Text → Response Uploaded
upload_reply stored d (some e) = http 503 e
upload_reply stored d none =
    returned (record {
      job_id = d.job_id;
      runner = d.runner;
      uri = stored.uri;
      checksum = stored.checksum;
    })

-- The store and the table that an upload writes to.
pub record Backend : Type 0 where
  pub store : S3ObjectStore
  pub jobs : Jobs

-- `upload` behind the call of the store: the job is dispatched only when the bytes are stored.
unfoldable pub upload_stored :
    Settings
    → (ℕ → Launch)
    → ℕ
    → Principal
    → Jobs
    → Attempt StoredObject × S3ObjectStore
    → Response Uploaded × Backend
upload_stored st ecs now p js (Attempt.failed e, store) =
    (raised e, record { store = store; jobs = js })
upload_stored st ecs now p js (Attempt.returned stored, store) =
    let (d, after) = dispatch_index_job st ecs now (stored.key ∷ []) (some p.org_id) js in
    (upload_reply stored d (non_empty d.error), record { store = store; jobs = after })

-- `upload`, with a bucket configured
unfoldable pub upload :
    (List ℕ → Text)
    → (Text → List ℕ → Option Text)
    → Settings
    → (ℕ → Launch)
    → ℕ
    → Principal
    → Option Text
    → List ℕ
    → Backend
    → Response Uploaded × Backend
upload digest client st ecs now p filename content b =
    let name : Text = elim (non_empty filename) [ none ↦ codes "upload.bin" | some f ↦ f ] in
    let key = content_key digest p.org_id name content in
    let done = upload_stored st ecs now p b.jobs (put digest client key content b.store) in
    if is_empty content then (http 400 (codes "empty upload"), b) else done
