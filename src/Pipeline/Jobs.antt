-- ===== src/Pipeline/Jobs.antt =====
-- Index jobs (src/finance_rag/pipeline/jobs.py) and their dispatch
-- (src/finance_rag/pipeline/launcher.py). The table `index_jobs` is a list of rows, and a
-- connection block is one step on it. The clock is read in seconds; the indexing itself and the
-- launch of a task on ECS are parameters.
pub mod Steps
pub mod Runs
pub mod Tests
use finance_rag.Prelude.{
  ℕ, zero, suc, ◌+◌, ◌-◌, ◌*◌, Bool, true, false, ◌&&◌, Option, none, some, List, [], ◌∷◌, ◌++◌,
  ltb, ◌==◌, if◌then◌else◌, take, get_or, or_else, any_of,
}
use finance_rag.Text.{Text, codes, text_eq}
use finance_rag.Config.{Settings}
use finance_rag.Agent.Roles.{non_empty}

pub data Status : Type 0 where
  queued running succeeded failed : Status

-- A row of `index_jobs`.
pub record Job : Type 0 where
  pub job_id : ℕ
  pub org_id : Text
  pub status : Status
  pub paths : List Text
  pub source_uri : Option Text
  pub documents : ℕ
  pub chunks : ℕ
  pub image_chunks : ℕ
  pub entity_links : ℕ
  pub attempts : ℕ
  pub error : Option Text
  pub started_at : Option ℕ
  pub finished_at : Option ℕ

-- The table, and the number that the next row gets.
pub record Jobs : Type 0 where
  pub rows : List Job
  pub next_id : ℕ

-- The counts that `index_corpus` returns, 0 where one is missing.
pub record Stats : Type 0 where
  pub documents : ℕ
  pub chunks : ℕ
  pub image_chunks : ℕ
  pub entity_links : ℕ

-- How `index_corpus` comes out: its counts, an Exception, or another BaseException, with the text
-- `type: message`.
pub data Indexed : Type 0 where
  indexed : Stats → Indexed
  raised : Text → Indexed
  interrupted : Text → Indexed

abbrev pub queued_row : ℕ → Text → List Text → Option Text → Job
queued_row n org paths source = record {
  job_id = n;
  org_id = org;
  status = queued;
  paths = paths;
  source_uri = source;
  documents = 0;
  chunks = 0;
  image_chunks = 0;
  entity_links = 0;
  attempts = 0;
  error = none;
  started_at = none;
  finished_at = none;
}

-- `create_job`
unfoldable pub create_job : Settings → List Text → Option Text → Option Text → Jobs → ℕ × Jobs
create_job st paths org_id source js =
    let org = get_or (non_empty org_id) st.default_org_id in
    (
      js.next_id,
      record {
        rows = js.rows ++ (queued_row js.next_id org paths source ∷ []);
        next_id = js.next_id + 1;
      },
    )

-- `UPDATE index_jobs SET … WHERE job_id = :job_id`
unfoldable pub update_rows : (Job → Job) → ℕ → List Job → List Job
update_rows f n [] = []
update_rows f n (j ∷ js) =
    let rest = update_rows f n js in (if j.job_id == n then f j else j) ∷ rest

unfoldable pub update : (Job → Job) → ℕ → Jobs → Jobs
unfolding update_rows
update f n js = record js { rows = update_rows f n js.rows }

-- What `_mark` sets for each status that it is called with.
unfoldable pub begin : ℕ → Job → Job
begin now j = record j { status = running; started_at = some now; attempts = j.attempts + 1 }

unfoldable pub succeed : ℕ → Stats → Job → Job
succeed now s j = record j {
  status = succeeded;
  finished_at = some now;
  documents = s.documents;
  chunks = s.chunks;
  image_chunks = s.image_chunks;
  entity_links = s.entity_links;
}

unfoldable pub fail : ℕ → Text → Job → Job
fail now message j = record j {
  status = failed;
  finished_at = some now;
  error = some (take 2000 message);
}

unfoldable pub settle : ℕ → Indexed → Job → Job
unfolding succeed fail
settle now (indexed s) j = succeed now s j
settle now (raised m) j = fail now m j
settle now (interrupted m) j = fail now m j

-- The row of a job.
unfoldable pub find_row : ℕ → List Job → Option Job
find_row n [] = none
find_row n (j ∷ js) = if j.job_id == n then some j else find_row n js

-- `get_job`
abbrev pub get_job : ℕ → Jobs → Option Job
get_job n js = find_row n js.rows

-- Whether the exception goes on to the caller.
abbrev pub reraised : Indexed → Bool
reraised (interrupted m) = true
reraised _ = false

-- `run_job`, with the indexing of the row's paths and the times of its two updates: whether an
-- exception leaves it, and the table.
unfoldable pub run_job : (List Text → Text → Indexed) → ℕ → ℕ → ℕ → Jobs → Bool × Jobs
run_job index_corpus started ended n js = elim (get_job n js) [
  | none ↦ (false, js)
  | some j ↦
      let outcome = index_corpus j.paths j.org_id in
      (reraised outcome, update (settle ended outcome) n (update (begin started) n js))
]

-- The rows that the reaper takes.
unfoldable pub is_stale : ℕ → Job → Bool
is_stale cutoff j = elim j.status [
  | running ↦ elim j.started_at [ none ↦ false | some t ↦ ltb t cutoff ]
  | _ ↦ false
]

unfoldable pub abandon : ℕ → Job → Job
abandon now j = record j {
  status = failed;
  finished_at = some now;
  error = or_else j.error (some (codes "abandoned: worker stopped before completion"));
}

unfoldable pub reap_rows : ℕ → ℕ → List Job → ℕ × List Job
reap_rows now cutoff [] = (0, [])
reap_rows now cutoff (j ∷ js) =
    let (count, rest) = reap_rows now cutoff js in
    if is_stale cutoff j then (count + 1, abandon now j ∷ rest) else (count, j ∷ rest)

-- `reap_stale_jobs`
unfoldable pub reap_stale_jobs : ℕ → ℕ → Jobs → ℕ × Jobs
unfolding reap_rows
reap_stale_jobs now older_than_minutes js =
    let (count, rows) = reap_rows now (now - older_than_minutes * 60) js.rows in
    (count, record js { rows = rows })

pub record Dispatch : Type 0 where
  pub job_id : ℕ
  pub runner : Text
  pub task_arn : Option Text
  pub error : Option Text

-- The launch on ECS: the task's name, or the message of what was raised.
pub data Launch : Type 0 where
  launched : Text → Launch
  refused : Text → Launch

-- `dispatch_index_job`. The inline thread runs on its own, as a later call of `run_job`.
unfoldable pub dispatch_index_job :
    Settings → (ℕ → Launch) → ℕ → List Text → Option Text → Jobs → Dispatch × Jobs
dispatch_index_job st ecs now paths org_id js =
    let (n, created) = create_job st paths org_id none js in
    if text_eq st.index_runner (codes "ecs")
    then elim (ecs n) [
      | launched arn ↦
          (record { job_id = n; runner = codes "ecs"; task_arn = some arn; error = none }, created)
      | refused e ↦
          let message = codes "dispatch failed: " ++ e in
          (
            record { job_id = n; runner = codes "ecs"; task_arn = none; error = some message },
            update (fail now message) n created,
          )
    ]
    else (record { job_id = n; runner = codes "inline"; task_arn = none; error = none }, created)
