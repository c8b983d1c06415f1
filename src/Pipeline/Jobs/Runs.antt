-- ===== src/Pipeline/Jobs/Runs.antt =====
-- What one run of a job, one dispatch and one reaping leave in the table
-- (src/finance_rag/pipeline/jobs.py, src/finance_rag/pipeline/launcher.py).
use finance_rag.Agent.Roles.{non_empty}
use finance_rag.Prelude.{
  true, get_or, ◌<◌, ◌++◌, none, Option, ℕ, ◌+◌, ◌≡◌, refl, ◌⊎◌, inl, inr, Bool, false, some, List,
  [], ◌∷◌, take, In, All, arith, Bool-cases, ap, sym,
}
use mathlib.Core.Path.{subst}
use finance_rag.Text.{Text, codes, text_eq}
use finance_rag.Config.{Settings}
use finance_rag.Pipeline.Jobs.{
  queued, create_job, queued_row, Launch, launched, refused, dispatch_index_job, succeeded, failed,
  Job, Jobs, Stats, Indexed, indexed, raised, interrupted, update_rows, update, begin, succeed,
  fail, settle, find_row, get_job, reraised, run_job, is_stale, abandon, reap_rows,
}

-- Updates that keep the id of a row leave the search for it alone.
find_row-update_rows :
    (f : Job → Job) (n : ℕ) (js : List Job) (j : Job)
    → ((x : Job) → (f x).job_id ≡ x.job_id)
    → find_row n js ≡ some j
    → find_row n (update_rows f n js) ≡ some (f j)
unfolding find_row update_rows
find_row-update_rows f n [] j keeps h = cc
find_row-update_rows f n (x ∷ js) j keeps h =
    let same = keeps x in ground (arith, find_row-update_rows f n js j keeps)

settle-job_id : (now : ℕ) (o : Indexed) (x : Job) → (settle now o x).job_id ≡ x.job_id
unfolding settle succeed fail
settle-job_id now (indexed s) x = refl
settle-job_id now (raised m) x = refl
settle-job_id now (interrupted m) x = refl

begin-job_id : (now : ℕ) (x : Job) → (begin now x).job_id ≡ x.job_id
unfolding begin
begin-job_id now x = refl

run_job_lem :
    (index_corpus : List Text → Text → Indexed) (t u n : ℕ) (js : Jobs) (j : Job)
    → get_job n js ≡ some j
    → run_job index_corpus t u n js ≡ (
      reraised (index_corpus j.paths j.org_id),
      update (settle u (index_corpus j.paths j.org_id)) n (update (begin t) n js),
    )
unfolding run_job
run_job_lem index_corpus t u n js j h = rw (h, run_job) refl

pub update-get_job :
    (f : Job → Job) (n : ℕ) (js : Jobs) (j : Job)
    → ((x : Job) → (f x).job_id ≡ x.job_id)
    → get_job n js ≡ some j
    → get_job n (update f n js) ≡ some (f j)
unfolding update
update-get_job f n js j keeps h = find_row-update_rows f n js.rows j keeps h

-- The row of a job that has run.
run_job-get_job :
    (index_corpus : List Text → Text → Indexed) (t u n : ℕ) (js : Jobs) (j : Job)
    → get_job n js ≡ some j
    → get_job n (run_job index_corpus t u n js).1
      ≡ some (settle u (index_corpus j.paths j.org_id) (begin t j))
run_job-get_job index_corpus t u n js j h =
    let outcome = index_corpus j.paths j.org_id in
    subst (λ (x : Bool × Jobs). get_job n x.1 ≡ some (settle u outcome (begin t j)))
      (sym (run_job_lem index_corpus t u n js j h))
      (update-get_job (settle u outcome) n (update (begin t) n js) (begin t j)
        (settle-job_id u outcome) (update-get_job (begin t) n js j (begin-job_id t) h))

-- What a row and the call owe to the outcome of the indexing: the counts, or the error, and
-- whether an exception leaves the call.
abbrev pub IsOutcome : Indexed → Bool → Job → Type 0
IsOutcome (indexed s) leaves r =
    (r.status ≡ succeeded)
    × (leaves ≡ false)
    × (r.documents ≡ s.documents)
    × (r.chunks ≡ s.chunks)
    × (r.image_chunks ≡ s.image_chunks)
    × (r.entity_links ≡ s.entity_links)
IsOutcome (raised m) leaves r =
    (r.status ≡ failed) × (leaves ≡ false) × (r.error ≡ some (take 2000 m))
IsOutcome (interrupted m) leaves r =
    (r.status ≡ failed) × (leaves ≡ true) × (r.error ≡ some (take 2000 m))

-- How a row looks that began at `t` and was settled at `u` with this outcome.
abbrev pub Settled : Indexed → Job → ℕ → ℕ → Bool → Job → Type 0
Settled o j t u leaves r =
    (r.attempts ≡ j.attempts + 1)
    × (r.started_at ≡ some t)
    × (r.finished_at ≡ some u)
    × IsOutcome o leaves r

settle-Settled :
    (t u : ℕ) (o : Indexed) (j : Job) → Settled o j t u (reraised o) (settle u o (begin t j))
unfolding settle begin succeed fail
settle-Settled t u (indexed s) j = (refl, refl, refl, (refl, refl, refl, refl, refl, refl))
settle-Settled t u (raised m) j = (refl, refl, refl, (refl, refl, refl))
settle-Settled t u (interrupted m) j = (refl, refl, refl, (refl, refl, refl))

-- A run of a job that exists, if its process lives to the end of it, settles the job as the indexing
-- comes out: the row has one attempt more and the two times of the run. It has succeeded with the
-- counts that the indexing returned, or failed with the first 2,000 characters of the exception,
-- which leaves the call exactly if it is no Exception.
pub run_job-Settled :
    (index_corpus : List Text → Text → Indexed) (t u n : ℕ) (js : Jobs) (j : Job)
    → get_job n js ≡ some j
    → (r : Job) × (get_job n (run_job index_corpus t u n js).1 ≡ some r)
      × Settled (index_corpus j.paths j.org_id) j t u (run_job index_corpus t u n js).0 r
run_job-Settled index_corpus t u n js j h =
    let outcome = index_corpus j.paths j.org_id in
    (
      settle u outcome (begin t j),
      run_job-get_job index_corpus t u n js j h,
      subst (λ (b : Bool). Settled outcome j t u b (settle u outcome (begin t j)))
          (sym (ap (λ (x : Bool × Jobs). x.0) (run_job_lem index_corpus t u n js j h)))
          (settle-Settled t u outcome j),
    )

-- A job that failed once and then succeeds keeps the error of the failed run.
pub error_kept :
    (index_corpus again : List Text → Text → Indexed) (t u t' u' n : ℕ) (js : Jobs) (j : Job)
    (m : Text) (s : Stats)
    → get_job n js ≡ some j
    → index_corpus j.paths j.org_id ≡ raised m
    → again j.paths j.org_id ≡ indexed s
    → (r : Job) × (get_job n (run_job again t' u' n (run_job index_corpus t u n js).1).1 ≡ some r)
      × (r.status ≡ succeeded)
      × (r.error ≡ some (take 2000 m))
unfolding settle begin succeed fail
error_kept index_corpus again t u t' u' n js j m s h e e' =
    let after = (run_job index_corpus t u n js).1 in
    let r = settle u (raised m) (begin t j) in
    let once : get_job n after ≡ some r =
      subst (λ (o : Indexed). get_job n after ≡ some (settle u o (begin t j))) e
        (run_job-get_job index_corpus t u n js j h) in
    let twice =
      subst
        (λ (o : Indexed).
          get_job n (run_job again t' u' n after).1 ≡ some (settle u' o (begin t' r)))
        e' (run_job-get_job again t' u' n after r once) in
    (settle u' (indexed s) (begin t' r), twice, refl, refl)

abandon-fresh : (now cutoff : ℕ) (j : Job) → is_stale cutoff (abandon now j) ≡ false
unfolding is_stale abandon
abandon-fresh now cutoff j = refl

-- After the reaper no row is running that began before the cutoff, and every row that it does not
-- take is as it was.
pub reap_rows-fresh :
    (now cutoff : ℕ) (js : List Job)
    → All (λ j. is_stale cutoff j ≡ false) (reap_rows now cutoff js).1
      × ((j : Job) → In j js → is_stale cutoff j ≡ false → In j (reap_rows now cutoff js).1)
unfolding reap_rows
reap_rows-fresh now cutoff [] = (tt, λ j i h. i)
reap_rows-fresh now cutoff (x ∷ js) =
    let (rest, kept) = reap_rows-fresh now cutoff js in
    elim (Bool-cases (is_stale cutoff x)) [
      | inl e ↦ rw e (
        (abandon-fresh now cutoff x, rest),
        λ j i h. elim i [ inl same ↦ absurd (ground arith) | inr k ↦ inr (kept j k h) ],
      )
      | inr e ↦ rw e ((e, rest), λ j i h. elim i [ inl same ↦ inl same | inr k ↦ inr (kept j k h) ])
    ]

pub find_row-append :
    (rows : List Job) (j : Job)
    → All (λ x. x.job_id < j.job_id) rows
    → find_row j.job_id (rows ++ (j ∷ [])) ≡ some j
unfolding find_row
find_row-append [] j h = ground arith
find_row-append (x ∷ rows) j h = ground (arith, find_row-append rows j h.1)

pub fail-job_id : (now : ℕ) (m : Text) (x : Job) → (fail now m x).job_id ≡ x.job_id
unfolding fail
fail-job_id now m x = refl

pub Launch-cases :
    (x : Launch) → ((arn : Text) × (x ≡ launched arn)) ⊎ ((m : Text) × (x ≡ refused m))
Launch-cases (launched arn) = inl (arn, refl)
Launch-cases (refused m) = inr (m, refl)

-- A dispatch gives a job a number of its own, and where ECS refuses the launch, the new row is
-- failed with the reason in it: no job that nobody runs is left queued. Otherwise the row is
-- queued.
pub dispatch_index_job-get_job :
    (st : Settings) (ecs : ℕ → Launch) (now : ℕ) (paths : List Text) (org_id : Option Text)
    (js : Jobs)
    → All (λ x. x.job_id < js.next_id) js.rows
    → let (d, after) = dispatch_index_job st ecs now paths org_id js in
      (d.job_id ≡ js.next_id)
      × ((r : Job) × (get_job d.job_id after ≡ some r)
          × (((d.error ≡ none) × (r.status ≡ queued))
              ⊎ ((m : Text) × (d.error ≡ some m)
                  × (r.status ≡ failed)
                  × (r.error ≡ some (take 2000 m)))))
unfolding dispatch_index_job create_job fail
dispatch_index_job-get_job st ecs now paths org_id js h =
    let org = get_or (non_empty org_id) st.default_org_id in
    let row = queued_row js.next_id org paths none in
    let made : Jobs = record { rows = js.rows ++ (row ∷ []); next_id = js.next_id + 1 } in
    let there : get_job js.next_id made ≡ some row = find_row-append js.rows row h in
    elim (Bool-cases (text_eq st.index_runner (codes "ecs"))) [
      | inr e ↦ rw e (refl, (row, there, inl (refl, refl)))
      | inl e ↦ elim (Launch-cases (ecs js.next_id)) [
        | inl (arn, l) ↦ rw (e, l) (refl, (row, there, inl (refl, refl)))
        | inr (m, l) ↦
            let message = codes "dispatch failed: " ++ m in
            let marked =
              update-get_job (fail now message) js.next_id made row (fail-job_id now message)
                there in
            rw (e, l) (refl, (fail now message row, marked, inr (message, refl, refl, refl)))
      ]
    ]
