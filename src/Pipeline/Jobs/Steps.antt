-- ===== src/Pipeline/Jobs/Steps.antt =====
-- The writes that web tasks, workers and the reaper make to the job table, in any order
-- (src/finance_rag/pipeline/jobs.py, src/finance_rag/pipeline/launcher.py).
use finance_rag.Prelude.{
  ℕ, ◌+◌, ◌-◌, ◌*◌, ◌<◌, ◌≡◌, ◌≢◌, refl, inl, inr, true, Option, none, some, List, [], ◌∷◌, ◌==◌,
  is_some, In, All, All-append, arith, Bool-cases, sym,
}
use mathlib.Core.Path.{subst}
use finance_rag.Text.{Text}
use finance_rag.Config.{Settings}
use finance_rag.Pipeline.Jobs.{
  queued, running, succeeded, failed, Job, Jobs, Indexed, indexed, raised, interrupted, create_job,
  update_rows, update, begin, succeed, fail, settle, get_job, find_row, is_stale, abandon,
  reap_rows, reap_stale_jobs,
}

-- The table, and the jobs that some worker has begun.
pub record World : Type 0 where
  pub jobs : Jobs
  pub workers : List ℕ

-- One write. A worker may end at any time after it has begun, or never; the reaper and the web
-- task that could not launch a job may write at any time.
pub data Step : World → World → Type 0 where
  created :
      (w : World) (st : Settings) (paths : List Text) (org source : Option Text)
      → Step w (record w { jobs = (create_job st paths org source w.jobs).1 })
  began :
      (w : World) (now n : ℕ) (j : Job)
      → get_job n w.jobs ≡ some j
      → Step w (record { jobs = update (begin now) n w.jobs; workers = n ∷ w.workers })
  ended :
      (w : World) (now n : ℕ) (o : Indexed)
      → In n w.workers
      → Step w (record w { jobs = update (settle now o) n w.jobs })
  not_launched :
      (w : World) (now n : ℕ) (message : Text)
      → Step w (record w { jobs = update (fail now message) n w.jobs })
  reaped :
      (w : World) (now minutes : ℕ)
      → Step w (record w { jobs = (reap_stale_jobs now minutes w.jobs).1 })

-- Any number of writes.
pub data Reaches : World → World → Type 0 where
  here : (w : World) → Reaches w w
  after : (u v w : World) → Reaches u v → Step v w → Reaches u w

-- The row tells the truth about its status.
unfoldable pub IsConsistent : Job → Type 0
IsConsistent j = elim j.status [
  | queued ↦ (j.attempts ≡ 0) × (j.started_at ≡ none) × (j.finished_at ≡ none)
  | running ↦ (0 < j.attempts) × (is_some j.started_at ≡ true)
  | succeeded ↦ (0 < j.attempts) × (is_some j.started_at ≡ true) × (is_some j.finished_at ≡ true)
  | failed ↦ (is_some j.finished_at ≡ true) × (is_some j.error ≡ true)
]

-- The row is consistent, has been started if a worker has begun it, and has a number that was
-- given out.
abbrev Sound : ℕ → List ℕ → Job → Type 0
Sound next workers j =
    IsConsistent j
    × (In j.job_id workers → (0 < j.attempts) × (is_some j.started_at ≡ true))
    × (j.job_id < next)

All-update_rows :
    (P Q : Job → Type 0) (f : Job → Job) (n : ℕ) (js : List Job)
    → ((x : Job) → P x → x.job_id ≡ n → Q (f x))
    → ((x : Job) → P x → x.job_id ≢ n → Q x)
    → All P js
    → All Q (update_rows f n js)
unfolding update_rows
All-update_rows P Q f n [] hit miss h = tt
All-update_rows P Q f n (x ∷ js) hit miss h =
    let rest = All-update_rows P Q f n js hit miss h.1 in
    elim (Bool-cases (x.job_id == n)) [
      | inl e ↦ rw e (hit x h.0 (ground arith), rest)
      | inr e ↦ rw e (miss x h.0 (λ same. ground arith), rest)
    ]

find_row-All :
    (P : Job → Type 0) (n : ℕ) (js : List Job) (j : Job)
    → All P js
    → find_row n js ≡ some j
    → (j.job_id ≡ n) × P j
unfolding find_row
find_row-All P n [] j h e = cc
find_row-All P n (x ∷ js) j h e = elim (Bool-cases (x.job_id == n)) [
  | inl b ↦
      let same : x ≡ j = ground arith in
      (subst (λ (y : Job). y.job_id ≡ n) same (ground arith), subst P same h.0)
  | inr b ↦ find_row-All P n js j h.1 (ground arith)
]

All-map :
    {A : Type 0} (P Q : A → Type 0) (xs : List A) → ((x : A) → P x → Q x) → All P xs → All Q xs
All-map P Q [] f h = tt
All-map P Q (x ∷ xs) f h = (f x h.0, All-map P Q xs f h.1)

All-In : (P : ℕ → Type 0) (n : ℕ) (xs : List ℕ) → All P xs → In n xs → P n
All-In P n [] h i = absurd i
All-In P n (x ∷ xs) h (inl e) = subst P (sym e) h.0
All-In P n (x ∷ xs) h (inr i) = All-In P n xs h.1 i

begin-Sound :
    (next now n : ℕ) (workers : List ℕ) (j : Job)
    → Sound next workers j
    → Sound next (n ∷ workers) (begin now j)
unfolding begin IsConsistent
begin-Sound next now n workers j h = ((omega arith, refl), (λ i. (omega arith, refl)), h.2)

settle-Sound :
    (next now : ℕ) (o : Indexed) (workers : List ℕ) (j : Job)
    → In j.job_id workers
    → Sound next workers j
    → Sound next workers (settle now o j)
unfolding settle succeed fail IsConsistent
settle-Sound next now (indexed s) workers j i h = (((h.1 i).0, (h.1 i).1, refl), h.1, h.2)
settle-Sound next now (raised m) workers j i h = ((refl, refl), h.1, h.2)
settle-Sound next now (interrupted m) workers j i h = ((refl, refl), h.1, h.2)

fail-Sound :
    (next now : ℕ) (m : Text) (workers : List ℕ) (j : Job)
    → Sound next workers j
    → Sound next workers (fail now m j)
unfolding fail IsConsistent
fail-Sound next now m workers j h = ((refl, refl), h.1, h.2)

abandon-Sound :
    (next now : ℕ) (workers : List ℕ) (j : Job)
    → Sound next workers j
    → Sound next workers (abandon now j)
unfolding abandon IsConsistent
abandon-Sound next now workers j h = ((refl, ground arith), h.1, h.2)

All-reap_rows :
    (P : Job → Type 0) (now cutoff : ℕ) (js : List Job)
    → ((j : Job) → P j → P (abandon now j))
    → All P js
    → All P (reap_rows now cutoff js).1
unfolding reap_rows
All-reap_rows P now cutoff [] f h = tt
All-reap_rows P now cutoff (x ∷ js) f h =
    let rest = All-reap_rows P now cutoff js f h.1 in
    elim (Bool-cases (is_stale cutoff x)) [
      | inl e ↦ rw e (f x h.0, rest)
      | inr e ↦ rw e (h.0, rest)
    ]

-- Every row is sound, and a worker's job has a number that was given out.
abbrev SoundWorld : World → Type 0
SoundWorld w =
    All (Sound w.jobs.next_id w.workers) w.jobs.rows × All (λ n. n < w.jobs.next_id) w.workers

Step-SoundWorld : (v w : World) → Step v w → SoundWorld v → SoundWorld w
unfolding create_job update reap_stale_jobs IsConsistent
Step-SoundWorld _ _ (created w st paths org source) (h, k) =
    let next = w.jobs.next_id in
    (
      All-append (Sound (next + 1) w.workers) w.jobs.rows _
          (All-map (Sound next w.workers) (Sound (next + 1) w.workers) w.jobs.rows
            (λ j s. (s.0, s.1, omega arith)) h)
          (
            (
              (refl, refl, refl),
              (λ i. absurd (omega (arith, All-In (λ n. n < next) next w.workers k i))),
              omega arith,
            ),
            tt,
          ),
      All-map (λ n. n < next) (λ n. n < next + 1) w.workers (λ n b. omega arith) k,
    )
Step-SoundWorld _ _ (began w now n j e) (h, k) =
    let next = w.jobs.next_id in
    let (named, found) = find_row-All (Sound next w.workers) n w.jobs.rows j h e in
    (
      All-update_rows (Sound next w.workers) (Sound next (n ∷ w.workers)) (begin now) n w.jobs.rows
          (λ x s b. begin-Sound next now n w.workers x s)
          (λ x s b. (s.0, (λ i. elim i [ inl c ↦ absurd (b c) | inr c ↦ s.1 c ]), s.2)) h,
      (omega (arith, found.2), k),
    )
Step-SoundWorld _ _ (ended w now n o i) (h, k) = (
  All-update_rows (Sound w.jobs.next_id w.workers) (Sound w.jobs.next_id w.workers) (settle now o) n
      w.jobs.rows
      (λ x s b.
        settle-Sound w.jobs.next_id now o w.workers x (subst (λ m. In m w.workers) (sym b) i) s)
      (λ x s b. s) h,
  k,
)
Step-SoundWorld _ _ (not_launched w now n m) (h, k) = (
  All-update_rows (Sound w.jobs.next_id w.workers) (Sound w.jobs.next_id w.workers) (fail now m) n
      w.jobs.rows (λ x s b. fail-Sound w.jobs.next_id now m w.workers x s) (λ x s b. s) h,
  k,
)
Step-SoundWorld _ _ (reaped w now minutes) (h, k) = (
  All-reap_rows (Sound w.jobs.next_id w.workers) now (now - minutes * 60) w.jobs.rows
      (λ j s. abandon-Sound w.jobs.next_id now w.workers j s) h,
  k,
)

Reaches-SoundWorld : (u w : World) → Reaches u w → SoundWorld u → SoundWorld w
Reaches-SoundWorld _ _ (here w) h = h
Reaches-SoundWorld _ _ (after u v w r s) h = Step-SoundWorld v w s (Reaches-SoundWorld u v r h)

abbrev pub empty_world : World
empty_world = record { jobs = record { rows = []; next_id = 1 }; workers = [] }

-- From an empty table, whatever web tasks, workers and reapers write and in whatever order, every
-- row tells the truth about its status: a queued job has never begun, a running or succeeded one
-- has begun and counted an attempt, a succeeded or failed one has a time of its end, and a failed
-- one has an error.
pub Reaches-IsConsistent : (w : World) → Reaches empty_world w → All IsConsistent w.jobs.rows
Reaches-IsConsistent w r =
    All-map (Sound w.jobs.next_id w.workers) IsConsistent w.jobs.rows (λ j s. s.0)
      (Reaches-SoundWorld empty_world w r (tt, tt)).0
