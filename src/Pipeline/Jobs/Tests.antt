-- ===== src/Pipeline/Jobs/Tests.antt =====
-- Jobs in a small table, and the theorems applied to them.
use finance_rag.Prelude.{ℕ, ◌≡◌, refl, none, some, List, [], ◌∷◌, All, inl}
use finance_rag.Text.{Text, codes}
use finance_rag.Config.{defaults}
use finance_rag.Pipeline.Jobs.Runs.{Settled, run_job-Settled}
use finance_rag.Pipeline.Jobs.Steps.{
  World, Reaches, here, after, created, began, ended, reaped, IsConsistent, empty_world,
  Reaches-IsConsistent,
}
use finance_rag.Pipeline.Jobs.{
  Launch, refused, Job, Jobs, Indexed, indexed, raised, queued_row, get_job, create_job,
  update_rows, update, begin, succeed, fail, settle, find_row, run_job, is_stale, abandon,
  reap_rows, reap_stale_jobs, dispatch_index_job,
}

abbrev row : Job
row = queued_row 1 (codes "org-a") (codes "a.pdf" ∷ []) none

abbrev table : Jobs
table = record { rows = row ∷ []; next_id = 2 }

abbrev crash : List Text → Text → Indexed
crash paths org = raised (codes "MemoryError: ")

abbrev indexes : List Text → Text → Indexed
indexes paths org =
    indexed (record { documents = 1; chunks = 7; image_chunks = 0; entity_links = 2 })

row_there : get_job 1 table ≡ some row
unfolding create_job update_rows update begin succeed fail settle find_row run_job is_stale abandon
    reap_rows reap_stale_jobs dispatch_index_job
row_there = refl

run_job-Settled_example :
    (r : Job) × (get_job 1 (run_job crash 10 20 1 table).1 ≡ some r)
    × Settled (crash row.paths row.org_id) row 10 20 (run_job crash 10 20 1 table).0 r
run_job-Settled_example = run_job-Settled crash 10 20 1 table row row_there

-- A job that began at second 10 is stale at second 50.
abbrev stuck : List Job
stuck = begin 10 row ∷ row ∷ []

-- One job is created, begun, reaped while its worker is still at work, and then ends well.
abbrev world_1 : World
world_1 = record empty_world { jobs = (create_job defaults [] none none empty_world.jobs).1 }

abbrev world_2 : World
world_2 = record { jobs = update (begin 5) 1 world_1.jobs; workers = 1 ∷ [] }

abbrev world_3 : World
world_3 = record world_2 { jobs = (reap_stale_jobs 9000 60 world_2.jobs).1 }

abbrev world_4 : World
world_4 = record world_3 { jobs = update (settle 9900 (indexes [] [])) 1 world_3.jobs }

job_1_there : get_job 1 world_1.jobs ≡ some (queued_row 1 defaults.default_org_id [] none)
unfolding create_job update_rows update begin succeed fail settle find_row run_job is_stale abandon
    reap_rows reap_stale_jobs dispatch_index_job
job_1_there = refl

four_writes : Reaches empty_world world_4
four_writes =
    after empty_world world_3 world_4
      (after empty_world world_2 world_3
        (after empty_world world_1 world_2
          (after empty_world empty_world world_1 (here empty_world)
            (created empty_world defaults [] none none))
          (began world_1 5 1 (queued_row 1 defaults.default_org_id [] none) job_1_there))
        (reaped world_2 9000 60))
      (ended world_3 9900 1 (indexes [] []) (inl refl))

Reaches-IsConsistent_example : All IsConsistent world_4.jobs.rows
Reaches-IsConsistent_example = Reaches-IsConsistent world_4 four_writes

-- ECS refuses every launch.
abbrev no_capacity : ℕ → Launch
no_capacity n = refused (codes "no capacity")
