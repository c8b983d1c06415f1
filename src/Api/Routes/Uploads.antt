-- ===== src/Api/Routes/Uploads.antt =====
-- What an upload leaves in the object store and in the job table (src/finance_rag/api/app.py,
-- src/finance_rag/storage/object_store.py, src/finance_rag/pipeline/launcher.py).
use finance_rag.Prelude.{
  ℕ, ◌<◌, ◌≡◌, refl, ◌⊎◌, inl, inr, false, Option, none, some, List, [], ◌∷◌, ◌++◌, ◌+◌, ap, sym,
  ◌∙◌, subst, is_empty, All, arith, Bool-cases, Option-cases, length,
}
use finance_rag.Text.{Text, codes, text_eq}
use finance_rag.Text.Laws.{text_eq_refl}
use finance_rag.Config.{Settings}
use finance_rag.Guardrails.Answerability.{Attempt}
use finance_rag.Agent.Roles.{non_empty}
use finance_rag.Api.Auth.{Principal}
use finance_rag.Pipeline.Jobs.{
  Job, Jobs, Launch, queued_row, create_job, fail, get_job, dispatch_index_job,
}
use finance_rag.Pipeline.Jobs.Runs.{find_row-append, fail-job_id, update-get_job, Launch-cases}
use finance_rag.Storage.{S3ObjectStore, StoredObject, content_key, put, get, full_key, find_object}
use finance_rag.Api.Routes.{
  Response, returned, http, raised, upload_stored, shown, job_status, Uploaded, Backend, upload,
  upload_reply,
}

-- The name a key is made of: the file's, or the default.
abbrev pub upload_name : Option Text → Text
upload_name filename = elim (non_empty filename) [ none ↦ codes "upload.bin" | some f ↦ f ]

-- The row is read through `job_status` by the tenant it belongs to.
job_status-org_id :
    (st : Settings) (p : Principal) (n : ℕ) (js : Jobs) (j : Job)
    → get_job n js ≡ some j
    → j.org_id ≡ p.org_id
    → job_status st p n js ≡ returned j
unfolding job_status shown
job_status-org_id st p n js j h own =
    let same = text_eq_refl p.org_id in
    rw h
      (elim (Bool-cases st.enforce_tenancy) [ inl e ↦ rw (own, same, e) refl | inr e ↦ rw e refl ])

-- The row of a dispatch: the new job, queued for the paths and the tenant it was given, or the same
-- job failed, with the error that the dispatch reports.
dispatch-row :
    (st : Settings) (ecs : ℕ → Launch) (now : ℕ) (paths : List Text) (org : Text) (js : Jobs)
    → is_empty org ≡ false
    → All (λ x. x.job_id < js.next_id) js.rows
    → let (d, after) = dispatch_index_job st ecs now paths (some org) js in
      (d.job_id ≡ js.next_id)
      × (((d.error ≡ none)
            × (get_job js.next_id after ≡ some (queued_row js.next_id org paths none)))
          ⊎ ((m : Text) × (non_empty d.error ≡ some m)
              × (get_job js.next_id after
                  ≡ some (fail now m (queued_row js.next_id org paths none)))))
unfolding dispatch_index_job create_job
dispatch-row st ecs now paths [] js named h = ground arith
dispatch-row st ecs now paths (c ∷ o) js named h =
    let row = queued_row js.next_id (c ∷ o) paths none in
    let made : Jobs = record { rows = js.rows ++ (row ∷ []); next_id = js.next_id + 1 } in
    let there : get_job js.next_id made ≡ some row = find_row-append js.rows row h in
    elim (Bool-cases (text_eq st.index_runner (codes "ecs"))) [
      | inr e ↦ rw e (refl, inl (refl, there))
      | inl e ↦ elim (Launch-cases (ecs js.next_id)) [
        | inl (arn, l) ↦ rw (e, l) (refl, inl (refl, there))
        | inr (m, l) ↦
            let message = codes "dispatch failed: " ++ m in
            let marked =
              update-get_job (fail now message) js.next_id made row (fail-job_id now message)
                there in
            rw (e, l) (refl, inr (message, refl, marked))
      ]
    ]

-- What an upload comes to: the client raises, and nothing at all has been written; or the bytes can
-- be read from the bucket, and the job is queued for them, or failed with the error of the reply,
-- where the principal can read it.
unfoldable pub IsStaged :
    (Text → List ℕ → Option Text)
    → Settings
    → Principal
    → Text
    → List ℕ
    → ℕ
    → Backend
    → Response Uploaded × Backend
    → Type 0
IsStaged client st p key content now b (response, after) =
    let row = queued_row b.jobs.next_id p.org_id (key ∷ []) none in
    ((e : Text) × (client (full_key b.store key) content ≡ some e)
      × (response ≡ raised e)
      × (after ≡ b))
    ⊎ ((get after.store key ≡ some content)
        × (((u : Uploaded) × (response ≡ returned u)
              × (job_status st p u.job_id after.jobs ≡ returned row))
            ⊎ ((m : Text) × (response ≡ http 503 m)
                × (job_status st p b.jobs.next_id after.jobs ≡ returned (fail now m row)))))

module _ (digest : List ℕ → Text) (client : Text → List ℕ → Option Text) (st : Settings)
    (ecs : ℕ → Launch) (now : ℕ) (p : Principal) (filename : Option Text) (content : List ℕ)
    (b : Backend) where
  abbrev key_of : Text
  key_of = content_key digest p.org_id (upload_name filename) content

  abbrev object_of : StoredObject
  object_of = record {
    uri = codes "s3://" ++ b.store.bucket ++ codes "/" ++ full_key b.store key_of;
    key = key_of;
    size = length content;
    checksum = digest content;
  }

  -- The store with the bytes in it.
  abbrev store_after : S3ObjectStore
  store_after = record b.store { objects = (full_key b.store key_of, content) ∷ b.store.objects }

  put-raised :
      (e : Text)
      → client (full_key b.store key_of) content ≡ some e
      → put digest client key_of content b.store ≡ (Attempt.failed e, b.store)
  unfolding put
  put-raised e h = rw (h, put) refl

  put-stored :
      client (full_key b.store key_of) content ≡ none
      → put digest client key_of content b.store ≡ (Attempt.returned object_of, store_after)
  unfolding put
  put-stored h = rw (h, put) refl

  upload-filled :
      is_empty content ≡ false
      → upload digest client st ecs now p filename content b
        ≡ upload_stored st ecs now p b.jobs (put digest client key_of content b.store)
  unfolding upload
  upload-filled filled = rw filled refl

  upload-raised :
      (e : Text)
      → is_empty content ≡ false
      → client (full_key b.store key_of) content ≡ some e
      → upload digest client st ecs now p filename content b ≡ (raised e, b)
  unfolding upload_stored
  upload-raised e filled h =
      upload-filled filled ∙ ap (upload_stored st ecs now p b.jobs) (put-raised e h)

  upload-dispatched :
      is_empty content ≡ false
      → client (full_key b.store key_of) content ≡ none
      → let (d, after) = dispatch_index_job st ecs now (key_of ∷ []) (some p.org_id) b.jobs in
        upload digest client st ecs now p filename content b ≡ (
          upload_reply object_of d (non_empty d.error),
          record { store = store_after; jobs = after },
        )
  unfolding upload_stored
  upload-dispatched filled h =
      upload-filled filled ∙ ap (upload_stored st ecs now p b.jobs) (put-stored h)

  get-store_after : get store_after key_of ≡ some content
  unfolding get find_object full_key
  get-store_after = ground (arith, text_eq_refl (full_key b.store key_of))

  -- An upload that is not empty, by a principal whose tenant has a name. If the object store raises,
  -- the exception leaves the route and neither the bucket nor the table has changed: no job is
  -- queued for bytes that are not there. Otherwise the bytes can be read from the bucket under the
  -- key, and either the job of the reply, as the same principal then reads it, is queued for that
  -- key alone, or the reply is 503 with the message of the error, and the new job is a failed one
  -- with that error.
  pub upload-IsStaged :
      is_empty content ≡ false
      → is_empty p.org_id ≡ false
      → All (λ x. x.job_id < b.jobs.next_id) b.jobs.rows
      → IsStaged client st p
          (content_key digest p.org_id (upload_name filename) content)
          content
          now
          b
          (upload digest client st ecs now p filename content b)
  unfolding IsStaged upload_reply fail
  upload-IsStaged filled named h =
      let row = queued_row b.jobs.next_id p.org_id (key_of ∷ []) none in
      let (d, after) = dispatch_index_job st ecs now (key_of ∷ []) (some p.org_id) b.jobs in
      let (number, outcome) = dispatch-row st ecs now (key_of ∷ []) p.org_id b.jobs named h in
      elim (Option-cases (client (full_key b.store key_of) content)) [
        | inr (e, broken) ↦
            subst (IsStaged client st p key_of content now b) (sym (upload-raised e filled broken))
              (inl (e, broken, refl, refl))
        | inl works ↦
            subst (IsStaged client st p key_of content now b) (sym (upload-dispatched filled works))
              (inr (
                get-store_after,
                elim outcome [
                  | inl (e, there) ↦ inl (
                    record {
                      job_id = d.job_id;
                      runner = d.runner;
                      uri = object_of.uri;
                      checksum = object_of.checksum;
                    },
                    ap (λ x. upload_reply object_of d (non_empty x)) e,
                    ap (λ n. job_status st p n after) number
                        ∙ job_status-org_id st p b.jobs.next_id after row there refl,
                  )
                  | inr (m, e, there) ↦ inr (
                    m,
                    ap (upload_reply object_of d) e,
                    job_status-org_id st p b.jobs.next_id after (fail now m row) there refl,
                  )
                ],
              ))
      ]
