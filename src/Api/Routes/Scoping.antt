-- ===== src/Api/Routes/Scoping.antt =====
-- What a principal sees of the job table and of the audit trail (src/finance_rag/api/app.py).
use finance_rag.Prelude.{
  ℕ, ◌≡◌, ◌≢◌, refl, inl, inr, Bool, true, false, Option, none, some, List, [], ◌∷◌, ◌==◌,
  if◌then◌else◌, keep, keep-keep, is_empty, All, All-keep, arith, Bool-cases, ap, ◌∙◌, and_right,
  sym, subst,
}
use finance_rag.Text.{Text, text_eq}
use finance_rag.Config.{Settings}
use finance_rag.Agent.Roles.{non_empty}
use finance_rag.Api.Auth.{Principal}
use finance_rag.Audits.{StoredAudit, column_is, condition, audit_selected, recent_audits}
use finance_rag.Pipeline.Jobs.{Job, Jobs, find_row}
use finance_rag.Api.Routes.{job_selected, list_jobs, jobs, shown, job_status, audit}

-- The numbers of the rows differ: `job_id` is the primary key.
abbrev pub IsNumbered : List Job → Type 0
IsNumbered [] = Unit
IsNumbered (j ∷ js) = All (λ k. k.job_id ≢ j.job_id) js × IsNumbered js

-- The row is the principal's tenant's.
abbrev own_job : Principal → Job → Bool
own_job p j = text_eq j.org_id p.org_id

-- The table with the rows of the principal's tenant only.
abbrev pub own_jobs : Principal → Jobs → Jobs
own_jobs p js = record js { rows = keep (own_job p) js.rows }

-- The rows of the trail that name the principal's tenant.
abbrev pub own_trail : {F : Type 0} → Principal → List (StoredAudit F) → List (StoredAudit F)
own_trail p trail = keep (λ a. column_is a.written.org_id p.org_id) trail

non_empty-some : (s : Text) → is_empty s ≡ false → non_empty (some s) ≡ some s
non_empty-some [] h = ground arith
non_empty-some (c ∷ s) h = refl

find_row-none : (n : ℕ) (js : List Job) → All (λ k. k.job_id ≢ n) js → find_row n js ≡ none
unfolding find_row
find_row-none n [] h = refl
find_row-none n (j ∷ js) h = let differs = h.0 in ground (arith, find_row-none n js h.1)

-- The row if it passes the test.
abbrev passing : (Job → Bool) → Option Job → Option Job
passing q none = none
passing q (some j) = if q j then some j else none

find_row-keep :
    (q : Job → Bool) (n : ℕ) (js : List Job)
    → IsNumbered js
    → find_row n (keep q js) ≡ passing q (find_row n js)
unfolding find_row
find_row-keep q n [] h = refl
find_row-keep q n (j ∷ js) h =
    let rest = find_row-keep q n js h.1 in
    elim (Bool-cases (j.job_id == n)) [
      | inr e ↦ elim (Bool-cases (q j)) [ inl m ↦ rw (m, e) rest | inr m ↦ rw (m, e) rest ]
      | inl e ↦
          let same : j.job_id ≡ n = ground arith in
          let others = subst (λ k. All (λ x. x.job_id ≢ k) js) same h.0 in
          let absent = find_row-none n (keep q js) (All-keep (λ k. k.job_id ≢ n) q js others) in
          elim (Bool-cases (q j)) [ inl m ↦ rw (m, e, m) refl | inr m ↦ rw (m, e, m) absent ]
    ]

shown-passing :
    (st : Settings) (p : Principal) (o : Option Job)
    → st.enforce_tenancy ≡ true
    → shown st p o ≡ shown st p (passing (own_job p) o)
unfolding shown
shown-passing st p none enforced = refl
shown-passing st p (some j) enforced = elim (Bool-cases (own_job p j)) [
  | inl m ↦ rw (m, m) refl
  | inr m ↦ rw (enforced, m) refl
]

job_status-own :
    (st : Settings) (p : Principal) (n : ℕ) (js : Jobs)
    → st.enforce_tenancy ≡ true
    → IsNumbered js.rows
    → job_status st p n js ≡ job_status st p n (own_jobs p js)
unfolding job_status
job_status-own st p n js enforced numbered =
    shown-passing st p (find_row n js.rows) enforced
    ∙ ap (shown st p) (sym (find_row-keep (own_job p) n js.rows numbered))

jobs-own :
    (created_at : ℕ → ℕ) (p : Principal) (limit : ℕ) (js : Jobs)
    → is_empty p.org_id ≡ false
    → jobs created_at p limit js ≡ jobs created_at p limit (own_jobs p js)
unfolding jobs list_jobs job_selected
jobs-own created_at p limit js named =
    let same = keep-keep (job_selected (some p.org_id)) (own_job p) js.rows (λ x passes.
      subst (λ o. elim o [ none ↦ true | some v ↦ text_eq x.org_id v ] ≡ true)
        (non_empty-some p.org_id named) passes) in
    rw same refl

audit-own :
    {F : Type 0} (st : Settings) (p : Principal) (limit : ℕ) (thread_id : Option Text)
    (trail : List (StoredAudit F))
    → st.enforce_tenancy ≡ true
    → is_empty p.org_id ≡ false
    → audit st p limit thread_id trail ≡ audit st p limit thread_id (own_trail p trail)
unfolding audit recent_audits audit_selected condition
audit-own st p limit thread_id trail enforced named =
    let same =
      keep-keep (audit_selected thread_id (some p.org_id))
        (λ a. column_is a.written.org_id p.org_id) trail
        (λ x passes.
          subst (λ o. elim o [ none ↦ true | some v ↦ column_is x.written.org_id v ] ≡ true)
            (non_empty-some p.org_id named)
            (and_right (condition thread_id x.written.thread_id)
              (condition (some p.org_id) x.written.org_id) passes)) in
    rw (enforced, same) refl

-- With tenancy enforced, a principal whose tenant has a name gets from `job_status`, `jobs` and
-- `audit` what the three would return if the table and the trail held the rows of that tenant and
-- no others, so that no row of another tenant, and no row of the trail without one, shows in a
-- reply, not even by its number.
pub routes-own :
    {F : Type 0} (st : Settings) (created_at : ℕ → ℕ) (p : Principal) (n limit : ℕ)
    (thread_id : Option Text) (js : Jobs) (trail : List (StoredAudit F))
    → st.enforce_tenancy ≡ true
    → is_empty p.org_id ≡ false
    → IsNumbered js.rows
    → (job_status st p n js ≡ job_status st p n (own_jobs p js))
      × (jobs created_at p limit js ≡ jobs created_at p limit (own_jobs p js))
      × (audit st p limit thread_id trail ≡ audit st p limit thread_id (own_trail p trail))
routes-own st created_at p n limit thread_id js trail enforced named numbered = (
  job_status-own st p n js enforced numbered,
  jobs-own created_at p limit js named,
  audit-own st p limit thread_id trail enforced named,
)
