-- ===== src/Runner/Api/Submits/Effects.antt =====
-- What a submission leaves of the table and the queue.
use ai_ops_runner.Base.{
  Bool-cases, All, All-append, ◌==◌, string_eq, beq_refl, String, ◌≡◌, refl, sym, ap, ◌∙◌, subst,
  inl, inr, Option, none, some, List, [], ◌∷◌, ◌++◌, arith,
}
use mathlib.Core.Option.{some-injective}
use ai_ops_runner.Runner.Models.{JobRecord, JobStatus}
use ai_ops_runner.Runner.Allowlist.{AllowedJob}
use ai_ops_runner.Runner.Store.{Table, get_job, has_key, get_by_key, conflict}
use ai_ops_runner.Runner.Store.Rows.{IsUnique, append-IsUnique, get-append}
use ai_ops_runner.Runner.Api.{
  SubmitJobRequest, Service, Surroundings, SubmitResponse, submitted, submit_job,
}
use ai_ops_runner.Runner.Api.Submits.{
  Submission, IsNewRow, new_job, known_job, turned_away, failed, left_behind, submit_job-Submission,
}

-- ids and keys are unique, and every id in the queue has its row
abbrev pub HasRow : Table → String → Type 0
HasRow t id = (j : JobRecord) × (get_job t id ≡ some j)

abbrev pub WellFormed : Service → Type 0
WellFormed s = IsUnique s.table × All (HasRow s.table) s.queue

HasRow-append : (t : Table) (j : JobRecord) (id : String) → HasRow t id → HasRow (t ++ j ∷ []) id
HasRow-append t j id (x, e) = (x, get-append t j id ∙ rw e refl)

HasRow-last :
    (t : Table) (j : JobRecord) → get_job t j.job_id ≡ none → HasRow (t ++ j ∷ []) j.job_id
HasRow-last t j free = (j, get-append t j j.job_id ∙ ground (arith, free, beq_refl j.job_id))

HasRow-grows :
    (t : Table) (j : JobRecord) (q : List String) → All (HasRow t) q → All (HasRow (t ++ j ∷ [])) q
HasRow-grows t j [] h = tt
HasRow-grows t j (id ∷ q) h = (HasRow-append t j id h.0, HasRow-grows t j q h.1)

-- the row that a key finds is found by its id too
HasRow-get_by_key :
    (t : Table) (k : String) (old : JobRecord) → get_by_key t k ≡ some old → HasRow t old.job_id
unfolding get_by_key get_job
HasRow-get_by_key [] k old h = cc
HasRow-get_by_key (x ∷ t) k old h = elim (Bool-cases (has_key k x)) [
  | inl e ↦
      let same : x ≡ old = some-injective x old (ground (arith, e, h)) in
      (x, rw (ap (λ (y : JobRecord). x.job_id == y.job_id) (sym same) ∙ beq_refl x.job_id) refl)
  | inr e ↦
      let later = HasRow-get_by_key t k old (ground (arith, e, h)) in
      elim (Bool-cases (x.job_id == old.job_id)) [
        | inl y ↦ (x, ground (arith, y))
        | inr y ↦ (later.0, ground (arith, y, later.1))
      ]
]

HasRow-conflict :
    (t : Table) (key : Option String) (old : JobRecord)
    → conflict t key ≡ some old
    → HasRow t old.job_id
unfolding conflict
HasRow-conflict t none old h = cc
HasRow-conflict t (some k) old h = HasRow-get_by_key t k old h

id_of : String → SubmitResponse → String
id_of d (submitted id dir st) = id
id_of d _ = d

status_of : JobStatus → SubmitResponse → JobStatus
status_of d (submitted id dir st) = st
status_of d _ = d

module _ (w : Surroundings) (req : SubmitJobRequest) (s : Service) where
  row-free :
      (a : AllowedJob) (j : JobRecord)
      → IsNewRow w req a j
      → get_job s.table w.new_job_id ≡ none
      → get_job s.table j.job_id ≡ none
  row-free a j row free = ap (get_job s.table) row.id ∙ free

  row-key :
      (a : AllowedJob) (j : JobRecord)
      → IsNewRow w req a j
      → conflict s.table req.idempotency_key ≡ none
      → conflict s.table j.idempotency_key ≡ none
  row-key a j row key = ap (conflict s.table) row.key ∙ key

  Submission-WellFormed :
      (out : SubmitResponse × Service) → Submission w req s out → WellFormed s → WellFormed out.1
  Submission-WellFormed out (new_job a c j files v key free row params) (u, q) =
      let own = row-free a j row free in
      (
        append-IsUnique s.table j u own (row-key a j row key),
        All-append _ s.queue _ (HasRow-grows s.table j s.queue q)
            (subst (HasRow (s.table ++ j ∷ [])) row.id (HasRow-last s.table j own), tt),
      )
  Submission-WellFormed out (left_behind a c j files down v key free row) (u, q) = (
    append-IsUnique s.table j u (row-free a j row free) (row-key a j row key),
    HasRow-grows s.table j s.queue q,
  )
  Submission-WellFormed out (known_job a c old files v key params) (u, q) =
      (u, All-append _ s.queue _ q (HasRow-conflict s.table req.idempotency_key old key, tt))
  Submission-WellFormed out (turned_away r c u) h = h
  Submission-WellFormed out (failed files c u) h = h

  -- A submission keeps job ids and idempotency keys unique in the table and gives every id in the
  -- queue its row.
  pub submit_job-WellFormed : WellFormed s → WellFormed (submit_job w req s).1
  submit_job-WellFormed = Submission-WellFormed (submit_job w req s) (submit_job-Submission w req s)

  Submission-resubmitted :
      (old : JobRecord) (id dir : String) (st : JobStatus) (out : SubmitResponse × Service)
      → Submission w req s out
      → conflict s.table req.idempotency_key ≡ some old
      → out.0 ≡ submitted id dir st
      → (id ≡ old.job_id)
        × (st ≡ old.status)
        × (out.1.table ≡ s.table)
        × (out.1.queue ≡ s.queue ++ old.job_id ∷ [])
  unfolding id_of status_of
  Submission-resubmitted old id dir st out (new_job a c j files v key free row params) taken e = cc
  Submission-resubmitted old id dir st out (known_job a c row files v key params) taken e =
      let same : row ≡ old = some-injective row old (sym key ∙ taken) in
      (
        sym (ap (id_of id) e) ∙ ap (λ (j : JobRecord). j.job_id) same,
        sym (ap (status_of st) e) ∙ ap (λ (j : JobRecord). j.status) same,
        refl,
        ap (λ (j : JobRecord). s.queue ++ j.job_id ∷ []) same,
      )
  Submission-resubmitted old id dir st out (turned_away r c u) taken e = cc
  Submission-resubmitted old id dir st out (failed files c u) taken e = cc
  Submission-resubmitted old id dir st out (left_behind a c j files down v key free row) taken e =
      cc

  -- When the idempotency key of an answered submission belongs to a row, in whatever status, the
  -- answer is that row's id and status, the table stays, and the row's id is queued once more.
  pub resubmitted_queues_again :
      (old : JobRecord) (id dir : String) (st : JobStatus)
      → conflict s.table req.idempotency_key ≡ some old
      → (submit_job w req s).0 ≡ submitted id dir st
      → (id ≡ old.job_id)
        × (st ≡ old.status)
        × ((submit_job w req s).1.table ≡ s.table)
        × ((submit_job w req s).1.queue ≡ s.queue ++ old.job_id ∷ [])
  resubmitted_queues_again old id dir st =
      Submission-resubmitted old id dir st (submit_job w req s) (submit_job-Submission w req s)
