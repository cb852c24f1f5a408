-- ===== src/Runner/Api/Submits.antt =====
-- Every way that `submit_job` can end.
pub mod Effects
use ai_ops_runner.Base.{
  Bool-cases, Option-cases, get_or, all, All, string_eq, contains, String, ◌≡◌, refl, sym, ap, ◌∙◌,
  subst, ◌≢◌, ◌⊎◌, inl, inr, Bool, true, false, Option, none, some, List, [], ◌∷◌, ◌++◌, arith,
  unlisted_none, listed_all,
}
use ai_ops_runner.Base.Dict
use ai_ops_runner.Base.Dict.{Dict}
use ai_ops_runner.Runner.Models.{JobRecord, JobStatus, queued}
use ai_ops_runner.Runner.Allowlist.{
  AllowedJob, Cache, Resolved, resolved, not_allowlisted, unreadable, crashed, resolve_job,
}
use ai_ops_runner.Runner.Repos.{
  AllowedRepo, ConfigError, not_found, invalid, missing_repos, repos_not_mapping, missing_url,
  url_not_text, not_iterable, Checked, allowed, empty_url, repo_not_allowed, repo_name_mismatch,
  bad_config, validate_repo,
}
use ai_ops_runner.Runner.Repos.Listed.{IsAccepted, validate_repo-IsAccepted}
use ai_ops_runner.Runner.Store.{
  Table, get_job, conflict, enqueue_job, Inserted, inserted, existing, duplicate_id,
}
use ai_ops_runner.Runner.Store.Rows.{
  insert_job-existing, insert_job-inserted, insert_job-duplicate_id,
}
use ai_ops_runner.Runner.Api.{
  SubmitJobRequest, Service, Surroundings, Refusal, SubmitResponse, submitted, refused,
  server_error, RepoVerdict, passed, raised, stopped, repo_verdict, check_repo, invalid_params,
  new_record, write_params, answered, accept, on_inserted, create, on_params, on_repo, on_resolved,
  submit_job,
}

-- the repository check was not wanted, or it has found the repository on the list
abbrev pub IsCleared : Surroundings → SubmitJobRequest → AllowedJob → Type 0
IsCleared w req a =
    (a.requires_repo_allowlist ≡ false)
    ⊎ ((r : AllowedRepo) × IsAccepted w.repo_allowlist req.remote_url (some req.repo_name) r)

-- the job type, the repository and the parameters of the request are all allowed
abbrev pub IsVetted : Surroundings → SubmitJobRequest → Service → AllowedJob → Type 0
IsVetted w req s a =
    ((resolve_job w.loader w.job_allowlist req.job_type s.cache).0 ≡ resolved a)
    × IsCleared w req a
    × All (λ k. contains a.allowed_params k ≡ true) (Dict.keys (get_or req.params []))

-- What keeps a request from being vetted: its job type is not on the list, the list wants a repository
-- check that allows nothing, or a parameter is not allowed.
pub data Unfit (w : Surroundings) (req : SubmitJobRequest) (s : Service) : Type 0 where
  unknown_job :
      ((a : AllowedJob)
        → (resolve_job w.loader w.job_allowlist req.job_type s.cache).0 ≢ resolved a)
      → Unfit w req s
  repo_stopped :
      (a : AllowedJob)
      → ((resolve_job w.loader w.job_allowlist req.job_type s.cache).0 ≡ resolved a)
      → (a.requires_repo_allowlist ≡ true)
      → ((r : AllowedRepo)
          → validate_repo w.repo_allowlist req.remote_url (some req.repo_name) ≢ allowed r)
      → Unfit w req s
  param_stopped :
      (a : AllowedJob)
      → ((resolve_job w.loader w.job_allowlist req.job_type s.cache).0 ≡ resolved a)
      → ¬ (All (λ k. contains a.allowed_params k ≡ true) (Dict.keys (get_or req.params [])))
      → Unfit w req s

-- what makes a vetted request fail and leaves the table alone: Redis, or a new id that has a row
abbrev pub IsUnlucky : Surroundings → Service → Type 0
IsUnlucky w s = (w.queue_ok ≡ false) ⊎ ((x : JobRecord) × (get_job s.table w.new_job_id ≡ some x))

-- a row that waits, with what the request asks for and what the allowlist gives for it
pub record IsNewRow (w : Surroundings) (req : SubmitJobRequest) (a : AllowedJob) (j : JobRecord)
    : Type 0 where
  pub id : j.job_id ≡ w.new_job_id
  repo : (j.repo_name ≡ req.repo_name) × (j.remote_url ≡ req.remote_url) × (j.sha ≡ req.sha)
  job_type : j.job_type ≡ req.job_type
  command : j.argv ≡ a.argv
  time_limit : j.timeout_sec ≡ a.timeout_sec
  waiting : j.status ≡ queued
  pub key : j.idempotency_key ≡ req.idempotency_key
  unstarted : (j.started_at ≡ none) × (j.finished_at ≡ none) × (j.exit_code ≡ none)
  dir : j.artifact_dir ≡ some (w.artifact_dir w.new_job_id)
  created : j.created_at ≡ some w.now

-- the files of parameters after a request: those of the new id are written if there are any
unfoldable pub HasParams :
    String → Option (Dict String) → Dict (Dict String) → Dict (Dict String) → Type 0
HasParams id none before after = after ≡ before
HasParams id (some []) before after = after ≡ before
HasParams id (some (p ∷ ps)) before after = after ≡ Dict.put before id (p ∷ ps)

pub data Submission (w : Surroundings) (req : SubmitJobRequest) (s : Service)
    : SubmitResponse × Service → Type 0 where
  new_job :
      (a : AllowedJob) (c : Cache) (j : JobRecord) (files : Dict (Dict String))
      → IsVetted w req s a
      → conflict s.table req.idempotency_key ≡ none
      → get_job s.table w.new_job_id ≡ none
      → IsNewRow w req a j
      → HasParams w.new_job_id req.params s.params_files files
      → Submission w req s (
        submitted w.new_job_id (w.artifact_dir w.new_job_id) queued,
        record {
          table = s.table ++ j ∷ [];
          queue = s.queue ++ w.new_job_id ∷ [];
          params_files = files;
          cache = c;
        },
      )
  known_job :
      (a : AllowedJob) (c : Cache) (old : JobRecord) (files : Dict (Dict String))
      → IsVetted w req s a
      → conflict s.table req.idempotency_key ≡ some old
      → HasParams w.new_job_id req.params s.params_files files
      → Submission w req s (
        submitted old.job_id (get_or old.artifact_dir (w.artifact_dir w.new_job_id)) old.status,
        record {
          table = s.table;
          queue = s.queue ++ old.job_id ∷ [];
          params_files = files;
          cache = c;
        },
      )
  turned_away :
      (r : Refusal) (c : Cache)
      → Unfit w req s
      → Submission w req s (refused r, record s { cache = c })
  failed :
      (files : Dict (Dict String)) (c : Cache)
      → Unfit w req s ⊎ IsUnlucky w s
      → Submission w req s (server_error, record s { params_files = files; cache = c })
  left_behind :
      (a : AllowedJob) (c : Cache) (j : JobRecord) (files : Dict (Dict String))
      → w.queue_ok ≡ false
      → IsVetted w req s a
      → conflict s.table req.idempotency_key ≡ none
      → get_job s.table w.new_job_id ≡ none
      → IsNewRow w req a j
      → Submission w req s
          (server_error, record s { table = s.table ++ j ∷ []; params_files = files; cache = c })

write_params-HasParams :
    (id : String) (params : Option (Dict String)) (files : Dict (Dict String))
    → HasParams id params files (write_params id params files)
unfolding write_params HasParams
write_params-HasParams id none files = refl
write_params-HasParams id (some []) files = refl
write_params-HasParams id (some (p ∷ ps)) files = refl

new_record-IsNewRow :
    (w : Surroundings) (req : SubmitJobRequest) (a : AllowedJob)
    → IsNewRow w req a (new_record w req a)
unfolding new_record
new_record-IsNewRow w req a = record {
  id = refl;
  repo = (refl, refl, refl);
  job_type = refl;
  command = refl;
  time_limit = refl;
  waiting = refl;
  key = refl;
  unstarted = (refl, refl, refl);
  dir = refl;
  created = refl;
}

invalid_params-nil :
    (params : Option (Dict String)) (names : List String)
    → invalid_params params names ≡ []
    → All (λ k. contains names k ≡ true) (Dict.keys (get_or params []))
unfolding invalid_params
invalid_params-nil none names h = tt
invalid_params-nil (some d) names h = unlisted_none names (Dict.keys d) h

repo_verdict-passed : (c : Checked) → repo_verdict c ≡ passed → (r : AllowedRepo) × (c ≡ allowed r)
unfolding repo_verdict
repo_verdict-passed (allowed r) h = (r, refl)
repo_verdict-passed empty_url h = cc
repo_verdict-passed repo_not_allowed h = cc
repo_verdict-passed repo_name_mismatch h = cc
repo_verdict-passed (bad_config not_found) h = cc
repo_verdict-passed (bad_config invalid) h = cc
repo_verdict-passed (bad_config missing_repos) h = cc
repo_verdict-passed (bad_config repos_not_mapping) h = cc
repo_verdict-passed (bad_config (missing_url n)) h = cc
repo_verdict-passed (bad_config (url_not_text n)) h = cc
repo_verdict-passed (bad_config not_iterable) h = cc

check_repo-IsCleared :
    (w : Surroundings) (req : SubmitJobRequest) (a : AllowedJob)
    → check_repo w req a ≡ passed
    → IsCleared w req a
unfolding check_repo
check_repo-IsCleared w req a h = elim (Bool-cases a.requires_repo_allowlist) [
  | inr e ↦ inl e
  | inl e ↦
      let c = validate_repo w.repo_allowlist req.remote_url (some req.repo_name) in
      let ok = repo_verdict-passed c (ground (arith, e, h)) in
      inr (
        ok.0,
        validate_repo-IsAccepted w.repo_allowlist req.remote_url (some req.repo_name) ok.0 ok.1,
      )
]

-- a repository check that does not pass was wanted, and allows nothing
check_repo_stops :
    (w : Surroundings) (req : SubmitJobRequest) (a : AllowedJob)
    → check_repo w req a ≢ passed
    → (a.requires_repo_allowlist ≡ true)
      × ((r : AllowedRepo)
          → validate_repo w.repo_allowlist req.remote_url (some req.repo_name) ≢ allowed r)
unfolding check_repo repo_verdict
check_repo_stops w req a h = elim (Bool-cases a.requires_repo_allowlist) [
  | inr e ↦ absurd (h (ground (arith, e)))
  | inl e ↦ (e, λ r ok. h (rw e (ap repo_verdict ok)))
]

invalid_params-cons :
    (params : Option (Dict String)) (names : List String) (k : String) (ks : List String)
    → invalid_params params names ≡ k ∷ ks
    → ¬ (All (λ j. contains names j ≡ true) (Dict.keys (get_or params [])))
unfolding invalid_params
invalid_params-cons none names k ks h = λ all. cc
invalid_params-cons (some d) names k ks h =
    λ all. let none_bad = sym h ∙ listed_all names (Dict.keys d) all in cc

module _ (w : Surroundings) (req : SubmitJobRequest) (s : Service) (c : Cache) where
  -- the rest of `create`, once the database has answered
  placed : Inserted × Table → SubmitResponse × Service
  placed p = on_inserted w p.0 record s {
    table = p.1;
    params_files = write_params w.new_job_id req.params s.params_files;
    cache = c;
  }

  files : Dict (Dict String)
  files = write_params w.new_job_id req.params s.params_files

  inserted-Submission :
      (a : AllowedJob) (b : Bool)
      → w.queue_ok ≡ b
      → IsVetted w req s a
      → conflict s.table req.idempotency_key ≡ none
      → get_job s.table w.new_job_id ≡ none
      → Submission w req s (
          answered b w (new_record w req a) record s {
            table = s.table ++ new_record w req a ∷ [];
            params_files = files;
            cache = c;
          })
  unfolding answered enqueue_job new_record files
  inserted-Submission a true e v key free =
      new_job a c (new_record w req a) files v key free (new_record-IsNewRow w req a)
        (write_params-HasParams w.new_job_id req.params s.params_files)
  inserted-Submission a false e v key free =
      left_behind a c (new_record w req a) files e v key free (new_record-IsNewRow w req a)

  existing-Submission :
      (a : AllowedJob) (b : Bool) (old : JobRecord)
      → w.queue_ok ≡ b
      → IsVetted w req s a
      → conflict s.table req.idempotency_key ≡ some old
      → Submission w req s (answered b w old record s { params_files = files; cache = c })
  unfolding answered enqueue_job files
  existing-Submission a true old e v key =
      known_job a c old files v key (write_params-HasParams w.new_job_id req.params s.params_files)
  existing-Submission a false old e v key = failed files c (inr (inl e))

  create-Submission :
      (a : AllowedJob)
      → IsVetted w req s a
      → Submission w req s (create w req a record s { cache = c })
  unfolding create on_inserted placed new_record accept files
  create-Submission a v = elim (Option-cases (conflict s.table req.idempotency_key)) [
    | inr (old, e) ↦
        subst (Submission w req s)
          (sym (ap placed (insert_job-existing s.table (new_record w req a) old e)))
          (existing-Submission a w.queue_ok old refl v e)
    | inl e ↦ elim (Option-cases (get_job s.table w.new_job_id)) [
      | inl free ↦
          subst (Submission w req s)
            (sym (ap placed (insert_job-inserted s.table (new_record w req a) e free)))
            (inserted-Submission a w.queue_ok refl v e free)
      | inr (x, taken) ↦
          subst (Submission w req s)
            (sym (ap placed (insert_job-duplicate_id s.table (new_record w req a) x e taken)))
            (failed files c (inr (inr (x, taken))))
    ]
  ]

  on_params-Submission :
      (a : AllowedJob) (bad : List String)
      → ((resolve_job w.loader w.job_allowlist req.job_type s.cache).0 ≡ resolved a)
      → IsCleared w req a
      → Path (List String) (invalid_params req.params a.allowed_params) bad
      → Submission w req s (on_params bad w req a record s { cache = c })
  unfolding on_params
  on_params-Submission a [] found clear e =
      create-Submission a (found, clear, invalid_params-nil req.params a.allowed_params e)
  on_params-Submission a (k ∷ ks) found clear e =
      turned_away _ c
        (param_stopped a found (invalid_params-cons req.params a.allowed_params k ks e))

  stopped-Unfit :
      (a : AllowedJob)
      → ((resolve_job w.loader w.job_allowlist req.job_type s.cache).0 ≡ resolved a)
      → check_repo w req a ≢ passed
      → Unfit w req s
  stopped-Unfit a found h = let why = check_repo_stops w req a h in repo_stopped a found why.0 why.1

  on_repo-Submission :
      (a : AllowedJob) (v : RepoVerdict)
      → ((resolve_job w.loader w.job_allowlist req.job_type s.cache).0 ≡ resolved a)
      → check_repo w req a ≡ v
      → Submission w req s (on_repo v w req a record s { cache = c })
  unfolding on_repo
  on_repo-Submission a passed found e =
      on_params-Submission a (invalid_params req.params a.allowed_params) found
        (check_repo-IsCleared w req a e) refl
  on_repo-Submission a (stopped r) found e =
      turned_away r c (stopped-Unfit a found (λ ok. let no = sym e ∙ ok in cc))
  on_repo-Submission a raised found e =
      failed s.params_files c (inl (stopped-Unfit a found (λ ok. let no = sym e ∙ ok in cc)))

  on_resolved-Submission :
      (o : Resolved)
      → (resolve_job w.loader w.job_allowlist req.job_type s.cache).0 ≡ o
      → Submission w req s (on_resolved o w req record s { cache = c })
  unfolding on_resolved
  on_resolved-Submission (resolved a) e = on_repo-Submission a (check_repo w req a) e refl
  on_resolved-Submission (not_allowlisted t) e =
      turned_away _ c (unknown_job (λ a ok. let no = sym e ∙ ok in cc))
  on_resolved-Submission unreadable e =
      turned_away _ c (unknown_job (λ a ok. let no = sym e ∙ ok in cc))
  on_resolved-Submission crashed e =
      failed s.params_files c (inl (unknown_job (λ a ok. let no = sym e ∙ ok in cc)))

-- A submission ends in one of five ways. A vetted request adds one waiting row for a new id, with what
-- it asks for and with the command and the time limit of the allowlist, and queues the id; a vetted
-- request whose idempotency key is taken leaves the table alone and queues the id of the row that has
-- the key; a refusal, for a request that is not vetted, changes nothing but the allowlist's cache; a
-- server error, for a request that is not vetted, a Redis that fails or a new id that has a row,
-- changes neither the table nor the queue; or, when Redis fails after the insertion, the error leaves the new row in the
-- table with its id in no queue.
pub submit_job-Submission :
    (w : Surroundings) (req : SubmitJobRequest) (s : Service)
    → Submission w req s (submit_job w req s)
unfolding submit_job
submit_job-Submission w req s =
    on_resolved-Submission w req s (resolve_job w.loader w.job_allowlist req.job_type s.cache).1
      (resolve_job w.loader w.job_allowlist req.job_type s.cache).0 refl
