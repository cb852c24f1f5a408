-- ===== src/Runner/Store.antt =====
-- db.py of services/test_runner: the `jobs` table of migrations/001_init.sql and the queue of ids.
pub mod Rows
use ai_ops_runner.Base.{
  if◌then◌else◌, is_some, ◌==◌, string_eq, String, Bool, false, Option, none, some, List, [], ◌∷◌,
  ◌++◌,
}
use ai_ops_runner.Runner.Models.{JobRecord}

-- the rows of `jobs`: `job_id` is its primary key, `idempotency_key` is unique where it is set
abbrev pub Table : Type 0
Table = List JobRecord

-- `get_job` by job id
unfoldable pub get_job : Table → String → Option JobRecord
get_job [] id = none
get_job (j ∷ t) id = let rest = get_job t id in if j.job_id == id then some j else rest

unfoldable pub has_key : String → JobRecord → Bool
has_key k j = elim j.idempotency_key [ none ↦ false | some i ↦ i == k ]

-- `get_job` by idempotency key
unfoldable pub get_by_key : Table → String → Option JobRecord
unfolding has_key
get_by_key [] k = none
get_by_key (j ∷ t) k = let rest = get_by_key t k in if has_key k j then some j else rest

-- `ON CONFLICT (idempotency_key) WHERE idempotency_key IS NOT NULL`
unfoldable pub conflict : Table → Option String → Option JobRecord
unfolding get_by_key
conflict t none = none
conflict t (some k) = get_by_key t k

pub data Inserted : Type 0 where
  inserted existing : JobRecord → Inserted
  duplicate_id : Inserted

insert_new : Table → JobRecord → Inserted × Table
insert_new t j =
    if is_some (get_job t j.job_id) then (duplicate_id, t) else (inserted j, t ++ j ∷ [])

on_conflict : Option JobRecord → Table → JobRecord → Inserted × Table
unfolding insert_new
on_conflict none t j = insert_new t j
on_conflict (some old) t j = (existing old, t)

-- `insert_job`; `duplicate_id` is the error of the primary key
unfoldable pub insert_job : Table → JobRecord → Inserted × Table
unfolding on_conflict
insert_job t j = on_conflict (conflict t j.idempotency_key) t j

-- `update_job`: the fields that the keywords set, as a function on rows
unfoldable pub update_job : Table → String → (JobRecord → JobRecord) → Table
update_job [] id set = []
update_job (j ∷ t) id set =
    let rest = update_job t id set in if j.job_id == id then set j ∷ rest else j ∷ rest

-- `enqueue_job`: RPUSH
unfoldable pub enqueue_job : List String → String → List String
enqueue_job q id = q ++ id ∷ []

-- `dequeue_job`: BLPOP, `none` after the time-out
unfoldable pub dequeue_job : List String → Option String × List String
dequeue_job [] = (none, [])
dequeue_job (id ∷ q) = (some id, q)
