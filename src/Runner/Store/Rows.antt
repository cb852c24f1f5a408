-- ===== src/Runner/Store/Rows.antt =====
-- Reads of the table after writes, and its two unique columns.
use ai_ops_runner.Base.{
  if◌then◌else◌, Bool-cases, Option-cases, eq_iff, ◌==◌, string_eq, String, ◌≡◌, refl, ap, ◌∙◌, inl,
  inr, true, false, Option, none, some, [], ◌∷◌, ◌++◌, arith,
}
use mathlib.Core.Option.{some-injective}
use ai_ops_runner.Runner.Models.{JobRecord}
use ai_ops_runner.Runner.Store.{
  Table, get_job, has_key, get_by_key, conflict, inserted, existing, duplicate_id, insert_new,
  on_conflict, insert_job, update_job,
}

-- no two rows share an id, or a key that is set
abbrev pub IsUnique : Table → Type 0
IsUnique [] = Unit {0}
IsUnique (j ∷ t) = (get_job t j.job_id ≡ none) × (conflict t j.idempotency_key ≡ none) × IsUnique t

-- an update that keeps the two unique columns
abbrev pub KeepsKeys : (JobRecord → JobRecord) → Type 0
KeepsKeys set =
    (j : JobRecord) → ((set j).job_id ≡ j.job_id) × ((set j).idempotency_key ≡ j.idempotency_key)

pub get-update_other :
    (t : Table) (id other : String) (set : JobRecord → JobRecord)
    → KeepsKeys set
    → (id == other) ≡ false
    → get_job (update_job t id set) other ≡ get_job t other
unfolding get_job update_job
get-update_other [] id other set keeps e = refl
get-update_other (j ∷ t) id other set keeps e = ground (
  arith,
  e,
  (keeps j).0,
  eq_iff id other,
  eq_iff j.job_id id,
  eq_iff j.job_id other,
  get-update_other t id other set keeps e,
)

pub get-update :
    (t : Table) (id : String) (set : JobRecord → JobRecord) (j : JobRecord)
    → KeepsKeys set
    → get_job t id ≡ some j
    → get_job (update_job t id set) id ≡ some (set j)
unfolding get_job update_job
get-update [] id set j keeps h = cc
get-update (x ∷ t) id set j keeps h = elim (Bool-cases (x.job_id == id)) [
  | inl e ↦
      let same : x ≡ j = some-injective x j (ground (arith, e, h)) in
      let kept : ((set x).job_id == id) ≡ true = ap (λ (i : String). i == id) (keeps x).0 ∙ e in
      ground (arith, e, kept, ap (λ (y : JobRecord). set y) same)
  | inr e ↦ ground (arith, e, get-update t id set j keeps (ground (arith, e, h)))
]

pub get-append :
    (t : Table) (j : JobRecord) (id : String)
    → get_job (t ++ j ∷ []) id
      ≡ elim (get_job t id) [ some x ↦ some x | none ↦ (if j.job_id == id then some j else none) ]
unfolding get_job
get-append [] j id = refl
get-append (x ∷ t) j id = ground (arith, get-append t j id)

get_by_key-append :
    (t : Table) (j : JobRecord) (k : String)
    → get_by_key t k ≡ none
    → has_key k j ≡ false
    → get_by_key (t ++ j ∷ []) k ≡ none
unfolding get_by_key
get_by_key-append [] j k h e = ground (arith, e)
get_by_key-append (x ∷ t) j k h e = ground (arith, e, h, get_by_key-append t j k)

-- a key that the row `j` has and the row `x` has not, asked the other way round
has_key-other :
    (x j : JobRecord) (k : String) (i : Option String)
    → Path (Option String) j.idempotency_key i
    → conflict (x ∷ []) i ≡ none
    → Path (Option String) x.idempotency_key (some k)
    → has_key k j ≡ false
unfolding has_key conflict get_by_key
has_key-other x j k none a b c = rw a refl
has_key-other x j k (some i) a b c = ground (arith, a, b, c, eq_iff i k, eq_iff k i)

conflict-tail :
    (x : JobRecord) (t : Table) (i : Option String)
    → conflict (x ∷ t) i ≡ none
    → (conflict (x ∷ []) i ≡ none) × (conflict t i ≡ none)
unfolding conflict get_by_key
conflict-tail x t none h = (refl, refl)
conflict-tail x t (some k) h = elim (Bool-cases (has_key k x)) [
  | inl e ↦ absurd (ground (arith, e, h))
  | inr e ↦ (ground (arith, e), ground (arith, e, h))
]

conflict-append :
    (x : JobRecord) (t : Table) (j : JobRecord) (i : Option String)
    → Path (Option String) x.idempotency_key i
    → conflict (x ∷ []) j.idempotency_key ≡ none
    → conflict t i ≡ none
    → conflict (t ++ j ∷ []) i ≡ none
unfolding conflict
conflict-append x t j none e a b = refl
conflict-append x t j (some k) e a b =
    get_by_key-append t j k b (has_key-other x j k j.idempotency_key refl a e)

-- a row whose id and key are new keeps the columns unique
pub append-IsUnique :
    (t : Table) (j : JobRecord)
    → IsUnique t
    → get_job t j.job_id ≡ none
    → conflict t j.idempotency_key ≡ none
    → IsUnique (t ++ j ∷ [])
unfolding get_job
append-IsUnique [] j u a b = (refl, b, tt)
append-IsUnique (x ∷ t) j u a b = elim (Bool-cases (x.job_id == j.job_id)) [
  | inl e ↦ absurd (ground (arith, e, a))
  | inr e ↦
      let free = conflict-tail x t j.idempotency_key b in
      (
        get-append t j x.job_id
            ∙ ground (arith, e, u.0, eq_iff x.job_id j.job_id, eq_iff j.job_id x.job_id),
        conflict-append x t j x.idempotency_key refl free.0 u.1,
        append-IsUnique t j u.2 (ground (arith, e, a)) free.1,
      )
]

insert_new-IsUnique :
    (t : Table) (j : JobRecord)
    → IsUnique t
    → conflict t j.idempotency_key ≡ none
    → IsUnique (insert_new t j).1
unfolding insert_new
insert_new-IsUnique t j u free = elim (Option-cases (get_job t j.job_id)) [
  | inl e ↦ rw e (append-IsUnique t j u e free)
  | inr e ↦ rw e.1 u
]

on_conflict-IsUnique :
    (o : Option JobRecord) (t : Table) (j : JobRecord)
    → IsUnique t
    → conflict t j.idempotency_key ≡ o
    → IsUnique (on_conflict o t j).1
unfolding on_conflict
on_conflict-IsUnique none t j u e = insert_new-IsUnique t j u e
on_conflict-IsUnique (some old) t j u e = u

-- whatever is inserted, ids and keys stay unique
pub insert_job-IsUnique : (t : Table) (j : JobRecord) → IsUnique t → IsUnique (insert_job t j).1
unfolding insert_job
insert_job-IsUnique t j u = on_conflict-IsUnique (conflict t j.idempotency_key) t j u refl

update-absent :
    (t : Table) (id other : String) (set : JobRecord → JobRecord)
    → KeepsKeys set
    → get_job t other ≡ none
    → get_job (update_job t id set) other ≡ none
unfolding get_job update_job
update-absent [] id other set keeps h = refl
update-absent (j ∷ t) id other set keeps h =
    let same : ((set j).job_id == other) ≡ (j.job_id == other) =
      ap (λ (i : String). i == other) (keeps j).0 in
    ground (arith, h, same, update-absent t id other set keeps)

has_key-same :
    (k : String) (x y : JobRecord)
    → Path (Option String) x.idempotency_key y.idempotency_key
    → has_key k x ≡ has_key k y
unfolding has_key
has_key-same k x y e = ap (λ (o : Option String). elim o [ none ↦ false | some i ↦ i == k ]) e

conflict-absent :
    (t : Table) (id : String) (i : Option String) (set : JobRecord → JobRecord)
    → KeepsKeys set
    → conflict t i ≡ none
    → conflict (update_job t id set) i ≡ none
unfolding conflict get_by_key update_job
conflict-absent t id none set keeps h = refl
conflict-absent [] id (some k) set keeps h = refl
conflict-absent (j ∷ t) id (some k) set keeps h =
    let same : has_key k (set j) ≡ has_key k j = has_key-same k (set j) j (keeps j).1 in
    ground (arith, h, same, conflict-absent t id (some k) set keeps)

pub update_job-IsUnique :
    (t : Table) (id : String) (set : JobRecord → JobRecord)
    → KeepsKeys set
    → IsUnique t
    → IsUnique (update_job t id set)
unfolding update_job
update_job-IsUnique [] id set keeps u = tt
update_job-IsUnique (j ∷ t) id set keeps u =
    let a = update-absent t id j.job_id set keeps u.0 in
    let b = conflict-absent t id j.idempotency_key set keeps u.1 in
    let rest = update_job-IsUnique t id set keeps u.2 in
    elim (Bool-cases (j.job_id == id)) [
      | inl e ↦ rw e (
        ap (get_job (update_job t id set)) (keeps j).0 ∙ a,
        ap (conflict (update_job t id set)) (keeps j).1 ∙ b,
        rest,
      )
      | inr e ↦ rw e (a, b, rest)
    ]

pub insert_job-existing :
    (t : Table) (j old : JobRecord)
    → conflict t j.idempotency_key ≡ some old
    → insert_job t j ≡ (existing old, t)
unfolding insert_job on_conflict
insert_job-existing t j old e = ap (λ (o : Option JobRecord). on_conflict o t j) e

pub insert_job-inserted :
    (t : Table) (j : JobRecord)
    → conflict t j.idempotency_key ≡ none
    → get_job t j.job_id ≡ none
    → insert_job t j ≡ (inserted j, t ++ j ∷ [])
unfolding insert_job on_conflict insert_new
insert_job-inserted t j e free = ap (λ (o : Option JobRecord). on_conflict o t j) e ∙ rw free refl

pub insert_job-duplicate_id :
    (t : Table) (j x : JobRecord)
    → conflict t j.idempotency_key ≡ none
    → get_job t j.job_id ≡ some x
    → insert_job t j ≡ (duplicate_id, t)
unfolding insert_job on_conflict insert_new
insert_job-duplicate_id t j x e taken =
    ap (λ (o : Option JobRecord). on_conflict o t j) e ∙ rw taken refl
