-- ===== src/Jobs.antt =====
-- stellance/backend/src/jobs/jobs.service.ts: the jobs on the marketplace.
pub mod Controller
pub mod Owner
mod Tests
use stellances.Table.{select, has, find, update}
use stellances.World.{Env, World}
use stellances.World.Action.{
  Action, ◌>>=◌, Done, ◌>>◌, draw_uuid, or_throw, throw_if, gets, truthy, pure, ok, err,
  unique_violation, forbidden, not_found, record_missing, bad_request,
}
use stellances.Base.{
  none, some, true, false, ◌∷◌, Option, String, ℕ, Bool, ◌&&◌, nat_eq, ◌==◌, if◌then◌else◌, ◌||◌,
  not, leb, ◌<>◌,
}
use stellances.Schema.{
  Job, Contract, JobStatus, UserRole, RowId, job_key, user_key, contract_job, Number, decimal_7,
}
use stellances.Contracts.Loading.{Party, party, is_admin}
use stellances.Contracts.Create.{update_job_status, set_job_status}
use stellances.Paging.{Paging, Page, paged}

pub record CreateJobDto : Type 0 where
  pub title : String
  pub description : String
  pub budget : Number
  pub category : String

abbrev pub new_job : RowId → RowId → CreateJobDto → Job
new_job id client_id dto = record {
  id = id;
  title = dto.title;
  description = dto.description;
  budget = decimal_7 dto.budget;
  category = dto.category;
  status = JobStatus.open_job;
  client_id = client_id;
}

-- `prisma.job.create`
unfoldable pub insert_job : Job → Action Done
insert_job j w =
    if has job_key j.id w.db.jobs
    then (err unique_violation, w)
    else (ok tt, record w { db = record (w.db) { jobs = j ∷ w.db.jobs } })

-- `create`
unfoldable pub create : Env → RowId → CreateJobDto → Action Job
unfolding insert_job
create env client_id dto = do
  id ← draw_uuid env
  insert_job (new_job id client_id dto)
  pure (new_job id client_id dto)

abbrev status_number : JobStatus → ℕ
status_number JobStatus.open_job = 0
status_number JobStatus.in_progress = 1
status_number JobStatus.completed = 2
status_number JobStatus.cancelled = 3

abbrev pub has_status : JobStatus → Job → Bool
has_status s j = nat_eq (status_number j.status) (status_number s)

abbrev status_name : JobStatus → String
status_name JobStatus.open_job = "OPEN"
status_name JobStatus.in_progress = "IN_PROGRESS"
status_name JobStatus.completed = "COMPLETED"
status_name JobStatus.cancelled = "CANCELLED"

pub record JobFilters : Type 0 where
  pub status : Option JobStatus
  pub client_id : Option String
  pub search : Option String
  pub min_budget : Option ℕ
  pub max_budget : Option ℕ

-- The `where` of `findAll`. `contains text search` is the database's test, which does not tell small
-- letters from capitals; an empty search is none.
unfoldable pub matches : (String → String → Bool) → JobFilters → Job → Bool
matches contains f j =
    elim f.status [ none ↦ true | some s ↦ has_status s j ]
    && elim f.client_id [ none ↦ true | some c ↦ j.client_id == c ]
    && elim (truthy f.search) [ none ↦ true | some s ↦ contains j.title s || contains j.category s ]
    && elim f.min_budget [ none ↦ true | some n ↦ leb n j.budget ]
    && elim f.max_budget [ none ↦ true | some n ↦ leb j.budget n ]

-- a job with its relations
pub record LoadedJob : Type 0 where
  pub row : Job
  pub client : Party
  pub contract : Option Contract

-- `findAll`, without the relations of the rows
unfoldable pub find_all : (String → String → Bool) → JobFilters → Paging → World → Page Job
find_all contains f p w = paged p (select (matches contains f) w.db.jobs)

-- `findOne`
unfoldable pub find_one : RowId → Action LoadedJob
find_one id = do
  job ←
      or_throw (← gets (λ w. find job_key id w.db.jobs)) (not_found ("Job " <> id <> " not found"))
  owner ← or_throw (← gets (λ w. find user_key job.client_id w.db.users)) record_missing
  contract ← gets (λ w. find contract_job id w.db.contracts)
  pure (record { row = job; client = party owner; contract = contract })

pub record UpdateJobDto : Type 0 where
  pub title : Option String
  pub description : Option String
  pub budget : Option Number
  pub category : Option String

abbrev is_some {ℓ} : {A : Type ℓ} → Option A → Bool
is_some none = false
is_some (some _) = true

abbrev or_else {ℓ} : {A : Type ℓ} → Option A → A → A
or_else none a = a
or_else (some b) a = b

abbrev kept : ℕ → Option Number → ℕ
kept old none = old
kept old (some n) = decimal_7 n

abbrev pub change_job : UpdateJobDto → Job → Job
change_job d j = record j {
  title = or_else d.title j.title;
  description = or_else d.description j.description;
  budget = kept j.budget d.budget;
  category = or_else d.category j.category;
}

-- `prisma.job.update` of the texts and the budget
unfoldable pub save_job : RowId → UpdateJobDto → Action Done
save_job id d w =
    if has job_key id w.db.jobs
    then (
      ok tt,
      record w { db = record (w.db) { jobs = update job_key id (change_job d) w.db.jobs } },
    )
    else (err record_missing, w)

-- The checks of `update`.
unfoldable pub check_update : RowId → String → UserRole → Action LoadedJob
unfolding find_one
check_update id caller_id caller_role = do
  job ← find_one id
  throw_if (not (job.row.client_id == caller_id) && not (is_admin caller_role))
      (forbidden "Only the job owner can update this job")
  throw_if (not (has_status JobStatus.open_job job.row))
      (bad_request "Only OPEN jobs can be updated")
  pure job

-- `update`
unfoldable pub update_job : RowId → String → UserRole → UpdateJobDto → Action Job
unfolding check_update save_job
update_job id caller_id caller_role dto = do
  job ← check_update id caller_id caller_role
  save_job id dto
  pure (change_job dto job.row)

-- The checks of `cancel`.
unfoldable pub check_cancel : RowId → String → UserRole → Action LoadedJob
unfolding find_one
check_cancel id caller_id caller_role = do
  job ← find_one id
  throw_if (not (job.row.client_id == caller_id) && not (is_admin caller_role))
      (forbidden "Only the job owner can cancel this job")
  throw_if (has_status JobStatus.completed job.row || has_status JobStatus.cancelled job.row)
      (bad_request ("Job is already " <> status_name job.row.status))
  throw_if (is_some job.contract) (bad_request "Cannot cancel a job that has an active contract")
  pure job

-- `cancel`
unfoldable pub cancel : RowId → String → UserRole → Action Job
unfolding check_cancel update_job_status
cancel id caller_id caller_role = do
  job ← check_cancel id caller_id caller_role
  update_job_status id JobStatus.cancelled
  pure (set_job_status JobStatus.cancelled job.row)
