-- ===== src/Jobs/Controller.antt =====
-- stellance/backend/src/jobs/jobs.controller.ts.
use stellances.Http.Query.{min_budget_query, max_budget_query, search_of}
use stellances.Http.Validation.{checked, valid_job_update, valid_job}
use stellances.Paging.{Page}
use stellances.Schema.{RowId, JobStatus, Job}
use stellances.Base.{none, some, String, Option, if◌then◌else◌, ◌==◌}
use stellances.Jobs.{
  create, find_all, find_one, update_job, cancel, CreateJobDto, UpdateJobDto, JobFilters, LoadedJob,
}
use stellances.World.Action.{returned, Action, Result, ok, ◌>>=◌, err, gets, sdk_error, pure}
use stellances.Http.{Server, Identity}
use stellances.Users.Controller.{paging_of}

-- `create`
unfoldable pub post_job : Server → Identity → CreateJobDto → Action Job
post_job srv caller dto = checked (valid_job dto) (create srv.env caller.id dto)

pub record JobQuery : Type 0 where
  pub status : Option String
  pub mine : Option String
  pub search : Option String
  pub min_budget : Option String
  pub max_budget : Option String
  pub page : Option String
  pub limit : Option String

abbrev status_named : String → Option JobStatus
status_named s =
    if s == "OPEN"
    then some JobStatus.open_job
    else if s == "IN_PROGRESS"
    then some JobStatus.in_progress
    else if s == "COMPLETED"
    then some JobStatus.completed
    else if s == "CANCELLED"
    then some JobStatus.cancelled
    else none

-- a status that the database does not know is an error of its client
unfoldable pub status_query : Option String → Result (Option JobStatus)
status_query none = ok none
status_query (some s) = elim (status_named s) [ none ↦ err sdk_error | some j ↦ ok (some j) ]

-- `mine === 'true' ? req.user.id : undefined`
abbrev owner_query : Identity → Option String → Option String
owner_query caller none = none
owner_query caller (some s) = if s == "true" then some caller.id else none

-- the filters of `findAll`
unfoldable pub filters_of : Identity → JobQuery → Action JobFilters
unfolding status_query
filters_of caller q = do
  status ← returned (status_query q.status)
  low ← returned (min_budget_query q.min_budget)
  high ← returned (max_budget_query q.max_budget)
  pure (record {
    status = status;
    client_id = owner_query caller q.mine;
    search = search_of q.search;
    min_budget = low;
    max_budget = high;
  })

-- `findAll`
unfoldable pub list_jobs : Server → Identity → JobQuery → Action (Page Job)
unfolding find_all filters_of
list_jobs srv caller q = do
  f ← filters_of caller q
  p ← paging_of q.page q.limit
  gets (find_all srv.contains f p)

-- `findOne`
abbrev pub get_job : RowId → Action LoadedJob
get_job id = find_one id

-- `update`
unfoldable pub patch_job : RowId → Identity → UpdateJobDto → Action Job
patch_job id caller dto = checked (valid_job_update dto) (update_job id caller.id caller.role dto)

-- `cancel`
abbrev pub delete_job : RowId → Identity → Action Job
delete_job id caller = cancel id caller.id caller.role
