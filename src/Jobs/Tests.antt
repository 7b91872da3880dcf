-- ===== src/Jobs/Tests.antt =====
-- A job of the demo deployment that has no contract yet.
use stellances.Jobs.Owner.{cancel_ok, update_job_ok}
use stellances.World.Action.{ok}
use stellances.Table.{find}
use stellances.Demo.{the_job, demo, demo_db}
use stellances.World.{World}
use stellances.Schema.{Job, UserRole, JobStatus, job_key, contract_job, RowId}
use stellances.Base.{refl, none, some, [], ◌∷◌, ◌==◌, ◌≡◌, ◌⊎◌, ◌≢◌}
use stellances.Jobs.{
  cancel, find_one, update_job, check_cancel, UpdateJobDto, check_update, save_job, change_job,
}
use stellances.Contracts.Create.{update_job_status, set_job_status}

abbrev open_world : World
open_world = record demo {
  db = record demo_db {
    jobs = record the_job { status = JobStatus.open_job } ∷ [];
    contracts = [];
  };
}

abbrev an_open_job : Job
an_open_job = record the_job { status = JobStatus.open_job }

abbrev cancelled_world : World
cancelled_world = (cancel "job" "carol" UserRole.client open_world).1

cancelled_it :
    cancel "job" "carol" UserRole.client open_world
    ≡ (ok (set_job_status JobStatus.cancelled an_open_job), cancelled_world)
unfolding cancel check_cancel find_one update_job_status ◌==◌
cancelled_it = refl

cancel_ok_example :
    (j : Job) × (find job_key "job" open_world.db.jobs ≡ some j)
    × ((j.client_id ≡ "carol") ⊎ (UserRole.client ≡ UserRole.admin))
    × (find contract_job "job" open_world.db.contracts ≡ none)
    × ((j.status ≡ JobStatus.open_job) ⊎ (j.status ≡ JobStatus.in_progress))
    × (find job_key "job" cancelled_world.db.jobs ≡ some (set_job_status JobStatus.cancelled j))
    × ((k : RowId)
        → k ≢ "job"
        → find job_key k cancelled_world.db.jobs ≡ find job_key k open_world.db.jobs)
cancel_ok_example =
    cancel_ok "job" "carol" UserRole.client open_world cancelled_world
      (set_job_status JobStatus.cancelled an_open_job) cancelled_it

abbrev cheaper : UpdateJobDto
cheaper = record { title = none; description = none; budget = some (70, 7); category = none }

abbrev updated_world : World
updated_world = (update_job "job" "ada" UserRole.admin cheaper open_world).1

updated_it :
    update_job "job" "ada" UserRole.admin cheaper open_world
    ≡ (ok (change_job cheaper an_open_job), updated_world)
unfolding update_job check_update find_one save_job ◌==◌
updated_it = refl

update_job_ok_example :
    (j : Job) × (find job_key "job" open_world.db.jobs ≡ some j)
    × ((j.client_id ≡ "ada") ⊎ (UserRole.admin ≡ UserRole.admin))
    × (j.status ≡ JobStatus.open_job)
    × (an_open_job.status ≡ j.status)
    × (an_open_job.client_id ≡ j.client_id)
    × (find job_key "job" updated_world.db.jobs ≡ some (change_job cheaper an_open_job))
    × ((k : RowId)
        → k ≢ "job"
        → find job_key k updated_world.db.jobs ≡ find job_key k open_world.db.jobs)
update_job_ok_example =
    update_job_ok "job" "ada" UserRole.admin cheaper open_world updated_world
      (change_job cheaper an_open_job) updated_it
