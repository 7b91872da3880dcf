-- ===== src/Api/Writes.antt =====
-- The writes that the services make, as an interface of an invariant: whoever shows that each keeps
-- it has it kept by every request.
use stellances.Contracts.Milestones.{insert_payment, update_contract_status, update_milestone}
use stellances.Auth.Rotation.{bump_version, update_tokens, revoke, replace}
use stellances.Auth.{insert_refresh_token}
use stellances.Schema.{
  Database, Contract, RowId, RefreshToken, Milestone, Payment, ContractStatus, Job, MilestoneStatus,
  JobStatus, Notification, notification_key,
}
use stellances.Base.{refl, none, true, false, Bool, ◌≡◌, leb, ℕ, String}
use stellances.Users.{insert_user, new_user, NewUser, save_profile, ProfileData}
use stellances.Notifications.{insert_notification, set_read, is_unread_of}
use stellances.Jobs.{insert_job, save_job, UpdateJobDto}
use stellances.World.Action.{modify_db, Action, bad_request}
use stellances.World.Keeps.{Keeps, Keeps-throw}
use stellances.Table.{update, update_where, erase}
use stellances.Http.Validation.{checked, valid_job_update}
use stellances.Contracts.Create.{
  insert_contract, insert_milestone, record_funding, update_job_status,
}

pub Keeps-checked {ℓ} :
    {A : Type ℓ} {P : Database → Type 0} (b : Bool) (m : Action A)
    → (b ≡ true → Keeps P m)
    → Keeps P (checked b m)
Keeps-checked true m k = k refl
Keeps-checked false m k = Keeps-throw (bad_request "Bad Request")

-- the writes of the accounts, the jobs and the notifications
pub record AccountWrites (P : Database → Type 0) : Type 0 where
  pub insert_user : (id : RowId) (d : NewUser) → Keeps P (insert_user (new_user id d))
  pub insert_token : (t : RefreshToken) → Keeps P (insert_refresh_token t)
  pub bump : (id : RowId) → Keeps P (bump_version id)
  pub revoke : (p : RefreshToken → Bool) (now : ℕ) → Keeps P (update_tokens p (revoke now))
  pub replace :
      (p : RefreshToken → Bool) (now : ℕ) (id : RowId) → Keeps P (update_tokens p (replace now id))
  pub save_profile : (id : RowId) (d : ProfileData) → Keeps P (save_profile id d)
  pub insert_job : (j : Job) → leb 1 j.budget ≡ true → Keeps P (insert_job j)
  pub save_job :
      (id : RowId) (d : UpdateJobDto) → valid_job_update d ≡ true → Keeps P (save_job id d)
  pub job_status : (id : RowId) (s : JobStatus) → Keeps P (update_job_status id s)
  pub insert_notification : (n : Notification) → Keeps P (insert_notification n)
  pub read_one :
      (id : RowId)
      → Keeps P (
          modify_db (λ db. record db {
            notifications = update notification_key id set_read db.notifications;
          }))
  pub read_all :
      (u : String)
      → Keeps P (
          modify_db (λ db. record db {
            notifications = update_where (is_unread_of u) set_read db.notifications;
          }))
  pub erase :
      (id : RowId)
      → Keeps P (
          modify_db
            (λ db. record db { notifications = erase notification_key id db.notifications }))

-- the writes of the contracts
pub record ContractWrites (P : Database → Type 0) : Type 0 where
  pub insert_contract : (c : Contract) → c.escrow_tx_hash ≡ none → Keeps P (insert_contract c)
  pub insert_milestone : (m : Milestone) → leb 1 m.amount ≡ true → Keeps P (insert_milestone m)
  pub insert_payment : (p : Payment) → Keeps P (insert_payment p)
  pub funding : (id : RowId) (h : String) → Keeps P (record_funding id h)
  pub contract_status : (id : RowId) (s : ContractStatus) → Keeps P (update_contract_status id s)
  pub milestone_status : (id : RowId) (s : MilestoneStatus) → Keeps P (update_milestone id s)
  pub job_status : (id : RowId) (s : JobStatus) → Keeps P (update_job_status id s)
  pub insert_notification : (n : Notification) → Keeps P (insert_notification n)
