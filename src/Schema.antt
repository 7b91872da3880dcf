-- ===== src/Schema.antt =====
-- The data model of stellance/backend/prisma/schema.prisma: a record for each model and a data type
-- for each enum. Identifiers, hashes and texts are strings; amounts are counts of stroops, a
-- `Decimal(18,7)` times 10^7; times are milliseconds. `createdAt` is the row's place in its table,
-- newest first, and `updatedAt` is left out.
use stellances.Base.{ℕ, String, Bool, Option, List, ◌*◌, ◌+◌, ◌^◌, ◌/◌}

-- a primary key, `@id @default(uuid())`
abbrev pub RowId : Type 0
RowId = String

pub data UserRole : Type 0 where
  client freelancer admin : UserRole

pub data JobStatus : Type 0 where
  open_job in_progress completed cancelled : JobStatus

pub data ContractStatus : Type 0 where
  pending active completed disputed cancelled : ContractStatus

pub data MilestoneStatus : Type 0 where
  pending in_review approved paid : MilestoneStatus

pub data NotificationType : Type 0 where
  contract_created contract_funded contract_completed contract_cancelled : NotificationType
  milestone_submitted milestone_approved milestone_paid : NotificationType
  dispute_raised dispute_resolved : NotificationType

pub record User : Type 0 where
  pub id : RowId
  pub email : String
  pub name : String
  pub role : UserRole
  pub password : String
  pub stellar_public_key : Option String
  pub token_version : ℕ

pub record RefreshToken : Type 0 where
  pub id : RowId
  pub token : String
  pub user_id : RowId
  pub token_version : ℕ
  pub expires_at : ℕ
  pub revoked : Bool
  pub revoked_at : Option ℕ
  pub replaced_by_token_id : Option RowId
  pub user_agent : Option String
  pub ip : Option String

-- A number of a request, that is not below 0, as a decimal: its digits and how many are after the point.
abbrev pub Number : Type 0
Number = ℕ × ℕ

-- what a column `Decimal(18, 7)` keeps of a number, as a count of stroops: the nearest, and the larger of two
unfoldable pub decimal_7 : Number → ℕ
decimal_7 d = (d.0 * 10000000 * 2 + 10 ^ d.1) / (2 * 10 ^ d.1)

pub record Job : Type 0 where
  pub id : RowId
  pub title : String
  pub description : String
  pub budget : ℕ
  pub category : String
  pub status : JobStatus
  pub client_id : RowId

pub record Contract : Type 0 where
  pub id : RowId
  pub job_id : RowId
  pub freelancer_id : RowId
  pub client_id : RowId
  pub status : ContractStatus
  pub escrow_tx_hash : Option String

pub record Milestone : Type 0 where
  pub id : RowId
  pub contract_id : RowId
  pub title : String
  pub amount : ℕ
  pub status : MilestoneStatus

pub record Payment : Type 0 where
  pub id : RowId
  pub contract_id : RowId
  pub milestone_id : Option RowId
  pub amount : ℕ
  pub stellar_tx_hash : String

pub record Notification : Type 0 where
  pub id : RowId
  pub user_id : RowId
  pub type : NotificationType
  pub title : String
  pub body : String
  pub read : Bool
  pub contract_id : Option RowId
  pub milestone_id : Option RowId

pub record Database : Type 0 where
  pub users : List User
  pub refresh_tokens : List RefreshToken
  pub jobs : List Job
  pub contracts : List Contract
  pub milestones : List Milestone
  pub payments : List Payment
  pub notifications : List Notification

-- the columns with a unique index
abbrev pub user_key : User → String
user_key u = u.id

abbrev pub refresh_token_key : RefreshToken → String
refresh_token_key t = t.id

abbrev pub job_key : Job → String
job_key j = j.id

abbrev pub contract_key : Contract → String
contract_key c = c.id

abbrev pub contract_job : Contract → String
contract_job c = c.job_id

abbrev pub milestone_key : Milestone → String
milestone_key m = m.id

abbrev pub payment_key : Payment → String
payment_key p = p.id

abbrev pub payment_hash : Payment → String
payment_hash p = p.stellar_tx_hash

abbrev pub notification_key : Notification → String
notification_key n = n.id
