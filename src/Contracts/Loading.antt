-- ===== src/Contracts/Loading.antt =====
-- The reads that the contract service shares: `_getContractOrThrow`, `_remainingAmount`, `findAll`
-- and `findOne`.
use stellances.World.{World}
use stellances.Table.{find, total, select}
use stellances.World.Action.{
  Action, Result, ◌>>=◌, err, not_found, ◌>>◌, ok, throw_if, record_missing, forbidden, pure,
}
use stellances.Schema.{
  ContractStatus, RowId, User, Database, Contract, UserRole, Milestone, active, Payment, Job, admin,
  disputed, contract_key, freelancer, job_key, user_key,
}
use stellances.Base.{
  none, some, true, false, String, Option, ℕ, Bool, List, ◌==◌, ◌<>◌, ◌-◌, not, ◌&&◌, nat_eq,
}

abbrev pub is_admin : UserRole → Bool
is_admin admin = true
is_admin _ = false

-- the statuses as they are printed
abbrev pub contract_status_name : ContractStatus → String
contract_status_name ContractStatus.pending = "PENDING"
contract_status_name active = "ACTIVE"
contract_status_name ContractStatus.completed = "COMPLETED"
contract_status_name disputed = "DISPUTED"
contract_status_name ContractStatus.cancelled = "CANCELLED"

abbrev pub status_number : ContractStatus → ℕ
status_number ContractStatus.pending = 0
status_number active = 1
status_number ContractStatus.completed = 2
status_number disputed = 3
status_number ContractStatus.cancelled = 4

-- `===` on statuses
abbrev pub is_status : ContractStatus → ContractStatus → Bool
is_status s t = nat_eq (status_number s) (status_number t)

-- a user as the queries select it
pub record Party : Type 0 where
  pub id : RowId
  pub name : String
  pub stellar_public_key : Option String

abbrev pub party : User → Party
party u = record { id = u.id; name = u.name; stellar_public_key = u.stellar_public_key }

-- a contract with its relations
pub record Loaded : Type 0 where
  pub row : Contract
  pub milestones : List Milestone
  pub payments : List Payment
  pub job : Job
  pub client : Party
  pub freelancer : Party

abbrev pub milestone_in : RowId → Milestone → Bool
milestone_in contract_id m = m.contract_id == contract_id

abbrev pub payment_in : RowId → Payment → Bool
payment_in contract_id p = p.contract_id == contract_id

-- The relations of a row. The database keeps the foreign keys, and a relation that is missing all
-- the same is an error of its client.
abbrev pub related : Database → Contract → Option Job → Option User → Option User → Result Loaded
related db c (some job) (some payer) (some payee) = ok (record {
  row = c;
  milestones = select (milestone_in c.id) db.milestones;
  payments = select (payment_in c.id) db.payments;
  job = job;
  client = party payer;
  freelancer = party payee;
})
related db c _ _ _ = err record_missing

abbrev loaded : Database → RowId → Option Contract → Result Loaded
loaded db id none = err (not_found ("Contract " <> id <> " not found"))
loaded db id (some c) =
    related db c (find job_key c.job_id db.jobs) (find user_key c.client_id db.users)
      (find user_key c.freelancer_id db.users)

unfoldable pub load_contract : Database → RowId → Result Loaded
load_contract db id = loaded db id (find contract_key id db.contracts)

-- `_getContractOrThrow`
abbrev pub get_contract_or_throw : RowId → Action Loaded
get_contract_or_throw id w = (load_contract w.db id, w)

-- `_remainingAmount`, in stroops; `Math.max(0, …)` is the subtraction that stops at 0
unfoldable pub remaining_amount : RowId → Database → ℕ
remaining_amount contract_id db =
    total (λ m. m.amount) (select (milestone_in contract_id) db.milestones)
    - total (λ p. p.amount) (select (payment_in contract_id) db.payments)

pub data ContractSide : Type 0 where
  as_client as_freelancer : ContractSide

-- `findAll`'s `where`: without a filter, or with `client`, a caller lists what he is the client of
abbrev pub listed : String → UserRole → Option ContractSide → Contract → Bool
listed caller_id admin side c = true
listed caller_id UserRole.client (some as_freelancer) c = c.freelancer_id == caller_id
listed caller_id freelancer (some as_freelancer) c = c.freelancer_id == caller_id
listed caller_id _ _ c = c.client_id == caller_id

-- `findAll`, newest first
unfoldable pub find_all : String → UserRole → Option ContractSide → World → List Contract
find_all caller_id caller_role side w = select (listed caller_id caller_role side) w.db.contracts

-- `findOne`
unfoldable pub find_one : RowId → String → UserRole → Action Loaded
find_one id caller_id caller_role = do
  contract ← get_contract_or_throw id
  throw_if
      (not (is_admin caller_role)
        && not (contract.row.client_id == caller_id)
        && not (contract.row.freelancer_id == caller_id))
      (forbidden "Access denied")
  pure contract
