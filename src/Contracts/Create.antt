-- ===== src/Contracts/Create.antt =====
-- The first half of a contract's life: `create` and `confirmFund`.
use stellances.Escrow.{verify_transaction, get_admin_public_key, build_fund_xdr}
use stellances.Contracts.Loading.{
  Loaded, get_contract_or_throw, find_one, is_status, contract_status_name,
}
use stellances.World.Action.{
  Action, truthy, ◌>>=◌, Done, or_throw, ◌>>◌, pure, draw_uuid, transaction, attempt, gets,
  throw_if, err, unique_violation, forbidden, both, not_found, ok, is_set, bad_request, conflict,
  record_missing,
}
use stellances.Table.{has, find, update}
use stellances.World.{Env}
use stellances.Schema.{
  JobStatus, Contract, RowId, Milestone, NotificationType, MilestoneStatus, open_job,
  ContractStatus, User, Job, active, in_progress, contract_created, job_key, contract_key,
  milestone_key, contract_job, contract_funded, UserRole, user_key, Number, decimal_7,
}
use stellances.Base.{
  none, some, true, false, [], ◌∷◌, ℕ, Bool, String, Option, not, List, ◌||◌, ◌==◌, if◌then◌else◌,
  ◌&&◌, ◌<>◌, any, ◌*◌, ◌^◌, ◌+◌, ◌/◌,
}
use Prim.Native.String.{slice}
use stellances.Notifications.{create as create_notification}

-- dto/create-contract.dto.ts
pub record MilestoneInput : Type 0 where
  pub title : String
  pub amount : Number

pub record CreateContractDto : Type 0 where
  pub job_id : RowId
  pub freelancer_id : RowId
  pub milestones : List MilestoneInput

-- A call of `notifications.create`, whose row the service does not use.
abbrev pub notify :
    Env → String → NotificationType → String → String → RowId → Option RowId → Action Done
notify env user_id type title body contract_id milestone_id = do
  create_notification env (record {
    user_id = user_id;
    type = type;
    title = title;
    body = body;
    contract_id = some contract_id;
    milestone_id = milestone_id;
  })
  pure tt

abbrev pub new_contract : RowId → String → CreateContractDto → Contract
new_contract id client_id dto = record {
  id = id;
  job_id = dto.job_id;
  freelancer_id = dto.freelancer_id;
  client_id = client_id;
  status = ContractStatus.pending;
  escrow_tx_hash = none;
}

-- `tx.contract.create`, with the unique indexes on `id` and `jobId`
unfoldable pub insert_contract : Contract → Action Done
insert_contract c w =
    if has contract_key c.id w.db.contracts || has contract_job c.job_id w.db.contracts
    then (err unique_violation, w)
    else (ok tt, record w { db = record (w.db) { contracts = c ∷ w.db.contracts } })

abbrev pub new_milestone : RowId → RowId → MilestoneInput → Milestone
new_milestone contract_id id m = record {
  id = id;
  contract_id = contract_id;
  title = m.title;
  amount = decimal_7 m.amount;
  status = MilestoneStatus.pending;
}

unfoldable pub insert_milestone : Milestone → Action Done
insert_milestone m w =
    if has milestone_key m.id w.db.milestones
    then (err unique_violation, w)
    else (ok tt, record w { db = record (w.db) { milestones = m ∷ w.db.milestones } })

-- `tx.milestone.createMany`
unfoldable pub insert_milestones : Env → RowId → List MilestoneInput → Action Done
unfolding insert_milestone
insert_milestones env contract_id [] = pure tt
insert_milestones env contract_id (m ∷ ms) = do
  id ← draw_uuid env
  insert_milestone (new_milestone contract_id id m)
  insert_milestones env contract_id ms

abbrev pub set_job_status : JobStatus → Job → Job
set_job_status s j = record j { status = s }

-- `tx.job.update` of the status
unfoldable pub update_job_status : RowId → JobStatus → Action Done
update_job_status id s w =
    if has job_key id w.db.jobs
    then (
      ok tt,
      record w { db = record (w.db) { jobs = update job_key id (set_job_status s) w.db.jobs } },
    )
    else (err record_missing, w)

-- the body of `create`'s transaction
unfoldable pub create_rows : Env → String → CreateContractDto → Action Contract
unfolding insert_contract insert_milestones update_job_status
create_rows env client_id dto = do
  id ← draw_uuid env
  let c = new_contract id client_id dto
  insert_contract c
  insert_milestones env id dto.milestones
  update_job_status dto.job_id in_progress
  pure c

abbrev plus : Number → Number → Number
plus a b = (a.0 * 10 ^ b.1 + b.0 * 10 ^ a.1, a.1 + b.1)

abbrev sum_of : Number → List MilestoneInput → Number
sum_of sum [] = sum
sum_of sum (m ∷ ms) = sum_of (plus sum m.amount) ms

-- `dto.milestones.reduce((sum, m) => sum + m.amount, 0)`
abbrev pub total_amount : CreateContractDto → Number
total_amount dto = sum_of (0, 0) dto.milestones

-- `Math.round(n * 10_000_000)`
abbrev rounded : Number → ℕ
rounded n = (n.0 * 10000000 * 2 + 10 ^ n.1) / (2 * 10 ^ n.1)

abbrev pub token_contract_id : Env → String
token_contract_id env = elim (env.config "STELLAR_TOKEN_CONTRACT_ID") [
  | none ↦ "CDLZFC3SYJYDZT7K67VZ75HPJVIEUVNIXF47ZG2FB2RMQQVU2HHGCYSC"
  | some t ↦ t
]

-- the unsigned XDR for the client to sign, best effort
unfoldable pub fund_xdr : Env → CreateContractDto → RowId → User → User → Action (Option String)
fund_xdr env dto contract_id payer payee = elim (truthy payer.stellar_public_key) [
  | none ↦ pure none
  | some payer_key ↦ elim (truthy payee.stellar_public_key) [
    | none ↦ pure none
    | some payee_key ↦ attempt (do
      admin_key ← get_admin_public_key env
      build_fund_xdr env (record {
        contract_id = contract_id;
        client_public_key = payer_key;
        freelancer_public_key = payee_key;
        admin_public_key = admin_key;
        amount_stroops = rounded (total_amount dto);
        token_contract_id = token_contract_id env;
      }))
  ]
]

abbrev pub is_open : JobStatus → Bool
is_open open_job = true
is_open _ = false

-- The checks of `create`: the job, the freelancer and the client.
unfoldable pub check_create : String → CreateContractDto → Action (Job × User × User)
check_create client_id dto = do
  job ←
      or_throw (← gets (λ w. find job_key dto.job_id w.db.jobs))
        (not_found ("Job " <> dto.job_id <> " not found"))
  throw_if (not (job.client_id == client_id)) (forbidden "You do not own this job")
  throw_if (not (is_open job.status)) (bad_request "Job is not OPEN")
  throw_if (← gets (λ w. has contract_job dto.job_id w.db.contracts))
      (conflict "Job already has a contract")
  payee ←
      or_throw (← gets (λ w. find user_key dto.freelancer_id w.db.users))
        (not_found "Freelancer not found")
  payer ← or_throw (← gets (λ w. find user_key client_id w.db.users)) (not_found "Client not found")
  pure (job, payee, payer)

-- `create`
unfoldable pub create : Env → String → CreateContractDto → Action (Loaded × Option String)
create env client_id dto = do
  parties ← check_create client_id dto
  c ← transaction (create_rows env client_id dto)
  notify env dto.freelancer_id contract_created "New contract offer"
      ("A contract has been created for \"" <> parties.0.title <> "\". Waiting for escrow funding.")
      c.id none
  xdr ← fund_xdr env dto c.id parties.2 parties.1
  full ← find_one c.id client_id UserRole.client
  pure (full, xdr)

abbrev pub set_funded : String → Contract → Contract
set_funded tx_hash c = record c { escrow_tx_hash = some tx_hash; status = active }

-- some row has this hash, other than the one that is to get it
abbrev pub hash_taken : RowId → String → Contract → Bool
hash_taken id tx_hash c =
    not (c.id == id) && elim c.escrow_tx_hash [ none ↦ false | some h ↦ h == tx_hash ]

-- `prisma.contract.update` of the hash and the status, with the unique index on `escrowTxHash`
unfoldable pub record_funding : RowId → String → Action Done
record_funding id tx_hash w =
    if not (has contract_key id w.db.contracts)
    then (err record_missing, w)
    else if any (hash_taken id tx_hash) w.db.contracts
    then (err unique_violation, w)
    else (
      ok tt,
      record w {
        db = record (w.db) {
          contracts = update contract_key id (set_funded tx_hash) w.db.contracts;
        };
      },
    )

-- The checks of `confirmFund`.
unfoldable pub check_fund : RowId → String → Action Loaded
check_fund id caller_id = do
  contract ← get_contract_or_throw id
  throw_if (not (contract.row.client_id == caller_id))
      (forbidden "Only the client can confirm funding")
  throw_if (is_set contract.row.escrow_tx_hash) (conflict "Escrow already confirmed")
  throw_if
      (not (is_status contract.row.status ContractStatus.pending)
        && not (is_status contract.row.status active))
      (bad_request (
        "Cannot confirm funding for a " <> contract_status_name contract.row.status <> " contract"))
  pure contract

-- the notifications at the end of `confirmFund`
unfoldable pub notify_funded : Env → RowId → Loaded → String → Action Done
notify_funded env id contract tx_hash =
    both
      (notify env contract.row.freelancer_id contract_funded "Escrow funded — work can begin"
        ("The client has funded the escrow for \"" <> contract.job.title
          <> "\". You can now start work.")
        id none)
      (notify env contract.row.client_id contract_funded "Escrow confirmed"
        ("Your escrow for \""
          <> contract.job.title
          <> "\" is confirmed on Stellar (tx: "
          <> slice tx_hash 0 10
          <> "…).")
        id none)

-- `confirmFund`
unfoldable pub confirm_fund : Env → RowId → String → String → Action Contract
confirm_fund env id caller_id tx_hash = do
  contract ← check_fund id caller_id
  verify_transaction env tx_hash
  record_funding id tx_hash
  notify_funded env id contract tx_hash
  pure (set_funded tx_hash contract.row)
