-- ===== src/Contracts/Ledger.antt =====
-- The specification of the contract service: a state machine on the jobs, contracts, milestones and
-- payments. A step states who may be in which status and exactly what changes; requests, messages,
-- notifications and the order of the checks are not seen here.
use stellances.World.Action.{is_set}
use stellances.Contracts.Create.{set_job_status, set_funded}
use stellances.Table.Laws.{Unique}
use stellances.Contracts.Milestones.{is_paid, set_milestone_status, set_status}
use stellances.Contracts.Loading.{payment_in, milestone_in}
use stellances.Table.{find, total, select, update}
use stellances.Schema.{
  RowId, Contract, Payment, Milestone, Job, milestone_key, contract_key, contract_job,
  MilestoneStatus, job_key, open_job, paid, ContractStatus, in_progress, active, in_review,
  disputed, Database,
}
use stellances.World.{World}
use stellances.Base.{
  none, some, true, false, ◌∷◌, List, ℕ, if◌then◌else◌, ◌≡◌, ◌&&◌, All, ◌++◌, String, ◌⊎◌, every,
  ◌-◌, ◌≢◌,
}

pub record Ledger : Type 0 where
  pub jobs : List Job
  pub contracts : List Contract
  pub milestones : List Milestone
  pub payments : List Payment

abbrev pub books : Database → Ledger
books db = record {
  jobs = db.jobs;
  contracts = db.contracts;
  milestones = db.milestones;
  payments = db.payments;
}

abbrev pub ledger : World → Ledger
ledger w = books w.db

-- the sums of one contract: what its milestones are worth, what those that are paid are worth, and
-- what the payments record
abbrev pub worth : RowId → Milestone → ℕ
worth id m = if milestone_in id m then m.amount else 0

abbrev pub paid_worth : RowId → Milestone → ℕ
paid_worth id m = if milestone_in id m && is_paid m then m.amount else 0

abbrev pub payment_worth : RowId → Payment → ℕ
payment_worth id p = if payment_in id p then p.amount else 0

unfoldable pub owed : RowId → Ledger → ℕ
owed id l = total (worth id) l.milestones

unfoldable pub earned : RowId → Ledger → ℕ
earned id l = total (paid_worth id) l.milestones

unfoldable pub recorded : RowId → Ledger → ℕ
recorded id l = total (payment_worth id) l.payments

-- a fresh milestone of a contract
abbrev pub IsFresh : RowId → Milestone → Type 0
IsFresh id m = (m.contract_id ≡ id) × (m.status ≡ MilestoneStatus.pending)

-- the contract `id` is there, and its row is `c`
abbrev pub Holds : RowId → Contract → Ledger → Type 0
Holds id c l = find contract_key id l.contracts ≡ some c

-- the milestone `mid` of contract `id`, and its row is `m`
abbrev pub HasMilestone : RowId → RowId → Milestone → Ledger → Type 0
HasMilestone id mid m l = find milestone_key mid (select (milestone_in id) l.milestones) ≡ some m

pub data Step : Ledger → Ledger → Type 0 where
  -- The owner of an open job without a contract opens a pending one on it, without a hash.
  opened :
      (l : Ledger) (c : Contract) (ms : List Milestone) (j : Job)
      → find contract_key c.id l.contracts ≡ none
      → find contract_job c.job_id l.contracts ≡ none
      → find job_key c.job_id l.jobs ≡ some j
      → j.client_id ≡ c.client_id
      → j.status ≡ open_job
      → c.status ≡ ContractStatus.pending
      → c.escrow_tx_hash ≡ none
      → All (IsFresh c.id) ms
      → Unique milestone_key (ms ++ l.milestones)
      → Step l (record l {
        jobs = update job_key c.job_id (set_job_status in_progress) l.jobs;
        contracts = c ∷ l.contracts;
        milestones = ms ++ l.milestones;
      })
  -- The funding of a pending or active contract without a hash is recorded.
  funded :
      (l : Ledger) (id : RowId) (c : Contract) (h : String)
      → Holds id c l
      → is_set c.escrow_tx_hash ≡ false
      → (c.status ≡ ContractStatus.pending) ⊎ (c.status ≡ active)
      → Step l (record l { contracts = update contract_key id (set_funded h) l.contracts })
  -- A pending milestone of an active contract goes to review.
  reviewed :
      (l : Ledger) (id mid : RowId) (c : Contract) (m : Milestone)
      → Holds id c l
      → c.status ≡ active
      → HasMilestone id mid m l
      → m.status ≡ MilestoneStatus.pending
      → Step l (record l {
        milestones = update milestone_key mid (set_milestone_status in_review) l.milestones;
      })
  -- A milestone in review of an active contract is paid, and a payment of its amount is recorded.
  released :
      (l : Ledger) (id mid : RowId) (c : Contract) (m : Milestone) (p : Payment)
      → Holds id c l
      → c.status ≡ active
      → HasMilestone id mid m l
      → m.status ≡ in_review
      → p.contract_id ≡ id
      → p.milestone_id ≡ some mid
      → p.amount ≡ m.amount
      → Step l (record l {
        milestones = update milestone_key mid (set_milestone_status paid) l.milestones;
        payments = p ∷ l.payments;
      })
  -- An active contract whose milestones are all paid is completed.
  finished :
      (l : Ledger) (id : RowId) (c : Contract)
      → Holds id c l
      → c.status ≡ active
      → every is_paid (select (milestone_in id) l.milestones) ≡ true
      → Step l (record l {
        contracts = update contract_key id (set_status ContractStatus.completed) l.contracts;
      })
  -- An active contract is frozen.
  frozen :
      (l : Ledger) (id : RowId) (c : Contract)
      → Holds id c l
      → c.status ≡ active
      → Step l (record l { contracts = update contract_key id (set_status disputed) l.contracts })
  -- A disputed contract is settled: the rest of what it owes is recorded as one payment.
  settled :
      (l : Ledger) (id : RowId) (c : Contract) (p : Payment) (s : ContractStatus)
      → Holds id c l
      → c.status ≡ disputed
      → (s ≡ ContractStatus.completed) ⊎ (s ≡ ContractStatus.cancelled)
      → p.contract_id ≡ id
      → p.milestone_id ≡ none
      → p.amount ≡ owed id l - recorded id l
      → Step l (record l {
        contracts = update contract_key id (set_status s) l.contracts;
        payments = p ∷ l.payments;
      })
  -- A contract that has not ended is cancelled with nothing to refund, and its job is open again.
  dropped :
      (l : Ledger) (id : RowId) (c : Contract)
      → Holds id c l
      → c.status ≢ ContractStatus.completed
      → c.status ≢ ContractStatus.cancelled
      → Step l (record l {
        jobs = update job_key c.job_id (set_job_status open_job) l.jobs;
        contracts = update contract_key id (set_status ContractStatus.cancelled) l.contracts;
      })
  -- The same with a refund: the rest of what it owes is recorded as one payment.
  refunded :
      (l : Ledger) (id : RowId) (c : Contract) (p : Payment)
      → Holds id c l
      → c.status ≢ ContractStatus.completed
      → c.status ≢ ContractStatus.cancelled
      → is_set c.escrow_tx_hash ≡ true
      → p.contract_id ≡ id
      → p.milestone_id ≡ none
      → p.amount ≡ owed id l - recorded id l
      → Step l (record l {
        jobs = update job_key c.job_id (set_job_status open_job) l.jobs;
        contracts = update contract_key id (set_status ContractStatus.cancelled) l.contracts;
        payments = p ∷ l.payments;
      })

-- any number of steps
pub data Steps (l : Ledger) : Ledger → Type 0 where
  here : Steps l l
  further : {k n : Ledger} → Steps l k → Step k n → Steps l n

pub Steps-trans : {l k n : Ledger} → Steps l k → Steps k n → Steps l n
Steps-trans a here = a
Steps-trans a (further b s) = further (Steps-trans a b) s
