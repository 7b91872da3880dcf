-- ===== src/Contracts/Access.antt =====
-- Who may do what with a contract, and what a contract does to its job.
use stellances.Contracts.Refinement.Cancel.{check_cancel-same, check_cancel_ok}
use stellances.Contracts.Refinement.Endings.{check_resolve-same, check_resolve_ok}
use stellances.Contracts.Refinement.Disputes.{check_dispute-same, check_dispute_ok}
use stellances.Contracts.Refinement.Milestones.{
  check_submit-same, check_submit_ok, check_approve-same, check_approve_ok,
}
use stellances.Contracts.Refinement.Opening.{check_fund-same, check_fund_ok}
use stellances.Contracts.Lifecycle.{Steps-has_job, Ended, Steps-Ended}
use stellances.Contracts.Refinement.Create.{check_create-same, check_create_ok}
use stellances.Contracts.Ledger.{ledger, Holds}
use stellances.World.Laws.{bind_post, bind_err}
use stellances.Contracts.Balance.{Balanced}
use stellances.Contracts.Disputes.{
  dispute, resolve_dispute, cancel, check_dispute, check_resolve, check_cancel,
}
use stellances.Table.{find, has}
use stellances.Schema.{Job, job_key, Contract, contract_job, admin, RowId}
use stellances.World.{Env, World}
use stellances.Contracts.Milestones.{
  submit_milestone, approve_milestone, check_submit, check_approve,
}
use stellances.World.Action.{
  Action, ok, ◌>>=◌, Exception, err, not_found, conflict, bad_request, forbidden,
}
use stellances.Base.{
  some, true, ◌≡◌, List, String, ◌≢◌, Option-cases, inl, inr, Bool-cases, ◌==◌, ◌<>◌, arith,
}
use stellances.Contracts.Create.{
  create, confirm_fund, CreateContractDto, check_create, check_fund, is_open,
}
use stellances.Contracts.Service.{
  call, run, Call, creates, confirms, submits, approves, disputes, resolves, cancels, run-Steps,
}

-- The caller is not the one that the endpoint is for: the job's owner for `create`, the client for
-- `confirmFund` and `approveMilestone`, the freelancer for `submitMilestone`, either of them for
-- `dispute`, an admin for `resolveDispute`, and the client or an admin for `cancel`.
abbrev pub Barred : Call → World → Type 0
Barred (creates client_id dto) w =
    (j : Job) → find job_key dto.job_id w.db.jobs ≡ some j → j.client_id ≢ client_id
Barred (confirms id caller h) w = (c : Contract) → Holds id c (ledger w) → c.client_id ≢ caller
Barred (submits id mid caller) w = (c : Contract) → Holds id c (ledger w) → c.freelancer_id ≢ caller
Barred (approves id mid caller) w = (c : Contract) → Holds id c (ledger w) → c.client_id ≢ caller
Barred (disputes id caller reason) w =
    (c : Contract) → Holds id c (ledger w) → (c.client_id ≢ caller) × (c.freelancer_id ≢ caller)
Barred (resolves id caller role dto) w = role ≢ admin
Barred (cancels id caller role) w =
    (c : Contract) → Holds id c (ledger w) → (c.client_id ≢ caller) × (role ≢ admin)

-- A check that leaves the state alone, and whose success is impossible, ends the endpoint there.
stopped {ℓ κ} :
    {A : Type ℓ} {B : Type κ} (m : Action A) (f : A → Action B) (w : World)
    → (m w).1 ≡ w
    → ((a : A) (v : World) → m w ≡ (ok a, v) → ⊥)
    → ((m >>= f) w).1 ≡ w
stopped m f w same never = bind_post (λ v. v ≡ w) m f w same (λ a v e k. absurd (never a v e))

-- A call by someone that the endpoint is not for changes nothing at all: not the database, not the
-- live streams, and nothing is asked of the chain.
pub call-Barred : (env : Env) (c : Call) (w : World) → Barred c w → call env c w ≡ w
unfolding call create confirm_fund submit_milestone approve_milestone dispute resolve_dispute cancel
call-Barred env (creates client_id dto) w b =
    stopped (check_create client_id dto) _ w (check_create-same client_id dto w) λ f v e.
      let (_, job, owner, _, _, _, _) = check_create_ok client_id dto w v f.0 f.1 f.2 e in
      b f.0 job owner
call-Barred env (confirms id caller h) w b =
    stopped (check_fund id caller) _ w (check_fund-same id caller w)
      λ c v e. let (_, party, _, _, holds) = check_fund_ok id caller w v c e in b c.row holds party
call-Barred env (submits id mid caller) w b =
    stopped (check_submit id mid caller) _ w (check_submit-same id mid caller w) λ f v e.
      let (_, party, ready) = check_submit_ok id mid caller w v f.0 f.1 e in
      b f.0.row ready.holds party
call-Barred env (approves id mid caller) w b =
    stopped (check_approve id mid caller) _ w (check_approve-same id mid caller w) λ f v e.
      let (_, party, ready) = check_approve_ok id mid caller w v f.0 f.1 e in
      b f.0.row ready.holds party
call-Barred env (disputes id caller reason) w b =
    stopped (check_dispute id caller) _ w (check_dispute-same id caller w) λ c v e.
      let (_, party, _, holds) = check_dispute_ok id caller w v c e in
      elim party [ inl p ↦ (b c.row holds).0 p | inr p ↦ (b c.row holds).1 p ]
call-Barred env (resolves id caller role dto) w b =
    stopped (check_resolve id role dto) _ w (check_resolve-same id role dto w)
      λ f v e. let (_, party, _, _, _) = check_resolve_ok id role dto w v f.0 f.1 e in b party
call-Barred env (cancels id caller role) w b =
    stopped (check_cancel id caller role) _ w (check_cancel-same id caller role w) λ c v e.
      let (_, may) = check_cancel_ok id caller role w v c e in
      elim may.party [ inl p ↦ (b c.row may.holds).0 p | inr p ↦ (b c.row may.holds).1 p ]

-- A job that has a contract never passes the checks of `create`.
pub check_create-refused :
    (client_id : String) (dto : CreateContractDto) (v : World)
    → has contract_job dto.job_id v.db.contracts ≡ true
    → (x : Exception) × (check_create client_id dto v ≡ (err x, v))
unfolding check_create
check_create-refused client_id dto v h = elim (Option-cases (find job_key dto.job_id v.db.jobs)) [
  | inl e ↦ (not_found ("Job " <> dto.job_id <> " not found"), ground arith)
  | inr (j, e) ↦ elim (Bool-cases (j.client_id == client_id)) [
    | inl o ↦ elim (Bool-cases (is_open j.status)) [
      | inl p ↦ (conflict "Job already has a contract", ground arith)
      | inr p ↦ (bad_request "Job is not OPEN", ground arith)
    ]
    | inr o ↦ (forbidden "You do not own this job", ground arith)
  ]
]

-- The finding about `cancel`: it opens the job again, but the job keeps its cancelled contract. For
-- a job that has a contract, whatever its status, and after any calls of the contract service that
-- begin with a balanced ledger, no one can create another contract on that job: `create` throws and
-- changes nothing.
pub create_blocked :
    (env : Env) (cs : List Call) (w : World) (client_id : String) (dto : CreateContractDto)
    → Balanced (ledger w)
    → has contract_job dto.job_id w.db.contracts ≡ true
    → (x : Exception) × (create env client_id dto (run env cs w) ≡ (err x, run env cs w))
unfolding create
create_blocked env cs w client_id dto b there =
    let v = run env cs w in
    let (x, e) =
      check_create-refused client_id dto v
        (Steps-has_job dto.job_id (run-Steps env cs w b) there) in
    (x, bind_err (check_create client_id dto) _ e)

-- Over any sequence of calls that begins with a balanced ledger, a contract that is completed or
-- cancelled stays so, and keeps its job and its parties.
pub run-Ended :
    (env : Env) (cs : List Call) (w : World) (id : RowId) (c : Contract)
    → Balanced (ledger w)
    → Holds id c (ledger w)
    → Ended c.status
    → (c' : Contract) × Holds id c' (ledger (run env cs w))
      × (c'.status ≡ c.status)
      × (c'.job_id ≡ c.job_id)
      × (c'.client_id ≡ c.client_id)
      × (c'.freelancer_id ≡ c.freelancer_id)
run-Ended env cs w id c b h ended = Steps-Ended id c (run-Steps env cs w b) h ended
