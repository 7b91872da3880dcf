-- ===== src/Contracts/Disputes.antt =====
-- The other ends of a contract: `dispute`, `resolveDispute` and `cancel`.
use stellances.Contracts.Loading.{
  Loaded, get_contract_or_throw, remaining_amount, is_admin, is_status, contract_status_name,
}
use stellances.Contracts.Create.{update_job_status, notify}
use stellances.World.Action.{
  Action, ◌>>=◌, is_set, Done, ◌>>◌, pure, gets, throw_if, both, transaction, forbidden,
  bad_request, or_throw,
}
use stellances.World.{Env}
use stellances.Schema.{
  RowId, ContractStatus, Contract, UserRole, disputed, open_job, dispute_resolved,
  contract_cancelled, dispute_raised, active,
}
use stellances.Contracts.Milestones.{create_payment, update_contract_status, set_status}
use stellances.Base.{
  none, some, true, false, Bool, Option, ℕ, String, ◌<>◌, if◌then◌else◌, ◌==◌, show, not, ◌&&◌,
  ◌||◌,
}
use stellances.Escrow.{submit_dispute, submit_resolve_dispute, submit_refund, Decision}

-- The checks of `dispute`.
unfoldable pub check_dispute : RowId → String → Action Loaded
check_dispute contract_id caller_id = do
  contract ← get_contract_or_throw contract_id
  throw_if
      (not (contract.row.client_id == caller_id) && not (contract.row.freelancer_id == caller_id))
      (forbidden "Only contract parties can raise a dispute")
  throw_if (not (is_status contract.row.status active))
      (bad_request "Contract must be ACTIVE to dispute")
  pure contract

abbrev pub submitted_if : Bool → Action String → Action (Option String)
submitted_if true m = m >>= λ h. pure (some h)
submitted_if false m = pure none

-- the party that is not the caller
abbrev other_party : String → Contract → String
other_party caller_id c = if caller_id == c.client_id then c.freelancer_id else c.client_id

-- the notifications at the end of `dispute`
unfoldable pub notify_disputed : Env → RowId → String → Loaded → Action Done
notify_disputed env contract_id caller_id contract =
    both
      (notify env (other_party caller_id contract.row) dispute_raised
        "Dispute raised on your contract"
        ("A dispute has been raised on contract \"" <> contract.job.title
          <> "\". Escrow is frozen pending admin review.")
        contract_id none)
      (notify env caller_id dispute_raised "Dispute submitted"
        ("Your dispute on \"" <> contract.job.title
          <> "\" has been submitted. An admin will review it shortly.")
        contract_id none)

-- `dispute`; its reason is not used
unfoldable pub dispute : Env → RowId → String → String → Action Contract
dispute env contract_id caller_id reason = do
  contract ← check_dispute contract_id caller_id
  submitted_if (is_set contract.row.escrow_tx_hash) (submit_dispute env contract_id)
  update_contract_status contract_id disputed
  notify_disputed env contract_id caller_id contract
  pure (set_status disputed contract.row)

-- dto/contract-action.dto.ts
pub record ResolveDisputeDto : Type 0 where
  pub decision : String
  pub freelancer_bps : Option ℕ

-- `decisionMap`; the names that every JavaScript object has are taken for unknown ones
unfoldable pub decision_map : String → Option Decision
decision_map d =
    if d == "release"
    then some Decision.release
    else if d == "refund"
    then some Decision.refund
    else if d == "split"
    then some Decision.split
    else none

abbrev pub bps : ResolveDisputeDto → ℕ
bps dto = elim dto.freelancer_bps [ none ↦ 0 | some n ↦ n ]

abbrev pub final_status : Decision → ContractStatus
final_status Decision.refund = ContractStatus.cancelled
final_status Decision.release = ContractStatus.completed
final_status Decision.split = ContractStatus.completed

-- The checks of `resolveDispute`.
unfoldable pub check_resolve : RowId → UserRole → ResolveDisputeDto → Action (Loaded × Decision)
check_resolve contract_id caller_role dto = do
  throw_if (not (is_admin caller_role)) (forbidden "Only admins can resolve disputes")
  contract ← get_contract_or_throw contract_id
  throw_if (not (is_status contract.row.status disputed)) (bad_request "Contract is not DISPUTED")
  decision ←
      or_throw (decision_map dto.decision) (bad_request ("Unknown decision: " <> dto.decision))
  pure (contract, decision)

-- the body of `resolveDispute`'s transaction
unfoldable pub settle : Env → RowId → ℕ → String → ContractStatus → Action Done
unfolding create_payment update_contract_status
settle env contract_id remaining tx_hash status = do
  create_payment env contract_id none remaining tx_hash
  update_contract_status contract_id status

abbrev outcome_text : Decision → ResolveDisputeDto → String
outcome_text Decision.release dto = "Funds released to freelancer"
outcome_text Decision.refund dto = "Funds refunded to client"
outcome_text Decision.split dto = "Funds split (" <> show (bps dto) <> " bps to freelancer)"

pub record Resolution : Type 0 where
  pub tx_hash : String
  pub status : ContractStatus

-- the notifications at the end of `resolveDispute`
unfoldable pub notify_resolved : Env → RowId → Loaded → Decision → ResolveDisputeDto → Action Done
notify_resolved env contract_id contract decision dto =
    both
      (notify env contract.row.client_id dispute_resolved "Dispute resolved"
        ("The dispute on \""
          <> contract.job.title
          <> "\" has been resolved. "
          <> outcome_text decision dto
          <> ".")
        contract_id none)
      (notify env contract.row.freelancer_id dispute_resolved "Dispute resolved"
        ("The dispute on \""
          <> contract.job.title
          <> "\" has been resolved. "
          <> outcome_text decision dto
          <> ".")
        contract_id none)

-- `resolveDispute`
unfoldable pub resolve_dispute :
    Env → RowId → String → UserRole → ResolveDisputeDto → Action Resolution
resolve_dispute env contract_id caller_id caller_role dto = do
  found ← check_resolve contract_id caller_role dto
  tx_hash ← submit_resolve_dispute env contract_id found.1 (bps dto)
  remaining ← gets (λ w. remaining_amount contract_id w.db)
  transaction (settle env contract_id remaining tx_hash (final_status found.1))
  notify_resolved env contract_id found.0 found.1 dto
  pure (record { tx_hash = tx_hash; status = final_status found.1 })

-- The checks of `cancel`.
unfoldable pub check_cancel : RowId → String → UserRole → Action Loaded
check_cancel contract_id caller_id caller_role = do
  contract ← get_contract_or_throw contract_id
  throw_if (not (contract.row.client_id == caller_id) && not (is_admin caller_role))
      (forbidden "Only the client or admin can cancel")
  throw_if
      (is_status contract.row.status ContractStatus.completed
        || is_status contract.row.status ContractStatus.cancelled)
      (bad_request ("Contract is already " <> contract_status_name contract.row.status))
  throw_if
      (is_set contract.row.escrow_tx_hash
        && not (is_status contract.row.status ContractStatus.pending)
        && not (is_admin caller_role))
      (forbidden "Escrow is funded — only an admin can cancel after funding")
  pure contract

-- the payment that records the refund, if there was one
abbrev pub record_refund : Env → RowId → ℕ → Option String → Action Done
record_refund env contract_id remaining none = pure tt
record_refund env contract_id remaining (some tx_hash) =
    if is_set (some tx_hash) then create_payment env contract_id none remaining tx_hash else pure tt

-- the body of `cancel`'s transaction
unfoldable pub cancel_rows : Env → RowId → Loaded → ℕ → Option String → Action Done
unfolding create_payment update_contract_status update_job_status
cancel_rows env contract_id contract remaining tx_hash = do
  record_refund env contract_id remaining tx_hash
  update_contract_status contract_id ContractStatus.cancelled
  update_job_status contract.job.id open_job

abbrev refunded : Option String → String → String
refunded tx_hash text = if is_set tx_hash then text else ""

-- the notifications at the end of `cancel`
unfoldable pub notify_cancelled : Env → RowId → Loaded → Option String → Action Done
notify_cancelled env contract_id contract tx_hash =
    both
      (notify env contract.row.freelancer_id contract_cancelled "Contract cancelled"
        ("The contract for \""
          <> contract.job.title
          <> "\" has been cancelled."
          <> refunded tx_hash " Any escrowed funds have been refunded.")
        contract_id none)
      (notify env contract.row.client_id contract_cancelled "Contract cancelled"
        ("Your contract for \""
          <> contract.job.title
          <> "\" has been cancelled."
          <> refunded tx_hash " Escrowed funds refunded on Stellar.")
        contract_id none)

-- `cancel`: the hash of the refund, if the escrow was funded
unfoldable pub cancel : Env → RowId → String → UserRole → Action (Option String)
cancel env contract_id caller_id caller_role = do
  contract ← check_cancel contract_id caller_id caller_role
  tx_hash ← submitted_if (is_set contract.row.escrow_tx_hash) (submit_refund env contract_id)
  remaining ← gets (λ w. remaining_amount contract_id w.db)
  transaction (cancel_rows env contract_id contract remaining tx_hash)
  notify_cancelled env contract_id contract tx_hash
  pure tx_hash
