-- ===== src/Contracts/Milestones.antt =====
-- The work on a funded contract: `submitMilestone`, `approveMilestone` and the completion of a
-- contract whose milestones are all paid.
use stellances.Contracts.Create.{notify}
use stellances.Base.{any}
use stellances.Table.{find, has, update}
use stellances.World.Action.{
  Action, ◌>>=◌, Done, ◌>>◌, draw_uuid, both, throw_if, transaction, pure, ok, gets, forbidden, err,
  record_missing, bad_request, unique_violation, or_throw, not_found,
}
use stellances.Contracts.Loading.{Loaded, get_contract_or_throw, is_status}
use stellances.World.{Env}
use stellances.Schema.{
  MilestoneStatus, RowId, Milestone, ContractStatus, Payment, Contract, paid, in_review,
  milestone_key, approved, contract_completed, payment_key, milestone_paid, contract_key,
  milestone_submitted, payment_hash, active, milestone_approved,
}
use stellances.Base.{
  none, some, false, ◌∷◌, Option, Bool, ℕ, String, ◌==◌, nat_eq, if◌then◌else◌, every, not, ◌<>◌,
  ◌||◌, to_fixed_2,
}
use Prim.Native.String.{slice}
use stellances.Escrow.{submit_release_milestone}

abbrev pub milestone_number : MilestoneStatus → ℕ
milestone_number MilestoneStatus.pending = 0
milestone_number in_review = 1
milestone_number approved = 2
milestone_number paid = 3

-- `===` on milestone statuses
abbrev pub in_status : MilestoneStatus → MilestoneStatus → Bool
in_status s t = nat_eq (milestone_number s) (milestone_number t)

abbrev pub set_milestone_status : MilestoneStatus → Milestone → Milestone
set_milestone_status s m = record m { status = s }

-- `milestone.update` of the status
unfoldable pub update_milestone : RowId → MilestoneStatus → Action Done
update_milestone id s w =
    if has milestone_key id w.db.milestones
    then (
      ok tt,
      record w {
        db = record (w.db) {
          milestones = update milestone_key id (set_milestone_status s) w.db.milestones;
        };
      },
    )
    else (err record_missing, w)

abbrev pub set_status : ContractStatus → Contract → Contract
set_status s c = record c { status = s }

-- `contract.update` of the status
unfoldable pub update_contract_status : RowId → ContractStatus → Action Done
update_contract_status id s w =
    if has contract_key id w.db.contracts
    then (
      ok tt,
      record w {
        db = record (w.db) { contracts = update contract_key id (set_status s) w.db.contracts };
      },
    )
    else (err record_missing, w)

-- the milestone that a caller means, among those of the contract
abbrev pub find_milestone : RowId → Loaded → Option Milestone
find_milestone id c = find milestone_key id c.milestones

-- The checks of `submitMilestone`.
unfoldable pub check_submit : RowId → RowId → String → Action (Loaded × Milestone)
check_submit contract_id milestone_id caller_id = do
  contract ← get_contract_or_throw contract_id
  throw_if (not (contract.row.freelancer_id == caller_id))
      (forbidden "Only the freelancer can submit milestones")
  throw_if (not (is_status contract.row.status active)) (bad_request "Contract is not ACTIVE")
  milestone ← or_throw (find_milestone milestone_id contract) (not_found "Milestone not found")
  throw_if (not (in_status milestone.status MilestoneStatus.pending))
      (bad_request "Milestone must be PENDING to submit")
  pure (contract, milestone)

-- `submitMilestone`
unfoldable pub submit_milestone : Env → RowId → RowId → String → Action Milestone
submit_milestone env contract_id milestone_id caller_id = do
  found ← check_submit contract_id milestone_id caller_id
  update_milestone milestone_id in_review
  notify env found.0.row.client_id milestone_submitted "Milestone ready for review"
      ("\"" <> found.1.title <> "\" has been submitted for your review on contract \""
        <> found.0.job.title <> "\".")
      contract_id (some milestone_id)
  pure (set_milestone_status in_review found.1)

abbrev pub milestone_paid_by : Option RowId → Payment → Bool
milestone_paid_by none p = false
milestone_paid_by (some id) p = elim p.milestone_id [ none ↦ false | some id' ↦ id' == id ]

abbrev pub new_payment : RowId → RowId → Option RowId → ℕ → String → Payment
new_payment id contract_id milestone_id amount tx_hash = record {
  id = id;
  contract_id = contract_id;
  milestone_id = milestone_id;
  amount = amount;
  stellar_tx_hash = tx_hash;
}

-- `payment.create`, with the unique indexes on `id`, `stellarTxHash` and `milestoneId`
unfoldable pub insert_payment : Payment → Action Done
insert_payment p w =
    if has payment_key p.id w.db.payments
      || has payment_hash p.stellar_tx_hash w.db.payments
      || any (milestone_paid_by p.milestone_id) w.db.payments
    then (err unique_violation, w)
    else (ok tt, record w { db = record (w.db) { payments = p ∷ w.db.payments } })

unfoldable pub create_payment : Env → RowId → Option RowId → ℕ → String → Action Done
unfolding insert_payment
create_payment env contract_id milestone_id amount tx_hash = do
  id ← draw_uuid env
  insert_payment (new_payment id contract_id milestone_id amount tx_hash)

-- the body of `approveMilestone`'s transaction
unfoldable pub pay_milestone : Env → RowId → RowId → ℕ → String → Action Done
unfolding update_milestone create_payment
pay_milestone env contract_id milestone_id amount tx_hash = do
  update_milestone milestone_id approved
  update_milestone milestone_id paid
  create_payment env contract_id (some milestone_id) amount tx_hash

abbrev pub is_paid : Milestone → Bool
is_paid m = in_status m.status paid

-- the notifications at the end of `_maybeCompleteContract`
unfoldable pub notify_completed : Env → RowId → Loaded → Action Done
notify_completed env contract_id contract =
    both
      (notify env contract.row.freelancer_id contract_completed "Contract completed 🎉"
        ("All milestones on \"" <> contract.job.title
          <> "\" have been paid. Contract is now complete.")
        contract_id none)
      (notify env contract.row.client_id contract_completed "Contract completed"
        ("All milestones on \"" <> contract.job.title
          <> "\" have been paid. Contract is now complete.")
        contract_id none)

-- what `_maybeCompleteContract` does once all milestones are paid
unfoldable pub complete_contract : Env → RowId → Loaded → Action Done
complete_contract env contract_id contract = do
  update_contract_status contract_id ContractStatus.completed
  notify_completed env contract_id contract

-- `_maybeCompleteContract`
unfoldable pub maybe_complete_contract : Env → RowId → Action Done
maybe_complete_contract env contract_id = do
  contract ← get_contract_or_throw contract_id
  if every is_paid contract.milestones then complete_contract env contract_id contract else pure tt

-- The checks of `approveMilestone`.
unfoldable pub check_approve : RowId → RowId → String → Action (Loaded × Milestone)
check_approve contract_id milestone_id caller_id = do
  contract ← get_contract_or_throw contract_id
  throw_if (not (contract.row.client_id == caller_id))
      (forbidden "Only the client can approve milestones")
  throw_if (not (is_status contract.row.status active)) (bad_request "Contract is not ACTIVE")
  milestone ← or_throw (find_milestone milestone_id contract) (not_found "Milestone not found")
  throw_if (not (in_status milestone.status in_review))
      (bad_request "Milestone must be IN_REVIEW to approve")
  pure (contract, milestone)

-- the two notifications at the end of `approveMilestone`
unfoldable pub notify_approved : Env → RowId → RowId → Loaded → Milestone → String → Action Done
notify_approved env contract_id milestone_id contract milestone tx_hash = do
  notify env contract.row.freelancer_id milestone_paid "Payment released 🎉"
      ("\""
        <> milestone.title
        <> "\" approved — "
        <> to_fixed_2 milestone.amount
        <> " XLM has been released to your wallet (tx: "
        <> slice tx_hash 0 10
        <> "…).")
      contract_id (some milestone_id)
  notify env contract.row.client_id milestone_approved "Milestone approved"
      ("You approved \"" <> milestone.title <> "\" on contract \"" <> contract.job.title
        <> "\". Payment sent on Stellar.")
      contract_id (some milestone_id)

-- `approveMilestone`: the chain first, then the database
unfoldable pub approve_milestone : Env → RowId → RowId → String → Action (Option Milestone)
approve_milestone env contract_id milestone_id caller_id = do
  found ← check_approve contract_id milestone_id caller_id
  tx_hash ← submit_release_milestone env contract_id found.1.amount
  transaction (pay_milestone env contract_id milestone_id found.1.amount tx_hash)
  maybe_complete_contract env contract_id
  notify_approved env contract_id milestone_id found.0 found.1 tx_hash
  gets (λ w. find milestone_key milestone_id w.db.milestones)
