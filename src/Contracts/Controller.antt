-- ===== src/Contracts/Controller.antt =====
-- stellance/backend/src/contracts/contracts.controller.ts.
use stellances.Http.Validation.{checked, valid_text, valid_contract, valid_resolution}
use stellances.Contracts.Milestones.{submit_milestone, approve_milestone}
use stellances.World.Action.{Action, gets}
use stellances.Schema.{RowId, Milestone, Contract}
use stellances.Base.{none, some, Option, String, List, if◌then◌else◌, ◌==◌}
use stellances.Contracts.Create.{create, confirm_fund, CreateContractDto}
use stellances.Contracts.Disputes.{dispute, resolve_dispute, cancel, ResolveDisputeDto, Resolution}
use stellances.Contracts.Loading.{
  find_all, find_one, Loaded, ContractSide, as_freelancer, as_client,
}
use stellances.Http.{Server, Identity}

-- `create`
unfoldable pub post_contract :
    Server → Identity → CreateContractDto → Action (Loaded × Option String)
post_contract srv caller dto =
    checked (valid_contract srv.framework dto) (create srv.env caller.id dto)

-- the filter `as`; every other text is as good as none
abbrev side_query : Option String → Option ContractSide
side_query none = none
side_query (some s) = if s == "freelancer" then some as_freelancer else some as_client

-- `findAll`
unfoldable pub list_contracts : Identity → Option String → Action (List Contract)
unfolding find_all
list_contracts caller side = gets (find_all caller.id caller.role (side_query side))

-- `findOne`
abbrev pub get_contract : RowId → Identity → Action Loaded
get_contract id caller = find_one id caller.id caller.role

-- `confirmFund`
unfoldable pub post_funding : Server → RowId → Identity → String → Action Contract
post_funding srv id caller tx_hash =
    checked (valid_text tx_hash) (confirm_fund srv.env id caller.id tx_hash)

-- `submitMilestone`
abbrev pub patch_submit : Server → RowId → RowId → Identity → Action Milestone
patch_submit srv id mid caller = submit_milestone srv.env id mid caller.id

-- `approveMilestone`
abbrev pub patch_approve : Server → RowId → RowId → Identity → Action (Option Milestone)
patch_approve srv id mid caller = approve_milestone srv.env id mid caller.id

-- `dispute`
unfoldable pub post_dispute : Server → RowId → Identity → String → Action Contract
post_dispute srv id caller reason =
    checked (valid_text reason) (dispute srv.env id caller.id reason)

-- `resolve`
unfoldable pub patch_resolve : Server → RowId → Identity → ResolveDisputeDto → Action Resolution
patch_resolve srv id caller dto =
    checked (valid_resolution dto) (resolve_dispute srv.env id caller.id caller.role dto)

-- `cancel`
abbrev pub post_cancel : Server → RowId → Identity → Action (Option String)
post_cancel srv id caller = cancel srv.env id caller.id caller.role
