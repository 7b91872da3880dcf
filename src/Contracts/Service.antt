-- ===== src/Contracts/Service.antt =====
-- The contract service as its clients see it: calls of its endpoints in any order, each of which
-- may return or throw.
use stellances.Contracts.Refinement.Cancel.{cancel-Steps}
use stellances.Contracts.Refinement.Endings.{resolve_dispute-Steps}
use stellances.Contracts.Refinement.Disputes.{dispute-Steps}
use stellances.Contracts.Refinement.Approval.{approve_milestone-Steps}
use stellances.Contracts.Refinement.Milestones.{submit_milestone-Steps}
use stellances.Contracts.Refinement.Opening.{create-Steps, confirm_fund-Steps}
use stellances.Contracts.Ledger.{ledger, Steps, recorded, here, owed, Steps-trans}
use stellances.Contracts.Balance.{Balanced, Steps-Balanced, recorded-le-owed}
use stellances.Table.Laws.{Unique}
use stellances.Schema.{RowId, milestone_key, UserRole}
use stellances.World.{Env, World}
use stellances.Base.{[], ◌∷◌, String, List, ◌≤◌}
use stellances.Contracts.Create.{create, confirm_fund, CreateContractDto}
use stellances.Contracts.Milestones.{submit_milestone, approve_milestone}
use stellances.Contracts.Disputes.{dispute, resolve_dispute, cancel, ResolveDisputeDto}

pub data Call : Type 0 where
  creates : String → CreateContractDto → Call
  confirms : RowId → String → String → Call
  submits : RowId → RowId → String → Call
  approves : RowId → RowId → String → Call
  disputes : RowId → String → String → Call
  resolves : RowId → String → UserRole → ResolveDisputeDto → Call
  cancels : RowId → String → UserRole → Call

-- the state after a call, whether it returned or threw
unfoldable pub call : Env → Call → World → World
call env (creates client_id dto) w = (create env client_id dto w).1
call env (confirms id caller h) w = (confirm_fund env id caller h w).1
call env (submits id mid caller) w = (submit_milestone env id mid caller w).1
call env (approves id mid caller) w = (approve_milestone env id mid caller w).1
call env (disputes id caller reason) w = (dispute env id caller reason w).1
call env (resolves id caller role dto) w = (resolve_dispute env id caller role dto w).1
call env (cancels id caller role) w = (cancel env id caller role w).1

unfoldable pub run : Env → List Call → World → World
run env [] w = w
run env (c ∷ cs) w = run env cs (call env c w)

-- Every call of the contract service, whether it returns or throws, takes the ledger along steps of
-- the specification and does nothing else to it. The ids of the milestones are distinct before.
pub call-Steps :
    (env : Env) (c : Call) (w : World)
    → Unique milestone_key w.db.milestones
    → Steps (ledger w) (ledger (call env c w))
unfolding call
call-Steps env (creates client_id dto) w u = create-Steps env client_id dto w u
call-Steps env (confirms id caller h) w u = confirm_fund-Steps env id caller h w
call-Steps env (submits id mid caller) w u = submit_milestone-Steps env id mid caller w
call-Steps env (approves id mid caller) w u = approve_milestone-Steps env id mid caller w
call-Steps env (disputes id caller reason) w u = dispute-Steps env id caller reason w
call-Steps env (resolves id caller role dto) w u = resolve_dispute-Steps env id caller role dto w
call-Steps env (cancels id caller role) w u = cancel-Steps env id caller role w

run-Steps-Balanced :
    (env : Env) (cs : List Call) (w : World)
    → Balanced (ledger w)
    → Steps (ledger w) (ledger (run env cs w)) × Balanced (ledger (run env cs w))
unfolding run
run-Steps-Balanced env [] w b = (here, b)
run-Steps-Balanced env (c ∷ cs) w b =
    let s = call-Steps env c w b.unique in
    let (t, b') = run-Steps-Balanced env cs (call env c w) (Steps-Balanced s b) in
    (Steps-trans s t, b')

-- Over any sequence of calls that begins with a balanced ledger, the ledger moves along the steps of
-- the specification.
pub run-Steps :
    (env : Env) (cs : List Call) (w : World)
    → Balanced (ledger w)
    → Steps (ledger w) (ledger (run env cs w))
run-Steps env cs w b = (run-Steps-Balanced env cs w b).0

-- Over any sequence of calls that begins with a balanced ledger, the ledger stays balanced. So for
-- a contract that is pending, active or disputed the payments record exactly what its paid
-- milestones are worth, for a completed one exactly what all its milestones are worth, and for a
-- cancelled one no more than that.
pub run-Balanced :
    (env : Env) (cs : List Call) (w : World)
    → Balanced (ledger w)
    → Balanced (ledger (run env cs w))
run-Balanced env cs w b = (run-Steps-Balanced env cs w b).1

-- Over any sequence of calls that begins with a balanced ledger, the payments that are recorded for
-- a contract never exceed what its milestones are worth.
pub run_never_overpays :
    (env : Env) (cs : List Call) (w : World) (id : RowId)
    → Balanced (ledger w)
    → recorded id (ledger (run env cs w)) ≤ owed id (ledger (run env cs w))
run_never_overpays env cs w id b = recorded-le-owed id _ (run-Balanced env cs w b)
