-- ===== src/Contracts/Tests.antt =====
-- The contract service on the demo deployment.
use stellances.Contracts.Endpoints.{release_call, approve_milestone_ok}
use stellances.Contracts.Refinement.Milestones.{Ready}
use stellances.Base.{==_iff, ℕ}
use stellances.World.{World, success}
use stellances.Contracts.Access.{Barred, call-Barred, run-Ended}
use stellances.Schema.{paid, Contract, Milestone, ContractStatus, in_review, UserRole}
use stellances.Escrow.{
  submit_release_milestone, submit_admin_invocation, accept, await_confirmation, poll,
  get_admin_public_key, admin_secret,
}
use stellances.Contracts.Loading.{load_contract}
use stellances.World.Action.{ok}
use stellances.Contracts.Service.{
  run, call, run-Balanced, Call, approves, call-Steps, disputes, cancels,
}
use stellances.Base.{
  show, some, arith, ◌≡◌, Bool-cases, ◌==◌, inl, inr, refl, [], ◌∷◌, List, String,
}
use stellances.Demo.Balance.{demo-Balanced}
use stellances.Demo.{demo, demo_env, milestone, the_contract, demo_db, first_payment}
use stellances.Contracts.Balance.{Balanced}
use stellances.Contracts.Ledger.{ledger, owed, earned, recorded, Steps, Holds}
use stellances.Contracts.Milestones.{
  approve_milestone, check_approve, pay_milestone, maybe_complete_contract, complete_contract,
  notify_completed, notify_approved, update_milestone, update_contract_status, create_payment,
  insert_payment, new_payment,
}

abbrev a_day : List Call
a_day =
    approves "contract" "final" "carol"
    ∷ disputes "contract" "frank" "late"
    ∷ cancels "contract" "ada" UserRole.admin
    ∷ []

abbrev after : World
after = run demo_env a_day demo

call-Steps_example :
    Steps (ledger demo) (ledger (call demo_env (approves "contract" "final" "carol") demo))
call-Steps_example =
    call-Steps demo_env (approves "contract" "final" "carol") demo demo-Balanced.unique

run-Balanced_example : Balanced (ledger after)
run-Balanced_example = run-Balanced demo_env a_day demo demo-Balanced

frank_is_not_carol : Barred (approves "contract" "final" "frank") demo
unfolding ◌==◌
frank_is_not_carol c h = ground (arith, ==_iff "carol" "frank")

call-Barred_example : call demo_env (approves "contract" "final" "frank") demo ≡ demo
call-Barred_example =
    call-Barred demo_env (approves "contract" "final" "frank") demo frank_is_not_carol

abbrev dropped_contract : Contract
dropped_contract = record the_contract { status = ContractStatus.cancelled }

abbrev dropped_demo : World
dropped_demo = record demo { db = record demo_db { contracts = dropped_contract ∷ [] } }

dropped-Balanced : Balanced (ledger dropped_demo)
unfolding owed earned recorded ◌==◌
dropped-Balanced = record {
  unique = ground arith;
  sums = λ id. elim (Bool-cases ("contract" == id)) [ inl e ↦ ground arith | inr e ↦ ground arith ];
}

dropped_found : Holds "contract" dropped_contract (ledger dropped_demo)
unfolding ◌==◌
dropped_found = refl

run-Ended_example :
    (c : Contract) × Holds "contract" c (ledger (run demo_env a_day dropped_demo))
    × (c.status ≡ ContractStatus.cancelled)
    × (c.job_id ≡ "job")
    × (c.client_id ≡ "carol")
    × (c.freelancer_id ≡ "frank")
run-Ended_example =
    run-Ended demo_env a_day dropped_demo "contract" dropped_contract dropped-Balanced dropped_found
      (inr refl)

abbrev approving : World
approving = (approve_milestone demo_env "contract" "final" "carol" demo).1

approved :
    approve_milestone demo_env "contract" "final" "carol" demo
    ≡ (ok (some (milestone "final" 50 paid)), approving)
unfolding approve_milestone check_approve load_contract submit_release_milestone
    submit_admin_invocation accept await_confirmation poll get_admin_public_key admin_secret
    pay_milestone maybe_complete_contract complete_contract notify_completed notify_approved
    update_milestone update_contract_status create_payment insert_payment ◌==◌ show
    stellances.Notifications.create
approved = refl

approve_milestone_ok_example :
    (c : Contract) × (m : Milestone) × (secret h pid : String) × Ready "contract" "final" in_review
      c m
      (ledger demo)
    × (c.client_id ≡ "carol")
    × (approving.sent ≡ (release_call demo_env secret "contract" m.amount, h) ∷ [])
    × ((i : ℕ) × (demo_env.get_transaction i h ≡ some success))
    × (approving.db.payments
        ≡ new_payment pid "contract" (some "final") m.amount h ∷ first_payment ∷ [])
approve_milestone_ok_example =
    approve_milestone_ok demo_env "contract" "final" "carol" demo approving
      (some (milestone "final" 50 paid)) approved
