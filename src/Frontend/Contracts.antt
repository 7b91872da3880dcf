-- ===== src/Frontend/Contracts.antt =====
-- stellance/frontend/app/(dashboard)/contracts/page.tsx, with `fetchContracts` of lib/api/contracts.ts: the
-- contracts that a user sees, and what stands on their cards. Sums are exact.
use stellances.Frontend.Format.{grouped_from, grouped}
use Prim.Native.String.{slice}
use stellances.Base.{
  none, some, ◌<>◌, nat_eq, ℕ, String, Bool, Option, List, if◌then◌else◌, ◌+◌, ◌/◌, ◌%◌, padded,
  ◌||◌,
}
use stellances.Schema.{Contract, ContractStatus, Database, user_key, Milestone, MilestoneStatus}
use stellances.Table.{select, find, count, total}
use stellances.World.Action.{Action, truthy}
use stellances.Http.{Identity}
use stellances.Contracts.Controller.{list_contracts}
use stellances.Contracts.Loading.{status_number, milestone_in}
use stellances.Contracts.Milestones.{in_status}
use stellances.Payments.{job_title}

-- `fetchContracts`, its request answered by the backend
unfoldable pub fetch_contracts : Identity → Option String → Action (List Contract)
fetch_contracts caller side = list_contracts caller (truthy side)

abbrev with_status : ContractStatus → Contract → Bool
with_status s c = nat_eq (status_number c.status) (status_number s)

-- `filtered`; `none` is the tab ALL
abbrev pub shown_contracts : Option ContractStatus → List Contract → List Contract
shown_contracts none cs = cs
shown_contracts (some s) cs = select (with_status s) cs

abbrev user_name : String → Database → Option String
user_name id db = elim (find user_key id db.users) [ none ↦ none | some u ↦ some u.name ]

-- `counterparty` of a card
unfoldable pub counterparty : Database → Contract → String
counterparty db c = elim (user_name c.client_id db) [
  | some name ↦ name
  | none ↦ elim (user_name c.freelancer_id db) [ none ↦ "Unknown" | some name ↦ name ]
]

-- `jobTitle`
abbrev pub card_title : Database → Contract → String
card_title db c = elim (job_title c db) [ none ↦ "Contract " <> slice c.id 0 8 | some t ↦ t ]

abbrev milestones_of : Database → Contract → List Milestone
milestones_of db c = select (milestone_in c.id) db.milestones

-- the digits after the point, without the zeros at their end, of a count of ten-thousandths
abbrev fraction_text : ℕ → String
fraction_text f =
    if nat_eq f 0
    then ""
    else if nat_eq (f % 1000) 0
    then "." <> padded 1 (f / 1000)
    else if nat_eq (f % 100) 0
    then "." <> padded 2 (f / 100)
    else if nat_eq (f % 10) 0
    then "." <> padded 3 (f / 10)
    else "." <> padded 4 f

-- `toLocaleString` with four digits at most, of an amount in stroops
abbrev amount_text : ℕ → String
amount_text s = let n = (s + 500) / 1000 in grouped (n / 10000) <> fraction_text (n % 10000)

abbrev amount_of : Milestone → ℕ
amount_of m = m.amount

-- `totalAmount`
unfoldable pub total_amount : Database → Contract → String
unfolding grouped_from
total_amount db c = amount_text (total amount_of (milestones_of db c))

abbrev pub is_done : Milestone → Bool
is_done m = in_status m.status MilestoneStatus.paid || in_status m.status MilestoneStatus.approved

-- `completedMilestones`
abbrev pub completed_milestones : Database → Contract → ℕ
completed_milestones db c = count is_done (milestones_of db c)
