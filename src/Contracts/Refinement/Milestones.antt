-- ===== src/Contracts/Refinement/Milestones.antt =====
-- `submitMilestone` and `approveMilestone`.
use stellances.Contracts.Create.{notify}
use stellances.Table.{update, has}
use stellances.World.Action.{ok}
use stellances.World.Laws.{Result-cases}
use stellances.Contracts.Ledger.{
  Holds, ledger, HasMilestone, Steps, here, further, reviewed, Ledger,
}
use stellances.World.{World, Env}
use stellances.Contracts.Loading.{Loaded, load_contract}
use stellances.Contracts.Milestones.{
  check_submit, find_milestone, check_approve, update_milestone, submit_milestone,
  set_milestone_status,
}
use stellances.Schema.{
  MilestoneStatus, RowId, Contract, Milestone, active, in_review, milestone_key,
}
use stellances.Base.{
  String, ◌≡◌, arith, inl, inr, Option-cases, ==_iff, ap, ◌⊎◌, Bool-cases, subst, sym,
}
use stellances.Contracts.Refinement.Shared.{
  load_contract_ok, bind-Steps, still, Framed-Steps, notify-Framed,
}

-- what the checks of the two endpoints have found
pub record Ready (id mid : RowId) (s : MilestoneStatus) (c : Contract) (m : Milestone) (l : Ledger)
    : Type 0 where
  pub holds : Holds id c l
  pub is_active : c.status ≡ active
  pub has_milestone : HasMilestone id mid m l
  pub in_state : m.status ≡ s

pub check_submit-same :
    (id mid : RowId) (caller : String) (w : World) → (check_submit id mid caller w).1 ≡ w
unfolding check_submit
check_submit-same id mid caller w = elim (Result-cases (load_contract w.db id)) [
  | inl (x, e) ↦ ground arith
  | inr (c, e) ↦ ground arith
]

pub check_submit_ok :
    (id mid : RowId) (caller : String) (w v : World) (c : Loaded) (m : Milestone)
    → check_submit id mid caller w ≡ (ok (c, m), v)
    → (v ≡ w)
      × (c.row.freelancer_id ≡ caller)
      × Ready id mid MilestoneStatus.pending c.row m (ledger w)
unfolding check_submit
check_submit_ok id mid caller w v c m e = elim (Result-cases (load_contract w.db id)) [
  | inl (x, e₀) ↦ absurd (ground arith)
  | inr (c', e₀) ↦
      let facts = load_contract_ok w.db id {c = c'} e₀ in
      elim (Option-cases (find_milestone mid c')) [
        | inl e₁ ↦ absurd (ground arith)
        | inr (m', e₁) ↦
            (ground arith, ground (arith, ==_iff c'.row.freelancer_id caller), ground arith)
      ]
]

pub check_approve-same :
    (id mid : RowId) (caller : String) (w : World) → (check_approve id mid caller w).1 ≡ w
unfolding check_approve
check_approve-same id mid caller w = elim (Result-cases (load_contract w.db id)) [
  | inl (x, e) ↦ ground arith
  | inr (c, e) ↦ ground arith
]

pub check_approve_ok :
    (id mid : RowId) (caller : String) (w v : World) (c : Loaded) (m : Milestone)
    → check_approve id mid caller w ≡ (ok (c, m), v)
    → (v ≡ w) × (c.row.client_id ≡ caller) × Ready id mid in_review c.row m (ledger w)
unfolding check_approve
check_approve_ok id mid caller w v c m e = elim (Result-cases (load_contract w.db id)) [
  | inl (x, e₀) ↦ absurd (ground arith)
  | inr (c', e₀) ↦
      let facts = load_contract_ok w.db id {c = c'} e₀ in
      elim (Option-cases (find_milestone mid c')) [
        | inl e₁ ↦ absurd (ground arith)
        | inr (m', e₁) ↦
            (ground arith, ground (arith, ==_iff c'.row.client_id caller), ground arith)
      ]
]

update_milestone_cases :
    (mid : RowId) (s : MilestoneStatus) (w : World)
    → ((update_milestone mid s w).1 ≡ w)
      ⊎ (ledger (update_milestone mid s w).1 ≡ record (ledger w) {
        milestones = update milestone_key mid (set_milestone_status s) w.db.milestones;
      })
unfolding update_milestone
update_milestone_cases mid s w = elim (Bool-cases (has milestone_key mid w.db.milestones)) [
  | inl there ↦ inr (ground arith)
  | inr missing ↦ inl (ground arith)
]

-- `submitMilestone` takes one step or none.
pub submit_milestone-Steps :
    (env : Env) (id mid : RowId) (caller : String) (w : World)
    → Steps (ledger w) (ledger (submit_milestone env id mid caller w).1)
unfolding submit_milestone
submit_milestone-Steps env id mid caller w =
    bind-Steps (check_submit id mid caller) _ w
      (still (ap ledger (check_submit-same id mid caller w)))
      λ found v checked.
        let (same, _, ready) = check_submit_ok id mid caller w v found.0 found.1 checked in
        bind-Steps (update_milestone mid in_review) _ v
          (written v found.0.row found.1 (
            subst (λ x. Ready id mid MilestoneStatus.pending found.0.row found.1 (ledger x))
              (sym same) ready))
          λ done u wrote.
            bind-Steps (notify env _ _ _ _ _ _) _ u
              (Framed-Steps (notify env _ _ _ _ _ _) u (notify-Framed env _ _ _ _ _ _))
              (λ done' t sent. here)
  where
    written :
        (v : World) (c : Contract) (m : Milestone)
        → Ready id mid MilestoneStatus.pending c m (ledger v)
        → Steps (ledger v) (ledger (update_milestone mid in_review v).1)
    written v c m r = elim (update_milestone_cases mid in_review v) [
      | inl e ↦ still (ap ledger e)
      | inr e ↦ rw e (
          further here
            (reviewed (ledger v) id mid c m r.holds r.is_active r.has_milestone r.in_state))
    ]
