-- ===== src/Contracts/Balance.antt =====
-- The money of a contract: what the payments record, against what its milestones are worth.

use stellances.Contracts.Create.{set_funded}
use stellances.Contracts.Loading.{milestone_in}
use stellances.Contracts.Milestones.{is_paid, set_milestone_status, set_status}
use stellances.Table.{total, find, select, update}
use stellances.Contracts.Ledger.{
  Ledger, earned, owed, Step, recorded, opened, funded, IsFresh, paid_worth, reviewed, released,
  worth, finished, frozen, settled, dropped, refunded, HasMilestone, Steps, further, here,
}
use stellances.Schema.{
  RowId, milestone_key, ContractStatus, Contract, Milestone, paid, contract_key, MilestoneStatus,
  in_review, disputed,
}
use stellances.Base.{
  refl, none, some, true, [], ◌∷◌, ℕ, every, Option, List, ◌≤◌, ◌≡◌, All, ◌++◌, arith, ◌≢◌, ==_iff,
  ◌+◌, Option-cases, inl, inr,
}
use stellances.Table.Laws.{Unique, find-update, update-Unique, find-select, total-update}

-- What the sums of a contract say in each status; the sums of an id without a contract are 0.
abbrev pub ByStatus : ℕ → ℕ → ℕ → ContractStatus → Type 0
ByStatus owes earns records ContractStatus.completed = records ≡ owes
ByStatus owes earns records ContractStatus.cancelled = records ≤ owes
ByStatus owes earns records _ = records ≡ earns

abbrev pub InBalance : ℕ → ℕ → ℕ → Option Contract → Type 0
InBalance owes earns records none = (owes ≡ 0) × (earns ≡ 0) × (records ≡ 0)
InBalance owes earns records (some c) = ByStatus owes earns records c.status

pub record Balanced (l : Ledger) : Type 0 where
  pub unique : Unique milestone_key l.milestones
  pub sums :
      (id : RowId)
      → InBalance (owed id l) (earned id l) (recorded id l) (find contract_key id l.contracts)

pub earned-le-owed : (id : RowId) (l : Ledger) → earned id l ≤ owed id l
unfolding earned owed
earned-le-owed id l = go l.milestones
  where
    go : (ms : List Milestone) → total (paid_worth id) ms ≤ total (worth id) ms
    go [] = omega arith
    go (m ∷ ms) = ground (arith, go ms)

-- Once all milestones are paid they have earned what they are worth.
all_paid :
    (id : RowId) (ms : List Milestone)
    → every is_paid (select (milestone_in id) ms) ≡ true
    → total (paid_worth id) ms ≡ total (worth id) ms
all_paid id [] h = refl
all_paid id (m ∷ ms) h = ground (arith, all_paid id ms)

fresh_sums :
    (id j : RowId) (ms ns : List Milestone)
    → All (IsFresh id) ms
    → (total (paid_worth j) (ms ++ ns) ≡ total (paid_worth j) ns)
      × (id ≢ j → total (worth j) (ms ++ ns) ≡ total (worth j) ns)
fresh_sums id j [] ns h = (refl, λ ne. refl)
fresh_sums id j (m ∷ ms) ns h = (
  ground (arith, h.0, (fresh_sums id j ms ns h.1).0),
  λ ne. ground (arith, h.0, ==_iff m.contract_id j, (fresh_sums id j ms ns h.1).1 ne),
)

-- a milestone that one contract has is a row of the table, and the sums move by that row alone
milestone_sums :
    (l : Ledger) (id mid j : RowId) (m : Milestone) (s : MilestoneStatus)
    → Unique milestone_key l.milestones
    → HasMilestone id mid m l
    → let ms = update milestone_key mid (set_milestone_status s) l.milestones in
      (m.contract_id ≡ id)
      × (total (worth j) ms ≡ total (worth j) l.milestones)
      × (total (paid_worth j) ms + paid_worth j m
          ≡ total (paid_worth j) l.milestones + paid_worth j (set_milestone_status s m))
milestone_sums l id mid j m s u has_m =
    let (row, mine) =
      find-select milestone_key (milestone_in id) mid {x = m} l.milestones u has_m in
    (
      (==_iff m.contract_id id).0 mine,
      omega (
        arith,
        total-update milestone_key (worth j) mid (set_milestone_status s) {x = m} l.milestones row,
      ),
      total-update milestone_key (paid_worth j) mid (set_milestone_status s) {x = m} l.milestones
          row,
    )

pub Step-Balanced : {l k : Ledger} → Step l k → Balanced l → Balanced k
unfolding owed earned recorded
Step-Balanced (opened l c ms j e₁ e₂ e₃ e₄ e₅ e₆ e₇ fr un) b = record {
  unique = un;
  sums = λ i. ground (arith, ==_iff c.id i, b.sums i, (fresh_sums c.id i ms l.milestones fr));
}
Step-Balanced (funded l id c h e₁ e₂ e₃) b = record {
  unique = b.unique;
  sums = λ i. ground (
    arith,
    find-update contract_key i id (set_funded h) l.contracts (λ x. refl),
    b.sums i,
    ==_iff id i,
  );
}
Step-Balanced (reviewed l id mid c m e₁ e₂ e₃ e₄) b = record {
  unique =
      update-Unique milestone_key mid (set_milestone_status in_review) l.milestones (λ x. refl)
        b.unique;
  sums = λ i. ground (arith, milestone_sums l id mid i m in_review b.unique e₃, b.sums i);
}
Step-Balanced (released l id mid c m p e₁ e₂ e₃ e₄ e₅ e₆ e₇) b = record {
  unique =
      update-Unique milestone_key mid (set_milestone_status paid) l.milestones (λ x. refl) b.unique;
  sums = λ i. ground (arith, milestone_sums l id mid i m paid b.unique e₃, ==_iff id i, b.sums i);
}
Step-Balanced (finished l id c e₁ e₂ e₃) b = record {
  unique = b.unique;
  sums = λ i. ground (
    arith,
    find-update contract_key i id (set_status ContractStatus.completed) l.contracts (λ x. refl),
    all_paid id l.milestones e₃,
    b.sums i,
    ==_iff id i,
  );
}
Step-Balanced (frozen l id c e₁ e₂) b = record {
  unique = b.unique;
  sums = λ i. ground (
    arith,
    find-update contract_key i id (set_status disputed) l.contracts (λ x. refl),
    b.sums i,
    ==_iff id i,
  );
}
Step-Balanced (settled l id c p s e₁ e₂ e₃ e₄ e₅ e₆) b = record {
  unique = b.unique;
  sums = λ i. ground (
    arith,
    find-update contract_key i id (set_status s) l.contracts (λ x. refl),
    earned-le-owed id l,
    b.sums i,
    ==_iff id i,
  );
}
Step-Balanced (dropped l id c e₁ e₂ e₃) b = record {
  unique = b.unique;
  sums = λ i. ground (
    arith,
    find-update contract_key i id (set_status ContractStatus.cancelled) l.contracts (λ x. refl),
    earned-le-owed id l,
    b.sums i,
    ==_iff id i,
  );
}
Step-Balanced (refunded l id c p e₁ e₂ e₃ e₄ e₅ e₆ e₇) b = record {
  unique = b.unique;
  sums = λ i. ground (
    arith,
    find-update contract_key i id (set_status ContractStatus.cancelled) l.contracts (λ x. refl),
    earned-le-owed id l,
    b.sums i,
    ==_iff id i,
  );
}

pub Steps-Balanced : {l k : Ledger} → Steps l k → Balanced l → Balanced k
Steps-Balanced here b = b
Steps-Balanced (further s t) b = Step-Balanced t (Steps-Balanced s b)

-- In a balanced ledger the payments of a contract never record more than its milestones are worth.
pub recorded-le-owed : (id : RowId) (l : Ledger) → Balanced l → recorded id l ≤ owed id l
recorded-le-owed id l b = elim (Option-cases (find contract_key id l.contracts)) [
  | inl e ↦ ground (arith, b.sums id, earned-le-owed id l)
  | inr (c, e) ↦ ground (arith, b.sums id, earned-le-owed id l)
]
