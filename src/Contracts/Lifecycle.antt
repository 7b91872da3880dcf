-- ===== src/Contracts/Lifecycle.antt =====
-- The life of a contract, of a milestone and of a job, along the steps of the specification.
use stellances.Table.Laws.{find-update}
use stellances.Contracts.Create.{set_funded}
use stellances.Table.{find, update, has}
use stellances.World.Action.{is_set}
use stellances.Contracts.Milestones.{set_status}
use stellances.Schema.{
  Contract, ContractStatus, RowId, active, disputed, contract_key, contract_job,
}
use stellances.Base.{
  refl, some, true, ◌≢◌, ◌≡◌, subst, ◌⊎◌, ◌∙◌, sym, arith, ==_iff, Bool-cases, ◌==◌, inl, inr, [],
  ◌∷◌, List,
}
use stellances.Contracts.Ledger.{
  Step, Ledger, Holds, opened, funded, refunded, reviewed, released, finished, frozen, settled,
  dropped, Steps, further, here,
}

-- the changes of a contract's status
pub data Edge : ContractStatus → ContractStatus → Type 0 where
  same : (s : ContractStatus) → Edge s s
  fund : Edge ContractStatus.pending active
  complete : Edge active ContractStatus.completed
  freeze : Edge active disputed
  settle_completed : Edge disputed ContractStatus.completed
  settle_cancelled : Edge disputed ContractStatus.cancelled
  cancel_pending : Edge ContractStatus.pending ContractStatus.cancelled
  cancel_active : Edge active ContractStatus.cancelled

abbrev pub Ended : ContractStatus → Type 0
Ended s = (s ≡ ContractStatus.completed) ⊎ (s ≡ ContractStatus.cancelled)

-- what a step keeps of a contract
pub record Evolved (c c' : Contract) : Type 0 where
  pub id : c'.id ≡ c.id
  pub job_id : c'.job_id ≡ c.job_id
  pub client_id : c'.client_id ≡ c.client_id
  pub freelancer_id : c'.freelancer_id ≡ c.freelancer_id
  pub funding : is_set c.escrow_tx_hash ≡ true → c'.escrow_tx_hash ≡ c.escrow_tx_hash
  pub edge : Edge c.status c'.status

Evolved-refl : (c : Contract) → Evolved c c
Evolved-refl c = record {
  id = refl;
  job_id = refl;
  client_id = refl;
  freelancer_id = refl;
  funding = λ h. refl;
  edge = same c.status;
}

edge_to : {s t : ContractStatus} (r : ContractStatus) → s ≡ r → t ≡ r → Edge s t
edge_to {s} r e f = subst (Edge s) (e ∙ sym f) (same s)

edge_cancel : (s : ContractStatus) → s ≢ ContractStatus.completed → Edge s ContractStatus.cancelled
edge_cancel ContractStatus.pending n = cancel_pending
edge_cancel active n = cancel_active
edge_cancel ContractStatus.completed n = absurd (n refl)
edge_cancel disputed n = settle_cancelled
edge_cancel ContractStatus.cancelled n = same ContractStatus.cancelled

edge_from : {s : ContractStatus} (r t : ContractStatus) → s ≡ r → Edge r t → Edge s t
edge_from r t e g = subst (λ x. Edge x t) (sym e) g

set_status-Evolved :
    (c : Contract) (s : ContractStatus) → Edge c.status s → Evolved c (set_status s c)
set_status-Evolved c s g = record {
  id = refl;
  job_id = refl;
  client_id = refl;
  freelancer_id = refl;
  funding = λ h. refl;
  edge = g;
}

-- an update of one row, seen from any row
updated :
    (l : Ledger) (id j : RowId) (f : Contract → Contract) (c d : Contract)
    → ((x : Contract) → (f x).id ≡ x.id)
    → Holds id d l
    → Evolved d (f d)
    → Holds j c l
    → (c' : Contract) × (find contract_key j (update contract_key id f l.contracts) ≡ some c')
      × Evolved c c'
updated l id j f c d keeps hd ev hc = elim (Bool-cases (id == j)) [
  | inl eq ↦
      let e : id ≡ j = (==_iff id j).0 eq in
      let same_row : d ≡ c = ground arith in
      (
        f c,
        ground (arith, find-update contract_key j id f l.contracts keeps),
        subst (λ x. Evolved x (f x)) same_row ev,
      )
  | inr ne ↦ (c, ground (arith, find-update contract_key j id f l.contracts keeps), Evolved-refl c)
]

-- Along any steps a contract stays in the table, keeps its job and its parties, keeps the hash of
-- its funding once it has one, and its status moves along the edges.
pub Step-Evolved :
    {l k : Ledger} (j : RowId) (c : Contract)
    → Step l k
    → Holds j c l
    → (c' : Contract) × Holds j c' k × Evolved c c'
Step-Evolved j c (opened l d ms x e₁ e₂ e₃ e₄ e₅ e₆ e₇ fr un) h =
    (c, ground (arith, ==_iff d.id j), Evolved-refl c)
Step-Evolved j c (funded l id d x e₁ e₂ e₃) h =
    updated l id j (set_funded x) c d (λ y. refl) e₁
      (record {
        id = refl;
        job_id = refl;
        client_id = refl;
        freelancer_id = refl;
        funding = λ q. cc (q, e₂);
        edge = elim e₃ [
          | inl e ↦ edge_from _ active e fund
          | inr e ↦ edge_from _ active e (same active)
        ];
      })
      h
Step-Evolved j c (reviewed l id mid d m e₁ e₂ e₃ e₄) h = (c, h, Evolved-refl c)
Step-Evolved j c (released l id mid d m p e₁ e₂ e₃ e₄ e₅ e₆ e₇) h = (c, h, Evolved-refl c)
Step-Evolved j c (finished l id d e₁ e₂ e₃) h =
    updated l id j (set_status ContractStatus.completed) c d (λ y. refl) e₁
      (set_status-Evolved d _ (edge_from _ _ e₂ complete)) h
Step-Evolved j c (frozen l id d e₁ e₂) h =
    updated l id j (set_status disputed) c d (λ y. refl) e₁
      (set_status-Evolved d _ (edge_from _ _ e₂ freeze)) h
Step-Evolved j c (settled l id d p s e₁ e₂ e₃ e₄ e₅ e₆) h =
    updated l id j (set_status s) c d (λ y. refl) e₁
      (set_status-Evolved d s (
        edge_from _ s e₂ (elim e₃ [
          | inl e ↦ subst (Edge disputed) (sym e) settle_completed
          | inr e ↦ subst (Edge disputed) (sym e) settle_cancelled
        ])))
      h
Step-Evolved j c (dropped l id d e₁ e₂ e₃) h =
    updated l id j (set_status ContractStatus.cancelled) c d (λ y. refl) e₁
      (set_status-Evolved d _ (edge_cancel d.status e₂)) h
Step-Evolved j c (refunded l id d p e₁ e₂ e₃ e₄ e₅ e₆ e₇) h =
    updated l id j (set_status ContractStatus.cancelled) c d (λ y. refl) e₁
      (set_status-Evolved d _ (edge_cancel d.status e₂)) h

edge-Ended : {s t : ContractStatus} → Edge s t → Ended s → t ≡ s
edge-Ended (same s) h = refl
edge-Ended fund h = absurd (ground arith)
edge-Ended complete h = absurd (ground arith)
edge-Ended freeze h = absurd (ground arith)
edge-Ended settle_completed h = absurd (ground arith)
edge-Ended settle_cancelled h = absurd (ground arith)
edge-Ended cancel_pending h = absurd (ground arith)
edge-Ended cancel_active h = absurd (ground arith)

-- A contract that is completed or cancelled keeps that status, its job and its parties along any
-- steps.
pub Steps-Ended :
    {l k : Ledger} (j : RowId) (c : Contract)
    → Steps l k
    → Holds j c l
    → Ended c.status
    → (c' : Contract) × Holds j c' k
      × (c'.status ≡ c.status)
      × (c'.job_id ≡ c.job_id)
      × (c'.client_id ≡ c.client_id)
      × (c'.freelancer_id ≡ c.freelancer_id)
Steps-Ended j c here h ended = (c, h, refl, refl, refl, refl)
Steps-Ended j c (further s t) h ended =
    let (d, hd, e₁, e₂, e₃, e₄) = Steps-Ended j c s h ended in
    let (d', hd', ev) = Step-Evolved j d t hd in
    (
      d',
      hd',
      edge-Ended ev.edge (subst Ended (sym e₁) ended) ∙ e₁,
      ev.job_id ∙ e₂,
      ev.client_id ∙ e₃,
      ev.freelancer_id ∙ e₄,
    )

has_job-update :
    (j id : RowId) (f : Contract → Contract) (xs : List Contract)
    → ((x : Contract) → (f x).job_id ≡ x.job_id)
    → has contract_job j (update contract_key id f xs) ≡ has contract_job j xs
has_job-update j id f [] h = refl
has_job-update j id f (x ∷ xs) h = ground (arith, h x, has_job-update j id f xs h)

Step-has_job :
    {l k : Ledger} (j : RowId)
    → Step l k
    → has contract_job j l.contracts ≡ true
    → has contract_job j k.contracts ≡ true
Step-has_job j (opened l d ms x e₁ e₂ e₃ e₄ e₅ e₆ e₇ fr un) h = ground arith
Step-has_job j (funded l id d x e₁ e₂ e₃) h =
    has_job-update j id (set_funded x) l.contracts (λ y. refl) ∙ h
Step-has_job j (reviewed l id mid d m e₁ e₂ e₃ e₄) h = h
Step-has_job j (released l id mid d m p e₁ e₂ e₃ e₄ e₅ e₆ e₇) h = h
Step-has_job j (finished l id d e₁ e₂ e₃) h =
    has_job-update j id (set_status ContractStatus.completed) l.contracts (λ y. refl) ∙ h
Step-has_job j (frozen l id d e₁ e₂) h =
    has_job-update j id (set_status disputed) l.contracts (λ y. refl) ∙ h
Step-has_job j (settled l id d p s e₁ e₂ e₃ e₄ e₅ e₆) h =
    has_job-update j id (set_status s) l.contracts (λ y. refl) ∙ h
Step-has_job j (dropped l id d e₁ e₂ e₃) h =
    has_job-update j id (set_status ContractStatus.cancelled) l.contracts (λ y. refl) ∙ h
Step-has_job j (refunded l id d p e₁ e₂ e₃ e₄ e₅ e₆ e₇) h =
    has_job-update j id (set_status ContractStatus.cancelled) l.contracts (λ y. refl) ∙ h

-- a job that has a contract has one for good
pub Steps-has_job :
    {l k : Ledger} (j : RowId)
    → Steps l k
    → has contract_job j l.contracts ≡ true
    → has contract_job j k.contracts ≡ true
Steps-has_job j here h = h
Steps-has_job j (further s t) h = Step-has_job j t (Steps-has_job j s h)
