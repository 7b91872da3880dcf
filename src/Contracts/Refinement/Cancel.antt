-- ===== src/Contracts/Refinement/Cancel.antt =====
-- `cancel`.
use stellances.Escrow.Submit.{submit_refund-db}
use stellances.Escrow.{submit_refund}
use stellances.Table.Laws.{find-key}
use stellances.Table.{update, has}
use stellances.Contracts.Create.{notify, update_job_status, set_job_status}
use stellances.Base.{any}
use stellances.World.Laws.{Result-cases}
use stellances.Contracts.Ledger.{
  ledger, Ledger, Holds, Steps, further, here, dropped, refunded, books,
}
use stellances.World.Frame.{Framed, both-Framed}
use stellances.World.Action.{Action, is_set, ok, transaction, ◌>>◌, pure, ◌>>=◌, gets}
use stellances.Contracts.Milestones.{
  create_payment, insert_payment, update_contract_status, set_status, new_payment,
  milestone_paid_by,
}
use stellances.Contracts.Loading.{Loaded, load_contract, remaining_amount}
use stellances.Schema.{
  RowId, UserRole, admin, job_key, ContractStatus, open_job, contract_key, Payment, payment_key,
  payment_hash,
}
use stellances.World.{Env, World}
use stellances.Contracts.Disputes.{
  notify_cancelled, check_cancel, cancel_rows, submitted_if, cancel,
}
use stellances.Base.{
  refl, none, some, true, false, ◌∷◌, Bool, String, Option, ◌≡◌, ◌⊎◌, ℕ, inl, ◌≢◌, arith, inr,
  ==_iff, ◌∙◌, Bool-cases, ◌||◌, ap, subst, sym,
}
use stellances.Contracts.Refinement.Shared.{
  load_contract_ok, still, notify-Framed, remaining_amount_lem, bind-Steps, Framed-Steps,
}
use stellances.Contracts.Refinement.Disputes.{submitted_if-db, after_same}

pub check_cancel-same :
    (id : RowId) (caller : String) (role : UserRole) (w : World)
    → (check_cancel id caller role w).1 ≡ w
unfolding check_cancel
check_cancel-same id caller role w = elim (Result-cases (load_contract w.db id)) [
  | inl (x, e) ↦ ground arith
  | inr (c, e) ↦ ground arith
]

-- what the checks of `cancel` have found
pub record MayCancel (id : RowId) (caller : String) (role : UserRole) (c : Loaded) (l : Ledger)
    : Type 0 where
  pub holds : Holds id c.row l
  pub its_job : c.job.id ≡ c.row.job_id
  pub party : (c.row.client_id ≡ caller) ⊎ (role ≡ admin)
  pub not_completed : c.row.status ≢ ContractStatus.completed
  pub not_cancelled : c.row.status ≢ ContractStatus.cancelled
  pub funded_by_admin :
      is_set c.row.escrow_tx_hash ≡ true → (c.row.status ≡ ContractStatus.pending) ⊎ (role ≡ admin)

pub check_cancel_ok :
    (id : RowId) (caller : String) (role : UserRole) (w v : World) (c : Loaded)
    → check_cancel id caller role w ≡ (ok c, v)
    → (v ≡ w) × MayCancel id caller role c (ledger w)
unfolding check_cancel
check_cancel_ok id caller role w v c e = elim (Result-cases (load_contract w.db id)) [
  | inl (x, e₀) ↦ absurd (ground arith)
  | inr (c', e₀) ↦
      let (holds, same_id, _, job_found) = load_contract_ok w.db id {c = c'} e₀ in
      let its_job = find-key job_key c'.row.job_id {x = c'.job} w.db.jobs job_found in
      let ec : c ≡ c' = ground arith in
      (
        ground arith,
        rw ec (record {
          holds = holds;
          its_job = its_job;
          party = ground (arith, ==_iff c'.row.client_id caller);
          not_completed = λ q. ground arith;
          not_cancelled = λ q. ground arith;
          funded_by_admin = λ q. ground arith;
        }),
      )
]

submitted_some :
    (b : Bool) (m : Action String) (w u : World) (h : String)
    → submitted_if b m w ≡ (ok (some h), u)
    → b ≡ true
submitted_some true m w u h e = refl
submitted_some false m w u h e = absurd (cc e)

-- `cancel`'s transaction writes the contract and the job, and with a refund a payment; or nothing.
pub cancel_rows_cases :
    (env : Env) (id : RowId) (c : Loaded) (n : ℕ) (h : Option String) (w : World)
    → let after = ledger (transaction (cancel_rows env id c n h) w).1 in
      let l = record (ledger w) {
        jobs = update job_key c.job.id (set_job_status open_job) w.db.jobs;
        contracts = update contract_key id (set_status ContractStatus.cancelled) w.db.contracts;
      } in
      (after ≡ ledger w)
      ⊎ ((is_set h ≡ false) × (after ≡ l))
      ⊎ ((p : Payment) × (is_set h ≡ true)
          × (p.contract_id ≡ id)
          × (p.milestone_id ≡ none)
          × (p.amount ≡ n)
          × (after ≡ record l { payments = p ∷ w.db.payments }))
unfolding cancel_rows create_payment insert_payment update_contract_status update_job_status
cancel_rows_cases env id c n none w = elim (Bool-cases (has contract_key id w.db.contracts)) [
  | inr missing ↦ inl (ground arith)
  | inl there ↦ elim (Bool-cases (has job_key c.job.id w.db.jobs)) [
    | inr missing ↦ inl (ground arith)
    | inl there' ↦ inr (inl (refl, ground arith))
  ]
]
cancel_rows_cases env id c n (some h) w = elim (Bool-cases (is_set (some h))) [
  | inr unset ↦ elim (Bool-cases (has contract_key id w.db.contracts)) [
    | inr missing ↦ inl (ground arith)
    | inl there ↦ elim (Bool-cases (has job_key c.job.id w.db.jobs)) [
      | inr missing ↦ inl (ground arith)
      | inl there' ↦ inr (inl (unset, ground arith))
    ]
  ]
  | inl set_h ↦
      let p = new_payment (env.uuid w.serial) id none n h in
      elim (Bool-cases (
        has payment_key p.id w.db.payments
        || has payment_hash h w.db.payments
        || any (milestone_paid_by none) w.db.payments)) [
          | inl clash ↦ inl (ground arith)
          | inr free ↦ elim (Bool-cases (has contract_key id w.db.contracts)) [
            | inr missing ↦ inl (ground arith)
            | inl there ↦ elim (Bool-cases (has job_key c.job.id w.db.jobs)) [
              | inr missing ↦ inl (ground arith)
              | inl there' ↦ inr (inr (p, set_h, refl, refl, refl, ground arith))
            ]
          ]
        ]
]

notify_cancelled-Framed :
    (env : Env) (id : RowId) (c : Loaded) (h : Option String) → Framed (notify_cancelled env id c h)
unfolding notify_cancelled
notify_cancelled-Framed env id c h =
    both-Framed (notify env _ _ _ _ _ _) (notify env _ _ _ _ _ _) (notify-Framed env _ _ _ _ _ _)
      (notify-Framed env _ _ _ _ _ _)

dropping :
    (env : Env) (id : RowId) (caller : String) (role : UserRole) (c : Loaded) (h : Option String)
    (u : World)
    → MayCancel id caller role c (ledger u)
    → ((k : String) → h ≡ some k → is_set c.row.escrow_tx_hash ≡ true)
    → Steps
        (ledger u)
        (ledger (transaction (cancel_rows env id c (remaining_amount id u.db) h) u).1)
dropping env id caller role c h u may submitted =
    elim (cancel_rows_cases env id c (remaining_amount id u.db) h u) [
      | inl e ↦ still e
      | inr (inl (unset, e)) ↦
          rw (e, may.its_job)
            (further here
              (dropped (ledger u) id c.row may.holds may.not_completed may.not_cancelled))
      | inr (inr (p, set_h, e₁, e₂, e₃, e)) ↦
          rw (e, may.its_job)
            (further here (
              refunded (ledger u) id c.row p may.holds may.not_completed may.not_cancelled
                (with_hash h set_h submitted) e₁ e₂ (e₃ ∙ remaining_amount_lem id u)))
    ]
  where
    with_hash :
        (g : Option String)
        → is_set g ≡ true
        → ((k : String) → g ≡ some k → is_set c.row.escrow_tx_hash ≡ true)
        → is_set c.row.escrow_tx_hash ≡ true
    with_hash none e f = absurd (cc e)
    with_hash (some k) e f = f k refl

-- `cancel` cancels the contract, with or without a refund, or changes nothing.
pub cancel-Steps :
    (env : Env) (id : RowId) (caller : String) (role : UserRole) (w : World)
    → Steps (ledger w) (ledger (cancel env id caller role w).1)
unfolding cancel
cancel-Steps env id caller role w =
    bind-Steps (check_cancel id caller role) _ w
      (still (ap ledger (check_cancel-same id caller role w)))
      λ c v checked.
        let (same, may) = check_cancel_ok id caller role w v c checked in
        after_checks c v (subst (λ x. MayCancel id caller role c (ledger x)) (sym same) may)
  where
    after_submission :
        (c : Loaded) (h : Option String) (u : World)
        → MayCancel id caller role c (ledger u)
        → ((k : String) → h ≡ some k → is_set c.row.escrow_tx_hash ≡ true)
        → Steps (ledger u) (
            ledger
              ((transaction (cancel_rows env id c (remaining_amount id u.db) h)
                  >> (notify_cancelled env id c h >> pure h))
                u).1)
    after_submission c h u may submitted =
        bind-Steps (transaction (cancel_rows env id c (remaining_amount id u.db) h))
          (λ x. notify_cancelled env id c h >> pure h) u
          (dropping env id caller role c h u may submitted)
          λ x t wrote.
            bind-Steps (notify_cancelled env id c h) (λ y. pure h) t
              (Framed-Steps (notify_cancelled env id c h) t (notify_cancelled-Framed env id c h))
              (λ y s told. here)

    after_checks :
        (c : Loaded) (v : World)
        → MayCancel id caller role c (ledger v)
        → Steps (ledger v) (
            ledger
              ((submitted_if (is_set c.row.escrow_tx_hash) (submit_refund env id) >>= λ h.
                  gets (λ x. remaining_amount id x.db) >>= λ n.
                  transaction (cancel_rows env id c n h) >> (notify_cancelled env id c h >> pure h))
                v).1)
    after_checks c v may =
        let m = submitted_if (is_set c.row.escrow_tx_hash) (submit_refund env id) in
        let quiet =
          submitted_if-db (is_set c.row.escrow_tx_hash) (submit_refund env id) v
            (submit_refund-db env id v) in
        bind-Steps m
          (λ h. gets (λ x. remaining_amount id x.db) >>= λ n.
            transaction (cancel_rows env id c n h) >> (notify_cancelled env id c h >> pure h))
          v (still (ap books quiet))
          λ h u sent.
            after_submission c h u
              (subst (λ db. MayCancel id caller role c (books db))
                (sym (after_same m v u h quiet sent)) may)
              (λ k e.
                submitted_some (is_set c.row.escrow_tx_hash) (submit_refund env id) v u k
                  (sent ∙ ap (λ (g : Option String). (ok g, u)) e))
