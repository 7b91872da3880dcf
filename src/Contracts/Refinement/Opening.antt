-- ===== src/Contracts/Refinement/Opening.antt =====
-- `create` and `confirmFund`, whole.
use stellances.Escrow.Submit.{
  get_admin_public_key-Framed, build_fund_xdr-Framed, verify_transaction-Framed,
}
use stellances.Escrow.{get_admin_public_key, verify_transaction}
use stellances.Contracts.Ledger.{Steps, ledger, books, further, here, Step, opened, Holds, funded}
use stellances.Table.{find, update, has}
use stellances.World.Action.{
  truthy, transaction, ok, Action, is_set, ◌>>◌, Done, pure, ◌>>=◌, Result,
}
use stellances.World.Laws.{Result-cases, transaction_cases}
use stellances.Table.Laws.{Unique}
use stellances.World.Frame.{Framed, Frame-refl, bind-Framed, both-Framed}
use stellances.Schema.{
  RowId, User, UserRole, Job, milestone_key, job_key, open_job, Contract, contract_key, in_progress,
  ContractStatus, contract_created, active, contract_job,
}
use stellances.World.{Env, World}
use stellances.Contracts.Loading.{find_one, load_contract, Loaded}
use stellances.Contracts.Create.{
  create, fund_xdr, CreateContractDto, create_rows, notify_funded, check_fund, record_funding,
  confirm_fund, set_job_status, notify, set_funded, check_create, hash_taken,
}
use stellances.Base.{any}
use stellances.Base.{
  some, String, ◌≡◌, Option-cases, inl, arith, inr, ap, none, false, ◌∷◌, ◌⊎◌, ◌<>◌, subst,
  Bool-cases, ◌++◌, Option, ℕ, ==_iff, sym, ◌∙◌,
}
use stellances.Contracts.Refinement.Shared.{
  still, bind-Steps, notify-Framed, Framed-Steps, load_contract_ok, Frame-ledger,
}
use stellances.Contracts.Refinement.Create.{create_rows_ok, check_create_ok, check_create-same}

fund_xdr-Framed :
    (env : Env) (dto : CreateContractDto) (id : RowId) (payer payee : User)
    → Framed (fund_xdr env dto id payer payee)
unfolding fund_xdr
fund_xdr-Framed env dto id payer payee w = elim (Option-cases (truthy payer.stellar_public_key)) [
  | inl e ↦ rw (e, fund_xdr) (Frame-refl w)
  | inr (k, e) ↦ elim (Option-cases (truthy payee.stellar_public_key)) [
    | inl e₁ ↦ rw (e, e₁, fund_xdr) (Frame-refl w)
    | inr (k', e₁) ↦
        rw (e, e₁, fund_xdr)
          (bind-Framed (get_admin_public_key env) _ (get_admin_public_key-Framed env)
            (λ a. build_fund_xdr-Framed env _) w)
  ]
]

find_one-same :
    (id : RowId) (caller : String) (role : UserRole) (w : World) → (find_one id caller role w).1 ≡ w
unfolding find_one
find_one-same id caller role w = elim (Result-cases (load_contract w.db id)) [
  | inl (x, e) ↦ ground arith
  | inr (c, e) ↦ ground arith
]

opening :
    (env : Env) (client_id : String) (dto : CreateContractDto) (j : Job) (w : World)
    → Unique milestone_key w.db.milestones
    → find job_key dto.job_id w.db.jobs ≡ some j
    → j.client_id ≡ client_id
    → j.status ≡ open_job
    → Steps (ledger w) (ledger (transaction (create_rows env client_id dto) w).1)
opening env client_id dto j w u e₁ e₂ e₃ =
    elim (transaction_cases (create_rows env client_id dto) w) [
      | inl e ↦ still (ap books e)
      | inr (c, v, made, e) ↦
          let r = create_rows_ok env client_id dto c w v made u in
          let ej : c.job_id ≡ dto.job_id = ap (λ (x : Contract). x.job_id) r.contract in
          rw e (
            rw r.after (
              further here (
                subst
                  (λ (x : RowId). Step (ledger w) (record (ledger w) {
                    jobs = update job_key x (set_job_status in_progress) w.db.jobs;
                    contracts = c ∷ w.db.contracts;
                    milestones = r.rows ++ w.db.milestones;
                  }))
                  ej
                  (opened (ledger w) c r.rows j r.new_id
                    (subst (λ x. find contract_job x w.db.contracts ≡ none) (sym ej) r.new_job)
                    (subst (λ x. find job_key x w.db.jobs ≡ some j) (sym ej) e₁)
                    (e₂ ∙ sym (ap (λ (x : Contract). x.client_id) r.contract)) e₃
                    (ap (λ (x : Contract). x.status) r.contract)
                    (ap (λ (x : Contract). x.escrow_tx_hash) r.contract) r.fresh r.unique))))
    ]

-- `create` opens a contract or changes nothing. Milestones have distinct ids in the database.
pub create-Steps :
    (env : Env) (client_id : String) (dto : CreateContractDto) (w : World)
    → Unique milestone_key w.db.milestones
    → Steps (ledger w) (ledger (create env client_id dto w).1)
unfolding create
create-Steps env client_id dto w u =
    bind-Steps (check_create client_id dto) _ w
      (still (ap ledger (check_create-same client_id dto w)))
      λ found v checked.
        let (same, job, owner, open_now, _, _, _) =
          check_create_ok client_id dto w v found.0 found.1 found.2 checked in
        after_checks found v
          (subst (λ (x : World). Unique milestone_key x.db.milestones) (sym same) u)
          (subst (λ (x : World). find job_key dto.job_id x.db.jobs ≡ some found.0) (sym same) job)
          owner open_now
  where
    title : Job → String
    title j = "A contract has been created for \"" <> j.title <> "\". Waiting for escrow funding."

    offer : Job × User × User → Contract → Action Done
    offer found c =
        notify env dto.freelancer_id contract_created "New contract offer" (title found.0) c.id none

    finish : Job × User × User → Contract → Action (Loaded × Option String)
    finish found c = fund_xdr env dto c.id found.2 found.1 >>= λ xdr.
        find_one c.id client_id UserRole.client >>= λ full. pure (full, xdr)

    after_checks :
        (found : Job × User × User) (v : World)
        → Unique milestone_key v.db.milestones
        → find job_key dto.job_id v.db.jobs ≡ some found.0
        → found.0.client_id ≡ client_id
        → found.0.status ≡ open_job
        → Steps (ledger v) (
            ledger
              ((transaction (create_rows env client_id dto) >>= λ c.
                  offer found c >> finish found c)
                v).1)
    after_checks found v u' e₁ e₂ e₃ =
        bind-Steps (transaction (create_rows env client_id dto))
          (λ c. offer found c >> finish found c) v (opening env client_id dto found.0 v u' e₁ e₂ e₃)
          λ c t made.
            bind-Steps (offer found c) (λ d. finish found c) t
              (Framed-Steps (offer found c) t (notify-Framed env _ _ _ _ _ _))
              λ d s told.
                bind-Steps (fund_xdr env dto c.id found.2 found.1)
                  (λ xdr. find_one c.id client_id UserRole.client >>= λ full. pure (full, xdr)) s
                  (Framed-Steps (fund_xdr env dto c.id found.2 found.1) s
                    (fund_xdr-Framed env dto c.id found.2 found.1))
                  λ xdr r built.
                    bind-Steps (find_one c.id client_id UserRole.client) (λ full. pure (full, xdr))
                      r (still (ap ledger (find_one-same c.id client_id UserRole.client r)))
                      (λ full q got. here)

pub check_fund-same : (id : RowId) (caller : String) (w : World) → (check_fund id caller w).1 ≡ w
unfolding check_fund
check_fund-same id caller w = elim (Result-cases (load_contract w.db id)) [
  | inl (x, e) ↦ ground arith
  | inr (c, e) ↦ ground arith
]

pub check_fund_ok :
    (id : RowId) (caller : String) (w v : World) (c : Loaded)
    → check_fund id caller w ≡ (ok c, v)
    → (v ≡ w)
      × (c.row.client_id ≡ caller)
      × (is_set c.row.escrow_tx_hash ≡ false)
      × ((c.row.status ≡ ContractStatus.pending) ⊎ (c.row.status ≡ active))
      × Holds id c.row (ledger w)
unfolding check_fund
check_fund_ok id caller w v c e = elim (Result-cases (load_contract w.db id)) [
  | inl (x, e₀) ↦ absurd (ground arith)
  | inr (c', e₀) ↦
      let facts = load_contract_ok w.db id {c = c'} e₀ in
      (
        ground arith,
        ground (arith, ==_iff c'.row.client_id caller),
        ground arith,
        ground arith,
        ground arith,
      )
]

record_funding_cases :
    (id : RowId) (h : String) (w : World)
    → ((record_funding id h w).1 ≡ w)
      ⊎ (ledger (record_funding id h w).1
          ≡ record (ledger w) { contracts = update contract_key id (set_funded h) w.db.contracts })
unfolding record_funding
record_funding_cases id h w = elim (Bool-cases (has contract_key id w.db.contracts)) [
  | inr missing ↦ inl (ground arith)
  | inl there ↦ elim (Bool-cases (any (hash_taken id h) w.db.contracts)) [
    | inl taken ↦ inl (ground arith)
    | inr free ↦ inr (ground arith)
  ]
]

notify_funded-Framed :
    (env : Env) (id : RowId) (c : Loaded) (h : String) → Framed (notify_funded env id c h)
unfolding notify_funded
notify_funded-Framed env id c h =
    both-Framed (notify env _ _ _ _ _ _) (notify env _ _ _ _ _ _) (notify-Framed env _ _ _ _ _ _)
      (notify-Framed env _ _ _ _ _ _)

-- `confirmFund` records the funding or changes nothing.
pub confirm_fund-Steps :
    (env : Env) (id : RowId) (caller tx_hash : String) (w : World)
    → Steps (ledger w) (ledger (confirm_fund env id caller tx_hash w).1)
unfolding confirm_fund
confirm_fund-Steps env id caller tx_hash w =
    bind-Steps (check_fund id caller) _ w (still (ap ledger (check_fund-same id caller w)))
      λ c v checked.
        let (same, _, unset, ready, holds) = check_fund_ok id caller w v c checked in
        bind-Steps (verify_transaction env tx_hash)
          (λ n.
            record_funding id tx_hash
            >> (notify_funded env id c tx_hash >> pure (set_funded tx_hash c.row)))
          v
          (Framed-Steps (verify_transaction env tx_hash) v (verify_transaction-Framed env tx_hash))
          λ n u verified.
            let same_books : ledger u ≡ ledger w =
              ap (λ (r : Result ℕ × World). ledger r.1) (sym verified)
              ∙ Frame-ledger (verify_transaction-Framed env tx_hash v)
              ∙ ap ledger same in
            bind-Steps (record_funding id tx_hash)
              (λ d. notify_funded env id c tx_hash >> pure (set_funded tx_hash c.row)) u
              (elim (record_funding_cases id tx_hash u) [
                | inl e ↦ still (ap ledger e)
                | inr e ↦ rw e (
                    further here (
                      funded (ledger u) id c.row tx_hash
                        (subst (Holds id c.row) (sym same_books) holds) unset ready))
              ])
              λ d t wrote.
                bind-Steps (notify_funded env id c tx_hash) (λ d'. pure (set_funded tx_hash c.row))
                  t
                  (Framed-Steps (notify_funded env id c tx_hash) t
                    (notify_funded-Framed env id c tx_hash))
                  (λ d' s told. here)
