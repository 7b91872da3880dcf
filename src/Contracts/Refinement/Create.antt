-- ===== src/Contracts/Refinement/Create.antt =====
-- `create` and `confirmFund`.
use mathlib.Core.List.{append_assoc}
use stellances.World.Laws.{bind_ok}
use stellances.Table.{find, update, has}
use stellances.Table.Laws.{Unique}
use stellances.World.Action.{ok, Result, Done, ◌>>◌, pure}
use stellances.Contracts.Ledger.{IsFresh, ledger, Ledger, books}
use stellances.World.{Env, World}
use stellances.Schema.{
  RowId, Milestone, milestone_key, Contract, JobStatus, Database, contract_key, job_key,
  contract_job, in_progress, Job, User, open_job, user_key,
}
use stellances.Contracts.Create.{
  insert_milestone, insert_milestones, MilestoneInput, insert_contract, update_job_status,
  new_milestone, create_rows, CreateContractDto, new_contract, set_job_status, check_create,
}
use stellances.Base.{
  suc, none, [], ◌∷◌, List, All, ◌++◌, ◌≡◌, ap, Option-cases, inl, arith, inr, sym, refl, String,
  subst, ◌∙◌, Bool-cases, some, ==_iff,
}

pub insert_milestone_ok :
    (m : Milestone) (w v : World)
    → insert_milestone m w ≡ (ok tt, v)
    → (find milestone_key m.id w.db.milestones ≡ none)
      × (v.db ≡ record (w.db) { milestones = m ∷ w.db.milestones })
unfolding insert_milestone
insert_milestone_ok m w v e = elim (Option-cases (find milestone_key m.id w.db.milestones)) [
  | inl free ↦ (free, ground arith)
  | inr (x, taken) ↦ absurd (ground arith)
]

-- what `createMany` has put in front of the milestones that were there
pub record Inserted (id : RowId) (w v : World) : Type 0 where
  pub rows : List Milestone
  pub fresh : All (IsFresh id) rows
  pub unique : Unique milestone_key (rows ++ w.db.milestones)
  pub db : v.db ≡ record (w.db) { milestones = rows ++ w.db.milestones }

All-append :
    {A : Type 0} (P : A → Type 0) (xs : List A) (a : A) → All P xs → P a → All P (xs ++ a ∷ [])
All-append P [] a h p = (p, tt)
All-append P (x ∷ xs) a h p = (h.0, All-append P xs a h.1 p)

pub insert_milestones_ok :
    (env : Env) (id : RowId) (ms : List MilestoneInput) (w v : World)
    → insert_milestones env id ms w ≡ (ok tt, v)
    → Unique milestone_key w.db.milestones
    → Inserted id w v
unfolding insert_milestones
insert_milestones_ok env id [] w v e u = record {
  rows = [];
  fresh = tt;
  unique = u;
  db = ap (λ (r : Result Done × World). r.1.db) (sym e);
}
insert_milestones_ok env id (m ∷ ms) w v e u =
    let row = new_milestone id (env.uuid w.serial) m in
    let drawn = record w { serial = suc w.serial } in
    let (d, t, wrote, rest) =
      bind_ok (insert_milestone row) (λ x. insert_milestones env id ms) {w = drawn} {w' = v} e in
    let (free, db) = insert_milestone_ok row drawn t wrote in
    let stored : t.db.milestones ≡ row ∷ w.db.milestones = ap (λ (x : Database). x.milestones) db in
    let later =
      insert_milestones_ok env id ms t v rest
        (subst (Unique milestone_key) (sym stored) (free, u)) in
    let joined : later.rows ++ t.db.milestones ≡ (later.rows ++ row ∷ []) ++ w.db.milestones =
      ap (◌++◌ later.rows) stored ∙ sym (append_assoc later.rows (row ∷ []) w.db.milestones) in
    record {
      rows = later.rows ++ row ∷ [];
      fresh = All-append (IsFresh id) later.rows row later.fresh (refl, refl);
      unique = subst (Unique milestone_key) joined later.unique;
      db =
          later.db
          ∙ ap (λ (x : Database). record x { milestones = later.rows ++ x.milestones }) db
          ∙ ap (λ (xs : List Milestone). record (w.db) { milestones = xs })
              (sym (append_assoc later.rows (row ∷ []) w.db.milestones));
    }

insert_contract_ok :
    (c : Contract) (w v : World)
    → insert_contract c w ≡ (ok tt, v)
    → (find contract_key c.id w.db.contracts ≡ none)
      × (find contract_job c.job_id w.db.contracts ≡ none)
      × (v ≡ record w { db = record (w.db) { contracts = c ∷ w.db.contracts } })
unfolding insert_contract
insert_contract_ok c w v e = elim (Option-cases (find contract_key c.id w.db.contracts)) [
  | inr (x, taken) ↦ absurd (ground arith)
  | inl free ↦ elim (Option-cases (find contract_job c.job_id w.db.contracts)) [
    | inr (x, taken) ↦ absurd (ground arith)
    | inl free' ↦ (free, free', ground arith)
  ]
]

update_job_status_ok :
    (id : RowId) (s : JobStatus) (w v : World)
    → update_job_status id s w ≡ (ok tt, v)
    → v ≡ record w { db = record (w.db) { jobs = update job_key id (set_job_status s) w.db.jobs } }
unfolding update_job_status
update_job_status_ok id s w v e = elim (Bool-cases (has job_key id w.db.jobs)) [
  | inl there ↦ ground arith
  | inr missing ↦ absurd (ground arith)
]

-- what `create`'s transaction has done when it returns
pub record Created (client_id : String) (dto : CreateContractDto) (c : Contract) (l k : Ledger)
    : Type 0 where
  pub rows : List Milestone
  pub contract : c ≡ new_contract c.id client_id dto
  pub new_id : find contract_key c.id l.contracts ≡ none
  pub new_job : find contract_job dto.job_id l.contracts ≡ none
  pub fresh : All (IsFresh c.id) rows
  pub unique : Unique milestone_key (rows ++ l.milestones)
  pub after : k ≡ record l {
    jobs = update job_key dto.job_id (set_job_status in_progress) l.jobs;
    contracts = c ∷ l.contracts;
    milestones = rows ++ l.milestones;
  }

pub create_rows_ok :
    (env : Env) (client_id : String) (dto : CreateContractDto) (c : Contract) (w v : World)
    → create_rows env client_id dto w ≡ (ok c, v)
    → Unique milestone_key w.db.milestones
    → Created client_id dto c (ledger w) (ledger v)
unfolding create_rows
create_rows_ok env client_id dto c w v e u =
    let id = env.uuid w.serial in
    let row = new_contract id client_id dto in
    let drawn = record w { serial = suc w.serial } in
    let (d₁, t, made, rest) =
      bind_ok (insert_contract row)
        (λ x.
          insert_milestones env id dto.milestones
          >> (update_job_status dto.job_id in_progress >> pure row))
        {w = drawn} {w' = v} e in
    let (d₂, s, filled, rest₂) =
      bind_ok (insert_milestones env id dto.milestones)
        (λ x. update_job_status dto.job_id in_progress >> pure row) {w = t} {w' = v} rest in
    let (d₃, r, moved, rest₃) =
      bind_ok (update_job_status dto.job_id in_progress) (λ x. pure row) {w = s} {w' = v} rest₂ in
    let (free, free_job, et) = insert_contract_ok row drawn t made in
    let ins =
      insert_milestones_ok env id dto.milestones t s filled
        (subst (λ (x : World). Unique milestone_key x.db.milestones) (sym et) u) in
    let er = update_job_status_ok dto.job_id in_progress s r moved in
    let ec : row ≡ c = cc rest₃ in
    let ev : r ≡ v = cc rest₃ in
    let in_progress_db : Database → Ledger = λ x. record (books x) {
      jobs = update job_key dto.job_id (set_job_status in_progress) x.jobs;
    } in
    subst (λ x. Created client_id dto x (ledger w) (ledger v)) ec
      (record {
        rows = ins.rows;
        contract = refl;
        new_id = free;
        new_job = free_job;
        fresh = ins.fresh;
        unique =
            subst (λ (x : World). Unique milestone_key (ins.rows ++ x.db.milestones)) et ins.unique;
        after =
            ap ledger (sym ev)
            ∙ ap ledger er
            ∙ ap in_progress_db ins.db
            ∙ ap
                (λ (x : World).
                  in_progress_db (record (x.db) { milestones = ins.rows ++ x.db.milestones }))
                et;
      })

pub check_create-same :
    (client_id : String) (dto : CreateContractDto) (w : World)
    → (check_create client_id dto w).1 ≡ w
unfolding check_create
check_create-same client_id dto w = elim (Option-cases (find job_key dto.job_id w.db.jobs)) [
  | inl e ↦ ground arith
  | inr (j, e) ↦ ground arith
]

pub check_create_ok :
    (client_id : String) (dto : CreateContractDto) (w v : World) (j : Job) (payee payer : User)
    → check_create client_id dto w ≡ (ok (j, payee, payer), v)
    → (v ≡ w)
      × (find job_key dto.job_id w.db.jobs ≡ some j)
      × (j.client_id ≡ client_id)
      × (j.status ≡ open_job)
      × (find contract_job dto.job_id w.db.contracts ≡ none)
      × (find user_key dto.freelancer_id w.db.users ≡ some payee)
      × (find user_key client_id w.db.users ≡ some payer)
unfolding check_create
check_create_ok client_id dto w v j payee payer e =
    elim (Option-cases (find job_key dto.job_id w.db.jobs)) [
      | inl e₀ ↦ absurd (ground arith)
      | inr (j', e₀) ↦ elim (Option-cases (find user_key dto.freelancer_id w.db.users)) [
        | inl e₁ ↦ absurd (ground arith)
        | inr (p, e₁) ↦ elim (Option-cases (find user_key client_id w.db.users)) [
          | inl e₂ ↦ absurd (ground arith)
          | inr (q, e₂) ↦ (
            ground arith,
            ground arith,
            ground (arith, ==_iff j'.client_id client_id),
            ground arith,
            ground arith,
            ground arith,
            ground arith,
          )
        ]
      ]
    ]
