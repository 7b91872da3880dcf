-- ===== src/Contracts/Refinement/Endings.antt =====
-- `resolveDispute` and `cancel`.
use stellances.Escrow.Submit.{submit_resolve_dispute-db}
use stellances.Table.{update, has}
use stellances.Contracts.Create.{notify}
use stellances.Base.{any}
use stellances.Contracts.Ledger.{ledger, Steps, Holds, further, here, settled, books}
use stellances.World.Action.{ok, transaction, ◌>>◌, pure, ◌>>=◌, gets}
use stellances.World.Laws.{Result-cases}
use stellances.World.Frame.{Framed, both-Framed}
use stellances.Contracts.Loading.{Loaded, load_contract, remaining_amount}
use stellances.Contracts.Milestones.{
  create_payment, insert_payment, update_contract_status, set_status, new_payment,
  milestone_paid_by,
}
use stellances.Schema.{
  RowId, UserRole, ContractStatus, Contract, admin, disputed, Payment, contract_key, payment_key,
  payment_hash,
}
use stellances.Escrow.{Decision, submit_resolve_dispute}
use stellances.World.{Env, World}
use stellances.Contracts.Disputes.{
  notify_resolved, resolve_dispute, check_resolve, settle, final_status, ResolveDisputeDto,
  decision_map, Resolution, bps,
}
use stellances.Base.{
  refl, none, some, ◌∷◌, String, ◌≡◌, ◌⊎◌, ℕ, inl, inr, arith, Option-cases, ◌∙◌, Bool-cases, ◌||◌,
  ap, subst, sym,
}
use stellances.Contracts.Refinement.Shared.{
  load_contract_ok, still, notify-Framed, bind-Steps, Framed-Steps, remaining_amount_lem,
}
use stellances.Contracts.Refinement.Disputes.{after_same}

pub check_resolve-same :
    (id : RowId) (role : UserRole) (dto : ResolveDisputeDto) (w : World)
    → (check_resolve id role dto w).1 ≡ w
unfolding check_resolve
check_resolve-same id role dto w = elim (Result-cases (load_contract w.db id)) [
  | inl (x, e) ↦ ground arith
  | inr (c, e) ↦ ground arith
]

pub check_resolve_ok :
    (id : RowId) (role : UserRole) (dto : ResolveDisputeDto) (w v : World) (c : Loaded)
    (d : Decision)
    → check_resolve id role dto w ≡ (ok (c, d), v)
    → (v ≡ w)
      × (role ≡ admin)
      × (c.row.status ≡ disputed)
      × (decision_map dto.decision ≡ some d)
      × Holds id c.row (ledger w)
unfolding check_resolve
check_resolve_ok id role dto w v c d e = elim (Result-cases (load_contract w.db id)) [
  | inl (x, e₀) ↦ absurd (ground arith)
  | inr (c', e₀) ↦
      let facts = load_contract_ok w.db id {c = c'} e₀ in
      elim (Option-cases (decision_map dto.decision)) [
        | inl e₁ ↦ absurd (ground arith)
        | inr (d', e₁) ↦ (ground arith, ground arith, ground arith, ground arith, ground arith)
      ]
]

-- `resolveDispute`'s transaction writes both tables or nothing.
pub settle_cases :
    (env : Env) (id : RowId) (n : ℕ) (h : String) (s : ContractStatus) (w : World)
    → (ledger (transaction (settle env id n h s) w).1 ≡ ledger w)
      ⊎ ((p : Payment) × (p.contract_id ≡ id)
          × (p.milestone_id ≡ none)
          × (p.amount ≡ n)
          × (ledger (transaction (settle env id n h s) w).1 ≡ record (ledger w) {
            contracts = update contract_key id (set_status s) w.db.contracts;
            payments = p ∷ w.db.payments;
          }))
unfolding settle create_payment insert_payment update_contract_status
settle_cases env id n h s w =
    let p = new_payment (env.uuid w.serial) id none n h in
    elim (Bool-cases (
      has payment_key p.id w.db.payments
      || has payment_hash h w.db.payments
      || any (milestone_paid_by none) w.db.payments)) [
        | inl clash ↦ inl (ground arith)
        | inr free ↦ elim (Bool-cases (has contract_key id w.db.contracts)) [
          | inr missing ↦ inl (ground arith)
          | inl there ↦ inr (p, refl, refl, refl, ground arith)
        ]
      ]

final_status-ends :
    (d : Decision)
    → (final_status d ≡ ContractStatus.completed) ⊎ (final_status d ≡ ContractStatus.cancelled)
final_status-ends Decision.release = inl refl
final_status-ends Decision.refund = inr refl
final_status-ends Decision.split = inl refl

notify_resolved-Framed :
    (env : Env) (id : RowId) (c : Loaded) (d : Decision) (dto : ResolveDisputeDto)
    → Framed (notify_resolved env id c d dto)
unfolding notify_resolved
notify_resolved-Framed env id c d dto =
    both-Framed (notify env _ _ _ _ _ _) (notify env _ _ _ _ _ _) (notify-Framed env _ _ _ _ _ _)
      (notify-Framed env _ _ _ _ _ _)

settling :
    (env : Env) (id : RowId) (h : String) (c : Contract) (d : Decision) (u : World)
    → Holds id c (ledger u)
    → c.status ≡ disputed
    → Steps
        (ledger u)
        (ledger (transaction (settle env id (remaining_amount id u.db) h (final_status d)) u).1)
settling env id h c d u holds is_disputed =
    elim (settle_cases env id (remaining_amount id u.db) h (final_status d) u) [
      | inl e ↦ still e
      | inr (p, e₁, e₂, e₃, e) ↦ rw e (
          further here (
            settled (ledger u) id c p (final_status d) holds is_disputed (final_status-ends d) e₁ e₂
              (e₃ ∙ remaining_amount_lem id u)))
    ]

-- `resolveDispute` settles the contract or changes nothing.
pub resolve_dispute-Steps :
    (env : Env) (id : RowId) (caller : String) (role : UserRole) (dto : ResolveDisputeDto)
    (w : World)
    → Steps (ledger w) (ledger (resolve_dispute env id caller role dto w).1)
unfolding resolve_dispute
resolve_dispute-Steps env id caller role dto w =
    bind-Steps (check_resolve id role dto) _ w
      (still (ap ledger (check_resolve-same id role dto w)))
      λ found v checked.
        let (same, _, is_disputed, _, holds) =
          check_resolve_ok id role dto w v found.0 found.1 checked in
        after_checks found.0 found.1 v is_disputed
          (subst (λ x. Holds id found.0.row (ledger x)) (sym same) holds)
  where
    after_submission :
        (c : Loaded) (d : Decision) (h : String) (u : World)
        → c.row.status ≡ disputed
        → Holds id c.row (ledger u)
        → Steps (ledger u) (
            ledger
              ((transaction (settle env id (remaining_amount id u.db) h (final_status d))
                  >> (notify_resolved env id c d dto
                      >> pure {A = Resolution} (record { tx_hash = h; status = final_status d })))
                u).1)
    after_submission c d h u is_disputed holds =
        bind-Steps (transaction (settle env id (remaining_amount id u.db) h (final_status d)))
          (λ x.
            notify_resolved env id c d dto
            >> pure {A = Resolution} (record { tx_hash = h; status = final_status d }))
          u (settling env id h c.row d u holds is_disputed)
          λ x t wrote.
            bind-Steps (notify_resolved env id c d dto)
              (λ y. pure {A = Resolution} (record { tx_hash = h; status = final_status d })) t
              (Framed-Steps (notify_resolved env id c d dto) t
                (notify_resolved-Framed env id c d dto))
              (λ y s told. here)

    after_checks :
        (c : Loaded) (d : Decision) (v : World)
        → c.row.status ≡ disputed
        → Holds id c.row (ledger v)
        → Steps (ledger v) (
            ledger
              ((submit_resolve_dispute env id d (bps dto) >>= λ h.
                  gets (λ x. remaining_amount id x.db) >>= λ n.
                  transaction (settle env id n h (final_status d))
                  >> (notify_resolved env id c d dto
                      >> pure {A = Resolution} (record { tx_hash = h; status = final_status d })))
                v).1)
    after_checks c d v is_disputed holds =
        let quiet = submit_resolve_dispute-db env id d (bps dto) v in
        bind-Steps (submit_resolve_dispute env id d (bps dto))
          (λ h. gets (λ x. remaining_amount id x.db) >>= λ n.
            transaction (settle env id n h (final_status d))
            >> (notify_resolved env id c d dto
                >> pure {A = Resolution} (record { tx_hash = h; status = final_status d })))
          v (still (ap books quiet))
          λ h u sent. after_submission c d h u is_disputed (
            subst (λ db. Holds id c.row (books db))
              (sym (after_same (submit_resolve_dispute env id d (bps dto)) v u h quiet sent)) holds)
