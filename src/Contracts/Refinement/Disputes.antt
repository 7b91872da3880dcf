-- ===== src/Contracts/Refinement/Disputes.antt =====
-- `dispute`, `resolveDispute` and `cancel`.
use stellances.Escrow.Submit.{submit_dispute-db}
use stellances.Contracts.Milestones.{update_contract_status, set_status}
use stellances.Escrow.{submit_dispute}
use stellances.Contracts.Create.{notify}
use stellances.World.Laws.{Result-cases, bind_post}
use stellances.World.Frame.{Framed, both-Framed}
use stellances.Contracts.Ledger.{Steps, ledger, Holds, books, further, here, frozen}
use stellances.Contracts.Loading.{Loaded, load_contract}
use stellances.Schema.{RowId, active, disputed}
use stellances.World.{Env, World}
use stellances.World.Action.{Action, ok, pure, Result, is_set, ◌>>◌}
use stellances.Contracts.Disputes.{dispute, check_dispute, notify_disputed, submitted_if}
use stellances.Base.{
  refl, some, true, false, Bool, String, ◌≡◌, ap, ◌⊎◌, inl, arith, sym, ◌∙◌, inr, ==_iff, subst,
}
use stellances.Contracts.Refinement.Shared.{
  load_contract_ok, still, notify-Framed, bind-Steps, Framed-Steps,
}
use stellances.Contracts.Refinement.Approval.{update_contract_status_cases}

pub check_dispute-same :
    (id : RowId) (caller : String) (w : World) → (check_dispute id caller w).1 ≡ w
unfolding check_dispute
check_dispute-same id caller w = elim (Result-cases (load_contract w.db id)) [
  | inl (x, e) ↦ ground arith
  | inr (c, e) ↦ ground arith
]

pub check_dispute_ok :
    (id : RowId) (caller : String) (w v : World) (c : Loaded)
    → check_dispute id caller w ≡ (ok c, v)
    → (v ≡ w)
      × ((c.row.client_id ≡ caller) ⊎ (c.row.freelancer_id ≡ caller))
      × (c.row.status ≡ active)
      × Holds id c.row (ledger w)
unfolding check_dispute
check_dispute_ok id caller w v c e = elim (Result-cases (load_contract w.db id)) [
  | inl (x, e₀) ↦ absurd (ground arith)
  | inr (c', e₀) ↦
      let facts = load_contract_ok w.db id {c = c'} e₀ in
      (
        ground arith,
        ground (arith, ==_iff c'.row.client_id caller, ==_iff c'.row.freelancer_id caller),
        ground arith,
        ground arith,
      )
]

pub submitted_if-db :
    (b : Bool) (m : Action String) (w : World)
    → (m w).1.db ≡ w.db
    → (submitted_if b m w).1.db ≡ w.db
submitted_if-db true m w h =
    bind_post (λ v. v.db ≡ w.db) m (λ h'. pure (some h')) w h (λ a v e k. k)
submitted_if-db false m w h = refl

-- the database after a part that leaves it alone
pub after_same {ℓ} :
    {A : Type ℓ} (m : Action A) (w v : World) (a : A)
    → (m w).1.db ≡ w.db
    → m w ≡ (ok a, v)
    → v.db ≡ w.db
after_same m w v a h e = ap (λ (r : Result _ × World). r.1.db) (sym e) ∙ h

notify_disputed-Framed :
    (env : Env) (id : RowId) (caller : String) (c : Loaded)
    → Framed (notify_disputed env id caller c)
unfolding notify_disputed
notify_disputed-Framed env id caller c =
    both-Framed (notify env _ _ _ _ _ _) (notify env _ _ _ _ _ _) (notify-Framed env _ _ _ _ _ _)
      (notify-Framed env _ _ _ _ _ _)

-- `dispute` freezes the contract or changes nothing.
pub dispute-Steps :
    (env : Env) (id : RowId) (caller reason : String) (w : World)
    → Steps (ledger w) (ledger (dispute env id caller reason w).1)
unfolding dispute
dispute-Steps env id caller reason w =
    bind-Steps (check_dispute id caller) _ w (still (ap ledger (check_dispute-same id caller w)))
      λ c v checked.
        let (same, _, is_active, holds) = check_dispute_ok id caller w v c checked in
        after_checks c v is_active (subst (λ x. Holds id c.row (ledger x)) (sym same) holds)
  where
    after_checks :
        (c : Loaded) (v : World)
        → c.row.status ≡ active
        → Holds id c.row (ledger v)
        → Steps (ledger v) (
            ledger
              ((submitted_if (is_set c.row.escrow_tx_hash) (submit_dispute env id)
                  >> (update_contract_status id disputed
                      >> (notify_disputed env id caller c >> pure (set_status disputed c.row))))
                v).1)
    after_checks c v is_active holds =
        let quiet =
          submitted_if-db (is_set c.row.escrow_tx_hash) (submit_dispute env id) v
            (submit_dispute-db env id v) in
        bind-Steps (submitted_if (is_set c.row.escrow_tx_hash) (submit_dispute env id))
          (λ h.
            update_contract_status id disputed
            >> (notify_disputed env id caller c >> pure (set_status disputed c.row)))
          v (still (ap books quiet))
          λ h u sent.
            let same =
              after_same (submitted_if (is_set c.row.escrow_tx_hash) (submit_dispute env id)) v u h
                quiet sent in
            bind-Steps (update_contract_status id disputed)
              (λ d. notify_disputed env id caller c >> pure (set_status disputed c.row)) u
              (elim (update_contract_status_cases id disputed u) [
                | inl e ↦ still (ap ledger e)
                | inr e ↦ rw e (
                    further here (
                      frozen (ledger u) id c.row
                        (subst (λ d. Holds id c.row (books d)) (sym same) holds) is_active))
              ])
              λ d t wrote.
                bind-Steps (notify_disputed env id caller c)
                  (λ d'. pure (set_status disputed c.row)) t
                  (Framed-Steps (notify_disputed env id caller c) t
                    (notify_disputed-Framed env id caller c))
                  (λ d' s told. here)
