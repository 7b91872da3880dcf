-- ===== src/Contracts/Refinement/Approval.antt =====
-- `approveMilestone`: the payment and the completion that may follow.
use stellances.Escrow.Submit.{submit_release_milestone-db}
use stellances.Table.Laws.{update-update}
use stellances.Contracts.Create.{notify}
use stellances.Base.{any}
use stellances.World.Frame.{both-Framed, Framed, bind-Framed}
use stellances.Contracts.Loading.{Loaded, milestone_in, get_contract_or_throw, load_contract}
use stellances.World.Action.{transaction, pure, ◌>>◌, gets, ok, ◌>>=◌, Result, Done}
use stellances.Table.{update, select, has, find}
use stellances.Contracts.Ledger.{Steps, Holds, ledger, here, further, finished, released, books}
use stellances.World.{Env, World}
use stellances.Escrow.{submit_release_milestone}
use stellances.Schema.{
  RowId, ContractStatus, Contract, active, Payment, contract_key, milestone_key, paid, approved,
  payment_key, payment_hash, Milestone, in_review,
}
use stellances.Contracts.Milestones.{
  maybe_complete_contract, approve_milestone, pay_milestone, update_contract_status,
  complete_contract, update_milestone, create_payment, notify_approved, insert_payment,
  check_approve, set_status, is_paid, set_milestone_status, new_payment, milestone_paid_by,
  notify_completed,
}
use stellances.Base.{
  refl, some, true, ◌∷◌, String, ◌≡◌, ℕ, ◌⊎◌, every, ap, Bool-cases, inl, inr, arith, subst, ◌||◌,
  if◌then◌else◌, sym, ◌∙◌,
}
use stellances.Contracts.Refinement.Milestones.{check_approve_ok, check_approve-same, Ready}
use stellances.Contracts.Refinement.Shared.{
  load_contract_ok, still, bind-Steps, Framed-Steps, notify-Framed,
}

-- `approveMilestone`'s transaction writes both tables or nothing.
pub pay_milestone_cases :
    (env : Env) (id mid : RowId) (amount : ℕ) (h : String) (w : World)
    → (ledger (transaction (pay_milestone env id mid amount h) w).1 ≡ ledger w)
      ⊎ ((p : Payment) × (p.contract_id ≡ id)
          × (p.milestone_id ≡ some mid)
          × (p.amount ≡ amount)
          × (p.stellar_tx_hash ≡ h)
          × (ledger (transaction (pay_milestone env id mid amount h) w).1 ≡ record (ledger w) {
            milestones = update milestone_key mid (set_milestone_status paid) w.db.milestones;
            payments = p ∷ w.db.payments;
          }))
unfolding pay_milestone update_milestone create_payment insert_payment
pay_milestone_cases env id mid amount h w =
    elim (Bool-cases (has milestone_key mid w.db.milestones)) [
      | inr missing ↦ inl (ground arith)
      | inl there ↦
          elim (Bool-cases (
            has milestone_key mid
              (update milestone_key mid (set_milestone_status approved) w.db.milestones))) [
                | inr missing ↦ inl (ground arith)
                | inl still_there ↦
                    let p = new_payment (env.uuid w.serial) id (some mid) amount h in
                    elim (Bool-cases (
                      has payment_key p.id w.db.payments
                      || has payment_hash h w.db.payments
                      || any (milestone_paid_by (some mid)) w.db.payments)) [
                        | inl clash ↦ inl (ground arith)
                        | inr free ↦ inr (
                          p,
                          refl,
                          refl,
                          refl,
                          refl,
                          ground (
                            arith,
                            update-update milestone_key mid (set_milestone_status approved)
                                (set_milestone_status paid) w.db.milestones (λ x. refl),
                          ),
                        )
                      ]
              ]
    ]

pub update_contract_status_cases :
    (id : RowId) (s : ContractStatus) (w : World)
    → ((update_contract_status id s w).1 ≡ w)
      ⊎ (ledger (update_contract_status id s w).1
          ≡ record (ledger w) { contracts = update contract_key id (set_status s) w.db.contracts })
unfolding update_contract_status
update_contract_status_cases id s w = elim (Bool-cases (has contract_key id w.db.contracts)) [
  | inl there ↦ inr (ground arith)
  | inr missing ↦ inl (ground arith)
]

pub notify_completed-Framed :
    (env : Env) (id : RowId) (c : Loaded) → Framed (notify_completed env id c)
unfolding notify_completed
notify_completed-Framed env id c =
    both-Framed (notify env _ _ _ _ _ _) (notify env _ _ _ _ _ _) (notify-Framed env _ _ _ _ _ _)
      (notify-Framed env _ _ _ _ _ _)

-- Where the contract is active, `_maybeCompleteContract` completes it if all is paid.
pub maybe_complete_contract-Steps :
    (env : Env) (id : RowId) (c : Contract) (w : World)
    → Holds id c (ledger w)
    → c.status ≡ active
    → Steps (ledger w) (ledger (maybe_complete_contract env id w).1)
unfolding maybe_complete_contract complete_contract
maybe_complete_contract-Steps env id c w holds is_active =
    bind-Steps (get_contract_or_throw id) _ w here λ found v loaded_v.
      let e : load_contract w.db id ≡ ok found = ap (λ (r : Result Loaded × World). r.0) loaded_v in
      let same : w ≡ v = ap (λ (r : Result Loaded × World). r.1) loaded_v in
      rest found v same (load_contract_ok w.db id {c = found} e).2
  where
    done :
        (found : Loaded) (v : World)
        → w ≡ v
        → every is_paid (select (milestone_in id) w.db.milestones) ≡ true
        → Steps (ledger v) (ledger (complete_contract env id found v).1)
    done found v same all =
        bind-Steps (update_contract_status id ContractStatus.completed)
          (λ d. notify_completed env id found) v
          (elim (update_contract_status_cases id ContractStatus.completed v) [
            | inl e ↦ still (ap ledger e)
            | inr e ↦ rw e (
                further here (
                  finished (ledger v) id c (subst (λ x. Holds id c (ledger x)) same holds) is_active
                    (subst
                      (λ (x : World).
                        every is_paid (select (milestone_in id) x.db.milestones) ≡ true)
                      same all)))
          ])
          λ u t e.
            Framed-Steps (notify_completed env id found) t (notify_completed-Framed env id found)

    rest :
        (found : Loaded) (v : World)
        → w ≡ v
        → found.milestones ≡ select (milestone_in id) w.db.milestones
        → Steps (ledger v) (
            ledger
              ((if every is_paid found.milestones then complete_contract env id found else pure tt)
                v).1)
    rest found v same ms = elim (Bool-cases (every is_paid found.milestones)) [
      | inr not_all ↦ rw not_all here
      | inl all ↦ rw all (done found v same (rw ms at all))
    ]

pub notify_approved-Framed :
    (env : Env) (id mid : RowId) (c : Loaded) (m : Milestone) (h : String)
    → Framed (notify_approved env id mid c m h)
unfolding notify_approved
notify_approved-Framed env id mid c m h =
    bind-Framed (notify env _ _ _ _ _ _) _ (notify-Framed env _ _ _ _ _ _)
      (λ d. notify-Framed env _ _ _ _ _ _)

paying :
    (env : Env) (id mid : RowId) (h : String) (c : Contract) (m : Milestone) (u : World)
    → Ready id mid in_review c m (ledger u)
    → let t = (transaction (pay_milestone env id mid m.amount h) u).1 in
      Steps (ledger u) (ledger t) × Holds id c (ledger t)
paying env id mid h c m u r = elim (pay_milestone_cases env id mid m.amount h u) [
  | inl e ↦ (still e, subst (Holds id c) (sym e) r.holds)
  | inr (p, e₁, e₂, e₃, e₄, e) ↦ (
    rw e (
        further here (
          released (ledger u) id mid c m p r.holds r.is_active r.has_milestone r.in_state e₁ e₂
            e₃)),
    subst (Holds id c) (sym e) r.holds,
  )
]

-- `approveMilestone` pays the milestone or nothing, and then completes the contract or not.
pub approve_milestone-Steps :
    (env : Env) (id mid : RowId) (caller : String) (w : World)
    → Steps (ledger w) (ledger (approve_milestone env id mid caller w).1)
unfolding approve_milestone
approve_milestone-Steps env id mid caller w =
    bind-Steps (check_approve id mid caller) _ w
      (still (ap ledger (check_approve-same id mid caller w)))
      λ found v checked.
        let (same, _, ready) = check_approve_ok id mid caller w v found.0 found.1 checked in
        after_checks found.0 found.1 v
          (subst (λ x. Ready id mid in_review found.0.row found.1 (ledger x)) (sym same) ready)
  where
    after_payment :
        (c : Loaded) (m : Milestone) (h : String) (t : World)
        → Holds id c.row (ledger t)
        → c.row.status ≡ active
        → Steps (ledger t) (
            ledger
              ((maybe_complete_contract env id
                  >> (notify_approved env id mid c m h
                      >> gets (λ x. find milestone_key mid x.db.milestones)))
                t).1)
    after_payment c m h t holds is_active =
        bind-Steps (maybe_complete_contract env id) _ t
          (maybe_complete_contract-Steps env id c.row t holds is_active)
          λ d s e.
            bind-Steps (notify_approved env id mid c m h) _ s
              (Framed-Steps (notify_approved env id mid c m h) s
                (notify_approved-Framed env id mid c m h))
              (λ d' r e'. here)

    after_checks :
        (c : Loaded) (m : Milestone) (v : World)
        → Ready id mid in_review c.row m (ledger v)
        → Steps (ledger v) (
            ledger
              ((submit_release_milestone env id m.amount >>= λ h.
                  (transaction (pay_milestone env id mid m.amount h)
                    >> (maybe_complete_contract env id
                        >> (notify_approved env id mid c m h
                            >> gets (λ x. find milestone_key mid x.db.milestones)))))
                v).1)
    after_checks c m v ready =
        bind-Steps (submit_release_milestone env id m.amount) _ v
          (still (ap books (submit_release_milestone-db env id m.amount v)))
          λ h u sent.
            let same : ledger u ≡ ledger v = ap books (
              ap (λ (r : Result String × World). r.1.db) (sym sent)
              ∙ submit_release_milestone-db env id m.amount v) in
            let (steps, holds) =
              paying env id mid h c.row m u
                (subst (Ready id mid in_review c.row m) (sym same) ready) in
            bind-Steps (transaction (pay_milestone env id mid m.amount h)) _ u steps λ d t paid_it.
              after_payment c m h t
                (subst (λ (r : Result Done × World). Holds id c.row (ledger r.1)) paid_it holds)
                ready.is_active
