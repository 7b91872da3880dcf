-- ===== src/Contracts/Endpoints.antt =====
-- What the endpoints of the contract service answer, beyond the steps of the ledger.
use stellances.Contracts.Refinement.Approval.{notify_completed-Framed, notify_approved-Framed}
use stellances.Base.{any}
use stellances.Contracts.Ledger.{ledger}
use stellances.Contracts.Loading.{load_contract, Loaded}
use stellances.World.Laws.{Result-cases, bind_post, bind_ok}
use stellances.Table.{has, update, find}
use stellances.World.Frame.{Frame}
use stellances.Escrow.Submit.{Confirmed, submit_admin_invocation_ok, submit_release_milestone-db}
use stellances.World.Action.{transaction, ok, Action, gets, ◌>>◌, ◌>>=◌, Result, Done}
use stellances.Schema.{
  RowId, ContractStatus, milestone_key, contract_key, Milestone, Contract, in_review, approved,
  payment_key, payment_hash, Database,
}
use stellances.Escrow.{
  get_admin_public_key, release_milestone_args, submit_with, admin_secret, submit_release_milestone,
}
use stellances.Contracts.Milestones.{
  pay_milestone, update_milestone, create_payment, insert_payment, new_payment,
  maybe_complete_contract, update_contract_status, approve_milestone, complete_contract,
  set_milestone_status, is_paid, notify_completed, milestone_paid_by, notify_approved,
  check_approve,
}
use stellances.World.{Env, ScVal, World, Invocation, success}
use stellances.Base.{
  some, ◌∷◌, String, List, ℕ, ◌≡◌, Option-cases, inl, arith, inr, refl, Bool-cases, ◌∙◌, Option,
  every, ◌||◌, subst, ap, sym,
}
use stellances.Contracts.Refinement.Milestones.{Ready, check_approve_ok}

-- the invocation that pays a milestone
abbrev pub release_call : Env → String → RowId → ℕ → Invocation
release_call env secret id amount = record {
  fn_name = "release_milestone";
  args = release_milestone_args id amount (env.public_key secret);
}

submit_with_ok :
    (env : Env) (fn_name : String) (rest : String → List ScVal) (w v : World) (h : String)
    → submit_with env fn_name rest w ≡ (ok h, v)
    → (secret : String) × (admin_secret env ≡ some secret)
      × (v.sent ≡ (record { fn_name = fn_name; args = rest (env.public_key secret) }, h) ∷ w.sent)
      × Confirmed env h v
unfolding get_admin_public_key
submit_with_ok env fn_name rest w v h e = elim (Option-cases (admin_secret env)) [
  | inl none_set ↦ absurd (ground arith)
  | inr (secret, e₀) ↦
      let inv : Invocation = record { fn_name = fn_name; args = rest (env.public_key secret) } in
      let (sent, good) = submit_admin_invocation_ok env inv w v h (ground arith) in
      (secret, e₀, sent, good)
]

pay_milestone_ok :
    (env : Env) (id mid : RowId) (amount : ℕ) (h : String) (w v : World)
    → transaction (pay_milestone env id mid amount h) w ≡ (ok tt, v)
    → (v.db.payments ≡ new_payment (env.uuid w.serial) id (some mid) amount h ∷ w.db.payments)
      × (v.sent ≡ w.sent)
unfolding pay_milestone update_milestone create_payment insert_payment
pay_milestone_ok env id mid amount h w v e =
    elim (Bool-cases (has milestone_key mid w.db.milestones)) [
      | inr missing ↦ absurd (ground arith)
      | inl there ↦
          elim (Bool-cases (
            has milestone_key mid
              (update milestone_key mid (set_milestone_status approved) w.db.milestones))) [
                | inr missing ↦ absurd (ground arith)
                | inl still_there ↦
                    let p = new_payment (env.uuid w.serial) id (some mid) amount h in
                    elim (Bool-cases (
                      has payment_key p.id w.db.payments
                      || has payment_hash h w.db.payments
                      || any (milestone_paid_by (some mid)) w.db.payments)) [
                        | inl clash ↦ absurd (ground arith)
                        | inr free ↦ (ground arith, ground arith)
                      ]
              ]
    ]

-- the payments and the invocations are as they were
abbrev Kept : World → World → Type 0
Kept w v = (v.db.payments ≡ w.db.payments) × (v.sent ≡ w.sent)

Kept-Frame : (w v u : World) → Kept w v → Frame v u → Kept w u
Kept-Frame w v u k f = (f.payments ∙ k.0, f.sent ∙ k.1)

update_contract_status-Kept :
    (id : RowId) (s : ContractStatus) (w : World) → Kept w (update_contract_status id s w).1
unfolding update_contract_status
update_contract_status-Kept id s w = elim (Bool-cases (has contract_key id w.db.contracts)) [
  | inl there ↦ (ground arith, ground arith)
  | inr missing ↦ (ground arith, ground arith)
]

maybe_complete_contract-Kept :
    (env : Env) (id : RowId) (w : World) → Kept w (maybe_complete_contract env id w).1
unfolding maybe_complete_contract complete_contract
maybe_complete_contract-Kept env id w = elim (Result-cases (load_contract w.db id)) [
  | inl (x, e) ↦ (ground arith, ground arith)
  | inr (c, e) ↦
      rw (e, maybe_complete_contract)
        (elim (Bool-cases (every is_paid c.milestones)) [
          | inr not_all ↦ rw not_all (refl, refl)
          | inl all ↦ rw all (
              bind_post (Kept w) (update_contract_status id ContractStatus.completed)
                (λ d. notify_completed env id c) w (update_contract_status-Kept id _ w)
                (λ d v done k. Kept-Frame w v _ k (notify_completed-Framed env id c v)))
        ])
]

-- When `approveMilestone` returns, its caller is the client of an active contract, the milestone was
-- in review there, the escrow contract has accepted exactly one new invocation, which releases the
-- milestone's amount of that contract, it was seen to succeed, and the one new payment records the
-- same contract, milestone and amount under the same hash.
pub approve_milestone_ok :
    (env : Env) (id mid : RowId) (caller : String) (w w' : World) (r : Option Milestone)
    → approve_milestone env id mid caller w ≡ (ok r, w')
    → (c : Contract) × (m : Milestone) × (secret h pid : String) × Ready id mid in_review c m
        (ledger w)
      × (c.client_id ≡ caller)
      × (w'.sent ≡ (release_call env secret id m.amount, h) ∷ w.sent)
      × ((i : ℕ) × (env.get_transaction i h ≡ some success))
      × (w'.db.payments ≡ new_payment pid id (some mid) m.amount h ∷ w.db.payments)
unfolding approve_milestone submit_release_milestone
approve_milestone_ok env id mid caller w w' r e =
    let (found, v, checked, r₁) =
      bind_ok (check_approve id mid caller) (λ f. submitting f.0 f.1) {w = w} {w' = w'} e in
    let (same, owner, ready) = check_approve_ok id mid caller w v found.0 found.1 checked in
    let (h, u, released_it, r₂) =
      bind_ok (submit_release_milestone env id found.1.amount) (paying_it found.0 found.1) {w = v}
        {w' = w'} r₁ in
    let (secret, _, sent, confirmed) =
      submit_with_ok env "release_milestone" (release_milestone_args id found.1.amount) v u h
        released_it in
    let (d₁, t, paid_it, r₃) =
      bind_ok (transaction (pay_milestone env id mid found.1.amount h))
        (λ d. completing found.0 found.1 h) {w = u} {w' = w'} r₂ in
    let (payment, sent_kept) = pay_milestone_ok env id mid found.1.amount h u t paid_it in
    let (d₂, s, completed_it, r₄) =
      bind_ok (maybe_complete_contract env id) (λ d. telling found.0 found.1 h) {w = t} {w' = w'}
        r₃ in
    let (d₃, q, told, r₅) =
      bind_ok (notify_approved env id mid found.0 found.1 h) (λ d. answer) {w = s} {w' = w'} r₄ in
    let kept : Kept t q =
      Kept-Frame t s q
        (subst (λ (x : Result Done × World). Kept t x.1) completed_it
          (maybe_complete_contract-Kept env id t))
        (subst (λ (x : Result Done × World). Frame s x.1) told
          (notify_approved-Framed env id mid found.0 found.1 h s)) in
    let last : q ≡ w' = ap (λ (x : Result (Option Milestone) × World). x.1) r₅ in
    let unsent : u.db ≡ v.db =
      ap (λ (x : Result String × World). x.1.db) (sym released_it)
      ∙ submit_release_milestone-db env id found.1.amount v in
    (
      found.0.row,
      found.1,
      secret,
      h,
      env.uuid u.serial,
      ready,
      owner,
      ap (λ (x : World). x.sent) (sym last)
          ∙ kept.1
          ∙ sent_kept
          ∙ sent
          ∙ ap (λ (x : World). (release_call env secret id found.1.amount, h) ∷ x.sent) same,
      (confirmed.0, confirmed.2),
      ap (λ (x : World). x.db.payments) (sym last)
          ∙ kept.0
          ∙ payment
          ∙ ap
              (λ (x : Database).
                new_payment (env.uuid u.serial) id (some mid) found.1.amount h ∷ x.payments)
              (unsent ∙ ap (λ (x : World). x.db) same),
    )
  where
    answer : Action (Option Milestone)
    answer = gets (λ x. find milestone_key mid x.db.milestones)

    telling : Loaded → Milestone → String → Action (Option Milestone)
    telling c m h = notify_approved env id mid c m h >> answer

    completing : Loaded → Milestone → String → Action (Option Milestone)
    completing c m h = maybe_complete_contract env id >> telling c m h

    paying_it : Loaded → Milestone → String → Action (Option Milestone)
    paying_it c m h = transaction (pay_milestone env id mid m.amount h) >> completing c m h

    submitting : Loaded → Milestone → Action (Option Milestone)
    submitting c m = submit_release_milestone env id m.amount >>= λ h. paying_it c m h
