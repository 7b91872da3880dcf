-- ===== src/Api/Dealings.antt =====
-- Every request about contracts keeps an invariant that their writes keep, and a request about
-- payments leaves the database as it is.
use stellances.Escrow.Submit.{
  submit_refund-db, submit_dispute-db, submit_resolve_dispute-db, submit_release_milestone-db,
}
use stellances.Escrow.{
  build_fund_xdr, build_xdr, get_admin_public_key, Decision, submit_refund, verify_transaction,
  check_simulation, submit_dispute, submit_resolve_dispute, submit_release_milestone, FundParams,
}
use stellances.World.Action.{Action, truthy, pure}
use stellances.World.{Simulation, simulation_error, simulated}
use stellances.Notifications.Delivery.{push-db}
use stellances.Http.Validation.{valid_milestone, valid_milestone-amount}
use stellances.Http.{Server}
use stellances.Schema.{Database, RowId, Notification, NotificationType, User, UserRole}
use stellances.Base.{
  refl, true, [], ◌∷◌, String, every, List, ◌≡◌, Option, arith, none, some, false, Bool, ℕ,
}
use stellances.Api.Writes.{ContractWrites}
use stellances.Contracts.Create.{
  notify, insert_milestones, MilestoneInput, CreateContractDto, create_rows, fund_xdr,
}
use stellances.Contracts.Loading.{get_contract_or_throw}
use stellances.World.Keeps.{Keeps, keeps_rules, Keeps-quiet, Keeps-pure, Keeps-throw}
use stellances.Notifications.{create as create_notification, push, CreateNotificationDto}
use stellances.Contracts.Create.{create, check_create, confirm_fund, check_fund, notify_funded}
use stellances.Contracts.Loading.{find_one}
use stellances.Contracts.Milestones.{
  create_payment, submit_milestone, approve_milestone, check_submit, check_approve, pay_milestone,
  notify_approved, complete_contract, maybe_complete_contract, notify_completed,
}
use stellances.Contracts.Disputes.{
  dispute, resolve_dispute, cancel, check_cancel, check_dispute, check_resolve, ResolveDisputeDto,
  submitted_if, settle, cancel_rows, record_refund, notify_cancelled, notify_disputed,
  notify_resolved,
}

module _ {P : Database → Type 0} (k : ContractWrites P) (srv : Server) where
  push-Keeps : (u : String) (n : Notification) → Keeps P (push u n)
  push-Keeps u n = Keeps-quiet _ (push-db u n)

  note-Keeps : (dto : CreateNotificationDto) → Keeps P (create_notification srv.env dto)
  unfolding create_notification
  note-Keeps dto =
      let p = push-Keeps in let i = k.insert_notification in search keeps_rules depth 12

  notify-Keeps :
      (u : String) (y : NotificationType) (a b : String) (id : RowId) (m : Option RowId)
      → Keeps P (notify srv.env u y a b id m)
  notify-Keeps u y a b id m = let n = note-Keeps in search keeps_rules depth 12

  pub load-Keeps : (id : RowId) → Keeps P (get_contract_or_throw id)
  load-Keeps id = Keeps-quiet _ (λ w. refl)

  insert_milestones-Keeps :
      (id : RowId) (ms : List MilestoneInput)
      → every valid_milestone ms ≡ true
      → Keeps P (insert_milestones srv.env id ms)
  unfolding insert_milestones
  insert_milestones-Keeps id [] h = Keeps-pure _
  insert_milestones-Keeps id (m ∷ ms) h =
      let rest = insert_milestones-Keeps id ms (ground arith) in
      let i = k.insert_milestone in
      let worth = valid_milestone-amount m (ground arith) in search keeps_rules depth 12

  create_rows-Keeps :
      (u : String) (dto : CreateContractDto)
      → every valid_milestone dto.milestones ≡ true
      → Keeps P (create_rows srv.env u dto)
  unfolding create_rows
  create_rows-Keeps u dto h =
      let i = k.insert_contract in
      let m = insert_milestones-Keeps in let j = k.job_status in search keeps_rules depth 12

  Keeps-option :
      {A B : Type 0} (o : Option A) (m : Action B) (f : A → Action B)
      → Keeps P m
      → ((a : A) → Keeps P (f a))
      → Keeps P (elim o [ none ↦ m | some a ↦ f a ])
  Keeps-option none m f km kf = km
  Keeps-option (some a) m f km kf = kf a

  check_simulation-Keeps : (what : String) (s : Simulation) → Keeps P (check_simulation what s)
  check_simulation-Keeps what simulated = Keeps-pure _
  check_simulation-Keeps what (simulation_error e) = Keeps-throw _

  build_xdr-Keeps : (p : FundParams) → Keeps P (build_fund_xdr srv.env p)
  unfolding build_fund_xdr build_xdr
  build_xdr-Keeps p = let c = check_simulation-Keeps in search keeps_rules depth 12

  admin_key-Keeps : Keeps P (get_admin_public_key srv.env)
  unfolding get_admin_public_key
  admin_key-Keeps = search keeps_rules depth 12

  fund_xdr-Keeps :
      (dto : CreateContractDto) (id : RowId) (a b : User) → Keeps P (fund_xdr srv.env dto id a b)
  unfolding fund_xdr
  fund_xdr-Keeps dto id a b =
      Keeps-option (truthy a.stellar_public_key) (pure none) _ (Keeps-pure none) (λ payer.
        Keeps-option (truthy b.stellar_public_key) (pure none) _ (Keeps-pure none) (λ payee.
          let x = build_xdr-Keeps in let g = admin_key-Keeps in search keeps_rules depth 8))

  pub create-Keeps :
      (u : String) (dto : CreateContractDto)
      → every valid_milestone dto.milestones ≡ true
      → Keeps P (create srv.env u dto)
  unfolding create check_create find_one
  create-Keeps u dto h =
      let r = create_rows-Keeps in
      let n = notify-Keeps in
      let x = fund_xdr-Keeps in let l = load-Keeps in search keeps_rules depth 14

  verify-Keeps : (h : String) → Keeps P (verify_transaction srv.env h)
  unfolding verify_transaction
  verify-Keeps h = search keeps_rules depth 12

  pub confirm_fund-Keeps : (id : RowId) (u h : String) → Keeps P (confirm_fund srv.env id u h)
  unfolding confirm_fund check_fund notify_funded
  confirm_fund-Keeps id u h =
      let l = load-Keeps in
      let v = verify-Keeps in
      let f = k.funding in let n = notify-Keeps in search keeps_rules depth 14

  pub submit_milestone-Keeps :
      (id mid : RowId) (u : String) → Keeps P (submit_milestone srv.env id mid u)
  unfolding submit_milestone check_submit
  submit_milestone-Keeps id mid u =
      let l = load-Keeps in
      let s = k.milestone_status in let n = notify-Keeps in search keeps_rules depth 14

  create_payment-Keeps :
      (id : RowId) (m : Option RowId) (n : ℕ) (h : String)
      → Keeps P (create_payment srv.env id m n h)
  unfolding create_payment
  create_payment-Keeps id m n h = let i = k.insert_payment in search keeps_rules depth 12

  pay_milestone-Keeps :
      (id mid : RowId) (n : ℕ) (h : String) → Keeps P (pay_milestone srv.env id mid n h)
  unfolding pay_milestone
  pay_milestone-Keeps id mid n h =
      let s = k.milestone_status in let c = create_payment-Keeps in search keeps_rules depth 12

  maybe_complete-Keeps : (id : RowId) → Keeps P (maybe_complete_contract srv.env id)
  unfolding maybe_complete_contract complete_contract notify_completed
  maybe_complete-Keeps id =
      let l = load-Keeps in
      let s = k.contract_status in let n = notify-Keeps in search keeps_rules depth 14

  release-Keeps : (id : RowId) (n : ℕ) → Keeps P (submit_release_milestone srv.env id n)
  release-Keeps id n = Keeps-quiet _ (submit_release_milestone-db srv.env id n)

  refund-Keeps : (id : RowId) → Keeps P (submit_refund srv.env id)
  refund-Keeps id = Keeps-quiet _ (submit_refund-db srv.env id)

  freeze-Keeps : (id : RowId) → Keeps P (submit_dispute srv.env id)
  freeze-Keeps id = Keeps-quiet _ (submit_dispute-db srv.env id)

  decide-Keeps :
      (id : RowId) (d : Decision) (n : ℕ) → Keeps P (submit_resolve_dispute srv.env id d n)
  decide-Keeps id d n = Keeps-quiet _ (submit_resolve_dispute-db srv.env id d n)

  pub approve_milestone-Keeps :
      (id mid : RowId) (u : String) → Keeps P (approve_milestone srv.env id mid u)
  unfolding approve_milestone check_approve notify_approved
  approve_milestone-Keeps id mid u =
      let l = load-Keeps in
      let r = release-Keeps in
      let p = pay_milestone-Keeps in
      let c = maybe_complete-Keeps in let n = notify-Keeps in search keeps_rules depth 16

  submitted_if-Keeps : (b : Bool) (m : Action String) → Keeps P m → Keeps P (submitted_if b m)
  submitted_if-Keeps true m km = search keeps_rules depth 8
  submitted_if-Keeps false m km = Keeps-pure none

  pub dispute-Keeps : (id : RowId) (u reason : String) → Keeps P (dispute srv.env id u reason)
  unfolding dispute check_dispute notify_disputed
  dispute-Keeps id u reason =
      let l = load-Keeps in
      let f = freeze-Keeps in
      let s = k.contract_status in
      let n = notify-Keeps in search (keeps_rules, submitted_if-Keeps) depth 16

  pub resolve_dispute-Keeps :
      (id : RowId) (u : String) (r : UserRole) (dto : ResolveDisputeDto)
      → Keeps P (resolve_dispute srv.env id u r dto)
  unfolding resolve_dispute check_resolve settle notify_resolved
  resolve_dispute-Keeps id u r dto =
      let l = load-Keeps in
      let d = decide-Keeps in
      let s = k.contract_status in
      let c = create_payment-Keeps in let n = notify-Keeps in search keeps_rules depth 16

  record_refund-Keeps :
      (id : RowId) (n : ℕ) (h : Option String) → Keeps P (record_refund srv.env id n h)
  record_refund-Keeps id n none = Keeps-pure tt
  record_refund-Keeps id n (some h) = let c = create_payment-Keeps in search keeps_rules depth 8

  pub cancel-Keeps : (id : RowId) (u : String) (r : UserRole) → Keeps P (cancel srv.env id u r)
  unfolding cancel check_cancel cancel_rows notify_cancelled
  cancel-Keeps id u r =
      let l = load-Keeps in
      let f = refund-Keeps in
      let c = record_refund-Keeps in
      let s = k.contract_status in
      let j = k.job_status in
      let n = notify-Keeps in search (keeps_rules, submitted_if-Keeps) depth 16
