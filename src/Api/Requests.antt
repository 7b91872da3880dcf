-- ===== src/Api/Requests.antt =====
-- An invariant that every write keeps is kept by every request and over any events.
use stellances.Http.Validation.{valid_contract-milestones}
use stellances.Contracts.Controller.{
  post_contract, list_contracts, post_funding, post_dispute, patch_resolve,
}
use stellances.World.Action.{Action, unauthorized}
use stellances.Schema.{Database, RowId}
use stellances.World.{Env, World}
use stellances.Base.{
  none, some, [], ◌∷◌, Bool, List, subst, Option, ◌≡◌, Option-cases, sym, inl, arith, inr,
}
use stellances.Api.Writes.{AccountWrites, ContractWrites, Keeps-checked}
use stellances.Api.{
  handle_contract, handle_payment, respond, event, serve, Event, arrives, closes, dispatch,
  is_public, for_user,
}
use stellances.Api.Dealings.{
  create-Keeps, confirm_fund-Keeps, submit_milestone-Keeps, approve_milestone-Keeps, dispute-Keeps,
  resolve_dispute-Keeps, cancel-Keeps, load-Keeps,
}
use stellances.Api.Accounts.{handle_account-Keeps, handle_public-Keeps, remove_stream-db}
use stellances.World.Keeps.{Keeps, keeps_rules, Keeps-quiet, Keeps-bind, Keeps-throw}
use stellances.Contracts.Loading.{find_one}
use stellances.Payments.Controller.{
  transactions, earnings, balances, contract_payments, payment_by_hash, post_withdrawal,
}
use stellances.Api.Routes.{
  PaymentRoute, ContractRoute, Route, get_wallet, get_history, get_income, withdraw_funds,
  get_payments, get_payment, create_contract, get_contracts, get_single, cancel_contract,
  confirm_funding, raise_dispute, submit_work, approve_work, resolve_case, public, account,
  payments, contracts, Response,
}
use stellances.Payments.{get_balances, wallet_of, Horizon}
use stellances.Payments.Withdraw.{withdraw, check_withdraw, transfer}
use stellances.Http.{can_activate, authenticate, Framework, Server, Identity, HttpRequest}

pub get_balances-db :
    (env : Env) (h : Horizon) (u : RowId) (w : World) → (get_balances env h u w).1.db ≡ w.db
unfolding get_balances
get_balances-db env h u w = elim (Option-cases (wallet_of u w)) [
  | inl e ↦ ground arith
  | inr (key, e) ↦ ground arith
]

pub handle_payment-Keeps :
    {P : Database → Type 0} (srv : Server) (u : Identity) (r : PaymentRoute)
    → Keeps P (handle_payment srv u r)
unfolding handle_payment transactions earnings contract_payments payment_by_hash post_withdrawal
    withdraw check_withdraw transfer
handle_payment-Keeps {P} srv u get_wallet =
    let b : Keeps P (balances srv u) = Keeps-quiet _ (get_balances-db srv.env srv.horizon u.id) in
    search keeps_rules depth 8
handle_payment-Keeps srv u get_history = search keeps_rules depth 12
handle_payment-Keeps srv u get_income = search keeps_rules depth 12
handle_payment-Keeps srv u (withdraw_funds dto) = search keeps_rules depth 16
handle_payment-Keeps srv u (get_payments id) = search keeps_rules depth 14
handle_payment-Keeps srv u (get_payment hash) = search keeps_rules depth 14

pub authenticate-Keeps :
    {P : Database → Type 0} (fw : Framework) (q : HttpRequest) → Keeps P (authenticate fw q)
unfolding authenticate
authenticate-Keeps fw q = search keeps_rules depth 14

pub can_activate-Keeps :
    {P : Database → Type 0} (fw : Framework) (b : Bool) (q : HttpRequest)
    → Keeps P (can_activate fw b q)
unfolding can_activate
can_activate-Keeps {P} fw b q = let a = authenticate-Keeps {P = P} in search keeps_rules depth 14

module _ {P : Database → Type 0} (k : ContractWrites P) (srv : Server) where
  pub handle_contract-Keeps : (u : Identity) (r : ContractRoute) → Keeps P (handle_contract srv u r)
  unfolding handle_contract post_contract list_contracts find_one post_funding post_dispute
      patch_resolve
  handle_contract-Keeps u (create_contract dto) =
      let v = valid_contract-milestones srv.framework dto in
      let c = create-Keeps k srv in search (keeps_rules, Keeps-checked) depth 12
  handle_contract-Keeps u (get_contracts side) = search keeps_rules depth 12
  handle_contract-Keeps u (get_single id) = let l = load-Keeps k srv in search keeps_rules depth 12
  handle_contract-Keeps u (confirm_funding id hash) =
      let c = confirm_fund-Keeps k srv in search keeps_rules depth 12
  handle_contract-Keeps u (submit_work id mid) =
      let c = submit_milestone-Keeps k srv in search keeps_rules depth 12
  handle_contract-Keeps u (approve_work id mid) =
      let c = approve_milestone-Keeps k srv in search keeps_rules depth 12
  handle_contract-Keeps u (raise_dispute id reason) =
      let c = dispute-Keeps k srv in search keeps_rules depth 12
  handle_contract-Keeps u (resolve_case id dto) =
      let c = resolve_dispute-Keeps k srv in search keeps_rules depth 12
  handle_contract-Keeps u (cancel_contract id) =
      let c = cancel-Keeps k srv in search keeps_rules depth 12

pub for_user-Keeps :
    {P : Database → Type 0} (h : Identity → Action Response) (o : Option Identity)
    → ((u : Identity) → Keeps P (h u))
    → Keeps P (for_user h o)
for_user-Keeps h none k = Keeps-throw (unauthorized "Unauthorized")
for_user-Keeps h (some u) k = k u

-- what every request keeps, all events keep
module _ {P : Database → Type 0} (srv : Server)
    (k : (q : HttpRequest) (r : Route) → Keeps P (respond srv q r)) where
  event_keeps : (e : Event) (w : World) → P w.db → P (event srv e w).db
  unfolding event
  event_keeps (arrives q r) w p = (k q r).at w p
  event_keeps (closes u) w p = subst P (sym (remove_stream-db u w)) p

  pub events_keep : (es : List Event) (w : World) → P w.db → P (serve srv es w).db
  unfolding serve
  events_keep [] w p = p
  events_keep (e ∷ es) w p = events_keep es (event srv e w) (event_keeps e w p)

module _ {P : Database → Type 0} (a : AccountWrites P) (c : ContractWrites P) (srv : Server) where
  dispatch-Keeps :
      (q : HttpRequest) (r : Route) (o : Option Identity) → Keeps P (dispatch srv q r o)
  unfolding dispatch
  dispatch-Keeps q (public r) o = handle_public-Keeps a srv q r
  dispatch-Keeps q (account r) o = for_user-Keeps _ o (λ u. handle_account-Keeps a srv u r)
  dispatch-Keeps q (payments r) o = for_user-Keeps _ o (λ u. handle_payment-Keeps srv u r)
  dispatch-Keeps q (contracts r) o = for_user-Keeps _ o (λ u. handle_contract-Keeps c srv u r)

  pub respond-Keeps : (q : HttpRequest) (r : Route) → Keeps P (respond srv q r)
  unfolding respond
  respond-Keeps q r =
      Keeps-bind _ _ (can_activate-Keeps srv.framework (is_public r) q) (dispatch-Keeps q r)

  pub serve_keeps : (es : List Event) (w : World) → P w.db → P (serve srv es w).db
  serve_keeps es w p = events_keep srv respond-Keeps es w p
