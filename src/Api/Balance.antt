-- ===== src/Api/Balance.antt =====
-- The balance of the ledger and its steps, whatever reaches the backend: requests about contracts
-- follow the specification, and no other request touches contracts, milestones or payments.
use stellances.Contracts.Service.{Call, call-Steps}
use stellances.Api.Calls.{handle_contract-call, call_of, called}
use stellances.Api.Money.{OfMoney, OfMoney-writes}
use stellances.Table.Laws.{Unique}
use stellances.World.{World, Env}
use stellances.Schema.{Database, RowId, milestone_key}
use stellances.Http.{Server, HttpRequest, Identity}
use stellances.Base.{List, subst, Option, sym, ◌≤◌, none, some}
use stellances.Api.{handle_contract, respond, serve, Event, dispatch, is_public}
use stellances.Api.Accounts.{handle_account-Keeps, handle_public-Keeps}
use stellances.Api.Requests.{handle_payment-Keeps, can_activate-Keeps, for_user-Keeps, events_keep}
use stellances.World.Keeps.{Keeps, Keeps-bind}
use stellances.Contracts.Ledger.{books, ledger, owed, recorded, earned}
use stellances.Contracts.Balance.{Balanced, Steps-Balanced, recorded-le-owed}
use stellances.Api.Routes.{Route, ContractRoute, public, account, payments, contracts}

abbrev pub Even : Database → Type 0
Even db = Balanced (books db)

Even-OfMoney : OfMoney Even
unfolding owed earned recorded
Even-OfMoney db db' b m = record {
  unique = subst (Unique milestone_key) (sym m.milestones) b.unique;
  sums = λ id. rw (m.contracts, m.milestones, m.payments) (b.sums id);
}

called-Even : (env : Env) (c : Option Call) (w : World) → Even w.db → Even (called env c w).db
called-Even env none w b = b
called-Even env (some c) w b = Steps-Balanced (call-Steps env c w b.unique) b

-- what the contract service does follows the specification
handle_contract-Even :
    (srv : Server) (u : Identity) (r : ContractRoute) → Keeps Even (handle_contract srv u r)
handle_contract-Even srv u r = record {
  at = λ w b.
      subst (λ (v : World). Even v.db) (sym (handle_contract-call srv u r w))
        (called-Even srv.env (call_of srv u r) w b);
}

module _ (srv : Server) where
  dispatch-Even :
      (q : HttpRequest) (r : Route) (o : Option Identity) → Keeps Even (dispatch srv q r o)
  unfolding dispatch
  dispatch-Even q (public r) o = handle_public-Keeps (OfMoney-writes Even-OfMoney) srv q r
  dispatch-Even q (account r) o =
      for_user-Keeps _ o (λ u. handle_account-Keeps (OfMoney-writes Even-OfMoney) srv u r)
  dispatch-Even q (payments r) o = for_user-Keeps _ o (λ u. handle_payment-Keeps srv u r)
  dispatch-Even q (contracts r) o = for_user-Keeps _ o (λ u. handle_contract-Even srv u r)

  respond-Even : (q : HttpRequest) (r : Route) → Keeps Even (respond srv q r)
  unfolding respond
  respond-Even q r =
      Keeps-bind _ _ (can_activate-Keeps srv.framework (is_public r) q) (dispatch-Even q r)

  pub serve-Even : (es : List Event) (w : World) → Even w.db → Even (serve srv es w).db
  serve-Even es w b = events_keep srv respond-Even es w b

-- Over any requests, to whatever route and by whomever, that begin with a balanced ledger, the
-- payments that are recorded for a contract never exceed what its milestones are worth.
pub serve_never_overpays :
    (srv : Server) (es : List Event) (w : World) (id : RowId)
    → Balanced (ledger w)
    → recorded id (ledger (serve srv es w)) ≤ owed id (ledger (serve srv es w))
serve_never_overpays srv es w id b = recorded-le-owed id _ (serve-Even srv es w b)
