-- ===== src/Api.antt =====
-- The HTTP interface: the guard in front of each route and the handler behind it, and the events
-- that reach the backend in any order.
pub mod Routes
mod Tests
pub mod Writes
pub mod Sessions
pub mod Accounts
pub mod Dealings
pub mod Requests
pub mod Amounts
pub mod Money
pub mod Balance
pub mod Blocked
pub mod Guard
pub mod Calls
use stellances.Jobs.Controller.{post_job, list_jobs, delete_job, patch_job}
use stellances.Auth.Controller.{
  post_logout_all, post_register, post_login, post_refresh, post_logout,
}
use stellances.Contracts.Controller.{
  post_contract, list_contracts, get_contract, post_funding, patch_submit, patch_approve,
  post_dispute, patch_resolve, post_cancel,
}
use stellances.World.{World}
use stellances.Schema.{RowId}
use stellances.World.Action.{Action, ◌>>=◌, throw, unauthorized, pure}
use stellances.Base.{none, some, true, false, [], ◌∷◌, List, Option, Bool}
use stellances.Api.Routes.{
  no_content, PublicRoute, AccountRoute, PaymentRoute, ContractRoute, Route, Response, get_health,
  refresh_session, logout, register_user, log_in, log_out_everywhere, get_me, open_stream,
  read_every, patch_me, get_users, create_job, get_jobs, cancel_job, read_single, delete_single,
  get_notifications, get_wallet, get_history, get_income, withdraw_funds, get_payments, get_payment,
  create_contract, get_contracts, get_single, cancel_contract, confirm_funding, raise_dispute,
  submit_work, approve_work, resolve_case, public, account, payments, contracts, auth_body,
  health_body, balances_body, created_body, transactions_body, earnings_body, contracts_body,
  profile_body, transaction_body, users_body, loaded_body, payments_body, contract_body, job_body,
  payment_body, milestone_body, jobs_body, loaded_job_body, approved_body, resolution_body,
  notifications_body, count_body, cancelled_body, stream_body, notification_body,
}
use stellances.Http.{Server, Identity, HttpRequest, can_activate}
use stellances.Users.Controller.{me, update_me, list_users}
use stellances.Payments.Controller.{
  transactions, earnings, balances, post_withdrawal, contract_payments, payment_by_hash,
}
use stellances.Notifications.Controller.{
  stream, read_one, read_all, stream_closed, list_notifications, unread_count, delete_notification,
}
use stellances.Jobs.Controller
use stellances.App.{health}

abbrev as_body : {A : Type 0} → (A → Response) → Action A → Action Response
as_body f m = m >>= λ a. pure (f a)

unfoldable pub handle_public : Server → HttpRequest → PublicRoute → Action Response
handle_public srv q get_health = as_body health_body (health srv.env srv.horizon)
handle_public srv q (register_user dto) = as_body auth_body (post_register srv q dto)
handle_public srv q (log_in email password) = as_body auth_body (post_login srv q email password)
handle_public srv q refresh_session = as_body auth_body (post_refresh srv q)
handle_public srv q logout = as_body auth_body (post_logout srv q)

unfoldable pub handle_account : Server → Identity → AccountRoute → Action Response
handle_account srv u log_out_everywhere = as_body auth_body (post_logout_all srv u)
handle_account srv u get_me = as_body profile_body (me u)
handle_account srv u (patch_me dto) = as_body profile_body (update_me u dto)
handle_account srv u (get_users page limit) = as_body users_body (list_users u page limit)
handle_account srv u (create_job dto) = as_body job_body (post_job srv u dto)
handle_account srv u (get_jobs q) = as_body jobs_body (list_jobs srv u q)
handle_account srv u (AccountRoute.get_job id) = as_body loaded_job_body (Controller.get_job id)
handle_account srv u (cancel_job id) = as_body job_body (delete_job id u)
handle_account srv u (AccountRoute.update_job id dto) = as_body job_body (patch_job id u dto)
handle_account srv u (get_notifications unread) =
    as_body notifications_body (list_notifications u unread)
handle_account srv u AccountRoute.count_unread = as_body count_body (unread_count u)
handle_account srv u open_stream = as_body stream_body (stream u)
handle_account srv u read_every = as_body count_body (read_all u)
handle_account srv u (read_single id) = as_body notification_body (read_one id u)
handle_account srv u (delete_single id) = as_body (λ _. no_content) (delete_notification id u)

unfoldable pub handle_payment : Server → Identity → PaymentRoute → Action Response
handle_payment srv u get_wallet = as_body balances_body (balances srv u)
handle_payment srv u get_history = as_body transactions_body (transactions u)
handle_payment srv u get_income = as_body earnings_body (earnings u)
handle_payment srv u (withdraw_funds dto) = as_body transaction_body (post_withdrawal srv u dto)
handle_payment srv u (get_payments id) = as_body payments_body (contract_payments id u)
handle_payment srv u (get_payment hash) = as_body payment_body (payment_by_hash hash)

unfoldable pub handle_contract : Server → Identity → ContractRoute → Action Response
handle_contract srv u (create_contract dto) = as_body created_body (post_contract srv u dto)
handle_contract srv u (get_contracts side) = as_body contracts_body (list_contracts u side)
handle_contract srv u (get_single id) = as_body loaded_body (get_contract id u)
handle_contract srv u (confirm_funding id hash) = as_body contract_body (post_funding srv id u hash)
handle_contract srv u (submit_work id mid) = as_body milestone_body (patch_submit srv id mid u)
handle_contract srv u (approve_work id mid) = as_body approved_body (patch_approve srv id mid u)
handle_contract srv u (raise_dispute id reason) =
    as_body contract_body (post_dispute srv id u reason)
handle_contract srv u (resolve_case id dto) = as_body resolution_body (patch_resolve srv id u dto)
handle_contract srv u (cancel_contract id) = as_body cancelled_body (post_cancel srv id u)

-- the routes with `@Public()`
unfoldable pub is_public : Route → Bool
is_public (public r) = true
is_public (account r) = false
is_public (payments r) = false
is_public (contracts r) = false

-- a handler that needs `req.user`
abbrev pub for_user : (Identity → Action Response) → Option Identity → Action Response
for_user handler none = throw (unauthorized "Unauthorized")
for_user handler (some u) = handler u

-- the handler of a route, by the user that the guard found
unfoldable pub dispatch : Server → HttpRequest → Route → Option Identity → Action Response
unfolding handle_public handle_account handle_payment handle_contract
dispatch srv q (public r) user = handle_public srv q r
dispatch srv q (account r) user = for_user (λ u. handle_account srv u r) user
dispatch srv q (payments r) user = for_user (λ u. handle_payment srv u r) user
dispatch srv q (contracts r) user = for_user (λ u. handle_contract srv u r) user

-- a request: the global guard, then the handler
unfoldable pub respond : Server → HttpRequest → Route → Action Response
unfolding dispatch is_public
respond srv q r = can_activate srv.framework (is_public r) q >>= λ user. dispatch srv q r user

-- what reaches the backend: a request, or the end of a connection to the stream
pub data Event : Type 0 where
  arrives : HttpRequest → Route → Event
  closes : RowId → Event

-- the state after an event, whatever was answered
unfoldable pub event : Server → Event → World → World
unfolding respond
event srv (arrives q r) w = (respond srv q r w).1
event srv (closes user_id) w = (stream_closed user_id w).1

unfoldable pub serve : Server → List Event → World → World
unfolding event
serve srv [] w = w
serve srv (e ∷ es) w = serve srv es (event srv e w)
