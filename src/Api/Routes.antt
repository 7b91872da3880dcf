-- ===== src/Api/Routes.antt =====
-- The routes of the controllers, and what they return.
use stellances.Notifications.{Connection}
use stellances.Contracts.Loading.{Loaded}
use stellances.Payments.Earnings.{EarningsSummary}
use stellances.Payments.{WalletBalance, PaymentTransaction}
use stellances.Jobs.Controller.{JobQuery}
use stellances.Paging.{Page}
use stellances.Auth.Controller.{AuthReply}
use stellances.Schema.{RowId, Job, Notification, Payment, Contract, Milestone}
use stellances.Base.{Option, String, List, ℕ}
use stellances.Users.Controller.{UserProfile}
use stellances.Users.{ProfileData, UserView}
use stellances.Auth.{RegisterDto}
use stellances.Jobs.{CreateJobDto, UpdateJobDto, LoadedJob}
use stellances.Payments.Controller.{WithdrawDto}
use stellances.Contracts.Create.{CreateContractDto}
use stellances.Contracts.Disputes.{ResolveDisputeDto, Resolution}
use stellances.App.{Health}

-- the routes with `@Public()`: health and those of auth.controller.ts
pub data PublicRoute : Type 0 where
  get_health refresh_session logout : PublicRoute
  register_user : RegisterDto → PublicRoute
  log_in : Option String → Option String → PublicRoute

-- the caller's account, the jobs and the notifications
pub data AccountRoute : Type 0 where
  log_out_everywhere get_me count_unread open_stream read_every : AccountRoute
  patch_me : ProfileData → AccountRoute
  get_users : Option String → Option String → AccountRoute
  create_job : CreateJobDto → AccountRoute
  get_jobs : JobQuery → AccountRoute
  get_job cancel_job read_single delete_single : RowId → AccountRoute
  update_job : RowId → UpdateJobDto → AccountRoute
  get_notifications : Option String → AccountRoute

pub data PaymentRoute : Type 0 where
  get_wallet get_history get_income : PaymentRoute
  withdraw_funds : WithdrawDto → PaymentRoute
  get_payments : RowId → PaymentRoute
  get_payment : String → PaymentRoute

pub data ContractRoute : Type 0 where
  create_contract : CreateContractDto → ContractRoute
  get_contracts : Option String → ContractRoute
  get_single cancel_contract : RowId → ContractRoute
  confirm_funding raise_dispute : RowId → String → ContractRoute
  submit_work approve_work : RowId → RowId → ContractRoute
  resolve_case : RowId → ResolveDisputeDto → ContractRoute

pub data Route : Type 0 where
  public : PublicRoute → Route
  account : AccountRoute → Route
  payments : PaymentRoute → Route
  contracts : ContractRoute → Route

-- what a handler returns
pub data Response : Type 0 where
  health_body : Health → Response
  auth_body : AuthReply → Response
  profile_body : UserProfile → Response
  users_body : Page UserView → Response
  job_body : Job → Response
  jobs_body : Page Job → Response
  loaded_job_body : LoadedJob → Response
  notifications_body : List Notification → Response
  count_body : ℕ → Response
  stream_body : Connection → Response
  notification_body : Notification → Response
  no_content : Response
  balances_body : List WalletBalance → Response
  transactions_body : List PaymentTransaction → Response
  transaction_body : PaymentTransaction → Response
  earnings_body : EarningsSummary → Response
  payments_body : List Payment → Response
  payment_body : Payment → Response
  loaded_body : Loaded → Response
  created_body : Loaded × Option String → Response
  contract_body : Contract → Response
  contracts_body : List Contract → Response
  milestone_body : Milestone → Response
  approved_body : Option Milestone → Response
  resolution_body : Resolution → Response
  cancelled_body : Option String → Response
