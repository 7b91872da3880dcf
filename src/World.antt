-- ===== src/World.antt =====
-- The state that the services share and an action on it: the database, the live streams of the
-- notification service, and what has gone to the chain. Requests to the Stellar SDK, the clock and
-- random values come from the environment, a parameter. The requests are numbered, so an answer may
-- change from one request to the next.
pub mod Action
pub mod Laws
pub mod Frame
pub mod Keeps
use stellances.Base.{ℕ, String, Bool, Option, List}
use stellances.Schema.{Database, Notification}

-- An rxjs `Subject`: what it has passed on, newest first, and whether it is complete.
pub record Subject : Type 0 where
  pub emitted : List Notification
  pub stopped : Bool

-- The arguments of a Soroban invocation, as `nativeToScVal` types them. `variant` is the
-- one-element vector of a symbol that stands for a unit variant of an enum.
pub data ScVal : Type 0 where
  symbol address variant : String → ScVal
  i128 u32 : ℕ → ScVal

pub record Invocation : Type 0 where
  pub fn_name : String
  pub args : List ScVal

-- `rpc.Api.GetTransactionStatus`
pub data TransactionStatus : Type 0 where
  success not_found failed : TransactionStatus

-- `simulateTransaction` answers with an error or not
pub data Simulation : Type 0 where
  simulated : Simulation
  simulation_error : String → Simulation

-- `sendTransaction` answers with the status `ERROR` or with another one, and the hash
pub data Sent : Type 0 where
  send_error : String → Sent
  accepted : String → Sent

-- Everything that the services do not implement. `none` is an exception of the SDK.
pub record Env : Type 0 where
  -- `ConfigService.get`
  pub config : String → Option String
  -- `uuid()` of the database, by the number of values drawn before
  pub uuid : ℕ → String
  -- `Keypair.fromSecret(secret).publicKey()`
  pub public_key : String → String
  -- the Soroban RPC server
  pub get_account : ℕ → String → Option String
  pub simulate : ℕ → Invocation → Option Simulation
  pub send : ℕ → Invocation → Option Sent
  pub get_transaction : ℕ → String → Option TransactionStatus
  -- Horizon: the ledger of a transaction
  pub transaction_ledger : ℕ → String → Option ℕ
  -- `toXDR('base64')` of the prepared transaction
  pub to_xdr : Invocation → String

pub record World : Type 0 where
  pub db : Database
  -- `NotificationsService.streams`: the user's subject, by its place in `subjects`
  pub streams : List (String × ℕ)
  pub subjects : List Subject
  -- the admin-signed invocations that the RPC server accepted, newest first, with their hashes
  pub sent : List (Invocation × String)
  pub requests : ℕ
  pub serial : ℕ
