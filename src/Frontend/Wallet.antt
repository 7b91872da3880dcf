-- ===== src/Frontend/Wallet.antt =====
-- stellance/frontend/lib/stores/walletStore.ts and hooks/useStellarWallet.ts: the wallet of a page, with
-- the answers of the Freighter extension and of Horizon as events. What a promise goes on with is a
-- task; an answer to a task that there is not does nothing. React runs the cleanups of an effect whose
-- dependency has changed before the next answer comes.
use stellances.Base.{
  none, some, true, false, [], Bool, List, if◌then◌else◌, String, Option, ℕ, map, nat_eq,
}

pub data WalletStatus : Type 0 where
  idle checking connected disconnected : WalletStatus

-- `WalletState`
pub record WalletState : Type 0 where
  pub public_key : Option String
  pub balance : Option String
  pub status : WalletStatus
  pub is_loading_balance : Bool
  pub error : Option String

-- the state that the store begins with
abbrev pub initial : WalletState
initial = record {
  public_key = none;
  balance = none;
  status = idle;
  is_loading_balance = false;
  error = none;
}

-- A run of the effect that restores a connection: it waits for `isConnected` or for `getAddress`.
pub record Probe : Type 0 where
  pub reading : Bool
  pub cancelled : Bool

-- A page: the store, the runs of the effect, the calls of `connect` that wait for `isConnected` or, with
-- true, for `requestAccess`, and the keys of the calls of `fetchBalance` that wait for Horizon.
pub record Page : Type 0 where
  pub store : WalletState
  pub probes : List Probe
  pub connects : List Bool
  pub fetches : List String

abbrev pub start : Page
start = record { store = initial; probes = []; connects = []; fetches = [] }

abbrev pub status_number : WalletStatus → ℕ
status_number idle = 0
status_number checking = 1
status_number connected = 2
status_number disconnected = 3

abbrev pub is_status : WalletStatus → WalletStatus → Bool
is_status s t = nat_eq (status_number s) (status_number t)

-- the cleanup of the effect
abbrev pub cancel : Probe → Probe
cancel p = record p { cancelled = true }

-- a change of the store: the effect depends on the status, and its runs are cleaned up if that changes
abbrev pub set_store : WalletState → Page → Page
set_store s p = record p {
  store = s;
  probes = if is_status s.status p.store.status then p.probes else map cancel p.probes;
}

-- the actions of the store
abbrev pub set_connected : String → WalletState → WalletState
set_connected key s = record s { public_key = some key; status = connected; error = none }

abbrev pub set_balance : String → WalletState → WalletState
set_balance b s = record s { balance = some b }

abbrev pub set_status : WalletStatus → WalletState → WalletState
set_status t s = record s { status = t }

abbrev pub set_loading_balance : Bool → WalletState → WalletState
set_loading_balance b s = record s { is_loading_balance = b }

abbrev pub set_error : Option String → WalletState → WalletState
set_error e s = record s { error = e }

abbrev pub disconnect : WalletState → WalletState
disconnect s = record {
  public_key = none;
  balance = none;
  status = disconnected;
  is_loading_balance = false;
  error = none;
}

-- the answers of Freighter; `none` is no address
pub data FreighterAnswer : Type 0 where
  installed : Bool → FreighterAnswer
  address : Option String → FreighterAnswer
  failed : String → FreighterAnswer

-- the answer of Horizon: the native balance, if the account has one, or a failure
pub data BalanceAnswer : Type 0 where
  native : Option String → BalanceAnswer
  unreachable : BalanceAnswer

pub data PageEvent : Type 0 where
  mounts presses_connect presses_disconnect presses_refresh : PageEvent
  probe_answered connect_answered : ℕ → FreighterAnswer → PageEvent
  balance_answered : ℕ → BalanceAnswer → PageEvent
