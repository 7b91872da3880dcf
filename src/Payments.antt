-- ===== src/Payments.antt =====
-- stellance/backend/src/payments/payments.service.ts: what the payments say to their parties, the
-- balances of a wallet, and withdrawals.
pub mod Controller
pub mod Earnings
pub mod Double
pub mod Withdraw
pub mod Nearest
pub mod RoundTrip
pub mod History
mod Tests
use Prim.Native.String.{slice}
use stellances.Table.{select, find}
use stellances.World.Action.{Result, ok, Action, truthy, err, service_unavailable}
use stellances.World.{Env, World}
use stellances.Base.{
  suc, none, some, true, false, [], ◌∷◌, String, ℕ, List, Bool, Option, ◌<>◌, ◌||◌, ◌==◌,
  if◌then◌else◌, ◌++◌, to_fixed_7, ◌&&◌,
}
use stellances.Schema.{
  Payment, Contract, RowId, contract_key, job_key, user_key, milestone_key, Database,
}

pub data Network : Type 0 where
  testnet mainnet : Network

-- the constructor's `network`
unfoldable pub network_of : Env → Network
network_of env = elim (env.config "STELLAR_NETWORK") [
  | none ↦ Network.testnet
  | some n ↦ if n == "mainnet" then Network.mainnet else Network.testnet
]

pub data Asset : Type 0 where
  xlm usdc : Asset

pub record WalletBalance : Type 0 where
  pub asset : Asset
  pub balance : String
  pub network : Network

pub data TransactionType : Type 0 where
  escrow_funded milestone_released full_release refund withdrawal dispute_resolved : TransactionType

pub data PaymentStatus : Type 0 where
  pending confirmed failed : PaymentStatus

pub record PaymentTransaction : Type 0 where
  pub id : String
  pub type : TransactionType
  pub status : PaymentStatus
  pub asset : Asset
  pub amount : String
  pub description : String
  pub stellar_tx_hash : Option String
  pub counterparty : Option String
  pub contract_id : Option RowId

-- a balance as Horizon reports it
pub record HorizonBalance : Type 0 where
  pub asset_type : String
  pub asset_code : String
  pub asset_issuer : String
  pub balance : String

-- what Horizon answers about an account: its balances, that there is none, or another failure
pub data AccountAnswer : Type 0 where
  account : List HorizonBalance → AccountAnswer
  no_account unreachable : AccountAnswer

-- The Horizon server, the clock and the SDK's tests of an address and of the amount of a payment. A
-- submitted payment is the destination and the amount in stroops.
pub record Horizon : Type 0 where
  pub account_of : ℕ → String → AccountAnswer
  pub load_account : ℕ → String → Option String
  pub base_fee : ℕ → Option ℕ
  pub submit_payment : ℕ → String → ℕ → Option String
  pub now : ℕ → ℕ
  pub is_address : String → Bool
  pub takes_amount : ℕ → Bool

abbrev testnet_usdc_issuer : String
testnet_usdc_issuer = "GBBD47IF6LWK7P7MDEVSCWR7DPUWV3NY3DTQEVFL4NAT4AQH3ZLLFLA5"

abbrev pub balance_of : Asset → String → Network → WalletBalance
balance_of a b n = record { asset = a; balance = b; network = n }

abbrev pub zero_balances : Network → List WalletBalance
zero_balances n = balance_of Asset.xlm "0.0000000" n ∷ balance_of Asset.usdc "0.00" n ∷ []

abbrev trusted_issuer : Network → String → Bool
trusted_issuer Network.mainnet issuer = true
trusted_issuer Network.testnet issuer = issuer == testnet_usdc_issuer

-- the loop over the balances of the account
unfoldable pub known_balances : Network → List HorizonBalance → List WalletBalance
known_balances n [] = []
known_balances n (b ∷ bs) =
    let rest = known_balances n bs in
    if b.asset_type == "native"
    then balance_of Asset.xlm b.balance n ∷ rest
    else if b.asset_type == "credit_alphanum4"
        && b.asset_code == "USDC"
        && trusted_issuer n b.asset_issuer
    then balance_of Asset.usdc b.balance n ∷ rest
    else rest

abbrev pub same_asset : Asset → Asset → Bool
same_asset Asset.xlm Asset.xlm = true
same_asset Asset.usdc Asset.usdc = true
same_asset _ _ = false

abbrev pub holds : Asset → List WalletBalance → Bool
holds a [] = false
holds a (b ∷ bs) = same_asset b.asset a || holds a bs

-- an asset that is missing is put at the end
abbrev pub ensure : Asset → WalletBalance → List WalletBalance → List WalletBalance
ensure a b bs = if holds a bs then bs else bs ++ b ∷ []

abbrev pub with_both : Network → List WalletBalance → List WalletBalance
with_both n bs =
    ensure Asset.usdc (balance_of Asset.usdc "0.00" n)
      (ensure Asset.xlm (balance_of Asset.xlm "0.0000000" n) bs)

abbrev pub wallet_of : RowId → World → Option String
wallet_of user_id w = elim (find user_key user_id w.db.users) [
  | none ↦ none
  | some u ↦ truthy u.stellar_public_key
]

-- the answer to a request for the account
abbrev pub answered : Network → AccountAnswer → Result (List WalletBalance)
answered n (account bs) = ok (with_both n (known_balances n bs))
answered n no_account = ok (zero_balances n)
answered n unreachable =
    err (service_unavailable "Could not fetch balances from Horizon — try again shortly.")

-- `getBalances`
unfoldable pub get_balances : Env → Horizon → RowId → Action (List WalletBalance)
unfolding known_balances network_of
get_balances env h user_id w = elim (wallet_of user_id w) [
  | none ↦ (ok (zero_balances (network_of env)), w)
  | some key ↦ (
    answered (network_of env) (h.account_of w.requests key),
    record w { requests = suc w.requests },
  )
]

-- the transactions of a user

abbrev pub is_party : String → Contract → Bool
is_party user_id c = c.client_id == user_id || c.freelancer_id == user_id

-- the payments on contracts that satisfy a test, newest first
unfoldable pub payments_on : (Contract → Bool) → Database → List Payment
payments_on p db =
    select
      (λ x. elim (find contract_key x.contract_id db.contracts) [ none ↦ false | some c ↦ p c ])
      db.payments

abbrev milestone_title : Payment → Database → Option String
milestone_title x db = elim x.milestone_id [
  | none ↦ none
  | some id ↦ elim (find milestone_key id db.milestones) [
    | none ↦ none
    | some m ↦ truthy (some m.title)
  ]
]

abbrev pub job_title : Contract → Database → Option String
job_title c db = elim (find job_key c.job_id db.jobs) [ none ↦ none | some j ↦ some j.title ]

abbrev pub wallet : RowId → Database → Option String
wallet id db = elim (find user_key id db.users) [ none ↦ none | some u ↦ u.stellar_public_key ]

-- `description`
abbrev pub description : Payment → Contract → Database → String
description x c db = elim (milestone_title x db) [
  | some title ↦ "Milestone: " <> title
  | none ↦ elim (truthy (job_title c db)) [
    | some title ↦ "Contract: " <> title
    | none ↦ "Contract " <> slice c.id 0 8
  ]
]

abbrev pub type_of : Payment → TransactionType
type_of x = elim x.milestone_id [ none ↦ full_release | some _ ↦ milestone_released ]

abbrev pub transaction_of : RowId → Database → Payment → Contract → PaymentTransaction
transaction_of user_id db x c = record {
  id = x.id;
  type = type_of x;
  status = confirmed;
  asset = Asset.xlm;
  amount = (if c.client_id == user_id then "-" else "+") <> to_fixed_7 x.amount;
  description = description x c db;
  stellar_tx_hash = some x.stellar_tx_hash;
  counterparty = wallet (if c.client_id == user_id then c.freelancer_id else c.client_id) db;
  contract_id = some x.contract_id;
}

-- a payment without a contract is not among those that are selected
abbrev pub listed : RowId → Database → Payment → List PaymentTransaction → List PaymentTransaction
listed user_id db x rest = elim (find contract_key x.contract_id db.contracts) [
  | none ↦ rest
  | some c ↦ transaction_of user_id db x c ∷ rest
]

abbrev pub all_listed : RowId → Database → List Payment → List PaymentTransaction
all_listed user_id db [] = []
all_listed user_id db (x ∷ xs) = listed user_id db x (all_listed user_id db xs)

-- `getTransactions`
unfoldable pub get_transactions : RowId → World → List PaymentTransaction
unfolding payments_on
get_transactions user_id w = all_listed user_id w.db (payments_on (is_party user_id) w.db)
