-- ===== src/Payments/Controller.antt =====
-- stellance/backend/src/payments/payments.controller.ts.
use stellances.Contracts.Loading.{is_admin}
use stellances.Table.{find}
use stellances.Http.Validation.{checked, valid_withdrawal}
use stellances.Payments.Earnings.{get_earnings, EarningsSummary}
use stellances.Base.{String, List, ◌<>◌, not, ◌&&◌, ◌==◌}
use stellances.World.Action.{Action, ◌>>=◌, or_throw, gets, not_found, ◌>>◌, throw_if, forbidden}
use stellances.Schema.{RowId, Payment, contract_key}
use stellances.Payments.{get_balances, get_transactions, Asset, PaymentTransaction, WalletBalance}
use stellances.Payments.Withdraw.{withdraw, find_by_contract, find_by_tx_hash}
use stellances.Http.{Server, Identity}

-- `getBalances`
abbrev pub balances : Server → Identity → Action (List WalletBalance)
balances srv caller = get_balances srv.env srv.horizon caller.id

-- `getTransactions`
unfoldable pub transactions : Identity → Action (List PaymentTransaction)
unfolding get_transactions
transactions caller = gets (get_transactions caller.id)

-- `getEarnings`
unfoldable pub earnings : Identity → Action EarningsSummary
unfolding get_earnings
earnings caller = gets (get_earnings caller.id)

-- dto/withdraw.dto.ts
pub record WithdrawDto : Type 0 where
  pub asset : Asset
  pub amount : String
  pub destination_address : String

-- `withdraw`
unfoldable pub post_withdrawal : Server → Identity → WithdrawDto → Action PaymentTransaction
post_withdrawal srv caller dto = checked (valid_withdrawal dto.amount dto.destination_address) (
    withdraw srv.env srv.horizon (record {
      user_id = caller.id;
      asset = dto.asset;
      amount = dto.amount;
      destination_address = dto.destination_address;
    }))

-- `findByContract`
unfoldable pub contract_payments : RowId → Identity → Action (List Payment)
contract_payments contract_id caller = do
  contract ←
      or_throw (← gets (λ w. find contract_key contract_id w.db.contracts))
        (not_found ("Contract " <> contract_id <> " not found"))
  throw_if
      (not (is_admin caller.role)
        && not (contract.client_id == caller.id)
        && not (contract.freelancer_id == caller.id))
      (forbidden "Access denied")
  gets (find_by_contract contract_id)

-- `findByTxHash`
unfoldable pub payment_by_hash : String → Action Payment
payment_by_hash tx_hash = do
  or_throw (← gets (find_by_tx_hash tx_hash)) (not_found ("No payment found for tx " <> tx_hash))
