-- ===== src/Payments/Tests.antt =====
-- The payments of the demo deployment.
use stellances.Demo.{the_contract, first_payment}
use stellances.Payments.History.{BothSides}
use stellances.Payments.Double.{fixed_7, Double, double_of, is_zero}
use stellances.Payments.RoundTrip.{amount_num-to_fixed_7}
use stellances.World.Action.{ok}
use stellances.Table.{total, find}
use stellances.Payments.History.{
  BothShown, get_balances_ok, transaction_id, Release, get_transactions_ok,
}
use stellances.Payments.Earnings.{
  group_key, groups, amount_at, amount_for, received, get_earnings, amount_sum, count_sum,
  earnings_of, get_earnings_ok,
}
use stellances.Demo.{demo_horizon, demo_env, demo, demo_db}
use stellances.World.{World}
use stellances.Table.Laws.{Unique}
use stellances.Schema.{Database, RowId, payment_key, contract_key}
use stellances.Base.{
  refl, none, some, true, [], ◌∷◌, map, ◌≡◌, ℕ, String, ◌⊎◌, ◌≤◌, ◌==◌, show, to_fixed_7, All,
  false, arith, ◌<>◌, ◌≢◌, ==_iff,
}
use stellances.Payments.{
  confirmed, payments_on, PaymentTransaction, Asset, get_balances, withdrawal, unreachable,
  get_transactions, is_party,
}
use stellances.Payments.Withdraw.{
  withdraw, check_withdraw, WithdrawParams, transfer, withdraw_for_anyone, parse_amount, amount_num,
  payment_call, withdraw_ok,
}

get_earnings_ok_example :
    Unique group_key (groups "frank" demo)
    × ((id : RowId)
        → amount_at id (groups "frank" demo) ≡ total (amount_for id) (received "frank" demo))
    × ((get_earnings "frank" demo).total_earned ≡ to_fixed_7 (amount_sum (groups "frank" demo)))
    × ((get_earnings "frank" demo).payment_count ≡ count_sum (groups "frank" demo))
    × ((get_earnings "frank" demo).by_contract ≡ map earnings_of (groups "frank" demo))
get_earnings_ok_example = get_earnings_ok "frank" demo

get_balances_ok_example :
    ((get_balances demo_env demo_horizon "carol" demo).1.db ≡ demo_db)
    × (BothShown (get_balances demo_env demo_horizon "carol" demo).0
        ⊎ ((key : String) × (demo_horizon.account_of 0 key ≡ unreachable)))
get_balances_ok_example = get_balances_ok demo_env demo_horizon "carol" demo

on_contract : find contract_key "contract" demo_db.contracts ≡ some the_contract
unfolding ◌==◌
on_contract = refl

recorded_first : find payment_key first_payment.id demo_db.payments ≡ some first_payment
unfolding ◌==◌
recorded_first = refl

two_sides : the_contract.client_id ≢ the_contract.freelancer_id
unfolding ◌==◌
two_sides e = ground (arith, ==_iff "carol" "frank", e)

get_transactions_ok_example :
    (map transaction_id (get_transactions "frank" demo)
      ≡ map payment_key (payments_on (is_party "frank") demo_db))
    × All Release (get_transactions "frank" demo)
    × BothSides first_payment the_contract demo
get_transactions_ok_example =
    get_transactions_ok "frank" demo first_payment the_contract recorded_first on_contract two_sides

abbrev some_money : WithdrawParams
some_money = record {
  user_id = "carol";
  asset = Asset.xlm;
  amount = "2.5";
  destination_address = "GDESTINATION";
}

abbrev paid_out : World
paid_out = (withdraw demo_env demo_horizon some_money demo).1

abbrev receipt : PaymentTransaction
receipt = record {
  id = "withdraw_3";
  type = withdrawal;
  status = confirmed;
  asset = Asset.xlm;
  amount = "-2.5000000";
  description = "Withdrawal to GDESTI…NATION";
  stellar_tx_hash = some "hash-w";
  counterparty = some "GDESTINATION";
  contract_id = none;
}

withdrawn : withdraw demo_env demo_horizon some_money demo ≡ (ok receipt, paid_out)
unfolding withdraw check_withdraw transfer amount_num double_of fixed_7 parse_amount ◌==◌ show
    to_fixed_7
withdrawn = refl

withdraw_ok_example :
    (Asset.xlm ≡ Asset.xlm)
    × (demo_horizon.is_address "GDESTINATION" ≡ true)
    × (paid_out.db ≡ demo_db)
    × ((x : Double) × (n : ℕ) × (hash : String) × (amount_num "2.5" ≡ some x)
        × (is_zero x ≡ false)
        × (fixed_7 x ≡ some n)
        × (1 ≤ n)
        × (receipt.amount ≡ "-" <> to_fixed_7 n)
        × (receipt.stellar_tx_hash ≡ some hash)
        × (paid_out.sent ≡ (payment_call "GDESTINATION" n, hash) ∷ []))
withdraw_ok_example =
    withdraw_ok demo_env demo_horizon some_money demo paid_out receipt refl withdrawn

abbrev nobody : Database
nobody = record demo_db { users = []; payments = [] }

withdraw_for_anyone_example :
    (withdraw demo_env demo_horizon
      (record some_money { user_id = "nobody" })
      (record demo { db = nobody })).0
    ≡ (withdraw demo_env demo_horizon some_money demo).0
withdraw_for_anyone_example =
    withdraw_for_anyone demo_env demo_horizon some_money "nobody" nobody demo

amount_num-to_fixed_7_example :
    (x : Double) × (amount_num (to_fixed_7 125000000) ≡ some x) × (fixed_7 x ≡ some 125000000)
amount_num-to_fixed_7_example = amount_num-to_fixed_7 125000000 (ground arith)

-- a decimal that is no double, and half a stroop that is less than that as a double
moved : fixed_7 (double_of (10000000000000003, 7)) ≡ some 10000000000000004
unfolding fixed_7 double_of
moved = refl

less_than_half : fixed_7 (double_of (5, 8)) ≡ some 0
unfolding fixed_7 double_of
less_than_half = refl
