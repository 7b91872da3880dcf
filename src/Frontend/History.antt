-- ===== src/Frontend/History.antt =====
-- stellance/frontend/components/payments/TransactionHistory.tsx: the filters and the colours of the rows.
use stellances.Base.{none, some, true, false, ◌&&◌, Bool, Option, List, nat_eq, ℕ, if◌then◌else◌}
use stellances.Table.{select}
use stellances.Payments.{PaymentTransaction, TransactionType, PaymentStatus, Asset, same_asset}

abbrev pub type_number : TransactionType → ℕ
type_number TransactionType.escrow_funded = 0
type_number TransactionType.milestone_released = 1
type_number TransactionType.full_release = 2
type_number TransactionType.refund = 3
type_number TransactionType.withdrawal = 4
type_number TransactionType.dispute_resolved = 5

abbrev payment_status_number : PaymentStatus → ℕ
payment_status_number PaymentStatus.confirmed = 0
payment_status_number PaymentStatus.pending = 1
payment_status_number PaymentStatus.failed = 2

-- the filters of the table; `none` is the empty text
pub record TransactionFilters : Type 0 where
  pub type : Option TransactionType
  pub asset : Option Asset
  pub status : Option PaymentStatus

abbrev pub passes : TransactionFilters → PaymentTransaction → Bool
passes f tx =
    elim f.type [ none ↦ true | some t ↦ nat_eq (type_number tx.type) (type_number t) ]
    && elim f.asset [ none ↦ true | some a ↦ same_asset tx.asset a ]
    && elim f.status [
      | none ↦ true
      | some s ↦ nat_eq (payment_status_number tx.status) (payment_status_number s)
    ]

-- `filtered`
abbrev pub filtered : TransactionFilters → List PaymentTransaction → List PaymentTransaction
filtered f txs = select (passes f) txs

-- CREDIT_TYPES
abbrev pub is_credit_type : TransactionType → Bool
is_credit_type TransactionType.escrow_funded = false
is_credit_type TransactionType.milestone_released = true
is_credit_type TransactionType.full_release = true
is_credit_type TransactionType.refund = true
is_credit_type TransactionType.withdrawal = false
is_credit_type TransactionType.dispute_resolved = true

-- `isCredit`
abbrev pub is_credit : PaymentTransaction → Bool
is_credit tx = is_credit_type tx.type

-- `amountColor`
pub data AmountColor : Type 0 where
  success error muted : AmountColor

abbrev pub amount_color : PaymentTransaction → AmountColor
amount_color tx =
    if is_credit tx
    then success
    else if nat_eq (payment_status_number tx.status) 2
    then error
    else muted
