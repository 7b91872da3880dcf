-- ===== src/Frontend/Credits.antt =====
-- How the table of payments shows the history that the backend gives.
use Prim.Native.Char.{char}
use text.Mathlib.TextLemmas.{cons-append}
use stellances.Frontend.Format.{is_negative}
use stellances.World.{World}
use stellances.Base.{
  none, some, true, false, ◌≡◌, arith, List, [], ◌∷◌, All, inl, inr, Option-cases, Bool, refl,
  nat_eq, ==_iff, String, ◌<>◌, to_fixed_7, ap,
}
use stellances.Schema.{RowId, Payment, Database, contract_key, Contract}
use stellances.Table.{find}
use stellances.Payments.{
  TransactionType, all_listed, type_of, get_transactions, payments_on, transaction_of, is_party,
}
use stellances.Frontend.History.{
  amount_color, success, is_credit_type, TransactionFilters, filtered, type_number,
}

-- a kind of transaction that the backend makes
abbrev pub is_made : TransactionType → Bool
is_made TransactionType.milestone_released = true
is_made TransactionType.full_release = true
is_made _ = false

-- the filter by a kind
abbrev pub of_type : TransactionType → TransactionFilters
of_type t = record { type = some t; asset = none; status = none }

not_made :
    (made t : TransactionType)
    → is_made made ≡ true
    → is_made t ≡ false
    → nat_eq (type_number made) (type_number t) ≡ false
not_made TransactionType.milestone_released t m h = ground (arith, h)
not_made TransactionType.full_release t m h = ground (arith, h)
not_made TransactionType.escrow_funded t m h = absurd (cc m)
not_made TransactionType.refund t m h = absurd (cc m)
not_made TransactionType.withdrawal t m h = absurd (cc m)
not_made TransactionType.dispute_resolved t m h = absurd (cc m)

type_of-is_made : (x : Payment) → (is_credit_type (type_of x) ≡ true) × (is_made (type_of x) ≡ true)
type_of-is_made x = elim (Option-cases x.milestone_id) [
  | inl e ↦ (ground arith, ground arith)
  | inr (id, e) ↦ (ground arith, ground arith)
]

all_listed-credit :
    (user_id : RowId) (db : Database) (xs : List Payment)
    → All (λ t. amount_color t ≡ success) (all_listed user_id db xs)
all_listed-credit user_id db [] = tt
all_listed-credit user_id db (x ∷ xs) =
    elim (Option-cases (find contract_key x.contract_id db.contracts)) [
      | inl e ↦ ground (arith, all_listed-credit user_id db xs)
      | inr (c, e) ↦ ground (arith, all_listed-credit user_id db xs, type_of-is_made x)
    ]

other_type :
    (t : TransactionType) (x : Payment)
    → is_made t ≡ false
    → nat_eq (type_number (type_of x)) (type_number t) ≡ false
other_type t x h = not_made (type_of x) t (type_of-is_made x).1 h

-- the backend's history has none of a kind that it does not make
filtered-is_made :
    (t : TransactionType) (user_id : RowId) (db : Database) (xs : List Payment)
    → is_made t ≡ false
    → filtered (of_type t) (all_listed user_id db xs) ≡ []
filtered-is_made t user_id db [] h = refl
filtered-is_made t user_id db (x ∷ xs) h =
    elim (Option-cases (find contract_key x.contract_id db.contracts)) [
      | inl e ↦ ground (arith, filtered-is_made t user_id db xs h)
      | inr (c, e) ↦ ground (arith, filtered-is_made t user_id db xs h, other_type t x h)
    ]

minus-negative : (s : String) → is_negative ("-" <> s) ≡ true
minus-negative s = ap is_negative (cons-append (char 45 tt) String.[] s)

payer_amount :
    (user_id : RowId) (db : Database) (x : Payment) (c : Contract)
    → c.client_id ≡ user_id
    → is_negative (transaction_of user_id db x c).amount ≡ true
payer_amount user_id db x c own =
    ground (arith, ==_iff c.client_id user_id, minus-negative (to_fixed_7 x.amount))

-- The finding about CREDIT_TYPES: the table shows every entry of the backend's history as money that
-- came in, those of a client who paid among them, whose amounts begin with a minus; and of the kinds
-- that the table can be filtered by, all but MILESTONE_RELEASED and FULL_RELEASE leave nothing.
pub history_shown_as_income :
    (user_id : RowId) (w : World) (x : Payment) (c : Contract) (t : TransactionType)
    → c.client_id ≡ user_id
    → is_made t ≡ false
    → All (λ tx. amount_color tx ≡ success) (get_transactions user_id w)
      × (is_negative (transaction_of user_id w.db x c).amount ≡ true)
      × (filtered (of_type t) (get_transactions user_id w) ≡ [])
unfolding get_transactions payments_on
history_shown_as_income user_id w x c t own h = (
  all_listed-credit user_id w.db (payments_on (is_party user_id) w.db),
  payer_amount user_id w.db x c own,
  filtered-is_made t user_id w.db (payments_on (is_party user_id) w.db) h,
)
