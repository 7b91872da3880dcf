-- ===== src/Payments/History.antt =====
-- What `getBalances` and `getTransactions` promise.
use stellances.World.Laws.{is_set-truthy}
use stellances.Table.{find, select}
use stellances.World.Action.{ok, Result, is_set, truthy}
use stellances.Schema.{
  RowId, Payment, Database, payment_key, contract_key, Contract, Milestone, milestone_key,
}
use stellances.World.{Env, World}
use stellances.Payments.{
  Asset, get_balances, Network, get_transactions, payments_on, WalletBalance, Horizon, holds,
  with_both, PaymentTransaction, same_asset, is_party, unreachable, AccountAnswer, confirmed,
  answered, balance_of, type_of, TransactionType, ensure, account, all_listed, wallet_of,
  zero_balances, known_balances, no_account, network_of, wallet, transaction_of,
}
use stellances.Base.{
  refl, true, [], ◌∷◌, List, ◌≡◌, ◌++◌, map, ◌||◌, ◌⊎◌, arith, String, All, ◌≢◌, none, some, false,
  Option-cases, Bool, inl, inr, Option, ◌<>◌, ◌==◌, ==_iff, to_fixed_7, Bool-cases, ==_refl, subst,
  sym,
}

holds-append :
    (a : Asset) (bs : List WalletBalance) (b : WalletBalance)
    → holds a (bs ++ b ∷ []) ≡ (holds a bs || same_asset b.asset a)
holds-append a [] b = ground arith
holds-append a (c ∷ bs) b = ground (arith, holds-append a bs b)

with_both-holds :
    (n : Network) (bs : List WalletBalance)
    → (holds Asset.xlm (with_both n bs) ≡ true) × (holds Asset.usdc (with_both n bs) ≡ true)
with_both-holds n bs = (
  ground (
    arith,
    holds-append Asset.xlm bs (balance_of Asset.xlm "0.0000000" n),
    holds-append Asset.xlm (ensure Asset.xlm (balance_of Asset.xlm "0.0000000" n) bs)
        (balance_of Asset.usdc "0.00" n),
  ),
  ground (
    arith,
    holds-append Asset.usdc (ensure Asset.xlm (balance_of Asset.xlm "0.0000000" n) bs)
        (balance_of Asset.usdc "0.00" n),
  ),
)

-- a result that holds both assets
abbrev pub BothShown : Result (List WalletBalance) → Type 0
BothShown r =
    (bs : List WalletBalance) × (r ≡ ok bs)
    × (holds Asset.xlm bs ≡ true)
    × (holds Asset.usdc bs ≡ true)

answered_cases : (n : Network) (a : AccountAnswer) → BothShown (answered n a) ⊎ (a ≡ unreachable)
answered_cases n (account bs) =
    let (x, u) = with_both-holds n (known_balances n bs) in inl (_, refl, x, u)
answered_cases n no_account = inl (_, refl, refl, refl)
answered_cases n unreachable = inr refl

-- The balances always hold both assets, whether the user has a wallet or not, whether the account is
-- there or not, and whatever its balances are, unless Horizon could not be reached. The database is
-- as it was.
pub get_balances_ok :
    (env : Env) (h : Horizon) (user_id : RowId) (w : World)
    → ((get_balances env h user_id w).1.db ≡ w.db)
      × (BothShown (get_balances env h user_id w).0
          ⊎ ((key : String) × (h.account_of w.requests key ≡ unreachable)))
unfolding get_balances
get_balances_ok env h user_id w = elim (Option-cases (wallet_of user_id w)) [
  | inl e ↦ (ground arith, inl (zero_balances (network_of env), ground arith, refl, refl))
  | inr (key, e) ↦ elim (answered_cases (network_of env) (h.account_of w.requests key)) [
    | inl (bs, r, x, u) ↦ (ground arith, inl (bs, ground arith, x, u))
    | inr gone ↦ (ground arith, inr (key, gone))
  ]
]

-- an entry of the history
abbrev pub Release : PaymentTransaction → Type 0
Release t = (t.status ≡ confirmed) × (t.type ≢ TransactionType.refund)

abbrev pub transaction_id : PaymentTransaction → String
transaction_id t = t.id

abbrev selected : RowId → Database → Payment → Bool
selected user_id db x = elim (find contract_key x.contract_id db.contracts) [
  | none ↦ false
  | some c ↦ is_party user_id c
]

type_of-refund : (x : Payment) → type_of x ≢ TransactionType.refund
type_of-refund x = elim (Option-cases x.milestone_id) [
  | inl e ↦ ground arith
  | inr (id, e) ↦ ground arith
]

all_listed_lem :
    (user_id : RowId) (db : Database) (xs : List Payment)
    → (map transaction_id (all_listed user_id db (select (selected user_id db) xs))
        ≡ map payment_key (select (selected user_id db) xs))
      × All Release (all_listed user_id db (select (selected user_id db) xs))
all_listed_lem user_id db [] = (refl, tt)
all_listed_lem user_id db (x ∷ xs) =
    elim (Option-cases (find contract_key x.contract_id db.contracts)) [
      | inl e ↦ ground (arith, all_listed_lem user_id db xs)
      | inr (c, e) ↦ ground (arith, all_listed_lem user_id db xs, type_of-refund x)
    ]

find-all_listed :
    (user_id : RowId) (db : Database) (x : Payment) (c : Contract)
    → find contract_key x.contract_id db.contracts ≡ some c
    → is_party user_id c ≡ true
    → (xs : List Payment) → find payment_key x.id xs ≡ some x
    → find transaction_id x.id (all_listed user_id db (select (selected user_id db) xs))
      ≡ some (transaction_of user_id db x c)
find-all_listed user_id db x c at own [] e = absurd (cc e)
find-all_listed user_id db x c at own (y ∷ ys) e = elim (Bool-cases (y.id == x.id)) [
  | inl same ↦
      let yx : y ≡ x = ground (arith, e, same) in
      subst
        (λ z.
          find transaction_id x.id (all_listed user_id db (select (selected user_id db) (z ∷ ys)))
          ≡ some (transaction_of user_id db x c))
        (sym yx) (ground (arith, at, own, ==_refl x.id))
  | inr other ↦ elim (Option-cases (find contract_key y.contract_id db.contracts)) [
    | inl gone ↦ ground (arith, find-all_listed user_id db x c at own ys)
    | inr (d, there) ↦ ground (arith, find-all_listed user_id db x c at own ys)
  ]
]

-- the entry of one side of a contract, with the sign of the amount and the wallet of the other side
pub record IsEntry (db : Database) (x : Payment) (sign : String) (other : Option String)
    (t : PaymentTransaction) : Type 0 where
  pub id : t.id ≡ x.id
  pub amount : t.amount ≡ sign <> to_fixed_7 x.amount
  pub counterparty : t.counterparty ≡ other
  pub hash : t.stellar_tx_hash ≡ some x.stellar_tx_hash
  pub contract : t.contract_id ≡ some x.contract_id
  pub whole : x.milestone_id ≡ none → t.type ≡ TransactionType.full_release
  pub part : (id : RowId) → x.milestone_id ≡ some id → t.type ≡ TransactionType.milestone_released
  pub titled :
      (id : RowId) (m : Milestone)
      → x.milestone_id ≡ some id
      → find milestone_key id db.milestones ≡ some m
      → is_set (some m.title) ≡ true
      → t.description ≡ "Milestone: " <> m.title

titled_lem :
    (user_id : RowId) (db : Database) (x : Payment) (c : Contract) (id : RowId) (m : Milestone)
    → x.milestone_id ≡ some id
    → find milestone_key id db.milestones ≡ some m
    → is_set (some m.title) ≡ true
    → (transaction_of user_id db x c).description ≡ "Milestone: " <> m.title
titled_lem user_id db x c id m e at set =
    let t : truthy (some m.title) ≡ some m.title = is_set-truthy m.title set in
    ground (arith, e, at, t)

client-IsEntry :
    (db : Database) (x : Payment) (c : Contract)
    → IsEntry db x "-" (wallet c.freelancer_id db) (transaction_of c.client_id db x c)
client-IsEntry db x c =
    let own : (c.client_id == c.client_id) ≡ true = ==_refl c.client_id in
    record {
      id = refl;
      amount = rw own refl;
      counterparty = rw own refl;
      hash = refl;
      contract = refl;
      whole = λ e. rw e refl;
      part = λ id e. rw e refl;
      titled = titled_lem c.client_id db x c;
    }

freelancer-IsEntry :
    (db : Database) (x : Payment) (c : Contract)
    → (c.client_id == c.freelancer_id) ≡ false
    → IsEntry db x "+" (wallet c.client_id db) (transaction_of c.freelancer_id db x c)
freelancer-IsEntry db x c two = record {
  id = refl;
  amount = rw two refl;
  counterparty = rw two refl;
  hash = refl;
  contract = refl;
  whole = λ e. rw e refl;
  part = λ id e. rw e refl;
  titled = titled_lem c.freelancer_id db x c;
}

-- what the two sides of a payment are shown
abbrev pub BothSides : Payment → Contract → World → Type 0
BothSides x c w =
    (paid got : PaymentTransaction) × (find transaction_id x.id (get_transactions c.client_id w)
      ≡ some paid)
    × (find transaction_id x.id (get_transactions c.freelancer_id w) ≡ some got)
    × IsEntry w.db x "-" (wallet c.freelancer_id w.db) paid
    × IsEntry w.db x "+" (wallet c.client_id w.db) got
    × (paid.description ≡ got.description)

-- The history of a user has one entry for each payment on a contract
-- of his, in the order of the payments; each is confirmed, and none has the type `REFUND`. And where
-- a payment of the database is on a contract between two users, the history of the client shows it
-- with a minus and the freelancer's wallet, the history of the freelancer with a plus and the client's
-- wallet, both with the payment's amount, hash and contract, as MILESTONE_RELEASED if it is for a
-- milestone and as FULL_RELEASE if not, and with one description, which gives the title of that
-- milestone, if the milestone is in the database and its title is not empty.
pub get_transactions_ok :
    (user_id : RowId) (w : World) (x : Payment) (c : Contract)
    → find payment_key x.id w.db.payments ≡ some x
    → find contract_key x.contract_id w.db.contracts ≡ some c
    → c.client_id ≢ c.freelancer_id
    → (map transaction_id (get_transactions user_id w)
        ≡ map payment_key (payments_on (is_party user_id) w.db))
      × All Release (get_transactions user_id w)
      × BothSides x c w
unfolding get_transactions payments_on
get_transactions_ok user_id w x c there at two =
    let (ids, kinds) = all_listed_lem user_id w.db w.db.payments in
    let not_same : (c.client_id == c.freelancer_id) ≡ false =
      ground (arith, ==_iff c.client_id c.freelancer_id, two) in
    (
      ids,
      kinds,
      (
        transaction_of c.client_id w.db x c,
        transaction_of c.freelancer_id w.db x c,
        find-all_listed c.client_id w.db x c at (ground (arith, ==_refl c.client_id)) w.db.payments
            there,
        find-all_listed c.freelancer_id w.db x c at (ground (arith, ==_refl c.freelancer_id))
            w.db.payments there,
        client-IsEntry w.db x c,
        freelancer-IsEntry w.db x c not_same,
        refl,
      ),
    )
