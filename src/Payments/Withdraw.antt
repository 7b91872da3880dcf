-- ===== src/Payments/Withdraw.antt =====
-- `withdraw`, and the two reads at the end of the service.
use stellances.Payments.Double.{fixed_7, Double, is_zero, double_of}
use Prim.Native.String.{slice, count}
use stellances.Table.{select, find}
use stellances.World.Action.{
  Action, ◌>>◌, err, ok, service_unavailable, throw_if, ◌>>=◌, pure, bad_request, or_throw, truthy,
  Result, Done, returned,
}
use stellances.Payments.{Asset, slice, Horizon, PaymentTransaction, withdrawal, confirmed}
use stellances.World.{Env, Invocation, World, address, i128}
use Prim.Native.Char.{Char, code}
use stellances.Schema.{RowId, Database, Payment, payment_hash}
use stellances.Base.{
  refl, suc, none, some, true, false, [], ◌∷◌, Option, ℕ, String, ◌≡◌, Bool, if◌then◌else◌, ◌*◌,
  ◌<>◌, ◌+◌, List, leb, nat_eq, ◌-◌, ◌==◌, ◌≤◌, ◌&&◌, not, Option-cases, show, inl, arith, inr,
  to_fixed_7, zero,
}

abbrev is_digit : Char → Bool
is_digit c = leb 48 (code c) && leb (code c) 57

-- the digits after the point: the number so far and how many of its digits are after the point
unfoldable pub fraction : ℕ → ℕ → String → Option (ℕ × ℕ)
fraction n k String.[] = if nat_eq k 0 then none else some (n, k)
fraction n k (String.◌∷◌ c s) =
    let rest = fraction (n * 10 + (code c - 48)) (suc k) s in if is_digit c then rest else none

unfoldable pub number : ℕ → Bool → String → Option (ℕ × ℕ)
unfolding fraction
number n seen String.[] = if seen then some (n, 0) else none
number n seen (String.◌∷◌ c s) =
    let more = number (n * 10 + (code c - 48)) true s in
    let after = fraction n 0 s in
    if is_digit c then more else if nat_eq (code c) 46 && seen then after else none

-- The decimal that an amount says which WithdrawDto lets through, `/^\d+(\.\d+)?$/`: its digits and how
-- many of them are after the point. Every other text is taken for no number.
unfoldable pub parse_amount : String → Option (ℕ × ℕ)
unfolding number
parse_amount s = number 0 false s

abbrev pub to_double : Option (ℕ × ℕ) → Option Double
to_double none = none
to_double (some d) = some (double_of d)

-- `parseFloat`, as `amountNum`
unfoldable pub amount_num : String → Option Double
unfolding parse_amount
amount_num s = to_double (parse_amount s)

pub record WithdrawParams : Type 0 where
  pub user_id : RowId
  pub asset : Asset
  pub amount : String
  pub destination_address : String

-- the number, unless it is none or not positive
abbrev positive : Option Double → Option Double
positive none = none
positive (some x) = if is_zero x then none else some x

abbrev is_xlm : Asset → Bool
is_xlm Asset.xlm = true
is_xlm Asset.usdc = false

-- The checks of `withdraw`: the amount and the admin's secret.
unfoldable pub check_withdraw : Env → Horizon → WithdrawParams → Action (Double × String)
unfolding amount_num
check_withdraw env h p = do
  throw_if (not (h.is_address p.destination_address))
      (bad_request ("Invalid Stellar address: " <> p.destination_address))
  x ← or_throw (positive (amount_num p.amount)) (bad_request "Amount must be a positive number")
  throw_if (not (is_xlm p.asset)) (bad_request "Only XLM withdrawals are supported at this time")
  secret ←
      or_throw (truthy (env.config "STELLAR_ADMIN_SECRET"))
        (service_unavailable "Withdrawal service not configured (STELLAR_ADMIN_SECRET missing)")
  pure (x, secret)

-- a payment of lumens, as it stands among what has gone to the chain
abbrev pub payment_call : String → ℕ → Invocation
payment_call destination stroops = record {
  fn_name = "payment";
  args = address destination ∷ i128 stroops ∷ [];
}

abbrev settled : {A : Type 0} → Option A → Result A
settled none = err (service_unavailable "Withdrawal failed")
settled (some a) = ok a

-- a request to Horizon of which each failure is a 503
abbrev ask : {A : Type 0} → (ℕ → Option A) → Action A
ask answer w = (settled (answer w.requests), record w { requests = suc w.requests })

abbrev note_sent : Invocation → String → Action Done
note_sent call hash w = (ok tt, record w { sent = (call, hash) ∷ w.sent })

-- The stroops that `Operation.payment` takes, which throws on any other amount; a text that is no decimal
-- with seven places says more stroops than it takes.
abbrev payable : Horizon → Option ℕ → Option ℕ
payable h none = none
payable h (some n) = if h.takes_amount n then some n else none

-- the transaction, signed by the admin: the stroops that it pays and its hash
unfoldable pub transfer : Env → Horizon → String → String → Double → Action (ℕ × String)
unfolding fixed_7
transfer env h secret destination amount = do
  ask (λ i. h.load_account i (env.public_key secret))
  ask (λ i. h.base_fee i)
  stroops ← returned (settled (payable h (fixed_7 amount)))
  hash ← ask (λ i. h.submit_payment i destination stroops)
  note_sent (payment_call destination stroops) hash
  pure (stroops, hash)

abbrev clock : Horizon → Action ℕ
clock h w = (ok (h.now w.requests), record w { requests = suc w.requests })

abbrev shortened : String → String
shortened s = slice s 0 6 <> "…" <> slice s (count s - 6) (count s)

-- `withdraw`
unfoldable pub withdraw : Env → Horizon → WithdrawParams → Action PaymentTransaction
withdraw env h p = do
  checked ← check_withdraw env h p
  paid ← transfer env h checked.1 p.destination_address checked.0
  now ← clock h
  pure (record {
    id = "withdraw_" <> show now;
    type = withdrawal;
    status = confirmed;
    asset = Asset.xlm;
    amount = "-" <> to_fixed_7 paid.0;
    description = "Withdrawal to " <> shortened p.destination_address;
    stellar_tx_hash = some paid.1;
    counterparty = some p.destination_address;
    contract_id = none;
  })

-- `findByContract`
abbrev pub find_by_contract : RowId → World → List Payment
find_by_contract contract_id w = select (λ x. x.contract_id == contract_id) w.db.payments

-- `findByTxHash`
abbrev pub find_by_tx_hash : String → World → Option Payment
find_by_tx_hash tx_hash w = find payment_hash tx_hash w.db.payments

fifty : parse_amount "50.25" ≡ some (5025, 2)
unfolding parse_amount
fifty = refl

above_0 : (h : Horizon) (n : ℕ) → h.takes_amount 0 ≡ false → h.takes_amount n ≡ true → 1 ≤ n
above_0 h zero a b = absurd (cc (a, b))
above_0 h (suc n) a b = omega arith

-- When `withdraw` returns, and the SDK takes no payment of 0 stroops, then the asset was XLM, the
-- destination is an address, the amount is a number x above 0, and exactly one payment went to the chain,
-- of the stroops that x has with seven places, at least one, to that destination and under the hash
-- that is returned; the answer shows that amount with a minus, and the database is as it was.
pub withdraw_ok :
    (env : Env) (h : Horizon) (p : WithdrawParams) (w w' : World) (r : PaymentTransaction)
    → h.takes_amount 0 ≡ false
    → withdraw env h p w ≡ (ok r, w')
    → (p.asset ≡ Asset.xlm)
      × (h.is_address p.destination_address ≡ true)
      × (w'.db ≡ w.db)
      × ((x : Double) × (n : ℕ) × (hash : String) × (amount_num p.amount ≡ some x)
          × (is_zero x ≡ false)
          × (fixed_7 x ≡ some n)
          × (1 ≤ n)
          × (r.amount ≡ "-" <> to_fixed_7 n)
          × (r.stellar_tx_hash ≡ some hash)
          × (w'.sent ≡ (payment_call p.destination_address n, hash) ∷ w.sent))
unfolding withdraw check_withdraw transfer
withdraw_ok env h p w w' r no_zero e = elim (Option-cases (amount_num p.amount)) [
  | inl e₀ ↦ absurd (ground arith)
  | inr (x, e₀) ↦ elim (Option-cases (truthy (env.config "STELLAR_ADMIN_SECRET"))) [
    | inl e₁ ↦ absurd (ground arith)
    | inr (secret, e₁) ↦ elim (Option-cases (fixed_7 x)) [
      | inl e₂ ↦ absurd (ground arith)
      | inr (n, e₂) ↦
          elim (Option-cases (h.submit_payment (suc (suc w.requests)) p.destination_address n)) [
            | inl e₃ ↦ absurd (ground arith)
            | inr (hash, e₃) ↦ (
              ground arith,
              ground arith,
              ground arith,
              (
                x,
                n,
                hash,
                e₀,
                ground arith,
                e₂,
                above_0 h n no_zero (ground arith),
                ground arith,
                ground arith,
                ground arith,
              ),
            )
          ]
    ]
  ]
]

-- The finding about `withdraw`: whoever asks, and whatever he has earned, the admin's account pays. Two
-- users that ask for the same amount to the same destination when the servers give the same answers
-- get the same answer, whatever the database says of them.
pub withdraw_for_anyone :
    (env : Env) (h : Horizon) (p : WithdrawParams) (other : RowId) (db : Database) (w : World)
    → (withdraw env h (record p { user_id = other }) (record w { db = db })).0
      ≡ (withdraw env h p w).0
unfolding withdraw check_withdraw transfer
withdraw_for_anyone env h p other db w = elim (Option-cases (positive (amount_num p.amount))) [
  | inl e₀ ↦ ground arith
  | inr (x, e₀) ↦ elim (Option-cases (truthy (env.config "STELLAR_ADMIN_SECRET"))) [
    | inl e₁ ↦ ground arith
    | inr (secret, e₁) ↦ ground arith
  ]
]
