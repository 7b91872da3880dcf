-- ===== src/Payments/Earnings.antt =====
-- `getEarnings`: the payments on a freelancer's contracts, gathered by contract.
use stellances.Payments.{payments_on, job_title}
use stellances.Table.Laws.{
  Unique, find-append, append-Unique, total-append, total-update, find-update, update-Unique,
}
use stellances.World.{World}
use stellances.Table.{find, total, has, update}
use stellances.Schema.{RowId, Payment, Database, contract_key}
use stellances.Base.{
  refl, none, some, [], ◌∷◌, String, List, ℕ, to_fixed_7, if◌then◌else◌, Option, ◌≡◌, ◌+◌, length,
  ◌==◌, map, arith, ap, ◌++◌, sym, Option-cases, inl, ==_iff, inr,
}

-- an entry of `contractMap`
pub record Group : Type 0 where
  pub contract_id : RowId
  pub job_title : Option String
  pub amount : ℕ
  pub payment_count : ℕ

abbrev pub group_key : Group → String
group_key g = g.contract_id

abbrev pub add_to : ℕ → Group → Group
add_to amount g = record g { amount = g.amount + amount; payment_count = g.payment_count + 1 }

abbrev title_of : Payment → Database → Option String
title_of x db = elim (find contract_key x.contract_id db.contracts) [
  | none ↦ none
  | some c ↦ job_title c db
]

abbrev pub new_group : Database → Payment → Group
new_group db x = record {
  contract_id = x.contract_id;
  job_title = title_of x db;
  amount = x.amount;
  payment_count = 1;
}

-- one turn of the loop; a map keeps the order in which its keys were put in
unfoldable pub add_payment : Database → List Group → Payment → List Group
add_payment db gs x =
    if has group_key x.contract_id gs
    then update group_key x.contract_id (add_to x.amount) gs
    else gs ++ new_group db x ∷ []

unfoldable pub gather : Database → List Payment → List Group → List Group
unfolding add_payment
gather db [] gs = gs
gather db (x ∷ xs) gs = gather db xs (add_payment db gs x)

pub record ContractEarnings : Type 0 where
  pub contract_id : RowId
  pub job_title : Option String
  pub amount : String
  pub payment_count : ℕ

pub record EarningsSummary : Type 0 where
  pub total_earned : String
  pub currency : String
  pub payment_count : ℕ
  pub by_contract : List ContractEarnings

abbrev pub earnings_of : Group → ContractEarnings
earnings_of g = record {
  contract_id = g.contract_id;
  job_title = g.job_title;
  amount = to_fixed_7 g.amount;
  payment_count = g.payment_count;
}

abbrev pub received : RowId → World → List Payment
received freelancer_id w = payments_on (λ c. c.freelancer_id == freelancer_id) w.db

-- the entries of the map after the loop
abbrev pub groups : RowId → World → List Group
groups freelancer_id w = gather w.db (received freelancer_id w) []

-- `getEarnings`
unfoldable pub get_earnings : RowId → World → EarningsSummary
get_earnings freelancer_id w = record {
  total_earned = to_fixed_7 (total (λ x. x.amount) (received freelancer_id w));
  currency = "XLM";
  payment_count = length (received freelancer_id w);
  by_contract = map earnings_of (groups freelancer_id w);
}

add_payment-Unique :
    (db : Database) (gs : List Group) (x : Payment)
    → Unique group_key gs
    → Unique group_key (add_payment db gs x)
unfolding add_payment
add_payment-Unique db gs x u = elim (Option-cases (find group_key x.contract_id gs)) [
  | inl new ↦ ground (arith, append-Unique group_key gs (new_group db x) u new)
  | inr (g, there) ↦
      ground (arith, update-Unique group_key x.contract_id (add_to x.amount) gs (λ y. refl) u)
]

gather-Unique :
    (db : Database) (xs : List Payment) (gs : List Group)
    → Unique group_key gs
    → Unique group_key (gather db xs gs)
unfolding gather
gather-Unique db [] gs u = u
gather-Unique db (x ∷ xs) gs u =
    gather-Unique db xs (add_payment db gs x) (add_payment-Unique db gs x u)

-- what the payments of one contract sum up to
abbrev pub amount_for : RowId → Payment → ℕ
amount_for id x = if x.contract_id == id then x.amount else 0

abbrev pub amount_at : RowId → List Group → ℕ
amount_at id gs = elim (find group_key id gs) [ none ↦ 0 | some g ↦ g.amount ]

add_payment-amount_at :
    (db : Database) (gs : List Group) (x : Payment) (id : RowId)
    → amount_at id (add_payment db gs x) ≡ amount_at id gs + amount_for id x
unfolding add_payment
add_payment-amount_at db gs x id = elim (Option-cases (find group_key x.contract_id gs)) [
  | inl new ↦ ground (arith, find-append group_key id gs (new_group db x), ==_iff x.contract_id id)
  | inr (g, there) ↦ ground (
    arith,
    find-update group_key id x.contract_id (add_to x.amount) gs (λ y. refl),
    ==_iff x.contract_id id,
  )
]

gather-amount_at :
    (db : Database) (xs : List Payment) (gs : List Group) (id : RowId)
    → amount_at id (gather db xs gs) ≡ amount_at id gs + total (amount_for id) xs
unfolding gather
gather-amount_at db [] gs id = ground arith
gather-amount_at db (x ∷ xs) gs id =
    ground
      (arith, gather-amount_at db xs (add_payment db gs x) id, add_payment-amount_at db gs x id)

abbrev pub amount_sum : List Group → ℕ
amount_sum gs = total (λ g. g.amount) gs

abbrev pub count_sum : List Group → ℕ
count_sum gs = total (λ g. g.payment_count) gs

add_payment-sums :
    (db : Database) (gs : List Group) (x : Payment)
    → (amount_sum (add_payment db gs x) ≡ amount_sum gs + x.amount)
      × (count_sum (add_payment db gs x) ≡ count_sum gs + 1)
unfolding add_payment
add_payment-sums db gs x = elim (Option-cases (find group_key x.contract_id gs)) [
  | inl new ↦ ground (
    arith,
    total-append group_key (λ h. h.amount) gs (new_group db x),
    total-append group_key (λ h. h.payment_count) gs (new_group db x),
  )
  | inr (g, there) ↦ ground (
    arith,
    total-update group_key (λ h. h.amount) x.contract_id (add_to x.amount) gs there,
    total-update group_key (λ h. h.payment_count) x.contract_id (add_to x.amount) gs there,
  )
]

gather-sums :
    (db : Database) (xs : List Payment) (gs : List Group)
    → (amount_sum (gather db xs gs) ≡ amount_sum gs + total (λ x. x.amount) xs)
      × (count_sum (gather db xs gs) ≡ count_sum gs + length xs)
unfolding gather
gather-sums db [] gs = ground arith
gather-sums db (x ∷ xs) gs =
    ground (arith, gather-sums db xs (add_payment db gs x), add_payment-sums db gs x)

-- The earnings of a freelancer by contract: no contract has two entries, the entry of a contract sums
-- up the freelancer's payments on it, the entries together sum up to the amount that `totalEarned`
-- shows, and their counts to `paymentCount`.
pub get_earnings_ok :
    (freelancer_id : RowId) (w : World)
    → Unique group_key (groups freelancer_id w)
      × ((id : RowId)
          → amount_at id (groups freelancer_id w)
            ≡ total (amount_for id) (received freelancer_id w))
      × ((get_earnings freelancer_id w).total_earned
          ≡ to_fixed_7 (amount_sum (groups freelancer_id w)))
      × ((get_earnings freelancer_id w).payment_count ≡ count_sum (groups freelancer_id w))
      × ((get_earnings freelancer_id w).by_contract ≡ map earnings_of (groups freelancer_id w))
unfolding get_earnings
get_earnings_ok freelancer_id w =
    let xs = received freelancer_id w in
    let (a, c) = gather-sums w.db xs [] in
    let sum : amount_sum (groups freelancer_id w) ≡ total (λ x. x.amount) xs = omega (arith, a) in
    (
      gather-Unique w.db xs [] tt,
      λ id. omega (arith, gather-amount_at w.db xs [] id),
      ap to_fixed_7 (sym sum),
      omega (arith, c),
      refl,
    )
