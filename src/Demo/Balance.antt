-- ===== src/Demo/Balance.antt =====
-- The ledger of the demo deployment is balanced.
use stellances.Base.{◌==◌, arith, Bool-cases, inl, inr}
use stellances.Demo.{demo}
use stellances.Contracts.Balance.{Balanced}
use stellances.Contracts.Ledger.{ledger, owed, earned, recorded}

pub demo-Balanced : Balanced (ledger demo)
unfolding owed earned recorded ◌==◌
demo-Balanced = record {
  unique = ground arith;
  sums = λ id. elim (Bool-cases ("contract" == id)) [ inl e ↦ ground arith | inr e ↦ ground arith ];
}
