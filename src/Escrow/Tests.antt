-- ===== src/Escrow/Tests.antt =====
-- The escrow client on the demo deployment.
use stellances.Escrow.Confirms.{submit_admin_invocation_confirms}
use stellances.World.Action.{ok}
use stellances.Base.{◌==◌, arith, some, zero, suc, ℕ, ◌<◌, if◌then◌else◌, ◌+◌, nat_eq}
use stellances.World.{Invocation, World, symbol, address, Env, TransactionStatus, success}
use stellances.Base.{refl, [], ◌∷◌, String, ◌≡◌}
use stellances.Demo.{demo, demo_env}
use stellances.Escrow.{submit_admin_invocation, accept, await_confirmation, poll, admin_secret}
use stellances.Escrow.Symbol.{IsUuid, contract_id_to_symbol_injective}
use stellances.Escrow.Submit.{
  Submitted, Confirmed, submit_admin_invocation-Submitted, submit_admin_invocation_ok,
}

abbrev a_uuid : String
a_uuid = "3f2504e0-4f89-11d3-9a0c-0305e82c3301"

a_uuid-IsUuid : IsUuid a_uuid
a_uuid-IsUuid = ground arith

contract_id_to_symbol_injective_example : a_uuid ≡ a_uuid
contract_id_to_symbol_injective_example =
    contract_id_to_symbol_injective a_uuid a_uuid a_uuid-IsUuid a_uuid-IsUuid refl

abbrev refund_it : Invocation
refund_it = record { fn_name = "refund"; args = symbol "contract" ∷ address "G-ADMIN" ∷ [] }

abbrev refunding : World
refunding = (submit_admin_invocation demo_env refund_it demo).1

submit_admin_invocation-Submitted_example : Submitted refund_it demo refunding
submit_admin_invocation-Submitted_example =
    submit_admin_invocation-Submitted demo_env refund_it demo

accepted_it : submit_admin_invocation demo_env refund_it demo ≡ (ok "hash-1", refunding)
unfolding submit_admin_invocation accept await_confirmation poll admin_secret ◌==◌
accepted_it = refl

submit_admin_invocation_ok_example :
    (refunding.sent ≡ (refund_it, "hash-1") ∷ []) × Confirmed demo_env "hash-1" refunding
submit_admin_invocation_ok_example =
    submit_admin_invocation_ok demo_env refund_it demo refunding "hash-1" accepted_it

-- the first answer about a transaction comes too early
abbrev slow_env : Env
slow_env = record demo_env {
  get_transaction = λ i h. if nat_eq i 3 then some TransactionStatus.not_found else some success;
}

has_secret : admin_secret slow_env ≡ some "S-ADMIN"
unfolding admin_secret ◌==◌
has_secret = refl

early :
    (i : ℕ) → i < 1 → slow_env.get_transaction (3 + i) "hash-1" ≡ some TransactionStatus.not_found
early zero lt = refl
early (suc i) lt = absurd (omega (arith, lt))

submit_admin_invocation_confirms_example :
    submit_admin_invocation slow_env refund_it demo
    ≡ (ok "hash-1", record demo { requests = 5; sent = (refund_it, "hash-1") ∷ [] })
submit_admin_invocation_confirms_example =
    submit_admin_invocation_confirms slow_env refund_it demo "S-ADMIN" "G-ADMIN" "hash-1" 1
      has_secret refl refl refl (omega arith) early refl
