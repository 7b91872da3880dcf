-- ===== src/Escrow.antt =====
-- stellance/backend/src/escrow/escrow.service.ts: the client of the Soroban escrow contract. The
-- SDK's servers answer from the environment; building and signing a transaction adds nothing to the
-- invocation that it carries.
pub mod Symbol
pub mod Submit
pub mod Confirms
mod Tests
use stellances.Schema.{RowId}
use stellances.World.{
  Env, Invocation, Simulation, Sent, TransactionStatus, symbol, ScVal, address, send_error,
  simulation_error, variant, i128, u32, accepted, simulated, success, failed,
}
use stellances.World.Action.{
  Exception, service_unavailable, Action, Done, err, ◌>>=◌, ◌>>◌, pure, is_set, throw, request,
  or_throw, ok,
}
use stellances.Base.{
  zero, suc, none, some, true, false, [], ◌∷◌, ℕ, String, List, if◌then◌else◌, Option, nat_eq, ◌<>◌,
}
use Prim.Native.Char.{code}

abbrev hyphen : ℕ
hyphen = b'-'

-- `contractIdToSymbol`: `uuid.replace(/-/g, '')`
unfoldable pub contract_id_to_symbol : String → String
contract_id_to_symbol String.[] = String.[]
contract_id_to_symbol (String.◌∷◌ c s) =
    let rest = contract_id_to_symbol s in if nat_eq (code c) hyphen then rest else String.◌∷◌ c rest

-- the constructor's `adminKeypair`, by its secret: an empty secret counts as none
unfoldable pub admin_secret : Env → Option String
admin_secret env = elim (is_set (env.config "STELLAR_ADMIN_SECRET")) [
  | true ↦ env.config "STELLAR_ADMIN_SECRET"
  | false ↦ none
]

abbrev no_admin : Exception
no_admin = service_unavailable "Admin keypair not configured (STELLAR_ADMIN_SECRET)"

-- `getAdminPublicKey`
unfoldable pub get_admin_public_key : Env → Action String
get_admin_public_key env = do
  secret ← or_throw (admin_secret env) no_admin
  pure (env.public_key secret)

-- `verifyTransaction`: the ledger, and any failure of the request is a 503
unfoldable pub verify_transaction : Env → String → Action ℕ
verify_transaction env tx_hash w = (
  elim (env.transaction_ledger w.requests tx_hash) [
    | none ↦ err (service_unavailable ("Cannot verify tx " <> tx_hash <> " on Horizon"))
    | some ledger ↦ ok ledger
  ],
  record w { requests = suc w.requests },
)

-- `isSimulationError`
abbrev pub check_simulation : String → Simulation → Action Done
check_simulation what simulated = pure tt
check_simulation what (simulation_error e) =
    throw (service_unavailable ("Soroban simulation failed" <> what <> ": " <> e))

-- An invocation that a client is to sign: simulated, then handed back as XDR.
unfoldable pub build_xdr : Env → String → String → Invocation → Action String
build_xdr env what source call = do
  request (λ i. env.get_account i source)
  simulation ← request (λ i. env.simulate i call)
  check_simulation what simulation
  pure (env.to_xdr call)

pub record FundParams : Type 0 where
  pub contract_id : RowId
  pub client_public_key : String
  pub freelancer_public_key : String
  pub admin_public_key : String
  pub amount_stroops : ℕ
  pub token_contract_id : String

abbrev pub fund_call : FundParams → Invocation
fund_call p = record {
  fn_name = "fund";
  args =
      symbol (contract_id_to_symbol p.contract_id)
      ∷ address p.client_public_key
      ∷ address p.freelancer_public_key
      ∷ address p.admin_public_key
      ∷ i128 p.amount_stroops
      ∷ address p.token_contract_id
      ∷ [];
}

-- `buildFundXdr`
unfoldable pub build_fund_xdr : Env → FundParams → Action String
unfolding build_xdr
build_fund_xdr env p = build_xdr env "" p.client_public_key (fund_call p)

-- `buildDisputeXdr`
unfoldable pub build_dispute_xdr : Env → RowId → String → Action String
unfolding build_xdr
build_dispute_xdr env contract_id caller_public_key =
    build_xdr env " for dispute" caller_public_key (record {
      fn_name = "dispute";
      args = symbol (contract_id_to_symbol contract_id) ∷ address caller_public_key ∷ [];
    })

-- the answer of `sendTransaction`
unfoldable pub accept : Invocation → Sent → Action String
accept call (send_error e) w =
    (err (service_unavailable ("Transaction send failed for " <> call.fn_name <> ": " <> e)), w)
accept call (accepted hash) w = (ok hash, record w { sent = (call, hash) ∷ w.sent })

-- the loop on `getTransaction`, by the attempts that are left
unfoldable pub poll : Env → String → ℕ → TransactionStatus → Action TransactionStatus
poll env hash zero status = pure status
poll env hash (suc left) status = elim status [
  | TransactionStatus.not_found ↦
      request (λ i. env.get_transaction i hash) >>= λ answer. poll env hash left answer
  | other ↦ pure other
]

abbrev pub attempts : ℕ
attempts = 20

-- what is thrown at the end unless the status is `SUCCESS`
abbrev confirm : String → TransactionStatus → Action String
confirm hash success = pure hash
confirm hash TransactionStatus.not_found =
    throw (service_unavailable ("Transaction " <> hash <> " did not confirm (status: NOT_FOUND)"))
confirm hash failed =
    throw (service_unavailable ("Transaction " <> hash <> " did not confirm (status: FAILED)"))

-- the part after `sendTransaction`
unfoldable pub await_confirmation : Env → String → Action String
await_confirmation env hash = do
  first ← request (λ i. env.get_transaction i hash)
  last ← poll env hash attempts first
  confirm hash last

-- `_submitAdminInvocation`
unfoldable pub submit_admin_invocation : Env → Invocation → Action String
unfolding accept
submit_admin_invocation env call = do
  secret ← or_throw (admin_secret env) no_admin
  request (λ i. env.get_account i (env.public_key secret))
  simulation ← request (λ i. env.simulate i call)
  check_simulation (" for " <> call.fn_name) simulation
  answer ← request (λ i. env.send i call)
  hash ← accept call answer
  await_confirmation env hash

-- The arguments are evaluated first, so a missing admin key is found there.
abbrev pub submit_with : Env → String → (String → List ScVal) → Action String
submit_with env fn_name rest = do
  key ← get_admin_public_key env
  submit_admin_invocation env (record { fn_name = fn_name; args = rest key })

abbrev pub release_milestone_args : RowId → ℕ → String → List ScVal
release_milestone_args contract_id amount key =
    symbol (contract_id_to_symbol contract_id) ∷ address key ∷ i128 amount ∷ []

-- `submitReleaseMilestone`
unfoldable pub submit_release_milestone : Env → RowId → ℕ → Action String
submit_release_milestone env contract_id amount =
    submit_with env "release_milestone" (release_milestone_args contract_id amount)

abbrev pub contract_args : RowId → String → List ScVal
contract_args contract_id key = symbol (contract_id_to_symbol contract_id) ∷ address key ∷ []

-- `submitRelease`
unfoldable pub submit_release : Env → RowId → Action String
submit_release env contract_id = submit_with env "release" (contract_args contract_id)

-- `submitRefund`
unfoldable pub submit_refund : Env → RowId → Action String
submit_refund env contract_id = submit_with env "refund" (contract_args contract_id)

-- `submitDispute`
unfoldable pub submit_dispute : Env → RowId → Action String
submit_dispute env contract_id = submit_with env "dispute" (contract_args contract_id)

-- the numbers 0, 1 and 2 of `decision`, and `variants`
pub data Decision : Type 0 where
  release refund split : Decision

abbrev pub variant_of : Decision → String
variant_of release = "ReleaseToFreelancer"
variant_of refund = "RefundToClient"
variant_of split = "Split"

abbrev pub resolve_args : RowId → Decision → ℕ → String → List ScVal
resolve_args contract_id decision freelancer_bps key =
    symbol (contract_id_to_symbol contract_id)
    ∷ address key
    ∷ variant (variant_of decision)
    ∷ u32 freelancer_bps
    ∷ []

-- `submitResolveDispute`
unfoldable pub submit_resolve_dispute : Env → RowId → Decision → ℕ → Action String
submit_resolve_dispute env contract_id decision freelancer_bps =
    submit_with env "resolve_dispute" (resolve_args contract_id decision freelancer_bps)
