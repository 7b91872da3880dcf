-- ===== src/App.antt =====
-- What the application as a whole does: stellance/backend/src/app.service.ts, the checks that main.ts,
-- jwt.strategy.ts and auth.module.ts make of the configuration at the start.
pub mod Startup
use stellances.World.Action.{Action, ok, truthy, is_set}
use stellances.Base.{suc, none, some, [], ◌∷◌, List, ℕ, String, Option, if◌then◌else◌}
use stellances.Http.Query.{parse_int}
use stellances.World.{Env}
use stellances.Payments.{Horizon}

-- `health`, with the time in milliseconds
pub record Health : Type 0 where
  pub status : String
  pub version : String
  pub network : String
  pub timestamp : ℕ

unfoldable pub health : Env → Horizon → Action Health
health env h w = (
  ok (record {
    status = "ok";
    version = "0.4.0";
    network = elim (env.config "STELLAR_NETWORK") [ none ↦ "testnet" | some n ↦ n ];
    timestamp = h.now w.requests;
  }),
  record w { requests = suc w.requests },
)

-- `validateEnvironment`
abbrev required : List String
required = "JWT_SECRET" ∷ "DATABASE_URL" ∷ []

abbrev optional : List String
optional = "ESCROW_CONTRACT_ID" ∷ "STELLAR_ADMIN_SECRET" ∷ []

-- those of the keys that are not set: the process exits if a required one is among them
unfoldable pub missing : Env → List String → List String
missing env [] = []
missing env (key ∷ keys) =
    let rest = missing env keys in if is_set (env.config key) then rest else key ∷ rest

abbrev pub missing_required : Env → List String
missing_required env = missing env required

abbrev pub warned : Env → List String
warned env = missing env optional

-- the constructor of JwtStrategy: `none` is the exception at the start
unfoldable pub verifying_secret : Env → Option String
verifying_secret env = truthy (env.config "JWT_SECRET")

-- the secret that AuthModule signs with
unfoldable pub signing_secret : Env → String
signing_secret env = elim (truthy (env.config "JWT_SECRET")) [ none ↦ "secretKey" | some s ↦ s ]
