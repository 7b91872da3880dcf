-- ===== src/Api/Tests.antt =====
-- Requests to the demo deployment: carol, frank and ada are logged in with tokens that are their names.
use stellances.Escrow.Submit.{Asked}
use stellances.Schema.{User, UserRole}
use stellances.World.Action.{Exception, ok, err, unauthorized}
use stellances.Auth.Rotation.{logout_all}
use stellances.World.{World}
use stellances.Base.{
  refl, none, some, true, false, [], ◌∷◌, if◌then◌else◌, ◌==◌, ◌≤◌, List, String, arith, show, ◌≡◌,
  ◌<>◌, ap,
}
use stellances.Api.Amounts.{serve-Valued, Valued}
use stellances.Api.Balance.{serve_never_overpays}
use stellances.Api.Blocked.{job_never_free, HasContract}
use stellances.Api.Guard.{
  respond_unauthorized, login_authenticates, bearing, claims_of, identity_of, WrongType,
}
use stellances.Api.{serve, Event, arrives, closes, respond, is_public}
use stellances.Api.Routes.{
  public, account, contracts, log_in, open_stream, approve_work, raise_dispute,
}
use stellances.Http.{HttpRequest, Server, Framework, Claims, authenticate, token_of}
use stellances.Demo.Balance.{demo-Balanced}
use stellances.Demo.{demo, demo_env, demo_db, demo_crypto, demo_horizon, user}
use stellances.Http.{Identity}
use stellances.Contracts.Create.{create, CreateContractDto}
use stellances.Contracts.Ledger.{ledger, owed, recorded}
use stellances.Auth.{login, Meta, Tokens, payload_of, insert_refresh_token}

abbrev member : String → UserRole → Claims
member name role = record {
  sub = name;
  email = name <> "@example.org";
  role = role;
  tv = 0;
  typ = some "access";
}

abbrev demo_framework : Framework
demo_framework = record {
  verify = λ i t.
      if t == "carol"
      then some (member "carol" UserRole.client)
      else if t == "frank"
      then some (member "frank" UserRole.freelancer)
      else none;
  is_email = λ s. true;
  is_uuid = λ s. true;
}

abbrev demo_server : Server
demo_server = record {
  env = demo_env;
  crypto = demo_crypto;
  horizon = demo_horizon;
  framework = demo_framework;
  contains = λ s t. s == t;
}

abbrev no_one : HttpRequest
no_one = record {
  access_token_cookie = none;
  refresh_token_cookie = none;
  bearer = none;
  ip = none;
  user_agent = none;
}

abbrev a_day : List Event
a_day =
    arrives no_one (public (log_in (some "carol@example.org") (some "wrong")))
    ∷ arrives (bearing no_one "frank") (account open_stream)
    ∷ arrives (bearing no_one "carol") (contracts (approve_work "contract" "final"))
    ∷ closes "frank"
    ∷ arrives (bearing no_one "mallory") (contracts (raise_dispute "contract" "late"))
    ∷ []

demo-Valued : Valued demo_db
demo-Valued = record { budgets = refl; amounts = refl }

serve-Valued_example : Valued (serve demo_server a_day demo).db
serve-Valued_example = serve-Valued demo_server a_day demo demo-Valued

serve_never_overpays_example :
    recorded "contract" (ledger (serve demo_server a_day demo))
    ≤ owed "contract" (ledger (serve demo_server a_day demo))
serve_never_overpays_example = serve_never_overpays demo_server a_day demo "contract" demo-Balanced

abbrev second_try : CreateContractDto
second_try = record { job_id = "job"; freelancer_id = "frank"; milestones = [] }

demo_has : HasContract "job" demo_db
unfolding ◌==◌
demo_has = refl

job_never_free_example :
    (x : Exception) × (create demo_env "carol" second_try (serve demo_server a_day demo)
      ≡ (err x, serve demo_server a_day demo))
job_never_free_example = job_never_free demo_server a_day demo "carol" second_try demo_has

mallory_unknown :
    (t : String) (c : Claims)
    → token_of (bearing no_one "mallory") ≡ some t
    → demo_framework.verify demo.requests t ≡ some c
    → WrongType c
unfolding ◌==◌ token_of
mallory_unknown t c e f =
    let same : "mallory" ≡ t = ground (arith, e) in
    absurd (ground (arith, ap (demo_framework.verify 0) same, f))

private_route : is_public (contracts (raise_dispute "contract" "late")) ≡ false
unfolding is_public
private_route = refl

respond_unauthorized_example :
    (m : String) × (w' : World) × (respond demo_server
        (bearing no_one "mallory")
        (contracts (raise_dispute "contract" "late"))
        demo
      ≡ (err (unauthorized m), w'))
    × Asked 1 demo w'
respond_unauthorized_example =
    respond_unauthorized demo_server (bearing no_one "mallory")
      (contracts (raise_dispute "contract" "late")) demo private_route mallory_unknown

abbrev carol : User
carol = user "carol" UserRole.client

abbrev no_meta : Meta
no_meta = record { ip = none; user_agent = none }

-- a framework that reads back every token that `demo_crypto` signs for carol
abbrev trusting : Framework
trusting = record demo_framework { verify = λ i t. some (claims_of (payload_of carol)) }

abbrev logged_in : World
logged_in = (login demo_crypto demo_env carol no_meta demo).1

abbrev carols : Tokens
carols = record { access_token = "carol"; refresh_token = "token-0" }

carol_logs_in : login demo_crypto demo_env carol no_meta demo ≡ (ok carols, logged_in)
unfolding login insert_refresh_token show
carol_logs_in = refl

login_authenticates_example :
    (authenticate trusting (bearing no_one "carol") (logout_all demo_crypto "carol" logged_in).1).0
    ≡ ok (identity_of carol)
login_authenticates_example =
    login_authenticates demo_crypto demo_env trusting carol no_meta demo logged_in carols no_one
      (logout_all demo_crypto "carol" logged_in).1 carol_logs_in refl refl

abbrev carols_identity : Identity
carols_identity = identity_of carol
