-- ===== src/Http.antt =====
-- What a request goes through before its handler, stellance/backend/src/auth: JwtAuthGuard and
-- JwtStrategy for the access token, LocalStrategy for a login. passport and the check of a token's
-- signature and expiry are parameters.
pub mod Query
pub mod Validation
use stellances.Payments.{Horizon}
use stellances.World.{Env}
use stellances.Schema.{RowId, UserRole, User}
use stellances.World.Action.{
  Result, Action, err, ◌>>=◌, or_throw, unauthorized, pure, is_set, truthy, ok, gets, returned,
}
use stellances.Auth.{Crypto, validate_user}
use stellances.Base.{
  none, some, true, false, ℕ, String, Bool, Option, suc, if◌then◌else◌, ◌&&◌, not, ◌==◌,
}

-- what the handlers read of a request besides its body, its query and its route. `bearer` is
-- `ExtractJwt.fromAuthHeaderAsBearerToken()`.
pub record HttpRequest : Type 0 where
  pub access_token_cookie : Option String
  pub refresh_token_cookie : Option String
  pub bearer : Option String
  pub ip : Option String
  pub user_agent : Option String

-- `JwtPayload`
pub record Claims : Type 0 where
  pub sub : RowId
  pub email : String
  pub role : UserRole
  pub tv : ℕ
  pub typ : Option String

-- `req.user` after the guard
pub record Identity : Type 0 where
  pub id : RowId
  pub email : String
  pub role : UserRole

-- passport-jwt's check of a token's signature and expiry, at the request of that number, and the
-- tests of class-validator that are not written out
pub record Framework : Type 0 where
  pub verify : ℕ → String → Option Claims
  pub is_email : String → Bool
  pub is_uuid : String → Bool

-- everything that the backend is given: the servers, the cryptography, the framework and the
-- case-insensitive search of the database
pub record Server : Type 0 where
  pub env : Env
  pub crypto : Crypto
  pub horizon : Horizon
  pub framework : Framework
  pub contains : String → String → Bool

-- `jwtFromRequest`: the cookie, an empty one as well, before the header
unfoldable pub token_of : HttpRequest → Option String
token_of q = elim q.access_token_cookie [ none ↦ q.bearer | some t ↦ some t ]

-- `JwtStrategy.validate`
unfoldable pub validate : Claims → Result Identity
validate c =
    if is_set c.typ && elim c.typ [ none ↦ true | some t ↦ not (t == "access") ]
    then err (unauthorized "Invalid token type")
    else ok (record { id = c.sub; email = c.email; role = c.role })

-- passport's check of a token, which fails on an empty one
abbrev pub verified : Framework → String → Action Claims
verified fw t w = (
  elim (fw.verify w.requests t) [ none ↦ err (unauthorized "Unauthorized") | some c ↦ ok c ],
  record w { requests = suc w.requests },
)

-- `AuthGuard('jwt')`: who sends the request
unfoldable pub authenticate : Framework → HttpRequest → Action Identity
unfolding token_of validate
authenticate fw q = do
  token ← or_throw (truthy (token_of q)) (unauthorized "Unauthorized")
  claims ← verified fw token
  returned (validate claims)

-- `JwtAuthGuard.canActivate`: a public handler gets no user
unfoldable pub can_activate : Framework → Bool → HttpRequest → Action (Option Identity)
unfolding authenticate
can_activate fw is_public q =
    if is_public then pure none else authenticate fw q >>= λ u. pure (some u)

-- `LocalStrategy.validate`
unfoldable pub validate_login : Crypto → String → String → Action User
validate_login s email password = do
  or_throw (← gets (validate_user s email password)) (unauthorized "Invalid credentials")

-- passport-local: a login without an email or a password never reaches the strategy
unfoldable pub local_login : Crypto → Option String → Option String → Action User
unfolding validate_login
local_login s email password = do
  e ← or_throw (truthy email) (unauthorized "Unauthorized")
  p ← or_throw (truthy password) (unauthorized "Unauthorized")
  validate_login s e p
