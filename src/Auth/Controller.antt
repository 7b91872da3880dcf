-- ===== src/Auth/Controller.antt =====
-- stellance/backend/src/auth/auth.controller.ts: the handlers and their cookies.
use stellances.Auth.Rotation.{logout_all, revoke_refresh_token, refresh}
use stellances.Http.Validation.{checked, valid_register}
use stellances.Users.Controller.{UserProfile, profile}
use stellances.World.Action.{Action, ◌>>◌, ◌>>=◌, pure}
use stellances.Base.{none, some, false, [], ◌∷◌, List, Bool, String, Option, ℕ, ◌==◌, ◌*◌}
use stellances.Auth.{login, register, RegisterDto, Meta, refresh_token_days}
use stellances.Http.{Server, Identity, HttpRequest, local_login}

-- `res.cookie`, and `res.clearCookie` where there is no value; all are httpOnly and sameSite strict
pub record Cookie : Type 0 where
  pub name : String
  pub value : Option String
  pub path : String
  pub secure : Bool
  pub max_age : Option ℕ

pub record AuthReply : Type 0 where
  pub message : Option String
  pub access_token : Option String
  pub user : Option UserProfile
  pub cookies : List Cookie

-- `isProduction`
abbrev is_production : Server → Bool
is_production srv = elim (srv.env.config "NODE_ENV") [ none ↦ false | some s ↦ s == "production" ]

-- `getRefreshDays`, which reads what the service's getRefreshTokenDays does
abbrev refresh_days : Server → ℕ
refresh_days srv = refresh_token_days srv.env

-- the cookie of a session
unfoldable pub session_cookie : Server → String → Cookie
session_cookie srv token = record {
  name = "refresh_token";
  value = some token;
  path = "/api/auth";
  secure = is_production srv;
  max_age = some (refresh_days srv * 24 * 60 * 60 * 1000);
}

abbrev cleared : Server → String → String → Cookie
cleared srv name path = record {
  name = name;
  value = none;
  path = path;
  secure = is_production srv;
  max_age = none;
}

unfoldable pub cleared_cookies : Server → List Cookie
cleared_cookies srv = cleared srv "access_token" "/" ∷ cleared srv "refresh_token" "/api/auth" ∷ []

abbrev meta_of : HttpRequest → Meta
meta_of q = record { ip = q.ip; user_agent = q.user_agent }

-- `req.cookies['refresh_token']`, which the service tests for being set
abbrev refresh_cookie : HttpRequest → String
refresh_cookie q = elim q.refresh_token_cookie [ none ↦ "" | some t ↦ t ]

-- `register`
unfoldable pub post_register : Server → HttpRequest → RegisterDto → Action AuthReply
unfolding session_cookie
post_register srv q dto = checked (valid_register srv.framework dto) (do
  made ← register srv.crypto srv.env dto (meta_of q)
  pure (record {
    message = some "Registered successfully";
    access_token = some made.1.access_token;
    user = some (profile made.0);
    cookies = session_cookie srv made.1.refresh_token ∷ [];
  }))

-- `login`, behind LocalAuthGuard
unfoldable pub post_login : Server → HttpRequest → Option String → Option String → Action AuthReply
unfolding session_cookie local_login
post_login srv q email password = do
  user ← local_login srv.crypto email password
  tokens ← login srv.crypto srv.env user (meta_of q)
  pure (record {
    message = some "Logged in successfully";
    access_token = some tokens.access_token;
    user = some (profile user);
    cookies = session_cookie srv tokens.refresh_token ∷ [];
  })

-- `refresh`
unfoldable pub post_refresh : Server → HttpRequest → Action AuthReply
unfolding session_cookie
post_refresh srv q = do
  tokens ← refresh srv.crypto srv.env (refresh_cookie q) (meta_of q)
  pure (record {
    message = none;
    access_token = some tokens.access_token;
    user = none;
    cookies = session_cookie srv tokens.refresh_token ∷ [];
  })

-- `logout`
unfoldable pub post_logout : Server → HttpRequest → Action AuthReply
unfolding cleared_cookies
post_logout srv q = do
  revoke_refresh_token srv.crypto srv.env (refresh_cookie q)
  pure (record {
    message = some "Logged out successfully";
    access_token = none;
    user = none;
    cookies = cleared_cookies srv;
  })

-- `logoutAll`
unfoldable pub post_logout_all : Server → Identity → Action AuthReply
unfolding cleared_cookies
post_logout_all srv caller = do
  logout_all srv.crypto caller.id
  pure (record {
    message = some "Logged out everywhere";
    access_token = none;
    user = none;
    cookies = cleared_cookies srv;
  })
