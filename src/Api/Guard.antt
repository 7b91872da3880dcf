-- ===== src/Api/Guard.antt =====
-- The guard in front of the routes, and how long an access token lasts.
use stellances.World.Laws.{truthy-some, bind_err}
use stellances.Schema.{User}
use stellances.Escrow.Submit.{Asked}
use stellances.World.{World, Env}
use stellances.Base.{
  suc, some, true, false, String, ◌≡◌, ◌==◌, Option-cases, inl, arith, inr, none, subst, sym,
  ==_refl,
}
use stellances.Api.{respond, is_public, dispatch}
use stellances.Api.Routes.{Route}
use stellances.Http.{
  can_activate, authenticate, token_of, validate, Claims, Identity, HttpRequest, Framework, Server,
}
use stellances.Auth.{
  login, Payload, Crypto, payload_of, Meta, Tokens, access_token_expires_in, insert_refresh_token,
}
use stellances.World.Action.{err, is_set, unauthorized, truthy, pure, ok}

-- the claims are those of another kind of token
abbrev pub WrongType : Claims → Type 0
WrongType c = (s : String) × (c.typ ≡ some s) × (is_set (some s) ≡ true) × ((s == "access") ≡ false)

authenticate_refused :
    (fw : Framework) (q : HttpRequest) (w : World)
    → ((t : String) (c : Claims)
        → token_of q ≡ some t
        → fw.verify w.requests t ≡ some c
        → WrongType c)
    → (m : String) × (w' : World) × (authenticate fw q w ≡ (err (unauthorized m), w'))
      × Asked 1 w w'
unfolding authenticate validate
authenticate_refused fw q w h = elim (Option-cases (truthy (token_of q))) [
  | inl e ↦ ("Unauthorized", w, ground arith, ground arith)
  | inr (t, e) ↦ elim (Option-cases (fw.verify w.requests t)) [
    | inl f ↦ ("Unauthorized", record w { requests = suc w.requests }, ground arith, ground arith)
    | inr (c, f) ↦
        let (s, x, y, z) = h t c (truthy-some (token_of q) t e) f in
        ("Invalid token type", record w { requests = suc w.requests }, ground arith, ground arith)
  ]
]

-- A request to a route without `@Public()` that brings no token, one that does not verify, or one of
-- another type than `access`, is answered with a 401: no handler runs, and the database, the streams
-- and the chain are as they were.
pub respond_unauthorized :
    (srv : Server) (q : HttpRequest) (r : Route) (w : World)
    → is_public r ≡ false
    → ((t : String) (c : Claims)
        → token_of q ≡ some t
        → srv.framework.verify w.requests t ≡ some c
        → WrongType c)
    → (m : String) × (w' : World) × (respond srv q r w ≡ (err (unauthorized m), w')) × Asked 1 w w'
unfolding respond can_activate
respond_unauthorized srv q r w private h =
    let (m, w', e, a) = authenticate_refused srv.framework q w h in
    let guarded : can_activate srv.framework (is_public r) q w ≡ (err (unauthorized m), w') =
      subst (λ b. can_activate srv.framework b q w ≡ (err (unauthorized m), w')) (sym private)
        (bind_err (authenticate srv.framework q) (λ u. pure (some u)) e) in
    (m, w', bind_err (can_activate srv.framework (is_public r) q) (dispatch srv q r) guarded, a)

-- what `sign` puts into a token, as `verify` reads it
abbrev pub claims_of : Payload → Claims
claims_of p = record { sub = p.sub; email = p.email; role = p.role; tv = p.tv; typ = some "access" }

abbrev pub identity_of : User → Identity
identity_of u = record { id = u.id; email = u.email; role = u.role }

abbrev pub bearing : HttpRequest → String → HttpRequest
bearing q t = record q { access_token_cookie = none; bearer = some t }

login_signs :
    (s : Crypto) (env : Env) (u : User) (meta : Meta) (w w' : World) (t : Tokens)
    → login s env u meta w ≡ (ok t, w')
    → t.access_token ≡ s.sign (payload_of u) (access_token_expires_in env)
unfolding login insert_refresh_token
login_signs s env u meta w w' t e = ground (arith, e)

-- The access token that `login` returns stands for its user in any state of the backend in which it
-- verifies with the claims that were signed: after `logout-all` too, which raises the version that the
-- token carries, and after the user's role has changed, since the guard looks at no row.
pub login_authenticates :
    (s : Crypto) (env : Env) (fw : Framework) (u : User) (meta : Meta) (w w' : World) (t : Tokens)
    (q : HttpRequest) (v : World)
    → login s env u meta w ≡ (ok t, w')
    → is_set (some (s.sign (payload_of u) (access_token_expires_in env))) ≡ true
    → fw.verify v.requests (s.sign (payload_of u) (access_token_expires_in env))
      ≡ some (claims_of (payload_of u))
    → (authenticate fw (bearing q t.access_token) v).0 ≡ ok (identity_of u)
unfolding login authenticate validate token_of
login_authenticates s env fw u meta w w' t q v e set reads =
    ground (arith, login_signs s env u meta w w' t e, set, reads, ==_refl "access")
