-- ===== src/Api/Sessions.antt =====
-- Every operation of the auth service keeps an invariant that the writes of the accounts keep.
use stellances.World.{World}
use stellances.Base.{String, ℕ}
use stellances.World.Action.{
  Action, Done, Result, ok, err, forbidden, throw, not_found, bad_request, conflict, unauthorized,
  service_unavailable, unique_violation, record_missing, sdk_error,
}
use stellances.Http.{Server}
use stellances.Schema.{Database, User, RefreshToken, RowId}
use stellances.Api.Writes.{AccountWrites}
use stellances.Users.{create, NewUser}
use stellances.Auth.{register, login, RegisterDto, Meta}
use stellances.Auth.Rotation.{
  on_forbidden, rotate_rows, refresh, check_refresh, revoke_refresh_token, refuse_revoked,
  logout_all, rotate,
}
use stellances.World.Keeps.{Keeps, keeps_rules, Keeps-transaction, Keeps-bind, Keeps-throw}

module _ {P : Database → Type 0} (k : AccountWrites P) (srv : Server) where
  pub login-Keeps : (u : User) (meta : Meta) → Keeps P (login srv.crypto srv.env u meta)
  unfolding login
  login-Keeps u meta = let i = k.insert_token in search keeps_rules depth 12

  create_user-Keeps : (d : NewUser) → Keeps P (create srv.env d)
  unfolding create
  create_user-Keeps d = let i = k.insert_user in search keeps_rules depth 12

  pub register-Keeps :
      (dto : RegisterDto) (meta : Meta) → Keeps P (register srv.crypto srv.env dto meta)
  unfolding register
  register-Keeps dto meta =
      let l = login-Keeps in let c = create_user-Keeps in search keeps_rules depth 12

  pub logout_all-Keeps : (id : RowId) → Keeps P (logout_all srv.crypto id)
  unfolding logout_all
  logout_all-Keeps id = let b = k.bump in let r = k.revoke in search keeps_rules depth 12

  pub revoke-Keeps : (t : String) → Keeps P (revoke_refresh_token srv.crypto srv.env t)
  unfolding revoke_refresh_token
  revoke-Keeps t = let r = k.revoke in search keeps_rules depth 12

  refuse_revoked-Keeps : (t : RefreshToken) → Keeps P (refuse_revoked srv.crypto t)
  unfolding refuse_revoked
  refuse_revoked-Keeps t = let l = logout_all-Keeps in search keeps_rules depth 12

  check_refresh-Keeps : (t : String) → Keeps P (check_refresh srv.crypto srv.env t)
  unfolding check_refresh
  check_refresh-Keeps t = let r = refuse_revoked-Keeps in search keeps_rules depth 14

  rotate_rows-Keeps :
      (t : RefreshToken) (u : User) (h : String) (e : ℕ) (meta : Meta)
      → Keeps P (rotate_rows srv.crypto srv.env t u h e meta)
  unfolding rotate_rows
  rotate_rows-Keeps t u h e meta =
      let i = k.insert_token in let r = k.replace in search keeps_rules depth 12

  -- the handler of a failed rotation
  on_forbidden-Keeps :
      (h m : Action Done) → Keeps P h → Keeps P m → Keeps P (λ w. on_forbidden h (m w))
  on_forbidden-Keeps h m kh km = record { at = λ w x. kept (m w) (km.at w x) }
    where
      kept : (r : Result Done × World) → P r.1.db → P (on_forbidden h r).1.db
      kept (ok a, v) p = p
      kept (err (forbidden t), v) p =
          (Keeps-bind h (λ _. throw (forbidden t)) kh (λ _. Keeps-throw _)).at v p
      kept (err (not_found _), v) p = p
      kept (err (bad_request _), v) p = p
      kept (err (conflict _), v) p = p
      kept (err (unauthorized _), v) p = p
      kept (err (service_unavailable _), v) p = p
      kept (err unique_violation, v) p = p
      kept (err record_missing, v) p = p
      kept (err sdk_error, v) p = p

  rotate-Keeps :
      (t : RefreshToken) (u : User) (h : String) (e : ℕ) (meta : Meta)
      → Keeps P (rotate srv.crypto srv.env t u h e meta)
  unfolding rotate
  rotate-Keeps t u h e meta =
      on_forbidden-Keeps (logout_all srv.crypto t.user_id) _ (logout_all-Keeps t.user_id)
        (Keeps-transaction _ (rotate_rows-Keeps t u h e meta))

  pub refresh-Keeps : (t : String) (meta : Meta) → Keeps P (refresh srv.crypto srv.env t meta)
  unfolding refresh
  refresh-Keeps t meta =
      let c = check_refresh-Keeps in let r = rotate-Keeps in search keeps_rules depth 12
