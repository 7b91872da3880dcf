-- ===== src/Auth/Rotation.antt =====
-- The second half of auth.service.ts: `refresh`, `revokeRefreshToken` and `logoutAll`.
use stellances.Table.{count, has, update_where, update, find}
use stellances.World.{Env, World}
use stellances.World.Action.{
  Action, Done, ok, Result, ◌>>=◌, ◌>>◌, is_set, throw_if, draw_uuid, transaction, err, pure, throw,
  unauthorized, forbidden, or_throw, record_missing, gets,
}
use stellances.Auth.{
  insert_refresh_token, Crypto, Meta, Tokens, clock, hash_refresh_token, generate_refresh_token,
  new_refresh_token, refresh_token_ms, payload_of, access_token_expires_in, token_hash,
}
use stellances.Schema.{User, RefreshToken, RowId, user_key}
use stellances.Base.{
  suc, some, true, ℕ, String, Bool, if◌then◌else◌, ◌==◌, ◌&&◌, not, ◌+◌, nat_eq, leb,
}

abbrev pub next_version : User → User
next_version u = record u { token_version = suc u.token_version }

abbrev pub revoke : ℕ → RefreshToken → RefreshToken
revoke now t = record t { revoked = true; revoked_at = some now }

abbrev pub replace : ℕ → RowId → RefreshToken → RefreshToken
replace now id t = record t {
  revoked = true;
  revoked_at = some now;
  replaced_by_token_id = some id;
}

abbrev pub live_of : RowId → RefreshToken → Bool
live_of user_id t = t.user_id == user_id && not t.revoked

abbrev pub live_with_hash : String → RefreshToken → Bool
live_with_hash hash t = t.token == hash && not t.revoked

abbrev pub live_with_id : RowId → RefreshToken → Bool
live_with_id id t = t.id == id && not t.revoked

-- `user.update` of the version
unfoldable pub bump_version : RowId → Action Done
bump_version user_id w =
    if has user_key user_id w.db.users
    then (
      ok tt,
      record w { db = record (w.db) { users = update user_key user_id next_version w.db.users } },
    )
    else (err record_missing, w)

-- `refreshToken.updateMany`: how many rows were updated
unfoldable pub update_tokens : (RefreshToken → Bool) → (RefreshToken → RefreshToken) → Action ℕ
update_tokens p f w = (
  ok (count p w.db.refresh_tokens),
  record w { db = record (w.db) { refresh_tokens = update_where p f w.db.refresh_tokens } },
)

-- `logoutAll`
unfoldable pub logout_all : Crypto → RowId → Action Done
unfolding bump_version update_tokens
logout_all s user_id = do
  now ← clock s
  bump_version user_id
  update_tokens (live_of user_id) (revoke now)
  pure tt

-- `revokeRefreshToken`
unfoldable pub revoke_refresh_token : Crypto → Env → String → Action Done
unfolding update_tokens
revoke_refresh_token s env token =
    if is_set (some token)
    then (do
      now ← clock s
      update_tokens (live_with_hash (hash_refresh_token s env token)) (revoke now)
      pure tt)
    else pure tt

-- a revoked token: one that was replaced has been used twice, and all sessions end
unfoldable pub refuse_revoked : Crypto → RefreshToken → Action Done
refuse_revoked s t =
    if t.revoked
    then if is_set t.replaced_by_token_id
      then (logout_all s t.user_id >> throw (forbidden "Refresh token reuse detected"))
      else throw (unauthorized "Refresh token revoked")
    else pure tt

-- The checks of `refresh`: the token's row and its user.
unfoldable pub check_refresh : Crypto → Env → String → Action (RefreshToken × User)
unfolding refuse_revoked
check_refresh s env token = do
  throw_if (not (is_set (some token))) (unauthorized "Missing refresh token")
  existing ←
      or_throw (← gets (λ w. find token_hash (hash_refresh_token s env token) w.db.refresh_tokens))
        (unauthorized "Invalid refresh token")
  owner ← or_throw (← gets (λ w. find user_key existing.user_id w.db.users)) record_missing
  refuse_revoked s existing
  now ← clock s
  throw_if (leb existing.expires_at now) (unauthorized "Refresh token expired")
  throw_if (not (nat_eq owner.token_version existing.token_version))
      (unauthorized "Refresh token invalid")
  pure (existing, owner)

-- the body of `refresh`'s transaction
unfoldable pub rotate_rows : Crypto → Env → RefreshToken → User → String → ℕ → Meta → Action Done
unfolding insert_refresh_token update_tokens
rotate_rows s env existing owner hash expires_at meta = do
  id ← draw_uuid env
  insert_refresh_token
      (new_refresh_token id hash existing.user_id owner.token_version expires_at meta)
  now ← clock s
  updated ← update_tokens (live_with_id existing.id) (replace now id)
  throw_if (not (nat_eq updated 1)) (forbidden "Refresh token reuse detected")

-- `catch (err) { if (err instanceof ForbiddenException) … ; throw err; }`
abbrev pub on_forbidden : Action Done → Result Done × World → Result Done × World
on_forbidden handler (ok a, w) = (ok a, w)
on_forbidden handler (err (forbidden m), w) = (handler >> throw (forbidden m)) w
on_forbidden handler (err e, w) = (err e, w)

-- the `try` of `refresh`
unfoldable pub rotate : Crypto → Env → RefreshToken → User → String → ℕ → Meta → Action Done
rotate s env existing owner hash expires_at meta w =
    on_forbidden (logout_all s existing.user_id)
      (transaction (rotate_rows s env existing owner hash expires_at meta) w)

-- `refresh`
unfoldable pub refresh : Crypto → Env → String → Meta → Action Tokens
refresh s env token meta = do
  found ← check_refresh s env token
  fresh ← generate_refresh_token s
  now ← clock s
  rotate s env found.0 found.1 (hash_refresh_token s env fresh) (now + refresh_token_ms env) meta
  pure (record {
    access_token = s.sign (payload_of found.1) (access_token_expires_in env);
    refresh_token = fresh;
  })
