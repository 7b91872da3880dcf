-- ===== src/Auth/Registration.antt =====
-- `register`.
use stellances.World.{Env, World}
use stellances.Base.{refl, suc, none, some, false, ◌≡◌, Option-cases, inr, arith, inl, ◌+◌, ==_refl}
use stellances.Schema.{User, RefreshToken, user_key, refresh_token_key}
use stellances.Auth.{
  register, login, insert_refresh_token, Tokens, token_hash, hash_refresh_token, role_or_client,
  Crypto, RegisterDto, Meta, new_refresh_token, refresh_token_ms,
}
use stellances.Users.{user_email, find_one_by_email, insert_user, create}
use stellances.Table.{find}
use stellances.World.Action.{ok}

-- When `register` returns, the email was free before and finds the new account now. The account has
-- the role that the request asked for, `ADMIN` included, or else `CLIENT`; and the refresh token that
-- is handed out is a session of the new account that is not revoked.
pub register_ok :
    (s : Crypto) (env : Env) (dto : RegisterDto) (meta : Meta) (w w' : World) (u : User)
    (t : Tokens)
    → register s env dto meta w ≡ (ok (u, t), w')
    → (find_one_by_email dto.email w ≡ none)
      × (find_one_by_email dto.email w' ≡ some u)
      × (u.role ≡ role_or_client dto.role)
      × ((r : RefreshToken) × (find token_hash
              (hash_refresh_token s env t.refresh_token)
              w'.db.refresh_tokens
            ≡ some r)
          × (r.user_id ≡ u.id)
          × (r.revoked ≡ false))
unfolding register create insert_user login insert_refresh_token
register_ok s env dto meta w w' u t e = elim (Option-cases (find user_email dto.email w.db.users)) [
  | inr (x, taken) ↦ absurd (ground arith)
  | inl free ↦
      let id = env.uuid (suc w.serial) in
      let token = s.random_token (suc (suc w.serial)) in
      let hash = hash_refresh_token s env token in
      let row =
        new_refresh_token (env.uuid (suc (suc (suc w.serial)))) hash id 0
          (s.now w.requests + refresh_token_ms env) meta in
      elim (Option-cases (find user_key id w.db.users)) [
        | inr (x, used) ↦ absurd (ground arith)
        | inl new ↦
            elim (Option-cases
              (find refresh_token_key (env.uuid (suc (suc (suc w.serial)))) w.db.refresh_tokens)) [
                | inr (x, used) ↦ absurd (ground arith)
                | inl fresh ↦ elim (Option-cases (find token_hash hash w.db.refresh_tokens)) [
                  | inr (x, used) ↦ absurd (ground arith)
                  | inl unseen ↦ (
                    free,
                    ground (arith, ==_refl dto.email),
                    ground arith,
                    (row, ground (arith, ==_refl hash), ground arith, refl),
                  )
                ]
              ]
      ]
]
