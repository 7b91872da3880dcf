-- ===== src/Auth/Race.antt =====
-- Two requests that present one refresh token at the same time.
use stellances.Auth.Sessions.{logout_all_ok}
use stellances.World.Action.{err, forbidden}
use stellances.Table.{find, count}
use stellances.Table.Laws.{Unique, find-update_where}
use stellances.World.{Env, World}
use stellances.Schema.{RowId, RefreshToken, User, refresh_token_key, user_key, Database}
use stellances.Base.{
  refl, suc, none, some, true, [], ◌∷◌, List, String, ◌≡◌, ℕ, Bool-cases, arith, ◌==◌, inl, ==_iff,
  inr, ap, ◌∙◌,
}
use stellances.Auth.Rotation.{
  rotate, rotate_rows, live_with_id, live_of, next_version, update_tokens, logout_all, bump_version,
  revoke,
}
use stellances.Auth.{insert_refresh_token, Crypto, Meta, token_hash}

none_live :
    (k : RowId) (ts : List RefreshToken)
    → find refresh_token_key k ts ≡ none
    → count (live_with_id k) ts ≡ 0
none_live k [] h = refl
none_live k (t ∷ ts) h = ground (arith, none_live k ts)

revoked_live :
    (k : RowId) (t : RefreshToken) (ts : List RefreshToken)
    → Unique refresh_token_key ts
    → find refresh_token_key k ts ≡ some t
    → t.revoked ≡ true
    → count (live_with_id k) ts ≡ 0
revoked_live k t [] u h r = refl
revoked_live k t (x ∷ ts) u h r = elim (Bool-cases (x.id == k)) [
  | inl e ↦ ground (arith, none_live k ts, ==_iff x.id k)
  | inr e ↦ ground (arith, revoked_live k t ts u.1)
]

-- no token is made by `logoutAll`
logout_all-none :
    (s : Crypto) (user_id k : RowId) (w : World) (v : User)
    → find user_key user_id w.db.users ≡ some v
    → find refresh_token_key k w.db.refresh_tokens ≡ none
    → find refresh_token_key k (logout_all s user_id w).1.db.refresh_tokens ≡ none
unfolding logout_all bump_version update_tokens
logout_all-none s user_id k w v e h = ground (
  arith,
  e,
  find-update_where refresh_token_key k (live_of user_id) (revoke (s.now w.requests))
      w.db.refresh_tokens (λ x. refl),
)

-- A request that passed the checks of `refresh` with a token that another request has replaced by
-- the time of its transaction does not get through, where the id and the hash of the new token are
-- not in the table: the request ends with an error, all sessions of the user end, and the transaction
-- is undone: the database is the one that `logoutAll` alone makes of the one before, without the row of
-- the new token.
pub rotate_race :
    (s : Crypto) (env : Env) (t old : RefreshToken) (u v : User) (hash : String) (expires : ℕ)
    (meta : Meta) (w : World)
    → Unique refresh_token_key w.db.refresh_tokens
    → find refresh_token_key t.id w.db.refresh_tokens ≡ some old
    → old.revoked ≡ true
    → find refresh_token_key (env.uuid w.serial) w.db.refresh_tokens ≡ none
    → find token_hash hash w.db.refresh_tokens ≡ none
    → find user_key t.user_id w.db.users ≡ some v
    → ((rotate s env t u hash expires meta w).0 ≡ err (forbidden "Refresh token reuse detected"))
      × (find user_key t.user_id (rotate s env t u hash expires meta w).1.db.users
          ≡ some (next_version v))
      × (count (live_of t.user_id) (rotate s env t u hash expires meta w).1.db.refresh_tokens ≡ 0)
      × ((rotate s env t u hash expires meta w).1.db
          ≡ (logout_all s t.user_id
              (record w { serial = suc w.serial; requests = suc w.requests })).1.db)
      × (find refresh_token_key
            (env.uuid w.serial)
            (rotate s env t u hash expires meta w).1.db.refresh_tokens
          ≡ none)
unfolding rotate rotate_rows insert_refresh_token update_tokens
rotate_race s env t old u v hash expires meta w uq there gone free new owner =
    let undone = record w { serial = suc w.serial; requests = suc w.requests } in
    let (a, b, c) = logout_all_ok s t.user_id undone v owner in
    let none_left = revoked_live t.id old w.db.refresh_tokens uq there gone in
    let back : (rotate s env t u hash expires meta w).1.db ≡ (logout_all s t.user_id undone).1.db =
      ground (arith, a, none_left, ==_iff (env.uuid w.serial) t.id) in
    (
      ground (arith, a, none_left, ==_iff (env.uuid w.serial) t.id),
      ground (arith, a, b, none_left, ==_iff (env.uuid w.serial) t.id),
      ground (arith, a, c, none_left, ==_iff (env.uuid w.serial) t.id),
      back,
      ap (λ (d : Database). find refresh_token_key (env.uuid w.serial) d.refresh_tokens) back
          ∙ logout_all-none s t.user_id (env.uuid w.serial) undone v owner free,
    )
