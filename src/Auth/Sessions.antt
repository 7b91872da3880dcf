-- ===== src/Auth/Sessions.antt =====
-- What the sessions promise: the end of all sessions, and the reuse of a token.
use stellances.Table.Laws.{find-update}
use stellances.Table.{count, update_where, find}
use stellances.World.{World, Env}
use stellances.Auth.{Crypto, Meta, token_hash, hash_refresh_token}
use stellances.Schema.{RefreshToken, RowId, User, user_key}
use stellances.World.Action.{ok, is_set, err, forbidden}
use stellances.Auth.Rotation.{
  logout_all, bump_version, update_tokens, next_version, live_of, revoke, refresh, check_refresh,
  refuse_revoked,
}
use stellances.Base.{refl, some, false, [], ◌∷◌, Bool, ◌≡◌, List, arith, ==_refl, true, String}

-- After `update_where` that revokes, no row that is still live satisfies the test.
count-revoked :
    (p : RefreshToken → Bool) (f : RefreshToken → RefreshToken) (ts : List RefreshToken)
    → ((t : RefreshToken) → p (f t) ≡ false)
    → count p (update_where p f ts) ≡ 0
count-revoked p f [] h = refl
count-revoked p f (t ∷ ts) h = ground (arith, h t, count-revoked p f ts h)

-- `logoutAll` of a user that exists returns, moves the user's token version on by one, and leaves no
-- refresh token of the user that is not revoked.
pub logout_all_ok :
    (s : Crypto) (user_id : RowId) (w : World) (u : User)
    → find user_key user_id w.db.users ≡ some u
    → ((logout_all s user_id w).0 ≡ ok tt)
      × (find user_key user_id (logout_all s user_id w).1.db.users ≡ some (next_version u))
      × (count (live_of user_id) (logout_all s user_id w).1.db.refresh_tokens ≡ 0)
unfolding logout_all bump_version update_tokens
logout_all_ok s user_id w u e = (
  ground (arith, e),
  ground (
    arith,
    find-update user_key user_id user_id next_version w.db.users (λ x. refl),
    ==_refl user_id,
  ),
  ground (
    arith,
    count-revoked (live_of user_id) (revoke (s.now w.requests)) w.db.refresh_tokens
        (λ t. ground arith),
  ),
)

-- Whoever presents a refresh token that was replaced before, gets an error, and all sessions of its
-- user end: the token version moves on and no refresh token of the user is left that is not revoked.
pub refresh_reuse :
    (s : Crypto) (env : Env) (token : String) (meta : Meta) (w : World) (t : RefreshToken)
    (u : User)
    → is_set (some token) ≡ true
    → find token_hash (hash_refresh_token s env token) w.db.refresh_tokens ≡ some t
    → t.revoked ≡ true
    → is_set t.replaced_by_token_id ≡ true
    → find user_key t.user_id w.db.users ≡ some u
    → ((refresh s env token meta w).0 ≡ err (forbidden "Refresh token reuse detected"))
      × (find user_key t.user_id (refresh s env token meta w).1.db.users ≡ some (next_version u))
      × (count (live_of t.user_id) (refresh s env token meta w).1.db.refresh_tokens ≡ 0)
unfolding refresh check_refresh refuse_revoked
refresh_reuse s env token meta w t u e₀ e₁ e₂ e₃ e₄ =
    let (a, b, c) = logout_all_ok s t.user_id w u e₄ in
    (ground (arith, a, e₀, e₁, e₂, e₃, e₄), ground (arith, a, b), ground (arith, a, c))
