-- ===== src/Auth/Tests.antt =====
-- The sessions of the demo deployment: carol has one refresh token.
use stellances.Auth.Registration.{register_ok}
use stellances.Users.{create, insert_user, find_one_by_email, new_user}
use stellances.Auth.{register, login, RegisterDto}
use stellances.Auth.Race.{rotate_race}
use stellances.Auth.Sessions.{refresh_reuse}
use stellances.Auth.Refresh.{Replaced, Handed, refresh_ok}
use stellances.World.Action.{err, ok, forbidden}
use stellances.World.{World}
use stellances.Demo.{demo_crypto, demo_env, demo, user, demo_db}
use stellances.Auth.{Meta, Tokens, hash_refresh_token, token_hash, insert_refresh_token}
use stellances.Base.{
  refl, none, some, true, false, [], ◌∷◌, Bool, ◌==◌, Option, ◌≡◌, show, ℕ, ◌<◌, suc,
}
use stellances.Auth.Rotation.{
  refresh, rotate, check_refresh, refuse_revoked, rotate_rows, next_version, live_of, update_tokens,
  logout_all,
}
use stellances.Schema.{user_key, refresh_token_key, RefreshToken, User, RowId, UserRole}
use stellances.Table.{find, count}

abbrev no_meta : Meta
no_meta = record { ip = none; user_agent = none }

abbrev carols : Bool → Option RowId → RefreshToken
carols revoked next = record {
  id = "session";
  token = "#secret.";
  user_id = "carol";
  token_version = 0;
  expires_at = 1000;
  revoked = revoked;
  revoked_at = none;
  replaced_by_token_id = next;
  user_agent = none;
  ip = none;
}

abbrev with_token : RefreshToken → World
with_token t = record demo { db = record demo_db { refresh_tokens = t ∷ [] } }

abbrev fresh_world : World
fresh_world = with_token (carols false none)

abbrev used_world : World
used_world = with_token (carols true (some "next"))

abbrev carol : User
carol = user "carol" UserRole.client

fresh_found :
    find token_hash (hash_refresh_token demo_crypto demo_env "secret") fresh_world.db.refresh_tokens
    ≡ some (carols false none)
unfolding ◌==◌ hash_refresh_token
fresh_found = refl

used_found :
    find token_hash (hash_refresh_token demo_crypto demo_env "secret") used_world.db.refresh_tokens
    ≡ some (carols true (some "next"))
unfolding ◌==◌ hash_refresh_token
used_found = refl

carol_found : find user_key "carol" used_world.db.users ≡ some carol
unfolding ◌==◌
carol_found = refl

refresh_reuse_example :
    ((refresh demo_crypto demo_env "secret" no_meta used_world).0
      ≡ err (forbidden "Refresh token reuse detected"))
    × (find user_key "carol" (refresh demo_crypto demo_env "secret" no_meta used_world).1.db.users
        ≡ some (next_version carol))
    × (count
          (live_of "carol")
          (refresh demo_crypto demo_env "secret" no_meta used_world).1.db.refresh_tokens
        ≡ 0)
refresh_reuse_example =
    refresh_reuse demo_crypto demo_env "secret" no_meta used_world (carols true (some "next")) carol
      refl used_found refl refl carol_found

abbrev given : Tokens
given = record { access_token = "carol"; refresh_token = "token-0" }

abbrev rotated_world : World
rotated_world = (refresh demo_crypto demo_env "secret" no_meta fresh_world).1

refreshed : refresh demo_crypto demo_env "secret" no_meta fresh_world ≡ (ok given, rotated_world)
unfolding refresh check_refresh refuse_revoked rotate rotate_rows insert_refresh_token update_tokens
    hash_refresh_token ◌==◌ show
refreshed = refl

refresh_ok_example :
    (t : RefreshToken) × (u : User) × (id : RowId) × (find token_hash
        (hash_refresh_token demo_crypto demo_env "secret")
        fresh_world.db.refresh_tokens
      ≡ some t)
    × (t.revoked ≡ false)
    × ((i : ℕ) × (demo_crypto.now i < t.expires_at))
    × (find user_key t.user_id fresh_world.db.users ≡ some u)
    × (u.token_version ≡ t.token_version)
    × Replaced t.id id rotated_world
    × Handed (hash_refresh_token demo_crypto demo_env "token-0") id rotated_world
refresh_ok_example =
    refresh_ok demo_crypto demo_env "secret" no_meta fresh_world rotated_world given (refl, tt)
      refreshed

session_found :
    find refresh_token_key "session" used_world.db.refresh_tokens ≡ some (carols true (some "next"))
unfolding ◌==◌
session_found = refl

id_free :
    find refresh_token_key (demo_env.uuid used_world.serial) used_world.db.refresh_tokens ≡ none
unfolding ◌==◌ show
id_free = refl

hash_free : find token_hash "#token" used_world.db.refresh_tokens ≡ none
unfolding ◌==◌
hash_free = refl

rotate_race_example :
    ((rotate demo_crypto demo_env (carols false none) carol "#token" 1000 no_meta used_world).0
      ≡ err (forbidden "Refresh token reuse detected"))
    × (find user_key "carol"
          (rotate demo_crypto demo_env
            (carols false none)
            carol
            "#token"
            1000
            no_meta
            used_world).1.db.users
        ≡ some (next_version carol))
    × (count
          (live_of "carol")
          (rotate demo_crypto demo_env
            (carols false none)
            carol
            "#token"
            1000
            no_meta
            used_world).1.db.refresh_tokens
        ≡ 0)
    × ((rotate demo_crypto demo_env (carols false none) carol "#token" 1000 no_meta used_world).1.db
        ≡ (logout_all demo_crypto "carol" (record used_world {
          serial = suc used_world.serial;
          requests = suc used_world.requests;
        })).1.db)
    × (find refresh_token_key
          (demo_env.uuid used_world.serial)
          (rotate demo_crypto demo_env
            (carols false none)
            carol
            "#token"
            1000
            no_meta
            used_world).1.db.refresh_tokens
        ≡ none)
rotate_race_example =
    rotate_race demo_crypto demo_env (carols false none) (carols true (some "next")) carol carol
      "#token" 1000 no_meta used_world (refl, tt) session_found refl id_free hash_free carol_found

abbrev newcomer : RegisterDto
newcomer = record {
  email = "eve@example.org";
  password = "secret";
  name = "Eve";
  role = some UserRole.admin;
}

abbrev eve : User
eve = new_user "id-1" (record {
  email = "eve@example.org";
  name = "Eve";
  password_hash = "salted secret";
  role = UserRole.admin;
})

abbrev eves : Tokens
eves = record { access_token = "id-1"; refresh_token = "token-2" }

abbrev joined : World
joined = (register demo_crypto demo_env newcomer no_meta demo).1

registered : register demo_crypto demo_env newcomer no_meta demo ≡ (ok (eve, eves), joined)
unfolding register create insert_user login insert_refresh_token hash_refresh_token ◌==◌ show
registered = refl

register_ok_example :
    (find_one_by_email "eve@example.org" demo ≡ none)
    × (find_one_by_email "eve@example.org" joined ≡ some eve)
    × (UserRole.admin ≡ UserRole.admin)
    × ((r : RefreshToken) × (find token_hash
            (hash_refresh_token demo_crypto demo_env "token-2")
            joined.db.refresh_tokens
          ≡ some r)
        × (r.user_id ≡ "id-1")
        × (r.revoked ≡ false))
register_ok_example =
    register_ok demo_crypto demo_env newcomer no_meta demo joined eve eves registered
