-- ===== src/Auth.antt =====
-- stellance/backend/src/auth/auth.service.ts: sessions, by refresh tokens that are replaced at each
-- use.
pub mod Controller
pub mod Rotation
pub mod Sessions
pub mod Refresh
pub mod Race
pub mod Registration
mod Tests
use Prim.Native.Char.{Char, code}
use stellances.Base.{
  zero, suc, none, some, true, false, [], ◌∷◌, ℕ, if◌then◌else◌, ◌+◌, String, Option, Bool, ◌||◌,
  ◌*◌, ◌<>◌, nat_eq, ◌&&◌, ◌==◌, leb, ◌-◌,
}
use stellances.Schema.{User, UserRole, RowId, RefreshToken, user_key, refresh_token_key}
use stellances.World.{World, Env}
use stellances.World.Action.{
  Action, Result, Exception, ◌>>=◌, ◌>>◌, Done, draw_uuid, err, unique_violation, ok, gets,
  throw_if, conflict, record_missing, pure, is_set, throw, or_throw, unauthorized, forbidden,
  transaction,
}
use stellances.Table.{find, has, update, update_where, count}
use stellances.Users.{find_one_by_email, NewUser, create as create_user}

-- the claims of an access token; `typ` is always `access`
pub record Payload : Type 0 where
  pub email : String
  pub sub : RowId
  pub role : UserRole
  pub tv : ℕ

-- argon2, node's crypto, the JWT library and the clock. The clock and the random values are asked by
-- number; the salt of a password is the number of random values before it.
pub record Crypto : Type 0 where
  pub now : ℕ → ℕ
  pub random_token : ℕ → String
  pub sha256_hex : String → String
  pub hash_password : ℕ → String → String
  pub verify_password : String → String → Bool
  pub sign : Payload → String → String

pub record Meta : Type 0 where
  pub ip : Option String
  pub user_agent : Option String

-- `Date.now()`
abbrev pub clock : Crypto → Action ℕ
clock s w = (ok (s.now w.requests), record w { requests = suc w.requests })

-- `generateRefreshToken`
abbrev pub generate_refresh_token : Crypto → Action String
generate_refresh_token s w = (ok (s.random_token w.serial), record w { serial = suc w.serial })

-- `argon2.hash`
abbrev hash_password : Crypto → String → Action String
hash_password s pass w = (ok (s.hash_password w.serial pass), record w { serial = suc w.serial })

-- `hashRefreshToken`
unfoldable pub hash_refresh_token : Crypto → Env → String → String
hash_refresh_token s env token =
    s.sha256_hex
      (token <> "." <> elim (env.config "REFRESH_TOKEN_PEPPER") [ none ↦ "" | some p ↦ p ])

abbrev pub is_digit : Char → Bool
is_digit c = leb 48 (code c) && leb (code c) 57

-- what follows the digits that a text begins with
unfoldable pub after_digits : String → String
after_digits String.[] = String.[]
after_digits (String.◌∷◌ c s) =
    let rest = after_digits s in if is_digit c then rest else String.◌∷◌ c s

abbrev pub starts_with_digit : String → Bool
starts_with_digit String.[] = false
starts_with_digit (String.◌∷◌ c s) = is_digit c

abbrev is_unit : String → Bool
is_unit s = s == "ms" || s == "s" || s == "m" || s == "h" || s == "d" || s == "w" || s == "y"

-- `/^\d+(ms|s|m|h|d|w|y)$/`
unfoldable pub is_duration : String → Bool
unfolding after_digits
is_duration s = starts_with_digit s && is_unit (after_digits s)

-- `getAccessTokenExpiresIn`
unfoldable pub access_token_expires_in : Env → String
unfolding is_duration
access_token_expires_in env = elim (env.config "JWT_ACCESS_EXPIRES_IN") [
  | none ↦ "15m"
  | some raw ↦ if is_duration raw then raw else "15m"
]

-- the characters that `parseInt` skips at the front, of those in ASCII
abbrev pub is_space : Char → Bool
is_space c = nat_eq (code c) 32 || leb 9 (code c) && leb (code c) 13

-- the number that a text begins with, after those that were read
unfoldable pub digits_from : ℕ → String → ℕ
digits_from n String.[] = n
digits_from n (String.◌∷◌ c s) =
    let rest = digits_from (n * 10 + (code c - 48)) s in if is_digit c then rest else n

abbrev unsigned : String → ℕ
unsigned s = digits_from 0 s

-- `Number.parseInt(s, 10)`, and 0 where that is negative or no number
unfoldable pub parse_int : String → ℕ
unfolding digits_from
parse_int String.[] = 0
parse_int (String.◌∷◌ c s) =
    let rest = parse_int s in
    if is_space c
    then rest
    else if nat_eq (code c) 43
    then unsigned s
    else unsigned (String.◌∷◌ c s)

abbrev days_or_30 : ℕ → ℕ
days_or_30 zero = 30
days_or_30 (suc n) = suc n

-- `getRefreshTokenDays`
unfoldable pub refresh_token_days : Env → ℕ
refresh_token_days env = elim (env.config "JWT_REFRESH_DAYS") [
  | none ↦ 30
  | some raw ↦ days_or_30 (parse_int raw)
]

abbrev pub refresh_token_ms : Env → ℕ
refresh_token_ms env = refresh_token_days env * 24 * 60 * 60 * 1000

-- the unique index on `token`, which holds the hash
abbrev pub token_hash : RefreshToken → String
token_hash t = t.token

abbrev pub new_refresh_token : RowId → String → RowId → ℕ → ℕ → Meta → RefreshToken
new_refresh_token id hash user_id version expires_at meta = record {
  id = id;
  token = hash;
  user_id = user_id;
  token_version = version;
  expires_at = expires_at;
  revoked = false;
  revoked_at = none;
  replaced_by_token_id = none;
  user_agent = meta.user_agent;
  ip = meta.ip;
}

-- `refreshToken.create`
unfoldable pub insert_refresh_token : RefreshToken → Action Done
insert_refresh_token t w =
    if has refresh_token_key t.id w.db.refresh_tokens || has token_hash t.token w.db.refresh_tokens
    then (err unique_violation, w)
    else (ok tt, record w { db = record (w.db) { refresh_tokens = t ∷ w.db.refresh_tokens } })

abbrev pub payload_of : User → Payload
payload_of u = record { email = u.email; sub = u.id; role = u.role; tv = u.token_version }

pub record Tokens : Type 0 where
  pub access_token : String
  pub refresh_token : String

-- `login`
unfoldable pub login : Crypto → Env → User → Meta → Action Tokens
unfolding insert_refresh_token
login s env user meta = do
  token ← generate_refresh_token s
  now ← clock s
  id ← draw_uuid env
  insert_refresh_token (
      new_refresh_token id (hash_refresh_token s env token) user.id user.token_version
        (now + refresh_token_ms env) meta)
  pure (record {
    access_token = s.sign (payload_of user) (access_token_expires_in env);
    refresh_token = token;
  })

-- `validateUser`
unfoldable pub validate_user : Crypto → String → String → World → Option User
validate_user s email pass w = elim (find_one_by_email email w) [
  | none ↦ none
  | some u ↦ if s.verify_password u.password pass then some u else none
]

pub record RegisterDto : Type 0 where
  pub email : String
  pub password : String
  pub name : String
  pub role : Option UserRole

abbrev pub role_or_client : Option UserRole → UserRole
role_or_client none = UserRole.client
role_or_client (some r) = r

abbrev taken : String → World → Bool
taken email w = elim (find_one_by_email email w) [ none ↦ false | some _ ↦ true ]

-- `register`
unfoldable pub register : Crypto → Env → RegisterDto → Meta → Action (User × Tokens)
register s env dto meta = do
  throw_if (← gets (taken dto.email)) (conflict "Email already exists")
  hashed ← hash_password s dto.password
  user ← create_user env (record {
    email = dto.email;
    name = dto.name;
    password_hash = hashed;
    role = role_or_client dto.role;
  })
  tokens ← login s env user meta
  pure (user, tokens)
