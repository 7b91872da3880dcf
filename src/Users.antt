-- ===== src/Users.antt =====
-- stellance/backend/src/users/users.service.ts: accounts.
pub mod Controller
pub mod Profile
mod Tests
use stellances.Base.{
  none, some, false, [], ◌∷◌, String, if◌then◌else◌, map, Option, Bool, ◌||◌, not, List, ◌==◌,
}
use stellances.Schema.{User, UserRole, RowId, user_key}
use stellances.World.{World, Env}
use stellances.World.Action.{
  Action, ◌>>=◌, ◌>>◌, Done, draw_uuid, err, unique_violation, ok, gets, throw_if, conflict,
  record_missing, pure, is_set,
}
use stellances.Table.{find, has, update}
use stellances.Paging.{Paging, Page, paged}

abbrev pub user_email : User → String
user_email u = u.email

-- `findOneByEmail`
abbrev pub find_one_by_email : String → World → Option User
find_one_by_email email w = find user_email email w.db.users

-- `findOneById`
abbrev pub find_one_by_id : RowId → World → Option User
find_one_by_id id w = find user_key id w.db.users

-- an account as `findAll` selects it, without the password
pub record UserView : Type 0 where
  pub id : RowId
  pub email : String
  pub name : String
  pub role : UserRole
  pub stellar_public_key : Option String

abbrev pub view : User → UserView
view u = record {
  id = u.id;
  email = u.email;
  name = u.name;
  role = u.role;
  stellar_public_key = u.stellar_public_key;
}

-- `findAll`
unfoldable pub find_all : Paging → World → Page UserView
find_all p w = paged p (map view w.db.users)

pub record NewUser : Type 0 where
  pub email : String
  pub name : String
  pub password_hash : String
  pub role : UserRole

abbrev pub new_user : RowId → NewUser → User
new_user id d = record {
  id = id;
  email = d.email;
  name = d.name;
  role = d.role;
  password = d.password_hash;
  stellar_public_key = none;
  token_version = 0;
}

-- `prisma.user.create`
unfoldable pub insert_user : User → Action Done
insert_user u w =
    if has user_key u.id w.db.users || has user_email u.email w.db.users
    then (err unique_violation, w)
    else (ok tt, record w { db = record (w.db) { users = u ∷ w.db.users } })

-- `create`, with the unique indexes on `id` and `email`
unfoldable pub create : Env → NewUser → Action User
create env d = do id ← draw_uuid env; insert_user (new_user id d); pure (new_user id d)

-- the row that has this wallet
abbrev pub holder : String → List User → Option User
holder key [] = none
holder key (u ∷ us) =
    if elim u.stellar_public_key [ none ↦ false | some k ↦ k == key ] then some u else holder key us

-- another account has this wallet
abbrev pub wallet_taken : RowId → String → World → Bool
wallet_taken id key w = elim (holder key w.db.users) [ none ↦ false | some u ↦ not (u.id == id) ]

pub record ProfileData : Type 0 where
  pub name : Option String
  pub stellar_public_key : Option String

abbrev pub set_profile : ProfileData → User → User
set_profile d u = record u {
  name = elim d.name [ none ↦ u.name | some n ↦ n ];
  stellar_public_key = elim d.stellar_public_key [ none ↦ u.stellar_public_key | some k ↦ some k ];
}

-- the check that `updateProfile` makes for a wallet that is not empty
abbrev pub check_wallet : RowId → ProfileData → Action Done
check_wallet id d = elim d.stellar_public_key [
  | none ↦ pure tt
  | some key ↦
      if is_set (some key)
      then (λ w.
          throw_if (wallet_taken id key w)
            (conflict "Stellar public key already registered to another account") w)
      else pure tt
]

-- `prisma.user.update`, with the unique index on the wallet, which an empty one is in as well
unfoldable pub save_profile : RowId → ProfileData → Action Done
save_profile id d w =
    if not (has user_key id w.db.users)
    then (err record_missing, w)
    else if elim d.stellar_public_key [ none ↦ false | some k ↦ wallet_taken id k w ]
    then (err unique_violation, w)
    else (
      ok tt,
      record w { db = record (w.db) { users = update user_key id (set_profile d) w.db.users } },
    )

-- `updateProfile`
unfoldable pub update_profile : RowId → ProfileData → Action (Option User)
unfolding save_profile
update_profile id d = do check_wallet id d; save_profile id d; gets (find_one_by_id id)
