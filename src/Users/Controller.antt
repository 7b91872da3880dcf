-- ===== src/Users/Controller.antt =====
-- stellance/backend/src/users/users.controller.ts.
use stellances.Http.Validation.{checked, valid_profile}
use stellances.Contracts.Loading.{is_admin}
use stellances.Http.Query.{page_query}
use stellances.Paging.{Paging, Page}
use stellances.Schema.{RowId, User, UserRole}
use stellances.Base.{some, Option, String, not, ℕ}
use stellances.Users.{find_all, find_one_by_id, update_profile, ProfileData, UserView}
use stellances.Http.{Identity}
use stellances.World.Action.{
  returned, Action, ◌>>◌, throw_if, ◌>>=◌, is_set, unauthorized, forbidden, pure, gets, or_throw,
  record_missing,
}

-- an account without its password
pub record UserProfile : Type 0 where
  pub id : RowId
  pub email : String
  pub name : String
  pub role : UserRole
  pub stellar_public_key : Option String
  pub token_version : ℕ

abbrev pub profile : User → UserProfile
profile u = record {
  id = u.id;
  email = u.email;
  name = u.name;
  role = u.role;
  stellar_public_key = u.stellar_public_key;
  token_version = u.token_version;
}

-- `me`
unfoldable pub me : Identity → Action UserProfile
me caller = do
  throw_if (not (is_set (some caller.id))) (unauthorized "Unauthorized")
  user ← or_throw (← gets (find_one_by_id caller.id)) (unauthorized "Unauthorized")
  pure (profile user)

-- `updateMe`
unfoldable pub update_me : Identity → ProfileData → Action UserProfile
update_me caller dto = checked (valid_profile dto) (do
  throw_if (not (is_set (some caller.id))) (unauthorized "Unauthorized")
  user ← or_throw (← update_profile caller.id dto) record_missing
  pure (profile user))

-- the pages of a query
abbrev pub paging_of : Option String → Option String → Action Paging
paging_of page limit = do
  p ← returned (page_query page)
  l ← returned (page_query limit)
  pure (record { page = p; limit = l })

-- `findAll`
unfoldable pub list_users : Identity → Option String → Option String → Action (Page UserView)
unfolding find_all
list_users caller page limit = do
  throw_if (not (is_admin caller.role)) (forbidden "Admin access required")
  p ← paging_of page limit
  gets (find_all p)
