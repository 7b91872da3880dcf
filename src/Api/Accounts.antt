-- ===== src/Api/Accounts.antt =====
-- Every request about accounts, jobs and notifications keeps an invariant that their writes keep.
use stellances.Notifications.Controller.{stream}
use stellances.Api.Sessions.{
  logout_all-Keeps, register-Keeps, login-Keeps, refresh-Keeps, revoke-Keeps,
}
use stellances.Api.Routes.{
  get_me, open_stream, read_every, log_out_everywhere, refresh_session, logout, get_health,
  AccountRoute, PublicRoute, register_user, patch_me, get_users, log_in, create_job, get_jobs,
  get_job, cancel_job, get_health, get_notifications, read_single, refresh_session, delete_single,
  logout, log_out_everywhere,
}
use stellances.App.{health}
use stellances.Notifications.Controller.{list_notifications, unread_count}
use stellances.Auth.Controller.{
  post_logout_all, post_register, post_login, post_refresh, post_logout,
}
use stellances.Api.{handle_public, handle_account}
use stellances.Http.Validation.{valid_job-budget}
use stellances.Jobs.Controller.{patch_job, post_job, list_jobs, filters_of}
use stellances.Http.{Server, Identity, local_login, validate_login, HttpRequest}
use stellances.World.{World}
use stellances.Base.{String, Option, ◌≡◌, Option-cases, inl, arith, inr}
use stellances.Schema.{Database, RowId, UserRole}
use stellances.Api.Writes.{AccountWrites, Keeps-checked}
use stellances.Users.{update_profile, ProfileData, check_wallet}
use stellances.World.Keeps.{Keeps, keeps_rules, Keeps-quiet}
use stellances.Notifications.{
  owned, mark_read, mark_all_read, delete_one, get_stream, remove_stream, stream_of,
}
use stellances.Jobs.{
  create, find_one, check_update, check_cancel, update_job, cancel, CreateJobDto, UpdateJobDto,
}
use stellances.Users.Controller.{paging_of, update_me, me, list_users}

pub get_stream-db : (u : String) (w : World) → (get_stream u w).1.db ≡ w.db
unfolding get_stream
get_stream-db u w = elim (Option-cases (stream_of u w)) [
  | inl e ↦ ground arith
  | inr (i, e) ↦ ground arith
]

pub remove_stream-db : (u : String) (w : World) → (remove_stream u w).1.db ≡ w.db
unfolding remove_stream
remove_stream-db u w = elim (Option-cases (stream_of u w)) [
  | inl e ↦ ground arith
  | inr (i, e) ↦ ground arith
]

check_wallet-db : (id : RowId) (d : ProfileData) (w : World) → (check_wallet id d w).1.db ≡ w.db
check_wallet-db id d w = elim (Option-cases d.stellar_public_key) [
  | inl e ↦ ground arith
  | inr (key, e) ↦ ground arith
]

module _ {P : Database → Type 0} (k : AccountWrites P) (srv : Server) where
  get_stream-Keeps : (u : String) → Keeps P (get_stream u)
  get_stream-Keeps u = Keeps-quiet _ (get_stream-db u)

  find_job-Keeps : (id : RowId) → Keeps P (find_one id)
  unfolding find_one
  find_job-Keeps id = search keeps_rules depth 12

  owned-Keeps : (id u : String) → Keeps P (owned id u)
  unfolding owned
  owned-Keeps id u = search keeps_rules depth 12

  paging_of-Keeps : (p l : Option String) → Keeps P (paging_of p l)
  paging_of-Keeps p l = search keeps_rules depth 12

  check_wallet-Keeps : (id : RowId) (d : ProfileData) → Keeps P (check_wallet id d)
  check_wallet-Keeps id d = Keeps-quiet _ (check_wallet-db id d)

  update_profile-Keeps : (id : RowId) (d : ProfileData) → Keeps P (update_profile id d)
  unfolding update_profile
  update_profile-Keeps id d =
      let c = check_wallet-Keeps in let s = k.save_profile in search keeps_rules depth 12

  update_me-Keeps : (u : Identity) (d : ProfileData) → Keeps P (update_me u d)
  unfolding update_me
  update_me-Keeps u d = let s = update_profile-Keeps in search (keeps_rules, Keeps-checked) depth 14

  post_job-Keeps : (u : Identity) (d : CreateJobDto) → Keeps P (post_job srv u d)
  unfolding post_job create
  post_job-Keeps u d =
      let budget = valid_job-budget d in
      let i = k.insert_job in search (keeps_rules, Keeps-checked) depth 14

  patch_job-Keeps : (id : RowId) (u : Identity) (d : UpdateJobDto) → Keeps P (patch_job id u d)
  unfolding patch_job update_job check_update
  patch_job-Keeps id u d =
      let f = find_job-Keeps in let s = k.save_job in search (keeps_rules, Keeps-checked) depth 14

  cancel_job-Keeps : (id : RowId) (u : String) (r : UserRole) → Keeps P (cancel id u r)
  unfolding cancel check_cancel
  cancel_job-Keeps id u r =
      let f = find_job-Keeps in let s = k.job_status in search keeps_rules depth 12

  mark_read-Keeps : (id u : String) → Keeps P (mark_read id u)
  unfolding mark_read
  mark_read-Keeps id u = let o = owned-Keeps in let r = k.read_one in search keeps_rules depth 12

  mark_all_read-Keeps : (u : String) → Keeps P (mark_all_read u)
  unfolding mark_all_read
  mark_all_read-Keeps u = let r = k.read_all in search keeps_rules depth 12

  delete_one-Keeps : (id u : String) → Keeps P (delete_one id u)
  unfolding delete_one
  delete_one-Keeps id u = let o = owned-Keeps in let e = k.erase in search keeps_rules depth 12

  pub handle_account-Keeps : (u : Identity) (r : AccountRoute) → Keeps P (handle_account srv u r)
  unfolding handle_account post_logout_all me list_users list_jobs filters_of list_notifications
      unread_count stream
  handle_account-Keeps u log_out_everywhere =
      let l = logout_all-Keeps k srv in search keeps_rules depth 12
  handle_account-Keeps u get_me = search keeps_rules depth 12
  handle_account-Keeps u (patch_me dto) = let m = update_me-Keeps in search keeps_rules depth 12
  handle_account-Keeps u (get_users page limit) = search keeps_rules depth 14
  handle_account-Keeps u (create_job dto) = let p = post_job-Keeps in search keeps_rules depth 12
  handle_account-Keeps u (get_jobs q) = search keeps_rules depth 14
  handle_account-Keeps u (get_job id) = let f = find_job-Keeps in search keeps_rules depth 12
  handle_account-Keeps u (cancel_job id) = let c = cancel_job-Keeps in search keeps_rules depth 12
  handle_account-Keeps u (AccountRoute.update_job id dto) =
      let c = patch_job-Keeps in search keeps_rules depth 12
  handle_account-Keeps u (get_notifications unread) = search keeps_rules depth 12
  handle_account-Keeps u AccountRoute.count_unread = search keeps_rules depth 12
  handle_account-Keeps u open_stream = let g = get_stream-Keeps in search keeps_rules depth 12
  handle_account-Keeps u read_every = let m = mark_all_read-Keeps in search keeps_rules depth 12
  handle_account-Keeps u (read_single id) = let m = mark_read-Keeps in search keeps_rules depth 12
  handle_account-Keeps u (delete_single id) =
      let d = delete_one-Keeps in search keeps_rules depth 12

  pub handle_public-Keeps : (q : HttpRequest) (r : PublicRoute) → Keeps P (handle_public srv q r)
  unfolding handle_public post_register post_login post_refresh post_logout local_login
      validate_login health
  handle_public-Keeps q get_health = search keeps_rules depth 12
  handle_public-Keeps q (register_user dto) =
      let g = register-Keeps k srv in search (keeps_rules, Keeps-checked) depth 12
  handle_public-Keeps q (log_in email password) =
      let l = login-Keeps k srv in search keeps_rules depth 14
  handle_public-Keeps q refresh_session = let g = refresh-Keeps k srv in search keeps_rules depth 12
  handle_public-Keeps q logout = let g = revoke-Keeps k srv in search keeps_rules depth 12
