-- ===== src/Api/Amounts.antt =====
-- No job and no milestone is worth nothing, whatever reaches the backend.
use stellances.Api.Requests.{serve_keeps}
use stellances.World.{World}
use stellances.Contracts.Milestones.{
  insert_payment, update_contract_status, update_milestone, set_milestone_status,
}
use stellances.Api.{Event, serve}
use stellances.Http.{Server}
use stellances.Notifications.{insert_notification}
use stellances.Contracts.Create.{
  update_job_status, set_job_status, insert_contract, insert_milestone, record_funding,
}
use stellances.Auth.Rotation.{bump_version, update_tokens}
use stellances.Auth.{insert_refresh_token}
use stellances.Jobs.{UpdateJobDto, change_job, insert_job, save_job}
use stellances.Http.Validation.{valid_job_update, valid_number-stored}
use stellances.Schema.{Database, Job, job_key, Milestone, milestone_key}
use stellances.Base.{
  true, [], ◌∷◌, String, List, Bool-cases, ◌≡◌, inl, Option-cases, arith, inr, refl, every, Bool,
  leb,
}
use stellances.Api.Writes.{AccountWrites, ContractWrites}
use stellances.Users.{insert_user, save_profile}
use stellances.Table.{update}

abbrev pub has_budget : Job → Bool
has_budget j = leb 1 j.budget

abbrev pub has_amount : Milestone → Bool
has_amount m = leb 1 m.amount

-- every budget and every amount is above 0, as `@IsPositive()` asks
pub record Valued (db : Database) : Type 0 where
  pub budgets : every has_budget db.jobs ≡ true
  pub amounts : every has_amount db.milestones ≡ true

every-update :
    {A : Type 0} (p : A → Bool) (key : A → String) (k : String) (f : A → A)
    → ((x : A) → p x ≡ true → p (f x) ≡ true)
    → (xs : List A) → every p xs ≡ true
    → every p (update key k f xs) ≡ true
every-update p key k f h [] a = refl
every-update p key k f h (x ∷ xs) a = elim (Bool-cases (p x)) [
  | inl e ↦ ground (arith, h x e, every-update p key k f h xs)
  | inr e ↦ absurd (ground arith)
]

changed_budget :
    (d : UpdateJobDto)
    → valid_job_update d ≡ true
    → (j : Job) → has_budget j ≡ true
    → has_budget (change_job d j) ≡ true
unfolding valid_job_update
changed_budget d v j h = elim (Option-cases d.budget) [
  | inl e ↦ ground arith
  | inr (n, e) ↦ ground (arith, valid_number-stored n)
]

account_writes : AccountWrites Valued
unfolding insert_user insert_refresh_token bump_version update_tokens save_profile insert_job
    save_job update_job_status insert_notification
account_writes = record {
  insert_user = λ id d. record { at = λ w x. ground (arith, x) };
  insert_token = λ t. record { at = λ w x. ground (arith, x) };
  bump = λ id. record { at = λ w x. ground (arith, x) };
  revoke = λ p now. record { at = λ w x. ground (arith, x) };
  replace = λ p now id. record { at = λ w x. ground (arith, x) };
  save_profile = λ id d. record { at = λ w x. ground (arith, x) };
  insert_job = λ j v. record { at = λ w x. ground (arith, x, v) };
  save_job = λ id d v. record {
    at = λ w x. ground (
      arith,
      x,
      every-update has_budget job_key id (change_job d) (changed_budget d v) w.db.jobs x.budgets,
    );
  };
  job_status = λ id s. record {
    at = λ w x. ground (
      arith,
      x,
      every-update has_budget job_key id (set_job_status s) (λ j h. h) w.db.jobs x.budgets,
    );
  };
  insert_notification = λ n. record { at = λ w x. ground (arith, x) };
  read_one = λ id. record { at = λ w x. ground (arith, x) };
  read_all = λ u. record { at = λ w x. ground (arith, x) };
  erase = λ id. record { at = λ w x. ground (arith, x) };
}

contract_writes : ContractWrites Valued
unfolding insert_contract insert_milestone insert_payment record_funding update_contract_status
    update_milestone update_job_status insert_notification
contract_writes = record {
  insert_contract = λ c _. record { at = λ w x. ground (arith, x) };
  insert_milestone = λ m v. record { at = λ w x. ground (arith, x, v) };
  insert_payment = λ p. record { at = λ w x. ground (arith, x) };
  funding = λ id h. record { at = λ w x. ground (arith, x) };
  contract_status = λ id s. record { at = λ w x. ground (arith, x) };
  milestone_status = λ id s. record {
    at = λ w x. ground (
      arith,
      x,
      every-update has_amount milestone_key id (set_milestone_status s) (λ m h. h) w.db.milestones
          x.amounts,
    );
  };
  job_status = account_writes.job_status;
  insert_notification = account_writes.insert_notification;
}

-- Over any requests and ends of connections that begin with a database in which every job has a
-- budget above 0 and every milestone an amount above 0, all jobs and milestones stay so, as counts of
-- stroops: a number that `@IsPositive()` and the limit of seven decimals let through is not rounded
-- to 0 by its column.
pub serve-Valued :
    (srv : Server) (es : List Event) (w : World) → Valued w.db → Valued (serve srv es w).db
serve-Valued srv es w v = serve_keeps account_writes contract_writes srv es w v
