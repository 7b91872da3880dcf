-- ===== src/Api/Money.antt =====
-- Requests that are not about contracts touch no contract, no milestone and no payment.
use stellances.Notifications.{insert_notification}
use stellances.Contracts.Create.{update_job_status}
use stellances.Jobs.{insert_job, save_job}
use stellances.Auth.Rotation.{bump_version, update_tokens}
use stellances.World.Action.{Action}
use stellances.Auth.{insert_refresh_token}
use stellances.Schema.{Database, Contract, Milestone, Payment}
use stellances.Users.{insert_user, save_profile}
use stellances.Base.{refl, List, ◌≡◌, arith}
use stellances.Api.Writes.{AccountWrites}
use stellances.World.Keeps.{Keeps}

-- these contracts, milestones and payments
pub record Money (cs : List Contract) (ms : List Milestone) (ps : List Payment) (db : Database)
    : Type 0 where
  pub contracts : db.contracts ≡ cs
  pub milestones : db.milestones ≡ ms
  pub payments : db.payments ≡ ps

Money-writes :
    (cs : List Contract) (ms : List Milestone) (ps : List Payment) → AccountWrites (Money cs ms ps)
unfolding insert_user insert_refresh_token bump_version update_tokens save_profile insert_job
    save_job update_job_status insert_notification
Money-writes cs ms ps = record {
  insert_user = λ id d. record { at = λ w x. ground (arith, x) };
  insert_token = λ t. record { at = λ w x. ground (arith, x) };
  bump = λ id. record { at = λ w x. ground (arith, x) };
  revoke = λ p now. record { at = λ w x. ground (arith, x) };
  replace = λ p now id. record { at = λ w x. ground (arith, x) };
  save_profile = λ id d. record { at = λ w x. ground (arith, x) };
  insert_job = λ j v. record { at = λ w x. ground (arith, x) };
  save_job = λ id d v. record { at = λ w x. ground (arith, x) };
  job_status = λ id s. record { at = λ w x. ground (arith, x) };
  insert_notification = λ n. record { at = λ w x. ground (arith, x) };
  read_one = λ id. record { at = λ w x. ground (arith, x) };
  read_all = λ u. record { at = λ w x. ground (arith, x) };
  erase = λ id. record { at = λ w x. ground (arith, x) };
}

-- what these tables alone decide
abbrev pub OfMoney : (Database → Type 0) → Type 0
OfMoney P = (db db' : Database) → P db → Money db.contracts db.milestones db.payments db' → P db'

Keeps-Money :
    {A : Type 0} {P : Database → Type 0} (m : Action A)
    → OfMoney P
    → ((cs : List Contract) (ms : List Milestone) (ps : List Payment) → Keeps (Money cs ms ps) m)
    → Keeps P m
Keeps-Money m d k = record {
  at = λ w p. d w.db _ p (
      (k w.db.contracts w.db.milestones w.db.payments).at w
        (record { contracts = refl; milestones = refl; payments = refl }));
}

-- The writes about accounts keep whatever the tables of contracts, milestones and payments decide.
pub OfMoney-writes : {P : Database → Type 0} → OfMoney P → AccountWrites P
OfMoney-writes d = record {
  insert_user = λ id u. Keeps-Money _ d (λ cs ms ps. (Money-writes cs ms ps).insert_user id u);
  insert_token = λ t. Keeps-Money _ d (λ cs ms ps. (Money-writes cs ms ps).insert_token t);
  bump = λ id. Keeps-Money _ d (λ cs ms ps. (Money-writes cs ms ps).bump id);
  revoke = λ p now. Keeps-Money _ d (λ cs ms ps. (Money-writes cs ms ps).revoke p now);
  replace = λ p now id. Keeps-Money _ d (λ cs ms ps. (Money-writes cs ms ps).replace p now id);
  save_profile = λ id u. Keeps-Money _ d (λ cs ms ps. (Money-writes cs ms ps).save_profile id u);
  insert_job = λ j v. Keeps-Money _ d (λ cs ms ps. (Money-writes cs ms ps).insert_job j v);
  save_job = λ id u v. Keeps-Money _ d (λ cs ms ps. (Money-writes cs ms ps).save_job id u v);
  job_status = λ id s. Keeps-Money _ d (λ cs ms ps. (Money-writes cs ms ps).job_status id s);
  insert_notification =
      λ n. Keeps-Money _ d (λ cs ms ps. (Money-writes cs ms ps).insert_notification n);
  read_one = λ id. Keeps-Money _ d (λ cs ms ps. (Money-writes cs ms ps).read_one id);
  read_all = λ u. Keeps-Money _ d (λ cs ms ps. (Money-writes cs ms ps).read_all u);
  erase = λ id. Keeps-Money _ d (λ cs ms ps. (Money-writes cs ms ps).erase id);
}
