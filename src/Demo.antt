-- ===== src/Demo.antt =====
-- A small deployment for the tests: a client, a freelancer and an admin; a job with an active
-- contract of two milestones, one in review and one paid; servers that always answer.
pub mod Balance
use stellances.Schema.{
  User, Job, Contract, Milestone, Payment, Database, UserRole, JobStatus, ContractStatus,
  MilestoneStatus,
}
use stellances.Auth.{Crypto}
use stellances.Payments.{Horizon, account}
use stellances.World.{Env, World, simulated, accepted, success}
use stellances.Base.{
  none, some, [], ◌∷◌, ℕ, String, ◌<>◌, show, if◌then◌else◌, ◌==◌, false, true, leb,
}

abbrev pub demo_env : Env
demo_env = record {
  config = λ key. if key == "STELLAR_ADMIN_SECRET" then some "S-ADMIN" else none;
  uuid = λ i. "id-" <> show i;
  public_key = λ secret. "G-ADMIN";
  get_account = λ i key. some key;
  simulate = λ i call. some simulated;
  send = λ i call. some (accepted "hash-1");
  get_transaction = λ i hash. some success;
  transaction_ledger = λ i hash. some 7;
  to_xdr = λ call. "AAAA";
}

abbrev pub user : String → UserRole → User
user id role = record {
  id = id;
  email = id <> "@example.org";
  name = id;
  role = role;
  password = "hashed";
  stellar_public_key = some ("G-" <> id);
  token_version = 0;
}

abbrev pub the_job : Job
the_job = record {
  id = "job";
  title = "Logo";
  description = "A logo";
  budget = 80;
  category = "design";
  status = JobStatus.in_progress;
  client_id = "carol";
}

abbrev pub the_contract : Contract
the_contract = record {
  id = "contract";
  job_id = "job";
  freelancer_id = "frank";
  client_id = "carol";
  status = ContractStatus.active;
  escrow_tx_hash = some "hash-0";
}

abbrev pub milestone : String → ℕ → MilestoneStatus → Milestone
milestone id amount status = record {
  id = id;
  contract_id = "contract";
  title = id;
  amount = amount;
  status = status;
}

abbrev pub first_payment : Payment
first_payment = record {
  id = "payment";
  contract_id = "contract";
  milestone_id = some "draft";
  amount = 30;
  stellar_tx_hash = "hash-p";
}

abbrev pub demo_db : Database
demo_db = record {
  users =
      user "carol" UserRole.client
      ∷ user "frank" UserRole.freelancer
      ∷ user "ada" UserRole.admin
      ∷ [];
  refresh_tokens = [];
  jobs = the_job ∷ [];
  contracts = the_contract ∷ [];
  milestones =
      milestone "final" 50 MilestoneStatus.in_review
      ∷ milestone "draft" 30 MilestoneStatus.paid
      ∷ [];
  payments = first_payment ∷ [];
  notifications = [];
}

-- carol has an open stream
abbrev pub demo : World
demo = record {
  db = demo_db;
  streams = ("carol", 0) ∷ [];
  subjects = record { emitted = []; stopped = false } ∷ [];
  sent = [];
  requests = 0;
  serial = 0;
}

abbrev pub demo_crypto : Crypto
demo_crypto = record {
  now = λ i. i;
  random_token = λ i. "token-" <> show i;
  sha256_hex = λ s. "#" <> s;
  hash_password = λ i s. "salted " <> s;
  verify_password = λ h s. h == "salted " <> s;
  sign = λ p e. p.sub;
}

abbrev pub demo_horizon : Horizon
demo_horizon = record {
  account_of = λ i key. account (
      record { asset_type = "native"; asset_code = ""; asset_issuer = ""; balance = "12.5000000" }
      ∷ []);
  load_account = λ i key. some key;
  base_fee = λ i. some 100;
  submit_payment = λ i destination stroops. some "hash-w";
  now = λ i. i;
  is_address = λ s. true;
  takes_amount = λ n. leb 1 n;
}
