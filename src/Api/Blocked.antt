-- ===== src/Api/Blocked.antt =====
-- What becomes of a job once it has had a contract.
use stellances.World.Laws.{bind_err}
use stellances.Contracts.Access.{check_create-refused}
use stellances.Notifications.{insert_notification}
use stellances.Api.Requests.{serve_keeps}
use stellances.World.Action.{Exception, err}
use stellances.World.{World}
use stellances.Contracts.Milestones.{
  insert_payment, update_contract_status, update_milestone, set_status,
}
use stellances.Schema.{RowId, Database, contract_job, contract_key}
use stellances.Http.{Server}
use stellances.Base.{refl, true, [], ◌∷◌, String, List, ◌≡◌, Bool-cases, ◌==◌, inl, arith, inr}
use stellances.Api.Money.{OfMoney, OfMoney-writes}
use stellances.Api.Writes.{ContractWrites}
use stellances.Api.{serve, Event}
use stellances.Table.{has, update}
use stellances.Contracts.Create.{
  create, insert_contract, insert_milestone, record_funding, CreateContractDto, update_job_status,
  set_funded, check_create,
}

-- there is a contract on the job
abbrev pub HasContract : RowId → Database → Type 0
HasContract job_id db = has contract_job job_id db.contracts ≡ true

has-update :
    {A : Type 0} (key column : A → String) (k j : String) (f : A → A) (xs : List A)
    → ((x : A) → column (f x) ≡ column x)
    → has column j xs ≡ true
    → has column j (update key k f xs) ≡ true
has-update key column k j f [] h e = e
has-update key column k j f (x ∷ xs) h e = elim (Bool-cases (column x == j)) [
  | inl c ↦ ground (arith, h x)
  | inr c ↦ ground (arith, h x, has-update key column k j f xs h)
]

HasContract-OfMoney : (job_id : RowId) → OfMoney (HasContract job_id)
HasContract-OfMoney job_id db db' h m = rw m.contracts h

HasContract-writes : (job_id : RowId) → ContractWrites (HasContract job_id)
unfolding insert_contract insert_milestone insert_payment record_funding update_contract_status
    update_milestone update_job_status insert_notification
HasContract-writes job_id = record {
  insert_contract = λ c _. record { at = λ w x. ground (arith, x) };
  insert_milestone = λ m v. record { at = λ w x. ground (arith, x) };
  insert_payment = λ p. record { at = λ w x. ground (arith, x) };
  funding = λ id h. record {
    at = λ w x. ground (
      arith,
      x,
      has-update contract_key contract_job id job_id (set_funded h) w.db.contracts (λ c. refl) x,
    );
  };
  contract_status = λ id s. record {
    at = λ w x. ground (
      arith,
      x,
      has-update contract_key contract_job id job_id (set_status s) w.db.contracts (λ c. refl) x,
    );
  };
  milestone_status = λ id s. record { at = λ w x. ground (arith, x) };
  job_status = λ id s. record { at = λ w x. ground (arith, x) };
  insert_notification = λ n. record { at = λ w x. ground (arith, x) };
}

-- For a job that has a contract, whatever its status, and after any requests, no one can make another
-- contract on it: the service's `create` throws and changes nothing.
pub job_never_free :
    (srv : Server) (es : List Event) (w : World) (client_id : String) (dto : CreateContractDto)
    → HasContract dto.job_id w.db
    → (x : Exception) × (create srv.env client_id dto (serve srv es w) ≡ (err x, serve srv es w))
unfolding create
job_never_free srv es w client_id dto h =
    let there : HasContract dto.job_id (serve srv es w).db =
      serve_keeps (OfMoney-writes (HasContract-OfMoney dto.job_id)) (HasContract-writes dto.job_id)
        srv es w h in
    let (x, e) = check_create-refused client_id dto (serve srv es w) there in
    (x, bind_err (check_create client_id dto) _ e)
