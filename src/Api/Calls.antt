-- ===== src/Api/Calls.antt =====
-- The routes of contracts.controller.ts as calls of the contract service.
use stellances.World.Laws.{bind_post, Result-cases}
use stellances.World.Action.{Action, pure}
use stellances.Http.{Server, Identity}
use stellances.Schema.{RowId, UserRole}
use stellances.Contracts.Controller.{
  list_contracts, post_contract, post_funding, post_dispute, patch_resolve, patch_submit,
  patch_approve, post_cancel,
}
use stellances.World.{Env, World}
use stellances.Base.{
  refl, none, some, true, false, Bool, Option, String, if◌then◌else◌, ◌≡◌, ◌∙◌, inl, arith, inr,
}
use stellances.Api.{handle_contract, as_body}
use stellances.Contracts.Service.{
  Call, call, creates, confirms, submits, approves, disputes, resolves, cancels,
}
use stellances.Contracts.Loading.{find_one, load_contract}
use stellances.Contracts.Create.{create, confirm_fund}
use stellances.Contracts.Disputes.{dispute, resolve_dispute}
use stellances.Api.Routes.{
  ContractRoute, create_contract, get_contracts, get_single, cancel_contract, confirm_funding,
  raise_dispute, submit_work, approve_work, resolve_case, Response, created_body, loaded_body,
  contract_body, milestone_body, approved_body, resolution_body, cancelled_body,
}
use stellances.Http.Validation.{checked, valid_contract, valid_text, valid_resolution}

-- a call, if the body is valid
abbrev if_valid : Bool → Call → Option Call
if_valid b c = if b then some c else none

-- The call that a request of a caller makes: by his id and, where the endpoint asks for one, his role.
abbrev pub call_of : Server → Identity → ContractRoute → Option Call
call_of srv u (create_contract dto) = if_valid (valid_contract srv.framework dto) (creates u.id dto)
call_of srv u (get_contracts side) = none
call_of srv u (get_single id) = none
call_of srv u (confirm_funding id h) = if_valid (valid_text h) (confirms id u.id h)
call_of srv u (submit_work id mid) = some (submits id mid u.id)
call_of srv u (approve_work id mid) = some (approves id mid u.id)
call_of srv u (raise_dispute id reason) = if_valid (valid_text reason) (disputes id u.id reason)
call_of srv u (resolve_case id dto) = if_valid (valid_resolution dto) (resolves id u.id u.role dto)
call_of srv u (cancel_contract id) = some (cancels id u.id u.role)

abbrev pub called : Env → Option Call → World → World
called env none w = w
called env (some c) w = call env c w

as_body-world :
    {A : Type 0} (f : A → Response) (m : Action A) (w : World) → (as_body f m w).1 ≡ (m w).1
as_body-world f m w = bind_post (λ v. v ≡ (m w).1) m (λ a. pure (f a)) w refl (λ a v e k. k)

checked-world :
    {A : Type 0} (env : Env) (b : Bool) (m : Action A) (c : Call) (w : World)
    → (m w).1 ≡ call env c w
    → (checked b m w).1 ≡ called env (if_valid b c) w
checked-world env true m c w e = e
checked-world env false m c w e = refl

find_one-world : (id : RowId) (u : String) (r : UserRole) (w : World) → (find_one id u r w).1 ≡ w
unfolding find_one
find_one-world id u r w = elim (Result-cases (load_contract w.db id)) [
  | inl (x, e) ↦ ground arith
  | inr (c, e) ↦ ground arith
]

-- A request about contracts does to the state exactly what the call of the service does that its
-- caller, its path and its valid body make, and nothing if it only reads or its body is not valid.
pub handle_contract-call :
    (srv : Server) (u : Identity) (r : ContractRoute) (w : World)
    → (handle_contract srv u r w).1 ≡ called srv.env (call_of srv u r) w
unfolding handle_contract call list_contracts post_contract post_funding post_dispute patch_resolve
handle_contract-call srv u (create_contract dto) w =
    as_body-world created_body (post_contract srv u dto) w
    ∙ checked-world srv.env (valid_contract srv.framework dto) (create srv.env u.id dto)
        (creates u.id dto) w refl
handle_contract-call srv u (get_contracts side) w = refl
handle_contract-call srv u (get_single id) w =
    as_body-world loaded_body (find_one id u.id u.role) w ∙ find_one-world id u.id u.role w
handle_contract-call srv u (confirm_funding id h) w =
    as_body-world contract_body (post_funding srv id u h) w
    ∙ checked-world srv.env (valid_text h) (confirm_fund srv.env id u.id h) (confirms id u.id h) w
        refl
handle_contract-call srv u (submit_work id mid) w =
    as_body-world milestone_body (patch_submit srv id mid u) w
handle_contract-call srv u (approve_work id mid) w =
    as_body-world approved_body (patch_approve srv id mid u) w
handle_contract-call srv u (raise_dispute id reason) w =
    as_body-world contract_body (post_dispute srv id u reason) w
    ∙ checked-world srv.env (valid_text reason) (dispute srv.env id u.id reason)
        (disputes id u.id reason) w refl
handle_contract-call srv u (resolve_case id dto) w =
    as_body-world resolution_body (patch_resolve srv id u dto) w
    ∙ checked-world srv.env (valid_resolution dto) (resolve_dispute srv.env id u.id u.role dto)
        (resolves id u.id u.role dto) w refl
handle_contract-call srv u (cancel_contract id) w =
    as_body-world cancelled_body (post_cancel srv id u) w
