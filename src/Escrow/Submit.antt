-- ===== src/Escrow/Submit.antt =====
-- What an admin-signed invocation does: whether it reached the chain, and how many requests it took.
use stellances.World.Frame.{Framed}
use stellances.Schema.{RowId}
use stellances.World.Laws.{bind_ok}
use stellances.World.Action.{ok, request, ◌>>=◌}
use stellances.World.{
  Env, TransactionStatus, World, failed, success, Invocation, simulation_error, send_error,
  accepted, simulated, ScVal,
}
use stellances.Base.{
  zero, suc, ℕ, String, ◌≡◌, ◌≤◌, arith, ◌+◌, Option-cases, inl, inr, refl, some, ◌<◌, subst, ◌∙◌,
  ap, ◌∷◌, ◌⊎◌, sym, List,
}
use stellances.Escrow.{
  await_confirmation, poll, confirm, attempts, submit_admin_invocation, accept, admin_secret,
  get_admin_public_key, submit_with, submit_refund, submit_dispute, submit_resolve_dispute,
  submit_release_milestone, Decision, verify_transaction, build_fund_xdr, FundParams, fund_call,
}

-- Nothing changed but the number of requests, which grew by `n` at most.
pub record Asked (n : ℕ) (w w' : World) : Type 0 where
  pub db : w'.db ≡ w.db
  pub streams : w'.streams ≡ w.streams
  pub subjects : w'.subjects ≡ w.subjects
  pub sent : w'.sent ≡ w.sent
  pub serial : w'.serial ≡ w.serial
  pub grew : w.requests ≤ w'.requests
  pub bounded : w'.requests ≤ w.requests + n

pub poll-Asked :
    (env : Env) (hash : String) (left : ℕ) (status : TransactionStatus) (w : World)
    → Asked left w (poll env hash left status w).1
unfolding poll
poll-Asked env hash zero status w = ground arith
poll-Asked env hash (suc left) success w = ground arith
poll-Asked env hash (suc left) failed w = ground arith
poll-Asked env hash (suc left) TransactionStatus.not_found w =
    elim (Option-cases (env.get_transaction w.requests hash)) [
      | inl e ↦ ground arith
      | inr (st, e) ↦
          ground (arith, poll-Asked env hash left st (record w { requests = suc w.requests }))
    ]

-- Some request of this run was answered with success.
abbrev pub Confirmed : Env → String → World → Type 0
Confirmed env hash w' = (i : ℕ) × (i < w'.requests) × (env.get_transaction i hash ≡ some success)

poll-Confirmed :
    (env : Env) (hash : String) (left : ℕ) (status : TransactionStatus) (w w' : World)
    → poll env hash left status w ≡ (ok success, w')
    → (status ≡ success → Confirmed env hash w)
    → Confirmed env hash w'
unfolding poll
poll-Confirmed env hash zero status w w' e h =
    let es : status ≡ success = cc e in
    let ew : w ≡ w' = cc e in subst (Confirmed env hash) ew (h es)
poll-Confirmed env hash (suc left) success w w' e h =
    let ew : w ≡ w' = cc e in subst (Confirmed env hash) ew (h refl)
poll-Confirmed env hash (suc left) failed w w' e h = absurd (cc e)
poll-Confirmed env hash (suc left) TransactionStatus.not_found w w' e h =
    elim (Option-cases (env.get_transaction w.requests hash)) [
      | inl silent ↦ absurd (ground arith)
      | inr (st, e') ↦
          poll-Confirmed env hash left st (record w { requests = suc w.requests }) w' (ground arith)
            (λ done. (w.requests, omega arith, e' ∙ ap some done))
    ]

await-Asked : (env : Env) (hash : String) (w : World) → Asked 21 w (await_confirmation env hash w).1
unfolding await_confirmation
await-Asked env hash w = elim (Option-cases (env.get_transaction w.requests hash)) [
  | inl e ↦ ground arith
  | inr (st, e) ↦
      ground (arith, poll-Asked env hash attempts st (record w { requests = suc w.requests }))
]

await-Confirmed :
    (env : Env) (hash h : String) (w w' : World)
    → await_confirmation env hash w ≡ (ok h, w')
    → (h ≡ hash) × Confirmed env hash w'
unfolding await_confirmation
await-Confirmed env hash h w w' e =
    let (first, v, asked, rest) =
      bind_ok (request (λ i. env.get_transaction i hash))
        (λ st. poll env hash attempts st >>= confirm hash) e in
    let (last, u, polled, done) = bind_ok (poll env hash attempts first) (confirm hash) rest in
    confirmed first v asked last u polled done
  where
    confirmed :
        (first : TransactionStatus) (v : World)
        → request (λ i. env.get_transaction i hash) w ≡ (ok first, v)
        → (last : TransactionStatus) (u : World) → poll env hash attempts first v ≡ (ok last, u)
        → confirm hash last u ≡ (ok h, w')
        → (h ≡ hash) × Confirmed env hash w'
    confirmed first v asked success u polled done =
        let ew : u ≡ w' = cc done in
        (
          cc done,
          subst (Confirmed env hash) ew (
              poll-Confirmed env hash attempts first v u polled
                (λ good. (w.requests, ground arith, ground arith))),
        )
    confirmed first v asked failed u polled done = absurd (cc done)
    confirmed first v asked TransactionStatus.not_found u polled done = absurd (cc done)

-- What a submission has done by its end: the database and the streams are untouched, and at most
-- this one invocation was accepted.
pub record Submitted (call : Invocation) (w w' : World) : Type 0 where
  pub db : w'.db ≡ w.db
  pub streams : w'.streams ≡ w.streams
  pub subjects : w'.subjects ≡ w.subjects
  pub serial : w'.serial ≡ w.serial
  pub grew : w.requests ≤ w'.requests
  pub bounded : w'.requests ≤ w.requests + 24
  pub sent : (w'.sent ≡ w.sent) ⊎ ((h : String) × (w'.sent ≡ (call, h) ∷ w.sent))

-- A submission ends, whether it returns or throws, after 24 requests at most: three to prepare and
-- send, one for the first answer and 20 in the loop. It changes neither the database nor the live
-- streams, and the chain has accepted the one invocation or nothing.
pub submit_admin_invocation-Submitted :
    (env : Env) (call : Invocation) (w : World)
    → Submitted call w (submit_admin_invocation env call w).1
unfolding submit_admin_invocation accept
submit_admin_invocation-Submitted env call w = elim (Option-cases (admin_secret env)) [
  | inl e ↦ ground arith
  | inr (secret, e) ↦ elim (Option-cases (env.get_account w.requests (env.public_key secret))) [
    | inl e₁ ↦ ground arith
    | inr (account, e₁) ↦ elim (Option-cases (env.simulate (suc w.requests) call)) [
      | inl e₂ ↦ ground arith
      | inr (simulation_error m, e₂) ↦ ground arith
      | inr (simulated, e₂) ↦ elim (Option-cases (env.send (suc (suc w.requests)) call)) [
        | inl e₃ ↦ ground arith
        | inr (send_error m, e₃) ↦ ground arith
        | inr (accepted h, e₃) ↦ ground (
          arith,
          await-Asked env h
              (record w { requests = suc (suc (suc w.requests)); sent = (call, h) ∷ w.sent }),
        )
      ]
    ]
  ]
]

-- A submission that returns a hash has had the invocation accepted under it, once, and some request
-- of the loop was answered that the transaction succeeded.
pub submit_admin_invocation_ok :
    (env : Env) (call : Invocation) (w w' : World) (h : String)
    → submit_admin_invocation env call w ≡ (ok h, w')
    → (w'.sent ≡ (call, h) ∷ w.sent) × Confirmed env h w'
unfolding submit_admin_invocation accept
submit_admin_invocation_ok env call w w' h e = elim (Option-cases (admin_secret env)) [
  | inl e₀ ↦ absurd (ground arith)
  | inr (secret, e₀) ↦ elim (Option-cases (env.get_account w.requests (env.public_key secret))) [
    | inl e₁ ↦ absurd (ground arith)
    | inr (account, e₁) ↦ elim (Option-cases (env.simulate (suc w.requests) call)) [
      | inl e₂ ↦ absurd (ground arith)
      | inr (simulation_error m, e₂) ↦ absurd (ground arith)
      | inr (simulated, e₂) ↦ elim (Option-cases (env.send (suc (suc w.requests)) call)) [
        | inl e₃ ↦ absurd (ground arith)
        | inr (send_error m, e₃) ↦ absurd (ground arith)
        | inr (accepted h', e₃) ↦
            let sent = record w {
              requests = suc (suc (suc w.requests));
              sent = (call, h') ∷ w.sent;
            } in
            let (same, good) = await-Confirmed env h' h sent w' (ground arith) in
            let kept : w'.sent ≡ sent.sent = ground (arith, await-Asked env h' sent) in
            (
              kept ∙ ap (λ (x : String). (call, x) ∷ w.sent) (sym same),
              subst (λ x. Confirmed env x w') (sym same) good,
            )
      ]
    ]
  ]
]

-- The endpoints' submissions leave the database alone.
pub submit_with-db :
    (env : Env) (fn_name : String) (rest : String → List ScVal) (w : World)
    → (submit_with env fn_name rest w).1.db ≡ w.db
unfolding get_admin_public_key
submit_with-db env fn_name rest w = elim (Option-cases (admin_secret env)) [
  | inl e ↦ ground arith
  | inr (secret, e) ↦ ground (
    arith,
    (submit_admin_invocation-Submitted env
        (record { fn_name = fn_name; args = rest (env.public_key secret) }) w).db,
  )
]

pub submit_release_milestone-db :
    (env : Env) (id : RowId) (amount : ℕ) (w : World)
    → (submit_release_milestone env id amount w).1.db ≡ w.db
unfolding submit_release_milestone
submit_release_milestone-db env id amount w = submit_with-db env _ _ w

pub submit_refund-db : (env : Env) (id : RowId) (w : World) → (submit_refund env id w).1.db ≡ w.db
unfolding submit_refund
submit_refund-db env id w = submit_with-db env _ _ w

pub submit_dispute-db : (env : Env) (id : RowId) (w : World) → (submit_dispute env id w).1.db ≡ w.db
unfolding submit_dispute
submit_dispute-db env id w = submit_with-db env _ _ w

pub submit_resolve_dispute-db :
    (env : Env) (id : RowId) (d : Decision) (n : ℕ) (w : World)
    → (submit_resolve_dispute env id d n w).1.db ≡ w.db
unfolding submit_resolve_dispute
submit_resolve_dispute-db env id d n w = submit_with-db env _ _ w

-- Building an unsigned transaction only asks the RPC server.
pub build_fund_xdr-Framed : (env : Env) (p : FundParams) → Framed (build_fund_xdr env p)
unfolding build_fund_xdr
build_fund_xdr-Framed env p w =
    elim (Option-cases (env.get_account w.requests p.client_public_key)) [
      | inl e ↦ ground arith
      | inr (account, e) ↦ elim (Option-cases (env.simulate (suc w.requests) (fund_call p))) [
        | inl e₁ ↦ ground arith
        | inr (simulation_error m, e₁) ↦ ground arith
        | inr (simulated, e₁) ↦ ground arith
      ]
    ]

pub get_admin_public_key-Framed : (env : Env) → Framed (get_admin_public_key env)
unfolding get_admin_public_key
get_admin_public_key-Framed env w = elim (Option-cases (admin_secret env)) [
  | inl e ↦ ground arith
  | inr (secret, e) ↦ ground arith
]

pub verify_transaction-Framed :
    (env : Env) (tx_hash : String) → Framed (verify_transaction env tx_hash)
unfolding verify_transaction
verify_transaction-Framed env tx_hash w = ground arith
