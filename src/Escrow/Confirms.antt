-- ===== src/Escrow/Confirms.antt =====
-- When a submission by the admin succeeds.
use stellances.Base.{refl, zero, suc, some, String, ℕ, ◌≡◌, ◌<◌, ◌+◌, arith, ◌∷◌, ◌≤◌}
use stellances.Escrow.{
  poll, await_confirmation, submit_admin_invocation, accept, attempts, admin_secret,
}
use stellances.World.{Env, World, TransactionStatus, success, Invocation, simulated, accepted}
use stellances.World.Action.{ok}

abbrev later : ℕ → World → World
later n w = record w { requests = w.requests + n }

poll_success :
    (env : Env) (h : String) (left : ℕ) (w : World) → poll env h left success w ≡ (ok success, w)
unfolding poll
poll_success env h zero w = refl
poll_success env h (suc left) w = refl

-- the loop ends with success once the server answers so, if that is within the attempts that are left
poll_reaches :
    (env : Env) (h : String) (k left : ℕ) (w : World)
    → k < left
    → ((i : ℕ) → i < k → env.get_transaction (w.requests + i) h ≡ some TransactionStatus.not_found)
    → env.get_transaction (w.requests + k) h ≡ some success
    → poll env h left TransactionStatus.not_found w ≡ (ok success, later (suc k) w)
unfolding poll
poll_reaches env h k zero w lt pending done = absurd (omega arith)
poll_reaches env h zero (suc left) w lt pending done =
    ground (arith, poll_success env h left (later 1 w), done)
poll_reaches env h (suc k) (suc left) w lt pending done = ground (
  arith,
  pending 0 (omega arith),
  poll_reaches env h k left (later 1 w) (omega arith)
      (λ i l. grind (arith, pending (suc i) (omega arith))) (grind (arith, done)),
)

await_reaches :
    (env : Env) (h : String) (k : ℕ) (w : World)
    → k ≤ 20
    → ((i : ℕ) → i < k → env.get_transaction (w.requests + i) h ≡ some TransactionStatus.not_found)
    → env.get_transaction (w.requests + k) h ≡ some success
    → await_confirmation env h w ≡ (ok h, later (suc k) w)
unfolding await_confirmation
await_reaches env h zero w le pending done =
    ground (arith, poll_success env h attempts (later 1 w), done)
await_reaches env h (suc k) w le pending done = ground (
  arith,
  pending 0 (omega arith),
  poll_reaches env h k attempts (later 1 w) (omega arith)
      (λ i l. grind (arith, pending (suc i) (omega arith))) (grind (arith, done)),
)

-- A submission succeeds when the admin's secret is set, the account is found, the simulation passes,
-- the invocation is accepted under a hash, and the server answers that the transaction succeeded after
-- at most 20 answers that it is not found yet. The hash is returned, and exactly this invocation has
-- gone to the chain.
pub submit_admin_invocation_confirms :
    (env : Env) (call : Invocation) (w : World) (secret account h : String) (k : ℕ)
    → admin_secret env ≡ some secret
    → env.get_account w.requests (env.public_key secret) ≡ some account
    → env.simulate (w.requests + 1) call ≡ some simulated
    → env.send (w.requests + 2) call ≡ some (accepted h)
    → k ≤ 20
    → ((i : ℕ)
        → i < k
        → env.get_transaction (w.requests + 3 + i) h ≡ some TransactionStatus.not_found)
    → env.get_transaction (w.requests + 3 + k) h ≡ some success
    → submit_admin_invocation env call w
      ≡ (ok h, record w { requests = w.requests + (4 + k); sent = (call, h) ∷ w.sent })
unfolding submit_admin_invocation accept
submit_admin_invocation_confirms env call w secret account h k e₀ e₁ e₂ e₃ le pending done =
    ground (
      arith,
      e₀,
      e₁,
      e₂,
      e₃,
      await_reaches env h k (record w { requests = w.requests + 3; sent = (call, h) ∷ w.sent }) le
          pending done,
    )
