-- ===== src/App/Startup.antt =====
-- The secret of the access tokens.
use stellances.World.Action.{is_set}
use stellances.Base.{some, true, [], ◌≡◌, String, Option-cases, inl, arith, inr, Bool-cases}
use stellances.App.{missing, missing_required, verifying_secret, signing_secret}
use stellances.World.{Env}

-- A backend that gets past the check of its environment signs and verifies its access tokens with one
-- secret, the one that is configured and not empty, and never with the text that AuthModule falls back
-- to.
pub startup_secret :
    (env : Env)
    → missing_required env ≡ []
    → (s : String) × (env.config "JWT_SECRET" ≡ some s)
      × (is_set (some s) ≡ true)
      × (verifying_secret env ≡ some s)
      × (signing_secret env ≡ s)
unfolding missing verifying_secret signing_secret
startup_secret env h = elim (Option-cases (env.config "JWT_SECRET")) [
  | inl e ↦ absurd (ground (arith, h))
  | inr (s, e) ↦ elim (Bool-cases (is_set (some s))) [
    | inl f ↦ (s, e, f, ground arith, ground arith)
    | inr f ↦ absurd (ground (arith, h))
  ]
]
