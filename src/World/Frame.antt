-- ===== src/World/Frame.antt =====
-- What an action leaves alone.
use stellances.World.Laws.{bind_post}
use stellances.Base.{◌∙◌, ◌≡◌, arith}
use stellances.World.Action.{Action, both, ◌>>=◌, attempt}
use stellances.World.{World}

-- Everything that the contracts rest on is as it was: only notifications, live streams and counters
-- may differ.
pub record Frame (w w' : World) : Type 0 where
  pub users : w'.db.users ≡ w.db.users
  pub refresh_tokens : w'.db.refresh_tokens ≡ w.db.refresh_tokens
  pub jobs : w'.db.jobs ≡ w.db.jobs
  pub contracts : w'.db.contracts ≡ w.db.contracts
  pub milestones : w'.db.milestones ≡ w.db.milestones
  pub payments : w'.db.payments ≡ w.db.payments
  pub sent : w'.sent ≡ w.sent

pub Frame-refl : (w : World) → Frame w w
Frame-refl w = ground arith

pub Frame-trans : {w v u : World} → Frame w v → Frame v u → Frame w u
Frame-trans f g = record {
  users = g.users ∙ f.users;
  refresh_tokens = g.refresh_tokens ∙ f.refresh_tokens;
  jobs = g.jobs ∙ f.jobs;
  contracts = g.contracts ∙ f.contracts;
  milestones = g.milestones ∙ f.milestones;
  payments = g.payments ∙ f.payments;
  sent = g.sent ∙ f.sent;
}

-- An action that leaves them alone, from any state.
abbrev pub Framed {ℓ} : {A : Type ℓ} → Action A → Type 0
Framed m = (w : World) → Frame w (m w).1

pub both-Framed {ℓ κ} :
    {A : Type ℓ} {B : Type κ} (m : Action A) (n : Action B)
    → Framed m
    → Framed n
    → Framed (both m n)
both-Framed m n f g w = Frame-trans (f w) (g (m w).1)

pub bind-Framed {ℓ κ} :
    {A : Type ℓ} {B : Type κ} (m : Action A) (k : A → Action B)
    → Framed m
    → ((a : A) → Framed (k a))
    → Framed (m >>= k)
bind-Framed m k f g w = bind_post (λ v. Frame w v) m k w (f w) (λ a v e h. Frame-trans h (g a v))

pub attempt-Framed {ℓ} : {A : Type ℓ} (m : Action A) → Framed m → Framed (attempt m)
attempt-Framed m f w = f w
