-- ===== src/Contracts/Refinement/Shared.antt =====
-- Facts that the endpoints share: what loading a contract finds, and what leaves the ledger alone.
use stellances.World.Laws.{bind_post}
use stellances.Table.Laws.{find-key}
use stellances.Contracts.Create.{notify}
use stellances.World.Action.{ok, pure, Action, ◌>>=◌}
use stellances.Schema.{Database, NotificationType, RowId, contract_key, job_key, user_key}
use stellances.Contracts.Ledger.{ledger, owed, recorded, Steps, here, Ledger, Steps-trans}
use stellances.World.Frame.{Frame, Framed, bind-Framed, Frame-refl}
use stellances.World.{Env, World}
use stellances.Contracts.Loading.{remaining_amount, load_contract, Loaded, milestone_in, payment_in}
use stellances.Base.{
  refl, some, [], ◌∷◌, Bool, String, ℕ, ◌≡◌, List, Option, arith, if◌then◌else◌, ◌-◌, subst, sym,
  Option-cases, inl, inr,
}
use stellances.Notifications.Framed.{create-Framed}
use stellances.Notifications.{create as create_notification}
use stellances.Table.{find, select, total}

pub Frame-ledger : {w v : World} → Frame w v → ledger v ≡ ledger w
Frame-ledger f = ground arith

-- no step at all
pub still : {l k : Ledger} → k ≡ l → Steps l k
still {l} e = subst (Steps l) (sym e) here

-- The steps of a chain are those of its parts, the second where the first returned.
pub bind-Steps {ℓ κ} :
    {A : Type ℓ} {B : Type κ} (m : Action A) (f : A → Action B) (w : World)
    → Steps (ledger w) (ledger (m w).1)
    → ((a : A) (v : World) → m w ≡ (ok a, v) → Steps (ledger v) (ledger (f a v).1))
    → Steps (ledger w) (ledger ((m >>= f) w).1)
bind-Steps m f w h k =
    bind_post (λ v. Steps (ledger w) (ledger v)) m f w h (λ a v e s. Steps-trans s (k a v e))

pub Framed-Steps {ℓ} :
    {A : Type ℓ} (m : Action A) (w : World) → Framed m → Steps (ledger w) (ledger (m w).1)
Framed-Steps m w f = still (Frame-ledger (f w))

pub notify-Framed :
    (env : Env) (user_id : String) (type : NotificationType) (title body : String) (id : RowId)
    (mid : Option RowId)
    → Framed (notify env user_id type title body id mid)
notify-Framed env user_id type title body id mid =
    bind-Framed (create_notification env _) (λ n. pure tt) (create-Framed env _) (λ n. Frame-refl)

-- The row of a contract that was loaded is the one in the table, and its milestones are those of the
-- table that carry its id.
pub load_contract_ok :
    (db : Database) (id : RowId) {c : Loaded}
    → load_contract db id ≡ ok c
    → (find contract_key id db.contracts ≡ some c.row)
      × (c.row.id ≡ id)
      × (c.milestones ≡ select (milestone_in id) db.milestones)
      × (find job_key c.row.job_id db.jobs ≡ some c.job)
unfolding load_contract
load_contract_ok db id {c} e = elim (Option-cases (find contract_key id db.contracts)) [
  | inl e₀ ↦ absurd (ground arith)
  | inr (row, e₀) ↦ elim (Option-cases (find job_key row.job_id db.jobs)) [
    | inl e₁ ↦ absurd (ground arith)
    | inr (j, e₁) ↦ elim (Option-cases (find user_key row.client_id db.users)) [
      | inl e₂ ↦ absurd (ground arith)
      | inr (payer, e₂) ↦ elim (Option-cases (find user_key row.freelancer_id db.users)) [
        | inl e₃ ↦ absurd (ground arith)
        | inr (payee, e₃) ↦
            let same : row.id ≡ id = find-key contract_key id {x = row} db.contracts e₀ in
            (ground arith, ground arith, ground arith, ground arith)
      ]
    ]
  ]
]

pub total-select :
    {A : Type 0} (p : A → Bool) (g : A → ℕ) (xs : List A)
    → total g (select p xs) ≡ total (λ x. if p x then g x else 0) xs
total-select p g [] = refl
total-select p g (x ∷ xs) = ground (arith, total-select p g xs)

-- `_remainingAmount` is what a contract owes less what is recorded.
pub remaining_amount_lem :
    (id : RowId) (w : World)
    → remaining_amount id w.db ≡ owed id (ledger w) - recorded id (ledger w)
unfolding remaining_amount owed recorded
remaining_amount_lem id w = ground (
  arith,
  total-select (milestone_in id) (λ m. m.amount) w.db.milestones,
  total-select (payment_in id) (λ p. p.amount) w.db.payments,
)
