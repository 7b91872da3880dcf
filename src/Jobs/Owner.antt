-- ===== src/Jobs/Owner.antt =====
-- Who changes a job, and what a search shows.
use stellances.Table.Laws.{find-update}
use stellances.Table.{find}
use stellances.World.Action.{ok}
use stellances.World.{World}
use stellances.Schema.{RowId, UserRole, Job, job_key, user_key, JobStatus, contract_job}
use stellances.Contracts.Create.{update_job_status, set_job_status}
use stellances.Jobs.{
  update_job, cancel, check_update, check_cancel, find_one, save_job, UpdateJobDto, has_status,
  change_job,
}
use stellances.Base.{
  refl, none, some, String, ◌≡◌, ◌⊎◌, ◌≢◌, Option-cases, inl, arith, inr, Bool-cases, ◌==◌, ==_iff,
  ==_refl,
}

-- When `cancel` of a job returns, the caller is the job's owner or an admin, the job had no contract
-- and was neither completed nor cancelled, and it is cancelled now; every other job is as it was.
pub cancel_ok :
    (id : RowId) (caller : String) (role : UserRole) (w w' : World) (r : Job)
    → cancel id caller role w ≡ (ok r, w')
    → (j : Job) × (find job_key id w.db.jobs ≡ some j)
      × ((j.client_id ≡ caller) ⊎ (role ≡ UserRole.admin))
      × (find contract_job id w.db.contracts ≡ none)
      × ((j.status ≡ JobStatus.open_job) ⊎ (j.status ≡ JobStatus.in_progress))
      × (find job_key id w'.db.jobs ≡ some (set_job_status JobStatus.cancelled j))
      × ((k : RowId) → k ≢ id → find job_key k w'.db.jobs ≡ find job_key k w.db.jobs)
unfolding cancel check_cancel find_one update_job_status
cancel_ok id caller role w w' r e = elim (Option-cases (find job_key id w.db.jobs)) [
  | inl e₀ ↦ absurd (ground arith)
  | inr (j, e₀) ↦ elim (Option-cases (find user_key j.client_id w.db.users)) [
    | inl e₁ ↦ absurd (ground arith)
    | inr (u, e₁) ↦ elim (Option-cases (find contract_job id w.db.contracts)) [
      | inr (c, e₂) ↦ absurd (ground arith)
      | inl e₂ ↦ (
        j,
        e₀,
        elim (Bool-cases (j.client_id == caller)) [
          | inl p ↦ inl ((==_iff j.client_id caller).0 p)
          | inr p ↦ inr (ground arith)
        ],
        e₂,
        elim (Bool-cases (has_status JobStatus.open_job j)) [
          | inl p ↦ inl (ground arith)
          | inr p ↦ inr (ground arith)
        ],
        ground (
          arith,
          find-update job_key id id (set_job_status JobStatus.cancelled) w.db.jobs (λ x. refl),
          ==_refl id,
        ),
        λ k ne. ground (
          arith,
          find-update job_key k id (set_job_status JobStatus.cancelled) w.db.jobs (λ x. refl),
          ==_iff id k,
        ),
      )
    ]
  ]
]

-- When `update` of a job returns, the caller is the job's owner or an admin and the job is open; its
-- status and its owner stay, and every other job is as it was.
pub update_job_ok :
    (id : RowId) (caller : String) (role : UserRole) (dto : UpdateJobDto) (w w' : World) (r : Job)
    → update_job id caller role dto w ≡ (ok r, w')
    → (j : Job) × (find job_key id w.db.jobs ≡ some j)
      × ((j.client_id ≡ caller) ⊎ (role ≡ UserRole.admin))
      × (j.status ≡ JobStatus.open_job)
      × (r.status ≡ j.status)
      × (r.client_id ≡ j.client_id)
      × (find job_key id w'.db.jobs ≡ some r)
      × ((k : RowId) → k ≢ id → find job_key k w'.db.jobs ≡ find job_key k w.db.jobs)
unfolding update_job check_update find_one save_job
update_job_ok id caller role dto w w' r e = elim (Option-cases (find job_key id w.db.jobs)) [
  | inl e₀ ↦ absurd (ground arith)
  | inr (j, e₀) ↦ elim (Option-cases (find user_key j.client_id w.db.users)) [
    | inl e₁ ↦ absurd (ground arith)
    | inr (u, e₁) ↦ (
      j,
      e₀,
      elim (Bool-cases (j.client_id == caller)) [
        | inl p ↦ inl ((==_iff j.client_id caller).0 p)
        | inr p ↦ inr (ground arith)
      ],
      ground arith,
      ground arith,
      ground arith,
      ground (arith, find-update job_key id id (change_job dto) w.db.jobs (λ x. refl), ==_refl id),
      λ k ne.
          ground
            (arith, find-update job_key k id (change_job dto) w.db.jobs (λ x. refl), ==_iff id k),
    )
  ]
]
