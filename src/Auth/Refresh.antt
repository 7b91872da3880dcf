-- ===== src/Auth/Refresh.antt =====
-- `refresh` where it returns: what was checked, and the rotation of the token.
use stellances.World.Laws.{Result-cases, bind_ok}
use stellances.Table.Laws.{Unique, find-update_where, find-find}
use stellances.Table.{update_where, find}
use stellances.World.{Env, World}
use stellances.Auth.{
  Crypto, Meta, Tokens, token_hash, hash_refresh_token, insert_refresh_token, new_refresh_token,
  generate_refresh_token, clock, refresh_token_ms, payload_of, access_token_expires_in,
}
use stellances.Schema.{RefreshToken, RowId, User, user_key, refresh_token_key, Database}
use stellances.World.Action.{
  Result, err, is_set, ok, forbidden, Action, Done, ◌>>=◌, rolled_back, ◌>>◌, pure, throw,
  not_found, bad_request, conflict, unauthorized, service_unavailable, unique_violation,
  record_missing, sdk_error,
}
use stellances.Auth.Rotation.{
  refresh, logout_all, check_refresh, refuse_revoked, update_tokens, rotate, rotate_rows,
  live_with_id, replace, on_forbidden,
}
use stellances.Base.{
  refl, some, true, false, ◌∷◌, ◌≡◌, String, arith, ℕ, ◌<◌, ==_refl, none, Option-cases, inl, inr,
  Bool-cases, suc, ==_iff, ◌+◌, subst, sym, ap,
}

check_refresh_ok :
    (s : Crypto) (env : Env) (token : String) (w v : World) (t : RefreshToken) (u : User)
    → check_refresh s env token w ≡ (ok (t, u), v)
    → (v.db ≡ w.db)
      × (find token_hash (hash_refresh_token s env token) w.db.refresh_tokens ≡ some t)
      × (t.revoked ≡ false)
      × ((i : ℕ) × (s.now i < t.expires_at))
      × (find user_key t.user_id w.db.users ≡ some u)
      × (u.token_version ≡ t.token_version)
unfolding check_refresh refuse_revoked
check_refresh_ok s env token w v t u e =
    elim (Option-cases (find token_hash (hash_refresh_token s env token) w.db.refresh_tokens)) [
      | inl e₀ ↦ absurd (ground arith)
      | inr (t', e₀) ↦ elim (Option-cases (find user_key t'.user_id w.db.users)) [
        | inl e₁ ↦ absurd (ground arith)
        | inr (u', e₁) ↦ elim (Bool-cases t'.revoked) [
          | inl r ↦ elim (Bool-cases (is_set t'.replaced_by_token_id)) [
            | inl q ↦ elim (Result-cases (logout_all s t'.user_id w).0) [
              | inl (x, z) ↦ absurd (ground arith)
              | inr (x, z) ↦ absurd (ground arith)
            ]
            | inr q ↦ absurd (ground arith)
          ]
          | inr r ↦ (
            ground arith,
            ground arith,
            ground arith,
            (w.requests, ground arith),
            ground arith,
            ground arith,
          )
        ]
      ]
    ]

-- the token `id` is revoked and points to its replacement
abbrev pub Replaced : RowId → RowId → World → Type 0
Replaced id next w =
    (old : RefreshToken) × (find refresh_token_key id w.db.refresh_tokens ≡ some old)
    × (old.revoked ≡ true)
    × (old.replaced_by_token_id ≡ some next)

-- the token with this hash is the row `id`, and it is not revoked
abbrev pub Handed : String → RowId → World → Type 0
Handed hash id w =
    (new : RefreshToken) × (find token_hash hash w.db.refresh_tokens ≡ some new)
    × (new.id ≡ id)
    × (new.revoked ≡ false)

on_forbidden_ok :
    (h : Action Done) (r : Result Done × World) (w' : World)
    → on_forbidden h r ≡ (ok tt, w')
    → r ≡ (ok tt, w')
on_forbidden_ok h (ok a, v) w' e = e
on_forbidden_ok h (err (forbidden m), v) w' e =
    let (a, u, _, stop) = bind_ok h (λ d. throw (forbidden m)) {w = v} {w' = w'} e in
    absurd (cc stop)
on_forbidden_ok h (err (not_found m), v) w' e = absurd (cc e)
on_forbidden_ok h (err (bad_request m), v) w' e = absurd (cc e)
on_forbidden_ok h (err (conflict m), v) w' e = absurd (cc e)
on_forbidden_ok h (err (unauthorized m), v) w' e = absurd (cc e)
on_forbidden_ok h (err (service_unavailable m), v) w' e = absurd (cc e)
on_forbidden_ok h (err unique_violation, v) w' e = absurd (cc e)
on_forbidden_ok h (err record_missing, v) w' e = absurd (cc e)
on_forbidden_ok h (err sdk_error, v) w' e = absurd (cc e)

rolled_back_ok :
    (db : Database) (r : Result Done × World) (w' : World)
    → rolled_back db r ≡ (ok tt, w')
    → r ≡ (ok tt, w')
rolled_back_ok db (ok a, v) w' e = e
rolled_back_ok db (err x, v) w' e = absurd (cc e)

-- the rows after a rotation
rotate_rows_ok :
    (s : Crypto) (env : Env) (t : RefreshToken) (u : User) (hash : String) (expires : ℕ)
    (meta : Meta) (w w' : World)
    → rotate_rows s env t u hash expires meta w ≡ (ok tt, w')
    → (find refresh_token_key (env.uuid w.serial) w.db.refresh_tokens ≡ none)
      × (w'.db.refresh_tokens
          ≡ update_where (live_with_id t.id) (replace (s.now w.requests) (env.uuid w.serial)) (
              new_refresh_token (env.uuid w.serial) hash t.user_id u.token_version expires meta
              ∷ w.db.refresh_tokens))
unfolding rotate_rows insert_refresh_token update_tokens
rotate_rows_ok s env t u hash expires meta w w' e =
    elim (Option-cases (find refresh_token_key (env.uuid w.serial) w.db.refresh_tokens)) [
      | inl free ↦ elim (Option-cases (find token_hash hash w.db.refresh_tokens)) [
        | inl new ↦ (free, ground arith)
        | inr (x, taken) ↦ absurd (ground arith)
      ]
      | inr (x, taken) ↦ absurd (ground arith)
    ]

rotate_ok :
    (s : Crypto) (env : Env) (t : RefreshToken) (u : User) (hash : String) (expires : ℕ)
    (meta : Meta) (w w' : World)
    → find refresh_token_key t.id w.db.refresh_tokens ≡ some t
    → t.revoked ≡ false
    → rotate s env t u hash expires meta w ≡ (ok tt, w')
    → (id : RowId) × ((old : RefreshToken) × (find refresh_token_key t.id w'.db.refresh_tokens
          ≡ some old)
        × (old.revoked ≡ true)
        × (old.replaced_by_token_id ≡ some id))
      × Handed hash id w'
unfolding rotate
rotate_ok s env t u hash expires meta w w' there live e =
    let id = env.uuid w.serial in
    let new = new_refresh_token id hash t.user_id u.token_version expires meta in
    let now = s.now w.requests in
    let (free, after) =
      rotate_rows_ok s env t u hash expires meta w w'
        (rolled_back_ok w.db _ w' (on_forbidden_ok (logout_all s t.user_id) _ w' e)) in
    (
      id,
      (
        replace now id t,
        ground (
          arith,
          ==_refl t.id,
          ==_iff id t.id,
          find-update_where refresh_token_key t.id (live_with_id t.id) (replace now id)
              (new ∷ w.db.refresh_tokens) (λ x. refl),
        ),
        refl,
        refl,
      ),
      (
        new,
        ground (
          arith,
          ==_refl hash,
          ==_iff id t.id,
          find-update_where token_hash hash (live_with_id t.id) (replace now id)
              (new ∷ w.db.refresh_tokens) (λ x. refl),
        ),
        refl,
        refl,
      ),
    )

-- When `refresh` returns, the token that was presented had a row that was not revoked, not expired at
-- a time that the clock showed, and of its user's token version; that row is revoked now and points
-- to its replacement, and the replacement has the hash of the token that was handed out and is not
-- revoked.
pub refresh_ok :
    (s : Crypto) (env : Env) (token : String) (meta : Meta) (w w' : World) (r : Tokens)
    → Unique refresh_token_key w.db.refresh_tokens
    → refresh s env token meta w ≡ (ok r, w')
    → (t : RefreshToken) × (u : User) × (id : RowId) × (find token_hash
          (hash_refresh_token s env token)
          w.db.refresh_tokens
        ≡ some t)
      × (t.revoked ≡ false)
      × ((i : ℕ) × (s.now i < t.expires_at))
      × (find user_key t.user_id w.db.users ≡ some u)
      × (u.token_version ≡ t.token_version)
      × Replaced t.id id w'
      × ((new : RefreshToken) × (find token_hash
              (hash_refresh_token s env r.refresh_token)
              w'.db.refresh_tokens
            ≡ some new)
          × (new.id ≡ id)
          × (new.revoked ≡ false))
unfolding refresh
refresh_ok s env token meta w w' r uq e =
    let (found, v, checked, r₁) =
      bind_ok (check_refresh s env token) (λ f. making f.0 f.1) {w = w} {w' = w'} e in
    let (same, row, live, time, owner, version) =
      check_refresh_ok s env token w v found.0 found.1 checked in
    let fresh = s.random_token v.serial in
    let u = record v { serial = suc v.serial; requests = suc v.requests } in
    let hash = hash_refresh_token s env fresh in
    let expires = s.now v.requests + refresh_token_ms env in
    let (d, t, rotated, r₂) =
      bind_ok (rotate s env found.0 found.1 hash expires meta)
        (λ d. pure (record {
          access_token = s.sign (payload_of found.1) (access_token_expires_in env);
          refresh_token = fresh;
        }))
        {w = u} {w' = w'} r₁ in
    let (id, old, new) =
      rotate_ok s env found.0 found.1 hash expires meta u t
        (subst
          (λ (db : Database). find refresh_token_key found.0.id db.refresh_tokens ≡ some found.0)
          (sym same) (find-find token_hash refresh_token_key _ w.db.refresh_tokens uq row))
        live rotated in
    let last : t ≡ w' = ap (λ (q : Result Tokens × World). q.1) r₂ in
    let given : fresh ≡ r.refresh_token = ground arith in
    (
      found.0,
      found.1,
      id,
      row,
      live,
      time,
      owner,
      version,
      subst (Replaced found.0.id id) last old,
      subst (λ x. Handed (hash_refresh_token s env x) id w') given
          (subst (Handed hash id) last new),
    )
  where
    making : RefreshToken → User → Action Tokens
    making t u = do
      fresh ← generate_refresh_token s
      now ← clock s
      rotate s env t u (hash_refresh_token s env fresh) (now + refresh_token_ms env) meta
      pure (record {
        access_token = s.sign (payload_of u) (access_token_expires_in env);
        refresh_token = fresh;
      })
