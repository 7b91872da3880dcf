-- ===== src/Users/Profile.antt =====
-- `updateProfile`.
use stellances.World.Laws.{bind_ok}
use stellances.Table.Laws.{find-update}
use stellances.Table.{find, update}
use stellances.World.Action.{ok, is_set, err, conflict, ◌>>◌, gets, Result, Done}
use stellances.World.{World}
use stellances.Base.{
  refl, some, true, false, Option, ◌≡◌, String, ◌≢◌, Option-cases, inl, arith, inr, Bool-cases,
  ==_refl, ==_iff, sym, ap, ◌∙◌, subst,
}
use stellances.Schema.{user_key, User, RowId}
use stellances.Users.{
  update_profile, save_profile, set_profile, wallet_taken, ProfileData, check_wallet,
  find_one_by_id,
}

saved :
    (id : RowId) (d : ProfileData) (w w' : World)
    → save_profile id d w ≡ (ok tt, w')
    → (w'.db.users ≡ update user_key id (set_profile d) w.db.users)
      × ((u : User) × (find user_key id w.db.users ≡ some u))
      × ((k : String) → d.stellar_public_key ≡ some k → wallet_taken id k w ≡ false)
unfolding save_profile
saved id d w w' e = elim (Option-cases (find user_key id w.db.users)) [
  | inl missing ↦ absurd (ground arith)
  | inr (u, there) ↦ elim (Option-cases d.stellar_public_key) [
    | inl p ↦ (ground arith, (u, there), λ k q. absurd (ground arith))
    | inr (k, p) ↦ elim (Bool-cases (wallet_taken id k w)) [
      | inl t ↦ absurd (ground arith)
      | inr t ↦ (ground arith, (u, there), λ j q. ground arith)
    ]
  ]
]

check_wallet-same : (id : RowId) (d : ProfileData) (w : World) → (check_wallet id d w).1 ≡ w
check_wallet-same id d w = elim (Option-cases d.stellar_public_key) [
  | inl p ↦ ground arith
  | inr (k, p) ↦ elim (Bool-cases (is_set (some k))) [ inl q ↦ ground arith | inr q ↦ ground arith ]
]

-- When `updateProfile` returns, no other account had the wallet that was asked for, the account is
-- changed as asked, and every other account is as it was.
pub update_profile_ok :
    (id : RowId) (d : ProfileData) (w w' : World) (r : Option User)
    → update_profile id d w ≡ (ok r, w')
    → ((k : String) → d.stellar_public_key ≡ some k → wallet_taken id k w ≡ false)
      × ((u : User) × (find user_key id w.db.users ≡ some u) × (r ≡ some (set_profile d u)))
      × ((j : RowId) → j ≢ id → find user_key j w'.db.users ≡ find user_key j w.db.users)
unfolding update_profile
update_profile_ok id d w w' r e =
    let (a, v, checked, r₁) =
      bind_ok (check_wallet id d) (λ c. save_profile id d >> gets (find_one_by_id id)) {w = w}
        {w' = w'} e in
    let same : v ≡ w =
      sym (ap (λ (q : Result Done × World). q.1) checked) ∙ check_wallet-same id d w in
    let (b, u, done, r₂) =
      bind_ok (save_profile id d) (λ c. gets (find_one_by_id id)) {w = v} {w' = w'} r₁ in
    let (rows, (x, there), free) = saved id d v u done in
    (
      λ k p. subst (λ y. wallet_taken id k y ≡ false) same (free k p),
      (
        x,
        ground arith,
        ground
            (arith, find-update user_key id id (set_profile d) v.db.users (λ y. refl), ==_refl id),
      ),
      λ j ne.
          ground
            (arith, find-update user_key j id (set_profile d) v.db.users (λ y. refl), ==_iff id j),
    )

-- Where another account has the wallet that is asked for, and it is not the empty text,
-- `updateProfile` ends with a conflict and nothing changes.
pub update_profile_conflict :
    (id k : String) (d : ProfileData) (w : World)
    → d.stellar_public_key ≡ some k
    → is_set (some k) ≡ true
    → wallet_taken id k w ≡ true
    → update_profile id d w
      ≡ (err (conflict "Stellar public key already registered to another account"), w)
unfolding update_profile
update_profile_conflict id k d w p q t = ground arith
