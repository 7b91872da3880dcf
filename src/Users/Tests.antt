-- ===== src/Users/Tests.antt =====
-- Accounts of the demo deployment.
use stellances.Users.Profile.{update_profile_ok}
use stellances.World.Action.{ok}
use stellances.World.{World}
use stellances.Demo.{user, demo}
use stellances.Base.{refl, none, some, false, ◌==◌, String, ◌≡◌, ◌≢◌}
use stellances.Users.{update_profile, save_profile, set_profile, wallet_taken, ProfileData}
use stellances.Schema.{user_key, User, UserRole, RowId}
use stellances.Table.{find}

abbrev new_wallet : ProfileData
new_wallet = record { name = none; stellar_public_key = some "G-new" }

abbrev carol : User
carol = user "carol" UserRole.client

abbrev changed : World
changed = (update_profile "carol" new_wallet demo).1

changed_it :
    update_profile "carol" new_wallet demo ≡ (ok (some (set_profile new_wallet carol)), changed)
unfolding update_profile save_profile ◌==◌
changed_it = refl

update_profile_ok_example :
    ((k : String) → new_wallet.stellar_public_key ≡ some k → wallet_taken "carol" k demo ≡ false)
    × ((u : User) × (find user_key "carol" demo.db.users ≡ some u)
        × (some (set_profile new_wallet carol) ≡ some (set_profile new_wallet u)))
    × ((j : RowId) → j ≢ "carol" → find user_key j changed.db.users ≡ find user_key j demo.db.users)
update_profile_ok_example =
    update_profile_ok "carol" new_wallet demo changed (some (set_profile new_wallet carol))
      changed_it
