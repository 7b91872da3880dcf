-- ===== src/Frontend/Stale.antt =====
-- The balance that a page shows, and the wallet that it belongs to.
use stellances.Payments.{Asset}
use stellances.Frontend.Format.{format_balance}
use stellances.Base.{refl, none, some, ℕ, String, get_elem?, ◌≡◌}
use stellances.Frontend.Wallet.{Page, balance_answered, presses_disconnect, native, disconnected}
use stellances.Frontend.Hook.{step, balance_answer, balance_arrived}

-- The finding about fetchBalance: its answer is put into the store whatever has become of the wallet
-- since it was asked for. On a page that waits for a balance, a user who disconnects and then gets the
-- answer sees a balance without a wallet.
pub late_balance :
    (p : Page) (i : ℕ) (key raw : String)
    → get_elem? p.fetches i ≡ some key
    → let q = step (balance_answered i (native (some raw))) (step presses_disconnect p) in
      (q.store.public_key ≡ none)
      × (q.store.status ≡ disconnected)
      × (q.store.balance ≡ some (format_balance raw Asset.xlm))
unfolding step balance_answer balance_arrived
late_balance p i key raw e = rw e (refl, refl, refl)
