-- ===== src/Frontend/Connects.antt =====
-- What the button of the wallet comes to.
use stellances.Base.{none, some, true, false, [], ◌∷◌, ◌≡◌, refl, String, is_empty, List}
use stellances.Payments.{Asset}
use stellances.Frontend.Format.{format_balance}
use stellances.Frontend.Wallet.{
  Page, PageEvent, WalletState, presses_connect, presses_disconnect, connect_answered,
  balance_answered, installed, address, native, connected, disconnected, initial,
}
use stellances.Frontend.Hook.{
  steps, step, connect_answer, balance_answer, use_key, fetch_balance, balance_arrived,
  connect_goes_on,
}

-- pressing the button, Freighter there and access granted, and a balance
abbrev pub granted : String → String → List PageEvent
granted key raw =
    presses_connect
    ∷ connect_answered 0 (installed true)
    ∷ connect_answered 0 (address (some key))
    ∷ balance_answered 0 (native (some raw))
    ∷ []

-- the store of a wallet in use
abbrev pub in_use : String → String → WalletState
in_use key raw = record {
  public_key = some key;
  balance = some (format_balance raw Asset.xlm);
  status = connected;
  is_loading_balance = false;
  error = none;
}

-- On a page that waits for nothing else, a user who presses the button of the wallet, who has Freighter
-- and grants access to a key, is connected with that key, whatever the state before, an error among
-- it; the balance that Horizon gives is shown in the format of an amount in XLM, nothing is loading and
-- no task is left; and on disconnecting nothing of it stays but that the wallet is disconnected.
pub connect_ok :
    (p : Page) (key raw : String)
    → p.connects ≡ []
    → p.fetches ≡ []
    → is_empty key ≡ false
    → let q = steps (granted key raw) p in
      (q.store ≡ in_use key raw)
      × (q.connects ≡ [])
      × (q.fetches ≡ [])
      × ((step presses_disconnect q).store ≡ record initial { status = disconnected })
unfolding steps step connect_answer connect_goes_on use_key fetch_balance balance_answer
    balance_arrived
connect_ok p String.[] raw a b k = absurd (cc k)
connect_ok p (String.◌∷◌ c s) raw a b k = rw (a, b) (refl, refl, refl, refl)
