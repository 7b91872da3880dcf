-- ===== src/Frontend/Hook.antt =====
-- The tasks of stellance/frontend/hooks/useStellarWallet.ts: `connect`, `fetchBalance`, `refreshBalance`
-- and the effect that restores a connection.
use stellances.World.Action.{truthy}
use stellances.Frontend.Text.{includes, includes_by}
use stellances.Base.{
  zero, suc, none, some, true, false, [], ◌∷◌, ℕ, List, String, if◌then◌else◌, Bool, get_elem?,
  alter, ◌||◌, ◌++◌, Option,
}
use stellances.Frontend.Format.{format_balance}
use stellances.Payments.{Asset}
use stellances.Frontend.Wallet.{
  Page, is_status, address, unreachable, disconnect, set_status, idle, checking, disconnected,
  failed, installed, FreighterAnswer, native, PageEvent, Probe, BalanceAnswer, set_store,
  set_loading_balance, set_connected, set_error, set_balance, probe_answered, connect_answered,
  balance_answered, mounts, presses_connect, presses_disconnect, presses_refresh,
}

abbrev pub not_installed_text : String
not_installed_text = "Freighter wallet not found. Install it at freighter.app and reload."

-- `friendlyMsg`
unfoldable pub friendly : String → String
unfolding includes_by
friendly msg =
    if includes msg "not installed" || includes msg "not found"
    then not_installed_text
    else if includes msg "User declined" || includes msg "rejected"
    then "Connection rejected. Click Connect Wallet to try again."
    else msg

abbrev pub remove_at {ℓ} : {A : Type ℓ} → ℕ → List A → List A
remove_at i [] = []
remove_at zero (x ∷ xs) = xs
remove_at (suc i) (x ∷ xs) = x ∷ remove_at i xs

-- `fetchBalance` up to its request
unfoldable pub fetch_balance : String → Page → Page
fetch_balance key p =
    let q = set_store (set_loading_balance true p.store) p in
    record q { fetches = q.fetches ++ key ∷ [] }

-- and from the answer on
unfoldable pub balance_arrived : BalanceAnswer → Page → Page
balance_arrived answer p =
    set_store
      (set_loading_balance false (
        set_balance
          (elim answer [
            | native (some raw) ↦ format_balance raw Asset.xlm
            | native none ↦ "0.00"
            | unreachable ↦ "—"
          ])
          p.store))
      p

-- what `connect` and the effect do with a key
unfoldable pub use_key : String → Page → Page
unfolding fetch_balance
use_key key p = fetch_balance key (set_store (set_connected key p.store) p)

-- the `catch` of `connect`
unfoldable pub connect_failed : String → Page → Page
unfolding friendly
connect_failed msg p =
    set_store (set_status disconnected (set_error (some (friendly msg)) p.store)) p

-- `connect`, from the answer to a task on: that of `isConnected`, then that of `requestAccess`
unfoldable pub connect_goes_on : ℕ → Bool → FreighterAnswer → Page → Page
unfolding connect_failed use_key
connect_goes_on i false (installed false) p =
    set_store (set_status disconnected (set_error (some not_installed_text) p.store))
      (record p { connects = remove_at i p.connects })
connect_goes_on i false (installed true) p = record p { connects = alter i (λ _. true) p.connects }
connect_goes_on i true (address key) p = elim (truthy key) [
  | none ↦
      connect_failed "No public key returned from Freighter."
        (record p { connects = remove_at i p.connects })
  | some k ↦ use_key k (record p { connects = remove_at i p.connects })
]
connect_goes_on i _ (failed msg) p =
    connect_failed msg (record p { connects = remove_at i p.connects })
connect_goes_on i false (address key) p = p
connect_goes_on i true (installed b) p = p

abbrev pub read_address : Probe → Probe
read_address q = record q { reading = true }

-- the effect, from the answer to a task on: that of `isConnected`, then that of `getAddress`
unfoldable pub probe_goes_on : ℕ → Bool → FreighterAnswer → Page → Page
unfolding use_key
probe_goes_on i false (installed false) p =
    set_store (set_status disconnected p.store) (record p { probes = remove_at i p.probes })
probe_goes_on i false (installed true) p =
    set_store (set_status checking p.store) (record p { probes = alter i read_address p.probes })
probe_goes_on i true (address key) p = elim (truthy key) [
  | none ↦ set_store (set_status disconnected p.store) (record p { probes = remove_at i p.probes })
  | some k ↦ use_key k (record p { probes = remove_at i p.probes })
]
probe_goes_on i _ (failed msg) p =
    set_store (set_status disconnected p.store) (record p { probes = remove_at i p.probes })
probe_goes_on i false (address key) p = p
probe_goes_on i true (installed b) p = p

-- `if (cancelled) return`
unfoldable pub probe_answer : ℕ → FreighterAnswer → Page → Option Probe → Page
unfolding probe_goes_on
probe_answer i a p none = p
probe_answer i a p (some q) =
    if q.cancelled
    then record p { probes = remove_at i p.probes }
    else probe_goes_on i q.reading a p

unfoldable pub connect_answer : ℕ → FreighterAnswer → Page → Option Bool → Page
unfolding connect_goes_on
connect_answer i a p none = p
connect_answer i a p (some granted) = connect_goes_on i granted a p

unfoldable pub balance_answer : ℕ → BalanceAnswer → Page → Option String → Page
unfolding balance_arrived
balance_answer i a p none = p
balance_answer i a p (some key) = balance_arrived a (record p { fetches = remove_at i p.fetches })

-- `if (publicKey) await fetchBalance(publicKey)`
unfoldable pub refresh_balance : Option String → Page → Page
unfolding fetch_balance
refresh_balance none p = p
refresh_balance (some key) p = fetch_balance key p

unfoldable pub step : PageEvent → Page → Page
unfolding probe_answer connect_answer balance_answer refresh_balance
step mounts p =
    if is_status p.store.status idle
    then record p { probes = p.probes ++ record { reading = false; cancelled = false } ∷ [] }
    else p
step presses_connect p =
    let q = set_store (set_error none (set_status checking p.store)) p in
    record q { connects = q.connects ++ false ∷ [] }
step presses_disconnect p = set_store (disconnect p.store) p
step presses_refresh p = refresh_balance (truthy p.store.public_key) p
step (probe_answered i a) p = probe_answer i a p (get_elem? p.probes i)
step (connect_answered i a) p = connect_answer i a p (get_elem? p.connects i)
step (balance_answered i a) p = balance_answer i a p (get_elem? p.fetches i)

unfoldable pub steps : List PageEvent → Page → Page
unfolding step
steps [] p = p
steps (e ∷ es) p = steps es (step e p)
