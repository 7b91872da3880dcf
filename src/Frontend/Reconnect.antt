-- ===== src/Frontend/Reconnect.antt =====
-- What the effect that restores a connection comes to.
use stellances.World.Action.{truthy}
use stellances.Base.{
  refl, zero, suc, none, some, true, false, [], ◌∷◌, String, Bool, List, ℕ, every, ◌≡◌, ◌||◌,
  Option, map, get_elem?, ◌++◌, ◌≢◌, not, arith, Bool-cases, inl, ◌&&◌, alter, inr, Option-cases,
  subst, sym,
}
use stellances.Frontend.Wallet.{
  Page, Probe, PageEvent, FreighterAnswer, BalanceAnswer, is_status, idle, connected, start,
  presses_connect, address, cancel, disconnected, installed, failed, mounts, presses_disconnect,
  presses_refresh, probe_answered, connect_answered, balance_answered, disconnect, set_store,
  set_status, WalletState, set_loading_balance,
}
use stellances.Frontend.Hook.{
  step, steps, probe_answer, probe_goes_on, balance_arrived, fetch_balance, connect_answer,
  balance_answer, remove_at, refresh_balance, read_address,
}

-- a run that is cleaned up, or still waits for `isConnected` while the status is idle
abbrev settled : Bool → Probe → Bool
settled b q = q.cancelled || not q.reading && b

-- no one has pressed the button, and no run of the effect can go on to connect
record Unconnected (p : Page) : Type 0 where
  runs : every (settled (is_status p.store.status idle)) p.probes ≡ true
  no_connects : p.connects ≡ []
  no_key : p.store.public_key ≡ none
  apart : is_status p.store.status connected ≡ false

every-get :
    {A : Type 0} (t : A → Bool) (xs : List A) (i : ℕ) (x : A)
    → every t xs ≡ true
    → get_elem? xs i ≡ some x
    → t x ≡ true
every-get t [] i x h e = absurd (ground arith)
every-get t (y ∷ xs) zero x h e = ground arith
every-get t (y ∷ xs) (suc i) x h e = every-get t xs i x (ground arith) e

every-remove_at :
    {A : Type 0} (t : A → Bool) (xs : List A) (i : ℕ)
    → every t xs ≡ true
    → every t (remove_at i xs) ≡ true
every-remove_at t [] i h = refl
every-remove_at t (y ∷ xs) zero h = ground arith
every-remove_at t (y ∷ xs) (suc i) h = ground (arith, every-remove_at t xs i)

every-append :
    {A : Type 0} (t : A → Bool) (xs : List A) (x : A)
    → every t xs ≡ true
    → t x ≡ true
    → every t (xs ++ x ∷ []) ≡ true
every-append t [] x h e = ground arith
every-append t (y ∷ xs) x h e = ground (arith, every-append t xs x)

every-cancel : (b : Bool) (ps : List Probe) → every (settled b) (map cancel ps) ≡ true
every-cancel b [] = refl
every-cancel b (q ∷ ps) = ground (arith, every-cancel b ps)

-- A new store that keeps the key away and is not connected.
set_store-Unconnected :
    (s : WalletState) (p : Page)
    → Unconnected p
    → s.public_key ≡ none
    → is_status s.status connected ≡ false
    → Unconnected (set_store s p)
set_store-Unconnected s p u k n = elim (Bool-cases (is_status s.status p.store.status)) [
  | inl e ↦ record {
    runs = ground (arith, u.runs);
    no_connects = u.no_connects;
    no_key = k;
    apart = n;
  }
  | inr e ↦ record {
    runs = ground (arith, every-cancel (is_status s.status idle) p.probes);
    no_connects = u.no_connects;
    no_key = k;
    apart = n;
  }
]

probe_goes_on-Unconnected :
    (i : ℕ) (a : FreighterAnswer) (p : Page)
    → Unconnected p
    → is_status p.store.status idle ≡ true
    → Unconnected (probe_goes_on i false a p)
unfolding probe_goes_on
probe_goes_on-Unconnected i (installed false) p u h =
    set_store-Unconnected (set_status disconnected p.store)
      (record p { probes = remove_at i p.probes })
      (record {
        runs = every-remove_at _ p.probes i u.runs;
        no_connects = u.no_connects;
        no_key = u.no_key;
        apart = u.apart;
      })
      u.no_key refl
probe_goes_on-Unconnected i (installed true) p u h = record {
  runs = ground (arith, every-cancel false (alter i read_address p.probes), h);
  no_connects = u.no_connects;
  no_key = u.no_key;
  apart = refl;
}
probe_goes_on-Unconnected i (address key) p u h = u
probe_goes_on-Unconnected i (failed msg) p u h =
    set_store-Unconnected (set_status disconnected p.store)
      (record p { probes = remove_at i p.probes })
      (record {
        runs = every-remove_at _ p.probes i u.runs;
        no_connects = u.no_connects;
        no_key = u.no_key;
        apart = u.apart;
      })
      u.no_key refl

probe_answer-Unconnected :
    (i : ℕ) (a : FreighterAnswer) (p : Page) (o : Option Probe)
    → Unconnected p
    → get_elem? p.probes i ≡ o
    → Unconnected (probe_answer i a p o)
unfolding probe_answer
probe_answer-Unconnected i a p none u e = u
probe_answer-Unconnected i a p (some q) u e =
    let s : settled (is_status p.store.status idle) q ≡ true = every-get _ p.probes i q u.runs e in
    elim (Bool-cases q.cancelled) [
      | inl c ↦ rw c (record {
        runs = every-remove_at _ p.probes i u.runs;
        no_connects = u.no_connects;
        no_key = u.no_key;
        apart = u.apart;
      })
      | inr c ↦
          let r : q.reading ≡ false = ground (arith, s) in
          let h : is_status p.store.status idle ≡ true = ground (arith, s) in
          rw (c, r) (probe_goes_on-Unconnected i a p u h)
    ]

-- an event that is not the button
abbrev pub is_quiet : PageEvent → Bool
is_quiet presses_connect = false
is_quiet _ = true

balance_arrived-Unconnected :
    (a : BalanceAnswer) (p : Page) → Unconnected p → Unconnected (balance_arrived a p)
unfolding balance_arrived
balance_arrived-Unconnected a p u = set_store-Unconnected _ p u u.no_key u.apart

fetch_balance-Unconnected :
    (key : String) (p : Page) → Unconnected p → Unconnected (fetch_balance key p)
unfolding fetch_balance
fetch_balance-Unconnected key p u =
    let v = set_store-Unconnected (set_loading_balance true p.store) p u u.no_key u.apart in
    record { runs = v.runs; no_connects = v.no_connects; no_key = v.no_key; apart = v.apart }

step-Unconnected :
    (e : PageEvent) (p : Page) → is_quiet e ≡ true → Unconnected p → Unconnected (step e p)
unfolding step connect_answer balance_answer refresh_balance
step-Unconnected mounts p h u = elim (Bool-cases (is_status p.store.status idle)) [
  | inl e ↦ rw e (record {
    runs =
        every-append _ p.probes (record { reading = false; cancelled = false }) u.runs
          (ground (arith, e));
    no_connects = u.no_connects;
    no_key = u.no_key;
    apart = u.apart;
  })
  | inr e ↦ rw e u
]
step-Unconnected presses_connect p h u = absurd (cc h)
step-Unconnected presses_disconnect p h u = set_store-Unconnected (disconnect p.store) p u refl refl
step-Unconnected presses_refresh p h u =
    subst (λ o. Unconnected (refresh_balance (truthy o) p)) (sym u.no_key) u
step-Unconnected (probe_answered i a) p h u = probe_answer-Unconnected i a p _ u refl
step-Unconnected (connect_answered i a) p h u =
    subst (λ o. Unconnected (connect_answer i a p (get_elem? o i))) (sym u.no_connects) u
step-Unconnected (balance_answered i a) p h u = elim (Option-cases (get_elem? p.fetches i)) [
  | inl e ↦ rw e u
  | inr (key, e) ↦ rw e (
      balance_arrived-Unconnected a (record p { fetches = remove_at i p.fetches })
        (record { runs = u.runs; no_connects = u.no_connects; no_key = u.no_key; apart = u.apart }))
]

steps-Unconnected :
    (es : List PageEvent) (p : Page)
    → every is_quiet es ≡ true
    → Unconnected p
    → Unconnected (steps es p)
unfolding steps
steps-Unconnected [] p h u = u
steps-Unconnected (e ∷ es) p h u =
    steps-Unconnected es (step e p) (ground arith) (step-Unconnected e p (ground arith) u)

-- The finding about useStellarWallet: the effect that is to restore a connection silently never does.
-- Whatever Freighter answers, and however many components use the hook, a page on which no one presses
-- the button is never connected and has no key. The effect sets the status to `checking` before it asks
-- for the address; it depends on the status, so its cleanup cancels the run that asked.
pub never_reconnects :
    (es : List PageEvent)
    → every is_quiet es ≡ true
    → ((steps es start).store.status ≢ connected) × ((steps es start).store.public_key ≡ none)
never_reconnects es h =
    let u =
      steps-Unconnected es start h
        (record { runs = refl; no_connects = refl; no_key = refl; apart = refl }) in
    (λ e. ground (arith, u.apart, e), u.no_key)
