-- ===== src/Frontend/Tests.antt =====
-- The theorems on the frontend, at the demo deployment.
use stellances.Frontend.Mine.{Own, works_on, fetch_contracts-Own}
use stellances.Frontend.Login.{safe_next_url}
use stellances.Frontend.Contracts.{fetch_contracts}
use stellances.Frontend.Redirect.{Target, behind_backslash, safe_next_url_lem}
use stellances.Table.{find, select}
use stellances.Frontend.Text.{includes_by, includes}
use stellances.Auth.{digits_from, after_digits}
use stellances.Http.Query.{parse_float, trim_start, trim_end, count_digits}
use stellances.Base.{
  refl, none, some, true, [], ◌∷◌, ◌≡◌, ◌==◌, ◌≢◌, All, List, take, get_elem?, show, padded, false,
}
use stellances.Demo.{
  demo, demo_env, demo_crypto, demo_horizon, the_job, demo_db, first_payment, the_contract, user,
}
use stellances.Schema.{UserRole, JobStatus, Contract, user_key}
use stellances.World.{World}
use stellances.World.Action.{ok}
use stellances.Http.{Server, Identity}
use stellances.Payments.{TransactionType, get_transactions, transaction_of, Asset}
use stellances.Frontend.Format.{
  is_negative, truncate_hash, format_balance, format_tx_amount, to_locale, grouped_from,
  without_sign,
}
use stellances.Frontend.Wallet.{
  Page, PageEvent, start, mounts, probe_answered, installed, address, connected, presses_connect,
  connect_answered, failed, disconnected, initial, presses_disconnect,
}
use stellances.Frontend.Hook.{steps, step}
use stellances.Frontend.Reconnect.{never_reconnects}
use stellances.Frontend.Connects.{connect_ok, granted, in_use}
use stellances.Frontend.Jobs.{
  Criteria, fetch_jobs, filter_jobs, total_pages, shows, has_keyword, in_range, budget_ranges,
}
use stellances.Frontend.Browse.{browse_ok, open_only, open_jobs, all_pages}
use stellances.Frontend.History.{amount_color, success, filtered}
use stellances.Frontend.Credits.{history_shown_as_income, of_type}

-- two components on a page, and Freighter, which would give the key
abbrev a_visit : List PageEvent
a_visit =
    mounts
    ∷ mounts
    ∷ probe_answered 0 (installed true)
    ∷ probe_answered 0 (address (some "GCAROL"))
    ∷ probe_answered 0 (address (some "GCAROL"))
    ∷ []

never_reconnects_example :
    ((steps a_visit start).store.status ≢ connected)
    × ((steps a_visit start).store.public_key ≡ none)
never_reconnects_example = never_reconnects a_visit refl

-- a page on which the user has declined once
abbrev declined : Page
declined = steps (presses_connect ∷ connect_answered 0 (failed "User declined access") ∷ []) start

connect_ok_example :
    ((steps (granted "GCAROL" "12.5") declined).store ≡ in_use "GCAROL" "12.5")
    × ((steps (granted "GCAROL" "12.5") declined).connects ≡ [])
    × ((steps (granted "GCAROL" "12.5") declined).fetches ≡ [])
    × ((step presses_disconnect (steps (granted "GCAROL" "12.5") declined)).store
        ≡ record initial { status = disconnected })
unfolding steps
connect_ok_example = connect_ok declined "GCAROL" "12.5" refl refl refl

abbrev no_server : Server
no_server = record {
  env = demo_env;
  crypto = demo_crypto;
  horizon = demo_horizon;
  framework = record { verify = λ i t. none; is_email = λ s. true; is_uuid = λ s. true };
  contains = λ s t. s == t;
}

abbrev carol : Identity
carol = record { id = "carol"; email = "carol@example.org"; role = UserRole.client }

abbrev advertised : World
advertised = record demo {
  db = record demo_db { jobs = record the_job { status = JobStatus.open_job } ∷ demo_db.jobs };
}

abbrev any_job : Criteria
any_job = record { keyword = "  "; category = ""; budget_range = none }

browse_ok_example :
    (fetch_jobs no_server carol open_only advertised
      ≡ (ok (take 100 (open_jobs advertised)), advertised))
    × (all_pages
          (total_pages (filter_jobs (take 100 (open_jobs advertised)) any_job))
          (filter_jobs (take 100 (open_jobs advertised)) any_job)
        ≡ filter_jobs (take 100 (open_jobs advertised)) any_job)
browse_ok_example = browse_ok no_server carol advertised any_job

history_shown_as_income_example :
    All (λ tx. amount_color tx ≡ success) (get_transactions "carol" demo)
    × (is_negative (transaction_of "carol" demo.db first_payment the_contract).amount ≡ true)
    × (filtered (of_type TransactionType.refund) (get_transactions "carol" demo) ≡ [])
history_shown_as_income_example =
    history_shown_as_income "carol" demo first_payment the_contract TransactionType.refund refl refl

large_balance : format_balance "1234567.12345" Asset.xlm ≡ "1,234,567.1235"
unfolding format_balance to_locale parse_float digits_from after_digits count_digits trim_start
    grouped_from show padded
large_balance = refl

paid_out : format_tx_amount "-60.5000000" Asset.xlm ≡ "−60.50 XLM"
unfolding format_tx_amount to_locale parse_float digits_from after_digits count_digits trim_start
    grouped_from show without_sign padded
paid_out = refl

short_hash : truncate_hash "0123456789abcdef" 6 ≡ "012345…abcdef"
unfolding truncate_hash
short_hash = refl

cheap_job :
    filter_jobs demo_db.jobs
      (record { keyword = " lOGo A l"; category = ""; budget_range = get_elem? budget_ranges 0 })
    ≡ demo_db.jobs
unfolding shows has_keyword in_range trim_start trim_end includes_by
cheap_job = refl

evil-NoScheme : includes "evil.example/login" "://" ≡ false
unfolding includes_by
evil-NoScheme = refl

safe_next_url_lem_example :
    Target (some "//evil.example") "/jobs" (safe_next_url (some "//evil.example") "/jobs")
    × (safe_next_url (some (behind_backslash "evil.example/login")) "/jobs"
        ≡ behind_backslash "evil.example/login")
safe_next_url_lem_example =
    safe_next_url_lem (some "//evil.example") "/jobs" "evil.example/login" evil-NoScheme

abbrev frank : Identity
frank = record { id = "frank"; email = "frank@example.org"; role = UserRole.freelancer }

frank_found : find user_key "frank" demo.db.users ≡ some (user "frank" UserRole.freelancer)
unfolding ◌==◌
frank_found = refl

fetch_contracts-Own_example :
    (cs : List Contract) × (fetch_contracts frank none demo ≡ (ok cs, demo))
    × All (Own demo.db (user "frank" UserRole.freelancer)) cs
    × (select (works_on "frank") cs ≡ [])
fetch_contracts-Own_example =
    fetch_contracts-Own frank demo (user "frank" UserRole.freelancer) (λ e. absurd (cc e)) refl
      frank_found
