-- ===== src/Frontend/Format.antt =====
-- The amounts and hashes that stellance/frontend/lib/api/payments.ts prints. `toLocaleString` rounds a
-- half up and puts commas between the thousands.
use Prim.Native.String.{slice, count}
use Prim.Native.Char.{Char, code}
use stellances.Http.Query.{parse_float}
use stellances.Payments.{Asset, Network}
use stellances.Base.{
  show, padded, ◌^◌, ◌%◌, ◌/◌, zero, suc, none, some, false, Bool, ℕ, String, ◌*◌, ◌<>◌,
  if◌then◌else◌, nat_eq, ◌||◌, ltb, ◌+◌, leb, ◌-◌,
}

-- the integer part with commas, on fuel
unfoldable pub grouped_from : ℕ → ℕ → String
grouped_from zero n = show n
grouped_from (suc f) n =
    let more = grouped_from f (n / 1000) in
    if ltb n 1000 then show n else more <> "," <> padded 3 (n % 1000)

-- a number has fewer groups than its successor
abbrev pub grouped : ℕ → String
grouped n = grouped_from (suc n) n

-- a decimal in units of a ten-thousandth or a hundredth
abbrev rounded : ℕ → ℕ × ℕ → ℕ
rounded k d = (d.0 * 10 ^ k * 2 + 10 ^ d.1) / (2 * 10 ^ d.1)

-- two to four digits after the point
abbrev up_to_4 : ℕ → String
up_to_4 n =
    if nat_eq (n % 100) 0
    then padded 2 (n / 100)
    else if nat_eq (n % 10) 0
    then padded 3 (n / 10)
    else padded 4 n

-- `toLocaleString` with two to four digits, or with two
unfoldable pub to_locale : Asset → ℕ × ℕ → String
unfolding grouped_from
to_locale Asset.xlm d = let n = rounded 4 d in grouped (n / 10000) <> "." <> up_to_4 (n % 10000)
to_locale Asset.usdc d = let n = rounded 2 d in grouped (n / 100) <> "." <> padded 2 (n % 100)

-- `formatBalance`; the hook's formatXlm is the case of XLM
unfoldable pub format_balance : String → Asset → String
unfolding parse_float to_locale
format_balance balance asset = elim (parse_float balance) [
  | none ↦ balance
  | some (minus, d) ↦ (if minus then "-" else "") <> to_locale asset d
]

abbrev is_sign : Char → Bool
is_sign c = nat_eq (code c) 43 || nat_eq (code c) 45

-- `amount.replace(/[+-]/, "")`: without the first sign
unfoldable pub without_sign : String → String
without_sign String.[] = String.[]
without_sign (String.◌∷◌ c s) =
    let rest = without_sign s in if is_sign c then s else String.◌∷◌ c rest

-- `amount.startsWith("-")`
abbrev pub is_negative : String → Bool
is_negative String.[] = false
is_negative (String.◌∷◌ c s) = nat_eq (code c) 45

abbrev pub asset_name : Asset → String
asset_name Asset.xlm = "XLM"
asset_name Asset.usdc = "USDC"

-- `formatTxAmount`
unfoldable pub format_tx_amount : String → Asset → String
unfolding parse_float to_locale without_sign
format_tx_amount amount asset = elim (parse_float (without_sign amount)) [
  | none ↦ amount
  | some (minus, d) ↦
      (if is_negative amount then "−" else "+") <> to_locale asset d <> " " <> asset_name asset
]

-- `stellarExpertTxUrl`
unfoldable pub stellar_expert_tx_url : String → Network → String
stellar_expert_tx_url hash network =
    "https://stellar.expert/explorer/"
    <> elim network [ Network.mainnet ↦ "public" | Network.testnet ↦ "testnet" ]
    <> "/tx/"
    <> hash

-- `truncateHash`
unfoldable pub truncate_hash : String → ℕ → String
truncate_hash hash chars =
    if leb (count hash) (chars * 2 + 3)
    then hash
    else slice hash 0 chars <> "…" <> slice hash (count hash - chars) (count hash)
