-- ===== src/Http/Validation.antt =====
-- What the ValidationPipe lets through: the decorators of the DTOs. A body comes with its fields of
-- their types, its enums among them, and without others; a number comes as a decimal.
use stellances.Schema.{Number, decimal_7}
use native.Mathlib.Nat.{mod-eq_of_lt, mod-lt, div-add-mod, mul-zero, one-le-pow}
use stellances.World.Action.{Action, throw, bad_request}
use stellances.Auth.{RegisterDto}
use stellances.Contracts.Disputes.{ResolveDisputeDto}
use stellances.Jobs.{UpdateJobDto, CreateJobDto}
use stellances.Users.{ProfileData}
use stellances.Payments.Withdraw.{parse_amount}
use Prim.Native.Char.{Char, code}
use Prim.Native.String.{count}
use stellances.Base.{
  is_empty, ◌&&◌, none, some, true, false, String, Bool, ℕ, Option, nat_eq, leb, not, ◌||◌,
  if◌then◌else◌, length, every, ◌≡◌, arith, ◌≤◌, ◌*◌, ◌%◌, ◌^◌, ◌+◌, Bool-cases, ◌/◌, ltb, ◌<◌, inl,
  inr, ap, ◌∙◌,
}
use stellances.Contracts.Create.{MilestoneInput, CreateContractDto}
use stellances.Http.{Framework}

abbrev optional {ℓ} : {A : Type ℓ} → (A → Bool) → Option A → Bool
optional p none = true
optional p (some a) = p a

-- `@IsNotEmpty() @MaxLength(n)`
abbrev short_text : ℕ → String → Bool
short_text n s = not (is_empty s) && leb (count s) n

-- `@IsPositive()`
abbrev is_positive : Number → Bool
is_positive n = leb 1 n.0

-- `@IsNumber({ maxDecimalPlaces: 7 })`
abbrev seven_places : Number → Bool
seven_places n = nat_eq (n.0 * 10000000 % 10 ^ n.1) 0

-- both
unfoldable pub valid_number : Number → Bool
valid_number n = seven_places n && is_positive n

-- `[A-Z2-7]`
abbrev is_base32 : Char → Bool
is_base32 c = leb 65 (code c) && leb (code c) 90 || leb 50 (code c) && leb (code c) 55

unfoldable pub all_base32 : String → Bool
all_base32 String.[] = true
all_base32 (String.◌∷◌ c s) = let rest = all_base32 s in is_base32 c && rest

-- `/^G[A-Z2-7]{55}$/`
unfoldable pub is_public_key : String → Bool
unfolding all_base32
is_public_key String.[] = false
is_public_key (String.◌∷◌ c s) = nat_eq (code c) 71 && nat_eq (count s) 55 && all_base32 s

-- RegisterDto
unfoldable pub valid_register : Framework → RegisterDto → Bool
valid_register fw dto =
    fw.is_email dto.email && leb 6 (count dto.password) && not (is_empty dto.name)

-- UpdateProfileDto
unfoldable pub valid_profile : ProfileData → Bool
unfolding is_public_key
valid_profile dto =
    optional (λ s. leb (count s) 100) dto.name && optional is_public_key dto.stellar_public_key

-- CreateJobDto
unfoldable pub valid_job : CreateJobDto → Bool
valid_job dto =
    short_text 200 dto.title
    && not (is_empty dto.description)
    && valid_number dto.budget
    && short_text 100 dto.category

-- UpdateJobDto
unfoldable pub valid_job_update : UpdateJobDto → Bool
valid_job_update dto =
    optional (short_text 200) dto.title
    && optional (λ s. not (is_empty s)) dto.description
    && optional valid_number dto.budget
    && optional (short_text 100) dto.category

-- MilestoneInputDto
unfoldable pub valid_milestone : MilestoneInput → Bool
valid_milestone m = short_text 200 m.title && valid_number m.amount

-- CreateContractDto
unfoldable pub valid_contract : Framework → CreateContractDto → Bool
unfolding valid_milestone
valid_contract fw dto =
    fw.is_uuid dto.job_id
    && fw.is_uuid dto.freelancer_id
    && leb 1 (length dto.milestones)
    && every valid_milestone dto.milestones

-- ConfirmFundDto and DisputeDto
abbrev pub valid_text : String → Bool
valid_text s = not (is_empty s)

-- ResolveDisputeDto
unfoldable pub valid_resolution : ResolveDisputeDto → Bool
valid_resolution dto = not (is_empty dto.decision) && optional (λ n. leb n 10000) dto.freelancer_bps

-- `/^\d+(\.\d+)?$/`
abbrev is_decimal : String → Bool
is_decimal s = elim (parse_amount s) [ none ↦ false | some _ ↦ true ]

-- WithdrawDto
unfoldable pub valid_withdrawal : String → String → Bool
unfolding is_public_key parse_amount
valid_withdrawal amount destination = is_decimal amount && is_public_key destination

-- a body that does not pass is a 400
abbrev pub checked {ℓ} : {A : Type ℓ} → Bool → Action A → Action A
checked valid handler = if valid then handler else throw (bad_request "Bad Request")

multiple_le : (x p : ℕ) → 1 ≤ x → x % p ≡ 0 → p ≤ x
multiple_le x p a e = elim (Bool-cases (ltb x p)) [
  | inl h ↦ let k : x % p ≡ x = mod-eq_of_lt (ground (arith, h)) in absurd (omega (arith, a, e, k))
  | inr h ↦ ground (arith, h)
]

-- what is rounded is at least 1
half_up-pos : (x p : ℕ) → 1 ≤ p → p ≤ x → 1 ≤ (x * 2 + p) / (2 * p)
half_up-pos x p a h =
    let d = 2 * p in
    let f : d * ((x * 2 + p) / d) + (x * 2 + p) % d ≡ x * 2 + p = div-add-mod (x * 2 + p) d in
    let l : (x * 2 + p) % d < d = mod-lt (x * 2 + p) (omega (arith, a)) in
    elim (Bool-cases (leb 1 ((x * 2 + p) / d))) [
      | inl e ↦ ground (arith, e)
      | inr e ↦
          let q : (x * 2 + p) / d ≡ 0 = ground (arith, e) in
          let z : d * ((x * 2 + p) / d) ≡ 0 = ap (λ (k : ℕ). d * k) q ∙ mul-zero d in
          absurd (omega (arith, f, l, z, h))
    ]

-- a number that passes is not stored as 0
pub valid_number-stored : (n : Number) → valid_number n ≡ true → leb 1 (decimal_7 n) ≡ true
unfolding valid_number decimal_7
valid_number-stored n h =
    let p = 10 ^ n.1 in
    let one_le : 1 ≤ p = one-le-pow n.1 10 (omega arith) in
    let whole : n.0 * 10000000 % p ≡ 0 = ground (arith, h) in
    let above : 1 ≤ n.0 * 10000000 = ground (arith, h) in
    let k = half_up-pos (n.0 * 10000000) p one_le (multiple_le (n.0 * 10000000) p above whole) in
    ground (arith, k)

pub valid_job-budget :
    (dto : CreateJobDto) → valid_job dto ≡ true → leb 1 (decimal_7 dto.budget) ≡ true
unfolding valid_job
valid_job-budget dto h = valid_number-stored dto.budget (ground arith)

pub valid_milestone-amount :
    (m : MilestoneInput) → valid_milestone m ≡ true → leb 1 (decimal_7 m.amount) ≡ true
unfolding valid_milestone
valid_milestone-amount m h = valid_number-stored m.amount (ground arith)

pub valid_contract-milestones :
    (fw : Framework) (dto : CreateContractDto)
    → valid_contract fw dto ≡ true
    → every valid_milestone dto.milestones ≡ true
unfolding valid_contract
valid_contract-milestones fw dto h = ground arith
