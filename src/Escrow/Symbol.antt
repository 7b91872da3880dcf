-- ===== src/Escrow/Symbol.antt =====
-- `contractIdToSymbol` as a key on the chain.
use stellances.Base.{
  refl, ℕ, String, ◌≤◌, ◌≡◌, Bool, ◌-◌, arith, if◌then◌else◌, nat_eq, ◌||◌, ◌+◌, ltb,
}
use Prim.Native.Char.{code}
use Prim.Native.String.{count}
use Prim.Native.String.count
use text.Mathlib.TextEquality.{Char-path}
use stellances.Escrow.{contract_id_to_symbol}

-- the places of the hyphens in a UUID, `8-4-4-4-12`
abbrev is_gap : ℕ → Bool
is_gap p = nat_eq p 8 || nat_eq p 13 || nat_eq p 18 || nat_eq p 23

-- From place `p` on the text is that of a UUID: a hyphen at the gaps and nowhere else, up to 36.
abbrev IsUuidFrom : ℕ → String → Type 0
IsUuidFrom p String.[] = p ≡ 36
IsUuidFrom p (String.◌∷◌ c s) = (nat_eq (code c) 45 ≡ is_gap p) × IsUuidFrom (p + 1) s

abbrev pub IsUuid : String → Type 0
IsUuid s = IsUuidFrom 0 s

-- how many of the places from `p` on hold no hyphen
abbrev digits_from : ℕ → ℕ
digits_from p =
    36
    - p
    - ((if ltb 8 p then 0 else 1)
        + (if ltb 13 p then 0 else 1)
        + (if ltb 18 p then 0 else 1)
        + (if ltb 23 p then 0 else 1))

IsUuidFrom-le : (p : ℕ) (s : String) → IsUuidFrom p s → p ≤ 36
IsUuidFrom-le p String.[] h = omega arith
IsUuidFrom-le p (String.◌∷◌ c s) h = omega (arith, IsUuidFrom-le (p + 1) s h.1)

count_from : (p : ℕ) (s : String) → IsUuidFrom p s → count (contract_id_to_symbol s) ≡ digits_from p
unfolding contract_id_to_symbol
count_from p String.[] h = ground (arith, count.nil)
count_from p (String.◌∷◌ c s) h = ground (
  arith,
  count_from (p + 1) s h.1,
  count.cons c (contract_id_to_symbol s),
  IsUuidFrom-le (p + 1) s h.1,
)

injective_from :
    (p : ℕ) (s t : String)
    → IsUuidFrom p s
    → IsUuidFrom p t
    → contract_id_to_symbol s ≡ contract_id_to_symbol t
    → s ≡ t
unfolding contract_id_to_symbol
injective_from p String.[] String.[] h k e = refl
injective_from p String.[] (String.◌∷◌ d t) h k e =
    absurd (omega (arith, IsUuidFrom-le (p + 1) t k.1))
injective_from p (String.◌∷◌ c s) String.[] h k e =
    absurd (omega (arith, IsUuidFrom-le (p + 1) s h.1))
injective_from p (String.◌∷◌ c s) (String.◌∷◌ d t) h k e =
    ground (arith, injective_from (p + 1) s t h.1 k.1, Char-path c d)

-- A UUID has hyphens at the places 8, 13, 18 and 23 and nowhere else, and 36 characters. Without
-- its hyphens it has 32 characters, the most that a Soroban symbol may have.
pub count-contract_id_to_symbol : (s : String) → IsUuid s → count (contract_id_to_symbol s) ≡ 32
count-contract_id_to_symbol s h = count_from 0 s h

-- Two contracts whose ids are UUIDs never share a key on the chain.
pub contract_id_to_symbol_injective :
    (s t : String) → IsUuid s → IsUuid t → contract_id_to_symbol s ≡ contract_id_to_symbol t → s ≡ t
contract_id_to_symbol_injective s t h k e = injective_from 0 s t h k e
