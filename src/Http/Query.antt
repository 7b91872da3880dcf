-- ===== src/Http/Query.antt =====
-- The texts of a query, as the controllers read them: `trim`, `parseInt` and `parseFloat`. White space
-- is that of ASCII, and an exponent is not read.
use stellances.World.Action.{Result, truthy, ok, err, sdk_error}
use Prim.Native.Char.{code}
use stellances.Base.{
  is_empty, ◌&&◌, suc, none, some, true, false, ℕ, Option, String, Bool, if◌then◌else◌, ◌*◌, ◌||◌,
  ◌+◌, nat_eq, ◌/◌, ◌^◌, ◌-◌,
}
use stellances.Auth.{is_space, is_digit, starts_with_digit, digits_from, after_digits}

-- `trimStart`
unfoldable pub trim_start : String → String
trim_start String.[] = String.[]
trim_start (String.◌∷◌ c s) = let rest = trim_start s in if is_space c then rest else String.◌∷◌ c s

-- `trimEnd`
unfoldable pub trim_end : String → String
trim_end String.[] = String.[]
trim_end (String.◌∷◌ c s) =
    let rest = trim_end s in if is_space c && is_empty rest then String.[] else String.◌∷◌ c rest

-- `search?.trim() || undefined`
unfoldable pub search_of : Option String → Option String
unfolding trim_start trim_end
search_of none = none
search_of (some s) = truthy (some (trim_end (trim_start s)))

-- a sign: whether it is a minus, and what follows it
abbrev split_sign : String → Bool × String
split_sign String.[] = (false, String.[])
split_sign (String.◌∷◌ c s) =
    if nat_eq (code c) 45
    then (true, s)
    else if nat_eq (code c) 43
    then (false, s)
    else (false, String.◌∷◌ c s)

-- a number with its sign, those below 0 as 0
abbrev at_least_0 : Bool → ℕ → ℕ
at_least_0 true n = 0
at_least_0 false n = n

-- `parseInt(s, 10)`, `none` for NaN; a number below 0 is 0, which is as good for a page
unfoldable pub parse_int : String → Option ℕ
unfolding trim_start digits_from
parse_int s =
    let (minus, t) = split_sign (trim_start s) in
    if starts_with_digit t then some (at_least_0 minus (digits_from 0 t)) else none

-- `page ? parseInt(page, 10) : undefined`: the database client throws on NaN
unfoldable pub page_query : Option String → Result (Option ℕ)
unfolding parse_int
page_query text = elim (truthy text) [
  | none ↦ ok none
  | some s ↦ elim (parse_int s) [ none ↦ err sdk_error | some n ↦ ok (some n) ]
]

-- the digits after the point, if there is a point
abbrev fraction_of : String → String
fraction_of String.[] = String.[]
fraction_of (String.◌∷◌ c s) = if nat_eq (code c) 46 then s else String.[]

-- the number of digits that a text begins with
unfoldable pub count_digits : String → ℕ
count_digits String.[] = 0
count_digits (String.◌∷◌ c s) = let rest = count_digits s in if is_digit c then suc rest else 0

-- `parseFloat` of a text without an exponent, `none` for NaN: whether it is below 0, its digits and how
-- many of them are after the point
unfoldable pub parse_float : String → Option (Bool × (ℕ × ℕ))
unfolding trim_start digits_from after_digits count_digits
parse_float s =
    let (minus, t) = split_sign (trim_start s) in
    let after = fraction_of (after_digits t) in
    if starts_with_digit t || starts_with_digit after
    then some (minus, (digits_from (digits_from 0 t) after, count_digits after))
    else none

-- the stroops that a decimal is at least, and those that it is at most
abbrev floor_stroops : ℕ × ℕ → ℕ
floor_stroops d = d.0 * 10000000 / 10 ^ d.1

abbrev ceil_stroops : ℕ × ℕ → ℕ
ceil_stroops d = (d.0 * 10000000 + (10 ^ d.1 - 1)) / 10 ^ d.1

-- `minBudget ? parseFloat(minBudget) : undefined`. A budget is a whole number of stroops that is above
-- 0, so a bound below 0 is the same as 0.
unfoldable pub min_budget_query : Option String → Result (Option ℕ)
unfolding parse_float
min_budget_query text = elim (truthy text) [
  | none ↦ ok none
  | some s ↦ elim (parse_float s) [
    | none ↦ err sdk_error
    | some (minus, d) ↦ ok (some (at_least_0 minus (ceil_stroops d)))
  ]
]

unfoldable pub max_budget_query : Option String → Result (Option ℕ)
unfolding parse_float
max_budget_query text = elim (truthy text) [
  | none ↦ ok none
  | some s ↦ elim (parse_float s) [
    | none ↦ err sdk_error
    | some (minus, d) ↦ ok (some (at_least_0 minus (floor_stroops d)))
  ]
]
