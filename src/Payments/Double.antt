-- ===== src/Payments/Double.antt =====
-- `parseFloat` of a decimal, and `toFixed(7)`: the doubles of the language, those that are not below 0.
use stellances.Base.{
  zero, suc, none, some, true, false, ℕ, Bool, Option, ◌*◌, ◌+◌, ◌/◌, ◌%◌, ◌^◌, leb, ltb, nat_eq,
  if◌then◌else◌,
}

-- `m * 2 ^ t / 2 ^ s`, or Infinity
pub data Double : Type 0 where
  finite : (m s t : ℕ) → Double
  infinite : Double

-- the whole number nearest to `a / b`, the even one of two
unfoldable pub half_even : ℕ → ℕ → ℕ
half_even a b =
    if ltb (2 * (a % b)) b
    then a / b
    else if ltb b (2 * (a % b))
    then a / b + 1
    else a / b + a / b % 2

-- how often `a / b` is doubled until it has 53 binary digits, at most as often as there is fuel
unfoldable pub doublings : ℕ → ℕ → ℕ → ℕ
doublings zero a b = 0
doublings (suc f) a b = elim (leb (4503599627370496 * b) a) [
  | true ↦ 0
  | false ↦ suc (doublings f (a * 2) b)
]

-- how often `a / b` is halved until it has no more than 53
unfoldable pub halvings : ℕ → ℕ → ℕ → Option ℕ
halvings zero a b = if ltb a (9007199254740992 * b) then some 0 else none
halvings (suc f) a b = elim (ltb a (9007199254740992 * b)) [
  | true ↦ some 0
  | false ↦ elim (halvings f a (b * 2)) [ none ↦ none | some t ↦ some (suc t) ]
]

-- what rounding makes too large
abbrev or_infinite : ℕ → ℕ → Double
or_infinite m t = if leb (2 ^ 1024) (m * 2 ^ t) then infinite else finite m 0 t

-- The double nearest to `a / b`, by whether that is below 2 ^ 53. The exponents of a double end at -1074
-- and 971, which is the fuel.
unfoldable pub nearest_to : Bool → ℕ → ℕ → Double
unfolding half_even doublings halvings
nearest_to true a b = let s = doublings 1074 a b in finite (half_even (a * 2 ^ s) b) s 0
nearest_to false a b = elim (halvings 971 a b) [
  | none ↦ infinite
  | some t ↦ or_infinite (half_even a (b * 2 ^ t)) t
]

-- `parseFloat` of a decimal, given by its digits and how many of them are after the point
unfoldable pub double_of : ℕ × ℕ → Double
unfolding nearest_to
double_of d = nearest_to (ltb d.0 (9007199254740992 * 10 ^ d.1)) d.0 (10 ^ d.1)

abbrev pub is_zero : Double → Bool
is_zero (finite m s t) = nat_eq m 0
is_zero infinite = false

-- `toFixed(7)` as a count of stroops: the nearest, and the larger of two. From 10 ^ 21 on, the text
-- has an exponent or is Infinity, and is none.
unfoldable pub fixed_7 : Double → Option ℕ
fixed_7 infinite = none
fixed_7 (finite m s t) =
    if leb (1000000000000000000000 * 2 ^ s) (m * 2 ^ t)
    then none
    else some ((m * 2 ^ t * 10000000 * 2 + 2 ^ s) / (2 * 2 ^ s))
