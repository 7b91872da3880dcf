-- ===== src/Base/Decimal.antt =====
-- Decimal text of numbers: template interpolation of an integer, and `toFixed` of an amount that is
-- held as a count of stroops.
use Prim.Native.Nat.{ℕ, zero, suc, ◌+◌, ◌/◌, ◌%◌}
use Prim.Native.String.{String}
use mathlib.Core.Path.{◌≡◌, refl}
use mathlib.Core.Option.{none, some}
use mathlib.Core.List.{List, [], ◌∷◌}
use stellances.Base.Booleans.{◌<>◌, nat_eq, if◌then◌else◌}
use stellances.Base.Lists.{get_elem?}

abbrev digit_texts : List String
digit_texts = "0" ∷ "1" ∷ "2" ∷ "3" ∷ "4" ∷ "5" ∷ "6" ∷ "7" ∷ "8" ∷ "9" ∷ []

abbrev pub digit : ℕ → String
digit d = elim (get_elem? digit_texts d) [ none ↦ "" | some s ↦ s ]

-- the digits of a number in front of `acc`, on fuel
unfoldable pub show_from : ℕ → ℕ → String → String
show_from zero n acc = acc
show_from (suc f) n acc =
    let more = show_from f (n / 10) (digit (n % 10) <> acc) in
    if nat_eq (n / 10) 0 then digit (n % 10) <> acc else more

-- A number has fewer digits than `suc n`.
unfoldable pub show : ℕ → String
unfolding show_from
show n = show_from (suc n) n ""

-- the last `k` digits, with leading zeros
unfoldable pub padded : ℕ → ℕ → String
padded zero n = ""
padded (suc k) n = padded k (n / 10) <> digit (n % 10)

-- `toFixed(7)` of an amount of stroops
unfoldable pub to_fixed_7 : ℕ → String
unfolding show padded
to_fixed_7 v = show (v / 10000000) <> "." <> padded 7 v

-- `toFixed(2)`: rounded to the nearest hundredth
unfoldable pub to_fixed_2 : ℕ → String
unfolding show padded
to_fixed_2 v = let c = (v + 50000) / 100000 in show (c / 100) <> "." <> padded 2 c

shown : to_fixed_2 4000000000 ≡ "400.00"
unfolding to_fixed_2
shown = refl

shown_7 : to_fixed_7 12345 ≡ "0.0012345"
unfolding to_fixed_7
shown_7 = refl
