-- ===== src/Payments/RoundTrip.antt =====
-- An amount that is printed with seven decimals, read by `withdraw`.
use stellances.Payments.Nearest.{fixed_7-double_of}
use stellances.Payments.Double.{Double, fixed_7, double_of}
use text.Mathlib.TextLemmas.{append_assoc, cons-append, nil-append, append-nil}
use Prim.Native.Char.{Char, code}
use stellances.Base.{
  show_from, show, padded, digit, to_fixed_7, zero, suc, ◌%◌, ◌<◌, refl, true, ℕ, Bool, String, ◌≡◌,
  ◌<>◌, ◌*◌, arith, ◌+◌, Bool-cases, nat_eq, ◌/◌, inl, inr, some, ap, ◌∙◌, false, sym,
}
use stellances.Payments.Withdraw.{fraction, number, parse_amount, amount_num}

-- a property of the ten digits
below_10 :
    (P : ℕ → Type 0)
    → P 0
    → P 1
    → P 2
    → P 3
    → P 4
    → P 5
    → P 6
    → P 7
    → P 8
    → P 9
    → (d : ℕ) → d < 10
    → P d
below_10 P a b c d e f g h i j n lt = get n lt
  where
    get : (n : ℕ) → n < 10 → P n
    get zero lt = a
    get (suc zero) lt = b
    get (suc (suc zero)) lt = c
    get (suc (suc (suc zero))) lt = d
    get (suc (suc (suc (suc zero)))) lt = e
    get (suc (suc (suc (suc (suc zero))))) lt = f
    get (suc (suc (suc (suc (suc (suc zero)))))) lt = g
    get (suc (suc (suc (suc (suc (suc (suc zero))))))) lt = h
    get (suc (suc (suc (suc (suc (suc (suc (suc zero)))))))) lt = i
    get (suc (suc (suc (suc (suc (suc (suc (suc (suc zero))))))))) lt = j
    get (suc (suc (suc (suc (suc (suc (suc (suc (suc (suc n)))))))))) lt =
        absurd (omega (arith, lt))

lead : (c : Char) (t : String) → String.◌∷◌ c String.[] <> t ≡ String.◌∷◌ c t
lead c t = cons-append c String.[] t ∙ ap (String.◌∷◌ c) (nil-append t)

-- the character of a digit
digit_char :
    (t : String) (d : ℕ) → d < 10 → (c : Char) × (digit d <> t ≡ String.◌∷◌ c t) × (code c ≡ d + 48)
digit_char t =
    below_10 (λ d. (c : Char) × (digit d <> t ≡ String.◌∷◌ c t) × (code c ≡ d + 48))
      ("0", lead "0" t, refl) ("1", lead "1" t, refl) ("2", lead "2" t, refl)
      ("3", lead "3" t, refl) ("4", lead "4" t, refl) ("5", lead "5" t, refl)
      ("6", lead "6" t, refl) ("7", lead "7" t, refl) ("8", lead "8" t, refl)
      ("9", lead "9" t, refl)

-- reading one more digit
number-digit :
    (n : ℕ) (seen : Bool) (t : String) (d : ℕ)
    → d < 10
    → number n seen (digit d <> t) ≡ number (n * 10 + d) true t
unfolding number
number-digit n seen t d h =
    let (c, e, k) = digit_char t d h in ap (number n seen) e ∙ grind (arith, k)

fraction-digit :
    (n k : ℕ) (t : String) (d : ℕ)
    → d < 10
    → fraction n k (digit d <> t) ≡ fraction (n * 10 + d) (suc k) t
unfolding fraction
fraction-digit n k t d h =
    let (c, e, x) = digit_char t d h in ap (fraction n k) e ∙ grind (arith, x)

-- reading a printed number
number-show_from :
    (f m : ℕ) (seen : Bool) (t : String) → m < f → number 0 seen (show_from f m t) ≡ number m true t
unfolding show_from
number-show_from zero m seen t h = absurd (omega (arith, h))
number-show_from (suc f) m seen t h = elim (Bool-cases (nat_eq (m / 10) 0)) [
  | inl e ↦ grind (arith, number-digit 0 seen t (m % 10) (omega arith))
  | inr e ↦ grind (
    arith,
    number-show_from f (m / 10) seen (digit (m % 10) <> t) (grind (arith, h)),
    number-digit (m / 10) true t (m % 10) (omega arith),
  )
]

-- the number that `a` and the last `k` digits of `n` make
abbrev followed : ℕ → ℕ → ℕ → ℕ
followed a zero n = a
followed a (suc k) n = followed a k (n / 10) * 10 + n % 10

-- reading printed digits after the point
fraction-padded :
    (a j k n : ℕ) (t : String)
    → fraction a j (padded k n <> t) ≡ fraction (followed a k n) (j + k) t
unfolding padded
fraction-padded a j zero n t = ap (fraction a j) (nil-append t) ∙ grind arith
fraction-padded a j (suc k) n t =
    ap (fraction a j) (append_assoc (padded k (n / 10)) (digit (n % 10)) t)
    ∙ fraction-padded a j k (n / 10) (digit (n % 10) <> t)
    ∙ fraction-digit (followed a k (n / 10)) (j + k) t (n % 10) (omega arith)
    ∙ grind arith

show_from-append : (f m : ℕ) (a t : String) → show_from f m a <> t ≡ show_from f m (a <> t)
unfolding show_from
show_from-append zero m a t = refl
show_from-append (suc f) m a t = elim (Bool-cases (nat_eq (m / 10) 0)) [
  | inl e ↦ grind (arith, append_assoc (digit (m % 10)) a t)
  | inr e ↦ grind (
    arith,
    show_from-append f (m / 10) (digit (m % 10) <> a) t,
    append_assoc (digit (m % 10)) a t,
  )
]

number-show : (m : ℕ) (t : String) → number 0 false (show m <> t) ≡ number m true t
unfolding show
number-show m t =
    ap (number 0 false) (show_from-append (suc m) m "" t ∙ ap (show_from (suc m) m) (nil-append t))
    ∙ number-show_from (suc m) m false t (omega arith)

number-point : (m : ℕ) (t : String) → number m true ("." <> t) ≡ fraction m 0 t
unfolding number
number-point m t = ap (number m true) (lead "." t) ∙ grind arith

-- the decimal that a printed amount says
pub parse_amount-to_fixed_7 : (n : ℕ) → parse_amount (to_fixed_7 n) ≡ some (n, 7)
unfolding parse_amount to_fixed_7
parse_amount-to_fixed_7 n =
    number-show (n / 10000000) ("." <> padded 7 n)
    ∙ number-point (n / 10000000) (padded 7 n)
    ∙ ap (fraction (n / 10000000) 0) (sym (append-nil (padded 7 n)))
    ∙ fraction-padded (n / 10000000) 0 7 n ""
    ∙ ap (λ (m : ℕ). some (m, 7)) (omega arith)

-- An amount of less than 2 ^ 52 stroops that is printed with seven decimals is read by `parseFloat` as a
-- double from which `toFixed(7)`, with which `withdraw` pays, makes the same count of stroops.
pub amount_num-to_fixed_7 :
    (n : ℕ)
    → n < 4503599627370496
    → (x : Double) × (amount_num (to_fixed_7 n) ≡ some x) × (fixed_7 x ≡ some n)
unfolding amount_num
amount_num-to_fixed_7 n h =
    (double_of (n, 7), rw (parse_amount-to_fixed_7 n) refl, fixed_7-double_of n h)
