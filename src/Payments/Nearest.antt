-- ===== src/Payments/Nearest.antt =====
-- A count of stroops that is read as a double is found again by `toFixed(7)`.
use native.Mathlib.Nat.{div-eq_of_lt-le, mul-le-mul_left, mul-le-mul_right}
use stellances.Base.{
  refl, zero, suc, ℕ, ◌*◌, ◌+◌, ◌%◌, ◌^◌, ◌≤◌, ◌≡◌, ◌⊎◌, inl, inr, arith, leb, ltb, Bool-cases,
  some, true, false, ◌<◌, ◌/◌, subst, ap, ◌∙◌,
}
use stellances.Payments.Double.{half_even, doublings, fixed_7, double_of, finite}

half_even-near :
    (a : ℕ)
    → (2 * (half_even a 10000000 * 10000000) ≤ 2 * a + 10000000)
      × (2 * a ≤ 2 * (half_even a 10000000 * 10000000) + 10000000)
unfolding half_even
half_even-near a = elim (Bool-cases (ltb (2 * (a % 10000000)) 10000000)) [
  | inl e ↦ ground arith
  | inr e ↦ elim (Bool-cases (ltb 10000000 (2 * (a % 10000000)))) [
    | inl k ↦ ground arith
    | inr k ↦ ground arith
  ]
]

pow_suc : (a n : ℕ) → a * 2 * 2 ^ n ≡ a * 2 ^ suc n
pow_suc a n = grind arith

doublings-reach :
    (f a b : ℕ) → (4503599627370496 * b ≤ a * 2 ^ doublings f a b) ⊎ (doublings f a b ≡ f)
unfolding doublings
doublings-reach zero a b = inr refl
doublings-reach (suc f) a b = elim (Bool-cases (leb (4503599627370496 * b) a)) [
  | inl e ↦ rw (e, doublings) (inl (ground arith))
  | inr e ↦
      rw (e, doublings)
        (elim (doublings-reach f (a * 2) b) [
          | inl k ↦
              inl (subst (λ x. 4503599627370496 * b ≤ x) (pow_suc a (doublings f (a * 2) b)) k)
          | inr k ↦ inr (ground arith)
        ])
]

-- a power of two that is large enough
large : (n p : ℕ) → n < 4503599627370496 → 4503599627370496 * 10000000 ≤ n * p → 10000000 < p
large n p h k = elim (Bool-cases (leb p 10000000)) [
  | inl e ↦
      let m : n * p ≤ n * 10000000 = mul-le-mul_left n (ground arith) in
      absurd (omega (arith, m, h, k))
  | inr e ↦ ground arith
]

shift-large : (n : ℕ) → n < 4503599627370496 → 10000000 < 2 ^ doublings 1074 n 10000000
shift-large n h = elim (doublings-reach 1074 n 10000000) [
  | inl k ↦ large n (2 ^ doublings 1074 n 10000000) h k
  | inr e ↦ rw e (ground arith)
]

-- rounding to sevenths finds a number again that was moved by less than half
nearest :
    (n p m : ℕ)
    → 10000000 < p
    → 2 * (m * 10000000) ≤ 2 * (n * p) + 10000000
    → 2 * (n * p) ≤ 2 * (m * 10000000) + 10000000
    → (m * 10000000 * 2 + p) / (2 * p) ≡ n
nearest n p m h a b =
    let u : n * (2 * p) ≡ 2 * (n * p) = grind arith in
    let v : suc n * (2 * p) ≡ 2 * (n * p) + 2 * p = grind arith in
    div-eq_of_lt-le (2 * p) (omega (arith, u, a, b, h)) (omega (arith, v, a, b, h))

small : (n : ℕ) → n < 4503599627370496 → ltb n 90071992547409920000000 ≡ true
small n h = ground (arith, h)

not_huge :
    (n p m : ℕ)
    → n < 4503599627370496
    → 10000000 < p
    → 2 * (m * 10000000) ≤ 2 * (n * p) + 10000000
    → leb (1000000000000000000000 * p) (m * 1) ≡ false
not_huge n p m h l a =
    let c : n * p ≤ 4503599627370496 * p = mul-le-mul_right p (omega (arith, h)) in
    let d : m < 1000000000000000000000 * p = omega (arith, a, c, l) in
    elim (Bool-cases (leb (1000000000000000000000 * p) (m * 1))) [
      | inl e ↦
          let k : 1000000000000000000000 * p ≤ m * 1 = ground (arith, e) in
          absurd (omega (arith, d, k))
      | inr e ↦ e
    ]

fixed_7-finite :
    (n m s : ℕ)
    → n < 4503599627370496
    → 10000000 < 2 ^ s
    → 2 * (m * 10000000) ≤ 2 * (n * 2 ^ s) + 10000000
    → 2 * (n * 2 ^ s) ≤ 2 * (m * 10000000) + 10000000
    → fixed_7 (finite m s 0) ≡ some n
unfolding fixed_7
fixed_7-finite n m s h l a b =
    let one : m * 1 ≡ m = omega arith in
    let e : (m * 1 * 10000000 * 2 + 2 ^ s) / (2 * 2 ^ s) ≡ n =
      ap (λ (k : ℕ). (k * 10000000 * 2 + 2 ^ s) / (2 * 2 ^ s)) one ∙ nearest n (2 ^ s) m l a b in
    rw (not_huge n (2 ^ s) m h l a) (ap some e)

-- A count of stroops below 2 ^ 52 is read as a double from which `toFixed(7)` makes the same count.
pub fixed_7-double_of : (n : ℕ) → n < 4503599627370496 → fixed_7 (double_of (n, 7)) ≡ some n
unfolding double_of
fixed_7-double_of n h =
    let s = doublings 1074 n 10000000 in
    let (a, b) = half_even-near (n * 2 ^ s) in
    rw (small n h) (fixed_7-finite n (half_even (n * 2 ^ s) 10000000) s h (shift-large n h) a b)
