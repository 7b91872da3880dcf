-- ===== src/Paging/Cover.antt =====
-- The pages together.
use stellances.Paging.{paged, Paging, ceil_div, limit_of, page_of}
use stellances.Base.{
  refl, zero, suc, none, some, [], ◌∷◌, Option, ℕ, ◌≤◌, List, ◌++◌, length, ◌≡◌, take, arith, ◌*◌,
  drop, ◌+◌, ◌∙◌, ◌-◌, Option-cases, length-take-le, inl, inr, ap, sym,
}
use native.Mathlib.Nat.{mul_comm}
use native.Mathlib.Omega.{div_any, mod_fact}

-- the rows of the pages 1 to n
unfoldable pub pages : {A : Type 0} → Option ℕ → ℕ → List A → List A
pages limit zero rows = []
pages limit (suc n) rows =
    pages limit n rows ++ (paged (record { page = some (suc n); limit = limit }) rows).rows

take_nil : (A : Type 0) (n : ℕ) → take {A = A} n [] ≡ []
take_nil A zero = refl
take_nil A (suc n) = refl

pub take-drop :
    {A : Type 0} (m n : ℕ) (xs : List A) → take m xs ++ take n (drop m xs) ≡ take (m + n) xs
take-drop zero n xs = ground arith
take-drop {A = A} (suc m) n [] = ground (arith, take_nil A n, take_nil A (suc m + n))
take-drop (suc m) n (x ∷ xs) =
    let e : suc m + n ≡ suc (m + n) = omega arith in
    ap (λ ys. x ∷ ys) (take-drop m n xs) ∙ sym (ap (λ k. take k (x ∷ xs)) e)

pub take_all : {A : Type 0} (n : ℕ) (xs : List A) → length xs ≤ n → take n xs ≡ xs
take_all zero [] h = refl
take_all zero (x ∷ xs) h = absurd (omega arith)
take_all (suc n) [] h = refl
take_all (suc n) (x ∷ xs) h = ground (arith, take_all n xs (omega arith))

pages-take :
    {A : Type 0} (limit : Option ℕ) (n : ℕ) (rows : List A)
    → pages limit n rows ≡ take (n * limit_of (record { page = none; limit = limit })) rows
unfolding pages paged
pages-take limit zero rows = ground arith
pages-take limit (suc n) rows = ground (
  arith,
  pages-take limit n rows,
  take-drop (n * limit_of (record { page = none; limit = limit }))
      (limit_of (record { page = none; limit = limit })) rows,
)

pub enough : (total l : ℕ) → 1 ≤ l → total ≤ ceil_div total l * l
enough total zero h = absurd (omega arith)
enough total (suc k) h = ground (
  arith,
  div_any (total + (suc k - 1)) (suc k),
  mod_fact (total + (suc k - 1)) k,
  mul_comm (suc k) (ceil_div total (suc k)),
)

limit-le : (p : Paging) → (1 ≤ limit_of p) × (limit_of p ≤ 100)
limit-le p = (
  elim (Option-cases p.limit) [
    | inl e ↦ ground arith
    | inr (zero, e) ↦ ground arith
    | inr (suc n, e) ↦ ground arith
  ],
  ground arith,
)

-- The pages from the first to the last that `totalPages` counts, put one after the other, are
-- all the rows, in order and each once, whatever the limit that was asked for; and no page has more
-- than 100 rows.
pub pages_cover :
    {A : Type 0} (limit : Option ℕ) (rows : List A)
    → (pages limit (paged (record { page = none; limit = limit }) rows).total_pages rows ≡ rows)
      × ((page : Option ℕ) → length (paged (record { page = page; limit = limit }) rows).rows ≤ 100)
unfolding paged
pages_cover limit rows = (
  pages-take limit _ rows
      ∙ take_all _ rows
          (enough (length rows) _ (limit-le (record { page = none; limit = limit })).0),
  λ page. omega (
    arith,
    length-take-le (limit_of (record { page = page; limit = limit })) (
        drop
          ((page_of (record { page = page; limit = limit }) - 1)
            * limit_of (record { page = page; limit = limit }))
          rows),
    (limit-le (record { page = page; limit = limit })).1,
  ),
)
