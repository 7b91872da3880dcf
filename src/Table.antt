-- ===== src/Table.antt =====
-- A database table as the list of its rows, the newest first, and the queries of the Prisma client
-- on one table. `key` is a column with a unique index.
pub mod Laws
use stellances.Base.{
  ℕ, ◌+◌, String, ◌==◌, Bool, true, false, if◌then◌else◌, Option, none, some, List, [], ◌∷◌,
}

module _ {A : Type 0} where
  -- `findMany` with a `where`
  abbrev pub select : (A → Bool) → List A → List A
  select p [] = []
  select p (x ∷ xs) = if p x then x ∷ select p xs else select p xs

  -- `count` with a `where`
  abbrev pub count : (A → Bool) → List A → ℕ
  count p [] = 0
  count p (x ∷ xs) = (if p x then 1 else 0) + count p xs

  -- `updateMany`
  abbrev pub update_where : (A → Bool) → (A → A) → List A → List A
  update_where p f [] = []
  update_where p f (x ∷ xs) = (if p x then f x else x) ∷ update_where p f xs

  -- the sum of a number read off each row
  abbrev pub total : (A → ℕ) → List A → ℕ
  total g [] = 0
  total g (x ∷ xs) = g x + total g xs

  module _ (key : A → String) where
    -- `findUnique`
    abbrev pub find : String → List A → Option A
    find k [] = none
    find k (x ∷ xs) = if key x == k then some x else find k xs

    -- `update`
    abbrev pub update : String → (A → A) → List A → List A
    update k f [] = []
    update k f (x ∷ xs) = if key x == k then f x ∷ xs else x ∷ update k f xs

    -- `delete`
    abbrev pub erase : String → List A → List A
    erase k [] = []
    erase k (x ∷ xs) = if key x == k then xs else x ∷ erase k xs

    -- the unique index holds `k`
    abbrev pub has : String → List A → Bool
    has k xs = elim (find k xs) [ none ↦ false | some _ ↦ true ]
