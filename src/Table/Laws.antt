-- ===== src/Table/Laws.antt =====
-- How the queries on one table act on one another.
use mathlib.Core.Option
use stellances.Base.{
  ℕ, ◌+◌, ◌≡◌, String, ◌==◌, ==_iff, Bool, true, if◌then◌else◌, none, some, List, [], ◌∷◌, arith,
  ==_refl, ◌++◌, Option,
}
use stellances.Table.{select, total, find, update, erase, update_where}

module _ {A : Type 0} (key : A → String) where
  -- No two rows have one key.
  abbrev pub Unique : List A → Type 0
  Unique [] = Unit
  Unique (x ∷ xs) = (find key (key x) xs ≡ none) × Unique xs

  pub find-update :
      (j k : String) (f : A → A) (xs : List A)
      → ((x : A) → key (f x) ≡ key x)
      → find key j (update key k f xs)
        ≡ (if k == j then Option.map f (find key j xs) else find key j xs)
  find-update j k f [] h = ground arith
  find-update j k f (x ∷ xs) h =
      ground (arith, h x, ==_iff (key x) k, ==_iff (key x) j, ==_iff k j, find-update j k f xs h)

  pub find-key : (k : String) {x : A} (xs : List A) → find key k xs ≡ some x → key x ≡ k
  find-key k {x} [] h = ground arith
  find-key k {x} (y ∷ xs) h = ground (arith, ==_iff (key y) k, find-key k {x = x} xs)

  -- An update moves a sum by what it does to the one row.
  pub total-update :
      (g : A → ℕ) (k : String) (f : A → A) {x : A} (xs : List A)
      → find key k xs ≡ some x
      → total g (update key k f xs) + g x ≡ total g xs + g (f x)
  total-update g k f {x} [] h = ground arith
  total-update g k f {x} (y ∷ xs) h = ground (arith, total-update g k f {x = x} xs)

  pub update-Unique :
      (k : String) (f : A → A) (xs : List A)
      → ((x : A) → key (f x) ≡ key x)
      → Unique xs
      → Unique (update key k f xs)
  update-Unique k f [] h u = tt
  update-Unique k f (x ∷ xs) h u =
      ground (arith, h x, update-Unique k f xs h, find-update (key x) k f xs h)

  -- With unique keys, the row that is found among some rows is the one that is found among all.
  pub find-select :
      (p : A → Bool) (k : String) {x : A} (xs : List A)
      → Unique xs
      → find key k (select p xs) ≡ some x
      → (find key k xs ≡ some x) × (p x ≡ true)
  find-select p k {x} [] u h = ground arith
  find-select p k {x} (y ∷ xs) u h =
      ground (arith, ==_iff (key y) k, find-key k {x = x} xs, find-select p k {x = x} xs)

  -- After a deletion the key is gone, and every other key finds what it found.
  pub find-erase :
      (j k : String) (xs : List A)
      → Unique xs
      → find key j (erase key k xs) ≡ (if k == j then none else find key j xs)
  find-erase j k [] u = ground arith
  find-erase j k (x ∷ xs) u =
      ground (arith, ==_iff (key x) k, ==_iff (key x) j, ==_iff k j, find-erase j k xs)

  pub erase-Unique : (k : String) (xs : List A) → Unique xs → Unique (erase key k xs)
  erase-Unique k [] u = tt
  erase-Unique k (x ∷ xs) u = ground (arith, erase-Unique k xs, find-erase (key x) k xs)

  pub update-update :
      (k : String) (f g : A → A) (xs : List A)
      → ((x : A) → key (f x) ≡ key x)
      → update key k g (update key k f xs) ≡ update key k (λ x. g (f x)) xs
  update-update k f g [] h = ground arith
  update-update k f g (x ∷ xs) h = ground (arith, h x, update-update k f g xs h)

  -- What an update of many rows does to the row of one key.
  pub find-update_where :
      (j : String) (p : A → Bool) (f : A → A) (xs : List A)
      → ((x : A) → key (f x) ≡ key x)
      → find key j (update_where p f xs) ≡ Option.map (λ x. if p x then f x else x) (find key j xs)
  find-update_where j p f [] h = ground arith
  find-update_where j p f (x ∷ xs) h = ground (arith, h x, find-update_where j p f xs h)

  -- A row put at the end is found where no row before it is.
  abbrev pub or_else : Option A → Option A → Option A
  or_else none o = o
  or_else (some x) o = some x

  pub find-append :
      (j : String) (xs : List A) (y : A)
      → find key j (xs ++ y ∷ []) ≡ or_else (find key j xs) (if key y == j then some y else none)
  find-append j [] y = ground arith
  find-append j (x ∷ xs) y = ground (arith, find-append j xs y)

  pub append-Unique :
      (xs : List A) (y : A) → Unique xs → find key (key y) xs ≡ none → Unique (xs ++ y ∷ [])
  append-Unique [] y u h = ground arith
  append-Unique (x ∷ xs) y u h = ground (
    arith,
    append-Unique xs y u.1,
    find-append (key x) xs y,
    ==_iff (key x) (key y),
    ==_iff (key y) (key x),
    ==_refl (key x),
  )

  pub total-append : (g : A → ℕ) (xs : List A) (y : A) → total g (xs ++ y ∷ []) ≡ total g xs + g y
  total-append g [] y = ground arith
  total-append g (x ∷ xs) y = ground (arith, total-append g xs y)

-- The row that one column finds is the one that its own key finds.
pub find-find :
    {A : Type 0} (column key : A → String) (k : String) {x : A} (xs : List A)
    → Unique key xs
    → find column k xs ≡ some x
    → find key (key x) xs ≡ some x
find-find column key k {x} [] u h = ground arith
find-find column key k {x} (y ∷ xs) u h =
    ground (arith, ==_refl (key y), ==_iff (key y) (key x), find-find column key k {x = x} xs u.1)
