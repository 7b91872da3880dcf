-- ===== src/Base/Lists.antt =====
-- Lists over the native numbers, and predicates on their elements.
use Prim.Native.Nat.{ℕ, zero, suc, ◌+◌, ◌≤◌, ◌<◌}
use mathlib.Core.Path.{◌≡◌}
use mathlib.Core.Logic.{◌≢◌}
use mathlib.Core.Option.{Option, none, some}
use stellances.Base.Booleans.{nat_eq, if◌then◌else◌}
use mathlib.Core.Bool.{Bool, true, false, ◌&&◌, ◌||◌}
use mathlib.Core.List.{List, [], ◌∷◌, ◌++◌}
use native.Mathlib.Omega.{arith}

module _ {ℓ} {A : Type ℓ} where
  abbrev pub length : List A → ℕ
  length [] = 0
  length (x ∷ xs) = suc (length xs)

  abbrev pub get_elem? : List A → ℕ → Option A
  get_elem? [] i = none
  get_elem? (x ∷ xs) zero = some x
  get_elem? (x ∷ xs) (suc i) = get_elem? xs i

  abbrev pub take : ℕ → List A → List A
  take zero xs = []
  take (suc n) [] = []
  take (suc n) (x ∷ xs) = x ∷ take n xs

  abbrev pub drop : ℕ → List A → List A
  drop zero xs = xs
  drop (suc n) [] = []
  drop (suc n) (x ∷ xs) = drop n xs

  -- a write at an index; out of bounds it changes nothing
  abbrev pub alter : ℕ → (A → A) → List A → List A
  alter i f [] = []
  alter zero f (x ∷ xs) = f x ∷ xs
  alter (suc i) f (x ∷ xs) = x ∷ alter i f xs

  -- `Array.prototype.every`
  abbrev pub any : (A → Bool) → List A → Bool
  any p [] = false
  any p (x ∷ xs) = p x || any p xs

  abbrev pub every : (A → Bool) → List A → Bool
  every p [] = true
  every p (x ∷ xs) = p x && every p xs

  abbrev pub All {κ} : (A → Type κ) → List A → Type κ
  All P [] = Unit
  All P (x ∷ xs) = P x × All P xs

  pub length-append : (xs ys : List A) → length (xs ++ ys) ≡ length xs + length ys
  length-append [] ys = omega arith
  length-append (x ∷ xs) ys = omega (arith, length-append xs ys)

  pub length-take-le : (n : ℕ) (xs : List A) → length (take n xs) ≤ n
  length-take-le zero xs = omega arith
  length-take-le (suc n) [] = omega arith
  length-take-le (suc n) (x ∷ xs) = omega (arith, length-take-le n xs)

  pub length-alter : (i : ℕ) (f : A → A) (xs : List A) → length (alter i f xs) ≡ length xs
  length-alter i f [] = ground arith
  length-alter zero f (x ∷ xs) = ground arith
  length-alter (suc i) f (x ∷ xs) = ground (arith, length-alter i f xs)

  pub get_elem?-alter_self :
      (i : ℕ) (f : A → A) {x : A} (xs : List A)
      → get_elem? xs i ≡ some x
      → get_elem? (alter i f xs) i ≡ some (f x)
  get_elem?-alter_self i f [] h = ground arith
  get_elem?-alter_self zero f (x ∷ xs) h = ground arith
  get_elem?-alter_self (suc i) f {x} (y ∷ xs) h = get_elem?-alter_self i f {x = x} xs h

  pub get_elem?-alter_ne :
      (i j : ℕ) (f : A → A) (xs : List A) → i ≢ j → get_elem? (alter i f xs) j ≡ get_elem? xs j
  get_elem?-alter_ne i j f [] h = ground arith
  get_elem?-alter_ne zero zero f (x ∷ xs) h = ground arith
  get_elem?-alter_ne zero (suc j) f (x ∷ xs) h = ground arith
  get_elem?-alter_ne (suc i) zero f (x ∷ xs) h = ground arith
  get_elem?-alter_ne (suc i) (suc j) f (x ∷ xs) h = get_elem?-alter_ne i j f xs (ground arith)

  pub get_elem?-append :
      (xs : List A) (a : A) (i : ℕ)
      → get_elem? (xs ++ a ∷ []) i ≡ (if nat_eq i (length xs) then some a else get_elem? xs i)
  get_elem?-append [] a zero = ground arith
  get_elem?-append [] a (suc i) = ground arith
  get_elem?-append (x ∷ xs) a zero = ground arith
  get_elem?-append (x ∷ xs) a (suc i) = ground (arith, get_elem?-append xs a i)

  pub get_elem?-lt : {a : A} (xs : List A) (i : ℕ) → get_elem? xs i ≡ some a → i < length xs
  get_elem?-lt [] i h = ground arith
  get_elem?-lt (x ∷ xs) zero h = ground arith
  get_elem?-lt {a = a} (x ∷ xs) (suc i) h = ground (arith, get_elem?-lt {a = a} xs i)
