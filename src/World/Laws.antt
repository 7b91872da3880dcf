-- ===== src/World/Laws.antt =====
-- How actions run: the parts of a chain that returned, and the chain from its parts.
use stellances.World.{World}
use stellances.Base.{refl, ◌≡◌, ◌⊎◌, inl, inr, ap, none, some, true, Option, String}
use stellances.World.Action.{
  Action, Result, ok, err, ◌>>=◌, and_then, Exception, transaction, rolled_back, is_set, truthy,
}

module _ {ℓ κ} {A : Type ℓ} {B : Type κ} where
  and_then_ok :
      (f : A → Action B) {b : B} {w' : World} (r : Result A × World)
      → and_then f r ≡ (ok b, w')
      → (a : A) × (v : World) × (r ≡ (ok a, v)) × (f a v ≡ (ok b, w'))
  and_then_ok f (ok a, v) e = (a, v, refl, e)
  and_then_ok f (err x, v) e = absurd (cc e)

  -- A chain that returned did so through both of its parts.
  pub bind_ok :
      (m : Action A) (f : A → Action B) {b : B} {w w' : World}
      → (m >>= f) w ≡ (ok b, w')
      → (a : A) × (v : World) × (m w ≡ (ok a, v)) × (f a v ≡ (ok b, w'))
  bind_ok m f {w = w} e = and_then_ok f (m w) e

  -- What throws at its first step throws.
  pub bind_err :
      (m : Action A) (f : A → Action B) {x : Exception} {w v : World}
      → m w ≡ (err x, v)
      → (m >>= f) w ≡ (err x, v)
  bind_err m f e = ap (and_then f) e

  -- and what returns there goes on with the rest
  pub bind_next :
      (m : Action A) (f : A → Action B) {a : A} {w v : World}
      → m w ≡ (ok a, v)
      → (m >>= f) w ≡ f a v
  bind_next m f e = ap (and_then f) e

  and_then_post {ι} :
      (P : World → Type ι) (f : A → Action B) (r : Result A × World)
      → P r.1
      → ((a : A) (v : World) → r ≡ (ok a, v) → P v → P (f a v).1)
      → P (and_then f r).1
  and_then_post P f (ok a, v) h k = k a v refl h
  and_then_post P f (err x, v) h k = h

  -- A state property that both parts keep, the second only where the first returned.
  pub bind_post {ι} :
      (P : World → Type ι) (m : Action A) (f : A → Action B) (w : World)
      → P (m w).1
      → ((a : A) (v : World) → m w ≡ (ok a, v) → P v → P (f a v).1)
      → P ((m >>= f) w).1
  bind_post P m f w h k = and_then_post P f (m w) h k

pub Result-cases {ℓ} :
    {A : Type ℓ} (r : Result A) → ((e : Exception) × (r ≡ err e)) ⊎ ((a : A) × (r ≡ ok a))
Result-cases (err e) = inl (e, refl)
Result-cases (ok a) = inr (a, refl)

-- A transaction that throws leaves the database as it was, and one that returns is its body.
pub transaction_cases {ℓ} :
    {A : Type ℓ} (m : Action A) (w : World)
    → ((transaction m w).1.db ≡ w.db)
      ⊎ ((a : A) × (v : World) × (m w ≡ (ok a, v)) × (transaction m w ≡ (ok a, v)))
transaction_cases {A = A} m w = go (m w) refl
  where
    go :
        (r : Result A × World)
        → m w ≡ r
        → ((rolled_back w.db (m w)).1.db ≡ w.db)
          ⊎ ((a : A) × (v : World) × (m w ≡ (ok a, v)) × (rolled_back w.db (m w) ≡ (ok a, v)))
    go (ok a, v) e = inr (a, v, e, ap (rolled_back w.db) e)
    go (err x, v) e = inl (ap (λ (r : Result A × World). r.1.db) (ap (rolled_back w.db) e))

-- a text that JavaScript takes for true
pub truthy-some : (o : Option String) (t : String) → truthy o ≡ some t → o ≡ some t
truthy-some none t e = absurd (cc e)
truthy-some (some String.[]) t e = absurd (cc e)
truthy-some (some (String.◌∷◌ c s)) t e = e

pub is_set-truthy : (t : String) → is_set (some t) ≡ true → truthy (some t) ≡ some t
is_set-truthy String.[] e = absurd (cc e)
is_set-truthy (String.◌∷◌ c s) e = refl
