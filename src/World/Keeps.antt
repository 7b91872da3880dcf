-- ===== src/World/Keeps.antt =====
-- Invariants of the database under actions: one rule for each way to build an action.
use stellances.World.{World, Env}
use stellances.Schema.{Database}
use stellances.Base.{
  none, some, true, false, Option, Bool, if◌then◌else◌, ◌≡◌, subst, sym, inl, inr, ◌∙◌,
}
use stellances.World.Action.{
  Action, Result, pure, throw, or_throw, gets, throw_if, draw_uuid, attempt, both, transaction,
  ◌>>=◌, Exception,
}
use stellances.World.Laws.{bind_post, transaction_cases}

-- `m` keeps `P`, whether it returns or throws.
pub record Keeps {ℓ} {A : Type ℓ} (P : Database → Type 0) (m : Action A) : Type 0 where
  pub at : (w : World) → P w.db → P (m w).1.db

module _ {P : Database → Type 0} where
  -- what does not write
  pub Keeps-quiet {ℓ} : {A : Type ℓ} (m : Action A) → ((w : World) → (m w).1.db ≡ w.db) → Keeps P m
  Keeps-quiet m h = record { at = λ w p. subst P (sym (h w)) p }

  pub Keeps-pure {ℓ} : {A : Type ℓ} (a : A) → Keeps P (pure a)
  Keeps-pure a = record { at = λ w p. p }

  pub Keeps-throw {ℓ} : {A : Type ℓ} (e : Exception) → Keeps {A = A} P (throw e)
  Keeps-throw e = record { at = λ w p. p }

  pub Keeps-or_throw {ℓ} : {A : Type ℓ} (o : Option A) (e : Exception) → Keeps P (or_throw o e)
  Keeps-or_throw none e = Keeps-throw e
  Keeps-or_throw (some a) e = Keeps-pure a

  pub Keeps-gets {ℓ} : {A : Type ℓ} (f : World → A) → Keeps P (gets f)
  Keeps-gets f = record { at = λ w p. p }

  pub Keeps-throw_if : (b : Bool) (e : Exception) → Keeps P (throw_if b e)
  Keeps-throw_if b e = record { at = λ w p. p }

  pub Keeps-draw_uuid : (env : Env) → Keeps P (draw_uuid env)
  Keeps-draw_uuid env = record { at = λ w p. p }

  pub Keeps-if {ℓ} :
      {A : Type ℓ} (b : Bool) (m n : Action A)
      → Keeps P m
      → Keeps P n
      → Keeps P (if b then m else n)
  Keeps-if true m n km kn = km
  Keeps-if false m n km kn = kn

  pub Keeps-bind {ℓ κ} :
      {A : Type ℓ} {B : Type κ} (m : Action A) (f : A → Action B)
      → Keeps P m
      → ((a : A) → Keeps P (f a))
      → Keeps P (m >>= f)
  Keeps-bind m f km kf = record {
    at = λ w p. bind_post (λ v. P v.db) m f w (km.at w p) (λ a v e q. (kf a).at v q);
  }

  pub Keeps-transaction {ℓ} : {A : Type ℓ} (m : Action A) → Keeps P m → Keeps P (transaction m)
  Keeps-transaction {A = A} m km = record {
    at = λ w p. elim (transaction_cases m w) [
      | inl e ↦ subst P (sym e) p
      | inr (a, v, e, e') ↦ subst (λ (r : Result A × World). P r.1.db) (e ∙ sym e') (km.at w p)
    ];
  }

  pub Keeps-both {ℓ κ} :
      {A : Type ℓ} {B : Type κ} (m : Action A) (n : Action B)
      → Keeps P m
      → Keeps P n
      → Keeps P (both m n)
  Keeps-both m n km kn = record { at = λ w p. kn.at (m w).1 (km.at w p) }

  pub Keeps-attempt {ℓ} : {A : Type ℓ} (m : Action A) → Keeps P m → Keeps P (attempt m)
  Keeps-attempt m km = record { at = λ w p. km.at w p }

pub ruleset keeps_rules = (
  Keeps-pure, Keeps-throw, Keeps-or_throw, Keeps-gets, Keeps-throw_if, Keeps-draw_uuid, Keeps-if,
  Keeps-bind, Keeps-transaction, Keeps-both, Keeps-attempt,
)
