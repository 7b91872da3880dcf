-- ===== src/World/Action.antt =====
-- Actions: the shared state passed along, and exceptions. What was written before an exception
-- stays written, except inside a database transaction.
use stellances.Base.{ℕ, suc, String, Bool, true, false, if◌then◌else◌, Option, none, some}
use stellances.World.{World, Env}
use stellances.Schema.{Database}

-- The exceptions of @nestjs/common that the services throw, with their messages, and the errors
-- that the database client and the SDK throw.
pub data Exception : Type 0 where
  not_found forbidden bad_request conflict unauthorized service_unavailable : String → Exception
  unique_violation record_missing : Exception
  sdk_error : Exception

pub data Result {ℓ} (A : Type ℓ) : Type ℓ where
  ok : A → Result A
  err : Exception → Result A

abbrev pub Action {ℓ} : Type ℓ → Type ℓ
Action A = World → Result A × World

abbrev pub Done : Type 0
Done = Unit

module _ {ℓ} {A : Type ℓ} where
  abbrev pub pure : A → Action A
  pure a w = (ok a, w)

  abbrev pub throw : Exception → Action A
  throw e w = (err e, w)

  abbrev pub or_throw : Option A → Exception → Action A
  or_throw none e = throw e
  or_throw (some a) e = pure a

  abbrev pub gets : (World → A) → Action A
  gets f w = (ok (f w), w)

  -- `$transaction`: the database is as it was if the body throws
  abbrev pub rolled_back : Database → Result A × World → Result A × World
  rolled_back db (ok a, w) = (ok a, w)
  rolled_back db (err e, w) = (err e, record w { db = db })

  abbrev pub transaction : Action A → Action A
  transaction m w = rolled_back w.db (m w)

-- the rest of a chain, after an exception left out
abbrev pub and_then {ℓ κ} :
    {A : Type ℓ} {B : Type κ} → (A → Action B) → Result A × World → Result B × World
and_then f (ok a, w) = f a w
and_then f (err e, w) = (err e, w)

infixl 5 ◌>>=◌ ◌>>◌
abbrev pub ◌>>=◌ {ℓ κ} : {A : Type ℓ} {B : Type κ} → Action A → (A → Action B) → Action B
◌>>=◌ m f w = and_then f (m w)

abbrev pub ◌>>◌ {ℓ κ} : {A : Type ℓ} {B : Type κ} → Action A → Action B → Action B
m >> k = m >>= λ _. k

-- `if (c) throw e`
abbrev pub throw_if : Bool → Exception → Action Done
throw_if c e w = (if c then err e else ok tt, w)

abbrev pub modify_db : (Database → Database) → Action Done
modify_db f w = (ok tt, record w { db = f w.db })

-- `uuid()`
abbrev pub draw_uuid : Env → Action String
draw_uuid env w = (ok (env.uuid w.serial), record w { serial = suc w.serial })

-- A request to a server outside: its answer by its number, and `none` is an exception.
abbrev pub request {ℓ} : {A : Type ℓ} → (ℕ → Option A) → Action A
request answer w = (
  elim (answer w.requests) [ none ↦ err sdk_error | some a ↦ ok a ],
  record w { requests = suc w.requests },
)

-- JavaScript's truth of an optional string
abbrev pub is_set : Option String → Bool
is_set none = false
is_set (some String.[]) = false
is_set (some (String.◌∷◌ _ _)) = true

-- a computed result as an action
abbrev pub returned {ℓ} : {A : Type ℓ} → Result A → Action A
returned r w = (r, w)

-- `try { … } catch { }`: none if it throws, and what it did stays done
abbrev attempted {ℓ} : {A : Type ℓ} → Result A → Result (Option A)
attempted (ok a) = ok (some a)
attempted (err e) = ok none

abbrev pub attempt {ℓ} : {A : Type ℓ} → Action A → Action (Option A)
attempt m w = (attempted (m w).0, (m w).1)

-- `Promise.all` of two: both run, in this order, and the exception is that of the first that threw
abbrev first_error {ℓ κ} : {A : Type ℓ} {B : Type κ} → Result A → Result B → Result Done
first_error (err e) s = err e
first_error (ok a) (err e) = err e
first_error (ok a) (ok b) = ok tt

abbrev pub both {ℓ κ} : {A : Type ℓ} {B : Type κ} → Action A → Action B → Action Done
both m n w = let (r, v) = m w in let (s, u) = n v in (first_error r s, u)

-- the string itself where JavaScript takes it for true
abbrev pub truthy : Option String → Option String
truthy s = if is_set s then s else none
