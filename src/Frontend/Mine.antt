-- ===== src/Frontend/Mine.antt =====
-- The contracts that the page of contracts shows to a user.
use stellances.World.Action.{ok}
use stellances.World.{World}
use stellances.Http.{Identity}
use stellances.Contracts.Loading.{listed, find_all}
use stellances.Contracts.Controller.{list_contracts}
use stellances.Base.{
  some, ◌≡◌, ◌==◌, ◌&&◌, not, refl, arith, String, List, [], ◌∷◌, All, Bool-cases, ap, ◌∙◌, inl,
  inr, ==_iff, Bool, none, ◌≢◌,
}
use stellances.Schema.{Contract, User, Database, user_key, UserRole}
use stellances.Table.{select, find}
use stellances.Frontend.Contracts.{counterparty, fetch_contracts}

abbrev is_own : String → Contract → Bool
is_own id c = c.client_id == id

-- a contract that a user works on for someone else
abbrev pub works_on : String → Contract → Bool
works_on id c = c.freelancer_id == id && not (c.client_id == id)

-- a card as its client sees it
abbrev pub Own : Database → User → Contract → Type 0
Own db u c = (c.client_id ≡ u.id) × (counterparty db c ≡ u.name)

select-Own :
    (db : Database) (u : User) (cs : List Contract)
    → find user_key u.id db.users ≡ some u
    → All (Own db u) (select (is_own u.id) cs)
      × (select (works_on u.id) (select (is_own u.id) cs) ≡ [])
unfolding counterparty
select-Own db u [] e = (tt, refl)
select-Own db u (c ∷ cs) e = elim (Bool-cases (c.client_id == u.id)) [
  | inl t ↦ ground (arith, select-Own db u cs e, ==_iff c.client_id u.id)
  | inr t ↦ ground (arith, select-Own db u cs e)
]

select-listed :
    (id : String) (role : UserRole) (cs : List Contract)
    → role ≢ UserRole.admin
    → select (listed id role none) cs ≡ select (is_own id) cs
select-listed id UserRole.client [] h = refl
select-listed id UserRole.freelancer [] h = refl
select-listed id UserRole.client (c ∷ cs) h = ground (arith, select-listed id UserRole.client cs h)
select-listed id UserRole.freelancer (c ∷ cs) h =
    ground (arith, select-listed id UserRole.freelancer cs h)
select-listed id UserRole.admin cs h = absurd (h refl)

-- The finding about the page of contracts: it asks for the contracts of the caller without a side, and
-- the backend takes that for the side of the client. So a user who has an account and is no admin
-- sees only contracts that he is the client of and none that he works on for another, a freelancer
-- among them; and each card says that the contract is with himself, for it shows the client's name.
-- The request changes nothing.
pub fetch_contracts-Own :
    (caller : Identity) (w : World) (u : User)
    → caller.role ≢ UserRole.admin
    → caller.id ≡ u.id
    → find user_key u.id w.db.users ≡ some u
    → (cs : List Contract) × (fetch_contracts caller none w ≡ (ok cs, w))
      × (All (Own w.db u) cs)
      × (select (works_on u.id) cs ≡ [])
unfolding fetch_contracts list_contracts find_all
fetch_contracts-Own caller w u h same e = (
  select (is_own u.id) w.db.contracts,
  ap (λ cs. (ok cs, w))
      (select-listed caller.id caller.role w.db.contracts h
        ∙ ap (λ id. select (is_own id) w.db.contracts) same),
  (select-Own w.db u w.db.contracts e).0,
  (select-Own w.db u w.db.contracts e).1,
)
