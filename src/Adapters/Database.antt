-- ===== src/Adapters/Database.antt =====
-- A table of the database as the sessions of src/saas_platform/adapters/postgres.py use it. SQLAlchemy
-- and Postgres are not modelled: the table is a parameter, a record of what a session does with it.
-- The changes of a session are one write, when it commits.
pub mod Laws
pub mod Changes
pub mod Queries
use hosted_agents_saa_s_plat.Prelude.{Bool, Option, none, some, List}
use hosted_agents_saa_s_plat.Domain.Action.{Action, ok, err, error}

-- primary keys `K`, rows `R`, states `S`
pub record Table (K R S : Type 0) : Type 0 where
  -- `session.get(Row, key)`
  pub find : K → S → Option R
  -- `session.add(row)`; `none` is an IntegrityError, and then nothing is written
  pub insert : R → S → Option S
  -- new values for the columns of a row that `find` gave
  pub update : R → S → S
  -- `session.delete` of the row with this key
  pub delete : K → S → S
  -- `select(Row).where(condition).order_by(order)`
  pub select : (R → Bool) → (R → R → Bool) → S → List R

module _ {K R S : Type 0} (t : Table K R S) where
  abbrev pub committed : Option S → Action S (Unit {0})
  committed none s = (err (error "IntegrityError" "duplicate key value"), s)
  committed (some s') s = (ok tt, s')

  -- `session.add(row); session.commit()`
  abbrev pub add : R → Action S (Unit {0})
  add row s = committed (t.insert row s) s

  abbrev write_found : (R → R) → R → Option R → Action S (Unit {0})
  write_found change fresh none s = add fresh s
  write_found change fresh (some row) s = (ok tt, t.update (change row) s)

  -- `row = session.get(Row, key)`, a new row if there is none, and else the row with changes
  abbrev pub upsert : K → (R → R) → R → Action S (Unit {0})
  upsert key change fresh s = write_found change fresh (t.find key s) s

  -- `session.merge(row); session.commit()`
  abbrev pub merge : K → R → Action S (Unit {0})
  merge key row = upsert key (λ _. row) row

  abbrev pub change_found : (R → R) → Option R → S → S
  change_found change none s = s
  change_found change (some row) s = t.update (change row) s

  -- `row = session.get(Row, key)`, a return if there is none, and else the row with changes
  abbrev pub modify : K → (R → R) → S → S
  modify key change s = change_found change (t.find key s) s

  abbrev delete_found : K → Option R → S → S
  delete_found key none s = s
  delete_found key (some row) s = t.delete key s

  -- `row = session.get(Row, key)`, a return if there is none, and else `session.delete(row)`
  abbrev pub remove : K → S → S
  remove key s = delete_found key (t.find key s) s
