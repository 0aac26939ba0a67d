-- ===== src/Database.antt =====
-- The PostgreSQL database behind gorm, as the repositories see it: the tables of
-- migrations/000001_initial_schema.up.sql, the sequences of the identity columns, and statements
-- that run one after the other.
-- The engine is a parameter: it says which call fails and what the clock reads. A call that fails
-- has no effect, and a transaction that does not commit leaves the tables as it found them.
-- Sequences never go back.
pub mod Laws
pub mod Frame
pub mod Success
use order_processing_system.Base.{ℕ, suc, Option, none, some, List}
use order_processing_system.Models.{
  Time, Float64, User, Product, Inventory, Order, OrderItem, Payment, Notification, Error, driver,
  Result, ok, err,
}

pub record Tables : Type 0 where
  pub users : List User
  pub products : List Product
  pub inventory : List Inventory
  pub orders : List Order
  pub order_items : List OrderItem
  pub payments : List Payment
  pub notifications : List Notification

-- The next id of each table.
pub record Sequences : Type 0 where
  pub user : ℕ
  pub product : ℕ
  pub inventory : ℕ
  pub order : ℕ
  pub order_item : ℕ
  pub payment : ℕ
  pub notification : ℕ

-- `calls` counts what has been sent, so that the engine may answer each call its own way.
pub record Db : Type 0 where
  pub tables : Tables
  pub seq : Sequences
  pub calls : ℕ

-- `fault n` is the code of the error that the n-th call meets, a lost connection or an expired
-- context say; `clock n` is the time at that call. `numeric x` is what a NUMERIC(12,2) column holds for `x`,
-- nothing where it does not fit.
pub record Engine : Type 0 where
  pub fault : ℕ → Option ℕ
  pub clock : ℕ → Time
  pub numeric : Float64 → Option Float64

abbrev pub Query {ℓ} : Type ℓ → Type ℓ
Query A = Db → Result A × Db

-- The rest of a chain runs where the part before it succeeded.
abbrev pub continue {ℓ κ} :
    {A : Type ℓ} {B : Type κ} → Result A × Db → (A → Query B) → Result B × Db
continue (ok a, db) f = f a db
continue (err e, db) f = (err e, db)

infixl 5 ◌>>=◌ ◌>>◌
abbrev pub ◌>>=◌ {ℓ κ} : {A : Type ℓ} {B : Type κ} → Query A → (A → Query B) → Query B
◌>>=◌ m f db = continue (m db) f

abbrev pub ◌>>◌ {ℓ κ} : {A : Type ℓ} {B : Type κ} → Query A → Query B → Query B
m >> n = m >>= λ _. n

abbrev pub pure {ℓ} : {A : Type ℓ} → A → Query A
pure a db = (ok a, db)

abbrev pub fail {ℓ} : {A : Type ℓ} → Error → Query A
fail e db = (err e, db)

abbrev pub tick : Db → Db
tick db = record db { calls = suc db.calls }

-- One statement, at the time that the clock reads.
abbrev pub send {ℓ} : {A : Type ℓ} → Engine → (Time → Query A) → Query A
send engine statement db = elim (engine.fault db.calls) [
  | some code ↦ (err (driver code), tick db)
  | none ↦ statement (engine.clock db.calls) (tick db)
]

-- What COMMIT or ROLLBACK makes of a transaction's end; `before` are the tables at its start.
abbrev pub settle {ℓ} : {A : Type ℓ} → Engine → Tables → Result A × Db → Result A × Db
settle engine before (err e, db) = (err e, tick (record db { tables = before }))
settle engine before (ok a, db) = elim (engine.fault db.calls) [
  | some code ↦ (err (driver code), tick (record db { tables = before }))
  | none ↦ (ok a, tick db)
]

-- `db.Transaction(func(tx) error)`
unfoldable pub transaction {ℓ} : {A : Type ℓ} → Engine → Query A → Query A
transaction engine body db = elim (engine.fault db.calls) [
  | some code ↦ (err (driver code), tick db)
  | none ↦ settle engine db.tables (body (tick db))
]
