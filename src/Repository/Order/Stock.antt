-- ===== src/Repository/Order/Stock.antt =====
-- What is on the shelf and what live orders hold, and how the loops over a cart change it.
use order_processing_system.Base.{
  ℕ, ◌+◌, ◌*◌, ◌≤◌, ◌≡◌, refl, List, [], ◌∷◌, ◌==◌, if◌then◌else◌, update_where, count_where, arith,
  All, All-map,
}
use order_processing_system.Models.{Time, Inventory, OrderItem, ok}
use order_processing_system.Database.{Db, Engine, tick}
use order_processing_system.Repository.Order.{
  covers, take_stock, stocks, return_stock, update_inventory, reserve_items, restock_items,
}

-- The units of product `p` in the inventory.
abbrev pub stock : ℕ → List Inventory → ℕ
stock p [] = 0
stock p (row ∷ rows) = (if row.product_id == p then row.quantity else 0) + stock p rows

-- The units of product `p` in a cart.
abbrev pub demand : ℕ → List OrderItem → ℕ
demand p [] = 0
demand p (item ∷ items) = (if item.product_id == p then item.quantity else 0) + demand p items

stock-take :
    (p : ℕ) (now : Time) (item : OrderItem) (rows : List Inventory)
    → stock p (update_where (covers item) (take_stock now item) rows)
        + (if item.product_id == p then count_where (covers item) rows * item.quantity else 0)
      ≡ stock p rows
stock-take p now item [] = ground arith
stock-take p now item (row ∷ rows) = grind (arith, stock-take p now item rows)

stock-return :
    (p : ℕ) (now : Time) (item : OrderItem) (rows : List Inventory)
    → stock p (update_where (stocks item) (return_stock now item) rows)
      ≡ stock p rows
        + (if item.product_id == p then count_where (stocks item) rows * item.quantity else 0)
stock-return p now item [] = ground arith
stock-return p now item (row ∷ rows) = grind (arith, stock-return p now item rows)

-- How many inventory rows a product has; the updates leave it alone.
abbrev pub shelves : ℕ → List Inventory → ℕ
shelves p = count_where (λ row. row.product_id == p)

shelves-take :
    (p : ℕ) (now : Time) (item : OrderItem) (rows : List Inventory)
    → shelves p (update_where (covers item) (take_stock now item) rows) ≡ shelves p rows
shelves-take p now item [] = refl
shelves-take p now item (row ∷ rows) = ground (arith, shelves-take p now item rows)

shelves-return :
    (p : ℕ) (now : Time) (item : OrderItem) (rows : List Inventory)
    → shelves p (update_where (stocks item) (return_stock now item) rows) ≡ shelves p rows
shelves-return p now item [] = refl
shelves-return p now item (row ∷ rows) = ground (arith, shelves-return p now item rows)

-- A statement or a loop that touches the inventory alone.
abbrev pub OnlyInventory : Db → Db → Type 0
OnlyInventory db after =
    (after.tables ≡ record (db.tables) { inventory = after.tables.inventory })
    × (after.seq ≡ db.seq)

covers-le-shelves :
    (item : OrderItem) (rows : List Inventory)
    → count_where (covers item) rows ≤ shelves item.product_id rows
covers-le-shelves item [] = omega arith
covers-le-shelves item (row ∷ rows) = ground (arith, covers-le-shelves item rows)

-- What a reservation that went through has done.
pub record Reserved (items : List OrderItem) (db after : Db) : Type 0 where
  pub only : OnlyInventory db after
  pub taken :
      (p : ℕ) → stock p after.tables.inventory + demand p items ≡ stock p db.tables.inventory
  pub shelved : (p : ℕ) → shelves p after.tables.inventory ≡ shelves p db.tables.inventory
  pub found : All (λ item. 1 ≤ shelves item.product_id db.tables.inventory) items

module _ (engine : Engine) where
  -- The database after one decrement.
  abbrev decremented : OrderItem → Db → Db
  decremented item db =
      (update_inventory (covers item) (take_stock (engine.clock db.calls) item) (tick db)).1

  reserve_items-cons :
      (item : OrderItem) (items : List OrderItem) (db after : Db)
      → reserve_items engine (item ∷ items) db ≡ (ok tt, after)
      → (count_where (covers item) db.tables.inventory ≡ 1)
        × (reserve_items engine items (decremented item db) ≡ (ok tt, after))
  unfolding reserve_items
  reserve_items-cons item items db after e = ground arith

  pub reserve_items-Reserved :
      (items : List OrderItem) (db after : Db)
      → reserve_items engine items db ≡ (ok tt, after)
      → Reserved items db after
  unfolding reserve_items
  reserve_items-Reserved [] db after e = record {
    only = ground arith;
    taken = λ p. ground arith;
    shelved = λ p. ground arith;
    found = tt;
  }
  reserve_items-Reserved (item ∷ items) db after e =
      let (one, rest) = reserve_items-cons item items db after e in
      let now = engine.clock db.calls in
      let mid = decremented item db in
      let ih = reserve_items-Reserved items mid after rest in
      record {
        only = ground (arith, ih.only);
        taken = λ p. ground (arith, ih.taken p, stock-take p now item db.tables.inventory);
        shelved = λ p. ground (arith, ih.shelved p, shelves-take p now item db.tables.inventory);
        found = (
          omega (arith, one, covers-le-shelves item db.tables.inventory),
          All-map _ _ items
              (λ i h. omega (arith, h, shelves-take i.product_id now item db.tables.inventory))
              ih.found,
        );
      }

  abbrev restocked : OrderItem → Db → Db
  restocked item db =
      (update_inventory (stocks item) (return_stock (engine.clock db.calls) item) (tick db)).1

  restock_items-cons :
      (item : OrderItem) (items : List OrderItem) (db after : Db)
      → restock_items engine (item ∷ items) db ≡ (ok tt, after)
      → restock_items engine items (restocked item db) ≡ (ok tt, after)
  unfolding restock_items
  restock_items-cons item items db after e = ground arith

  pub restock_items-only :
      (items : List OrderItem) (db after : Db)
      → restock_items engine items db ≡ (ok tt, after)
      → OnlyInventory db after
  unfolding restock_items
  restock_items-only [] db after e = ground arith
  restock_items-only (item ∷ items) db after e =
      let mid = restocked item db in
      let ih = restock_items-only items mid after (restock_items-cons item items db after e) in
      ground (arith, ih)

  -- The loop that gives stock back adds the items' quantities, where each product has one row.
  pub restock_items-returns :
      (items : List OrderItem) (db after : Db)
      → restock_items engine items db ≡ (ok tt, after)
      → All (λ item. shelves item.product_id db.tables.inventory ≡ 1) items
      → ((p : ℕ) → stock p after.tables.inventory ≡ stock p db.tables.inventory + demand p items)
        × ((p : ℕ) → shelves p after.tables.inventory ≡ shelves p db.tables.inventory)
  unfolding restock_items
  restock_items-returns [] db after e h = (λ p. ground arith, λ p. ground arith)
  restock_items-returns (item ∷ items) db after e h =
      let rest = restock_items-cons item items db after e in
      let now = engine.clock db.calls in
      let rows = db.tables.inventory in
      let mid = restocked item db in
      let stocked : All (λ i. shelves i.product_id mid.tables.inventory ≡ 1) items =
        All-map (λ i. shelves i.product_id rows ≡ 1) _ items
          (λ i q. omega (arith, q, shelves-return i.product_id now item rows)) h.1 in
      let ih = restock_items-returns items mid after rest stocked in
      (
        λ p. ground (arith, ih.0 p, h.0, stock-return p now item rows),
        λ p. omega (arith, ih.1 p, shelves-return p now item rows),
      )
