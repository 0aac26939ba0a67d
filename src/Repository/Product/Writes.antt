-- ===== src/Repository/Product/Writes.antt =====
-- internal/repository/product.go: CreateProduct and UpdateProduct, with the inventory row. The row holds
-- what the column makes of the price, and the returned struct keeps the price as it was given.
use order_processing_system.Base.{
  suc, Bool, ◌&&◌, not, Option, none, some, [], ◌∷◌, ◌++◌, ◌==◌, find, update_where, count_where,
  if◌then◌else◌,
}
use order_processing_system.Models.{
  Time, Float64, Product, Inventory, duplicated_key, foreign_key_violated, generated_id,
  invalid_value, ok, err,
}
use order_processing_system.Database.{Engine, Query, ◌>>=◌, pure, send, transaction}

-- INSERT INTO products. The inventory is a row of its own.
unfoldable pub insert_product : (Float64 → Option Float64) → Time → Product → Query Product
insert_product numeric now product db =
    let id = db.seq.product in
    let created = record product { id = id; created_at = now; updated_at = now } in
    let drawn = record db { seq = record (db.seq) { product = suc id } } in
    elim (numeric product.price) [
      | none ↦ (err invalid_value, drawn)
      | some price ↦ (
        ok created,
        record drawn {
          tables = record (db.tables) {
            products =
                db.tables.products ++ (record created { price = price; inventory = none } ∷ []);
          };
        },
      )
    ]

-- INSERT INTO inventory: one row for a product, which has to exist.
unfoldable pub insert_inventory : Time → Inventory → Query Inventory
insert_inventory now row db =
    let id = db.seq.inventory in
    let created = record row { id = id; updated_at = now } in
    let drawn = record db { seq = record (db.seq) { inventory = suc id } } in
    elim (find (λ (i : Inventory). i.product_id == row.product_id) db.tables.inventory) [
      | some _ ↦ (err duplicated_key, drawn)
      | none ↦ elim (find (λ (p : Product). p.id == row.product_id) db.tables.products) [
        | none ↦ (err foreign_key_violated, drawn)
        | some _ ↦ (
          ok created,
          record drawn {
            tables = record (db.tables) { inventory = db.tables.inventory ++ (created ∷ []) };
          },
        )
      ]
    ]

-- Omit("Inventory").Save: without such a row gorm inserts it with its id, which the database refuses.
unfoldable pub save_product : (Float64 → Option Float64) → Time → Product → Query Product
save_product numeric now product db =
    let saved = record product { updated_at = now } in
    if count_where (λ (p : Product). p.id == product.id) db.tables.products == 0
    then (err generated_id, db)
    else (elim (numeric product.price) [
      | none ↦ (err invalid_value, db)
      | some price ↦ (
        ok saved,
        record db {
          tables = record (db.tables) {
            products =
                update_where (λ p. p.id == product.id)
                  (λ _. record saved { price = price; inventory = none }) db.tables.products;
          };
        },
      )
    ])

-- UNIQUE (product_id), among the rows with another id
abbrev pub takes_product : Inventory → Inventory → Bool
takes_product inventory row = not (row.id == inventory.id) && row.product_id == inventory.product_id

-- UPDATE of an inventory row, every column.
unfoldable pub update_inventory_row : Time → Inventory → Query Inventory
update_inventory_row now inventory db =
    let saved = record inventory { updated_at = now } in
    if count_where (λ (i : Inventory). i.id == inventory.id) db.tables.inventory == 0
    then (err generated_id, db)
    else (elim (find (takes_product inventory) db.tables.inventory) [
      | some _ ↦ (err duplicated_key, db)
      | none ↦ (
        ok saved,
        record db {
          tables = record (db.tables) {
            inventory = update_where (λ i. i.id == inventory.id) (λ _. saved) db.tables.inventory;
          };
        },
      )
    ])

-- Save of an inventory row: one without an id is inserted.
unfoldable pub save_inventory : Time → Inventory → Query Inventory
unfolding insert_inventory update_inventory_row
save_inventory now inventory =
    if inventory.id == 0 then insert_inventory now inventory else update_inventory_row now inventory

module _ (engine : Engine) where
  -- The has-one association is inserted with the id of the product.
  unfoldable pub create_product_body : Product → Query Product
  create_product_body product = do
    created ← send engine (λ now. insert_product engine.numeric now product)
    elim product.inventory [
      | none ↦ pure created
      | some inventory ↦ do
        row ←
            send engine (λ now. insert_inventory now (record inventory { product_id = created.id }))
        pure (record created { inventory = some row })
    ]

  unfoldable pub create_product : Product → Query Product
  unfolding create_product_body transaction
  create_product product = transaction engine (create_product_body product)

  unfoldable pub update_product_body : Product → Query Product
  update_product_body product = do
    saved ← send engine (λ now. save_product engine.numeric now product)
    elim product.inventory [
      | none ↦ pure saved
      | some inventory ↦ do
        row ← send engine (λ now. save_inventory now inventory)
        pure (record saved { inventory = some row })
    ]

  unfoldable pub update_product : Product → Query Product
  unfolding update_product_body transaction
  update_product product = transaction engine (update_product_body product)
