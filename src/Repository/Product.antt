-- ===== src/Repository/Product.antt =====
-- internal/repository/product.go: the reads of products and of their inventory. The writes are in Writes.
pub mod Writes
use order_processing_system.Base.{
  ℕ, Bool, ◌||◌, false, none, some, List, [], ◌∷◌, ◌==◌, map, take, drop, length, find, select,
}
use order_processing_system.Base.Int.{ℤ, pos_part}
use order_processing_system.Models.{Product, Inventory, record_not_found, ok}
use order_processing_system.Database.{Db, Engine, Query, ◌>>=◌, pure, fail, send}

-- id IN ?
abbrev pub one_of : List ℕ → ℕ → Bool
one_of [] id = false
one_of (x ∷ xs) id = x == id || one_of xs id

-- Preload("Inventory")
abbrev pub preload_inventory : Db → Product → Product
preload_inventory db p = record p {
  inventory = find (λ (i : Inventory). i.product_id == p.id) db.tables.inventory;
}

module _ (engine : Engine) where
  -- ORDER BY id is the order of the table. gorm writes no OFFSET for a negative number.
  unfoldable pub list_products : ℕ → ℤ → Query (List Product × ℕ)
  list_products limit offset = do
    total ← send engine (λ _ db. (ok (length db.tables.products), db))
    products ← send engine (λ _ db. (
      ok (map (preload_inventory db) (take limit (drop (pos_part offset) db.tables.products))),
      db,
    ))
    pure (products, total)

  unfoldable pub get_product : ℕ → Query Product
  get_product id = do
    row ← send engine (λ _ db. (ok (find (λ (p : Product). p.id == id) db.tables.products), db))
    elim row [
      | none ↦ fail record_not_found
      | some p ↦ send engine (λ _ db. (ok (preload_inventory db p), db))
    ]

  unfoldable pub get_products_by_ids : List ℕ → Query (List Product)
  get_products_by_ids ids =
      send engine λ _ db. (ok (select (λ (p : Product). one_of ids p.id) db.tables.products), db)

  unfoldable pub get_inventory : ℕ → Query Inventory
  get_inventory product_id = do
    row ← send engine (λ _ db.
        (ok (find (λ (i : Inventory). i.product_id == product_id) db.tables.inventory), db))
    elim row [ none ↦ fail record_not_found | some i ↦ pure i ]
