-- ===== src/Services/Product/Frame.antt =====
-- What the methods of internal/services/product.go leave in the tables.
use order_processing_system.Base.{ℕ, arith}
use order_processing_system.Base.Int.{ℤ}
use order_processing_system.Models.{Product}
use order_processing_system.Database.{Engine}
use order_processing_system.Database.Frame.{
  Keeps, >>=-Keeps, pure-Keeps, Undoes, >>=-Undoes, pure_after-Undoes, transaction-Undoes,
}
use order_processing_system.Repository.Product as Repository
use order_processing_system.Repository.Product.Writes as Writes
use order_processing_system.Services.Product.{
  ListProductsRequest, CreateProductRequest, UpdateProductRequest, page_size_of, offset_of,
  new_product, changed_product, to_product_response, list_products, get_product, get_inventory,
  create_product, update_product,
}

module _ (engine : Engine) where
  rows-Keeps :
      (limit : ℕ) (offset : ℤ) → Keeps (λ t. t) (Repository.list_products engine limit offset)
  unfolding Repository.list_products
  rows-Keeps limit offset = record { keeps = λ db. ground arith }

  pub row-Keeps : (id : ℕ) → Keeps (λ t. t) (Repository.get_product engine id)
  unfolding Repository.get_product
  row-Keeps id = record { keeps = λ db. ground arith }

  shelf-Keeps : (id : ℕ) → Keeps (λ t. t) (Repository.get_inventory engine id)
  unfolding Repository.get_inventory
  shelf-Keeps id = record { keeps = λ db. ground arith }

  pub list_products-Keeps : (req : ListProductsRequest) → Keeps (λ t. t) (list_products engine req)
  unfolding list_products
  list_products-Keeps req = record {
    keeps = λ db. ground (arith, (rows-Keeps (page_size_of req) (offset_of req)).keeps db);
  }

  pub get_product-Keeps : (id : ℕ) → Keeps (λ t. t) (get_product engine id)
  unfolding get_product
  get_product-Keeps id =
      >>=-Keeps (λ t. t) (Repository.get_product engine id) _ (row-Keeps id)
        (λ p. pure-Keeps (λ t. t) _)

  pub get_inventory-Keeps : (id : ℕ) → Keeps (λ t. t) (get_inventory engine id)
  unfolding get_inventory
  get_inventory-Keeps id =
      >>=-Keeps (λ t. t) (Repository.get_inventory engine id) _ (shelf-Keeps id)
        (λ i. pure-Keeps (λ t. t) _)

  insert-Undoes : (product : Product) → Undoes (Writes.create_product engine product)
  unfolding Writes.create_product
  insert-Undoes product = transaction-Undoes engine (Writes.create_product_body engine product)

  save-Undoes : (product : Product) → Undoes (Writes.update_product engine product)
  unfolding Writes.update_product
  save-Undoes product = transaction-Undoes engine (Writes.update_product_body engine product)

  pub create_product-Undoes : (req : CreateProductRequest) → Undoes (create_product engine req)
  unfolding create_product
  create_product-Undoes req =
      pure_after-Undoes (Writes.create_product engine (new_product req)) to_product_response
        (insert-Undoes (new_product req))

  pub update_product-Undoes :
      (id : ℕ) (req : UpdateProductRequest) → Undoes (update_product engine id req)
  unfolding update_product
  update_product-Undoes id req =
      >>=-Undoes (Repository.get_product engine id) _ (row-Keeps id) (λ product.
        pure_after-Undoes (Writes.update_product engine (changed_product id req product))
          to_product_response (save-Undoes (changed_product id req product)))
