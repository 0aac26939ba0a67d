-- ===== src/Services/Product/RoundTrip.antt =====
-- A product that CreateProduct of internal/services/product.go stored is what GetProduct reads.
use order_processing_system.Base.{ℕ, ◌≡◌, Option, none, some, [], ◌∷◌, ◌++◌, ◌==◌, find}
use order_processing_system.Models.{Time, Float64, Product, Inventory}
use order_processing_system.Database.{Tables}
use order_processing_system.Repository.Product.Writes as Writes
use order_processing_system.Repository.Product as Repository
use order_processing_system.Services.Product.{CreateProductRequest, new_product}

-- The new row of the product and that of its inventory, each last in its table.
pub record Stored (numeric : Float64 → Option Float64) (req : CreateProductRequest) (old : Tables)
    (next : ℕ) (new : Tables) (stored : Product) : Type 0 where
  pub row : Product
  pub shelf : Inventory
  pub made : stored ≡ record row { inventory = some shelf }
  pub id : row.id ≡ next
  pub named : row.name ≡ req.name
  pub priced : row.price ≡ req.price
  pub column : Float64
  pub fits : numeric req.price ≡ some column
  pub of_row : shelf.product_id ≡ row.id
  pub quantity : shelf.quantity ≡ req.quantity
  pub alone : find (λ (i : Inventory). i.product_id == row.id) old.inventory ≡ none
  pub products :
      new.products ≡ old.products ++ (record row { price = column; inventory = none } ∷ [])
  pub inventory : new.inventory ≡ old.inventory ++ (shelf ∷ [])

abbrev product_row : Time → ℕ → CreateProductRequest → Product
product_row now id req = record (new_product req) { id = id; created_at = now; updated_at = now }
