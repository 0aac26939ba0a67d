-- ===== src/Services/Product.antt =====
-- internal/services/product.go with internal/dto/product.go: the catalogue, page by page, and its writes.
pub mod Frame
pub mod Pages
pub mod RoundTrip
mod Tests
use order_processing_system.Base.{
  ℕ, ◌-◌, ◌*◌, ◌^◌, ◌%◌, Option, none, some, List, map, ltb, if◌then◌else◌,
}
use order_processing_system.Base.Int.{ℤ, pos, pos_part, ltb_ℤ, of_bits64}
use order_processing_system.Models.{Text, Float64, Time, Product, Inventory}
use order_processing_system.Database.{Engine, Query, ◌>>=◌, pure}
use order_processing_system.Repository.Product.Writes.{
  create_product as create_row, update_product as update_row,
}
use order_processing_system.Repository.Product.{
  list_products as list_rows, get_product as get_row, get_inventory as get_inventory_row,
}

pub record ProductResponse : Type 0 where
  pub id : ℕ
  pub name : Text
  pub image : Option Text
  pub description : Option Text
  pub price : Float64
  pub quantity : ℕ
  pub created_at : Time
  pub updated_at : Time

pub record CreateProductRequest : Type 0 where
  pub name : Text
  pub image : Option Text
  pub description : Option Text
  pub price : Float64
  pub quantity : ℕ

pub record UpdateProductRequest : Type 0 where
  pub name : Text
  pub image : Option Text
  pub description : Option Text
  pub price : Float64
  pub quantity : ℕ

pub record ListProductsRequest : Type 0 where
  pub page : ℤ
  pub page_size : ℤ

pub record ListProductsResponse : Type 0 where
  pub items : List ProductResponse
  pub total : ℕ
  pub page : ℕ
  pub page_size : ℕ

pub record InventoryResponse : Type 0 where
  pub product_id : ℕ
  pub quantity : ℕ
  pub updated_at : Time

abbrev pub default_page : ℕ
default_page = 1

abbrev pub default_page_size : ℕ
default_page_size = 20

abbrev pub max_page_size : ℕ
max_page_size = 100

-- resp.Quantity stays zero without an inventory row.
abbrev pub quantity_of : Option Inventory → ℕ
quantity_of none = 0
quantity_of (some i) = i.quantity

abbrev pub to_product_response : Product → ProductResponse
to_product_response p = record {
  id = p.id;
  name = p.name;
  image = p.image;
  description = p.description;
  price = p.price;
  quantity = quantity_of p.inventory;
  created_at = p.created_at;
  updated_at = p.updated_at;
}

abbrev pub to_inventory_response : Inventory → InventoryResponse
to_inventory_response i = record {
  product_id = i.product_id;
  quantity = i.quantity;
  updated_at = i.updated_at;
}

-- The page that is asked for, and its size; both are positive.
unfoldable pub page_of : ListProductsRequest → ℕ
page_of req = if ltb_ℤ req.page (pos 1) then default_page else pos_part req.page

unfoldable pub page_size_of : ListProductsRequest → ℕ
page_size_of req =
    let size = if ltb_ℤ req.page_size (pos 1) then default_page_size else pos_part req.page_size in
    if ltb max_page_size size then max_page_size else size

-- (page-1)*pageSize, in int64
unfoldable pub offset_of : ListProductsRequest → ℤ
offset_of req = of_bits64 ((page_of req - 1) * page_size_of req % 2 ^ 64)

abbrev pub new_inventory : ℕ → ℕ → Inventory
new_inventory product_id quantity = record {
  id = 0;
  product_id = product_id;
  quantity = quantity;
  updated_at = 0;
}

abbrev pub new_product : CreateProductRequest → Product
new_product req = record {
  id = 0;
  name = req.name;
  image = req.image;
  description = req.description;
  price = req.price;
  inventory = some (new_inventory 0 req.quantity);
  created_at = 0;
  updated_at = 0;
}

-- The inventory row that was read, or a new one for the product.
abbrev pub inventory_or_new : ℕ → Option Inventory → Inventory
inventory_or_new id none = new_inventory id 0
inventory_or_new id (some inventory) = inventory

abbrev pub changed_product : ℕ → UpdateProductRequest → Product → Product
changed_product id req product = record product {
  name = req.name;
  image = req.image;
  description = req.description;
  price = req.price;
  inventory = some (record (inventory_or_new id product.inventory) { quantity = req.quantity });
}

module _ (engine : Engine) where
  unfoldable pub list_products : ListProductsRequest → Query ListProductsResponse
  list_products req = do
    (products, total) ← list_rows engine (page_size_of req) (offset_of req)
    pure (record {
      items = map to_product_response products;
      total = total;
      page = page_of req;
      page_size = page_size_of req;
    })

  unfoldable pub get_product : ℕ → Query ProductResponse
  get_product id = do product ← get_row engine id; pure (to_product_response product)

  unfoldable pub get_inventory : ℕ → Query InventoryResponse
  get_inventory product_id = do
    inventory ← get_inventory_row engine product_id
    pure (to_inventory_response inventory)

  unfoldable pub create_product : CreateProductRequest → Query ProductResponse
  create_product req = do
    product ← create_row engine (new_product req)
    pure (to_product_response product)

  unfoldable pub update_product : ℕ → UpdateProductRequest → Query ProductResponse
  update_product id req = do
    product ← get_row engine id
    saved ← update_row engine (changed_product id req product)
    pure (to_product_response saved)
