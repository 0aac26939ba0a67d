-- ===== src/Services/Product/Tests.antt =====
-- The second page of a catalogue of three products.
use order_processing_system.Base.{
  ℕ, ◌-◌, ◌*◌, ◌/◌, ◌≤◌, ◌≡◌, refl, none, some, [], ◌∷◌, ◌++◌, take, length, arith, codes,
}
use order_processing_system.Base.Int.{pos, negsuc}
use order_processing_system.Models.{Product, ok}
use order_processing_system.Database.{Db, Engine}
use order_processing_system.Repository.Product.{list_products as list_rows}
use order_processing_system.Services.Product.{
  ProductResponse, ListProductsRequest, ListProductsResponse, max_page_size, page_of, page_size_of,
  offset_of, list_products, CreateProductRequest, create_product,
}
use order_processing_system.Repository.Product.Writes.{
  create_product as create_row, create_product_body, insert_product, insert_inventory,
}
use order_processing_system.Services.Product.Pages.{catalogue, list_products-pages}

abbrev calm : Engine
calm = record { fault = λ n. none; clock = λ n. n; numeric = λ x. some (x / 10 * 10) }

abbrev product : ℕ → Product
product id = record {
  id = id;
  name = [];
  image = none;
  description = none;
  price = 2;
  inventory = none;
  created_at = 0;
  updated_at = 0;
}

abbrev store : Db
store = record {
  tables = record {
    users = [];
    products = product 1 ∷ product 2 ∷ product 3 ∷ [];
    inventory = record { id = 1; product_id = 3; quantity = 8; updated_at = 0 } ∷ [];
    orders = [];
    order_items = [];
    payments = [];
    notifications = [];
  };
  seq = record {
    user = 1;
    product = 4;
    inventory = 2;
    order = 1;
    order_item = 1;
    payment = 1;
    notification = 1;
  };
  calls = 0;
}

abbrev second : ListProductsRequest
second = record { page = pos 2; page_size = pos 2 }

abbrev third_product : ProductResponse
third_product = record {
  id = 3;
  name = [];
  image = none;
  description = none;
  price = 2;
  quantity = 8;
  created_at = 0;
  updated_at = 0;
}

abbrev response : ListProductsResponse
response = record { items = third_product ∷ []; total = 3; page = 2; page_size = 2 }

second_page : (list_products calm second store).0 ≡ ok response
unfolding list_products list_rows page_of page_size_of offset_of
second_page = refl

defaults :
    (page_of (record { page = negsuc 4; page_size = pos 0 }) ≡ 1)
    × (page_size_of (record { page = pos 1; page_size = pos 1000 }) ≡ 100)
unfolding page_of page_size_of
defaults = (refl, refl)

second_fits : (page_of second - 1) * page_size_of second ≡ 2
unfolding page_of page_size_of
second_fits = refl

list_products-pages_example :
    (1 ≤ 2)
    × (1 ≤ 2)
    × (2 ≤ max_page_size)
    × (3 ≡ length (catalogue store))
    × (take ((2 - 1) * 2) (catalogue store) ++ (third_product ∷ [])
        ≡ take (2 * 2) (catalogue store))
list_products-pages_example =
    list_products-pages calm second store response (omega (arith, second_fits)) second_page

abbrev lamp : CreateProductRequest
lamp = record { name = codes "lamp"; image = none; description = none; price = 1005; quantity = 3 }

abbrev lit : ProductResponse
lit = record {
  id = 4;
  name = codes "lamp";
  image = none;
  description = none;
  price = 1005;
  quantity = 3;
  created_at = 1;
  updated_at = 1;
}

abbrev stocked : Db
unfolding create_product create_row insert_product insert_inventory create_product_body
stocked = (create_product calm lamp store).1
