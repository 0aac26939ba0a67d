-- ===== src/Services/Order/Tests.antt =====
-- A cart for a small shop, sent twice, and the theorems on internal/services/order.go at it.
use mathlib.Core.List.{Permᴰ}
use order_processing_system.Base.{
  ℕ, ◌+◌, ◌≡◌, refl, Bool, false, ◌||◌, not, none, some, List, [], ◌∷◌, ◌++◌, arith, select,
}
use order_processing_system.Models.{
  Text, text_eq, text_eq_refl, Product, OrderStatus, ok, err, duplicate_order, product_not_found,
}
use order_processing_system.Database.{Engine}
use order_processing_system.Repository.Order.{
  create_order as insert_whole_order, insert_order, insert_items, insert_payment,
}
use order_processing_system.Repository.Order.Ledger.{Consistent}
use order_processing_system.Repository.Order.Conservation.{Conserves}
use order_processing_system.Repository.Product.{get_products_by_ids}
use order_processing_system.Idempotency.{Store, Exclusive}
use order_processing_system.Services.Order.{
  OrderItemRequest, OrderResponse, OrderProcessor, Arithmetic, World, idempotency_key, persist,
  place_built, place_priced, place, reserved, build_items, sort_items, insert_item, create_order,
}
use order_processing_system.Services.Order.Place.{Refused}
use order_processing_system.Services.Order.Outcome.{
  OrderOutcome, create_order-outcome, place_order-Conserves,
}
use order_processing_system.Services.Order.Reading.{idempotency_key-determines}
use order_processing_system.Services.Order.Key.{idempotency_key-Perm, resubmit-Refused}

abbrev pub calm : Engine
calm = record { fault = λ n. none; clock = λ n. n; numeric = some }

-- A store without a clock: the keys that are held.
abbrev is_held : List Text → Text → Bool
is_held [] key = false
is_held (k ∷ ks) key = text_eq k key || is_held ks key

abbrev memory : Store (List Text)
memory = record {
  reserve = λ key ttl s. (ok (not (is_held s key)), key ∷ s);
  release = λ key s. (ok tt, select (λ k. not (text_eq k key)) s);
}

memory-Exclusive : Exclusive memory
memory-Exclusive = record {
  held = is_held;
  claims = λ key ttl s e. ground (arith, text_eq_refl key);
  excludes = λ key ttl s h. ground arith;
}

abbrev pub line_up : OrderProcessor (List ℕ)
line_up = record { process = λ id q. q ++ (id ∷ []) }

abbrev pub whole_numbers : Arithmetic
whole_numbers = record { times = λ a n. a + n; plus = λ a b. a + b }

abbrev pub plain : Text → Text
plain s = s

abbrev product : ℕ → Product
product id = record {
  id = id;
  name = [];
  image = none;
  description = none;
  price = 2;
  inventory = none;
  created_at = 0;
  updated_at = 0;
}

abbrev pub opening : World (List Text) (List ℕ)
opening = record {
  db = record {
    tables = record {
      users =
          record {
            id = 1;
            name = [];
            email = [];
            password = [];
            role = [];
            created_at = 0;
            updated_at = 0;
          }
          ∷ [];
      products = product 7 ∷ product 9 ∷ [];
      inventory =
          record { id = 1; product_id = 7; quantity = 10; updated_at = 0 }
          ∷ record { id = 2; product_id = 9; quantity = 5; updated_at = 0 }
          ∷ [];
      orders = [];
      order_items = [];
      payments = [];
      notifications = [];
    };
    seq = record {
      user = 2;
      product = 10;
      inventory = 3;
      order = 1;
      order_item = 1;
      payment = 1;
      notification = 1;
    };
    calls = 0;
  };
  store = [];
  queue = [];
}

pub opening-Consistent : Consistent opening.db.tables opening.db.seq
opening-Consistent = record {
  orders_old = tt;
  items_old = tt;
  payments_old = tt;
  distinct = tt;
  agreement = tt;
  one_shelf = λ p. ground arith;
  shelved = tt;
}

abbrev nine : OrderItemRequest
nine = record { product_id = 9; quantity = 1 }

abbrev seven : OrderItemRequest
seven = record { product_id = 7; quantity = 4 }

abbrev pub cart : List OrderItemRequest
cart = nine ∷ seven ∷ []

abbrev turned : List OrderItemRequest
turned = seven ∷ nine ∷ []

abbrev response : OrderResponse
response = record {
  id = 1;
  user_id = 1;
  status = OrderStatus.pending;
  total_price = 9;
  items =
      record { product_id = 7; quantity = 4; price_at_purchase = 2 }
      ∷ record { product_id = 9; quantity = 1; price_at_purchase = 2 }
      ∷ [];
  created_at = 4;
  updated_at = 4;
}

first_response :
    (create_order calm memory line_up plain whole_numbers (5 ∷ []) 1 cart opening).0 ≡ ok response
unfolding create_order reserved place place_priced place_built persist build_items sort_items
    insert_item insert_whole_order insert_order insert_items insert_payment get_products_by_ids
first_response = refl

missing_product :
    (create_order calm memory line_up plain whole_numbers
      (5 ∷ [])
      1
      (record { product_id = 8; quantity = 1 } ∷ [])
      opening).0
    ≡ err (product_not_found 8)
unfolding create_order reserved place place_priced place_built persist build_items
    get_products_by_ids
missing_product = refl

create_order-outcome_example :
    OrderOutcome calm memory line_up plain whole_numbers 1 cart opening
      (create_order calm memory line_up plain whole_numbers (5 ∷ []) 1 cart opening)
create_order-outcome_example =
    create_order-outcome calm memory line_up plain whole_numbers (5 ∷ []) 1 cart opening
      opening-Consistent

place_order-Conserves_example :
    let w = (create_order calm memory line_up plain whole_numbers (5 ∷ []) 1 cart opening).1 in
    Conserves opening.db.tables w.db.tables w.db.seq
place_order-Conserves_example =
    place_order-Conserves calm memory line_up plain whole_numbers (5 ∷ []) 1 cart opening
      opening-Consistent

idempotency_key-Perm_example : idempotency_key plain 1 turned ≡ idempotency_key plain 1 cart
idempotency_key-Perm_example = idempotency_key-Perm plain 1 (Permᴰ.swap refl refl) refl

resubmit-Refused_example :
    let first = create_order calm memory line_up plain whole_numbers (5 ∷ []) 1 cart opening in
    let again = create_order calm memory line_up plain whole_numbers (6 ∷ []) 1 turned first.1 in
    (again.0 ≡ err duplicate_order) × Refused line_up first.1 again.1
resubmit-Refused_example =
    resubmit-Refused calm memory memory-Exclusive line_up plain whole_numbers (5 ∷ []) (6 ∷ []) 1
      cart turned response opening opening-Consistent (Permᴰ.swap refl refl) first_response refl

idempotency_key-determines_example : (◌≡◌ {A = ℕ} 1 1) × Permᴰ turned cart
idempotency_key-determines_example =
    idempotency_key-determines plain 1 1 turned cart (λ e. e)
      (idempotency_key-Perm plain 1 (Permᴰ.swap refl refl) refl)
