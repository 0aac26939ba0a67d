-- ===== src/Services/Order.antt =====
-- internal/services/order.go with internal/dto/order.go: a request for an order becomes rows and a
-- queued id. The idempotency store, the processor, the hash, the uuid and the arithmetic of float64 are
-- parameters.
pub mod Frame
pub mod Lines
pub mod Place
pub mod Outcome
pub mod Claim
pub mod Key
pub mod Reading
mod Tests
use order_processing_system.Base.{
  ℕ, ◌*◌, Bool, true, false, ◌||◌, Option, none, some, List, [], ◌∷◌, ◌++◌, ◌==◌, leb,
  if◌then◌else◌, map, codes, itoa,
}
use order_processing_system.Base.Int.{ℤ, pos}
use order_processing_system.Models.{
  Text, Float64, Time, Product, Order, OrderItem, Payment, OrderStatus, PaymentStatus,
  duplicate_line_item, duplicate_order, product_not_found, Result, ok, err,
}
use order_processing_system.Database.{Db, Engine}
use order_processing_system.Repository.Order.{create_order as insert_whole_order}
use order_processing_system.Repository.Product.{get_products_by_ids}
use order_processing_system.Idempotency.{Store}

pub record OrderItemRequest : Type 0 where
  pub product_id : ℕ
  pub quantity : ℕ

pub record OrderItemResponse : Type 0 where
  pub product_id : ℕ
  pub quantity : ℕ
  pub price_at_purchase : Float64

pub record OrderResponse : Type 0 where
  pub id : ℕ
  pub user_id : ℕ
  pub status : OrderStatus
  pub total_price : Float64
  pub items : List OrderItemResponse
  pub created_at : Time
  pub updated_at : Time

-- services.OrderProcessor: takes an order's id for its fulfillment.
pub record OrderProcessor (Q : Type 0) : Type 0 where
  pub process : ℕ → Q → Q

-- `price * float64(quantity)` and `total + amount`.
pub record Arithmetic : Type 0 where
  pub times : Float64 → ℕ → Float64
  pub plus : Float64 → Float64 → Float64

pub record World (S Q : Type 0) : Type 0 where
  pub db : Db
  pub store : S
  pub queue : Q

-- 5 * time.Minute
abbrev pub idempotency_ttl : ℤ
idempotency_ttl = pos (300 * 1000000000)

-- Step 1: the ids seen so far, latest first.
abbrev pub is_seen : ℕ → List ℕ → Bool
is_seen id [] = false
is_seen id (x ∷ xs) = x == id || is_seen id xs

abbrev pub has_duplicate : List ℕ → List OrderItemRequest → Bool
has_duplicate seen [] = false
has_duplicate seen (item ∷ items) =
    let rest = has_duplicate (item.product_id ∷ seen) items in
    if is_seen item.product_id seen then true else rest

-- sort.Slice on the product's id, by insertion. Ids differ, so every sort gives this list.
unfoldable pub insert_request : OrderItemRequest → List OrderItemRequest → List OrderItemRequest
insert_request x [] = x ∷ []
insert_request x (y ∷ ys) =
    let rest = insert_request x ys in if leb x.product_id y.product_id then x ∷ y ∷ ys else y ∷ rest

unfoldable pub sort_requests : List OrderItemRequest → List OrderItemRequest
unfolding insert_request
sort_requests [] = []
sort_requests (x ∷ xs) = insert_request x (sort_requests xs)

unfoldable pub insert_item : OrderItem → List OrderItem → List OrderItem
insert_item x [] = x ∷ []
insert_item x (y ∷ ys) =
    let rest = insert_item x ys in if leb x.product_id y.product_id then x ∷ y ∷ ys else y ∷ rest

unfoldable pub sort_items : List OrderItem → List OrderItem
unfolding insert_item
sort_items [] = []
sort_items (x ∷ xs) = insert_item x (sort_items xs)

-- What is written to the hash for the lines of a cart.
abbrev pub lines_text : List OrderItemRequest → Text
lines_text [] = []
lines_text (item ∷ items) =
    codes "|" ++ (itoa item.product_id ++ (codes ":" ++ (itoa item.quantity ++ lines_text items)))

-- `hash` is sha256 with its hexadecimal print.
unfoldable pub idempotency_key : (Text → Text) → ℕ → List OrderItemRequest → Text
unfolding sort_requests
idempotency_key hash user_id items =
    hash (codes "u:" ++ (itoa user_id ++ lines_text (sort_requests items)))

-- priceByID: of two rows with one id the later counts.
abbrev pub price_of : ℕ → List Product → Option Float64
price_of id [] = none
price_of id (p ∷ ps) = elim (price_of id ps) [
  | some price ↦ some price
  | none ↦ if p.id == id then some p.price else none
]

abbrev pub order_line : OrderItemRequest → Float64 → OrderItem
order_line item price = record {
  id = 0;
  order_id = 0;
  product_id = item.product_id;
  quantity = item.quantity;
  price_at_purchase = price;
}

abbrev pub to_order_response : Order → OrderResponse
to_order_response o = record {
  id = o.id;
  user_id = o.user_id;
  status = o.status;
  total_price = o.total_price;
  items =
      map
        (λ (i : OrderItem). record {
          product_id = i.product_id;
          quantity = i.quantity;
          price_at_purchase = i.price_at_purchase;
        })
        o.items;
  created_at = o.created_at;
  updated_at = o.updated_at;
}

-- Step 4: the lines and the total, or the first product that is missing.
unfoldable pub build_items :
    Arithmetic → List Product → Float64 → List OrderItemRequest → Result (List OrderItem × Float64)
build_items float products total [] = ok ([], total)
build_items float products total (item ∷ items) = elim (price_of item.product_id products) [
  | none ↦ err (product_not_found item.product_id)
  | some price ↦
      elim (build_items float products (float.plus total (float.times price item.quantity)) items) [
        | err e ↦ err e
        | ok (lines, sum) ↦ ok (order_line item price ∷ lines, sum)
      ]
]

abbrev pub new_order : ℕ → List OrderItem → Float64 → Order
new_order user_id items total = record {
  id = 0;
  user_id = user_id;
  status = OrderStatus.pending;
  total_price = total;
  items = items;
  created_at = 0;
  updated_at = 0;
}

abbrev pub new_payment : Text → Float64 → Payment
new_payment uuid total = record {
  id = 0;
  order_id = 0;
  idempotency_key = uuid;
  status = PaymentStatus.pending;
  amount = total;
  provider_txn_id = none;
  created_at = 0;
  updated_at = 0;
}

module _ {S Q : Type 0} (engine : Engine) (store : Store S) (processor : OrderProcessor Q)
    (hash : Text → Text) (float : Arithmetic) where
  -- The error of a release is only logged.
  abbrev pub release : Text → World S Q → World S Q
  release key w = record w { store = (store.release key w.store).1 }

  -- Steps 5 and 6. `uuid` is what uuid.NewString returned.
  unfoldable pub persist :
      Text → Text → ℕ → List OrderItem × Float64 → World S Q → Result OrderResponse × World S Q
  unfolding sort_items
  persist uuid key user_id (lines, total) w =
      let (r, db) =
        insert_whole_order engine (new_order user_id (sort_items lines) total)
          (new_payment uuid total) w.db in
      elim r [
        | err e ↦ (err e, release key (record w { db = db }))
        | ok (made, paid) ↦ (
          ok (to_order_response made),
          record w { db = db; queue = processor.process made.id w.queue },
        )
      ]

  -- Step 4 has its lines, or a product is missing.
  unfoldable pub place_built :
      Text
      → Text
      → ℕ
      → Result (List OrderItem × Float64)
      → World S Q
      → Result OrderResponse × World S Q
  unfolding persist
  place_built uuid key user_id (err e) w = (err e, release key w)
  place_built uuid key user_id (ok built) w = persist uuid key user_id built w

  -- Step 3 has read the products, or failed.
  unfoldable pub place_priced :
      Text
      → Text
      → ℕ
      → List OrderItemRequest
      → Result (List Product)
      → World S Q
      → Result OrderResponse × World S Q
  unfolding build_items place_built
  place_priced uuid key user_id items (err e) w = (err e, release key w)
  place_priced uuid key user_id items (ok products) w =
      place_built uuid key user_id (build_items float products 0 items) w

  -- Steps 3 to 6, with the key reserved or the store out of reach.
  unfoldable pub place :
      Text → Text → ℕ → List OrderItemRequest → World S Q → Result OrderResponse × World S Q
  unfolding place_priced
  place uuid key user_id items w =
      let (r, db) =
        get_products_by_ids engine (map (λ (i : OrderItemRequest). i.product_id) items) w.db in
      place_priced uuid key user_id items r (record w { db = db })

  -- What follows the reservation; a store that cannot be reached does not stop the order.
  unfoldable pub reserved :
      Text
      → Text
      → ℕ
      → List OrderItemRequest
      → Result Bool
      → World S Q
      → Result OrderResponse × World S Q
  unfolding place
  reserved uuid key user_id items (ok false) w = (err duplicate_order, w)
  reserved uuid key user_id items (ok true) w = place uuid key user_id items w
  reserved uuid key user_id items (err e) w = place uuid key user_id items w

  unfoldable pub create_order :
      Text → ℕ → List OrderItemRequest → World S Q → Result OrderResponse × World S Q
  unfolding idempotency_key reserved
  create_order uuid user_id items w =
      let key = idempotency_key hash user_id items in
      let (r, s) = store.reserve key idempotency_ttl w.store in
      if has_duplicate [] items
      then (err duplicate_line_item, w)
      else reserved uuid key user_id items r (record w { store = s })
