-- ===== src/Services/Order/Lines.antt =====
-- What the lines of a request for an order ask for, and what becomes of it in internal/services/order.go.
use order_processing_system.Base.{
  ℕ, ◌+◌, ◌<◌, ◌≡◌, refl, ◌∙◌, inl, inr, none, List, [], ◌∷◌, ◌==◌, if◌then◌else◌, arith, All,
  Option-cases,
}
use order_processing_system.Models.{Float64, Product, Order, OrderItem, ok, Result-cases}
use order_processing_system.Repository.Order.Stock.{demand}
use order_processing_system.Repository.Order.Ledger.{order_status}
use order_processing_system.Services.Order.{
  OrderItemRequest, Arithmetic, insert_item, sort_items, price_of, build_items,
}

-- The units of a product that a request asks for.
abbrev pub requested : ℕ → List OrderItemRequest → ℕ
requested p [] = 0
requested p (item ∷ items) = (if item.product_id == p then item.quantity else 0) + requested p items

demand-insert_item :
    (p : ℕ) (x : OrderItem) (xs : List OrderItem) → demand p (insert_item x xs) ≡ demand p (x ∷ xs)
unfolding insert_item
demand-insert_item p x [] = refl
demand-insert_item p x (y ∷ ys) = ground (arith, demand-insert_item p x ys)

pub demand-sort_items : (p : ℕ) (xs : List OrderItem) → demand p (sort_items xs) ≡ demand p xs
unfolding sort_items
demand-sort_items p [] = refl
demand-sort_items p (x ∷ xs) =
    demand-insert_item p x (sort_items xs) ∙ (omega (arith, demand-sort_items p xs))

pub order_status_of_unused :
    (n : ℕ) (orders : List Order) → All (λ o. o.id < n) orders → order_status n orders ≡ none
order_status_of_unused n [] h = refl
order_status_of_unused n (o ∷ os) h = ground (arith, order_status_of_unused n os h.1)

pub demand-build_items :
    (float : Arithmetic) (p : ℕ) (products : List Product) (total : Float64)
    (items : List OrderItemRequest) {lines : List OrderItem} {sum : Float64}
    → build_items float products total items ≡ ok (lines, sum)
    → demand p lines ≡ requested p items
unfolding build_items
demand-build_items float p products total [] e = ground arith
demand-build_items float p products total (item ∷ items) e =
    elim (Option-cases (price_of item.product_id products)) [
      | inl missing ↦ ground arith
      | inr (price, found) ↦
          elim (Result-cases (
            build_items float products (float.plus total (float.times price item.quantity))
              items)) [
                | inl ((rest, sum'), built) ↦ ground (
                  arith,
                  demand-build_items float p products
                      (float.plus total (float.times price item.quantity)) items built,
                )
                | inr (x, failed) ↦ ground arith
              ]
    ]
