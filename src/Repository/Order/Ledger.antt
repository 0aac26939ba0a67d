-- ===== src/Repository/Order/Ledger.antt =====
-- The invariant that ties the tables of internal/repository/order.go together, and the units that
-- orders hold.
use order_processing_system.Base.{
  ℕ, ◌+◌, ◌≤◌, ◌<◌, ◌≡◌, ◌≢◌, refl, Bool, true, false, ◌&&◌, Option, none, some, List, [], ◌∷◌,
  ◌++◌, ◌==◌, if◌then◌else◌, select, update_where, arith, All,
}
use order_processing_system.Models.{Time, Order, OrderItem, Payment, OrderStatus, PaymentStatus}
use order_processing_system.Database.{Tables, Sequences}
use order_processing_system.Repository.Order.{order_pending, move_order}
use order_processing_system.Repository.Order.Stock.{stock, demand, shelves}

-- The status of the order with this id.
abbrev pub order_status : ℕ → List Order → Option OrderStatus
order_status k [] = none
order_status k (o ∷ os) = if o.id == k then some o.status else order_status k os

-- An order holds its units until it is cancelled.
abbrev pub holds : Option OrderStatus → Bool
holds (some OrderStatus.cancelled) = false
holds (some _) = true
holds none = false

abbrev pub reserved : ℕ → List Order → List OrderItem → ℕ
reserved p orders [] = 0
reserved p orders (i ∷ is) =
    (if i.product_id == p && holds (order_status i.order_id orders) then i.quantity else 0)
    + reserved p orders is

-- The units of a product that the system knows of, on the shelf or in a live order.
abbrev pub units : ℕ → Tables → ℕ
units p t = stock p t.inventory + reserved p t.orders t.order_items

-- A payment's status decides its order's.
abbrev pub Agree : PaymentStatus → Option OrderStatus → Type 0
Agree PaymentStatus.pending s = s ≡ some OrderStatus.pending
Agree PaymentStatus.paid s = s ≡ some OrderStatus.confirmed
Agree PaymentStatus.failed s = s ≡ some OrderStatus.cancelled
Agree PaymentStatus.refunded s = ⊥

abbrev pub Apart : Payment → Payment → Type 0
Apart r s = (s.id ≢ r.id) × (s.order_id ≢ r.order_id)

-- No two payments share an id or an order.
abbrev pub Distinct : List Payment → Type 0
Distinct [] = Unit {0}
Distinct (r ∷ rs) = All (Apart r) rs × Distinct rs

abbrev pub Agreement : List Order → List Payment → Type 0
Agreement orders = All (λ r. Agree r.status (order_status r.order_id orders))

pub record Consistent (t : Tables) (seq : Sequences) : Type 0 where
  pub orders_old : All (λ o. o.id < seq.order) t.orders
  pub items_old : All (λ i. i.order_id < seq.order) t.order_items
  pub payments_old : All (λ r. (r.id < seq.payment) × (r.order_id < seq.order)) t.payments
  pub distinct : Distinct t.payments
  pub agreement : Agreement t.orders t.payments
  pub one_shelf : (p : ℕ) → shelves p t.inventory ≤ 1
  pub shelved : All (λ i. shelves i.product_id t.inventory ≡ 1) t.order_items

-- A status after an UPDATE that moves pending orders.
abbrev pub shift : OrderStatus → Option OrderStatus → Option OrderStatus
shift s (some OrderStatus.pending) = some s
shift s o = o

pub order_status-move :
    (k id : ℕ) (now : Time) (s : OrderStatus) (orders : List Order)
    → order_status k (update_where (order_pending id) (move_order now s) orders)
      ≡ (if k == id then shift s (order_status k orders) else order_status k orders)
order_status-move k id now s [] = ground arith
order_status-move k id now s (o ∷ os) = ground (arith, order_status-move k id now s os)

pub order_status-append_old :
    (k n : ℕ) (orders : List Order) (o : Order)
    → k < n
    → o.id ≡ n
    → order_status k (orders ++ (o ∷ [])) ≡ order_status k orders
order_status-append_old k n [] o h e = ground arith
order_status-append_old k n (x ∷ xs) o h e = ground (arith, order_status-append_old k n xs o h e)

pub order_status-append_new :
    (n : ℕ) (orders : List Order) (o : Order)
    → All (λ x. x.id < n) orders
    → o.id ≡ n
    → order_status n (orders ++ (o ∷ [])) ≡ some o.status
order_status-append_new n [] o h e = ground arith
order_status-append_new n (x ∷ xs) o h e = ground (arith, order_status-append_new n xs o h.1 e)

pub reserved-append :
    (p : ℕ) (orders : List Order) (xs ys : List OrderItem)
    → reserved p orders (xs ++ ys) ≡ reserved p orders xs + reserved p orders ys
reserved-append p orders [] ys = omega arith
reserved-append p orders (x ∷ xs) ys = omega (arith, reserved-append p orders xs ys)

-- The items of one live order are all reserved.
pub reserved_of_live :
    (p n : ℕ) (orders : List Order) (items : List OrderItem)
    → All (λ i. i.order_id ≡ n) items
    → holds (order_status n orders) ≡ true
    → reserved p orders items ≡ demand p items
reserved_of_live p n orders [] own h = refl
reserved_of_live p n orders (i ∷ is) own h = ground (arith, reserved_of_live p n orders is own.1 h)

-- Items of older orders do not see a new order.
pub reserved-append_order :
    (p n : ℕ) (orders : List Order) (o : Order) (items : List OrderItem)
    → All (λ i. i.order_id < n) items
    → o.id ≡ n
    → reserved p (orders ++ (o ∷ [])) items ≡ reserved p orders items
reserved-append_order p n orders o [] old e = refl
reserved-append_order p n orders o (i ∷ is) old e = ground (
  arith,
  reserved-append_order p n orders o is old.1 e,
  order_status-append_old i.order_id n orders o old.0 e,
)

pub reserved-confirm :
    (p id : ℕ) (now : Time) (orders : List Order) (items : List OrderItem)
    → reserved p
        (update_where (order_pending id) (move_order now OrderStatus.confirmed) orders)
        items
      ≡ reserved p orders items
reserved-confirm p id now orders [] = refl
reserved-confirm p id now orders (i ∷ is) = ground (
  arith,
  reserved-confirm p id now orders is,
  order_status-move i.order_id id now OrderStatus.confirmed orders,
)

-- Cancelling a pending order frees what its items ask for.
pub reserved-cancel :
    (p id : ℕ) (now : Time) (orders : List Order) (items : List OrderItem)
    → order_status id orders ≡ some OrderStatus.pending
    → reserved p
          (update_where (order_pending id) (move_order now OrderStatus.cancelled) orders)
          items
        + demand p (select (λ i. i.order_id == id) items)
      ≡ reserved p orders items
reserved-cancel p id now orders [] h = refl
reserved-cancel p id now orders (i ∷ is) h = ground (
  arith,
  reserved-cancel p id now orders is h,
  order_status-move i.order_id id now OrderStatus.cancelled orders,
)
