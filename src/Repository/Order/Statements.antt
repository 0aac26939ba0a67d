-- ===== src/Repository/Order/Statements.antt =====
-- The statements of internal/repository/order.go: the conditions, the row updates, the inserts
-- with the constraints of the schema, and the reads.
use order_processing_system.Base.{
  ℕ, suc, ◌+◌, ◌-◌, Bool, true, false, ◌&&◌, Option, none, some, List, [], ◌∷◌, ◌++◌, leb, ltb,
  ◌==◌, if◌then◌else◌, find, select, update_where, count_where, take, map, length,
}
use order_processing_system.Models.{
  Text, Time, text_eq, User, Inventory, Order, OrderItem, Payment, OrderStatus, PaymentStatus,
  Error, user_not_found, foreign_key_violated, duplicated_key, check_violated, empty_slice, Result,
  ok, err,
}
use order_processing_system.Database.{Db, Query}

abbrev pub is_pending_order : OrderStatus → Bool
is_pending_order OrderStatus.pending = true
is_pending_order _ = false

abbrev pub is_pending : PaymentStatus → Bool
is_pending PaymentStatus.pending = true
is_pending _ = false

-- UPDATE on each table that the repository writes.
abbrev pub update_inventory : (Inventory → Bool) → (Inventory → Inventory) → Query ℕ
update_inventory p f db = (
  ok (count_where p db.tables.inventory),
  record db { tables = record (db.tables) { inventory = update_where p f db.tables.inventory } },
)

abbrev pub update_orders : (Order → Bool) → (Order → Order) → Query ℕ
update_orders p f db = (
  ok (count_where p db.tables.orders),
  record db { tables = record (db.tables) { orders = update_where p f db.tables.orders } },
)

abbrev pub update_payments : (Payment → Bool) → (Payment → Payment) → Query ℕ
update_payments p f db = (
  ok (count_where p db.tables.payments),
  record db { tables = record (db.tables) { payments = update_where p f db.tables.payments } },
)

-- WHERE product_id = ? AND quantity >= ?
abbrev pub covers : OrderItem → Inventory → Bool
covers item row = row.product_id == item.product_id && leb item.quantity row.quantity

-- SET quantity = quantity - ?, updated_at = now()
abbrev pub take_stock : Time → OrderItem → Inventory → Inventory
take_stock now item row = record row { quantity = row.quantity - item.quantity; updated_at = now }

-- WHERE product_id = ?
abbrev pub stocks : OrderItem → Inventory → Bool
stocks item row = row.product_id == item.product_id

-- SET quantity = quantity + ?, updated_at = now()
abbrev pub return_stock : Time → OrderItem → Inventory → Inventory
return_stock now item row = record row { quantity = row.quantity + item.quantity; updated_at = now }

-- WHERE id = ? AND status = 'pending', on payments
abbrev pub still_pending : ℕ → Payment → Bool
still_pending id row = row.id == id && is_pending row.status

-- SET status = 'paid', provider_txn_id = ?, updated_at = now()
abbrev pub pay : Time → Text → Payment → Payment
pay now txn_id row = record row {
  status = PaymentStatus.paid;
  provider_txn_id = some txn_id;
  updated_at = now;
}

-- SET status = 'failed', updated_at = now()
abbrev pub mark_failed : Time → Payment → Payment
mark_failed now row = record row { status = PaymentStatus.failed; updated_at = now }

-- WHERE id = ? AND status = 'pending', on orders
abbrev pub order_pending : ℕ → Order → Bool
order_pending id row = row.id == id && is_pending_order row.status

-- SET status = ?, updated_at = now()
abbrev pub move_order : Time → OrderStatus → Order → Order
move_order now status row = record row { status = status; updated_at = now }

-- WHERE order_id = ? AND status = 'pending', on payments
abbrev pub awaits : ℕ → Payment → Bool
awaits order_id row = row.order_id == order_id && is_pending row.status

-- `errors.Is(err, gorm.ErrForeignKeyViolated)`
abbrev pub as_user_not_found : Error → Error
as_user_not_found foreign_key_violated = user_not_found
as_user_not_found e = e

-- Reads.
abbrev pub first_payment : (Payment → Bool) → Query (Option Payment)
first_payment p db = (ok (find p db.tables.payments), db)

abbrev pub first_order : (Order → Bool) → Query (Option Order)
first_order p db = (ok (find p db.tables.orders), db)

abbrev pub items_of_order : ℕ → Query (List OrderItem)
items_of_order order_id db = (ok (select (λ i. i.order_id == order_id) db.tables.order_items), db)

-- INSERT INTO orders: the user has to exist, and the row is stored without its items.
unfoldable pub insert_order : Time → Order → Query Order
insert_order now order db =
    let id = db.seq.order in
    let created = record order { id = id; created_at = now; updated_at = now } in
    elim (find (λ (u : User). u.id == order.user_id) db.tables.users) [
      | none ↦ (err foreign_key_violated, record db { seq = record (db.seq) { order = suc id } })
      | some _ ↦ (
        ok created,
        record db {
          tables = record (db.tables) {
            orders = db.tables.orders ++ (record created { items = [] } ∷ []);
          };
          seq = record (db.seq) { order = suc id };
        },
      )
    ]

-- order.Items[i].OrderID = order.ID
abbrev pub assign_order : ℕ → List OrderItem → List OrderItem
assign_order id [] = []
assign_order id (item ∷ items) = record item { order_id = id } ∷ assign_order id items

-- UNIQUE (order_id, product_id)
abbrev pub same_line : OrderItem → OrderItem → Bool
same_line item row = row.order_id == item.order_id && row.product_id == item.product_id

-- The rows of one INSERT INTO order_items, in turn: the ids that the sequence gives, and the first
-- constraint that a row breaks.
unfoldable pub place_items : List OrderItem → List OrderItem → ℕ → Result (List OrderItem)
place_items table [] id = ok []
place_items table (item ∷ items) id =
    let row = record item { id = id } in
    let rest = place_items (table ++ (row ∷ [])) items (suc id) in
    elim (find (same_line item) table) [
      | some _ ↦ err duplicated_key
      | none ↦
          if item.quantity == 0
          then err check_violated
          else elim rest [ ok rows ↦ ok (row ∷ rows) | err e ↦ err e ]
    ]

-- The whole INSERT fails with the first row that fails.
abbrev pub store_items : Result (List OrderItem) → Query (List OrderItem)
store_items (err e) db = (err e, db)
store_items (ok rows) db = (
  ok rows,
  record db { tables = record (db.tables) { order_items = db.tables.order_items ++ rows } },
)

abbrev pub use_item_ids : ℕ → Db → Db
use_item_ids n db = record db { seq = record (db.seq) { order_item = db.seq.order_item + n } }

-- Create(&order.Items): gorm refuses an empty slice.
unfoldable pub insert_items : List OrderItem → Query (List OrderItem)
unfolding place_items
insert_items [] db = (err empty_slice, db)
insert_items (item ∷ items) db =
    store_items (place_items db.tables.order_items (item ∷ items) db.seq.order_item)
      (use_item_ids (length (item ∷ items)) db)

-- INSERT INTO payments: the idempotency key is unique.
unfoldable pub insert_payment : Time → Payment → Query Payment
insert_payment now payment db =
    let id = db.seq.payment in
    let created = record payment { id = id; created_at = now; updated_at = now } in
    elim (find (λ (p : Payment). text_eq p.idempotency_key payment.idempotency_key)
      db.tables.payments) [
        | some _ ↦ (err duplicated_key, record db { seq = record (db.seq) { payment = suc id } })
        | none ↦ (
          ok created,
          record db {
            tables = record (db.tables) { payments = db.tables.payments ++ (created ∷ []) };
            seq = record (db.seq) { payment = suc id };
          },
        )
      ]

-- ORDER BY created_at ASC, by insertion; rows of one time keep their order.
unfoldable pub insert_by_age : Payment → List Payment → List Payment
insert_by_age p [] = p ∷ []
insert_by_age p (q ∷ qs) =
    let rest = insert_by_age p qs in if leb p.created_at q.created_at then p ∷ q ∷ qs else q ∷ rest

unfoldable pub sort_by_age : List Payment → List Payment
unfolding insert_by_age
sort_by_age [] = []
sort_by_age (p ∷ ps) = insert_by_age p (sort_by_age ps)

-- WHERE status = 'pending' AND created_at < ?
abbrev pub is_stale : Time → Payment → Bool
is_stale cutoff row = is_pending row.status && ltb row.created_at cutoff

unfoldable pub stale_orders : Time → ℕ → Query (List ℕ)
unfolding sort_by_age
stale_orders cutoff limit db = (
  ok (
      map (λ p. p.order_id)
        (take limit (sort_by_age (select (is_stale cutoff) db.tables.payments)))),
  db,
)
