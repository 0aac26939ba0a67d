-- ===== src/Repository/Order.antt =====
-- internal/repository/order.go. Each statement is read as SQL reads it: `UPDATE … WHERE` visits
-- every row, and its count is the rows that the condition held of before. Tables are in the order
-- of their primary keys, so the first row that fits is the one that gorm's `First` returns.
mod Statements
pub mod Frame
pub mod Stock
pub mod Create
pub mod Finalize
pub mod Ledger
pub mod Agreement
pub mod Conservation
pub mod World
pub mod Current
pub mod Changes
pub mod History
pub mod Finality
pub mod Settles
pub mod Verdict
pub mod Progress
mod Tests
unfoldable pub use Statements.*
use order_processing_system.Base.{
  ℕ, Bool, true, false, Option, none, some, List, [], ◌∷◌, ◌==◌, ltb, ◌&&◌, if◌then◌else◌, find,
  select, take, map, ◌-◌,
}
use order_processing_system.Models.{
  Text, Time, Order, OrderItem, Payment, user_not_found, order_not_found, no_pending_payment,
  insufficient_stock, Error, foreign_key_violated, Result, ok, err, PaymentStatus, OrderStatus,
}
use order_processing_system.Database.{Db, Engine, Query, ◌>>=◌, ◌>>◌, pure, fail, send, transaction}

module _ (engine : Engine) where
  -- step 1: a guarded decrement for each line
  pub reserve_items : List OrderItem → Query (Unit {0})
  reserve_items [] = pure tt
  reserve_items (item ∷ items) = do
    affected ← send engine (λ now. update_inventory (covers item) (take_stock now item))
    if affected == 1 then reserve_items items else fail (insufficient_stock item.product_id)

  -- step 2
  pub create_order_row : Order → Query Order
  create_order_row order db =
      let (r, db') = send engine (λ now. insert_order now order) db in
      elim r [ ok created ↦ (ok created, db') | err e ↦ (err (as_user_not_found e), db') ]

  create_order_body : Order → Payment → Query (Order × Payment)
  unfolding reserve_items create_order_row
  create_order_body order payment = do
    reserve_items order.items
    created ← create_order_row order
    items ← send engine (λ _. insert_items (assign_order created.id order.items))
    paid ← send engine (λ now. insert_payment now (record payment { order_id = created.id }))
    pure (record created { items = items }, paid)

  -- The order and the payment come back with what the database filled in.
  unfoldable pub create_order : Order → Payment → Query (Order × Payment)
  unfolding create_order_body transaction
  create_order order payment = transaction engine (create_order_body order payment)

  unfoldable pub get_pending_by_order_id : ℕ → Query Payment
  get_pending_by_order_id order_id = do
    row ← send engine (λ _. first_payment (awaits order_id))
    elim row [ none ↦ fail no_pending_payment | some payment ↦ pure payment ]

  unfoldable pub get_order_user_id : ℕ → Query ℕ
  get_order_user_id order_id = do
    row ← send engine (λ _. first_order (λ o. o.id == order_id))
    elim row [ none ↦ fail order_not_found | some order ↦ pure order.user_id ]

  mark_paid_body : Payment → Text → Query Bool
  mark_paid_body payment txn_id = do
    affected ← send engine (λ now. update_payments (still_pending payment.id) (pay now txn_id))
    if affected == 1
        then (do
          send engine (λ now.
              update_orders (order_pending payment.order_id) (move_order now OrderStatus.confirmed))
          pure true)
        else pure false

  unfoldable pub mark_paid_and_confirm : Payment → Text → Query Bool
  unfolding mark_paid_body transaction
  mark_paid_and_confirm payment txn_id = transaction engine (mark_paid_body payment txn_id)

  -- the loop that gives the stock back
  pub restock_items : List OrderItem → Query (Unit {0})
  restock_items [] = pure tt
  restock_items (item ∷ items) = do
    send engine (λ now. update_inventory (stocks item) (return_stock now item))
    restock_items items

  fail_cancel_body : Payment → Query Bool
  unfolding restock_items
  fail_cancel_body payment = do
    affected ← send engine (λ now. update_payments (still_pending payment.id) (mark_failed now))
    if affected == 1
        then (do
          send engine (λ now.
              update_orders (order_pending payment.order_id) (move_order now OrderStatus.cancelled))
          items ← send engine (λ _. items_of_order payment.order_id)
          restock_items items
          pure true)
        else pure false

  unfoldable pub fail_cancel_and_restock : Payment → Query Bool
  unfolding fail_cancel_body transaction
  fail_cancel_and_restock payment = transaction engine (fail_cancel_body payment)

  -- `cutoff` is the application's time.Now() less `older_than`.
  unfoldable pub list_stale_pending : Time → ℕ → ℕ → Query (List ℕ)
  list_stale_pending now older_than limit = send engine (λ _. stale_orders (now - older_than) limit)
