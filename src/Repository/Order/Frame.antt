-- ===== src/Repository/Order/Frame.antt =====
-- What CreateOrder of internal/repository/order.go leaves in the tables.
use order_processing_system.Base.{List, [], ◌∷◌, ◌==◌, inl, inr, arith, Bool-cases}
use order_processing_system.Models.{Product, Order, OrderItem, Payment, insufficient_stock}
use order_processing_system.Database.{Tables, Engine}
use order_processing_system.Database.Frame.{
  Keeps, >>=-Keeps, send-Keeps, pure-Keeps, fail-Keeps, transaction-Keeps, Undoes,
  transaction-Undoes,
}
use order_processing_system.Repository.Order.{
  covers, take_stock, update_inventory, insert_order, insert_items, insert_payment, assign_order,
  reserve_items, create_order_row, create_order_body, create_order,
}

abbrev pub the_products : Tables → List Product
the_products t = t.products

module _ (engine : Engine) where
  pub create_order-Undoes :
      (order : Order) (payment : Payment) → Undoes (create_order engine order payment)
  unfolding create_order
  create_order-Undoes order payment =
      transaction-Undoes engine (create_order_body engine order payment)

  reserve_items-Keeps : (items : List OrderItem) → Keeps the_products (reserve_items engine items)
  unfolding reserve_items
  reserve_items-Keeps [] = pure-Keeps the_products tt
  reserve_items-Keeps (item ∷ items) =
      >>=-Keeps the_products _ _
        (send-Keeps the_products engine
          (λ now. update_inventory (covers item) (take_stock now item))
          (λ now. record { keeps = λ db. ground arith }))
        (λ affected. elim (Bool-cases (affected == 1)) [
          | inl one ↦ rw one (reserve_items-Keeps items)
          | inr other ↦ rw other (fail-Keeps the_products _ (insufficient_stock item.product_id))
        ])

  row-Keeps : (order : Order) → Keeps the_products (create_order_row engine order)
  unfolding create_order_row insert_order
  row-Keeps order = record { keeps = λ db. ground arith }

  items-Keeps : (items : List OrderItem) → Keeps the_products (insert_items items)
  unfolding insert_items
  items-Keeps [] = record { keeps = λ db. ground arith }
  items-Keeps (item ∷ items) = record { keeps = λ db. ground arith }

  pub create_order-Keeps :
      (order : Order) (payment : Payment) → Keeps the_products (create_order engine order payment)
  unfolding create_order create_order_body insert_payment
  create_order-Keeps order payment =
      transaction-Keeps the_products engine (create_order_body engine order payment) (
        >>=-Keeps the_products _ _ (reserve_items-Keeps order.items) (λ u.
          >>=-Keeps the_products _ _ (row-Keeps order) (λ created.
            >>=-Keeps the_products _ _
              (send-Keeps the_products engine
                (λ _. insert_items (assign_order created.id order.items))
                (λ now. items-Keeps (assign_order created.id order.items)))
              (λ items.
                >>=-Keeps the_products _ _
                  (send-Keeps the_products engine
                    (λ now. insert_payment now (record payment { order_id = created.id }))
                    (λ now. record { keeps = λ db. ground arith }))
                  (λ paid. pure-Keeps the_products _)))))
