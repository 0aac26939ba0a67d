-- ===== src/Repository/Order/Settles.antt =====
-- Where no call fails, the finalizing calls of internal/repository/order.go settle a pending payment's order.
use order_processing_system.Base.{
  ℕ, ◌≤◌, ◌≡◌, refl, ap, ◌∙◌, Bool, true, false, some, List, [], ◌∷◌, ◌==◌, inl, inr, arith, find,
  count_where, Bool-cases,
}
use order_processing_system.Models.{Text, Payment, OrderItem, OrderStatus, Result, ok, err}
use order_processing_system.Database.{Db, Engine}
use order_processing_system.Database.Success.{
  Faultless, Succeeds, pure-Succeeds, >>=-Succeeds, send-Succeeds, transaction-Succeeds,
}
use order_processing_system.Repository.Order.{
  awaits, still_pending, order_pending, update_payments, update_orders, move_order, pay,
  mark_failed, items_of_order, update_inventory, stocks, return_stock, restock_items,
  mark_paid_body, mark_paid_and_confirm, fail_cancel_body, fail_cancel_and_restock,
}
use order_processing_system.Repository.Order.Finalize.{
  PaidOutcome, FailedOutcome, mark_paid_and_confirm_lem, fail_cancel_and_restock_lem, Moved,
}
use order_processing_system.Repository.Order.Ledger.{order_status, Consistent, order_status-move}
use order_processing_system.Repository.Order.Agreement.{Known, guard-le-one, guarded_status}

module _ (engine : Engine) (fine : Faultless engine) where
  restock_items-Succeeds : (items : List OrderItem) → Succeeds (restock_items engine items)
  unfolding restock_items
  restock_items-Succeeds [] = pure-Succeeds tt
  restock_items-Succeeds (item ∷ items) =
      >>=-Succeeds _ _
        (send-Succeeds engine fine (λ now. update_inventory (stocks item) (return_stock now item))
          (λ now. record { succeeds = λ db. (_, _, refl) }))
        (λ n. restock_items-Succeeds items)

  pub mark_paid-Succeeds :
      (payment : Payment) (txn : Text) → Succeeds (mark_paid_and_confirm engine payment txn)
  unfolding mark_paid_and_confirm mark_paid_body
  mark_paid-Succeeds payment txn =
      transaction-Succeeds engine fine (mark_paid_body engine payment txn) (
        >>=-Succeeds _ _
          (send-Succeeds engine fine
            (λ now. update_payments (still_pending payment.id) (pay now txn))
            (λ now. record { succeeds = λ db. (_, _, refl) }))
          (λ affected. elim (Bool-cases (affected == 1)) [
            | inl one ↦ rw one (
                >>=-Succeeds _ _
                  (send-Succeeds engine fine
                    (λ now.
                      update_orders (order_pending payment.order_id)
                        (move_order now OrderStatus.confirmed))
                    (λ now. record { succeeds = λ db. (_, _, refl) }))
                  (λ n. pure-Succeeds true))
            | inr other ↦ rw other (pure-Succeeds false)
          ]))

  pub fail_cancel-Succeeds : (payment : Payment) → Succeeds (fail_cancel_and_restock engine payment)
  unfolding fail_cancel_and_restock fail_cancel_body
  fail_cancel-Succeeds payment =
      transaction-Succeeds engine fine (fail_cancel_body engine payment) (
        >>=-Succeeds _ _
          (send-Succeeds engine fine
            (λ now. update_payments (still_pending payment.id) (mark_failed now))
            (λ now. record { succeeds = λ db. (_, _, refl) }))
          (λ affected. elim (Bool-cases (affected == 1)) [
            | inl one ↦ rw one (
                >>=-Succeeds _ _
                  (send-Succeeds engine fine
                    (λ now.
                      update_orders (order_pending payment.order_id)
                        (move_order now OrderStatus.cancelled))
                    (λ now. record { succeeds = λ db. (_, _, refl) }))
                  (λ n.
                    >>=-Succeeds _ _
                      (send-Succeeds engine fine (λ _. items_of_order payment.order_id)
                        (λ now. record { succeeds = λ db. (_, _, refl) }))
                      (λ items.
                        >>=-Succeeds _ _ (restock_items-Succeeds items) (λ u. pure-Succeeds true))))
            | inr other ↦ rw other (pure-Succeeds false)
          ]))

-- The row that awaits the charge passes the guard of the finalizing calls.
awaited-one :
    (id : ℕ) (rs : List Payment) (payment : Payment)
    → find (awaits id) rs ≡ some payment
    → (1 ≤ count_where (still_pending payment.id) rs) × (payment.order_id ≡ id)
awaited-one id [] payment e = absurd cc
awaited-one id (r ∷ rs) payment e = elim (Bool-cases (awaits id r)) [
  | inl hit ↦ let same : r ≡ payment = ground arith in rw (← same) (ground (arith, hit))
  | inr miss ↦
      let later : find (awaits id) rs ≡ some payment = ground arith in
      let (some_row, order) = awaited-one id rs payment later in (omega (arith, some_row), order)
]

module _ (id : ℕ) (payment : Payment) (db : Db) (c : Consistent db.tables db.seq)
    (found : find (awaits id) db.tables.payments ≡ some payment)
    (known : Known payment db.tables.payments) where
  one_row : count_where (still_pending payment.id) db.tables.payments ≡ 1
  one_row =
      let (low, order) = awaited-one id db.tables.payments payment found in
      omega (arith, low, guard-le-one payment.id db.tables.payments c.distinct)

  Moved-status :
      (f : ℕ → Payment → Payment) (s : OrderStatus) (after : Db)
      → Moved payment f s db.tables after.tables db.seq after.seq
      → order_status id after.tables.orders ≡ some s
  Moved-status f s after m =
      let order = (awaited-one id db.tables.payments payment found).1 in
      let was =
        guarded_status payment db.tables.orders db.tables.payments known one_row c.agreement in
      let moves = order_status-move id payment.order_id m.then_at s db.tables.orders in
      ap (order_status id) m.orders ∙ moves ∙ ground (arith, was, order)

  PaidOutcome-status :
      (txn : Text) (p : Result Bool × Db) (b : Bool)
      → PaidOutcome payment txn db p
      → p.0 ≡ ok b
      → (b ≡ true) × (order_status id p.1.tables.orders ≡ some OrderStatus.confirmed)
  PaidOutcome-status txn (err e, after) b o h = absurd cc
  PaidOutcome-status txn (ok false, after) b o h = absurd (o.missed one_row)
  PaidOutcome-status txn (ok true, after) b o h =
      (ground (arith, h), Moved-status (λ now. pay now txn) OrderStatus.confirmed after o.0)

  FailedOutcome-status :
      (p : Result Bool × Db) (b : Bool)
      → FailedOutcome payment db p
      → p.0 ≡ ok b
      → (b ≡ true) × (order_status id p.1.tables.orders ≡ some OrderStatus.cancelled)
  FailedOutcome-status (err e, after) b o h = absurd cc
  FailedOutcome-status (ok false, after) b o h = absurd (o.missed one_row)
  FailedOutcome-status (ok true, after) b o h =
      (ground (arith, h), Moved-status mark_failed OrderStatus.cancelled after o.0)

  module _ (engine : Engine) (fine : Faultless engine) where
    pub mark_paid-settles :
        (txn : Text)
        → let p = mark_paid_and_confirm engine payment txn db in
          (p.0 ≡ ok true) × (order_status id p.1.tables.orders ≡ some OrderStatus.confirmed)
    mark_paid-settles txn =
        let (b, after, e) = (mark_paid-Succeeds engine fine payment txn).succeeds db in
        let gives = ap (λ (p : Result Bool × Db). p.0) e in
        let (true_b, status) =
          PaidOutcome-status txn (mark_paid_and_confirm engine payment txn db) b
            (mark_paid_and_confirm_lem engine payment txn db) gives in
        (gives ∙ ap ok true_b, status)

    pub fail_cancel-settles :
        let p = fail_cancel_and_restock engine payment db in
        (p.0 ≡ ok true) × (order_status id p.1.tables.orders ≡ some OrderStatus.cancelled)
    fail_cancel-settles =
        let (b, after, e) = (fail_cancel-Succeeds engine fine payment).succeeds db in
        let gives = ap (λ (p : Result Bool × Db). p.0) e in
        let (true_b, status) =
          FailedOutcome-status (fail_cancel_and_restock engine payment db) b
            (fail_cancel_and_restock_lem engine payment db) gives in
        (gives ∙ ap ok true_b, status)
