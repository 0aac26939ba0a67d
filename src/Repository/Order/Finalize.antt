-- ===== src/Repository/Order/Finalize.antt =====
-- What MarkPaidAndConfirm and FailCancelAndRestock of internal/repository/order.go have done, by
-- how they end.
use order_processing_system.Base.{
  ℕ, ◌+◌, ◌≡◌, refl, ◌≢◌, Bool, true, false, List, [], ◌∷◌, ◌==◌, select, update_where, count_where,
  arith, inl, inr, Bool-cases, All,
}
use order_processing_system.Models.{Text, Time, OrderItem, Payment, OrderStatus, Result, ok, err}
use order_processing_system.Database.{
  Tables, Sequences, Db, Engine, Query, tick, send, pure, ◌>>=◌, ◌>>◌,
}
use order_processing_system.Database.Laws.{
  >>=-eq-ok, send-eq-ok, SeqLe, Grows, pure-Grows, >>=-Grows, send-Grows, Ends, undone, committed,
  transaction-Ends,
}
use order_processing_system.Repository.Order.{
  update_payments, update_orders, update_inventory, still_pending, order_pending, pay, mark_failed,
  move_order, stocks, return_stock, items_of_order, mark_paid_body, mark_paid_and_confirm,
  restock_items, fail_cancel_body, fail_cancel_and_restock,
}
use order_processing_system.Repository.Order.Stock.{
  stock, demand, shelves, restock_items-only, restock_items-returns,
}

abbrev pub own_items : Payment → Tables → List OrderItem
own_items payment t = select (λ i. i.order_id == payment.order_id) t.order_items

-- The payment row was still pending: it has the update `f`, and its order, if pending, `status`.
pub record Moved (payment : Payment) (f : Time → Payment → Payment) (status : OrderStatus)
    (old new : Tables) (seq seq' : Sequences) : Type 0 where
  pub won : count_where (still_pending payment.id) old.payments ≡ 1
  pub at : Time
  pub then_at : Time
  pub payments : new.payments ≡ update_where (still_pending payment.id) (f at) old.payments
  pub orders :
      new.orders
      ≡ update_where (order_pending payment.order_id) (move_order then_at status) old.orders
  pub order_items : new.order_items ≡ old.order_items
  pub notifications : new.notifications ≡ old.notifications
  pub seq_same : seq' ≡ seq

-- The guard matched no single row: nothing beyond the guarded update has happened.
pub record Lost (payment : Payment) (f : Time → Payment → Payment) (old new : Tables)
    (seq seq' : Sequences) : Type 0 where
  pub missed : count_where (still_pending payment.id) old.payments ≢ 1
  pub at : Time
  pub tables :
      new ≡ record old { payments = update_where (still_pending payment.id) (f at) old.payments }
  pub seq_same : seq' ≡ seq

-- The stock of a cancelled order is back, given that each of its products has one inventory row.
abbrev pub Restocked : Payment → Tables → Tables → Type 0
Restocked payment old new =
    All (λ i. shelves i.product_id old.inventory ≡ 1) (own_items payment old)
    → ((p : ℕ) → stock p new.inventory ≡ stock p old.inventory + demand p (own_items payment old))
      × ((p : ℕ) → shelves p new.inventory ≡ shelves p old.inventory)

abbrev pub PaidBody : Payment → Text → Db → Bool → Db → Type 0
PaidBody payment txn db true after =
    Moved payment (λ now. pay now txn) OrderStatus.confirmed db.tables after.tables db.seq after.seq
    × (after.tables.inventory ≡ db.tables.inventory)
PaidBody payment txn db false after =
    Lost payment (λ now. pay now txn) db.tables after.tables db.seq after.seq

abbrev pub FailedBody : Payment → Db → Bool → Db → Type 0
FailedBody payment db true after =
    Moved payment mark_failed OrderStatus.cancelled db.tables after.tables db.seq after.seq
    × Restocked payment db.tables after.tables
FailedBody payment db false after = Lost payment mark_failed db.tables after.tables db.seq after.seq

-- The two guarded updates one after the other; what follows them touches the inventory alone.
two_updates-Moved :
    (payment : Payment) (f : Time → Payment → Payment) (status : OrderStatus) (db d1 d2 after : Db)
    (n k : ℕ) (t t' : Time)
    → update_payments (still_pending payment.id) (f t) (tick db) ≡ (ok n, d1)
    → (n == 1) ≡ true
    → update_orders (order_pending payment.order_id) (move_order t' status) (tick d1) ≡ (ok k, d2)
    → after.tables ≡ record (d2.tables) { inventory = after.tables.inventory }
    → after.seq ≡ d2.seq
    → Moved payment f status db.tables after.tables db.seq after.seq
two_updates-Moved payment f status db d1 d2 after n k t t' first one second kept same = record {
  won = ground arith;
  at = t;
  then_at = t';
  payments = ground arith;
  orders = ground arith;
  order_items = ground arith;
  notifications = ground arith;
  seq_same = ground arith;
}

one_update-Lost :
    (payment : Payment) (f : Time → Payment → Payment) (db d1 after : Db) (n : ℕ) (t : Time)
    → update_payments (still_pending payment.id) (f t) (tick db) ≡ (ok n, d1)
    → (n == 1) ≡ false
    → after ≡ d1
    → Lost payment f db.tables after.tables db.seq after.seq
one_update-Lost payment f db d1 after n t first other same = record {
  missed = λ e. ground arith;
  at = t;
  tables = ground arith;
  seq_same = ground arith;
}

module _ (engine : Engine) where
  mark_paid_body-PaidBody :
      (payment : Payment) (txn : Text) (db : Db) {b : Bool} {after : Db}
      → mark_paid_body engine payment txn db ≡ (ok b, after)
      → PaidBody payment txn db b after
  unfolding mark_paid_body
  mark_paid_body-PaidBody payment txn db {b = true} {after} e =
      let settle = λ (now : Time). update_payments (still_pending payment.id) (pay now txn) in
      let confirm = λ (now : Time).
        update_orders (order_pending payment.order_id) (move_order now OrderStatus.confirmed) in
      >>=-eq-ok (send engine settle) _ db e λ n d1 guarded e1.
        let g = send-eq-ok engine settle db guarded in
        elim (Bool-cases (n == 1)) [
          | inl one ↦
              >>=-eq-ok (send engine confirm) (λ _. pure true) d1 (rw one at e1)
                λ k d2 moved e2.
                  let m = send-eq-ok engine confirm d1 moved in
                  (
                    two_updates-Moved payment (λ now. pay now txn) OrderStatus.confirmed db d1 d2
                        after n k (engine.clock db.calls) (engine.clock d1.calls) g one m
                        (ground arith) (ground arith),
                    ground arith,
                  )
          | inr other ↦ absurd (cc (rw other at e1))
        ]
  mark_paid_body-PaidBody payment txn db {b = false} {after} e =
      let settle = λ (now : Time). update_payments (still_pending payment.id) (pay now txn) in
      let confirm = λ (now : Time).
        update_orders (order_pending payment.order_id) (move_order now OrderStatus.confirmed) in
      >>=-eq-ok (send engine settle) _ db e λ n d1 guarded e1.
        let g = send-eq-ok engine settle db guarded in
        elim (Bool-cases (n == 1)) [
          | inl one ↦
              >>=-eq-ok (send engine confirm) (λ _. pure true) d1 (rw one at e1)
                λ k d2 moved e2. absurd (cc e2)
          | inr other ↦
              one_update-Lost payment (λ now. pay now txn) db d1 after n (engine.clock db.calls) g
                other (ground (arith, rw other at e1))
        ]

  returned-Restocked :
      (payment : Payment) (db d3 d4 after : Db) (items : List OrderItem)
      → restock_items engine items d3 ≡ (ok tt, d4)
      → items ≡ own_items payment db.tables
      → d3.tables.inventory ≡ db.tables.inventory
      → after.tables.inventory ≡ d4.tables.inventory
      → Restocked payment db.tables after.tables
  returned-Restocked payment db d3 d4 after items went own same last stocked =
      let here : All (λ i. shelves i.product_id d3.tables.inventory ≡ 1) items =
        rw (own, same) stocked in
      let (stocks_back, shelves_kept) = restock_items-returns engine items d3 d4 went here in
      (λ p. ground (arith, stocks_back p), λ p. ground (arith, shelves_kept p))

  abbrev cancel_and_restock : Payment → Query Bool
  cancel_and_restock payment = do
    send engine (λ now.
        update_orders (order_pending payment.order_id) (move_order now OrderStatus.cancelled))
    items ← send engine (λ _. items_of_order payment.order_id)
    restock_items engine items
    pure true

  cancel_and_restock-true :
      (payment : Payment) (db : Db) {after : Db}
      → ¬ (cancel_and_restock payment db ≡ (ok false, after))
  cancel_and_restock-true payment db e =
      let cancel = λ (now : Time).
        update_orders (order_pending payment.order_id) (move_order now OrderStatus.cancelled) in
      let read = λ (now : Time). items_of_order payment.order_id in
      >>=-eq-ok (send engine cancel) _ db e λ k d2 moved e2.
        >>=-eq-ok (send engine read) _ d2 e2 λ items d3 loaded e3.
          >>=-eq-ok (restock_items engine items) (λ _. pure true) d3 e3 λ u d4 returned e4. cc e4

  fail_cancel_body-FailedBody :
      (payment : Payment) (db : Db) {b : Bool} {after : Db}
      → fail_cancel_body engine payment db ≡ (ok b, after)
      → FailedBody payment db b after
  unfolding fail_cancel_body
  fail_cancel_body-FailedBody payment db {b = true} {after} e =
      let settle = λ (now : Time). update_payments (still_pending payment.id) (mark_failed now) in
      let cancel = λ (now : Time).
        update_orders (order_pending payment.order_id) (move_order now OrderStatus.cancelled) in
      let read = λ (now : Time). items_of_order payment.order_id in
      >>=-eq-ok (send engine settle) _ db e λ n d1 guarded e1.
        let g = send-eq-ok engine settle db guarded in
        elim (Bool-cases (n == 1)) [
          | inl one ↦ >>=-eq-ok (send engine cancel) _ d1 (rw one at e1) λ k d2 moved e2.
              let m = send-eq-ok engine cancel d1 moved in
              >>=-eq-ok (send engine read) _ d2 e2 λ items d3 loaded e3.
                let l = send-eq-ok engine read d2 loaded in
                >>=-eq-ok (restock_items engine items) (λ _. pure true) d3 e3
                  λ u d4 returned e4.
                    let kept = restock_items-only engine items d3 d4 returned in
                    (
                      two_updates-Moved payment mark_failed OrderStatus.cancelled db d1 d2 after n k
                          (engine.clock db.calls) (engine.clock d1.calls) g one m
                          (ground (arith, kept)) (ground (arith, kept)),
                      returned-Restocked payment db d3 d4 after items returned (ground arith)
                          (ground arith) (ground arith),
                    )
          | inr other ↦ absurd (cc (rw other at e1))
        ]
  fail_cancel_body-FailedBody payment db {b = false} {after} e =
      let settle = λ (now : Time). update_payments (still_pending payment.id) (mark_failed now) in
      >>=-eq-ok (send engine settle) _ db e λ n d1 guarded e1.
        let g = send-eq-ok engine settle db guarded in
        elim (Bool-cases (n == 1)) [
          | inl one ↦ absurd (cancel_and_restock-true payment d1 (rw one at e1))
          | inr other ↦
              one_update-Lost payment mark_failed db d1 after n (engine.clock db.calls) g other
                (ground (arith, rw other at e1))
        ]

  send_update-Grows :
      (statement : Time → Query ℕ)
      → ((now : Time) (db : Db) → (statement now db).1.seq ≡ db.seq)
      → Grows (send engine statement)
  send_update-Grows statement same =
      send-Grows engine statement λ now. record { grows = λ db. ground (arith, same now db) }

  restock_items-Grows : (items : List OrderItem) → Grows (restock_items engine items)
  unfolding restock_items
  restock_items-Grows [] = pure-Grows tt
  restock_items-Grows (item ∷ items) =
      let restore = λ (now : Time). update_inventory (stocks item) (return_stock now item) in
      >>=-Grows (send engine restore) _ (send_update-Grows restore (λ now db. refl))
        (λ _. restock_items-Grows items)

  mark_paid_body-Grows :
      (payment : Payment) (txn : Text) → Grows (mark_paid_body engine payment txn)
  unfolding mark_paid_body
  mark_paid_body-Grows payment txn =
      let settle = λ (now : Time). update_payments (still_pending payment.id) (pay now txn) in
      let confirm = λ (now : Time).
        update_orders (order_pending payment.order_id) (move_order now OrderStatus.confirmed) in
      >>=-Grows (send engine settle) _ (send_update-Grows settle (λ now db. refl)) λ n.
        elim (Bool-cases (n == 1)) [
          | inl one ↦ rw one (
              >>=-Grows (send engine confirm) _ (send_update-Grows confirm (λ now db. refl))
                (λ _. pure-Grows true))
          | inr other ↦ rw other (pure-Grows false)
        ]

  cancel_and_restock-Grows : (payment : Payment) → Grows (cancel_and_restock payment)
  cancel_and_restock-Grows payment =
      let cancel = λ (now : Time).
        update_orders (order_pending payment.order_id) (move_order now OrderStatus.cancelled) in
      let read = λ (now : Time). items_of_order payment.order_id in
      >>=-Grows (send engine cancel) _ (send_update-Grows cancel (λ now db. refl)) λ _.
        >>=-Grows (send engine read) _
          (send-Grows engine read (λ _. record { grows = λ db. omega arith }))
          λ items.
            >>=-Grows (restock_items engine items) (λ _. pure true) (restock_items-Grows items)
              λ _. pure-Grows true

  fail_cancel_body-Grows : (payment : Payment) → Grows (fail_cancel_body engine payment)
  unfolding fail_cancel_body
  fail_cancel_body-Grows payment =
      let settle = λ (now : Time). update_payments (still_pending payment.id) (mark_failed now) in
      >>=-Grows (send engine settle) _ (send_update-Grows settle (λ now db. refl)) λ n.
        elim (Bool-cases (n == 1)) [
          | inl one ↦ rw one (cancel_and_restock-Grows payment)
          | inr other ↦ rw other (pure-Grows false)
        ]

-- What a call of either method has done: an error changes no table, `true` means that this call made
-- the transition, `false` that the payment was not pending.
abbrev pub PaidOutcome : Payment → Text → Db → Result Bool × Db → Type 0
PaidOutcome payment txn db (err e, after) = (after.tables ≡ db.tables) × SeqLe db.seq after.seq
PaidOutcome payment txn db (ok b, after) = PaidBody payment txn db b after

abbrev pub FailedOutcome : Payment → Db → Result Bool × Db → Type 0
FailedOutcome payment db (err e, after) = (after.tables ≡ db.tables) × SeqLe db.seq after.seq
FailedOutcome payment db (ok b, after) = FailedBody payment db b after

PaidBody-tick :
    (payment : Payment) (txn : Text) (db after : Db) (b : Bool)
    → PaidBody payment txn (tick db) b after
    → PaidBody payment txn db b (tick after)
PaidBody-tick payment txn db after true h = h
PaidBody-tick payment txn db after false h = h

FailedBody-tick :
    (payment : Payment) (db after : Db) (b : Bool)
    → FailedBody payment (tick db) b after
    → FailedBody payment db b (tick after)
FailedBody-tick payment db after true h = h
FailedBody-tick payment db after false h = h

Ends-PaidOutcome :
    (engine : Engine) (payment : Payment) (txn : Text) (db : Db) {p : Result Bool × Db}
    → Ends (mark_paid_body engine payment txn) db p
    → PaidOutcome payment txn db p
Ends-PaidOutcome engine payment txn db (undone e after same grown) = (same, grown)
Ends-PaidOutcome engine payment txn db (committed b after went) =
    PaidBody-tick payment txn db after b (mark_paid_body-PaidBody engine payment txn (tick db) went)

Ends-FailedOutcome :
    (engine : Engine) (payment : Payment) (db : Db) {p : Result Bool × Db}
    → Ends (fail_cancel_body engine payment) db p
    → FailedOutcome payment db p
Ends-FailedOutcome engine payment db (undone e after same grown) = (same, grown)
Ends-FailedOutcome engine payment db (committed b after went) =
    FailedBody-tick payment db after b (fail_cancel_body-FailedBody engine payment (tick db) went)

-- MarkPaidAndConfirm on every branch, by its updates: an error leaves the tables; true means that the
-- guard matched one row and both updates have run; false, that it did not match one row.
pub mark_paid_and_confirm_lem :
    (engine : Engine) (payment : Payment) (txn : Text) (db : Db)
    → PaidOutcome payment txn db (mark_paid_and_confirm engine payment txn db)
unfolding mark_paid_and_confirm
mark_paid_and_confirm_lem engine payment txn db = Ends-PaidOutcome engine payment txn db (
    transaction-Ends engine (mark_paid_body engine payment txn) db
      (mark_paid_body-Grows engine payment txn))

-- FailCancelAndRestock on every branch, by its updates: an error leaves the tables; true means that
-- the guard matched one row and that the updates and, where each item has one shelf, the return of the
-- stock have run; false, that it did not match one row.
pub fail_cancel_and_restock_lem :
    (engine : Engine) (payment : Payment) (db : Db)
    → FailedOutcome payment db (fail_cancel_and_restock engine payment db)
unfolding fail_cancel_and_restock
fail_cancel_and_restock_lem engine payment db = Ends-FailedOutcome engine payment db (
    transaction-Ends engine (fail_cancel_body engine payment) db
      (fail_cancel_body-Grows engine payment))
