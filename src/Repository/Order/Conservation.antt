-- ===== src/Repository/Order/Conservation.antt =====
-- No unit is lost or made up: CreateOrder, MarkPaidAndConfirm and FailCancelAndRestock of
-- internal/repository/order.go keep the invariant and the units of every product.
use order_processing_system.Base.{
  ℕ, ◌<◌, ◌≡◌, refl, Bool, true, false, some, List, [], ◌∷◌, ◌++◌, ◌==◌, arith, All, All-map,
  All-zip, All-append, All-select, update_where, update_where-none, count_where,
}
use order_processing_system.Models.{
  Text, Time, Order, Payment, OrderStatus, PaymentStatus, Result, ok, err,
}
use order_processing_system.Database.{Tables, Sequences, Db, Engine}
use order_processing_system.Database.Laws.{SeqLe}
use order_processing_system.Repository.Order.{
  create_order, mark_paid_and_confirm, fail_cancel_and_restock, pay, mark_failed, still_pending,
  order_pending, move_order,
}
use order_processing_system.Repository.Order.Stock.{shelves}
use order_processing_system.Repository.Order.Create.{
  Created, CreateOutcome, create_order_lem, demand-SameLines, demand-assign_order, owned-rows,
  shelved-rows,
}
use order_processing_system.Repository.Order.Finalize.{
  Moved, Lost, PaidOutcome, FailedOutcome, mark_paid_and_confirm_lem, fail_cancel_and_restock_lem,
}
use order_processing_system.Repository.Order.Ledger.{
  order_status, units, Agree, Distinct, Agreement, Consistent, order_status-append_old,
  order_status-append_new, reserved-append, reserved_of_live, reserved-append_order,
  reserved-confirm, reserved-cancel,
}
use order_processing_system.Repository.Order.Agreement.{
  KeepsKeys, All-update_keys, Distinct-update, Distinct-append, Known, Agreement-move, guard-le-one,
  guarded_status,
}

-- The tables after a call are consistent, and every product has the units that it had.
abbrev pub Conserves : Tables → Tables → Sequences → Type 0
Conserves old new seq = Consistent new seq × ((p : ℕ) → units p new ≡ units p old)

-- Sequences that have moved on do no harm.
pub Consistent-later :
    (old new : Tables) (seq seq' : Sequences)
    → Consistent old seq
    → new ≡ old
    → SeqLe seq seq'
    → Conserves old new seq'
Consistent-later old new seq seq' c same le = rw same (
  record {
    orders_old = All-map _ _ old.orders (λ o h. omega arith) c.orders_old;
    items_old = All-map _ _ old.order_items (λ i h. omega arith) c.items_old;
    payments_old = All-map _ _ old.payments (λ r h. omega arith) c.payments_old;
    distinct = c.distinct;
    agreement = c.agreement;
    one_shelf = c.one_shelf;
    shelved = c.shelved;
  },
  λ p. refl,
)

module _ (order made : Order) (payment paid : Payment) (old new : Tables) (seq seq' : Sequences)
    (d : Created order made payment paid old new seq seq') (c : Consistent old seq)
    (fresh : order.status ≡ OrderStatus.pending)
    (unpaid : payment.status ≡ PaymentStatus.pending) where
  abbrev row : Order
  row = record made { items = [] }

  made_rows : All (λ i. i.order_id ≡ seq.order) made.items
  made_rows = owned-rows seq.order made.items order.items d.lines

  order_status-made : order_status seq.order (old.orders ++ (row ∷ [])) ≡ some OrderStatus.pending
  order_status-made = ground (
    arith,
    order_status-append_new seq.order old.orders row c.orders_old d.made_id,
    d.made_status,
    fresh,
  )

  Agree-made : Agree paid.status (order_status paid.order_id (old.orders ++ (row ∷ [])))
  Agree-made =
      let pending : paid.status ≡ PaymentStatus.pending = ground (arith, d.paid_status, unpaid) in
      rw (pending, d.paid_order) order_status-made

  Created-Agreement : Agreement (old.orders ++ (row ∷ [])) (old.payments ++ (paid ∷ []))
  Created-Agreement =
      All-append _ old.payments (paid ∷ [])
        (All-zip _ _ _ old.payments
          (λ r h a.
            rw (order_status-append_old r.order_id seq.order old.orders row h.1 d.made_id) a)
          c.payments_old c.agreement)
        (Agree-made, tt)

  Created-Consistent : Consistent new seq'
  Created-Consistent = record {
    orders_old = rw d.orders (
        All-append _ old.orders (row ∷ [])
          (All-map _ _ old.orders (λ o h. omega (arith, d.next_order)) c.orders_old)
          (omega (arith, d.made_id, d.next_order), tt));
    items_old = rw d.order_items (
        All-append _ old.order_items made.items
          (All-map _ _ old.order_items (λ i h. omega (arith, d.next_order)) c.items_old)
          (All-map _ _ made.items (λ i h. omega (arith, h, d.next_order)) made_rows));
    payments_old = rw d.payments (
        All-append _ old.payments (paid ∷ [])
          (All-map _ _ old.payments (λ r h. omega (arith, h, d.next_order, d.next_payment))
            c.payments_old)
          (omega (arith, d.paid_id, d.paid_order, d.next_order, d.next_payment), tt));
    distinct = rw d.payments (
        Distinct-append old.payments paid
          (All-map _ _ old.payments (λ r h. omega (arith, h, d.paid_id, d.paid_order))
            c.payments_old)
          c.distinct);
    agreement = rw (d.orders, d.payments) Created-Agreement;
    one_shelf = λ p. omega (arith, d.shelved p, c.one_shelf p);
    shelved = rw d.order_items (
        All-append _ old.order_items made.items
          (All-map _ _ old.order_items (λ i h. omega (arith, h, d.shelved i.product_id)) c.shelved)
          (All-map _ _ made.items
            (λ i h. omega (arith, h, d.shelved i.product_id, c.one_shelf i.product_id))
            (shelved-rows seq.order 1 (λ k. shelves k old.inventory) made.items order.items d.lines
              d.found)));
  }

  Created-units : (p : ℕ) → units p new ≡ units p old
  Created-units p =
      rw (d.orders, d.order_items)
        (omega (
          arith,
          d.taken p,
          reserved-append p (old.orders ++ (row ∷ [])) old.order_items made.items,
          reserved-append_order p seq.order old.orders row old.order_items c.items_old d.made_id,
          reserved_of_live p seq.order (old.orders ++ (row ∷ [])) made.items made_rows
              (rw order_status-made refl),
          demand-SameLines p made.items _ d.lines,
          demand-assign_order p seq.order order.items,
        ))

orders_old-move :
    (n : ℕ) (q : Order → Bool) (now : Time) (s : OrderStatus) (orders : List Order)
    → All (λ o. o.id < n) orders
    → All (λ o. o.id < n) (update_where q (move_order now s) orders)
orders_old-move n q now s [] h = tt
orders_old-move n q now s (o ∷ os) h = ground (arith, orders_old-move n q now s os h.1)

module _ (payment : Payment) (f : Time → Payment → Payment) (done : PaymentStatus) (s : OrderStatus)
    (keeps : (now : Time) → KeepsKeys (f now))
    (sets : (now : Time) (r : Payment) → (f now r).status ≡ done) (agrees : Agree done (some s))
    (old new : Tables) (seq seq' : Sequences) (m : Moved payment f s old new seq seq')
    (c : Consistent old seq) (known : Known payment old.payments)
    (same_shelves : (p : ℕ) → shelves p new.inventory ≡ shelves p old.inventory) where
  Moved-Consistent : Consistent new seq'
  Moved-Consistent = rw m.seq_same (record {
    orders_old = rw m.orders (
        orders_old-move seq.order (order_pending payment.order_id) m.then_at s old.orders
          c.orders_old);
    items_old = rw m.order_items c.items_old;
    payments_old = rw m.payments (
        All-update_keys (λ id order. (id < seq.payment) × (order < seq.order))
          (still_pending payment.id) (f m.at) old.payments (keeps m.at) c.payments_old);
    distinct =
        rw m.payments (
          Distinct-update (still_pending payment.id) (f m.at) old.payments (keeps m.at) c.distinct);
    agreement =
        rw (m.orders, m.payments)
          (Agreement-move payment (f m.at) done s m.then_at (keeps m.at) (sets m.at) agrees
            old.orders old.payments c.distinct known m.won c.agreement);
    one_shelf = λ p. omega (arith, same_shelves p, c.one_shelf p);
    shelved = rw m.order_items (
        All-map _ _ old.order_items (λ i h. omega (arith, h, same_shelves i.product_id)) c.shelved);
  })

-- A call that lost the race has changed nothing.
pub Lost-same :
    (payment : Payment) (f : Time → Payment → Payment) (old new : Tables) (seq seq' : Sequences)
    → Lost payment f old new seq seq'
    → Distinct old.payments
    → new ≡ old
Lost-same payment f old new seq seq' l d =
    let none_hit : count_where (still_pending payment.id) old.payments ≡ 0 =
      ground (arith, guard-le-one payment.id old.payments d, l.missed) in
    ground
      (arith, l.tables, update_where-none (still_pending payment.id) (f l.at) old.payments none_hit)

Created-Conserves :
    (order : Order) (payment : Payment) (db : Db) (p : Result (Order × Payment) × Db)
    → CreateOutcome order payment db p
    → Consistent db.tables db.seq
    → order.status ≡ OrderStatus.pending
    → payment.status ≡ PaymentStatus.pending
    → Conserves db.tables p.1.tables p.1.seq
Created-Conserves order payment db (err e, after) (same, grown) c fresh unpaid =
    Consistent-later db.tables after.tables db.seq after.seq c same grown
Created-Conserves order payment db (ok (made, paid), after) d c fresh unpaid = (
  Created-Consistent order made payment paid db.tables after.tables db.seq after.seq d c fresh
      unpaid,
  Created-units order made payment paid db.tables after.tables db.seq after.seq d c fresh unpaid,
)

-- Creating a pending order with a pending payment keeps consistent tables consistent, and the stock
-- that it takes is what the order holds.
pub create_order-Conserves :
    (engine : Engine) (order : Order) (payment : Payment) (db : Db)
    → Consistent db.tables db.seq
    → order.status ≡ OrderStatus.pending
    → payment.status ≡ PaymentStatus.pending
    → let after = (create_order engine order payment db).1 in
      Conserves db.tables after.tables after.seq
create_order-Conserves engine order payment db =
    Created-Conserves order payment db (create_order engine order payment db)
      (create_order_lem engine order payment db)

Lost-Conserves :
    (payment : Payment) (f : Time → Payment → Payment) (old new : Tables) (seq seq' : Sequences)
    → Lost payment f old new seq seq'
    → Consistent old seq
    → Conserves old new seq'
Lost-Conserves payment f old new seq seq' l c =
    Consistent-later old new seq seq' c (Lost-same payment f old new seq seq' l c.distinct)
      (rw l.seq_same (omega arith))

PaidOutcome-Conserves :
    (payment : Payment) (txn : Text) (db : Db) (p : Result Bool × Db)
    → PaidOutcome payment txn db p
    → Consistent db.tables db.seq
    → Known payment db.tables.payments
    → Conserves db.tables p.1.tables p.1.seq
PaidOutcome-Conserves payment txn db (err e, after) (same, grown) c known =
    Consistent-later db.tables after.tables db.seq after.seq c same grown
PaidOutcome-Conserves payment txn db (ok false, after) l c known =
    Lost-Conserves payment (λ now. pay now txn) db.tables after.tables db.seq after.seq l c
PaidOutcome-Conserves payment txn db (ok true, after) (m, shelf) c known = (
  Moved-Consistent payment (λ now. pay now txn) PaymentStatus.paid OrderStatus.confirmed
      (λ now r. (refl, refl)) (λ now r. refl) refl db.tables after.tables db.seq after.seq m c known
      (λ p. rw shelf),
  λ p.
      rw (shelf, m.orders, m.order_items)
        (omega (
          arith,
          reserved-confirm p payment.order_id m.then_at db.tables.orders db.tables.order_items,
        )),
)

-- Confirming, with a payment read from them, keeps consistent tables consistent and moves no stock.
pub mark_paid_and_confirm-Conserves :
    (engine : Engine) (payment : Payment) (txn : Text) (db : Db)
    → Consistent db.tables db.seq
    → Known payment db.tables.payments
    → let after = (mark_paid_and_confirm engine payment txn db).1 in
      Conserves db.tables after.tables after.seq
mark_paid_and_confirm-Conserves engine payment txn db =
    PaidOutcome-Conserves payment txn db (mark_paid_and_confirm engine payment txn db)
      (mark_paid_and_confirm_lem engine payment txn db)

FailedOutcome-Conserves :
    (payment : Payment) (db : Db) (p : Result Bool × Db)
    → FailedOutcome payment db p
    → Consistent db.tables db.seq
    → Known payment db.tables.payments
    → Conserves db.tables p.1.tables p.1.seq
FailedOutcome-Conserves payment db (err e, after) (same, grown) c known =
    Consistent-later db.tables after.tables db.seq after.seq c same grown
FailedOutcome-Conserves payment db (ok false, after) l c known =
    Lost-Conserves payment mark_failed db.tables after.tables db.seq after.seq l c
FailedOutcome-Conserves payment db (ok true, after) (m, restock) c known =
    let own = All-select _ (λ i. i.order_id == payment.order_id) db.tables.order_items c.shelved in
    let (stocks, shelves_kept) = restock own in
    let was = guarded_status payment db.tables.orders db.tables.payments known m.won c.agreement in
    (
      Moved-Consistent payment mark_failed PaymentStatus.failed OrderStatus.cancelled
          (λ now r. (refl, refl)) (λ now r. refl) refl db.tables after.tables db.seq after.seq m c
          known shelves_kept,
      λ p.
          rw (m.orders, m.order_items)
            (omega (
              arith,
              stocks p,
              reserved-cancel p payment.order_id m.then_at db.tables.orders db.tables.order_items
                  was,
            )),
    )

-- Cancelling, with a payment read from them, keeps consistent tables consistent and gives back to
-- the shelves what the order held.
pub fail_cancel_and_restock-Conserves :
    (engine : Engine) (payment : Payment) (db : Db)
    → Consistent db.tables db.seq
    → Known payment db.tables.payments
    → let after = (fail_cancel_and_restock engine payment db).1 in
      Conserves db.tables after.tables after.seq
fail_cancel_and_restock-Conserves engine payment db =
    FailedOutcome-Conserves payment db (fail_cancel_and_restock engine payment db)
      (fail_cancel_and_restock_lem engine payment db)
