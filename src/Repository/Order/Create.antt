-- ===== src/Repository/Order/Create.antt =====
-- What the transaction of CreateOrder in internal/repository/order.go has done when it succeeds.
use order_processing_system.Base.{
  ℕ, suc, ◌+◌, ◌≤◌, ◌≡◌, refl, List, [], ◌∷◌, ◌++◌, ◌==◌, arith, inl, inr, Bool-cases, All,
}
use order_processing_system.Models.{Time, Order, OrderItem, Payment, Result, ok, err}
use order_processing_system.Database.{Tables, Sequences, Db, Engine, tick, send}
use order_processing_system.Database.Laws.{
  >>=-eq-ok, send-eq-ok, SeqLe, Grows, pure-Grows, fail-Grows, >>=-Grows, send-Grows, Ends, undone,
  committed, transaction-Ends,
}
use order_processing_system.Repository.Order.{
  reserve_items, create_order_row, create_order_body, create_order, insert_order, place_items,
  assign_order, insert_items, insert_payment, update_inventory, covers, take_stock,
}
use order_processing_system.Repository.Order.Stock.{
  stock, demand, shelves, Reserved, reserve_items-Reserved,
}

-- Stored rows say what the items said; only their ids are new.
abbrev pub SameLines : List OrderItem → List OrderItem → Type 0
SameLines [] [] = Unit {0}
SameLines [] (i ∷ is) = ⊥
SameLines (r ∷ rs) [] = ⊥
SameLines (r ∷ rs) (i ∷ is) =
    (r.order_id ≡ i.order_id)
    × (r.product_id ≡ i.product_id)
    × (r.quantity ≡ i.quantity)
    × (r.price_at_purchase ≡ i.price_at_purchase)
    × SameLines rs is

place_items-SameLines :
    (table items rows : List OrderItem) (id : ℕ)
    → place_items table items id ≡ ok rows
    → SameLines rows items
unfolding place_items
place_items-SameLines table [] [] id e = tt
place_items-SameLines table [] (r ∷ rows) id e = cc
place_items-SameLines table (item ∷ items) [] id e = ground arith
place_items-SameLines table (item ∷ items) (r ∷ rows) id e =
    ground
      (arith, place_items-SameLines (table ++ (record item { id = id } ∷ [])) items rows (suc id))

pub demand-SameLines :
    (p : ℕ) (rows items : List OrderItem) → SameLines rows items → demand p rows ≡ demand p items
demand-SameLines p [] [] h = refl
demand-SameLines p [] (i ∷ is) h = absurd h
demand-SameLines p (r ∷ rs) [] h = absurd h
demand-SameLines p (r ∷ rs) (i ∷ is) h = ground (arith, demand-SameLines p rs is)

pub demand-assign_order :
    (p id : ℕ) (items : List OrderItem) → demand p (assign_order id items) ≡ demand p items
demand-assign_order p id [] = refl
demand-assign_order p id (item ∷ items) = ground (arith, demand-assign_order p id items)

pub owned-rows :
    (id : ℕ) (rows items : List OrderItem)
    → SameLines rows (assign_order id items)
    → All (λ r. r.order_id ≡ id) rows
owned-rows id [] items h = tt
owned-rows id (r ∷ rs) [] h = absurd h
owned-rows id (r ∷ rs) (i ∷ is) h = ground (arith, owned-rows id rs is)

pub shelved-rows :
    (id n : ℕ) (f : ℕ → ℕ) (rows items : List OrderItem)
    → SameLines rows (assign_order id items)
    → All (λ i. n ≤ f i.product_id) items
    → All (λ r. n ≤ f r.product_id) rows
shelved-rows id n f [] items h s = tt
shelved-rows id n f (r ∷ rs) [] h s = absurd h
shelved-rows id n f (r ∷ rs) (i ∷ is) h s = ground (arith, shelved-rows id n f rs is)

-- The order row that an insert makes, and the row that it stores.
abbrev pub order_row : Time → ℕ → Order → Order
order_row now id order = record order { id = id; created_at = now; updated_at = now }

abbrev pub payment_row : Time → ℕ → ℕ → Payment → Payment
payment_row now id order_id payment = record payment {
  id = id;
  order_id = order_id;
  created_at = now;
  updated_at = now;
}

insert_order-ok :
    (now : Time) (order : Order) (db : Db) {made : Order} {after : Db}
    → insert_order now order db ≡ (ok made, after)
    → (made ≡ order_row now db.seq.order order)
      × (after ≡ record db {
        tables = record (db.tables) {
          orders = db.tables.orders ++ (record made { items = [] } ∷ []);
        };
        seq = record (db.seq) { order = suc db.seq.order };
      })
unfolding insert_order
insert_order-ok now order db e = ground arith

insert_items-ok :
    (items : List OrderItem) (db : Db) {rows : List OrderItem} {after : Db}
    → insert_items items db ≡ (ok rows, after)
    → SameLines rows items
      × (after.tables ≡ record (db.tables) { order_items = db.tables.order_items ++ rows })
      × (after.seq.order ≡ db.seq.order)
      × (after.seq.payment ≡ db.seq.payment)
unfolding insert_items
insert_items-ok [] db e = cc
insert_items-ok (item ∷ items) db {rows} e =
    ground
      (arith, place_items-SameLines db.tables.order_items (item ∷ items) rows db.seq.order_item)

insert_payment-ok :
    (now : Time) (payment : Payment) (db : Db) {paid : Payment} {after : Db}
    → insert_payment now payment db ≡ (ok paid, after)
    → (paid ≡ payment_row now db.seq.payment payment.order_id payment)
      × (after.tables ≡ record (db.tables) { payments = db.tables.payments ++ (paid ∷ []) })
      × (after.seq ≡ record (db.seq) { payment = suc db.seq.payment })
unfolding insert_payment
insert_payment-ok now payment db e = ground arith

insert_items-Grows : (items : List OrderItem) → Grows (insert_items items)
unfolding insert_items
insert_items-Grows [] = record { grows = λ db. omega arith }
insert_items-Grows (item ∷ items) = record { grows = λ db. ground arith }

insert_payment-Grows : (now : Time) (payment : Payment) → Grows (insert_payment now payment)
unfolding insert_payment
insert_payment-Grows now payment = record { grows = λ db. ground arith }

-- What a committed order has changed: `made` and `paid` are what the caller gets back.
pub record Created (order made : Order) (payment paid : Payment) (old new : Tables)
    (seq seq' : Sequences) : Type 0 where
  pub made_id : made.id ≡ seq.order
  pub made_status : made.status ≡ order.status
  pub made_owner : made.user_id ≡ order.user_id
  pub made_total : made.total_price ≡ order.total_price
  pub paid_id : paid.id ≡ seq.payment
  pub paid_order : paid.order_id ≡ seq.order
  pub paid_status : paid.status ≡ payment.status
  pub paid_amount : paid.amount ≡ payment.amount
  pub paid_key : paid.idempotency_key ≡ payment.idempotency_key
  pub lines : SameLines made.items (assign_order seq.order order.items)
  pub orders : new.orders ≡ old.orders ++ (record made { items = [] } ∷ [])
  pub order_items : new.order_items ≡ old.order_items ++ made.items
  pub payments : new.payments ≡ old.payments ++ (paid ∷ [])
  pub taken : (p : ℕ) → stock p new.inventory + demand p order.items ≡ stock p old.inventory
  pub shelved : (p : ℕ) → shelves p new.inventory ≡ shelves p old.inventory
  pub found : All (λ item. 1 ≤ shelves item.product_id old.inventory) order.items
  pub next_order : seq'.order ≡ suc seq.order
  pub next_payment : seq'.payment ≡ suc seq.payment

-- The four parts of the transaction together.
assemble :
    (order made created : Order) (payment paid row : Payment) (rows : List OrderItem)
    (db d1 d2 d3 d4 after : Db) (now later : Time)
    → Reserved order.items db d1
    → (created ≡ order_row now d1.seq.order order)
      × (d2 ≡ record d1 {
        calls = suc d1.calls;
        tables = record (d1.tables) {
          orders = d1.tables.orders ++ (record created { items = [] } ∷ []);
        };
        seq = record (d1.seq) { order = suc d1.seq.order };
      })
    → SameLines rows (assign_order created.id order.items)
      × (d3.tables ≡ record (d2.tables) { order_items = d2.tables.order_items ++ rows })
      × (d3.seq.order ≡ d2.seq.order)
      × (d3.seq.payment ≡ d2.seq.payment)
    → (row ≡ payment_row later d3.seq.payment created.id payment)
      × (d4.tables ≡ record (d3.tables) { payments = d3.tables.payments ++ (row ∷ []) })
      × (d4.seq ≡ record (d3.seq) { payment = suc d3.seq.payment })
    → (made ≡ record created { items = rows }) × (paid ≡ row) × (after ≡ d4)
    → Created order made payment paid db.tables after.tables db.seq after.seq
assemble order made created payment paid row rows db d1 d2 d3 d4 after now later r o l c e =
    record {
      made_id = ground arith;
      made_status = ground arith;
      made_owner = ground arith;
      made_total = ground arith;
      paid_id = ground arith;
      paid_order = ground arith;
      paid_status = ground arith;
      paid_amount = ground arith;
      paid_key = ground arith;
      lines =
          let same : made.items ≡ rows = ground arith in
          let id : db.seq.order ≡ created.id = ground arith in rw same (rw id l.0);
      orders = ground arith;
      order_items = ground arith;
      payments = ground arith;
      taken = λ p. ground (arith, r.taken p);
      shelved = λ p. ground (arith, r.shelved p);
      found = r.found;
      next_order = ground arith;
      next_payment = ground arith;
    }

module _ (engine : Engine) where
  create_order_row-ok :
      (order : Order) (db : Db) {made : Order} {after : Db}
      → create_order_row engine order db ≡ (ok made, after)
      → (now : Time) × (insert_order now order (tick db) ≡ (ok made, after))
  unfolding create_order_row
  create_order_row-ok order db e =
      (engine.clock db.calls, send-eq-ok engine (λ now. insert_order now order) db (ground arith))

  create_order_body-Created :
      (order made : Order) (payment paid : Payment) (db after : Db)
      → create_order_body engine order payment db ≡ (ok (made, paid), after)
      → Created order made payment paid db.tables after.tables db.seq after.seq
  unfolding create_order_body
  create_order_body-Created order made payment paid db after e =
      >>=-eq-ok (reserve_items engine order.items) _ db e λ u d1 reserved e1.
        >>=-eq-ok (create_order_row engine order) _ d1 e1 λ created d2 inserted e2.
          let store = λ (t : Time). insert_items (assign_order created.id order.items) in
          >>=-eq-ok (send engine store) _ d2 e2 λ rows d3 stored e3.
            let charge =
              λ (t : Time). insert_payment t (record payment { order_id = created.id }) in
            >>=-eq-ok (send engine charge) _ d3 e3 λ row d4 charged e4.
              let (now, placed) = create_order_row-ok order d1 inserted in
              assemble order made created payment paid row rows db d1 d2 d3 d4 after now
                (engine.clock d3.calls) (reserve_items-Reserved engine order.items db d1 reserved)
                (insert_order-ok now order (tick d1) placed)
                (insert_items-ok (assign_order created.id order.items) (tick d2)
                  (send-eq-ok engine store d2 stored))
                (insert_payment-ok _ (record payment { order_id = created.id }) (tick d3)
                  (send-eq-ok engine charge d3 charged))
                (ground arith)

  reserve_items-Grows : (items : List OrderItem) → Grows (reserve_items engine items)
  unfolding reserve_items
  reserve_items-Grows [] = pure-Grows tt
  reserve_items-Grows (item ∷ items) =
      let decrement = λ (now : Time). update_inventory (covers item) (take_stock now item) in
      >>=-Grows (send engine decrement) _
        (send-Grows engine decrement (λ now. record { grows = λ db. omega arith }))
        λ n. elim (Bool-cases (n == 1)) [
          | inl one ↦ rw one (reserve_items-Grows items)
          | inr other ↦ rw other (fail-Grows (Unit {0}) _)
        ]

  create_order_row-Grows : (order : Order) → Grows (create_order_row engine order)
  unfolding create_order_row insert_order
  create_order_row-Grows order = record { grows = λ db. ground arith }

  create_order_body-Grows :
      (order : Order) (payment : Payment) → Grows (create_order_body engine order payment)
  unfolding create_order_body
  create_order_body-Grows order payment =
      >>=-Grows (reserve_items engine order.items) _ (reserve_items-Grows order.items) λ _.
        >>=-Grows (create_order_row engine order) _ (create_order_row-Grows order) λ created.
          let lines = assign_order created.id order.items in
          let store = λ (t : Time). insert_items lines in
          >>=-Grows (send engine store) _ (send-Grows engine store (λ _. insert_items-Grows lines))
            λ rows.
              let charged = record payment { order_id = created.id } in
              let charge = λ (t : Time). insert_payment t charged in
              >>=-Grows (send engine charge) _
                (send-Grows engine charge (λ t. insert_payment-Grows t charged))
                λ paid. pure-Grows _

-- A failed call changes no table. One that succeeds has done all its parts.
abbrev pub CreateOutcome : Order → Payment → Db → Result (Order × Payment) × Db → Type 0
CreateOutcome order payment db (err e, after) = (after.tables ≡ db.tables) × SeqLe db.seq after.seq
CreateOutcome order payment db (ok (made, paid), after) =
    Created order made payment paid db.tables after.tables db.seq after.seq

Ends-CreateOutcome :
    (engine : Engine) (order : Order) (payment : Payment) (db : Db)
    {p : Result (Order × Payment) × Db}
    → Ends (create_order_body engine order payment) db p
    → CreateOutcome order payment db p
Ends-CreateOutcome engine order payment db (undone e after same grown) = (same, grown)
Ends-CreateOutcome engine order payment db (committed (made, paid) after went) =
    create_order_body-Created engine order made payment paid (tick db) after went

-- CreateOrder on every branch: an error leaves all tables as they were; a success has taken each
-- line's quantity from a shelf that covered it, and has stored the order, its items and its payment
-- under fresh ids.
pub create_order_lem :
    (engine : Engine) (order : Order) (payment : Payment) (db : Db)
    → CreateOutcome order payment db (create_order engine order payment db)
unfolding create_order
create_order_lem engine order payment db = Ends-CreateOutcome engine order payment db (
    transaction-Ends engine (create_order_body engine order payment) db
      (create_order_body-Grows engine order payment))
