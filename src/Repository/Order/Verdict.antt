-- ===== src/Repository/Order/Verdict.antt =====
-- MarkPaidAndConfirm and FailCancelAndRestock of internal/repository/order.go by the rows that a reader
-- finds before and after them.
use order_processing_system.Base.{
  ℕ, ◌+◌, ◌≡◌, ◌≢◌, refl, sym, ap, ◌∙◌, Bool, true, false, Option, none, some, List, [], ◌∷◌, ◌==◌,
  inl, inr, arith, All, All-map, All-select, find, update_where, update_where-none, count_where,
  Bool-cases, Option-cases, ◌⊎◌,
}
use order_processing_system.Models.{
  Text, Time, Payment, OrderStatus, PaymentStatus, Result, ok, err,
}
use order_processing_system.Database.{Tables, Sequences, Db, Engine}
use order_processing_system.Repository.Order.{
  still_pending, pay, mark_failed, mark_paid_and_confirm, fail_cancel_and_restock,
}
use order_processing_system.Repository.Order.Stock.{stock, demand}
use order_processing_system.Repository.Order.Finalize.{
  own_items, PaidOutcome, FailedOutcome, Moved, Lost, mark_paid_and_confirm_lem,
  fail_cancel_and_restock_lem,
}
use order_processing_system.Repository.Order.Ledger.{order_status, Consistent, Distinct, Apart}
use order_processing_system.Repository.Order.Agreement.{Known, guard-le-one}
use order_processing_system.Repository.Order.Changes.{Moved-settles}

-- The row of a payment's id.
abbrev pub payment_row : ℕ → List Payment → Option Payment
payment_row k = find (λ (r : Payment). r.id == k)

-- The payment was pending and is now `done`, its order was pending and is now `s`, and no other
-- payment's row and no other order's status has changed.
pub record Settled (payment : Payment) (done : PaymentStatus) (s : OrderStatus) (old new : Tables)
    : Type 0 where
  pub row : Payment
  pub settled : Payment
  pub found : payment_row payment.id old.payments ≡ some row
  pub pending : row.status ≡ PaymentStatus.pending
  pub replaced : payment_row payment.id new.payments ≡ some settled
  pub status : settled.status ≡ done
  pub order_id : settled.order_id ≡ row.order_id
  pub amount : settled.amount ≡ row.amount
  pub key : settled.idempotency_key ≡ row.idempotency_key
  pub other_payments :
      (k : ℕ) → k ≢ payment.id → payment_row k new.payments ≡ payment_row k old.payments
  pub order_was : order_status payment.order_id old.orders ≡ some OrderStatus.pending
  pub order_is : order_status payment.order_id new.orders ≡ some s
  pub other_orders :
      (k : ℕ) → k ≢ payment.order_id → order_status k new.orders ≡ order_status k old.orders
  pub order_items : new.order_items ≡ old.order_items

-- The payment is not there or no longer pending.
abbrev pub Decided : Payment → Tables → Type 0
Decided payment t =
    (payment_row payment.id t.payments ≡ none)
    ⊎ ((row : Payment) × (payment_row payment.id t.payments ≡ some row)
        × (row.status ≢ PaymentStatus.pending))

-- An UPDATE guarded by an id replaces the row of that id alone.
row-other :
    (id k : ℕ) (f : Payment → Payment) (rs : List Payment)
    → ((r : Payment) → (f r).id ≡ r.id)
    → k ≢ id
    → payment_row k (update_where (still_pending id) f rs) ≡ payment_row k rs
row-other id k f [] keeps ne = refl
row-other id k f (r ∷ rs) keeps ne = ground (arith, keeps r, ne, row-other id k f rs keeps ne)

row-none : (id : ℕ) (rs : List Payment) → All (λ r. r.id ≢ id) rs → payment_row id rs ≡ none
row-none id [] h = refl
row-none id (r ∷ rs) h = ground (arith, h.0, row-none id rs h.1)

guard-counted :
    (id : ℕ) (rs : List Payment)
    → count_where (still_pending id) rs ≡ 1
    → Distinct rs
    → (row : Payment) × (payment_row id rs ≡ some row) × (row.status ≡ PaymentStatus.pending)
guard-counted id [] one d = absurd (omega arith)
guard-counted id (r ∷ rs) one d = elim (Bool-cases (still_pending id r)) [
  | inl hit ↦ (r, ground arith, ground arith)
  | inr miss ↦
      let (row, found, pending) = guard-counted id rs (ground arith) d.1 in
      elim (Bool-cases (r.id == id)) [
        | inl here ↦
            let same : r.id ≡ id = ground arith in
            let hidden : All (λ x. x.id ≢ id) rs =
              All-map (Apart r) _ rs (λ x ne. rw (← same) ne.0) d.0 in
            let none_else = row-none id rs hidden in absurd cc
        | inr away ↦ (row, rw away found, pending)
      ]
]

row-guarded :
    (id : ℕ) (f : Payment → Payment) (rs : List Payment) (row : Payment)
    → ((r : Payment) → (f r).id ≡ r.id)
    → payment_row id rs ≡ some row
    → row.status ≡ PaymentStatus.pending
    → payment_row id (update_where (still_pending id) f rs) ≡ some (f row)
row-guarded id f [] row keeps e pending = absurd cc
row-guarded id f (r ∷ rs) row keeps e pending = elim (Bool-cases (r.id == id)) [
  | inl here ↦ let same : r ≡ row = ground (arith, here, e) in ground (arith, here, keeps r, same)
  | inr away ↦
      let rest = row-guarded id f rs row keeps (ground (arith, away, e)) pending in
      ground (arith, away, rest)
]

uncounted :
    (id : ℕ) (rs : List Payment) (row : Payment)
    → count_where (still_pending id) rs ≡ 0
    → payment_row id rs ≡ some row
    → row.status ≢ PaymentStatus.pending
uncounted id [] row zero e p = absurd cc
uncounted id (r ∷ rs) row zero e p = elim (Bool-cases (r.id == id)) [
  | inl here ↦ let same : r ≡ row = ground (arith, here, e) in ground (arith, here, same)
  | inr away ↦ uncounted id rs row (omega arith) (ground (arith, away, e)) p
]

-- Both updates of a payment keep its id, order, amount and key and set its status.
abbrev Sets : PaymentStatus → (Payment → Payment) → Type 0
Sets done f =
    (r : Payment)
    → ((f r).status ≡ done)
      × ((f r).id ≡ r.id)
      × ((f r).order_id ≡ r.order_id)
      × ((f r).amount ≡ r.amount)
      × ((f r).idempotency_key ≡ r.idempotency_key)

module _ (payment : Payment) (db : Db) (c : Consistent db.tables db.seq)
    (known : Known payment db.tables.payments) where
  Moved-Settled :
      (f : Time → Payment → Payment) (done : PaymentStatus) (s : OrderStatus) (new : Tables)
      (seq' : Sequences)
      → ((now : Time) → Sets done (f now))
      → Moved payment f s db.tables new db.seq seq'
      → (e : Settled payment done s db.tables new) × ((at : Time) × (e.settled ≡ f at e.row))
  Moved-Settled f done s new seq' sets m =
      let rows = db.tables.payments in
      let (row, found, pending) = guard-counted payment.id rows m.won c.distinct in
      let keeps : (r : Payment) → (f m.at r).id ≡ r.id = λ r. (sets m.at r).1 in
      let (status, id, order, amount, key) = sets m.at row in
      let here = Moved-settles payment.order_id payment f s db.tables new db.seq seq' m c known in
      (
        record {
          row = row;
          settled = f m.at row;
          found = found;
          pending = pending;
          replaced = rw m.payments (row-guarded payment.id (f m.at) rows row keeps found pending);
          status = status;
          order_id = order;
          amount = amount;
          key = key;
          other_payments = λ k ne. rw m.payments (row-other payment.id k (f m.at) rows keeps ne);
          order_was = elim here [ inl h ↦ h.1 | inr h ↦ absurd (h.0 refl) ];
          order_is = elim here [ inl h ↦ h.2 | inr h ↦ absurd (h.0 refl) ];
          other_orders = λ k ne.
              elim (Moved-settles k payment f s db.tables new db.seq seq' m c known) [
                | inl h ↦ absurd (ne (sym h.0))
                | inr h ↦ h.1
              ];
          order_items = m.order_items;
        },
        (m.at, refl),
      )

  Lost-Decided :
      (f : Time → Payment → Payment) (new : Tables) (seq' : Sequences)
      → Lost payment f db.tables new db.seq seq'
      → (new ≡ db.tables) × Decided payment db.tables
  Lost-Decided f new seq' l =
      let rows = db.tables.payments in
      let most = guard-le-one payment.id rows c.distinct in
      let missed = l.missed in
      let zero_rows : count_where (still_pending payment.id) rows ≡ 0 =
        ground (arith, most, missed) in
      (
        l.tables
            ∙ ap (λ ps. record (db.tables) { payments = ps })
                (update_where-none (still_pending payment.id) (f l.at) rows zero_rows),
        elim (Option-cases (payment_row payment.id rows)) [
          | inl gone ↦ inl gone
          | inr (row, found) ↦ inr (row, found, uncounted payment.id rows row zero_rows found)
        ],
      )

-- How a call of either method ends. An error changes no table; `true`, that this call settled the
-- payment and its order; `false`, that the payment was decided before, and no table changes.
abbrev pub PaidVerdict : Payment → Text → Db → Result Bool × Db → Type 0
PaidVerdict payment txn db (err e, after) = after.tables ≡ db.tables
PaidVerdict payment txn db (ok false, after) =
    (after.tables ≡ db.tables) × Decided payment db.tables
PaidVerdict payment txn db (ok true, after) =
    (e : Settled payment PaymentStatus.paid OrderStatus.confirmed db.tables after.tables)
    × (e.settled.provider_txn_id ≡ some txn)
    × (after.tables.inventory ≡ db.tables.inventory)

abbrev pub FailedVerdict : Payment → Db → Result Bool × Db → Type 0
FailedVerdict payment db (err e, after) = after.tables ≡ db.tables
FailedVerdict payment db (ok false, after) = (after.tables ≡ db.tables) × Decided payment db.tables
FailedVerdict payment db (ok true, after) =
    (e : Settled payment PaymentStatus.failed OrderStatus.cancelled db.tables after.tables)
    × (e.settled.provider_txn_id ≡ e.row.provider_txn_id)
    × ((p : ℕ)
        → stock p after.tables.inventory
          ≡ stock p db.tables.inventory + demand p (own_items payment db.tables))

module _ (payment : Payment) (db : Db) (c : Consistent db.tables db.seq)
    (known : Known payment db.tables.payments) where
  PaidOutcome-PaidVerdict :
      (txn : Text) (p : Result Bool × Db)
      → PaidOutcome payment txn db p
      → PaidVerdict payment txn db p
  PaidOutcome-PaidVerdict txn (err e, after) o = o.0
  PaidOutcome-PaidVerdict txn (ok false, after) o =
      Lost-Decided payment db c known (λ now. pay now txn) after.tables after.seq o
  PaidOutcome-PaidVerdict txn (ok true, after) (m, inventory) =
      let (e, (at, is)) =
        Moved-Settled payment db c known (λ now. pay now txn) PaymentStatus.paid
          OrderStatus.confirmed after.tables after.seq (λ now r. (refl, refl, refl, refl, refl))
          m in
      (e, ap (λ (r : Payment). r.provider_txn_id) is, inventory)

  FailedOutcome-FailedVerdict :
      (p : Result Bool × Db) → FailedOutcome payment db p → FailedVerdict payment db p
  FailedOutcome-FailedVerdict (err e, after) o = o.0
  FailedOutcome-FailedVerdict (ok false, after) o =
      Lost-Decided payment db c known mark_failed after.tables after.seq o
  FailedOutcome-FailedVerdict (ok true, after) (m, back) =
      let (e, (at, is)) =
        Moved-Settled payment db c known mark_failed PaymentStatus.failed OrderStatus.cancelled
          after.tables after.seq (λ now r. (refl, refl, refl, refl, refl)) m in
      (
        e,
        ap (λ (r : Payment). r.provider_txn_id) is,
        (back
            (All-select _ (λ i. i.order_id == payment.order_id) db.tables.order_items c.shelved)).0,
      )

  -- MarkPaidAndConfirm on consistent tables, with a payment read from them. An error changes no
  -- table; false means that the payment's row is gone or no longer pending, and changes no table.
  -- True means that the row was pending and is now paid under the transaction's id, its order was
  -- pending and is now confirmed, no stock has moved, and no other payment's row and no other
  -- order's status has changed.
  pub mark_paid_and_confirm-PaidVerdict :
      (engine : Engine) (txn : Text)
      → PaidVerdict payment txn db (mark_paid_and_confirm engine payment txn db)
  mark_paid_and_confirm-PaidVerdict engine txn =
      PaidOutcome-PaidVerdict txn (mark_paid_and_confirm engine payment txn db)
        (mark_paid_and_confirm_lem engine payment txn db)

  -- FailCancelAndRestock on consistent tables, with a payment read from them. An error changes no
  -- table; false means that the payment's row is gone or no longer pending, and changes no table.
  -- True means that the row was pending and is now failed, its order was pending and is now
  -- cancelled, each product's stock has grown by what the order's items ask of it, and no other
  -- payment's row and no other order's status has changed.
  pub fail_cancel_and_restock-FailedVerdict :
      (engine : Engine) → FailedVerdict payment db (fail_cancel_and_restock engine payment db)
  fail_cancel_and_restock-FailedVerdict engine =
      FailedOutcome-FailedVerdict (fail_cancel_and_restock engine payment db)
        (fail_cancel_and_restock_lem engine payment db)
