-- ===== src/Repository/Order/World.antt =====
-- Calls of internal/repository/order.go from any number of workers and handlers, in any order. A
-- transaction is one step. A worker that has loaded a payment may settle it at any later step, also
-- after another worker did.
use mathlib.Core.List.{Memᴰ}
use order_processing_system.Base.{
  ℕ, ◌+◌, ◌≤◌, ◌<◌, ◌≡◌, Bool, true, false, Option, none, some, List, ◌∷◌, ◌==◌, All, count_where,
}
use order_processing_system.Models.{
  Text, Time, Order, Payment, OrderStatus, PaymentStatus, Result, ok, err,
}
use order_processing_system.Database.{Tables, Sequences, Db, Engine}
use order_processing_system.Repository.Order.{
  create_order, mark_paid_and_confirm, fail_cancel_and_restock, get_pending_by_order_id,
  list_stale_pending,
}
use order_processing_system.Repository.Order.Ledger.{order_status, Consistent}
use order_processing_system.Repository.Order.Agreement.{Known}

-- `loaded` are the payments that workers hold; `won` are the orders, latest first, for which a call
-- reported that it made the transition.
pub record World : Type 0 where
  pub db : Db
  pub loaded : List Payment
  pub won : List ℕ

abbrev pub record_win : Result Bool → ℕ → List ℕ → List ℕ
record_win (ok true) id won = id ∷ won
record_win (ok false) id won = won
record_win (err e) id won = won

-- The world behind a call that settles a payment.
abbrev pub settled : Result Bool × Db → Payment → World → World
settled p payment w = record w { db = p.1; won = record_win p.0 payment.order_id w.won }

pub data Step (engine : Engine) (w : World) : World → Type 0 where
  create :
      (order : Order) (payment : Payment)
      → order.status ≡ OrderStatus.pending
      → payment.status ≡ PaymentStatus.pending
      → Step engine w (record w { db = (create_order engine order payment w.db).1 })
  load :
      (id : ℕ) {payment : Payment} {after : Db}
      → get_pending_by_order_id engine id w.db ≡ (ok payment, after)
      → Step engine w (record w { db = after; loaded = payment ∷ w.loaded })
  load_fails :
      (id : ℕ) → Step engine w (record w { db = (get_pending_by_order_id engine id w.db).1 })
  confirm :
      (payment : Payment) (txn : Text)
      → Memᴰ payment w.loaded
      → Step engine w (settled (mark_paid_and_confirm engine payment txn w.db) payment w)
  cancel :
      (payment : Payment)
      → Memᴰ payment w.loaded
      → Step engine w (settled (fail_cancel_and_restock engine payment w.db) payment w)
  list_stale :
      (now older_than : Time) (limit : ℕ)
      → Step engine w (record w { db = (list_stale_pending engine now older_than limit w.db).1 })

pub data Reach (engine : Engine) (start : World) : World → Type 0 where
  here : Reach engine start start
  next : {v w : World} → Reach engine start v → Step engine v w → Reach engine start w

-- What a worker holds of a payment is still what the table says, and no later payment has its id.
abbrev pub Current : Tables → Sequences → Payment → Type 0
Current t seq payment = Known payment t.payments × (payment.id < seq.payment)

-- An order that is not yet settled.
abbrev pub unsettled : Option OrderStatus → ℕ
unsettled none = 1
unsettled (some OrderStatus.pending) = 1
unsettled (some _) = 0

abbrev pub wins : ℕ → List ℕ → ℕ
wins k = count_where (λ id. id == k)

pub record Sound (w : World) : Type 0 where
  pub consistent : Consistent w.db.tables w.db.seq
  pub current : All (Current w.db.tables w.db.seq) w.loaded
  pub once : (k : ℕ) → wins k w.won + unsettled (order_status k w.db.tables.orders) ≤ 1
