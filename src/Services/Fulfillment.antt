-- ===== src/Services/Fulfillment.antt =====
-- internal/services/fulfillment.go: the fulfiller, which charges a pending payment and records how
-- that ended. The gateway, the notifier and the database are what it was constructed with.
pub mod Backoff
pub mod Charge
pub mod Sleeps
pub mod Safety
pub mod Whole
pub mod Settles
pub mod Progress
mod Tests
use order_processing_system.Base.{
  ℕ, zero, suc, ◌+◌, Bool, true, false, Option, none, some, List, [], ◌∷◌, ◌++◌, if◌then◌else◌,
  codes, itoa,
}
use order_processing_system.Base.Int.{ℤ, pos, ltb_ℤ, pos_part}
use order_processing_system.Models.{Text, Payment, Error, Result, ok, err}
use order_processing_system.Config.{WorkerConfig}
use order_processing_system.Database.{Db, Engine}
use order_processing_system.Repository.Order.{
  get_pending_by_order_id, mark_paid_and_confirm, fail_cancel_and_restock,
}
use order_processing_system.Payment.Gateway.{ChargeRequest, Gateway}
use order_processing_system.Services.Notification.{Notifier, send}
use Backoff.{backoff}

-- The gateway's state, and the delays that the worker has slept, latest first.
pub record Charging (G : Type 0) : Type 0 where
  pub gateway : G
  pub slept : List ℤ

-- What `Fulfill` changes.
pub record World (G N : Type 0) : Type 0 where
  pub db : Db
  pub charging : Charging G
  pub hub : N

abbrev pub charge_request : Payment → ChargeRequest
charge_request pay = record {
  idempotency_key = pay.idempotency_key;
  order_id = pay.order_id;
  amount = pay.amount;
}

-- `return payment.ChargeResult{}, lastErr`: with no error seen the result is the empty one.
abbrev pub last_result : Option Error → Result Text
last_result none = ok []
last_result (some e) = err e

-- `random` gives the generator's number at each attempt.
module _ {G : Type 0} (cfg : WorkerConfig) (random : ℕ → ℕ) (gw : Gateway G) where
  abbrev nap : ℕ → Charging G → Charging G
  nap attempt c =
      if ltb_ℤ (pos attempt) cfg.max_retries
      then record c { slept = backoff cfg (random attempt) attempt ∷ c.slept }
      else c

  -- The loop of `charge`, by the rounds that are left.
  pub charge_from : ℕ → ℕ → Option Error → Payment → Charging G → Result Text × Charging G
  charge_from zero attempt last pay c = (last_result last, c)
  charge_from (suc left) attempt last pay c =
      let (r, g) = gw.charge (charge_request pay) c.gateway in
      let c' = record c { gateway = g } in
      elim r [
        | ok txn ↦ (ok txn, c')
        | err e ↦ charge_from left (suc attempt) (some e) pay (nap attempt c')
      ]

  -- for attempt := 1; attempt <= MaxRetries; attempt++
  unfoldable pub charge : Payment → Charging G → Result Text × Charging G
  unfolding charge_from
  charge pay c = charge_from (pos_part cfg.max_retries) 1 none pay c

abbrev pub cancelled_message : ℕ → Text
cancelled_message id =
    codes "Order #" ++ (itoa id ++ codes " was cancelled: payment could not be processed.")

abbrev pub confirmed_message : ℕ → Text
confirmed_message id = codes "Order #" ++ (itoa id ++ codes " is confirmed. Payment received.")

module _ {G N : Type 0} (cfg : WorkerConfig) (random : ℕ → ℕ) (gw : Gateway G)
    (notifier : Notifier N) (engine : Engine) where
  -- What follows a finalizing call: a message if this worker made the transition.
  abbrev announce : Result Bool × Db → ℕ → Text → Charging G → N → World G N
  announce (err e, db) id message c hub = record { db = db; charging = c; hub = hub }
  announce (ok false, db) id message c hub = record { db = db; charging = c; hub = hub }
  announce (ok true, db) id message c hub =
      let (db', hub') = send engine notifier id message db hub in
      record { db = db'; charging = c; hub = hub' }

  abbrev finish : Result Text → ℕ → Payment → Db → Charging G → N → World G N
  finish (err e) id pay db c hub =
      announce (fail_cancel_and_restock engine pay db) id (cancelled_message id) c hub
  finish (ok txn) id pay db c hub =
      announce (mark_paid_and_confirm engine pay txn db) id (confirmed_message id) c hub

  abbrev charge_and_finish : ℕ → Payment → Db → World G N → World G N
  charge_and_finish id pay db w =
      let (r, c) = charge cfg random gw pay w.charging in finish r id pay db c w.hub

  -- An order with no pending payment, and a database that fails, leave everything as it is.
  unfoldable pub fulfill : ℕ → World G N → World G N
  fulfill id w =
      let (r, db) = get_pending_by_order_id engine id w.db in
      elim r [ ok pay ↦ charge_and_finish id pay db w | err e ↦ record w { db = db } ]
