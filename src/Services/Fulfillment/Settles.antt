-- ===== src/Services/Fulfillment/Settles.antt =====
-- `Fulfill` of internal/services/fulfillment.go settles the order that it takes up, where the database answers.
use order_processing_system.Base.{
  ℕ, ◌≡◌, ◌⊎◌, refl, sym, ap, ◌∙◌, inl, inr, Bool, true, false, some, find, arith, subst,
}
use order_processing_system.Models.{Text, Payment, Error, OrderStatus, Result, ok, err}
use order_processing_system.Config.{WorkerConfig}
use order_processing_system.Database.{Db, Tables, Engine}
use order_processing_system.Database.Success.{Faultless}
use order_processing_system.Payment.Gateway.{Gateway}
use order_processing_system.Repository.Order.{
  awaits, get_pending_by_order_id, mark_paid_and_confirm, fail_cancel_and_restock,
}
use order_processing_system.Repository.Order.Ledger.{order_status, Consistent}
use order_processing_system.Repository.Order.Agreement.{Known}
use order_processing_system.Repository.Order.Current.{find-Known}
use order_processing_system.Repository.Order.History.{get_pending-same}
use order_processing_system.Repository.Order.Settles.{mark_paid-settles, fail_cancel-settles}
use order_processing_system.Services.Notification.{Notifier}
use order_processing_system.Services.Fulfillment.{
  Charging, World, charge, confirmed_message, cancelled_message, announce, finish, fulfill,
}
use order_processing_system.Services.Fulfillment.Safety.{send-OnlyNotes}
use order_processing_system.Services.Fulfillment.Charge.{charge-no_attempts}
use order_processing_system.Base.Int.{pos_part}
use order_processing_system.Services.Fulfillment.Whole.{fulfill-found}

module _ {G N : Type 0} (cfg : WorkerConfig) (random : ℕ → ℕ) (gw : Gateway G)
    (notifier : Notifier N) (engine : Engine) (fine : Faultless engine) where
  announce-status :
      (p : Result Bool × Db) (id : ℕ) (message : Text) (c : Charging G) (hub : N) (s : OrderStatus)
      → p.0 ≡ ok true
      → order_status id p.1.tables.orders ≡ some s
      → order_status id (announce cfg random gw notifier engine p id message c hub).db.tables.orders
        ≡ some s
  announce-status (ok true, db) id message c hub s e h =
      ap (λ (t : Tables). order_status id t.orders)
        (send-OnlyNotes engine notifier id message db hub).0
      ∙ h
  announce-status (ok false, db) id message c hub s e h = absurd cc
  announce-status (err x, db) id message c hub s e h = absurd cc

  -- How the charge ended decides the order.
  abbrev Settled : Result Text → ℕ → World G N → Type 0
  Settled (ok txn) id w = order_status id w.db.tables.orders ≡ some OrderStatus.confirmed
  Settled (err e) id w = order_status id w.db.tables.orders ≡ some OrderStatus.cancelled

  finish-Settled :
      (r : Result Text) (id : ℕ) (pay : Payment) (db : Db) (c : Charging G) (hub : N)
      → Consistent db.tables db.seq
      → find (awaits id) db.tables.payments ≡ some pay
      → Known pay db.tables.payments
      → Settled r id (finish cfg random gw notifier engine r id pay db c hub)
  finish-Settled (ok txn) id pay db c hub k found known =
      let (won, status) = mark_paid-settles id pay db k found known engine fine txn in
      announce-status (mark_paid_and_confirm engine pay txn db) id (confirmed_message id) c hub
        OrderStatus.confirmed won status
  finish-Settled (err e) id pay db c hub k found known =
      let (won, status) = fail_cancel-settles id pay db k found known engine fine in
      announce-status (fail_cancel_and_restock engine pay db) id (cancelled_message id) c hub
        OrderStatus.cancelled won status

  pub read-found :
      (id : ℕ) (db : Db) (pay : Payment)
      → find (awaits id) db.tables.payments ≡ some pay
      → (get_pending_by_order_id engine id db).0 ≡ ok pay
  unfolding get_pending_by_order_id
  read-found id db pay found = let answers = fine db.calls in ground (arith, answers, found)

  fulfill-Settled :
      (id : ℕ) (w : World G N) (pay : Payment)
      → Consistent w.db.tables w.db.seq
      → find (awaits id) w.db.tables.payments ≡ some pay
      → Settled
          (charge cfg random gw pay w.charging).0
          id
          (fulfill cfg random gw notifier engine id w)
  fulfill-Settled id w pay k found =
      let db = (get_pending_by_order_id engine id w.db).1 in
      let (t, q) = get_pending-same engine id w.db in
      let k' : Consistent db.tables db.seq = rw (t, q) k in
      let found' : find (awaits id) db.tables.payments ≡ some pay = rw t found in
      let known = find-Known (awaits id) db.tables.payments pay k'.distinct found' in
      let (r, c) = charge cfg random gw pay w.charging in
      subst (Settled r id)
        (sym (fulfill-found cfg random gw notifier engine id w (read-found id w.db pay found)))
        (finish-Settled r id pay db c w.hub k' found' known)

  Settled-cases :
      (r : Result Text) (id : ℕ) (w : World G N)
      → Settled r id w
      → ((txn : Text) × (r ≡ ok txn)
          × (order_status id w.db.tables.orders ≡ some OrderStatus.confirmed))
        ⊎ ((e : Error) × (r ≡ err e)
            × (order_status id w.db.tables.orders ≡ some OrderStatus.cancelled))
  Settled-cases (ok txn) id w h = inl (txn, refl, h)
  Settled-cases (err e) id w h = inr (e, refl, h)

  -- On consistent tables and with a database that answers every call, Fulfill settles an order with
  -- a pending payment: confirmed if the charge of that payment succeeds, cancelled if it fails
  -- after all its attempts.
  pub fulfill-settles :
      (id : ℕ) (w : World G N) (pay : Payment)
      → Consistent w.db.tables w.db.seq
      → find (awaits id) w.db.tables.payments ≡ some pay
      → let r = (charge cfg random gw pay w.charging).0 in
        let w' = fulfill cfg random gw notifier engine id w in
        ((txn : Text) × (r ≡ ok txn)
          × (order_status id w'.db.tables.orders ≡ some OrderStatus.confirmed))
        ⊎ ((e : Error) × (r ≡ err e)
            × (order_status id w'.db.tables.orders ≡ some OrderStatus.cancelled))
  fulfill-settles id w pay k found =
      Settled-cases (charge cfg random gw pay w.charging).0 id
        (fulfill cfg random gw notifier engine id w) (fulfill-Settled id w pay k found)

  announce-charging :
      (p : Result Bool × Db) (id : ℕ) (message : Text) (c : Charging G) (hub : N)
      → (announce cfg random gw notifier engine p id message c hub).charging ≡ c
  announce-charging (ok true, db) id message c hub = refl
  announce-charging (ok false, db) id message c hub = refl
  announce-charging (err x, db) id message c hub = refl

  finish-charging :
      (r : Result Text) (id : ℕ) (pay : Payment) (db : Db) (c : Charging G) (hub : N)
      → (finish cfg random gw notifier engine r id pay db c hub).charging ≡ c
  finish-charging (ok txn) id pay db c hub =
      announce-charging (mark_paid_and_confirm engine pay txn db) id (confirmed_message id) c hub
  finish-charging (err e) id pay db c hub =
      announce-charging (fail_cancel_and_restock engine pay db) id (cancelled_message id) c hub

  -- On consistent tables, with a database that answers every call and MaxRetries of zero or less,
  -- Fulfill confirms an order with a pending payment though the gateway is never asked.
  pub fulfill-no_attempts :
      (id : ℕ) (w : World G N) (pay : Payment)
      → Consistent w.db.tables w.db.seq
      → find (awaits id) w.db.tables.payments ≡ some pay
      → pos_part cfg.max_retries ≡ 0
      → let w' = fulfill cfg random gw notifier engine id w in
        (order_status id w'.db.tables.orders ≡ some OrderStatus.confirmed)
        × (w'.charging ≡ w.charging)
  fulfill-no_attempts id w pay k found idle =
      let empty = charge-no_attempts cfg random gw pay w.charging idle in
      let (r, c) = charge cfg random gw pay w.charging in
      let db = (get_pending_by_order_id engine id w.db).1 in
      let runs = fulfill-found cfg random gw notifier engine id w (read-found id w.db pay found) in
      (
        subst
            (λ (p : Result Text × Charging G).
              Settled p.0 id (fulfill cfg random gw notifier engine id w))
            empty (fulfill-Settled id w pay k found),
        ap (λ (v : World G N). v.charging) runs
            ∙ finish-charging r id pay db c w.hub
            ∙ ap (λ (p : Result Text × Charging G). p.1) empty,
      )
