-- ===== src/Services/Fulfillment/Progress.antt =====
-- `Fulfill` of internal/services/fulfillment.go, where the database answers: its order is settled and the others
-- go on.
use order_processing_system.Base.{
  ℕ, ◌≡◌, sym, ◌∙◌, inl, inr, Bool, true, false, none, some, find, arith, subst, Option-cases,
}
use order_processing_system.Models.{Text, Payment, Result, ok, err}
use order_processing_system.Config.{WorkerConfig}
use order_processing_system.Database.{Db, Tables, Engine}
use order_processing_system.Database.Success.{Faultless}
use order_processing_system.Payment.Gateway.{Gateway}
use order_processing_system.Repository.Order.{
  awaits, get_pending_by_order_id, mark_paid_and_confirm, fail_cancel_and_restock,
}
use order_processing_system.Repository.Order.Ledger.{Consistent}
use order_processing_system.Repository.Order.Agreement.{Known}
use order_processing_system.Repository.Order.Current.{find-Known}
use order_processing_system.Repository.Order.Finalize.{
  mark_paid_and_confirm_lem, fail_cancel_and_restock_lem,
}
use order_processing_system.Repository.Order.History.{get_pending-same}
use order_processing_system.Repository.Order.Settles.{mark_paid-settles, fail_cancel-settles}
use order_processing_system.Repository.Order.Progress.{
  Awaited, Progress, PaidOutcome-Progress, FailedOutcome-Progress,
}
use order_processing_system.Services.Notification.{Notifier}
use order_processing_system.Services.Fulfillment.{
  Charging, World, charge, confirmed_message, cancelled_message, announce, finish, fulfill,
}
use order_processing_system.Services.Fulfillment.Safety.{send-OnlyNotes}
use order_processing_system.Services.Fulfillment.Settles.{read-found}
use order_processing_system.Services.Fulfillment.Whole.{fulfill-found}

module _ {G N : Type 0} (cfg : WorkerConfig) (random : ℕ → ℕ) (gw : Gateway G)
    (notifier : Notifier N) (engine : Engine) (fine : Faultless engine) where
  abbrev ProgressTo : ℕ → Tables → Tables → Type 0
  ProgressTo id old new = Progress id old.orders new.orders new.payments

  announce-Progress :
      (p : Result Bool × Db) (id : ℕ) (message : Text) (c : Charging G) (hub : N) (old : Tables)
      → p.0 ≡ ok true
      → ProgressTo id old p.1.tables
      → ProgressTo id old (announce cfg random gw notifier engine p id message c hub).db.tables
  announce-Progress (ok true, db) id message c hub old e h =
      let t = (send-OnlyNotes engine notifier id message db hub).0 in
      subst (ProgressTo id old) (sym t)
        (record { own = h.own; stays = h.stays; awaited = h.awaited })
  announce-Progress (ok false, db) id message c hub old e h = absurd cc
  announce-Progress (err x, db) id message c hub old e h = absurd cc

  finish-Progress :
      (r : Result Text) (id : ℕ) (pay : Payment) (db : Db) (c : Charging G) (hub : N)
      → Consistent db.tables db.seq
      → find (awaits id) db.tables.payments ≡ some pay
      → Known pay db.tables.payments
      → Awaited db.tables.orders db.tables.payments
      → ProgressTo id db.tables (finish cfg random gw notifier engine r id pay db c hub).db.tables
  finish-Progress (ok txn) id pay db c hub k found known waits =
      let p = mark_paid_and_confirm engine pay txn db in
      let settled = mark_paid-settles id pay db k found known engine fine txn in
      announce-Progress p id (confirmed_message id) c hub db.tables settled.0 (
        PaidOutcome-Progress id pay txn db p (mark_paid_and_confirm_lem engine pay txn db) k known
          waits settled)
  finish-Progress (err e) id pay db c hub k found known waits =
      let p = fail_cancel_and_restock engine pay db in
      let settled = fail_cancel-settles id pay db k found known engine fine in
      announce-Progress p id (cancelled_message id) c hub db.tables settled.0 (
        FailedOutcome-Progress id pay db p (fail_cancel_and_restock_lem engine pay db) k known waits
          settled)

  read-missing :
      (id : ℕ) (w : World G N)
      → find (awaits id) w.db.tables.payments ≡ none
      → (fulfill cfg random gw notifier engine id w).db.tables ≡ w.db.tables
  unfolding fulfill get_pending_by_order_id
  read-missing id w missing = let answers = fine w.db.calls in ground (arith, answers, missing)

  idle-Progress :
      (id : ℕ) (t : Tables)
      → Awaited t.orders t.payments
      → find (awaits id) t.payments ≡ none
      → ProgressTo id t t
  idle-Progress id t waits missing = record {
    own = λ pending.
        let (r, found) = waits id pending in
        let clash : none ≡ some r = sym missing ∙ found in absurd cc;
    stays = λ k h. h;
    awaited = waits;
  }

  pub fulfill-Progress :
      (id : ℕ) (w : World G N)
      → Consistent w.db.tables w.db.seq
      → Awaited w.db.tables.orders w.db.tables.payments
      → ProgressTo id w.db.tables (fulfill cfg random gw notifier engine id w).db.tables
  fulfill-Progress id w k waits = elim (Option-cases (find (awaits id) w.db.tables.payments)) [
    | inl missing ↦
        subst (ProgressTo id w.db.tables) (sym (read-missing id w missing))
          (idle-Progress id w.db.tables waits missing)
    | inr (pay, found) ↦
        let db = (get_pending_by_order_id engine id w.db).1 in
        let (t, q) = get_pending-same engine id w.db in
        let k' : Consistent db.tables db.seq = rw (t, q) k in
        let found' : find (awaits id) db.tables.payments ≡ some pay = rw t found in
        let waits' : Awaited db.tables.orders db.tables.payments = rw t waits in
        let known = find-Known (awaits id) db.tables.payments pay k'.distinct found' in
        let (r, c) = charge cfg random gw pay w.charging in
        let v = finish cfg random gw notifier engine r id pay db c w.hub in
        subst (λ (u : World G N). ProgressTo id w.db.tables u.db.tables)
          (sym (
            fulfill-found cfg random gw notifier engine id w
              (read-found cfg random gw notifier engine fine id w.db pay found)))
          (subst (λ old. ProgressTo id old v.db.tables) t
            (finish-Progress r id pay db c w.hub k' found' known waits'))
  ]
