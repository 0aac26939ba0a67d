-- ===== src/Services/Fulfillment/Whole.antt =====
-- `Fulfill` of internal/services/fulfillment.go from the read of the pending payment to the message.
use order_processing_system.Base.{ℕ, ◌<◌, ◌≡◌, refl, ap, inl, inr, subst}
use order_processing_system.Base.Int.{pos_part}
use order_processing_system.Models.{Payment, Result, ok, err, Result-cases}
use order_processing_system.Config.{WorkerConfig}
use order_processing_system.Database.{Engine}
use order_processing_system.Payment.Gateway.{Gateway}
use order_processing_system.Repository.Order.{get_pending_by_order_id, awaits}
use order_processing_system.Repository.Order.Ledger.{Consistent}
use order_processing_system.Repository.Order.Agreement.{Known}
use order_processing_system.Repository.Order.Conservation.{Conserves}
use order_processing_system.Repository.Order.Current.{find_unique, find-Known}
use order_processing_system.Repository.Order.History.{get_pending-found, get_pending-same}
use order_processing_system.Services.Notification.{Notifier}
use order_processing_system.Services.Fulfillment.{World, charge, finish, charge_and_finish, fulfill}
use order_processing_system.Services.Fulfillment.Charge.{charge-outcome, charge-keeps}
use order_processing_system.Services.Fulfillment.Safety.{
  PaidCharged, PaidCharged-keeps, finish-Conserves, finish-PaidCharged,
}

module _ {G N : Type 0} (cfg : WorkerConfig) (random : ℕ → ℕ) (gw : Gateway G)
    (notifier : Notifier N) (engine : Engine) where
  pub fulfill-found :
      (id : ℕ) (w : World G N) {pay : Payment}
      → (get_pending_by_order_id engine id w.db).0 ≡ ok pay
      → fulfill cfg random gw notifier engine id w
        ≡ charge_and_finish cfg random gw notifier engine id pay
            (get_pending_by_order_id engine id w.db).1
            w
  unfolding fulfill
  fulfill-found id w e = rw (e, fulfill)

  fulfill-missing :
      (id : ℕ) (w : World G N) {x : _}
      → (get_pending_by_order_id engine id w.db).0 ≡ err x
      → fulfill cfg random gw notifier engine id w
        ≡ record w { db = (get_pending_by_order_id engine id w.db).1 }
  unfolding fulfill
  fulfill-missing id w e = rw (e, fulfill)

  -- A fulfillment keeps consistent tables consistent and loses no unit of stock, whatever the
  -- gateway, the hub and the database do.
  pub fulfill-Conserves :
      (id : ℕ) (w : World G N)
      → Consistent w.db.tables w.db.seq
      → let w' = fulfill cfg random gw notifier engine id w in
        Conserves w.db.tables w'.db.tables w'.db.seq
  fulfill-Conserves id w k =
      let db = (get_pending_by_order_id engine id w.db).1 in
      let (t, q) = get_pending-same engine id w.db in
      let k' : Consistent db.tables db.seq = rw (t, q) k in
      elim (Result-cases (get_pending_by_order_id engine id w.db).0) [
        | inl (pay, e) ↦
            let (found, unchanged, grown) =
              get_pending-found engine id w.db (ap (λ (r : Result Payment). (r, db)) e) in
            let known = find-Known (awaits id) w.db.tables.payments pay k.distinct found in
            let (r, c) = charge cfg random gw pay w.charging in
            let known' : Known pay db.tables.payments = rw t known in
            let v = finish cfg random gw notifier engine r id pay db c w.hub in
            rw (fulfill-found id w e) (
              subst (λ old. Conserves old v.db.tables v.db.seq) t
                (finish-Conserves cfg random gw notifier engine r id pay db c w.hub k' known'))
        | inr (x, e) ↦ rw (fulfill-missing id w e) (rw (t, q) (k, λ p. refl))
      ]

  -- With at least one attempt allowed, on consistent tables whose paid payments have been charged,
  -- a fulfillment leaves every payment that is marked paid charged at the gateway, whatever fails.
  pub fulfill-PaidCharged :
      (id : ℕ) (w : World G N)
      → 0 < pos_part cfg.max_retries
      → Consistent w.db.tables w.db.seq
      → PaidCharged gw w.charging.gateway w.db.tables.payments
      → let w' = fulfill cfg random gw notifier engine id w in
        PaidCharged gw w'.charging.gateway w'.db.tables.payments
  fulfill-PaidCharged id w tries k paid =
      let db = (get_pending_by_order_id engine id w.db).1 in
      let (t, q) = get_pending-same engine id w.db in
      elim (Result-cases (get_pending_by_order_id engine id w.db).0) [
        | inl (pay, e) ↦
            let (found, unchanged, grown) =
              get_pending-found engine id w.db (ap (λ (r : Result Payment). (r, db)) e) in
            let only = find_unique (awaits id) w.db.tables.payments pay k.distinct found in
            let (r, c) = charge cfg random gw pay w.charging in
            let kept =
              PaidCharged-keeps gw w.charging.gateway c.gateway w.db.tables.payments
                (charge-keeps cfg random gw pay w.charging) paid in
            rw (fulfill-found id w e) (
              finish-PaidCharged cfg random gw notifier engine r id pay db w.charging.gateway c
                w.hub (charge-outcome cfg random gw pay w.charging tries) (rw t only) (rw t kept))
        | inr (x, e) ↦ rw (fulfill-missing id w e) (rw t paid)
      ]
