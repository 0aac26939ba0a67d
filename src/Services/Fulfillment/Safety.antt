-- ===== src/Services/Fulfillment/Safety.antt =====
-- What `Fulfill` of internal/services/fulfillment.go keeps: no payment is marked paid unless the
-- provider has the money, and no unit of stock is lost.
use order_processing_system.Base.{
  ℕ, ◌≡◌, refl, ap, ◌∙◌, inl, inr, Bool, true, false, some, List, [], ◌∷◌, arith, All, All-map,
  Bool-cases, update_where,
}
use order_processing_system.Models.{Text, Time, Payment, PaymentStatus, Result, ok, err}
use order_processing_system.Config.{WorkerConfig}
use order_processing_system.Database.{Db, Engine, Tables, Sequences}
use order_processing_system.Payment.Gateway.{Gateway}
use order_processing_system.Repository.Order.{still_pending, pay as paid_row, mark_failed}
use order_processing_system.Repository.Order.Ledger.{Consistent}
use order_processing_system.Repository.Order.Finalize.{
  PaidOutcome, FailedOutcome, mark_paid_and_confirm_lem, fail_cancel_and_restock_lem,
}
use order_processing_system.Repository.Order.Conservation.{
  Conserves, mark_paid_and_confirm-Conserves, fail_cancel_and_restock-Conserves,
}
use order_processing_system.Repository.Order.Agreement.{Known}
use order_processing_system.Repository.Notification.{
  create_notification, mark_sent, mark_failed as mark_note_failed,
}
use order_processing_system.Services.Notification.{Notifier, send}
use order_processing_system.Services.Fulfillment.{Charging, announce, finish}
use order_processing_system.Services.Fulfillment.Charge.{ChargeOutcome}

-- A notification touches its own table and sequence only.
abbrev pub OnlyNotes : Db → Db → Type 0
OnlyNotes db after =
    (after.tables ≡ record (db.tables) { notifications = after.tables.notifications })
    × (after.seq ≡ record (db.seq) { notification = after.seq.notification })

pub send-OnlyNotes :
    {N : Type 0} (engine : Engine) (notifier : Notifier N) (id : ℕ) (message : Text) (db : Db)
    (hub : N)
    → OnlyNotes db (send engine notifier id message db hub).0
unfolding send create_notification mark_sent mark_note_failed
send-OnlyNotes engine notifier id message db hub = ground arith

module _ {G : Type 0} (gw : Gateway G) where
  abbrev pub IsCharged : G → Text → Type 0
  IsCharged g key = (txn : Text) × (gw.charged g key ≡ some txn)

  -- Every payment that is marked paid has been charged.
  abbrev pub PaidCharged : G → List Payment → Type 0
  PaidCharged g = All (λ r. r.status ≡ PaymentStatus.paid → IsCharged g r.idempotency_key)

  pub PaidCharged-keeps :
      (g g' : G) (rs : List Payment)
      → ((key txn : Text) → gw.charged g key ≡ some txn → gw.charged g' key ≡ some txn)
      → PaidCharged g rs
      → PaidCharged g' rs
  PaidCharged-keeps g g' rs keeps h =
      All-map _ _ rs (λ r c p. let (txn, e) = c p in (txn, keeps r.idempotency_key txn e)) h

  PaidCharged-pay :
      (g : G) (payment : Payment) (now : Time) (txn : Text) (rs : List Payment)
      → gw.charged g payment.idempotency_key ≡ some txn
      → All (λ r. r.id ≡ payment.id → r ≡ payment) rs
      → PaidCharged g rs
      → PaidCharged g (update_where (still_pending payment.id) (paid_row now txn) rs)
  PaidCharged-pay g payment now txn [] e only h = tt
  PaidCharged-pay g payment now txn (r ∷ rs) e only h =
      let rest = PaidCharged-pay g payment now txn rs e only.1 h.1 in
      elim (Bool-cases (still_pending payment.id r)) [
        | inl hit ↦
            let same = only.0 (ground arith) in
            rw hit (λ _. (txn, ap (λ (p : Payment). gw.charged g p.idempotency_key) same ∙ e), rest)
        | inr miss ↦ rw miss (h.0, rest)
      ]

  PaidCharged-fail :
      (g : G) (id : ℕ) (now : Time) (rs : List Payment)
      → PaidCharged g rs
      → PaidCharged g (update_where (still_pending id) (mark_failed now) rs)
  PaidCharged-fail g id now [] h = tt
  PaidCharged-fail g id now (r ∷ rs) h =
      let rest = PaidCharged-fail g id now rs h.1 in
      elim (Bool-cases (still_pending id r)) [
        | inl hit ↦ rw hit (λ e. absurd (cc e), rest)
        | inr miss ↦ rw miss (h.0, rest)
      ]

  PaidOutcome-PaidCharged :
      (g : G) (payment : Payment) (txn : Text) (db : Db) (p : Result Bool × Db)
      → PaidOutcome payment txn db p
      → gw.charged g payment.idempotency_key ≡ some txn
      → All (λ r. r.id ≡ payment.id → r ≡ payment) db.tables.payments
      → PaidCharged g db.tables.payments
      → PaidCharged g p.1.tables.payments
  PaidOutcome-PaidCharged g payment txn db (err e, after) (same, grown) c only h = rw same h
  PaidOutcome-PaidCharged g payment txn db (ok true, after) (m, shelf) c only h =
      rw m.payments (PaidCharged-pay g payment m.at txn db.tables.payments c only h)
  PaidOutcome-PaidCharged g payment txn db (ok false, after) l c only h =
      rw l.tables (PaidCharged-pay g payment l.at txn db.tables.payments c only h)

  FailedOutcome-PaidCharged :
      (g : G) (payment : Payment) (db : Db) (p : Result Bool × Db)
      → FailedOutcome payment db p
      → PaidCharged g db.tables.payments
      → PaidCharged g p.1.tables.payments
  FailedOutcome-PaidCharged g payment db (err e, after) (same, grown) h = rw same h
  FailedOutcome-PaidCharged g payment db (ok true, after) (m, back) h =
      rw m.payments (PaidCharged-fail g payment.id m.at db.tables.payments h)
  FailedOutcome-PaidCharged g payment db (ok false, after) l h =
      rw l.tables (PaidCharged-fail g payment.id l.at db.tables.payments h)

OnlyNotes-Conserves :
    (db after : Db)
    → OnlyNotes db after
    → Consistent db.tables db.seq
    → Conserves db.tables after.tables after.seq
OnlyNotes-Conserves db after (t, q) c =
    rw (t, q)
      (
        record {
          orders_old = c.orders_old;
          items_old = c.items_old;
          payments_old = c.payments_old;
          distinct = c.distinct;
          agreement = c.agreement;
          one_shelf = c.one_shelf;
          shelved = c.shelved;
        },
        λ p. refl,
      )

Conserves-trans :
    (a b c : Tables) (seq seq' : Sequences)
    → Conserves a b seq
    → (Consistent b seq → Conserves b c seq')
    → Conserves a c seq'
Conserves-trans a b c seq seq' first second =
    let (k, u) = second first.0 in (k, λ p. u p ∙ first.1 p)

module _ {G N : Type 0} (cfg : WorkerConfig) (random : ℕ → ℕ) (gw : Gateway G)
    (notifier : Notifier N) (engine : Engine) where
  announce-OnlyNotes :
      (p : Result Bool × Db) (id : ℕ) (message : Text) (c : Charging G) (hub : N)
      → OnlyNotes p.1 (announce cfg random gw notifier engine p id message c hub).db
        × ((announce cfg random gw notifier engine p id message c hub).charging ≡ c)
  announce-OnlyNotes (err e, db) id message c hub = ((refl, refl), refl)
  announce-OnlyNotes (ok false, db) id message c hub = ((refl, refl), refl)
  announce-OnlyNotes (ok true, db) id message c hub =
      (send-OnlyNotes engine notifier id message db hub, refl)

  -- The tables after the announcement conserve what the call before it did.
  announce-Conserves :
      (old : Tables) (p : Result Bool × Db) (id : ℕ) (message : Text) (c : Charging G) (hub : N)
      → Conserves old p.1.tables p.1.seq
      → let w = announce cfg random gw notifier engine p id message c hub in
        Conserves old w.db.tables w.db.seq
  announce-Conserves old p id message c hub h =
      let w = announce cfg random gw notifier engine p id message c hub in
      Conserves-trans old p.1.tables w.db.tables p.1.seq w.db.seq h
        (OnlyNotes-Conserves p.1 w.db (announce-OnlyNotes p id message c hub).0)

  pub finish-Conserves :
      (r : Result Text) (id : ℕ) (pay : Payment) (db : Db) (c : Charging G) (hub : N)
      → Consistent db.tables db.seq
      → Known pay db.tables.payments
      → let w = finish cfg random gw notifier engine r id pay db c hub in
        Conserves db.tables w.db.tables w.db.seq
  finish-Conserves (ok txn) id pay db c hub k known =
      announce-Conserves db.tables _ id _ c hub
        (mark_paid_and_confirm-Conserves engine pay txn db k known)
  finish-Conserves (err e) id pay db c hub k known =
      announce-Conserves db.tables _ id _ c hub
        (fail_cancel_and_restock-Conserves engine pay db k known)

  announce-PaidCharged :
      (g : G) (p : Result Bool × Db) (id : ℕ) (message : Text) (c : Charging G) (hub : N)
      → c.gateway ≡ g
      → PaidCharged gw g p.1.tables.payments
      → let w = announce cfg random gw notifier engine p id message c hub in
        PaidCharged gw w.charging.gateway w.db.tables.payments
  announce-PaidCharged g p id message c hub same h =
      let ((t, q), kept) = announce-OnlyNotes p id message c hub in rw (t, kept, same) h

  pub finish-PaidCharged :
      (r : Result Text) (id : ℕ) (pay : Payment) (db : Db) (g : G) (c : Charging G) (hub : N)
      → ChargeOutcome cfg random gw pay (r, c)
      → All (λ x. x.id ≡ pay.id → x ≡ pay) db.tables.payments
      → PaidCharged gw c.gateway db.tables.payments
      → let w = finish cfg random gw notifier engine r id pay db c hub in
        PaidCharged gw w.charging.gateway w.db.tables.payments
  finish-PaidCharged (ok txn) id pay db g c hub charged only h =
      announce-PaidCharged c.gateway _ id _ c hub refl (
        PaidOutcome-PaidCharged gw c.gateway pay txn db _
          (mark_paid_and_confirm_lem engine pay txn db) charged only h)
  finish-PaidCharged (err e) id pay db g c hub charged only h =
      announce-PaidCharged c.gateway _ id _ c hub refl (
        FailedOutcome-PaidCharged gw c.gateway pay db _ (fail_cancel_and_restock_lem engine pay db)
          h)
