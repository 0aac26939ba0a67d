-- ===== src/Repository/Order/Finality.antt =====
-- Confirmed and cancelled orders stay so under every call of internal/repository/order.go.
use order_processing_system.Base.{
  ℕ, ◌≡◌, ◌≢◌, inl, inr, ◌∙◌, Bool, true, false, Option, some, arith,
}
use order_processing_system.Models.{Text, Time, Payment, OrderStatus, Result, ok, err}
use order_processing_system.Database.{Tables, Sequences, Db, Engine}
use order_processing_system.Repository.Order.Create.{create_order_lem}
use order_processing_system.Repository.Order.Finalize.{
  Moved, PaidOutcome, FailedOutcome, mark_paid_and_confirm_lem, fail_cancel_and_restock_lem,
}
use order_processing_system.Repository.Order.Ledger.{order_status, Consistent}
use order_processing_system.Repository.Order.Agreement.{Known}
use order_processing_system.Repository.Order.Conservation.{Lost-same}
use order_processing_system.Repository.Order.World.{
  World, Step, create, load, load_fails, confirm, cancel, list_stale, Reach, here, next, Current,
  Sound,
}
use order_processing_system.Repository.Order.Current.{All-of_mem}
use order_processing_system.Repository.Order.Changes.{
  Change, same, opened, settles, CreateOutcome-Change, Moved-settles,
}
use order_processing_system.Repository.Order.History.{
  get_pending-same, get_pending-found, list_stale-same, Reach-Keeps,
}

module _ (k : ℕ) (s : OrderStatus) (final : s ≢ OrderStatus.pending) where
  Change-final :
      {t : OrderStatus} (old new : Option OrderStatus)
      → Change t old new
      → old ≡ some s
      → new ≡ some s
  Change-final old new (same e) h = e ∙ h
  Change-final old new (opened e e') h = absurd (cc)
  Change-final old new (settles e e') h = absurd (final (ground arith))

  Moved-final :
      (payment : Payment) (f : Time → Payment → Payment) (t : OrderStatus) (old new : Tables)
      (seq seq' : Sequences)
      → Moved payment f t old new seq seq'
      → Consistent old seq
      → Known payment old.payments
      → order_status k old.orders ≡ some s
      → order_status k new.orders ≡ some s
  Moved-final payment f t old new seq seq' m c known h =
      elim (Moved-settles k payment f t old new seq seq' m c known) [
        | inl (hit, was, is) ↦ absurd (final (ground arith))
        | inr (miss, kept) ↦ kept ∙ h
      ]

  PaidOutcome-final :
      (payment : Payment) (txn : Text) (db : Db) (p : Result Bool × Db)
      → PaidOutcome payment txn db p
      → Consistent db.tables db.seq
      → Known payment db.tables.payments
      → order_status k db.tables.orders ≡ some s
      → order_status k p.1.tables.orders ≡ some s
  PaidOutcome-final payment txn db (err e, after) (unchanged, grown) c known h = rw unchanged h
  PaidOutcome-final payment txn db (ok true, after) (m, shelf) c known h =
      Moved-final payment _ OrderStatus.confirmed db.tables after.tables db.seq after.seq m c known
        h
  PaidOutcome-final payment txn db (ok false, after) l c known h =
      rw (Lost-same payment _ db.tables after.tables db.seq after.seq l c.distinct) h

  FailedOutcome-final :
      (payment : Payment) (db : Db) (p : Result Bool × Db)
      → FailedOutcome payment db p
      → Consistent db.tables db.seq
      → Known payment db.tables.payments
      → order_status k db.tables.orders ≡ some s
      → order_status k p.1.tables.orders ≡ some s
  FailedOutcome-final payment db (err e, after) (unchanged, grown) c known h = rw unchanged h
  FailedOutcome-final payment db (ok true, after) (m, back) c known h =
      Moved-final payment _ OrderStatus.cancelled db.tables after.tables db.seq after.seq m c known
        h
  FailedOutcome-final payment db (ok false, after) l c known h =
      rw (Lost-same payment _ db.tables after.tables db.seq after.seq l c.distinct) h

  module _ (engine : Engine) where
    Step-final :
        {v w : World}
        → Step engine v w
        → Sound v
        → order_status k v.db.tables.orders ≡ some s
        → order_status k w.db.tables.orders ≡ some s
    Step-final {v} (create order payment fresh unpaid) c h =
        Change-final _ _
          (CreateOutcome-Change k order payment v.db _ (create_order_lem engine order payment v.db)
            fresh)
          h
    Step-final {v} (load id e) c h = rw (get_pending-found engine id v.db e).1 h
    Step-final {v} (load_fails id) c h = rw (get_pending-same engine id v.db).0 h
    Step-final {v} (confirm payment txn held) c h =
        let (known, old) = All-of_mem (Current v.db.tables v.db.seq) c.current held in
        PaidOutcome-final payment txn v.db _ (mark_paid_and_confirm_lem engine payment txn v.db)
          c.consistent known h
    Step-final {v} (cancel payment held) c h =
        let (known, old) = All-of_mem (Current v.db.tables v.db.seq) c.current held in
        FailedOutcome-final payment v.db _ (fail_cancel_and_restock_lem engine payment v.db)
          c.consistent known h
    Step-final {v} (list_stale now older_than limit) c h =
        rw (list_stale-same engine now older_than limit v.db).0 h

    -- From a sound state on, an order that has left the pending status keeps its status over every
    -- later sequence of calls of the repository.
    pub Reach-final :
        {start w : World}
        → Reach engine start w
        → Sound start
        → order_status k start.db.tables.orders ≡ some s
        → order_status k w.db.tables.orders ≡ some s
    Reach-final here c h = h
    Reach-final (next r step) c h = Step-final step (Reach-Keeps engine r c).0 (Reach-final r c h)
