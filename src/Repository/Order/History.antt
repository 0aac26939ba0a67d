-- ===== src/Repository/Order/History.antt =====
-- Every history of calls of internal/repository/order.go: no unit is lost, payments and orders agree,
-- and each order is settled at most once.
use order_processing_system.Base.{
  ℕ, ◌+◌, ◌≤◌, ◌<◌, ◌≡◌, refl, ◌∙◌, Bool, true, false, Option, some, List, ◌∷◌, arith, inl, inr,
  All-map, find,
}
use order_processing_system.Models.{Text, Time, Payment, OrderStatus, Result, ok, err}
use order_processing_system.Database.{Tables, Sequences, Db, Engine}
use order_processing_system.Repository.Order.{
  get_pending_by_order_id, awaits, list_stale_pending, stale_orders,
}
use order_processing_system.Repository.Order.Create.{create_order_lem}
use order_processing_system.Repository.Order.Finalize.{
  Moved, PaidOutcome, FailedOutcome, mark_paid_and_confirm_lem, fail_cancel_and_restock_lem,
}
use order_processing_system.Repository.Order.Ledger.{order_status, units, Consistent}
use order_processing_system.Repository.Order.Agreement.{Known}
use order_processing_system.Repository.Order.Conservation.{
  Lost-same, create_order-Conserves, mark_paid_and_confirm-Conserves,
  fail_cancel_and_restock-Conserves,
}
use order_processing_system.Repository.Order.World.{
  World, record_win, Step, create, load, load_fails, confirm, cancel, list_stale, Reach, here, next,
  Current, unsettled, wins, Sound,
}
use order_processing_system.Repository.Order.Current.{
  find-Known, All-of_mem, CreateOutcome-Current, PaidOutcome-Current, FailedOutcome-Current,
  find-All,
}
use order_processing_system.Repository.Order.Changes.{
  Change, same, opened, settles, CreateOutcome-Change, Moved-settles,
}

module _ (k : ℕ) where
  Change-once :
      (won : List ℕ) (old new : Option OrderStatus)
      → Change OrderStatus.pending old new
      → wins k won + unsettled old ≤ 1
      → wins k won + unsettled new ≤ 1
  Change-once won old new (same e) h = rw e h
  Change-once won old new (opened e e') h = rw e' (rw e at h)
  Change-once won old new (settles e e') h = rw e' (rw e at h)

  -- A call that reports the transition has closed an order that was open.
  Moved-once :
      (payment : Payment) (f : Time → Payment → Payment) (s : OrderStatus) (old new : Tables)
      (seq seq' : Sequences) (won : List ℕ)
      → unsettled (some s) ≡ 0
      → Moved payment f s old new seq seq'
      → Consistent old seq
      → Known payment old.payments
      → wins k won + unsettled (order_status k old.orders) ≤ 1
      → wins k (payment.order_id ∷ won) + unsettled (order_status k new.orders) ≤ 1
  Moved-once payment f s old new seq seq' won final m c known h =
      elim (Moved-settles k payment f s old new seq seq' m c known) [
        | inl (hit, was, is) ↦
            let before = rw was at h in rw is (ground (arith, before, final, hit))
        | inr (miss, kept) ↦ rw kept (ground arith)
      ]

  PaidOutcome-once :
      (payment : Payment) (txn : Text) (db : Db) (p : Result Bool × Db) (won : List ℕ)
      → PaidOutcome payment txn db p
      → Consistent db.tables db.seq
      → Known payment db.tables.payments
      → wins k won + unsettled (order_status k db.tables.orders) ≤ 1
      → wins k (record_win p.0 payment.order_id won) + unsettled (order_status k p.1.tables.orders)
        ≤ 1
  PaidOutcome-once payment txn db (err e, after) won (unchanged, grown) c known h = rw unchanged h
  PaidOutcome-once payment txn db (ok true, after) won (m, shelf) c known h =
      Moved-once payment _ OrderStatus.confirmed db.tables after.tables db.seq after.seq won refl m
        c known h
  PaidOutcome-once payment txn db (ok false, after) won l c known h =
      rw (Lost-same payment _ db.tables after.tables db.seq after.seq l c.distinct) h

  FailedOutcome-once :
      (payment : Payment) (db : Db) (p : Result Bool × Db) (won : List ℕ)
      → FailedOutcome payment db p
      → Consistent db.tables db.seq
      → Known payment db.tables.payments
      → wins k won + unsettled (order_status k db.tables.orders) ≤ 1
      → wins k (record_win p.0 payment.order_id won) + unsettled (order_status k p.1.tables.orders)
        ≤ 1
  FailedOutcome-once payment db (err e, after) won (unchanged, grown) c known h = rw unchanged h
  FailedOutcome-once payment db (ok true, after) won (m, back) c known h =
      Moved-once payment _ OrderStatus.cancelled db.tables after.tables db.seq after.seq won refl m
        c known h
  FailedOutcome-once payment db (ok false, after) won l c known h =
      rw (Lost-same payment _ db.tables after.tables db.seq after.seq l c.distinct) h

-- Reads leave the tables and the sequences alone.
pub get_pending-same :
    (engine : Engine) (id : ℕ) (db : Db)
    → let after = (get_pending_by_order_id engine id db).1 in
      (after.tables ≡ db.tables) × (after.seq ≡ db.seq)
unfolding get_pending_by_order_id
get_pending-same engine id db = ground arith

pub get_pending-found :
    (engine : Engine) (id : ℕ) (db : Db) {payment : Payment} {after : Db}
    → get_pending_by_order_id engine id db ≡ (ok payment, after)
    → (find (awaits id) db.tables.payments ≡ some payment)
      × (after.tables ≡ db.tables)
      × (after.seq ≡ db.seq)
unfolding get_pending_by_order_id
get_pending-found engine id db e = ground arith

pub list_stale-same :
    (engine : Engine) (now older_than : Time) (limit : ℕ) (db : Db)
    → let after = (list_stale_pending engine now older_than limit db).1 in
      (after.tables ≡ db.tables) × (after.seq ≡ db.seq)
unfolding list_stale_pending stale_orders
list_stale-same engine now older_than limit db = ground arith

-- A step keeps the world sound, and the units of every product.
abbrev pub StepKeeps : World → World → Type 0
StepKeeps v w = Sound w × ((p : ℕ) → units p w.db.tables ≡ units p v.db.tables)

read-Keeps :
    (w : World) (after : Db)
    → after.tables ≡ w.db.tables
    → after.seq ≡ w.db.seq
    → Sound w
    → StepKeeps w (record w { db = after })
read-Keeps w after t q s = (
  record {
    consistent = rw (t, q) s.consistent;
    current = rw (t, q) s.current;
    once = λ k. rw t (s.once k);
  },
  λ p. rw t,
)

module _ (engine : Engine) where
  pub Step-Keeps : {v w : World} → Step engine v w → Sound v → StepKeeps v w
  Step-Keeps {v} (create order payment fresh unpaid) s =
      let (c, u) = create_order-Conserves engine order payment v.db s.consistent fresh unpaid in
      let o = create_order_lem engine order payment v.db in
      (
        record {
          consistent = c;
          current =
              All-map _ _ v.loaded (λ held. CreateOutcome-Current order payment held v.db _ o)
                s.current;
          once = λ k.
              Change-once k v.won _ _ (CreateOutcome-Change k order payment v.db _ o fresh)
                (s.once k);
        },
        u,
      )
  Step-Keeps {v} (load id {payment} {after} e) s =
      let (found, t, q) = get_pending-found engine id v.db e in
      let (kept, u) = read-Keeps v after t q s in
      let known = find-Known (awaits id) v.db.tables.payments payment s.consistent.distinct found in
      let old =
        find-All (λ r. (r.id < v.db.seq.payment) × (r.order_id < v.db.seq.order)) (awaits id)
          v.db.tables.payments payment s.consistent.payments_old found in
      (
        record {
          consistent = kept.consistent;
          current = (rw (t, q) (known, old.0), kept.current);
          once = kept.once;
        },
        u,
      )
  Step-Keeps {v} (load_fails id) s =
      let (t, q) = get_pending-same engine id v.db in read-Keeps v _ t q s
  Step-Keeps {v} (confirm payment txn held) s =
      let (known, old) = All-of_mem (Current v.db.tables v.db.seq) s.current held in
      let (c, u) = mark_paid_and_confirm-Conserves engine payment txn v.db s.consistent known in
      let o = mark_paid_and_confirm_lem engine payment txn v.db in
      (
        record {
          consistent = c;
          current =
              All-map _ _ v.loaded (λ r. PaidOutcome-Current payment r txn v.db _ o) s.current;
          once = λ k. PaidOutcome-once k payment txn v.db _ v.won o s.consistent known (s.once k);
        },
        u,
      )
  Step-Keeps {v} (cancel payment held) s =
      let (known, old) = All-of_mem (Current v.db.tables v.db.seq) s.current held in
      let (c, u) = fail_cancel_and_restock-Conserves engine payment v.db s.consistent known in
      let o = fail_cancel_and_restock_lem engine payment v.db in
      (
        record {
          consistent = c;
          current = All-map _ _ v.loaded (λ r. FailedOutcome-Current payment r v.db _ o) s.current;
          once = λ k. FailedOutcome-once k payment v.db _ v.won o s.consistent known (s.once k);
        },
        u,
      )
  Step-Keeps {v} (list_stale now older_than limit) s =
      let (t, q) = list_stale-same engine now older_than limit v.db in read-Keeps v _ t q s

  -- From a sound state on, however calls of the repository interleave, with whatever failures, the
  -- tables stay consistent, each order is reported settled at most once, and the units of each
  -- product, on the shelf or held by a live order, stay the same.
  pub Reach-Keeps : {start w : World} → Reach engine start w → Sound start → StepKeeps start w
  Reach-Keeps here s = (s, λ p. refl)
  Reach-Keeps (next r step) s =
      let (sound, before) = Reach-Keeps r s in
      let (sound', after) = Step-Keeps step sound in (sound', λ p. after p ∙ before p)
