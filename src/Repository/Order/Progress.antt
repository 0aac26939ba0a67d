-- ===== src/Repository/Order/Progress.antt =====
-- Settling one order of internal/repository/order.go lets every other order go on.
use order_processing_system.Base.{
  ℕ, ◌≡◌, ◌≢◌, refl, sym, ap, ◌∙◌, Bool, true, false, some, List, [], ◌∷◌, inl, inr, arith, All,
  All-map, find, update_where, Bool-cases,
}
use order_processing_system.Models.{Text, Time, Order, Payment, OrderStatus, Result, ok, err}
use order_processing_system.Database.{Db, Tables, Sequences}
use order_processing_system.Repository.Order.{awaits, still_pending, pay, mark_failed}
use order_processing_system.Repository.Order.Finalize.{Moved, PaidOutcome, FailedOutcome}
use order_processing_system.Repository.Order.Ledger.{order_status, Consistent}
use order_processing_system.Repository.Order.Agreement.{KeepsKeys, Known}
use order_processing_system.Repository.Order.Changes.{Moved-settles}

-- Every pending order has a payment that awaits its charge.
abbrev pub Awaited : List Order → List Payment → Type 0
Awaited orders payments =
    (k : ℕ)
    → order_status k orders ≡ some OrderStatus.pending
    → (r : Payment) × (find (awaits k) payments ≡ some r)

-- The order `id` is settled, settled orders stay so, and those that are pending still await their charge.
pub record Progress (id : ℕ) (old new : List Order) (payments : List Payment) : Type 0 where
  pub own : order_status id new ≢ some OrderStatus.pending
  pub stays :
      (k : ℕ)
      → order_status k old ≢ some OrderStatus.pending
      → order_status k new ≢ some OrderStatus.pending
  pub awaited : Awaited new payments

find-other_payment :
    (k id : ℕ) (f : Payment → Payment) (rs : List Payment)
    → KeepsKeys f
    → All (λ r. r.id ≡ id → r.order_id ≢ k) rs
    → find (awaits k) (update_where (still_pending id) f rs) ≡ find (awaits k) rs
find-other_payment k id f [] keeps h = refl
find-other_payment k id f (r ∷ rs) keeps h =
    let rest = find-other_payment k id f rs keeps h.1 in
    let (same_id, same_order) = keeps r in
    elim (Bool-cases (still_pending id r)) [
      | inl hit ↦
          let apart = h.0 (ground (arith, hit)) in ground (arith, hit, apart, same_order, rest)
      | inr miss ↦ ground (arith, miss, rest)
    ]

module _ (payment : Payment) (f : Time → Payment → Payment) (keeps : (t : Time) → KeepsKeys (f t))
    (s : OrderStatus) (done : s ≢ OrderStatus.pending) where
  Moved-stays :
      (k : ℕ) (old new : Tables) (seq seq' : Sequences)
      → Moved payment f s old new seq seq'
      → Consistent old seq
      → Known payment old.payments
      → order_status k old.orders ≢ some OrderStatus.pending
      → order_status k new.orders ≢ some OrderStatus.pending
  Moved-stays k old new seq seq' m c known was now =
      elim (Moved-settles k payment f s old new seq seq' m c known) [
        | inl (own, before, after) ↦ was before
        | inr (other, same) ↦ was (sym same ∙ now)
      ]

  Moved-Awaited :
      (old new : Tables) (seq seq' : Sequences)
      → Moved payment f s old new seq seq'
      → Consistent old seq
      → Known payment old.payments
      → Awaited old.orders old.payments
      → Awaited new.orders new.payments
  Moved-Awaited old new seq seq' m c known waits k now =
      elim (Moved-settles k payment f s old new seq seq' m c known) [
        | inl (own, before, after) ↦
            let settled : some s ≡ some OrderStatus.pending = sym after ∙ now in
            absurd (done (ground (arith, settled)))
        | inr (other, same) ↦
            let (r, found) = waits k (sym same ∙ now) in
            let apart =
              All-map _ (λ (r : Payment). r.id ≡ payment.id → r.order_id ≢ k) old.payments
                (λ r only e here. other (sym (only e) ∙ here)) known in
            (
              r,
              ap (find (awaits k)) m.payments
                  ∙ find-other_payment k payment.id (f m.at) old.payments (keeps m.at) apart
                  ∙ found,
            )
      ]

  Moved-Progress :
      (id : ℕ) (old new : Tables) (seq seq' : Sequences)
      → Moved payment f s old new seq seq'
      → Consistent old seq
      → Known payment old.payments
      → Awaited old.orders old.payments
      → order_status id new.orders ≡ some s
      → Progress id old.orders new.orders new.payments
  Moved-Progress id old new seq seq' m c known waits settled = record {
    own = λ e.
        let both : some s ≡ some OrderStatus.pending = sym settled ∙ e in
        done (ground (arith, both));
    stays = λ k. Moved-stays k old new seq seq' m c known;
    awaited = Moved-Awaited old new seq seq' m c known waits;
  }

pub PaidOutcome-Progress :
    (id : ℕ) (payment : Payment) (txn : Text) (db : Db) (p : Result Bool × Db)
    → PaidOutcome payment txn db p
    → Consistent db.tables db.seq
    → Known payment db.tables.payments
    → Awaited db.tables.orders db.tables.payments
    → (p.0 ≡ ok true) × (order_status id p.1.tables.orders ≡ some OrderStatus.confirmed)
    → Progress id db.tables.orders p.1.tables.orders p.1.tables.payments
PaidOutcome-Progress id payment txn db (err e, after) o c known waits (won, status) = absurd cc
PaidOutcome-Progress id payment txn db (ok false, after) o c known waits (won, status) = absurd cc
PaidOutcome-Progress id payment txn db (ok true, after) o c known waits (won, status) =
    Moved-Progress payment (λ now. pay now txn) (λ t r. (refl, refl)) OrderStatus.confirmed
      (λ e. cc) id db.tables after.tables db.seq after.seq o.0 c known waits status

pub FailedOutcome-Progress :
    (id : ℕ) (payment : Payment) (db : Db) (p : Result Bool × Db)
    → FailedOutcome payment db p
    → Consistent db.tables db.seq
    → Known payment db.tables.payments
    → Awaited db.tables.orders db.tables.payments
    → (p.0 ≡ ok true) × (order_status id p.1.tables.orders ≡ some OrderStatus.cancelled)
    → Progress id db.tables.orders p.1.tables.orders p.1.tables.payments
FailedOutcome-Progress id payment db (err e, after) o c known waits (won, status) = absurd cc
FailedOutcome-Progress id payment db (ok false, after) o c known waits (won, status) = absurd cc
FailedOutcome-Progress id payment db (ok true, after) o c known waits (won, status) =
    Moved-Progress payment mark_failed (λ t r. (refl, refl)) OrderStatus.cancelled (λ e. cc) id
      db.tables after.tables db.seq after.seq o.0 c known waits status
