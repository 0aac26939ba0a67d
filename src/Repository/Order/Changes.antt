-- ===== src/Repository/Order/Changes.antt =====
-- What a call of internal/repository/order.go does to the status of one order.
use order_processing_system.Base.{
  ℕ, ◌⊎◌, ◌≡◌, ◌≢◌, refl, ap, ◌∙◌, Option, none, some, List, [], ◌∷◌, ◌++◌, ◌==◌, arith, inl, inr,
  Bool-cases,
}
use order_processing_system.Models.{Time, Order, Payment, OrderStatus, Result, ok, err}
use order_processing_system.Database.{Tables, Sequences, Db}
use order_processing_system.Repository.Order.Create.{CreateOutcome}
use order_processing_system.Repository.Order.Finalize.{Moved}
use order_processing_system.Repository.Order.Ledger.{order_status, Consistent, order_status-move}
use order_processing_system.Repository.Order.Agreement.{Known, guarded_status}

-- What a call may do to the status of an order: leave it, open a new order, or settle a pending one
-- as `s`.
pub data Change (s : OrderStatus) (old new : Option OrderStatus) : Type 0 where
  same : new ≡ old → Change s old new
  opened : old ≡ none → new ≡ some OrderStatus.pending → Change s old new
  settles : old ≡ some OrderStatus.pending → new ≡ some s → Change s old new

order_status-append :
    (k : ℕ) (orders : List Order) (o : Order)
    → o.status ≡ OrderStatus.pending
    → Change OrderStatus.pending (order_status k orders) (order_status k (orders ++ (o ∷ [])))
order_status-append k [] o e = elim (Bool-cases (o.id == k)) [
  | inl hit ↦ rw hit (opened refl (ap some e))
  | inr miss ↦ rw miss (same refl)
]
order_status-append k (x ∷ xs) o e = elim (Bool-cases (x.id == k)) [
  | inl hit ↦ rw hit (same refl)
  | inr miss ↦ rw miss (order_status-append k xs o e)
]

-- Each call, for one order id `k`.
module _ (k : ℕ) where
  pub CreateOutcome-Change :
      (order : Order) (payment : Payment) (db : Db) (p : Result (Order × Payment) × Db)
      → CreateOutcome order payment db p
      → order.status ≡ OrderStatus.pending
      → Change OrderStatus.pending
          (order_status k db.tables.orders)
          (order_status k p.1.tables.orders)
  CreateOutcome-Change order payment db (err e, after) (unchanged, grown) fresh =
      rw unchanged (same refl)
  CreateOutcome-Change order payment db (ok (made, paid), after) c fresh =
      rw c.orders (
        order_status-append k db.tables.orders (record made { items = [] }) (c.made_status ∙ fresh))

  -- The order of the payment was pending and is now `s`; any other is as it was.
  pub Moved-settles :
      (payment : Payment) (f : Time → Payment → Payment) (s : OrderStatus) (old new : Tables)
      (seq seq' : Sequences)
      → Moved payment f s old new seq seq'
      → Consistent old seq
      → Known payment old.payments
      → ((payment.order_id ≡ k)
          × (order_status k old.orders ≡ some OrderStatus.pending)
          × (order_status k new.orders ≡ some s))
        ⊎ ((payment.order_id ≢ k) × (order_status k new.orders ≡ order_status k old.orders))
  Moved-settles payment f s old new seq seq' m c known =
      let was = guarded_status payment old.orders old.payments known m.won c.agreement in
      let moves = order_status-move k payment.order_id m.then_at s old.orders in
      rw m.orders (elim (Bool-cases (k == payment.order_id)) [
        | inl hit ↦ inl (ground arith, ground (arith, was), ground (arith, was, moves))
        | inr miss ↦ inr (λ e. ground arith, ground (arith, moves))
      ])
