-- ===== src/Repository/Order/Current.antt =====
-- What a worker remembers of a payment stays true of its row, whatever internal/repository/order.go does.
use mathlib.Core.List.{Memᴰ}
use order_processing_system.Base.{
  ℕ, ◌≡◌, refl, sym, ap, ◌∙◌, Bool, true, false, some, List, [], ◌∷◌, arith, inl, inr, Bool-cases,
  All, All-map, All-append, find, update_where,
}
use order_processing_system.Models.{Text, Order, Payment, Result, ok, err}
use order_processing_system.Database.{Tables, Sequences, Db}
use order_processing_system.Repository.Order.{pay, mark_failed, still_pending}
use order_processing_system.Repository.Order.Create.{Created, CreateOutcome}
use order_processing_system.Repository.Order.Finalize.{PaidOutcome, FailedOutcome}
use order_processing_system.Repository.Order.Ledger.{Apart, Distinct}
use order_processing_system.Repository.Order.Agreement.{KeepsKeys, Known, All-update_keys}
use order_processing_system.Repository.Order.World.{Current}

pub find-All {κ} :
    (P : Payment → Type κ) (q : Payment → Bool) (rs : List Payment) (r : Payment)
    → All P rs
    → find q rs ≡ some r
    → P r
find-All P q [] r h e = absurd (cc)
find-All P q (x ∷ xs) r h e = elim (Bool-cases (q x)) [
  | inl hit ↦ let same : x ≡ r = ground arith in rw (← same) h.0
  | inr miss ↦ find-All P q xs r h.1 (ground arith)
]

-- Ids are apart, so the row that a read returns is the only one with its id.
pub find_unique :
    (q : Payment → Bool) (rs : List Payment) (r : Payment)
    → Distinct rs
    → find q rs ≡ some r
    → All (λ x. x.id ≡ r.id → x ≡ r) rs
find_unique q [] r d e = tt
find_unique q (x ∷ xs) r d e = elim (Bool-cases (q x)) [
  | inl hit ↦
      let here : x ≡ r = ground arith in
      (
        λ _. here,
        All-map (Apart x) _ xs (λ y ne p. absurd (ne.0 (p ∙ sym (ap (λ (z : Payment). z.id) here))))
            d.0,
      )
  | inr miss ↦
      let later : find q xs ≡ some r = ground arith in
      (λ p. absurd ((find-All (Apart x) q xs r d.0 later).0 (sym p)), find_unique q xs r d.1 later)
]

pub find-Known :
    (q : Payment → Bool) (rs : List Payment) (r : Payment)
    → Distinct rs
    → find q rs ≡ some r
    → Known r rs
find-Known q rs r d e =
    All-map _ _ rs (λ x only p. ap (λ (y : Payment). y.order_id) (only p)) (find_unique q rs r d e)

pub All-of_mem {κ} :
    {A : Type 0} (P : A → Type κ) {a : A} {xs : List A} → All P xs → Memᴰ a xs → P a
All-of_mem P h (Memᴰ.head e) = rw e h.0
All-of_mem P h (Memᴰ.tail m) = All-of_mem P h.1 m

-- Each kind of change keeps what a worker holds current.
Current-updated :
    (id : ℕ) (f : Payment → Payment) (keeps : KeepsKeys f) (payment : Payment) (rs : List Payment)
    → Known payment rs
    → Known payment (update_where (still_pending id) f rs)
Current-updated id f keeps payment rs h =
    All-update_keys (λ i o. i ≡ payment.id → o ≡ payment.order_id) (still_pending id) f rs keeps h

Current-Created :
    (order made : Order) (payment paid held : Payment) (old new : Tables) (seq seq' : Sequences)
    → Created order made payment paid old new seq seq'
    → Current old seq held
    → Current new seq' held
Current-Created order made payment paid held old new seq seq' c h = (
  rw c.payments (
      All-append _ old.payments (paid ∷ []) h.0
        ((λ e. absurd (omega (arith, e, c.paid_id, h.1))), tt)),
  omega (arith, h.1, c.next_payment),
)

pub CreateOutcome-Current :
    (order : Order) (payment held : Payment) (db : Db) (p : Result (Order × Payment) × Db)
    → CreateOutcome order payment db p
    → Current db.tables db.seq held
    → Current p.1.tables p.1.seq held
CreateOutcome-Current order payment held db (err e, after) (same, grown) h =
    (rw same h.0, omega (arith, h.1, grown))
CreateOutcome-Current order payment held db (ok (made, paid), after) c h =
    Current-Created order made payment paid held db.tables after.tables db.seq after.seq c h

pub PaidOutcome-Current :
    (payment held : Payment) (txn : Text) (db : Db) (p : Result Bool × Db)
    → PaidOutcome payment txn db p
    → Current db.tables db.seq held
    → Current p.1.tables p.1.seq held
PaidOutcome-Current payment held txn db (err e, after) (same, grown) h =
    (rw same h.0, omega (arith, h.1, grown))
PaidOutcome-Current payment held txn db (ok true, after) (m, shelf) h = (
  rw m.payments
      (Current-updated payment.id (pay m.at txn) (λ r. (refl, refl)) held db.tables.payments h.0),
  rw m.seq_same h.1,
)
PaidOutcome-Current payment held txn db (ok false, after) l h = (
  rw l.tables
      (Current-updated payment.id (pay l.at txn) (λ r. (refl, refl)) held db.tables.payments h.0),
  rw l.seq_same h.1,
)

pub FailedOutcome-Current :
    (payment held : Payment) (db : Db) (p : Result Bool × Db)
    → FailedOutcome payment db p
    → Current db.tables db.seq held
    → Current p.1.tables p.1.seq held
FailedOutcome-Current payment held db (err e, after) (same, grown) h =
    (rw same h.0, omega (arith, h.1, grown))
FailedOutcome-Current payment held db (ok true, after) (m, back) h = (
  rw m.payments (
      Current-updated payment.id (mark_failed m.at) (λ r. (refl, refl)) held db.tables.payments
        h.0),
  rw m.seq_same h.1,
)
FailedOutcome-Current payment held db (ok false, after) l h = (
  rw l.tables (
      Current-updated payment.id (mark_failed l.at) (λ r. (refl, refl)) held db.tables.payments
        h.0),
  rw l.seq_same h.1,
)
