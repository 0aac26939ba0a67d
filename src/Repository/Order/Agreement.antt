-- ===== src/Repository/Order/Agreement.antt =====
-- The guarded updates of internal/repository/order.go keep payments apart, and move a payment and
-- its order together.
use order_processing_system.Base.{
  ℕ, ◌≤◌, ◌≡◌, ◌≢◌, refl, sym, ◌∙◌, Bool, true, false, some, List, [], ◌∷◌, ◌++◌, update_where,
  count_where, arith, inl, inr, Bool-cases, All, All-map, All-append,
}
use order_processing_system.Models.{Time, Order, Payment, OrderStatus, PaymentStatus}
use order_processing_system.Repository.Order.{order_pending, move_order, still_pending}
use order_processing_system.Repository.Order.Ledger.{
  order_status, Agree, Apart, Distinct, Agreement, order_status-move,
}

-- An update that keeps a row's id and order.
abbrev pub KeepsKeys : (Payment → Payment) → Type 0
KeepsKeys f = (r : Payment) → ((f r).id ≡ r.id) × ((f r).order_id ≡ r.order_id)

-- What is true of every row by its keys alone survives an update.
pub All-update_keys {κ} :
    (P : ℕ → ℕ → Type κ) (q : Payment → Bool) (f : Payment → Payment) (rs : List Payment)
    → KeepsKeys f
    → All (λ r. P r.id r.order_id) rs
    → All (λ r. P r.id r.order_id) (update_where q f rs)
All-update_keys P q f [] keeps h = tt
All-update_keys P q f (r ∷ rs) keeps h = elim (Bool-cases (q r)) [
  | inl hit ↦ rw hit (rw ((keeps r).0, (keeps r).1) h.0, All-update_keys P q f rs keeps h.1)
  | inr miss ↦ rw miss (h.0, All-update_keys P q f rs keeps h.1)
]

pub Distinct-update :
    (q : Payment → Bool) (f : Payment → Payment) (rs : List Payment)
    → KeepsKeys f
    → Distinct rs
    → Distinct (update_where q f rs)
Distinct-update q f [] keeps h = tt
Distinct-update q f (r ∷ rs) keeps h =
    let rest = Distinct-update q f rs keeps h.1 in
    let apart = All-update_keys (λ id order. (id ≢ r.id) × (order ≢ r.order_id)) q f rs keeps h.0 in
    elim (Bool-cases (q r)) [
      | inl hit ↦ rw hit (rw ((keeps r).0, (keeps r).1) apart, rest)
      | inr miss ↦ rw miss (apart, rest)
    ]

pub Distinct-append :
    (rs : List Payment) (r : Payment)
    → All (λ s. (s.id ≢ r.id) × (s.order_id ≢ r.order_id)) rs
    → Distinct rs
    → Distinct (rs ++ (r ∷ []))
Distinct-append [] r h d = (tt, tt)
Distinct-append (s ∷ rs) r h d = (
  All-append (Apart s) rs (r ∷ []) d.0 ((λ e. h.0.0 (ground arith), λ e. h.0.1 (ground arith)), tt),
  Distinct-append rs r h.1 d.1,
)

-- What a worker remembers of a payment is what its row says.
abbrev pub Known : Payment → List Payment → Type 0
Known payment = All (λ r. r.id ≡ payment.id → r.order_id ≡ payment.order_id)

-- Ids are apart, so at most one row passes the guard on an id.
guard-none :
    (id : ℕ) (rs : List Payment) → All (λ r. r.id ≢ id) rs → count_where (still_pending id) rs ≡ 0
guard-none id [] h = refl
guard-none id (r ∷ rs) h = ground (arith, h.0, guard-none id rs h.1)

pub guard-le-one :
    (id : ℕ) (rs : List Payment) → Distinct rs → count_where (still_pending id) rs ≤ 1
guard-le-one id [] d = omega arith
guard-le-one id (r ∷ rs) d = elim (Bool-cases (still_pending id r)) [
  | inl hit ↦
      let same : r.id ≡ id = ground arith in
      let none_else = guard-none id rs (All-map (Apart r) _ rs (λ x ne. rw (← same) ne.0) d.0) in
      rw hit (omega (arith, none_else))
  | inr miss ↦ rw miss (omega (arith, guard-le-one id rs d.1))
]

-- The row that passes the guard is of a pending order.
pub guarded_status :
    (payment : Payment) (orders : List Order) (rs : List Payment)
    → Known payment rs
    → count_where (still_pending payment.id) rs ≡ 1
    → Agreement orders rs
    → order_status payment.order_id orders ≡ some OrderStatus.pending
guarded_status payment orders [] known one a = absurd (omega arith)
guarded_status payment orders (r ∷ rs) known one a =
    elim (Bool-cases (still_pending payment.id r)) [
      | inl hit ↦
          let pending : r.status ≡ PaymentStatus.pending = ground arith in
          let order = known.0 (ground arith) in rw (← order) (rw pending at a.0)
      | inr miss ↦ guarded_status payment orders rs known.1 (ground arith) a.1
    ]

module _ (payment : Payment) (f : Payment → Payment) (done : PaymentStatus) (s : OrderStatus)
    (now : Time) (keeps : KeepsKeys f) (sets : (r : Payment) → (f r).status ≡ done)
    (agrees : Agree done (some s)) where
  abbrev moved : List Order → List Order
  moved orders = update_where (order_pending payment.order_id) (move_order now s) orders

  abbrev guard : Payment → Bool
  guard = still_pending payment.id

  -- A row of another order keeps its status, and its order keeps its own.
  Agree-other :
      (orders : List Order) (r : Payment)
      → r.order_id ≢ payment.order_id
      → Agree r.status (order_status r.order_id orders)
      → Agree r.status (order_status r.order_id (moved orders))
  Agree-other orders r ne h =
      let same : order_status r.order_id (moved orders) ≡ order_status r.order_id orders =
        ground (arith, order_status-move r.order_id payment.order_id now s orders) in
      rw same h

  Agreement-others :
      (orders : List Order) (rs : List Payment)
      → All (λ r. (r.id ≢ payment.id) × (r.order_id ≢ payment.order_id)) rs
      → Agreement orders rs
      → Agreement (moved orders) (update_where guard f rs)
  Agreement-others orders [] h a = tt
  Agreement-others orders (r ∷ rs) h a =
      let miss : guard r ≡ false = ground (arith, h.0.0) in
      rw miss (Agree-other orders r h.0.1 a.0, Agreement-others orders rs h.1 a.1)

  -- Where one row of a list passes the guard, no row that is apart from all of it has the order.
  guarded_order :
      (k : ℕ) (rs : List Payment)
      → count_where guard rs ≡ 1
      → Known payment rs
      → All (λ r. r.order_id ≢ k) rs
      → k ≢ payment.order_id
  guarded_order k [] one known h = absurd (omega arith)
  guarded_order k (r ∷ rs) one known h = elim (Bool-cases (guard r)) [
    | inl hit ↦ λ e. h.0 (known.0 (ground arith) ∙ sym e)
    | inr miss ↦ guarded_order k rs (ground arith) known.1 h.1
  ]

  Agree-moved :
      (orders : List Order) (r : Payment)
      → guard r ≡ true
      → r.order_id ≡ payment.order_id
      → Agree r.status (order_status r.order_id orders)
      → Agree (f r).status (order_status (f r).order_id (moved orders))
  Agree-moved orders r hit same h =
      let pending : r.status ≡ PaymentStatus.pending = ground arith in
      let was : order_status r.order_id orders ≡ some OrderStatus.pending = rw pending at h in
      let is : order_status r.order_id (moved orders) ≡ some s =
        ground (arith, order_status-move r.order_id payment.order_id now s orders, was) in
      rw (sets r, (keeps r).1, is) agrees

  -- The one row that passes the guard takes its order with it; all others stay as they are.
  pub Agreement-move :
      (orders : List Order) (rs : List Payment)
      → Distinct rs
      → Known payment rs
      → count_where guard rs ≡ 1
      → Agreement orders rs
      → Agreement (moved orders) (update_where guard f rs)
  Agreement-move orders [] d known one a = absurd (omega arith)
  Agreement-move orders (r ∷ rs) d known one a = elim (Bool-cases (guard r)) [
    | inl hit ↦
        let id : r.id ≡ payment.id = ground arith in
        let order = known.0 id in
        rw hit (
          Agree-moved orders r hit order a.0,
          Agreement-others orders rs
              (All-map (Apart r) _ rs (λ x ne. (rw (← id) ne.0, rw (← order) ne.1)) d.0) a.1,
        )
    | inr miss ↦
        let rest : count_where guard rs ≡ 1 = ground arith in
        let others = All-map (Apart r) (λ x. x.order_id ≢ r.order_id) rs (λ x ne. ne.1) d.0 in
        rw miss (
          Agree-other orders r (guarded_order r.order_id rs rest known.1 others) a.0,
          Agreement-move orders rs d.1 known.1 rest a.1,
        )
  ]
