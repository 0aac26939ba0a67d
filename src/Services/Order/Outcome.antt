-- ===== src/Services/Order/Outcome.antt =====
-- What CreateOrder of internal/services/order.go does on each of its branches, the reservation of the key
-- included.
use order_processing_system.Base.{
  ℕ, ◌≡◌, ◌≢◌, refl, ◌⊎◌, inl, inr, Bool, true, false, List, [], Bool-cases,
}
use order_processing_system.Models.{Text, Result, ok, err}
use order_processing_system.Database.{Engine}
use order_processing_system.Repository.Order.Ledger.{Consistent}
use order_processing_system.Repository.Order.Conservation.{Conserves}
use order_processing_system.Idempotency.{Store}
use order_processing_system.Services.Order.{
  OrderItemRequest, OrderResponse, OrderProcessor, Arithmetic, World, idempotency_ttl,
  has_duplicate, idempotency_key, reserved, create_order,
}
use order_processing_system.Services.Order.Place.{Accepted, Refused, PlaceOutcome, place-PlaceKeeps}

module _ {S Q : Type 0} (engine : Engine) (store : Store S) (processor : OrderProcessor Q)
    (hash : Text → Text) (float : Arithmetic) where
  -- How a refusal leaves the store: untouched for a cart that names a product twice, with the key held
  -- by another request, or with the key released.
  abbrev pub KeyFate : ℕ → List OrderItemRequest → World S Q → World S Q → Type 0
  KeyFate user_id items w w' =
      let key = idempotency_key hash user_id items in
      let (r, s) = store.reserve key idempotency_ttl w.store in
      ((has_duplicate [] items ≡ true) × (w'.store ≡ w.store))
      ⊎ ((has_duplicate [] items ≡ false) × (r ≡ ok false) × (w'.store ≡ s))
      ⊎ ((has_duplicate [] items ≡ false) × (r ≢ ok false) × (w'.store ≡ (store.release key s).1))

  abbrev pub OrderOutcome :
      ℕ → List OrderItemRequest → World S Q → Result OrderResponse × World S Q → Type 0
  OrderOutcome user_id items w (ok resp, w') =
      Accepted processor user_id items w w' resp
      × (has_duplicate [] items ≡ false)
      × ((store.reserve (idempotency_key hash user_id items) idempotency_ttl w.store).0 ≢ ok false)
      × (w'.store ≡ (store.reserve (idempotency_key hash user_id items) idempotency_ttl w.store).1)
  OrderOutcome user_id items w (err e, w') = Refused processor w w' × KeyFate user_id items w w'

  PlaceOutcome-OrderOutcome :
      (user_id : ℕ) (items : List OrderItemRequest) (w : World S Q)
      (p : Result OrderResponse × World S Q)
      → has_duplicate [] items ≡ false
      → (store.reserve (idempotency_key hash user_id items) idempotency_ttl w.store).0 ≢ ok false
      → PlaceOutcome engine store processor hash float
          (idempotency_key hash user_id items)
          user_id
          items
          (record w {
            store = (store.reserve (idempotency_key hash user_id items) idempotency_ttl w.store).1;
          })
          p
      → OrderOutcome user_id items w p
  PlaceOutcome-OrderOutcome user_id items w (ok resp, w') once free (a, s) = (
    record {
      taken = a.taken;
      unused = a.unused;
      pending = a.pending;
      owner = a.owner;
      queued = a.queued;
    },
    once,
    free,
    s,
  )
  PlaceOutcome-OrderOutcome user_id items w (err e, w') once free (same, s) =
      (same, inr (inr (once, free, s)))

  reserved-Keeps :
      (uuid : Text) (user_id : ℕ) (items : List OrderItemRequest) (w : World S Q) (r : Result Bool)
      → let key = idempotency_key hash user_id items in
        let answer = store.reserve key idempotency_ttl w.store in
        let p =
          reserved engine store processor hash float uuid key user_id items r
            (record w { store = answer.1 }) in
        answer.0 ≡ r
        → has_duplicate [] items ≡ false
        → Consistent w.db.tables w.db.seq
        → Conserves w.db.tables p.1.db.tables p.1.db.seq × OrderOutcome user_id items w p
  unfolding reserved
  reserved-Keeps uuid user_id items w (ok false) e once c =
      ((c, λ p. refl), ((refl, refl), inr (inl (once, e, refl))))
  reserved-Keeps uuid user_id items w (ok true) e once c =
      let key = idempotency_key hash user_id items in
      let w' = record w { store = (store.reserve key idempotency_ttl w.store).1 } in
      let (k, o) = place-PlaceKeeps engine store processor hash float uuid key user_id items w' c in
      (k, PlaceOutcome-OrderOutcome user_id items w _ once (λ f. cc) o)
  reserved-Keeps uuid user_id items w (err x) e once c =
      let key = idempotency_key hash user_id items in
      let w' = record w { store = (store.reserve key idempotency_ttl w.store).1 } in
      let (k, o) = place-PlaceKeeps engine store processor hash float uuid key user_id items w' c in
      (k, PlaceOutcome-OrderOutcome user_id items w _ once (λ f. cc) o)

  create_order-Keeps :
      (uuid : Text) (user_id : ℕ) (items : List OrderItemRequest) (w : World S Q)
      → Consistent w.db.tables w.db.seq
      → let p = create_order engine store processor hash float uuid user_id items w in
        Conserves w.db.tables p.1.db.tables p.1.db.seq × OrderOutcome user_id items w p
  unfolding create_order
  create_order-Keeps uuid user_id items w c = elim (Bool-cases (has_duplicate [] items)) [
    | inl twice ↦ rw twice ((c, λ p. refl), ((refl, refl), inl (twice, refl)))
    | inr once ↦ rw once (reserved-Keeps uuid user_id items w _ refl once c)
  ]

  -- CreateOrder of the service on every branch, on consistent tables: an accepted cart has taken
  -- the requested units, has a new pending order under the returned id for the caller, and is
  -- queued once with its key kept; a refused one leaves the tables and the queue, and the store is
  -- untouched if the cart names a product twice, is as the reservation left it if that was refused,
  -- and is as the release left it in every other case.
  pub create_order-outcome :
      (uuid : Text) (user_id : ℕ) (items : List OrderItemRequest) (w : World S Q)
      → Consistent w.db.tables w.db.seq
      → OrderOutcome user_id items w
          (create_order engine store processor hash float uuid user_id items w)
  create_order-outcome uuid user_id items w c = (create_order-Keeps uuid user_id items w c).1

  -- On consistent tables CreateOrder of the service keeps them consistent and loses no unit of
  -- stock, whatever the store, the processor and the database answer.
  pub place_order-Conserves :
      (uuid : Text) (user_id : ℕ) (items : List OrderItemRequest) (w : World S Q)
      → Consistent w.db.tables w.db.seq
      → let w' = (create_order engine store processor hash float uuid user_id items w).1 in
        Conserves w.db.tables w'.db.tables w'.db.seq
  place_order-Conserves uuid user_id items w c = (create_order-Keeps uuid user_id items w c).0
