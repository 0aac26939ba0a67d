-- ===== src/Services/Order/Claim.antt =====
-- What CreateOrder of internal/services/order.go leaves of its key in the store of
-- internal/idempotency/redis_store.go.
mod Tests
use order_processing_system.Base.{
  ℕ, ◌≡◌, ◌≢◌, refl, ap, ◌∙◌, inl, inr, Bool, true, false, not, ◌&&◌, ◌||◌, arith, List, Bool-cases,
}
use order_processing_system.Base.Int.{ℤ}
use order_processing_system.Models.{Text, Result, ok, err, text_eq, text_eq_refl}
use order_processing_system.Database.{Engine}
use order_processing_system.Repository.Order.Ledger.{Consistent}
use order_processing_system.Idempotency.{Store}
use order_processing_system.Idempotency.Redis.{
  RedisClient, redis_store, KeySet, live, redis_store-KeySet,
}
use order_processing_system.Services.Order.{
  OrderItemRequest, OrderResponse, OrderProcessor, Arithmetic, World, idempotency_ttl,
  idempotency_key, create_order,
}
use order_processing_system.Services.Order.Outcome.{KeyFate, OrderOutcome, create_order-outcome}

abbrev pub accepted : Result OrderResponse → Bool
accepted (ok resp) = true
accepted (err e) = false

-- The key is held afterwards if it was before or if the order was accepted, never both; no other
-- key changes.
pub record Claimed (key : Text) (before after : Text → Bool) (r : Result OrderResponse)
    : Type 0 where
  pub own : after key ≡ (before key || accepted r)
  pub once : (before key && accepted r) ≡ false
  pub others : (k : Text) → text_eq k key ≡ false → after k ≡ before k

module _ {S Q : Type 0} (engine : Engine) (store : Store S) (held : S → Text → Bool)
    (set : KeySet store held) (processor : OrderProcessor Q) (hash : Text → Text)
    (float : Arithmetic) where
  reserve_held :
      (key : Text) (s : S) → (store.reserve key idempotency_ttl s).0 ≢ ok false → held s key ≡ false
  reserve_held key s free = elim (Bool-cases (held s key)) [
    | inl taken ↦ absurd (free (set.answers key idempotency_ttl s ∙ ap (λ b. ok (not b)) taken))
    | inr is_free ↦ is_free
  ]

  OrderOutcome-Claimed :
      (user_id : ℕ) (items : List OrderItemRequest) (w : World S Q)
      (p : Result OrderResponse × World S Q)
      → OrderOutcome engine store processor hash float user_id items w p
      → Claimed (idempotency_key hash user_id items) (held w.store) (held p.1.store) p.0
  OrderOutcome-Claimed user_id items w (ok resp, w') (a, unique, free, s) =
      let key = idempotency_key hash user_id items in
      let was = reserve_held key w.store free in
      let now = λ (k : Text). set.claims key k idempotency_ttl w.store in
      rw s (record {
        own = ground (arith, was, now key, text_eq_refl key);
        once = ground (arith, was);
        others = λ k other. ground (arith, now k, other);
      })
  OrderOutcome-Claimed user_id items w (err e, w') (same, inl (twice, s)) =
      rw s (record { own = ground arith; once = ground arith; others = λ k other. refl })
  OrderOutcome-Claimed user_id items w (err e, w') (same, inr (inl (unique, taken, s))) =
      let key = idempotency_key hash user_id items in
      let said = set.answers key idempotency_ttl w.store in
      let was : held w.store key ≡ true = ground (arith, said, taken) in
      let now = λ (k : Text). set.claims key k idempotency_ttl w.store in
      rw s (record {
        own = ground (arith, was, now key, text_eq_refl key);
        once = ground arith;
        others = λ k other. ground (arith, now k, other);
      })
  OrderOutcome-Claimed user_id items w (err e, w') (same, inr (inr (unique, free, s))) =
      let key = idempotency_key hash user_id items in
      let was = reserve_held key w.store free in
      let claimed = λ (k : Text). set.claims key k idempotency_ttl w.store in
      let now = λ (k : Text). set.releases key k (store.reserve key idempotency_ttl w.store).1 in
      rw s (record {
        own = ground (arith, was, now key, text_eq_refl key);
        once = ground arith;
        others = λ k other. ground (arith, now k, claimed k, other);
      })

module _ {S Q : Type 0} (client : RedisClient S)
    (set_answered : (key v : Text) (ttl : ℤ) (s : S)
      → (b : Bool) × ((client.set_nx key v ttl s).0 ≡ ok b))
    (del_answered : (key : Text) (s : S) → (n : ℕ) × ((client.del key s).0 ≡ ok n)) where
  -- Over a Redis that answers every call and does what it documents for SET NX and DEL, and on
  -- consistent tables, CreateOrder of the service leaves the cart's key held exactly if it was held
  -- before or the order is accepted, never accepts an order whose key was held, and changes no
  -- other key: a refused cart can be sent again.
  pub create_order-Claimed :
      (engine : Engine) (processor : OrderProcessor Q) (hash : Text → Text) (float : Arithmetic)
      (uuid : Text) (user_id : ℕ) (items : List OrderItemRequest) (w : World S Q)
      → Consistent w.db.tables w.db.seq
      → let (r, w') =
          create_order engine (redis_store client) processor hash float uuid user_id items w in
        Claimed
          (idempotency_key hash user_id items)
          (live client set_answered del_answered w.store)
          (live client set_answered del_answered w'.store)
          r
  create_order-Claimed engine processor hash float uuid user_id items w c =
      OrderOutcome-Claimed engine (redis_store client) (live client set_answered del_answered)
        (redis_store-KeySet client set_answered del_answered) processor hash float user_id items w
        (create_order engine (redis_store client) processor hash float uuid user_id items w)
        (create_order-outcome engine (redis_store client) processor hash float uuid user_id items w
          c)
