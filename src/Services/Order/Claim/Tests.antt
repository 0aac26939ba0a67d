-- ===== src/Services/Order/Claim/Tests.antt =====
-- A toy of Redis that never fails and keeps its keys, and CreateOrder of internal/services/order.go over it.
use order_processing_system.Base.{
  ℕ, List, [], ◌∷◌, ◌≡◌, refl, inl, inr, Bool, true, false, Option, none, some, if◌then◌else◌,
  arith, Option-cases,
}
use order_processing_system.Base.Int.{ℤ}
use order_processing_system.Models.{Text, text_eq, text_eq_refl, Result, ok}
use order_processing_system.Idempotency.Redis.{RedisClient, redis_store, is_some, live}
use order_processing_system.Services.Order.{World, create_order, idempotency_key}
use order_processing_system.Services.Order.Claim.{Claimed, create_order-Claimed}
use order_processing_system.Services.Order.Tests.{
  calm, opening, line_up, plain, whole_numbers, cart, opening-Consistent,
}

abbrev Keys : Type 0
Keys = Text → Option Text

abbrev store_at : Text → Option Text → Keys → Keys
store_at key v s k = if text_eq k key then v else s k

abbrev toy_set : Text → Text → ℤ → Keys → Result Bool × Keys
toy_set key v ttl s = if is_some (s key) then (ok false, s) else (ok true, store_at key (some v) s)

abbrev toy_redis : RedisClient Keys
toy_redis = record {
  set_nx = toy_set;
  del = λ key s. (ok 1, store_at key none s);
  value = λ s key. s key;
  sets = λ key v ttl s b free e. ground (arith, free, e, text_eq_refl key);
  leaves = λ key v x ttl s b taken e. ground (arith, taken, e);
  set_others = λ key v k ttl s other. ground (arith, other);
  deletes = λ key s n e. ground (arith, text_eq_refl key);
  del_others = λ key k s other. ground (arith, other);
}

toy_answers : (key v : Text) (ttl : ℤ) (s : Keys) → (b : Bool) × ((toy_set key v ttl s).0 ≡ ok b)
toy_answers key v ttl s = elim (Option-cases (s key)) [
  | inl free ↦ (true, ground (arith, free))
  | inr (x, taken) ↦ (false, ground (arith, taken))
]

toy_deletes : (key : Text) (s : Keys) → (n : ℕ) × ((toy_redis.del key s).0 ≡ ok n)
toy_deletes key s = (1, refl)

abbrev unlocked : World Keys (List ℕ)
unlocked = record { db = opening.db; store = λ key. none; queue = [] }

create_order-Claimed_example :
    let (r, w') =
      create_order calm
        (redis_store toy_redis)
        line_up
        plain
        whole_numbers
        (5 ∷ [])
        1
        cart
        unlocked in
    Claimed
      (idempotency_key plain 1 cart)
      (live toy_redis toy_answers toy_deletes unlocked.store)
      (live toy_redis toy_answers toy_deletes w'.store)
      r
create_order-Claimed_example =
    create_order-Claimed toy_redis toy_answers toy_deletes calm line_up plain whole_numbers (5 ∷ [])
      1 cart unlocked opening-Consistent
