-- ===== src/Services/Fulfillment/Tests.antt =====
-- A run of the fulfiller on the order of a small shop, and the theorems about it at that run.
use Prim.Native.Nat.{min}
use order_processing_system.Base.{
  ℕ, ◌+◌, ◌*◌, ◌^◌, ◌/◌, ◌≤◌, ◌<◌, ◌≡◌, ◌⊎◌, refl, true, false, none, some, [], ◌∷◌, ltb, ◌==◌,
  arith, if◌then◌else◌,
}
use order_processing_system.Base.Int.{pos}
use order_processing_system.Models.{Text, Error, Payment, OrderStatus, PaymentStatus, ok, err}
use order_processing_system.Config.{WorkerConfig}
use order_processing_system.Database.{Db, Engine}
use order_processing_system.Payment.Gateway.{Gateway}
use order_processing_system.Payment.Fake.{
  Surroundings, FakeGateway, fake_gateway, charge as fake_charge,
}
use order_processing_system.Repository.Order.{get_pending_by_order_id, mark_paid_and_confirm}
use order_processing_system.Repository.Notification.{create_notification, mark_sent}
use order_processing_system.Repository.Order.Ledger.{order_status, Consistent}
use order_processing_system.Repository.Order.Conservation.{Conserves}
use order_processing_system.Services.Notification.{Notifier, send}
use order_processing_system.Services.Fulfillment.{World, charge, fulfill}
use order_processing_system.Services.Fulfillment.Backoff.{
  capped, backoff, backoff_bounds, capped-eq-min,
}
use order_processing_system.Services.Fulfillment.Sleeps.{Slept, charge-Slept}
use order_processing_system.Services.Fulfillment.Safety.{PaidCharged}
use order_processing_system.Services.Fulfillment.Settles.{fulfill-settles, fulfill-no_attempts}
use order_processing_system.Services.Fulfillment.Whole.{fulfill-Conserves, fulfill-PaidCharged}

abbrev settings : WorkerConfig
settings = record {
  count = pos 2;
  queue_size = pos 4;
  max_retries = pos 3;
  base_backoff = pos 100;
  max_backoff = pos 300;
  attempt_timeout = pos 1000;
  sweep_interval = pos 5000;
  stale_after = pos 2000;
  sweep_batch_size = pos 10;
  gateway_failure_rate = 3;
  shutdown_timeout = pos 9000;
}

abbrev no_retries : WorkerConfig
no_retries = record settings { max_retries = pos 0 }

-- The first call is unlucky, and no call is late.
abbrev luck : Surroundings
luck = record {
  expires = λ n. false;
  draw = λ n. if n == 0 then 1 else 8;
  uuid = λ n. n ∷ [];
  less = ltb;
}

abbrev provider : Gateway FakeGateway
unfolding fake_gateway
provider = fake_gateway luck

abbrev fresh : FakeGateway
fresh = record { failure_rate = 3; charged = []; calls = 0 }

abbrev seed : ℕ → ℕ
seed n = n + 7

-- A hub that counts what it has pushed.
abbrev listener : Notifier ℕ
listener = record { notify = λ order event n. (true, n + 1) }

abbrev calm : Engine
calm = record { fault = λ n. none; clock = λ n. n; numeric = some }

abbrev due : Payment
due = record {
  id = 1;
  order_id = 1;
  idempotency_key = 65 ∷ [];
  status = PaymentStatus.pending;
  amount = 20;
  provider_txn_id = none;
  created_at = 0;
  updated_at = 0;
}

abbrev shop : Db
shop = record {
  tables = record {
    users = [];
    products = [];
    inventory = record { id = 1; product_id = 7; quantity = 10; updated_at = 0 } ∷ [];
    orders =
        record {
          id = 1;
          user_id = 1;
          status = OrderStatus.pending;
          total_price = 20;
          items = [];
          created_at = 0;
          updated_at = 0;
        }
        ∷ [];
    order_items =
        record { id = 1; order_id = 1; product_id = 7; quantity = 2; price_at_purchase = 10 } ∷ [];
    payments = due ∷ [];
    notifications = [];
  };
  seq = record {
    user = 2;
    product = 8;
    inventory = 2;
    order = 2;
    order_item = 2;
    payment = 2;
    notification = 1;
  };
  calls = 0;
}

abbrev opening : World FakeGateway ℕ
opening = record { db = shop; charging = record { gateway = fresh; slept = [] }; hub = 0 }

abbrev closing : World FakeGateway ℕ
closing = fulfill settings seed provider listener calm 1 opening

-- The first charge fails, the second succeeds, and the message is pushed.
closing_result :
    (order_status 1 closing.db.tables.orders ≡ some OrderStatus.confirmed)
    × (closing.charging.slept ≡ pos 58 ∷ [])
    × (closing.hub ≡ 1)
unfolding fulfill provider fake_gateway fake_charge charge backoff get_pending_by_order_id
    mark_paid_and_confirm send create_notification mark_sent capped
closing_result = (refl, refl, refl)

shop-Consistent : Consistent shop.tables shop.seq
shop-Consistent = record {
  orders_old = (omega arith, tt);
  items_old = (omega arith, tt);
  payments_old = ((omega arith, omega arith), tt);
  distinct = (tt, tt);
  agreement = (refl, tt);
  one_shelf = λ p. ground arith;
  shelved = (refl, tt);
}

backoff_bounds_example :
    (d r : ℕ) × (capped settings 2 ≡ pos d)
    × (backoff settings 9 2 ≡ pos r)
    × (0 < d)
    × (d ≤ 300)
    × (d / 2 ≤ r)
    × (r ≤ d)
backoff_bounds_example = backoff_bounds settings 9 2 300 refl (omega arith)

capped-eq-min_example : capped settings 3 ≡ pos (min (100 * 2 ^ 2) 300)
capped-eq-min_example = capped-eq-min settings 2 100 300 refl refl (omega arith) (omega arith)

charge-Slept_example : Slept 300 2 [] (charge settings seed provider due opening.charging).1.slept
charge-Slept_example =
    charge-Slept settings seed provider 300 3 refl (omega arith) refl due opening.charging

fulfill-Conserves_example : Conserves shop.tables closing.db.tables closing.db.seq
fulfill-Conserves_example =
    fulfill-Conserves settings seed provider listener calm 1 opening shop-Consistent

fulfill-PaidCharged_example :
    PaidCharged provider closing.charging.gateway closing.db.tables.payments
fulfill-PaidCharged_example =
    fulfill-PaidCharged settings seed provider listener calm 1 opening (omega arith) shop-Consistent
      (λ e. absurd (cc e), tt)

fulfill-settles_example :
    ((txn : Text) × ((charge settings seed provider due opening.charging).0 ≡ ok txn)
      × (order_status 1 closing.db.tables.orders ≡ some OrderStatus.confirmed))
    ⊎ ((e : Error) × ((charge settings seed provider due opening.charging).0 ≡ err e)
        × (order_status 1 closing.db.tables.orders ≡ some OrderStatus.cancelled))
fulfill-settles_example =
    fulfill-settles settings seed provider listener calm (λ n. refl) 1 opening due shop-Consistent
      refl

fulfill-no_attempts_example :
    let w' = fulfill no_retries seed provider listener calm 1 opening in
    (order_status 1 w'.db.tables.orders ≡ some OrderStatus.confirmed)
    × (w'.charging ≡ opening.charging)
fulfill-no_attempts_example =
    fulfill-no_attempts no_retries seed provider listener calm (λ n. refl) 1 opening due
      shop-Consistent refl refl
