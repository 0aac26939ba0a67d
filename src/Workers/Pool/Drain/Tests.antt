-- ===== src/Workers/Pool/Drain/Tests.antt =====
-- A pool with one order in its queue that is stopped, and the theorems on `work` of internal/workers/pool.go at it.
use order_processing_system.Base.{
  ℕ, ◌+◌, ◌≡◌, ◌≢◌, refl, true, false, none, some, [], ◌∷◌, ltb, ◌==◌, arith, inl, inr, Bool-cases,
  All, if◌then◌else◌,
}
use order_processing_system.Base.Int.{pos}
use order_processing_system.Models.{Payment, OrderStatus, PaymentStatus}
use order_processing_system.Config.{WorkerConfig}
use order_processing_system.Database.{Db, Engine}
use order_processing_system.Payment.Gateway.{Gateway}
use order_processing_system.Payment.Fake.{Surroundings, FakeGateway, fake_gateway}
use order_processing_system.Repository.Order.Ledger.{order_status, Consistent}
use order_processing_system.Repository.Order.Progress.{Awaited}
use order_processing_system.Services.Notification.{Notifier}
use order_processing_system.Services.Fulfillment.{World}
use order_processing_system.Workers.Pool.{Pool, stop}
use order_processing_system.Workers.Pool.Drain.{work, drained, stop-settles}

abbrev settings : WorkerConfig
settings = record {
  count = pos 2;
  queue_size = pos 4;
  max_retries = pos 3;
  base_backoff = pos 100;
  max_backoff = pos 300;
  attempt_timeout = pos 1000;
  sweep_interval = pos 5000;
  stale_after = pos 2000;
  sweep_batch_size = pos 10;
  gateway_failure_rate = 3;
  shutdown_timeout = pos 9000;
}

abbrev luck : Surroundings
luck = record {
  expires = λ n. false;
  draw = λ n. if n == 0 then 1 else 8;
  uuid = λ n. n ∷ [];
  less = ltb;
}

abbrev provider : Gateway FakeGateway
unfolding fake_gateway
provider = fake_gateway luck

abbrev fresh : FakeGateway
fresh = record { failure_rate = 3; charged = []; calls = 0 }

abbrev seed : ℕ → ℕ
seed n = n + 7

abbrev listener : Notifier ℕ
listener = record { notify = λ order event n. (true, n + 1) }

abbrev calm : Engine
calm = record { fault = λ n. none; clock = λ n. n; numeric = some }

abbrev due : Payment
due = record {
  id = 1;
  order_id = 1;
  idempotency_key = 65 ∷ [];
  status = PaymentStatus.pending;
  amount = 20;
  provider_txn_id = none;
  created_at = 0;
  updated_at = 0;
}

abbrev shop : Db
shop = record {
  tables = record {
    users = [];
    products = [];
    inventory = record { id = 1; product_id = 7; quantity = 10; updated_at = 0 } ∷ [];
    orders =
        record {
          id = 1;
          user_id = 1;
          status = OrderStatus.pending;
          total_price = 20;
          items = [];
          created_at = 0;
          updated_at = 0;
        }
        ∷ [];
    order_items =
        record { id = 1; order_id = 1; product_id = 7; quantity = 2; price_at_purchase = 10 } ∷ [];
    payments = due ∷ [];
    notifications = [];
  };
  seq = record {
    user = 2;
    product = 8;
    inventory = 2;
    order = 2;
    order_item = 2;
    payment = 2;
    notification = 1;
  };
  calls = 0;
}

abbrev opening : World FakeGateway ℕ
opening = record { db = shop; charging = record { gateway = fresh; slept = [] }; hub = 0 }

shop-Consistent : Consistent shop.tables shop.seq
shop-Consistent = record {
  orders_old = (omega arith, tt);
  items_old = (omega arith, tt);
  payments_old = ((omega arith, omega arith), tt);
  distinct = (tt, tt);
  agreement = (refl, tt);
  one_shelf = λ p. ground arith;
  shelved = (refl, tt);
}

shop-Awaited : Awaited shop.tables.orders shop.tables.payments
shop-Awaited k pending = elim (Bool-cases (1 == k)) [
  | inl hit ↦ (due, rw hit refl)
  | inr miss ↦ absurd (ground (arith, miss, pending))
]

abbrev busy : Pool
busy = record { jobs = 1 ∷ []; stopped = false }

abbrev closed : Pool
closed = record { jobs = 1 ∷ []; stopped = true }

stop-settles_example :
    (w' : World FakeGateway ℕ) × (work settings seed provider listener calm 2 closed opening
      ≡ some (drained settings seed provider listener calm, w'))
    × All (λ id. order_status id w'.db.tables.orders ≢ some OrderStatus.pending) (1 ∷ [])
unfolding stop
stop-settles_example =
    stop-settles settings seed provider listener calm (λ n. refl) busy closed 2 opening
      shop-Consistent shop-Awaited refl (omega arith)
