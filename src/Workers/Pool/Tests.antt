-- ===== src/Workers/Pool/Tests.antt =====
-- A pool of two places that is asked to take three orders, and a sweep of a shop without payments.
use order_processing_system.Base.{ℕ, ◌-◌, ◌≡◌, refl, true, false, none, some, [], ◌∷◌, arith}
use order_processing_system.Base.Int.{pos}
use order_processing_system.Config.{WorkerConfig}
use order_processing_system.Models.{Payment, PaymentStatus}
use order_processing_system.Database.{Db, Engine}
use order_processing_system.Repository.Order.{
  list_stale_pending, stale_orders, sort_by_age, insert_by_age,
}
use order_processing_system.Workers.Pool.{Pool, new_pool, process, process_all, sweep, reclaim}
use order_processing_system.Workers.Pool.Queue.{filled, process_all-filled, Swept, reclaim-Swept}

abbrev calm : Engine
calm = record { fault = λ n. none; clock = λ n. n; numeric = some }

abbrev settings : WorkerConfig
settings = record {
  count = pos 1;
  queue_size = pos 2;
  max_retries = pos 3;
  base_backoff = pos 100;
  max_backoff = pos 300;
  attempt_timeout = pos 1000;
  sweep_interval = pos 5000;
  stale_after = pos 10;
  sweep_batch_size = pos 0;
  gateway_failure_rate = 3;
  shutdown_timeout = pos 9000;
}

abbrev waiting : ℕ → Payment
waiting id = record {
  id = id;
  order_id = id;
  idempotency_key = id ∷ [];
  status = PaymentStatus.pending;
  amount = 20;
  provider_txn_id = none;
  created_at = 9 - id;
  updated_at = 0;
}

abbrev shop : Db
shop = record {
  tables = record {
    users = [];
    products = [];
    inventory = [];
    orders = [];
    order_items = [];
    payments = waiting 4 ∷ waiting 5 ∷ waiting 6 ∷ [];
    notifications = [];
  };
  seq = record {
    user = 1;
    product = 1;
    inventory = 1;
    order = 7;
    order_item = 1;
    payment = 7;
    notification = 1;
  };
  calls = 0;
}

-- The oldest first, and no more than the queue takes.
oldest :
    (reclaim settings (λ n. true) calm 100 shop new_pool).0
    ≡ some (record { jobs = 6 ∷ 5 ∷ []; stopped = false })
unfolding reclaim sweep process_all process list_stale_pending stale_orders sort_by_age
    insert_by_age
oldest = refl

process_all-filled_example :
    process_all settings (λ n. true) (7 ∷ 8 ∷ 9 ∷ []) new_pool
    ≡ some (filled settings (7 ∷ 8 ∷ 9 ∷ []) new_pool)
process_all-filled_example =
    process_all-filled settings (λ n. true) (7 ∷ 8 ∷ 9 ∷ []) new_pool refl (omega arith)

reclaim-Swept_example :
    (q : Pool) × ((reclaim settings (λ n. true) calm 100 shop new_pool).0 ≡ some q)
    × Swept settings new_pool shop q (reclaim settings (λ n. true) calm 100 shop new_pool).1
reclaim-Swept_example = reclaim-Swept settings (λ n. true) calm 100 shop new_pool refl (omega arith)
