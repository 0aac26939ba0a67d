-- ===== src/Repository/Order/Tests.antt =====
-- A small shop, and the theorems on internal/repository/order.go at it.
use mathlib.Core.List.{Memᴰ}
use order_processing_system.Base.{
  ℕ, ◌≡◌, refl, none, some, List, [], ◌∷◌, ◌==◌, if◌then◌else◌, arith,
}
use order_processing_system.Models.{
  Order, OrderItem, Payment, OrderStatus, PaymentStatus, ok, err, insufficient_stock,
}
use order_processing_system.Database.{Db, Engine}
use order_processing_system.Repository.Order.{
  create_order, get_pending_by_order_id, mark_paid_and_confirm, fail_cancel_and_restock,
  insert_order, insert_items, insert_payment,
}
use order_processing_system.Repository.Order.Create.{CreateOutcome, create_order_lem}
use order_processing_system.Repository.Order.Verdict.{
  PaidVerdict, FailedVerdict, mark_paid_and_confirm-PaidVerdict,
  fail_cancel_and_restock-FailedVerdict,
}
use order_processing_system.Repository.Order.Ledger.{order_status, Consistent}
use order_processing_system.Repository.Order.Agreement.{Known}
use order_processing_system.Repository.Order.Conservation.{
  Conserves, create_order-Conserves, mark_paid_and_confirm-Conserves,
  fail_cancel_and_restock-Conserves,
}
use order_processing_system.Repository.Order.World.{
  World, settled, create, load, confirm, cancel, Reach, here, next, Sound,
}
use order_processing_system.Repository.Order.History.{StepKeeps, Reach-Keeps}
use order_processing_system.Repository.Order.Finality.{Reach-final}

-- No call fails; a clock that ticks with each call.
abbrev calm : Engine
calm = record { fault = λ n. none; clock = λ n. n; numeric = some }

-- Call 3, which is inside the transaction, fails with code 500.
abbrev flaky : Engine
flaky = record { fault = λ n. if n == 3 then some 500 else none; clock = λ n. n; numeric = some }

abbrev shop : Db
shop = record {
  tables = record {
    users =
        record {
          id = 1;
          name = [];
          email = [];
          password = [];
          role = [];
          created_at = 0;
          updated_at = 0;
        }
        ∷ [];
    products = [];
    inventory =
        record { id = 1; product_id = 7; quantity = 10; updated_at = 0 }
        ∷ record { id = 2; product_id = 9; quantity = 5; updated_at = 0 }
        ∷ [];
    orders = [];
    order_items = [];
    payments = [];
    notifications = [];
  };
  seq = record {
    user = 2;
    product = 10;
    inventory = 3;
    order = 1;
    order_item = 1;
    payment = 1;
    notification = 1;
  };
  calls = 0;
}

abbrev line : ℕ → ℕ → OrderItem
line product quantity = record {
  id = 0;
  order_id = 0;
  product_id = product;
  quantity = quantity;
  price_at_purchase = 0;
}

abbrev cart : List OrderItem → Order
cart items = record {
  id = 0;
  user_id = 1;
  status = OrderStatus.pending;
  total_price = 0;
  items = items;
  created_at = 0;
  updated_at = 0;
}

abbrev two_lines : Order
two_lines = cart (line 7 3 ∷ line 9 5 ∷ [])

abbrev unpaid : Payment
unpaid = record {
  id = 0;
  order_id = 0;
  idempotency_key = 1 ∷ [];
  status = PaymentStatus.pending;
  amount = 0;
  provider_txn_id = none;
  created_at = 0;
  updated_at = 0;
}

-- The shop with one order of both products.
abbrev ordered : Db
unfolding create_order insert_order insert_items insert_payment
ordered = (create_order calm two_lines unpaid shop).1

-- What a worker then loads.
abbrev held : Payment
held = record unpaid { id = 1; order_id = 1; created_at = 5; updated_at = 5 }

too_many :
    (create_order calm (cart (line 7 3 ∷ line 9 6 ∷ [])) unpaid shop).0 ≡ err (insufficient_stock 9)
unfolding create_order
too_many = refl

rolled_back : (create_order flaky two_lines unpaid shop).1.tables ≡ shop.tables
unfolding create_order insert_order insert_items insert_payment
rolled_back = refl

held_is_loaded : (get_pending_by_order_id calm 1 ordered).0 ≡ ok held
unfolding get_pending_by_order_id create_order insert_order insert_items insert_payment
held_is_loaded = refl

shop-Consistent : Consistent shop.tables shop.seq
shop-Consistent = record {
  orders_old = tt;
  items_old = tt;
  payments_old = tt;
  distinct = tt;
  agreement = tt;
  one_shelf = λ p. ground arith;
  shelved = tt;
}

create_order_lem_example :
    CreateOutcome two_lines unpaid shop (create_order calm two_lines unpaid shop)
create_order_lem_example = create_order_lem calm two_lines unpaid shop

create_order-Conserves_example :
    let after = (create_order calm two_lines unpaid shop).1 in
    Conserves shop.tables after.tables after.seq
create_order-Conserves_example =
    create_order-Conserves calm two_lines unpaid shop shop-Consistent refl refl

ordered-Consistent : Consistent ordered.tables ordered.seq
unfolding create_order insert_order insert_items insert_payment
ordered-Consistent = create_order-Conserves_example.0

held-Known : Known held ordered.tables.payments
unfolding create_order insert_order insert_items insert_payment
held-Known = ((λ e. refl), tt)

mark_paid_and_confirm-PaidVerdict_example :
    PaidVerdict held [] ordered (mark_paid_and_confirm calm held [] ordered)
mark_paid_and_confirm-PaidVerdict_example =
    mark_paid_and_confirm-PaidVerdict held ordered ordered-Consistent held-Known calm []

fail_cancel_and_restock-FailedVerdict_example :
    FailedVerdict held ordered (fail_cancel_and_restock calm held ordered)
fail_cancel_and_restock-FailedVerdict_example =
    fail_cancel_and_restock-FailedVerdict held ordered ordered-Consistent held-Known calm

mark_paid_and_confirm-Conserves_example :
    let after = (mark_paid_and_confirm calm held [] ordered).1 in
    Conserves ordered.tables after.tables after.seq
mark_paid_and_confirm-Conserves_example =
    mark_paid_and_confirm-Conserves calm held [] ordered ordered-Consistent held-Known

fail_cancel_and_restock-Conserves_example :
    let after = (fail_cancel_and_restock calm held ordered).1 in
    Conserves ordered.tables after.tables after.seq
fail_cancel_and_restock-Conserves_example =
    fail_cancel_and_restock-Conserves calm held ordered ordered-Consistent held-Known

abbrev opening : World
opening = record { db = shop; loaded = []; won = [] }

opening-Sound : Sound opening
opening-Sound = record { consistent = shop-Consistent; current = tt; once = λ k. omega arith }

-- The order is placed, loaded, confirmed, and then cancelled by a worker that came too late.
abbrev placed : World
placed = record opening { db = ordered }

abbrev taken_up : World
unfolding get_pending_by_order_id
taken_up = record { db = (get_pending_by_order_id calm 1 ordered).1; loaded = held ∷ []; won = [] }

abbrev confirmed : World
confirmed = settled (mark_paid_and_confirm calm held [] taken_up.db) held taken_up

abbrev too_late : World
too_late = settled (fail_cancel_and_restock calm held confirmed.db) held confirmed

race : Reach calm opening too_late
unfolding create_order insert_order insert_items insert_payment get_pending_by_order_id
race =
    next
      (next (next (next here (create two_lines unpaid refl refl)) (load 1 refl))
        (confirm held [] (Memᴰ.head refl)))
      (cancel held (Memᴰ.head refl))

race_result :
    (order_status 1 too_late.db.tables.orders ≡ some OrderStatus.confirmed)
    × (too_late.won ≡ 1 ∷ [])
unfolding create_order insert_order insert_items insert_payment get_pending_by_order_id
    mark_paid_and_confirm fail_cancel_and_restock
race_result = (refl, refl)

Reach-Keeps_example : StepKeeps opening too_late
Reach-Keeps_example = Reach-Keeps calm race opening-Sound

confirmed_race : Reach calm confirmed too_late
unfolding taken_up
confirmed_race = next here (cancel held (Memᴰ.head refl))

before_race : Reach calm opening confirmed
unfolding create_order insert_order insert_items insert_payment get_pending_by_order_id
before_race =
    next (next (next here (create two_lines unpaid refl refl)) (load 1 refl))
      (confirm held [] (Memᴰ.head refl))

confirmed_status : order_status 1 confirmed.db.tables.orders ≡ some OrderStatus.confirmed
unfolding create_order insert_order insert_items insert_payment get_pending_by_order_id
    mark_paid_and_confirm
confirmed_status = refl

Reach-final_example : order_status 1 too_late.db.tables.orders ≡ some OrderStatus.confirmed
Reach-final_example =
    Reach-final 1 OrderStatus.confirmed (λ e. cc) calm confirmed_race
      (Reach-Keeps calm before_race opening-Sound).0 confirmed_status
