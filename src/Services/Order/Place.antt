-- ===== src/Services/Order/Place.antt =====
-- What CreateOrder of internal/services/order.go does once the key is reserved.
use order_processing_system.Base.{
  ℕ, ◌+◌, ◌≡◌, refl, sym, ap, ◌∙◌, none, some, List, [], ◌∷◌, ◌++◌, map, arith, subst,
}
use order_processing_system.Models.{
  Text, Float64, Product, Order, OrderItem, Payment, OrderStatus, Result, ok, err,
}
use order_processing_system.Database.{Db, Engine}
use order_processing_system.Repository.Order.{create_order as insert_whole_order}
use order_processing_system.Repository.Order.Stock.{stock, demand}
use order_processing_system.Repository.Order.Ledger.{
  order_status, Consistent, order_status-append_new,
}
use order_processing_system.Repository.Order.Create.{Created, CreateOutcome, create_order_lem}
use order_processing_system.Repository.Order.Conservation.{Conserves, create_order-Conserves}
use order_processing_system.Repository.Product.{get_products_by_ids}
use order_processing_system.Idempotency.{Store}
use order_processing_system.Services.Order.Lines.{
  requested, demand-sort_items, order_status_of_unused, demand-build_items,
}
use order_processing_system.Services.Order.{
  OrderItemRequest, OrderResponse, OrderProcessor, Arithmetic, World, sort_items, to_order_response,
  release, new_order, new_payment, persist, place_built, place_priced, place,
}

module _ {S Q : Type 0} (processor : OrderProcessor Q) where
  -- An accepted cart: its units have left the shelves, its order is new and pending, and is queued.
  pub record Accepted (user_id : ℕ) (items : List OrderItemRequest) (w w' : World S Q)
      (resp : OrderResponse) : Type 0 where
    pub taken :
        (p : ℕ) → stock p w'.db.tables.inventory + requested p items ≡ stock p w.db.tables.inventory
    pub unused : order_status resp.id w.db.tables.orders ≡ none
    pub pending : order_status resp.id w'.db.tables.orders ≡ some OrderStatus.pending
    pub owner : resp.user_id ≡ user_id
    pub queued : w'.queue ≡ processor.process resp.id w.queue

  -- A refused cart leaves the tables and the queue.
  abbrev pub Refused : World S Q → World S Q → Type 0
  Refused w w' = (w'.db.tables ≡ w.db.tables) × (w'.queue ≡ w.queue)

module _ {S Q : Type 0} (engine : Engine) (store : Store S) (processor : OrderProcessor Q)
    (hash : Text → Text) (float : Arithmetic) where
  -- Once the key is settled: it stays when the cart is accepted, and is released otherwise.
  abbrev pub PlaceOutcome :
      Text → ℕ → List OrderItemRequest → World S Q → Result OrderResponse × World S Q → Type 0
  PlaceOutcome key user_id items w (ok resp, w') =
      Accepted processor user_id items w w' resp × (w'.store ≡ w.store)
  PlaceOutcome key user_id items w (err e, w') =
      Refused processor w w' × (w'.store ≡ (store.release key w.store).1)

  abbrev pub PlaceKeeps :
      Text → ℕ → List OrderItemRequest → World S Q → Result OrderResponse × World S Q → Type 0
  PlaceKeeps key user_id items w p =
      Conserves w.db.tables p.1.db.tables p.1.db.seq × PlaceOutcome key user_id items w p

  Created-Accepted :
      (user_id : ℕ) (items : List OrderItemRequest) (order made : Order) (payment paid : Payment)
      (w w' : World S Q)
      → Created order made payment paid w.db.tables w'.db.tables w.db.seq w'.db.seq
      → Consistent w.db.tables w.db.seq
      → ((p : ℕ) → demand p order.items ≡ requested p items)
      → order.status ≡ OrderStatus.pending
      → order.user_id ≡ user_id
      → w'.queue ≡ processor.process made.id w.queue
      → Accepted processor user_id items w w' (to_order_response made)
  Created-Accepted user_id items order made payment paid w w' d c asked fresh mine queued = record {
    taken = λ p. omega (arith, d.taken p, asked p);
    unused = rw d.made_id (order_status_of_unused w.db.seq.order w.db.tables.orders c.orders_old);
    pending =
        let row = record made { items = [] } in
        rw d.orders (
          subst (λ n. order_status n (w.db.tables.orders ++ (row ∷ [])) ≡ some OrderStatus.pending)
            (sym d.made_id)
            (order_status-append_new w.db.seq.order w.db.tables.orders row c.orders_old d.made_id
              ∙ ap some (d.made_status ∙ fresh)));
    owner = d.made_owner ∙ mine;
    queued = queued;
  }

  -- What the repository's answer makes of a cart.
  answered : Text → World S Q → Result (Order × Payment) × Db → Result OrderResponse × World S Q
  answered key w (err e, db) =
      (err e, release engine store processor hash float key (record w { db = db }))
  answered key w (ok (made, paid), db) =
      (ok (to_order_response made), record w { db = db; queue = processor.process made.id w.queue })

  persist-eq-answered :
      (uuid key : Text) (user_id : ℕ) (lines : List OrderItem) (total : Float64) (w : World S Q)
      → persist engine store processor hash float uuid key user_id (lines, total) w
        ≡ answered key w (
            insert_whole_order engine
              (new_order user_id (sort_items lines) total)
              (new_payment uuid total)
              w.db)
  unfolding persist answered
  persist-eq-answered uuid key user_id lines total w = ground arith

  answered-PlaceKeeps :
      (key : Text) (user_id : ℕ) (items : List OrderItemRequest) (order : Order) (payment : Payment)
      (w : World S Q) (p : Result (Order × Payment) × Db)
      → CreateOutcome order payment w.db p
      → Conserves w.db.tables p.1.tables p.1.seq
      → Consistent w.db.tables w.db.seq
      → ((p : ℕ) → demand p order.items ≡ requested p items)
      → order.status ≡ OrderStatus.pending
      → order.user_id ≡ user_id
      → PlaceKeeps key user_id items w (answered key w p)
  unfolding answered
  answered-PlaceKeeps key user_id items order payment w (err e, db) (same, grown) k c asked fresh
        mine =
      (k, ((same, refl), refl))
  answered-PlaceKeeps key user_id items order payment w (ok (made, paid), db) d k c asked fresh
        mine =
      (
        k,
        (
          Created-Accepted user_id items order made payment paid w _ d c asked fresh mine refl,
          refl,
        ),
      )

  persist-PlaceKeeps :
      (uuid key : Text) (user_id : ℕ) (items : List OrderItemRequest) (lines : List OrderItem)
      (total : Float64) (w : World S Q)
      → Consistent w.db.tables w.db.seq
      → ((p : ℕ) → demand p lines ≡ requested p items)
      → PlaceKeeps key user_id items w
          (persist engine store processor hash float uuid key user_id (lines, total) w)
  persist-PlaceKeeps uuid key user_id items lines total w c asked =
      let order = new_order user_id (sort_items lines) total in
      let payment = new_payment uuid total in
      rw (persist-eq-answered uuid key user_id lines total w) (
        answered-PlaceKeeps key user_id items order payment w _
          (create_order_lem engine order payment w.db)
          (create_order-Conserves engine order payment w.db c refl refl) c
          (λ p. demand-sort_items p lines ∙ asked p) refl refl)

  -- A read of the products changes nothing but the count of calls.
  get_products_by_ids-same :
      (ids : List ℕ) (db : Db)
      → let after = (get_products_by_ids engine ids db).1 in
        (after.tables ≡ db.tables) × (after.seq ≡ db.seq)
  unfolding get_products_by_ids
  get_products_by_ids-same ids db = ground arith

  -- The part of `place` behind the read, and its branches.
  PlaceKeeps-same :
      (key : Text) (user_id : ℕ) (items : List OrderItemRequest) (w : World S Q) (db : Db)
      (p : Result OrderResponse × World S Q)
      → (db.tables ≡ w.db.tables) × (db.seq ≡ w.db.seq)
      → PlaceKeeps key user_id items (record w { db = db }) p
      → PlaceKeeps key user_id items w p
  PlaceKeeps-same key user_id items w db (ok resp, w') (t, q) (k, (a, s)) = (
    rw (← t) k,
    (
      record {
        taken = rw (← t) a.taken;
        unused = rw (← t) a.unused;
        pending = a.pending;
        owner = a.owner;
        queued = a.queued;
      },
      s,
    ),
  )
  PlaceKeeps-same key user_id items w db (err e, w') (t, q) (k, ((same, queue), s)) =
      (rw (← t) k, ((same ∙ t, queue), s))

  place_built-PlaceKeeps :
      (uuid key : Text) (user_id : ℕ) (items : List OrderItemRequest)
      (r : Result (List OrderItem × Float64)) (w : World S Q)
      → Consistent w.db.tables w.db.seq
      → ((lines : List OrderItem) (total : Float64)
          → r ≡ ok (lines, total)
          → (p : ℕ) → demand p lines ≡ requested p items)
      → PlaceKeeps key user_id items w
          (place_built engine store processor hash float uuid key user_id r w)
  unfolding place_built
  place_built-PlaceKeeps uuid key user_id items (err e) w c asked =
      ((c, λ p. refl), ((refl, refl), refl))
  place_built-PlaceKeeps uuid key user_id items (ok (lines, total)) w c asked =
      persist-PlaceKeeps uuid key user_id items lines total w c (asked lines total refl)

  place_priced-PlaceKeeps :
      (uuid key : Text) (user_id : ℕ) (items : List OrderItemRequest) (r : Result (List Product))
      (w : World S Q)
      → Consistent w.db.tables w.db.seq
      → PlaceKeeps key user_id items w
          (place_priced engine store processor hash float uuid key user_id items r w)
  unfolding place_priced
  place_priced-PlaceKeeps uuid key user_id items (err e) w c =
      ((c, λ p. refl), ((refl, refl), refl))
  place_priced-PlaceKeeps uuid key user_id items (ok products) w c =
      place_built-PlaceKeeps uuid key user_id items _ w c
        (λ lines total e p. demand-build_items float p products 0 items e)

  pub place-PlaceKeeps :
      (uuid key : Text) (user_id : ℕ) (items : List OrderItemRequest) (w : World S Q)
      → Consistent w.db.tables w.db.seq
      → PlaceKeeps key user_id items w
          (place engine store processor hash float uuid key user_id items w)
  unfolding place
  place-PlaceKeeps uuid key user_id items w c =
      let ids = map (λ (i : OrderItemRequest). i.product_id) items in
      let (r, db) = get_products_by_ids engine ids w.db in
      let (t, q) = get_products_by_ids-same ids w.db in
      PlaceKeeps-same key user_id items w db _ (t, q)
        (place_priced-PlaceKeeps uuid key user_id items r (record w { db = db }) (rw (t, q) c))
