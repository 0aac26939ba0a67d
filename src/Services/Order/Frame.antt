-- ===== src/Services/Order/Frame.antt =====
-- What CreateOrder of internal/services/order.go leaves in the tables.
use order_processing_system.Base.{
  ℕ, ◌≡◌, refl, ap, ◌∙◌, inl, inr, Bool, true, false, List, [], map, arith, Bool-cases,
}
use order_processing_system.Models.{
  Text, Float64, Product, OrderItem, Result, ok, err, Result-cases,
}
use order_processing_system.Database.{Db, Engine}
use order_processing_system.Repository.Order.{create_order as insert_whole_order}
use order_processing_system.Repository.Order.Frame.{
  the_products, create_order-Undoes as insert-Undoes, create_order-Keeps as insert-Keeps,
}
use order_processing_system.Repository.Product.{get_products_by_ids}
use order_processing_system.Idempotency.{Store}
use order_processing_system.Services.Order.{
  OrderItemRequest, OrderResponse, OrderProcessor, Arithmetic, World, sort_items, build_items,
  new_order, new_payment, persist, place_built, place_priced, place, reserved, idempotency_key,
  idempotency_ttl, has_duplicate, create_order,
}

module _ {S Q : Type 0} (engine : Engine) (store : Store S) (processor : OrderProcessor Q)
    (hash : Text → Text) (float : Arithmetic) where
  -- No product has changed; a refused order has changed no table and queued nothing.
  abbrev pub Framed : World S Q → Result OrderResponse × World S Q → Type 0
  Framed w (ok resp, w') = w'.db.tables.products ≡ w.db.tables.products
  Framed w (err e, w') = (w'.db.tables ≡ w.db.tables) × (w'.queue ≡ w.queue)

  persist-Framed :
      (uuid key : Text) (user_id : ℕ) (lines : List OrderItem) (total : Float64) (w : World S Q)
      → Framed w (persist engine store processor hash float uuid key user_id (lines, total) w)
  unfolding persist
  persist-Framed uuid key user_id lines total w =
      let order = new_order user_id (sort_items lines) total in
      let payment = new_payment uuid total in
      elim (Result-cases (insert_whole_order engine order payment w.db).0) [
        | inl (made, e) ↦
            let same = (insert-Keeps engine order payment).keeps w.db in ground (arith, e, same)
        | inr (x, e) ↦
            let same = (insert-Undoes engine order payment).undoes w.db x e in
            ground (arith, e, same)
      ]

  place_built-Framed :
      (uuid key : Text) (user_id : ℕ) (r : Result (List OrderItem × Float64)) (w : World S Q)
      → Framed w (place_built engine store processor hash float uuid key user_id r w)
  unfolding place_built
  place_built-Framed uuid key user_id (err e) w = (refl, refl)
  place_built-Framed uuid key user_id (ok (lines, total)) w =
      persist-Framed uuid key user_id lines total w

  place_priced-Framed :
      (uuid key : Text) (user_id : ℕ) (items : List OrderItemRequest) (r : Result (List Product))
      (w : World S Q)
      → Framed w (place_priced engine store processor hash float uuid key user_id items r w)
  unfolding place_priced
  place_priced-Framed uuid key user_id items (err e) w = (refl, refl)
  place_priced-Framed uuid key user_id items (ok products) w =
      place_built-Framed uuid key user_id (build_items float products 0 items) w

  Framed-map :
      (w v : World S Q) (p : Result OrderResponse × World S Q)
      → v.db.tables ≡ w.db.tables
      → v.queue ≡ w.queue
      → Framed v p
      → Framed w p
  Framed-map w v (ok resp, w') t q h = h ∙ ap the_products t
  Framed-map w v (err e, w') t q h = (h.0 ∙ t, h.1 ∙ q)

  read-tables : (ids : List ℕ) (db : Db) → (get_products_by_ids engine ids db).1.tables ≡ db.tables
  unfolding get_products_by_ids
  read-tables ids db = ground arith

  place-Framed :
      (uuid key : Text) (user_id : ℕ) (items : List OrderItemRequest) (w : World S Q)
      → Framed w (place engine store processor hash float uuid key user_id items w)
  unfolding place
  place-Framed uuid key user_id items w =
      let ids = map (λ (i : OrderItemRequest). i.product_id) items in
      let (r, db) = get_products_by_ids engine ids w.db in
      Framed-map w (record w { db = db }) _ (read-tables ids w.db) refl
        (place_priced-Framed uuid key user_id items r (record w { db = db }))

  reserved-Framed :
      (uuid key : Text) (user_id : ℕ) (items : List OrderItemRequest) (r : Result Bool)
      (w : World S Q)
      → Framed w (reserved engine store processor hash float uuid key user_id items r w)
  unfolding reserved
  reserved-Framed uuid key user_id items (ok false) w = (refl, refl)
  reserved-Framed uuid key user_id items (ok true) w = place-Framed uuid key user_id items w
  reserved-Framed uuid key user_id items (err e) w = place-Framed uuid key user_id items w

  pub create_order-Framed :
      (uuid : Text) (user_id : ℕ) (items : List OrderItemRequest) (w : World S Q)
      → Framed w (create_order engine store processor hash float uuid user_id items w)
  unfolding create_order
  create_order-Framed uuid user_id items w =
      let key = idempotency_key hash user_id items in
      let (r, s) = store.reserve key idempotency_ttl w.store in
      elim (Bool-cases (has_duplicate [] items)) [
        | inl twice ↦ rw twice (refl, refl)
        | inr once ↦ rw once (
            Framed-map w (record w { store = s }) _ refl refl
              (reserved-Framed uuid key user_id items r (record w { store = s })))
      ]

  Framed-products :
      (w : World S Q) (p : Result OrderResponse × World S Q)
      → Framed w p
      → p.1.db.tables.products ≡ w.db.tables.products
  Framed-products w (ok resp, w') h = h
  Framed-products w (err e, w') h = ap the_products h.0

  pub create_order-products :
      (uuid : Text) (user_id : ℕ) (items : List OrderItemRequest) (w : World S Q)
      → (create_order engine store processor hash float uuid user_id items w).1.db.tables.products
        ≡ w.db.tables.products
  create_order-products uuid user_id items w =
      Framed-products w _ (create_order-Framed uuid user_id items w)
