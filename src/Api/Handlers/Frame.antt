-- ===== src/Api/Handlers/Frame.antt =====
-- What the handlers of internal/api/handlers leave in the tables.
use order_processing_system.Base.{
  ℕ, ◌≤◌, ◌<◌, ◌≡◌, refl, ap, ◌∙◌, inl, inr, List, arith, atoi, codes, Option-cases,
}
use order_processing_system.Base.Int.{pos_part}
use order_processing_system.Models.{Text, Time, Error, Result, ok, err, Result-cases}
use order_processing_system.Database.{Db, Tables, Engine, Query}
use order_processing_system.Database.Frame.{Keeps, Undoes}
use order_processing_system.Auth.{Claims, TokenManager}
use order_processing_system.Services.User as Users
use order_processing_system.Services.User.Frame.{but_users}
use order_processing_system.Services.User.Frame as UserFrame
use order_processing_system.Services.Product as Products
use order_processing_system.Services.Product.Frame as ProductFrame
use order_processing_system.Services.Order.{
  OrderItemRequest, OrderResponse, OrderProcessor, Arithmetic, World,
}
use order_processing_system.Services.Order.Frame.{
  Framed, create_order-Framed, create_order-products,
}
use order_processing_system.Idempotency.{Store}
use order_processing_system.Api.Http.{
  Body, user, access, product, products, inventory, Response, answer, internal, with_body, with_id,
}
use order_processing_system.Api.Handlers.{
  invalid_id, missing, login_error, answer_order, create_user, login, get_user, update_user,
  list_products, create_product, update_product, get_inventory, get_product, create_order,
}

-- A response that reports an error has changed no table.
abbrev pub Harmless : Db → Response × Db → Type 0
Harmless db (response, db') = 400 ≤ response.status → db'.tables ≡ db.tables

-- The handlers' errors have a status of 400 or more, so no row is behind one.
answer-Harmless :
    {A : Type 0} (status : ℕ) (show : A → Body) (fail : Error → Response) (m : Query A) (db : Db)
    → status < 400
    → Undoes m
    → Harmless db (answer status show fail (m db))
answer-Harmless status show fail m db low u refused = elim (Result-cases (m db).0) [
  | inl (a, e) ↦ ground (arith, e, low, refused)
  | inr (x, e) ↦ let same = u.undoes db x e in ground (arith, e, same)
]

answer-tables :
    {A T : Type 0} (part : Tables → T) (status : ℕ) (show : A → Body) (fail : Error → Response)
    (m : Query A) (db : Db)
    → Keeps part m
    → part (answer status show fail (m db)).1.tables ≡ part db.tables
answer-tables part status show fail m db k = elim (Result-cases (m db).0) [
  | inl (a, e) ↦ let same = k.keeps db in ground (arith, e, same)
  | inr (x, e) ↦ let same = k.keeps db in ground (arith, e, same)
]

-- The handler leaves a part of the tables.
abbrev pub Same {ℓ} : {T : Type ℓ} → (Tables → T) → Db → Response × Db → Type ℓ
Same part db (response, db') = part db'.tables ≡ part db.tables

-- What holds of a refusal that touches nothing, and of the handler behind the bound body or id, holds of
-- the whole handler.
module _ {κ} (P : Db → Response × Db → Type κ)
    (refusal : (response : Response) (db : Db) → P db (response, db)) where
  behind_body :
      {A : Type 0} (body : Result A) (handle : A → Db → Response × Db) (db : Db)
      → ((req : A) (db : Db) → P db (handle req db))
      → P db (with_body body handle db)
  behind_body (ok req) handle db h = h req db
  behind_body (err e) handle db h = refusal _ db

  behind_id :
      (param : Text) (handle : ℕ → Db → Response × Db) (invalid : Text) (db : Db)
      → ((id : ℕ) (db : Db) → P db (handle id db))
      → P db (with_id param handle invalid db)
  behind_id param handle invalid db h = elim (Option-cases (atoi param)) [
    | inl unread ↦ rw (unread, with_id) (refusal _ db)
    | inr (z, read) ↦ rw (read, with_id) (h (pos_part z) db)
  ]

-- The three forms of a handler: behind a body, behind an id, and behind both.
module _ {B : Type 0} (status : ℕ) (show : B → Body) (fail : Error → Response) where
  body-Harmless :
      {A : Type 0} (m : A → Query B) (body : Result A) (db : Db)
      → status < 400
      → ((req : A) → Undoes (m req))
      → Harmless db (with_body body (λ req db. answer status show fail (m req db)) db)
  body-Harmless m body db low u =
      behind_body Harmless (λ response db refused. refl) body
        (λ req db. answer status show fail (m req db)) db
        (λ req db. answer-Harmless status show fail (m req) db low (u req))

  id_body-Harmless :
      {A : Type 0} (m : ℕ → A → Query B) (param : Text) (body : Result A) (invalid : Text) (db : Db)
      → status < 400
      → ((id : ℕ) (req : A) → Undoes (m id req))
      → Harmless db (
          with_id param
            (λ id. with_body body (λ req db. answer status show fail (m id req db)))
            invalid
            db)
  id_body-Harmless m param body invalid db low u =
      behind_id Harmless (λ response db refused. refl) param
        (λ id. with_body body (λ req db. answer status show fail (m id req db))) invalid db
        (λ id db. body-Harmless (m id) body db low (u id))

  module _ {T : Type 0} (part : Tables → T) where
    body-part :
        {A : Type 0} (m : A → Query B) (body : Result A) (db : Db)
        → ((req : A) → Keeps part (m req))
        → Same part db (with_body body (λ req db. answer status show fail (m req db)) db)
    body-part m body db k =
        behind_body (Same part) (λ response db. refl) body
          (λ req db. answer status show fail (m req db)) db
          (λ req db. answer-tables part status show fail (m req) db (k req))

    id-part :
        (m : ℕ → Query B) (param invalid : Text) (db : Db)
        → ((id : ℕ) → Keeps part (m id))
        → Same part db (with_id param (λ id db. answer status show fail (m id db)) invalid db)
    id-part m param invalid db k =
        behind_id (Same part) (λ response db. refl) param
          (λ id db. answer status show fail (m id db)) invalid db
          (λ id db. answer-tables part status show fail (m id) db (k id))

    id_body-part :
        {A : Type 0} (m : ℕ → A → Query B) (param : Text) (body : Result A) (invalid : Text)
        (db : Db)
        → ((id : ℕ) (req : A) → Keeps part (m id req))
        → Same part db (
            with_id param
              (λ id. with_body body (λ req db. answer status show fail (m id req db)))
              invalid
              db)
    id_body-part m param body invalid db k =
        behind_id (Same part) (λ response db. refl) param
          (λ id. with_body body (λ req db. answer status show fail (m id req db))) invalid db
          (λ id db. body-part (m id) body db (k id))

module _ (engine : Engine) where
  pub create_user-Harmless :
      (body : Result Users.CreateUserRequest) (db : Db) → Harmless db (create_user engine body db)
  unfolding create_user
  create_user-Harmless body db =
      body-Harmless 201 user internal (Users.create_user engine) body db (omega arith)
        (UserFrame.create_user-Undoes engine)

  pub create_user-but_users :
      (body : Result Users.CreateUserRequest) (db : Db)
      → Same but_users db (create_user engine body db)
  unfolding create_user
  create_user-but_users body db =
      body-part 201 user internal but_users (Users.create_user engine) body db
        (UserFrame.create_user-Keeps engine)

  pub update_user-Harmless :
      (param : Text) (body : Result Users.UpdateUserRequest) (db : Db)
      → Harmless db (update_user engine param body db)
  unfolding update_user
  update_user-Harmless param body db =
      id_body-Harmless 200 user (missing (codes "user not found")) (Users.update_user engine) param
        body invalid_id db (omega arith) (UserFrame.update_user-Undoes engine)

  pub update_user-but_users :
      (param : Text) (body : Result Users.UpdateUserRequest) (db : Db)
      → Same but_users db (update_user engine param body db)
  unfolding update_user
  update_user-but_users param body db =
      id_body-part 200 user (missing (codes "user not found")) but_users (Users.update_user engine)
        param body invalid_id db (UserFrame.update_user-Keeps engine)

  pub login-tables :
      (tokens : TokenManager) (now later : Time) (body : Result Users.LoginRequest) (db : Db)
      → Same (λ t. t) db (login engine tokens now later body db)
  unfolding login
  login-tables tokens now later body db =
      body-part 200 access login_error (λ t. t) (Users.login engine tokens now later) body db
        (UserFrame.login-Keeps engine tokens now later)

  pub get_user-tables : (param : Text) (db : Db) → Same (λ t. t) db (get_user engine param db)
  unfolding get_user
  get_user-tables param db =
      id-part 200 user (missing (codes "user not found")) (λ t. t) (Users.get_user engine) param
        invalid_id db (UserFrame.get_user-Keeps engine)

  pub list_products-tables :
      (query : Result Products.ListProductsRequest) (db : Db)
      → Same (λ t. t) db (list_products engine query db)
  unfolding list_products
  list_products-tables query db =
      body-part 200 products internal (λ t. t) (Products.list_products engine) query db
        (ProductFrame.list_products-Keeps engine)

  pub get_product-tables : (param : Text) (db : Db) → Same (λ t. t) db (get_product engine param db)
  unfolding get_product
  get_product-tables param db =
      id-part 200 product (missing (codes "product not found")) (λ t. t)
        (Products.get_product engine) param invalid_id db (ProductFrame.get_product-Keeps engine)

  pub get_inventory-tables :
      (param : Text) (db : Db) → Same (λ t. t) db (get_inventory engine param db)
  unfolding get_inventory
  get_inventory-tables param db =
      id-part 200 inventory (missing (codes "inventory not found")) (λ t. t)
        (Products.get_inventory engine) param invalid_id db
        (ProductFrame.get_inventory-Keeps engine)

  pub create_product-Harmless :
      (body : Result Products.CreateProductRequest) (db : Db)
      → Harmless db (create_product engine body db)
  unfolding create_product
  create_product-Harmless body db =
      body-Harmless 201 product internal (Products.create_product engine) body db (omega arith)
        (ProductFrame.create_product-Undoes engine)

  pub update_product-Harmless :
      (param : Text) (body : Result Products.UpdateProductRequest) (db : Db)
      → Harmless db (update_product engine param body db)
  unfolding update_product
  update_product-Harmless param body db =
      id_body-Harmless 200 product (missing (codes "product not found"))
        (Products.update_product engine) param body invalid_id db (omega arith)
        (ProductFrame.update_product-Undoes engine)

module _ {S Q : Type 0} (engine : Engine) (store : Store S) (processor : OrderProcessor Q)
    (hash : Text → Text) (float : Arithmetic) where
  -- An order that is refused has changed no table and queued nothing.
  abbrev pub OrderHarmless : World S Q → Response × World S Q → Type 0
  OrderHarmless w (response, w') =
      400 ≤ response.status → (w'.db.tables ≡ w.db.tables) × (w'.queue ≡ w.queue)

  answer_order-OrderHarmless :
      (w : World S Q) (p : Result OrderResponse × World S Q)
      → Framed engine store processor hash float w p
      → OrderHarmless w (answer_order engine store processor hash float p)
  answer_order-OrderHarmless w (ok resp, w') h refused = absurd (omega (arith, refused))
  answer_order-OrderHarmless w (err e, w') h refused = h

  answer_order-world :
      (p : Result OrderResponse × World S Q)
      → (answer_order engine store processor hash float p).1 ≡ p.1
  answer_order-world (ok resp, w') = refl
  answer_order-world (err e, w') = refl

  pub create_order-OrderHarmless :
      (uuid : Text) (claims : Claims) (body : Result (List OrderItemRequest)) (w : World S Q)
      → OrderHarmless w (create_order engine store processor hash float uuid claims body w)
  unfolding create_order
  create_order-OrderHarmless uuid claims (err e) w = λ refused. (refl, refl)
  create_order-OrderHarmless uuid claims (ok items) w =
      answer_order-OrderHarmless w _
        (create_order-Framed engine store processor hash float uuid claims.user_id items w)

  pub create_order-same_products :
      (uuid : Text) (claims : Claims) (body : Result (List OrderItemRequest)) (w : World S Q)
      → (create_order engine store processor hash float uuid claims body w).1.db.tables.products
        ≡ w.db.tables.products
  unfolding create_order
  create_order-same_products uuid claims (err e) w = refl
  create_order-same_products uuid claims (ok items) w =
      ap (λ (w : World S Q). w.db.tables.products) (answer_order-world _)
      ∙ create_order-products engine store processor hash float uuid claims.user_id items w
