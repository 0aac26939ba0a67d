-- ===== src/Api/Handlers.antt =====
-- internal/api/handlers: the handlers of users, products and orders.
pub mod Frame
pub mod Login
use order_processing_system.Base.{ℕ, List, codes}
use order_processing_system.Models.{
  Text, Time, Error, record_not_found, invalid_credentials, product_not_found, insufficient_stock,
  duplicate_order, duplicate_line_item, user_not_found, Result, ok, err,
}
use order_processing_system.Database.{Db, Engine}
use order_processing_system.Auth.{TokenManager, Claims}
use order_processing_system.Services.User as Users
use order_processing_system.Services.Product as Products
use order_processing_system.Services.Order.{OrderItemRequest, OrderProcessor, Arithmetic, World}
use order_processing_system.Services.Order as Orders
use order_processing_system.Idempotency.{Store}
use order_processing_system.Api.Http.{
  message, error, user, access, product, products, inventory, order, Response, respond, answer,
  internal, with_body, with_id,
}

abbrev pub invalid_id : Text
invalid_id = codes "invalid id"

-- 404 with the text for a row that is not there, 500 for all else
abbrev pub missing : Text → Error → Response
missing text record_not_found = respond 404 (message text)
missing text e = internal e

abbrev pub login_error : Error → Response
login_error invalid_credentials = respond 401 (error invalid_credentials)
login_error e = internal e

-- writeOrderError
abbrev pub order_status_of : Error → ℕ
order_status_of (product_not_found id) = 404
order_status_of (insufficient_stock id) = 409
order_status_of duplicate_order = 409
order_status_of duplicate_line_item = 400
order_status_of user_not_found = 400
order_status_of e = 500

abbrev pub write_order_error : Error → Response
write_order_error e = respond (order_status_of e) (error e)

module _ (engine : Engine) where
  unfoldable pub create_user : Result Users.CreateUserRequest → Db → Response × Db
  create_user body =
      with_body body (λ req db. answer 201 user internal (Users.create_user engine req db))

  unfoldable pub login : TokenManager → Time → Time → Result Users.LoginRequest → Db → Response × Db
  login tokens now later body =
      with_body body
        (λ req db. answer 200 access login_error (Users.login engine tokens now later req db))

  unfoldable pub get_user : Text → Db → Response × Db
  get_user param =
      with_id param
        (λ id db. answer 200 user (missing (codes "user not found")) (Users.get_user engine id db))
        invalid_id

  unfoldable pub update_user : Text → Result Users.UpdateUserRequest → Db → Response × Db
  update_user param body =
      with_id param
        (λ id. with_body body (λ req db.
          answer 200 user (missing (codes "user not found")) (Users.update_user engine id req db)))
        invalid_id

  unfoldable pub list_products : Result Products.ListProductsRequest → Db → Response × Db
  list_products query =
      with_body query
        (λ req db. answer 200 products internal (Products.list_products engine req db))

  unfoldable pub create_product : Result Products.CreateProductRequest → Db → Response × Db
  create_product body =
      with_body body (λ req db. answer 201 product internal (Products.create_product engine req db))

  unfoldable pub update_product : Text → Result Products.UpdateProductRequest → Db → Response × Db
  update_product param body =
      with_id param
        (λ id. with_body body (λ req db.
          answer 200 product (missing (codes "product not found"))
            (Products.update_product engine id req db)))
        invalid_id

  unfoldable pub get_inventory : Text → Db → Response × Db
  get_inventory param =
      with_id param
        (λ id db.
          answer 200 inventory (missing (codes "inventory not found"))
            (Products.get_inventory engine id db))
        invalid_id

  unfoldable pub get_product : Text → Db → Response × Db
  get_product param =
      with_id param
        (λ id db.
          answer 200 product (missing (codes "product not found"))
            (Products.get_product engine id db))
        invalid_id

-- Create of the order handler; `claims` is what the middleware stored.
module _ {S Q : Type 0} (engine : Engine) (store : Store S) (processor : OrderProcessor Q)
    (hash : Text → Text) (float : Arithmetic) where
  -- The response to the service's result.
  abbrev pub answer_order : Result Orders.OrderResponse × World S Q → Response × World S Q
  answer_order (ok resp, w) = (respond 201 (order resp), w)
  answer_order (err e, w) = (write_order_error e, w)

  unfoldable pub create_order :
      Text → Claims → Result (List OrderItemRequest) → World S Q → Response × World S Q
  create_order uuid claims (err e) w = (respond 400 (error e), w)
  create_order uuid claims (ok items) w =
      answer_order
        (Orders.create_order engine store processor hash float uuid claims.user_id items w)
