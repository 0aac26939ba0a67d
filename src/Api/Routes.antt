-- ===== src/Api/Routes.antt =====
-- internal/api/routes: which handler and which middleware stand behind each route. gin matches method and path;
-- a call is a route that it has matched, with the path's parameter and the bound body or query. The
-- subscription of a WebSocket has its own module.
pub mod Access
pub mod Placing
use order_processing_system.Base.{◌⊎◌, inl, inr, List, codes}
use order_processing_system.Models.{Text, Time, Result}
use order_processing_system.Database.{Db, Engine}
use order_processing_system.Auth.{TokenManager, Claims}
use order_processing_system.Services.User.{CreateUserRequest, UpdateUserRequest, LoginRequest}
use order_processing_system.Services.Product.{
  ListProductsRequest, CreateProductRequest, UpdateProductRequest,
}
use order_processing_system.Services.Order.{OrderItemRequest, OrderProcessor, Arithmetic, World}
use order_processing_system.Idempotency.{Store}
use order_processing_system.Api.Http.{Response, respond, message}
use order_processing_system.Api.Middleware.{authenticate, authenticate_admin}
use order_processing_system.Api.Handlers as Handlers

pub data Call : Type 0 where
  -- registerAuthRoutes, registerUserRoutes
  login : Result LoginRequest → Call
  create_user : Result CreateUserRequest → Call
  get_user : Text → Call
  update_user : Text → Result UpdateUserRequest → Call
  -- registerProductRoutes
  list_products : Result ListProductsRequest → Call
  get_product get_inventory : Text → Call
  create_product : Result CreateProductRequest → Call
  update_product : Text → Result UpdateProductRequest → Call
  -- registerOrderRoutes
  create_order : Result (List OrderItemRequest) → Call
  -- registerFallbacks
  no_route no_method : Call

-- The header, the clock's readings in front of the handler and behind it, and the uuid that the order
-- service would draw.
pub record Request : Type 0 where
  pub authorization : Text
  pub arrived : Time
  pub later : Time
  pub uuid : Text

-- A chain of middleware in front of a handler.
abbrev pub guarded {ℓ} :
    {W : Type ℓ} → Response ⊎ Claims → (Claims → W → Response × W) → W → Response × W
guarded (inl refusal) handle w = (refusal, w)
guarded (inr claims) handle w = handle claims w

module _ {S Q : Type 0} (engine : Engine) (tokens : TokenManager) (store : Store S)
    (processor : OrderProcessor Q) (hash : Text → Text) (float : Arithmetic) where
  -- A handler that works on the database alone.
  abbrev pub on_db : (Db → Response × Db) → World S Q → Response × World S Q
  on_db handle w = let (response, db) = handle w.db in (response, record w { db = db })

  unfoldable pub dispatch : Request → Call → World S Q → Response × World S Q
  dispatch req (login body) w = on_db (Handlers.login engine tokens req.arrived req.later body) w
  dispatch req (create_user body) w = on_db (Handlers.create_user engine body) w
  dispatch req (get_user param) w = on_db (Handlers.get_user engine param) w
  dispatch req (update_user param body) w = on_db (Handlers.update_user engine param body) w
  dispatch req (list_products query) w = on_db (Handlers.list_products engine query) w
  dispatch req (get_product param) w = on_db (Handlers.get_product engine param) w
  dispatch req (get_inventory param) w = on_db (Handlers.get_inventory engine param) w
  dispatch req (create_product body) w =
      guarded (authenticate_admin tokens req.arrived req.authorization)
        (λ _. on_db (Handlers.create_product engine body)) w
  dispatch req (update_product param body) w =
      guarded (authenticate_admin tokens req.arrived req.authorization)
        (λ _. on_db (Handlers.update_product engine param body)) w
  dispatch req (create_order body) w =
      guarded (authenticate tokens req.arrived req.authorization)
        (λ claims. Handlers.create_order engine store processor hash float req.uuid claims body) w
  dispatch req no_route w = (respond 404 (message (codes "route not found")), w)
  dispatch req no_method w = (respond 405 (message (codes "method not allowed")), w)
