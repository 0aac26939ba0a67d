-- ===== src/Api/Http.antt =====
-- What the handlers answer with. A request's body comes bound and checked by gin, or as the binding's error;
-- a body of JSON is written by gin from the value.
use order_processing_system.Base.{ℕ, none, some, atoi}
use order_processing_system.Base.Int.{pos_part}
use order_processing_system.Models.{Text, Error, Result, ok, err}
use order_processing_system.Database.{Db}
use order_processing_system.Services.User.{UserResponse, LoginResponse}
use order_processing_system.Services.Product.{
  ProductResponse, ListProductsResponse, InventoryResponse,
}
use order_processing_system.Services.Order.{OrderResponse}

pub data Body : Type 0 where
  -- gin.H{"error": ...}: a fixed text, or what err.Error() says
  message : Text → Body
  error : Error → Body
  user : UserResponse → Body
  access : LoginResponse → Body
  product : ProductResponse → Body
  products : ListProductsResponse → Body
  inventory : InventoryResponse → Body
  order : OrderResponse → Body
  -- the connection has become a WebSocket
  upgraded : Body

pub record Response : Type 0 where
  pub status : ℕ
  pub body : Body

abbrev pub respond : ℕ → Body → Response
respond status body = record { status = status; body = body }

-- A result with its status, or what a handler makes of the error.
abbrev pub answer {ℓ} :
    {A : Type ℓ} → ℕ → (A → Body) → (Error → Response) → Result A × Db → Response × Db
answer status show fail (ok a, db) = (respond status (show a), db)
answer status show fail (err e, db) = (fail e, db)

-- http.StatusInternalServerError
abbrev pub internal : Error → Response
internal e = respond 500 (error e)

-- The handler behind ShouldBindJSON.
abbrev pub with_body {ℓ} : {A : Type ℓ} → Result A → (A → Db → Response × Db) → Db → Response × Db
with_body (ok req) handle db = handle req db
with_body (err e) handle db = (respond 400 (error e), db)

-- strconv.Atoi(c.Param("id")). No row has the id zero, so a negative id finds what zero does.
abbrev pub with_id : Text → (ℕ → Db → Response × Db) → Text → Db → Response × Db
with_id param handle invalid db = elim (atoi param) [
  | none ↦ (respond 400 (message invalid), db)
  | some id ↦ handle (pos_part id) db
]
