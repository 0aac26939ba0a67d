-- ===== src/Api/Routes/Placing.antt =====
-- What the answer to POST /orders says of the order.
use order_processing_system.Base.{◌≤◌, ◌≡◌, refl, ◌⊎◌, inl, inr, List, arith}
use order_processing_system.Models.{Text, Time, Error, Result, ok, err}
use order_processing_system.Database.{Engine}
use order_processing_system.Auth.{Claims, TokenManager}
use order_processing_system.Repository.Order.Ledger.{Consistent}
use order_processing_system.Services.Order.{
  OrderItemRequest, OrderResponse, OrderProcessor, Arithmetic, World,
}
use order_processing_system.Services.Order as Orders
use order_processing_system.Services.Order.Place.{Accepted}
use order_processing_system.Services.Order.Outcome.{OrderOutcome, create_order-outcome}
use order_processing_system.Idempotency.{Store}
use order_processing_system.Api.Http.{Response, respond, order}
use order_processing_system.Api.Middleware.{authenticate}
use order_processing_system.Api.Handlers.{order_status_of, answer_order}
use order_processing_system.Api.Handlers as Handlers
use order_processing_system.Api.Routes.{create_order, Request, guarded, dispatch}

order_status-error : (e : Error) → 400 ≤ order_status_of e
order_status-error e = ground arith

authenticate-refusal :
    (tokens : TokenManager) (now : Time) (header : Text) (refusal : Response)
    → authenticate tokens now header ≡ inl refusal
    → 400 ≤ refusal.status
unfolding authenticate
authenticate-refusal tokens now header refusal e = ground (arith, e)

module _ {S Q : Type 0} (engine : Engine) (tokens : TokenManager) (store : Store S)
    (processor : OrderProcessor Q) (hash : Text → Text) (float : Arithmetic) where
  -- Either an error's status, or 201 with an accepted order of the caller.
  pub data Answered (req : Request) (items : List OrderItemRequest) (w : World S Q)
      : Response × World S Q → Type 0 where
    declined :
        (response : Response) (w' : World S Q)
        → 400 ≤ response.status
        → Answered req items w (response, w')
    placed :
        (claims : Claims) (resp : OrderResponse) (w' : World S Q)
        → authenticate tokens req.arrived req.authorization ≡ inr claims
        → Accepted processor claims.user_id items w w' resp
        → Answered req items w (respond 201 (order resp), w')

  answer_order-Answered :
      (req : Request) (items : List OrderItemRequest) (claims : Claims) (w : World S Q)
      (p : Result OrderResponse × World S Q)
      → authenticate tokens req.arrived req.authorization ≡ inr claims
      → OrderOutcome engine store processor hash float claims.user_id items w p
      → Answered req items w (answer_order engine store processor hash float p)
  answer_order-Answered req items claims w (ok resp, w') who outcome =
      placed claims resp w' who outcome.0
  answer_order-Answered req items claims w (err e, w') who outcome =
      declined _ w' (order_status-error e)

  guarded-Answered :
      (req : Request) (items : List OrderItemRequest) (w : World S Q) (who : Response ⊎ Claims)
      (handle : Claims → World S Q → Response × World S Q)
      → ((refusal : Response) → who ≡ inl refusal → 400 ≤ refusal.status)
      → ((claims : Claims) → who ≡ inr claims → Answered req items w (handle claims w))
      → Answered req items w (guarded who handle w)
  guarded-Answered req items w (inl refusal) handle low h = declined refusal w (low refusal refl)
  guarded-Answered req items w (inr claims) handle low h = h claims refl

  -- On consistent tables POST /orders with a bound body either answers with a status of at least
  -- 400, or with 201 and an order that was accepted for the user of the request's valid token: the
  -- cart's units have left the stock, the order is new, pending and queued, and is the one in the
  -- response.
  pub dispatch-Answered :
      (req : Request) (items : List OrderItemRequest) (w : World S Q)
      → Consistent w.db.tables w.db.seq
      → Answered req items w
          (dispatch engine tokens store processor hash float req (create_order (ok items)) w)
  unfolding dispatch Handlers.create_order
  dispatch-Answered req items w c =
      guarded-Answered req items w (authenticate tokens req.arrived req.authorization)
        (λ claims.
          Handlers.create_order engine store processor hash float req.uuid claims (ok items))
        (authenticate-refusal tokens req.arrived req.authorization)
        (λ claims who.
          answer_order-Answered req items claims w
            (Orders.create_order engine store processor hash float req.uuid claims.user_id items w)
            who
            (create_order-outcome engine store processor hash float req.uuid claims.user_id items w
              c))
