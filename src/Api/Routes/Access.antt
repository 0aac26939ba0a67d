-- ===== src/Api/Routes/Access.antt =====
-- Who may change what through the routes of internal/api/routes, and that a refused request changes nothing.
use order_processing_system.Base.{◌≤◌, ◌≡◌, refl, ap, ◌⊎◌, inl, inr, arith}
use order_processing_system.Models.{Text, Time, text_eq_sound, admin}
use order_processing_system.Database.{Engine}
use order_processing_system.Auth.{Claims, TokenManager}
use order_processing_system.Services.User.Frame.{but_users}
use order_processing_system.Services.Order.{OrderProcessor, Arithmetic, World}
use order_processing_system.Idempotency.{Store}
use order_processing_system.Api.Http.{Response}
use order_processing_system.Api.Middleware.{
  authenticate, authenticate_admin, require_admin, require_role,
}
use order_processing_system.Api.Handlers as Handlers
use order_processing_system.Api.Handlers.Frame.{
  create_user-Harmless, create_user-but_users, update_user-Harmless, update_user-but_users,
  login-tables, get_user-tables, list_products-tables, get_product-tables, get_inventory-tables,
  create_product-Harmless, update_product-Harmless, create_order-OrderHarmless,
  create_order-same_products,
}
use order_processing_system.Api.Routes.{
  Call, login, create_user, get_user, update_user, list_products, get_product, get_inventory,
  create_product, update_product, create_order, no_route, no_method, Request, guarded, on_db,
  dispatch,
}

who-cases :
    (who : Response ⊎ Claims)
    → ((refusal : Response) × (who ≡ inl refusal)) ⊎ ((claims : Claims) × (who ≡ inr claims))
who-cases (inl refusal) = inl (refusal, refl)
who-cases (inr claims) = inr (claims, refl)

module _ {S Q : Type 0} (engine : Engine) (tokens : TokenManager) (store : Store S)
    (processor : OrderProcessor Q) (hash : Text → Text) (float : Arithmetic) where
  -- A response of an error has changed no table and queued no order.
  abbrev Refuses : World S Q → Response × World S Q → Type 0
  Refuses w p = 400 ≤ p.0.status → (p.1.db.tables ≡ w.db.tables) × (p.1.queue ≡ w.queue)

  guarded-Refuses :
      (who : Response ⊎ Claims) (handle : Claims → World S Q → Response × World S Q) (w : World S Q)
      → ((claims : Claims) → Refuses w (handle claims w))
      → Refuses w (guarded who handle w)
  guarded-Refuses (inl refusal) handle w h = λ refused. (refl, refl)
  guarded-Refuses (inr claims) handle w h = h claims

  dispatch-Refuses :
      (req : Request) (call : Call) (w : World S Q)
      → Refuses w (dispatch engine tokens store processor hash float req call w)
  unfolding dispatch
  dispatch-Refuses req (login body) w =
      λ refused. (login-tables engine tokens req.arrived req.later body w.db, refl)
  dispatch-Refuses req (create_user body) w =
      λ refused. (create_user-Harmless engine body w.db refused, refl)
  dispatch-Refuses req (get_user param) w = λ refused. (get_user-tables engine param w.db, refl)
  dispatch-Refuses req (update_user param body) w =
      λ refused. (update_user-Harmless engine param body w.db refused, refl)
  dispatch-Refuses req (list_products query) w =
      λ refused. (list_products-tables engine query w.db, refl)
  dispatch-Refuses req (get_product param) w =
      λ refused. (get_product-tables engine param w.db, refl)
  dispatch-Refuses req (get_inventory param) w =
      λ refused. (get_inventory-tables engine param w.db, refl)
  dispatch-Refuses req (create_product body) w =
      guarded-Refuses (authenticate_admin tokens req.arrived req.authorization)
        (λ _. on_db engine tokens store processor hash float (Handlers.create_product engine body))
        w (λ claims refused. (create_product-Harmless engine body w.db refused, refl))
  dispatch-Refuses req (update_product param body) w =
      guarded-Refuses (authenticate_admin tokens req.arrived req.authorization)
        (λ _.
          on_db engine tokens store processor hash float
            (Handlers.update_product engine param body))
        w (λ claims refused. (update_product-Harmless engine param body w.db refused, refl))
  dispatch-Refuses req (create_order body) w =
      guarded-Refuses (authenticate tokens req.arrived req.authorization)
        (λ claims. Handlers.create_order engine store processor hash float req.uuid claims body) w
        (λ claims.
          create_order-OrderHarmless engine store processor hash float req.uuid claims body w)
  dispatch-Refuses req no_route w = λ refused. (refl, refl)
  dispatch-Refuses req no_method w = λ refused. (refl, refl)

  -- A call of the API that is answered with a status of at least 400 has changed no table and
  -- queued no order, whatever the database, the store and the body do.
  pub dispatch_refused :
      (req : Request) (call : Call) (w : World S Q)
      → 400 ≤ (dispatch engine tokens store processor hash float req call w).0.status
      → let w' = (dispatch engine tokens store processor hash float req call w).1 in
        (w'.db.tables ≡ w.db.tables) × (w'.queue ≡ w.queue)
  dispatch_refused req call w refused = dispatch-Refuses req call w refused

  -- What a change to the products, or to any table but the users, says of the caller.
  abbrev pub Entitled : Request → World S Q → World S Q → Type 0
  Entitled req w w' =
      ((claims : Claims) × (authenticate tokens req.arrived req.authorization ≡ inr claims)
        × ((claims.role ≡ admin) ⊎ (w'.db.tables.products ≡ w.db.tables.products)))
      ⊎ ((but_users w'.db.tables ≡ but_users w.db.tables)
          × (w'.store ≡ w.store)
          × (w'.queue ≡ w.queue))

  admin-Claims :
      (now : Time) (header : Text) (claims : Claims)
      → authenticate_admin tokens now header ≡ inr claims
      → (authenticate tokens now header ≡ inr claims) × (claims.role ≡ admin)
  unfolding authenticate_admin require_admin require_role
  admin-Claims now header claims e = elim (who-cases (authenticate tokens now header)) [
    | inl (refusal, out) ↦ ground (arith, out, e)
    | inr (c, who) ↦ ground (arith, who, e, text_eq_sound c.role admin)
  ]

  guarded-Entitled :
      (req : Request) (who : Response ⊎ Claims) (handle : Claims → World S Q → Response × World S Q)
      (w : World S Q)
      → ((claims : Claims) → who ≡ inr claims → Entitled req w (handle claims w).1)
      → Entitled req w (guarded who handle w).1
  guarded-Entitled req (inl refusal) handle w h = inr (refl, refl, refl)
  guarded-Entitled req (inr claims) handle w h = h claims refl

  -- Whoever calls the API, whatever the body and the database do: either the request carries a
  -- valid token, and only one of an admin can change the products, or nothing has changed but the
  -- users, no key is reserved and nothing is queued.
  pub dispatch-Entitled :
      (req : Request) (call : Call) (w : World S Q)
      → Entitled req w (dispatch engine tokens store processor hash float req call w).1
  unfolding dispatch
  dispatch-Entitled req (login body) w =
      inr (ap but_users (login-tables engine tokens req.arrived req.later body w.db), refl, refl)
  dispatch-Entitled req (create_user body) w =
      inr (create_user-but_users engine body w.db, refl, refl)
  dispatch-Entitled req (get_user param) w =
      inr (ap but_users (get_user-tables engine param w.db), refl, refl)
  dispatch-Entitled req (update_user param body) w =
      inr (update_user-but_users engine param body w.db, refl, refl)
  dispatch-Entitled req (list_products query) w =
      inr (ap but_users (list_products-tables engine query w.db), refl, refl)
  dispatch-Entitled req (get_product param) w =
      inr (ap but_users (get_product-tables engine param w.db), refl, refl)
  dispatch-Entitled req (get_inventory param) w =
      inr (ap but_users (get_inventory-tables engine param w.db), refl, refl)
  dispatch-Entitled req (create_product body) w =
      guarded-Entitled req (authenticate_admin tokens req.arrived req.authorization)
        (λ _. on_db engine tokens store processor hash float (Handlers.create_product engine body))
        w
        (λ claims e.
          let (who, role) = admin-Claims req.arrived req.authorization claims e in
          inl (claims, who, inl role))
  dispatch-Entitled req (update_product param body) w =
      guarded-Entitled req (authenticate_admin tokens req.arrived req.authorization)
        (λ _.
          on_db engine tokens store processor hash float
            (Handlers.update_product engine param body))
        w
        (λ claims e.
          let (who, role) = admin-Claims req.arrived req.authorization claims e in
          inl (claims, who, inl role))
  dispatch-Entitled req (create_order body) w =
      guarded-Entitled req (authenticate tokens req.arrived req.authorization)
        (λ claims. Handlers.create_order engine store processor hash float req.uuid claims body) w
        (λ claims e. inl (
          claims,
          e,
          inr (create_order-same_products engine store processor hash float req.uuid claims body w),
        ))
  dispatch-Entitled req no_route w = inr (refl, refl, refl)
  dispatch-Entitled req no_method w = inr (refl, refl, refl)
