-- ===== src/Api/Tests.antt =====
-- A small shop behind its API, with a toy of the JWT library, and the theorems on internal/api at it.
use order_processing_system.Base.{
  ℕ, ◌*◌, ◌+◌, ◌≤◌, ◌<◌, ◌≡◌, ◌≢◌, refl, sym, ap, ◌∙◌, inr, Bool, true, ◌&&◌, none, some, List, [],
  ◌∷◌, ◌++◌, ◌==◌, ltb, All, if◌then◌else◌, arith, codes, itoa, subst,
}
use order_processing_system.Base.Int.{pos}
use order_processing_system.Models.{
  Text, Time, User, OrderStatus, NotificationStatus, admin, text_eq, text_eq_sound, driver,
  invalid_credentials, Result, ok, err,
}
use order_processing_system.Database.{Engine, Db}
use order_processing_system.Auth.{
  Claims, TokenManager, second, IsVisible, JwtLibrary, generate, jwt_manager,
}
use order_processing_system.Repository.User.{get_user_by_email}
use order_processing_system.Repository.Order.Ledger.{Consistent}
use order_processing_system.Services.User.{LoginRequest, LoginResponse, check_password}
use order_processing_system.Services.User as Users
use order_processing_system.Services.User.Session.{account}
use order_processing_system.Services.Order.{OrderItemRequest, OrderProcessor, Arithmetic, World}
use order_processing_system.Idempotency.{noop_store}
use order_processing_system.Api.Http.{error, respond}
use order_processing_system.Api.Middleware.{authenticate, bearer}
use order_processing_system.Api.Middleware.Bearer.{bearer_header}
use order_processing_system.Api.Handlers as Handlers
use order_processing_system.Api.Handlers.Login.{login-authenticate, login-refusal}
use order_processing_system.Api.Routes.{create_order, Request, dispatch}
use order_processing_system.Api.Routes.Access.{Entitled, dispatch_refused, dispatch-Entitled}
use order_processing_system.Api.Routes.Placing.{Answered, dispatch-Answered}

abbrev secret : Text
secret = codes "s3cret"

-- The one session of the tests: user 1, an admin, from the first hour on.
abbrev session : Claims
session = record {
  user_id = 1;
  role = admin;
  subject = codes "1";
  issued_at = 0;
  expires_at = 3600;
}

abbrev is_session : Claims → Bool
is_session c =
    c.user_id == 1
    && text_eq c.role admin
    && text_eq c.subject (codes "1")
    && c.issued_at == 0
    && c.expires_at == 3600

is_session_sound : (c : Claims) → is_session c ≡ true → c ≡ session
is_session_sound c h =
    let r = text_eq_sound c.role admin in
    let s = text_eq_sound c.subject (codes "1") in ground (arith, h, r, s)

abbrev toy_sign : Text → Claims → Result Text
toy_sign key claims =
    if is_session claims && text_eq key secret then ok (codes "tok") else err (driver 2)

abbrev toy_parse : Time → Text → (Bool → Result Text) → Result Claims
toy_parse now token key = elim (key true) [
  | err e ↦ err e
  | ok s ↦
      if text_eq token (codes "tok") && text_eq s secret && ltb now (3600 * second)
      then ok session
      else err (driver 3)
]

signed_parts :
    (b c : Bool) (t token : Text)
    → (if b && c then ok t else err (driver 2)) ≡ ok token
    → (b ≡ true) × (c ≡ true) × (t ≡ token)
signed_parts b c t token e = ground (arith, e)

toy_parse_live :
    (key : Text) (now : Time) (ask : Bool → Result Text)
    → text_eq key secret ≡ true
    → ask true ≡ ok key
    → now < 3600 * second
    → toy_parse now (codes "tok") ask ≡ ok session
toy_parse_live key now ask keyed gives live = ground (arith, keyed, gives, live)

toy_sign-toy_parse :
    (key token : Text) (claims : Claims) (now : Time) (ask : Bool → Result Text)
    → toy_sign key claims ≡ ok token
    → ask true ≡ ok key
    → now < claims.expires_at * second
    → toy_parse now token ask ≡ ok claims
toy_sign-toy_parse key token claims now ask signed gives live =
    let (fits, keyed, same) =
      signed_parts (is_session claims) (text_eq key secret) (codes "tok") token signed in
    let which = is_session_sound claims fits in
    let soon = subst (λ (c : Claims). now < c.expires_at * second) which live in
    subst (λ t. toy_parse now t ask ≡ ok claims) same
      (toy_parse_live key now ask keyed gives soon ∙ ap ok (sym which))

toy_sign-IsVisible :
    (key token : Text) (claims : Claims)
    → toy_sign key claims ≡ ok token
    → (token ≢ []) × All IsVisible token
toy_sign-IsVisible key token claims signed =
    let (fits, keyed, same) =
      signed_parts (is_session claims) (text_eq key secret) (codes "tok") token signed in
    let there : codes "tok" ≢ [] = λ e. cc in
    subst (λ t. (t ≢ []) × All IsVisible t) same
      (there, (omega arith, (omega arith, (omega arith, tt))))

abbrev toy_jwt : JwtLibrary
toy_jwt = record {
  sign = toy_sign;
  parse_with_claims = toy_parse;
  sign_parse = toy_sign-toy_parse;
  sign_visible = toy_sign-IsVisible;
}

abbrev calm : Engine
calm = record { fault = λ n. none; clock = λ n. n; numeric = some }

abbrev ann : User
ann = record {
  id = 1;
  name = codes "Ann";
  email = codes "ann@x";
  password = codes "pw";
  role = admin;
  created_at = 0;
  updated_at = 0;
}

abbrev shop : Db
shop = record {
  tables = record {
    users = ann ∷ [];
    products = [];
    inventory = record { id = 1; product_id = 7; quantity = 10; updated_at = 0 } ∷ [];
    orders =
        record {
          id = 1;
          user_id = 1;
          status = OrderStatus.pending;
          total_price = 2;
          items = [];
          created_at = 0;
          updated_at = 0;
        }
        ∷ [];
    order_items = [];
    payments = [];
    notifications =
        record {
          id = 1;
          order_id = 1;
          message = codes "confirmed";
          status = NotificationStatus.pending;
          created_at = 0;
          sent_at = none;
        }
        ∷ [];
  };
  seq = record {
    user = 2;
    product = 8;
    inventory = 2;
    order = 2;
    order_item = 1;
    payment = 1;
    notification = 2;
  };
  calls = 0;
}

shop-Consistent : Consistent shop.tables shop.seq
shop-Consistent = record {
  orders_old = (omega arith, tt);
  items_old = tt;
  payments_old = tt;
  distinct = tt;
  agreement = tt;
  one_shelf = λ p. ground arith;
  shelved = tt;
}

abbrev tokens : TokenManager
tokens = jwt_manager toy_jwt secret (pos (3600 * second))

abbrev opening : World (Unit {0}) (List ℕ)
opening = record { db = shop; store = tt; queue = [] }

abbrev line_up : OrderProcessor (List ℕ)
line_up = record { process = λ id q. q ++ (id ∷ []) }

abbrev whole_numbers : Arithmetic
whole_numbers = record { times = λ a n. a + n; plus = λ a b. a + b }

abbrev plain : Text → Text
plain s = s

abbrev ask : Request
ask = record { authorization = codes "Bearer tok"; arrived = 5; later = 6; uuid = 9 ∷ [] }

abbrev seven : OrderItemRequest
seven = record { product_id = 7; quantity = 4 }

abbrev credentials : LoginRequest
credentials = record { email = codes "ann@x"; password = codes "pw" }

abbrev granted : LoginResponse
granted = record { access_token = codes "tok"; token_type = codes "Bearer"; expires_in = pos 3600 }

login-granted : (Users.login calm tokens 0 0 credentials shop).0 ≡ ok granted
unfolding Users.login check_password get_user_by_email jwt_manager generate itoa
login-granted = refl

login-authenticate_example :
    (user : User) × (account (codes "ann@x") shop ≡ some user)
    × (user.password ≡ codes "pw")
    × (claims : Claims) × (authenticate tokens 7 (bearer_header (codes "tok")) ≡ inr claims)
    × (claims.user_id ≡ user.id)
    × (claims.role ≡ user.role)
login-authenticate_example =
    login-authenticate toy_jwt secret (pos (3600 * second)) calm 0 0 7 credentials shop granted
      login-granted (omega arith)

login-refusal_example :
    (Handlers.login calm tokens 0 0
      (ok (record { email = codes "bob@x"; password = codes "pw" }))
      shop).0
    ≡ respond 401 (error invalid_credentials)
login-refusal_example =
    login-refusal calm tokens 0 0 (record { email = codes "bob@x"; password = codes "pw" }) shop
      refl (λ user found. absurd cc)

-- A request without a header.
abbrev nobody : Request
nobody = record { authorization = []; arrived = 5; later = 6; uuid = 9 ∷ [] }

nobody_status :
    400
    ≤ (dispatch calm tokens noop_store line_up plain whole_numbers nobody
        (create_order (ok (seven ∷ [])))
        opening).0.status
unfolding dispatch authenticate bearer
nobody_status = omega arith

dispatch_refused_example :
    let w =
      (dispatch calm tokens noop_store line_up plain whole_numbers nobody
        (create_order (ok (seven ∷ [])))
        opening).1 in
    (w.db.tables ≡ shop.tables) × (w.queue ≡ [])
dispatch_refused_example =
    dispatch_refused calm tokens noop_store line_up plain whole_numbers nobody
      (create_order (ok (seven ∷ []))) opening nobody_status

dispatch-Entitled_example :
    Entitled calm tokens noop_store line_up plain whole_numbers ask opening
      (dispatch calm tokens noop_store line_up plain whole_numbers ask
        (create_order (ok (seven ∷ [])))
        opening).1
dispatch-Entitled_example =
    dispatch-Entitled calm tokens noop_store line_up plain whole_numbers ask
      (create_order (ok (seven ∷ []))) opening

dispatch-Answered_example :
    Answered calm tokens noop_store line_up plain whole_numbers ask (seven ∷ []) opening (
      dispatch calm tokens noop_store line_up plain whole_numbers ask
        (create_order (ok (seven ∷ [])))
        opening)
dispatch-Answered_example =
    dispatch-Answered calm tokens noop_store line_up plain whole_numbers ask (seven ∷ []) opening
      shop-Consistent
