-- ===== src/Api/Subscribe/Tests.antt =====
-- A caller with a token, and the theorems on internal/api/handlers/ws_handler.go at it.
use order_processing_system.Base.{◌≡◌, refl, none, some, List, [], ◌∷◌, codes}
use order_processing_system.Models.{Text, OrderStatus, NotificationStatus, driver, ok, err}
use order_processing_system.Database.{Db, Engine}
use order_processing_system.Auth.{TokenManager}
use order_processing_system.Services.Notification.{NotificationEvent}
use order_processing_system.Ws.Hub.{Hub, new_hub}
use order_processing_system.Api.Subscribe.{connect, open_socket}
use order_processing_system.Api.Subscribe.Ownership.{Admitted, Answer, connect-Admitted}
use order_processing_system.Api.Subscribe.Replay.{quiet, Subscribed, open_socket-Subscribed}

abbrev calm : Engine
calm = record { fault = λ n. none; clock = λ n. n; numeric = some }

-- Every token is user 1's.
abbrev trusting : TokenManager
trusting = record {
  generate = λ now id role. err (driver 1);
  parse = λ now token.
      ok (record { user_id = 1; role = []; subject = []; issued_at = 0; expires_at = 0 });
}

abbrev json : NotificationEvent → Text
json e = e.message

abbrev shop : Db
shop = record {
  tables = record {
    users = [];
    products = [];
    inventory = [];
    orders =
        record {
          id = 1;
          user_id = 1;
          status = OrderStatus.confirmed;
          total_price = 2;
          items = [];
          created_at = 0;
          updated_at = 0;
        }
        ∷ [];
    order_items = [];
    payments = [];
    notifications =
        record {
          id = 1;
          order_id = 1;
          message = codes "confirmed";
          status = NotificationStatus.pending;
          created_at = 0;
          sent_at = none;
        }
        ∷ [];
  };
  seq = record {
    user = 2;
    product = 1;
    inventory = 1;
    order = 2;
    order_item = 1;
    payment = 1;
    notification = 2;
  };
  calls = 0;
}

abbrev offered : List Text
offered = codes "access_token" ∷ codes "tok" ∷ []

connect-Admitted_example :
    Answer json
      (quiet json)
      calm
      (Admitted trusting 5 offered (codes "1") shop)
      shop
      new_hub
      (connect json (quiet json) calm trusting 5 (ok tt) offered (codes "1") shop new_hub)
connect-Admitted_example =
    connect-Admitted json (quiet json) calm trusting 5 (ok tt) offered (codes "1") shop new_hub

open_socket-Subscribed_example :
    (h' : Hub) × ((open_socket json (quiet json) calm 1 shop new_hub).0 ≡ some h')
    × Subscribed json 1 shop new_hub h'
open_socket-Subscribed_example = open_socket-Subscribed json calm 1 shop new_hub refl refl
