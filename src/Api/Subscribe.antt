-- ===== src/Api/Subscribe.antt =====
-- internal/api/handlers/ws_handler.go: a client subscribes to the notifications of one order. gorilla's
-- Upgrade is a parameter: it says whether the connection was upgraded.
pub mod Ownership
pub mod Replay
mod Tests
use order_processing_system.Base.{
  ℕ, zero, suc, ◌⊎◌, inl, inr, Option, none, some, List, [], ◌∷◌, ◌==◌, if◌then◌else◌, codes, atoi,
  length,
}
use order_processing_system.Base.Int.{ℤ, pos, negsuc}
use order_processing_system.Models.{
  Text, Time, text_eq, Error, order_not_found, Notification, Result, ok, err,
}
use order_processing_system.Database.{Db, Engine}
use order_processing_system.Auth.{Claims, TokenManager}
use order_processing_system.Repository.Order.{get_order_user_id}
use order_processing_system.Repository.Notification.{list_by_order}
use order_processing_system.Services.Notification.{NotificationEvent, new_notification_event}
use order_processing_system.Ws.Hub.{Hub, register, client_send}
use order_processing_system.Api.Http.{Response, respond, message, error, upgraded}

abbrev pub subprotocol_sentinel : Text
subprotocol_sentinel = codes "access_token"

-- tokenFromSubprotocols: what stands behind the first sentinel that has a successor.
unfoldable pub token_from_subprotocols : List Text → Text
token_from_subprotocols [] = []
token_from_subprotocols (p ∷ []) = []
token_from_subprotocols (p ∷ q ∷ rest) =
    let later = token_from_subprotocols (q ∷ rest) in
    if text_eq p subprotocol_sentinel then q else later

-- Step 1
unfoldable pub authenticate_handshake : TokenManager → Time → List Text → Response ⊎ Claims
unfolding token_from_subprotocols
authenticate_handshake tokens now protocols =
    let token = token_from_subprotocols protocols in
    if text_eq token []
    then inl (respond 401 (message (codes "authentication required")))
    else (elim (tokens.parse now token) [
      | err e ↦ inl (respond 401 (message (codes "invalid or expired token")))
      | ok claims ↦ inr claims
    ])

-- Step 2: a positive id
abbrev pub positive : ℤ → Option ℕ
positive (pos zero) = none
positive (pos (suc n)) = some (suc n)
positive (negsuc n) = none

abbrev pub positive_id : Option ℤ → Option ℕ
positive_id none = none
positive_id (some z) = positive z

abbrev pub owner_error : Error → Response
owner_error order_not_found = respond 404 (message (codes "order not found"))
owner_error e = respond 500 (message (codes "could not load order"))

-- Step 3, with the owner that was read
abbrev pub owned : ℕ → Claims → Result ℕ → Option Response
owned order_id claims (err e) = some (owner_error e)
owned order_id claims (ok owner) =
    if owner == claims.user_id then none else some (respond 403 (message (codes "not your order")))

-- Step 5: the loop over the stored notifications. `others` is what other goroutines do to the hub in front
-- of a send, by the notifications that are left.
module _ (json : NotificationEvent → Text) (others : ℕ → Hub → Option Hub) where
  unfoldable pub replay : ℕ → List Notification → Hub → Option Hub
  replay client [] hub = some hub
  replay client (n ∷ notes) hub = elim (others (length notes) hub) [
    | none ↦ none
    | some h ↦ elim (client_send client (json (new_notification_event n)) h) [
      | none ↦ none
      | some h' ↦ replay client notes h'
    ]
  ]

  -- The read's error is only logged.
  unfoldable pub replayed : ℕ → Result (List Notification) → Hub → Option Hub
  unfolding replay
  replayed client (err e) hub = some hub
  replayed client (ok notes) hub = replay client notes hub

  -- Steps 4 and 5 on an upgraded connection; `none` is a panic.
  unfoldable pub open_socket : Engine → ℕ → Db → Hub → Option Hub × Db
  unfolding replayed
  open_socket engine order_id db hub =
      let (r, db') = list_by_order engine order_id db in
      (elim (register order_id hub) [ none ↦ none | some h ↦ replayed hub.next r h ], db')

  -- Step 4: what the upgrade answered. A failed one has written its response.
  unfoldable pub upgrade : Engine → Result (Unit {0}) → ℕ → Db → Hub → Response × Option Hub × Db
  unfolding open_socket
  upgrade engine (err e) order_id db hub = (respond 400 (error e), some hub, db)
  upgrade engine (ok u) order_id db hub =
      let (h, db') = open_socket engine order_id db hub in (respond 101 upgraded, h, db')

  -- Steps 3 to 5
  unfoldable pub authorize :
      Engine → Result (Unit {0}) → Claims → ℕ → Db → Hub → Response × Option Hub × Db
  unfolding upgrade
  authorize engine upgrading claims order_id db hub =
      let (r, db') = get_order_user_id engine order_id db in
      elim (owned order_id claims r) [
        | some refusal ↦ (refusal, some hub, db')
        | none ↦ upgrade engine upgrading order_id db' hub
      ]

  -- Connect
  unfoldable pub connect :
      Engine
      → TokenManager
      → Time
      → Result (Unit {0})
      → List Text
      → Text
      → Db
      → Hub
      → Response × Option Hub × Db
  unfolding authenticate_handshake authorize
  connect engine tokens now upgrading protocols param db hub =
      elim (authenticate_handshake tokens now protocols) [
        | inl refusal ↦ (refusal, some hub, db)
        | inr claims ↦ elim (positive_id (atoi param)) [
          | none ↦ (respond 400 (message (codes "invalid order id")), some hub, db)
          | some order_id ↦ authorize engine upgrading claims order_id db hub
        ]
      ]
