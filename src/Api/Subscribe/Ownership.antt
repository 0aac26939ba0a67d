-- ===== src/Api/Subscribe/Ownership.antt =====
-- Who gets a WebSocket from Connect of internal/api/handlers/ws_handler.go.
use order_processing_system.Base.{
  ℕ, zero, suc, ◌≤◌, ◌≡◌, refl, sym, ap, ◌∙◌, ◌⊎◌, inl, inr, Option, none, some, List, ◌==◌, arith,
  atoi, codes, subst, find, Option-cases,
}
use order_processing_system.Base.Int.{ℤ, pos, negsuc}
use order_processing_system.Models.{Text, Time, Order, Result, ok, err, Result-cases}
use order_processing_system.Database.{Db, Tables, Engine}
use order_processing_system.Auth.{Claims, TokenManager}
use order_processing_system.Repository.Order.{get_order_user_id}
use order_processing_system.Repository.Notification.{list_by_order}
use order_processing_system.Services.Notification.{NotificationEvent}
use order_processing_system.Ws.Hub.{Hub}
use order_processing_system.Api.Http.{Response, respond, message, upgraded}
use order_processing_system.Api.Subscribe.{
  token_from_subprotocols, authenticate_handshake, positive_id, owned, open_socket, upgrade,
  authorize, connect,
}

abbrev pub Owns : Tables → ℕ → ℕ → Type 0
Owns t user id =
    (order : Order) × (find (λ (o : Order). o.id == id) t.orders ≡ some order)
    × (order.user_id ≡ user)

-- The caller's token names the owner of the order in the path, and the connection was upgraded.
pub record Admitted (tokens : TokenManager) (now : Time) (protocols : List Text) (param : Text)
    (db : Db) : Type 0 where
  pub claims : Claims
  pub order_id : ℕ
  pub token : tokens.parse now (token_from_subprotocols protocols) ≡ ok claims
  pub path : atoi param ≡ some (pos order_id)
  pub owner : Owns db.tables claims.user_id order_id

owner-tables :
    (engine : Engine) (id : ℕ) (db : Db) → (get_order_user_id engine id db).1.tables ≡ db.tables
unfolding get_order_user_id
owner-tables engine id db = ground arith

owner-Owns :
    (engine : Engine) (id user : ℕ) (db : Db)
    → (get_order_user_id engine id db).0 ≡ ok user
    → Owns db.tables user id
unfolding get_order_user_id
owner-Owns engine id user db e =
    elim (Option-cases (find (λ (o : Order). o.id == id) db.tables.orders)) [
      | inl gone ↦ ground (arith, gone, e)
      | inr (order, found) ↦ (order, found, ground (arith, found, e))
    ]

positive_pos : (z : ℤ) (n : ℕ) → positive_id (some z) ≡ some n → (z ≡ pos n) × (1 ≤ n)
positive_pos (pos zero) n e = absurd cc
positive_pos (pos (suc m)) n e = ground (arith, e)
positive_pos (negsuc m) n e = absurd cc

module _ (json : NotificationEvent → Text) (others : ℕ → Hub → Option Hub) (engine : Engine) where
  open_socket-tables :
      (order_id : ℕ) (db : Db) (hub : Hub)
      → (open_socket json others engine order_id db hub).1.tables ≡ db.tables
  unfolding open_socket list_by_order
  open_socket-tables order_id db hub = ground arith

  -- A refusal leaves the hub as it was; otherwise the connection was upgraded, and P holds.
  abbrev pub Answer : Type 0 → Db → Hub → Response × Option Hub × Db → Type 0
  Answer P db hub p =
      (p.2.tables ≡ db.tables)
      × (((400 ≤ p.0.status) × (p.1 ≡ some hub)) ⊎ ((p.0 ≡ respond 101 upgraded) × P))

  upgrade-Answer :
      (upgrading : Result (Unit {0})) (order_id : ℕ) (db : Db) (hub : Hub)
      → Answer Unit db hub (upgrade json others engine upgrading order_id db hub)
  unfolding upgrade
  upgrade-Answer (err e) order_id db hub = (refl, inl (omega arith, refl))
  upgrade-Answer (ok u) order_id db hub = (open_socket-tables order_id db hub, inr (refl, tt))

  Answer-map :
      {P Q : Type 0} (before db : Db) (hub : Hub) (p : Response × Option Hub × Db)
      → before.tables ≡ db.tables
      → (P → Q)
      → Answer P before hub p
      → Answer Q db hub p
  Answer-map before db hub (response, h, db') same f (t, inl refused) = (t ∙ same, inl refused)
  Answer-map before db hub (response, h, db') same f (t, inr (up, x)) = (t ∙ same, inr (up, f x))

  -- What follows the owner's check, which refuses or lets through.
  checked : Result (Unit {0}) → ℕ → Hub → Option Response → Db → Response × Option Hub × Db
  checked upgrading order_id hub (some refusal) db = (refusal, some hub, db)
  checked upgrading order_id hub none db = upgrade json others engine upgrading order_id db hub

  checked-Answer :
      {P : Type 0} (upgrading : Result (Unit {0})) (order_id : ℕ) (hub : Hub) (o : Option Response)
      (before db : Db)
      → before.tables ≡ db.tables
      → ((refusal : Response) → o ≡ some refusal → 400 ≤ refusal.status)
      → (o ≡ none → P)
      → Answer P db hub (checked upgrading order_id hub o before)
  unfolding checked
  checked-Answer upgrading order_id hub (some refusal) before db same low free =
      (same, inl (low refusal refl, refl))
  checked-Answer upgrading order_id hub none before db same low free =
      Answer-map before db hub (upgrade json others engine upgrading order_id before hub) same
        (λ u. free refl) (upgrade-Answer upgrading order_id before hub)

  owned-refusal :
      (order_id : ℕ) (claims : Claims) (r : Result ℕ) (refusal : Response)
      → owned order_id claims r ≡ some refusal
      → 400 ≤ refusal.status
  owned-refusal order_id claims (err e) refusal h = ground (arith, h)
  owned-refusal order_id claims (ok user) refusal h = ground (arith, h)

  owned-ok :
      (order_id : ℕ) (claims : Claims) (r : Result ℕ)
      → owned order_id claims r ≡ none
      → r ≡ ok claims.user_id
  owned-ok order_id claims (err e) h = absurd cc
  owned-ok order_id claims (ok user) h =
      let e : user ≡ claims.user_id = ground (arith, h) in ap ok e

  authorize-checked :
      (upgrading : Result (Unit {0})) (claims : Claims) (order_id : ℕ) (db : Db) (hub : Hub)
      → let (r, db') = get_order_user_id engine order_id db in
        authorize json others engine upgrading claims order_id db hub
        ≡ checked upgrading order_id hub (owned order_id claims r) db'
  unfolding authorize checked
  authorize-checked upgrading claims order_id db hub = ground arith

  authorize-Answer :
      (upgrading : Result (Unit {0})) (claims : Claims) (order_id : ℕ) (db : Db) (hub : Hub)
      → Answer
          (Owns db.tables claims.user_id order_id)
          db
          hub
          (authorize json others engine upgrading claims order_id db hub)
  authorize-Answer upgrading claims order_id db hub =
      let (r, db') = get_order_user_id engine order_id db in
      subst (Answer (Owns db.tables claims.user_id order_id) db hub)
        (sym (authorize-checked upgrading claims order_id db hub))
        (checked-Answer upgrading order_id hub (owned order_id claims r) db' db
          (owner-tables engine order_id db) (owned-refusal order_id claims r)
          (λ h. owner-Owns engine order_id claims.user_id db (owned-ok order_id claims r h)))

  handshake-parse :
      (tokens : TokenManager) (now : Time) (protocols : List Text) (claims : Claims)
      → authenticate_handshake tokens now protocols ≡ inr claims
      → tokens.parse now (token_from_subprotocols protocols) ≡ ok claims
  unfolding authenticate_handshake
  handshake-parse tokens now protocols claims e =
      elim (Result-cases (tokens.parse now (token_from_subprotocols protocols))) [
        | inl (c, parsed) ↦ ground (arith, parsed, e)
        | inr (x, failed) ↦ ground (arith, failed, e)
      ]

  handshake-status :
      (tokens : TokenManager) (now : Time) (protocols : List Text) (refusal : Response)
      → authenticate_handshake tokens now protocols ≡ inl refusal
      → 400 ≤ refusal.status
  unfolding authenticate_handshake
  handshake-status tokens now protocols refusal e =
      elim (Result-cases (tokens.parse now (token_from_subprotocols protocols))) [
        | inl (c, parsed) ↦ ground (arith, parsed, e)
        | inr (x, failed) ↦ ground (arith, failed, e)
      ]

  -- The path's parameter, behind the token's check.
  entered : Result (Unit {0}) → Db → Hub → Response ⊎ Claims → Option ℕ → Response × Option Hub × Db
  entered upgrading db hub (inl refusal) id = (refusal, some hub, db)
  entered upgrading db hub (inr claims) none =
      (respond 400 (message (codes "invalid order id")), some hub, db)
  entered upgrading db hub (inr claims) (some order_id) =
      authorize json others engine upgrading claims order_id db hub

  entered-Answer :
      {P : Type 0} (upgrading : Result (Unit {0})) (db : Db) (hub : Hub) (who : Response ⊎ Claims)
      (id : Option ℕ)
      → ((refusal : Response) → who ≡ inl refusal → 400 ≤ refusal.status)
      → ((claims : Claims) (order_id : ℕ)
          → who ≡ inr claims
          → id ≡ some order_id
          → Owns db.tables claims.user_id order_id
          → P)
      → Answer P db hub (entered upgrading db hub who id)
  unfolding entered
  entered-Answer upgrading db hub (inl refusal) id low admit = (refl, inl (low refusal refl, refl))
  entered-Answer upgrading db hub (inr claims) none low admit = (refl, inl (omega arith, refl))
  entered-Answer upgrading db hub (inr claims) (some order_id) low admit =
      Answer-map db db hub (authorize json others engine upgrading claims order_id db hub) refl
        (admit claims order_id refl refl) (authorize-Answer upgrading claims order_id db hub)

  connect-entered :
      (tokens : TokenManager) (now : Time) (upgrading : Result (Unit {0})) (protocols : List Text)
      (param : Text) (db : Db) (hub : Hub)
      → connect json others engine tokens now upgrading protocols param db hub
        ≡ entered upgrading db hub
            (authenticate_handshake tokens now protocols)
            (positive_id (atoi param))
  unfolding connect entered
  connect-entered tokens now upgrading protocols param db hub = ground arith

  path_id : (param : Text) (n : ℕ) → positive_id (atoi param) ≡ some n → atoi param ≡ some (pos n)
  path_id param n e = elim (Option-cases (atoi param)) [
    | inl none_read ↦ ground (arith, none_read, e)
    | inr (z, read) ↦ read ∙ ap some (positive_pos z n (sym (ap positive_id read) ∙ e)).0
  ]

  -- A WebSocket's handshake changes no table. It is either refused with a status of at least 400
  -- and the hub as it was, or the connection is upgraded, the token offered behind the sentinel is
  -- valid, and its user owns the order that the path names.
  pub connect-Admitted :
      (tokens : TokenManager) (now : Time) (upgrading : Result (Unit {0})) (protocols : List Text)
      (param : Text) (db : Db) (hub : Hub)
      → Answer
          (Admitted tokens now protocols param db)
          db
          hub
          (connect json others engine tokens now upgrading protocols param db hub)
  unfolding connect
  connect-Admitted tokens now upgrading protocols param db hub =
      subst (Answer (Admitted tokens now protocols param db) db hub)
        (sym (connect-entered tokens now upgrading protocols param db hub))
        (entered-Answer upgrading db hub (authenticate_handshake tokens now protocols)
          (positive_id (atoi param)) (handshake-status tokens now protocols)
          (λ claims order_id e f own. record {
            claims = claims;
            order_id = order_id;
            token = handshake-parse tokens now protocols claims e;
            path = path_id param order_id f;
            owner = own;
          }))
