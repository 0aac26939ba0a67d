-- ===== src/Api/Handlers/Login.antt =====
-- A login and what its token is worth: internal/api/handlers/user_handler.go with internal/auth/token.go and
-- internal/api/middleware/auth.go.
use order_processing_system.Base.{ℕ, ◌*◌, ◌/◌, ◌<◌, ◌≡◌, refl, sym, inr, false, none, some, arith}
use order_processing_system.Base.Int.{ℤ}
use order_processing_system.Models.{Text, Time, User, text_eq, invalid_credentials, ok}
use order_processing_system.Database.{Db, Engine}
use order_processing_system.Auth.{
  Claims, TokenManager, second, add_time, JwtLibrary, new_claims, generate, jwt_manager,
  generate-eq-ok, parse-generate, generate-IsVisible,
}
use order_processing_system.Services.User.{LoginRequest, LoginResponse}
use order_processing_system.Services.User as Users
use order_processing_system.Services.User.Session.{account, login-Session, login-refused}
use order_processing_system.Api.Http.{error, respond}
use order_processing_system.Api.Middleware.{authenticate}
use order_processing_system.Api.Middleware.Bearer.{bearer_header, authenticate-header}
use order_processing_system.Api.Handlers.{login}

module _ (jwt : JwtLibrary) (secret : Text) (ttl : ℤ) where
  jwt_generate :
      (now : Time) (user_id : ℕ) (role token : Text) (ends : Time)
      → (jwt_manager jwt secret ttl).generate now user_id role ≡ ok (token, ends)
      → generate jwt secret ttl now user_id role ≡ ok (token, ends)
  unfolding jwt_manager
  jwt_generate now user_id role token ends made = made

  jwt-authenticate :
      (now later : Time) (user_id : ℕ) (role token : Text) (ends : Time)
      → generate jwt secret ttl now user_id role ≡ ok (token, ends)
      → later < ends / second * second
      → authenticate (jwt_manager jwt secret ttl) later (bearer_header token)
        ≡ inr (new_claims now ttl user_id role)
  unfolding jwt_manager
  jwt-authenticate now later user_id role token ends made live =
      let (some_token, visible) =
        generate-IsVisible jwt secret ttl now user_id role token ends made in
      authenticate-header (jwt_manager jwt secret ttl) later token (new_claims now ttl user_id role)
        some_token visible
        (parse-generate jwt secret ttl now later user_id role token ends made live)

  -- The token of a login that succeeded, sent back as a Bearer header until the whole second of its
  -- expiry, authenticates, and the claims of that authentication carry the id and the role of the
  -- row whose email and password the login named.
  pub login-authenticate :
      (engine : Engine) (now answered later : Time) (req : LoginRequest) (db : Db)
      (resp : LoginResponse)
      → (Users.login engine (jwt_manager jwt secret ttl) now answered req db).0 ≡ ok resp
      → later < add_time now ttl / second * second
      → (user : User) × (account req.email db ≡ some user)
        × (user.password ≡ req.password)
        × (claims : Claims) × (authenticate
              (jwt_manager jwt secret ttl)
              later
              (bearer_header resp.access_token)
            ≡ inr claims)
        × (claims.user_id ≡ user.id)
        × (claims.role ≡ user.role)
  login-authenticate engine now answered later req db resp e live =
      let s = login-Session engine (jwt_manager jwt secret ttl) now answered req db resp e in
      let made = jwt_generate now s.user.id s.user.role resp.access_token s.expires_at s.made in
      let ends =
        (generate-eq-ok jwt secret ttl now s.user.id s.user.role resp.access_token s.expires_at
          made).1 in
      (
        s.user,
        s.found,
        s.password,
        new_claims now ttl s.user.id s.user.role,
        jwt-authenticate now later s.user.id s.user.role resp.access_token s.expires_at made
            (rw (sym ends) live),
        refl,
        refl,
      )

-- Where the database answers, a login whose email has no row and one whose email's row has another
-- password get the same response, 401 with the same body.
pub login-refusal :
    (engine : Engine) (tokens : TokenManager) (now answered : Time) (req : LoginRequest) (db : Db)
    → engine.fault db.calls ≡ none
    → ((user : User)
        → account req.email db ≡ some user
        → text_eq user.password req.password ≡ false)
    → (login engine tokens now answered (ok req) db).0 ≡ respond 401 (error invalid_credentials)
unfolding login
login-refusal engine tokens now answered req db fine other =
    let refused = login-refused engine tokens now answered req db fine other in
    ground (arith, refused)
