-- ===== src/Services/User/Session.antt =====
-- What Login of internal/services/user.go found where it gave out a token.
use order_processing_system.Base.{
  Option, ◌≡◌, inl, inr, false, none, some, arith, find, Option-cases, Bool-cases,
}
use order_processing_system.Models.{
  Text, Time, User, text_eq, text_eq_sound, invalid_credentials, ok, err, Result-cases,
}
use order_processing_system.Database.{Db, Engine}
use order_processing_system.Auth.{TokenManager}
use order_processing_system.Repository.User.{get_user_by_email}
use order_processing_system.Services.User.{LoginRequest, LoginResponse, check_password, login}

-- The row that a login reads.
abbrev pub account : Text → Db → Option User
account email db = find (λ (u : User). text_eq u.email email) db.tables.users

-- The password was the row's, and the token was made for the row.
pub record Session (tokens : TokenManager) (now : Time) (req : LoginRequest) (db : Db)
    (resp : LoginResponse) : Type 0 where
  pub user : User
  pub expires_at : Time
  pub found : account req.email db ≡ some user
  pub password : user.password ≡ req.password
  pub made : tokens.generate now user.id user.role ≡ ok (resp.access_token, expires_at)

module _ (engine : Engine) (tokens : TokenManager) (now answered : Time) (req : LoginRequest) where
  account-read :
      (user : User) (db : Db)
      → (get_user_by_email engine req.email db).0 ≡ ok user
      → account req.email db ≡ some user
  unfolding get_user_by_email
  account-read user db e = elim (Option-cases (account req.email db)) [
    | inl missing ↦ ground (arith, missing, e)
    | inr (u, found) ↦ ground (arith, found, e)
  ]

  check_password-Session :
      (user : User) (db : Db) (resp : LoginResponse)
      → account req.email db ≡ some user
      → check_password tokens now answered req user ≡ ok resp
      → Session tokens now req db resp
  unfolding check_password
  check_password-Session user db resp found e =
      elim (Bool-cases (text_eq user.password req.password)) [
        | inr other ↦ ground (arith, other, e)
        | inl same ↦ elim (Result-cases (tokens.generate now user.id user.role)) [
          | inl ((token, expires_at), made) ↦ record {
            user = user;
            expires_at = expires_at;
            found = found;
            password = text_eq_sound user.password req.password same;
            made = ground (arith, same, made, e);
          }
          | inr (x, failed) ↦ ground (arith, same, failed, e)
        ]
      ]

  login-read :
      (db : Db) (resp : LoginResponse)
      → (login engine tokens now answered req db).0 ≡ ok resp
      → (user : User) × ((get_user_by_email engine req.email db).0 ≡ ok user)
        × (check_password tokens now answered req user ≡ ok resp)
  unfolding login
  login-read db resp e = elim (Result-cases (get_user_by_email engine req.email db).0) [
    | inl (user, read) ↦ (user, read, ground (arith, read, e))
    | inr (x, failed) ↦ ground (arith, failed, e)
  ]

  pub login-Session :
      (db : Db) (resp : LoginResponse)
      → (login engine tokens now answered req db).0 ≡ ok resp
      → Session tokens now req db resp
  login-Session db resp e =
      let (user, read, checked) = login-read db resp e in
      check_password-Session user db resp (account-read user db read) checked

  -- No row, or one with another password.
  pub login-refused :
      (db : Db)
      → engine.fault db.calls ≡ none
      → ((user : User)
          → account req.email db ≡ some user
          → text_eq user.password req.password ≡ false)
      → (login engine tokens now answered req db).0 ≡ err invalid_credentials
  unfolding login check_password get_user_by_email
  login-refused db fine none_fits = elim (Option-cases (account req.email db)) [
    | inl missing ↦ ground (arith, fine, missing)
    | inr (user, found) ↦ let other = none_fits user found in ground (arith, fine, found, other)
  ]
