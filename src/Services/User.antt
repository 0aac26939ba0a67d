-- ===== src/Services/User.antt =====
-- internal/services/user.go with internal/dto/user.go. The clock's readings of Login are arguments.
pub mod Frame
pub mod Session
pub mod Update
pub mod Signup
mod Tests
use order_processing_system.Base.{ℕ, ◌-◌, ◌/◌, [], ◌∷◌, leb, if◌then◌else◌, codes}
use order_processing_system.Base.Int.{ℤ, pos, negate}
use order_processing_system.Models.{
  Text, Time, text_eq, User, customer, record_not_found, invalid_credentials, Error, Result, ok,
  err,
}
use order_processing_system.Database.{Engine, Query, ◌>>=◌, pure}
use order_processing_system.Auth.{TokenManager, second}
use order_processing_system.Repository.User as Repository

pub record CreateUserRequest : Type 0 where
  pub name : Text
  pub email : Text
  pub password : Text
  pub role : Text

pub record UpdateUserRequest : Type 0 where
  pub name : Text
  pub email : Text
  pub role : Text

pub record LoginRequest : Type 0 where
  pub email : Text
  pub password : Text

pub record LoginResponse : Type 0 where
  pub access_token : Text
  pub token_type : Text
  pub expires_in : ℤ

pub record UserResponse : Type 0 where
  pub id : ℕ
  pub name : Text
  pub email : Text
  pub role : Text
  pub created_at : Time
  pub updated_at : Time

abbrev pub to_user_response : User → UserResponse
to_user_response u = record {
  id = u.id;
  name = u.name;
  email = u.email;
  role = u.role;
  created_at = u.created_at;
  updated_at = u.updated_at;
}

-- `if s != "" { old = s }`
abbrev pub unless_empty : Text → Text → Text
unless_empty [] old = old
unless_empty (c ∷ s) old = c ∷ s

-- int64(time.Until(expiresAt).Seconds())
abbrev pub seconds_until : Time → Time → ℤ
seconds_until now t = if leb now t then pos ((t - now) / second) else negate ((now - t) / second)

-- The rest of Login, with the row of the email.
unfoldable pub check_password :
    TokenManager → Time → Time → LoginRequest → User → Result LoginResponse
check_password tokens now later req user =
    if text_eq user.password req.password
    then (elim (tokens.generate now user.id user.role) [
      | err e ↦ err e
      | ok (token, expires_at) ↦ ok (record {
        access_token = token;
        token_type = codes "Bearer";
        expires_in = seconds_until later expires_at;
      })
    ])
    else err invalid_credentials

-- Where the email is not found the error is that of a wrong password.
abbrev pub hide_missing : Error → Error
hide_missing record_not_found = invalid_credentials
hide_missing e = e

abbrev pub new_user : CreateUserRequest → User
new_user req = record {
  id = 0;
  name = req.name;
  email = req.email;
  password = req.password;
  role = unless_empty req.role customer;
  created_at = 0;
  updated_at = 0;
}

abbrev pub changed_user : UpdateUserRequest → User → User
changed_user req user = record user {
  name = unless_empty req.name user.name;
  email = unless_empty req.email user.email;
  role = unless_empty req.role user.role;
}

module _ (engine : Engine) where
  unfoldable pub create_user : CreateUserRequest → Query UserResponse
  create_user req = do
    user ← Repository.create_user engine (new_user req)
    pure (to_user_response user)

  unfoldable pub get_user : ℕ → Query UserResponse
  get_user id = do user ← Repository.get_user engine id; pure (to_user_response user)

  unfoldable pub update_user : ℕ → UpdateUserRequest → Query UserResponse
  update_user id req = do
    user ← Repository.get_user engine id
    saved ← Repository.update_user engine (changed_user req user)
    pure (to_user_response saved)

  unfoldable pub login : TokenManager → Time → Time → LoginRequest → Query LoginResponse
  unfolding check_password
  login tokens now later req db =
      let (r, db') = Repository.get_user_by_email engine req.email db in
      elim r [
        | err e ↦ (err (hide_missing e), db')
        | ok user ↦ (check_password tokens now later req user, db')
      ]
