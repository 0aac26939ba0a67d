-- ===== src/Services/User/Frame.antt =====
-- What the methods of internal/services/user.go leave in the tables.
use order_processing_system.Base.{ℕ, ap, [], arith}
use order_processing_system.Models.{Text, Time, User}
use order_processing_system.Database.{Tables, Engine}
use order_processing_system.Database.Frame.{
  Keeps, >>=-Keeps, send-Keeps, pure-Keeps, Undoes, send-Undoes, >>=-Undoes, pure_after-Undoes,
}
use order_processing_system.Auth.{TokenManager}
use order_processing_system.Repository.User as Repository
use order_processing_system.Repository.User.{insert_user, save_user}
use order_processing_system.Services.User.{
  CreateUserRequest, UpdateUserRequest, LoginRequest, new_user, changed_user, to_user_response,
  create_user, get_user, update_user, login,
}

-- Every table but the users.
abbrev pub but_users : Tables → Tables
but_users t = record t { users = [] }

module _ (engine : Engine) where
  row-Keeps : (id : ℕ) → Keeps (λ t. t) (Repository.get_user engine id)
  unfolding Repository.get_user
  row-Keeps id = record { keeps = λ db. ground arith }

  email-Keeps : (email : Text) → Keeps (λ t. t) (Repository.get_user_by_email engine email)
  unfolding Repository.get_user_by_email
  email-Keeps email = record { keeps = λ db. ground arith }

  pub get_user-Keeps : (id : ℕ) → Keeps (λ t. t) (get_user engine id)
  unfolding get_user
  get_user-Keeps id =
      >>=-Keeps (λ t. t) (Repository.get_user engine id) _ (row-Keeps id)
        (λ u. pure-Keeps (λ t. t) _)

  pub login-Keeps :
      (tokens : TokenManager) (now later : Time) (req : LoginRequest)
      → Keeps (λ t. t) (login engine tokens now later req)
  unfolding login
  login-Keeps tokens now later req = record {
    keeps = λ db. ground (arith, (email-Keeps req.email).keeps db);
  }

  insert-Undoes : (user : User) → Undoes (Repository.create_user engine user)
  unfolding Repository.create_user insert_user
  insert-Undoes user =
      send-Undoes engine (λ now. insert_user now user)
        (λ now. record { undoes = λ db e failed. ground (arith, failed) })

  save-Undoes : (user : User) → Undoes (Repository.update_user engine user)
  unfolding Repository.update_user save_user
  save-Undoes user =
      send-Undoes engine (λ now. save_user now user)
        (λ now. record { undoes = λ db e failed. ground (arith, failed) })

  pub create_user-Undoes : (req : CreateUserRequest) → Undoes (create_user engine req)
  unfolding create_user
  create_user-Undoes req =
      pure_after-Undoes (Repository.create_user engine (new_user req)) to_user_response
        (insert-Undoes (new_user req))

  pub update_user-Undoes : (id : ℕ) (req : UpdateUserRequest) → Undoes (update_user engine id req)
  unfolding update_user
  update_user-Undoes id req = >>=-Undoes (Repository.get_user engine id) _ (row-Keeps id) (λ user.
      pure_after-Undoes (Repository.update_user engine (changed_user req user)) to_user_response
        (save-Undoes (changed_user req user)))

  insert-Keeps : (user : User) → Keeps but_users (Repository.create_user engine user)
  unfolding Repository.create_user insert_user
  insert-Keeps user =
      send-Keeps but_users engine (λ now. insert_user now user)
        (λ now. record { keeps = λ db. ground arith })

  save-Keeps : (user : User) → Keeps but_users (Repository.update_user engine user)
  unfolding Repository.update_user save_user
  save-Keeps user =
      send-Keeps but_users engine (λ now. save_user now user)
        (λ now. record { keeps = λ db. ground arith })

  pub create_user-Keeps : (req : CreateUserRequest) → Keeps but_users (create_user engine req)
  unfolding create_user
  create_user-Keeps req =
      >>=-Keeps but_users (Repository.create_user engine (new_user req)) _
        (insert-Keeps (new_user req)) (λ u. pure-Keeps but_users _)

  pub update_user-Keeps :
      (id : ℕ) (req : UpdateUserRequest) → Keeps but_users (update_user engine id req)
  unfolding update_user
  update_user-Keeps id req =
      >>=-Keeps but_users (Repository.get_user engine id) _
        (record { keeps = λ db. ap but_users ((row-Keeps id).keeps db) })
        (λ user.
          >>=-Keeps but_users (Repository.update_user engine (changed_user req user)) _
            (save-Keeps (changed_user req user)) (λ u. pure-Keeps but_users _))
