-- ===== src/Services/User/Tests.antt =====
-- Two customers, and the theorems on internal/services/user.go at them.
use order_processing_system.Base.{ℕ, ◌+◌, ◌≡◌, refl, none, some, [], ◌∷◌, codes}
use order_processing_system.Models.{
  Text, User, customer, duplicated_key, invalid_credentials, ok, err,
}
use order_processing_system.Database.{Db, Engine}
use order_processing_system.Auth.{TokenManager}
use order_processing_system.Repository.User.{
  get_user as get_row, create_user as create_row, update_user as update_row, insert_user, save_user,
}
use order_processing_system.Services.User.{
  CreateUserRequest, UpdateUserRequest, UserResponse, LoginResponse, create_user, update_user,
  get_user, login,
}
use order_processing_system.Services.User.Update.{Chosen}
use order_processing_system.Services.User.Signup.{create_user-login}

abbrev calm : Engine
calm = record { fault = λ n. none; clock = λ n. n; numeric = some }

abbrev user : ℕ → Text → User
user id email = record {
  id = id;
  name = [];
  email = email;
  password = [];
  role = customer;
  created_at = 0;
  updated_at = 0;
}

abbrev town : Db
town = record {
  tables = record {
    users = user 1 (codes "ann@x") ∷ user 2 (codes "bob@x") ∷ [];
    products = [];
    inventory = [];
    orders = [];
    order_items = [];
    payments = [];
    notifications = [];
  };
  seq = record {
    user = 3;
    product = 1;
    inventory = 1;
    order = 1;
    order_item = 1;
    payment = 1;
    notification = 1;
  };
  calls = 0;
}

abbrev newcomer : CreateUserRequest
newcomer = record { name = []; email = codes "cat@x"; password = codes "pw"; role = [] }

-- Bob asks for Ann's email.
abbrev grab : UpdateUserRequest
grab = record { name = []; email = codes "ann@x"; role = [] }

-- Bob moves and keeps his email.
abbrev move_house : UpdateUserRequest
move_house = record { name = codes "bo"; email = []; role = [] }

abbrev moved : UserResponse
moved = record {
  id = 2;
  name = codes "bo";
  email = codes "bob@x";
  role = customer;
  created_at = 0;
  updated_at = 1;
}

abbrev afterwards : Db
unfolding update_user get_row update_row save_user
afterwards = (update_user calm 2 move_house town).1

grab_fails : (update_user calm 2 grab town).0 ≡ err duplicated_key
unfolding update_user get_row update_row save_user
grab_fails = refl

abbrev signed_up : UserResponse
signed_up = record {
  id = 3;
  name = [];
  email = codes "cat@x";
  role = customer;
  created_at = 0;
  updated_at = 0;
}

abbrev joined : Db
unfolding create_user create_row insert_user
joined = (create_user calm newcomer town).1

cat-joined : create_user calm newcomer town ≡ (ok signed_up, joined)
unfolding create_user create_row insert_user joined
cat-joined = refl

-- A token is the id before the role.
abbrev plain_tokens : TokenManager
plain_tokens = record {
  generate = λ now id role. ok (id ∷ role, now + 60);
  parse = λ now token. err invalid_credentials;
}

create_user-login_example :
    (◌≡◌ {A = Text} [] [])
    × (codes "cat@x" ≡ codes "cat@x")
    × Chosen [] customer customer
    × ((session : LoginResponse) × ((login calm plain_tokens 5 6
            (record { email = codes "cat@x"; password = codes "pw" })
            joined).0
          ≡ ok session)
        × (session.access_token ≡ 3 ∷ customer))
create_user-login_example =
    create_user-login calm calm plain_tokens 5 6 65 newcomer signed_up town joined (3 ∷ customer)
      cat-joined refl refl
