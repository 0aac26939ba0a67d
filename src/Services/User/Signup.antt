-- ===== src/Services/User/Signup.antt =====
-- A user that CreateUser of internal/services/user.go has stored can log in.
use order_processing_system.Base.{
  ◌≡◌, refl, inl, inr, true, none, some, [], ◌∷◌, ◌++◌, arith, find-append, codes, Bool-cases,
  Option-cases,
}
use order_processing_system.Models.{Text, Time, User, text_eq, text_eq_refl, is_role, customer, ok}
use order_processing_system.Database.{Db, Engine, tick, pure}
use order_processing_system.Database.Laws.{>>=-eq-ok, send-eq-ok}
use order_processing_system.Auth.{TokenManager}
use order_processing_system.Repository.User.{insert_user, get_user_by_email}
use order_processing_system.Repository.User as Repository
use order_processing_system.Services.User.{
  CreateUserRequest, UserResponse, LoginRequest, LoginResponse, to_user_response, new_user,
  seconds_until, check_password, create_user, login,
}
use order_processing_system.Services.User.Session.{account}
use order_processing_system.Services.User.Update.{Chosen, unless_empty-Chosen}

insert_user-ok :
    (now : Time) (user created : User) (db after : Db)
    → insert_user now user db ≡ (ok created, after)
    → (created ≡ record user { id = db.seq.user; created_at = now; updated_at = now })
      × (account user.email db ≡ none)
      × (after.tables.users ≡ db.tables.users ++ (created ∷ []))
unfolding insert_user
insert_user-ok now user created db after e = elim (Bool-cases (is_role user.role)) [
  | inr other ↦ ground (arith, other, e)
  | inl role ↦ elim (Option-cases (account user.email db)) [
    | inr (u, taken) ↦ ground (arith, role, taken, e)
    | inl free ↦ ground (arith, role, free, e)
  ]
]

-- What a signup has made.
record Registered (req : CreateUserRequest) (resp : UserResponse) (after : Db) : Type 0 where
  user : User
  found : account req.email after ≡ some user
  password : user.password ≡ req.password
  shown : resp ≡ to_user_response user
  named : user.name ≡ req.name
  mailed : user.email ≡ req.email
  role : Chosen req.role customer user.role

create_user-Registered :
    (engine : Engine) (req : CreateUserRequest) (resp : UserResponse) (db after : Db)
    → create_user engine req db ≡ (ok resp, after)
    → Registered req resp after
unfolding create_user Repository.create_user
create_user-Registered engine req resp db after e =
    >>=-eq-ok (Repository.create_user engine (new_user req)) (λ user. pure (to_user_response user))
      db e
      (λ created mid made last.
        let now = engine.clock db.calls in
        let (is, free, stored) =
          insert_user-ok now (new_user req) created (tick db) mid
            (send-eq-ok engine (λ t. insert_user t (new_user req)) db made) in
        let shown : resp ≡ to_user_response created = cc in
        let finished : mid ≡ after = cc in
        let there : account req.email mid ≡ some created = rw stored (
          find-append (λ (u : User). text_eq u.email req.email) db.tables.users created free
            (rw is (text_eq_refl req.email))) in
        record {
          user = created;
          found = rw (← finished) there;
          password = rw is refl;
          shown = shown;
          named = rw is refl;
          mailed = rw is refl;
          role = rw is (unless_empty-Chosen req.role customer);
        })

login-account :
    (reader : Engine) (tokens : TokenManager) (now later ends : Time) (user : User)
    (req : LoginRequest) (db : Db) (token : Text)
    → reader.fault db.calls ≡ none
    → account req.email db ≡ some user
    → user.password ≡ req.password
    → tokens.generate now user.id user.role ≡ ok (token, ends)
    → (session : LoginResponse) × ((login reader tokens now later req db).0 ≡ ok session)
      × (session.access_token ≡ token)
unfolding login check_password get_user_by_email
login-account reader tokens now later ends user req db token up found same made =
    let matches : text_eq user.password req.password ≡ true = rw same (text_eq_refl req.password) in
    (
      record {
        access_token = token;
        token_type = codes "Bearer";
        expires_in = seconds_until later ends;
      },
      ground (arith, up, found, matches, made),
      refl,
    )

-- A user that CreateUser returned has the requested name and email and the requested role, or
-- customer where the request has none, and can then log in with the requested email and password:
-- where the database answers and a token is made for the returned id and role, Login gives out that
-- token.
pub create_user-login :
    (engine reader : Engine) (tokens : TokenManager) (now later ends : Time)
    (req : CreateUserRequest) (resp : UserResponse) (db after : Db) (token : Text)
    → create_user engine req db ≡ (ok resp, after)
    → reader.fault after.calls ≡ none
    → tokens.generate now resp.id resp.role ≡ ok (token, ends)
    → (resp.name ≡ req.name)
      × (resp.email ≡ req.email)
      × Chosen req.role customer resp.role
      × ((session : LoginResponse) × ((login reader tokens now later
              (record { email = req.email; password = req.password })
              after).0
            ≡ ok session)
          × (session.access_token ≡ token))
create_user-login engine reader tokens now later ends req resp db after token e up made =
    let r = create_user-Registered engine req resp db after e in
    let made' : tokens.generate now r.user.id r.user.role ≡ ok (token, ends) = rw r.shown at made in
    (
      rw r.shown r.named,
      rw r.shown r.mailed,
      rw r.shown r.role,
      login-account reader tokens now later ends r.user
          (record { email = req.email; password = req.password }) after token up r.found r.password
          made',
    )
