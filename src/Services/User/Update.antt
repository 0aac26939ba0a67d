-- ===== src/Services/User/Update.antt =====
-- What UpdateUser of internal/services/user.go has stored.
use order_processing_system.Base.{
  ℕ, ◌≡◌, ◌≢◌, refl, ◌⊎◌, inl, inr, some, Option, List, [], ◌∷◌, ◌==◌, arith, find,
}
use order_processing_system.Models.{Text, User, ok}
use order_processing_system.Database.{Db, Engine}
use order_processing_system.Database.Success.{Faultless}
use order_processing_system.Repository.User as Repository
use order_processing_system.Services.User.{
  UpdateUserRequest, UserResponse, to_user_response, unless_empty, get_user,
}

abbrev pub user_row : ℕ → List User → Option User
user_row k = find (λ (u : User). u.id == k)

-- A field takes what was asked for; an empty wish leaves it.
abbrev pub Chosen : Text → Text → Text → Type 0
Chosen asked old new = ((asked ≡ []) × (new ≡ old)) ⊎ ((asked ≢ []) × (new ≡ asked))

pub unless_empty-Chosen : (asked old : Text) → Chosen asked old (unless_empty asked old)
unless_empty-Chosen [] old = inl (refl, refl)
unless_empty-Chosen (c ∷ s) old = inr (λ e. cc, refl)

-- The row `old` of `id` has become `new`, by the request alone, and no other row has changed.
pub record Updated (id : ℕ) (req : UpdateUserRequest) (before after : List User) : Type 0 where
  pub old : User
  pub new : User
  pub found : user_row id before ≡ some old
  pub replaced : user_row id after ≡ some new
  pub same_id : new.id ≡ id
  pub name : Chosen req.name old.name new.name
  pub email : Chosen req.email old.email new.email
  pub role : Chosen req.role old.role new.role
  pub password : new.password ≡ old.password
  pub created_at : new.created_at ≡ old.created_at
  pub others : (k : ℕ) → k ≢ id → user_row k after ≡ user_row k before

module _ (engine reader : Engine) (fine : Faultless reader) where
  get_user-row :
      (id : ℕ) (user : User) (db : Db)
      → user_row id db.tables.users ≡ some user
      → (get_user reader id db).0 ≡ ok (to_user_response user)
  unfolding get_user Repository.get_user
  get_user-row id user db found = let up = fine db.calls in ground (arith, up, found)

  answered :
      (id : ℕ) (req : UpdateUserRequest) (resp : UserResponse) (db mid after : Db) (saved : User)
      → (u : Updated id req db.tables.users mid.tables.users) × (u.new ≡ saved)
      → to_user_response saved ≡ resp
      → mid ≡ after
      → (u : Updated id req db.tables.users after.tables.users) × ((get_user reader id after).0
          ≡ ok resp)
        × (resp.id ≡ id)
        × (resp.name ≡ u.new.name)
        × (resp.email ≡ u.new.email)
        × (resp.role ≡ u.new.role)
  answered id req resp db mid after saved (u, is) shown finished =
      let same : to_user_response u.new ≡ resp = rw is shown in
      rw (← finished, ← same) (u, get_user-row id u.new mid u.replaced, u.same_id, refl, refl, refl)
