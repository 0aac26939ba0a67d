-- ===== src/Repository/User.antt =====
-- internal/repository/user.go.
use order_processing_system.Base.{
  ℕ, suc, Bool, ◌&&◌, not, none, some, [], ◌∷◌, ◌++◌, ◌==◌, find, update_where, count_where,
  if◌then◌else◌,
}
use order_processing_system.Models.{
  Text, Time, text_eq, User, is_role, record_not_found, duplicated_key, invalid_value, generated_id,
  ok, err,
}
use order_processing_system.Database.{Engine, Query, ◌>>=◌, pure, fail, send}

-- UNIQUE (email), among the rows with another id
abbrev pub takes_email : User → User → Bool
takes_email user row = not (row.id == user.id) && text_eq row.email user.email

-- INSERT INTO users: the role has to be one of the enum's, the email new. The id comes from the sequence.
unfoldable pub insert_user : Time → User → Query User
insert_user now user db =
    let id = db.seq.user in
    let created = record user { id = id; created_at = now; updated_at = now } in
    let drawn = record db { seq = record (db.seq) { user = suc id } } in
    if is_role user.role
    then (elim (find (λ (row : User). text_eq row.email user.email) db.tables.users) [
      | some _ ↦ (err duplicated_key, drawn)
      | none ↦ (
        ok created,
        record drawn { tables = record (db.tables) { users = db.tables.users ++ (created ∷ []) } },
      )
    ])
    else (err invalid_value, db)

-- Save: UPDATE users SET every column WHERE id = ?. Without such a row gorm inserts it with its id, which
-- GENERATED ALWAYS refuses.
unfoldable pub save_user : Time → User → Query User
save_user now user db =
    let saved = record user { updated_at = now } in
    if not (is_role user.role)
    then (err invalid_value, db)
    else if count_where (λ (row : User). row.id == user.id) db.tables.users == 0
    then (err generated_id, db)
    else (elim (find (takes_email user) db.tables.users) [
      | some _ ↦ (err duplicated_key, db)
      | none ↦ (
        ok saved,
        record db {
          tables = record (db.tables) {
            users = update_where (λ row. row.id == user.id) (λ _. saved) db.tables.users;
          };
        },
      )
    ])

module _ (engine : Engine) where
  unfoldable pub create_user : User → Query User
  unfolding insert_user
  create_user user = send engine (λ now. insert_user now user)

  unfoldable pub get_user : ℕ → Query User
  get_user id = do
    row ← send engine (λ _ db. (ok (find (λ (u : User). u.id == id) db.tables.users), db))
    elim row [ none ↦ fail record_not_found | some user ↦ pure user ]

  unfoldable pub get_user_by_email : Text → Query User
  get_user_by_email email = do
    row ←
        send engine (λ _ db. (ok (find (λ (u : User). text_eq u.email email) db.tables.users), db))
    elim row [ none ↦ fail record_not_found | some user ↦ pure user ]

  unfoldable pub update_user : User → Query User
  unfolding save_user
  update_user user = send engine (λ now. save_user now user)
