-- ===== src/Repository/Notification.antt =====
-- internal/repository/notification.go.
use order_processing_system.Base.{
  ℕ, suc, none, some, List, [], ◌∷◌, ◌++◌, ◌==◌, find, select, update_where,
}
use order_processing_system.Models.{
  Time, Order, Notification, NotificationStatus, foreign_key_violated, ok, err,
}
use order_processing_system.Database.{Engine, Query, send}

-- INSERT INTO notifications: the order has to exist.
unfoldable pub insert_notification : Time → Notification → Query Notification
insert_notification now n db =
    let id = db.seq.notification in
    let created = record n { id = id; created_at = now } in
    elim (find (λ (o : Order). o.id == n.order_id) db.tables.orders) [
      | none ↦
          (err foreign_key_violated, record db { seq = record (db.seq) { notification = suc id } })
      | some _ ↦ (
        ok created,
        record db {
          tables = record (db.tables) { notifications = db.tables.notifications ++ (created ∷ []) };
          seq = record (db.seq) { notification = suc id };
        },
      )
    ]

abbrev pub update_notifications : (Notification → Notification) → ℕ → Query (Unit {0})
update_notifications f id db = (
  ok tt,
  record db {
    tables = record (db.tables) {
      notifications = update_where (λ n. n.id == id) f db.tables.notifications;
    };
  },
)

-- SET status = 'sent', sent_at = now()
abbrev pub sent_row : Time → Notification → Notification
sent_row now n = record n { status = NotificationStatus.sent; sent_at = some now }

-- SET status = 'failed'
abbrev pub failed_row : Notification → Notification
failed_row n = record n { status = NotificationStatus.failed }

module _ (engine : Engine) where
  unfoldable pub create_notification : Notification → Query Notification
  unfolding insert_notification
  create_notification n = send engine (λ now. insert_notification now n)

  unfoldable pub mark_sent : ℕ → Query (Unit {0})
  mark_sent id = send engine (λ now. update_notifications (sent_row now) id)

  unfoldable pub mark_failed : ℕ → Query (Unit {0})
  mark_failed id = send engine (λ _. update_notifications failed_row id)

  -- ORDER BY id ASC is the order of the table.
  unfoldable pub list_by_order : ℕ → Query (List Notification)
  list_by_order order_id =
      send engine λ _ db. (ok (select (λ n. n.order_id == order_id) db.tables.notifications), db)
