-- ===== src/Services/Notification.antt =====
-- internal/services/notification.go, and the event of internal/dto/notification.go.
use order_processing_system.Base.{ℕ, Bool, true, false, none}
use order_processing_system.Models.{Text, Notification, NotificationStatus, ok, err}
use order_processing_system.Database.{Db, Engine}
use order_processing_system.Repository.Notification.{create_notification, mark_sent, mark_failed}

pub record NotificationEvent : Type 0 where
  pub id : ℕ
  pub order_id : ℕ
  pub message : Text

abbrev pub new_notification_event : Notification → NotificationEvent
new_notification_event n = record { id = n.id; order_id = n.order_id; message = n.message }

-- services.Notifier: pushes an event to the live subscribers of an order, and says whether one got
-- it. `N` is the state of the hub.
pub record Notifier (N : Type 0) : Type 0 where
  pub notify : ℕ → NotificationEvent → N → Bool × N

module _ {N : Type 0} (engine : Engine) (notifier : Notifier N) where
  abbrev mark : Bool → ℕ → Db → Db
  mark true id db = (mark_sent engine id db).1
  mark false id db = (mark_failed engine id db).1

  -- Delivery once the row is there: the outcome is recorded, and its error only logged.
  abbrev deliver : Notification → Db → N → Db × N
  deliver n db hub =
      let (delivered, hub') = notifier.notify n.order_id (new_notification_event n) hub in
      (mark delivered n.id db, hub')

  -- Failures are logged, never returned.
  unfoldable pub send : ℕ → Text → Db → N → Db × N
  send order_id message db hub =
      let (r, db') =
        create_notification engine
          (record {
            id = 0;
            order_id = order_id;
            message = message;
            status = NotificationStatus.pending;
            created_at = 0;
            sent_at = none;
          })
          db in
      elim r [ ok n ↦ deliver n db' hub | err e ↦ (db', hub) ]
