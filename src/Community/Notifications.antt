-- ===== src/Community/Notifications.antt =====
-- Notifications: src/apps/community/services/notification_service.py.
pub mod Read
use noshiro_db_backend.Base.{
  ℕ, Bool, true, false, ◌==◌, ◌&&◌, not, List, [], ◌∷◌, ◌++◌, Option, none, some, if◌then◌else◌,
  count_where, update_where, update_one, get, is_some,
}
use noshiro_db_backend.Community.Model.{Target, Notification, NotificationType, Tables}

abbrev pub new_notification : ℕ → ℕ → ℕ → NotificationType → List Target → Notification
new_notification id recipient actor notification_type about = record {
  id = id;
  recipient = recipient;
  actor = actor;
  notification_type = notification_type;
  about = about;
  read_at = none;
}

-- `_create_notification`: nobody is told of what they do themselves. Recipient and actor are given.
unfoldable pub create_notification : ℕ → ℕ → ℕ → NotificationType → List Target → Tables → Tables
create_notification new_id recipient actor notification_type about w =
    if recipient == actor then w else record w {
      notifications =
          w.notifications ++ new_notification new_id recipient actor notification_type about ∷ [];
    }

abbrev pub is_unread : Notification → Bool
is_unread n = not (is_some n.read_at)

abbrev pub is_unread_of : ℕ → Notification → Bool
is_unread_of user n = n.recipient == user && is_unread n

-- `mark_all_read`: the number of rows written, and the tables.
unfoldable pub mark_all_read : Tables → ℕ → ℕ → ℕ × Tables
mark_all_read w user now = (
  count_where (is_unread_of user) w.notifications,
  record w {
    notifications =
        update_where (is_unread_of user) (λ n. record n { read_at = some now }) w.notifications;
  },
)

-- `refresh_from_db(fields=["read_at"])`; nothing where the row is gone, when it raises.
abbrev reread : Notification → Option Notification → Option Notification
reread copy none = none
reread copy (some row) = some (record copy { read_at = row.read_at })

abbrev pub marked :
    Notification → ℕ → Tables → Bool × List Notification → Option Notification × Tables
marked copy now w (true, rows) =
    (some (record copy { read_at = some now }), record w { notifications = rows })
marked copy now w (false, rows) =
    (reread copy (get Notification.id copy.id w.notifications), record w { notifications = rows })

-- `mark_read` of a copy of a row: the copy afterwards, and the tables.
unfoldable pub mark_read : Tables → Notification → ℕ → Option Notification × Tables
mark_read w copy now =
    if is_some copy.read_at
    then (some copy, w)
    else marked copy now w (
        update_one Notification.id copy.id is_unread (λ n. record n { read_at = some now })
          w.notifications)
