-- ===== src/NotificationService/Notifications/Examples.antt =====
-- Concrete notifications, on a table in memory.
use backend_core_platform.External.Table.{Table, option_map}
use backend_core_platform.External.Table.Memory
use backend_core_platform.External.Table.Memory.{memory}
use backend_core_platform.Common.Errors.{ok}
use backend_core_platform.NotificationService.Notifications.{
  Notification, notification_id, CreateNotification, is_unread, new_notification, read_now,
  unread_count, mark_read, read_all,
}
use backend_core_platform.NotificationService.Notifications.Reading.{
  read_if_unread, read_all-unread_count, mark_read-unread_count,
}
use backend_core_platform.Base.{◌+◌, ◌≡◌, refl, none, some, [], ◌∷◌, undefined}

abbrev table : Table Notification notification_id
table = memory notification_id

abbrev greeting : CreateNotification
greeting = record {
  user_id = "u1";
  kind = "info";
  title = "Hello";
  body = none;
  payload = undefined;
}

abbrev first_noti : Notification
first_noti = new_notification 100 "n1" greeting

abbrev other_noti : Notification
other_noti = new_notification 100 "n2" (record greeting { user_id = "u2" })

abbrev two : table.Db
two = first_noti ∷ other_noti ∷ []

read_all-unread_count_example :
    ((read_all table 200 "u1" two).1 ≡ unread_count table "u1" two)
    × (unread_count table "u1" (read_all table 200 "u1" two).0 ≡ ok 0)
    × (table.find "n2" (read_all table 200 "u1" two).0
        ≡ option_map (read_if_unread table 200 "u1") (table.find "n2" two))
read_all-unread_count_example = read_all-unread_count table 200 "u1" "n2" two refl

mark_read-unread_count_example :
    ((mark_read table 200 "u1" "n1" two).1 ≡ ok (record { id = "n1"; read_at = some 200 }))
    × (table.find "n1" (mark_read table 200 "u1" "n1" two).0 ≡ some (read_now 200 first_noti))
    × (table.count (is_unread "u1") (mark_read table 200 "u1" "n1" two).0 + 1
        ≡ table.count (is_unread "u1") two)
unfolding Memory.find
mark_read-unread_count_example =
    mark_read-unread_count table 200 "u1" "n1" first_noti two refl refl refl refl
