-- ===== src/Gateway/NotificationPush.antt =====
-- apps/gateway/src/modules/client/notification-service/notification/events/
-- notification-jetstream.consumer.ts: the handler that pushes a created notification to the sockets
-- of its user. JSON with the schema after it is a parameter.
use backend_core_platform.Common.Errors.{Result, ok, throws}
use backend_core_platform.Gateway.Websocket.{CoreGateway, Effect, emit_to_user}
use backend_core_platform.NotificationService.Notifications.{NotificationCreated}
use backend_core_platform.Base.{
  String, Bool, true, Option, none, some, List, ◌++◌, Value, null, num, str, obj, end, field,
}

abbrev pub body_value : Option String → Value
body_value none = null
body_value (some s) = str s

-- The payload of `notification:new`.
unfoldable pub new_payload : NotificationCreated → Value
new_payload e = obj (
    field "notificationId" (str e.notification_id) (
      field "userId" (str e.user_id) (
        field "type" (str e.kind) (
          field "title" (str e.title) (
            field "body" (body_value e.body) (
              field "createdAt" e.action_created_at
                (field "unreadCount" (num e.unread_count) end)))))))

-- The messages to sockets so far, and those that the event adds.
unfoldable pub handle_notification_created :
    (String → Result NotificationCreated)
    → CoreGateway
    → String
    → List Effect
    → List Effect × Result Bool
handle_notification_created parse g msg effects = elim (parse msg) [
  | throws t ↦ (effects, throws t)
  | ok e ↦ (effects ++ emit_to_user e.user_id "notification:new" (new_payload e) g, ok true)
]
