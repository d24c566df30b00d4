-- ===== src/Flows/Push.antt =====
-- A notification from its creation to the sockets of its user.
use backend_core_platform.External.Table.{Table}
use backend_core_platform.Common.Errors.{Result, ok, Thrown}
use backend_core_platform.Common.JetStream.{acks, consume_batch}
use backend_core_platform.Gateway.Websocket.{CoreGateway, emits, emit_to_user}
use backend_core_platform.Gateway.SocketRegistry.{get_sockets_by_user}
use backend_core_platform.Gateway.NotificationPush.{
  body_value, new_payload, handle_notification_created,
}
use backend_core_platform.NotificationService.Notifications.{
  Notification, notification_id, CreateNotification, NotificationCreated, is_unread, create_noti,
}
use backend_core_platform.NotificationService.Notifications.Reading.{create_noti-unread_count}
use backend_core_platform.Base.{
  ℕ, suc, String, ◌≡◌, refl, ap, false, Option, none, some, [], ◌∷◌, map, is_empty, Value, prop,
  or_else, null, num, str, obj, end, field,
}

module _ (table : Table Notification notification_id) (now : ℕ) (id : String) (today : Value)
    (dto : CreateNotification) (db : table.Db) where
  -- Where the payload of the notification names no time, the event has that of today.
  abbrev created_at : Value
  created_at = or_else (prop "actionCreatedAt" (or_else dto.payload null)) today

  abbrev unread : ℕ
  unread = suc (table.count (is_unread dto.user_id) db)

  abbrev pub event : NotificationCreated
  event = record {
    notification_id = id;
    user_id = dto.user_id;
    kind = dto.kind;
    title = dto.title;
    body = dto.body;
    payload = or_else dto.payload null;
    action_created_at = created_at;
    unread_count = unread;
  }

  abbrev body_shown : Option String → Value
  body_shown none = null
  body_shown (some text) = str text

  -- What the sockets of the user are sent.
  abbrev pub message_sent : Value
  message_sent = obj (
      field "notificationId" (str id) (
        field "userId" (str dto.user_id) (
          field "type" (str dto.kind) (
            field "title" (str dto.title) (
              field "body" (body_shown dto.body)
                (field "createdAt" created_at (field "unreadCount" (num unread) end)))))))

  body_same : (b : Option String) → body_value b ≡ body_shown b
  body_same none = refl
  body_same (some text) = refl

  payload_same : new_payload event ≡ message_sent
  unfolding new_payload
  payload_same = rw (body_same dto.body) refl

  -- A notification under a new id for a user, with an event that the schema accepts: `createNoti`
  -- publishes the event, whose message is acknowledged by the gateway; every socket that the user
  -- has then is sent one `notification:new` with the id, the user, the type, the title, the body and
  -- the time of the notification, and with a number of unread notifications one higher than before
  -- it; no other socket is sent anything. Assumed: the message parses to the event.
  pub create_noti-push :
      (refused : NotificationCreated → Option Thrown) (parse : String → Result NotificationCreated)
      (msg : String) (g : CoreGateway)
      → is_empty dto.user_id ≡ false
      → table.find id db ≡ none
      → refused event ≡ none
      → parse msg ≡ ok event
      → ((create_noti table now id today refused dto db).published ≡ some event)
        × (consume_batch (handle_notification_created parse g) ((false, msg) ∷ []) [] ≡ (
          map
              (λ socket. emits socket "notification:new" message_sent)
              (get_sockets_by_user dto.user_id g.registry),
          acks msg ∷ [],
        ))
  unfolding consume_batch handle_notification_created emit_to_user
  create_noti-push refused parse msg g given new accepted parsed = (
    ap (λ made. made.published)
        (create_noti-unread_count table now id today refused dto db given new accepted),
    rw (parsed, handle_notification_created) (rw payload_same refl),
  )
