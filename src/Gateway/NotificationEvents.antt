-- ===== src/Gateway/NotificationEvents.antt =====
-- apps/gateway/src/modules/client/notification-service/notification/events/notification-ws.gateway.ts:
-- the websocket messages that mark notifications as read. The schema of the message and the signing
-- of tokens are parameters.
pub mod Promises
pub mod Admission
pub mod Examples
use backend_core_platform.Common.Errors.{Result, ok, throws}
use backend_core_platform.Gateway.Websocket.{
  SocketData, CoreGateway, Effect, emits, check_rate_limit, emit_to_user, error_message,
}
use backend_core_platform.Gateway.Clients.{Sent, Answer, Outcome}
use backend_core_platform.Gateway.Clients.NotificationClient.{mark_read, unread_count, read_all}
use backend_core_platform.Base.{
  ℕ, String, ◌≡◌, refl, ◌⊎◌, inl, inr, not, Option, none, some, List, [], ◌∷◌, if◌then◌else◌,
  coalesce, Value, lookup, concat, undefined, null, bool, num, str, arr, obj, end, field,
}

-- What `safeParse` gives: the id of a notification, or the flattened errors.
pub data Parsed : Type 0 where
  valid : String → Parsed
  invalid : Value → Parsed

pub Parsed-cases :
    (p : Parsed) → ((id : String) × (p ≡ valid id)) ⊎ ((errors : Value) × (p ≡ invalid errors))
Parsed-cases (valid id) = inl (id, refl)
Parsed-cases (invalid errors) = inr (errors, refl)

-- What a handler does: the gateway after it, the requests to the notification service and the
-- messages to sockets.
pub record Handled : Type 0 where
  pub gateway : CoreGateway
  pub sent : List Sent
  pub effects : List Effect

abbrev pub error_to : String → Value → List Effect
error_to client v = emits client "error" v ∷ []

abbrev pub read_payload : String → Value → Value
read_payload id count =
    obj (
      field "action" (str "read") (field "notificationId" (str id) (field "unreadCount" count end)))

abbrev pub read_all_payload : Value
read_all_payload = obj (field "action" (str "read-all") (field "unreadCount" (num 0) end))

-- `const { count } = value` throws where the value is null or undefined.
abbrev pub destructured : String → Value → Option Value
destructured key undefined = none
destructured key null = none
destructured key (bool b) = some undefined
destructured key (num n) = some undefined
destructured key (str s) = some undefined
destructured key (obj fields) = some (lookup key fields)
destructured key (arr items) = some undefined

-- A field of the data of a call, or none where the code throws before it has the field.
abbrev pub field_of : String → Result Value → Option Value
field_of key (ok v) = destructured key v
field_of key (throws t) = none

abbrev pub bearer : (String → String) → SocketData → String
bearer sign_internal_token d = concat "Bearer " (sign_internal_token d.user_id)

-- The guards of both handlers: the message of the error with which a handler returns, or the data
-- of the socket.
pub data Guarded : Type 0 where
  denied : String → Guarded
  admitted : SocketData → Guarded

unfoldable pub guard : ℕ → Option SocketData → CoreGateway → CoreGateway × Guarded
guard now none g = (g, denied "Not authenticated")
guard now (some d) g =
    if not d.authenticated
    then (g, denied "Not authenticated")
    else let (g', allowed) = check_rate_limit now d.user_id g in
      (g', if allowed then admitted d else denied "Rate limit exceeded, please slow down")

module _ (sign_internal_token : String → String) (client request_id : String) where
  abbrev answered : CoreGateway → List Sent → List Effect → Handled
  answered g sent effects = record { gateway = g; sent = sent; effects = effects }

  -- The message to all sockets of the user, or the error where there is no count.
  unfoldable pub report : CoreGateway → String → List Sent → String → Value → Option Value → Handled
  report g user sent problem payload none =
      answered g sent (error_to client (error_message problem))
  report g user sent problem payload (some count) =
      answered g sent (emit_to_user user "notification:updated" payload g)

  -- After `markRead`, with the answer to `unreadCount`, which is only asked for where that is fine.
  unfoldable pub after_read : CoreGateway → SocketData → String → Outcome → Answer → Handled
  unfolding report unread_count
  after_read g d id read counted =
      let asked = unread_count (bearer sign_internal_token d) request_id counted in
      let problem : String = "Failed to mark notification as read" in
      elim read.result [
        | throws t ↦ answered g (read.sent ∷ []) (error_to client (error_message problem))
        | ok v ↦
            report g d.user_id (read.sent ∷ asked.sent ∷ []) problem
              (read_payload id (coalesce (field_of "count" asked.result) undefined))
              (field_of "count" asked.result)
      ]

  unfoldable pub read_one :
      (Value → Parsed) → Value → CoreGateway → Guarded → Answer → Answer → Handled
  unfolding after_read mark_read
  read_one safe_parse body g (denied message) read counted =
      answered g [] (error_to client (error_message message))
  read_one safe_parse body g (admitted d) read counted = elim (safe_parse body) [
    | invalid errors ↦ answered g [] (
        error_to client (obj (field "message" (str "Invalid payload") (field "errors" errors end))))
    | valid id ↦
        after_read g d id (mark_read (bearer sign_internal_token d) request_id id read) counted
  ]

  -- With the answers that the notification service would give to the two requests.
  unfoldable pub handle_notification_read :
      (Value → Parsed) → ℕ → Option SocketData → Value → Answer → Answer → CoreGateway → Handled
  unfolding guard read_one
  handle_notification_read safe_parse now socket_data body read counted g =
      let (g', guarded) = guard now socket_data g in
      read_one safe_parse body g' guarded read counted

  unfoldable pub read_every : CoreGateway → Guarded → Answer → Handled
  unfolding report read_all
  read_every g (denied message) answer = answered g [] (error_to client (error_message message))
  read_every g (admitted d) answer =
      let asked = read_all (bearer sign_internal_token d) request_id answer in
      report g d.user_id (asked.sent ∷ []) "Failed to mark all notifications as read"
        read_all_payload (field_of "updated" asked.result)

  unfoldable pub handle_notification_read_all :
      ℕ → Option SocketData → Answer → CoreGateway → Handled
  unfolding guard read_every
  handle_notification_read_all now socket_data answer g =
      let (g', guarded) = guard now socket_data g in read_every g' guarded answer
