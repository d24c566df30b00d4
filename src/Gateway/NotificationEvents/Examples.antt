-- ===== src/Gateway/NotificationEvents/Examples.antt =====
-- A user with one socket marks a notification as read.
use backend_core_platform.Container.JsMap
use backend_core_platform.Common.Errors.Filter.{ErrorReply}
use backend_core_platform.Gateway.SocketRegistry
use backend_core_platform.Gateway.SocketRegistry.{register}
use backend_core_platform.Gateway.Websocket.{
  SocketData, CoreGateway, check_rate_limit, emit_to_user,
}
use backend_core_platform.Gateway.Clients.{answers}
use backend_core_platform.Gateway.Clients.Relaying.{reply_json}
use backend_core_platform.Gateway.NotificationEvents.{
  Parsed, valid, invalid, handle_notification_read, read_payload,
}
use backend_core_platform.Gateway.NotificationEvents.Promises.{IsAdmitted}
use backend_core_platform.Gateway.NotificationEvents.Admission.{handle_notification_read_unchecked}
use backend_core_platform.Base.{
  String, ◌≡◌, refl, true, none, some, [], Value, concat, undefined, num, str, obj, end, field,
}

abbrev data_of_ann : SocketData
data_of_ann = record { user_id = "u1"; email = "ann@x.org"; authenticated = true }

abbrev gateway : CoreGateway
gateway = record { registry = register "u1" "s1" SocketRegistry.empty; rate_limits = [] }

abbrev safe_parse : Value → Parsed
safe_parse (str id) = valid id
safe_parse v = invalid (str "Expected string")

abbrev sign_internal_token : String → String
sign_internal_token user = concat "token of " user

abbrev refusal : ErrorReply
refusal = record {
  status_code = 404;
  message_key = "NOTI_NOT_FOUND";
  message = "Notification not found";
  errors = none;
  log = none;
}

abbrev counted : Value
counted = obj (field "count" (num 2) (field "updated" (num 1) end))

ann-IsAdmitted : IsAdmitted 1000 (some data_of_ann) gateway data_of_ann
unfolding check_rate_limit JsMap.get
ann-IsAdmitted = record { data_of = refl; authenticated = refl; allowed = refl }

handle_notification_read_unchecked_example :
    (handle_notification_read sign_internal_token "s1" "r1" safe_parse 1000
      (some data_of_ann)
      (str "n1")
      (answers 404 (reply_json refusal) [])
      (answers 404 (reply_json refusal) [])
      gateway).effects
    ≡ emit_to_user "u1" "notification:updated"
        (read_payload "n1" undefined)
        (check_rate_limit 1000 "u1" gateway).0
handle_notification_read_unchecked_example =
    handle_notification_read_unchecked sign_internal_token "s1" "r1" safe_parse 1000 data_of_ann
      (str "n1") (reply_json refusal) "n1" 404 refusal gateway ann-IsAdmitted refl
