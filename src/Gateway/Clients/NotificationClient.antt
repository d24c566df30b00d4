-- ===== src/Gateway/Clients/NotificationClient.antt =====
-- apps/gateway/src/modules/client/notification-service/notification/notification.service.ts
use backend_core_platform.Gateway.Clients.{
  Headers, Answer, Outcome, no_cookies, checked, unchecked, request, as_given,
}
use backend_core_platform.Base.{
  String, Option, none, some, [], ◌∷◌, if◌then◌else◌, is_empty, Value, concat, null,
}

abbrev pub notification_failed : String
notification_failed = "Notification service request failed"

-- `if (userToken)`
unfoldable pub get_headers : String → Option String → Headers
get_headers request_id none = record {
  request_id = request_id;
  authorization = none;
  cookie = none;
}
get_headers request_id (some token) = record {
  request_id = request_id;
  authorization = if is_empty token then none else some token;
  cookie = none;
}

unfoldable pub ping : Answer → Outcome
unfolding get_headers
ping =
    checked notification_failed no_cookies as_given
      (request "GET" "health" null (get_headers "health-check" none))

module _ (token request_id : String) where
  abbrev own : Headers
  own = get_headers request_id (some token)

  unfoldable pub create : Value → Answer → Outcome
  create dto = unchecked notification_failed (request "POST" "notification" dto own)

  unfoldable pub find_all :
      Option String → Option String → Option String → Option String → Answer → Outcome
  find_all page limit sort_by sort_order =
      unchecked notification_failed (record (request "GET" "notification/list" null own) {
        params =
            ("page", page)
            ∷ ("limit", limit)
            ∷ ("sortBy", sort_by)
            ∷ ("sortOrder", sort_order)
            ∷ [];
      })

  unfoldable pub unread_count : Answer → Outcome
  unread_count = unchecked notification_failed (request "GET" "notification/unread-count" null own)

  unfoldable pub mark_read : String → Answer → Outcome
  mark_read id =
      unchecked notification_failed
        (request "POST" (concat "notification/" (concat id "/read")) null own)

  unfoldable pub read_all : Answer → Outcome
  read_all = unchecked notification_failed (request "POST" "notification/read-all" null own)
