-- ===== src/Gateway/NotificationEvents/Admission.antt =====
-- Who reaches the notification service over a websocket, and who hears of it.
use backend_core_platform.Container.JsSet
use backend_core_platform.Common.Errors.Filter.{ErrorReply}
use backend_core_platform.Gateway.SocketRegistry.{get_user_by_socket}
use backend_core_platform.Gateway.Websocket.{
  SocketData, CoreGateway, emits, check_rate_limit, emit_to_user,
}
use backend_core_platform.Gateway.Clients.Relaying.{reply_json}
use backend_core_platform.Gateway.Clients.{Sent, answers, unchecked}
use backend_core_platform.Gateway.Clients.NotificationClient.{mark_read, unread_count, get_headers}
use backend_core_platform.Gateway.NotificationEvents.{
  Parsed, valid, Handled, guard, report, after_read, read_one, handle_notification_read,
  read_payload, bearer,
}
use backend_core_platform.Base.{
  ℕ, String, ◌≡◌, refl, ◌↔◌, true, Option, some, List, [], ◌∷◌, map, All, Value, undefined,
}
use backend_core_platform.Gateway.NotificationEvents.Promises.{IsAdmitted, lines, Promise}

module _ (sign_internal_token : String → String) (client request_id : String) where
  abbrev IsSigned : SocketData → Sent → Type 0
  IsSigned d s = s.headers ≡ get_headers request_id (some (bearer sign_internal_token d))

  -- The ways in which a handler ends: an error to the client without a request; an error to the client
  -- after requests for an admitted user; or one message to each socket of an admitted user, told by
  -- the map from sockets to users.
  pub data Ends (now : ℕ) (socket_data : Option SocketData) (g : CoreGateway) (promise : Promise)
      : Handled → Type 0 where
    stops :
        (g' : CoreGateway) (message : Value)
        → promise.Refuses
        → Ends now socket_data g promise
            (record { gateway = g'; sent = []; effects = emits client "error" message ∷ [] })
    fails :
        (d : SocketData)
        → IsAdmitted now socket_data g d
        → (g' : CoreGateway) (sent : List Sent) (message : Value) → All (IsSigned d) sent
        → promise.Fails (lines sent)
        → Ends now socket_data g promise
            (record { gateway = g'; sent = sent; effects = emits client "error" message ∷ [] })
    informs :
        (d : SocketData)
        → IsAdmitted now socket_data g d
        → (g' : CoreGateway) (sent : List Sent) (payload : Value) (sockets : List String)
        → All (IsSigned d) sent
        → promise.Tells (lines sent) payload
        → ((s : String)
            → (JsSet.has s sockets ≡ true) ↔ (get_user_by_socket s g.registry ≡ some d.user_id))
        → Ends now socket_data g promise (record {
          gateway = g';
          sent = sent;
          effects = map (λ s. emits s "notification:updated" payload) sockets;
        })

  -- For an authenticated socket within the rate limit and a well-formed message: whatever status the
  -- notification service answers both requests with, where the second answer is an error in the
  -- form of the platform's services, the sockets of the user are told that the notification is
  -- read, with an undefined number of unread ones.
  pub handle_notification_read_unchecked :
      (safe_parse : Value → Parsed) (now : ℕ) (d : SocketData) (body data_ : Value) (id : String)
      (status : ℕ) (r : ErrorReply) (g : CoreGateway)
      → IsAdmitted now (some d) g d
      → safe_parse body ≡ valid id
      → (handle_notification_read sign_internal_token client request_id safe_parse now
          (some d)
          body
          (answers status data_ [])
          (answers r.status_code (reply_json r) [])
          g).effects
        ≡ emit_to_user d.user_id "notification:updated"
            (read_payload id undefined)
            (check_rate_limit now d.user_id g).0
  unfolding handle_notification_read guard read_one after_read report mark_read unread_count
      unchecked
  handle_notification_read_unchecked safe_parse now d body data_ id status r g is_admitted right =
      rw is_admitted.authenticated (rw is_admitted.allowed (rw (right, read_one) refl))
