-- ===== src/Gateway/Websocket/Steps.antt =====
-- The life of the gateway as steps: socket.io gives every connection an id of its own, and calls
-- `handleDisconnect` with the data that the connection was given. A message handler of an
-- authenticated client starts with `checkRateLimit`.
use backend_core_platform.Container.JsMap
use backend_core_platform.Container.JsMap.{get-set, get-delete}
use backend_core_platform.Gateway.SocketRegistry.{get_user_by_socket, is_user_online}
use backend_core_platform.Gateway.SocketRegistry.Consistency.{IsConsistent}
use backend_core_platform.Gateway.SocketRegistry.Counting.{IsCounted}
use backend_core_platform.Gateway.Websocket.{
  CoreGateway, JwtPayload, SocketData, Handshake, RateWindow, init, handle_connection,
  handle_disconnect, check_rate_limit,
}
use backend_core_platform.Gateway.Websocket.RateLimits.{IsBounded}
use backend_core_platform.Base.{ℕ, String, ◌≡◌, true, Option, none, some, List, []}

-- The open connections, each with its `client.data`.
pub record World : Type 0 where
  pub gateway : CoreGateway
  pub clients : List (String × Option SocketData)

abbrev pub connected : (String → Option JwtPayload) → String → Handshake → World → World
connected verify id h w =
    let (gateway, socket_data, sent) = handle_connection verify id h w.gateway in
    record { gateway = gateway; clients = JsMap.set id socket_data w.clients }

abbrev pub disconnected : String → Option SocketData → World → World
disconnected id socket_data w = record {
  gateway = handle_disconnect id socket_data w.gateway;
  clients = JsMap.delete id w.clients;
}

abbrev pub messaged : ℕ → String → World → World
messaged now user w = record w { gateway = (check_rate_limit now user w.gateway).0 }

pub data Step (verify : String → Option JwtPayload) (w : World) : World → Type 0 where
  connect :
      (id : String) (h : Handshake)
      → JsMap.get id w.clients ≡ none
      → Step verify w (connected verify id h w)
  disconnect :
      (id : String) (d : Option SocketData)
      → JsMap.get id w.clients ≡ some d
      → Step verify w (disconnected id d w)
  message :
      (now : ℕ) (id : String) (d : SocketData)
      → JsMap.get id w.clients ≡ some (some d)
      → Step verify w (messaged now d.user_id w)

abbrev pub start : World
start = record { gateway = init; clients = [] }

pub data Reach (verify : String → Option JwtPayload) : World → Type 0 where
  here : Reach verify start
  next : {v w : World} → Reach verify v → Step verify v w → Reach verify w

-- The user of an authenticated connection.
abbrev pub user_of : Option (Option SocketData) → Option String
user_of (some (some d)) = some d.user_id
user_of _ = none

pub record IsSound (w : World) : Type 0 where
  pub consistent : IsConsistent w.gateway.registry
  pub counted : IsCounted w.gateway.registry
  -- The registry holds exactly the authenticated connections, each under its own user.
  pub agree :
      (s : String) → get_user_by_socket s w.gateway.registry ≡ user_of (JsMap.get s w.clients)
  pub bounded : IsBounded w.gateway
  -- A rate window is kept only for a user who is online.
  pub online :
      (u : String) (l : RateWindow)
      → JsMap.get u w.gateway.rate_limits ≡ some l
      → is_user_online u w.gateway.registry ≡ true
