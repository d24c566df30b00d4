-- ===== src/Gateway/SocketRegistry.antt =====
-- apps/gateway/src/modules/websocket/socket-registry.service.ts
pub mod Consistency
pub mod Counting
pub mod Presence
pub mod Refinement
pub mod Examples
use backend_core_platform.Container.JsSet
use backend_core_platform.Container.JsMap
use backend_core_platform.Base.{
  ℕ, String, Bool, false, Option, none, some, List, [], ltb, ◌==◌, Eq_ℕ, Eq_String, if◌then◌else◌,
  is_empty, coalesce, length,
}

-- userId → set of socketIds, and socketId → userId.
pub record SocketRegistry : Type 0 where
  pub user_sockets : List (String × List String)
  pub socket_to_user : List (String × String)

unfoldable pub empty : SocketRegistry
empty = record { user_sockets = []; socket_to_user = [] }

-- `userSockets.get(userId) || new Set()`; a set object is truthy also when it is empty.
unfoldable pub get_sockets_by_user : String → SocketRegistry → List String
get_sockets_by_user user_id r = coalesce (JsMap.get user_id r.user_sockets) []

-- The set of a user is made if it is missing, and is then changed in place.
unfoldable pub register : String → String → SocketRegistry → SocketRegistry
register user_id socket_id r =
    let made =
      if JsMap.has user_id r.user_sockets
      then r.user_sockets
      else JsMap.set user_id [] r.user_sockets in
    let sockets = coalesce (JsMap.get user_id made) [] in
    record {
      user_sockets = JsMap.set user_id (JsSet.add socket_id sockets) made;
      socket_to_user = JsMap.set socket_id user_id r.socket_to_user;
    }

-- Takes a socket out of a user's set; a set that becomes empty is dropped from the map.
unfoldable pub drop_socket :
    String → String → List (String × List String) → List (String × List String)
drop_socket user_id socket_id m = elim (JsMap.get user_id m) [
  | none ↦ m
  | some sockets ↦
      let left = JsSet.delete socket_id sockets in
      if length left == 0
      then JsMap.delete user_id (JsMap.set user_id left m)
      else JsMap.set user_id left m
]

-- `if (!userId) return` passes over an unknown socket, and over an empty user id.
unfoldable pub unregister : String → SocketRegistry → SocketRegistry
unfolding drop_socket
unregister socket_id r = elim (JsMap.get socket_id r.socket_to_user) [
  | none ↦ r
  | some user_id ↦ if is_empty user_id then r else record {
    user_sockets = drop_socket user_id socket_id r.user_sockets;
    socket_to_user = JsMap.delete socket_id r.socket_to_user;
  }
]

unfoldable pub get_user_by_socket : String → SocketRegistry → Option String
get_user_by_socket socket_id r = JsMap.get socket_id r.socket_to_user

unfoldable pub is_user_online : String → SocketRegistry → Bool
is_user_online user_id r = elim (JsMap.get user_id r.user_sockets) [
  | none ↦ false
  | some sockets ↦ ltb 0 (length sockets)
]

unfoldable pub get_online_users_count : SocketRegistry → ℕ
get_online_users_count r = JsMap.size r.user_sockets

unfoldable pub get_total_connections_count : SocketRegistry → ℕ
get_total_connections_count r = JsMap.size r.socket_to_user
