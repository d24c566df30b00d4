-- ===== src/Gateway/Websocket.antt =====
-- apps/gateway/src/modules/websocket/websocket.gateway.ts. What a handler sends is a list of
-- effects; `jwt.verify` is a parameter, `none` where it throws. Logging is left out.
pub mod RateLimits
pub mod Steps
pub mod Sessions
pub mod Examples
use Prim.Native.String.{slice, len}
use text.Mathlib.Text.{starts_with}
use backend_core_platform.Container.JsMap
use backend_core_platform.Gateway.SocketRegistry.{
  SocketRegistry, get_sockets_by_user, register, unregister, is_user_online,
}
use backend_core_platform.Gateway.SocketRegistry
use backend_core_platform.Base.{
  ℕ, ◌+◌, String, Bool, true, false, not, ◌&&◌, Option, none, some, List, [], ◌∷◌, map, ltb, leb,
  if◌then◌else◌, is_empty, Value, num, str, obj, end, field,
}

pub record JwtPayload : Type 0 where
  pub sub : String
  pub email : String
  pub perm_version : ℕ
  pub iat : ℕ
  pub exp : ℕ

pub record SocketData : Type 0 where
  pub user_id : String
  pub email : String
  pub authenticated : Bool

-- The parts of `client.handshake` that `extractToken` reads.
pub record Handshake : Type 0 where
  pub query_token : Value
  pub authorization : Option String
  pub auth_token : Value

pub record RateWindow : Type 0 where
  pub count : ℕ
  pub reset_at : ℕ

pub record CoreGateway : Type 0 where
  pub registry : SocketRegistry
  pub rate_limits : List (String × RateWindow)

pub data Effect : Type 0 where
  -- `client.emit`, or `server.to(socketId).emit`.
  emits : String → String → Value → Effect
  disconnects : String → Effect
  broadcasts : String → Value → Effect

abbrev pub max_messages_per_second : ℕ
max_messages_per_second = 10

unfoldable pub init : CoreGateway
unfolding SocketRegistry.empty
init = record { registry = SocketRegistry.empty; rate_limits = [] }

abbrev pub error_message : String → Value
error_message text = obj (field "message" (str text) end)

-- A non-empty text.
abbrev text_of : Value → Option String
text_of (str s) = if is_empty s then none else some s
text_of _ = none

abbrev bearer_of : Option String → Option String
bearer_of none = none
bearer_of (some header) =
    if is_empty header
    then none
    else if starts_with header "Bearer "
    then some (slice header 7 (len header))
    else none

unfoldable pub extract_token : Handshake → Option String
extract_token h = elim (text_of h.query_token) [
  | some token ↦ some token
  | none ↦ elim (bearer_of h.authorization) [
    | some token ↦ some token
    | none ↦ text_of h.auth_token
  ]
]

abbrev refused : CoreGateway → String → String → CoreGateway × Option SocketData × List Effect
refused g client text =
    (g, none, emits client "error" (error_message text) ∷ disconnects client ∷ [])

unfoldable pub accepted :
    CoreGateway → String → JwtPayload → CoreGateway × Option SocketData × List Effect
accepted g client payload = (
  record g { registry = register payload.sub client g.registry },
  some (record { user_id = payload.sub; email = payload.email; authenticated = true }),
  emits client "authenticated" (
        obj (field "userId" (str payload.sub) (field "message" (str "Connected successfully") end)))
      ∷ [],
)

-- The new gateway, the new `client.data`, and what is sent.
unfoldable pub handle_connection :
    (String → Option JwtPayload)
    → String
    → Handshake
    → CoreGateway
    → CoreGateway × Option SocketData × List Effect
unfolding extract_token accepted
handle_connection verify client h g = elim (extract_token h) [
  | none ↦ refused g client "Authentication required"
  | some token ↦
      if is_empty token then refused g client "Authentication required" else elim (verify token) [
        | none ↦ refused g client "Invalid token"
        | some payload ↦ accepted g client payload
      ]
]

-- `socketData?.userId`
abbrev pub data_user : Option SocketData → String
data_user none = ""
data_user (some d) = d.user_id

unfoldable pub handle_disconnect : String → Option SocketData → CoreGateway → CoreGateway
handle_disconnect client socket_data g =
    let registry = unregister client g.registry in
    let user = data_user socket_data in
    record {
      registry = registry;
      rate_limits =
          if not (is_empty user) && not (is_user_online user registry)
          then JsMap.delete user g.rate_limits
          else g.rate_limits;
    }

abbrev set_window : String → ℕ → ℕ → CoreGateway → CoreGateway
set_window user count reset_at g = record g {
  rate_limits = JsMap.set user (record { count = count; reset_at = reset_at }) g.rate_limits;
}

-- At the time `now`, in milliseconds.
unfoldable pub check_rate_limit : ℕ → String → CoreGateway → CoreGateway × Bool
check_rate_limit now user g = elim (JsMap.get user g.rate_limits) [
  | none ↦ (set_window user 1 (now + 1000) g, true)
  | some limit ↦
      if ltb limit.reset_at now
      then (set_window user 1 (now + 1000) g, true)
      else if leb max_messages_per_second limit.count
      then (g, false)
      else (set_window user (limit.count + 1) limit.reset_at g, true)
]

unfoldable pub handle_ping : ℕ → String → List Effect
handle_ping now client = emits client "pong" (obj (field "timestamp" (num now) end)) ∷ []

unfoldable pub emit_to_user : String → String → Value → CoreGateway → List Effect
emit_to_user user event payload g =
    map (λ socket. emits socket event payload) (get_sockets_by_user user g.registry)

unfoldable pub broadcast : String → Value → List Effect
broadcast event payload = broadcasts event payload ∷ []
