-- ===== src/Gateway/Websocket/Examples.antt =====
-- Concrete histories of the gateway.
use backend_core_platform.Container.JsMap
use backend_core_platform.Gateway.Websocket.{JwtPayload, Handshake, init, handle_connection}
use backend_core_platform.Gateway.Websocket.RateLimits.{allowed_calls, allowed_calls_fresh}
use backend_core_platform.Gateway.Websocket.Steps.{
  World, connect, Reach, here, next, start, IsSound,
}
use backend_core_platform.Gateway.Websocket.Sessions.{NamesUsers, Reach-IsSound}
use backend_core_platform.Base.{
  String, ◌≡◌, refl, inl, Option, none, some, [], ◌∷◌, arith, eq_iff, ◌==◌, Eq_ℕ, Eq_String,
  if◌then◌else◌, undefined, str,
}

abbrev verify : String → Option JwtPayload
verify token =
    if token == "good"
    then some (record { sub = "u1"; email = "a@x.org"; perm_version = 1; iat = 0; exp = 900 })
    else none

abbrev with_token : Handshake
with_token = record { query_token = str "good"; authorization = none; auth_token = undefined }

names : NamesUsers verify
names t p e = ground (arith, e, eq_iff "u1" "")

abbrev connected_world : World
connected_world = record {
  gateway = (handle_connection verify "s1" with_token init).0;
  clients = JsMap.set "s1" (handle_connection verify "s1" with_token init).1 [];
}

no_client : JsMap.get "s1" start.clients ≡ none
unfolding JsMap.get
no_client = refl

reached : Reach verify connected_world
reached = next here (connect "s1" with_token no_client)

Reach-IsSound_example : IsSound connected_world
Reach-IsSound_example = Reach-IsSound verify names reached

allowed_calls_fresh_example :
    allowed_calls "u1" (5 ∷ 6 ∷ 7 ∷ 8 ∷ 9 ∷ 10 ∷ 11 ∷ 12 ∷ 13 ∷ 14 ∷ 15 ∷ 1005 ∷ []) init ≡ 10
unfolding JsMap.get init
allowed_calls_fresh_example =
    allowed_calls_fresh "u1" 5 (6 ∷ 7 ∷ 8 ∷ 9 ∷ 10 ∷ 11 ∷ 12 ∷ 13 ∷ 14 ∷ 15 ∷ 1005 ∷ []) init
      (inl refl) (omega arith)
