-- ===== src/Gateway/SocketRegistry/Examples.antt =====
-- A history of two users: one comes with two sockets and loses one of them, the other comes and goes.
use backend_core_platform.Container.JsSet
use backend_core_platform.Gateway.SocketRegistry.{
  get_user_by_socket, get_sockets_by_user, is_user_online,
}
use backend_core_platform.Gateway.SocketRegistry.Refinement.{
  Event, joins, leaves, after, user_after, IsHistory, after_refines,
}
use backend_core_platform.Base.{String, ◌≡◌, refl, ◌↔◌, true, some, List, [], ◌∷◌, arith, eq_iff}

abbrev past : List Event
past = leaves "s1" ∷ leaves "s3" ∷ joins "u2" "s3" ∷ joins "u1" "s2" ∷ joins "u1" "s1" ∷ []

past-IsHistory : IsHistory past
past-IsHistory = (
  refl,
  ground (arith, eq_iff "u2" ""),
  (refl, ground (arith, eq_iff "u1" ""), (refl, ground (arith, eq_iff "u1" ""), tt)),
)

after_refines_example :
    (get_user_by_socket "s2" (after past) ≡ user_after past "s2")
    × ((JsSet.has "s2" (get_sockets_by_user "u1" (after past)) ≡ true)
        ↔ (user_after past "s2" ≡ some "u1"))
    × ((is_user_online "u1" (after past) ≡ true) ↔ ((t : String) × (user_after past t ≡ some "u1")))
after_refines_example = after_refines past "u1" "s2" past-IsHistory
