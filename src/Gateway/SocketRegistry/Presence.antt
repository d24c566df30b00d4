-- ===== src/Gateway/SocketRegistry/Presence.antt =====
-- Who is online, and a connection that comes and goes.
use backend_core_platform.Container.JsSet
use backend_core_platform.Container.JsSet.{
  has-add, has-delete, add-IsDistinct, delete-IsDistinct, length-add, length-delete, delete-add,
}
use backend_core_platform.Gateway.SocketRegistry.{
  SocketRegistry, register, unregister, get_user_by_socket, is_user_online,
}
use backend_core_platform.Gateway.SocketRegistry.Consistency.{
  IsConsistent, sockets_in, sockets_in-register, get_user_by_socket-register, lists-fresh,
  register-IsConsistent, get_user_by_socket-unregister, sockets_in-unregister,
}
use backend_core_platform.Base.{
  String, ◌≡◌, sym, ◌∙◌, ◌≢◌, ◌↔◌, true, none, some, List, [], ◌∷◌, arith, eq_iff, eq_refl, ltb,
  length,
}

-- Online means that the user's set holds a socket.
is_user_online-sockets_in :
    (u : String) (r : SocketRegistry)
    → is_user_online u r ≡ ltb 0 (length (sockets_in u r.user_sockets))
unfolding is_user_online
is_user_online-sockets_in u r = ground arith

some_socket : (xs : List String) → ltb 0 (length xs) ≡ true → (s : String) × (JsSet.has s xs ≡ true)
unfolding JsSet.has
some_socket [] h = cc
some_socket (x ∷ xs) h = (x, ground (arith, eq_refl x))

some_length : (s : String) (xs : List String) → JsSet.has s xs ≡ true → ltb 0 (length xs) ≡ true
unfolding JsSet.has
some_length s [] h = cc
some_length s (x ∷ xs) h = ground arith

add_nonempty : (s : String) (xs : List String) → ltb 0 (length (JsSet.add s xs)) ≡ true
add_nonempty s xs = some_length s (JsSet.add s xs) (ground (arith, has-add s s xs, eq_refl s))

-- In a consistent registry a user is online exactly when some socket maps to the user.
pub is_user_online_iff :
    (u : String) (r : SocketRegistry)
    → IsConsistent r
    → (is_user_online u r ≡ true) ↔ ((s : String) × (get_user_by_socket s r ≡ some u))
is_user_online_iff u r c = (
  λ h.
      let (s, held) =
        some_socket (sockets_in u r.user_sockets) (sym (is_user_online-sockets_in u r) ∙ h) in
      (s, c.forward u s held),
  λ (s, known).
      is_user_online-sockets_in u r
      ∙ some_length s (sockets_in u r.user_sockets) (c.backward u s known),
)

module _ (u s : String) (r : SocketRegistry) (c : IsConsistent r)
    (fresh : get_user_by_socket s r ≡ none) (named : u ≢ "") where
  after : SocketRegistry
  after = register u s r

  after-IsConsistent : IsConsistent after
  unfolding after
  after-IsConsistent = register-IsConsistent u s r c fresh named

  after_known : get_user_by_socket s after ≡ some u
  unfolding after
  after_known = ground (arith, get_user_by_socket-register u s s r, eq_refl s)

  user_restored : (t : String) → get_user_by_socket t (unregister s after) ≡ get_user_by_socket t r
  unfolding after
  user_restored t = ground (
    arith,
    get_user_by_socket-unregister s u after after-IsConsistent after_known t,
    get_user_by_socket-register u s t r,
    eq_iff s t,
    fresh,
  )

  sockets_restored :
      (v : String) → sockets_in v (unregister s after).user_sockets ≡ sockets_in v r.user_sockets
  unfolding after
  sockets_restored v = ground (
    arith,
    sockets_in-unregister s u after after-IsConsistent after_known v,
    eq_refl u,
    eq_iff u v,
    sockets_in-register u s v r,
    sockets_in-register u s u r,
    lists-fresh r s c fresh u,
    delete-add s (sockets_in u r.user_sockets),
  )

  online_restored : (v : String) → is_user_online v (unregister s after) ≡ is_user_online v r
  online_restored v =
      is_user_online-sockets_in v (unregister s after)
      ∙ (rw (sockets_restored v) (sym (is_user_online-sockets_in v r)))

-- In a consistent registry, registering a new socket for a user with an id and unregistering it
-- again leaves every socket with the user that it had, the new one with none, and every user is
-- online as before.
pub unregister-register :
    (u s : String) (r : SocketRegistry)
    → IsConsistent r
    → get_user_by_socket s r ≡ none
    → u ≢ ""
    → ((t : String) → get_user_by_socket t (unregister s (register u s r)) ≡ get_user_by_socket t r)
      × ((v : String) → is_user_online v (unregister s (register u s r)) ≡ is_user_online v r)
unfolding after
unregister-register u s r c fresh named =
    (user_restored u s r c fresh named, online_restored u s r c fresh named)

-- A new connection takes nobody offline.
pub is_user_online-register :
    (u s v : String) (r : SocketRegistry)
    → is_user_online v r ≡ true
    → is_user_online v (register u s r) ≡ true
is_user_online-register u s v r h = ground (
  arith,
  is_user_online-sockets_in v r,
  is_user_online-sockets_in v (register u s r),
  sockets_in-register u s v r,
  eq_iff u v,
  add_nonempty s (sockets_in u r.user_sockets),
)

pub is_user_online-register_self :
    (u s : String) (r : SocketRegistry) → is_user_online u (register u s r) ≡ true
is_user_online-register_self u s r = ground (
  arith,
  is_user_online-sockets_in u (register u s r),
  sockets_in-register u s u r,
  eq_refl u,
  add_nonempty s (sockets_in u r.user_sockets),
)

-- A closed connection concerns its own user only.
pub is_user_online-unregister_other :
    (s u v : String) (r : SocketRegistry)
    → IsConsistent r
    → get_user_by_socket s r ≡ some u
    → u ≢ v
    → is_user_online v (unregister s r) ≡ is_user_online v r
is_user_online-unregister_other s u v r c known ne = ground (
  arith,
  is_user_online-sockets_in v r,
  is_user_online-sockets_in v (unregister s r),
  eq_iff u v,
  sockets_in-unregister s u r c known v,
)
