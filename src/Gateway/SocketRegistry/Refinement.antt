-- ===== src/Gateway/SocketRegistry/Refinement.antt =====
-- The registry as the map from sockets to users that a history of connections describes.
use backend_core_platform.Container.JsSet
use backend_core_platform.Container.JsMap
use backend_core_platform.Gateway.SocketRegistry.{
  SocketRegistry, empty, register, unregister, get_user_by_socket, get_sockets_by_user,
  is_user_online,
}
use backend_core_platform.Gateway.SocketRegistry.Consistency.{
  IsConsistent, register-IsConsistent, unregister-IsConsistent, empty-IsConsistent,
  get_user_by_socket-register, get_user_by_socket-unregister, unregister_unknown,
}
use backend_core_platform.Gateway.SocketRegistry.Presence.{is_user_online_iff}
use backend_core_platform.Base.{
  String, ◌≡◌, refl, sym, ◌∙◌, ◌≢◌, ◌↔◌, inl, inr, true, Option, none, some, List, [], ◌∷◌, arith,
  eq_iff, ◌==◌, Eq_ℕ, Eq_String, if◌then◌else◌, Option-cases,
}

-- A connection of a user by a socket, or the end of a socket.
pub data Event : Type 0 where
  joins : String → String → Event
  leaves : String → Event

-- The registry after a history, whose last event comes first.
abbrev pub after : List Event → SocketRegistry
after [] = empty
after (joins user socket ∷ past) = register user socket (after past)
after (leaves socket ∷ past) = unregister socket (after past)

-- The user whose connection a socket is after the history.
abbrev pub user_after : List Event → String → Option String
user_after [] s = none
user_after (joins user socket ∷ past) s = if socket == s then some user else user_after past s
user_after (leaves socket ∷ past) s = if socket == s then none else user_after past s

-- Every connection has a user and a socket that is not in use.
abbrev pub IsHistory : List Event → Type 0
IsHistory [] = Unit {0}
IsHistory (joins user socket ∷ past) =
    (user_after past socket ≡ none) × (user ≢ "") × IsHistory past
IsHistory (leaves socket ∷ past) = IsHistory past

unregister_user :
    (socket s : String) (r : SocketRegistry)
    → IsConsistent r
    → get_user_by_socket s (unregister socket r)
      ≡ (if socket == s then none else get_user_by_socket s r)
unregister_user socket s r c = elim (Option-cases (get_user_by_socket socket r)) [
  | inl unknown ↦
      rw (unregister_unknown socket r unknown) (ground (arith, unknown, eq_iff socket s))
  | inr (u, known) ↦ get_user_by_socket-unregister socket u r c known s
]

after_both :
    (past : List Event)
    → IsHistory past
    → IsConsistent (after past)
      × ((s : String) → get_user_by_socket s (after past) ≡ user_after past s)
unfolding empty get_user_by_socket JsMap.get
after_both [] h = (empty-IsConsistent, λ s. refl)
after_both (joins user socket ∷ past) (fresh, named, h) =
    let (c, same) = after_both past h in
    (
      register-IsConsistent user socket (after past) c (same socket ∙ fresh) named,
      λ s. ground (arith, get_user_by_socket-register user socket s (after past), same s),
    )
after_both (leaves socket ∷ past) h =
    let (c, same) = after_both past h in
    (
      unregister-IsConsistent socket (after past) c,
      λ s. ground (arith, unregister_user socket s (after past) c, same s),
    )

sockets_iff :
    (u s : String) (r : SocketRegistry)
    → IsConsistent r
    → (JsSet.has s (get_sockets_by_user u r) ≡ true) ↔ (get_user_by_socket s r ≡ some u)
unfolding get_sockets_by_user
sockets_iff u s r c = (c.forward u s, c.backward u s)

-- After any history of connections and ends of sockets, where each connection has a user and a socket
-- that is not in use: the registry gives for every socket the user of its last connection, and
-- none if it has ended or has never come; the sockets of a user are exactly those whose user that
-- is; and a user is online exactly when there is such a socket.
pub after_refines :
    (past : List Event) (u s : String)
    → IsHistory past
    → (get_user_by_socket s (after past) ≡ user_after past s)
      × ((JsSet.has s (get_sockets_by_user u (after past)) ≡ true) ↔ (user_after past s ≡ some u))
      × ((is_user_online u (after past) ≡ true) ↔ ((t : String) × (user_after past t ≡ some u)))
after_refines past u s h =
    let (c, same) = after_both past h in
    let online = is_user_online_iff u (after past) c in
    let mine = sockets_iff u s (after past) c in
    (
      same s,
      (λ held. sym (same s) ∙ mine.0 held, λ e. mine.1 (same s ∙ e)),
      (
        λ e. let (t, known) = online.0 e in (t, sym (same t) ∙ known),
        λ (t, known). online.1 (t, same t ∙ known),
      ),
    )
