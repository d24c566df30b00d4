-- ===== src/Gateway/SocketRegistry/Counting.antt =====
-- The counts of users and connections.
use backend_core_platform.Container.JsSet
use backend_core_platform.Container.JsSet.{
  has-add, has-delete, add-IsDistinct, delete-IsDistinct, length-add, length-delete, delete-add,
}
use backend_core_platform.Container.JsMap
use backend_core_platform.Container.JsMap.{
  IsKeyed, total, get-set, get-delete, set-IsKeyed, delete-IsKeyed, size-set_new, total-set_new,
  total-set_old, total-delete, size-delete,
}
use backend_core_platform.Gateway.SocketRegistry.{
  SocketRegistry, empty, register, drop_socket, unregister, get_user_by_socket,
  get_total_connections_count,
}
use backend_core_platform.Gateway.SocketRegistry.Consistency.{
  IsConsistent, sockets_in, sockets_in-register, lists-fresh, unregister_known, unregister_unknown,
  sockets_in-drop_socket,
}
use backend_core_platform.Base.{
  ◌+◌, String, ◌≡◌, refl, inl, inr, true, none, some, [], arith, eq_refl, Bool-cases, Option-cases,
  length,
}

-- The entries of the forward map are counted right: no key and no socket twice, and as many
-- sockets listed as there are entries in the backward map.
pub record IsCounted (r : SocketRegistry) : Type 0 where
  pub users_keyed : IsKeyed r.user_sockets
  pub sockets_keyed : IsKeyed r.socket_to_user
  pub distinct : (u : String) → JsSet.IsDistinct (sockets_in u r.user_sockets)
  pub counted : total length r.user_sockets ≡ get_total_connections_count r

module _ (u s : String) (r : SocketRegistry) (c : IsConsistent r)
    (fresh : get_user_by_socket s r ≡ none) (k : IsCounted r) where
  total-register : total length (register u s r).user_sockets ≡ total length r.user_sockets + 1
  unfolding register JsSet.has
  total-register = elim (Option-cases (JsMap.get u r.user_sockets)) [
    | inl new ↦
        let made = JsMap.set u [] r.user_sockets in
        ground (
          arith,
          eq_refl u,
          get-set u u [] r.user_sockets,
          length-add s [] refl,
          total-set_new length u [] r.user_sockets new,
          total-set_old length u (JsSet.add s []) [] made,
        )
    | inr (xs, old) ↦ ground (
      arith,
      lists-fresh r s c fresh u,
      length-add s xs,
      total-set_old length u (JsSet.add s xs) xs r.user_sockets old,
    )
  ]

  user_sockets-register-IsKeyed : IsKeyed (register u s r).user_sockets
  unfolding register
  user_sockets-register-IsKeyed = elim (Bool-cases (JsMap.has u r.user_sockets)) [
    | inl old ↦ rw old (set-IsKeyed u _ r.user_sockets k.users_keyed)
    | inr new ↦ rw new (set-IsKeyed u _ _ (set-IsKeyed u [] r.user_sockets k.users_keyed))
  ]

  size-register : get_total_connections_count (register u s r) ≡ get_total_connections_count r + 1
  unfolding register get_total_connections_count get_user_by_socket
  size-register = size-set_new s u r.socket_to_user fresh

  pub register-IsCounted : IsCounted (register u s r)
  unfolding register
  register-IsCounted = record {
    users_keyed = user_sockets-register-IsKeyed;
    sockets_keyed = set-IsKeyed s u r.socket_to_user k.sockets_keyed;
    distinct = λ v. ground (
      arith,
      sockets_in-register u s v r,
      k.distinct u,
      k.distinct v,
      add-IsDistinct s (sockets_in u r.user_sockets),
    );
    counted = omega (arith, total-register, size-register, k.counted);
  }

module _ (s u : String) (r : SocketRegistry) (c : IsConsistent r)
    (known : get_user_by_socket s r ≡ some u) (k : IsCounted r) where
  held : JsSet.has s (sockets_in u r.user_sockets) ≡ true
  held = c.backward u s known

  total-drop_socket :
      total length (drop_socket u s r.user_sockets) + 1 ≡ total length r.user_sockets
  unfolding drop_socket JsSet.has
  total-drop_socket = elim (Option-cases (JsMap.get u r.user_sockets)) [
    | inl absent ↦ ground (arith, held)
    | inr (xs, old) ↦
        let left = JsSet.delete s xs in
        let changed = JsMap.set u left r.user_sockets in
        ground (
          arith,
          eq_refl u,
          held,
          k.distinct u,
          length-delete s xs,
          total-set_old length u left xs r.user_sockets old,
          get-set u u left r.user_sockets,
          total-delete length u left changed (set-IsKeyed u left r.user_sockets k.users_keyed),
        )
  ]

  drop_socket-IsKeyed : IsKeyed (drop_socket u s r.user_sockets)
  unfolding drop_socket
  drop_socket-IsKeyed = elim (Option-cases (JsMap.get u r.user_sockets)) [
    | inl absent ↦ rw (absent, drop_socket) k.users_keyed
    | inr (xs, old) ↦
        let left = JsSet.delete s xs in
        let changed = set-IsKeyed u left r.user_sockets k.users_keyed in
        ground (arith, old, changed, delete-IsKeyed u (JsMap.set u left r.user_sockets) changed)
  ]

  known-IsCounted : IsCounted (unregister s r)
  unfolding get_total_connections_count get_user_by_socket
  known-IsCounted = rw (unregister_known s u r c known) (record {
    users_keyed = drop_socket-IsKeyed;
    sockets_keyed = delete-IsKeyed s r.socket_to_user k.sockets_keyed;
    distinct = λ v. ground (
      arith,
      sockets_in-drop_socket u s v r.user_sockets,
      k.distinct u,
      k.distinct v,
      delete-IsDistinct s (sockets_in u r.user_sockets),
    );
    counted = omega (
      arith,
      total-drop_socket,
      k.counted,
      size-delete s u r.socket_to_user k.sockets_keyed known,
    );
  })

-- Unregistering any socket id keeps the counts right, where the maps are consistent: no user and no
-- socket is listed twice, and there are as many sockets listed as connections counted.
pub unregister-IsCounted :
    (s : String) (r : SocketRegistry) → IsConsistent r → IsCounted r → IsCounted (unregister s r)
unregister-IsCounted s r c k = elim (Option-cases (get_user_by_socket s r)) [
  | inl unknown ↦ rw (unregister_unknown s r unknown) k
  | inr (u, known) ↦ known-IsCounted s u r c known k
]

pub empty-IsCounted : IsCounted empty
unfolding empty get_total_connections_count JsMap.get total
empty-IsCounted = record {
  users_keyed = tt;
  sockets_keyed = tt;
  distinct = λ u. tt;
  counted = refl;
}
