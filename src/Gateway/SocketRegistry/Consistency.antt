-- ===== src/Gateway/SocketRegistry/Consistency.antt =====
-- The two maps of the registry describe one relation between users and sockets.
use backend_core_platform.Container.JsSet
use backend_core_platform.Container.JsSet.{
  has-add, has-delete, add-IsDistinct, delete-IsDistinct, eq-nil_iff,
}
use backend_core_platform.Container.JsMap
use backend_core_platform.Container.JsMap.{get-set, get-delete}
use backend_core_platform.Gateway.SocketRegistry.{
  SocketRegistry, register, drop_socket, get_user_by_socket, empty, unregister,
}
use backend_core_platform.Base.{
  String, ◌≡◌, ◌≢◌, inl, inr, Bool, true, false, none, some, List, [], arith, eq_iff, eq_refl, ◌==◌,
  Eq_ℕ, Eq_String, if◌then◌else◌, coalesce, Option-cases, eq-nil_of_length,
}

-- The sockets that the forward map lists for a user.
abbrev pub sockets_in : String → List (String × List String) → List String
sockets_in u m = coalesce (JsMap.get u m) []

-- Read as a relation: user `u` has socket `s`.
abbrev pub lists : SocketRegistry → String → String → Bool
lists r u s = JsSet.has s (sockets_in u r.user_sockets)

pub record IsConsistent (r : SocketRegistry) : Type 0 where
  -- A listed socket maps back to its user, and the other way round.
  pub forward : (u s : String) → lists r u s ≡ true → get_user_by_socket s r ≡ some u
  pub backward : (u s : String) → get_user_by_socket s r ≡ some u → lists r u s ≡ true
  -- No user is kept without a socket, and no socket is held by the empty user id.
  pub inhabited : (u : String) → JsMap.get u r.user_sockets ≢ some []
  pub named : (s : String) → get_user_by_socket s r ≢ some ""

pub get-register :
    (u s v : String) (r : SocketRegistry)
    → JsMap.get v (register u s r).user_sockets ≡ (
        if u == v
        then some (JsSet.add s (sockets_in u r.user_sockets))
        else JsMap.get v r.user_sockets)
unfolding register
get-register u s v r = elim (Option-cases (JsMap.get u r.user_sockets)) [
  | inl new ↦
      let m = JsMap.set u [] r.user_sockets in
      rw new (
        rw
          (
            get-set u u [] r.user_sockets,
            eq_refl u,
            get-set v u (JsSet.add s []) m,
            get-set v u [] r.user_sockets,
          )
          (ground (arith, eq_iff u v)))
  | inr (xs, old) ↦ ground (arith, eq_iff u v, get-set v u (JsSet.add s xs) r.user_sockets)
]

-- What `register` makes of the sets: `socketId` joins the user's own, and no other changes.
pub sockets_in-register :
    (u s v : String) (r : SocketRegistry)
    → sockets_in v (register u s r).user_sockets
      ≡ (if u == v then JsSet.add s (sockets_in u r.user_sockets) else sockets_in v r.user_sockets)
sockets_in-register u s v r = ground (arith, get-register u s v r, eq_iff u v)

pub sockets_in-drop_socket :
    (u s v : String) (m : List (String × List String))
    → sockets_in v (drop_socket u s m)
      ≡ (if u == v then JsSet.delete s (sockets_in u m) else sockets_in v m)
unfolding drop_socket JsSet.delete
sockets_in-drop_socket u s v m = elim (Option-cases (JsMap.get u m)) [
  | inl absent ↦ ground (arith, eq_iff u v)
  | inr (xs, old) ↦
      let left = JsSet.delete s xs in
      let changed = JsMap.set u left m in
      ground (arith, eq_iff u v, get-set v u left m, get-delete v u changed, eq-nil_of_length left)
]

pub get_user_by_socket-register :
    (u s t : String) (r : SocketRegistry)
    → get_user_by_socket t (register u s r) ≡ (if s == t then some u else get_user_by_socket t r)
unfolding register get_user_by_socket
get_user_by_socket-register u s t r = get-set t s u r.socket_to_user

add-ne-nil : (s : String) (xs : List String) → JsSet.add s xs ≢ []
add-ne-nil s xs e = ground (arith, has-add s s xs, eq_refl s, (eq-nil_iff (JsSet.add s xs)).0 e s)

drop_socket-ne-nil :
    (u s v : String) (m : List (String × List String))
    → JsMap.get v m ≢ some []
    → JsMap.get v (drop_socket u s m) ≢ some []
unfolding drop_socket
drop_socket-ne-nil u s v m h = elim (Option-cases (JsMap.get u m)) [
  | inl absent ↦ ground arith
  | inr (xs, old) ↦
      let left = JsSet.delete s xs in
      let changed = JsMap.set u left m in
      ground (arith, eq_iff u v, get-set v u left m, get-delete v u changed)
]

-- A socket id that the registry does not know is listed by no user.
pub lists-fresh :
    (r : SocketRegistry) (s : String)
    → IsConsistent r
    → get_user_by_socket s r ≡ none
    → (u : String) → lists r u s ≡ false
lists-fresh r s c fresh u = ground (arith, c.forward u s)

module _ (u s : String) (r : SocketRegistry) (c : IsConsistent r)
    (fresh : get_user_by_socket s r ≡ none) (named : u ≢ "") where
  lists-register :
      (v t : String)
      → lists (register u s r) v t
        ≡ (if u == v then (if s == t then true else lists r v t) else lists r v t)
  lists-register v t =
      rw (sockets_in-register u s v r)
        (ground (arith, eq_iff u v, has-add t s (sockets_in u r.user_sockets)))

  inhabited-register : (v : String) → JsMap.get v (register u s r).user_sockets ≢ some []
  inhabited-register v h = ground (
    arith,
    get-register u s v r,
    c.inhabited v,
    eq_iff u v,
    add-ne-nil s (sockets_in u r.user_sockets),
  )

  -- Registering a socket id that is not in use, for a user with an id, keeps the maps consistent.
  pub register-IsConsistent : IsConsistent (register u s r)
  register-IsConsistent = record {
    forward = λ v t h. ground (
      arith,
      lists-register v t,
      get_user_by_socket-register u s t r,
      c.forward v t,
      lists-fresh r s c fresh v,
      eq_iff u v,
      eq_iff s t,
    );
    backward = λ v t h. ground (
      arith,
      lists-register v t,
      get_user_by_socket-register u s t r,
      c.backward v t,
      eq_iff u v,
      eq_iff s t,
    );
    inhabited = inhabited-register;
    named = λ t h. ground (arith, get_user_by_socket-register u s t r, c.named t);
  }

-- What a socket that is known, to a user with an id, leaves behind.
module _ (s u : String) (r : SocketRegistry) (c : IsConsistent r)
    (known : get_user_by_socket s r ≡ some u) where
  pub unregister_known : unregister s r ≡ record {
    user_sockets = drop_socket u s r.user_sockets;
    socket_to_user = JsMap.delete s r.socket_to_user;
  }
  unfolding unregister get_user_by_socket
  unregister_known = ground (arith, c.named s, eq_iff u "", known)

  pub get_user_by_socket-unregister :
      (t : String)
      → get_user_by_socket t (unregister s r) ≡ (if s == t then none else get_user_by_socket t r)
  unfolding get_user_by_socket
  get_user_by_socket-unregister t = rw unregister_known (get-delete t s r.socket_to_user)

  pub sockets_in-unregister :
      (v : String)
      → sockets_in v (unregister s r).user_sockets ≡ (
          if u == v
          then JsSet.delete s (sockets_in u r.user_sockets)
          else sockets_in v r.user_sockets)
  sockets_in-unregister v = rw unregister_known (sockets_in-drop_socket u s v r.user_sockets)

  lists-unregister :
      (v t : String) → lists (unregister s r) v t ≡ (if s == t then false else lists r v t)
  lists-unregister v t = ground (
    arith,
    sockets_in-unregister v,
    eq_iff u v,
    eq_iff s t,
    has-delete t s (sockets_in u r.user_sockets),
    c.forward v s,
  )

  known-IsConsistent : IsConsistent (unregister s r)
  known-IsConsistent = record {
    forward = λ v t h.
        ground (arith, lists-unregister v t, get_user_by_socket-unregister t, c.forward v t);
    backward = λ v t h.
        ground (arith, lists-unregister v t, get_user_by_socket-unregister t, c.backward v t);
    inhabited = λ v. rw unregister_known (drop_socket-ne-nil u s v r.user_sockets (c.inhabited v));
    named = λ t h. ground (arith, get_user_by_socket-unregister t, c.named t);
  }

pub unregister_unknown :
    (s : String) (r : SocketRegistry) → get_user_by_socket s r ≡ none → unregister s r ≡ r
unfolding unregister get_user_by_socket
unregister_unknown s r h = rw (h, unregister)

-- Unregistering any socket id, known or not, keeps the maps consistent.
pub unregister-IsConsistent :
    (s : String) (r : SocketRegistry) → IsConsistent r → IsConsistent (unregister s r)
unregister-IsConsistent s r c = elim (Option-cases (get_user_by_socket s r)) [
  | inl unknown ↦ rw (unregister_unknown s r unknown) c
  | inr (u, known) ↦ known-IsConsistent s u r c known
]

pub empty-IsConsistent : IsConsistent empty
unfolding empty get_user_by_socket JsMap.get JsSet.has
empty-IsConsistent = record {
  forward = λ u s h. cc;
  backward = λ u s h. cc;
  inhabited = λ u h. cc;
  named = λ s h. cc;
}
