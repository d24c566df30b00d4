-- ===== src/Gateway/Websocket/Sessions.antt =====
-- What every step of the gateway keeps.
use backend_core_platform.Container.JsMap
use backend_core_platform.Container.JsMap.{get-set, get-delete}
use backend_core_platform.Gateway.SocketRegistry.{unregister, get_user_by_socket, is_user_online}
use backend_core_platform.Gateway.SocketRegistry.Consistency.{
  register-IsConsistent, unregister-IsConsistent, get_user_by_socket-register,
  get_user_by_socket-unregister, unregister_unknown, empty-IsConsistent,
}
use backend_core_platform.Gateway.SocketRegistry.Counting.{
  register-IsCounted, unregister-IsCounted, empty-IsCounted,
}
use backend_core_platform.Gateway.SocketRegistry.Presence.{
  is_user_online-register, is_user_online-unregister_other, is_user_online_iff,
}
use backend_core_platform.Gateway.Websocket.{
  JwtPayload, SocketData, Handshake, RateWindow, init, extract_token, accepted, handle_connection,
  handle_disconnect, data_user,
}
use backend_core_platform.Gateway.Websocket.RateLimits.{
  IsBounded, check_rate_limit-registry, check_rate_limit-IsBounded, check_rate_limit_other,
}
use backend_core_platform.Base.{
  ℕ, String, ◌≡◌, refl, sym, ◌∙◌, ◌≢◌, inl, inr, true, Option, none, some, arith, eq_iff, is_empty,
  Bool-cases, Option-cases, text_cases,
}
use backend_core_platform.Gateway.Websocket.Steps.{
  World, connected, disconnected, messaged, Step, connect, disconnect, message, start, Reach, here,
  next, user_of, IsSound,
}

-- What the tokens of auth-service promise: `sub` is a user's id.
abbrev pub NamesUsers : (String → Option JwtPayload) → Type 0
NamesUsers verify = (t : String) (p : JwtPayload) → verify t ≡ some p → p.sub ≢ ""

module _ (id : String) (w : World) (v : IsSound w) where
  -- A connection that is not open is not in the registry.
  unknown_of_new : JsMap.get id w.clients ≡ none → get_user_by_socket id w.gateway.registry ≡ none
  unknown_of_new new = ground (arith, v.agree id, new)

  accepted-IsSound :
      (p : JwtPayload)
      → p.sub ≢ ""
      → JsMap.get id w.clients ≡ none
      → IsSound (record {
        gateway = (accepted w.gateway id p).0;
        clients = JsMap.set id (accepted w.gateway id p).1 w.clients;
      })
  unfolding accepted
  accepted-IsSound p named new =
      let r = w.gateway.registry in
      let d : SocketData = record { user_id = p.sub; email = p.email; authenticated = true } in
      record {
        consistent = register-IsConsistent p.sub id r v.consistent (unknown_of_new new) named;
        counted = register-IsCounted p.sub id r v.consistent (unknown_of_new new) v.counted;
        agree = λ s. ground (
          arith,
          eq_iff id s,
          get_user_by_socket-register p.sub id s r,
          v.agree s,
          get-set s id (some d) w.clients,
        );
        bounded = v.bounded;
        online = λ u l e. is_user_online-register p.sub id u r (v.online u l e);
      }

  refused-IsSound :
      JsMap.get id w.clients ≡ none
      → IsSound (record { gateway = w.gateway; clients = JsMap.set id none w.clients })
  refused-IsSound new = record {
    consistent = v.consistent;
    counted = v.counted;
    agree = λ s.
        ground (arith, eq_iff id s, v.agree s, unknown_of_new new, get-set s id none w.clients);
    bounded = v.bounded;
    online = v.online;
  }

  connected-IsSound :
      (verify : String → Option JwtPayload) (h : Handshake)
      → NamesUsers verify
      → JsMap.get id w.clients ≡ none
      → IsSound (connected verify id h w)
  unfolding handle_connection
  connected-IsSound verify h names new = elim (Option-cases (extract_token h)) [
    | inl absent ↦ rw (absent, handle_connection) (refused-IsSound new)
    | inr (token, found) ↦ elim (Bool-cases (is_empty token)) [
      | inl blank ↦ rw (found, handle_connection) (rw blank (refused-IsSound new))
      | inr given ↦ elim (Option-cases (verify token)) [
        | inl invalid ↦
            rw (found, handle_connection)
              (rw given (rw (invalid, handle_connection) (refused-IsSound new)))
        | inr (p, valid) ↦
            rw (found, handle_connection)
              (rw given
                (rw (valid, handle_connection) (accepted-IsSound p (names token p valid) new)))
      ]
    ]
  ]

  disconnected_agree :
      (d : Option SocketData)
      → JsMap.get id w.clients ≡ some d
      → (s : String)
      → get_user_by_socket s (unregister id w.gateway.registry)
        ≡ user_of (JsMap.get s (JsMap.delete id w.clients))
  disconnected_agree none known s = ground (
    arith,
    eq_iff id s,
    v.agree id,
    v.agree s,
    known,
    get-delete s id w.clients,
    unregister_unknown id w.gateway.registry,
  )
  disconnected_agree (some d) known s =
      let held : get_user_by_socket id w.gateway.registry ≡ some d.user_id =
        ground (arith, v.agree id) in
      ground (
        arith,
        eq_iff id s,
        v.agree s,
        get-delete s id w.clients,
        get_user_by_socket-unregister id d.user_id w.gateway.registry v.consistent held s,
      )

  disconnected_online :
      (d : Option SocketData)
      → JsMap.get id w.clients ≡ some d
      → (u : String) (l : RateWindow)
      → JsMap.get u (handle_disconnect id d w.gateway).rate_limits ≡ some l
      → is_user_online u (unregister id w.gateway.registry) ≡ true
  unfolding handle_disconnect
  disconnected_online none known u l e =
      ground (arith, v.agree id, known, v.online u l, unregister_unknown id w.gateway.registry)
  disconnected_online (some d) known u l e = ground (
    arith,
    v.agree id,
    known,
    v.online u l,
    v.consistent.named id,
    eq_iff d.user_id "",
    eq_iff d.user_id u,
    get-delete u d.user_id w.gateway.rate_limits,
    is_user_online-unregister_other id d.user_id u w.gateway.registry v.consistent,
  )

  disconnected-IsBounded : (d : Option SocketData) → IsBounded (handle_disconnect id d w.gateway)
  unfolding handle_disconnect
  disconnected-IsBounded d u l e =
      ground (arith, v.bounded u l, get-delete u (data_user d) w.gateway.rate_limits)

  disconnected-IsSound :
      (d : Option SocketData) → JsMap.get id w.clients ≡ some d → IsSound (disconnected id d w)
  unfolding handle_disconnect
  disconnected-IsSound d known = record {
    consistent = unregister-IsConsistent id w.gateway.registry v.consistent;
    counted = unregister-IsCounted id w.gateway.registry v.consistent v.counted;
    agree = disconnected_agree d known;
    bounded = disconnected-IsBounded d;
    online = disconnected_online d known;
  }

  held_online :
      (d : SocketData)
      → JsMap.get id w.clients ≡ some (some d)
      → is_user_online d.user_id w.gateway.registry ≡ true
  held_online d known =
      (is_user_online_iff d.user_id w.gateway.registry v.consistent).1
        (id, ground (arith, v.agree id))

  messaged-IsSound :
      (now : ℕ) (d : SocketData)
      → JsMap.get id w.clients ≡ some (some d)
      → IsSound (messaged now d.user_id w)
  messaged-IsSound now d known =
      let same = check_rate_limit-registry now d.user_id w.gateway in
      record {
        consistent = rw same v.consistent;
        counted = rw same v.counted;
        agree = λ s. rw same (v.agree s);
        bounded = check_rate_limit-IsBounded now d.user_id w.gateway v.bounded;
        online = λ u l e. elim (text_cases d.user_id u) [
          | inl (_, own) ↦ rw (same, ← own) (held_online d known)
          | inr (_, other) ↦
              rw same
                (v.online u l (sym (check_rate_limit_other now d.user_id u w.gateway other) ∙ e))
        ];
      }

-- Every step keeps the gateway sound, if tokens name users.
Step-IsSound :
    (verify : String → Option JwtPayload) {v w : World}
    → NamesUsers verify
    → Step verify v w
    → IsSound v
    → IsSound w
Step-IsSound verify {v} names (connect id h new) s = connected-IsSound id v s verify h names new
Step-IsSound verify {v} names (disconnect id d known) s = disconnected-IsSound id v s d known
Step-IsSound verify {v} names (message now id d known) s = messaged-IsSound id v s now d known

start-IsSound : IsSound start
unfolding init get_user_by_socket JsMap.get
start-IsSound = record {
  consistent = empty-IsConsistent;
  counted = empty-IsCounted;
  agree = λ s. refl;
  bounded = λ u l e. cc;
  online = λ u l e. cc;
}

-- After any history of connections, disconnections and messages, if tokens name users: the two maps
-- of the registry are consistent and counted, the registry holds exactly the authenticated
-- connections, no rate window counts more than ten, and every rate window belongs to a user who is
-- online, so that windows of users who left do not pile up.
pub Reach-IsSound :
    (verify : String → Option JwtPayload) {w : World}
    → NamesUsers verify
    → Reach verify w
    → IsSound w
Reach-IsSound verify names here = start-IsSound
Reach-IsSound verify names (next r st) = Step-IsSound verify names st (Reach-IsSound verify names r)
