-- ===== src/AuthService/Auth/Refreshing.antt =====
-- A refresh: what it answers, and what it does to the tokens of the device.
use backend_core_platform.Common.Errors.ErrorCodes
use backend_core_platform.Common.Errors.{Result, ok, fail}
use backend_core_platform.AuthService.Sessions.{
  User, RefreshToken, Fresh, is_session, refuses_old, expiry, save_refresh_token,
  find_by_refresh_token, auth_response, invalid_token,
}
use backend_core_platform.AuthService.Sessions.Rotation.{
  HasSession, find_by_refresh_token_session, save_refresh_token_session, Saved,
}
use backend_core_platform.AuthService.Auth.{
  Env, Tables, Store, Reply, Claims, Request, get_device_data, DataDevice,
}
use backend_core_platform.AuthService.Auth.Login.{
  LoginResponse, TokenUser, token_user, refresh_token_of, login_response, session_cookies,
  with_tokens, issue_tokens, issued, refresh, claims_of,
}
use backend_core_platform.Base.{
  ◌<◌, String, ◌≡◌, refl, ap, ◌⊎◌, inl, inr, true, false, Option, some, [], arith, eq_iff,
  if◌then◌else◌, Bool-cases, Option-cases,
}

module _ (env : Env) (tables : Tables) where
  abbrev refusal : {A : Type 0} → String → Result A
  refusal message = fail ErrorCodes.auth_refresh_token_invalid 401 message

  abbrev pub renewal :
      (at : Fresh) (u : TokenUser) (device_id : String) (db : tables.tokens.Db)
      → Store tables
      → Reply tables LoginResponse
  renewal at u device_id db st = record {
    store = with_tokens env tables db st;
    cookies = session_cookies env at u device_id;
    events = [];
    result = ok (login_response env at u);
  }

  pub issue_tokens_either :
      (at : Fresh) (u : TokenUser) (device : DataDevice) (device_id : String) (old : Option String)
      (st : Store tables)
      → let saved =
          save_refresh_token env.passwords tables.tokens env.jwt_refresh_expires_in at u.id
            (refresh_token_of env at u)
            device
            device_id
            old
            st.token_db in
        (issue_tokens env tables at u device device_id old st ≡ renewal at u device_id saved.0 st)
        ⊎ (issue_tokens env tables at u device device_id old st
            ≡ record { store = st; cookies = []; events = []; result = invalid_token })
  unfolding issue_tokens save_refresh_token
  issue_tokens_either at u device device_id old st =
      elim (Option-cases (tables.tokens.find_first (is_session u.id device_id) st.token_db)) [
        | inl missing ↦ inl (rw (missing, issue_tokens, save_refresh_token) refl)
        | inr (r, found) ↦ elim (Bool-cases (refuses_old env.passwords r old)) [
          | inl stale ↦ inr (rw (found, issue_tokens, save_refresh_token) (rw stale refl))
          | inr right ↦ inl (rw (found, issue_tokens, save_refresh_token) (rw right refl))
        ]
      ]

  module _ (u : User) (device_id : String) where
    module _ (r : RefreshToken) (at : Fresh) (token : String) (req : Request) (claims : Claims)
        (st : Store tables)
        (has : HasSession env.passwords tables.tokens u.id device_id r st.token_db)
        (owner : tables.users.find u.id st.user_db ≡ some u) (fresh : at.now < r.expires_at)
        (decoded : env.verify_jwt at.now token ≡ ok claims) (of_user : claims.sub ≡ u.id)
        (of_version : claims.perm_version ≡ u.perm_version) where
      looked_up :
          find_by_refresh_token env.passwords tables.tokens at.now
            (λ id. tables.users.find id st.user_db)
            claims.sub
            claims.perm_version
            token
            device_id
            st.token_db
          ≡ (if env.passwords.verify r.token_hash token
              then ok (auth_response u)
              else invalid_token)
      looked_up =
          let mine : r.user_id ≡ u.id = ground (arith, has.open_now, eq_iff r.user_id u.id) in
          rw (of_user, of_version)
            (find_by_refresh_token_session env.passwords tables.tokens u.id device_id at.now
              (λ id. tables.users.find id st.user_db) u token r st.token_db has (rw mine owner)
              fresh)

      refresh_stale :
          env.passwords.verify r.token_hash token ≡ false
          → (refresh env tables at token device_id req st).result ≡ refusal "Invalid refresh token"
      unfolding refresh
      refresh_stale stale = rw (decoded, refresh) (rw (looked_up, refresh) (rw stale refl))

      refresh_saves :
          env.passwords.verify r.token_hash token ≡ true
          → Saved env.passwords tables.tokens u.id device_id
              (env.passwords.hash at.salt (refresh_token_of env at (token_user u)))
              (expiry env.jwt_refresh_expires_in at)
              (save_refresh_token env.passwords tables.tokens env.jwt_refresh_expires_in at u.id
                (refresh_token_of env at (token_user u))
                (get_device_data env req)
                device_id
                (some token)
                st.token_db)
      refresh_saves valid =
          save_refresh_token_session env.passwords tables.tokens u.id device_id
            env.jwt_refresh_expires_in at (refresh_token_of env at (token_user u))
            (get_device_data env req) (some token) st.token_db has.single
            (λ s found.
              let (held, meets) =
                tables.tokens.find_first_found (is_session u.id device_id) s st.token_db found in
              let same =
                has.single s.id r.id u.id device_id s r held has.stored meets has.open_now in
              ground (arith, same, held, has.stored, valid))

      refresh_renews :
          env.passwords.verify r.token_hash token ≡ true
          → let saved =
              save_refresh_token env.passwords tables.tokens env.jwt_refresh_expires_in at u.id
                (refresh_token_of env at (token_user u))
                (get_device_data env req)
                device_id
                (some token)
                st.token_db in
            refresh env tables at token device_id req st
            ≡ renewal at (token_user u) device_id saved.0 st
      unfolding refresh issue_tokens issued
      refresh_renews valid =
          let (r', out, _, _, _, _) = refresh_saves valid in
          rw (decoded, refresh) (rw (looked_up, refresh) (rw valid (rw (out, issue_tokens) refl)))

    -- The one session of a device, for an existing user whose version the token carries: a refresh
    -- with the session's token gives an access token; until the new refresh token expires, that one
    -- can be used for the next refresh, while the token used before is refused with 401
    -- AUTH_REFRESH_TOKEN_INVALID, even though its signature is still valid. Assumed: the signed
    -- tokens decode to the claims of the user, and the hash of the new token does not verify the
    -- old one.
    pub refresh_rotates :
        (r : RefreshToken) (at later : Fresh) (token : String) (req req' : Request)
        (st : Store tables)
        → HasSession env.passwords tables.tokens u.id device_id r st.token_db
        → tables.users.find u.id st.user_db ≡ some u
        → at.now < r.expires_at
        → env.passwords.verify r.token_hash token ≡ true
        → env.verify_jwt at.now token ≡ ok (claims_of (token_user u))
        → later.now < expiry env.jwt_refresh_expires_in at
        → env.verify_jwt later.now token ≡ ok (claims_of (token_user u))
        → let new = refresh_token_of env at (token_user u) in
          env.verify_jwt later.now new ≡ ok (claims_of (token_user u))
          → env.passwords.verify (env.passwords.hash at.salt new) token ≡ false
          → let first = refresh env tables at token device_id req st in
            let again = λ (old : String). refresh env tables later old device_id req' first.store in
            (first.result ≡ ok (login_response env at (token_user u)))
            × ((again token).result ≡ refusal "Invalid refresh token")
            × ((again new).result ≡ ok (login_response env later (token_user u)))
    refresh_rotates r at later token req req' st has owner fresh valid decoded fresh' decoded'
          renewed apart =
        let new = refresh_token_of env at (token_user u) in
        let claims = claims_of (token_user u) in
        let (r', _, has', hashed, lasts, _) =
          refresh_saves r at token req claims st has owner fresh decoded refl refl valid in
        let first =
          refresh_renews r at token req claims st has owner fresh decoded refl refl valid in
        let right : env.passwords.verify r'.token_hash new ≡ true =
          rw hashed (env.passwords.verify-hash at.salt new) in
        let stale : env.passwords.verify r'.token_hash token ≡ false = rw hashed apart in
        let lives : later.now < r'.expires_at = rw lasts fresh' in
        rw first (
          refl,
          refresh_stale r' later token req' claims _ has' owner lives decoded' refl refl stale,
          ap (λ reply. reply.result)
              (refresh_renews r' later new req' claims _ has' owner lives renewed refl refl right),
        )
