-- ===== src/AuthService/Auth/Ending.antt =====
-- How a refresh ends: by what the token and the tables hold.

use backend_core_platform.Common.Errors.ErrorCodes
use backend_core_platform.Common.Errors.{Result-cases, ok, fail}
use backend_core_platform.AuthService.Sessions.{
  User, RefreshToken, Fresh, is_session, is_live_session, refuses_old, rotated, new_token, expiry,
  save_refresh_token, find_by_refresh_token, auth_response, invalid_token, UserAuthResponse,
}
use backend_core_platform.AuthService.Auth.{
  Env, Tables, Store, Reply, Claims, Request, get_device_data, DataDevice, sets, clears,
  number_or_default,
}
use backend_core_platform.AuthService.Auth.Login.{
  LoginResponse, token_user, max_age_of, issue_tokens, issued, refresh,
}
use backend_core_platform.AuthService.Auth.Refreshing.{renewal}
use backend_core_platform.Base.{
  ℕ, ◌<◌, String, ◌≡◌, refl, sym, ap, subst, ◌∙◌, ◌≢◌, ◌⊎◌, inl, inr, true, Option, none, some, [],
  ◌∷◌, arith, eq_iff, eq_refl, Bool-cases, Option-cases,
}

module _ (env : Env) (tables : Tables) where
  -- The token decodes, and is that of an open session, still fresh, of its user on the device, whose
  -- version the token carries.
  pub record IsAccepted (now : ℕ) (token device_id : String) (st : Store tables) (claims : Claims)
      (u : User) (r : RefreshToken) : Type 0 where
    pub decoded : env.verify_jwt now token ≡ ok claims
    pub owner : tables.users.find claims.sub st.user_db ≡ some u
    pub version : u.perm_version ≡ claims.perm_version
    pub stored : tables.tokens.find r.id st.token_db ≡ some r
    pub of_user : r.user_id ≡ claims.sub
    pub of_device : r.device_id ≡ device_id
    pub not_revoked : r.revoked_at ≡ none
    pub fresh : now < r.expires_at
    pub verified : env.passwords.verify r.token_hash token ≡ true

  -- One row has the hash, for the user on the device, and every other row is as before.
  pub record IsSaved (hash user_id device_id : String) (db db' : tables.tokens.Db) : Type 0 where
    pub row : RefreshToken
    pub stored : tables.tokens.find row.id db' ≡ some row
    pub hashed : row.token_hash ≡ hash
    pub of_user : row.user_id ≡ user_id
    pub of_device : row.device_id ≡ device_id
    pub others : (i : String) → i ≢ row.id → tables.tokens.find i db' ≡ tables.tokens.find i db

  abbrev pub claims_for : User → Claims
  claims_for u = record { email = u.email; sub = u.id; perm_version = u.perm_version }

  abbrev pub next_token : Fresh → User → String
  next_token at u =
      env.sign (claims_for u) (number_or_default env.jwt_refresh_expires_in 2592000) at.now

  -- The two ways in which a refresh ends.
  pub data Ends (at : Fresh) (token device_id : String) (st : Store tables)
      : Reply tables LoginResponse → Type 1 where
    renews :
        (claims : Claims) (u : User) (r : RefreshToken) (db : tables.tokens.Db)
        → IsAccepted at.now token device_id st claims u r
        → IsSaved (env.passwords.hash at.salt (next_token at u)) u.id device_id st.token_db db
        → Ends at token device_id st (record {
          store = record {
            user_db = st.user_db;
            otp_db = st.otp_db;
            reset_db = st.reset_db;
            token_db = db;
          };
          cookies =
              sets "refreshToken" (next_token at u) (some (max_age_of env))
              ∷ sets "deviceId" device_id none
              ∷ [];
          events = [];
          result = ok (record {
            id = u.id;
            email = u.email;
            perm_version = u.perm_version;
            access_token =
                env.sign (claims_for u) (number_or_default env.jwt_expires_in 900) at.now;
          });
        })
    refuses :
        (message : String)
        → Ends at token device_id st (record {
          store = st;
          cookies = clears "refreshToken" ∷ clears "deviceId" ∷ [];
          events = [];
          result = fail ErrorCodes.auth_refresh_token_invalid 401 message;
        })

  -- What `findByRefreshToken` has found where it gives a user.
  found_session :
      (now : ℕ) (user_of : String → Option User) (user_id : String) (v : ℕ)
      (token device_id : String) (a : UserAuthResponse) (db : tables.tokens.Db)
      → find_by_refresh_token env.passwords tables.tokens now user_of user_id v token device_id db
        ≡ ok a
      → (r : RefreshToken) × (u : User) × (tables.tokens.find r.id db ≡ some r)
        × (is_live_session now user_of user_id v device_id r ≡ true)
        × (env.passwords.verify r.token_hash token ≡ true)
        × (user_of r.user_id ≡ some u)
        × (auth_response u ≡ a)
  unfolding find_by_refresh_token
  found_session now user_of user_id v token device_id a db e =
      elim (Option-cases
        (tables.tokens.find_first (is_live_session now user_of user_id v device_id) db)) [
          | inl missing ↦ absurd (ground (arith, e, missing))
          | inr (r, found) ↦
              let (held, meets) =
                tables.tokens.find_first_found (is_live_session now user_of user_id v device_id) r
                  db found in
              elim (Bool-cases (env.passwords.verify r.token_hash token)) [
                | inr wrong ↦ absurd (ground (arith, e, found, wrong))
                | inl right ↦ elim (Option-cases (user_of r.user_id)) [
                  | inl gone ↦ absurd (ground (arith, e, found, right, gone))
                  | inr (u, owner) ↦
                      (r, u, held, meets, right, owner, ground (arith, e, found, right, owner))
                ]
              ]
        ]

  session-IsAccepted :
      (now : ℕ) (token device_id : String) (st : Store tables) (claims : Claims)
      (a : UserAuthResponse)
      → env.verify_jwt now token ≡ ok claims
      → find_by_refresh_token env.passwords tables.tokens now
          (λ id. tables.users.find id st.user_db)
          claims.sub
          claims.perm_version
          token
          device_id
          st.token_db
        ≡ ok a
      → (u : User) × (r : RefreshToken) × IsAccepted now token device_id st claims u r
        × (auth_response u ≡ a)
  session-IsAccepted now token device_id st claims a decoded e =
      let user_of = λ (id : String). tables.users.find id st.user_db in
      let (r, u, held, live, right, owner, same) =
        found_session now user_of claims.sub claims.perm_version token device_id a st.token_db e in
      let mine : r.user_id ≡ claims.sub = ground (arith, live, eq_iff r.user_id claims.sub) in
      (
        u,
        r,
        record {
          decoded = decoded;
          owner = subst (λ id. tables.users.find id st.user_db ≡ some u) mine owner;
          version = ground (arith, live, owner);
          stored = held;
          of_user = mine;
          of_device = ground (arith, live, eq_iff r.device_id device_id);
          not_revoked = ground (arith, live);
          fresh = ground (arith, live);
          verified = right;
        },
        same,
      )

  issue_tokens_saves :
      (at : Fresh) (u : User) (device : DataDevice) (device_id : String) (old : Option String)
      (st : Store tables)
      → let issue = issue_tokens env tables at (token_user u) device device_id old st in
        ((db : tables.tokens.Db) × (issue ≡ renewal env tables at (token_user u) device_id db st)
          × IsSaved (env.passwords.hash at.salt (next_token at u)) u.id device_id st.token_db db)
        ⊎ (issue ≡ record { store = st; cookies = []; events = []; result = invalid_token })
  unfolding issue_tokens issued save_refresh_token
  issue_tokens_saves at u device device_id old st =
      let hash = env.passwords.hash at.salt (next_token at u) in
      let until = expiry env.jwt_refresh_expires_in at in
      elim (Option-cases (tables.tokens.find_first (is_session u.id device_id) st.token_db)) [
        | inl missing ↦
            let row = new_token at.id u.id hash device_id device until in
            inl (
              tables.tokens.create row st.token_db,
              rw (missing, issue_tokens, save_refresh_token) refl,
              record {
                row = row;
                stored =
                    ground (arith, tables.tokens.find-create at.id row st.token_db, eq_refl at.id);
                hashed = refl;
                of_user = refl;
                of_device = refl;
                others = λ i apart.
                    ground
                      (arith, tables.tokens.find-create i row st.token_db, eq_iff at.id i, apart);
              },
            )
        | inr (r, found) ↦
            let (held, meets) =
              tables.tokens.find_first_found (is_session u.id device_id) r st.token_db found in
            let update = tables.tokens.find-update in
            elim (Bool-cases (refuses_old env.passwords r old)) [
              | inl stale ↦ inr (rw (found, issue_tokens, save_refresh_token) (rw stale refl))
              | inr right ↦ inl (
                tables.tokens.update r.id (rotated hash until) st.token_db,
                rw (found, issue_tokens, save_refresh_token) (rw right refl),
                record {
                  row = rotated hash until r;
                  stored = ground (
                    arith,
                    update r.id r.id (rotated hash until) st.token_db (λ x. refl),
                    held,
                    eq_refl r.id,
                  );
                  hashed = refl;
                  of_user = ground (arith, meets, eq_iff r.user_id u.id);
                  of_device = ground (arith, meets, eq_iff r.device_id device_id);
                  others = λ i apart. ground (
                    arith,
                    update i r.id (rotated hash until) st.token_db (λ x. refl),
                    eq_iff r.id i,
                    apart,
                  );
                },
              )
            ]
      ]

  -- Every refresh ends in one of two ways. Either the token decodes and is the one of an open, fresh
  -- session on that device of an existing user, whose version it carries: then the row of a session
  -- of the user on the device holds the hash of a new token, every other row is as before, and the
  -- reply sets the cookie of the refresh token to that token and the one of the device to its id,
  -- and has the user with an access token. Or it is refused with 401 AUTH_REFRESH_TOKEN_INVALID,
  -- both cookies are cleared and nothing is stored.
  pub refresh-Ends :
      (at : Fresh) (token device_id : String) (req : Request) (st : Store tables)
      → Ends at token device_id st (refresh env tables at token device_id req st)
  unfolding refresh
  refresh-Ends at token device_id req st = elim (Result-cases (env.verify_jwt at.now token)) [
    | inr (t, e) ↦ rw (e, refresh) (refuses _)
    | inl (claims, e) ↦
        elim (Result-cases (
          find_by_refresh_token env.passwords tables.tokens at.now
            (λ id. tables.users.find id st.user_db) claims.sub claims.perm_version token device_id
            st.token_db)) [
              | inr (t, e') ↦ rw (e, refresh) (rw (e', refresh) (refuses _))
              | inl (user, e') ↦
                  let (u, r, accepted, same) =
                    session-IsAccepted at.now token device_id st claims user e e' in
                  let found = e' ∙ ap ok (sym same) in
                  elim (issue_tokens_saves at u (get_device_data env req) device_id (some token)
                    st) [
                      | inl (db, issue, saved) ↦
                          rw (e, refresh)
                            (rw (found, refresh)
                              (rw (issue, refresh) (renews claims u r db accepted saved)))
                      | inr issue ↦
                          rw (e, refresh) (rw (found, refresh) (rw (issue, refresh) (refuses _)))
                    ]
            ]
  ]
