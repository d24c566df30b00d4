-- ===== src/AuthService/Sessions/Rotation.antt =====
-- A refresh replaces the token of a device.
use backend_core_platform.External.Table.{Table}
use backend_core_platform.External.Table.Queries.{find_first_only}
use backend_core_platform.Common.Errors.{Result, ok}
use backend_core_platform.AuthService.Passwords.{Passwords}
use backend_core_platform.AuthService.Sessions.{
  User, RefreshToken, token_id, DataDevice, is_session, is_live_session, rotated, new_token,
  refuses_old, invalid_token, auth_response, Fresh, expiry, save_refresh_token,
  find_by_refresh_token,
}
use backend_core_platform.AuthService.Sessions.OnePerDevice.{
  IsSingle, create-IsSingle, update-IsSingle,
}
use backend_core_platform.Base.{
  ℕ, ◌<◌, String, ◌≡◌, refl, inl, inr, Bool, true, false, Option, none, some, arith, eq_iff,
  eq_refl, if◌then◌else◌, Bool-cases, Option-cases, ℤ,
}

module _ (passwords : Passwords) (tokens : Table RefreshToken token_id) where
  open tokens use {
    Db, find, find_id, find_first, find_first_found, find_first_missing, create, update,
    find-create, find-update,
  }

  -- The one session of a device.
  module _ (user_id device_id : String) where
    pub record HasSession (r : RefreshToken) (db : tokens.Db) : Type 0 where
      pub stored : find r.id db ≡ some r
      pub open_now : is_session user_id device_id r ≡ true
      pub single : IsSingle passwords tokens db

    -- A query that only sessions of the device meet finds that one or nothing.
    pub HasSession-find_first :
        (p : RefreshToken → Bool) (r : RefreshToken) (db : Db)
        → ((s : RefreshToken) → p s ≡ true → is_session user_id device_id s ≡ true)
        → HasSession r db
        → find_first p db ≡ (if p r then some r else none)
    HasSession-find_first p r db narrows has =
        find_first_only tokens p r db has.stored (λ i s held meets.
          has.single i r.id user_id device_id s r held has.stored (narrows s meets) has.open_now)

    live_is_session :
        (now : ℕ) (user_of : String → Option User) (v : ℕ) (s : RefreshToken)
        → is_live_session now user_of user_id v device_id s ≡ true
        → is_session user_id device_id s ≡ true
    live_is_session now user_of v s live = ground (arith, live)

    -- With one session on the device, a refresh token is accepted exactly as that session says.
    pub find_by_refresh_token_session :
        (now : ℕ) (user_of : String → Option User) (u : User) (token : String) (r : RefreshToken)
        (db : Db)
        → HasSession r db
        → user_of r.user_id ≡ some u
        → now < r.expires_at
        → find_by_refresh_token passwords tokens now user_of user_id u.perm_version token device_id
            db
          ≡ (if passwords.verify r.token_hash token then ok (auth_response u) else invalid_token)
    unfolding find_by_refresh_token
    find_by_refresh_token_session now user_of u token r db has owner fresh =
        let found =
          HasSession-find_first (is_live_session now user_of user_id u.perm_version device_id) r db
            (live_is_session now user_of u.perm_version) has in
        let live : is_live_session now user_of user_id u.perm_version device_id r ≡ true =
          ground (arith, has.open_now, owner, fresh) in
        let same : find_first (is_live_session now user_of user_id u.perm_version device_id) db
            ≡ some r =
          ground (arith, found, live) in
        elim (Bool-cases (passwords.verify r.token_hash token)) [
          | inl valid ↦
              rw (same, find_by_refresh_token) (rw valid (rw (owner, find_by_refresh_token) refl))
          | inr wrong ↦ rw (same, find_by_refresh_token) (rw wrong refl)
        ]

    -- What saving leaves: the one session of the device, with the hash of the new token.
    abbrev pub Saved : String → ℕ → Db × Result RefreshToken → Type 0
    Saved hash expires_at (db, out) =
        (r : RefreshToken) × (out ≡ ok r)
        × HasSession r db
        × (r.token_hash ≡ hash)
        × (r.expires_at ≡ expires_at)
        × (r.user_id ≡ user_id)

    pub save_refresh_token_session :
        (ttl : Option ℤ) (at : Fresh) (token : String) (device : DataDevice) (old : Option String)
        (db : Db)
        → IsSingle passwords tokens db
        → ((r : RefreshToken)
            → find_first (is_session user_id device_id) db ≡ some r
            → refuses_old passwords r old ≡ false)
        → Saved
            (passwords.hash at.salt token)
            (expiry ttl at)
            (save_refresh_token passwords tokens ttl at user_id token device device_id old db)
    unfolding save_refresh_token
    save_refresh_token_session ttl at token device old db single accepted =
        elim (Option-cases (find_first (is_session user_id device_id) db)) [
          | inl missing ↦
              let row =
                new_token at.id user_id (passwords.hash at.salt token) device_id device
                  (expiry ttl at) in
              rw (missing, save_refresh_token)
                (
                  row,
                  refl,
                  record {
                    stored = ground (arith, find-create row.id row db, eq_refl at.id);
                    open_now = ground (arith, eq_refl user_id, eq_refl device_id);
                    single = create-IsSingle passwords tokens row db missing single;
                  },
                  refl,
                  refl,
                  refl,
                )
          | inr (r, found) ↦
              let row = rotated (passwords.hash at.salt token) (expiry ttl at) r in
              let (held, meets) = find_first_found (is_session user_id device_id) r db found in
              rw (found, save_refresh_token)
                (rw (accepted r found) (
                  row,
                  refl,
                  record {
                    stored = ground (
                      arith,
                      find-update r.id r.id (rotated (passwords.hash at.salt token) (expiry ttl at))
                          db (λ x. refl),
                      held,
                      eq_refl r.id,
                    );
                    open_now = meets;
                    single =
                        update-IsSingle passwords tokens r.id (passwords.hash at.salt token)
                          (expiry ttl at) db single;
                  },
                  refl,
                  refl,
                  ground (arith, meets, eq_iff r.user_id user_id),
                ))
        ]

    -- Where no two sessions share a device and the old token, if one is given, is not refused for
    -- the device's session: once a new token is saved, until it expires, asking with the new token
    -- and the user's current version gives the user, and a token that the hash of the new one does
    -- not verify gives 401 AUTH_REFRESH_TOKEN_INVALID.
    pub save_refresh_token_rotates :
        (ttl : Option ℤ) (at : Fresh) (now : ℕ) (new other : String) (device : DataDevice)
        (old : Option String) (user_of : String → Option User) (u : User) (db : Db)
        → IsSingle passwords tokens db
        → ((r : RefreshToken)
            → find_first (is_session user_id device_id) db ≡ some r
            → refuses_old passwords r old ≡ false)
        → user_of user_id ≡ some u
        → now < expiry ttl at
        → passwords.verify (passwords.hash at.salt new) other ≡ false
        → let (db', _) =
            save_refresh_token passwords tokens ttl at user_id new device device_id old db in
          let find_by = λ (token : String).
            find_by_refresh_token passwords tokens now user_of user_id u.perm_version token
              device_id db' in
          (find_by new ≡ ok (auth_response u)) × (find_by other ≡ invalid_token)
    save_refresh_token_rotates ttl at now new other device old user_of u db single accepted owner
          fresh stale =
        let (r, _, has, hashed, lasts, mine) =
          save_refresh_token_session ttl at new device old db single accepted in
        let db' =
          (save_refresh_token passwords tokens ttl at user_id new device device_id old db).0 in
        let answer = λ (token : String).
          find_by_refresh_token_session now user_of u token r db' has (rw mine owner)
            (rw lasts fresh) in
        (
          ground (arith, answer new, hashed, passwords.verify-hash at.salt new),
          ground (arith, answer other, hashed, stale),
        )
