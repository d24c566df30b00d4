-- ===== src/AuthService/Sessions/Logout.antt =====
-- After a logout the refresh tokens of the device, or of all devices, are refused.
use backend_core_platform.External.Table.{Table}
use backend_core_platform.AuthService.Passwords.{Passwords}
use backend_core_platform.AuthService.Sessions.{
  User, RefreshToken, token_id, is_session, is_open, is_live_session, revoked, invalid_token,
  find_by_refresh_token, logout_device, logout_all_devices,
}
use backend_core_platform.AuthService.Sessions.Rotation.{HasSession, HasSession-find_first}
use backend_core_platform.Base.{
  ℕ, String, ◌≡◌, refl, ◌≢◌, inl, inr, Bool, true, false, Option, some, arith, eq_iff, ◌==◌, Eq_ℕ,
  Eq_String, Bool-cases, Option-cases,
}

module _ (passwords : Passwords) (tokens : Table RefreshToken token_id) where
  open tokens use {
    Db, find, find_id, find_first, find_first_found, find_first_missing, count, update_many,
    find-update_many,
  }

  -- No row is a session of the device: every refresh token for it is refused.
  refused_without_session :
      (now : ℕ) (user_of : String → Option User) (user_id : String) (v : ℕ)
      (token device_id : String) (db : Db)
      → ((i : String) (r : RefreshToken)
          → find i db ≡ some r
          → is_session user_id device_id r ≡ false)
      → find_by_refresh_token passwords tokens now user_of user_id v token device_id db
        ≡ invalid_token
  unfolding find_by_refresh_token
  refused_without_session now user_of user_id v token device_id db nothing =
      elim (Option-cases (find_first (is_live_session now user_of user_id v device_id) db)) [
        | inl missing ↦ rw (missing, find_by_refresh_token) refl
        | inr (s, found) ↦
            let (held, meets) =
              find_first_found (is_live_session now user_of user_id v device_id) s db found in
            ground (arith, nothing s.id s held, meets)
      ]

  -- A version that is not the user's: every refresh token with it is refused.
  pub refused_old_version :
      (now : ℕ) (user_of : String → Option User) (user_id : String) (u : User) (v : ℕ)
      (token device_id : String) (db : Db)
      → user_of user_id ≡ some u
      → u.perm_version ≢ v
      → find_by_refresh_token passwords tokens now user_of user_id v token device_id db
        ≡ invalid_token
  unfolding find_by_refresh_token
  refused_old_version now user_of user_id u v token device_id db owner apart =
      elim (Option-cases (find_first (is_live_session now user_of user_id v device_id) db)) [
        | inl missing ↦ rw (missing, find_by_refresh_token) refl
        | inr (s, found) ↦
            let (_, meets) =
              find_first_found (is_live_session now user_of user_id v device_id) s db found in
            let mine : s.user_id ≡ user_id = ground (arith, meets, eq_iff s.user_id user_id) in
            let owner' : user_of s.user_id ≡ some u = rw mine owner in
            ground (arith, meets, owner', apart)
      ]

  revoked_row :
      (p : RefreshToken → Bool) (now : ℕ) (i user_id device_id : String) (r : RefreshToken)
      (db : Db)
      → find i (update_many p (revoked now) db) ≡ some r
      → ((s : RefreshToken)
          → find i db ≡ some s
          → p s ≡ false
          → is_session user_id device_id s ≡ false)
      → is_session user_id device_id r ≡ false
  revoked_row p now i user_id device_id r db held others = elim (Option-cases (find i db)) [
    | inl missing ↦ ground (arith, find-update_many i p (revoked now) db (λ x. refl), missing, held)
    | inr (s, old) ↦ elim (Bool-cases (p s)) [
      | inl hit ↦ ground (arith, find-update_many i p (revoked now) db (λ x. refl), old, hit, held)
      | inr spared ↦ ground (
        arith,
        find-update_many i p (revoked now) db (λ x. refl),
        old,
        spared,
        held,
        others s old spared,
      )
    ]
  ]

  pub logged_out_everywhere :
      (at now : ℕ) (user_of : String → Option User) (user_id : String) (v : ℕ)
      (token device_id : String) (db : Db)
      → find_by_refresh_token passwords tokens now user_of user_id v token device_id
          (logout_all_devices passwords tokens at user_id db).0
        ≡ invalid_token
  unfolding logout_all_devices
  logged_out_everywhere at now user_of user_id v token device_id db =
      refused_without_session now user_of user_id v token device_id
        (update_many (is_open user_id) (revoked at) db)
        (λ j s e.
          revoked_row (is_open user_id) at j user_id device_id s db e
            (λ s' old spared. ground (arith, spared)))

  -- After `logoutAllDevices` every refresh token of the user is refused on every device with 401
  -- AUTH_REFRESH_TOKEN_INVALID, whatever the time and the version, and a row of another user is as
  -- it was.
  pub logout_all_devices_refuses :
      (at now : ℕ) (user_of : String → Option User) (user_id : String) (v : ℕ)
      (token device_id i : String) (r : RefreshToken) (db : Db)
      → find i db ≡ some r
      → r.user_id ≢ user_id
      → let (db', _) = logout_all_devices passwords tokens at user_id db in
        (find_by_refresh_token passwords tokens now user_of user_id v token device_id db'
          ≡ invalid_token)
        × (find i db' ≡ some r)
  unfolding logout_all_devices
  logout_all_devices_refuses at now user_of user_id v token device_id i r db held apart = (
    logged_out_everywhere at now user_of user_id v token device_id db,
    ground (
      arith,
      find-update_many i (is_open user_id) (revoked at) db (λ x. refl),
      held,
      eq_iff r.user_id user_id,
      apart,
    ),
  )

  only_session :
      (user_id device_id j : String) (r s : RefreshToken) (db : Db)
      → HasSession passwords tokens user_id device_id r db
      → find j db ≡ some s
      → (s.id == r.id) ≡ false
      → is_session user_id device_id s ≡ false
  only_session user_id device_id j r s db has held apart =
      elim (Bool-cases (is_session user_id device_id s)) [
        | inl open_s ↦
            let same =
              has.single j r.id user_id device_id s r held has.stored open_s has.open_now in
            ground (arith, same, find_id j s db held, apart, eq_iff s.id r.id)
        | inr closed ↦ closed
      ]

  -- `logoutDevice` with the token of the one session of the device: from then on every refresh token,
  -- the one of the logout and any other, is refused for that user and device with 401
  -- AUTH_REFRESH_TOKEN_INVALID, whatever the time and the version. With a token that the session's
  -- hash does not verify, nothing is changed and no row is counted.
  pub logout_device_refuses :
      (at now : ℕ) (user_of : String → Option User) (user_id : String) (v : ℕ)
      (token other shown device_id : String) (r : RefreshToken) (db : Db)
      → HasSession passwords tokens user_id device_id r db
      → passwords.verify r.token_hash token ≡ true
      → passwords.verify r.token_hash other ≡ false
      → (find_by_refresh_token passwords tokens now user_of user_id v shown device_id
            (logout_device passwords tokens at device_id user_id token db).0
          ≡ invalid_token)
        × (logout_device passwords tokens at device_id user_id other db ≡ (db, 0))
  unfolding logout_device
  logout_device_refuses at now user_of user_id v token other shown device_id r db has valid wrong =
      let found =
        HasSession-find_first passwords tokens user_id device_id (is_session user_id device_id) r db
          (λ s open_s. open_s) has in
      let session : find_first (is_session user_id device_id) db ≡ some r =
        ground (arith, found, has.open_now) in
      (
        rw (session, logout_device)
            (rw valid (
              refused_without_session now user_of user_id v shown device_id
                (update_many (λ s. s.id == r.id) (revoked at) db)
                (λ j s e.
                  revoked_row (λ t. t.id == r.id) at j user_id device_id s db e
                    (λ s' old spared. only_session user_id device_id j r s' db has old spared)))),
        rw (session, logout_device) (rw wrong refl),
      )
