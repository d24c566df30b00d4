-- ===== src/AuthService/Sessions/OnePerDevice.antt =====
-- A user has at most one session that is not revoked on each device.
use backend_core_platform.External.Table.{Table}
use backend_core_platform.AuthService.Passwords.{Passwords}
use backend_core_platform.AuthService.Sessions.{
  RefreshToken, token_id, DataDevice, is_session, is_open, revoked, rotated, new_token, refuses_old,
  Fresh, expiry, save_refresh_token, logout_device, logout_all_devices,
}
use backend_core_platform.Base.{
  ℕ, String, ◌≡◌, refl, sym, ◌∙◌, ◌⊎◌, inl, inr, Bool, true, Option, none, some, arith, eq_iff,
  ◌==◌, Eq_ℕ, Eq_String, Bool-cases, Option-cases, text_cases, ℤ,
}

module _ (passwords : Passwords) (tokens : Table RefreshToken token_id) where
  open tokens use {
    Db, find, find_id, find_first, find_first_found, find_first_missing, create, update,
    update_many, find-create, find-update, find-update_many,
  }

  abbrev pub IsSingle : Db → Type 0
  IsSingle db =
      (i j user_id device_id : String) (r s : RefreshToken)
      → find i db ≡ some r
      → find j db ≡ some s
      → is_session user_id device_id r ≡ true
      → is_session user_id device_id s ≡ true
      → i ≡ j

  -- A row that was a session before.
  abbrev Was : String → String → String → Db → Type 0
  Was i user_id device_id db =
      (r : RefreshToken) × (find i db ≡ some r) × (is_session user_id device_id r ≡ true)

  Was-update_many :
      (p : RefreshToken → Bool) (now : ℕ) (i user_id device_id : String) (r : RefreshToken)
      (db : Db)
      → find i (update_many p (revoked now) db) ≡ some r
      → is_session user_id device_id r ≡ true
      → Was i user_id device_id db
  Was-update_many p now i user_id device_id r db held open_r = elim (Option-cases (find i db)) [
    | inl missing ↦ ground (arith, find-update_many i p (revoked now) db (λ x. refl), missing, held)
    | inr (s, old) ↦ (
      s,
      old,
      ground (arith, find-update_many i p (revoked now) db (λ x. refl), old, held, open_r),
    )
  ]

  Was-update :
      (id hash : String) (expires_at : ℕ) (i user_id device_id : String) (r : RefreshToken)
      (db : Db)
      → find i (update id (rotated hash expires_at) db) ≡ some r
      → is_session user_id device_id r ≡ true
      → Was i user_id device_id db
  Was-update id hash expires_at i user_id device_id r db held open_r =
      elim (Option-cases (find i db)) [
        | inl missing ↦
            ground (arith, find-update i id (rotated hash expires_at) db (λ x. refl), missing, held)
        | inr (s, old) ↦ (
          s,
          old,
          ground
              (arith, find-update i id (rotated hash expires_at) db (λ x. refl), old, held, open_r),
        )
      ]

  pub update_many-IsSingle :
      (p : RefreshToken → Bool) (now : ℕ) (db : Db)
      → IsSingle db
      → IsSingle (update_many p (revoked now) db)
  update_many-IsSingle p now db single i j user_id device_id r s held held' open_r open_s =
      let (r', old, was) = Was-update_many p now i user_id device_id r db held open_r in
      let (s', old', was') = Was-update_many p now j user_id device_id s db held' open_s in
      single i j user_id device_id r' s' old old' was was'

  pub update-IsSingle :
      (id hash : String) (expires_at : ℕ) (db : Db)
      → IsSingle db
      → IsSingle (update id (rotated hash expires_at) db)
  update-IsSingle id hash expires_at db single i j user_id device_id r s held held' open_r open_s =
      let (r', old, was) = Was-update id hash expires_at i user_id device_id r db held open_r in
      let (s', old', was') = Was-update id hash expires_at j user_id device_id s db held' open_s in
      single i j user_id device_id r' s' old old' was was'

  -- A session of a table that a row was added to is that row, or was one before.
  Was-create :
      (row : RefreshToken) (i user_id device_id : String) (r : RefreshToken) (db : Db)
      → find i (create row db) ≡ some r
      → is_session user_id device_id r ≡ true
      → ((row.id ≡ i) × (row.user_id ≡ user_id) × (row.device_id ≡ device_id))
        ⊎ Was i user_id device_id db
  Was-create row i user_id device_id r db held open_r = elim (text_cases row.id i) [
    | inl (same, e) ↦ inl (
      e,
      ground (arith, find-create i row db, same, held, open_r, eq_iff r.user_id user_id),
      ground (arith, find-create i row db, same, held, open_r, eq_iff r.device_id device_id),
    )
    | inr (apart, _) ↦ inr (r, ground (arith, find-create i row db, apart, held), open_r)
  ]

  not_before :
      (row : RefreshToken) (j user_id device_id : String) (db : Db)
      → find_first (is_session row.user_id row.device_id) db ≡ none
      → row.user_id ≡ user_id
      → row.device_id ≡ device_id
      → ¬ Was j user_id device_id db
  not_before row j user_id device_id db missing same_user same_device (s, held, open_s) = ground (
    arith,
    find_first_missing (is_session row.user_id row.device_id) j s db missing held,
    open_s,
    eq_iff s.user_id user_id,
    eq_iff s.device_id device_id,
    eq_iff s.user_id row.user_id,
    eq_iff s.device_id row.device_id,
    same_user,
    same_device,
  )

  pub create-IsSingle :
      (row : RefreshToken) (db : Db)
      → find_first (is_session row.user_id row.device_id) db ≡ none
      → IsSingle db
      → IsSingle (create row db)
  create-IsSingle row db missing single i j user_id device_id r s held held' open_r open_s =
      elim (Was-create row i user_id device_id r db held open_r) [
        | inl (here, u, d) ↦ elim (Was-create row j user_id device_id s db held' open_s) [
          | inl (there, _, _) ↦ sym here ∙ there
          | inr before ↦ elim (not_before row j user_id device_id db missing u d before) [ ]
        ]
        | inr (r', old, was) ↦ elim (Was-create row j user_id device_id s db held' open_s) [
          | inl (there, u, d) ↦
              elim (not_before row i user_id device_id db missing u d (r', old, was)) [ ]
          | inr (s', old', was') ↦ single i j user_id device_id r' s' old old' was was'
        ]
      ]

  -- Where no two sessions that are not revoked share a user and a device, none do after a token is
  -- saved, whether that is refused, replaces a session or opens one.
  pub save_refresh_token-IsSingle :
      (ttl : Option ℤ) (at : Fresh) (user_id token device_id : String) (device : DataDevice)
      (old : Option String) (db : Db)
      → IsSingle db
      → IsSingle
          (save_refresh_token passwords tokens ttl at user_id token device device_id old db).0
  unfolding save_refresh_token
  save_refresh_token-IsSingle ttl at user_id token device_id device old db single =
      elim (Option-cases (find_first (is_session user_id device_id) db)) [
        | inl missing ↦
            rw (missing, save_refresh_token)
              (create-IsSingle
                (new_token at.id user_id (passwords.hash at.salt token) device_id device
                  (expiry ttl at))
                db missing single)
        | inr (existing, found) ↦ elim (Bool-cases (refuses_old passwords existing old)) [
          | inl refused ↦ rw (found, save_refresh_token) (rw refused single)
          | inr kept ↦
              rw (found, save_refresh_token)
                (rw kept (
                  update-IsSingle existing.id (passwords.hash at.salt token) (expiry ttl at) db
                    single))
        ]
      ]

  pub logout_device-IsSingle :
      (now : ℕ) (device_id user_id token : String) (db : Db)
      → IsSingle db
      → IsSingle (logout_device passwords tokens now device_id user_id token db).0
  unfolding logout_device
  logout_device-IsSingle now device_id user_id token db single =
      elim (Option-cases (find_first (is_session user_id device_id) db)) [
        | inl missing ↦ rw (missing, logout_device) single
        | inr (session, found) ↦ elim (Bool-cases (passwords.verify session.token_hash token)) [
          | inl valid ↦
              rw (found, logout_device)
                (rw valid (update_many-IsSingle (λ r. r.id == session.id) now db single))
          | inr wrong ↦ rw (found, logout_device) (rw wrong single)
        ]
      ]

  pub logout_all_devices-IsSingle :
      (now : ℕ) (user_id : String) (db : Db)
      → IsSingle db
      → IsSingle (logout_all_devices passwords tokens now user_id db).0
  unfolding logout_all_devices
  logout_all_devices-IsSingle now user_id db single =
      update_many-IsSingle (is_open user_id) now db single
