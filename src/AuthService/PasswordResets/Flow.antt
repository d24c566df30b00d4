-- ===== src/AuthService/PasswordResets/Flow.antt =====
-- A reset from its creation to the new password.
use backend_core_platform.External.Table.{Table}
use backend_core_platform.External.Table.Queries.{find_first_only}
use backend_core_platform.Common.Errors.{ok}
use backend_core_platform.AuthService.Passwords.{Passwords}
use backend_core_platform.AuthService.Sessions.{User, user_id_of, Fresh}
use backend_core_platform.AuthService.PasswordResets.{
  PasswordReset, reset_id, State, is_pending, is_verified, marked_used, with_password, new_reset,
  bad_request, create_password_reset, verify_password_reset, reset_password,
}
use backend_core_platform.Base.{
  ℕ, ◌+◌, ◌<◌, String, ◌≡◌, refl, ◌≢◌, inl, inr, Bool, true, false, none, some, arith, eq_iff,
  eq_refl, if◌then◌else◌, Bool-cases, Option-cases,
}

module _ (passwords : Passwords) (users : Table User user_id_of)
    (resets : Table PasswordReset reset_id) where
  open resets use {
    find, find_id, find_first, find_first_found, find_first_missing, create, update, delete,
    find-create, find-update, find-delete,
  }

  abbrev St : Type 0
  St = State passwords users resets

  module _ (user_id : String) where
    -- The user has one reset, `r`.
    pub record HasReset (r : PasswordReset) (db : resets.Db) : Type 0 where
      pub stored : find r.id db ≡ some r
      pub mine : r.user_id ≡ user_id
      pub only :
          (i : String) (s : PasswordReset) → find i db ≡ some s → s.user_id ≡ user_id → i ≡ r.id

    HasReset-find_first :
        (p : PasswordReset → Bool) (r : PasswordReset) (db : resets.Db)
        → ((s : PasswordReset) → p s ≡ true → s.user_id ≡ user_id)
        → HasReset r db
        → find_first p db ≡ (if p r then some r else none)
    HasReset-find_first p r db narrows has =
        find_first_only resets p r db has.stored (λ i s e meets. has.only i s e (narrows s meets))

    HasReset-create :
        (at : Fresh) (token : String) (db : resets.Db)
        → ((i : String) (s : PasswordReset) → find i db ≡ some s → s.user_id ≢ user_id)
        → HasReset
            (new_reset passwords at user_id token)
            (create (new_reset passwords at user_id token) db)
    HasReset-create at token db nothing =
        let row = new_reset passwords at user_id token in
        record {
          stored = ground (arith, find-create row.id row db, eq_refl at.id);
          mine = refl;
          only = λ i s e own.
              ground (arith, find-create i row db, eq_iff at.id i, nothing i s, e, own);
        }

    HasReset-update :
        (r : PasswordReset) (db : resets.Db)
        → HasReset r db
        → HasReset (marked_used r) (update r.id marked_used db)
    HasReset-update r db has = record {
      stored =
          ground
            (arith, find-update r.id r.id marked_used db (λ x. refl), has.stored, eq_refl r.id);
      mine = has.mine;
      only = λ i s e own. ground (
        arith,
        find-update i r.id marked_used db (λ x. refl),
        eq_iff r.id i,
        has.only i s,
        e,
        own,
      );
    }

    module _ (now : ℕ) (code : String) (r : PasswordReset) (st : St)
        (has : HasReset r st.reset_db) where
      verify_pending :
          now < r.expires_at
          → r.used ≡ false
          → verify_password_reset passwords users resets now user_id code st ≡ (
              if passwords.verify r.token_hash code
              then (
                record { user_db = st.user_db; reset_db = update r.id marked_used st.reset_db },
                ok true,
              )
              else (st, bad_request "Invalid code"))
      unfolding verify_password_reset
      verify_pending fresh unused =
          let found =
            HasReset-find_first (is_pending now user_id) r st.reset_db
              (λ s p. ground (arith, p, eq_iff s.user_id user_id)) has in
          let same : find_first (is_pending now user_id) st.reset_db ≡ some r =
            ground (arith, found, has.mine, fresh, unused, eq_iff r.user_id user_id) in
          elim (Bool-cases (passwords.verify r.token_hash code)) [
            | inl valid ↦ rw (same, verify_password_reset) (rw valid refl)
            | inr wrong ↦ rw (same, verify_password_reset) (rw wrong refl)
          ]

      reset_verified :
          (salt password : String)
          → r.used ≡ true
          → passwords.verify r.token_hash code ≡ true
          → reset_password passwords users resets salt user_id password code st ≡ (
            record {
              user_db =
                  users.update user_id (with_password (passwords.hash salt password)) st.user_db;
              reset_db = delete r.id st.reset_db;
            },
            ok true,
          )
      unfolding reset_password
      reset_verified salt password used valid =
          let found =
            HasReset-find_first (is_verified user_id) r st.reset_db
              (λ s p. ground (arith, p, eq_iff s.user_id user_id)) has in
          let same : find_first (is_verified user_id) st.reset_db ≡ some r =
            ground (arith, found, has.mine, used, eq_iff r.user_id user_id) in
          rw (same, reset_password) (rw valid refl)

      -- Once the one reset is deleted there is none.
      reset_deleted :
          (salt password : String) (users_now : users.Db)
          → let st' : St = record { user_db = users_now; reset_db = delete r.id st.reset_db } in
            reset_password passwords users resets salt user_id password code st'
            ≡ (st', bad_request "The code has not been verified")
      unfolding reset_password
      reset_deleted salt password users_now =
          elim (Option-cases (find_first (is_verified user_id) (delete r.id st.reset_db))) [
            | inl missing ↦ rw (missing, reset_password) refl
            | inr (s, found) ↦
                let (held, meets) =
                  find_first_found (is_verified user_id) s (delete r.id st.reset_db) found in
                ground (
                  arith,
                  find-delete s.id r.id st.reset_db,
                  held,
                  meets,
                  eq_iff s.user_id user_id,
                  has.only s.id s,
                  eq_iff r.id s.id,
                )
          ]

    abbrev requested : (String → String) → Fresh → String → St → St × (String × ℕ)
    requested encrypt at token st =
        create_password_reset passwords users resets encrypt at user_id token st

    -- A reset with the random token, for a user who has no other reset: within a quarter of an hour
    -- the token is verified, with it the new password is set, whose hash is then the user's, and the
    -- same token sets no other password after that.
    pub reset_password_once :
        (encrypt : String → String) (at : Fresh) (now : ℕ)
        (token salt password salt' password' : String) (u : User) (st : St)
        → ((i : String) (s : PasswordReset) → find i st.reset_db ≡ some s → s.user_id ≢ user_id)
        → now < at.now + 900000
        → users.find user_id st.user_db ≡ some u
        → let st₁ = (requested encrypt at token st).0 in
          let (st₂, verified) =
            verify_password_reset passwords users resets now user_id token st₁ in
          let (st₃, reset) =
            reset_password passwords users resets salt user_id password token st₂ in
          (verified ≡ ok true)
          × (reset ≡ ok true)
          × (users.find user_id st₃.user_db ≡ some (with_password (passwords.hash salt password) u))
          × (reset_password passwords users resets salt' user_id password' token st₃
              ≡ (st₃, bad_request "The code has not been verified"))
    unfolding create_password_reset
    reset_password_once encrypt at now token salt password salt' password' u st nothing fresh held =
        let row = new_reset passwords at user_id token in
        let st₁ : St = record { user_db = st.user_db; reset_db = create row st.reset_db } in
        let st₂ : St = record {
          user_db = st.user_db;
          reset_db = update row.id marked_used st₁.reset_db;
        } in
        let has = HasReset-create at token st.reset_db nothing in
        let used = HasReset-update row st₁.reset_db has in
        let hash_valid = passwords.verify-hash at.salt token in
        let verdict = verify_pending now token row st₁ has fresh refl in
        let verified : verify_password_reset passwords users resets now user_id token st₁
            ≡ (st₂, ok true) =
          ground (arith, verdict, hash_valid) in
        rw verified (
          rw (reset_verified now token (marked_used row) st₂ used salt password refl hash_valid) (
            refl,
            refl,
            ground (
              arith,
              held,
              eq_refl user_id,
              users.find-update user_id user_id (with_password (passwords.hash salt password))
                  st.user_db (λ x. refl),
            ),
            reset_deleted now token (marked_used row) st₂ used salt' password'
                (users.update user_id (with_password (passwords.hash salt password)) st.user_db),
          ))

    -- What `createPasswordReset` returns is the encryption of the token's hash: where argon2 does
    -- not take that text for the token, and the user has no other reset, that text is refused
    -- within the quarter of an hour as an invalid code, and nothing is changed.
    pub mailed_token_refused :
        (encrypt : String → String) (at : Fresh) (now : ℕ) (token : String) (st : St)
        → ((i : String) (s : PasswordReset) → find i st.reset_db ≡ some s → s.user_id ≢ user_id)
        → now < at.now + 900000
        → let hash = passwords.hash at.salt token in
          passwords.verify hash (encrypt hash) ≡ false
          → let (st₁, (mailed, _)) = requested encrypt at token st in
            verify_password_reset passwords users resets now user_id mailed st₁
            ≡ (st₁, bad_request "Invalid code")
    unfolding create_password_reset
    mailed_token_refused encrypt at now token st nothing fresh stranger =
        let row = new_reset passwords at user_id token in
        let st₁ : St = record { user_db = st.user_db; reset_db = create row st.reset_db } in
        let verdict =
          verify_pending now (encrypt (passwords.hash at.salt token)) row st₁
            (HasReset-create at token st.reset_db nothing) fresh refl in
        ground (arith, verdict, stranger)
