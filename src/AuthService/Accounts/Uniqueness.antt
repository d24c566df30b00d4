-- ===== src/AuthService/Accounts/Uniqueness.antt =====
-- No two accounts have the same e-mail address, and every address is stored as it is looked up.
use backend_core_platform.External.Table.{Table, KeepsId}
use backend_core_platform.AuthService.Passwords.{Passwords}
use backend_core_platform.AuthService.Sessions.{User, user_id_of}
use backend_core_platform.AuthService.Accounts.{
  EmailOtp, otp_id, State, create_user, verify_register, has_email, has_status, activated, new_user,
  Draws, CreateUserDto, is_valid_code,
}
use backend_core_platform.Base.{
  ℕ, String, ◌≡◌, refl, sym, ◌∙◌, inl, inr, false, none, some, arith, eq_iff, Option-cases,
  text_cases,
}

module _ (passwords : Passwords) (normalize : String → String) (users : Table User user_id_of)
    (otps : Table EmailOtp otp_id) where
  open users use {find, find_first, find_first_missing, find-create, find-update}

  pub record IsSound (db : users.Db) : Type 0 where
    pub unique :
        (i j : String) (r s : User)
        → find i db ≡ some r
        → find j db ≡ some s
        → r.email ≡ s.email
        → i ≡ j
    pub normal : (i : String) (r : User) → find i db ≡ some r → normalize r.email ≡ r.email

  -- The operations on accounts, with what they draw.
  pub data Operation : Type 0 where
    creates : Draws → CreateUserDto → Operation
    verifies : ℕ → String → String → Operation

  module _ (encrypt : String → String) where
    abbrev pub run :
        Operation → State passwords normalize users otps → State passwords normalize users otps
    run (creates at dto) st = (create_user passwords normalize users otps encrypt at dto st).0
    run (verifies now email code) st =
        (verify_register passwords normalize users otps now email code st).0

  created-IsSound :
      (r : User) (db : users.Db)
      → normalize r.email ≡ r.email
      → find_first (has_email r.email) db ≡ none
      → IsSound db
      → IsSound (users.create r db)
  created-IsSound r db normal missing sound =
      let other : (j : String) (s : User) → find j db ≡ some s → s.email ≡ r.email → ⊥ =
        λ j s held same. ground (
          arith,
          find_first_missing (has_email r.email) j s db missing held,
          eq_iff s.email r.email,
          same,
        ) in
      record {
        unique = λ i j a b p q h. elim (text_cases r.id i) [
          | inl (hit, at_i) ↦ elim (text_cases r.id j) [
            | inl (hit', at_j) ↦ sym at_i ∙ at_j
            | inr (miss, _) ↦ ground (
              arith,
              find-create i r db,
              hit,
              p,
              h,
              other j b (ground (arith, find-create j r db, miss, q)),
            )
          ]
          | inr (miss, _) ↦ elim (text_cases r.id j) [
            | inl (hit', _) ↦ ground (
              arith,
              find-create j r db,
              hit',
              q,
              h,
              other i a (ground (arith, find-create i r db, miss, p)),
            )
            | inr (miss', _) ↦
                sound.unique i j a b (ground (arith, find-create i r db, miss, p))
                  (ground (arith, find-create j r db, miss', q)) h
          ]
        ];
        normal = λ i a p. elim (text_cases r.id i) [
          | inl (hit, _) ↦ ground (arith, find-create i r db, hit, p, normal)
          | inr (miss, _) ↦ sound.normal i a (ground (arith, find-create i r db, miss, p))
        ];
      }

  -- A change of an account that keeps its id and its address.
  module _ (f : User → User) (same_id : KeepsId user_id_of f)
      (same_email : (u : User) → (f u).email ≡ u.email) where
    -- A row of the table after the change has the address that it had before.
    before_change :
        (k i : String) (a : User) (db : users.Db)
        → find i (users.update k f db) ≡ some a
        → (r : User) × (find i db ≡ some r) × (a.email ≡ r.email)
    before_change k i a db p = elim (Option-cases (find i db)) [
      | inl missing ↦ ground (arith, find-update i k f db same_id, missing, p)
      | inr (r, held) ↦
          (r, held, ground (arith, find-update i k f db same_id, held, p, same_email r))
    ]

    pub changed-IsSound : (k : String) (db : users.Db) → IsSound db → IsSound (users.update k f db)
    changed-IsSound k db sound = record {
      unique = λ i j a b p q h.
          let (r, held, same) = before_change k i a db p in
          let (s, held', same') = before_change k j b db q in
          sound.unique i j r s held held' (sym same ∙ h ∙ same');
      normal = λ i a p.
          let (r, held, same) = before_change k i a db p in rw same (sound.normal i r held);
    }

  module _ (encrypt : String → String) where
    pub run-IsSound :
        (op : Operation) (st : State passwords normalize users otps)
        → ((e : String) → normalize (normalize e) ≡ normalize e)
        → IsSound st.user_db
        → IsSound (run encrypt op st).user_db
    unfolding create_user verify_register
    run-IsSound (creates at dto) st idempotent sound =
        elim (Option-cases (find_first (has_email (normalize dto.email)) st.user_db)) [
          | inl missing ↦
              rw (missing, run, create_user)
                (created-IsSound (new_user passwords at (normalize dto.email) dto) st.user_db
                  (idempotent dto.email) missing sound)
          | inr (u, found) ↦ rw (found, run, create_user) sound
        ]
    run-IsSound (verifies now email code) st idempotent sound =
        elim (Option-cases (find_first (has_status (normalize email) false) st.user_db)) [
          | inl missing ↦ rw (missing, run, verify_register) sound
          | inr (u, found) ↦
              elim (Option-cases (otps.find_first (is_valid_code now u.id code) st.otp_db)) [
                | inl wrong ↦ rw (found, run, verify_register) (rw (wrong, verify_register) sound)
                | inr (o, right) ↦
                    rw (found, run, verify_register)
                      (rw (right, verify_register)
                        (changed-IsSound activated (λ x. refl) (λ x. refl) u.id st.user_db sound))
              ]
        ]
