-- ===== src/AuthService/Accounts.antt =====
-- apps/auth-service/src/modules/users/users.service.ts: accounts, from their creation over the code
-- that activates them to the check of a password. The tables of users and of codes, argon2, the
-- encryption and `toLowerCase().trim()` are parameters.
pub mod Uniqueness
pub mod Holding
pub mod Activation
pub mod Examples
use backend_core_platform.External.Table.{Table, option_map}
use backend_core_platform.Common.Errors.ErrorCodes
use backend_core_platform.Common.Errors.{Result, ok, throws, fail, http}
use backend_core_platform.AuthService.Passwords.{Passwords}
use backend_core_platform.AuthService.Sessions.{User, user_id_of}
use backend_core_platform.Base.{
  ℕ, ◌+◌, String, Bool, true, false, not, ◌&&◌, Option, none, some, ltb, ◌==◌, Eq_ℕ, Eq_String,
  if◌then◌else◌, undefined, str,
}

pub record EmailOtp : Type 0 where
  pub id : String
  pub user_id : String
  pub code_hash : String
  pub expires_at : ℕ
  pub is_used : Bool

abbrev pub otp_id : EmailOtp → String
otp_id o = o.id

pub record CreateUserDto : Type 0 where
  pub email : String
  pub password : String
  pub name : Option String
  pub phone : Option String

-- What a registration draws: the time, the ids of the rows, the salts and the random code.
pub record Draws : Type 0 where
  pub now : ℕ
  pub user_id : String
  pub otp_id : String
  pub password_salt : String
  pub code_salt : String
  pub code : String

pub record CreateUserResponse : Type 0 where
  pub user_id : String
  pub email : String
  pub code : String
  pub created_at : ℕ

-- A user less the hash of the password.
pub record SafeUser : Type 0 where
  pub id : String
  pub email : String
  pub perm_version : ℕ
  pub name : Option String
  pub phone : Option String
  pub is_active : Bool
  pub created_at : ℕ
  pub updated_at : ℕ

abbrev pub without_password : User → SafeUser
without_password u = record {
  id = u.id;
  email = u.email;
  perm_version = u.perm_version;
  name = u.name;
  phone = u.phone;
  is_active = u.is_active;
  created_at = u.created_at;
  updated_at = u.updated_at;
}

pub record InfoUser : Type 0 where
  pub id : String
  pub email : String
  pub name : Option String
  pub phone : Option String
  pub is_active : Bool
  -- The profile for other services leaves it out.
  pub created_at : Option ℕ

abbrev pub has_email : String → User → Bool
has_email email u = u.email == email

-- `where: { email, isActive }`
abbrev pub has_status : String → Bool → User → Bool
has_status email true u = u.email == email && u.is_active
has_status email false u = u.email == email && not u.is_active

abbrev pub is_otp_of : String → EmailOtp → Bool
is_otp_of user_id o = o.user_id == user_id

-- `where: { userId, codeHash: code, expiresAt: { gt: new Date() } }`
abbrev pub is_valid_code : ℕ → String → String → EmailOtp → Bool
is_valid_code now user_id code o =
    o.user_id == user_id && o.code_hash == code && ltb now o.expires_at

abbrev pub activated : User → User
activated u = record u { is_active = true }

abbrev pub used : EmailOtp → EmailOtp
used o = record o { is_used = true }

abbrev pub renewed : String → ℕ → EmailOtp → EmailOtp
renewed code_hash expires_at o = record o { code_hash = code_hash; expires_at = expires_at }

abbrev pub new_otp : String → String → String → ℕ → EmailOtp
new_otp id user_id code_hash expires_at = record {
  id = id;
  user_id = user_id;
  code_hash = code_hash;
  expires_at = expires_at;
  is_used = false;
}

abbrev pub code_lifetime : ℕ
code_lifetime = 900000

abbrev pub new_user : Passwords → Draws → String → CreateUserDto → User
new_user passwords at email dto = record {
  id = at.user_id;
  email = email;
  password_hash = passwords.hash at.password_salt dto.password;
  perm_version = 1;
  name = dto.name;
  phone = dto.phone;
  is_active = false;
  created_at = at.now;
  updated_at = at.now;
}

-- Nest's NotFoundException and BadRequestException with a message.
abbrev pub not_found_exception : {A : Type 0} → String → Result A
not_found_exception message = throws (
    http (record {
      status = 404;
      is_bad_request = false;
      code = none;
      response_message = str message;
      details = undefined;
      message = some message;
    }))

abbrev pub bad_request_exception : {A : Type 0} → String → Result A
bad_request_exception message = throws (
    http (record {
      status = 400;
      is_bad_request = true;
      code = none;
      response_message = str message;
      details = undefined;
      message = some message;
    }))

abbrev pub not_active : {A : Type 0} → Result A
not_active = fail ErrorCodes.auth_invalid_credentials 401 "account_not_verified or not_found."

module _ (passwords : Passwords) (normalize : String → String) (users : Table User user_id_of)
    (otps : Table EmailOtp otp_id) where
  pub record State : Type 0 where
    pub user_db : users.Db
    pub otp_db : otps.Db

  unfoldable pub find_one_by_email : String → users.Db → Option User
  find_one_by_email email db = users.find_first (has_email email) db

  unfoldable pub validate_user : String → String → users.Db → Option SafeUser
  unfolding find_one_by_email
  validate_user email pass db = elim (find_one_by_email (normalize email) db) [
    | none ↦ none
    | some u ↦ if passwords.verify u.password_hash pass then some (without_password u) else none
  ]

  unfoldable pub validate_password : String → String → users.Db → Bool
  unfolding find_one_by_email
  validate_password email password db = elim (find_one_by_email email db) [
    | none ↦ false
    | some u ↦ passwords.verify u.password_hash password
  ]

  unfoldable pub check_active_email : String → users.Db → Result User
  check_active_email email db = elim (users.find_first (has_status email true) db) [
    | none ↦ not_active
    | some u ↦ ok u
  ]

  unfoldable pub create_or_update_email_otp : ℕ → String → String → String → otps.Db → otps.Db
  create_or_update_email_otp now id user_id code_hash db =
      elim (otps.find_first (is_otp_of user_id) db) [
        | some o ↦ otps.update o.id (renewed code_hash (now + code_lifetime)) db
        | none ↦ otps.create (new_otp id user_id code_hash (now + code_lifetime)) db
      ]

  unfoldable pub create_user :
      (String → String) → Draws → CreateUserDto → State → State × Result CreateUserResponse
  unfolding create_or_update_email_otp
  create_user encrypt at dto st =
      elim (users.find_first (has_email (normalize dto.email)) st.user_db) [
        | some existing ↦ (st, fail ErrorCodes.conflict 409 "Email already exists")
        | none ↦
            let code_hash = passwords.hash at.code_salt at.code in
            let row = new_user passwords at (normalize dto.email) dto in
            (
              record {
                user_db = users.create row st.user_db;
                otp_db = create_or_update_email_otp at.now at.otp_id row.id code_hash st.otp_db;
              },
              ok (record {
                user_id = row.id;
                email = row.email;
                code = encrypt code_hash;
                created_at = row.created_at;
              }),
            )
      ]

  unfoldable pub verify_register : ℕ → String → String → State → State × Result Bool
  verify_register now email code st =
      elim (users.find_first (has_status (normalize email) false) st.user_db) [
        | none ↦ (st, not_found_exception "User not found Or already verified")
        | some user ↦ elim (otps.find_first (is_valid_code now user.id code) st.otp_db) [
          | none ↦ (st, bad_request_exception "Invalid code")
          | some otp ↦ (
            record {
              user_db = users.update user.id activated st.user_db;
              otp_db = otps.update otp.id used st.otp_db;
            },
            ok true,
          )
        ]
      ]

  unfoldable pub info : String → users.Db → Option InfoUser
  info user_id db =
      option_map
        (λ u. record {
          id = u.id;
          email = u.email;
          name = u.name;
          phone = u.phone;
          is_active = u.is_active;
          created_at = some u.created_at;
        })
        (users.find user_id db)

  unfoldable pub get_profile_by_id : String → users.Db → Option InfoUser
  get_profile_by_id user_id db =
      option_map
        (λ u. record {
          id = u.id;
          email = u.email;
          name = u.name;
          phone = u.phone;
          is_active = u.is_active;
          created_at = none;
        })
        (users.find user_id db)
