-- ===== src/Flows/Examples.antt =====
-- A registration and a notification on their way, on tables in memory.
use backend_core_platform.External.Table.{Table}
use backend_core_platform.External.Table.Memory
use backend_core_platform.External.Table.Memory.{memory}
use backend_core_platform.Common.Errors.{Result, ok, throws, error}
use backend_core_platform.Common.JetStream.{acks, consume_batch}
use backend_core_platform.AuthService.Passwords.{Passwords}
use backend_core_platform.AuthService.Sessions.{User, user_id_of, token_id}
use backend_core_platform.AuthService.Accounts.{
  EmailOtp, otp_id, CreateUserDto, Draws, check_active_email, activated, new_user,
}
use backend_core_platform.AuthService.PasswordResets.{reset_id}
use backend_core_platform.AuthService.Auth.{
  Env, Tables, Store, Reply, UserRegisteredEvent, user_registered,
}
use backend_core_platform.AuthService.Auth.Signup.{RegisterResponse, register_account, verify}
use backend_core_platform.Gateway.SocketRegistry
use backend_core_platform.Gateway.SocketRegistry.{register, get_sockets_by_user}
use backend_core_platform.Gateway.Websocket.{CoreGateway, emits}
use backend_core_platform.Gateway.NotificationPush.{handle_notification_created}
use backend_core_platform.NotificationService.Mails.{Mailer, verify_mail, handle_user_registered}
use backend_core_platform.NotificationService.Notifications.{
  Notification, notification_id, CreateNotification, NotificationCreated, create_noti,
}
use backend_core_platform.Flows.Registration.{register_account-verify}
use backend_core_platform.Flows.Push
use backend_core_platform.Flows.Push.{create_noti-push}
use backend_core_platform.Base.{
  String, ◌≡◌, refl, ◌≢◌, Bool, true, false, none, some, [], ◌∷◌, map, arith, eq_refl, ◌==◌, Eq_ℕ,
  Eq_String, if◌then◌else◌, concat, undefined, str,
}

abbrev tables : Tables
tables = record {
  users = memory user_id_of;
  otps = memory otp_id;
  resets = memory reset_id;
  tokens = memory token_id;
}

abbrev passwords : Passwords
passwords = record {
  hash = λ salt p. concat p "#";
  verify = λ hash p. hash == concat p "#";
  verify-hash = λ salt p. eq_refl (concat p "#");
}

abbrev env : Env
env = record {
  passwords = passwords;
  normalize = λ e. if e == "ANN@x.org" then "ann@x.org" else e;
  encrypt = λ s. concat "@" s;
  sign = λ claims ttl now. "jwt";
  verify_jwt = λ now token. throws (error "jwt malformed");
  to_iso_string = λ t. "1970-01-01T00:00:00.000Z";
  registered_error = λ e. none;
  reset_error = λ e. none;
  parse_agent = λ agent. (none, none);
  jwt_refresh_expires_in = none;
  jwt_expires_in = none;
}

abbrev dto : CreateUserDto
dto = record { email = "ANN@x.org"; password = "secret"; name = some "Ann"; phone = none }

abbrev draws : Draws
draws = record {
  now = 1000;
  user_id = "u1";
  otp_id = "o1";
  password_salt = "";
  code_salt = "";
  code = "k7";
}

abbrev empty : Store tables
empty = record { user_db = []; otp_db = []; reset_db = []; token_db = [] }

abbrev mailer : Mailer
mailer = record {
  encode_uri_component = λ s. s;
  verify_link_base_url = none;
  transport = λ mail. none;
}

abbrev decrypt : String → Result String
decrypt s = if s == "@k7#" then ok "k7#" else throws (error "Invalid cipher text")

abbrev event : UserRegisteredEvent
event = record {
  user_id = "u1";
  email = "ann@x.org";
  code = "@k7#";
  created_at = "1970-01-01T00:00:00.000Z";
  request_id = some "r1";
}

abbrev parse : String → Result UserRegisteredEvent
parse s = ok event

no_user :
    (i : String) (s : User) → tables.users.find i empty.user_db ≡ some s → s.email ≢ "ann@x.org"
unfolding Memory.find
no_user i s e = cc

no_otp : (i : String) (s : EmailOtp) → tables.otps.find i empty.otp_db ≡ some s → s.user_id ≢ "u1"
unfolding Memory.find
no_otp i s e = cc

abbrev registered : Reply tables RegisterResponse
registered = register_account env tables draws dto "r1" empty

abbrev verified : Reply tables Bool
verified = verify env tables 2000 "ann@x.org" "k7#" registered.store

register_account-verify_example :
    (registered.events ≡ user_registered event ∷ [])
    × (consume_batch (handle_user_registered mailer decrypt parse) ((false, "{..}") ∷ []) []
        ≡ (verify_mail mailer "ann@x.org" "k7#" ∷ [], acks "{..}" ∷ []))
    × (verified.result ≡ ok true)
    × (check_active_email passwords env.normalize tables.users tables.otps "ann@x.org"
          verified.store.user_db
        ≡ ok (activated (new_user passwords draws "ann@x.org" dto)))
register_account-verify_example =
    register_account-verify env tables mailer decrypt parse draws dto "r1" empty 2000 "ann@x.org"
      "{..}" [] no_user no_otp refl (omega arith) refl refl refl refl

abbrev notifications : Table Notification notification_id
notifications = memory notification_id

abbrev greeting : CreateNotification
greeting = record {
  user_id = "u1";
  kind = "info";
  title = "Hello";
  body = none;
  payload = undefined;
}

abbrev pushed : NotificationCreated
pushed = Push.event notifications 400 "n1" (str "today") greeting []

abbrev gateway : CoreGateway
gateway = record { registry = register "u1" "s1" SocketRegistry.empty; rate_limits = [] }

create_noti-push_example :
    ((create_noti notifications 400 "n1" (str "today") (λ e. none) greeting []).published
      ≡ some pushed)
    × (consume_batch
          (handle_notification_created (λ s. ok pushed) gateway)
          ((false, "{..}") ∷ [])
          []
        ≡ (
          map
              (λ socket.
                emits socket "notification:new"
                  (Push.message_sent notifications 400 "n1" (str "today") greeting []))
              (get_sockets_by_user "u1" gateway.registry),
          acks "{..}" ∷ [],
        ))
unfolding Memory.find
create_noti-push_example =
    create_noti-push notifications 400 "n1" (str "today") greeting [] (λ e. none) (λ s. ok pushed)
      "{..}" gateway refl refl refl refl
