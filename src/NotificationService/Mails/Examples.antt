-- ===== src/NotificationService/Mails/Examples.antt =====
-- A registration, and a transport that takes no mail.
use backend_core_platform.Common.Errors.{Result, ok, error}
use backend_core_platform.Common.JetStream.{acks, consume_batch}
use backend_core_platform.AuthService.Auth.{UserRegisteredEvent}
use backend_core_platform.NotificationService.Mails.{Mailer, handle_user_registered}
use backend_core_platform.NotificationService.Mails.Sending.{registered_mail_lost}
use backend_core_platform.Base.{String, ◌≡◌, refl, false, none, some, [], ◌∷◌}

abbrev mailer : Mailer
mailer = record {
  encode_uri_component = λ s. s;
  verify_link_base_url = none;
  transport = λ mail. some (error "connect ETIMEDOUT");
}

abbrev event : UserRegisteredEvent
event = record {
  user_id = "u1";
  email = "ann@x.org";
  code = "@k#";
  created_at = "1970-01-01T00:00:00.000Z";
  request_id = none;
}

abbrev decrypt : String → Result String
decrypt s = ok "k#"

abbrev parse : String → Result UserRegisteredEvent
parse s = ok event

registered_mail_lost_example :
    consume_batch (handle_user_registered mailer decrypt parse) ((false, "{..}") ∷ []) []
    ≡ ([], acks "{..}" ∷ [])
registered_mail_lost_example =
    registered_mail_lost mailer decrypt parse "{..}" "k#" event [] refl refl
      (error "connect ETIMEDOUT") refl
