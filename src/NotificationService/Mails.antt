-- ===== src/NotificationService/Mails.antt =====
-- apps/notification-service/src/modules: the mails of mails.service.ts, by their links, and the handler
-- of registrations: sendMailRegis of notification.service.ts, called by the consumer of
-- jetstream-consumer.service.ts. The mail transport, JSON, the schema and decryption are parameters.
pub mod Sending
pub mod Examples
use backend_core_platform.Common.Errors.{Result, ok, throws, Thrown}
use backend_core_platform.AuthService.Auth.{UserRegisteredEvent}
use backend_core_platform.Base.{
  String, Bool, true, Option, none, some, List, [], ◌∷◌, ◌++◌, or_text, concat,
}

pub record Mail : Type 0 where
  pub to : String
  pub subject : String
  -- The link that the text holds.
  pub link : String

pub record Mailer : Type 0 where
  pub encode_uri_component : String → String
  pub verify_link_base_url : Option String
  -- What `transporter.sendMail` throws, or none where the mail is taken.
  pub transport : Mail → Option Thrown

module _ (mailer : Mailer) where
  abbrev base_url : String
  base_url = or_text mailer.verify_link_base_url "http://localhost:3001"

  unfoldable pub verify_mail : String → String → Mail
  verify_mail email code = record {
    to = email;
    subject = "Your verification code";
    link = concat base_url (
        concat "/auth/register/verify/confirm?email=" (
          concat (mailer.encode_uri_component email)
            (concat "&code=" (mailer.encode_uri_component code))));
  }

  unfoldable pub reset_mail : String → String → Mail
  reset_mail email token = record {
    to = email;
    subject = "Reset your password";
    link =
        concat base_url (concat "/auth/reset-password?token=" (mailer.encode_uri_component token));
  }

  -- The mails that the transport has taken, and the outcome.
  unfoldable pub send_mail : Mail → List Mail → List Mail × Result Bool
  send_mail mail taken = elim (mailer.transport mail) [
    | some t ↦ (taken, throws t)
    | none ↦ (taken ++ mail ∷ [], ok true)
  ]

  unfoldable pub send_verify_code : String → String → List Mail → List Mail × Result Bool
  unfolding verify_mail send_mail
  send_verify_code email code = send_mail (verify_mail email code)

  unfoldable pub send_reset_password : String → String → List Mail → List Mail × Result Bool
  unfolding reset_mail send_mail
  send_reset_password email token = send_mail (reset_mail email token)

  module _ (decrypt : String → Result String) where
    -- Whatever is thrown is caught.
    unfoldable pub send_mail_regis : UserRegisteredEvent → List Mail → List Mail
    unfolding send_verify_code
    send_mail_regis event taken = elim (decrypt event.code) [
      | throws t ↦ taken
      | ok code ↦ (send_verify_code event.email code taken).0
    ]

    -- `parse` is JSON.parse with the schema after it.
    unfoldable pub handle_user_registered :
        (String → Result UserRegisteredEvent) → String → List Mail → List Mail × Result Bool
    unfolding send_mail_regis
    handle_user_registered parse msg taken = elim (parse msg) [
      | throws t ↦ (taken, throws t)
      | ok event ↦ (send_mail_regis event taken, ok true)
    ]
