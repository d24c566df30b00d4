-- ===== src/NotificationService/Mails/Sending.antt =====
-- A registration whose mail is refused.
use backend_core_platform.Common.Errors.{Result, ok, Thrown}
use backend_core_platform.Common.JetStream.{acks, consume_batch}
use backend_core_platform.AuthService.Auth.{UserRegisteredEvent}
use backend_core_platform.NotificationService.Mails.{
  Mail, Mailer, verify_mail, send_mail, send_verify_code, send_mail_regis, handle_user_registered,
}
use backend_core_platform.Base.{String, ◌≡◌, refl, false, none, some, List, [], ◌∷◌, ◌++◌}

module _ (mailer : Mailer) (decrypt : String → Result String)
    (parse : String → Result UserRegisteredEvent) (msg code : String) (event : UserRegisteredEvent)
    (taken : List Mail) (well_formed : parse msg ≡ ok event)
    (readable : decrypt event.code ≡ ok code) where
  -- The transport takes the mail.
  pub registered_mailed :
      mailer.transport (verify_mail mailer event.email code) ≡ none
      → consume_batch (handle_user_registered mailer decrypt parse) ((false, msg) ∷ []) taken
        ≡ (taken ++ verify_mail mailer event.email code ∷ [], acks msg ∷ [])
  unfolding consume_batch handle_user_registered send_mail_regis send_verify_code send_mail
  registered_mailed up =
      rw (well_formed, handle_user_registered)
        (rw (readable, send_mail_regis) (rw (up, send_mail) refl))

  -- A well-formed message of a registration whose code can be decrypted, where the mail transport
  -- refuses the mail: the message is acknowledged nevertheless, so that it is not delivered again,
  -- and no mail is sent.
  pub registered_mail_lost :
      (t : Thrown)
      → mailer.transport (verify_mail mailer event.email code) ≡ some t
      → consume_batch (handle_user_registered mailer decrypt parse) ((false, msg) ∷ []) taken
        ≡ (taken, acks msg ∷ [])
  unfolding consume_batch handle_user_registered send_mail_regis send_verify_code send_mail
  registered_mail_lost t refused =
      rw (well_formed, handle_user_registered)
        (rw (readable, send_mail_regis) (rw (refused, send_mail) refl))
