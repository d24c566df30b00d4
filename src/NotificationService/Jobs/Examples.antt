-- ===== src/NotificationService/Jobs/Examples.antt =====
-- A job with three attempts, and a transport that takes no mail.
use backend_core_platform.Common.Errors.ErrorCodes
use backend_core_platform.Common.Errors.{fail, error}
use backend_core_platform.NotificationService.Mails.{Mailer}
use backend_core_platform.NotificationService.Jobs.{Job, process}
use backend_core_platform.NotificationService.Jobs.DeadLetters.{
  after_failures, process-after_failures,
}
use backend_core_platform.Base.{◌≡◌, refl, none, some, [], ◌∷◌}

abbrev mailer : Mailer
mailer = record {
  encode_uri_component = λ s. s;
  verify_link_base_url = none;
  transport = λ mail. some (error "connect ETIMEDOUT");
}

abbrev job : Job
job = record {
  id = some "7";
  name = "passwordReset.requested";
  email = "ann@x.org";
  secret = "k#";
  attempts = some 3;
  attempts_made = 0;
  data_keys = "email" ∷ "token" ∷ [];
}

process-after_failures_example :
    (process mailer job []
      ≡ ([], fail ErrorCodes.internal 500 "Error sending reset password: connect ETIMEDOUT"))
    × (after_failures (λ n. "now") 2 job (some "ETIMEDOUT") [] ≡ [])
    × (after_failures (λ n. "now") 3 job (some "ETIMEDOUT") []
        ≡ record {
          original_job_id = "7";
          job_name = "passwordReset.requested";
          failed_reason = "ETIMEDOUT";
          attempted_at = "now";
          data_keys = "email" ∷ "token" ∷ [];
        }
          ∷ [])
process-after_failures_example =
    process-after_failures mailer (λ n. "now") job 2 (error "connect ETIMEDOUT") "ETIMEDOUT"
      "connect ETIMEDOUT" [] [] refl refl refl refl
