-- ===== src/NotificationService/Jobs.antt =====
-- apps/notification-service/src/modules/jobs/jobs.service.ts: the work on a job of the mail queue, and
-- what happens when a job has failed.
pub mod DeadLetters
pub mod Examples
use backend_core_platform.Common.Errors.ErrorCodes
use backend_core_platform.Common.Errors.{Result, ok, throws, Thrown, fail}
use backend_core_platform.AuthService.Auth.{message_of}
use backend_core_platform.NotificationService.Mails.{
  Mail, Mailer, send_verify_code, send_reset_password,
}
use backend_core_platform.Base.{
  ℕ, String, Bool, true, false, not, ◌&&◌, Option, none, some, List, [], ◌∷◌, ◌++◌, ltb, ◌==◌, Eq_ℕ,
  Eq_String, if◌then◌else◌, coalesce, concat, undefined,
}

pub record Job : Type 0 where
  pub id : Option String
  pub name : String
  pub email : String
  -- `data.code` or `data.token`.
  pub secret : String
  -- `opts.attempts`
  pub attempts : Option ℕ
  pub attempts_made : ℕ
  -- `Object.keys(job.data)`
  pub data_keys : List String

pub record DeadLetter : Type 0 where
  pub original_job_id : String
  pub job_name : String
  pub failed_reason : String
  pub attempted_at : String
  pub data_keys : List String

-- A template shows a missing message as "undefined".
abbrev shown : Thrown → String
shown t = coalesce (message_of t) "undefined"

-- The `catch` of `process`.
abbrev pub wrapped_as : String → List Mail × Result Bool → List Mail × Result Bool
wrapped_as prefix (taken, ok b) = (taken, ok b)
wrapped_as prefix (taken, throws t) =
    (taken, fail ErrorCodes.internal 500 (concat prefix (shown t)))

-- A job of another name is done at once.
unfoldable pub process : Mailer → Job → List Mail → List Mail × Result Bool
process mailer job taken =
    if job.name == "send-verify-code"
    then wrapped_as "Error sending verify code: "
        (send_verify_code mailer job.email job.secret taken)
    else if job.name == "passwordReset.requested"
    then wrapped_as "Error sending reset password: "
        (send_reset_password mailer job.email job.secret taken)
    else (taken, ok true)

-- `job?.opts?.attempts && job.attemptsMade < job.opts.attempts`
abbrev pub has_retries : Option Job → Bool
has_retries none = false
has_retries (some job) = elim job.attempts [
  | none ↦ false
  | some attempts ↦ not (attempts == 0) && ltb job.attempts_made attempts
]

abbrev id_of_job : Option Job → String
id_of_job none = "unknown"
id_of_job (some job) = coalesce job.id "unknown"

abbrev name_of_job : Option Job → String
name_of_job none = "unknown"
name_of_job (some job) = job.name

abbrev keys_of_job : Option Job → List String
keys_of_job none = []
keys_of_job (some job) = job.data_keys

abbrev pub dead_letter : String → Option Job → Option String → DeadLetter
dead_letter now job reason = record {
  original_job_id = id_of_job job;
  job_name = name_of_job job;
  failed_reason = coalesce reason "Unknown error";
  attempted_at = now;
  data_keys = keys_of_job job;
}

-- The listener for 'failed'; `queue_up` says whether the dead-letter queue takes the entry, and `now`
-- is the time as a text.
unfoldable pub on_failed :
    Bool → String → Option Job → Option String → List DeadLetter → List DeadLetter
on_failed queue_up now job reason letters =
    if has_retries job
    then letters
    else if queue_up
    then letters ++ dead_letter now job reason ∷ []
    else letters
