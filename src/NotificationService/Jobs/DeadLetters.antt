-- ===== src/NotificationService/Jobs/DeadLetters.antt =====
-- A job that fails every time.
use backend_core_platform.Common.Errors.ErrorCodes
use backend_core_platform.Common.Errors.{Thrown, fail}
use backend_core_platform.AuthService.Auth.{message_of}
use backend_core_platform.NotificationService.Mails.{
  Mail, Mailer, reset_mail, send_mail, send_reset_password,
}
use backend_core_platform.NotificationService.Jobs.{Job, DeadLetter, process, on_failed}
use backend_core_platform.Base.{
  ℕ, zero, suc, ◌<◌, String, ◌≡◌, refl, true, Option, some, List, [], ◌∷◌, ◌++◌, arith, coalesce,
  concat,
}

-- The dead letters after the listener has been told of the failures 1 to `made` of a job, in order, at
-- the times given by their numbers.
abbrev pub after_failures :
    (ℕ → String) → ℕ → Job → Option String → List DeadLetter → List DeadLetter
after_failures time zero job reason letters = letters
after_failures time (suc made) job reason letters =
    on_failed true (time (suc made)) (some (record job { attempts_made = suc made })) reason
      (after_failures time made job reason letters)

still_waiting :
    (time : ℕ → String) (made attempts : ℕ) (job : Job) (reason : Option String)
    (letters : List DeadLetter)
    → job.attempts ≡ some attempts
    → made < attempts
    → after_failures time made job reason letters ≡ letters
unfolding on_failed
still_waiting time zero attempts job reason letters limit few = refl
still_waiting time (suc made) attempts job reason letters limit few =
    ground (arith, still_waiting time made attempts job reason letters limit (omega arith), limit)

-- A job for a reset of a password with a number of attempts that is not zero, where the mail
-- transport refuses the mail: each run of it throws a 500 INTERNAL with the transport's message and
-- sends nothing; of its failures the last, and no earlier one, puts one entry into the dead-letter
-- queue, if that can be reached: with the job's id, or `unknown` where it has none, its name, the
-- reason, the time and the names of its data.
pub process-after_failures :
    (mailer : Mailer) (time : ℕ → String) (job : Job) (last : ℕ) (t : Thrown)
    (reason message : String) (taken : List Mail) (letters : List DeadLetter)
    → job.name ≡ "passwordReset.requested"
    → mailer.transport (reset_mail mailer job.email job.secret) ≡ some t
    → message_of t ≡ some message
    → job.attempts ≡ some (suc last)
    → (process mailer job taken
        ≡ (taken, fail ErrorCodes.internal 500 (concat "Error sending reset password: " message)))
      × (after_failures time last job (some reason) letters ≡ letters)
      × (after_failures time (suc last) job (some reason) letters
          ≡ letters
            ++ record {
              original_job_id = coalesce job.id "unknown";
              job_name = "passwordReset.requested";
              failed_reason = reason;
              attempted_at = time (suc last);
              data_keys = job.data_keys;
            }
              ∷ [])
unfolding process send_reset_password send_mail on_failed
process-after_failures mailer time job last t reason message taken letters named refused says
      limit =
    let waiting =
      still_waiting time last (suc last) job (some reason) letters limit (omega arith) in
    (
      rw named (rw (refused, send_mail) (rw says refl)),
      waiting,
      ground (arith, waiting, limit, named),
    )
