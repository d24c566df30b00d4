-- ===== src/Common/Errors/Relay.antt =====
-- An error on its way through two services: the reply of one becomes the error of the other.
use backend_core_platform.Common.Errors.{AxiosLikeError, Thrown, service}
use backend_core_platform.Common.Errors.Axios.{axios_service_error}
use backend_core_platform.Common.Errors.Filter.{ErrorReply, catch, texts, errors_of}
use backend_core_platform.Base.{
  ℕ, ◌<◌, String, ◌≡◌, refl, Option, none, some, List, [], ◌∷◌, arith, leb, if◌then◌else◌, Value,
  Items, or_else, undefined, str, arr, nil, cons,
}

-- `errors` as the JSON of the reply has it.
abbrev pub items : List String → Items
items [] = nil
items (x ∷ xs) = cons (str x) (items xs)

abbrev pub errors_value : Option (List String) → Value
errors_value none = undefined
errors_value (some xs) = arr (items xs)

-- What the caller's axios makes of a reply: `{ response: { status, data } }`.
abbrev pub answered : ErrorReply → AxiosLikeError
answered r = record {
  status = some r.status_code;
  body = some (record {
    message_key = some r.message_key;
    message = some r.message;
    errors = errors_value r.errors;
    error_code = none;
    error_message = none;
    error_details = undefined;
  });
  message = none;
}

module _ (to_text : Value → String) (join : List String → String) where
  -- Whatever a service throws, its caller that handles the reply by `handleAxiosError` answers with
  -- the same status, the same message key and the same message.
  pub catch-axios_service_error :
      (path path' : Option String) (t : Thrown) (default_message : String)
      → let r = catch to_text join path t in
        let relayed =
          catch to_text join path' (service (axios_service_error (answered r) default_message)) in
        (relayed.status_code ≡ r.status_code)
        × (relayed.message_key ≡ r.message_key)
        × (relayed.message ≡ r.message)
  unfolding catch axios_service_error
  catch-axios_service_error path path' t default_message = (refl, refl, refl)

  texts-items :
      ((s : String) → to_text (str s) ≡ s) → (xs : List String) → texts to_text join (items xs) ≡ xs
  texts-items same [] = refl
  texts-items same (x ∷ xs) = ground (arith, same x, texts-items same xs)

  pub errors_back :
      ((s : String) → to_text (str s) ≡ s)
      → (status : ℕ) (errors : Option (List String)) → status < 500
      → errors_of to_text join
          (if leb 500 status then undefined else or_else (errors_value errors) undefined)
        ≡ errors
  unfolding errors_of
  errors_back same status none h = ground arith
  errors_back same status (some xs) h = ground (arith, texts-items same xs)

  -- Whatever a service throws, where its reply has a status below 500, its caller that handles the
  -- reply by `handleAxiosError` answers with the same list of errors. Assumed: the text of a text
  -- is that text.
  pub errors-axios_service_error :
      (path path' : Option String) (t : Thrown) (default_message : String)
      → ((s : String) → to_text (str s) ≡ s)
      → let r = catch to_text join path t in
        r.status_code < 500
        → (catch to_text join path'
            (service (axios_service_error (answered r) default_message))).errors
          ≡ r.errors
  unfolding catch axios_service_error
  errors-axios_service_error path path' t default_message same h =
      errors_back same (catch to_text join path t).status_code (catch to_text join path t).errors h
