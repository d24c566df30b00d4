-- ===== src/Gateway/Clients/Examples.antt =====
-- A refused login, as auth-service answers it.
use backend_core_platform.Common.Errors.Filter.{ErrorReply}
use backend_core_platform.Gateway.Clients.{answers}
use backend_core_platform.Gateway.Clients.Calls.{perform, logs_in}
use backend_core_platform.Gateway.Clients.Relaying.{IsRelayed, reply_json, perform-IsRelayed}
use backend_core_platform.Base.{
  String, refl, true, none, some, List, [], ◌∷◌, arith, Value, undefined, null, bool, num, str, arr,
  obj, end, field,
}

abbrev to_text : Value → String
to_text (str s) = s
to_text undefined = "undefined"
to_text null = "null"
to_text (bool b) = "bool"
to_text (num n) = "num"
to_text (obj fields) = "[object Object]"
to_text (arr items) = "arr"

abbrev join : List String → String
join xs = ""

abbrev refusal : ErrorReply
refusal = record {
  status_code = 401;
  message_key = "AUTH_INVALID_CREDENTIALS";
  message = "account_not_verified or not_found.";
  errors = some ("email" ∷ []);
  log = none;
}

abbrev dto : Value
dto = obj (field "email" (str "ann@x.org") end)

perform-IsRelayed_example :
    IsRelayed to_text join none refusal
      (perform "own" "r1" none (logs_in dto true) (answers 401 (reply_json refusal) ("a=b" ∷ [])))
perform-IsRelayed_example =
    perform-IsRelayed to_text join (λ s. refl) (logs_in dto true) "own" "r1" none none refusal
      ("a=b" ∷ []) (omega arith)
