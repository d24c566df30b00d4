-- ===== src/Common/RateLimiter/Key.antt =====
-- packages/common/src/rate-limiter: the rules, and the key at which a rule counts a request.
use Prim.Native.Char.{code}
use Prim.Native.String.{slice, len}
use text.Mathlib.Text.{starts_with}
use backend_core_platform.Base.{
  ℕ, String, Option, none, some, ◌==◌, Eq_ℕ, Eq_String, if◌then◌else◌, or_text, Value, truthy, prop,
  as_text, concat, str, arr, nil, cons,
}

pub record RateLimitRule : Type 0 where
  pub prefix : String
  pub limit : ℕ
  pub window : ℕ
  pub key_source : String
  pub message : Option String

-- The parts of a request that a key is made of.
pub record KeyRequest : Type 0 where
  pub forwarded : Value
  pub ip : Option String
  pub remote_address : Option String
  pub user_id : Option String
  pub user_sub : Option String
  pub body : Value

-- What the JavaScript runtime computes on texts.
pub record Host : Type 0 where
  pub trim : String → String
  pub to_lower_case : String → String
  pub to_text : Value → String
  pub sha256_hex : String → String

-- `text.split(',')[0]`
unfoldable pub before_comma : String → String
before_comma String.[] = ""
before_comma (String.◌∷◌ c s) =
    let rest = before_comma s in if code c == b',' then "" else String.◌∷◌ c rest

-- `req.ip || req.socket?.remoteAddress || 'unknown'`
abbrev own_ip : KeyRequest → String
own_ip req = or_text req.ip (or_text req.remote_address "unknown")

unfoldable pub extract_ip : Host → KeyRequest → String
unfolding before_comma
extract_ip host req = elim req.forwarded [
  | str s ↦ host.trim (before_comma s)
  | arr items ↦ elim items [
    | nil ↦ "unknown"
    | cons v rest ↦ elim (as_text v) [
      | none ↦ "unknown"
      | some s ↦ or_text (some (host.trim s)) "unknown"
    ]
  ]
  | _ ↦ own_ip req
]

abbrev body_key : Host → KeyRequest → String → String
body_key host req name =
    let value = prop name req.body in
    if truthy value
    then slice (host.sha256_hex (host.trim (host.to_lower_case (host.to_text value)))) 0 16
    else "empty"

unfoldable pub identifier : Host → KeyRequest → String → String
unfolding extract_ip
identifier host req source =
    if source == "ip"
    then extract_ip host req
    else if source == "userId"
    then or_text req.user_id (or_text req.user_sub "anonymous")
    else if starts_with source "body."
    then body_key host req (slice source 5 (len source))
    else "unknown"

unfoldable pub build_key : Host → KeyRequest → RateLimitRule → String
unfolding identifier
build_key host req rule = concat rule.prefix (concat ":" (identifier host req rule.key_source))
