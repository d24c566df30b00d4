-- ===== src/Gateway/NotificationEvents/Promises.antt =====
-- Which sockets are admitted, and what the handlers promise to send.
use backend_core_platform.Common.Errors.{Thrown}
use backend_core_platform.Gateway.Websocket.{SocketData, CoreGateway, check_rate_limit}
use backend_core_platform.Gateway.Websocket.RateLimits.{check_rate_limit-registry}
use backend_core_platform.Gateway.Clients.{Sent, Answer, answers, breaks}
use backend_core_platform.Gateway.NotificationEvents.{
  Parsed, valid, invalid, denied, admitted, guard, destructured,
}
use backend_core_platform.Base.{
  ℕ, String, ◌≡◌, refl, sym, ap, subst, ◌⊎◌, inl, inr, true, Option, none, some, List, [], ◌∷◌, map,
  arith, Bool-cases, Value, concat, num, str, obj, end, field,
}

-- The socket is authenticated and its user within the rate limit.
pub record IsAdmitted (now : ℕ) (socket_data : Option SocketData) (g : CoreGateway) (d : SocketData)
    : Type 0 where
  pub data_of : socket_data ≡ some d
  pub authenticated : d.authenticated ≡ true
  pub allowed : (check_rate_limit now d.user_id g).1 ≡ true

pub guard_admits :
    (now : ℕ) (e d : SocketData) (g : CoreGateway)
    → (guard now (some e) g).1 ≡ admitted d
    → IsAdmitted now (some e) g d
unfolding guard
guard_admits now e d g h = elim (Bool-cases e.authenticated) [
  | inl known ↦ elim (Bool-cases (check_rate_limit now e.user_id g).1) [
    | inl passes ↦
        let same : e ≡ d = ground (arith, known, passes, h) in
        record {
          data_of = ap some same;
          authenticated = subst (λ x. x.authenticated ≡ true) same known;
          allowed = subst (λ x. (check_rate_limit now x.user_id g).1 ≡ true) same passes;
        }
    | inr full ↦ absurd (ground (arith, known, full, h))
  ]
  | inr unknown ↦ absurd (ground (arith, unknown, h))
]

pub guard_denies :
    (now : ℕ) (socket_data : Option SocketData) (g : CoreGateway) (message : String)
    → (guard now socket_data g).1 ≡ denied message
    → (d : SocketData) → ¬ IsAdmitted now socket_data g d
unfolding guard
guard_denies now none g message h d is_admitted = cc is_admitted.data_of
guard_denies now (some e) g message h d is_admitted =
    let same : e ≡ d = cc is_admitted.data_of in
    let known : e.authenticated ≡ true =
      subst (λ x. x.authenticated ≡ true) (sym same) is_admitted.authenticated in
    let passes : (check_rate_limit now e.user_id g).1 ≡ true =
      subst (λ x. (check_rate_limit now x.user_id g).1 ≡ true) (sym same) is_admitted.allowed in
    ground (arith, h, known, passes)

pub guard-registry :
    (now : ℕ) (socket_data : Option SocketData) (g : CoreGateway)
    → (guard now socket_data g).0.registry ≡ g.registry
unfolding guard
guard-registry now none g = refl
guard-registry now (some e) g = elim (Bool-cases e.authenticated) [
  | inl known ↦ rw known (check_rate_limit-registry now e.user_id g)
  | inr unknown ↦ rw unknown refl
]

-- A field of the data that a call is answered with, or none.
abbrev pub field_in : String → Answer → Option Value
field_in key (answers status data_ cookies) = destructured key data_
field_in key (breaks t) = none

-- The requests by their methods and paths.
abbrev pub lines : List Sent → List (String × String)
lines sent = map (λ s. (s.method, s.path)) sent

abbrev pub line_of_read : String → String × String
line_of_read id = ("POST", concat "notification/" (concat id "/read"))

abbrev pub line_of_count : String × String
line_of_count = ("GET", "notification/unread-count")

abbrev pub line_of_read_all : String × String
line_of_read_all = ("POST", "notification/read-all")

-- Whether a handler refuses, which requests it sends where it fails, and which requests it sends and
-- what it tells where it succeeds.
pub record Promise : Type 1 where
  pub Refuses : Type 0
  pub Fails : List (String × String) → Type 0
  pub Tells : List (String × String) → Value → Type 0

module _ (now : ℕ) (socket_data : Option SocketData) (g : CoreGateway) where
  abbrev pub NotAdmitted : Type 0
  NotAdmitted = (d : SocketData) → ¬ IsAdmitted now socket_data g d

  abbrev pub of_read : (Value → Parsed) → Value → Answer → Answer → Promise
  of_read safe_parse body read counted = record {
    Refuses = NotAdmitted ⊎ ((errors : Value) × (safe_parse body ≡ invalid errors));
    Fails = λ sent.
        (id : String) × (safe_parse body ≡ valid id)
        × ((((t : Thrown) × (read ≡ breaks t) × (sent ≡ line_of_read id ∷ [])))
            ⊎ ((field_in "count" counted ≡ none) × (sent ≡ line_of_read id ∷ line_of_count ∷ [])));
    Tells = λ sent payload.
        (id : String) × (count : Value) × (safe_parse body ≡ valid id)
        × (field_in "count" counted ≡ some count)
        × (sent ≡ line_of_read id ∷ line_of_count ∷ [])
        × (payload
            ≡ obj (
                field "action" (str "read")
                  (field "notificationId" (str id) (field "unreadCount" count end))));
  }

  abbrev pub of_read_all : Answer → Promise
  of_read_all answer = record {
    Refuses = NotAdmitted;
    Fails = λ sent. (field_in "updated" answer ≡ none) × (sent ≡ line_of_read_all ∷ []);
    Tells = λ sent payload.
        (updated : Value) × (field_in "updated" answer ≡ some updated)
        × (sent ≡ line_of_read_all ∷ [])
        × (payload ≡ obj (field "action" (str "read-all") (field "unreadCount" (num 0) end)));
  }
