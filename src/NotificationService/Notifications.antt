-- ===== src/NotificationService/Notifications.antt =====
-- apps/notification-service/src/modules/notification/notification.service.ts. The table of
-- notifications is a parameter; `publish` of NatsService throws nothing: what is
-- published is the event that it is given.
pub mod Reading
pub mod Paging
pub mod Examples
use backend_core_platform.External.Table.{Table}
use backend_core_platform.Common.Errors.ErrorCodes
use backend_core_platform.Common.Errors.{Result, ok, throws, fail, Thrown}
use backend_core_platform.Base.{
  ℕ, ◌-◌, ◌*◌, String, Bool, not, ◌&&◌, ◌||◌, Option, none, some, ltb, ◌==◌, Eq_ℕ, Eq_String,
  if◌then◌else◌, is_empty, is_some, coalesce, Value, prop, or_else, ℤ, pos, negsuc, null,
}

pub record Notification : Type 0 where
  pub id : String
  pub user_id : String
  pub kind : String
  pub title : String
  pub body : Option String
  pub payload : Value
  pub read_at : Option ℕ
  pub created_at : ℕ

abbrev pub notification_id : Notification → String
notification_id n = n.id

pub record CreateNotification : Type 0 where
  pub user_id : String
  pub kind : String
  pub title : String
  pub body : Option String
  pub payload : Value

-- The event NOTIFICATION_CREATED.
pub record NotificationCreated : Type 0 where
  pub notification_id : String
  pub user_id : String
  pub kind : String
  pub title : String
  pub body : Option String
  pub payload : Value
  pub action_created_at : Value
  pub unread_count : ℕ

abbrev pub new_notification : ℕ → String → CreateNotification → Notification
new_notification now id dto = record {
  id = id;
  user_id = dto.user_id;
  kind = dto.kind;
  title = dto.title;
  body = dto.body;
  payload = or_else dto.payload null;
  read_at = none;
  created_at = now;
}

-- `where: { userId, readAt: null }`
abbrev pub is_unread : String → Notification → Bool
is_unread user_id n = n.user_id == user_id && not (is_some n.read_at)

-- `where: { id: notificationId, userId }`
abbrev pub is_owned : String → String → Notification → Bool
is_owned user_id id n = n.id == id && n.user_id == user_id

abbrev pub read_now : ℕ → Notification → Notification
read_now now n = record n { read_at = some now }

abbrev pub user_id_required : {A : Type 0} → Result A
user_id_required = fail ErrorCodes.validation_error 400 "userId is required"

-- What `markRead` returns.
pub record ReadReceipt : Type 0 where
  pub id : String
  pub read_at : Option ℕ

-- `Number(raw ?? default) || default`, where `number` is `Number` of the texts that stand for a
-- whole number, and none where it is NaN.
abbrev pub number_or : (String → Option ℤ) → Option String → ℕ → ℤ
number_or number none d = pos d
number_or number (some raw) d = elim (number raw) [
  | none ↦ pos d
  | some z ↦ elim z [ pos n ↦ if n == 0 then pos d else pos n | negsuc n ↦ negsuc n ]
]

-- `Math.max(1, z)`
abbrev pub at_least_one : ℤ → ℕ
at_least_one (pos n) = if ltb n 1 then 1 else n
at_least_one (negsuc n) = 1

pub record ListQuery : Type 0 where
  pub user_id : String
  pub page : ℕ
  pub limit : ℕ
  pub skip : ℕ
  pub sort_by : String
  pub sort_order : String

-- `listByUser` up to its two queries.
unfoldable pub list_query :
    (String → Option ℤ)
    → String
    → Option String
    → Option String
    → Option String
    → Option String
    → Result ListQuery
list_query number user_id page_raw limit_raw sort_by_raw sort_order_raw =
    if is_empty user_id
    then user_id_required
    else (let page = at_least_one (number_or number page_raw 1) in
        let wanted = at_least_one (number_or number limit_raw 20) in
        let limit = if ltb wanted 100 then wanted else 100 in
        ok (record {
          user_id = user_id;
          page = page;
          limit = limit;
          skip = (page - 1) * limit;
          sort_by = if coalesce sort_by_raw "" == "readAt" then "readAt" else "createdAt";
          sort_order = if coalesce sort_order_raw "" == "asc" then "asc" else "desc";
        }))

abbrev pub created_event : Value → Notification → ℕ → NotificationCreated
created_event today n unread = record {
  notification_id = n.id;
  user_id = n.user_id;
  kind = n.kind;
  title = n.title;
  body = n.body;
  payload = n.payload;
  action_created_at = or_else (prop "actionCreatedAt" n.payload) today;
  unread_count = unread;
}

module _ (table : Table Notification notification_id) where
  open table use {Db, find_first, count, create, update, update_many}

  unfoldable pub unread_count : String → Db → Result ℕ
  unread_count user_id db =
      if is_empty user_id then user_id_required else ok (count (is_unread user_id) db)

  unfoldable pub mark_read : ℕ → String → String → Db → Db × Result ReadReceipt
  mark_read now user_id id db =
      if is_empty user_id || is_empty id
      then (db, fail ErrorCodes.validation_error 400 "userId and notificationId are required")
      else elim (find_first (is_owned user_id id) db) [
        | none ↦ (db, fail ErrorCodes.noti_not_found 404 "Notification not found")
        | some existing ↦
            if is_some existing.read_at
            then (db, ok (record { id = existing.id; read_at = existing.read_at }))
            else (
              update existing.id (read_now now) db,
              ok (record { id = existing.id; read_at = some now }),
            )
      ]

  -- The result is the number of rows that `updateMany` has changed.
  unfoldable pub read_all : ℕ → String → Db → Db × Result ℕ
  read_all now user_id db =
      if is_empty user_id
      then (db, user_id_required)
      else (update_many (is_unread user_id) (read_now now) db, ok (count (is_unread user_id) db))

  -- What `createNoti` leaves: the rows, the event that was handed to NATS, and its result.
  pub record Created : Type 0 where
    pub db : table.Db
    pub published : Option NotificationCreated
    pub result : Result Notification

  -- `today` is the time as a text, `refused` the error of the schema for an event, if it has one,
  -- and `lost` the error of the publication.
  unfoldable pub create_noti :
      ℕ → String → Value → (NotificationCreated → Option Thrown) → CreateNotification → Db → Created
  unfolding unread_count
  create_noti now id today refused dto db =
      let noti = new_notification now id dto in
      let created = create noti db in
      elim (unread_count dto.user_id created) [
        | throws t ↦ record { db = created; published = none; result = throws t }
        | ok unread ↦
            let event = created_event today noti unread in
            elim (refused event) [
              | some t ↦ record { db = created; published = none; result = throws t }
              | none ↦ record { db = created; published = some event; result = ok noti }
            ]
      ]
