-- ===== src/NotificationService/Notifications/Reading.antt =====
-- Which notifications are unread, before and after each operation.
use backend_core_platform.External.Table.{Table, option_map}
use backend_core_platform.Common.Errors.ErrorCodes
use backend_core_platform.Common.Errors.{ok, fail, Thrown}
use backend_core_platform.NotificationService.Notifications.{
  Notification, notification_id, CreateNotification, NotificationCreated, new_notification,
  is_unread, is_owned, read_now, unread_count, mark_read, read_all, create_noti, created_event,
}
use backend_core_platform.Base.{
  ℕ, suc, ◌+◌, String, ◌≡◌, refl, ap, ◌≢◌, inl, inr, true, false, Option, none, some, arith, eq_iff,
  eq_refl, if◌then◌else◌, is_empty, is_some, Bool-cases, Option-cases, Value,
}

module _ (table : Table Notification notification_id) where
  open table use {
    Db, find, find_id, find_first, find_first_found, find_first_missing, count, create, update,
    update_many, find-create, find-update, find-update_many, count-create, count-update, count_none,
  }

  abbrev pub read_if_unread : ℕ → String → Notification → Notification
  read_if_unread now user_id n = if is_unread user_id n then read_now now n else n

  none_left :
      (now : ℕ) (user_id i : String) (n : Notification) (db : Db)
      → find i (update_many (is_unread user_id) (read_now now) db) ≡ some n
      → is_unread user_id n ≡ false
  none_left now user_id i n db e = elim (Option-cases (find i db)) [
    | inl missing ↦
        ground
          (arith, find-update_many i (is_unread user_id) (read_now now) db (λ x. refl), missing, e)
    | inr (m, held) ↦
        ground
          (arith, find-update_many i (is_unread user_id) (read_now now) db (λ x. refl), held, e)
  ]

  -- For a user id that is not empty, `readAll` answers with the number of unread notifications of
  -- the user, after it there are none, and of all notifications it has changed just those, by
  -- their time of reading.
  pub read_all-unread_count :
      (now : ℕ) (user_id i : String) (db : Db)
      → is_empty user_id ≡ false
      → let (db', updated) = read_all table now user_id db in
        (updated ≡ unread_count table user_id db)
        × (unread_count table user_id db' ≡ ok 0)
        × (find i db' ≡ option_map (read_if_unread now user_id) (find i db))
  unfolding read_all unread_count
  read_all-unread_count now user_id i db given = rw given (
    refl,
    ap ok (
        count_none (is_unread user_id) (update_many (is_unread user_id) (read_now now) db)
          (λ j n e. none_left now user_id j n db e)),
    find-update_many i (is_unread user_id) (read_now now) db (λ x. refl),
  )

  owned-find_first :
      (user_id id : String) (n : Notification) (db : Db)
      → find id db ≡ some n
      → n.user_id ≡ user_id
      → find_first (is_owned user_id id) db ≡ some n
  owned-find_first user_id id n db held own =
      elim (Option-cases (find_first (is_owned user_id id) db)) [
        | inl missing ↦ ground (
          arith,
          find_first_missing (is_owned user_id id) id n db missing held,
          find_id id n db held,
          own,
          eq_iff n.id id,
          eq_iff n.user_id user_id,
        )
        | inr (m, found) ↦
            let (held', meets) = find_first_found (is_owned user_id id) m db found in
            ground (arith, held', meets, held, found, eq_iff m.id id)
      ]

  -- `markRead` of an unread notification of the user answers with its id and the time, sets the
  -- time of reading in its row, and the user has one unread notification less. Both ids are not
  -- empty.
  pub mark_read-unread_count :
      (now : ℕ) (user_id id : String) (n : Notification) (db : Db)
      → is_empty user_id ≡ false
      → is_empty id ≡ false
      → find id db ≡ some n
      → is_unread user_id n ≡ true
      → let (db', receipt) = mark_read table now user_id id db in
        (receipt ≡ ok (record { id = id; read_at = some now }))
        × (find id db' ≡ some (read_now now n))
        × (count (is_unread user_id) db' + 1 ≡ count (is_unread user_id) db)
  unfolding mark_read
  mark_read-unread_count now user_id id n db given named held unread =
      let own : n.user_id ≡ user_id = ground (arith, eq_iff n.user_id user_id, unread) in
      let new : is_some n.read_at ≡ false = ground (arith, unread) in
      let same = find_id id n db held in
      rw given (
        rw named (
          rw (owned-find_first user_id id n db held own) (
            rw new (
              ground (arith, same),
              ground (
                arith,
                find-update id n.id (read_now now) db (λ x. refl),
                held,
                same,
                eq_refl id,
              ),
              ground (
                arith,
                count-update (is_unread user_id) n.id (read_now now) n db (λ x. refl),
                held,
                same,
                unread,
              ),
            ))))

  mark_read_read :
      (now : ℕ) (user_id id : String) (n : Notification) (db : Db)
      → is_empty user_id ≡ false
      → is_empty id ≡ false
      → find id db ≡ some n
      → n.user_id ≡ user_id
      → is_some n.read_at ≡ true
      → mark_read table now user_id id db ≡ (db, ok (record { id = n.id; read_at = n.read_at }))
  unfolding mark_read
  mark_read_read now user_id id n db given named held own read =
      rw given (rw named (rw (owned-find_first user_id id n db held own) (rw read refl)))

  mark_read_unread :
      (now : ℕ) (user_id id : String) (n : Notification) (db : Db)
      → is_empty user_id ≡ false
      → is_empty id ≡ false
      → find id db ≡ some n
      → n.user_id ≡ user_id
      → is_some n.read_at ≡ false
      → mark_read table now user_id id db
        ≡ (update n.id (read_now now) db, ok (record { id = n.id; read_at = some now }))
  unfolding mark_read
  mark_read_unread now user_id id n db given named held own new =
      rw given (rw named (rw (owned-find_first user_id id n db held own) (rw new refl)))

  -- A second `markRead` of a notification of the user, read before or not, changes nothing and
  -- answers as the first did, with the time of the first reading. Both ids are not empty.
  pub mark_read-mark_read :
      (now later : ℕ) (user_id id : String) (n : Notification) (db : Db)
      → is_empty user_id ≡ false
      → is_empty id ≡ false
      → find id db ≡ some n
      → n.user_id ≡ user_id
      → let (db', first) = mark_read table now user_id id db in
        mark_read table later user_id id db' ≡ (db', first)
  mark_read-mark_read now later user_id id n db given named held own =
      elim (Bool-cases (is_some n.read_at)) [
        | inl read ↦
            rw (mark_read_read now user_id id n db given named held own read)
              (mark_read_read later user_id id n db given named held own read)
        | inr new ↦
            let again : find id (update n.id (read_now now) db) ≡ some (read_now now n) = ground (
              arith,
              find-update id n.id (read_now now) db (λ x. refl),
              held,
              find_id id n db held,
              eq_refl id,
            ) in
            rw (mark_read_unread now user_id id n db given named held own new) (
              mark_read_read later user_id id (read_now now n) (update n.id (read_now now) db) given
                named again own refl)
      ]

  -- `markRead` of a notification that is not the user's, or that does not exist, is answered with
  -- 404 NOTI_NOT_FOUND, and nothing is changed. Both ids are not empty.
  pub mark_read_other :
      (now : ℕ) (user_id id : String) (db : Db)
      → is_empty user_id ≡ false
      → is_empty id ≡ false
      → ((n : Notification) → find id db ≡ some n → n.user_id ≢ user_id)
      → mark_read table now user_id id db
        ≡ (db, fail ErrorCodes.noti_not_found 404 "Notification not found")
  unfolding mark_read
  mark_read_other now user_id id db given named apart =
      elim (Option-cases (find_first (is_owned user_id id) db)) [
        | inl missing ↦ rw given (rw named (rw missing refl))
        | inr (m, found) ↦
            let (held, meets) = find_first_found (is_owned user_id id) m db found in
            ground (arith, held, meets, apart m, eq_iff m.id id, eq_iff m.user_id user_id)
      ]

  unread_count-create :
      (now : ℕ) (id : String) (dto : CreateNotification) (db : Db)
      → is_empty dto.user_id ≡ false
      → find id db ≡ none
      → unread_count table dto.user_id (create (new_notification now id dto) db)
        ≡ ok (suc (count (is_unread dto.user_id) db))
  unfolding unread_count
  unread_count-create now id dto db given new =
      let counted : count (is_unread dto.user_id) (create (new_notification now id dto) db)
          ≡ suc (count (is_unread dto.user_id) db) =
        ground (
          arith,
          count-create (is_unread dto.user_id) (new_notification now id dto) db new,
          eq_refl dto.user_id,
        ) in
      rw given (ap ok counted)

  -- A notification that is created under a new id for a user, where the schema accepts its event,
  -- is stored unread and returned; the event carries the number of unread
  -- notifications of the user, one more than before.
  pub create_noti-unread_count :
      (now : ℕ) (id : String) (today : Value) (refused : NotificationCreated → Option Thrown)
      (dto : CreateNotification) (db : Db)
      → is_empty dto.user_id ≡ false
      → find id db ≡ none
      → refused (
          created_event today
            (new_notification now id dto)
            (suc (count (is_unread dto.user_id) db)))
        ≡ none
      → let noti = new_notification now id dto in
        let unread = suc (count (is_unread dto.user_id) db) in
        create_noti table now id today refused dto db ≡ record {
          db = create noti db;
          published = some (created_event today noti unread);
          result = ok noti;
        }
  unfolding create_noti
  create_noti-unread_count now id today refused dto db given new valid =
      rw (unread_count-create now id dto db given new, create_noti) (rw (valid, create_noti) refl)
