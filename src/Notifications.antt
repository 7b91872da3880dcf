-- ===== src/Notifications.antt =====
-- stellance/backend/src/notifications: the service, its live streams and the handlers of the
-- controller. An SSE connection of the controller holds the user's subject by its place.
pub mod Controller
pub mod Streams
pub mod Delivery
pub mod Framed
pub mod Inbox
mod Tests
use stellances.Schema.{RowId, Notification, NotificationType, notification_key}
use stellances.World.{Subject, Env, World}
use stellances.Base.{
  length, String, true, false, Bool, ℕ, List, Option, take, if◌then◌else◌, none, ◌==◌, some, ◌&&◌,
  ◌∷◌, not, alter, ◌++◌, [], ◌<>◌,
}
use stellances.Table.{select, count, find, has, erase, update, update_where}
use stellances.World.Action.{
  Action, Done, ◌>>=◌, ◌>>◌, modify_db, gets, ok, or_throw, draw_uuid, pure, err, unique_violation,
  throw_if, not_found,
}

-- dto/create-notification.dto.ts
pub record CreateNotificationDto : Type 0 where
  pub user_id : RowId
  pub type : NotificationType
  pub title : String
  pub body : String
  pub contract_id : Option RowId
  pub milestone_id : Option RowId

abbrev pub stream_key : String × ℕ → String
stream_key e = e.0

-- an SSE connection: the place of the user's subject, and how many notifications that had passed on before
pub record Connection : Type 0 where
  pub place : ℕ
  pub before : ℕ

-- what the response of a connection has so far, the newest first, and whether it has ended
pub record Answer : Type 0 where
  pub events : List Notification
  pub ended : Bool

-- `streams.get(userId)`
abbrev pub stream_of : String → World → Option ℕ
stream_of user_id w = elim (find stream_key user_id w.streams) [ none ↦ none | some e ↦ some e.1 ]

-- `getStream`: the subject of a user, made if there is none
unfoldable pub get_stream : String → Action ℕ
get_stream user_id w = elim (stream_of user_id w) [
  | some i ↦ (ok i, w)
  | none ↦ (
    ok (length w.subjects),
    record w {
      streams = (user_id, length w.subjects) ∷ w.streams;
      subjects = w.subjects ++ record { emitted = []; stopped = false } ∷ [];
    },
  )
]

-- `subject.complete()`
abbrev pub complete : Subject → Subject
complete s = record s { stopped = true }

-- `removeStream`
unfoldable pub remove_stream : String → Action Done
remove_stream user_id w = elim (stream_of user_id w) [
  | none ↦ (ok tt, w)
  | some i ↦ (
    ok tt,
    record w {
      streams = erase stream_key user_id w.streams;
      subjects = alter i complete w.subjects;
    },
  )
]

-- `subject.next(notification)`, which a complete subject drops
abbrev pub next : Notification → Subject → Subject
next n s = if s.stopped then s else record s { emitted = n ∷ s.emitted }

-- `this.streams.get(dto.userId)?.next(notification)`
unfoldable pub push : String → Notification → Action Done
push user_id n w = elim (stream_of user_id w) [
  | none ↦ (ok tt, w)
  | some i ↦ (ok tt, record w { subjects = alter i (next n) w.subjects })
]

abbrev pub of_dto : RowId → CreateNotificationDto → Notification
of_dto id dto = record {
  id = id;
  user_id = dto.user_id;
  type = dto.type;
  title = dto.title;
  body = dto.body;
  read = false;
  contract_id = dto.contract_id;
  milestone_id = dto.milestone_id;
}

-- `prisma.notification.create`
unfoldable pub insert_notification : Notification → Action Done
insert_notification n w =
    if has notification_key n.id w.db.notifications
    then (err unique_violation, w)
    else (ok tt, record w { db = record w.db { notifications = n ∷ w.db.notifications } })

-- `create`: kept in the table, then sent to the open stream
unfoldable pub create : Env → CreateNotificationDto → Action Notification
unfolding insert_notification push
create env dto = do
  id ← draw_uuid env
  let n = of_dto id dto
  insert_notification n
  push dto.user_id n
  pure n

abbrev pub is_of : String → Notification → Bool
is_of user_id n = n.user_id == user_id

abbrev pub is_unread_of : String → Notification → Bool
is_unread_of user_id n = n.user_id == user_id && not n.read

-- `findAll`, with its cap of 100
unfoldable pub find_all : String → Bool → World → List Notification
find_all user_id unread_only w =
    take 100
      (select (if unread_only then is_unread_of user_id else is_of user_id) w.db.notifications)

-- `countUnread`
unfoldable pub count_unread : String → World → ℕ
count_unread user_id w = count (is_unread_of user_id) w.db.notifications

abbrev pub set_read : Notification → Notification
set_read n = record n { read = true }

-- the row that `markRead` and `deleteOne` load, if it is the user's
unfoldable pub owned : String → String → Action Notification
owned id user_id = do
  n ←
      or_throw (← gets (λ w. find notification_key id w.db.notifications))
        (not_found ("Notification " <> id <> " not found"))
  throw_if (not (n.user_id == user_id)) (not_found ("Notification " <> id <> " not found"))
  pure n

-- `markRead`
unfoldable pub mark_read : String → String → Action Notification
unfolding owned
mark_read id user_id = do
  n ← owned id user_id
  modify_db
      (λ db. record db { notifications = update notification_key id set_read db.notifications })
  pure (set_read n)

-- `markAllRead`: how many rows were updated
unfoldable pub mark_all_read : String → Action ℕ
mark_all_read user_id = do
  n ← gets (λ w. count (is_unread_of user_id) w.db.notifications)
  modify_db (λ db. record db {
    notifications = update_where (is_unread_of user_id) set_read db.notifications;
  })
  pure n

-- `deleteOne`
unfoldable pub delete_one : String → String → Action Done
unfolding owned
delete_one id user_id = do
  owned id user_id
  modify_db (λ db. record db { notifications = erase notification_key id db.notifications })
