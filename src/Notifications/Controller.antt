-- ===== src/Notifications/Controller.antt =====
-- stellance/backend/src/notifications/notifications.controller.ts.
use stellances.World.{Subject, World}
use stellances.World.Action.{Action, Done, gets, ◌>>=◌}
use stellances.Schema.{RowId, Notification}
use stellances.Base.{
  none, some, false, Option, ℕ, String, Bool, List, ◌==◌, [], length, take, get_elem?, ◌-◌,
}
use stellances.Notifications.{
  find_all, count_unread, mark_read, mark_all_read, delete_one, get_stream, remove_stream,
  Connection, Answer,
}
use stellances.Http.{Identity}

-- `unreadOnly === 'true'`
abbrev unread_query : Option String → Bool
unread_query none = false
unread_query (some s) = s == "true"

-- `findAll`
unfoldable pub list_notifications : Identity → Option String → Action (List Notification)
unfolding find_all
list_notifications caller unread_only = gets (find_all caller.id (unread_query unread_only))

-- `countUnread`
unfoldable pub unread_count : Identity → Action ℕ
unfolding count_unread
unread_count caller = gets (count_unread caller.id)

abbrev passed_on : Option Subject → ℕ
passed_on none = 0
passed_on (some s) = length s.emitted

-- `stream`: the connection subscribes to the subject
unfoldable pub stream : Identity → Action Connection
stream caller = do
  i ← get_stream caller.id
  gets (λ w. record { place = i; before = passed_on (get_elem? w.subjects i) })

abbrev pub answer_by : ℕ → Option Subject → Answer
answer_by before none = record { events = []; ended = false }
answer_by before (some s) = record {
  events = take (length s.emitted - before) s.emitted;
  ended = s.stopped;
}

-- the subscription: `next` sends a notification, and `complete` ends the response
abbrev pub answer : Connection → World → Answer
answer c w = answer_by c.before (get_elem? w.subjects c.place)

-- `res.on('close', …)`
abbrev pub stream_closed : RowId → Action Done
stream_closed user_id = remove_stream user_id

-- `markAllRead`
abbrev pub read_all : Identity → Action ℕ
read_all caller = mark_all_read caller.id

-- `markRead`
abbrev pub read_one : RowId → Identity → Action Notification
read_one id caller = mark_read id caller.id

-- `deleteOne`
abbrev pub delete_notification : RowId → Identity → Action Done
delete_notification id caller = delete_one id caller.id
