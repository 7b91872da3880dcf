-- ===== src/Notifications/Tests.antt =====
-- The notification service on the demo deployment.
use stellances.Notifications.Controller.{stream_closed, stream, answer}
use stellances.Http.{Identity}
use stellances.Notifications.Inbox.{mark_all_read_ok}
use stellances.World.Action.{ok}
use stellances.Notifications.Streams.{
  StreamsValid, StreamCall, stream_run, subject_at, connects, stream_run-StreamsValid, disconnects,
}
use stellances.Notifications.Delivery.{second_connection_ends, create_delivers, joined, cut_off}
use stellances.Base.{◌==◌, arith, String, Bool-cases, ℕ, inl, ◌≢◌, ==_iff, inr}
use stellances.World.{World, Subject}
use stellances.Base.{refl, none, some, false, [], ◌∷◌, List, ◌≡◌, show}
use stellances.Demo.{demo, demo_env}
use stellances.Schema.{NotificationType, UserRole}
use stellances.Notifications.{
  create, CreateNotificationDto, of_dto, stream_of, mark_all_read, count_unread,
}

demo-StreamsValid : StreamsValid demo
unfolding ◌==◌
demo-StreamsValid = record {
  unique = ground arith;
  distinct = λ u v i p q. elim (Bool-cases ("carol" == u)) [
    | inl e ↦ elim (Bool-cases ("carol" == v)) [
      | inl f ↦ ground (arith, ==_iff "carol" u, ==_iff "carol" v)
      | inr f ↦ absurd (ground arith)
    ]
    | inr e ↦ absurd (ground arith)
  ];
  live = λ u i p. elim (Bool-cases ("carol" == u)) [
    | inl e ↦ (record { emitted = []; stopped = false }, ground arith, ground arith)
    | inr e ↦ absurd (ground arith)
  ];
}

abbrev hello : CreateNotificationDto
hello = record {
  user_id = "carol";
  type = NotificationType.contract_created;
  title = "Hello";
  body = "World";
  contract_id = none;
  milestone_id = none;
}

abbrev stream_calls : List StreamCall
stream_calls =
    connects "frank"
    ∷ StreamCall.creates hello
    ∷ disconnects "carol"
    ∷ StreamCall.creates hello
    ∷ []

stream_run-StreamsValid_example : StreamsValid (stream_run demo_env stream_calls demo)
stream_run-StreamsValid_example =
    stream_run-StreamsValid demo_env stream_calls demo demo-StreamsValid

abbrev greeted : World
greeted = (create demo_env hello demo).1

greeting : create demo_env hello demo ≡ (ok (of_dto "id-0" hello), greeted)
unfolding create show ◌==◌
greeting = refl

carol_listens : stream_of "carol" demo ≡ some 0
unfolding ◌==◌
carol_listens = refl

create_delivers_example :
    (greeted.db.notifications ≡ of_dto "id-0" hello ∷ [])
    × (hello.user_id ≡ hello.user_id)
    × (false ≡ false)
    × (subject_at 0 greeted ≡ some (record { emitted = of_dto "id-0" hello ∷ []; stopped = false }))
    × ((v : String) (j : ℕ)
        → v ≢ "carol"
        → stream_of v demo ≡ some j
        → subject_at j greeted ≡ subject_at j demo)
create_delivers_example =
    create_delivers demo_env hello demo greeted (of_dto "id-0" hello) 0
      (record { emitted = []; stopped = false }) demo-StreamsValid carol_listens refl greeting

abbrev carol_user : Identity
carol_user = record { id = "carol"; email = "carol@example.org"; role = UserRole.client }

abbrev silent : Subject
silent = record { emitted = []; stopped = false }

second_connection_ends_example :
    let c = joined 0 silent in
    let closed = (stream_closed "carol" demo).1 in
    (stream carol_user demo ≡ (ok c, demo))
    × ((answer c demo).ended ≡ false)
    × (answer c closed ≡ cut_off)
    × (stream_of "carol" closed ≡ none)
    × (answer c (create demo_env hello closed).1 ≡ cut_off)
second_connection_ends_example =
    second_connection_ends demo_env carol_user hello 0 silent demo demo-StreamsValid refl
      carol_listens refl

mark_all_read_ok_example :
    ((mark_all_read "carol" greeted).0 ≡ ok (count_unread "carol" greeted))
    × (count_unread "carol" (mark_all_read "carol" greeted).1 ≡ 0)
    × ((v : String)
        → v ≢ "carol"
        → count_unread v (mark_all_read "carol" greeted).1 ≡ count_unread v greeted)
mark_all_read_ok_example = mark_all_read_ok "carol" greeted
