-- ===== src/Notifications/Streams.antt =====
-- The live streams of the notification service: every open stream has a live subject of its own,
-- and a notification reaches the stream of its user and no other.
use stellances.World.Action.{ok, err, unique_violation}
use stellances.Table.{has}
use stellances.Schema.{Notification, notification_key}
use stellances.World.{World, Subject, Env}
use stellances.Base.{
  String, ℕ, Option-cases, get_elem?, Option, ◌≡◌, inr, some, inl, ◌<◌, arith, false, [], length,
  ==_iff, nat_eq, get_elem?-lt, get_elem?-append, Bool-cases, get_elem?-alter_ne,
  get_elem?-alter_self, ◌∷◌, List, suc, ◌⊎◌,
}
use stellances.Notifications.{
  push, get_stream, remove_stream, stream_key, stream_of, next, complete, CreateNotificationDto,
  create, insert_notification, of_dto,
}
use stellances.Table.Laws.{Unique, erase-Unique, find-erase}

abbrev pub subject_at : ℕ → World → Option Subject
subject_at i w = get_elem? w.subjects i

-- A user has one stream at most, two users never share a subject, and each subject in the map is
-- live.
pub record StreamsValid (w : World) : Type 0 where
  pub unique : Unique stream_key w.streams
  pub distinct : (u v : String) (i : ℕ) → stream_of u w ≡ some i → stream_of v w ≡ some i → u ≡ v
  pub live :
      (u : String) (i : ℕ)
      → stream_of u w ≡ some i
      → (s : Subject) × (subject_at i w ≡ some s) × (s.stopped ≡ false)

-- opening a stream
pub get_stream-StreamsValid :
    (u : String) (w : World) → StreamsValid w → StreamsValid (get_stream u w).1
unfolding get_stream
get_stream-StreamsValid u w h = elim (Option-cases (stream_of u w)) [
  | inr (i, e) ↦ rw (e, get_stream) h
  | inl e ↦
      rw (e, get_stream)
        (record {
          unique = ground (arith, h.unique);
          distinct = λ a b i p q. ground (
            arith,
            ==_iff u a,
            ==_iff u b,
            h.distinct a b i,
            h.live a i,
            h.live b i,
            lt a i,
            lt b i,
          );
          live = λ a i p. ground (
            arith,
            ==_iff u a,
            h.live a i,
            lt a i,
            get_elem?-append w.subjects (record { emitted = []; stopped = false }) i,
          );
        })
]
  where
    lt : (a : String) (i : ℕ) → stream_of a w ≡ some i → i < length w.subjects
    lt a i p = let (s, found, _) = h.live a i p in get_elem?-lt {a = s} w.subjects i found

-- closing one
pub remove_stream-StreamsValid :
    (u : String) (w : World) → StreamsValid w → StreamsValid (remove_stream u w).1
unfolding remove_stream
remove_stream-StreamsValid u w h = elim (Option-cases (stream_of u w)) [
  | inl e ↦ rw (e, remove_stream) h
  | inr (i, e) ↦
      rw (e, remove_stream)
        (record {
          unique = erase-Unique stream_key u w.streams h.unique;
          distinct = λ a b j p q. ground (
            arith,
            find-erase stream_key a u w.streams h.unique,
            find-erase stream_key b u w.streams h.unique,
            h.distinct a b j,
          );
          live = λ a j p. ground (
            arith,
            find-erase stream_key a u w.streams h.unique,
            h.distinct a u j,
            ==_iff u a,
            h.live a j,
            get_elem?-alter_ne i j complete w.subjects,
          );
        })
]

-- sending to one
pub push-StreamsValid :
    (u : String) (n : Notification) (w : World) → StreamsValid w → StreamsValid (push u n w).1
unfolding push
push-StreamsValid u n w h = elim (Option-cases (stream_of u w)) [
  | inl e ↦ rw (e, push) h
  | inr (i, e) ↦
      rw (e, push)
        (record {
          unique = h.unique;
          distinct = h.distinct;
          live = λ a j p. elim (Bool-cases (nat_eq i j)) [
            | inl same ↦
                let (s, found, up) = h.live a j p in
                (
                  next n s,
                  ground (arith, get_elem?-alter_self j (next n) {x = s} w.subjects),
                  ground arith,
                )
            | inr other ↦
                let (s, found, up) = h.live a j p in
                (s, ground (arith, get_elem?-alter_ne i j (next n) w.subjects), up)
          ];
        })
]

-- the state in which `create` sends the notification
abbrev pub stored : Notification → World → World
stored n w = record w {
  db = record w.db { notifications = n ∷ w.db.notifications };
  serial = suc w.serial;
}

pub create_cases :
    (env : Env) (dto : CreateNotificationDto) (w : World)
    → (create env dto w ≡ (err unique_violation, record w { serial = suc w.serial }))
      ⊎ (create env dto w ≡ (
        ok (of_dto (env.uuid w.serial) dto),
        (push dto.user_id
            (of_dto (env.uuid w.serial) dto)
            (stored (of_dto (env.uuid w.serial) dto) w)).1,
      ))
unfolding create insert_notification push
create_cases env dto w =
    elim (Bool-cases (has notification_key (env.uuid w.serial) w.db.notifications)) [
      | inl clash ↦ inl (ground arith)
      | inr free ↦ inr (ground arith)
    ]

pub create-StreamsValid :
    (env : Env) (dto : CreateNotificationDto) (w : World)
    → StreamsValid w
    → StreamsValid (create env dto w).1
create-StreamsValid env dto w h = elim (create_cases env dto w) [
  | inl e ↦ rw e (record { unique = h.unique; distinct = h.distinct; live = h.live })
  | inr e ↦ rw e (
      push-StreamsValid dto.user_id _ _
        (record { unique = h.unique; distinct = h.distinct; live = h.live }))
]

-- What the clients and the other services do with the streams.
pub data StreamCall : Type 0 where
  connects disconnects : String → StreamCall
  creates : CreateNotificationDto → StreamCall

pub stream_call : Env → StreamCall → World → World
stream_call env (connects u) w = (get_stream u w).1
stream_call env (disconnects u) w = (remove_stream u w).1
stream_call env (creates dto) w = (create env dto w).1

pub stream_run : Env → List StreamCall → World → World
stream_run env [] w = w
stream_run env (c ∷ cs) w = stream_run env cs (stream_call env c w)

stream_call-StreamsValid :
    (env : Env) (c : StreamCall) (w : World) → StreamsValid w → StreamsValid (stream_call env c w)
unfolding stream_call
stream_call-StreamsValid env (connects u) w h = get_stream-StreamsValid u w h
stream_call-StreamsValid env (disconnects u) w h = remove_stream-StreamsValid u w h
stream_call-StreamsValid env (creates dto) w h = create-StreamsValid env dto w h

-- Any sequence of connecting, disconnecting and creating notifications keeps the streams valid: one
-- stream to a user at most, no subject shared by two users, and every subject in the map live.
pub stream_run-StreamsValid :
    (env : Env) (cs : List StreamCall) (w : World)
    → StreamsValid w
    → StreamsValid (stream_run env cs w)
unfolding stream_run
stream_run-StreamsValid env [] w h = h
stream_run-StreamsValid env (c ∷ cs) w h =
    stream_run-StreamsValid env cs (stream_call env c w) (stream_call-StreamsValid env c w h)
