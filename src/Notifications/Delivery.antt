-- ===== src/Notifications/Delivery.antt =====
-- What a connection to a stream receives.
use stellances.Http.{Identity}
use stellances.Notifications.Controller.{stream, stream_closed, answer, answer_by}
use stellances.Notifications.Streams.{StreamsValid, subject_at, create_cases, stored}
use stellances.World.Action.{ok, Result}
use stellances.Schema.{Notification}
use stellances.World.{World, Subject, Env}
use stellances.Base.{
  String, ℕ, ◌≡◌, inr, some, inl, arith, false, get_elem?-alter_ne, get_elem?-alter_self, ◌∷◌, ◌∙◌,
  ◌≢◌, none, ==_refl, ap, refl, true, [], length, ◌-◌, take,
}
use stellances.Notifications.{
  push, get_stream, remove_stream, stream_key, stream_of, next, CreateNotificationDto, create,
  of_dto, complete, Answer, Connection,
}
use stellances.Table.Laws.{find-erase}

push_reaches :
    (u : String) (n : Notification) (i : ℕ) (s : Subject) (w : World)
    → StreamsValid w
    → stream_of u w ≡ some i
    → subject_at i w ≡ some s
    → subject_at i (push u n w).1 ≡ some (record s { emitted = n ∷ s.emitted })
unfolding push
push_reaches u n i s w h e found =
    rw (e, push)
      (get_elem?-alter_self i (next n) {x = s} w.subjects found ∙ ground (arith, h.live u i))

push_misses :
    (u : String) (n : Notification) (i j : ℕ) (w : World)
    → stream_of u w ≡ some i
    → i ≢ j
    → subject_at j (push u n w).1 ≡ subject_at j w
unfolding push
push_misses u n i j w e ne = rw (e, push) (get_elem?-alter_ne i j (next n) w.subjects ne)

push_idle :
    (u : String) (n : Notification) (j : ℕ) (w : World)
    → stream_of u w ≡ none
    → subject_at j (push u n w).1 ≡ subject_at j w
unfolding push
push_idle u n j w e = rw (e, push)

pub push-db : (u : String) (n : Notification) (w : World) → (push u n w).1.db ≡ w.db
unfolding push
push-db u n w = ground arith

-- Where the streams are valid and the user has an open one, a notification that is created is put
-- on top of the table, unread and under the user's name, and on top of what the user's subject has
-- passed on; the subject of every other user with an open stream stays as it was.
pub create_delivers :
    (env : Env) (dto : CreateNotificationDto) (w w' : World) (n : Notification) (i : ℕ)
    (s : Subject)
    → StreamsValid w
    → stream_of dto.user_id w ≡ some i
    → subject_at i w ≡ some s
    → create env dto w ≡ (ok n, w')
    → (w'.db.notifications ≡ n ∷ w.db.notifications)
      × (n.user_id ≡ dto.user_id)
      × (n.read ≡ false)
      × (subject_at i w' ≡ some (record s { emitted = n ∷ s.emitted }))
      × ((v : String) (j : ℕ)
          → v ≢ dto.user_id
          → stream_of v w ≡ some j
          → subject_at j w' ≡ subject_at j w)
create_delivers env dto w w' n i s h e found done = elim (create_cases env dto w) [
  | inl clash ↦ absurd (cc (done, clash))
  | inr went ↦
      let en : n ≡ of_dto (env.uuid w.serial) dto = cc (done, went) in
      let ew : w' ≡ (push dto.user_id n (stored n w)).1 = cc (done, went) in
      (
        cc (push-db dto.user_id n (stored n w)),
        ap (λ (x : Notification). x.user_id) en,
        ap (λ (x : Notification). x.read) en,
        ap (subject_at i) ew
            ∙ push_reaches dto.user_id n i s (stored n w) stored-StreamsValid e found,
        λ v j ne open_v.
            ap (subject_at j) ew
            ∙ push_misses dto.user_id n i j (stored n w) e
                (λ same. ne (h.distinct v dto.user_id j open_v (e ∙ ap some same))),
      )
]
  where
    stored-StreamsValid : StreamsValid (stored n w)
    stored-StreamsValid = record { unique = h.unique; distinct = h.distinct; live = h.live }

-- the subject after its stream is removed
removed :
    (u : String) (i : ℕ) (s : Subject) (w : World)
    → StreamsValid w
    → stream_of u w ≡ some i
    → subject_at i w ≡ some s
    → (subject_at i (remove_stream u w).1 ≡ some (complete s))
      × (stream_of u (remove_stream u w).1 ≡ none)
unfolding remove_stream
removed u i s w h e found = (
  rw (e, remove_stream) (get_elem?-alter_self i complete {x = s} w.subjects found),
  rw (e, remove_stream) (ground (arith, ==_refl u, find-erase stream_key u u w.streams h.unique)),
)

-- what is created for a user without a stream leaves every subject as it was
create_misses :
    (env : Env) (dto : CreateNotificationDto) (i : ℕ) (w : World)
    → stream_of dto.user_id w ≡ none
    → subject_at i (create env dto w).1 ≡ subject_at i w
create_misses env dto i w e = elim (create_cases env dto w) [
  | inl clash ↦ ap (λ (r : Result Notification × World). subject_at i r.1) clash
  | inr went ↦
      ap (λ (r : Result Notification × World). subject_at i r.1) went
      ∙ push_idle dto.user_id _ i (stored _ w) e
]

-- a connection to the subject at `i` when that is `s`
abbrev pub joined : ℕ → Subject → Connection
joined i s = record { place = i; before = length s.emitted }

-- a connection that has sent nothing when its subject stops
abbrev pub cut_off : Answer
cut_off = record { events = []; ended = true }

-- The finding about `removeStream`: two connections of one user share one subject. Where the user has a
-- stream, a second connection gets the same subject and is open; when the first one closes, the
-- response of the second ends too, without an event, and the user has no stream: a notification that is
-- created for him before he connects again is sent to neither.
pub second_connection_ends :
    (env : Env) (caller : Identity) (dto : CreateNotificationDto) (i : ℕ) (s : Subject) (w : World)
    → StreamsValid w
    → dto.user_id ≡ caller.id
    → stream_of caller.id w ≡ some i
    → subject_at i w ≡ some s
    → let c = joined i s in
      let closed = (stream_closed caller.id w).1 in
      (stream caller w ≡ (ok c, w))
      × ((answer c w).ended ≡ false)
      × (answer c closed ≡ cut_off)
      × (stream_of caller.id closed ≡ none)
      × (answer c (create env dto closed).1 ≡ cut_off)
unfolding stream get_stream
second_connection_ends env caller dto i s w h own e found =
    let (stops, gone) = removed caller.id i s w h e found in
    let closed = (remove_stream caller.id w).1 in
    let (s', at, open_still) = h.live caller.id i e in
    let nothing : length s.emitted - length s.emitted ≡ 0 = omega arith in
    let cut : answer (joined i s) closed ≡ cut_off =
      ap (answer_by (length s.emitted)) stops
      ∙ ap (λ (n : ℕ). record { events = take n s.emitted; ended = true }) nothing in
    (
      rw (e, found, get_stream, stream) refl,
      rw found (cc (at, found, open_still)),
      cut,
      gone,
      ap (answer_by (length s.emitted))
            (create_misses env dto i closed (ap (λ (k : String). stream_of k closed) own ∙ gone))
          ∙ cut,
    )
