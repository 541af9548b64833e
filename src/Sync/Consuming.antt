-- ===== src/Sync/Consuming.antt =====
-- The loop of backend/api/events/reactor.py that consumes the events of a channel: what it leaves
-- when an event raises, and after a crash between the transaction of an event and the record of its
-- id.
use substra_backend.Prelude.{
  String, ◌≡◌, refl, ap, Option, none, some, List, [], ◌∷◌, ◌++◌, Result, ok, err, Error,
}
use substra_backend.Models.{Db, Date}
use substra_backend.Sync.Events.{Env, Event}
use substra_backend.Sync.Dispatch.{sync_on_event_message, Consumer, consume_channel}
use substra_backend.Sync.Replay.Tasks.{at_time}
use substra_backend.Sync.Replay.Events.{IsReplayable, sync_on_event_message-replay}

-- The events are handled in their order, each with success.
pub data Handled : List (Env × Event) → Db → Db → Type 0 where
  nothing : {db : Db} → Handled [] db db
  first :
      {env : Env} {e : Event} {events : List (Env × Event)} {db mid last : Db}
      → sync_on_event_message env e db ≡ ok mid
      → Handled events mid last
      → Handled ((env, e) ∷ events) db last

-- The id of the last event of the list.
abbrev pub last_id : String → List (Env × Event) → String
last_id old [] = old
last_id old ((env, e) ∷ events) = last_id e.id events

-- No event is left; or the next one raises the error in the database that the others left.
abbrev pub Stops : List (Env × Event) → Db → Option Error → Type 0
Stops [] db error = error ≡ none
Stops ((env, e) ∷ _) db error =
    (x : Error) × (sync_on_event_message env e db ≡ err x) × (error ≡ some x)

abbrev Outcome : List (Env × Event) → Consumer → Consumer × Option Error → Type 0
Outcome events c (c', error) =
    (done rest : List (Env × Event)) × (events ≡ done ++ rest)
    × Handled done c.db c'.db
    × (c'.last_event ≡ last_id c.last_event done)
    × Stops rest c'.db error

-- The loop handles a prefix of the events with success. It leaves the database that the prefix leads
-- to and the id of its last event; it ends without an error when the prefix is the whole list, and
-- otherwise with the error of the event that follows, whose writes are rolled back.
pub consume_channel-prefix :
    (events : List (Env × Event)) (c : Consumer)
    → (done rest : List (Env × Event)) × (events ≡ done ++ rest)
      × Handled done c.db (consume_channel events c).0.db
      × ((consume_channel events c).0.last_event ≡ last_id c.last_event done)
      × Stops rest (consume_channel events c).0.db (consume_channel events c).1
unfolding consume_channel
consume_channel-prefix [] c = ([], [], refl, nothing, refl, refl)
consume_channel-prefix ((env, e) ∷ events) c =
    step (sync_on_event_message env e c.db) refl
      (λ db. consume_channel-prefix events (record { db = db; last_event = e.id }))
  where
    step :
        (r : Result Db)
        → sync_on_event_message env e c.db ≡ r
        → ((db : Db)
            → Outcome events
                (record { db = db; last_event = e.id })
                (consume_channel events (record { db = db; last_event = e.id })))
        → Outcome ((env, e) ∷ events) c (consume_channel ((env, e) ∷ events) c)
    step (ok db) q ih =
        let (done, rest, split, handled, last, stops) = ih db in
        rw (q, consume_channel)
          (
            (env, e) ∷ done,
            rest,
            ap (λ (l : List (Env × Event)). (env, e) ∷ l) split,
            first q handled,
            last,
            stops,
          )
    step (err x) q ih =
        rw (q, consume_channel) ([], (env, e) ∷ events, refl, nothing, refl, (x, q, refl))

-- A crash between the transaction of an event and the record of its id loses nothing: if the event
-- can be delivered again, the loop that starts over from the old id, on the database that the crash left
-- and with this event handled at a later time, goes on with the events behind it, whenever these are
-- handled, exactly as a loop that has recorded the id goes on from there.
pub consume_channel-crash :
    (env : Env) (later : Date) (e : Event) (events : List (Env × Event)) (c : Consumer) (db' : Db)
    → IsReplayable e.event_kind e.payload
    → sync_on_event_message env e c.db ≡ ok db'
    → consume_channel ((at_time env later, e) ∷ events) (record c { db = db' })
      ≡ consume_channel events (record { db = db'; last_event = e.id })
unfolding consume_channel
consume_channel-crash env later e events c db' replayable h =
    rw (sync_on_event_message-replay env later e c.db db' replayable h, consume_channel) refl
