-- ===== src/NotificationQueue.antt =====
-- src/nativepg_internal/notification_queue.hpp and include/nativepg/notification_event.hpp: the
-- events of a multiplexed connection, with backpressure. A wait on an event is cut: the functions
-- are the pieces between two waits.
pub mod Flags
pub mod Memory
mod Tests
use nativepg.Prelude.{
  ℕ, suc, Bool, true, false, List, [], ◌∷◌, ◌++◌, Option, none, some, if◌then◌else◌, length, ltb,
}

-- notification_event, by its type.
pub data NotificationEvent : Type 0 where
  connect disconnect : NotificationEvent
  notify : ℕ → List ℕ → List ℕ → NotificationEvent

-- notification_response: the process, the channel and the payload.
pub record NotificationResponse : Type 0 where
  pub process_id : ℕ
  pub channel_name : List ℕ
  pub payload : List ℕ

pub record NotificationQueue : Type 0 where
  pub max_pending : ℕ
  pub pending : List NotificationEvent
  pub events_available : Bool
  pub space_available : Bool

-- The caller gives a positive number.
unfoldable pub make_queue : ℕ → NotificationQueue
make_queue max_pending = record {
  max_pending = max_pending;
  pending = [];
  events_available = false;
  space_available = true;
}

abbrev pub has_space : NotificationQueue → Bool
has_space q = ltb (length q.pending) q.max_pending

unfoldable pub add_event : NotificationEvent → NotificationQueue → NotificationQueue
add_event e q =
    let p : NotificationQueue = record q { pending = q.pending ++ (e ∷ []) } in
    record p {
      events_available = true;
      space_available = if has_space p then p.space_available else false;
    }

unfoldable pub add_connect : NotificationQueue → NotificationQueue
add_connect = add_event NotificationEvent.connect

-- Whether the last event is a connect, and the events before the last.
unfoldable pub ends_in_connect : List NotificationEvent → Bool
ends_in_connect [] = false
ends_in_connect (connect ∷ []) = true
ends_in_connect (_ ∷ []) = false
ends_in_connect (_ ∷ e ∷ es) = ends_in_connect (e ∷ es)

unfoldable pub pop_back : List NotificationEvent → List NotificationEvent
pop_back [] = []
pop_back (e ∷ []) = []
pop_back (e ∷ f ∷ es) = e ∷ pop_back (f ∷ es)

unfoldable pub is_empty : List NotificationEvent → Bool
is_empty [] = true
is_empty (e ∷ es) = false

unfoldable pub add_disconnect : NotificationQueue → NotificationQueue
unfolding ends_in_connect pop_back is_empty
add_disconnect q =
    let p : NotificationQueue = record q { pending = pop_back q.pending } in
    let popped : NotificationQueue = record p {
      space_available = if has_space p then true else p.space_available;
      events_available = if is_empty p.pending then false else p.events_available;
    } in
    if ends_in_connect q.pending then popped else add_event NotificationEvent.disconnect q

unfoldable pub do_add_notification : NotificationResponse → NotificationQueue → NotificationQueue
do_add_notification m = add_event (notify m.process_id m.channel_name m.payload)

-- try_add_notify: whether the notification was taken, and the queue.
unfoldable pub try_add_notify : NotificationResponse → NotificationQueue → Bool × NotificationQueue
try_add_notify m q = if has_space q then (true, do_add_notification m q) else (false, q)

-- add_notify, from its start or from the end of a wait: none while it has to wait for space.
unfoldable pub add_notify : NotificationResponse → NotificationQueue → Option NotificationQueue
add_notify m q = if has_space q then some (do_add_notification m q) else none

-- read_events, likewise: none while it has to wait for events.
unfoldable pub read_events : NotificationQueue → Option (List NotificationEvent × NotificationQueue)
unfolding is_empty
read_events q =
    if is_empty q.pending
    then none
    else some
        (q.pending, record q { pending = []; events_available = false; space_available = true })
