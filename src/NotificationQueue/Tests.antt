-- ===== src/NotificationQueue/Tests.antt =====
-- Runs of the notification queue.
use nativepg.Prelude.{true, arith}
use nativepg.NotificationQueue.{NotificationQueue, make_queue, add_connect}
use nativepg.NotificationQueue.Memory.{Session, Bounded, Session-Bounded}

-- A session that begins on a queue for two events.
abbrev connected : NotificationQueue
connected = add_connect (make_queue 2)

Session-Bounded_example : Bounded 2 connected
Session-Bounded_example =
    Session-Bounded 2 true connected (omega arith) (Session.connects Session.made)
