-- ===== src/NotificationQueue/Memory.antt =====
-- notification_queue in a multiplexed connection: src/co_multiplexed_connection.cpp adds a connect,
-- then notifications, then a disconnect, again and again, and readers come at any time.
use nativepg.Prelude.{
  ℕ, suc, ◌+◌, ◌≤◌, ◌<◌, ◌≡◌, refl, sym, ◌∙◌, subst, Bool, true, false, List, [], ◌∷◌, ◌++◌, some,
  ◌⊎◌, inl, inr, length, ltb→lt, some_inj, arith, Bool-cases,
}
use nativepg.NotificationQueue.{
  NotificationEvent, connect, disconnect, notify, NotificationResponse, NotificationQueue,
  make_queue, has_space, add_event, add_connect, ends_in_connect, add_disconnect,
  do_add_notification, add_notify, read_events, is_empty,
}
use nativepg.NotificationQueue.Flags.{
  QueueInv, length-snoc, length-pop_back, add_event-QueueInv, add_disconnect-QueueInv, emptied,
  emptied-QueueInv, read_events_lem,
}

-- The queue over the life of a connection; the flag says that there is a session.
pub data Session (max_pending : ℕ) : Bool → NotificationQueue → Type 0 where
  made : Session max_pending false (make_queue max_pending)
  connects :
      {q : NotificationQueue}
      → Session max_pending false q
      → Session max_pending true (add_connect q)
  disconnects :
      {q : NotificationQueue}
      → Session max_pending true q
      → Session max_pending false (add_disconnect q)
  notifies :
      {q q' : NotificationQueue} (m : NotificationResponse)
      → Session max_pending true q
      → add_notify m q ≡ some q'
      → Session max_pending true q'
  reads :
      {c : Bool} {q q' : NotificationQueue} {es : List NotificationEvent}
      → Session max_pending c q
      → read_events q ≡ some (es, q')
      → Session max_pending c q'

-- How full the queue may be: a session that is not over may end in its connect.
abbrev Room : ℕ → Bool → List NotificationEvent → Type 0
Room n false es = length es ≤ suc n
Room n true es = (length es ≤ n) ⊎ ((ends_in_connect es ≡ true) × (length es ≤ suc (suc n)))

abbrev pub Bounded : ℕ → NotificationQueue → Type 0
Bounded n q = QueueInv q × (q.max_pending ≡ n) × (length q.pending ≤ n + 2)

ends_in_connect-snoc : (es : List NotificationEvent) → ends_in_connect (es ++ (connect ∷ [])) ≡ true
unfolding ends_in_connect
ends_in_connect-snoc [] = refl
ends_in_connect-snoc (connect ∷ []) = refl
ends_in_connect-snoc (disconnect ∷ []) = refl
ends_in_connect-snoc (notify a b c ∷ []) = refl
ends_in_connect-snoc (connect ∷ f ∷ es) = ends_in_connect-snoc (f ∷ es)
ends_in_connect-snoc (disconnect ∷ f ∷ es) = ends_in_connect-snoc (f ∷ es)
ends_in_connect-snoc (notify a b c ∷ f ∷ es) = ends_in_connect-snoc (f ∷ es)

disconnect-Room :
    (n : ℕ) (q : NotificationQueue)
    → Room n true q.pending
    → (length (add_disconnect q).pending ≤ suc n) × ((add_disconnect q).max_pending ≡ q.max_pending)
unfolding add_disconnect add_event
disconnect-Room n q r = elim (Bool-cases (ends_in_connect q.pending)) [
  | inl e ↦ rw e (
    elim r [
      | inl few ↦ omega (arith, length-pop_back q.pending e, few)
      | inr one ↦ omega (arith, length-pop_back q.pending e, one.1)
    ],
    refl,
  )
  | inr e ↦ rw e (
    elim r [
      | inl few ↦ omega (arith, length-snoc q.pending disconnect, few)
      | inr one ↦ cc (one.0, e)
    ],
    refl,
  )
]

notify-Room :
    (n : ℕ) (m : NotificationResponse) (q q' : NotificationQueue)
    → q.max_pending ≡ n
    → QueueInv q
    → add_notify m q ≡ some q'
    → QueueInv q' × (q'.max_pending ≡ n) × Room n true q'.pending
unfolding add_notify do_add_notification add_event
notify-Room n m q q' h v taken = elim (Bool-cases (has_space q)) [
  | inl e ↦
      let same = some_inj (rw e at taken) in
      subst (λ r. QueueInv r × (r.max_pending ≡ n) × Room n true r.pending) same
        (
          add_event-QueueInv (notify m.process_id m.channel_name m.payload) q v,
          h,
          inl (
              omega (
                arith,
                length-snoc q.pending (notify m.process_id m.channel_name m.payload),
                ltb→lt (length q.pending) q.max_pending e,
                h,
              )),
        )
  | inr e ↦ cc (rw e at taken)
]

emptied-Room : (n : ℕ) (c : Bool) (q : NotificationQueue) → Room n c (emptied q).pending
emptied-Room n false q = omega arith
emptied-Room n true q = inl (omega arith)

connect-Room :
    (n : ℕ) (q : NotificationQueue)
    → QueueInv q × (q.max_pending ≡ n) × Room n false q.pending
    → QueueInv (add_connect q)
      × ((add_connect q).max_pending ≡ n)
      × Room n true (add_connect q).pending
unfolding add_connect add_event
connect-Room n q v = (
  add_event-QueueInv connect q v.0,
  v.1,
  inr (ends_in_connect-snoc q.pending, omega (arith, length-snoc q.pending connect, v.2)),
)

make-QueueInv : (n : ℕ) → 0 < n → QueueInv (make_queue n)
unfolding make_queue is_empty
make-QueueInv n h = record { positive = h; events_exact = refl; space_exact = ground (arith, h) }

Session-Room :
    (n : ℕ) (c : Bool) (q : NotificationQueue)
    → 0 < n
    → Session n c q
    → QueueInv q × (q.max_pending ≡ n) × Room n c q.pending
unfolding make_queue
Session-Room n _ _ h made = (make-QueueInv n h, refl, omega arith)
Session-Room n _ _ h (connects {q} s) = connect-Room n q (Session-Room n false q h s)
Session-Room n _ _ h (disconnects {q} s) =
    let v = Session-Room n true q h s in
    let room = disconnect-Room n q v.2 in (add_disconnect-QueueInv q v.0, room.1 ∙ v.1, room.0)
Session-Room n _ _ h (notifies {q} {q'} m s taken) =
    let v = Session-Room n true q h s in notify-Room n m q q' v.1 v.0 taken
Session-Room n c _ h (reads {q} {q'} {es} s taken) =
    let v = Session-Room n c q h s in
    subst (λ r. QueueInv r × (r.max_pending ≡ n) × Room n c r.pending)
      (sym (read_events_lem q q' es taken).1) (emptied-QueueInv q v.0, v.1, emptied-Room n c q)

-- A queue made with a positive limit is sound at every point of its life, over any number of
-- sessions: a waiting reader is let through exactly when there are events, a waiting producer
-- exactly when there is space, and the queue never holds more than two events above its limit.
pub Session-Bounded :
    (n : ℕ) (c : Bool) (q : NotificationQueue) → 0 < n → Session n c q → Bounded n q
Session-Bounded n false q h s = let v = Session-Room n false q h s in (v.0, v.1, omega (arith, v.2))
Session-Bounded n true q h s =
    let v = Session-Room n true q h s in
    (v.0, v.1, elim v.2 [ inl few ↦ omega (arith, few) | inr one ↦ omega (arith, one.1) ])
