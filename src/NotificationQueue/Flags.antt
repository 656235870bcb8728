-- ===== src/NotificationQueue/Flags.antt =====
-- The two wait conditions of notification_queue say what the queue holds.
use nativepg.Prelude.{
  ℕ, suc, ◌<◌, ◌≡◌, refl, sym, ap, Bool, true, false, not, List, [], ◌∷◌, ◌++◌, some, inl, inr,
  if◌then◌else◌, length, length-append, ltb, arith, Bool-cases, some_inj,
}
use nativepg.NotificationQueue.{
  NotificationEvent, connect, disconnect, notify, NotificationQueue, has_space, add_event,
  ends_in_connect, pop_back, is_empty, add_disconnect, read_events,
}

-- A waiting reader is let through exactly when there are events, a waiting producer exactly when
-- there is space.
pub record QueueInv (q : NotificationQueue) : Type 0 where
  pub positive : 0 < q.max_pending
  pub events_exact : q.events_available ≡ not (is_empty q.pending)
  pub space_exact : q.space_available ≡ has_space q

pub length-snoc :
    (es : List NotificationEvent) (e : NotificationEvent)
    → length (es ++ (e ∷ [])) ≡ suc (length es)
length-snoc es e = omega (arith, length-append es (e ∷ []))

is_empty-snoc :
    (es : List NotificationEvent) (e : NotificationEvent) → is_empty (es ++ (e ∷ [])) ≡ false
unfolding is_empty
is_empty-snoc [] e = refl
is_empty-snoc (x ∷ es) e = refl

pub length-pop_back :
    (es : List NotificationEvent)
    → ends_in_connect es ≡ true
    → suc (length (pop_back es)) ≡ length es
unfolding ends_in_connect pop_back
length-pop_back [] h = cc
length-pop_back (e ∷ []) h = refl
length-pop_back (e ∷ f ∷ es) h = ap suc (length-pop_back (f ∷ es) (rest e h))
  where
    rest :
        (e : NotificationEvent)
        → ends_in_connect (e ∷ f ∷ es) ≡ true
        → ends_in_connect (f ∷ es) ≡ true
    rest connect h = h
    rest disconnect h = h
    rest (notify a b c) h = h

pub add_event-QueueInv :
    (e : NotificationEvent) (q : NotificationQueue) → QueueInv q → QueueInv (add_event e q)
unfolding add_event
add_event-QueueInv e q v = record {
  positive = v.positive;
  events_exact = sym (ap not (is_empty-snoc q.pending e));
  space_exact =
      space (length (q.pending ++ (e ∷ []))) (length q.pending) q.space_available
        (length-snoc q.pending e) v.space_exact;
}
  where
    space :
        (n k : ℕ) (b : Bool)
        → n ≡ suc k
        → b ≡ ltb k q.max_pending
        → (if ltb n q.max_pending then b else false) ≡ ltb n q.max_pending
    space n k b h s = ground arith

has_events : (es : List NotificationEvent) → ends_in_connect es ≡ true → is_empty es ≡ false
unfolding ends_in_connect is_empty
has_events [] h = cc
has_events (e ∷ es) h = refl

pub add_disconnect-QueueInv : (q : NotificationQueue) → QueueInv q → QueueInv (add_disconnect q)
unfolding add_disconnect
add_disconnect-QueueInv q v = elim (Bool-cases (ends_in_connect q.pending)) [
  | inl e ↦ rw e (record {
    positive = v.positive;
    events_exact = ground (arith, v.events_exact, has_events q.pending e);
    space_exact = ground (arith, v.space_exact, length-pop_back q.pending e);
  })
  | inr e ↦ rw e (add_event-QueueInv NotificationEvent.disconnect q v)
]

abbrev pub emptied : NotificationQueue → NotificationQueue
emptied q = record q { pending = []; events_available = false; space_available = true }

pub emptied-QueueInv : (q : NotificationQueue) → QueueInv q → QueueInv (emptied q)
unfolding is_empty
emptied-QueueInv q v = record {
  positive = v.positive;
  events_exact = refl;
  space_exact = ground (arith, v.positive);
}

-- What a reader gets: all events, in the order in which they came.
pub read_events_lem :
    (q q' : NotificationQueue) (es : List NotificationEvent)
    → read_events q ≡ some (es, q')
    → (es ≡ q.pending) × (q' ≡ emptied q)
unfolding read_events
read_events_lem q q' es h = elim (Bool-cases (is_empty q.pending)) [
  | inl e ↦ cc (rw e at h)
  | inr e ↦
      let taken = some_inj (rw e at h) in (sym (ap (λ r. r.0) taken), sym (ap (λ r. r.1) taken))
]
