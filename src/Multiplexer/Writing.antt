-- ===== src/Multiplexer/Writing.antt =====
-- multiplexer::add, prepare_write and cleanup.
use nativepg.Prelude.{
  ℕ, ◌+◌, ◌≡◌, refl, sym, ◌∙◌, ap, List, [], ◌∷◌, ◌++◌, Option, none, some, All, All-append, arith,
  length, length-append, append-nil, append_assoc, take, drop, take-append_length,
}
use nativepg.CheckRequest.{get_expected_rfqs}
use nativepg.Multiplexer.{
  Request, ElemStatus, MultiplexerElem, StreamStatus, StreamFsm, Multiplexer, new_elem, add, empty,
  write_elem, write_elems, prepare_write, cleanup, canceled_all,
}
use nativepg.Multiplexer.Invariant.{
  MuxInv, StreamOk, IsSent, IsWaiting, IsValidRequest, WaitingAs, rfqs_of_request, owed, owed_all,
  outstanding_as, outstanding, outstanding_lem, sent_part, sent_part_lem, pending_offset_lem,
  drop-sent, waiting_part, waiting_part_lem,
}

empty-MuxInv : MuxInv empty
unfolding empty
empty-MuxInv = record {
  sent = [];
  waiting = [];
  split = refl;
  counted = refl;
  stream_ok = tt;
  waiting_ok = tt;
}

-- What is to be written of one element that waits: nothing, if it is abandoned.
abbrev payload_as : ElemStatus → Option Request → List ℕ
payload_as ElemStatus.pending (some r) = r.payload
payload_as _ r = []

abbrev pub payloads : List MultiplexerElem → List ℕ
payloads [] = []
payloads (e ∷ es) = payload_as e.status e.req ++ payloads es

abbrev requested_as : ElemStatus → Option Request → ℕ
requested_as ElemStatus.pending r = rfqs_of_request r
requested_as _ r = 0

abbrev pub requested : List MultiplexerElem → ℕ
requested [] = 0
requested (e ∷ es) = requested_as e.status e.req + requested es

payloads-append : (xs ys : List MultiplexerElem) → payloads (xs ++ ys) ≡ payloads xs ++ payloads ys
payloads-append [] ys = refl
payloads-append (x ∷ xs) ys =
    ap (λ l. payload_as x.status x.req ++ l) (payloads-append xs ys)
    ∙ sym (append_assoc (payload_as x.status x.req) (payloads xs) (payloads ys))

requested-append :
    (xs ys : List MultiplexerElem) → requested (xs ++ ys) ≡ requested xs + requested ys
requested-append [] ys = omega arith
requested-append (x ∷ xs) ys = omega (arith, requested-append xs ys)

-- A well-formed request that is added to a queue in order leaves it in order. It waits behind those
-- that wait, under the handle that is returned, with its handler and its callback: the next write
-- sends its payload behind theirs, and owes its answers. What has been written, what is owed for it
-- and the calls made so far do not change.
pub add-MuxInv :
    (m : Multiplexer) (r : Request) (res on_done : ℕ)
    → MuxInv m
    → IsValidRequest r
    → let (m', h) = add m r res on_done in
      MuxInv m'
      × ((e : MultiplexerElem) × (waiting_part m' ≡ waiting_part m ++ (e ∷ []))
          × (e.handle ≡ h)
          × (e.res ≡ some res)
          × (e.on_done ≡ some on_done))
      × (payloads (waiting_part m') ≡ payloads (waiting_part m) ++ r.payload)
      × (requested (waiting_part m') ≡ requested (waiting_part m) + get_expected_rfqs r.messages)
      × (sent_part m' ≡ sent_part m)
      × (outstanding m' ≡ outstanding m)
      × (m'.completions ≡ m.completions)
unfolding add
add-MuxInv m r res d v valid =
    let e = new_elem m.next_handle r res d in
    let m' = (add m r res d).0 in
    let w : MuxInv m' = record {
      sent = v.sent;
      waiting = v.waiting ++ (e ∷ []);
      split = ap (λ es. es ++ (e ∷ [])) v.split ∙ append_assoc v.sent v.waiting (e ∷ []);
      counted = omega (arith, v.counted, length-append v.waiting (e ∷ []));
      stream_ok = v.stream_ok;
      waiting_ok = All-append IsWaiting v.waiting (e ∷ []) v.waiting_ok (valid, tt);
    } in
    let waits : waiting_part m' ≡ waiting_part m ++ (e ∷ []) =
      waiting_part_lem w ∙ ap (λ es. es ++ (e ∷ [])) (sym (waiting_part_lem v)) in
    (
      w,
      (e, waits, refl, refl, refl),
      ap payloads waits
          ∙ payloads-append (waiting_part m) (e ∷ [])
          ∙ ap (λ l. payloads (waiting_part m) ++ l) (append-nil r.payload),
      omega (arith, ap requested waits, requested-append (waiting_part m) (e ∷ [])),
      sent_part_lem w ∙ sym (sent_part_lem v),
      outstanding_lem w ∙ sym (outstanding_lem v),
      refl,
    )

write_elem_lem :
    (st : ElemStatus) (r : Option Request) (e : MultiplexerElem) (buffer : List ℕ)
    → WaitingAs st r
    → (e' : MultiplexerElem) × (write_elem buffer (record e { status = st; req = r })
        ≡ some (buffer ++ payload_as st r, e'))
      × IsSent e'
      × (owed e' ≡ requested_as st r)
unfolding write_elem
write_elem_lem ElemStatus.pending none e buffer w = elim w [ ]
write_elem_lem ElemStatus.pending (some r) e buffer w =
    (record e { status = ElemStatus.in_flight; req = some r }, refl, w, refl)
write_elem_lem ElemStatus.in_flight r e buffer w = elim w [ ]
write_elem_lem ElemStatus.abandoned_pending none e buffer w =
    (record e { status = ElemStatus.abandoned_pending; req = none }, rw append-nil, tt, refl)
write_elem_lem ElemStatus.abandoned_pending (some r) e buffer w =
    (record e { status = ElemStatus.abandoned_pending; req = some r }, rw append-nil, tt, refl)
write_elem_lem ElemStatus.abandoned_in_flight r e buffer w = elim w [ ]

write_elems_lem :
    (es : List MultiplexerElem) (buffer : List ℕ)
    → All IsWaiting es
    → (es' : List MultiplexerElem) × (write_elems buffer es ≡ some (buffer ++ payloads es, es'))
      × All IsSent es'
      × (owed_all es' ≡ requested es)
unfolding write_elems
write_elems_lem [] buffer w = ([], rw append-nil, tt, refl)
write_elems_lem (e ∷ es) buffer (w, ws) =
    let (e', q, s, n) = write_elem_lem e.status e.req e buffer w in
    let (es', q', ss, n') = write_elems_lem es (buffer ++ payload_as e.status e.req) ws in
    (e' ∷ es', rw (q, q', append_assoc), (s, ss), omega (arith, n, n'))

StreamOk-append :
    (st : StreamStatus) (s : StreamFsm) (xs ys : List MultiplexerElem)
    → StreamOk st s xs
    → All IsSent ys
    → StreamOk st s (xs ++ ys)
StreamOk-append StreamStatus.initial s xs ys ok h = All-append IsSent xs ys ok h
StreamOk-append StreamStatus.reading s [] ys ok h = elim ok [ ]
StreamOk-append StreamStatus.reading s (x ∷ xs) ys (a, b, c) h = (a, b, All-append IsSent xs ys c h)
StreamOk-append StreamStatus.ignoring s [] ys ok h = elim ok [ ]
StreamOk-append StreamStatus.ignoring s (x ∷ xs) ys (a, b, c, d) h =
    (a, b, c, All-append IsSent xs ys d h)

owed_all-append : (xs ys : List MultiplexerElem) → owed_all (xs ++ ys) ≡ owed_all xs + owed_all ys
owed_all-append [] ys = omega arith
owed_all-append (x ∷ xs) ys = omega (arith, owed_all-append xs ys)

outstanding_as-append :
    (st : StreamStatus) (s : StreamFsm) (xs ys : List MultiplexerElem)
    → StreamOk st s xs
    → outstanding_as st s (xs ++ ys) ≡ outstanding_as st s xs + owed_all ys
outstanding_as-append StreamStatus.initial s xs ys ok = owed_all-append xs ys
outstanding_as-append StreamStatus.reading s [] ys ok = elim ok [ ]
outstanding_as-append StreamStatus.reading s (x ∷ xs) ys ok = omega (arith, owed_all-append xs ys)
outstanding_as-append StreamStatus.ignoring s [] ys ok = elim ok [ ]
outstanding_as-append StreamStatus.ignoring s (x ∷ xs) ys ok = omega (arith, owed_all-append xs ys)

take-sent : {m : Multiplexer} (v : MuxInv m) → take (length v.sent) m.elems ≡ v.sent
take-sent v = ap (take (length v.sent)) v.split ∙ take-append_length v.sent v.waiting

-- A write, on a queue in order: it is defined, it sends the payloads of exactly the waiting
-- requests that were not abandoned, in their order, nothing waits any more, the queue is in order,
-- and what the server owes grows by what these requests are answered with.
pub prepare_write_lem :
    (m : Multiplexer)
    → MuxInv m
    → (m' : Multiplexer) × (prepare_write m ≡ some m')
      × MuxInv m'
      × (m'.write_buffer ≡ payloads (waiting_part m))
      × (m'.num_pending ≡ 0)
      × (outstanding m' ≡ outstanding m + requested (waiting_part m))
unfolding prepare_write
prepare_write_lem m v =
    let (es, q, sent, n) = write_elems_lem v.waiting [] v.waiting_ok in
    let st = m.stream.status in
    let m' : Multiplexer = record m {
      write_buffer = payloads v.waiting;
      elems = take (length v.sent) m.elems ++ es;
      num_pending = 0;
    } in
    let w : MuxInv m' = record {
      sent = v.sent ++ es;
      waiting = [];
      split = ap (λ xs. xs ++ es) (take-sent v) ∙ sym (append-nil (v.sent ++ es));
      counted = refl;
      stream_ok = StreamOk-append st m.stream v.sent es v.stream_ok sent;
      waiting_ok = tt;
    } in
    (
      m',
      rw (pending_offset_lem v, drop-sent v, q),
      w,
      ap payloads (sym (waiting_part_lem v)),
      refl,
      omega (
        arith,
        outstanding_lem w,
        outstanding_lem v,
        n,
        ap requested (waiting_part_lem v),
        outstanding_as-append st m.stream v.sent es v.stream_ok,
      ),
    )

-- The connection is lost, with a queue in order: cleanup is defined, exactly the written requests are completed, each once and in order, with
-- the code for a cancelled operation; those that wait are kept, and nothing is owed any more.
pub cleanup_lem :
    (m : Multiplexer)
    → MuxInv m
    → (m' : Multiplexer) × (cleanup m ≡ some m')
      × MuxInv m'
      × (m'.elems ≡ waiting_part m)
      × (m'.completions ≡ m.completions ++ canceled_all (sent_part m))
      × (outstanding m' ≡ 0)
unfolding cleanup
cleanup_lem m v =
    let m' : Multiplexer = record m {
      elems = drop (length v.sent) m.elems;
      stream = record (m.stream) { status = StreamStatus.initial };
      completions = m.completions ++ canceled_all (take (length v.sent) m.elems);
    } in
    let w : MuxInv m' = record {
      sent = [];
      waiting = v.waiting;
      split = drop-sent v;
      counted = v.counted;
      stream_ok = tt;
      waiting_ok = v.waiting_ok;
    } in
    (
      m',
      rw (pending_offset_lem v),
      w,
      drop-sent v ∙ sym (waiting_part_lem v),
      ap (λ xs. m.completions ++ canceled_all xs) (take-sent v ∙ sym (sent_part_lem v)),
      outstanding_lem w,
    )
