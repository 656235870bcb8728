-- ===== src/Multiplexer.antt =====
-- src/nativepg_internal/multiplexed_connection/multiplexer.hpp: many requests over one
-- connection, their answers told apart by counting ready_for_query messages, and cancellation.
pub mod Invariant
pub mod Accounts
pub mod Received
pub mod OnMessage
pub mod Queued
pub mod Cancel
pub mod Writing
pub mod Unsolicited
mod Tests
use nativepg.Prelude.{
  ℕ, suc, ◌+◌, ◌-◌, ◌%◌, ◌^◌, Bool, true, false, not, ◌&&◌, List, [], ◌∷◌, ◌++◌, map, Option, none,
  some, if◌then◌else◌, length, take, drop, leb, ◌==◌, decrement, ◌>>=◌,
}
use nativepg.Protocol.{
  ErrorCode, client, foreign, RequestMessageType, BackendMessage, Kind, unmatched_request,
}
use nativepg.CheckRequest.{get_expected_rfqs}
use nativepg.ReadResponse.{
  ReadResponseFsm, Result, done, read, out_of_range, Outcome, start, resume, is_async,
  get_remaining_messages,
}

-- What the multiplexer reads of a request.
pub record Request : Type 0 where
  pub messages : List RequestMessageType
  pub payload : List ℕ

-- multiplexer_elem_status
pub data ElemStatus : Type 0 where
  pending in_flight abandoned_pending abandoned_in_flight : ElemStatus

-- multiplexer_elem. `handle` stands for its address, which `add` hands out; `on_done` names the
-- callback of the caller, and is `none` where it is `ignore`; `res` is `none` for the null handler.
pub record MultiplexerElem : Type 0 where
  pub handle : ℕ
  pub req : Option Request
  pub res : Option ℕ
  pub on_done : Option ℕ
  pub status : ElemStatus
  pub num_rfq : ℕ

pub data StreamStatus : Type 0 where
  initial reading ignoring : StreamStatus

-- read_response_stream_fsm, with the handler that fsm_ is given.
pub record StreamFsm : Type 0 where
  pub status : StreamStatus
  pub fsm : Option ReadResponseFsm
  pub handler : Option ℕ
  pub remaining_rfq : ℕ

-- A call of on_done.
abbrev pub Completion : Type 0
Completion = Option ℕ × ErrorCode

-- What a message leaves: the code returned, the machine, the queue, and the calls of on_done.
pub record StreamResult : Type 0 where
  pub ec : ErrorCode
  pub stream : StreamFsm
  pub elems : List MultiplexerElem
  pub completed : List Completion

-- The requests that were abandoned before they were written, at the front.
unfoldable pub drop_abandoned : List MultiplexerElem → List MultiplexerElem
drop_abandoned [] = []
drop_abandoned (e ∷ es) = elim e.status [
  | ElemStatus.abandoned_pending ↦ drop_abandoned es
  | _ ↦ e ∷ es
]

-- The end of the case `reading`. A read out of range is undefined: no result.
after_resume : StreamFsm → MultiplexerElem → List MultiplexerElem → Outcome → Option StreamResult
after_resume s e es (done ec, f) = some (record {
  ec = ec;
  stream = record s { status = StreamStatus.initial; fsm = some f };
  elems = es;
  completed = (e.on_done, ec) ∷ [];
})
after_resume s e es (read, f) =
    some (record { ec = none; stream = record s { fsm = some f }; elems = e ∷ es; completed = [] })
after_resume s e es (out_of_range, f) = none

unfoldable pub on_reading :
    StreamFsm → MultiplexerElem → List MultiplexerElem → BackendMessage → Option StreamResult
unfolding after_resume
on_reading s e es msg = do f ← s.fsm; after_resume s e es (resume f msg)

abbrev is_ready_for_query : Kind → Bool
is_ready_for_query Kind.ready_for_query = true
is_ready_for_query _ = false

unfoldable pub on_ignoring :
    StreamFsm → MultiplexerElem → List MultiplexerElem → BackendMessage → Option StreamResult
on_ignoring s e es msg =
    let left = decrement s.remaining_rfq in
    let counted = record s { remaining_rfq = left } in
    if is_ready_for_query msg.kind
    then (if left == 0
        then some (record {
          ec = none;
          stream = record counted { status = StreamStatus.initial };
          elems = es;
          completed = [];
        })
        else some (record { ec = none; stream = counted; elems = e ∷ es; completed = [] }))
    else some (record { ec = none; stream = s; elems = e ∷ es; completed = [] })

-- The first block of on_message, on the request at the front, and then the switch. A request that
-- is read must be there: its pointer is dereferenced.
unfoldable pub on_first :
    StreamFsm → MultiplexerElem → List MultiplexerElem → BackendMessage → Option StreamResult
on_first s e es msg =
    let ignored =
      on_ignoring (record s { status = StreamStatus.ignoring; remaining_rfq = e.num_rfq }) e es
        msg in
    let started : Option StreamResult = do
      r ← e.req
      on_reading
          (record s {
            status = StreamStatus.reading;
            fsm = some (start r.messages false);
            handler = e.res;
          })
          e es msg
    in elim e.status [ ElemStatus.abandoned_in_flight ↦ ignored | _ ↦ started ]

stream_front :
    StreamStatus → StreamFsm → List MultiplexerElem → BackendMessage → Option StreamResult
stream_front StreamStatus.initial s [] msg =
    some (record { ec = some (client unmatched_request); stream = s; elems = []; completed = [] })
stream_front StreamStatus.initial s (e ∷ es) msg = on_first s e es msg
stream_front StreamStatus.reading s (e ∷ es) msg = on_reading s e es msg
stream_front StreamStatus.ignoring s (e ∷ es) msg = on_ignoring s e es msg
stream_front _ s [] msg = none

-- read_response_stream_fsm::on_message
unfoldable pub stream_on_message :
    StreamFsm → List MultiplexerElem → BackendMessage → Option StreamResult
unfolding stream_front
stream_on_message s elems msg = elim s.status [
  | StreamStatus.initial ↦ stream_front StreamStatus.initial s (drop_abandoned elems) msg
  | StreamStatus.reading ↦ stream_front StreamStatus.reading s elems msg
  | StreamStatus.ignoring ↦ stream_front StreamStatus.ignoring s elems msg
]

-- multiplexer, with the calls of on_done that it has made, oldest first, and the next address.
pub record Multiplexer : Type 0 where
  pub write_buffer : List ℕ
  pub elems : List MultiplexerElem
  pub num_pending : ℕ
  pub stream : StreamFsm
  pub completions : List Completion
  pub next_handle : ℕ

unfoldable pub empty : Multiplexer
empty = record {
  write_buffer = [];
  elems = [];
  num_pending = 0;
  stream = record { status = StreamStatus.initial; fsm = none; handler = none; remaining_rfq = 0 };
  completions = [];
  next_handle = 0;
}

abbrev pub new_elem : ℕ → Request → ℕ → ℕ → MultiplexerElem
new_elem h req res on_done = record {
  handle = h;
  req = some req;
  res = some res;
  on_done = some on_done;
  status = ElemStatus.pending;
  num_rfq = 0;
}

unfoldable pub add : Multiplexer → Request → ℕ → ℕ → Multiplexer × ℕ
add m req res on_done = (
  record m {
    elems = m.elems ++ (new_elem m.next_handle req res on_done ∷ []);
    num_pending = suc m.num_pending;
    next_handle = suc m.next_handle;
  },
  m.next_handle,
)

abbrev pub forget : MultiplexerElem → MultiplexerElem
forget e = record e { req = none; res = none; on_done = none }

-- The switch of cancel. The flag says that the answer to this request is being read.
unfoldable pub cancel_elem : Bool → MultiplexerElem → Option MultiplexerElem
cancel_elem current e =
    let counted : Option MultiplexerElem = do
      r ← e.req
      some (
          forget (record e {
            status = ElemStatus.abandoned_in_flight;
            num_rfq = get_expected_rfqs r.messages;
          }))
    in let flying : Option MultiplexerElem =
        if current
        then some (forget (record e { status = ElemStatus.abandoned_in_flight }))
        else counted in
      elim e.status [
        | ElemStatus.pending ↦ some (forget (record e { status = ElemStatus.abandoned_pending }))
        | ElemStatus.in_flight ↦ flying
        | _ ↦ some (forget e)
      ]

-- The element that a pointer names; a pointer to none is undefined.
unfoldable pub cancel_in : Bool → ℕ → List MultiplexerElem → Option (List MultiplexerElem)
cancel_in current h [] = none
cancel_in current h (e ∷ es) =
    let here : Option (List MultiplexerElem) = (do e' ← cancel_elem current e; some (e' ∷ es)) in
    let later : Option (List MultiplexerElem) = (do es' ← cancel_in false h es; some (e ∷ es')) in
    if e.handle == h then here else later

-- abandon_current
unfoldable pub abandon_current : StreamFsm → Option StreamFsm
abandon_current s = do
  f ← s.fsm
  some (record s {
    status = StreamStatus.ignoring;
    remaining_rfq = get_expected_rfqs (get_remaining_messages f);
  })

abbrev pub is_reading : StreamStatus → Bool
is_reading StreamStatus.reading = true
is_reading _ = false

abbrev is_in_flight : ElemStatus → Bool
is_in_flight ElemStatus.in_flight = true
is_in_flight _ = false

-- Whether the call of abandon_current is made.
abbrev pub abandons : Multiplexer → ℕ → List MultiplexerElem → Bool
abandons m h [] = false
abandons m h (e ∷ es) = (e.handle == h) && (is_in_flight e.status && is_reading m.stream.status)

unfoldable pub cancel : Multiplexer → ℕ → Option Multiplexer
cancel m h =
    let abandoned : Option Multiplexer = do
      s ← abandon_current m.stream
      es ← cancel_in true h m.elems
      some (record m { elems = es; stream = s })
    in let kept : Option Multiplexer = do
      es ← cancel_in false h m.elems
      some (record m { elems = es })
      in if abandons m h m.elems then abandoned else kept

-- pending_offset, as iterator arithmetic: undefined when the count exceeds the queue.
unfoldable pub pending_offset : Multiplexer → Option ℕ
pending_offset m =
    if leb m.num_pending (length m.elems) then some (length m.elems - m.num_pending) else none

-- The loop of prepare_write over the pending requests: the buffer, and the elements. The request
-- of a pending element must be there.
unfoldable pub write_elem : List ℕ → MultiplexerElem → Option (List ℕ × MultiplexerElem)
write_elem buffer e =
    let written : Option (List ℕ × MultiplexerElem) = do
      r ← e.req
      some (buffer ++ r.payload, record e { status = ElemStatus.in_flight })
    in elim e.status [ ElemStatus.pending ↦ written | _ ↦ some (buffer, e) ]

unfoldable pub write_elems : List ℕ → List MultiplexerElem → Option (List ℕ × List MultiplexerElem)
write_elems buffer [] = some (buffer, [])
write_elems buffer (e ∷ es) = do
  (buffer', e') ← write_elem buffer e
  (buffer'', es') ← write_elems buffer' es
  some (buffer'', e' ∷ es')

unfoldable pub prepare_write : Multiplexer → Option Multiplexer
prepare_write m = do
  n ← pending_offset m
  (buffer, es) ← write_elems [] (drop n m.elems)
  some (record m { write_buffer = buffer; elems = take n m.elems ++ es; num_pending = 0 })

-- The result of multiplexer::on_message with the new state.
abbrev pub MuxResult : Type 0
MuxResult = ErrorCode × Multiplexer

unfoldable pub on_message : Multiplexer → BackendMessage → Option MuxResult
on_message m msg =
    let handled : Option MuxResult = do
      r ← stream_on_message m.stream m.elems msg
      some (
        r.ec,
        record m { stream = r.stream; elems = r.elems; completions = m.completions ++ r.completed },
      )
    in if is_async msg.kind then some (none, m) else handled

-- The code of std::errc::operation_canceled.
abbrev pub operation_canceled : ErrorCode
operation_canceled = some (foreign 125)

abbrev pub canceled_all : List MultiplexerElem → List Completion
canceled_all = map (λ e. (e.on_done, operation_canceled))

unfoldable pub cleanup : Multiplexer → Option Multiplexer
cleanup m = do
  n ← pending_offset m
  some (record m {
    elems = drop n m.elems;
    stream = record (m.stream) { status = StreamStatus.initial };
    completions = m.completions ++ canceled_all (take n m.elems);
  })
