-- ===== src/Multiplexer/Tests.antt =====
-- Runs of the multiplexer.
use nativepg.Prelude.{◌+◌, ◌≡◌, ◌<◌, refl, [], ◌∷◌, ◌++◌, none, some, arith}
use nativepg.Protocol.{query, sync, parse, BackendMessage, Kind, client, unmatched_request}
use nativepg.CheckRequest.{check_batches, check_request, get_expected_rfqs}
use nativepg.Multiplexer.{
  Request, ElemStatus, MultiplexerElem, StreamStatus, Multiplexer, new_elem, add, prepare_write,
  on_message, cleanup, canceled_all,
}
use nativepg.ReadResponse.{is_async}
use nativepg.Multiplexer.Invariant.{MuxInv, IsValidRequest, outstanding, sent_part, waiting_part}
use nativepg.Multiplexer.OnMessage.{AfterMessage, on_message-AfterMessage}
use nativepg.Multiplexer.Writing.{add-MuxInv, prepare_write_lem, cleanup_lem, payloads, requested}
use nativepg.Multiplexer.Unsolicited.{unsolicited_breaks_cleanup}

abbrev one_query : Request
one_query = record { messages = query ∷ []; payload = 81 ∷ [] }

abbrev one_batch : Request
one_batch = record { messages = parse ∷ sync ∷ []; payload = 80 ∷ 83 ∷ [] }

one_query_valid : IsValidRequest one_query
unfolding check_request check_batches
one_query_valid = (refl, omega arith)

one_batch_valid : IsValidRequest one_batch
unfolding check_request check_batches
one_batch_valid = (refl, omega arith)

-- One request in flight and one that waits.
abbrev flying : MultiplexerElem
flying = record {
  handle = 0;
  req = some one_query;
  res = some 7;
  on_done = some 5;
  status = ElemStatus.in_flight;
  num_rfq = 0;
}

abbrev busy : Multiplexer
busy = record {
  write_buffer = 81 ∷ [];
  elems = flying ∷ new_elem 1 one_batch 8 6 ∷ [];
  num_pending = 1;
  stream = record { status = StreamStatus.initial; fsm = none; handler = none; remaining_rfq = 0 };
  completions = [];
  next_handle = 2;
}

busy-MuxInv : MuxInv busy
busy-MuxInv = record {
  sent = flying ∷ [];
  waiting = new_elem 1 one_batch 8 6 ∷ [];
  split = refl;
  counted = refl;
  stream_ok = (one_query_valid, tt);
  waiting_ok = (one_batch_valid, tt);
}

busy_owed : 0 < outstanding busy
unfolding get_expected_rfqs
busy_owed = omega arith

abbrev ready : BackendMessage
ready = record { kind = Kind.ready_for_query; body = [] }

on_message-AfterMessage_example : AfterMessage busy Kind.ready_for_query (on_message busy ready)
on_message-AfterMessage_example = on_message-AfterMessage busy ready busy-MuxInv busy_owed

add-MuxInv_example :
    let (m', h) = add busy one_batch 9 4 in
    MuxInv m'
    × ((e : MultiplexerElem) × (waiting_part m' ≡ waiting_part busy ++ (e ∷ []))
        × (e.handle ≡ h)
        × (e.res ≡ some 9)
        × (e.on_done ≡ some 4))
    × (payloads (waiting_part m') ≡ payloads (waiting_part busy) ++ one_batch.payload)
    × (requested (waiting_part m')
        ≡ requested (waiting_part busy) + get_expected_rfqs one_batch.messages)
    × (sent_part m' ≡ sent_part busy)
    × (outstanding m' ≡ outstanding busy)
    × (m'.completions ≡ busy.completions)
add-MuxInv_example = add-MuxInv busy one_batch 9 4 busy-MuxInv one_batch_valid

prepare_write_lem_example :
    (m' : Multiplexer) × (prepare_write busy ≡ some m')
    × MuxInv m'
    × (m'.write_buffer ≡ payloads (waiting_part busy))
    × (m'.num_pending ≡ 0)
    × (outstanding m' ≡ outstanding busy + requested (waiting_part busy))
prepare_write_lem_example = prepare_write_lem busy busy-MuxInv

cleanup_lem_example :
    (m' : Multiplexer) × (cleanup busy ≡ some m')
    × MuxInv m'
    × (m'.elems ≡ waiting_part busy)
    × (m'.completions ≡ busy.completions ++ canceled_all (sent_part busy))
    × (outstanding m' ≡ 0)
cleanup_lem_example = cleanup_lem busy busy-MuxInv

-- A request that was cancelled before it was written.
abbrev abandoned : Multiplexer
abandoned = record {
  write_buffer = [];
  elems =
      record {
        handle = 0;
        req = none;
        res = none;
        on_done = none;
        status = ElemStatus.abandoned_pending;
        num_rfq = 0;
      }
      ∷ [];
  num_pending = 1;
  stream = record { status = StreamStatus.initial; fsm = none; handler = none; remaining_rfq = 0 };
  completions = [];
  next_handle = 1;
}

abbrev refused : BackendMessage
refused = record { kind = Kind.error_response; body = [] }

unsolicited_breaks_cleanup_example :
    (m' : Multiplexer) × (on_message abandoned refused ≡ some (some (client unmatched_request), m'))
    × (cleanup m' ≡ none)
    × (prepare_write m' ≡ none)
unfolding is_async
unsolicited_breaks_cleanup_example =
    unsolicited_breaks_cleanup abandoned refused refl (refl, tt) (omega arith) refl
