-- ===== src/Multiplexer/Invariant.antt =====
-- The queue of multiplexer.hpp in order, and the number of ready_for_query messages that the
-- server still owes for what has been written.
use nativepg.Prelude.{
  ℕ, ◌+◌, ◌-◌, ◌^◌, ◌<◌, ◌≤◌, ◌≡◌, ◌∙◌, ap, List, [], ◌∷◌, ◌++◌, Option, none, some, length,
  length-append, take, drop, take-append_length, length-drop, le→leb, Bool, drop-append_length, All,
  arith,
}
use nativepg.Protocol.{RequestMessageType}
use nativepg.CheckRequest.{check_batches, check_request, get_expected_rfqs}
use nativepg.CheckRequest.Batches.{rest_expects, get_expected_rfqs-le-length}
use nativepg.ReadResponse.{State, ReadResponseFsm, get_remaining_messages}
use nativepg.ReadResponse.Accounting.{Fits, expected, Inv}
use nativepg.Multiplexer.{
  Request, ElemStatus, MultiplexerElem, StreamStatus, StreamFsm, Multiplexer, pending_offset,
}

-- A request that execute may hand over: well formed, and of a size that memory can hold.
abbrev pub IsValidRequest : Request → Type 0
IsValidRequest r = (check_request r.messages ≡ none) × (length r.messages < 2 ^ 64)

abbrev pub HasRequest : Option Request → Type 0
HasRequest none = ⊥
HasRequest (some r) = IsValidRequest r

-- What the status of a written element promises, and of one that waits to be written.
abbrev pub SentAs : ElemStatus → Option Request → ℕ → Type 0
SentAs ElemStatus.pending r n = ⊥
SentAs ElemStatus.in_flight r n = HasRequest r
SentAs ElemStatus.abandoned_pending r n = Unit {0}
SentAs ElemStatus.abandoned_in_flight r n = (0 < n) × (n < 2 ^ 64)

abbrev pub WaitingAs : ElemStatus → Option Request → Type 0
WaitingAs ElemStatus.pending r = HasRequest r
WaitingAs ElemStatus.abandoned_pending r = Unit {0}
WaitingAs _ r = ⊥

abbrev pub IsSent : MultiplexerElem → Type 0
IsSent e = SentAs e.status e.req e.num_rfq

abbrev pub IsWaiting : MultiplexerElem → Type 0
IsWaiting e = WaitingAs e.status e.req

-- The machine reads the answer to the request, in order.
abbrev pub Reads : Option ReadResponseFsm → Option Request → Type 0
Reads none r = ⊥
Reads (some f) none = ⊥
Reads (some f) (some r) = Inv f × (f.req ≡ r.messages) × IsValidRequest r

abbrev pub StreamOk : StreamStatus → StreamFsm → List MultiplexerElem → Type 0
StreamOk StreamStatus.initial s es = All IsSent es
StreamOk StreamStatus.reading s [] = ⊥
StreamOk StreamStatus.reading s (e ∷ es) =
    (e.status ≡ ElemStatus.in_flight) × Reads s.fsm e.req × All IsSent es
StreamOk StreamStatus.ignoring s [] = ⊥
StreamOk StreamStatus.ignoring s (e ∷ es) =
    (e.status ≡ ElemStatus.abandoned_in_flight)
    × (0 < s.remaining_rfq)
    × (s.remaining_rfq < 2 ^ 64)
    × All IsSent es

-- The queue is what has been written, in order, and behind it what has not, counted.
pub record MuxInv (m : Multiplexer) : Type 0 where
  pub sent : List MultiplexerElem
  pub waiting : List MultiplexerElem
  pub split : m.elems ≡ sent ++ waiting
  pub counted : m.num_pending ≡ length waiting
  pub stream_ok : StreamOk m.stream.status m.stream sent
  pub waiting_ok : All IsWaiting waiting

-- The ready_for_query messages owed for one element, for a list of them, and in all.
abbrev pub rfqs_of_request : Option Request → ℕ
rfqs_of_request none = 0
rfqs_of_request (some r) = get_expected_rfqs r.messages

abbrev pub owed_as : ElemStatus → Option Request → ℕ → ℕ
owed_as ElemStatus.in_flight r n = rfqs_of_request r
owed_as ElemStatus.abandoned_in_flight r n = n
owed_as _ r n = 0

abbrev pub owed : MultiplexerElem → ℕ
owed e = owed_as e.status e.req e.num_rfq

abbrev pub owed_all : List MultiplexerElem → ℕ
owed_all [] = 0
owed_all (e ∷ es) = owed e + owed_all es

abbrev pub expected_by : Option ReadResponseFsm → ℕ
expected_by none = 0
expected_by (some f) = expected f

abbrev pub outstanding_as : StreamStatus → StreamFsm → List MultiplexerElem → ℕ
outstanding_as StreamStatus.initial s es = owed_all es
outstanding_as StreamStatus.reading s [] = expected_by s.fsm
outstanding_as StreamStatus.reading s (e ∷ es) = expected_by s.fsm + owed_all es
outstanding_as StreamStatus.ignoring s [] = s.remaining_rfq
outstanding_as StreamStatus.ignoring s (e ∷ es) = s.remaining_rfq + owed_all es

abbrev pub sent_part : Multiplexer → List MultiplexerElem
sent_part m = take (length m.elems - m.num_pending) m.elems

abbrev pub waiting_part : Multiplexer → List MultiplexerElem
waiting_part m = drop (length m.elems - m.num_pending) m.elems

abbrev pub outstanding : Multiplexer → ℕ
outstanding m = outstanding_as m.stream.status m.stream (sent_part m)

-- The parts that the offset cuts are those of the invariant.
module _ {m : Multiplexer} (v : MuxInv m) where
  pub length-sent : length m.elems - m.num_pending ≡ length v.sent
  length-sent = omega (arith, ap length v.split, length-append v.sent v.waiting, v.counted)

  pub sent_part_lem : sent_part m ≡ v.sent
  sent_part_lem =
      ap (λ n. take n m.elems) length-sent
      ∙ ap (take (length v.sent)) v.split
      ∙ take-append_length v.sent v.waiting

  pub outstanding_lem : outstanding m ≡ outstanding_as m.stream.status m.stream v.sent
  outstanding_lem = ap (outstanding_as m.stream.status m.stream) sent_part_lem

  pub pending_offset_lem : pending_offset m ≡ some (length v.sent)
  unfolding pending_offset
  pending_offset_lem = rw (le→leb m.num_pending (length m.elems) fits) (ap some length-sent)
    where
      fits : m.num_pending ≤ length m.elems
      fits = omega (arith, ap length v.split, length-append v.sent v.waiting, v.counted)

  pub drop-sent : drop (length v.sent) m.elems ≡ v.waiting
  drop-sent = ap (drop (length v.sent)) v.split ∙ drop-append_length v.sent v.waiting

pub waiting_part_lem : {m : Multiplexer} (v : MuxInv m) → waiting_part m ≡ v.waiting
waiting_part_lem {m} v = ap (λ n. drop n m.elems) (length-sent v) ∙ drop-sent v

remaining_expects :
    (ms : List RequestMessageType) (b : Bool) (s : State)
    → Fits ms s
    → check_batches b ms ≡ none
    → 0 < get_expected_rfqs ms
remaining_expects [] b s fits h = elim fits [ ]
remaining_expects (m ∷ ms) b s fits h = rest_expects b m ms h

-- A machine in order expects something, and no more than the request is long.
pub expected-pos : (f : ReadResponseFsm) → Inv f → 0 < expected f
expected-pos f v = remaining_expects (get_remaining_messages f) v.in_batch f.state v.fits v.checked

pub expected-le : (f : ReadResponseFsm) → expected f ≤ length f.req
expected-le f =
    omega
      (arith, get_expected_rfqs-le-length (get_remaining_messages f), length-drop f.current f.req)
